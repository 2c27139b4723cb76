-- ===== src/Prelude/Sort.antt =====
-- `ORDER BY`: insertion sort by a strict test, and what it keeps.
use Prim.Native.Nat.{ℕ, zero, suc}
use mathlib.Core.Path.{◌≡◌}
use mathlib.Core.Logic.{inl, inr}
use mathlib.Core.Bool.{Bool, true, false}
use mathlib.Core.List.{List, [], ◌∷◌, Memᴰ}
use write_relay.Prelude.Tests.{if◌then◌else◌, Bool-cases}
use write_relay.Prelude.Lists.{take}
use write_relay.Prelude.Predicates.{All, All-mono, All-take}

module _ {ℓ} {A : Type ℓ} (less : A → A → Bool) where
  unfoldable pub insert_by : A → List A → List A
  insert_by x [] = x ∷ []
  insert_by x (y ∷ ys) = let rest = insert_by x ys in if less y x then y ∷ rest else x ∷ y ∷ ys

  unfoldable pub sort_by : List A → List A
  sort_by [] = []
  sort_by (x ∷ xs) = insert_by x (sort_by xs)

  -- No row stands before one that it follows.
  abbrev pub Sorted : List A → Type 0
  Sorted [] = Unit {0}
  Sorted (x ∷ xs) = All (λ y. less y x ≡ false) xs × Sorted xs

  insert_by-All {κ} :
      (P : A → Type κ) (x : A) (xs : List A) → P x → All P xs → All P (insert_by x xs)
  unfolding insert_by
  insert_by-All P x [] p ps = (p, tt)
  insert_by-All P x (y ∷ ys) p ps = elim (Bool-cases (less y x)) [
    | inl before ↦ rw before (ps.0, insert_by-All P x ys p ps.1)
    | inr after ↦ rw after (p, ps)
  ]

  pub sort_by-All {κ} : (P : A → Type κ) (xs : List A) → All P xs → All P (sort_by xs)
  unfolding sort_by
  sort_by-All P [] ps = tt
  sort_by-All P (x ∷ xs) ps = insert_by-All P x (sort_by xs) ps.0 (sort_by-All P xs ps.1)

  swapped :
      (x y a : A) (ys zs : List A)
      → (Memᴰ a (x ∷ ys) → Memᴰ a zs)
      → Memᴰ a (x ∷ y ∷ ys)
      → Memᴰ a (y ∷ zs)
  swapped x y a ys zs inner (Memᴰ.head e) = Memᴰ.tail (inner (Memᴰ.head e))
  swapped x y a ys zs inner (Memᴰ.tail (Memᴰ.head e)) = Memᴰ.head e
  swapped x y a ys zs inner (Memᴰ.tail (Memᴰ.tail k)) = Memᴰ.tail (inner (Memᴰ.tail k))

  insert_by-mem : (x a : A) (xs : List A) → Memᴰ a (x ∷ xs) → Memᴰ a (insert_by x xs)
  unfolding insert_by
  insert_by-mem x a [] m = m
  insert_by-mem x a (y ∷ ys) m = elim (Bool-cases (less y x)) [
    | inl before ↦ rw before (swapped x y a ys (insert_by x ys) (insert_by-mem x a ys) m)
    | inr after ↦ rw after m
  ]

  pub sort_by-mem : (a : A) (xs : List A) → Memᴰ a xs → Memᴰ a (sort_by xs)
  unfolding sort_by
  sort_by-mem a [] m = elim m [ ]
  sort_by-mem a (x ∷ xs) (Memᴰ.head e) = insert_by-mem x a (sort_by xs) (Memᴰ.head e)
  sort_by-mem a (x ∷ xs) (Memᴰ.tail m) =
      insert_by-mem x a (sort_by xs) (Memᴰ.tail (sort_by-mem a xs m))

  module _ (trans : (a b c : A) → less b a ≡ false → less c b ≡ false → less c a ≡ false)
      (asym : (a b : A) → less a b ≡ true → less b a ≡ false) where
    insert_by-Sorted : (x : A) (xs : List A) → Sorted xs → Sorted (insert_by x xs)
    unfolding insert_by
    insert_by-Sorted x [] s = (tt, tt)
    insert_by-Sorted x (y ∷ ys) s = elim (Bool-cases (less y x)) [
      | inl before ↦ rw before (
        insert_by-All (λ z. less z y ≡ false) x ys (asym y x before) s.0,
        insert_by-Sorted x ys s.1,
      )
      | inr after ↦ rw after ((after, All-mono (λ z later. trans x y z after later) ys s.0), s)
    ]

    pub sort_by-Sorted : (xs : List A) → Sorted (sort_by xs)
    unfolding sort_by
    sort_by-Sorted [] = tt
    sort_by-Sorted (x ∷ xs) = insert_by-Sorted x (sort_by xs) (sort_by-Sorted xs)

  pub take-Sorted : (n : ℕ) (xs : List A) → Sorted xs → Sorted (take n xs)
  take-Sorted zero xs s = tt
  take-Sorted (suc n) [] s = tt
  take-Sorted (suc n) (x ∷ xs) s = (All-take (λ y. less y x ≡ false) n xs s.0, take-Sorted n xs s.1)
