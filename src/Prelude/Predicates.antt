-- ===== src/Prelude/Predicates.antt =====
-- Predicates on every row of a table, by recursion, so that the tactics read and build them.
use Prim.Native.Nat.{ℕ, zero, suc}
use mathlib.Core.Path.{◌≡◌, refl, sym, subst}
use mathlib.Core.Logic.{inl, inr, ◌≢◌}
use mathlib.Core.Bool.{Bool, true}
use mathlib.Core.List.{List, [], ◌∷◌, ◌++◌, Memᴰ}
use mathlib.Core.Option.{some}
use write_relay.Prelude.Tests.{Bool-cases}
use write_relay.Prelude.Lists.{find, select, take, update, all}

abbrev pub All {ℓ κ} : {A : Type ℓ} → (A → Type κ) → List A → Type κ
All P [] = Unit
All P (x ∷ xs) = P x × All P xs

module _ {ℓ κ} {A : Type ℓ} (P : A → Type κ) where
  pub All-append : (xs ys : List A) → All P xs → All P ys → All P (xs ++ ys)
  All-append [] ys hx hy = hy
  All-append (x ∷ xs) ys hx hy = (hx.0, All-append xs ys hx.1 hy)

  pub All-find : (p : A → Bool) (xs : List A) {a : A} → All P xs → find p xs ≡ some a → P a
  All-find p [] h e = cc
  All-find p (x ∷ xs) {a} h e = elim (Bool-cases (p x)) [
    | inl hit ↦ let same : x ≡ a = cc (rw hit at e) in subst P same h.0
    | inr miss ↦ All-find p xs h.1 (rw miss at e)
  ]

  pub All-select : (p : A → Bool) (xs : List A) → All P xs → All P (select p xs)
  All-select p [] h = tt
  All-select p (x ∷ xs) h = elim (Bool-cases (p x)) [
    | inl hit ↦ rw hit (h.0, All-select p xs h.1)
    | inr miss ↦ rw miss (All-select p xs h.1)
  ]

  pub All-take : (n : ℕ) (xs : List A) → All P xs → All P (take n xs)
  All-take zero xs h = tt
  All-take (suc n) [] h = tt
  All-take (suc n) (x ∷ xs) h = (h.0, All-take n xs h.1)

  -- An update keeps a predicate that its change keeps on the rows that it changes.
  pub All-update :
      (p : A → Bool) (f : A → A)
      → ((a : A) → p a ≡ true → P a → P (f a))
      → (xs : List A) → All P xs
      → All P (update p f xs)
  All-update p f keep [] h = tt
  All-update p f keep (x ∷ xs) h = elim (Bool-cases (p x)) [
    | inl hit ↦ rw hit (keep x hit h.0, All-update p f keep xs h.1)
    | inr miss ↦ rw miss (h.0, All-update p f keep xs h.1)
  ]

module _ {ℓ κ ι} {A : Type ℓ} {P : A → Type κ} {Q : A → Type ι} where
  pub All-mono : ((a : A) → P a → Q a) → (xs : List A) → All P xs → All Q xs
  All-mono f [] h = tt
  All-mono f (x ∷ xs) h = (f x h.0, All-mono f xs h.1)

-- A Boolean condition that selects holds of what it selects.
pub All-select_self {ℓ} :
    {A : Type ℓ} (p : A → Bool) (xs : List A) → All (λ a. p a ≡ true) (select p xs)
All-select_self p [] = tt
All-select_self p (x ∷ xs) = elim (Bool-cases (p x)) [
  | inl hit ↦ rw hit (hit, All-select_self p xs)
  | inr miss ↦ rw miss (All-select_self p xs)
]

pub all→All {ℓ} :
    {A : Type ℓ} (p : A → Bool) (xs : List A) → all p xs ≡ true → All (λ a. p a ≡ true) xs
all→All p [] h = tt
all→All p (x ∷ xs) h = elim (Bool-cases (p x)) [
  | inl hit ↦ (hit, all→All p xs (rw hit at h))
  | inr miss ↦ absurd (cc (rw miss at h))
]

-- Membership as data, which a proof can follow.
module _ {ℓ} {A : Type ℓ} where
  pub find-mem : (p : A → Bool) (xs : List A) {a : A} → find p xs ≡ some a → Memᴰ a xs
  find-mem p [] e = cc
  find-mem p (x ∷ xs) {a} e = elim (Bool-cases (p x)) [
    | inl hit ↦ let same : x ≡ a = cc (rw hit at e) in Memᴰ.head (sym same)
    | inr miss ↦ Memᴰ.tail (find-mem p xs (rw miss at e))
  ]

  pub All-mem {κ} : (P : A → Type κ) (xs : List A) {a : A} → All P xs → Memᴰ a xs → P a
  All-mem P [] h m = elim m [ ]
  All-mem P (x ∷ xs) h (Memᴰ.head e) = subst P (sym e) h.0
  All-mem P (x ∷ xs) h (Memᴰ.tail m) = All-mem P xs h.1 m

  pub All-select_mem :
      (p : A → Bool) (xs : List A) → All (λ a. Memᴰ a xs × (p a ≡ true)) (select p xs)
  All-select_mem p [] = tt
  All-select_mem p (x ∷ xs) =
      let rest = All-mono (λ a m. (Memᴰ.tail m.0, m.1)) (select p xs) (All-select_mem p xs) in
      elim (Bool-cases (p x)) [
        | inl hit ↦ rw hit ((Memᴰ.head refl, hit), rest)
        | inr miss ↦ rw miss rest
      ]

  pub All-mem_self : (xs : List A) → All (λ x. Memᴰ x xs) xs
  All-mem_self [] = tt
  All-mem_self (x ∷ xs) = (Memᴰ.head refl, All-mono (λ a m. Memᴰ.tail m) xs (All-mem_self xs))

  pub select-mem :
      (p : A → Bool) (a : A) (xs : List A) → p a ≡ true → Memᴰ a xs → Memᴰ a (select p xs)
  select-mem p a [] h m = elim m [ ]
  select-mem p a (x ∷ xs) h (Memᴰ.head e) = rw (subst (λ y. p y ≡ true) e h) (Memᴰ.head e)
  select-mem p a (x ∷ xs) h (Memᴰ.tail m) = elim (Bool-cases (p x)) [
    | inl hit ↦ rw hit (Memᴰ.tail (select-mem p a xs h m))
    | inr miss ↦ rw miss (select-mem p a xs h m)
  ]

  pub mem-not-nil : (a : A) (xs : List A) → Memᴰ a xs → xs ≢ []
  mem-not-nil a [] m e = elim m [ ]
  mem-not-nil a (x ∷ xs) m e = cc
