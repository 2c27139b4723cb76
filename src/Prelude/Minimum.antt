-- ===== src/Prelude/Minimum.antt =====
-- `ORDER BY … LIMIT 1`: the first row in an order given by a strict test.
use Prim.Native.Nat.{ℕ, ◌≤◌}
use native.Mathlib.Omega.{arith}
use mathlib.Core.Path.{◌≡◌, refl, sym, subst}
use mathlib.Core.Logic.{inl, inr}
use mathlib.Core.Bool.{Bool, true, false}
use mathlib.Core.List.{List, [], ◌∷◌}
use mathlib.Core.Option.{Option, none, some}
use write_relay.Prelude.Tests.{if◌then◌else◌, Bool-cases}
use write_relay.Prelude.Predicates.{All}

module _ {ℓ} {A : Type ℓ} (less : A → A → Bool) where
  pub least : A → List A → A
  least x [] = x
  least x (y ∷ ys) = least (if less y x then y else x) ys

  unfoldable pub minimum_by : List A → Option A
  unfolding least
  minimum_by [] = none
  minimum_by (x ∷ xs) = some (least x xs)

  least-All {κ} : (P : A → Type κ) (x : A) (xs : List A) → P x → All P xs → P (least x xs)
  unfolding least
  least-All P x [] p ps = p
  least-All P x (y ∷ ys) p ps = elim (Bool-cases (less y x)) [
    | inl lt ↦ rw lt (least-All P y ys ps.0 ps.1)
    | inr ge ↦ rw ge (least-All P x ys p ps.1)
  ]

  -- No row stands before `a`.
  abbrev pub AtMost : A → List A → Type 0
  AtMost a = All (λ x. less x a ≡ false)

  -- The minimum is one of the rows: what holds of all of them holds of it.
  pub minimum_by-All {κ} :
      (P : A → Type κ) (xs : List A) {a : A} → All P xs → minimum_by xs ≡ some a → P a
  unfolding minimum_by
  minimum_by-All P [] ps e = cc
  minimum_by-All P (x ∷ xs) {a} ps e =
      let same : least x xs ≡ a = cc in rw (← same) (least-All P x xs ps.0 ps.1)

  pub minimum_by-eq-none : (xs : List A) → minimum_by xs ≡ none → xs ≡ []
  unfolding minimum_by
  minimum_by-eq-none [] e = refl
  minimum_by-eq-none (x ∷ xs) e = cc

  -- The minimum is least by every measure that the order respects.
  module _ (f : A → ℕ) (down : (a b : A) → less b a ≡ true → f b ≤ f a)
      (up : (a b : A) → less b a ≡ false → f a ≤ f b) where
    least-measure : (x : A) (xs : List A) → All (λ a. f (least x xs) ≤ f a) (x ∷ xs)
    unfolding least
    least-measure x [] = (omega arith, tt)
    least-measure x (y ∷ ys) = elim (Bool-cases (less y x)) [
      | inl lt ↦
          let (first, rest) = least-measure y ys in
          subst (λ (b : Bool). All (λ a. f (least (if b then y else x) ys) ≤ f a) (x ∷ y ∷ ys))
            (sym lt) (omega (arith, first, down x y lt), (first, rest))
      | inr ge ↦
          let (first, rest) = least-measure x ys in
          subst (λ (b : Bool). All (λ a. f (least (if b then y else x) ys) ≤ f a) (x ∷ y ∷ ys))
            (sym ge) (first, (omega (arith, first, up x y ge), rest))
    ]

    pub minimum_by-measure :
        (xs : List A) {a : A} → minimum_by xs ≡ some a → All (λ x. f a ≤ f x) xs
    unfolding minimum_by
    minimum_by-measure [] e = tt
    minimum_by-measure (x ∷ xs) {a} e =
        let same : least x xs ≡ a = cc in
        subst (λ w. All (λ b. f w ≤ f b) (x ∷ xs)) same (least-measure x xs)

  module _ (irrefl : (a : A) → less a a ≡ false)
      (trans : (a b c : A) → less b a ≡ false → less c b ≡ false → less c a ≡ false)
      (asym : (a b : A) → less a b ≡ true → less b a ≡ false) where
    least-le : (x : A) (xs : List A) → AtMost (least x xs) (x ∷ xs)
    unfolding least
    least-le x [] = (irrefl x, tt)
    least-le x (y ∷ ys) = elim (Bool-cases (less y x)) [
      | inl lt ↦
          let (first, rest) = least-le y ys in
          subst (λ (b : Bool). AtMost (least (if b then y else x) ys) (x ∷ y ∷ ys)) (sym lt)
            (trans _ y x first (asym y x lt), (first, rest))
      | inr ge ↦
          let (first, rest) = least-le x ys in
          subst (λ (b : Bool). AtMost (least (if b then y else x) ys) (x ∷ y ∷ ys)) (sym ge)
            (first, (trans _ x y first ge, rest))
    ]

    -- No row stands before the minimum.
    pub minimum_by-least : (xs : List A) {a : A} → minimum_by xs ≡ some a → AtMost a xs
    unfolding minimum_by
    minimum_by-least [] e = tt
    minimum_by-least (x ∷ xs) {a} e =
        let same : least x xs ≡ a = cc in subst (λ w. AtMost w (x ∷ xs)) same (least-le x xs)
