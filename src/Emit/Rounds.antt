-- ===== src/Emit/Rounds.antt =====
-- The rounds of the loop over the escapes, and what each decides.
use write_relay.Prelude.{
  ℕ, suc, ◌≡◌, refl, ◌∙◌, ◌⊎◌, inl, inr, Bool, true, false, ◌||◌, some, List, [], ◌∷◌, arith, ◌==◌,
  if◌then◌else◌, Bool-cases,
}
use write_relay.Emit.Escapes.{
  parse_hex, is_low, is_high, returns, continues, after_high, after_code, round, Scan, verdict,
  scan,
}
use write_relay.Emit.Document.{Basic, High, Low}

abbrev pub Decides : Type 0 → Scan → Type 0
Decides P s = ((s ≡ verdict true) × P) ⊎ ((s ≡ verdict false) × (P → ⊥))

pub scan-returns :
    (fuel : ℕ) (xs : List ℕ) {b : Bool} → round xs ≡ returns b → scan (suc fuel) xs ≡ verdict b
unfolding scan
scan-returns fuel xs h = rw (scan, h) refl

pub scan-continues :
    (fuel : ℕ) (xs rest : List ℕ) → round xs ≡ continues rest → scan (suc fuel) xs ≡ scan fuel rest
unfolding scan
scan-continues fuel xs rest h = rw (scan, h) refl

pub returned :
    {P : Type 0} (fuel : ℕ) (xs : List ℕ)
    → round xs ≡ returns false
    → (P → ⊥)
    → Decides P (scan (suc fuel) xs)
returned fuel xs h never = inr (scan-returns fuel xs h, never)

pub continued :
    {P Q : Type 0} (fuel : ℕ) (xs rest : List ℕ)
    → round xs ≡ continues rest
    → (P → Q)
    → (Q → P)
    → Decides P (scan fuel rest)
    → Decides Q (scan (suc fuel) xs)
continued fuel xs rest h to from d = elim d [
  | inl (accepted, p) ↦ inl (scan-continues fuel xs rest h ∙ accepted, to p)
  | inr (refused, never) ↦ inr (scan-continues fuel xs rest h ∙ refused, λ q. never (from q))
]

pub after_high-plain :
    (c : ℕ) (xs : List ℕ) → (c == 92) ≡ false → after_high (c ∷ xs) ≡ returns false
after_high-plain c (u ∷ x ∷ y ∷ z ∷ w ∷ rest) h = rw h refl
after_high-plain c _ h = refl

pub after_high-short :
    (c : ℕ) (xs : List ℕ) → (c == 117) ≡ false → after_high (92 ∷ c ∷ xs) ≡ returns false
after_high-short c (x ∷ y ∷ z ∷ w ∷ rest) h = rw h refl
after_high-short c _ h = refl

-- A unit is refused, stands by itself, or is high.
pub data UnitKind (u : ℕ) : Type 0 where
  bad :
      ((rest : List ℕ) → after_code u rest ≡ returns false)
      → (Basic u → ⊥)
      → (High u → ⊥)
      → UnitKind u
  alone :
      ((rest : List ℕ) → after_code u rest ≡ continues rest) → Basic u → (High u → ⊥) → UnitKind u
  leads :
      ((rest : List ℕ) → after_code u rest ≡ after_high rest) → High u → (Basic u → ⊥) → UnitKind u

pub unit_kind : (u : ℕ) → UnitKind u
unit_kind u = elim (Bool-cases (u == 0 || is_low u)) [
  | inl worthless ↦
      bad (λ rest. rw worthless refl) (λ b. ground (arith, b, worthless))
        (λ h. ground (arith, h, worthless))
  | inr other ↦ elim (Bool-cases (is_high u)) [
    | inl high ↦
        leads (λ rest. rw (other, high) refl) (ground (arith, high)) (λ b. ground (arith, b, high))
    | inr low ↦
        alone (λ rest. rw (other, low) refl) (ground (arith, other, low))
          (λ h. ground (arith, h, low))
  ]
]

pub round-nil : round [] ≡ returns true
unfolding round
round-nil = refl

pub round-plain : (c : ℕ) (rest : List ℕ) → (c == 92) ≡ false → round (c ∷ rest) ≡ continues rest
unfolding round
round-plain c rest h = rw h refl

pub round-short :
    (c : ℕ) (rest : List ℕ) → (c == 117) ≡ false → round (92 ∷ c ∷ rest) ≡ continues rest
unfolding round
round-short c rest h = rw h refl

pub round-unit :
    (a b c d n : ℕ) (rest : List ℕ)
    → parse_hex a b c d ≡ some n
    → round (92 ∷ 117 ∷ a ∷ b ∷ c ∷ d ∷ rest) ≡ after_code n rest
unfolding round
round-unit a b c d n rest h = rw h refl

pub pair_of :
    (a b c d l : ℕ) (rest : List ℕ)
    → parse_hex a b c d ≡ some l
    → after_high (92 ∷ 117 ∷ a ∷ b ∷ c ∷ d ∷ rest)
      ≡ (if is_low l then continues rest else returns false)
pair_of a b c d l rest h = rw h refl

-- A unit with no low one after it.
pub unit_alone :
    {P Q : Type 0} (fuel n : ℕ) (xs rest : List ℕ)
    → round xs ≡ after_code n rest
    → after_high rest ≡ returns false
    → (Basic n → P → Q)
    → (Q → Basic n × P)
    → Decides P (scan fuel rest)
    → Decides Q (scan (suc fuel) xs)
unit_alone fuel n xs rest first lonely to from d = elim (unit_kind n) [
  | bad r notbasic nothigh ↦ returned fuel xs (first ∙ r rest) (λ q. notbasic (from q).0)
  | alone r basic nothigh ↦ continued fuel xs rest (first ∙ r rest) (to basic) (λ q. (from q).1) d
  | leads r high notbasic ↦ returned fuel xs (first ∙ r rest ∙ lonely) (λ q. notbasic (from q).0)
]

-- A unit directly before another.
pub unit_pair :
    {P R : Type 0} (fuel n l : ℕ) (xs rest after : List ℕ)
    → round xs ≡ after_code n rest
    → after_high rest ≡ (if is_low l then continues after else returns false)
    → Decides P (scan fuel rest)
    → Decides R (scan fuel after)
    → Decides ((Basic n × P) ⊎ (High n × Low l × R)) (scan (suc fuel) xs)
unit_pair fuel n l xs rest after first pair dp dr = elim (unit_kind n) [
  | bad r notbasic nothigh ↦
      returned fuel xs (first ∙ r rest) (λ q. elim q [ inl b ↦ notbasic b.0 | inr h ↦ nothigh h.0 ])
  | alone r basic nothigh ↦
      continued fuel xs rest (first ∙ r rest) (λ p. inl (basic, p))
        (λ q. elim q [ inl b ↦ b.1 | inr h ↦ absurd (nothigh h.0) ]) dp
  | leads r high notbasic ↦ elim (Bool-cases (is_low l)) [
    | inl low ↦
        let round_pair : round xs ≡ continues after = first ∙ r rest ∙ pair ∙ rw low refl in
        continued fuel xs after round_pair (λ p. inr (high, ground (arith, low), p))
          (λ q. elim q [ inl b ↦ absurd (notbasic b.0) | inr h ↦ h.2 ]) dr
    | inr other ↦
        let alone_high : round xs ≡ returns false = first ∙ r rest ∙ pair ∙ rw other refl in
        returned fuel xs alone_high (λ q. elim q [
          | inl b ↦ notbasic b.0
          | inr h ↦ let low = h.1 in ground (arith, other, low)
        ])
  ]
]
