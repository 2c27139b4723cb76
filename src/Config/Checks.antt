-- ===== src/Config/Checks.antt =====
-- Each check of one value, and what it means for the value to pass.
use write_relay.Prelude.{
  Bool-cases, subst, ℕ, ◌≤◌, ◌≡◌, ◌↔◌, ◌≢◌, ◌⊎◌, inl, inr, String, Bool, true, false, not, ◌&&◌,
  ◌||◌, List, [], ◌∷◌, All, all, ℤ, pos, negsuc, ltb_ℤ, eq_ℤ, Between, AtLeast, codes, arith,
  str_eq, eq_iff, if◌then◌else◌,
}
use write_relay.Spool.{ok, err, other}
use write_relay.Config.{
  Library, bounded_duration, or_text, or_number, matches_identifier, matches_env, is_lower_or_digit,
  is_upper_or_digit, validate_optional_environment_name, is_outside,
}
use write_relay.Config.Valid.{
  Timed, Thresholds, LowerOrDigit, UpperOrDigit, Identifier, EnvName, OptionalEnvName,
}

or_text_given : (value default : String) → str_eq default "" ≡ false → or_text value default ≢ ""
or_text_given value default h = ground (arith, eq_iff value "", eq_iff default "")

pub bounded_duration-Timed :
    (lib : Library) (value default : String) (low high : ℕ)
    → str_eq default "" ≡ false
    → (bounded_duration lib (or_text value default) low high ≡ err other)
      ⊎ (n : ℕ) × (bounded_duration lib (or_text value default) low high ≡ ok n)
        × Timed lib (or_text value default) n low high
unfolding bounded_duration
bounded_duration-Timed lib value default low high h =
    let given = or_text_given value default h in ground arith

pub Timed-bounded_duration :
    (lib : Library) (value default : String) (low high n : ℕ)
    → Timed lib value n low high
    → (or_text value default ≡ value) × (bounded_duration lib value low high ≡ ok n)
unfolding bounded_duration
Timed-bounded_duration lib value default low high n h =
    (ground (arith, eq_iff value ""), rw h.1 (ground arith))

pub or_number-Between :
    (value : ℤ) (low high default : ℕ)
    → 1 ≤ low
    → ((is_outside low high (or_number value default) ≡ false)
        ↔ Between low high (or_number value default))
      × (Between low high value → or_number value default ≡ value)
or_number-Between (pos n) low high default h = ground arith
or_number-Between (negsuc n) low high default h = ground arith

pub or_number-AtLeast :
    (value : ℤ) (low default : ℕ)
    → 1 ≤ low
    → ((ltb_ℤ (or_number value default) (pos low) ≡ false) ↔ AtLeast low (or_number value default))
      × (AtLeast low value → or_number value default ≡ value)
or_number-AtLeast (pos n) low default h = ground arith
or_number-AtLeast (negsuc n) low default h = ground arith

abbrev thresholds_ok : ℤ → ℤ → Bool
thresholds_ok pause resume =
    not (ltb_ℤ pause (pos 0) || ltb_ℤ resume (pos 0))
    && (if eq_ℤ pause (pos 0) then eq_ℤ resume (pos 0) else ltb_ℤ pause resume)

pub Thresholds-iff :
    (pause resume : ℤ) → (thresholds_ok pause resume ≡ true) ↔ Thresholds pause resume
Thresholds-iff (pos pause) (pos resume) = ground arith
Thresholds-iff (pos pause) (negsuc resume) = ground arith
Thresholds-iff (negsuc pause) (pos resume) = ground arith
Thresholds-iff (negsuc pause) (negsuc resume) = ground arith

digits_iff : (cs : List ℕ) → (all is_lower_or_digit cs ≡ true) ↔ All LowerOrDigit cs
digits_iff [] = ground arith
digits_iff (c ∷ cs) = ground (arith, digits_iff cs)

upper_iff : (cs : List ℕ) → (all is_upper_or_digit cs ≡ true) ↔ All UpperOrDigit cs
upper_iff [] = ground arith
upper_iff (c ∷ cs) = ground (arith, upper_iff cs)

pub identifier_iff : (cs : List ℕ) → (matches_identifier cs ≡ true) ↔ Identifier cs
unfolding matches_identifier
identifier_iff [] = ground arith
identifier_iff (c ∷ cs) = ground (arith, digits_iff cs)

pub EnvName-iff : (cs : List ℕ) → (matches_env cs ≡ true) ↔ EnvName cs
unfolding matches_env
EnvName-iff [] = ground arith
EnvName-iff (c ∷ cs) = ground (arith, upper_iff cs)

pub OptionalEnvName-iff :
    (value : String) → (validate_optional_environment_name value ≡ ok tt) ↔ OptionalEnvName value
unfolding validate_optional_environment_name
OptionalEnvName-iff value = ground (arith, eq_iff value "", EnvName-iff (codes value))

pub eq_ℤ_iff : (value : ℤ) (n : ℕ) → (eq_ℤ value (pos n) ≡ true) ↔ (value ≡ pos n)
eq_ℤ_iff (pos m) n = ground arith
eq_ℤ_iff (negsuc m) n = ground arith

pub word_given :
    (word value : String) → str_eq word "" ≡ false → value ≡ word → str_eq value "" ≡ false
word_given word value h e = rw e h

no-EnvName : EnvName (codes "") → ⊥
no-EnvName h = h

pub EnvName-given : (value : String) → EnvName (codes value) → str_eq value "" ≡ false
EnvName-given value h = elim (Bool-cases (str_eq value "")) [
  | inl same ↦
      let nothing : value ≡ "" = ground (arith, eq_iff value "") in
      absurd (no-EnvName (subst (λ v. EnvName (codes v)) nothing h))
  | inr differs ↦ differs
]
