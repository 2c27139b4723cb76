-- ===== src/Store/Stats/Written.antt =====
-- internal/spool/sqlite/stats.go: the order in which MIN compares `captured_at`, a text whose fraction
-- of a second has no trailing zeros: within a second it is not the order of the times.
use write_relay.Prelude.{
  ℕ, zero, suc, ◌+◌, ◌/◌, ◌%◌, ◌^◌, Bool, true, false, ◌&&◌, ◌||◌, List, [], ◌∷◌, ◌++◌, ltb, ◌==◌,
  if◌then◌else◌,
}

abbrev pub second : ℕ
second = 1_000_000_000

-- The text after the seconds, in UTC: the digits of the fraction without trailing zeros, and `Z`.
abbrev digits : ℕ → ℕ → List ℕ
digits zero fraction = []
digits (suc places) fraction = (48 + (fraction / 10 ^ places) % 10) ∷ digits places fraction

abbrev before_zeros : ℕ → List ℕ → List ℕ
before_zeros c [] = if c == 48 then [] else c ∷ []
before_zeros c (d ∷ ds) = c ∷ d ∷ ds

abbrev without_zeros : List ℕ → List ℕ
without_zeros [] = []
without_zeros (c ∷ cs) = before_zeros c (without_zeros cs)

abbrev with_point : List ℕ → List ℕ
with_point [] = 90 ∷ []
with_point (c ∷ cs) = 46 ∷ c ∷ cs ++ 90 ∷ []

unfoldable pub fraction_text : ℕ → List ℕ
fraction_text time = with_point (without_zeros (digits 9 (time % second)))

-- The order of bytes.
unfoldable pub text_before : List ℕ → List ℕ → Bool
text_before [] [] = false
text_before [] (_ ∷ _) = true
text_before (_ ∷ _) [] = false
text_before (x ∷ xs) (y ∷ ys) = ltb x y || (x == y && text_before xs ys)

-- The order of the texts of two times: their seconds have the same number of digits.
unfoldable pub written_before : ℕ → ℕ → Bool
written_before a b =
    ltb (a / second) (b / second)
    || (a / second == b / second && text_before (fraction_text a) (fraction_text b))
