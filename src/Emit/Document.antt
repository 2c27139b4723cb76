-- ===== src/Emit/Document.antt =====
-- A JSON document as far as its escapes go, and when its escaped UTF-16 units are well-formed.
use write_relay.Prelude.{ℕ, ◌≤◌, ◌<◌, ◌≡◌, ◌⊎◌, false, Option, none, some, List, [], ◌∷◌, ◌==◌}
use write_relay.Emit.Escapes.{parse_hex, or_zero}

-- What a JSON document consists of, as far as escapes go: a byte that is no backslash, a backslash
-- with a character other than u, and a backslash with u and four digits.
pub data Token : Type 0 where
  plain short : ℕ → Token
  unit : ℕ → ℕ → ℕ → ℕ → Token

abbrev pub bytes_of_token : Token → List ℕ → List ℕ
bytes_of_token (plain c) rest = c ∷ rest
bytes_of_token (short c) rest = 92 ∷ c ∷ rest
bytes_of_token (unit a b c d) rest = 92 ∷ 117 ∷ a ∷ b ∷ c ∷ d ∷ rest

unfoldable pub bytes_of : List Token → List ℕ
bytes_of [] = []
bytes_of (t ∷ ts) = bytes_of_token t (bytes_of ts)

abbrev pub IsToken : Token → Type 0
IsToken (plain c) = (c == 92) ≡ false
IsToken (short c) = (c == 117) ≡ false
IsToken (unit a b c d) = (n : ℕ) × (parse_hex a b c d ≡ some n)

-- A unit that stands for a character by itself, other than U+0000.
abbrev pub Basic : ℕ → Type 0
Basic u = (1 ≤ u) × ((u < 0xd800) ⊎ (0xdfff < u))

abbrev pub High : ℕ → Type 0
High u = (0xd800 ≤ u) × (u ≤ 0xdbff)

abbrev pub Low : ℕ → Type 0
Low u = (0xdc00 ≤ u) × (u ≤ 0xdfff)

abbrev pub code_of : Token → Option ℕ
code_of (plain c) = none
code_of (short c) = none
code_of (unit a b c d) = some (or_zero (parse_hex a b c d))

-- Each escaped unit is a basic one, or a high one directly before a low one with which it pairs.
unfoldable pub WellFormed : List (Option ℕ) → Type 0
WellFormed [] = Unit {0}
WellFormed (none ∷ cs) = WellFormed cs
WellFormed (some u ∷ []) = Basic u
WellFormed (some u ∷ none ∷ cs) = Basic u × WellFormed cs
WellFormed (some u ∷ some l ∷ cs) =
    (Basic u × WellFormed (some l ∷ cs)) ⊎ (High u × Low l × WellFormed cs)

abbrev pub codes_of : List Token → List (Option ℕ)
codes_of [] = []
codes_of (t ∷ ts) = code_of t ∷ codes_of ts
