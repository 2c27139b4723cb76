-- ===== src/Emit/Escapes.antt =====
-- sdk/go/writerelay.go: the loop of `validJSON` over the escapes. The bytes that are left stand for
-- the index; an index out of range panics.
use write_relay.Prelude.{
  ℕ, zero, suc, ◌+◌, ◌-◌, ◌*◌, Bool, true, false, not, ◌&&◌, ◌||◌, Option, none, some, List, [],
  ◌∷◌, leb, ◌==◌, length, if◌then◌else◌,
}

abbrev is_between : ℕ → ℕ → ℕ → Bool
is_between low high c = leb low c && leb c high

unfoldable pub hex_digit : ℕ → Option ℕ
hex_digit c =
    if is_between 48 57 c
    then some (c - 48)
    else if is_between 97 102 c
    then some (c - 87)
    else if is_between 65 70 c
    then some (c - 55)
    else none

abbrev pub append_digit : Option ℕ → Option ℕ → Option ℕ
append_digit (some n) (some d) = some (n * 16 + d)
append_digit (some n) none = none
append_digit none d = none

-- `strconv.ParseUint(text, 16, 16)` on four bytes.
unfoldable pub parse_hex : ℕ → ℕ → ℕ → ℕ → Option ℕ
parse_hex a b c d =
    append_digit (append_digit (append_digit (hex_digit a) (hex_digit b)) (hex_digit c))
      (hex_digit d)

-- A failed parse gives 0.
abbrev pub or_zero : Option ℕ → ℕ
or_zero none = 0
or_zero (some n) = n

abbrev pub is_low : ℕ → Bool
is_low = is_between 0xdc00 0xdfff

abbrev pub is_high : ℕ → Bool
is_high = is_between 0xd800 0xdbff

-- One round of the loop: it returns, panics, or goes on with what is left.
pub data Round : Type 0 where
  returns : Bool → Round
  panics : Round
  continues : List ℕ → Round

abbrev pub check_low : Option ℕ → List ℕ → Round
check_low none rest = returns false
check_low (some low) rest = if is_low low then continues rest else returns false

-- After a high surrogate there must be six bytes, the escape of a low one.
abbrev pub after_high : List ℕ → Round
after_high (s ∷ u ∷ a ∷ b ∷ c ∷ d ∷ rest) =
    if not (s == 92) || not (u == 117) then returns false else check_low (parse_hex a b c d) rest
after_high _ = returns false

abbrev pub after_code : ℕ → List ℕ → Round
after_code code rest =
    if code == 0 || is_low code
    then returns false
    else if is_high code
    then after_high rest
    else continues rest

abbrev pub after_u : List ℕ → Round
after_u (a ∷ b ∷ c ∷ d ∷ rest) = after_code (or_zero (parse_hex a b c d)) rest
after_u _ = panics

abbrev pub after_backslash : List ℕ → Round
after_backslash [] = panics
after_backslash (c ∷ cs) = if c == 117 then after_u cs else continues cs

unfoldable pub round : List ℕ → Round
unfolding parse_hex
round [] = returns true
round (c ∷ cs) = if c == 92 then after_backslash cs else continues cs

pub data Scan : Type 0 where
  verdict : Bool → Scan
  panicked out_of_fuel : Scan

unfoldable pub scan : ℕ → List ℕ → Scan
scan zero bytes = out_of_fuel
scan (suc fuel) bytes = elim (round bytes) [
  | returns result ↦ verdict result
  | panics ↦ panicked
  | continues rest ↦ scan fuel rest
]

abbrev pub is_accepted : Scan → Bool
is_accepted (verdict result) = result
is_accepted panicked = false
is_accepted out_of_fuel = false

-- Each round takes at least one byte.
unfoldable pub scans : List ℕ → Bool
scans bytes = is_accepted (scan (suc (length bytes)) bytes)
