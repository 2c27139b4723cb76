-- ===== src/Monitoring/Label.antt =====
-- internal/monitoring/metrics.go: the texts of labels, as bytes, and that they can be read back.
use mathlib.Core.List.{append_assoc}
use write_relay.Prelude.{
  ℕ, ◌≡◌, refl, ◌∙◌, ap, false, Option, none, some, List, [], ◌∷◌, ◌++◌, ◌==◌, arith, if◌then◌else◌,
  Bool-cases, inl, inr,
}

-- `labelEscaper`: the backslash, the line feed and the quotation mark.
abbrev pub escaped : ℕ → List ℕ → List ℕ
escaped c rest =
    if c == 92
    then 92 ∷ 92 ∷ rest
    else if c == 10
    then 92 ∷ 110 ∷ rest
    else if c == 34
    then 92 ∷ 34 ∷ rest
    else c ∷ rest

unfoldable pub escape : List ℕ → List ℕ
escape [] = []
escape (c ∷ cs) = escaped c (escape cs)

unfoldable pub label : List ℕ → List ℕ
label value = 34 ∷ escape value ++ 34 ∷ []

abbrev prepend : ℕ → Option (List ℕ × List ℕ) → Option (List ℕ × List ℕ)
prepend c none = none
prepend c (some (value, rest)) = some (c ∷ value, rest)

-- A reader of the exposition format: up to the quotation mark that no backslash escapes.
read_value : List ℕ → Option (List ℕ × List ℕ)
read_value [] = none
read_value (c ∷ []) = if c == 34 then some ([], []) else none
read_value (c ∷ d ∷ cs) =
    let escaped_value = prepend (if d == 110 then 10 else d) (read_value cs) in
    let plain = prepend c (read_value (d ∷ cs)) in
    if c == 34 then some ([], d ∷ cs) else if c == 92 then escaped_value else plain

pub read_label : List ℕ → Option (List ℕ × List ℕ)
read_label [] = none
read_label (c ∷ cs) = let value = read_value cs in if c == 34 then value else none

read_plain :
    (c : ℕ) (xs : List ℕ)
    → (c == 34) ≡ false
    → (c == 92) ≡ false
    → read_value (c ∷ xs) ≡ prepend c (read_value xs)
unfolding read_value
read_plain c [] quote slash = ground (arith, quote)
read_plain c (d ∷ xs) quote slash = rw (quote, slash) refl

read_end : (rest : List ℕ) → read_value (34 ∷ rest) ≡ some ([], rest)
unfolding read_value
read_end [] = refl
read_end (d ∷ rest) = refl

-- The three escapes.
read_escaped :
    (c d : ℕ) (xs cs rest : List ℕ)
    → (if d == 110 then 10 else d) ≡ c
    → read_value xs ≡ some (cs, rest)
    → read_value (92 ∷ d ∷ xs) ≡ some (c ∷ cs, rest)
unfolding read_value
read_escaped c d xs cs rest same tail = rw tail (ap (λ x. some (x ∷ cs, rest)) same)

read_value-escape :
    (value rest : List ℕ) → read_value (escape value ++ 34 ∷ rest) ≡ some (value, rest)
unfolding escape
read_value-escape [] rest = read_end rest
read_value-escape (c ∷ cs) rest =
    let tail = read_value-escape cs rest in
    elim (Bool-cases (c == 92)) [
      | inl slash ↦
          rw slash (read_escaped c 92 (escape cs ++ 34 ∷ rest) cs rest (ground (arith, slash)) tail)
      | inr other ↦ elim (Bool-cases (c == 10)) [
        | inl feed ↦
            rw (other, feed)
              (read_escaped c 110 (escape cs ++ 34 ∷ rest) cs rest (ground (arith, feed)) tail)
        | inr printed ↦ elim (Bool-cases (c == 34)) [
          | inl quote ↦
              rw (other, printed, quote)
                (read_escaped c 34 (escape cs ++ 34 ∷ rest) cs rest (ground (arith, quote)) tail)
          | inr plain ↦
              rw (other, printed, plain)
                (read_plain c (escape cs ++ 34 ∷ rest) plain other ∙ rw tail refl)
        ]
      ]
    ]

-- Whatever its bytes, a label's value is read back from its text, and what follows is left.
pub read_label-label : (value rest : List ℕ) → read_label (label value ++ rest) ≡ some (value, rest)
unfolding read_label label
read_label-label value rest =
    rw (append_assoc (escape value) (34 ∷ []) rest) (read_value-escape value rest)
