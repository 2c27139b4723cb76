-- ===== src/Store/Open/Contains.antt =====
-- `contains` is the search for a part of a text.
use write_relay.Prelude.{
  ℕ, zero, suc, ◌≡◌, refl, ap, ◌∙◌, ◌↔◌, true, List, [], ◌∷◌, ◌++◌, arith, length, take, bytes_eq,
  bytes_eq_refl, bytes_eq_sound, Bool-cases, inl, inr,
}
use write_relay.Store.Open.{contains}

-- The text is something, the fragment, and something.
abbrev pub Occurs : List ℕ → List ℕ → Type 0
Occurs fragment value =
    (before : List ℕ) × (after : List ℕ) × (value ≡ before ++ (fragment ++ after))

take-length-append : (xs ys : List ℕ) → take (length xs) (xs ++ ys) ≡ xs
take-length-append [] ys = refl
take-length-append (x ∷ xs) ys = ap (λ zs. x ∷ zs) (take-length-append xs ys)

split_at : (n : ℕ) (xs : List ℕ) → (rest : List ℕ) × (xs ≡ take n xs ++ rest)
split_at zero xs = (xs, refl)
split_at (suc n) [] = ([], refl)
split_at (suc n) (x ∷ xs) = let (rest, e) = split_at n xs in (rest, ap (λ zs. x ∷ zs) e)

starts-Occurs :
    (fragment value : List ℕ)
    → bytes_eq (take (length fragment) value) fragment ≡ true
    → Occurs fragment value
starts-Occurs fragment value h =
    let (rest, e) = split_at (length fragment) value in
    ([], rest, e ∙ ap (λ zs. zs ++ rest) (bytes_eq_sound (take (length fragment) value) fragment h))

contains-Occurs : (value fragment : List ℕ) → contains value fragment ≡ true → Occurs fragment value
unfolding contains
contains-Occurs [] fragment h = starts-Occurs fragment [] h
contains-Occurs (c ∷ cs) fragment h =
    elim (Bool-cases (bytes_eq (take (length fragment) (c ∷ cs)) fragment)) [
      | inl here ↦ starts-Occurs fragment (c ∷ cs) here
      | inr later ↦
          let there : contains cs fragment ≡ true = ground (arith, later, h) in
          let (before, after, e) = contains-Occurs cs fragment there in
          (c ∷ before, after, ap (λ zs. c ∷ zs) e)
    ]

starts :
    (fragment after : List ℕ)
    → bytes_eq (take (length fragment) (fragment ++ after)) fragment ≡ true
starts fragment after = rw (take-length-append fragment after) (bytes_eq_refl fragment)

contains_start : (fragment after : List ℕ) → contains (fragment ++ after) fragment ≡ true
unfolding contains bytes_eq
contains_start [] [] = refl
contains_start [] (c ∷ cs) = ground (arith, starts [] (c ∷ cs))
contains_start (f ∷ fs) after = ground (arith, starts (f ∷ fs) after)

contains_later :
    (c : ℕ) (value fragment : List ℕ)
    → contains value fragment ≡ true
    → contains (c ∷ value) fragment ≡ true
unfolding contains
contains_later c value fragment h = ground (arith, h)

contains_middle :
    (before fragment after : List ℕ) → contains (before ++ (fragment ++ after)) fragment ≡ true
contains_middle [] fragment after = contains_start fragment after
contains_middle (c ∷ cs) fragment after =
    contains_later c (cs ++ (fragment ++ after)) fragment (contains_middle cs fragment after)

-- The loop finds the fragment exactly if it is a part of the text.
pub contains_iff :
    (value fragment : List ℕ) → (contains value fragment ≡ true) ↔ Occurs fragment value
contains_iff value fragment =
    (contains-Occurs value fragment, λ o. rw o.2 (contains_middle o.0 fragment o.1))
