-- ===== src/Emit/Paired.antt =====
-- The loop over the escapes decides whether the escaped UTF-16 units of a document are well-formed.
use write_relay.Prelude.{
  ℕ, zero, suc, ◌<◌, ◌≡◌, refl, sym, ap, subst, ◌⊎◌, inl, true, false, none, some, List, [], ◌∷◌,
  arith, All, length,
}
use write_relay.Emit.Escapes.{or_zero, verdict, scan}
use write_relay.Emit.Document.{
  Token, plain, short, unit, bytes_of, IsToken, Basic, High, Low, code_of, WellFormed, codes_of,
}
use write_relay.Emit.Rounds.{
  Decides, scan-returns, continued, after_high-plain, after_high-short, round-nil, round-plain,
  round-short, round-unit, pair_of, unit_alone, unit_pair,
}

decides :
    (fuel : ℕ) (ts : List Token)
    → All IsToken ts
    → length (bytes_of ts) < fuel
    → Decides (WellFormed (codes_of ts)) (scan fuel (bytes_of ts))
unfolding bytes_of WellFormed
decides zero ts ok lt = absurd (omega arith)
decides (suc fuel) [] ok lt = inl (scan-returns fuel [] (round-nil), tt)
decides (suc fuel) (plain c ∷ ts) ok lt =
    continued fuel (c ∷ bytes_of ts) (bytes_of ts) (round-plain c (bytes_of ts) ok.0) (λ p. p)
      (λ p. p) (decides fuel ts ok.1 (omega arith))
decides (suc fuel) (short c ∷ ts) ok lt =
    continued fuel (92 ∷ c ∷ bytes_of ts) (bytes_of ts) (round-short c (bytes_of ts) ok.0) (λ p. p)
      (λ p. p) (decides fuel ts ok.1 (omega arith))
decides (suc fuel) (unit a b c d ∷ []) ok lt =
    let (n, parsed) = ok.0 in
    subst
      (λ u. Decides (WellFormed (some u ∷ [])) (scan (suc fuel) (92 ∷ 117 ∷ a ∷ b ∷ c ∷ d ∷ [])))
      (sym (ap or_zero parsed))
      (unit_alone {P = Unit {0}} fuel n _ [] (round-unit a b c d n [] parsed) refl (λ b p. b)
        (λ q. (q, tt)) (decides fuel [] tt (omega arith)))
decides (suc fuel) (unit a b c d ∷ plain e ∷ ts) ok lt =
    let (n, parsed) = ok.0 in
    let rest = e ∷ bytes_of ts in
    subst
      (λ u.
        Decides (WellFormed (some u ∷ none ∷ codes_of ts))
          (scan (suc fuel) (92 ∷ 117 ∷ a ∷ b ∷ c ∷ d ∷ rest)))
      (sym (ap or_zero parsed))
      (unit_alone {P = WellFormed (codes_of ts)} fuel n _ rest (round-unit a b c d n rest parsed)
        (after_high-plain e (bytes_of ts) ok.1.0) (λ b p. (b, p)) (λ q. q)
        (decides fuel (plain e ∷ ts) ok.1 (omega arith)))
decides (suc fuel) (unit a b c d ∷ short e ∷ ts) ok lt =
    let (n, parsed) = ok.0 in
    let rest = 92 ∷ e ∷ bytes_of ts in
    subst
      (λ u.
        Decides (WellFormed (some u ∷ none ∷ codes_of ts))
          (scan (suc fuel) (92 ∷ 117 ∷ a ∷ b ∷ c ∷ d ∷ rest)))
      (sym (ap or_zero parsed))
      (unit_alone {P = WellFormed (codes_of ts)} fuel n _ rest (round-unit a b c d n rest parsed)
        (after_high-short e (bytes_of ts) ok.1.0) (λ b p. (b, p)) (λ q. q)
        (decides fuel (short e ∷ ts) ok.1 (omega arith)))
decides (suc fuel) (unit a b c d ∷ unit e f g h ∷ ts) ok lt =
    let (n, parsed) = ok.0 in
    let (l, low) = ok.1.0 in
    let after = bytes_of ts in
    let rest = 92 ∷ 117 ∷ e ∷ f ∷ g ∷ h ∷ after in
    let xs = 92 ∷ 117 ∷ a ∷ b ∷ c ∷ d ∷ rest in
    let next = decides fuel (unit e f g h ∷ ts) ok.1 (omega arith) in
    subst
      (λ u.
        Decides (WellFormed (some u ∷ code_of (unit e f g h) ∷ codes_of ts)) (scan (suc fuel) xs))
      (sym (ap or_zero parsed))
      (subst
        (λ v.
          Decides
            ((Basic n × WellFormed (code_of (unit e f g h) ∷ codes_of ts))
              ⊎ (High n × Low v × WellFormed (codes_of ts)))
            (scan (suc fuel) xs))
        (sym (ap or_zero low))
        (unit_pair fuel n l xs rest after (round-unit a b c d n rest parsed)
          (pair_of e f g h l after low) next (decides fuel ts ok.1.1 (omega arith))))

-- If a document consists of plain bytes and whole escapes, the loop ends within a round for each byte
-- and one more, never reads past the end, and accepts the document exactly if its escaped units are
-- well-formed: none is U+0000, and surrogates stand in pairs, the high one first.
pub scan_decides :
    (ts : List Token)
    → All IsToken ts
    → ((scan (suc (length (bytes_of ts))) (bytes_of ts) ≡ verdict true) × WellFormed (codes_of ts))
      ⊎ ((scan (suc (length (bytes_of ts))) (bytes_of ts) ≡ verdict false)
          × (WellFormed (codes_of ts) → ⊥))
scan_decides ts ok = decides (suc (length (bytes_of ts))) ts ok (omega arith)
