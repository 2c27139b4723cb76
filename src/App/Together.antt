-- ===== src/App/Together.antt =====
-- The error of the daemon.
use write_relay.Prelude.{◌≡◌, refl, ap, ◌⊎◌, inl, inr, List, [], ◌∷◌, ◌++◌, All}
use write_relay.Spool.{Error, Result, ok, err}
use write_relay.App.{first_error, run_together}

abbrev IsOk : Result (Unit {0}) → Type 0
IsOk r = r ≡ ok tt

first_error-err : (e : Error) (rs : List (Result (Unit {0}))) → first_error (err e) rs ≡ err e
unfolding first_error
first_error-err e [] = refl
first_error-err e (r ∷ rs) = first_error-err e rs

-- The daemon ends without an error exactly if all its tasks do; otherwise with the first error in the
-- order in which the tasks end.
pub run_together_first :
    (rs : List (Result (Unit {0})))
    → ((run_together rs ≡ ok tt) × All IsOk rs)
      ⊎ ((e : Error) × (before : List (Result (Unit {0}))) × (after : List (Result (Unit {0})))
          × (rs ≡ before ++ err e ∷ after)
          × All IsOk before
          × (run_together rs ≡ err e))
unfolding run_together first_error
run_together_first [] = inl (refl, tt)
run_together_first (err e ∷ rs) = inr (e, [], rs, refl, tt, first_error-err e rs)
run_together_first (ok _ ∷ rs) = elim (run_together_first rs) [
  | inl (fine, all) ↦ inl (fine, (refl, all))
  | inr (e, before, after, split, all, first) ↦
      inr (e, ok tt ∷ before, after, ap (λ x. ok tt ∷ x) split, (refl, all), first)
]
