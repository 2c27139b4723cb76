-- ===== src/Store/Open/Migrated.antt =====
-- The schema after any openings, complete or not.
use write_relay.Prelude.{
  ℕ, ◌≡◌, refl, sym, subst, ◌⊎◌, inl, inr, String, true, Option, none, some, List, [], ◌∷◌, arith,
  bytes_eq, Bool-cases,
}
use write_relay.Spool.{Result, ok}
use write_relay.Store.Open.{
  present, absent, Schema, contains, strings_contains_no_table, max_version, read_version,
  apply_migration, migrate, initialize, open_spool, Disk, version_from_error, from_version,
  no_table, queried, answered,
}

-- The versions up to one, in order and each once.
abbrev pub Stage : Schema → Type 0
Stage s =
    ((s ≡ none) ⊎ (s ≡ some (1 ∷ []))) ⊎ ((s ≡ some (1 ∷ 2 ∷ [])) ⊎ (s ≡ some (1 ∷ 2 ∷ 3 ∷ [])))

abbrev pub Complete : Schema → Type 0
Complete s = s ≡ some (1 ∷ 2 ∷ 3 ∷ [])

abbrev Good : Schema × Result (Unit {0}) → Type 0
Good o = Stage o.0 × (o.1 ≡ ok tt → Complete o.0)

from_start : (d : Disk) → Good (migrate d 3 1 none)
unfolding migrate apply_migration bytes_eq
from_start d = ground arith

from_one : (d : Disk) → Good (migrate d 2 2 (some (1 ∷ [])))
unfolding migrate apply_migration bytes_eq
from_one d = ground arith

from_two : (d : Disk) → Good (migrate d 1 3 (some (1 ∷ 2 ∷ [])))
unfolding migrate apply_migration bytes_eq
from_two d = ground arith

from_three : (d : Disk) → Good (migrate d 0 4 (some (1 ∷ 2 ∷ 3 ∷ [])))
unfolding migrate
from_three d = ground arith

-- A first migration that was applied cannot be applied again.
from_again : (d : Disk) (vs : List ℕ) → Stage (some (1 ∷ vs)) → Good (migrate d 3 1 (some (1 ∷ vs)))
unfolding migrate apply_migration bytes_eq
from_again d vs s = ground (arith, s)

module _ (d : Disk) where
  no_table_version : version_from_error no_table ≡ ok 0
  unfolding strings_contains_no_table contains bytes_eq
  no_table_version = refl

  from_error :
      (s : Schema) (message : List ℕ)
      → Stage s
      → Good (from_version d s (version_from_error message))
  from_error none message stage = ground (arith, from_start d)
  from_error (some []) message stage = ground (arith, stage)
  from_error (some (v ∷ vs)) message stage = ground (arith, stage, from_again d vs)

  answered_cases :
      (o : Option (List ℕ)) (s : Schema)
      → ((message : List ℕ) × (answered o s ≡ version_from_error message))
        ⊎ (answered o s ≡ queried s)
  answered_cases none s = inr refl
  answered_cases (some message) s = inl (message, refl)

  from_query : (s : Schema) → Stage s → Good (from_version d s (queried s))
  unfolding max_version
  from_query s stage = elim stage [
    | inl (inl fresh) ↦
        subst (λ (x : Schema). Good (from_version d x (queried x))) (sym fresh)
          (rw no_table_version (from_start d))
    | inl (inr one) ↦
        subst (λ (x : Schema). Good (from_version d x (queried x))) (sym one) (from_one d)
    | inr (inl two) ↦
        subst (λ (x : Schema). Good (from_version d x (queried x))) (sym two) (from_two d)
    | inr (inr three) ↦
        subst (λ (x : Schema). Good (from_version d x (queried x))) (sym three) (from_three d)
  ]

  initialize-Good : (s : Schema) → Stage s → Good (initialize d s)
  unfolding initialize read_version
  initialize-Good s stage = elim (Bool-cases d.pragmas) [
    | inr failed ↦ ground (arith, failed, stage)
    | inl applied ↦
        let begun : initialize d s ≡ from_version d s (read_version d s) =
          ground (arith, applied) in
        subst Good (sym begun) (elim (answered_cases d.query_error s) [
          | inl (message, e) ↦
              subst (λ r. Good (from_version d s r)) (sym e) (from_error s message stage)
          | inr e ↦ subst (λ r. Good (from_version d s r)) (sym e) (from_query s stage)
        ])
  ]

  open_spool-Good : (path : String) (s : Schema) → Stage s → Good (open_spool d path s)
  unfolding open_spool
  open_spool-Good path s stage =
      let started = initialize-Good s stage in ground (arith, started, stage)

abbrev pub open_all : List (Disk × String) → Schema → Schema
open_all [] s = s
open_all ((d, path) ∷ rest) s = open_all rest (open_spool d path s).0

open_all-Stage :
    (attempts : List (Disk × String)) (s : Schema) → Stage s → Stage (open_all attempts s)
open_all-Stage [] s stage = stage
open_all-Stage ((d, path) ∷ rest) s stage =
    open_all-Stage rest (open_spool d path s).0 (open_spool-Good d path s stage).0

abbrev pub Works : Disk → Type 0
Works d =
    (d.makes_directory ≡ true)
    × ((d.path_kind ≡ present) ⊎ (d.path_kind ≡ absent))
    × (d.opens ≡ true)
    × (d.pragmas ≡ true)
    × (d.query_error ≡ none)
    × ((version : ℕ) → d.migrates version ≡ true)
    × (d.restricts ≡ true)

-- Starting without a file, after any openings, complete or stopped at any statement, the schema has
-- the versions up to one of them, each once and in order, and so it is after one more; an opening that
-- succeeds leaves it complete.
pub open_spool-Stage :
    (attempts : List (Disk × String)) (d : Disk) (path : String)
    → Stage (open_spool d path (open_all attempts none)).0
      × ((open_spool d path (open_all attempts none)).1 ≡ ok tt
          → Complete (open_spool d path (open_all attempts none)).0)
open_spool-Stage attempts d path =
    open_spool-Good d path (open_all attempts none) (open_all-Stage attempts none (inl (inl refl)))
