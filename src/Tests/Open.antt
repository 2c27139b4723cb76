-- ===== src/Tests/Open.antt =====
-- A spool that is opened twice, the first time until the second migration fails.
use write_relay.Prelude.{◌≡◌, refl, String, true, not, none, some, List, [], ◌∷◌, ◌==◌, bytes_eq}
use write_relay.Spool.{ok, err, other}
use write_relay.Store.Open.{
  Disk, absent, contains, strings_contains_no_table, max_version, read_version, apply_migration,
  migrate, initialize, openable, open_spool,
}
use write_relay.Store.Open.Migrated.{Stage, Complete, open_all, open_spool-Stage}

abbrev working : Disk
working = record {
  makes_directory = true;
  path_kind = absent;
  opens = true;
  pragmas = true;
  query_error = none;
  migrates = λ version. true;
  restricts = true;
}

abbrev interrupted : Disk
interrupted = record working { migrates = λ version. not (version == 2) }

abbrev attempts : List (Disk × String)
attempts = (interrupted, "spool.db") ∷ []

stops_midway : open_all attempts none ≡ some (1 ∷ [])
unfolding open_spool openable initialize read_version migrate apply_migration
    strings_contains_no_table contains bytes_eq max_version
stops_midway = refl

finishes : open_spool working "spool.db" (some (1 ∷ [])) ≡ (some (1 ∷ 2 ∷ 3 ∷ []), ok tt)
unfolding open_spool openable initialize read_version migrate apply_migration
    strings_contains_no_table contains bytes_eq max_version
finishes = refl

refuses_newer : open_spool working "spool.db" (some (4 ∷ [])) ≡ (some (4 ∷ []), err other)
unfolding open_spool openable initialize read_version migrate apply_migration
    strings_contains_no_table contains bytes_eq max_version
refuses_newer = refl

open_spool-Stage_example :
    Stage (open_spool working "spool.db" (open_all attempts none)).0
    × ((open_spool working "spool.db" (open_all attempts none)).1 ≡ ok tt
        → Complete (open_spool working "spool.db" (open_all attempts none)).0)
open_spool-Stage_example = open_spool-Stage attempts working "spool.db"
