-- ===== src/Store/Open.antt =====
-- internal/spool/sqlite/sqlite.go: `Open`, `initialize` and `applyMigration`. A schema is the list of
-- the versions in schema_migrations, in the order of insertion, or none if that table does not exist;
-- which statements succeed is an argument.
pub mod Migrated
pub mod Contains
use write_relay.Prelude.{
  ℕ, zero, suc, ◌+◌, ◌-◌, ◌/◌, ◌%◌, max, String, Bool, true, false, not, ◌&&◌, ◌||◌, Option, none,
  some, List, [], ◌∷◌, ◌++◌, ltb, leb, length, take, find, any, ◌==◌, if◌then◌else◌, str_eq,
  bytes_eq, codes,
}
use write_relay.Spool.{Result, ok, err, durability, other, guard, ◌>>=◌, ◌>>◌}
use write_relay.Store.Prune.{current_schema_version}

abbrev pub Schema : Type 0
Schema = Option (List ℕ)

-- The loop over the positions of `value`, by what is left of it. Where the loop stops, too few bytes
-- are left to be equal to the fragment.
unfoldable pub contains : List ℕ → List ℕ → Bool
contains [] fragment = bytes_eq (take (length fragment) []) fragment
contains (c ∷ cs) fragment =
    bytes_eq (take (length fragment) (c ∷ cs)) fragment || contains cs fragment

unfoldable pub strings_contains_no_table : List ℕ → Bool
strings_contains_no_table message =
    contains message (codes "no such table") || contains message (codes "does not exist")

-- `fmt.Sprintf("%03d_", version)`, below 1000.
abbrev pub prefix_of : ℕ → List ℕ
prefix_of version = (48 + version / 100) ∷ (48 + version / 10 % 10) ∷ (48 + version % 10) ∷ 95 ∷ []

-- migrations/*.sql, as the directory lists them.
abbrev pub embedded : List String
embedded = "001_initial.sql" ∷ "002_delivery.sql" ∷ "003_payload_retention.sql" ∷ []

abbrev pub is_migration : ℕ → String → Bool
is_migration version name = bytes_eq (take 4 (codes name)) (prefix_of version)

-- What an opening meets: the file, the pragmas, the message of a version query that fails for
-- another reason than a missing table, and the transaction of each migration.
pub data PathKind : Type 0 where
  symbolic_link present absent unreadable : PathKind

pub record Disk : Type 0 where
  pub makes_directory : Bool
  pub path_kind : PathKind
  pub opens : Bool
  pub pragmas : Bool
  pub query_error : Option (List ℕ)
  pub migrates : ℕ → Bool
  pub restricts : Bool

-- `COALESCE(MAX(version), 0)`
unfoldable pub max_version : List ℕ → ℕ
max_version [] = 0
max_version (v ∷ vs) = max v (max_version vs)

abbrev pub version_from_error : List ℕ → Result ℕ
version_from_error message = if strings_contains_no_table message then ok 0 else err other

-- SQLite's message on a table that does not exist.
abbrev pub no_table : List ℕ
no_table = codes "no such table: schema_migrations"

abbrev pub queried : Schema → Result ℕ
queried none = version_from_error no_table
queried (some versions) = ok (max_version versions)

-- The query's answer, unless it fails for another reason.
abbrev pub answered : Option (List ℕ) → Schema → Result ℕ
answered none schema = queried schema
answered (some message) schema = version_from_error message

unfoldable pub read_version : Disk → Schema → Result ℕ
read_version d schema = answered d.query_error schema

abbrev pub rows_of : Schema → List ℕ
rows_of none = []
rows_of (some versions) = versions

-- Each migration records its version in its own transaction. One that was applied fails: its tables
-- are there.
unfoldable pub apply_migration : Disk → Schema → ℕ → Schema × Result (Unit {0})
apply_migration d schema version = elim (find (is_migration version) embedded) [
  | none ↦ (schema, err other)
  | some name ↦
      if d.migrates version && not (any (λ v. v == version) (rows_of schema))
      then (some (rows_of schema ++ version ∷ []), ok tt)
      else (schema, err durability)
]

abbrev pub go_on :
    Schema × Result (Unit {0}) → (Schema → Schema × Result (Unit {0})) → Schema × Result (Unit {0})
go_on (schema, err e) rest = (schema, err e)
go_on (schema, ok _) rest = rest schema

-- The loop from `next` on, by the rounds left.
unfoldable pub migrate : Disk → ℕ → ℕ → Schema → Schema × Result (Unit {0})
migrate d zero next schema = (schema, ok tt)
migrate d (suc rounds) next schema =
    go_on (apply_migration d schema next) (migrate d rounds (suc next))

abbrev pub from_version : Disk → Schema → Result ℕ → Schema × Result (Unit {0})
from_version d schema (err e) = (schema, err e)
from_version d schema (ok version) =
    if ltb current_schema_version version
    then (schema, err other)
    else migrate d (current_schema_version - version) (version + 1) schema

unfoldable pub initialize : Disk → Schema → Schema × Result (Unit {0})
initialize d schema =
    if not d.pragmas
    then (schema, err durability)
    else from_version d schema (read_version d schema)

abbrev pub path_allowed : PathKind → Result (Unit {0})
path_allowed symbolic_link = err other
path_allowed unreadable = err other
path_allowed present = ok tt
path_allowed absent = ok tt

unfoldable pub openable : Disk → String → Result (Unit {0})
openable d path = do
  guard (not (str_eq path "")) other
  guard d.makes_directory other
  path_allowed d.path_kind
  guard d.opens other

abbrev pub restricted : Disk → Schema × Result (Unit {0}) → Schema × Result (Unit {0})
restricted d (schema, err e) = (schema, err e)
restricted d (schema, ok _) = if d.restricts then (schema, ok tt) else (schema, err other)

abbrev pub when_openable : Disk → Schema → Result (Unit {0}) → Schema × Result (Unit {0})
when_openable d schema (err e) = (schema, err e)
when_openable d schema (ok _) = restricted d (initialize d schema)

unfoldable pub open_spool : Disk → String → Schema → Schema × Result (Unit {0})
open_spool d path schema = when_openable d schema (openable d path)
