-- ===== src/Setup.antt =====
-- internal/postgres/setup.go: `Setup`, on what it reads and changes of the server. `Faults` says which
-- of its statements succeed; the position of a new slot is the server's.
pub mod Prepares
pub mod Doctor
pub mod Checked
use write_relay.Prelude.{ℕ, String, Bool, true, false, not, Option, none, some, ◌==◌, if◌then◌else◌}
use write_relay.Spool.{Error, Result, ok, err, slot_mismatch, other, guard, ◌>>=◌, ◌>>◌}
use write_relay.Replicator.Start.{SlotInfo, validate_slot, validate_server_version}

-- The server: the number of tables of the publication, if it exists, and the slot of the given name.
pub record Postgres : Type 0 where
  pub database : String
  pub version : ℕ
  pub function_exists : Bool
  pub publication : Option ℕ
  pub slot : SlotInfo

pub record Faults : Type 0 where
  pub connects : Bool
  pub reads_version : Bool
  pub reads_function : Bool
  pub reads_publication : Bool
  pub reads_tables : Bool
  pub reads_slot : Bool
  pub installs : Bool
  pub creates_publication : Bool
  pub closes : Bool
  pub connects_replication : Bool
  pub creates_slot : Bool
  pub new_slot_lsn : ℕ

pub record SetupResult : Type 0 where
  pub installed_function : Bool
  pub created_publication : Bool
  pub created_slot : Bool

abbrev pub no_changes : SetupResult
no_changes = record {
  installed_function = false;
  created_publication = false;
  created_slot = false;
}

-- `readSlot`: a slot that does not exist is read as an empty one.
unfoldable pub read_slot : Faults → Postgres → Result SlotInfo
read_slot f s = do guard f.reads_slot other; ok s.slot

abbrev pub check_publication : Faults → Option ℕ → Result (Unit {0})
check_publication f none = ok tt
check_publication f (some tables) = guard f.reads_tables other >> guard (tables == 0) slot_mismatch

unfoldable pub check_slot : Bool → SlotInfo → String → Result (Unit {0})
check_slot create_slot slot database =
    if slot.exists then validate_slot slot database else guard create_slot other

-- Everything before `Mutations begin here`.
unfoldable pub preflight : Faults → Bool → Result String → Postgres → Result (Unit {0})
preflight f create_slot dsn s = do
  dsn >>= λ _. ok tt
  guard f.connects other
  guard f.reads_version other
  validate_server_version s.version
  guard f.reads_function other
  guard f.reads_publication other
  check_publication f s.publication
  slot ← read_slot f s
  check_slot create_slot slot s.database

pub record Progress : Type 0 where
  pub server : Postgres
  pub result : SetupResult

unfoldable pub install_function : Faults → Progress → Progress × Result (Unit {0})
install_function f p =
    if p.server.function_exists
    then (p, ok tt)
    else if f.installs
    then (
      record {
        server = record p.server { function_exists = true };
        result = record p.result { installed_function = true };
      },
      ok tt,
    )
    else (p, err other)

abbrev pub is_there : Option ℕ → Bool
is_there none = false
is_there (some tables) = true

unfoldable pub create_publication : Faults → Progress → Progress × Result (Unit {0})
create_publication f p =
    if is_there p.server.publication
    then (p, ok tt)
    else if f.creates_publication
    then (
      record {
        server = record p.server { publication = some 0 };
        result = record p.result { created_publication = true };
      },
      ok tt,
    )
    else (p, err other)

-- `createReplicationSlot`: the server gives the new slot its positions.
abbrev pub new_slot : Faults → Postgres → SlotInfo
new_slot f s = record {
  plugin = "pgoutput";
  database = s.database;
  active = false;
  confirmed_flush_lsn = f.new_slot_lsn;
  restart_lsn = f.new_slot_lsn;
  exists = true;
}

unfoldable pub create_replication_slot : Faults → Progress → Progress × Result (Unit {0})
create_replication_slot f p =
    if p.server.slot.exists
    then (p, ok tt)
    else if not f.closes
    then (p, err other)
    else if not f.connects_replication
    then (p, err other)
    else if f.creates_slot
    then (
      record {
        server = record p.server { slot = new_slot f p.server };
        result = record p.result { created_slot = true };
      },
      ok tt,
    )
    else (p, err other)

abbrev pub continue :
    Progress × Result (Unit {0})
    → (Progress → Progress × Result (Unit {0}))
    → Progress × Result (Unit {0})
continue (p, err e) step = (p, err e)
continue (p, ok _) step = step p

abbrev pub started : Postgres → Progress
started s = record { server = s; result = no_changes }

unfoldable pub mutate : Faults → Postgres → Progress × Result (Unit {0})
mutate f s =
    continue (continue (install_function f (started s)) (create_publication f))
      (create_replication_slot f)

abbrev pub after_preflight : Faults → Postgres → Result (Unit {0}) → Progress × Result (Unit {0})
after_preflight f s (err e) = (started s, err e)
after_preflight f s (ok _) = mutate f s

unfoldable pub setup : Faults → Bool → Result String → Postgres → Progress × Result (Unit {0})
setup f create_slot dsn s = after_preflight f s (preflight f create_slot dsn s)
