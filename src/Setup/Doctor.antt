-- ===== src/Setup/Doctor.antt =====
-- internal/postgres/doctor.go: `Doctor`, the checks in the order of the list. A check has its name and
-- whether it passes; the detail, a text for the reader, is left out.
use write_relay.Prelude.{
  ℕ, String, Bool, true, false, not, ◌||◌, List, [], ◌∷◌, ◌++◌, Option, none, some, ◌==◌, str_eq,
  if◌then◌else◌, ℤ, pos, ltb_ℤ,
}
use write_relay.Spool.{Result, ok, err, other}
use write_relay.Setup.{Postgres, is_there}

pub record Check : Type 0 where
  pub name : String
  pub passes : Bool

-- What the server's settings and its role say, and which queries succeed. `strconv.Atoi` gives 0 for
-- what is no number. `config_database` is `conn.Config().Database`, the name in the connection string,
-- which can be empty or another than that of the server's database.
pub record Diagnosis : Type 0 where
  pub config_database : String
  pub connects : Bool
  pub reads_settings : Bool
  pub version_text : String
  pub wal_level : String
  pub max_slots : String
  pub max_senders : String
  pub reads_role : Bool
  pub replication : Bool
  pub superuser : Bool
  pub reads_function : Bool
  pub reads_publication : Bool
  pub reads_slot : Bool
  pub reads_retained : Bool
  pub atoi : String → ℤ

abbrev pub check_value : String → Bool → Check
check_value name passes = record { name = name; passes = passes }

unfoldable pub check_positive : Diagnosis → String → String → Check
check_positive d name value = check_value name (ltb_ℤ (pos 0) (d.atoi value))

abbrev pub is_supported : ℤ → Bool
is_supported version = not (ltb_ℤ version (pos 140_000) || not (ltb_ℤ version (pos 190_000)))

unfoldable pub setting_checks : Diagnosis → List Check
setting_checks d =
    check_value "PostgreSQL version" (is_supported (d.atoi d.version_text))
    ∷ check_value "wal_level" (str_eq d.wal_level "logical")
    ∷ check_positive d "max_replication_slots" d.max_slots
    ∷ check_positive d "max_wal_senders" d.max_senders
    ∷ []

abbrev pub is_empty_publication : Option ℕ → Bool
is_empty_publication none = false
is_empty_publication (some tables) = tables == 0

unfoldable pub publication_checks : Postgres → List Check
publication_checks s =
    check_value "publication exists" (is_there s.publication)
    ∷ check_value "publication is empty" (is_empty_publication s.publication)
    ∷ []

unfoldable pub slot_checks : Diagnosis → Postgres → List Check
slot_checks d s =
    if s.slot.exists
    then (check_value "slot plugin" (str_eq s.slot.plugin "pgoutput")
        ∷ check_value "slot database" (str_eq s.slot.database d.config_database)
        ∷ check_value "slot inactive" (not s.slot.active)
        ∷ check_value "slot confirmed flush LSN" true
        ∷ (if d.reads_retained then check_value "slot retained WAL" true ∷ [] else []))
    else []

-- The checks up to a query that fails, with the error, or all of them.
abbrev pub diagnosed :
    Bool → List Check → List Check × Result (Unit {0}) → List Check × Result (Unit {0})
diagnosed answers checks rest = if answers then (checks ++ rest.0, rest.1) else ([], err other)

unfoldable pub doctor_connected : Diagnosis → Postgres → List Check × Result (Unit {0})
doctor_connected d s = diagnosed d.reads_settings (setting_checks d) (
    diagnosed d.reads_role (check_value "replication privilege" (d.replication || d.superuser) ∷ [])
      (diagnosed d.reads_function (check_value "SQL emit function" s.function_exists ∷ []) (
        diagnosed d.reads_publication (publication_checks s) (
          diagnosed d.reads_slot
            (check_value "replication slot exists" s.slot.exists ∷ slot_checks d s)
            (check_value "message-size configuration" true ∷ [], ok tt)))))

unfoldable pub doctor : Result String → Diagnosis → Postgres → List Check × Result (Unit {0})
doctor (err e) d s = ([], err e)
doctor (ok dsn) d s =
    if d.connects
    then (
      check_value "database connectivity" true ∷ (doctor_connected d s).0,
      (doctor_connected d s).1,
    )
    else (check_value "database connectivity" false ∷ [], ok tt)
