-- ===== src/Setup/Checked.antt =====
-- What the checks of `Doctor` say of the server.
use write_relay.Prelude.{
  ℕ, ◌≤◌, ◌<◌, ◌≡◌, ◌↔◌, ◌⊎◌, String, Bool, true, List, all, arith, eq_iff, pos, ltb_ℤ,
}
use write_relay.Spool.{ok}
use write_relay.Setup.{Postgres}
use write_relay.Setup.Prepares.{IsPrepared}
use write_relay.Setup.Doctor.{
  Check, Diagnosis, check_positive, is_supported, setting_checks, publication_checks, slot_checks,
  doctor_connected, doctor,
}

-- What the settings must be for a logical replication connection.
pub record CanReplicate (d : Diagnosis) : Type 0 where
  pub wal_level : d.wal_level ≡ "logical"
  pub slots : ltb_ℤ (pos 0) (d.atoi d.max_slots) ≡ true
  pub senders : ltb_ℤ (pos 0) (d.atoi d.max_senders) ≡ true
  pub role : (d.replication ≡ true) ⊎ (d.superuser ≡ true)

abbrev pub all_pass : List Check → Bool
all_pass = all (λ (c : Check). c.passes)

abbrev pub AllAnswered : Diagnosis → Type 0
AllAnswered d =
    (d.connects ≡ true)
    × (d.reads_settings ≡ true)
    × (d.reads_role ≡ true)
    × (d.reads_function ≡ true)
    × (d.reads_publication ≡ true)
    × (d.reads_slot ≡ true)

supported_iff :
    (version : ℕ)
    → (is_supported (pos version) ≡ true) ↔ ((140_000 ≤ version) × (version < 190_000))
supported_iff version = ground arith

-- If the queries of `Doctor` succeed and it reads the server's version, then all its checks pass
-- exactly if the server is as setup leaves it, except that the slot's database is the one named in the
-- connection string and not the server's own, and the settings and the role allow logical replication.
pub doctor_iff :
    (dsn : String) (d : Diagnosis) (s : Postgres)
    → AllAnswered d
    → d.atoi d.version_text ≡ pos s.version
    → (all_pass (doctor (ok dsn) d s).0 ≡ true)
      ↔ (IsPrepared (record s { database = d.config_database }) × CanReplicate d)
unfolding doctor doctor_connected setting_checks check_positive publication_checks slot_checks
doctor_iff dsn d s answered version = ground (
  arith,
  answered,
  version,
  eq_iff d.wal_level "logical",
  eq_iff s.slot.plugin "pgoutput",
  eq_iff s.slot.database d.config_database,
)
