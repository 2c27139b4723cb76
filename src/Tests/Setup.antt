-- ===== src/Tests/Setup.antt =====
-- A server on which nothing is prepared.
use write_relay.Prelude.{◌≡◌, refl, ◌↔◌, arith, true, false, none, some, str_eq, if◌then◌else◌, pos}
use write_relay.Spool.{Error, ok, err, other}
use write_relay.Replicator.Start.{validate_slot, validate_server_version}
use write_relay.Setup.{
  Postgres, Faults, read_slot, check_slot, preflight, install_function, create_publication,
  create_replication_slot, mutate, setup,
}
use write_relay.Setup.Prepares.{IsPrepared, Reports, setup-IsPrepared}
use write_relay.Setup.Doctor.{Diagnosis, doctor}
use write_relay.Setup.Checked.{all_pass, CanReplicate, doctor_iff}

abbrev bare : Postgres
bare = record {
  database = "shop";
  version = 160_001;
  function_exists = false;
  publication = none;
  slot = record {
    plugin = "";
    database = "";
    active = false;
    confirmed_flush_lsn = 0;
    restart_lsn = 0;
    exists = false;
  };
}

abbrev prepared : Postgres
prepared = record {
  database = "shop";
  version = 160_001;
  function_exists = true;
  publication = some 0;
  slot = record {
    plugin = "pgoutput";
    database = "shop";
    active = false;
    confirmed_flush_lsn = 90;
    restart_lsn = 90;
    exists = true;
  };
}

abbrev faultless : Faults
faultless = record {
  connects = true;
  reads_version = true;
  reads_function = true;
  reads_publication = true;
  reads_tables = true;
  reads_slot = true;
  installs = true;
  creates_publication = true;
  closes = true;
  connects_replication = true;
  creates_slot = true;
  new_slot_lsn = 90;
}

prepares : (setup faultless true (ok "dsn") bare).0.server ≡ prepared
unfolding setup preflight read_slot check_slot validate_slot validate_server_version mutate
    install_function create_publication create_replication_slot
prepares = refl

refuses_slot : (setup faultless false (ok "dsn") bare).1 ≡ err other
unfolding setup preflight read_slot check_slot validate_slot validate_server_version mutate
    install_function create_publication create_replication_slot
refuses_slot = refl

prepared-IsPrepared : IsPrepared prepared
prepared-IsPrepared = record {
  supported = (omega arith, omega arith);
  function = refl;
  publication = refl;
  slot = refl;
  plugin = refl;
  database = refl;
  free = refl;
}

setup-IsPrepared_example :
    Reports bare
      (setup faultless true (ok "dsn") bare).0.server
      (setup faultless true (ok "dsn") bare).0.result
    × ((e : Error)
        → preflight faultless true (ok "dsn") bare ≡ err e
        → (setup faultless true (ok "dsn") bare).0.server ≡ bare)
    × ((setup faultless true (ok "dsn") bare).1 ≡ ok tt
        → IsPrepared (setup faultless true (ok "dsn") bare).0.server)
setup-IsPrepared_example = setup-IsPrepared faultless true (ok "dsn") bare

abbrev diagnosis : Diagnosis
diagnosis = record {
  config_database = "shop";
  connects = true;
  reads_settings = true;
  version_text = "160001";
  wal_level = "logical";
  max_slots = "10";
  max_senders = "10";
  reads_role = true;
  replication = true;
  superuser = false;
  reads_function = true;
  reads_publication = true;
  reads_slot = true;
  reads_retained = true;
  atoi = λ value. if str_eq value "160001" then pos 160_001 else pos 10;
}

doctor_iff_example :
    (all_pass (doctor (ok "dsn") diagnosis prepared).0 ≡ true)
    ↔ (IsPrepared (record prepared { database = "shop" }) × CanReplicate diagnosis)
doctor_iff_example = doctor_iff "dsn" diagnosis prepared (refl, refl, refl, refl, refl, refl) refl
