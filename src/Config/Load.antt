-- ===== src/Config/Load.antt =====
-- internal/config/config.go: `Config.setDefaultsAndValidate`, in the source's order, and `Decode` and
-- `Load`, whose YAML decoder and file are an argument.
use write_relay.Prelude.{
  ℕ, ◌*◌, String, Bool, true, false, not, ◌||◌, Option, none, some, ◌==◌, str_eq, pos, eq_ℤ, ltb_ℤ,
}
use write_relay.Spool.{Result, ok, other, guard, ◌>>=◌, ◌>>◌}
use write_relay.Config.{
  Library, PostgresConfig, SpoolConfig, MonitoringConfig, LoggingConfig, Config, bounded_duration,
  validate_disk_space, is_identifier, is_env_name, or_text, or_number, is_outside, second, minute,
  default_max_event_bytes, required_prefix,
}
use write_relay.Config.Delivery.{validate_delivery}

-- `err != nil || address.Port() == 0`, on a port that fits 16 bits.
abbrev pub has_port : Option ℕ → Bool
has_port none = false
has_port (some port) = not (port == 0)

abbrev pub is_level : String → Bool
is_level level =
    (str_eq level "debug" || str_eq level "info") || (str_eq level "warn" || str_eq level "error")

unfoldable pub validate_logging : LoggingConfig → Result LoggingConfig
validate_logging c = do
  guard (is_level (or_text c.level "info")) other
  guard (str_eq (or_text c.format "text") "text" || str_eq (or_text c.format "text") "json") other
  ok (record { level = or_text c.level "info"; format = or_text c.format "text" })

abbrev pub same : Bool → Bool → Bool
same true b = b
same false b = not b

module _ (lib : Library) where
  unfoldable pub validate_monitoring : MonitoringConfig → Result MonitoringConfig
  validate_monitoring c = do
    guard (str_eq c.listen "" || has_port (lib.parse_addr_port c.listen)) other
    interval ← bounded_duration lib (or_text c.sample_interval_value "15s") second (5 * minute)
    ok (record c {
      sample_interval = interval;
      sample_interval_value = or_text c.sample_interval_value "15s";
    })

  unfoldable pub validate_postgres : PostgresConfig → Result PostgresConfig
  validate_postgres c = do
    guard (not (same (str_eq c.dsn "") (str_eq c.dsn_env ""))) other
    guard (str_eq c.dsn_env "" || is_env_name c.dsn_env) other
    guard (is_identifier c.slot) other
    guard (is_identifier c.publication) other
    guard (str_eq c.message_prefix required_prefix) other
    interval ← bounded_duration lib (or_text c.status_interval_value "10s") second (5 * minute)
    guard (not (is_outside 1 1_000_000 (or_number c.max_transaction_events 10_000))) other
    guard (not (ltb_ℤ (or_number c.max_transaction_bytes 8_388_608) (pos default_max_event_bytes)))
        other
    ok (record c {
      status_interval = interval;
      status_interval_value = or_text c.status_interval_value "10s";
      max_transaction_events = or_number c.max_transaction_events 10_000;
      max_transaction_bytes = or_number c.max_transaction_bytes 8_388_608;
    })

  unfoldable pub validate_spool : SpoolConfig → Result SpoolConfig
  validate_spool c = do
    guard (not (str_eq c.path "")) other
    guard
        (not (
          is_outside 1 default_max_event_bytes
            (or_number c.max_event_bytes default_max_event_bytes)))
        other
    disk ← validate_disk_space lib c.disk_space
    ok (record c {
      max_event_bytes = or_number c.max_event_bytes default_max_event_bytes;
      disk_space = disk;
    })

  unfoldable pub set_defaults_and_validate : Config → Result Config
  set_defaults_and_validate c = do
    monitoring ← validate_monitoring c.monitoring
    guard (eq_ℤ c.version (pos 1)) other
    postgres ← validate_postgres c.postgres
    spool ← validate_spool c.spool
    delivery ← validate_delivery lib c.delivery
    logging ← validate_logging c.logging
    ok (record {
      version = c.version;
      postgres = postgres;
      spool = spool;
      delivery = delivery;
      monitoring = monitoring;
      logging = logging;
    })

  unfoldable pub decode : {From : Type 0} → (From → Result Config) → From → Result Config
  decode read_yaml from = read_yaml from >>= set_defaults_and_validate

  unfoldable pub load :
      {From : Type 0} → (String → Result From) → (From → Result Config) → String → Result Config
  load open_file read_yaml path = open_file path >>= decode read_yaml
