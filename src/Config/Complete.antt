-- ===== src/Config/Complete.antt =====
-- A configuration that is complete passes the checks as it is.
use write_relay.Prelude.{◌*◌, ◌≡◌, refl, ◌↔◌, codes, arith, eq_iff}
use write_relay.Spool.{ok}
use write_relay.Config.{
  Library, RetryConfig, DeliveryConfig, DiskSpaceConfig, SpoolConfig, PostgresConfig,
  MonitoringConfig, LoggingConfig, Config, millisecond, second, minute, hour,
  default_max_event_bytes, required_prefix, validate_disk_space,
}
use write_relay.Config.Delivery.{validate_retry, validate_delivery}
use write_relay.Config.Load.{
  validate_logging, validate_monitoring, validate_postgres, validate_spool,
  set_defaults_and_validate,
}
use write_relay.Config.Valid.{
  ValidDisk, ValidSpool, ValidMonitoring, ValidPostgres, ValidRetry, ValidDelivery, ValidLogging,
  ValidConfig,
}
use write_relay.Config.Checks.{
  word_given, EnvName-given, eq_ℤ_iff, Timed-bounded_duration, or_number-Between, or_number-AtLeast,
  Thresholds-iff, identifier_iff, EnvName-iff,
}
use write_relay.Config.Sinks.{validate_sinks_iff}
use write_relay.Config.Accepted.{validate-ValidConfig}

validate_logging-same : (c : LoggingConfig) → ValidLogging c → validate_logging c ≡ ok c
unfolding validate_logging
validate_logging-same c v = ground (
  arith,
  v.level,
  v.format,
  word_given "debug" c.level refl,
  word_given "info" c.level refl,
  word_given "warn" c.level refl,
  word_given "error" c.level refl,
  eq_iff c.level "debug",
  eq_iff c.level "info",
  eq_iff c.level "warn",
  eq_iff c.level "error",
  word_given "text" c.format refl,
  word_given "json" c.format refl,
  eq_iff c.format "text",
  eq_iff c.format "json",
)

module _ (lib : Library) where
  validate_disk_space-same :
      (c : DiskSpaceConfig) → ValidDisk lib c → validate_disk_space lib c ≡ ok c
  unfolding validate_disk_space
  validate_disk_space-same c v = ground (
    arith,
    v.thresholds,
    Thresholds-iff c.pause_below_bytes c.resume_at_bytes,
    Timed-bounded_duration lib c.check_interval_value "5s" second minute c.check_interval
        v.interval,
  )

  validate_spool-same : (c : SpoolConfig) → ValidSpool lib c → validate_spool lib c ≡ ok c
  unfolding validate_spool
  validate_spool-same c v = ground (
    arith,
    v.path,
    v.max_event_bytes,
    eq_iff c.path "",
    or_number-Between c.max_event_bytes 1 default_max_event_bytes default_max_event_bytes,
    validate_disk_space-same c.disk_space v.disk_space,
  )

  validate_monitoring-same :
      (c : MonitoringConfig) → ValidMonitoring lib c → validate_monitoring lib c ≡ ok c
  unfolding validate_monitoring
  validate_monitoring-same c v = ground (
    arith,
    v.listen,
    eq_iff c.listen "",
    Timed-bounded_duration lib c.sample_interval_value "15s" second (5 * minute) c.sample_interval
        v.interval,
  )

  validate_postgres-same :
      (c : PostgresConfig) → ValidPostgres lib c → validate_postgres lib c ≡ ok c
  unfolding validate_postgres
  validate_postgres-same c v = ground (
    arith,
    v.one_dsn,
    v.slot,
    v.publication,
    v.message_prefix,
    v.events,
    v.bytes,
    eq_iff c.dsn "",
    eq_iff c.dsn_env "",
    EnvName-iff (codes c.dsn_env),
    EnvName-given c.dsn_env,
    identifier_iff (codes c.slot),
    identifier_iff (codes c.publication),
    eq_iff c.message_prefix required_prefix,
    Timed-bounded_duration lib c.status_interval_value "10s" second (5 * minute) c.status_interval
        v.interval,
    or_number-Between c.max_transaction_events 1 1_000_000 10_000,
    or_number-AtLeast c.max_transaction_bytes default_max_event_bytes 8_388_608,
  )

  validate_retry-same : (c : RetryConfig) → ValidRetry lib c → validate_retry lib c ≡ ok c
  unfolding validate_retry
  validate_retry-same c v = ground (
    arith,
    v.ordered,
    v.attempts,
    Timed-bounded_duration lib c.initial_delay_value "1s" (100 * millisecond) hour c.initial_delay
        v.initial,
    Timed-bounded_duration lib c.max_delay_value "5m" (100 * millisecond) (24 * hour) c.max_delay
        v.maximum,
    or_number-Between c.max_attempts 1 1000 10,
  )

  validate_delivery-same :
      (c : DeliveryConfig) → ValidDelivery lib c → validate_delivery lib c ≡ ok c
  unfolding validate_delivery
  validate_delivery-same c v = ground (
    arith,
    v.sinks,
    v.distinct,
    Timed-bounded_duration lib c.poll_interval_value "1s" (50 * millisecond) minute c.poll_interval
        v.poll,
    Timed-bounded_duration lib c.request_timeout_value "10s" (100 * millisecond) (2 * minute)
        c.request_timeout v.request,
    validate_retry-same c.retry v.retry,
    validate_sinks_iff lib c.sinks,
  )

  Valid-same : (c : Config) → ValidConfig lib c → set_defaults_and_validate lib c ≡ ok c
  unfolding set_defaults_and_validate
  Valid-same c v = ground (
    arith,
    v.version,
    eq_ℤ_iff c.version 1,
    validate_monitoring-same c.monitoring v.monitoring,
    validate_postgres-same c.postgres v.postgres,
    validate_spool-same c.spool v.spool,
    validate_delivery-same c.delivery v.delivery,
    validate_logging-same c.logging v.logging,
  )

  -- Validation returns a configuration unchanged exactly if it is valid: nothing valid is refused, and
  -- to validate once more what was accepted changes nothing.
  pub validate_iff : (c : Config) → (set_defaults_and_validate lib c ≡ ok c) ↔ ValidConfig lib c
  validate_iff c = ground (arith, validate-ValidConfig lib c {d = c}, Valid-same c)
