-- ===== src/Config/Accepted.antt =====
-- What `Config.setDefaultsAndValidate` accepts, and that it keeps what is complete.
use write_relay.Prelude.{◌*◌, ◌≡◌, refl, codes, arith, eq_iff}
use write_relay.Spool.{ok, Yields, Yields-ok}
use write_relay.Config.{
  Library, RetryConfig, DeliveryConfig, DiskSpaceConfig, SpoolConfig, PostgresConfig,
  MonitoringConfig, LoggingConfig, Config, millisecond, second, minute, hour,
  default_max_event_bytes, required_prefix, validate_disk_space, or_text,
}
use write_relay.Config.Delivery.{validate_retry, validate_delivery}
use write_relay.Config.Load.{
  validate_logging, validate_monitoring, validate_postgres, validate_spool,
  set_defaults_and_validate,
}
use write_relay.Config.Valid.{
  ValidDisk, ValidSpool, ValidMonitoring, ValidPostgres, ValidRetry, ValidDelivery, ValidLogging,
  ValidConfig,
}
use write_relay.Config.Checks.{
  eq_ℤ_iff, bounded_duration-Timed, or_number-Between, or_number-AtLeast, Thresholds-iff,
  identifier_iff, EnvName-iff,
}
use write_relay.Config.Sinks.{validate_sinks_iff}

validate_logging-Valid : (c : LoggingConfig) → Yields (ValidLogging) (validate_logging c)
unfolding validate_logging
validate_logging-Valid c =
    let level = or_text c.level "info" in
    let format = or_text c.format "text" in
    ground (
      arith,
      eq_iff level "debug",
      eq_iff level "info",
      eq_iff level "warn",
      eq_iff level "error",
      eq_iff format "text",
      eq_iff format "json",
    )

module _ (lib : Library) where
  validate_disk_space-Valid :
      (c : DiskSpaceConfig) → Yields (ValidDisk lib) (validate_disk_space lib c)
  unfolding validate_disk_space
  validate_disk_space-Valid c = ground (
    arith,
    Thresholds-iff c.pause_below_bytes c.resume_at_bytes,
    bounded_duration-Timed lib c.check_interval_value "5s" second minute refl,
  )

  validate_spool-Valid : (c : SpoolConfig) → Yields (ValidSpool lib) (validate_spool lib c)
  unfolding validate_spool
  validate_spool-Valid c = ground (
    arith,
    eq_iff c.path "",
    or_number-Between c.max_event_bytes 1 default_max_event_bytes default_max_event_bytes,
    validate_disk_space-Valid c.disk_space,
  )

  validate_monitoring-Valid :
      (c : MonitoringConfig) → Yields (ValidMonitoring lib) (validate_monitoring lib c)
  unfolding validate_monitoring
  validate_monitoring-Valid c = ground (
    arith,
    eq_iff c.listen "",
    bounded_duration-Timed lib c.sample_interval_value "15s" second (5 * minute) refl,
  )

  validate_postgres-Valid :
      (c : PostgresConfig) → Yields (ValidPostgres lib) (validate_postgres lib c)
  unfolding validate_postgres
  validate_postgres-Valid c = ground (
    arith,
    eq_iff c.dsn "",
    eq_iff c.dsn_env "",
    EnvName-iff (codes c.dsn_env),
    identifier_iff (codes c.slot),
    identifier_iff (codes c.publication),
    eq_iff c.message_prefix required_prefix,
    bounded_duration-Timed lib c.status_interval_value "10s" second (5 * minute) refl,
    or_number-Between c.max_transaction_events 1 1_000_000 10_000,
    or_number-AtLeast c.max_transaction_bytes default_max_event_bytes 8_388_608,
  )

  validate_retry-Valid : (c : RetryConfig) → Yields (ValidRetry lib) (validate_retry lib c)
  unfolding validate_retry
  validate_retry-Valid c = ground (
    arith,
    bounded_duration-Timed lib c.initial_delay_value "1s" (100 * millisecond) hour refl,
    bounded_duration-Timed lib c.max_delay_value "5m" (100 * millisecond) (24 * hour) refl,
    or_number-Between c.max_attempts 1 1000 10,
  )

  validate_delivery-Valid :
      (c : DeliveryConfig) → Yields (ValidDelivery lib) (validate_delivery lib c)
  unfolding validate_delivery
  validate_delivery-Valid c = ground (
    arith,
    bounded_duration-Timed lib c.poll_interval_value "1s" (50 * millisecond) minute refl,
    bounded_duration-Timed lib c.request_timeout_value "10s" (100 * millisecond) (2 * minute) refl,
    validate_retry-Valid c.retry,
    validate_sinks_iff lib c.sinks,
  )

  set_defaults_and_validate-Valid :
      (c : Config) → Yields (ValidConfig lib) (set_defaults_and_validate lib c)
  unfolding set_defaults_and_validate
  set_defaults_and_validate-Valid c = ground (
    arith,
    eq_ℤ_iff c.version 1,
    validate_monitoring-Valid c.monitoring,
    validate_postgres-Valid c.postgres,
    validate_spool-Valid c.spool,
    validate_delivery-Valid c.delivery,
    validate_logging-Valid c.logging,
  )

  -- Whatever the file says, an accepted configuration has every setting within its bounds: the two
  -- amounts of disk space in order, the retry delays ordered, and sinks with distinct names, each a
  -- complete webhook or stdout sink.
  pub validate-ValidConfig :
      (c : Config) {d : Config} → set_defaults_and_validate lib c ≡ ok d → ValidConfig lib d
  validate-ValidConfig c h = Yields-ok (ValidConfig lib) h (set_defaults_and_validate-Valid c)
