-- ===== src/Tests/Config.antt =====
-- A configuration that leaves most settings out, and the one that the daemon runs with.
use write_relay.Prelude.{
  ℕ, ◌*◌, ◌^◌, ◌≤◌, ◌≡◌, ◌≢◌, refl, min, max, ◌↔◌, String, false, true, Option, none, some, List,
  [], ◌∷◌, ℤ, pos, str_eq, bytes_eq, if◌then◌else◌, arith,
}
use write_relay.Spool.{ok, err, other, transaction_limit}
use write_relay.Capture.{consume_logical_message, new_state_machine}
use write_relay.Delivery.{next_delay}
use write_relay.Config.{
  Library, SinkConfig, Config, hour, postgresql_dsn, validate_disk_space, bounded_duration,
  matches_identifier, matches_env, validate_optional_environment_name,
}
use write_relay.Config.Delivery.{
  validate_delivery, validate_retry, validate_sinks, validate_type, validate_webhook,
  validate_stdout, validate_endpoint,
}
use write_relay.Config.Load.{
  set_defaults_and_validate, validate_monitoring, validate_postgres, validate_spool,
  validate_logging,
}
use write_relay.Config.Valid.{ValidConfig}
use write_relay.Config.Accepted.{validate-ValidConfig}
use write_relay.Config.Complete.{validate_iff}
use write_relay.Config.Used.{retry_of, limits_of, next_delay-configured, first_message-fits}
use write_relay.Tests.Data.{rt, message, item}

abbrev seconds_of : String → Option ℕ
seconds_of value =
    if str_eq value "1s"
    then some 1
    else if str_eq value "5s"
    then some 5
    else if str_eq value "10s"
    then some 10
    else if str_eq value "15s"
    then some 15
    else if str_eq value "5m"
    then some 300
    else none

abbrev nanoseconds_of : Option ℕ → Option ℤ
nanoseconds_of none = none
nanoseconds_of (some n) = some (pos (n * 1_000_000_000))

abbrev pub lib : Library
lib = record {
  parse_duration = λ value. nanoseconds_of (seconds_of value);
  parse_addr_port = λ value. none;
  parse_url =
      λ value. some (record { scheme = "HTTPS"; host = value; has_user = false; fragment = "" });
}

abbrev hook : SinkConfig
hook = record {
  name = "hook_1";
  sink_type = "webhook";
  url = "example.org";
  authorization_env = "HOOK_TOKEN";
  signing_secret_env = "";
  allow_insecure_http = false;
}

abbrev console : SinkConfig
console = record {
  name = "console";
  sink_type = "stdout";
  url = "";
  authorization_env = "";
  signing_secret_env = "";
  allow_insecure_http = false;
}

-- As the file gives it.
abbrev pub written : List SinkConfig → Config
written sinks = record {
  version = pos 1;
  postgres = record {
    dsn = "";
    dsn_env = "RELAY_DSN";
    slot = "relay";
    publication = "relay";
    message_prefix = "writerelay.v1";
    status_interval = 0;
    status_interval_value = "";
    create_slot_if_missing = false;
    max_transaction_events = pos 0;
    max_transaction_bytes = pos 0;
  };
  spool = record {
    path = "spool.db";
    max_event_bytes = pos 0;
    disk_space = record {
      pause_below_bytes = pos 0;
      resume_at_bytes = pos 0;
      check_interval = 0;
      check_interval_value = "";
    };
  };
  delivery = record {
    poll_interval = 0;
    poll_interval_value = "";
    request_timeout = 0;
    request_timeout_value = "";
    retry = record {
      initial_delay = 0;
      initial_delay_value = "";
      max_delay = 0;
      max_delay_value = "";
      max_attempts = pos 0;
    };
    sinks = sinks;
  };
  monitoring = record { listen = ""; sample_interval = 0; sample_interval_value = "" };
  logging = record { level = ""; format = "" };
}

abbrev pub completed : List SinkConfig → Config
completed sinks = record {
  version = pos 1;
  postgres = record {
    dsn = "";
    dsn_env = "RELAY_DSN";
    slot = "relay";
    publication = "relay";
    message_prefix = "writerelay.v1";
    status_interval = 10_000_000_000;
    status_interval_value = "10s";
    create_slot_if_missing = false;
    max_transaction_events = pos 10_000;
    max_transaction_bytes = pos 8_388_608;
  };
  spool = record {
    path = "spool.db";
    max_event_bytes = pos 262_144;
    disk_space = record {
      pause_below_bytes = pos 0;
      resume_at_bytes = pos 0;
      check_interval = 5_000_000_000;
      check_interval_value = "5s";
    };
  };
  delivery = record {
    poll_interval = 1_000_000_000;
    poll_interval_value = "1s";
    request_timeout = 10_000_000_000;
    request_timeout_value = "10s";
    retry = record {
      initial_delay = 1_000_000_000;
      initial_delay_value = "1s";
      max_delay = 300_000_000_000;
      max_delay_value = "5m";
      max_attempts = pos 10;
    };
    sinks = sinks;
  };
  monitoring = record {
    listen = "";
    sample_interval = 15_000_000_000;
    sample_interval_value = "15s";
  };
  logging = record { level = "info"; format = "text" };
}

abbrev pub both : List SinkConfig
both = hook ∷ console ∷ []

pub accepts : set_defaults_and_validate lib (written both) ≡ ok (completed both)
unfolding set_defaults_and_validate validate_monitoring validate_postgres validate_spool
    validate_disk_space validate_delivery validate_retry validate_sinks validate_type
    validate_webhook validate_stdout validate_endpoint validate_optional_environment_name
    validate_logging bounded_duration matches_identifier matches_env bytes_eq
accepts = refl

refuses_duplicates : set_defaults_and_validate lib (written (console ∷ console ∷ [])) ≡ err other
unfolding set_defaults_and_validate validate_monitoring validate_postgres validate_spool
    validate_disk_space validate_delivery validate_retry validate_sinks validate_type
    validate_webhook validate_stdout validate_endpoint validate_optional_environment_name
    validate_logging bounded_duration matches_identifier matches_env bytes_eq
refuses_duplicates = refl

reads_environment : postgresql_dsn (λ name. some name) (completed []) ≡ ok "RELAY_DSN"
unfolding postgresql_dsn
reads_environment = refl

validate-ValidConfig_example : ValidConfig lib (completed both)
validate-ValidConfig_example = validate-ValidConfig lib (written both) accepts

validate_iff_example :
    (set_defaults_and_validate lib (completed both) ≡ ok (completed both))
    ↔ ValidConfig lib (completed both)
validate_iff_example = validate_iff lib (completed both)

next_delay-configured_example :
    (next_delay (retry_of (completed both)) item record {
      success = false;
      retryable = true;
      retry_after = 7;
      status_code = 503;
      failure = [];
    }
      ≡ min 300_000_000_000 (max (1_000_000_000 * 2 ^ item.attempts) 7))
    × (next_delay (retry_of (completed both)) item record {
      success = false;
      retryable = true;
      retry_after = 7;
      status_code = 503;
      failure = [];
    }
        ≤ 24 * hour)
next_delay-configured_example = next_delay-configured lib (written both) accepts item _

small : 1 ≤ (limits_of (completed both)).max_event_bytes
unfolding limits_of
small = omega arith

first_message-fits_example :
    (consume_logical_message rt
      (record (new_state_machine (limits_of (completed both))) {
        in_transaction = true;
        transaction_id = 7;
      })
      (message 1 true)).1
    ≢ err transaction_limit
first_message-fits_example =
    first_message-fits lib (written both) accepts rt 7 (message 1 true) small
