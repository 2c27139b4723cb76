-- ===== src/Config.antt =====
-- internal/config/config.go: the settings as the YAML file gives them, and the checks of one value.
-- A setting that the file leaves out is zero or the empty text. An error is one without a sentinel.
pub mod Delivery
pub mod Load
pub mod Valid
pub mod Checks
pub mod Sinks
pub mod Accepted
pub mod Complete
pub mod Used
use write_relay.Prelude.{
  ℕ, ◌*◌, String, Bool, true, false, not, ◌&&◌, ◌||◌, Option, none, some, List, [], ◌∷◌, ltb, leb,
  ◌==◌, all, length, if◌then◌else◌, str_eq, ℤ, pos, negsuc, eq_ℤ, ltb_ℤ, codes,
}
use write_relay.Spool.{Result, ok, err, other, guard, ◌>>=◌, ◌>>◌}

pub record PostgresConfig : Type 0 where
  pub dsn : String
  pub dsn_env : String
  pub slot : String
  pub publication : String
  pub message_prefix : String
  pub status_interval : ℕ
  pub status_interval_value : String
  pub create_slot_if_missing : Bool
  pub max_transaction_events : ℤ
  pub max_transaction_bytes : ℤ

pub record DiskSpaceConfig : Type 0 where
  pub pause_below_bytes : ℤ
  pub resume_at_bytes : ℤ
  pub check_interval : ℕ
  pub check_interval_value : String

pub record SpoolConfig : Type 0 where
  pub path : String
  pub max_event_bytes : ℤ
  pub disk_space : DiskSpaceConfig

pub record RetryConfig : Type 0 where
  pub initial_delay : ℕ
  pub initial_delay_value : String
  pub max_delay : ℕ
  pub max_delay_value : String
  pub max_attempts : ℤ

pub record SinkConfig : Type 0 where
  pub name : String
  pub sink_type : String
  pub url : String
  pub authorization_env : String
  pub signing_secret_env : String
  pub allow_insecure_http : Bool

pub record DeliveryConfig : Type 0 where
  pub poll_interval : ℕ
  pub poll_interval_value : String
  pub request_timeout : ℕ
  pub request_timeout_value : String
  pub retry : RetryConfig
  pub sinks : List SinkConfig

pub record MonitoringConfig : Type 0 where
  pub listen : String
  pub sample_interval : ℕ
  pub sample_interval_value : String

pub record LoggingConfig : Type 0 where
  pub level : String
  pub format : String

pub record Config : Type 0 where
  pub version : ℤ
  pub postgres : PostgresConfig
  pub spool : SpoolConfig
  pub delivery : DeliveryConfig
  pub monitoring : MonitoringConfig
  pub logging : LoggingConfig

-- What the checks read of a parsed URL.
pub record Url : Type 0 where
  pub scheme : String
  pub host : String
  pub has_user : Bool
  pub fragment : String

-- The parsers of time, net/netip and net/url; of an address only the port is read. A duration
-- counts nanoseconds.
pub record Library : Type 0 where
  pub parse_duration : String → Option ℤ
  pub parse_addr_port : String → Option ℕ
  pub parse_url : String → Option Url

abbrev pub millisecond : ℕ
millisecond = 1_000_000

abbrev pub second : ℕ
second = 1_000_000_000

abbrev pub minute : ℕ
minute = 60 * second

abbrev pub hour : ℕ
hour = 60 * minute

abbrev pub default_max_event_bytes : ℕ
default_max_event_bytes = 262_144

abbrev pub required_prefix : String
required_prefix = "writerelay.v1"

abbrev pub is_in : ℕ → ℕ → ℕ → Bool
is_in low high c = leb low c && leb c high

-- `[a-z_]`, and `[a-z0-9_]`
abbrev pub is_lower : ℕ → Bool
is_lower c = is_in 97 122 c || c == 95

abbrev pub is_lower_or_digit : ℕ → Bool
is_lower_or_digit c = is_lower c || is_in 48 57 c

abbrev pub is_upper : ℕ → Bool
is_upper c = is_in 65 90 c || c == 95

abbrev pub is_upper_or_digit : ℕ → Bool
is_upper_or_digit c = is_upper c || is_in 48 57 c

-- `identifierPattern`
unfoldable pub matches_identifier : List ℕ → Bool
matches_identifier [] = false
matches_identifier (c ∷ cs) = is_lower c && (all is_lower_or_digit cs && leb (length cs) 62)

abbrev pub is_identifier : String → Bool
is_identifier value = matches_identifier (codes value)

-- `envPattern`
unfoldable pub matches_env : List ℕ → Bool
matches_env [] = false
matches_env (c ∷ cs) = is_upper c && all is_upper_or_digit cs

abbrev pub is_env_name : String → Bool
is_env_name value = matches_env (codes value)

unfoldable pub validate_optional_environment_name : String → Result (Unit {0})
validate_optional_environment_name value = guard (str_eq value "" || is_env_name value) other

-- `if value == "" { value = … }`
abbrev pub or_text : String → String → String
or_text value default = if str_eq value "" then default else value

abbrev pub or_number : ℤ → ℕ → ℤ
or_number value default = if eq_ℤ value (pos 0) then pos default else value

-- The bounds of every duration are not negative.
abbrev pub in_bounds : ℕ → ℕ → ℤ → Result ℕ
in_bounds minimum maximum (pos n) = if ltb n minimum || ltb maximum n then err other else ok n
in_bounds minimum maximum (negsuc n) = err other

abbrev pub parsed_in_bounds : ℕ → ℕ → Option ℤ → Result ℕ
parsed_in_bounds minimum maximum none = err other
parsed_in_bounds minimum maximum (some d) = in_bounds minimum maximum d

-- `value < minimum || value > maximum`
abbrev pub is_outside : ℕ → ℕ → ℤ → Bool
is_outside minimum maximum value = ltb_ℤ value (pos minimum) || ltb_ℤ (pos maximum) value

module _ (lib : Library) where
  unfoldable pub bounded_duration : String → ℕ → ℕ → Result ℕ
  bounded_duration value minimum maximum =
      parsed_in_bounds minimum maximum (lib.parse_duration value)

  unfoldable pub validate_disk_space : DiskSpaceConfig → Result DiskSpaceConfig
  validate_disk_space c = do
    guard (not (ltb_ℤ c.pause_below_bytes (pos 0) || ltb_ℤ c.resume_at_bytes (pos 0))) other
    guard
        (if eq_ℤ c.pause_below_bytes (pos 0)
          then eq_ℤ c.resume_at_bytes (pos 0)
          else ltb_ℤ c.pause_below_bytes c.resume_at_bytes)
        other
    interval ← bounded_duration (or_text c.check_interval_value "5s") second minute
    ok (record c {
      check_interval = interval;
      check_interval_value = or_text c.check_interval_value "5s";
    })

-- `!ok || value == ""`
abbrev pub non_empty : Option String → Result String
non_empty none = err other
non_empty (some value) = if str_eq value "" then err other else ok value

unfoldable pub postgresql_dsn : (String → Option String) → Config → Result String
postgresql_dsn lookup_env c =
    if not (str_eq c.postgres.dsn "")
    then ok c.postgres.dsn
    else non_empty (lookup_env c.postgres.dsn_env)
