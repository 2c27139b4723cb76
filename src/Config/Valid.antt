-- ===== src/Config/Valid.antt =====
-- What an accepted configuration is: every setting is there and within its bounds.
use write_relay.Prelude.{
  ℕ, ◌*◌, ◌≤◌, ◌<◌, ◌≡◌, ◌≢◌, ◌⊎◌, String, Bool, true, false, Option, none, some, List, [], ◌∷◌,
  All, length, ℤ, pos, negsuc, Between, AtLeast, codes,
}
use write_relay.Config.{
  Library, Url, SinkConfig, RetryConfig, DeliveryConfig, DiskSpaceConfig, SpoolConfig,
  PostgresConfig, MonitoringConfig, LoggingConfig, Config, millisecond, second, minute, hour,
  default_max_event_bytes, required_prefix,
}
use write_relay.Config.Delivery.{is_scheme}

abbrev pub Lower : ℕ → Type 0
Lower c = ((97 ≤ c) × (c ≤ 122)) ⊎ (c ≡ 95)

abbrev pub LowerOrDigit : ℕ → Type 0
LowerOrDigit c = Lower c ⊎ (48 ≤ c) × (c ≤ 57)

abbrev pub Upper : ℕ → Type 0
Upper c = ((65 ≤ c) × (c ≤ 90)) ⊎ (c ≡ 95)

abbrev pub UpperOrDigit : ℕ → Type 0
UpperOrDigit c = Upper c ⊎ (48 ≤ c) × (c ≤ 57)

-- Lower case letters, digits and underscores, at most 63 of them, not led by a digit.
abbrev pub Identifier : List ℕ → Type 0
Identifier [] = ⊥
Identifier (c ∷ cs) = Lower c × All LowerOrDigit cs × (length cs ≤ 62)

abbrev pub EnvName : List ℕ → Type 0
EnvName [] = ⊥
EnvName (c ∷ cs) = Upper c × All UpperOrDigit cs

abbrev pub OptionalEnvName : String → Type 0
OptionalEnvName value = (value ≡ "") ⊎ EnvName (codes value)

-- Two amounts of bytes, the second larger, or none at all.
abbrev pub Thresholds : ℤ → ℤ → Type 0
Thresholds (pos pause) (pos resume) = ((pause ≡ 0) × (resume ≡ 0)) ⊎ (0 < pause) × (pause < resume)
Thresholds (pos pause) (negsuc resume) = ⊥
Thresholds (negsuc pause) resume = ⊥

-- What the checks ask of a webhook's URL.
abbrev pub Endpoint : Bool → Option Url → Type 0
Endpoint allow_insecure_http none = ⊥
Endpoint allow_insecure_http (some url) =
    (url.host ≢ "")
    × (url.has_user ≡ false)
    × (url.fragment ≡ "")
    × ((is_scheme "https" url.scheme ≡ true)
        ⊎ (is_scheme "http" url.scheme ≡ true) × (allow_insecure_http ≡ true))

abbrev pub Stdout : SinkConfig → Type 0
Stdout s =
    (s.sink_type ≡ "stdout")
    × (s.url ≡ "")
    × (s.authorization_env ≡ "")
    × (s.signing_secret_env ≡ "")
    × (s.allow_insecure_http ≡ false)

abbrev pub Distinct : List SinkConfig → Type 0
Distinct [] = Unit {0}
Distinct (s ∷ rest) = All (λ (t : SinkConfig). t.name ≢ s.name) rest × Distinct rest

pub record ValidLogging (c : LoggingConfig) : Type 0 where
  pub level :
      ((c.level ≡ "debug") ⊎ (c.level ≡ "info")) ⊎ ((c.level ≡ "warn") ⊎ (c.level ≡ "error"))
  pub format : (c.format ≡ "text") ⊎ (c.format ≡ "json")

abbrev pub HasPort : Option ℕ → Type 0
HasPort none = ⊥
HasPort (some port) = 1 ≤ port

module _ (lib : Library) where
  -- The interval is what the text says, and within its bounds.
  abbrev pub Timed : String → ℕ → ℕ → ℕ → Type 0
  Timed value interval low high =
      (value ≢ "")
      × (lib.parse_duration value ≡ some (pos interval))
      × (low ≤ interval)
      × (interval ≤ high)

  pub record ValidDisk (c : DiskSpaceConfig) : Type 0 where
    pub thresholds : Thresholds c.pause_below_bytes c.resume_at_bytes
    pub interval : Timed c.check_interval_value c.check_interval second minute

  pub record ValidSpool (c : SpoolConfig) : Type 0 where
    pub path : c.path ≢ ""
    pub max_event_bytes : Between 1 default_max_event_bytes c.max_event_bytes
    pub disk_space : ValidDisk c.disk_space

  pub record ValidMonitoring (c : MonitoringConfig) : Type 0 where
    pub listen : (c.listen ≡ "") ⊎ HasPort (lib.parse_addr_port c.listen)
    pub interval : Timed c.sample_interval_value c.sample_interval second (5 * minute)

  pub record ValidPostgres (c : PostgresConfig) : Type 0 where
    pub one_dsn : ((c.dsn ≢ "") × (c.dsn_env ≡ "")) ⊎ (c.dsn ≡ "") × EnvName (codes c.dsn_env)
    pub slot : Identifier (codes c.slot)
    pub publication : Identifier (codes c.publication)
    pub message_prefix : c.message_prefix ≡ required_prefix
    pub interval : Timed c.status_interval_value c.status_interval second (5 * minute)
    pub events : Between 1 1_000_000 c.max_transaction_events
    pub bytes : AtLeast default_max_event_bytes c.max_transaction_bytes

  abbrev pub Webhook : SinkConfig → Type 0
  Webhook s =
      (s.sink_type ≡ "webhook")
      × Endpoint s.allow_insecure_http (lib.parse_url s.url)
      × OptionalEnvName s.authorization_env
      × OptionalEnvName s.signing_secret_env

  abbrev pub ValidSink : SinkConfig → Type 0
  ValidSink s = Identifier (codes s.name) × (Webhook s ⊎ Stdout s)

  pub record ValidRetry (c : RetryConfig) : Type 0 where
    pub initial : Timed c.initial_delay_value c.initial_delay (100 * millisecond) hour
    pub maximum : Timed c.max_delay_value c.max_delay (100 * millisecond) (24 * hour)
    pub ordered : c.initial_delay ≤ c.max_delay
    pub attempts : Between 1 1000 c.max_attempts

  pub record ValidDelivery (c : DeliveryConfig) : Type 0 where
    pub poll : Timed c.poll_interval_value c.poll_interval (50 * millisecond) minute
    pub request : Timed c.request_timeout_value c.request_timeout (100 * millisecond) (2 * minute)
    pub retry : ValidRetry c.retry
    pub sinks : All ValidSink c.sinks
    pub distinct : Distinct c.sinks

  pub record ValidConfig (c : Config) : Type 0 where
    pub version : c.version ≡ pos 1
    pub postgres : ValidPostgres c.postgres
    pub spool : ValidSpool c.spool
    pub delivery : ValidDelivery c.delivery
    pub monitoring : ValidMonitoring c.monitoring
    pub logging : ValidLogging c.logging
