-- ===== src/Config/Delivery.antt =====
-- internal/config/config.go: `DeliveryConfig.setDefaultsAndValidate`. The loop over the sinks carries
-- the names that it has seen.
use write_relay.Prelude.{
  ℕ, ◌*◌, ◌+◌, String, Bool, not, ◌&&◌, ◌||◌, Option, none, some, List, [], ◌∷◌, map, any, leb,
  if◌then◌else◌, str_eq, bytes_eq, codes,
}
use write_relay.Spool.{Result, ok, err, other, guard, ◌>>=◌, ◌>>◌}
use write_relay.Config.{
  Library, Url, SinkConfig, RetryConfig, DeliveryConfig, bounded_duration, is_identifier,
  validate_optional_environment_name, or_text, or_number, is_outside, is_in, millisecond, minute,
  hour,
}

-- `strings.ToLower` on a scheme, which is ASCII.
abbrev pub to_lower : ℕ → ℕ
to_lower c = if is_in 65 90 c then c + 32 else c

abbrev pub is_scheme : String → String → Bool
is_scheme name scheme = bytes_eq (map to_lower (codes scheme)) (codes name)

unfoldable pub validate_endpoint : Bool → Option Url → Result (Unit {0})
validate_endpoint allow_insecure_http none = err other
validate_endpoint allow_insecure_http (some endpoint) = do
  guard (not (str_eq endpoint.host "")) other
  guard (not (endpoint.has_user || not (str_eq endpoint.fragment ""))) other
  guard
      (is_scheme "https" endpoint.scheme
        || (is_scheme "http" endpoint.scheme && allow_insecure_http))
      other

unfoldable pub validate_stdout : SinkConfig → Result (Unit {0})
validate_stdout sink =
    guard
      (not (
        (not (str_eq sink.url "") || not (str_eq sink.authorization_env ""))
        || (not (str_eq sink.signing_secret_env "") || sink.allow_insecure_http)))
      other

module _ (lib : Library) where
  unfoldable pub validate_webhook : SinkConfig → Result (Unit {0})
  validate_webhook sink = do
    validate_endpoint sink.allow_insecure_http (lib.parse_url sink.url)
    validate_optional_environment_name sink.authorization_env
    validate_optional_environment_name sink.signing_secret_env

  unfoldable pub validate_type : SinkConfig → Result (Unit {0})
  validate_type sink =
      if str_eq sink.sink_type "webhook"
      then validate_webhook sink
      else if str_eq sink.sink_type "stdout"
      then validate_stdout sink
      else err other

  unfoldable pub validate_sinks : List String → List SinkConfig → Result (Unit {0})
  validate_sinks names [] = ok tt
  validate_sinks names (sink ∷ rest) = do
    guard (is_identifier sink.name) other
    guard (not (any (str_eq sink.name) names)) other
    validate_type sink
    validate_sinks (sink.name ∷ names) rest

  unfoldable pub validate_retry : RetryConfig → Result RetryConfig
  validate_retry r = do
    initial ← bounded_duration lib (or_text r.initial_delay_value "1s") (100 * millisecond) hour
    maximum ← bounded_duration lib (or_text r.max_delay_value "5m") (100 * millisecond) (24 * hour)
    guard (leb initial maximum) other
    guard (not (is_outside 1 1000 (or_number r.max_attempts 10))) other
    ok (record {
      initial_delay = initial;
      initial_delay_value = or_text r.initial_delay_value "1s";
      max_delay = maximum;
      max_delay_value = or_text r.max_delay_value "5m";
      max_attempts = or_number r.max_attempts 10;
    })

  unfoldable pub validate_delivery : DeliveryConfig → Result DeliveryConfig
  validate_delivery c = do
    poll ← bounded_duration lib (or_text c.poll_interval_value "1s") (50 * millisecond) minute
    request ←
        bounded_duration lib (or_text c.request_timeout_value "10s") (100 * millisecond)
          (2 * minute)
    retry ← validate_retry c.retry
    validate_sinks [] c.sinks
    ok (record {
      poll_interval = poll;
      poll_interval_value = or_text c.poll_interval_value "1s";
      request_timeout = request;
      request_timeout_value = or_text c.request_timeout_value "10s";
      retry = retry;
      sinks = c.sinks;
    })
