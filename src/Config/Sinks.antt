-- ===== src/Config/Sinks.antt =====
-- The sinks that the loop over them lets pass.
use write_relay.Prelude.{
  ◌≡◌, refl, ◌↔◌, ◌≢◌, ◌⊎◌, String, Bool, false, Option, none, some, List, [], ◌∷◌, All, any, codes,
  arith, str_eq, eq_iff,
}
use write_relay.Spool.{ok}
use write_relay.Config.{Library, Url, SinkConfig}
use write_relay.Config.Delivery.{
  validate_endpoint, validate_webhook, validate_stdout, validate_type, validate_sinks,
}
use write_relay.Config.Valid.{OptionalEnvName, Endpoint, Webhook, Stdout, ValidSink, Distinct}
use write_relay.Config.Checks.{identifier_iff, OptionalEnvName-iff}

Endpoint-iff :
    (allow : Bool) (url : Option Url) → (validate_endpoint allow url ≡ ok tt) ↔ Endpoint allow url
unfolding validate_endpoint
Endpoint-iff allow none = ground arith
Endpoint-iff allow (some url) = ground (arith, eq_iff url.host "", eq_iff url.fragment "")

webhook_iff :
    (lib : Library) (s : SinkConfig)
    → (validate_webhook lib s ≡ ok tt) ↔ (
        Endpoint s.allow_insecure_http (lib.parse_url s.url)
        × OptionalEnvName s.authorization_env
        × OptionalEnvName s.signing_secret_env)
unfolding validate_webhook
webhook_iff lib s = ground (
  arith,
  Endpoint-iff s.allow_insecure_http (lib.parse_url s.url),
  OptionalEnvName-iff s.authorization_env,
  OptionalEnvName-iff s.signing_secret_env,
)

Stdout-iff : (s : SinkConfig) → ((s.sink_type ≡ "stdout") × (validate_stdout s ≡ ok tt)) ↔ Stdout s
unfolding validate_stdout
Stdout-iff s =
    ground (arith, eq_iff s.url "", eq_iff s.authorization_env "", eq_iff s.signing_secret_env "")

stdout_no_webhook : (value : String) → value ≡ "stdout" → str_eq value "webhook" ≡ false
stdout_no_webhook value e = rw e refl

validate_type_iff :
    (lib : Library) (s : SinkConfig) → (validate_type lib s ≡ ok tt) ↔ (Webhook lib s ⊎ Stdout s)
unfolding validate_type
validate_type_iff lib s = ground (
  arith,
  eq_iff s.sink_type "webhook",
  eq_iff s.sink_type "stdout",
  stdout_no_webhook s.sink_type,
  webhook_iff lib s,
  Stdout-iff s,
)

abbrev Fresh : List String → SinkConfig → Type 0
Fresh names s = any (str_eq s.name) names ≡ false

Fresh-iff :
    (names : List String) (s : SinkConfig) (rest : List SinkConfig)
    → All (Fresh (s.name ∷ names)) rest
      ↔ (All (λ (t : SinkConfig). t.name ≢ s.name) rest × All (Fresh names) rest)
Fresh-iff names s [] = ground arith
Fresh-iff names s (t ∷ rest) = ground (arith, eq_iff t.name s.name, Fresh-iff names s rest)

validate_sinks_from :
    (lib : Library) (names : List String) (sinks : List SinkConfig)
    → (validate_sinks lib names sinks ≡ ok tt)
      ↔ (All (ValidSink lib) sinks × Distinct sinks × All (Fresh names) sinks)
unfolding validate_sinks
validate_sinks_from lib names [] = ground arith
validate_sinks_from lib names (s ∷ rest) = ground (
  arith,
  identifier_iff (codes s.name),
  validate_type_iff lib s,
  Fresh-iff names s rest,
  validate_sinks_from lib (s.name ∷ names) rest,
)

Fresh-nil : (sinks : List SinkConfig) → All (Fresh []) sinks
Fresh-nil [] = tt
Fresh-nil (s ∷ rest) = (refl, Fresh-nil rest)

pub validate_sinks_iff :
    (lib : Library) (sinks : List SinkConfig)
    → (validate_sinks lib [] sinks ≡ ok tt) ↔ (All (ValidSink lib) sinks × Distinct sinks)
validate_sinks_iff lib sinks = ground (arith, validate_sinks_from lib [] sinks, Fresh-nil sinks)
