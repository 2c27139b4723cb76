-- ===== src/App.antt =====
-- internal/app/app.go, internal/delivery/webhook.go and stdout.go: what the daemon makes of its
-- configuration: the senders of the sinks, their registrations, and the tasks that it runs together.
-- The environment and the digest are arguments.
pub mod Registered
pub mod Together
use write_relay.Prelude.{
  ℕ, String, Bool, true, false, not, ◌&&◌, ◌||◌, Option, none, some, List, [], ◌∷◌, ◌++◌, ◌==◌, any,
  if◌then◌else◌, str_eq, codes,
}
use write_relay.Spool.{Error, Result, ok, err, other, guard, ◌>>=◌, ◌>>◌}
use write_relay.Store.Queue.{Delivery}
use write_relay.Store.Sinks.{SinkRegistration}
use write_relay.Delivery.{AttemptResult}
use write_relay.Config.{SinkConfig, Config, non_empty}

-- `os.LookupEnv` and SHA-256.
pub record Library : Type 0 where
  pub lookup_env : String → Option String
  pub sha256 : List ℕ → List ℕ

-- A webhook's sender by what it takes from its configuration.
pub data Sender : Type 0 where
  webhook : String → String → List ℕ → Sender
  stdout : Sender

unfoldable pub optional_secret : Library → String → Result String
optional_secret lib name = if str_eq name "" then ok "" else non_empty (lib.lookup_env name)

-- `strings.ContainsAny(authorization, "\r\n")`
abbrev pub has_line_break : String → Bool
has_line_break value = any (λ c. c == 13 || c == 10) (codes value)

abbrev pub registration : String → String → List ℕ → SinkRegistration
registration name sink_type digest = record {
  name = name;
  sink_type = sink_type;
  config_sha256 = digest;
}

unfoldable pub new_webhook_sender : Library → SinkConfig → Result (Sender × SinkRegistration)
new_webhook_sender lib sink = do
  authorization ← optional_secret lib sink.authorization_env
  guard (not (has_line_break authorization)) other
  signing_secret ← optional_secret lib sink.signing_secret_env
  ok (
    webhook sink.url authorization (codes signing_secret),
    registration sink.name sink.sink_type (lib.sha256 (codes sink.sink_type ++ 0 ∷ codes sink.url)),
  )

unfoldable pub new_stdout_sink : Library → String → Sender × SinkRegistration
new_stdout_sink lib name = (stdout, registration name "stdout" (lib.sha256 (codes "stdout")))

-- `StdoutSink.Send`: what is written, and the result, by whether the write succeeds.
unfoldable pub stdout_line : Delivery → List ℕ
stdout_line item = item.payload ++ 10 ∷ []

unfoldable pub stdout_send : Bool → AttemptResult
stdout_send writes =
    if writes
    then record {
      success = true;
      retryable = false;
      retry_after = 0;
      status_code = 0;
      failure = [];
    }
    else record {
      success = false;
      retryable = true;
      retry_after = 0;
      status_code = 0;
      failure = codes "write stdout delivery failed";
    }

unfoldable pub build_sink : Library → SinkConfig → Result (Sender × SinkRegistration)
build_sink lib sink =
    if str_eq sink.sink_type "webhook"
    then new_webhook_sender lib sink
    else if str_eq sink.sink_type "stdout"
    then ok (new_stdout_sink lib sink.name)
    else err other

-- The loop over the sinks: the map of senders as the list of its names, and the registrations.
pub record Built : Type 0 where
  pub senders : List (String × Sender)
  pub registrations : List SinkRegistration

unfoldable pub build_sinks : Library → List SinkConfig → Result Built
build_sinks lib [] = ok (record { senders = []; registrations = [] })
build_sinks lib (sink ∷ rest) = do
  built ← build_sink lib sink
  more ← build_sinks lib rest
  ok (record {
    senders = (sink.name, built.0) ∷ more.senders;
    registrations = built.1 ∷ more.registrations;
  })

abbrev has_any {ℓ} : {A : Type ℓ} → List A → Bool
has_any [] = false
has_any (_ ∷ _) = true

pub data Task : Type 0 where
  replicator worker monitor : Task

unfoldable pub tasks_of : Config → Built → List Task
tasks_of c built =
    replicator ∷ (if has_any built.senders then worker ∷ [] else [])
    ++ (if not (str_eq c.monitoring.listen "") then monitor ∷ [] else [])

-- `runTogether`, by the results in the order in which the tasks end.
unfoldable pub first_error : Result (Unit {0}) → List (Result (Unit {0})) → Result (Unit {0})
first_error first [] = first
first_error (err e) (_ ∷ rest) = first_error (err e) rest
first_error (ok _) (result ∷ rest) = first_error result rest

unfoldable pub run_together : List (Result (Unit {0})) → Result (Unit {0})
run_together results = first_error (ok tt) results
