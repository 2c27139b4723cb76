-- ===== src/Delivery/Webhook.antt =====
-- internal/delivery/webhook.go: the request that `Send` makes and what it makes of the answer. The
-- digests, the encodings, the HTTP client and the parsers of strconv and net/http are arguments.
pub mod Answers
pub mod Key
use write_relay.Prelude.{
  ℕ, zero, suc, ◌+◌, ◌-◌, ◌*◌, ◌/◌, ◌^◌, String, Bool, true, false, min, not, ◌&&◌, ◌||◌, Option,
  none, some, List, [], ◌∷◌, ◌++◌, ltb, leb, ◌==◌, if◌then◌else◌, str_eq,
}
use write_relay.Store.Queue.{Delivery}
use write_relay.Delivery.{AttemptResult}

-- What the sender takes from the libraries. An integer is its sign, true below 0, and its size.
pub record Library : Type 0 where
  pub utf8 : String → List ℕ
  pub sha256_hex : List ℕ → String
  pub hmac_hex : List ℕ → List ℕ → String
  pub decimal : ℕ → List ℕ
  pub parse_int : String → Option (Bool × ℕ)
  pub parse_time : String → Option ℕ
  pub failure_text : ℕ → List ℕ

pub record WebhookSender : Type 0 where
  pub endpoint : String
  pub authorization : String
  pub signing_secret : List ℕ

-- The body and the headers that depend on the item. The signature has its timestamp.
pub record Request : Type 0 where
  pub body : List ℕ
  pub idempotency_key : String
  pub attempt : ℕ
  pub authorization : Option String
  pub signature : Option (ℕ × String)

-- `client.Do`: an error, with or without the request's context being over, or a status and its
-- Retry-After header.
pub data Response : Type 0 where
  timed_out network_failed : Response
  answered : ℕ → String → Response

abbrev pub max_duration : ℕ
max_duration = 2 ^ 63 - 1

abbrev pub nanoseconds : ℕ
nanoseconds = 1_000_000_000

module _ (lib : Library) where
  -- `item.SinkName + "\x00" + item.Source + "\x00" + item.ID`
  unfoldable pub key_text : Delivery → List ℕ
  key_text item = lib.utf8 item.sink_name ++ 0 ∷ (lib.utf8 item.source ++ 0 ∷ lib.utf8 item.id)

  unfoldable pub delivery_key : Delivery → String
  delivery_key item = lib.sha256_hex (key_text item)

  abbrev pub is_empty : List ℕ → Bool
  is_empty [] = true
  is_empty (_ ∷ _) = false

  unfoldable pub signature_of : WebhookSender → ℕ → Delivery → Option (ℕ × String)
  signature_of s timestamp item =
      if is_empty s.signing_secret
      then none
      else some
          (timestamp, lib.hmac_hex s.signing_secret (lib.decimal timestamp ++ b'.' ∷ item.payload))

  unfoldable pub request_of : WebhookSender → ℕ → Delivery → Request
  request_of s timestamp item = record {
    body = item.payload;
    idempotency_key = delivery_key item;
    attempt = item.attempts + 1;
    authorization = if str_eq s.authorization "" then none else some s.authorization;
    signature = signature_of s timestamp item;
  }

  unfoldable pub seconds_of : Bool × ℕ → ℕ
  seconds_of (negative, seconds) =
      if not negative && ltb 0 seconds
      then (if ltb (max_duration / nanoseconds) seconds
          then max_duration
          else seconds * nanoseconds)
      else 0

  -- `time.Until` stops at the longest duration.
  unfoldable pub delay_until : ℕ → Option ℕ → ℕ
  delay_until now none = 0
  delay_until now (some at) = if ltb at now then 0 else min (at - now) max_duration

  abbrev pub retry_after_from : ℕ → String → Option (Bool × ℕ) → ℕ
  retry_after_from now value (some n) = seconds_of n
  retry_after_from now value none = delay_until now (lib.parse_time value)

  unfoldable pub parse_retry_after : ℕ → String → ℕ
  parse_retry_after now value =
      if str_eq value "" then 0 else retry_after_from now value (lib.parse_int value)

  abbrev pub is_success_status : ℕ → Bool
  is_success_status status = leb 200 status && ltb status 300

  abbrev pub is_retryable_status : ℕ → Bool
  is_retryable_status status = (status == 408 || status == 425) || (status == 429 || leb 500 status)

  unfoldable pub attempt_result : ℕ → Response → AttemptResult
  attempt_result now timed_out = record {
    success = false;
    retryable = true;
    retry_after = 0;
    status_code = 0;
    failure = lib.failure_text 1;
  }
  attempt_result now network_failed = record {
    success = false;
    retryable = true;
    retry_after = 0;
    status_code = 0;
    failure = lib.failure_text 2;
  }
  attempt_result now (answered status retry_after) =
      if is_success_status status
      then record {
        success = true;
        retryable = false;
        retry_after = 0;
        status_code = status;
        failure = [];
      }
      else record {
        success = false;
        retryable = is_retryable_status status;
        retry_after = parse_retry_after now retry_after;
        status_code = status;
        failure = lib.failure_text status;
      }

  -- A request that cannot be constructed is a client of none.
  unfoldable pub send :
      WebhookSender → (Request → Response) → Bool → ℕ → ℕ → Delivery → AttemptResult
  send s client constructed timestamp now item =
      if not constructed
      then record {
        success = false;
        retryable = false;
        retry_after = 0;
        status_code = 0;
        failure = lib.failure_text 0;
      }
      else attempt_result now (client (request_of s timestamp item))
