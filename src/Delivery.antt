-- ===== src/Delivery.antt =====
-- internal/delivery/delivery.go: the worker that sends one due delivery and records the outcome.
-- Texts of failures are bytes; durations count nanoseconds of an int64 that is not negative.
pub mod Backoff
pub mod Becomes
pub mod Worker
pub mod Attempts
pub mod Run
pub mod Webhook
use write_relay.Prelude.{
  ℕ, zero, suc, ◌+◌, ◌*◌, ◌/◌, ◌%◌, ◌^◌, String, Bool, true, false, not, ◌&&◌, ◌||◌, Option, none,
  some, List, [], ◌∷◌, ltb, leb, take, length, if◌then◌else◌,
}
use write_relay.Spool.{Error, Result, ok, err, other}
use write_relay.Store.{Db}
use write_relay.Store.Queue.{Delivery, next_due_delivery}
use write_relay.Store.Marks.{mark_delivered, FailedAttempt, mark_failed}

pub record AttemptResult : Type 0 where
  pub success : Bool
  pub retryable : Bool
  pub retry_after : ℕ
  pub status_code : ℕ
  pub failure : List ℕ

pub record Retry : Type 0 where
  pub initial_delay : ℕ
  pub max_delay : ℕ
  pub max_attempts : ℕ

abbrev pub max_stored_error_bytes : ℕ
max_stored_error_bytes = 2048

unfoldable pub truncate : List ℕ → ℕ → List ℕ
truncate value limit = if leb (length value) limit then value else take limit value

unfoldable pub cap_delay : ℕ → ℕ → ℕ
cap_delay max_delay delay = if ltb max_delay delay then max_delay else delay

-- The loop of `retryDelay`, by the rounds that are left.
unfoldable pub double_delay : ℕ → ℕ → ℕ → ℕ
double_delay max_delay zero delay = cap_delay max_delay delay
double_delay max_delay (suc rounds) delay =
    let rest = double_delay max_delay rounds ((delay * 2) % 2 ^ 64) in
    if ltb delay max_delay
    then (if ltb (max_delay / 2) delay then max_delay else rest)
    else cap_delay max_delay delay

unfoldable pub retry_delay : Retry → ℕ → ℕ
retry_delay w previous_attempts = double_delay w.max_delay previous_attempts w.initial_delay

-- The wait before the next attempt: the destination may ask for more than the backoff.
unfoldable pub next_delay : Retry → Delivery → AttemptResult → ℕ
next_delay w item result =
    let delay = retry_delay w item.attempts in
    if ltb delay result.retry_after
    then (if ltb w.max_delay result.retry_after then w.max_delay else result.retry_after)
    else delay

unfoldable pub is_permanent : Retry → Delivery → AttemptResult → Bool
is_permanent w item result = not result.retryable || leb w.max_attempts (item.attempts + 1)

unfoldable pub failed_attempt : Retry → ℕ → Delivery → AttemptResult → FailedAttempt
failed_attempt w at item result = record {
  attempt = item.attempts + 1;
  permanent = is_permanent w item result;
  retry_at = if is_permanent w item result then at else at + next_delay w item result;
  failure = truncate result.failure max_stored_error_bytes;
  status = result.status_code;
  at = at;
}

unfoldable pub processed : Db × Result (Unit {0}) → Db × Result Bool
processed (db, ok _) = (db, ok true)
processed (db, err e) = (db, err e)

-- What a round of the worker meets: the clock before and after the request, and whether the
-- daemon's context was cancelled meanwhile.
pub record Round : Type 0 where
  pub now : ℕ
  pub at : ℕ
  pub cancelled : Bool

unfoldable pub record_result : Retry → Round → Db → Delivery → AttemptResult → Db × Result Bool
record_result w r db item result =
    if r.cancelled && not result.success
    then (db, ok false)
    else if result.success
    then processed (mark_delivered db item (item.attempts + 1) result.status_code r.at)
    else processed (mark_failed db item (failed_attempt w r.at item result))

unfoldable pub send_to :
    Retry → Round → Db → Delivery → Option (Delivery → AttemptResult) → Db × Result Bool
send_to w r db item none = (db, err other)
send_to w r db item (some send) = record_result w r db item (send item)

unfoldable pub process_item :
    Retry
    → (String → Option (Delivery → AttemptResult))
    → Round
    → Db
    → Option Delivery
    → Db × Result Bool
process_item w sinks r db none = (db, ok false)
process_item w sinks r db (some item) = send_to w r db item (sinks item.sink_name)

-- `sinks` is the worker's map of senders.
unfoldable pub process_one :
    Retry → (String → Option (Delivery → AttemptResult)) → Round → Db → Db × Result Bool
process_one w sinks r db = process_item w sinks r db (next_due_delivery r.now db)
