-- ===== src/Delivery/Webhook/Answers.antt =====
-- What a webhook's answer leads to in the spool.
use write_relay.Prelude.{
  ℕ, ◌+◌, ◌*◌, ◌^◌, ◌≡◌, String, Bool, false, not, ◌&&◌, ◌-◌, some, arith, ltb, leb, str_eq,
  if◌then◌else◌,
}
use write_relay.Store.{delivered, retry_wait, dead_letter, DeliveryRow}
use write_relay.Store.Queue.{Delivery}
use write_relay.Store.Marks.{delivered_row, failed_row}
use write_relay.Delivery.{Retry, Round, failed_attempt, is_permanent}
use write_relay.Delivery.Becomes.{row_after}
use write_relay.Delivery.Webhook.{
  Library, answered, seconds_of, parse_retry_after, attempt_result, is_success_status,
  is_retryable_status,
}

module _ (lib : Library) where
  -- For a Retry-After header that is an integer, the wait is exact in nanoseconds or, if it does
  -- not fit an int64, the longest duration; a number below 0 asks for none.
  pub parse_retry_after-seconds :
      (now : ℕ) (value : String) (negative : Bool) (seconds : ℕ)
      → str_eq value "" ≡ false
      → lib.parse_int value ≡ some (negative, seconds)
      → parse_retry_after lib now value ≡ (
          if negative
          then 0
          else if ltb (seconds * 1_000_000_000) (2 ^ 63)
          then seconds * 1_000_000_000
          else 2 ^ 63 - 1)
  unfolding parse_retry_after seconds_of
  parse_retry_after-seconds now value negative seconds nonempty parsed =
      ground (arith, nonempty, parsed)

  -- The row after an answer: delivered exactly for a status from 200 to 299; otherwise it waits for
  -- a retry exactly if the status is 408, 425, 429 or at least 500 and attempts are left; and else it
  -- is dead.
  pub answered-state :
      (w : Retry) (r : Round) (item : Delivery) (status : ℕ) (header : String) (row : DeliveryRow)
      → (row_after w r item (attempt_result lib r.at (answered status header)) row).state ≡ (
          if is_success_status lib status
          then delivered
          else if is_retryable_status lib status && not (leb w.max_attempts (item.attempts + 1))
          then retry_wait
          else dead_letter)
  unfolding attempt_result delivered_row failed_row failed_attempt is_permanent
  answered-state w r item status header row = ground arith
