-- ===== src/Config/Used.antt =====
-- internal/app/app.go, internal/postgres/replicator.go: the limits that the daemon's parts take from
-- the configuration, and what an accepted configuration makes of them.
use write_relay.Prelude.{ℕ, ◌*◌, ◌^◌, ◌≤◌, min, max, ◌≡◌, ◌≢◌, ℤ, pos, negsuc, true, length, arith}
use write_relay.Spool.{Result, ok, err, transaction_limit}
use write_relay.Event.{Runtime, Metadata, validate}
use write_relay.Capture.{
  Limits, StateMachine, LogicalMessage, buffer_event, consume_logical_message, new_state_machine,
}
use write_relay.Store.Queue.{Delivery}
use write_relay.Delivery.{AttemptResult, Retry, next_delay}
use write_relay.Delivery.Backoff.{next_delay-min}
use write_relay.Config.{Library, Config, hour}
use write_relay.Config.Load.{set_defaults_and_validate}
use write_relay.Config.Valid.{ValidConfig}
use write_relay.Config.Accepted.{validate-ValidConfig}

-- An accepted number is not negative.
abbrev pub to_ℕ : ℤ → ℕ
to_ℕ (pos n) = n
to_ℕ (negsuc n) = 0

unfoldable pub retry_of : Config → Retry
retry_of c = record {
  initial_delay = c.delivery.retry.initial_delay;
  max_delay = c.delivery.retry.max_delay;
  max_attempts = to_ℕ c.delivery.retry.max_attempts;
}

unfoldable pub limits_of : Config → Limits
limits_of c = record {
  prefix = c.postgres.message_prefix;
  max_event_bytes = to_ℕ c.spool.max_event_bytes;
  max_events = to_ℕ c.postgres.max_transaction_events;
  max_bytes = to_ℕ c.postgres.max_transaction_bytes;
}

-- With an accepted configuration, the wait before the next attempt is the larger of the doubled
-- initial delay and of what the destination asked for, up to the maximum delay, which is at most a
-- day.
pub next_delay-configured :
    (lib : Library) (c : Config) {d : Config}
    → set_defaults_and_validate lib c ≡ ok d
    → (item : Delivery) (result : AttemptResult)
    → (next_delay (retry_of d) item result
        ≡ min d.delivery.retry.max_delay
            (max (d.delivery.retry.initial_delay * 2 ^ item.attempts) result.retry_after))
      × (next_delay (retry_of d) item result ≤ 24 * hour)
unfolding retry_of
next_delay-configured lib c {d} h item result =
    let valid = validate-ValidConfig lib c {d = d} h in
    let bound = valid.delivery.retry.maximum in
    let delay = next_delay-min (retry_of d) item result (omega (arith, bound)) in
    (delay, omega (arith, bound, delay))

limits_fit :
    (lib : Library) (d : Config)
    → ValidConfig lib d
    → (1 ≤ (limits_of d).max_events) × ((limits_of d).max_event_bytes ≤ (limits_of d).max_bytes)
unfolding limits_of
limits_fit lib d v = ground (arith, v.postgres.events, v.postgres.bytes, v.spool.max_event_bytes)

buffer_event-within :
    (rt : Runtime) (s : StateMachine) (m : LogicalMessage) (r : Result Metadata)
    → (buffer_event rt s m r).1 ≢ err transaction_limit
unfolding buffer_event
buffer_event-within rt s m r = ground arith

-- With an accepted configuration, the first message of a transaction is never refused for the limits
-- of the transaction, if its content is within the limit of one event.
pub first_message-fits :
    (lib : Library) (c : Config) {d : Config}
    → set_defaults_and_validate lib c ≡ ok d
    → (rt : Runtime) (xid : ℕ) (m : LogicalMessage)
    → length m.content ≤ (limits_of d).max_event_bytes
    → (consume_logical_message rt
        (record (new_state_machine (limits_of d)) { in_transaction = true; transaction_id = xid })
        m).1
      ≢ err transaction_limit
unfolding consume_logical_message new_state_machine
first_message-fits lib c {d} h rt xid m small =
    let fits = limits_fit lib d (validate-ValidConfig lib c {d = d} h) in
    ground (
      arith,
      fits,
      small,
      buffer_event-within rt
          (record (new_state_machine (limits_of d)) { in_transaction = true; transaction_id = xid })
          m (validate rt m.content (limits_of d).max_event_bytes),
    )
