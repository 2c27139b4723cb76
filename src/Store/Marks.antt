-- ===== src/Store/Marks.antt =====
-- internal/spool/sqlite/sqlite.go: `MarkDelivered`, `MarkFailed` and `RedriveDelivery`. Each is one
-- UPDATE of deliveries, which commits whatever the number of rows that it changes; the trigger
-- deliveries_pruned_terminal of migration 3 aborts one that would revive a pruned event.
pub mod Outcome
pub mod Transitions
use write_relay.Prelude.{
  ℕ, suc, ◌+◌, String, Bool, true, false, not, ◌&&◌, ◌||◌, Option, none, some, List, [], ◌∷◌, ◌==◌,
  any, find, select, update, count, if◌then◌else◌, str_eq,
}
use write_relay.Spool.{Error, Result, ok, err, durability, other}
use write_relay.Store.{
  EventRow, SinkRow, DeliveryRow, DeliveryState, pending, retry_wait, delivered, dead_letter, Db,
  has_key, has_identity, is_waiting, is_dead_letter, is_retained,
}
use write_relay.Store.Queue.{Delivery}

-- `WHERE event_sequence = ? AND sink_id = ? AND attempts = ? AND state IN (…)`
abbrev pub is_current : Delivery → DeliveryRow → Bool
is_current item d =
    has_key item.event_sequence item.sink_id d
    && (d.attempts == item.attempts && is_waiting d.state)

-- A status of 0 is stored as NULL.
unfoldable pub response_status_of : ℕ → Option ℕ
response_status_of status = if status == 0 then none else some status

unfoldable pub expect_one_delivery_update : ℕ → Error → Result (Unit {0})
expect_one_delivery_update affected e = if affected == 1 then ok tt else err e

unfoldable pub delivered_row : ℕ → ℕ → ℕ → DeliveryRow → DeliveryRow
delivered_row attempt status at d = record d {
  state = delivered;
  attempts = attempt;
  last_attempt_at = some at;
  delivered_at = some at;
  dead_lettered_at = none;
  last_error = none;
  response_status = response_status_of status;
}

unfoldable pub mark_delivered : Db → Delivery → ℕ → ℕ → ℕ → Db × Result (Unit {0})
mark_delivered db item attempt status at = (
  record db {
    deliveries = update (is_current item) (delivered_row attempt status at) db.deliveries;
  },
  expect_one_delivery_update (count (is_current item) db.deliveries) durability,
)

-- The arguments of `MarkFailed` after the item.
pub record FailedAttempt : Type 0 where
  pub attempt : ℕ
  pub permanent : Bool
  pub retry_at : ℕ
  pub failure : List ℕ
  pub status : ℕ
  pub at : ℕ

unfoldable pub failed_row : FailedAttempt → DeliveryRow → DeliveryRow
failed_row f d = record d {
  state = if f.permanent then dead_letter else retry_wait;
  attempts = f.attempt;
  next_attempt_at = f.retry_at;
  last_attempt_at = some f.at;
  delivered_at = none;
  dead_lettered_at = if f.permanent then some f.at else none;
  last_error = some f.failure;
  response_status = response_status_of f.status;
}

-- `EXISTS (SELECT 1 FROM events WHERE sequence = … AND payload_pruned_at IS NOT NULL)`
abbrev pub is_pruned : List EventRow → ℕ → Bool
is_pruned events sequence = any (λ e. e.sequence == sequence && not (is_retained e)) events

-- The UPDATE of deliveries to a state other than 'delivered', under the trigger.
unfoldable pub update_live :
    Db → (DeliveryRow → Bool) → (DeliveryRow → DeliveryRow) → Error → Db × Result (Unit {0})
update_live db matches change e =
    if any (λ d. matches d && is_pruned db.events d.event_sequence) db.deliveries
    then (db, err durability)
    else (
      record db { deliveries = update matches change db.deliveries },
      expect_one_delivery_update (count matches db.deliveries) e,
    )

unfoldable pub mark_failed : Db → Delivery → FailedAttempt → Db × Result (Unit {0})
mark_failed db item f = update_live db (is_current item) (failed_row f) durability

unfoldable pub redriven_row : ℕ → DeliveryRow → DeliveryRow
redriven_row at d = record d {
  state = retry_wait;
  attempts = 0;
  next_attempt_at = at;
  last_attempt_at = none;
  delivered_at = none;
  dead_lettered_at = none;
  last_error = none;
  response_status = none;
}

-- The subqueries of `RedriveDelivery`. A comparison with NULL is not true.
abbrev pub matches_sink : Option SinkRow → DeliveryRow → Bool
matches_sink none d = false
matches_sink (some s) d = d.sink_id == s.sink_id

abbrev pub matches_event : Option EventRow → DeliveryRow → Bool
matches_event none d = false
matches_event (some e) d = d.event_sequence == e.sequence

abbrev pub is_redrivable : Db → String → String → String → DeliveryRow → Bool
is_redrivable db sink_name source id d =
    is_dead_letter d.state
    && (matches_sink (find (λ s. str_eq s.sink_name sink_name && s.active) db.sinks) d
        && matches_event (find (has_identity source id) db.events) d)

unfoldable pub redrive_delivery : Db → String → String → String → ℕ → Db × Result (Unit {0})
redrive_delivery db sink_name source id at =
    update_live db (is_redrivable db sink_name source id) (redriven_row at) other
