-- ===== src/Delivery/Attempts.antt =====
-- A delivery is attempted at most `max_attempts` times before it is redriven.
use write_relay.Prelude.{
  ℕ, ◌+◌, ◌≤◌, ◌<◌, String, ◌≡◌, true, Option, arith, All, All-update, Option-cases, inl, inr,
}
use write_relay.Store.{DeliveryRow, Db, is_waiting}
use write_relay.Store.Queue.{Delivery, next_due_delivery}
use write_relay.Store.Marks.{
  is_current, delivered_row, mark_delivered, failed_row, update_live, mark_failed,
}
use write_relay.Delivery.{
  AttemptResult, Retry, failed_attempt, is_permanent, processed, Round, record_result, send_to,
  process_item, process_one,
}

-- A row that still waits has attempts left.
abbrev pub WithinAttempts : ℕ → DeliveryRow → Type 0
WithinAttempts max_attempts d =
    (d.attempts ≤ max_attempts) × (is_waiting d.state ≡ true → d.attempts < max_attempts)

module _ (w : Retry) where
  delivered_row-Within :
      (item : Delivery) (status at : ℕ) (d : DeliveryRow)
      → is_current item d ≡ true
      → WithinAttempts w.max_attempts d
      → WithinAttempts w.max_attempts (delivered_row (item.attempts + 1) status at d)
  unfolding delivered_row
  delivered_row-Within item status at d current h = ground arith

  failed_row-Within :
      (item : Delivery) (at : ℕ) (result : AttemptResult) (d : DeliveryRow)
      → is_current item d ≡ true
      → WithinAttempts w.max_attempts d
      → WithinAttempts w.max_attempts (failed_row (failed_attempt w at item result) d)
  unfolding failed_row failed_attempt is_permanent
  failed_row-Within item at result d current h = ground arith

  record_result-Within :
      (r : Round) (db : Db) (item : Delivery) (result : AttemptResult)
      → All (WithinAttempts w.max_attempts) db.deliveries
      → All (WithinAttempts w.max_attempts) (record_result w r db item result).0.deliveries
  unfolding record_result processed mark_delivered mark_failed update_live
  record_result-Within r db item result h =
      let updated =
        All-update (WithinAttempts w.max_attempts) (is_current item)
          (delivered_row (item.attempts + 1) result.status_code r.at)
          (λ d current v. delivered_row-Within item result.status_code r.at d current v)
          db.deliveries h in
      let failed =
        All-update (WithinAttempts w.max_attempts) (is_current item)
          (failed_row (failed_attempt w r.at item result))
          (λ d current v. failed_row-Within item r.at result d current v) db.deliveries h in
      ground (arith, updated, failed)

  -- If each delivery is within the configured number of attempts, and one that is still waiting
  -- below it, then every round keeps it so, whatever the sinks answer.
  pub process_one-Within :
      (sinks : String → Option (Delivery → AttemptResult)) (r : Round) (db : Db)
      → All (WithinAttempts w.max_attempts) db.deliveries
      → All (WithinAttempts w.max_attempts) (process_one w sinks r db).0.deliveries
  unfolding process_one process_item send_to
  process_one-Within sinks r db h = elim (Option-cases (next_due_delivery r.now db)) [
    | inl nothing ↦ rw (nothing, process_item) h
    | inr (item, next) ↦
        rw (next, process_item)
          (elim (Option-cases (sinks item.sink_name)) [
            | inl unknown ↦ rw (unknown, send_to) h
            | inr (send, known) ↦ rw (known, send_to) (record_result-Within r db item (send item) h)
          ])
  ]
