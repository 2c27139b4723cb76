-- ===== src/Delivery/Worker.antt =====
-- What one round of the worker does, on each of its branches, and the bound on attempts.
use mathlib.Core.List.{Memᴰ}
use write_relay.Prelude.{
  ◌+◌, String, ◌≡◌, refl, sym, subst, Bool, true, false, not, ◌&&◌, Option, none, some, List, [],
  ◌∷◌, arith, any, All, Bool-cases, inl, inr,
}
use write_relay.Spool.{Result, ok, err, other}
use write_relay.Store.{DeliveryRow, Db, is_waiting, EventRow}
use write_relay.Store.Queue.{Delivery, next_due_delivery}
use write_relay.Store.Queue.Next.{IsNext, next_due_delivery-IsNext}
use write_relay.Store.Keys.{KeysUnique}
use write_relay.Store.Marks.{
  is_current, delivered_row, mark_delivered, failed_row, is_pruned, mark_failed,
}
use write_relay.Store.Marks.Outcome.{
  Changes, Records, mark_delivered-Records, mark_failed-Records, next_due-is_current,
}
use write_relay.Delivery.{
  AttemptResult, Retry, failed_attempt, processed, Round, record_result, send_to, process_item,
  process_one,
}
use write_relay.Delivery.Becomes.{row_after, Becomes, row_after-Becomes}

-- A delivery that waits has its payload: what the triggers on pruning keep.
abbrev pub WaitingRetained : Db → Type 0
WaitingRetained db =
    All
      (λ (d : DeliveryRow).
        is_waiting d.state ≡ true → is_pruned db.events d.event_sequence ≡ false)
      db.deliveries

current-KeepsPayload :
    (item : Delivery) (events : List EventRow) (ds : List DeliveryRow)
    → All
        (λ (d : DeliveryRow). is_waiting d.state ≡ true → is_pruned events d.event_sequence ≡ false)
        ds
    → any (λ d. is_current item d && is_pruned events d.event_sequence) ds ≡ false
current-KeepsPayload item events [] h = refl
current-KeepsPayload item events (d ∷ ds) h =
    ground (arith, h.0, current-KeepsPayload item events ds h.1)

-- A round that records its attempt and goes on at once.
abbrev pub Processes : Db → Db × Result Bool → DeliveryRow → DeliveryRow → Type 0
Processes a r row row' = (r.1 ≡ ok true) × Changes a r.0 row row'

processed-Processes :
    (db : Db) (p : Db × Result (Unit {0})) (row row' : DeliveryRow)
    → Records db p row row'
    → Processes db (processed p) row row'
unfolding processed
processed-Processes db (db', ok _) row row' (done, changes) = (refl, changes)
processed-Processes db (db', err e) row row' (done, changes) = absurd (ground (arith, done))

module _ (w : Retry) (r : Round) (db : Db) (item : Delivery) (result : AttemptResult) where
  record_success :
      result.success ≡ true
      → record_result w r db item result
        ≡ processed (mark_delivered db item (item.attempts + 1) result.status_code r.at)
  unfolding record_result
  record_success h = ground arith

  record_failure :
      result.success ≡ false
      → (r.cancelled && not result.success) ≡ false
      → record_result w r db item result
        ≡ processed (mark_failed db item (failed_attempt w r.at item result))
  unfolding record_result
  record_failure h live = ground arith

  row_after_success :
      (row : DeliveryRow)
      → result.success ≡ true
      → row_after w r item result row
        ≡ delivered_row (item.attempts + 1) result.status_code r.at row
  row_after_success row h = ground arith

  row_after_failure :
      (row : DeliveryRow)
      → result.success ≡ false
      → row_after w r item result row ≡ failed_row (failed_attempt w r.at item result) row
  row_after_failure row h = ground arith

  record_result-Processes :
      (row : DeliveryRow)
      → KeysUnique db.deliveries
      → WaitingRetained db
      → Memᴰ row db.deliveries
      → is_current item row ≡ true
      → (r.cancelled && not result.success) ≡ false
      → Processes db (record_result w r db item result) row (row_after w r item result row)
  record_result-Processes row unique retained known current live =
      elim (Bool-cases result.success) [
        | inl success ↦
            let p = mark_delivered db item (item.attempts + 1) result.status_code r.at in
            rw (record_success success) (
              subst (Processes db (processed p) row) (sym (row_after_success row success)) (
                processed-Processes db p row _ (
                  mark_delivered-Records db item row (item.attempts + 1) result.status_code r.at
                    unique known current)))
        | inr failure ↦
            let p = mark_failed db item (failed_attempt w r.at item result) in
            rw (record_failure failure live) (
              subst (Processes db (processed p) row) (sym (row_after_failure row failure)) (
                processed-Processes db p row _ (
                  mark_failed-Records db item row (failed_attempt w r.at item result) unique known
                    current (current-KeepsPayload item db.events db.deliveries retained))))
      ]

module _ (w : Retry) (sinks : String → Option (Delivery → AttemptResult)) (r : Round)
    (db : Db) where
  process_one-eq :
      (item : Delivery) (send : Delivery → AttemptResult)
      → next_due_delivery r.now db ≡ some item
      → sinks item.sink_name ≡ some send
      → process_one w sinks r db ≡ record_result w r db item (send item)
  unfolding process_one process_item send_to
  process_one-eq item send next known = rw (next, process_item) (rw (known, send_to))

  -- If no two deliveries have the same key and the waiting ones belong to events that keep their
  -- payload, a round that finds a due delivery and a sender for its sink records the attempt,
  -- unless the daemon was cancelled and the attempt failed. The item's row, which was the current
  -- waiting one, counts one attempt more. After a success it is delivered, at the time after the
  -- request. After a failure that can be retried, below the limit of attempts, it waits for that time
  -- and the delay; after any other it is dead. No other row and no other table changes.
  pub process_one-Processes :
      (item : Delivery) (send : Delivery → AttemptResult)
      → KeysUnique db.deliveries
      → WaitingRetained db
      → next_due_delivery r.now db ≡ some item
      → sinks item.sink_name ≡ some send
      → (r.cancelled && not (send item).success) ≡ false
      → (row : DeliveryRow) × (row' : DeliveryRow) × IsNext r.now db item
        × Memᴰ row db.deliveries
        × (is_current item row ≡ true)
        × Becomes w r item (send item) row row'
        × Processes db (process_one w sinks r db) row row'
  process_one-Processes item send unique retained next known live =
      let n = next_due_delivery-IsNext r.now db next in
      let current = next_due-is_current r.now db n in
      (
        n.row,
        row_after w r item (send item) n.row,
        n,
        n.row_known,
        current,
        row_after-Becomes w r item (send item) n.row,
        rw (process_one-eq item send next known) (
            record_result-Processes w r db item (send item) n.row unique retained n.row_known
              current live),
      )

  -- In every other case the tables stay as they are: nothing is due, no sender is configured for the
  -- sink, which is an error, or the daemon was cancelled while the attempt failed.
  pub process_one_idle :
      (next_due_delivery r.now db ≡ none → process_one w sinks r db ≡ (db, ok false))
      × ((item : Delivery)
          → next_due_delivery r.now db ≡ some item
          → sinks item.sink_name ≡ none
          → process_one w sinks r db ≡ (db, err other))
      × ((item : Delivery) (send : Delivery → AttemptResult)
          → next_due_delivery r.now db ≡ some item
          → sinks item.sink_name ≡ some send
          → (r.cancelled && not (send item).success) ≡ true
          → process_one w sinks r db ≡ (db, ok false))
  unfolding process_one process_item send_to record_result
  process_one_idle = (
    λ none_due. rw (none_due, process_item),
    λ item next unknown. rw (next, process_item) (rw (unknown, send_to)),
    λ item send next known stop. rw (next, process_item) (rw (known, send_to) (rw stop)),
  )
