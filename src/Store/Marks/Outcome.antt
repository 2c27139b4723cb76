-- ===== src/Store/Marks/Outcome.antt =====
-- What `MarkDelivered` and `MarkFailed` do to the row of their item and to the others.
use mathlib.Core.List.{Memᴰ}
use write_relay.Prelude.{
  ℕ, ◌≡◌, refl, true, false, ◌&&◌, some, arith, any, find, find_holds, update, count, Option-cases,
  inl, inr,
}
use write_relay.Spool.{Error, Result, ok, err, durability}
use write_relay.Store.{DeliveryRow, Db, has_key}
use write_relay.Store.Queue.{Delivery}
use write_relay.Store.Queue.Next.{IsNext}
use write_relay.Store.Keys.{KeysUnique, KeepsKey, count_one, find-update, find_unique, update_none}
use write_relay.Store.Marks.{
  is_current, expect_one_delivery_update, delivered_row, mark_delivered, FailedAttempt, failed_row,
  is_pruned, update_live, mark_failed,
}

-- From tables `a` to `b` one row changes: a lookup by its key finds the new row, every other key
-- has what it had, and the other tables are the same.
pub record Changes (a b : Db) (row row' : DeliveryRow) : Type 0 where
  pub changed : find (has_key row.event_sequence row.sink_id) b.deliveries ≡ some row'
  pub others :
      (sequence sink_id : ℕ)
      → has_key sequence sink_id row ≡ false
      → find (has_key sequence sink_id) b.deliveries ≡ find (has_key sequence sink_id) a.deliveries
  pub events : b.events ≡ a.events
  pub sinks : b.sinks ≡ a.sinks
  pub checkpoint : b.checkpoint ≡ a.checkpoint

-- The call succeeds and changes that row.
abbrev pub Records : Db → Db × Result (Unit {0}) → DeliveryRow → DeliveryRow → Type 0
Records a r row row' = (r.1 ≡ ok tt) × Changes a r.0 row row'

is_current_key :
    (item : Delivery) (d : DeliveryRow)
    → is_current item d ≡ true
    → has_key item.event_sequence item.sink_id d ≡ true
is_current_key item d h = ground arith

other_key :
    (item : Delivery) (f : DeliveryRow → DeliveryRow) (row d : DeliveryRow) (sequence sink_id : ℕ)
    → is_current item row ≡ true
    → has_key sequence sink_id row ≡ false
    → has_key sequence sink_id d ≡ true
    → is_current item d ≡ false
other_key item f row d sequence sink_id current differs same = ground arith

update_current-Records :
    (db : Db) (item : Delivery) (f : DeliveryRow → DeliveryRow) (row : DeliveryRow) (e : Error)
    → KeepsKey f
    → KeysUnique db.deliveries
    → Memᴰ row db.deliveries
    → is_current item row ≡ true
    → Records db
        (
          record db { deliveries = update (is_current item) f db.deliveries },
          expect_one_delivery_update (count (is_current item) db.deliveries) e,
        )
        row
        (f row)
unfolding expect_one_delivery_update
update_current-Records db item f row e keeps unique known current = (
  rw (
      count_one (is_current item) item.event_sequence item.sink_id (is_current_key item)
        db.deliveries row unique known current),
  record {
    changed =
        rw
          (
            find-update (is_current item) f row.event_sequence row.sink_id db.deliveries keeps,
            find_unique db.deliveries row unique known,
          )
          (rw current);
    others = λ sequence sink_id differs.
        rw (find-update (is_current item) f sequence sink_id db.deliveries keeps)
          (elim (Option-cases (find (has_key sequence sink_id) db.deliveries)) [
            | inl gone ↦ rw gone
            | inr (d, found) ↦
                let miss =
                  other_key item f row d sequence sink_id current differs
                    (find_holds (has_key sequence sink_id) db.deliveries found) in
                rw found (rw miss)
          ]);
    events = refl;
    sinks = refl;
    checkpoint = refl;
  },
)

-- If no two deliveries have the same key, marking the current attempt of a delivery as delivered
-- succeeds, turns exactly its row into a delivered one with this attempt, status and time, and
-- leaves every other row and table alone.
pub mark_delivered-Records :
    (db : Db) (item : Delivery) (row : DeliveryRow) (attempt status at : ℕ)
    → KeysUnique db.deliveries
    → Memᴰ row db.deliveries
    → is_current item row ≡ true
    → Records db
        (mark_delivered db item attempt status at)
        row
        (delivered_row attempt status at row)
unfolding mark_delivered delivered_row
mark_delivered-Records db item row attempt status at unique known current =
    update_current-Records db item (delivered_row attempt status at) row durability
      (λ d. (refl, refl)) unique known current

-- The event of a delivery that can be marked keeps its payload.
abbrev pub KeepsPayload : Db → Delivery → Type 0
KeepsPayload db item =
    any (λ d. is_current item d && is_pruned db.events d.event_sequence) db.deliveries ≡ false

-- If no two deliveries have the same key and no event of the matching rows was pruned, marking
-- the current attempt of a delivery as failed succeeds, turns exactly its row into one that waits
-- for its retry time or, if the failure is permanent, is dead, and leaves every other row and
-- table alone.
pub mark_failed-Records :
    (db : Db) (item : Delivery) (row : DeliveryRow) (f : FailedAttempt)
    → KeysUnique db.deliveries
    → Memᴰ row db.deliveries
    → is_current item row ≡ true
    → KeepsPayload db item
    → Records db (mark_failed db item f) row (failed_row f row)
unfolding mark_failed update_live failed_row
mark_failed-Records db item row f unique known current payload = rw payload (
    update_current-Records db item (failed_row f) row durability (λ d. (refl, refl)) unique known
      current)

-- The row of a delivery that `NextDueDelivery` returned is its current attempt.
pub next_due-is_current :
    (now : ℕ) (db : Db) {item : Delivery} (n : IsNext now db item) → is_current item n.row ≡ true
next_due-is_current now db n = ground (arith, n.row_sequence, n.row_sink, n.row_attempts, n.waiting)

-- If another attempt has been recorded since the item was read, or its row is terminal, neither
-- call changes the tables, and both fail.
pub mark_stale :
    (db : Db) (item : Delivery) (attempt status at : ℕ) (f : FailedAttempt)
    → any (is_current item) db.deliveries ≡ false
    → (mark_delivered db item attempt status at ≡ (db, err durability))
      × (mark_failed db item f ≡ (db, err durability))
unfolding mark_delivered mark_failed update_live expect_one_delivery_update
mark_stale db item attempt status at f stale =
    let (same, nothing) =
      update_none (is_current item) (delivered_row attempt status at) db.deliveries stale in
    let (same', _) = update_none (is_current item) (failed_row f) db.deliveries stale in
    (ground (arith, same, nothing), ground (arith, same', nothing))
