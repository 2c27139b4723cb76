-- ===== src/Recovery/Keys.antt =====
-- Each statement that inserts or changes deliveries keeps their keys distinct.
use write_relay.Prelude.{ℕ, ◌≡◌, sym, subst, ◌∙◌, inl, inr, List, [], ◌∷◌, arith, Bool-cases}
use write_relay.Spool.{CapturedEvent, CommittedBatch, ok}
use write_relay.Event.{Runtime}
use write_relay.Store.{EventRow, SinkRow, DeliveryRow, Db, is_retained, insert_delivery}
use write_relay.Store.Keys.{KeysUnique, insert_delivery-KeysUnique}
use write_relay.Store.Persist.{
  Inserted, verify_replay, insert_from, insert_or_verify, insert_for_sinks, has_payload,
  ensure_deliveries_for_event, Progress, advance_checkpoint, persist_committed_batch,
}
use write_relay.Store.Persist.Kept.{persist-keeps}
use write_relay.Store.Marks.Transitions.{Moves}
use write_relay.Store.Sinks.{backfill}
use write_relay.Recovery.Retained.{any-Moves}

insert_for_sinks-KeysUnique :
    (now sequence : ℕ) (ss : List SinkRow) (ds : List DeliveryRow)
    → KeysUnique ds
    → KeysUnique (insert_for_sinks now sequence ss ds)
unfolding insert_for_sinks
insert_for_sinks-KeysUnique now sequence [] ds u = u
insert_for_sinks-KeysUnique now sequence (s ∷ ss) ds u = elim (Bool-cases s.active) [
  | inl active ↦ rw active (
      insert_for_sinks-KeysUnique now sequence ss (insert_delivery now sequence s.sink_id ds)
        (insert_delivery-KeysUnique now sequence s.sink_id ds u))
  | inr idle ↦ rw idle (insert_for_sinks-KeysUnique now sequence ss ds u)
]

ensure-KeysUnique :
    (now sequence : ℕ) (db : Db)
    → KeysUnique db.deliveries
    → KeysUnique (ensure_deliveries_for_event now sequence db).deliveries
unfolding ensure_deliveries_for_event
ensure-KeysUnique now sequence db u = elim (Bool-cases (has_payload sequence db.events)) [
  | inl there ↦ rw there (insert_for_sinks-KeysUnique now sequence db.sinks db.deliveries u)
  | inr gone ↦ rw gone u
]

insert_or_verify-deliveries :
    (now : ℕ) (db : Db) (e : CapturedEvent) {i : Inserted}
    → insert_or_verify now db e ≡ ok i
    → i.db.deliveries ≡ db.deliveries
unfolding insert_or_verify insert_from verify_replay
insert_or_verify-deliveries now db e h = ground arith

pub backfill-KeysUnique :
    (now sink_id : ℕ) (es : List EventRow) (ds : List DeliveryRow)
    → KeysUnique ds
    → KeysUnique (backfill now sink_id es ds)
unfolding backfill
backfill-KeysUnique now sink_id [] ds u = u
backfill-KeysUnique now sink_id (e ∷ es) ds u = elim (Bool-cases (is_retained e)) [
  | inl kept ↦ rw kept (
      backfill-KeysUnique now sink_id es (insert_delivery now e.sequence sink_id ds)
        (insert_delivery-KeysUnique now e.sequence sink_id ds u))
  | inr pruned ↦ rw pruned (backfill-KeysUnique now sink_id es ds u)
]

pub Moves-KeysUnique : (ds es : List DeliveryRow) → Moves ds es → KeysUnique ds → KeysUnique es
Moves-KeysUnique [] [] m u = tt
Moves-KeysUnique [] (_ ∷ _) m u = absurd m
Moves-KeysUnique (_ ∷ _) [] m u = absurd m
Moves-KeysUnique (d ∷ ds) (e ∷ es) m u = (
  rw (m.0, m.1) (any-Moves d.event_sequence d.sink_id ds es m.3 ∙ u.0),
  Moves-KeysUnique ds es m.3 u.1,
)

advance-deliveries :
    (batch : CommittedBatch) (p : Progress)
    → (advance_checkpoint batch p).0.deliveries ≡ p.db.deliveries
unfolding advance_checkpoint
advance-deliveries batch p = ground arith

pub persist-KeysUnique :
    (rt : Runtime) (clock : ℕ → ℕ) (db : Db) (batch : CommittedBatch)
    → KeysUnique db.deliveries
    → KeysUnique (persist_committed_batch rt clock db batch).0.deliveries
persist-KeysUnique rt clock db batch u =
    persist-keeps rt clock (λ (d : Db). KeysUnique d.deliveries)
      (λ now d e i h v. subst KeysUnique (sym (insert_or_verify-deliveries now d e h)) v)
      (λ now sequence d v. ensure-KeysUnique now sequence d v)
      (λ b p v. subst KeysUnique (sym (advance-deliveries b p)) v) db batch u
