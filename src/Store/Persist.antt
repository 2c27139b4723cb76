-- ===== src/Store/Persist.antt =====
-- internal/spool/sqlite/sqlite.go: `PersistCommittedBatch` and what it calls. A
-- database transaction is one function of the tables, and an error returns the tables unchanged.
pub mod Growth
pub mod Stored
pub mod Replay
pub mod Checkpoint
pub mod Rows
pub mod Captured
pub mod Kept
use write_relay.Prelude.{
  ℕ, zero, suc, ◌+◌, String, Bool, true, false, not, ◌&&◌, ◌||◌, Option, none, some, List, [], ◌∷◌,
  ◌++◌, ltb, ◌==◌, any, if◌then◌else◌, str_eq, bytes_eq,
}
use write_relay.Spool.{
  CapturedEvent, CommittedBatch, PersistResult, Error, Result, ok, err, durability,
  identity_conflict, guard, ◌>>=◌, ◌>>◌,
}
use write_relay.Event.{Runtime}
use write_relay.Store.{
  EventRow, SinkRow, DeliveryRow, Db, find_event, is_retained, insert_delivery, or_else,
}

module _ (rt : Runtime) where
  unfoldable pub validate_captured_event : CommittedBatch → CapturedEvent → ℕ → Result (Unit {0})
  validate_captured_event batch e index = do
    guard (not (str_eq e.source "" || (str_eq e.id "" || str_eq e.event_type ""))) durability
    guard
        (e.transaction_id == batch.transaction_id
          && (e.commit_lsn == batch.commit_lsn
              && (e.commit_end_lsn == batch.commit_end_lsn
                  && (e.commit_time == batch.commit_time && e.message_index == index))))
        durability
    guard (bytes_eq (rt.sha256 e.payload) e.payload_sha256) durability

-- `NULLIF(?, '')`
unfoldable pub null_if_empty : String → Option String
null_if_empty s = if str_eq s "" then none else some s

unfoldable pub event_row : ℕ → ℕ → CapturedEvent → EventRow
event_row now sequence e = record {
  sequence = sequence;
  source = e.source;
  id = e.id;
  event_type = e.event_type;
  subject = null_if_empty e.subject;
  payload = e.payload;
  payload_sha256 = e.payload_sha256;
  transaction_id = e.transaction_id;
  message_lsn = e.message_lsn;
  commit_lsn = e.commit_lsn;
  commit_end_lsn = e.commit_end_lsn;
  commit_time = e.commit_time;
  message_index = e.message_index;
  captured_at = now;
  payload_pruned_at = none;
}

-- The tables, whether a row was inserted, and the event's sequence.
pub record Inserted : Type 0 where
  pub db : Db
  pub fresh : Bool
  pub sequence : ℕ

-- The row in the way is the same event if its digest is the same.
unfoldable pub verify_replay : Db → CapturedEvent → EventRow → Result Inserted
verify_replay db e row =
    if bytes_eq row.payload_sha256 e.payload_sha256
    then ok (record { db = db; fresh = false; sequence = row.sequence })
    else err identity_conflict

unfoldable pub insert_from : ℕ → Db → CapturedEvent → Option EventRow → Result Inserted
insert_from now db e none = ok (record {
  db = record db {
    events = db.events ++ event_row now db.next_sequence e ∷ [];
    next_sequence = suc db.next_sequence;
  };
  fresh = true;
  sequence = db.next_sequence;
})
insert_from now db e (some row) = verify_replay db e row

unfoldable pub insert_or_verify : ℕ → Db → CapturedEvent → Result Inserted
insert_or_verify now db e = insert_from now db e (find_event e.source e.id db.events)

-- `SELECT … FROM delivery_sinks WHERE active = 1`, each row inserted unless its key is taken.
unfoldable pub insert_for_sinks : ℕ → ℕ → List SinkRow → List DeliveryRow → List DeliveryRow
insert_for_sinks now sequence [] ds = ds
insert_for_sinks now sequence (s ∷ ss) ds =
    insert_for_sinks now sequence ss
      (if s.active then insert_delivery now sequence s.sink_id ds else ds)

-- `EXISTS (SELECT 1 FROM events WHERE sequence = ? AND payload_pruned_at IS NULL)`
abbrev pub has_payload : ℕ → List EventRow → Bool
has_payload sequence = any (λ e. e.sequence == sequence && is_retained e)

unfoldable pub ensure_deliveries_for_event : ℕ → ℕ → Db → Db
ensure_deliveries_for_event now sequence db =
    if has_payload sequence db.events
    then record db { deliveries = insert_for_sinks now sequence db.sinks db.deliveries }
    else db

-- The loop's variables: the tables and the two counters of the result.
pub record Progress : Type 0 where
  pub db : Db
  pub inserted : ℕ
  pub replayed : ℕ

unfoldable pub record_event : ℕ → Progress → Inserted → Progress
record_event now p i = record {
  db = ensure_deliveries_for_event now i.sequence i.db;
  inserted = if i.fresh then p.inserted + 1 else p.inserted;
  replayed = if i.fresh then p.replayed else p.replayed + 1;
}

unfoldable pub last_durable_lsn : Db → ℕ
last_durable_lsn db = or_else 0 db.checkpoint

-- The checkpoint moves forward only.
unfoldable pub advance_checkpoint : CommittedBatch → Progress → Db × PersistResult
advance_checkpoint batch p =
    let current = last_durable_lsn p.db in
    if ltb current batch.commit_end_lsn
    then (
      record p.db { checkpoint = some batch.commit_end_lsn },
      record { inserted = p.inserted; replayed = p.replayed; durable_lsn = batch.commit_end_lsn },
    )
    else (p.db, record { inserted = p.inserted; replayed = p.replayed; durable_lsn = current })

-- Rollback on an error.
unfoldable pub transact {ℓ} : {A : Type ℓ} → Db → Result (Db × A) → Db × Result A
transact db (ok (db', a)) = (db', ok a)
transact db (err e) = (db, err e)

-- `clock i` is the time at the loop's round `i`.
module _ (rt : Runtime) (clock : ℕ → ℕ) where
  unfoldable pub persist_event : CommittedBatch → Progress → CapturedEvent → ℕ → Result Progress
  persist_event batch p e index = do
    validate_captured_event rt batch e index
    i ← insert_or_verify (clock index) p.db e
    ok (record_event (clock index) p i)

  unfoldable pub persist_events :
      CommittedBatch → Progress → List CapturedEvent → ℕ → Result Progress
  persist_events batch p [] index = ok p
  persist_events batch p (e ∷ es) index = do
    q ← persist_event batch p e index
    persist_events batch q es (suc index)

  unfoldable pub persist_committed_batch : Db → CommittedBatch → Db × Result PersistResult
  persist_committed_batch db batch = transact db (do
    guard (not (ltb batch.commit_end_lsn batch.commit_lsn)) durability
    p ← persist_events batch (record { db = db; inserted = 0; replayed = 0 }) batch.events 0
    ok (advance_checkpoint batch p))
