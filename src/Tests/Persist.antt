-- ===== src/Tests/Persist.antt =====
-- The two events are persisted in an empty spool, and once more.
use write_relay.Prelude.{◌≡◌, refl, arith, bytes_eq}
use write_relay.Spool.{PersistResult, ok, err, durability}
use write_relay.Store.{Db, insert_delivery}
use write_relay.Store.Persist.{
  validate_captured_event, null_if_empty, event_row, insert_from, insert_or_verify,
  insert_for_sinks, ensure_deliveries_for_event, record_event, last_durable_lsn, advance_checkpoint,
  transact, persist_event, persist_events, persist_committed_batch,
}
use write_relay.Store.Persist.Stored.{SequencesBelow}
use write_relay.Store.Persist.Replay.{Persisted, persist_replay, persist-Persisted}
use write_relay.Tests.Data.{rt, batch, reversed, clock, db_empty}

abbrev after : Db
after = (persist_committed_batch rt clock db_empty batch).0

abbrev result : PersistResult
result = record { inserted = 2; replayed = 0; durable_lsn = 12 }

persisted : persist_committed_batch rt clock db_empty batch ≡ (after, ok result)
unfolding persist_committed_batch transact persist_events persist_event validate_captured_event
    insert_or_verify insert_from event_row null_if_empty record_event ensure_deliveries_for_event
    insert_for_sinks insert_delivery advance_checkpoint last_durable_lsn bytes_eq
persisted = refl

refused : persist_committed_batch rt clock db_empty reversed ≡ (db_empty, err durability)
unfolding persist_committed_batch transact
refused = refl

below : SequencesBelow after
unfolding persist_committed_batch transact persist_events persist_event validate_captured_event
    insert_or_verify insert_from event_row null_if_empty record_event ensure_deliveries_for_event
    insert_for_sinks insert_delivery advance_checkpoint last_durable_lsn bytes_eq
below = (omega arith, (omega arith, tt))

persist-Persisted_example : Persisted rt after batch
persist-Persisted_example = persist-Persisted rt clock db_empty batch tt persisted

persist-Persisted_again : Persisted rt after batch
persist-Persisted_again = persist-Persisted rt clock db_empty batch tt persisted

persist_replay_example :
    persist_committed_batch rt clock after batch
    ≡ (after, ok (record { inserted = 0; replayed = 2; durable_lsn = last_durable_lsn after }))
persist_replay_example = persist_replay rt clock after batch persist-Persisted_again
