-- ===== src/Tests/Recovery.antt =====
-- One transaction is committed, stored and confirmed.
use mathlib.Core.List.{Memᴰ}
use write_relay.Prelude.{◌≡◌, ◌≤◌, refl, arith, true, [], ◌∷◌, none, some, All, inl, bytes_eq}
use write_relay.Spool.{err, identity_conflict, ok}
use write_relay.Capture.{StateMachine, commit, committed_batch, stamp, consume}
use write_relay.Capture.Invariant.{IsValid}
use write_relay.Store.{insert_delivery}
use write_relay.Store.Persist.{
  validate_captured_event, null_if_empty, event_row, verify_replay, insert_from, insert_or_verify,
  insert_for_sinks, ensure_deliveries_for_event, record_event, last_durable_lsn, advance_checkpoint,
  transact, persist_event, persist_events, persist_committed_batch,
}
use write_relay.Store.Persist.Replay.{Persisted}
use write_relay.Store.Persist.Captured.{IsConflict, persist-captured}
use write_relay.Replicator.{acknowledge_from, persist_then_acknowledge}
use write_relay.Replicator.Sqlite.{sqlite}
use write_relay.Recovery.{World, Steps, commits, connects, receives, begins, after, received}
use write_relay.Recovery.Payloads.{IsHeld}
use write_relay.Recovery.Covered.{confirmed-Persisted}
use write_relay.Tests.Data.{rt, batch, clock, db_empty, db_two, limits, captured}

abbrev start : World
start = record { history = []; tip = 5; confirmed = 5; cursor = none; db = db_empty }

abbrev connected : World
connected = record { history = batch ∷ []; tip = 12; confirmed = 5; cursor = some 5; db = db_empty }

abbrev confirmed : World
confirmed =
    received true connected batch (persist_then_acknowledge (sqlite rt) true clock db_empty batch)

steps : Steps rt start confirmed
unfolding last_durable_lsn
steps =
    after (after (after begins (commits batch (omega arith))) connects)
      (receives 5 batch clock true true refl (Memᴰ.head refl) (omega arith, (inl refl, tt)))

reached : 12 ≤ confirmed.confirmed
unfolding persist_then_acknowledge acknowledge_from persist_committed_batch transact persist_events
    persist_event validate_captured_event insert_or_verify insert_from event_row null_if_empty
    record_event ensure_deliveries_for_event insert_for_sinks insert_delivery advance_checkpoint
    last_durable_lsn bytes_eq
reached = omega arith

zero_start : last_durable_lsn db_empty ≤ 5
unfolding last_durable_lsn
zero_start = omega arith

confirmed-Persisted_example :
    Persisted rt confirmed.db batch × All (IsHeld rt confirmed.db) batch.events
confirmed-Persisted_example =
    confirmed-Persisted rt batch refl refl tt tt zero_start (omega arith) steps (Memᴰ.head refl)
      reached

-- The spool has event one with another digest.
abbrev buffered : StateMachine
buffered = record {
  limits = limits;
  in_transaction = true;
  transaction_id = 7;
  events = record (captured 1 0) { payload = 3 ∷ []; payload_sha256 = 3 ∷ [] } ∷ [];
  buffered_bytes = 1;
}

buffered-IsValid : IsValid rt buffered
buffered-IsValid = record {
  idle_empty = λ h. cc;
  events_within = omega arith;
  bytes_exact = refl;
  bytes_within = omega arith;
  captured = (
    record {
      source_nonempty = refl;
      id_nonempty = refl;
      type_nonempty = refl;
      size = omega arith;
      digest = refl;
    },
    tt,
  );
}

handed : consume rt buffered (commit 10 12 100) ≡ (
  (consume rt buffered (commit 10 12 100)).0,
  ok (some (committed_batch rt buffered 10 12 100)),
)
unfolding consume
handed = refl

conflict :
    persist_committed_batch rt clock db_two (committed_batch rt buffered 10 12 100)
    ≡ (db_two, err identity_conflict)
unfolding committed_batch stamp persist_committed_batch transact persist_events persist_event
    validate_captured_event insert_or_verify insert_from verify_replay event_row null_if_empty
    bytes_eq
conflict = refl

persist-captured_example :
    (identity_conflict ≡ identity_conflict)
    × IsConflict db_two (committed_batch rt buffered 10 12 100)
persist-captured_example =
    persist-captured rt clock buffered (consume rt buffered (commit 10 12 100)).0 db_two 10 12 100
      buffered-IsValid (omega arith) handed conflict
