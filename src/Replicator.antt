-- ===== src/Replicator.antt =====
-- internal/postgres/replicator.go: the loop that receives the replication stream, hands committed
-- transactions to the spool, and acknowledges them. The spool is an interface; what arrives from
-- PostgreSQL, the disk's samples, and whether a send succeeds, are given by the turns of the loop.
pub mod Start
pub mod Sqlite
pub mod Acknowledge
pub mod Sent
pub mod Reconnect
use write_relay.Prelude.{
  ℕ, zero, suc, ◌+◌, ◌-◌, ◌≤◌, ◌≡◌, Bool, true, false, not, Option, none, some, List, [], ◌∷◌, ◌++◌,
  ltb, ◌==◌, if◌then◌else◌,
}
use write_relay.Spool.{
  CommittedBatch, PersistResult, Error, Result, ok, err, durability, protocol_state, cancelled,
  connection,
}
use write_relay.Event.{Runtime}
use write_relay.Capture.{Limits, StateMachine, Message, new_state_machine, reset, consume}
use write_relay.Disk.{Guard, check}

-- What capture uses of `spool.Spool`, and what it relies on.
pub record CaptureSpool (D : Type 0) : Type 0 where
  pub persist : (ℕ → ℕ) → D → CommittedBatch → D × Result PersistResult
  pub last_durable : D → ℕ
  pub persist_ok :
      (clock : ℕ → ℕ) (d : D) (batch : CommittedBatch) {d' : D} {r : PersistResult}
      → persist clock d batch ≡ (d', ok r)
      → (last_durable d' ≡ r.durable_lsn) × (last_durable d ≤ last_durable d')
  pub persist_err :
      (clock : ℕ → ℕ) (d : D) (batch : CommittedBatch) {d' : D} {e : Error}
      → persist clock d batch ≡ (d', err e)
      → d' ≡ d

-- `receiveErr` and what `ReceiveMessage` returned. A decoded message of none is one that pglogrepl
-- cannot parse.
pub data Received : Type 0 where
  context_done receive_timeout receive_failed other_data bad_keepalive bad_wal_data : Received
  keepalive : Bool → Received
  wal_data : Option Message → Received

-- One round of the loop.
pub record Turn : Type 0 where
  pub checked_at : ℕ
  pub probe : Option ℕ
  pub received : Received
  pub send_ok : Bool
  pub batch_cancelled : Bool
  pub batch_checked_at : ℕ
  pub batch_probe : Option ℕ
  pub clock : ℕ → ℕ
  pub captured_at : ℕ

pub data Outcome : Type 0 where
  running : Outcome
  returned : Result (Unit {0}) → Outcome

-- The variables of `runOnce` and of the Replicator. `sent` holds the positions of all status
-- updates, the latest first, those that failed on the way included.
pub record Stream (D : Type 0) : Type 0 where
  pub disk : Guard
  pub spool : D
  pub machine : StateMachine
  pub durable_lsn : ℕ
  pub sent : List ℕ
  pub transactions : ℕ
  pub last_capture : ℕ

-- What a batch leads to: the spool, the positions with which `acknowledge` was called, whether the send
-- succeeded or not, and the result.
pub record Acknowledged (D : Type 0) : Type 0 where
  pub spool : D
  pub acks : List ℕ
  pub result : Result PersistResult

abbrev sent_or : Bool → Result (Unit {0})
sent_or true = ok tt
sent_or false = err connection

module _ {D : Type 0} (ops : CaptureSpool D) where
  unfoldable pub acknowledge_from :
      Bool → CommittedBatch → D × Result PersistResult → Acknowledged D
  acknowledge_from send_ok batch (d, err e) = record { spool = d; acks = []; result = err e }
  acknowledge_from send_ok batch (d, ok r) =
      if ltb r.durable_lsn batch.commit_end_lsn
      then record { spool = d; acks = []; result = err durability }
      else record {
        spool = d;
        acks = r.durable_lsn ∷ [];
        result = if send_ok then ok r else err connection;
      }

  unfoldable pub persist_then_acknowledge : Bool → (ℕ → ℕ) → D → CommittedBatch → Acknowledged D
  persist_then_acknowledge send_ok clock d batch =
      acknowledge_from send_ok batch (ops.persist clock d batch)

  abbrev pub persist_admitted :
      Turn → D → CommittedBatch → Guard × Result (Unit {0}) → Guard × Acknowledged D
  persist_admitted t d batch (g, err e) = (g, record { spool = d; acks = []; result = err e })
  persist_admitted t d batch (g, ok _) = (g, persist_then_acknowledge t.send_ok t.clock d batch)

  unfoldable pub persist_batch : Turn → Guard → D → CommittedBatch → Guard × Acknowledged D
  persist_batch t g d batch =
      if t.batch_cancelled
      then (g, record { spool = d; acks = []; result = err cancelled })
      else persist_admitted t d batch (check g true t.batch_checked_at t.batch_probe)

  unfoldable pub send_status : Turn → Stream D → Stream D × Result (Unit {0})
  send_status t s = (record s { sent = s.durable_lsn ∷ s.sent }, sent_or t.send_ok)

  abbrev pub reset_on_error : Stream D × Result (Unit {0}) → Stream D × Outcome
  reset_on_error (s, ok _) = (s, running)
  reset_on_error (s, err e) = (record s { machine = reset s.machine }, returned (err e))

  abbrev pub return_on_error : Stream D × Result (Unit {0}) → Stream D × Outcome
  return_on_error (s, ok _) = (s, running)
  return_on_error (s, err e) = (s, returned (err e))

  unfoldable pub after_persist : Turn → Stream D → Guard × Acknowledged D → Stream D × Outcome
  after_persist t s (g, a) = elim a.result [
    | err e ↦ (record s { disk = g; spool = a.spool; sent = a.acks ++ s.sent }, returned (err e))
    | ok r ↦ (
      record s {
        disk = g;
        spool = a.spool;
        sent = a.acks ++ s.sent;
        durable_lsn = r.durable_lsn;
        transactions = s.transactions + 1;
        last_capture = t.captured_at;
      },
      running,
    )
  ]

  unfoldable pub after_consume :
      Turn → Stream D → StateMachine × Result (Option CommittedBatch) → Stream D × Outcome
  after_consume t s (m, err e) = (record s { machine = m }, returned (err e))
  after_consume t s (m, ok none) = (record s { machine = m }, running)
  after_consume t s (m, ok (some batch)) =
      after_persist t (record s { machine = m }) (persist_batch t s.disk s.spool batch)

  module _ (rt : Runtime) where
    unfoldable pub receive : Turn → Stream D → Received → Stream D × Outcome
    receive t s context_done = (record s { machine = reset s.machine }, returned (ok tt))
    receive t s receive_timeout = reset_on_error (send_status t s)
    receive t s receive_failed = (record s { machine = reset s.machine }, returned (err connection))
    receive t s other_data = (s, running)
    receive t s bad_keepalive = (s, returned (err connection))
    receive t s bad_wal_data = (s, returned (err connection))
    receive t s (keepalive reply_requested) =
        if reply_requested then return_on_error (send_status t s) else (s, running)
    receive t s (wal_data none) = (s, returned (err protocol_state))
    receive t s (wal_data (some message)) = after_consume t s (consume rt s.machine message)

    abbrev pub receive_admitted : Turn → Stream D → Guard × Result (Unit {0}) → Stream D × Outcome
    receive_admitted t s (g, err e) =
        (record s { disk = g; machine = reset s.machine }, returned (err e))
    receive_admitted t s (g, ok _) = receive t (record s { disk = g }) t.received

    unfoldable pub step : Turn → Stream D → Stream D × Outcome
    step t s = receive_admitted t s (check s.disk false t.checked_at t.probe)

    -- The loop, until it returns or the turns are over.
    unfoldable pub run_turns : List Turn → Stream D × Outcome → Stream D × Outcome
    run_turns [] w = w
    run_turns (t ∷ ts) (s, returned r) = (s, returned r)
    run_turns (t ∷ ts) (s, running) = run_turns ts (step t s)

    -- The stream after `StartReplication`.
    unfoldable pub start_stream : Limits → Guard → D → ℕ → Stream D
    start_stream limits g d start = record {
      disk = g;
      spool = d;
      machine = new_state_machine limits;
      durable_lsn = if ops.last_durable d == 0 then start else ops.last_durable d;
      sent = [];
      transactions = 0;
      last_capture = 0;
    }
