-- ===== src/Capture.antt =====
-- internal/postgres/state.go: the state machine that buffers the protected messages of one
-- PostgreSQL transaction between Begin and Commit.
pub mod Invariant
pub mod Body
pub mod Transaction
use write_relay.Prelude.{
  ℕ, zero, suc, ◌+◌, String, Bool, true, false, not, Option, none, some, List, [], ◌∷◌, ◌++◌, ltb,
  leb, length, if◌then◌else◌, str_eq,
}
use write_relay.Spool.{
  CapturedEvent, CommittedBatch, Result, ok, err, protocol_state, protected_event,
  transaction_limit,
}
use write_relay.Event.{Runtime, Metadata, validate}

pub record Limits : Type 0 where
  pub prefix : String
  pub max_event_bytes : ℕ
  pub max_events : ℕ
  pub max_bytes : ℕ

pub record StateMachine : Type 0 where
  pub limits : Limits
  pub open limits use *
  pub in_transaction : Bool
  pub transaction_id : ℕ
  pub events : List CapturedEvent
  pub buffered_bytes : ℕ

pub record LogicalMessage : Type 0 where
  pub prefix : String
  pub transactional : Bool
  pub content : List ℕ
  pub lsn : ℕ

-- pglogrepl's messages: `table_change` stands for Relation, Type, Insert, Update, Delete and
-- Truncate, `other_message` for the rest.
pub data Message : Type 0 where
  begin : ℕ → Message
  logical : LogicalMessage → Message
  commit : ℕ → ℕ → ℕ → Message
  table_change : Message
  other_message : Message

unfoldable pub new_state_machine : Limits → StateMachine
new_state_machine limits = record {
  limits = limits;
  in_transaction = false;
  transaction_id = 0;
  events = [];
  buffered_bytes = 0;
}

unfoldable pub reset : StateMachine → StateMachine
reset s = record s { in_transaction = false; transaction_id = 0; events = []; buffered_bytes = 0 }

-- The loop over `batch.Events` that writes the transaction's metadata, from index `i` on.
unfoldable pub stamp : ℕ → ℕ → ℕ → ℕ → ℕ → List CapturedEvent → List CapturedEvent
stamp xid commit_lsn end_lsn time i [] = []
stamp xid commit_lsn end_lsn time i (e ∷ es) =
    record e {
      transaction_id = xid;
      commit_lsn = commit_lsn;
      commit_end_lsn = end_lsn;
      commit_time = time;
      message_index = i;
    }
    ∷ stamp xid commit_lsn end_lsn time (suc i) es

module _ (rt : Runtime) where
  -- What is appended for a message whose content is valid.
  abbrev pub captured_event : Metadata → LogicalMessage → CapturedEvent
  captured_event metadata m = record {
    source = metadata.source;
    id = metadata.id;
    event_type = metadata.event_type;
    subject = metadata.subject;
    payload = m.content;
    payload_sha256 = rt.sha256 m.content;
    transaction_id = 0;
    message_lsn = m.lsn;
    commit_lsn = 0;
    commit_end_lsn = 0;
    commit_time = 0;
    message_index = 0;
  }

  unfoldable pub buffer_event :
      StateMachine
      → LogicalMessage
      → Result Metadata
      → StateMachine × Result (Option CommittedBatch)
  buffer_event s m (err e) = (s, err protected_event)
  buffer_event s m (ok metadata) = (
    record s {
      events = s.events ++ captured_event metadata m ∷ [];
      buffered_bytes = s.buffered_bytes + length m.content;
    },
    ok none,
  )

  -- `len(content) > maxBytes - bufferedBytes` is written with the sum on one side: on integers
  -- the two tests agree.
  unfoldable pub consume_logical_message :
      StateMachine → LogicalMessage → StateMachine × Result (Option CommittedBatch)
  consume_logical_message s m =
      if not (str_eq m.prefix s.prefix)
      then (s, ok none)
      else if not m.transactional
      then (s, err protected_event)
      else if not s.in_transaction
      then (s, err protocol_state)
      else if leb s.max_events (length s.events)
      then (s, err transaction_limit)
      else if ltb s.max_bytes (s.buffered_bytes + length m.content)
      then (s, err transaction_limit)
      else buffer_event s m (validate rt m.content s.max_event_bytes)

  unfoldable pub committed_batch : StateMachine → ℕ → ℕ → ℕ → CommittedBatch
  committed_batch s commit_lsn end_lsn time = record {
    transaction_id = s.transaction_id;
    commit_lsn = commit_lsn;
    commit_end_lsn = end_lsn;
    commit_time = time;
    events = stamp s.transaction_id commit_lsn end_lsn time 0 s.events;
  }

  unfoldable pub consume : StateMachine → Message → StateMachine × Result (Option CommittedBatch)
  consume s (begin xid) = if s.in_transaction then (s, err protocol_state) else (
    record s { in_transaction = true; transaction_id = xid; events = []; buffered_bytes = 0 },
    ok none,
  )
  consume s (logical m) = consume_logical_message s m
  consume s (commit commit_lsn end_lsn time) =
      if not s.in_transaction
      then (s, err protocol_state)
      else (reset s, ok (some (committed_batch s commit_lsn end_lsn time)))
  consume s table_change = (s, ok none)
  consume s other_message = (s, ok none)
