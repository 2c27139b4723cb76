-- ===== src/Tests/Data.antt =====
-- A small spool, a transaction of two events, and a runtime whose digest is the content itself.
use write_relay.Prelude.{ℕ, ◌+◌, String, Bool, true, none, some, List, [], ◌∷◌, ◌==◌, if◌then◌else◌}
use write_relay.Spool.{CapturedEvent, CommittedBatch}
use write_relay.Event.{RawMessage, text, Decoded, invalid_json, object, Runtime}
use write_relay.Capture.{Limits, LogicalMessage}
use write_relay.Store.{EventRow, SinkRow, Db, new_delivery}
use write_relay.Store.Queue.{Delivery}

abbrev pub members : String → List (String × RawMessage)
members id =
    ("specversion", text "1.0")
    ∷ ("id", text id)
    ∷ ("source", text "shop")
    ∷ ("type", text "paid")
    ∷ []

abbrev pub event_id : ℕ → String
event_id c = if c == 1 then "one" else "two"

abbrev pub decode : List ℕ → Decoded
decode [] = invalid_json
decode (c ∷ cs) = object (members (event_id c)) true

abbrev pub rt : Runtime
rt = record { sha256 = λ bytes. bytes; decode = decode; parse_rfc3339 = λ s. none }

abbrev pub limits : Limits
limits = record { prefix = "relay"; max_event_bytes = 10; max_events = 2; max_bytes = 20 }

abbrev pub message : ℕ → Bool → LogicalMessage
message c transactional = record {
  prefix = "relay";
  transactional = transactional;
  content = c ∷ [];
  lsn = 5;
}

abbrev pub captured : ℕ → ℕ → CapturedEvent
captured c index = record {
  source = "shop";
  id = event_id c;
  event_type = "paid";
  subject = "";
  payload = c ∷ [];
  payload_sha256 = c ∷ [];
  transaction_id = 7;
  message_lsn = 5;
  commit_lsn = 10;
  commit_end_lsn = 12;
  commit_time = 100;
  message_index = index;
}

abbrev pub batch : CommittedBatch
batch = record {
  transaction_id = 7;
  commit_lsn = 10;
  commit_end_lsn = 12;
  commit_time = 100;
  events = captured 1 0 ∷ captured 2 1 ∷ [];
}

-- The end of this one is before its commit.
abbrev pub reversed : CommittedBatch
reversed = record batch { commit_lsn = 20 }

abbrev pub clock : ℕ → ℕ
clock i = 1000 + i

abbrev pub hook : SinkRow
hook = record {
  sink_id = 1;
  sink_name = "hook";
  sink_type = "webhook";
  config_sha256 = 9 ∷ [];
  active = true;
}

abbrev pub stored : ℕ → ℕ → EventRow
stored sequence c = record {
  sequence = sequence;
  source = "shop";
  id = event_id c;
  event_type = "paid";
  subject = none;
  payload = c ∷ [];
  payload_sha256 = c ∷ [];
  transaction_id = 7;
  message_lsn = 5;
  commit_lsn = 10;
  commit_end_lsn = 12;
  commit_time = 100;
  message_index = 0;
  captured_at = 1000;
  payload_pruned_at = none;
}

abbrev pub db_empty : Db
db_empty = record {
  events = [];
  next_sequence = 1;
  sinks = hook ∷ [];
  next_sink_id = 2;
  deliveries = [];
  checkpoint = none;
}

abbrev pub db_two : Db
db_two = record {
  events = stored 1 1 ∷ stored 2 2 ∷ [];
  next_sequence = 3;
  sinks = hook ∷ [];
  next_sink_id = 2;
  deliveries = new_delivery 1000 1 1 ∷ new_delivery 1000 2 1 ∷ [];
  checkpoint = some 12;
}

abbrev pub item : Delivery
item = record {
  event_sequence = 1;
  sink_id = 1;
  sink_name = "hook";
  sink_type = "webhook";
  source = "shop";
  id = "one";
  event_type = "paid";
  subject = "";
  payload = 1 ∷ [];
  attempts = 0;
}
