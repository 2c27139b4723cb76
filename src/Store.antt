-- ===== src/Store.antt =====
-- internal/spool/sqlite: the tables of the spool (migrations/*.sql), as lists of rows in the order
-- in which they were inserted. A statement that fails leaves them as they were. The operations are
-- in the modules below.
pub mod Persist
pub mod Queue
pub mod Keys
pub mod Owners
pub mod Marks
pub mod Sinks
pub mod Prune
pub mod Open
pub mod Stats
pub mod Listing
use write_relay.Prelude.{
  ℕ, suc, ◌+◌, String, Bool, true, false, not, ◌&&◌, ◌||◌, Option, none, some, List, [], ◌∷◌, ◌++◌,
  ◌==◌, any, find, if◌then◌else◌, str_eq,
}

pub record EventRow : Type 0 where
  pub sequence : ℕ
  pub source : String
  pub id : String
  pub event_type : String
  pub subject : Option String
  pub payload : List ℕ
  pub payload_sha256 : List ℕ
  pub transaction_id : ℕ
  pub message_lsn : ℕ
  pub commit_lsn : ℕ
  pub commit_end_lsn : ℕ
  pub commit_time : ℕ
  pub message_index : ℕ
  pub captured_at : ℕ
  pub payload_pruned_at : Option ℕ

pub record SinkRow : Type 0 where
  pub sink_id : ℕ
  pub sink_name : String
  pub sink_type : String
  pub config_sha256 : List ℕ
  pub active : Bool

pub data DeliveryState : Type 0 where
  pending retry_wait delivered dead_letter : DeliveryState

pub record DeliveryRow : Type 0 where
  pub event_sequence : ℕ
  pub sink_id : ℕ
  pub state : DeliveryState
  pub attempts : ℕ
  pub next_attempt_at : ℕ
  pub last_attempt_at : Option ℕ
  pub delivered_at : Option ℕ
  pub dead_lettered_at : Option ℕ
  pub last_error : Option (List ℕ)
  pub response_status : Option ℕ

-- `next_sequence` and `next_sink_id` are the AUTOINCREMENT counters, `checkpoint` is the row
-- `last_durable_lsn` of spool_metadata.
pub record Db : Type 0 where
  pub events : List EventRow
  pub next_sequence : ℕ
  pub sinks : List SinkRow
  pub next_sink_id : ℕ
  pub deliveries : List DeliveryRow
  pub checkpoint : Option ℕ

abbrev pub empty : Db
empty = record {
  events = [];
  next_sequence = 1;
  sinks = [];
  next_sink_id = 1;
  deliveries = [];
  checkpoint = none;
}

-- The columns of UNIQUE (event_source, event_id).
abbrev pub has_identity : String → String → EventRow → Bool
has_identity source id e = str_eq e.source source && str_eq e.id id

abbrev pub find_event : String → String → List EventRow → Option EventRow
find_event source id = find (has_identity source id)

abbrev pub is_some {ℓ} : {A : Type ℓ} → Option A → Bool
is_some none = false
is_some (some _) = true

-- `payload_pruned_at IS NULL`
abbrev pub is_retained : EventRow → Bool
is_retained e = not (is_some e.payload_pruned_at)

-- The primary key of deliveries.
abbrev pub has_key : ℕ → ℕ → DeliveryRow → Bool
has_key sequence sink_id d = d.event_sequence == sequence && d.sink_id == sink_id

-- `state IN ('pending', 'retry_wait')`
abbrev pub is_waiting : DeliveryState → Bool
is_waiting pending = true
is_waiting retry_wait = true
is_waiting delivered = false
is_waiting dead_letter = false

abbrev pub is_delivered : DeliveryState → Bool
is_delivered delivered = true
is_delivered _ = false

abbrev pub is_dead_letter : DeliveryState → Bool
is_dead_letter dead_letter = true
is_dead_letter _ = false

-- What both INSERT statements of deliveries write: a pending row, due at `now`.
abbrev pub new_delivery : ℕ → ℕ → ℕ → DeliveryRow
new_delivery now sequence sink_id = record {
  event_sequence = sequence;
  sink_id = sink_id;
  state = pending;
  attempts = 0;
  next_attempt_at = now;
  last_attempt_at = none;
  delivered_at = none;
  dead_lettered_at = none;
  last_error = none;
  response_status = none;
}

-- `INSERT … ON CONFLICT(event_sequence, sink_id) DO NOTHING`
unfoldable pub insert_delivery : ℕ → ℕ → ℕ → List DeliveryRow → List DeliveryRow
insert_delivery now sequence sink_id ds =
    if any (has_key sequence sink_id) ds then ds else ds ++ new_delivery now sequence sink_id ∷ []

-- The outcome of a transaction: an error rolls it back.
abbrev pub or_else {ℓ} : {A : Type ℓ} → A → Option A → A
or_else d none = d
or_else d (some a) = a
