-- ===== src/Store/Listing.antt =====
-- internal/spool/sqlite/sqlite.go: `ListEvents`, `ListDeliveries`, `SchemaVersion` and `EventCount`. A
-- limit below 1 is 0. Times are numbers here, so that their texts always parse.
pub mod Listed
use write_relay.Prelude.{
  ℕ, String, Bool, true, false, not, ◌&&◌, ◌||◌, Option, none, some, List, [], ◌∷◌, ◌++◌, ltb, ◌==◌,
  take, find, select, map, length, sort_by, if◌then◌else◌, str_eq,
}
use write_relay.Spool.{Result, ok, err, other, guard, ◌>>=◌, ◌>>◌}
use write_relay.Store.{
  EventRow, SinkRow, DeliveryRow, DeliveryState, pending, retry_wait, delivered, dead_letter, Db,
  is_delivered, is_dead_letter, is_some, or_else,
}
use write_relay.Store.Queue.{event_of_sequence}
use write_relay.Store.Stats.{is_pending, is_retry_wait}

-- What `ListEvents` gives of an event: no payload if it was pruned.
pub record ListedEvent : Type 0 where
  pub sequence : ℕ
  pub source : String
  pub id : String
  pub event_type : String
  pub subject : String
  pub payload : List ℕ
  pub transaction_id : ℕ
  pub message_lsn : ℕ
  pub commit_lsn : ℕ
  pub commit_end_lsn : ℕ
  pub commit_time : ℕ
  pub message_index : ℕ
  pub payload_pruned_at : Option ℕ

unfoldable pub listed_event : EventRow → ListedEvent
listed_event e = record {
  sequence = e.sequence;
  source = e.source;
  id = e.id;
  event_type = e.event_type;
  subject = or_else "" e.subject;
  payload = if is_some e.payload_pruned_at then [] else e.payload;
  transaction_id = e.transaction_id;
  message_lsn = e.message_lsn;
  commit_lsn = e.commit_lsn;
  commit_end_lsn = e.commit_end_lsn;
  commit_time = e.commit_time;
  message_index = e.message_index;
  payload_pruned_at = e.payload_pruned_at;
}

abbrev pub by_sequence : EventRow → EventRow → Bool
by_sequence a b = ltb a.sequence b.sequence

unfoldable pub list_events : ℕ → Db → Result (List ListedEvent)
list_events limit db = do
  guard (not (ltb limit 1 || ltb 1000 limit)) other
  ok (map listed_event (take limit (sort_by by_sequence db.events)))

-- A row of the join of deliveries, sinks and events.
pub record ListedDelivery : Type 0 where
  pub delivery : DeliveryRow
  pub sink_name : String
  pub source : String
  pub id : String
  pub event_type : String

abbrev pub sink_of : ℕ → List SinkRow → Option SinkRow
sink_of sink_id = find (λ s. s.sink_id == sink_id)

abbrev pub joined : DeliveryRow → Option SinkRow → Option EventRow → List ListedDelivery
joined d none e = []
joined d (some s) none = []
joined d (some s) (some e) =
    record {
      delivery = d;
      sink_name = s.sink_name;
      source = e.source;
      id = e.id;
      event_type = e.event_type;
    }
    ∷ []

unfoldable pub join_rows : Db → List DeliveryRow → List ListedDelivery
join_rows db [] = []
join_rows db (d ∷ ds) =
    joined d (sink_of d.sink_id db.sinks) (event_of_sequence d.event_sequence db.events)
    ++ join_rows db ds

-- The filter of a state, none for a text that names no state.
unfoldable pub state_filter : String → Option (DeliveryState → Bool)
state_filter state =
    if str_eq state ""
    then some (λ s. true)
    else if str_eq state "pending"
    then some is_pending
    else if str_eq state "retry_wait"
    then some is_retry_wait
    else if str_eq state "delivered"
    then some is_delivered
    else if str_eq state "dead_letter"
    then some is_dead_letter
    else none

-- `ORDER BY d.event_sequence, s.sink_id`
abbrev pub row_before : ListedDelivery → ListedDelivery → Bool
row_before a b =
    ltb a.delivery.event_sequence b.delivery.event_sequence
    || (a.delivery.event_sequence == b.delivery.event_sequence
        && ltb a.delivery.sink_id b.delivery.sink_id)

abbrev pub rows_in : (DeliveryState → Bool) → Db → List ListedDelivery
rows_in wanted db =
    sort_by row_before
      (select (λ (r : ListedDelivery). wanted r.delivery.state) (join_rows db db.deliveries))

abbrev pub listed_in : ℕ → Db → Option (DeliveryState → Bool) → Result (List ListedDelivery)
listed_in limit db none = err other
listed_in limit db (some wanted) = ok (take limit (rows_in wanted db))

unfoldable pub list_deliveries : String → ℕ → Db → Result (List ListedDelivery)
list_deliveries state limit db = do
  guard (not (ltb limit 1 || ltb 1000 limit)) other
  listed_in limit db (state_filter state)

unfoldable pub event_count : Db → ℕ
event_count db = length db.events
