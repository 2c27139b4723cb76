-- ===== src/Store/Queue.antt =====
-- internal/spool/sqlite/sqlite.go: `NextDueDelivery`, and the record that it fills
-- (internal/delivery/delivery.go).
pub mod Order
pub mod Next
use write_relay.Prelude.{
  ℕ, String, Bool, true, false, ◌&&◌, ◌||◌, Option, none, some, List, [], ◌∷◌, ◌++◌, ltb, leb, ◌==◌,
  find, select, minimum_by, if◌then◌else◌,
}
use write_relay.Store.{EventRow, SinkRow, DeliveryRow, Db, is_waiting, or_else}

pub record Delivery : Type 0 where
  pub event_sequence : ℕ
  pub sink_id : ℕ
  pub sink_name : String
  pub sink_type : String
  pub source : String
  pub id : String
  pub event_type : String
  pub subject : String
  pub payload : List ℕ
  pub attempts : ℕ

-- `head.sink_id = s.sink_id AND head.state IN ('pending', 'retry_wait')`
abbrev pub waits_for : ℕ → DeliveryRow → Bool
waits_for sink_id d = d.sink_id == sink_id && is_waiting d.state

abbrev pub earlier : DeliveryRow → DeliveryRow → Bool
earlier a b = ltb a.event_sequence b.event_sequence

-- The subquery: the sink's oldest row that waits, due or not.
unfoldable pub head_delivery : ℕ → List DeliveryRow → Option DeliveryRow
head_delivery sink_id ds = minimum_by earlier (select (waits_for sink_id) ds)

pub record Candidate : Type 0 where
  pub sink : SinkRow
  pub delivery : DeliveryRow
  pub event : EventRow

-- `JOIN events e ON e.sequence = d.event_sequence`
abbrev pub event_of_sequence : ℕ → List EventRow → Option EventRow
event_of_sequence sequence = find (λ e. e.sequence == sequence)

unfoldable pub join_event : SinkRow → DeliveryRow → Option EventRow → List Candidate
join_event s d none = []
join_event s d (some e) = record { sink = s; delivery = d; event = e } ∷ []

unfoldable pub join_head : ℕ → List EventRow → SinkRow → Option DeliveryRow → List Candidate
join_head now events s none = []
join_head now events s (some d) =
    if s.active && leb d.next_attempt_at now
    then join_event s d (event_of_sequence d.event_sequence events)
    else []

unfoldable pub candidates : ℕ → List EventRow → List DeliveryRow → List SinkRow → List Candidate
candidates now events ds [] = []
candidates now events ds (s ∷ ss) =
    join_head now events s (head_delivery s.sink_id ds) ++ candidates now events ds ss

-- `ORDER BY e.sequence, s.sink_id`
abbrev pub before : Candidate → Candidate → Bool
before a b =
    ltb a.event.sequence b.event.sequence
    || (a.event.sequence == b.event.sequence && ltb a.sink.sink_id b.sink.sink_id)

unfoldable pub delivery_of : Candidate → Delivery
delivery_of c = record {
  event_sequence = c.event.sequence;
  sink_id = c.sink.sink_id;
  sink_name = c.sink.sink_name;
  sink_type = c.sink.sink_type;
  source = c.event.source;
  id = c.event.id;
  event_type = c.event.event_type;
  subject = or_else "" c.event.subject;
  payload = c.event.payload;
  attempts = c.delivery.attempts;
}

abbrev pub map_delivery : Option Candidate → Option Delivery
map_delivery none = none
map_delivery (some c) = some (delivery_of c)

unfoldable pub next_due_delivery : ℕ → Db → Option Delivery
next_due_delivery now db =
    map_delivery (minimum_by before (candidates now db.events db.deliveries db.sinks))
