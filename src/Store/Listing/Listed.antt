-- ===== src/Store/Listing/Listed.antt =====
-- What a listing shows.
use mathlib.Core.List.{Memᴰ}
use write_relay.Prelude.{ℕ, ◌≤◌, ◌<◌, ◌≡◌, String, some, List, length, All, Sorted, ◌⊎◌}
use write_relay.Store.{
  EventRow, SinkRow, DeliveryState, pending, retry_wait, delivered, dead_letter, Db,
}
use write_relay.Store.Queue.{event_of_sequence}
use write_relay.Store.Listing.{ListedDelivery, sink_of, join_rows, row_before}

-- The row is a delivery with its own sink and event.
pub record IsRow (db : Db) (r : ListedDelivery) : Type 0 where
  pub sink : SinkRow
  pub event : EventRow
  pub member : Memᴰ r.delivery db.deliveries
  pub found_sink : sink_of r.delivery.sink_id db.sinks ≡ some sink
  pub found_event : event_of_sequence r.delivery.event_sequence db.events ≡ some event
  pub sink_name : r.sink_name ≡ sink.sink_name
  pub identity : (r.source ≡ event.source) × (r.id ≡ event.id) × (r.event_type ≡ event.event_type)

-- The text of a state, in the column of the deliveries.
abbrev pub state_text : DeliveryState → String
state_text pending = "pending"
state_text retry_wait = "retry_wait"
state_text delivered = "delivered"
state_text dead_letter = "dead_letter"

abbrev pub Wanted : String → DeliveryState → Type 0
Wanted text s = (text ≡ "") ⊎ (text ≡ state_text s)

-- A page of a listing: rows of the wanted state, in order, and all of them if there is room.
pub record IsPage (text : String) (limit : ℕ) (db : Db) (rows : List ListedDelivery) : Type 0 where
  pub size : length rows ≤ limit
  pub each : All (IsRow db) rows
  pub state : All (λ (r : ListedDelivery). Wanted text r.delivery.state) rows
  pub sorted : Sorted row_before rows
  pub complete :
      length rows < limit
      → (r : ListedDelivery) → Wanted text r.delivery.state
      → Memᴰ r (join_rows db db.deliveries)
      → Memᴰ r rows
