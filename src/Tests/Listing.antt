-- ===== src/Tests/Listing.antt =====
-- The deliveries of a small spool, page by page.
use write_relay.Prelude.{◌≡◌, refl}
use write_relay.Spool.{err, other}
use write_relay.Store.{new_delivery}
use write_relay.Store.Listing.{
  ListedDelivery, list_events, state_filter, list_deliveries, event_count,
}
use write_relay.Tests.Data.{db_two}

abbrev shown : ListedDelivery
shown = record {
  delivery = new_delivery 1000 1 1;
  sink_name = "hook";
  source = "shop";
  id = "one";
  event_type = "paid";
}

refuses_state : list_deliveries "lost" 1 db_two ≡ err other
unfolding list_deliveries state_filter
refuses_state = refl

refuses_limit : list_events 1001 db_two ≡ err other
unfolding list_events
refuses_limit = refl

counts : event_count db_two ≡ 2
unfolding event_count
counts = refl
