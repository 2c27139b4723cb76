-- ===== src/Tests/Prune.antt =====
-- Of two events, the first was delivered and is emptied.
use write_relay.Prelude.{◌≡◌, refl, true, false, [], ◌∷◌, some}
use write_relay.Spool.{ok}
use write_relay.Store.{DeliveryRow, Db, delivered, new_delivery}
use write_relay.Store.Persist.{transact}
use write_relay.Store.Prune.{
  PruneOptions, PruneResult, SpoolFile, prune_candidates, prune_entry, prune_entries,
  total_payload_bytes, pruned_row, prune_payload, prune_payloads, prune_result, prune_allowed,
  prune_selected, prune,
}
use write_relay.Store.Prune.Safety.{Keeps, prune-Keeps}
use write_relay.Tests.Data.{db_two}

abbrev first_delivered : DeliveryRow
first_delivered = record (new_delivery 1000 1 1) { state = delivered; delivered_at = some 1500 }

abbrev db_delivered : Db
db_delivered = record db_two { deliveries = first_delivered ∷ new_delivery 1000 2 1 ∷ [] }

abbrev file : SpoolFile
file = record { path_given = true; is_regular = true; version = 3; is_wal = true }

abbrev options : PruneOptions
options = record { before = 2000; limit = 10; dry_run = false }

abbrev after : Db
after = (prune 3000 file options db_delivered).0

abbrev report : PruneResult
report = record {
  dry_run = false;
  before = 2000;
  limit = 10;
  events = 1;
  payload_bytes = 1;
  entries = record { sequence = 1; source = "shop"; id = "one"; payload_bytes = 1 } ∷ [];
}

pruned : prune 3000 file options db_delivered ≡ (after, ok report)
unfolding prune transact prune_allowed prune_selected prune_candidates prune_entries prune_entry
    prune_payloads prune_payload pruned_row prune_result total_payload_bytes
pruned = refl

prune-Keeps_example :
    Keeps 3000 2000 db_delivered.deliveries db_delivered (prune 3000 file options db_delivered).0
prune-Keeps_example = prune-Keeps 3000 file options db_delivered
