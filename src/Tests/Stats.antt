-- ===== src/Tests/Stats.antt =====
-- The statistics of a small spool.
use write_relay.Prelude.{◌≡◌, refl, arith, true, false, some, [], ◌∷◌, All, minimum_by}
use write_relay.Spool.{ok, err, other}
use write_relay.Store.{Db}
use write_relay.Store.Owners.{Owned}
use write_relay.Store.Persist.{last_durable_lsn}
use write_relay.Store.Stats.Written.{written_before, text_before, fraction_text}
use write_relay.Store.Stats.{
  Stats, waiting_captures, read_stats_snapshot, by_name, insert_by_name, add_sinks, add_sink,
  add_counts, sink_row, count_deliveries, stats_before, read_stats, spool_file_sizes, measure_file,
  found, missing,
}
use write_relay.Store.Stats.Totals.{CountsOf, read_stats-CountsOf}
use write_relay.Store.Stats.Waiting.{NotAfter, OneOf, waiting_times}
use write_relay.Store.Stats.Oldest.{read_stats-oldest}
use write_relay.Tests.Data.{stored, db_two}

-- The second event was captured 10 milliseconds after the first, in the same second.
abbrev pub db_close : Db
db_close = record db_two {
  events =
      record (stored 1 1) { captured_at = 7_500_000_000 }
      ∷ record (stored 2 2) { captured_at = 7_510_000_000 }
      ∷ [];
}

abbrev pub counted : Stats
counted = record {
  sampled_at = 9_600_000_000;
  event_count = 2;
  pruned_payloads = 0;
  last_durable_lsn = 12;
  deliveries = record { total = 2; pending = 2; retry_wait = 0; delivered = 0; dead_letter = 0 };
  oldest_waiting = some (record { captured_at = 7_510_000_000; age_seconds = 2 });
  storage = record { database_bytes = 0; wal_bytes = 0; shm_bytes = 0; total_bytes = 0 };
  sinks =
      record {
        name = "hook";
        sink_type = "webhook";
        active = true;
        deliveries = record {
          total = 2;
          pending = 2;
          retry_wait = 0;
          delivered = 0;
          dead_letter = 0;
        };
        oldest_waiting = some (record { captured_at = 7_510_000_000; age_seconds = 2 });
      }
      ∷ [];
}

-- `.51Z` stands before `.5Z`.
writes_fractions : written_before 7_510_000_000 7_500_000_000 ≡ true
unfolding written_before text_before fraction_text
writes_fractions = refl

pub reads : read_stats_snapshot 3 9_600_000_000 db_close ≡ ok counted
unfolding read_stats_snapshot by_name insert_by_name add_sinks add_sink add_counts sink_row
    count_deliveries stats_before waiting_captures written_before text_before fraction_text
    minimum_by last_durable_lsn
reads = refl

refuses_directory :
    read_stats "spool" (found false 0) missing missing missing 3 9 db_two ≡ err other
unfolding read_stats
refuses_directory = refl

sizes :
    spool_file_sizes (found true 4) missing (found true 2)
    ≡ ok (record { database_bytes = 4; wal_bytes = 0; shm_bytes = 2; total_bytes = 6 })
unfolding spool_file_sizes measure_file
sizes = refl

pub db_close-Owned : Owned db_close
db_close-Owned = record {
  below = (omega arith, tt);
  single = (refl, tt);
  deliveries = (refl, (refl, tt));
}

read_stats-CountsOf_example : CountsOf db_close.deliveries counted.deliveries
read_stats-CountsOf_example = read_stats-CountsOf 3 9_600_000_000 db_close reads db_close-Owned

read_stats-oldest_example :
    All (NotAfter counted.oldest_waiting) (waiting_times db_close.events db_close.deliveries)
    × OneOf (waiting_times db_close.events db_close.deliveries) counted.oldest_waiting
read_stats-oldest_example = read_stats-oldest 3 9_600_000_000 db_close reads db_close-Owned
