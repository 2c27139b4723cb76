-- ===== src/Store/Stats.antt =====
-- internal/spool/sqlite/stats.go: `ReadStats`, its query and the loop over the rows. The file system's
-- answers are arguments.
pub mod Written
pub mod Totals
pub mod Waiting
pub mod Oldest
use Prim.Native.Nat.{Ordering}
use Prim.Native.String.{compare}
use write_relay.Prelude.{
  ℕ, zero, suc, ◌+◌, ◌-◌, ◌/◌, ◌%◌, ◌^◌, min, String, Bool, true, false, not, ◌&&◌, ◌||◌, Option,
  none, some, List, [], ◌∷◌, ◌++◌, ltb, ◌==◌, count, length, minimum_by, if◌then◌else◌, str_eq,
}
use write_relay.Store.Stats.Written.{second, written_before}
use write_relay.Spool.{Result, ok, err, other, guard, ◌>>=◌, ◌>>◌}
use write_relay.Store.{
  EventRow, SinkRow, DeliveryRow, DeliveryState, pending, retry_wait, Db, is_some, is_delivered,
  is_dead_letter,
}
use write_relay.Store.Persist.{last_durable_lsn}
use write_relay.Store.Prune.{current_schema_version}
use write_relay.Store.Queue.{waits_for, event_of_sequence}

pub record DeliveryCounts : Type 0 where
  pub total : ℕ
  pub pending : ℕ
  pub retry_wait : ℕ
  pub delivered : ℕ
  pub dead_letter : ℕ

pub record WaitingStats : Type 0 where
  pub captured_at : ℕ
  pub age_seconds : ℕ

pub record SinkStats : Type 0 where
  pub name : String
  pub sink_type : String
  pub active : Bool
  pub deliveries : DeliveryCounts
  pub oldest_waiting : Option WaitingStats

pub record FileSizes : Type 0 where
  pub database_bytes : ℕ
  pub wal_bytes : ℕ
  pub shm_bytes : ℕ
  pub total_bytes : ℕ

pub record Stats : Type 0 where
  pub sampled_at : ℕ
  pub event_count : ℕ
  pub pruned_payloads : ℕ
  pub last_durable_lsn : ℕ
  pub deliveries : DeliveryCounts
  pub oldest_waiting : Option WaitingStats
  pub storage : FileSizes
  pub sinks : List SinkStats

abbrev pub is_pending : DeliveryState → Bool
is_pending pending = true
is_pending _ = false

abbrev pub is_retry_wait : DeliveryState → Bool
is_retry_wait retry_wait = true
is_retry_wait _ = false

-- `ON d.sink_id = s.sink_id`, and the sums over the joined rows.
abbrev pub in_state : ℕ → (DeliveryState → Bool) → DeliveryRow → Bool
in_state sink_id is_state d = d.sink_id == sink_id && is_state d.state

abbrev pub any_state : DeliveryState → Bool
any_state _ = true

unfoldable pub count_deliveries : ℕ → List DeliveryRow → DeliveryCounts
count_deliveries sink_id ds = record {
  total = count (in_state sink_id any_state) ds;
  pending = count (in_state sink_id is_pending) ds;
  retry_wait = count (in_state sink_id is_retry_wait) ds;
  delivered = count (in_state sink_id is_delivered) ds;
  dead_letter = count (in_state sink_id is_dead_letter) ds;
}

-- `CASE WHEN d.state IN ('pending', 'retry_wait') THEN e.captured_at END`, where it is not NULL.
abbrev pub captured_of : Option EventRow → List ℕ → List ℕ
captured_of none times = times
captured_of (some e) times = e.captured_at ∷ times

unfoldable pub waiting_captures : ℕ → List EventRow → List DeliveryRow → List ℕ
waiting_captures sink_id events [] = []
waiting_captures sink_id events (d ∷ ds) =
    let rest = waiting_captures sink_id events ds in
    if waits_for sink_id d
    then captured_of (event_of_sequence d.event_sequence events) rest
    else rest

-- `Sub` stops at the longest duration, and an age is not negative.
abbrev pub waiting_since : ℕ → Option ℕ → Option WaitingStats
waiting_since sampled_at none = none
waiting_since sampled_at (some captured_at) = some (record {
  captured_at = captured_at;
  age_seconds = min (sampled_at - captured_at) (2 ^ 63 - 1) / second;
})

unfoldable pub sink_row : ℕ → Db → SinkRow → SinkStats
sink_row sampled_at db s = record {
  name = s.sink_name;
  sink_type = s.sink_type;
  active = s.active;
  deliveries = count_deliveries s.sink_id db.deliveries;
  oldest_waiting =
      waiting_since sampled_at
        (minimum_by written_before (waiting_captures s.sink_id db.events db.deliveries));
}

-- `ORDER BY s.sink_name`
abbrev name_before : String → String → Bool
name_before a b = elim (compare a b) [ Ordering.lt ↦ true | _ ↦ false ]

unfoldable pub insert_by_name : SinkRow → List SinkRow → List SinkRow
insert_by_name s [] = s ∷ []
insert_by_name s (t ∷ ts) =
    if name_before t.sink_name s.sink_name then t ∷ insert_by_name s ts else s ∷ t ∷ ts

unfoldable pub by_name : List SinkRow → List SinkRow
by_name [] = []
by_name (s ∷ ss) = insert_by_name s (by_name ss)

unfoldable pub add_counts : DeliveryCounts → DeliveryCounts → DeliveryCounts
add_counts a b = record {
  total = a.total + b.total;
  pending = a.pending + b.pending;
  retry_wait = a.retry_wait + b.retry_wait;
  delivered = a.delivered + b.delivered;
  dead_letter = a.dead_letter + b.dead_letter;
}

-- The older of the two, by the time: `capturedAt.Before(result.OldestWaiting.CapturedAt)`.
abbrev pub older : Option WaitingStats → Option WaitingStats → Option WaitingStats
older result none = result
older none (some w) = some w
older (some r) (some w) = if ltb w.captured_at r.captured_at then some w else some r

-- One round of the loop over the rows, and the loop.
unfoldable pub add_sink : Stats → SinkStats → Stats
add_sink result sink = record result {
  deliveries = add_counts result.deliveries sink.deliveries;
  oldest_waiting = older result.oldest_waiting sink.oldest_waiting;
  sinks = result.sinks ++ sink ∷ [];
}

unfoldable pub add_sinks : ℕ → Db → Stats → List SinkRow → Stats
add_sinks sampled_at db result [] = result
add_sinks sampled_at db result (s ∷ ss) =
    add_sinks sampled_at db (add_sink result (sink_row sampled_at db s)) ss

abbrev pub no_counts : DeliveryCounts
no_counts = record { total = 0; pending = 0; retry_wait = 0; delivered = 0; dead_letter = 0 }

abbrev pub no_sizes : FileSizes
no_sizes = record { database_bytes = 0; wal_bytes = 0; shm_bytes = 0; total_bytes = 0 }

-- What the rows are added to.
unfoldable pub stats_before : ℕ → Db → Stats
stats_before sampled_at db = record {
  sampled_at = sampled_at;
  event_count = length db.events;
  pruned_payloads = count (λ e. is_some e.payload_pruned_at) db.events;
  last_durable_lsn = last_durable_lsn db;
  deliveries = no_counts;
  oldest_waiting = none;
  storage = no_sizes;
  sinks = [];
}

unfoldable pub read_stats_snapshot : ℕ → ℕ → Db → Result Stats
read_stats_snapshot version sampled_at db = do
  guard (version == current_schema_version) other
  ok (add_sinks sampled_at db (stats_before sampled_at db) (by_name db.sinks))

-- What `os.Stat` says of a file.
pub data FileStat : Type 0 where
  missing stat_failed : FileStat
  found : Bool → ℕ → FileStat

unfoldable pub measure_file : Bool → FileStat → Result ℕ
measure_file is_sidecar missing = if is_sidecar then ok 0 else err other
measure_file is_sidecar stat_failed = err other
measure_file is_sidecar (found is_regular size) = if is_regular then ok size else err other

unfoldable pub spool_file_sizes : FileStat → FileStat → FileStat → Result FileSizes
spool_file_sizes database wal shm = do
  database_bytes ← measure_file false database
  wal_bytes ← measure_file true wal
  shm_bytes ← measure_file true shm
  ok (record {
    database_bytes = database_bytes;
    wal_bytes = wal_bytes;
    shm_bytes = shm_bytes;
    total_bytes = database_bytes + wal_bytes + shm_bytes;
  })

abbrev pub is_regular_file : FileStat → Bool
is_regular_file (found is_regular size) = is_regular
is_regular_file _ = false

unfoldable pub read_stats :
    String → FileStat → FileStat → FileStat → FileStat → ℕ → ℕ → Db → Result Stats
read_stats path lstat database wal shm version sampled_at db = do
  guard (not (str_eq path "")) other
  guard (is_regular_file lstat) other
  result ← read_stats_snapshot version sampled_at db
  sizes ← spool_file_sizes database wal shm
  ok (record result { storage = sizes })
