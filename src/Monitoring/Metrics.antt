-- ===== src/Monitoring/Metrics.antt =====
-- internal/monitoring/metrics.go: `writeMetrics`, as the samples in the order of the lines. The help
-- and type lines that stand before a family are fixed texts and left out.
use write_relay.Prelude.{
  ℕ, ◌-◌, ◌/◌, ◌^◌, min, String, Bool, true, false, ◌&&◌, Option, none, some, List, [], ◌∷◌, ◌++◌,
  map, if◌then◌else◌,
}
use write_relay.Disk.{Reason, low_disk, disk_check_failed, Status}
use write_relay.Store.Stats.Written.{second}
use write_relay.Store.Stats.{WaitingStats, SinkStats, Stats}
use write_relay.Monitoring.{CaptureStatus}

-- A number, or the seconds in a number of nanoseconds, which are written as a float.
pub data Value : Type 0 where
  number seconds_of : ℕ → Value

-- `writerelay_` and the name, the labels and the value of one line.
pub record Metric : Type 0 where
  pub name : String
  pub labels : List (String × String)
  pub value : Value

abbrev pub gauge : String → ℕ → Metric
gauge name value = record { name = name; labels = []; value = number value }

abbrev pub labelled : String → List (String × String) → ℕ → Metric
labelled name labels value = record { name = name; labels = labels; value = number value }

unfoldable pub bool_number : Bool → ℕ
bool_number value = if value then 1 else 0

-- `disk.Reason == reason` for the two reasons that are exported.
abbrev is_low_disk : Reason → Bool
is_low_disk low_disk = true
is_low_disk _ = false

abbrev is_check_failed : Reason → Bool
is_check_failed disk_check_failed = true
is_check_failed _ = false

abbrev pub flat_map {ℓ κ} : {A : Type ℓ} {B : Type κ} → (A → List B) → List A → List B
flat_map f [] = []
flat_map f (x ∷ xs) = f x ++ flat_map f xs

-- `Unix()`, and 0 for the zero time.
abbrev unix_of : Option ℕ → ℕ
unix_of none = 0
unix_of (some time) = time / second

unfoldable pub pause_metrics : Status → List Metric
pause_metrics disk =
    gauge "capture_paused" (bool_number disk.is_paused)
    ∷ labelled "capture_pause" (("reason", "low_disk") ∷ [])
        (bool_number (disk.is_paused && is_low_disk disk.reason))
    ∷ labelled "capture_pause" (("reason", "disk_check_failed") ∷ [])
        (bool_number (disk.is_paused && is_check_failed disk.reason))
    ∷ gauge "disk_protection_enabled" (bool_number disk.enabled)
    ∷ []

unfoldable pub disk_metrics : Status → List Metric
disk_metrics disk =
    if disk.enabled
    then (gauge "disk_sample_fresh" (bool_number disk.sample_fresh)
        ∷ gauge "disk_sample_timestamp_seconds" (unix_of disk.sampled_at)
        ∷ gauge "disk_pause_below_bytes" disk.pause_below_bytes
        ∷ gauge "disk_resume_at_bytes" disk.resume_at_bytes
        ∷ (if disk.sample_fresh
            then gauge "disk_available_bytes" disk.available_bytes ∷ []
            else []))
    else []

unfoldable pub capture_metrics : CaptureStatus → Bool → ℕ → List Metric
capture_metrics capture fresh sampled_at =
    gauge "capture_connected" (bool_number capture.connected)
    ∷ gauge "capture_transactions_total" capture.transactions
    ∷ gauge "capture_last_success_timestamp_seconds" capture.last_capture_unix
    ∷ gauge "spool_sample_fresh" (bool_number fresh)
    ∷ gauge "spool_sample_timestamp_seconds" (sampled_at / second)
    ∷ []

unfoldable pub active_metric : SinkStats → Metric
active_metric sink = labelled "sink_active" (("sink", sink.name) ∷ []) (bool_number sink.active)

abbrev pub state_metric : String → String → ℕ → Metric
state_metric sink state value = labelled "deliveries" (("sink", sink) ∷ ("state", state) ∷ []) value

unfoldable pub delivery_metrics : SinkStats → List Metric
delivery_metrics sink =
    state_metric sink.name "pending" sink.deliveries.pending
    ∷ state_metric sink.name "retry_wait" sink.deliveries.retry_wait
    ∷ state_metric sink.name "delivered" sink.deliveries.delivered
    ∷ state_metric sink.name "dead_letter" sink.deliveries.dead_letter
    ∷ []

-- `Sub` stops at the longest duration.
abbrev pub age_of : ℕ → Option WaitingStats → ℕ
age_of now none = 0
age_of now (some w) = min (now - w.captured_at) (2 ^ 63 - 1)

unfoldable pub age_metric : ℕ → SinkStats → Metric
age_metric now sink = record {
  name = "oldest_waiting_age_seconds";
  labels = ("sink", sink.name) ∷ [];
  value = seconds_of (age_of now sink.oldest_waiting);
}

unfoldable pub spool_metrics : Stats → ℕ → List Metric
spool_metrics stats now =
    (gauge "spool_events" stats.event_count
      ∷ labelled "spool_payloads" (("state", "retained") ∷ [])
          (stats.event_count - stats.pruned_payloads)
      ∷ labelled "spool_payloads" (("state", "pruned") ∷ []) stats.pruned_payloads
      ∷ labelled "spool_file_bytes" (("file", "database") ∷ []) stats.storage.database_bytes
      ∷ labelled "spool_file_bytes" (("file", "wal") ∷ []) stats.storage.wal_bytes
      ∷ labelled "spool_file_bytes" (("file", "shm") ∷ []) stats.storage.shm_bytes
      ∷ [])
    ++ (map active_metric stats.sinks
        ++ (flat_map delivery_metrics stats.sinks ++ map (age_metric now) stats.sinks))

unfoldable pub write_metrics : CaptureStatus → Stats → Bool → ℕ → List Metric
write_metrics capture stats fresh now =
    pause_metrics capture.disk
    ++ (disk_metrics capture.disk
        ++ (capture_metrics capture fresh stats.sampled_at
            ++ (if fresh then spool_metrics stats now else [])))
