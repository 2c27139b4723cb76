-- ===== src/Monitoring.antt =====
-- internal/monitoring/server.go: the sampling of the statistics, their freshness, and the answers of
-- the health endpoints. A sample is what `ReadStats` returned and whether its context was over; a time
-- of 0 is the zero time.
pub mod Ready
pub mod Metrics
pub mod Exported
pub mod Label
use write_relay.Prelude.{
  ℕ, ◌+◌, ◌*◌, Bool, true, false, not, ◌&&◌, ◌||◌, none, List, [], ◌∷◌, leb, ◌==◌, if◌then◌else◌,
}
use write_relay.Spool.{Result, ok, err}
use write_relay.Disk.{Reason, Status, Guard, snapshot}
use write_relay.Store.Stats.{Stats, no_counts, no_sizes}

-- internal/postgres/replicator.go: `CaptureStatus`
pub record CaptureStatus : Type 0 where
  pub disk : Status
  pub connected : Bool
  pub transactions : ℕ
  pub last_capture_unix : ℕ

pub record Server : Type 0 where
  pub interval : ℕ
  pub stats : Stats
  pub sample_ok : Bool

-- 5 seconds.
abbrev pub sample_timeout : ℕ
sample_timeout = 5_000_000_000

abbrev pub no_stats : Stats
no_stats = record {
  sampled_at = 0;
  event_count = 0;
  pruned_payloads = 0;
  last_durable_lsn = 0;
  deliveries = no_counts;
  oldest_waiting = none;
  storage = no_sizes;
  sinks = [];
}

unfoldable pub new_server : ℕ → Server
new_server interval = record { interval = interval; stats = no_stats; sample_ok = false }

pub record Sample : Type 0 where
  pub read : Result Stats
  pub is_over : Bool

abbrev pub with_stats : Server → Bool → Result Stats → Server
with_stats s is_over (err e) = record s { sample_ok = false }
with_stats s true (ok stats) = record s { sample_ok = false }
with_stats s false (ok stats) = record s { sample_ok = true; stats = stats }

unfoldable pub sample : Server → Sample → Server
sample s attempt = with_stats s attempt.is_over attempt.read

-- The loop of the sampler.
unfoldable pub sample_loop : Server → List Sample → Server
sample_loop s [] = s
sample_loop s (attempt ∷ rest) = sample_loop (sample s attempt) rest

-- `now.Sub(s.stats.SampledAt) <= s.interval+2*sampleTimeout`
unfoldable pub is_fresh : Server → ℕ → Bool
is_fresh s now =
    s.sample_ok
    && (not (s.stats.sampled_at == 0)
        && leb now (s.stats.sampled_at + (s.interval + 2 * sample_timeout)))

unfoldable pub health : Bool → ℕ
health is_ok = if is_ok then 200 else 503

-- The body of /readyz, with its status.
pub record Readiness : Type 0 where
  pub status : ℕ
  pub ready : Bool
  pub capture_connected : Bool
  pub spool_sample_fresh : Bool
  pub capture_paused : Bool
  pub capture_pause_reason : Reason
  pub disk_protection_enabled : Bool
  pub disk_sample_fresh : Bool

unfoldable pub disk_ready : Status → Bool
disk_ready disk = not disk.enabled || (disk.sample_fresh && not disk.is_paused)

unfoldable pub is_ready : Server → Bool → CaptureStatus → ℕ → Bool
is_ready s alive capture now =
    alive && (capture.connected && (is_fresh s now && disk_ready capture.disk))

unfoldable pub readyz : Server → Bool → CaptureStatus → ℕ → Readiness
readyz s alive capture now = record {
  status = health (is_ready s alive capture now);
  ready = is_ready s alive capture now;
  capture_connected = capture.connected;
  spool_sample_fresh = is_fresh s now;
  capture_paused = capture.disk.is_paused;
  capture_pause_reason = capture.disk.reason;
  disk_protection_enabled = capture.disk.enabled;
  disk_sample_fresh = capture.disk.sample_fresh;
}

unfoldable pub healthz : Bool → ℕ
healthz alive = health alive

-- internal/postgres/replicator.go: `Status`
unfoldable pub capture_status : Guard → ℕ → Bool → ℕ → ℕ → CaptureStatus
capture_status guard now connected transactions last_capture_unix = record {
  disk = snapshot guard now;
  connected = connected;
  transactions = transactions;
  last_capture_unix = last_capture_unix;
}
