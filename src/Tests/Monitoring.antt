-- ===== src/Tests/Monitoring.antt =====
-- The endpoints of a daemon that sampled a small spool twice.
use write_relay.Prelude.{◌≡◌, refl, ◌↔◌, true, false, none, some, [], ◌∷◌, ◌++◌, any}
use write_relay.Spool.{ok, err, other}
use write_relay.Disk.{Guard, no_reason, snapshot}
use write_relay.Monitoring.{
  Sample, CaptureStatus, new_server, sample_loop, sample, is_fresh, is_ready, disk_ready, health,
  healthz, readyz, capture_status,
}
use write_relay.Monitoring.Ready.{Fresh, DiskSafe, readyz_iff}
use write_relay.Monitoring.Metrics.{write_metrics}
use write_relay.Monitoring.Exported.{exported, counts_deliveries, exported-write_metrics}
use write_relay.Monitoring.Label.{label, read_label, read_label-label}
use write_relay.Tests.Stats.{db_close, db_close-Owned, counted, reads}

abbrev unguarded : Guard
unguarded = record {
  interval = 5;
  status = record {
    enabled = false;
    is_paused = false;
    reason = no_reason;
    available_bytes = 0;
    sampled_at = none;
    sample_fresh = false;
    pause_below_bytes = 0;
    resume_at_bytes = 0;
  };
  sample_ok = false;
}

abbrev failed : Sample
failed = record { read = err other; is_over = false }

abbrev good : Sample
good = record { read = ok counted; is_over = false }

abbrev capturing : CaptureStatus
capturing = record {
  disk = unguarded.status;
  connected = true;
  transactions = 1;
  last_capture_unix = 9;
}

becomes_ready :
    (readyz
      (sample_loop (new_server 15_000_000_000) (failed ∷ good ∷ []))
      true
      (capture_status unguarded 20_000_000_000 true 1 9)
      20_000_000_000).status
    ≡ 200
unfolding readyz is_ready is_fresh disk_ready health sample_loop sample new_server capture_status
    snapshot
becomes_ready = refl

fails_sample :
    (readyz
      (sample_loop (new_server 15_000_000_000) (good ∷ failed ∷ []))
      true
      (capture_status unguarded 20_000_000_000 true 1 9)
      20_000_000_000).status
    ≡ 503
unfolding readyz is_ready is_fresh disk_ready health sample_loop sample new_server capture_status
    snapshot
fails_sample = refl

stops : healthz false ≡ 503
unfolding healthz health
stops = refl

readyz_iff_example :
    ((readyz
        (sample_loop (new_server 15_000_000_000) (failed ∷ good ∷ []))
        true
        (capture_status unguarded 20_000_000_000 true 1 9)
        20_000_000_000).status
      ≡ 200)
    ↔ ((true ≡ true)
        × (true ≡ true)
        × Fresh 15_000_000_000 good 20_000_000_000
        × DiskSafe unguarded 20_000_000_000)
readyz_iff_example =
    readyz_iff 15_000_000_000 (failed ∷ []) good true true unguarded 20_000_000_000 1 9

exported-write_metrics_example :
    (exported (write_metrics capturing counted true 20_000_000_000) ≡ 2)
    × (any counts_deliveries (write_metrics capturing counted false 20_000_000_000) ≡ false)
exported-write_metrics_example =
    exported-write_metrics 3 9_600_000_000 db_close reads db_close-Owned capturing 20_000_000_000

-- A label with a quotation mark and a backslash.
read_label-label_example :
    read_label (label (97 ∷ 34 ∷ 92 ∷ []) ++ 32 ∷ []) ≡ some (97 ∷ 34 ∷ 92 ∷ [], 32 ∷ [])
read_label-label_example = read_label-label (97 ∷ 34 ∷ 92 ∷ []) (32 ∷ [])
