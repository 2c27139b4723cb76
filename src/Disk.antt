-- ===== src/Disk.antt =====
-- internal/diskspace/guard.go and statfs_unix.go: the guard that pauses capture below one amount of
-- available bytes and resumes at a higher one. The probe and the clock are arguments; the mutexes
-- make a check one step.
pub mod Hysteresis
use write_relay.Prelude.{
  ℕ, zero, suc, ◌+◌, ◌-◌, ◌*◌, ◌/◌, ◌^◌, Bool, true, false, not, ◌&&◌, ◌||◌, Option, none, some,
  ltb, leb, ◌==◌, if◌then◌else◌,
}
use write_relay.Spool.{Error, Result, ok, err, paused, other}

pub data Reason : Type 0 where
  no_reason low_disk disk_check_failed : Reason

-- A sampled time of none is the zero time.
pub record Status : Type 0 where
  pub enabled : Bool
  pub is_paused : Bool
  pub reason : Reason
  pub available_bytes : ℕ
  pub sampled_at : Option ℕ
  pub sample_fresh : Bool
  pub pause_below_bytes : ℕ
  pub resume_at_bytes : ℕ

pub record Guard : Type 0 where
  pub interval : ℕ
  pub status : Status
  pub sample_ok : Bool

pub record DiskSpaceConfig : Type 0 where
  pub pause_below_bytes : ℕ
  pub resume_at_bytes : ℕ
  pub check_interval : ℕ

-- An interval of 0 is 5 seconds.
unfoldable pub new_guard : DiskSpaceConfig → Guard
new_guard cfg = record {
  interval = if cfg.check_interval == 0 then 5_000_000_000 else cfg.check_interval;
  status = record {
    enabled = ltb 0 cfg.pause_below_bytes;
    is_paused = false;
    reason = no_reason;
    available_bytes = 0;
    sampled_at = none;
    sample_fresh = false;
    pause_below_bytes = cfg.pause_below_bytes;
    resume_at_bytes = cfg.resume_at_bytes;
  };
  sample_ok = false;
}

-- `!SampledAt.IsZero() && now.Sub(SampledAt) < limit`
abbrev pub is_within : ℕ → ℕ → Option ℕ → Bool
is_within now limit none = false
is_within now limit (some at) = ltb now (at + limit)

-- `now.Sub(SampledAt) <= 2*interval` is `<` with one more nanosecond.
unfoldable pub snapshot : Guard → ℕ → Status
snapshot g now = record g.status {
  sample_fresh =
      g.status.enabled && (g.sample_ok && is_within now (2 * g.interval + 1) g.status.sampled_at);
}

-- The new pause and its reason, from the pause before and the probe; none is a failed probe.
unfoldable pub measured : Status → Option ℕ → Status
measured s none = record s { is_paused = true; reason = disk_check_failed }
measured s (some available) =
    if ltb available s.pause_below_bytes || (s.is_paused && ltb available s.resume_at_bytes)
    then record s { available_bytes = available; is_paused = true; reason = low_disk }
    else record s { available_bytes = available; is_paused = false; reason = no_reason }

abbrev pub is_measured : Option ℕ → Bool
is_measured none = false
is_measured (some _) = true

unfoldable pub probed : Guard → ℕ → Option ℕ → Guard
probed g now probe = record g {
  status = measured (record g.status { sampled_at = some now }) probe;
  sample_ok = is_measured probe;
}

unfoldable pub admission : Status → Result (Unit {0})
admission s = if s.is_paused then err paused else ok tt

unfoldable pub check : Guard → Bool → ℕ → Option ℕ → Guard × Result (Unit {0})
check g force now probe =
    if not g.status.enabled
    then (g, ok tt)
    else if not force && is_within now g.interval g.status.sampled_at
    then (g, admission g.status)
    else (probed g now probe, admission (probed g now probe).status)

-- statfs_unix.go: `availableBytes`. The block size is an int64, given by its bit pattern: from 2 ^ 63
-- on it is negative.
unfoldable pub available_bytes : ℕ → ℕ → Result ℕ
available_bytes blocks block_size =
    if (block_size == 0 || leb (2 ^ 63) block_size) || ltb ((2 ^ 64 - 1) / block_size) blocks
    then err other
    else ok (blocks * block_size)
