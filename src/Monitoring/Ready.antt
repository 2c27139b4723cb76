-- ===== src/Monitoring/Ready.antt =====
-- When the daemon reports that it is ready.
use write_relay.Prelude.{
  ℕ, ◌+◌, ◌*◌, ◌≤◌, ◌<◌, ◌≡◌, refl, ◌↔◌, ◌⊎◌, Bool, true, false, List, [], ◌∷◌, ◌++◌, arith,
}
use write_relay.Spool.{Result, ok, err}
use write_relay.Disk.{Guard, snapshot, is_within}
use write_relay.Store.Stats.{Stats}
use write_relay.Monitoring.{
  Server, Sample, sample_timeout, new_server, sample, sample_loop, is_fresh, health, disk_ready,
  is_ready, readyz, capture_status,
}

sample_loop-append :
    (s : Server) (xs : List Sample) (x : Sample)
    → sample_loop s (xs ++ x ∷ []) ≡ sample (sample_loop s xs) x
unfolding sample_loop
sample_loop-append s [] x = refl
sample_loop-append s (y ∷ ys) x = sample_loop-append (sample s y) ys x

sample_loop-interval : (s : Server) (xs : List Sample) → (sample_loop s xs).interval ≡ s.interval
unfolding sample_loop sample
sample_loop-interval s [] = refl
sample_loop-interval s (x ∷ xs) = ground (arith, sample_loop-interval (sample s x) xs)

-- The sample was read in time, and is not too old.
abbrev pub FreshRead : ℕ → Bool → Result Stats → ℕ → Type 0
FreshRead interval is_over (err e) now = ⊥
FreshRead interval is_over (ok stats) now =
    (is_over ≡ false)
    × (0 < stats.sampled_at)
    × (now ≤ stats.sampled_at + interval + 2 * sample_timeout)

abbrev pub Fresh : ℕ → Sample → ℕ → Type 0
Fresh interval x now = FreshRead interval x.is_over x.read now

abbrev pub DiskSafe : Guard → ℕ → Type 0
DiskSafe guard now =
    (guard.status.enabled ≡ false)
    ⊎ (guard.sample_ok ≡ true)
      × (is_within now (2 * guard.interval + 1) guard.status.sampled_at ≡ true)
      × (guard.status.is_paused ≡ false)

fresh_read :
    (s : Server) (is_over : Bool) (read : Result Stats) (now : ℕ)
    → (is_fresh (sample s (record { read = read; is_over = is_over })) now ≡ true)
      ↔ FreshRead s.interval is_over read now
unfolding is_fresh sample
fresh_read s is_over (err e) now = ground arith
fresh_read s true (ok stats) now = ground arith
fresh_read s false (ok stats) now = ground arith

is_fresh-Fresh :
    (interval : ℕ) (xs : List Sample) (x : Sample) (now : ℕ)
    → (is_fresh (sample_loop (new_server interval) (xs ++ x ∷ [])) now ≡ true)
      ↔ Fresh interval x now
unfolding new_server
is_fresh-Fresh interval xs x now = rw (sample_loop-append (new_server interval) xs x) (
    ground (
      arith,
      sample_loop-interval (new_server interval) xs,
      fresh_read (sample_loop (new_server interval) xs) x.is_over x.read now,
    ))

disk_ready-DiskSafe :
    (guard : Guard) (now : ℕ) → (disk_ready (snapshot guard now) ≡ true) ↔ DiskSafe guard now
unfolding disk_ready snapshot
disk_ready-DiskSafe guard now = ground arith

-- After any samples, the last of them `x`, /readyz answers 200 exactly if the daemon is not stopping,
-- the stream is connected, the last sample was read in time and is at most the interval and ten
-- seconds old, and the disk guard is off, or its last probe succeeded, is recent and does not pause
-- capture.
pub readyz_iff :
    (interval : ℕ) (xs : List Sample) (x : Sample) (alive connected : Bool) (guard : Guard)
    (now transactions last_capture : ℕ)
    → ((readyz
          (sample_loop (new_server interval) (xs ++ x ∷ []))
          alive
          (capture_status guard now connected transactions last_capture)
          now).status
        ≡ 200)
      ↔ ((alive ≡ true) × (connected ≡ true) × Fresh interval x now × DiskSafe guard now)
unfolding readyz is_ready health capture_status
readyz_iff interval xs x alive connected guard now transactions last_capture =
    ground (arith, is_fresh-Fresh interval xs x now, disk_ready-DiskSafe guard now)
