-- ===== src/Disk/Hysteresis.antt =====
-- The guard's decision, its hysteresis, and the byte count without overflow.
use write_relay.Prelude.{
  ℕ, ◌-◌, ◌*◌, ◌/◌, ◌^◌, ◌≤◌, ◌<◌, ◌≡◌, refl, ◌∙◌, Bool, true, false, not, ◌&&◌, ◌||◌, Option, none,
  some, List, [], ◌∷◌, arith, ltb, leb, All, if◌then◌else◌,
}
use write_relay.Spool.{ok, err, paused, other}
use write_relay.Disk.{Guard, is_within, measured, probed, admission, check, available_bytes}

-- A check that may not use a cached sample: forced, or past the interval.
abbrev pub MustProbe : Guard → Bool → ℕ → Type 0
MustProbe g force now =
    (g.status.enabled ≡ true)
    × ((not force && is_within now g.interval g.status.sampled_at) ≡ false)

-- When capture goes on after a probe.
abbrev pub admits : Guard → Option ℕ → Bool
admits g none = false
admits g (some available) =
    leb g.status.pause_below_bytes available
    && (not g.status.is_paused || leb g.status.resume_at_bytes available)

-- A check that probes admits capture exactly if the probe succeeded with at least the pause
-- threshold and, if capture was paused, at least the resume threshold; the pause is recorded to
-- match, and the thresholds and the interval stay.
pub check-admits :
    (g : Guard) (force : Bool) (now : ℕ) (probe : Option ℕ)
    → MustProbe g force now
    → ((check g force now probe).1 ≡ (if admits g probe then ok tt else err paused))
      × ((check g force now probe).0.status.is_paused ≡ not (admits g probe))
      × ((check g force now probe).0.status.pause_below_bytes ≡ g.status.pause_below_bytes)
      × ((check g force now probe).0.status.resume_at_bytes ≡ g.status.resume_at_bytes)
      × ((check g force now probe).0.interval ≡ g.interval)
unfolding check probed measured admission
check-admits g force now none m = ground arith
check-admits g force now (some available) m = ground arith

-- Forced checks, one for each sample, that follow one another.
pub check_all : Guard → List (ℕ × ℕ) → Guard
check_all g [] = g
check_all g ((now, available) ∷ rest) = check_all (check g true now (some available)).0 rest

check_in_band :
    (g : Guard) (now available : ℕ)
    → g.status.enabled ≡ true
    → g.status.pause_below_bytes ≤ available
    → available < g.status.resume_at_bytes
    → ((check g true now (some available)).0.status.is_paused ≡ g.status.is_paused)
      × ((check g true now (some available)).0.status.enabled ≡ true)
      × ((check g true now (some available)).0.status.pause_below_bytes
          ≡ g.status.pause_below_bytes)
      × ((check g true now (some available)).0.status.resume_at_bytes ≡ g.status.resume_at_bytes)
unfolding check probed measured admission
check_in_band g now available on lo hi = ground arith

-- While the guard is enabled and the available bytes stay between the two thresholds, capture
-- neither pauses nor resumes, however often the disk is checked.
pub check_all_in_band :
    (g : Guard) (samples : List (ℕ × ℕ))
    → g.status.enabled ≡ true
    → All
        (λ (s : ℕ × ℕ). (g.status.pause_below_bytes ≤ s.1) × (s.1 < g.status.resume_at_bytes))
        samples
    → (check_all g samples).status.is_paused ≡ g.status.is_paused
unfolding check_all
check_all_in_band g [] on band = refl
check_all_in_band g ((now, available) ∷ rest) on band =
    let (same, on', pause, resume) = check_in_band g now available on band.0.0 band.0.1 in
    check_all_in_band (check g true now (some available)).0 rest on' (rw (pause, resume) band.1)
    ∙ same

product_fits : (m blocks size : ℕ) → 0 < size → blocks ≤ m / size → blocks * size ≤ m
product_fits m blocks size pos h = grind (arith, h)

product_too_large : (m blocks size : ℕ) → 0 < size → m / size < blocks → m < blocks * size
product_too_large m blocks size pos h = grind (arith, h)

-- For a block size that is the bit pattern of an int64, the byte count is exact and fits a
-- uint64, and it is an error exactly if the block size is not positive or the product does not
-- fit.
pub available_bytes_exact :
    (blocks block_size : ℕ)
    → block_size < 2 ^ 64
    → available_bytes blocks block_size ≡ (
        if (ltb 0 block_size && ltb block_size (2 ^ 63)) && ltb (blocks * block_size) (2 ^ 64)
        then ok (blocks * block_size)
        else err other)
unfolding available_bytes
available_bytes_exact blocks block_size h = ground (
  arith,
  product_fits (2 ^ 64 - 1) blocks block_size,
  product_too_large (2 ^ 64 - 1) blocks block_size,
)
