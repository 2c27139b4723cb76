-- ===== src/Replicator/Reconnect.antt =====
-- internal/postgres/replicator.go: what `Run` does when `runOnce` returns, and its delays.
use write_relay.Prelude.{
  subst, ℕ, ◌+◌, ◌-◌, ◌*◌, ◌/◌, ◌%◌, ◌≤◌, ◌<◌, ◌≡◌, List, [], ◌∷◌, Bool, true, false, ltb,
  if◌then◌else◌, arith,
}
use write_relay.Spool.{
  Error, Result, ok, err, durability, identity_conflict, sink_conflict, protocol_state,
  protected_event, transaction_limit, slot_mismatch, unsupported_version, malformed, oversized,
  paused, cancelled, connection, other,
}

unfoldable pub is_fatal_capture_error : Error → Bool
is_fatal_capture_error protocol_state = true
is_fatal_capture_error protected_event = true
is_fatal_capture_error transaction_limit = true
is_fatal_capture_error slot_mismatch = true
is_fatal_capture_error unsupported_version = true
is_fatal_capture_error identity_conflict = true
is_fatal_capture_error durability = true
is_fatal_capture_error sink_conflict = false
is_fatal_capture_error malformed = false
is_fatal_capture_error oversized = false
is_fatal_capture_error paused = false
is_fatal_capture_error cancelled = false
is_fatal_capture_error connection = false
is_fatal_capture_error other = false

pub data Action : Type 0 where
  stop wait_for_disk : Action
  fail : Error → Action
  reconnect_after : ℕ → Action

abbrev pub second : ℕ
second = 1_000_000_000

-- `random` is any number: `rand.Int64N(delay)` is its remainder.
unfoldable pub jittered : ℕ → ℕ → ℕ
jittered delay random = delay + random % delay - delay / 2

unfoldable pub grow_delay : ℕ → ℕ
grow_delay delay =
    if ltb delay (30 * second)
    then (if ltb (30 * second) (delay * 2) then 30 * second else delay * 2)
    else delay

-- The action, and the delay of the next round.
abbrev pub after_error : ℕ → ℕ → Result (Unit {0}) → Action × ℕ
after_error delay random (ok _) = (reconnect_after (jittered delay random), grow_delay delay)
after_error delay random (err paused) = (wait_for_disk, second)
after_error delay random (err e) =
    if is_fatal_capture_error e
    then (fail e, delay)
    else (reconnect_after (jittered delay random), grow_delay delay)

unfoldable pub run_round : Bool → ℕ → ℕ → Result (Unit {0}) → Action × ℕ
run_round context_done delay random r =
    if context_done then (stop, delay) else after_error delay random r

-- The delays of `Run` after these results, with the random numbers drawn.
unfoldable pub delays_after : List (Result (Unit {0}) × ℕ) → ℕ → ℕ
delays_after [] delay = delay
delays_after ((r, random) ∷ rs) delay = delays_after rs (run_round false delay random r).1

abbrev pub InRange : ℕ → Type 0
InRange delay = (second ≤ delay) × (delay ≤ 30 * second)

grow_delay-InRange : (delay : ℕ) → InRange delay → InRange (grow_delay delay)
unfolding grow_delay
grow_delay-InRange delay h = ground arith

after_error-InRange :
    (delay random : ℕ) (r : Result (Unit {0}))
    → InRange delay
    → InRange (after_error delay random r).1
after_error-InRange delay random r h = ground (arith, grow_delay-InRange delay h)

run_round-InRange :
    (delay random : ℕ) (r : Result (Unit {0}))
    → InRange delay
    → InRange (run_round false delay random r).1
unfolding run_round
run_round-InRange delay random r h = after_error-InRange delay random r h

delays-InRange :
    (rs : List (Result (Unit {0}) × ℕ)) (delay : ℕ)
    → InRange delay
    → InRange (delays_after rs delay)
unfolding delays_after
delays-InRange [] delay h = h
delays-InRange ((r, random) ∷ rs) delay h =
    delays-InRange rs (run_round false delay random r).1 (run_round-InRange delay random r h)

jittered-bounds :
    (delay random : ℕ)
    → InRange delay
    → (second ≤ 2 * jittered delay random) × (jittered delay random < 45 * second)
unfolding jittered
jittered-bounds delay random h = omega (arith, h.0, h.1)

after_error-waits :
    (delay random : ℕ) (r : Result (Unit {0})) (wait : ℕ)
    → (after_error delay random r).0 ≡ reconnect_after wait
    → jittered delay random ≡ wait
after_error-waits delay random r wait h = ground arith

-- A wait of `Run`, after any earlier results, is at least half a second and below 45 seconds.
pub reconnect-bounds :
    (rs : List (Result (Unit {0}) × ℕ)) (random : ℕ) (r : Result (Unit {0})) (wait : ℕ)
    → (run_round false (delays_after rs second) random r).0 ≡ reconnect_after wait
    → (second ≤ 2 * wait) × (wait < 45 * second)
unfolding run_round
reconnect-bounds rs random r wait h =
    let b =
      jittered-bounds (delays_after rs second) random
        (delays-InRange rs second (omega arith, omega arith)) in
    let w = after_error-waits (delays_after rs second) random r wait h in
    subst (λ (n : ℕ). (second ≤ 2 * n) × (n < 45 * second)) w b
