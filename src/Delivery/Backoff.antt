-- ===== src/Delivery/Backoff.antt =====
-- The retry delay in closed form, and the bound on stored failures.
use native.Mathlib.Nat.{pow-suc, mul_assoc, mul_comm}
use write_relay.Prelude.{
  ℕ, zero, suc, ◌*◌, ◌/◌, ◌%◌, ◌^◌, ◌≤◌, ◌<◌, min, max, ◌≡◌, sym, ◌∙◌, arith, ltb, Bool-cases,
  ltb→lt, ltb→ge, ◌⊎◌, inl, inr,
}
use write_relay.Store.Queue.{Delivery}
use write_relay.Delivery.{AttemptResult, Retry, cap_delay, double_delay, retry_delay, next_delay}

pow_pos : (n : ℕ) → 1 ≤ 2 ^ n
pow_pos zero = omega arith
pow_pos (suc n) = rw pow-suc (omega (arith, pow_pos n))

le-mul_pow : (d n : ℕ) → d ≤ d * 2 ^ n
le-mul_pow d n = grind (arith, pow_pos n)

mul-pow-suc : (d n : ℕ) → d * 2 ^ suc n ≡ (d * 2) * 2 ^ n
mul-pow-suc d n = rw (pow-suc, mul_comm (2 ^ n) 2) (sym (mul_assoc d 2 (2 ^ n)))

cap_delay-min :
    (max_delay delay d : ℕ)
    → delay ≤ d
    → (delay ≡ d) ⊎ (max_delay ≤ delay)
    → cap_delay max_delay delay ≡ min max_delay d
unfolding cap_delay
cap_delay-min max_delay delay d le h = ground arith

double_delay-min :
    (max_delay rounds delay : ℕ)
    → max_delay < 2 ^ 63
    → double_delay max_delay rounds delay ≡ min max_delay (delay * 2 ^ rounds)
unfolding double_delay
double_delay-min max_delay zero delay h =
    cap_delay-min max_delay delay (delay * 1) (omega arith) (inl (omega arith))
double_delay-min max_delay (suc rounds) delay h =
    let d : ℕ = delay * 2 ^ suc rounds in
    let le = le-mul_pow (delay * 2) rounds in
    let same = mul-pow-suc delay rounds in
    elim (Bool-cases (ltb delay max_delay)) [
      | inr full ↦
          rw full
            (cap_delay-min max_delay delay d (omega (arith, le, same)) (inr (ground (arith, full))))
      | inl room ↦ elim (Bool-cases (ltb (max_delay / 2) delay)) [
        | inl large ↦ rw (room, large) (omega (arith, le, same, ltb→lt _ _ large))
        | inr small ↦
            let fits : (delay * 2) % 2 ^ 64 ≡ delay * 2 = omega (arith, ltb→ge _ _ small) in
            rw (room, small, fits) (double_delay-min max_delay rounds (delay * 2) h ∙ rw same)
      ]
    ]

-- The delay after n failed attempts is the initial delay times 2 ^ n, or the maximum if that is
-- less. If the maximum fits an int64, the doubling never wraps.
pub retry_delay-min :
    (w : Retry) (previous_attempts : ℕ)
    → w.max_delay < 2 ^ 63
    → retry_delay w previous_attempts ≡ min w.max_delay (w.initial_delay * 2 ^ previous_attempts)
unfolding retry_delay
retry_delay-min w n h = double_delay-min w.max_delay n w.initial_delay h

-- If the maximum delay fits an int64, the wait before the next attempt is the larger of the
-- backoff and of what the destination asked for, or the maximum if that is less.
pub next_delay-min :
    (w : Retry) (item : Delivery) (result : AttemptResult)
    → w.max_delay < 2 ^ 63
    → next_delay w item result
      ≡ min w.max_delay (max (w.initial_delay * 2 ^ item.attempts) result.retry_after)
unfolding next_delay
next_delay-min w item result h =
    let same = retry_delay-min w item.attempts h in rw same (ground arith)
