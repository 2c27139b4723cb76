-- ===== src/Delivery/Run.antt =====
-- internal/delivery/delivery.go: `Run`, the worker's loop. A tick says whether the context is over when
-- the timer fires, and what the round meets.
use write_relay.Prelude.{
  ℕ, String, Bool, true, false, Option, List, [], ◌∷◌, All, arith, if◌then◌else◌,
}
use write_relay.Spool.{Error, ok, err}
use write_relay.Store.{Db}
use write_relay.Store.Queue.{Delivery}
use write_relay.Delivery.{AttemptResult, Retry, Round, process_one}
use write_relay.Delivery.Attempts.{WithinAttempts, process_one-Within}

pub record Tick : Type 0 where
  pub is_over : Bool
  pub round : Round
  pub sinks : String → Option (Delivery → AttemptResult)

-- Why the loop ended, or that it waits for the timer.
pub data Ending : Type 0 where
  waits stopped : Ending
  failed : Error → Ending

-- The tables, the delays that the timer was set to, and the ending.
pub record Ran : Type 0 where
  pub db : Db
  pub delays : List ℕ
  pub ending : Ending

unfoldable pub delay_after : ℕ → Bool → ℕ
delay_after poll_interval processed = if processed then 0 else poll_interval

abbrev pub after_failure : Bool → Error → Ending
after_failure true e = stopped
after_failure false e = failed e

-- A round that failed ends the loop; `ctx.Err()` after it decides how.
unfoldable pub run : Retry → ℕ → List (Tick × Bool) → Db → Ran
run w poll_interval [] db = record { db = db; delays = []; ending = waits }
run w poll_interval ((t, over_after) ∷ ts) db =
    let next = process_one w t.sinks t.round db in
    let rest = run w poll_interval ts next.0 in
    if t.is_over then record { db = db; delays = []; ending = stopped } else elim next.1 [
      | err e ↦ record { db = next.0; delays = []; ending = after_failure over_after e }
      | ok processed ↦ record rest { delays = delay_after poll_interval processed ∷ rest.delays }
    ]

-- If each delivery is within the configured number of attempts, and one that is still waiting
-- below it, then the worker's loop keeps it so, whatever the sinks answer and however it ends.
pub run-Within :
    (w : Retry) (poll_interval : ℕ) (ts : List (Tick × Bool)) (db : Db)
    → All (WithinAttempts w.max_attempts) db.deliveries
    → All (WithinAttempts w.max_attempts) (run w poll_interval ts db).db.deliveries
unfolding run
run-Within w poll_interval [] db h = h
run-Within w poll_interval ((t, over_after) ∷ ts) db h =
    let next = process_one-Within w t.sinks t.round db h in
    let rest = run-Within w poll_interval ts (process_one w t.sinks t.round db).0 next in
    ground (arith, next, rest, h)
