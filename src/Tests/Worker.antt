-- ===== src/Tests/Worker.antt =====
-- A due delivery is sent, fails once, and is recorded.
use mathlib.Core.List.{Memᴰ}
use write_relay.Prelude.{
  ◌≡◌, refl, arith, String, Bool, true, false, Option, List, [], ◌∷◌, none, some, All, minimum_by,
}
use write_relay.Store.{DeliveryRow, new_delivery}
use write_relay.Store.Keys.{KeysUnique}
use write_relay.Store.Queue.{
  Delivery, head_delivery, join_event, join_head, candidates, delivery_of, next_due_delivery,
}
use write_relay.Store.Queue.Next.{IsNext, next_due_delivery-IsNext, IsHeld, next_due_delivery-none}
use write_relay.Store.Marks.{is_current, FailedAttempt}
use write_relay.Store.Marks.Transitions.{Moves, mark, redrives, mark-Moves}
use write_relay.Delivery.{AttemptResult, Retry, Round, process_one}
use write_relay.Delivery.Becomes.{Becomes}
use write_relay.Delivery.Worker.{Processes, process_one-Processes}
use write_relay.Delivery.Attempts.{WithinAttempts}
use write_relay.Delivery.Run.{Tick, run, run-Within}
use write_relay.Tests.Data.{db_two, hook, item}

abbrev first : DeliveryRow
first = new_delivery 1000 1 1

abbrev attempt : FailedAttempt
attempt = record {
  attempt = 1;
  permanent = false;
  retry_at = 3000;
  failure = [];
  status = 503;
  at = 2000;
}

abbrev answer : AttemptResult
answer = record {
  success = false;
  retryable = true;
  retry_after = 7;
  status_code = 503;
  failure = 1 ∷ [];
}

abbrev retry : Retry
retry = record { initial_delay = 5; max_delay = 100; max_attempts = 3 }

abbrev round : Round
round = record { now = 2000; at = 2001; cancelled = false }

abbrev sinks : String → Option (Delivery → AttemptResult)
sinks name = some (λ d. answer)

abbrev stale : Delivery
stale = record item { attempts = 5 }

unique : KeysUnique db_two.deliveries
unique = (refl, (refl, tt))

next : next_due_delivery 2000 db_two ≡ some item
unfolding next_due_delivery candidates join_head join_event head_delivery delivery_of minimum_by
next = refl

nothing : next_due_delivery 10 db_two ≡ none
unfolding next_due_delivery candidates join_head join_event head_delivery delivery_of minimum_by
nothing = refl

next_due_delivery-IsNext_example : IsNext 2000 db_two item
next_due_delivery-IsNext_example = next_due_delivery-IsNext 2000 db_two next

next_due_delivery-none_example : IsHeld 10 db_two (new_delivery 1000 1 1)
next_due_delivery-none_example =
    next_due_delivery-none 10 db_two ((_, refl), ((_, refl), tt)) nothing hook (Memᴰ.head refl) refl
      (new_delivery 1000 1 1) (Memᴰ.head refl) refl refl

mark-Moves_example :
    Moves db_two.deliveries (mark db_two (redrives "hook" "shop" "one" 9)).0.deliveries
mark-Moves_example = mark-Moves db_two (redrives "hook" "shop" "one" 9)

process_one-Processes_example :
    (row : DeliveryRow) × (row' : DeliveryRow) × IsNext 2000 db_two item
    × Memᴰ row db_two.deliveries
    × (is_current item row ≡ true)
    × Becomes retry round item answer row row'
    × Processes db_two (process_one retry sinks round db_two) row row'
process_one-Processes_example =
    process_one-Processes retry sinks round db_two item (λ d. answer) unique
      ((λ _. refl), ((λ _. refl), tt)) next refl refl

run_rounds : List (Tick × Bool)
run_rounds = (record { is_over = false; round = round; sinks = sinks }, false) ∷ []

run-Within_example : All (WithinAttempts 3) (run retry 1000 run_rounds db_two).db.deliveries
run-Within_example =
    run-Within retry 1000 run_rounds db_two
      ((omega arith, λ _. omega arith), ((omega arith, λ _. omega arith), tt))
