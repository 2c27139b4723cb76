-- ===== src/Store/Marks/Transitions.antt =====
-- The life of a delivery: the state machine that every UPDATE of deliveries follows.
use write_relay.Prelude.{
  ℕ, String, ◌≡◌, refl, Bool, true, ◌&&◌, none, some, List, [], ◌∷◌, arith, any, update, Bool-cases,
  inl, inr,
}
use write_relay.Spool.{Error, Result}
use write_relay.Store.{DeliveryRow, retry_wait, delivered, dead_letter, Db, is_waiting}
use write_relay.Store.Queue.{Delivery}
use write_relay.Store.Marks.{
  is_current, delivered_row, mark_delivered, FailedAttempt, failed_row, is_pruned, update_live,
  mark_failed, is_redrivable, redriven_row, redrive_delivery,
}

-- `succeed`, `retry` and `die` leave a waiting row with the time of the attempt; `redrive` leaves a
-- dead one as if it had not been tried.
pub data Transition (a b : DeliveryRow) : Type 0 where
  stay : b ≡ a → Transition a b
  succeed :
      is_waiting a.state ≡ true
      → b.state ≡ delivered
      → (at : ℕ) × (b.delivered_at ≡ some at) × (b.last_attempt_at ≡ some at)
      → b.dead_lettered_at ≡ none
      → Transition a b
  retry :
      is_waiting a.state ≡ true
      → b.state ≡ retry_wait
      → b.delivered_at ≡ none
      → b.dead_lettered_at ≡ none
      → Transition a b
  die :
      is_waiting a.state ≡ true
      → b.state ≡ dead_letter
      → b.delivered_at ≡ none
      → (at : ℕ) × (b.dead_lettered_at ≡ some at) × (b.last_attempt_at ≡ some at)
      → Transition a b
  redrive :
      a.state ≡ dead_letter
      → b.state ≡ retry_wait
      → b.attempts ≡ 0
      → b.delivered_at ≡ none
      → b.dead_lettered_at ≡ none
      → Transition a b

-- Row by row, with the keys kept.
abbrev pub Moves : List DeliveryRow → List DeliveryRow → Type 0
Moves [] [] = Unit
Moves [] (b ∷ bs) = ⊥
Moves (a ∷ as') [] = ⊥
Moves (a ∷ as') (b ∷ bs) =
    (b.event_sequence ≡ a.event_sequence) × (b.sink_id ≡ a.sink_id) × Transition a b × Moves as' bs

Moves-refl : (ds : List DeliveryRow) → Moves ds ds
Moves-refl [] = tt
Moves-refl (d ∷ ds) = (refl, refl, stay refl, Moves-refl ds)

update-Moves :
    (p : DeliveryRow → Bool) (f : DeliveryRow → DeliveryRow) (ds : List DeliveryRow)
    → ((d : DeliveryRow)
        → p d ≡ true
        → ((f d).event_sequence ≡ d.event_sequence)
          × ((f d).sink_id ≡ d.sink_id)
          × Transition d (f d))
    → Moves ds (update p f ds)
update-Moves p f [] step = tt
update-Moves p f (d ∷ ds) step = elim (Bool-cases (p d)) [
  | inl hit ↦
      let (event, sink, moved) = step d hit in rw hit (event, sink, moved, update-Moves p f ds step)
  | inr miss ↦ rw miss (refl, refl, stay refl, update-Moves p f ds step)
]

update_live-Moves :
    (db : Db) (p : DeliveryRow → Bool) (f : DeliveryRow → DeliveryRow) (e : Error)
    → ((d : DeliveryRow)
        → p d ≡ true
        → ((f d).event_sequence ≡ d.event_sequence)
          × ((f d).sink_id ≡ d.sink_id)
          × Transition d (f d))
    → Moves db.deliveries (update_live db p f e).0.deliveries
unfolding update_live
update_live-Moves db p f e step =
    elim (Bool-cases (any (λ d. p d && is_pruned db.events d.event_sequence) db.deliveries)) [
      | inl aborted ↦ rw aborted (Moves-refl db.deliveries)
      | inr allowed ↦ rw allowed (update-Moves p f db.deliveries step)
    ]

failed_row-Transition :
    (f : FailedAttempt) (d : DeliveryRow)
    → is_waiting d.state ≡ true
    → Transition d (failed_row f d)
unfolding failed_row
failed_row-Transition f d waits = elim (Bool-cases f.permanent) [
  | inl yes' ↦ rw yes' (die waits refl refl (f.at, refl, refl))
  | inr no' ↦ rw no' (retry waits refl refl refl)
]

-- The operations of the worker and of the operator.
pub data Mark : Type 0 where
  delivers : Delivery → ℕ → ℕ → ℕ → Mark
  fails : Delivery → FailedAttempt → Mark
  redrives : String → String → String → ℕ → Mark

unfoldable pub mark : Db → Mark → Db × Result (Unit {0})
mark db (delivers item attempt status at) = mark_delivered db item attempt status at
mark db (fails item f) = mark_failed db item f
mark db (redrives sink_name source id at) = redrive_delivery db sink_name source id at

-- Whatever its arguments, and whether it succeeds or fails, each of the three operations moves every
-- delivery along the state machine or leaves it alone.
pub mark-Moves : (db : Db) (m : Mark) → Moves db.deliveries (mark db m).0.deliveries
unfolding mark mark_delivered mark_failed redrive_delivery
mark-Moves db (delivers item attempt status at) =
    update-Moves (is_current item) (delivered_row attempt status at) db.deliveries λ d current.
      unfold delivered_row in
      (refl, refl, succeed (ground (arith, current)) refl (at, refl, refl) refl)
mark-Moves db (fails item f) = update_live-Moves db (is_current item) (failed_row f) _ λ d current.
    (
      unfold failed_row in refl,
      unfold failed_row in refl,
      failed_row-Transition f d (ground (arith, current)),
    )
mark-Moves db (redrives sink_name source id at) =
    update_live-Moves db (is_redrivable db sink_name source id) (redriven_row at) _ λ d dead.
      unfold redriven_row in (refl, refl, redrive (ground (arith, dead)) refl refl refl refl)

-- A delivered row is final.
pub delivered_final : (a b : DeliveryRow) → Transition a b → a.state ≡ delivered → b ≡ a
delivered_final a b (stay e) d = e
delivered_final a b (succeed w _ _ _) d = absurd (ground (arith, w, d))
delivered_final a b (retry w _ _ _) d = absurd (ground (arith, w, d))
delivered_final a b (die w _ _ _) d = absurd (ground (arith, w, d))
delivered_final a b (redrive w _ _ _ _) d = absurd (ground (arith, w, d))
