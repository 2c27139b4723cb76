-- ===== src/Store/Queue/Next.antt =====
-- `NextDueDelivery` returns the right delivery, and returns none only when there is none to return.
use mathlib.Core.List.{Memᴰ}
use write_relay.Prelude.{
  ℕ, ◌≤◌, ◌<◌, ◌≡◌, refl, sym, subst, ◌∙◌, true, false, Option, none, some, List, [], ◌∷◌, ◌++◌,
  arith, ◌==◌, find_holds, minimum_by, minimum_by-All, minimum_by-least, minimum_by-eq-none, All,
  All-mono, All-mem, All-mem_self, find-mem, Option-cases, inl, inr, ==_iff,
}
use write_relay.Store.{EventRow, SinkRow, DeliveryRow, Db, is_waiting}
use write_relay.Store.Queue.{
  Delivery, Candidate, waits_for, head_delivery, event_of_sequence, join_event, join_head,
  candidates, before, delivery_of, next_due_delivery,
}
use write_relay.Store.Queue.Order.{
  IsHead, head_delivery-IsHeadRow, head_delivery_exists, IsCandidate, candidates-IsCandidate,
}

before_irrefl : (a : Candidate) → before a a ≡ false
before_irrefl a = ground arith

before_trans : (a b c : Candidate) → before b a ≡ false → before c b ≡ false → before c a ≡ false
before_trans a b c h k = ground arith

before_asym : (a b : Candidate) → before a b ≡ true → before b a ≡ false
before_asym a b h = ground arith

-- What makes a delivery the next one.
pub record IsNext (now : ℕ) (db : Db) (item : Delivery) : Type 0 where
  pub sink : SinkRow
  pub sink_known : Memᴰ sink db.sinks
  pub sink_active : sink.active ≡ true
  pub sink_id : sink.sink_id ≡ item.sink_id
  pub sink_name : sink.sink_name ≡ item.sink_name
  pub row : DeliveryRow
  pub row_known : Memᴰ row db.deliveries
  pub row_sequence : row.event_sequence ≡ item.event_sequence
  pub row_sink : row.sink_id ≡ item.sink_id
  pub row_attempts : row.attempts ≡ item.attempts
  pub waiting : is_waiting row.state ≡ true
  pub due : row.next_attempt_at ≤ now
  pub oldest : IsHead item.event_sequence item.sink_id db.deliveries
  pub event : EventRow
  pub event_known : Memᴰ event db.events
  pub event_sequence : event.sequence ≡ item.event_sequence
  pub event_source : event.source ≡ item.source
  pub event_id : event.id ≡ item.id
  pub event_payload : event.payload ≡ item.payload
  pub first :
      All
        (λ (c : Candidate). item.event_sequence ≤ c.event.sequence)
        (candidates now db.events db.deliveries db.sinks)

candidate-IsNext :
    (now : ℕ) (db : Db) (c : Candidate)
    → IsCandidate now db.events db.deliveries db.sinks c
    → All (λ x. before x c ≡ false) (candidates now db.events db.deliveries db.sinks)
    → IsNext now db (delivery_of c)
unfolding delivery_of
candidate-IsNext now db c k least =
    let head = head_delivery-IsHeadRow c.sink.sink_id db.deliveries k.head in
    let same : c.event.sequence ≡ c.delivery.event_sequence =
      (==_iff _ _).0
        (find_holds (λ e. e.sequence == c.delivery.event_sequence) db.events k.event) in
    record {
      sink = c.sink;
      sink_known = k.sink_known;
      sink_active = k.sink_active;
      sink_id = refl;
      sink_name = refl;
      row = c.delivery;
      row_known = head.member;
      row_sequence = sym same;
      row_sink = head.of_sink;
      row_attempts = refl;
      waiting = head.waiting;
      due = k.due;
      oldest = rw same head.oldest;
      event = c.event;
      event_known = find-mem (λ e. e.sequence == c.delivery.event_sequence) db.events k.event;
      event_sequence = refl;
      event_source = refl;
      event_id = refl;
      event_payload = refl;
      first = All-mono (λ x h. ground arith) _ least;
    }

-- A delivery that is returned is waiting and due, belongs to an active sink, carries its event's
-- identity and payload, is the oldest that waits for its sink, and is the oldest among the due heads.
pub next_due_delivery-IsNext :
    (now : ℕ) (db : Db) {item : Delivery}
    → next_due_delivery now db ≡ some item
    → IsNext now db item
unfolding next_due_delivery
next_due_delivery-IsNext now db {item} e =
    let cs : List Candidate = candidates now db.events db.deliveries db.sinks in
    elim (Option-cases (minimum_by before cs)) [
      | inl nothing ↦ absurd (ground (arith, nothing))
      | inr (c, found) ↦
          let same : delivery_of c ≡ item = ground (arith, found) in
          subst (IsNext now db) same (
            candidate-IsNext now db c
              (minimum_by-All before (IsCandidate now db.events db.deliveries db.sinks) cs
                (candidates-IsCandidate now db.events db.deliveries db.sinks db.sinks
                  (All-mem_self db.sinks))
                found)
              (minimum_by-least before before_irrefl before_trans before_asym cs found))
    ]

-- Every delivery's event is in the table: the foreign key.
abbrev pub HasEvents : List EventRow → List DeliveryRow → Type 0
HasEvents events = All (λ d. (e : EventRow) × (event_of_sequence d.event_sequence events ≡ some e))

-- The sink has nothing to send now.
abbrev IsIdle : ℕ → Db → SinkRow → Type 0
IsIdle now db s =
    s.active ≡ true
    → (d : DeliveryRow) → head_delivery s.sink_id db.deliveries ≡ some d
    → now < d.next_attempt_at

append-eq-nil {ℓ} : {A : Type ℓ} (xs ys : List A) → xs ++ ys ≡ [] → (xs ≡ []) × (ys ≡ [])
append-eq-nil [] ys e = (refl, e)
append-eq-nil (x ∷ xs) ys e = cc

join_head_none :
    (now : ℕ) (db : Db) (s : SinkRow) (d : DeliveryRow) (e : EventRow)
    → event_of_sequence d.event_sequence db.events ≡ some e
    → s.active ≡ true
    → join_head now db.events s (some d) ≡ []
    → now < d.next_attempt_at
unfolding join_head join_event
join_head_none now db s d e found active none_due = ground (arith, found)

candidates_none :
    (now : ℕ) (db : Db) (ss : List SinkRow)
    → HasEvents db.events db.deliveries
    → candidates now db.events db.deliveries ss ≡ []
    → All (IsIdle now db) ss
unfolding candidates
candidates_none now db [] keys e = tt
candidates_none now db (s ∷ ss) keys e =
    let (mine, others) =
      append-eq-nil (join_head now db.events s (head_delivery s.sink_id db.deliveries)) _ e in
    (
      λ active d head.
          let (x, found) =
            All-mem (λ r. (y : EventRow) × (event_of_sequence r.event_sequence db.events ≡ some y))
              db.deliveries keys (head_delivery-IsHeadRow s.sink_id db.deliveries head).member in
          join_head_none now db s d x found active
            (subst (λ (o : Option DeliveryRow). join_head now db.events s o ≡ []) head mine),
      candidates_none now db ss keys others,
    )

-- The delivery waits behind one of its sink, which is itself or one that is no younger, and whose time
-- has not come.
pub record IsHeld (now : ℕ) (db : Db) (d : DeliveryRow) : Type 0 where
  pub blocker : DeliveryRow
  pub member : Memᴰ blocker db.deliveries
  pub same_sink : blocker.sink_id ≡ d.sink_id
  pub waiting : is_waiting blocker.state ≡ true
  pub no_younger : blocker.event_sequence ≤ d.event_sequence
  pub not_due : now < blocker.next_attempt_at

head-IsHeld :
    (now : ℕ) (db : Db) (s : SinkRow) (d : DeliveryRow)
    → IsIdle now db s
    → s.active ≡ true
    → Memᴰ d db.deliveries
    → d.sink_id ≡ s.sink_id
    → is_waiting d.state ≡ true
    → IsHeld now db d
head-IsHeld now db s d idle active member of_sink waiting =
    elim (Option-cases (head_delivery s.sink_id db.deliveries)) [
      | inl none_waits ↦ absurd (
          head_delivery_exists s.sink_id db.deliveries member (ground (arith, of_sink, waiting))
            none_waits)
      | inr (h, found) ↦
          let head = head_delivery-IsHeadRow s.sink_id db.deliveries found in
          record {
            blocker = h;
            member = head.member;
            same_sink = head.of_sink ∙ sym of_sink;
            waiting = head.waiting;
            no_younger =
                All-mem (λ r. waits_for s.sink_id r ≡ true → h.event_sequence ≤ r.event_sequence)
                  db.deliveries head.oldest member (ground (arith, of_sink, waiting));
            not_due = idle active h found;
          }
    ]

-- If every delivery belongs to an event and no delivery is returned, then every waiting delivery of an
-- active sink waits for its own time, or behind one of its sink that is no younger and waits for its own.
pub next_due_delivery-none :
    (now : ℕ) (db : Db)
    → HasEvents db.events db.deliveries
    → next_due_delivery now db ≡ none
    → (s : SinkRow) → Memᴰ s db.sinks
    → s.active ≡ true
    → (d : DeliveryRow) → Memᴰ d db.deliveries
    → d.sink_id ≡ s.sink_id
    → is_waiting d.state ≡ true
    → IsHeld now db d
unfolding next_due_delivery
next_due_delivery-none now db keys e s known active d member of_sink waiting =
    let idle = candidates_none now db db.sinks keys (
      minimum_by-eq-none before (candidates now db.events db.deliveries db.sinks)
        (ground (arith, e))) in
    head-IsHeld now db s d (All-mem (IsIdle now db) db.sinks idle known) active member of_sink
      waiting
