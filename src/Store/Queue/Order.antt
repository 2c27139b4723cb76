-- ===== src/Store/Queue/Order.antt =====
-- Which delivery comes next: the oldest waiting one of its sink, due, and first among the sinks.
use mathlib.Core.List.{Memᴰ}
use write_relay.Prelude.{
  ℕ, ◌≤◌, ◌≡◌, refl, sym, subst, ◌∙◌, Bool, true, false, ◌&&◌, Option, none, some, List, [], ◌∷◌,
  arith, leb, select, minimum_by-All, minimum_by-eq-none, select-mem, mem-not-nil, ◌≢◌,
  minimum_by-least, All, All-append, Bool-cases, inl, inr, if◌then◌else◌, All-select_mem,
  false≢true,
}
use write_relay.Store.{EventRow, SinkRow, DeliveryRow, is_waiting}
use write_relay.Store.Queue.{
  Candidate, waits_for, earlier, head_delivery, event_of_sequence, join_event, join_head,
  candidates,
}

-- No waiting row of the sink is older.
abbrev pub IsHead : ℕ → ℕ → List DeliveryRow → Type 0
IsHead sequence sink_id = All (λ d. waits_for sink_id d ≡ true → sequence ≤ d.event_sequence)

earlier_irrefl : (a : DeliveryRow) → earlier a a ≡ false
earlier_irrefl a = ground arith

earlier_trans :
    (a b c : DeliveryRow) → earlier b a ≡ false → earlier c b ≡ false → earlier c a ≡ false
earlier_trans a b c h k = ground arith

earlier_asym : (a b : DeliveryRow) → earlier a b ≡ true → earlier b a ≡ false
earlier_asym a b h = ground arith

select-IsHead :
    (sink_id : ℕ) (x : DeliveryRow) (ds : List DeliveryRow)
    → All (λ d. earlier d x ≡ false) (select (waits_for sink_id) ds)
    → IsHead x.event_sequence sink_id ds
select-IsHead sink_id x [] h = tt
select-IsHead sink_id x (d ∷ ds) h = elim (Bool-cases (waits_for sink_id d)) [
  | inl hit ↦
      let (le, rest) =
        subst
          (λ (b : Bool).
            All (λ (e : DeliveryRow). earlier e x ≡ false)
              (if b then d ∷ select (waits_for sink_id) ds else select (waits_for sink_id) ds))
          hit h in
      (λ _. ground (arith, le), select-IsHead sink_id x ds rest)
  | inr miss ↦
      let rest =
        subst
          (λ (b : Bool).
            All (λ (e : DeliveryRow). earlier e x ≡ false)
              (if b then d ∷ select (waits_for sink_id) ds else select (waits_for sink_id) ds))
          miss h in
      (λ waits. absurd (false≢true (sym miss ∙ waits)), select-IsHead sink_id x ds rest)
]

-- The subquery's row waits for the sink, and none that waits for it is older.
pub record IsHeadRow (sink_id : ℕ) (ds : List DeliveryRow) (d : DeliveryRow) : Type 0 where
  pub member : Memᴰ d ds
  pub of_sink : d.sink_id ≡ sink_id
  pub waiting : is_waiting d.state ≡ true
  pub oldest : IsHead d.event_sequence sink_id ds

pub head_delivery-IsHeadRow :
    (sink_id : ℕ) (ds : List DeliveryRow) {d : DeliveryRow}
    → head_delivery sink_id ds ≡ some d
    → IsHeadRow sink_id ds d
unfolding head_delivery
head_delivery-IsHeadRow sink_id ds {d} e =
    let rows : List DeliveryRow = select (waits_for sink_id) ds in
    let (member, waits) =
      minimum_by-All earlier (λ x. Memᴰ x ds × (waits_for sink_id x ≡ true)) rows
        (All-select_mem (waits_for sink_id) ds) e in
    record {
      member = member;
      of_sink = ground (arith, waits);
      waiting = ground (arith, waits);
      oldest =
          select-IsHead sink_id d ds
            (minimum_by-least earlier earlier_irrefl earlier_trans earlier_asym rows e);
    }

pub head_delivery_exists :
    (sink_id : ℕ) (ds : List DeliveryRow) {d : DeliveryRow}
    → Memᴰ d ds
    → waits_for sink_id d ≡ true
    → head_delivery sink_id ds ≢ none
unfolding head_delivery
head_delivery_exists sink_id ds m waits e =
    mem-not-nil _ (select (waits_for sink_id) ds) (select-mem (waits_for sink_id) _ ds waits m)
      (minimum_by-eq-none earlier (select (waits_for sink_id) ds) e)

module _ (now : ℕ) (events : List EventRow) (ds : List DeliveryRow) where
  pub record IsCandidate (ss : List SinkRow) (c : Candidate) : Type 0 where
    pub sink_known : Memᴰ c.sink ss
    pub sink_active : c.sink.active ≡ true
    pub head : head_delivery c.sink.sink_id ds ≡ some c.delivery
    pub due : c.delivery.next_attempt_at ≤ now
    pub event : event_of_sequence c.delivery.event_sequence events ≡ some c.event

  join_event-IsCandidate :
      (ss : List SinkRow) (s : SinkRow) (d : DeliveryRow) (o : Option EventRow)
      → Memᴰ s ss
      → s.active ≡ true
      → head_delivery s.sink_id ds ≡ some d
      → d.next_attempt_at ≤ now
      → event_of_sequence d.event_sequence events ≡ o
      → All (IsCandidate ss) (join_event s d o)
  unfolding join_event
  join_event-IsCandidate ss s d none m a h le e = tt
  join_event-IsCandidate ss s d (some x) m a h le e =
      (record { sink_known = m; sink_active = a; head = h; due = le; event = e }, tt)

  join_head-IsCandidate :
      (ss : List SinkRow) (s : SinkRow) (o : Option DeliveryRow)
      → Memᴰ s ss
      → head_delivery s.sink_id ds ≡ o
      → All (IsCandidate ss) (join_head now events s o)
  unfolding join_head
  join_head-IsCandidate ss s none m h = tt
  join_head-IsCandidate ss s (some d) m h =
      elim (Bool-cases (s.active && leb d.next_attempt_at now)) [
        | inl both ↦
            rw both (
              join_event-IsCandidate ss s d _ m (ground (arith, both)) h (ground (arith, both))
                refl)
        | inr not_yet ↦ rw not_yet tt
      ]

  pub candidates-IsCandidate :
      (ss rest : List SinkRow)
      → All (λ s. Memᴰ s ss) rest
      → All (IsCandidate ss) (candidates now events ds rest)
  unfolding candidates
  candidates-IsCandidate ss [] m = tt
  candidates-IsCandidate ss (s ∷ rest) m =
      All-append (IsCandidate ss) (join_head now events s (head_delivery s.sink_id ds)) _
        (join_head-IsCandidate ss s (head_delivery s.sink_id ds) m.0 refl)
        (candidates-IsCandidate ss rest m.1)
