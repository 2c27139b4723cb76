-- ===== src/Store/Stats/Waiting.antt =====
-- What waits for each sink and for all of them, and the oldest of it, to the second.
use mathlib.Core.List.{Memᴰ}
use write_relay.Prelude.{
  ℕ, ◌/◌, ◌≤◌, ◌≡◌, true, Option, none, some, List, [], ◌∷◌, arith, ◌==◌, ltb, All, All-mono,
  All-mem_self, minimum_by, minimum_by-All, minimum_by-measure, minimum_by-eq-none, if◌then◌else◌,
  Bool-cases, Option-cases, inl, inr,
}
use write_relay.Store.{EventRow, SinkRow, DeliveryRow, is_waiting}
use write_relay.Store.Owners.{owners}
use write_relay.Store.Queue.{waits_for, event_of_sequence}
use write_relay.Store.Stats.Written.{second, written_before}
use write_relay.Store.Stats.{WaitingStats, captured_of, waiting_captures, waiting_since, older}

-- When the events of all waiting deliveries were captured.
pub waiting_times : List EventRow → List DeliveryRow → List ℕ
waiting_times events [] = []
waiting_times events (d ∷ ds) =
    let rest = waiting_times events ds in
    if is_waiting d.state
    then captured_of (event_of_sequence d.event_sequence events) rest
    else rest

-- In the same second or before; none stands for a time after every other.
abbrev pub NotAfter : Option WaitingStats → ℕ → Type 0
NotAfter none time = ⊥
NotAfter (some w) time = w.captured_at / second ≤ time / second

abbrev pub OneOf : List ℕ → Option WaitingStats → Type 0
OneOf times none = Unit
OneOf times (some w) = Memᴰ w.captured_at times

pub waiting_since-NotAfter :
    (at : ℕ) (times : List ℕ)
    → All (NotAfter (waiting_since at (minimum_by written_before times))) times
      × OneOf times (waiting_since at (minimum_by written_before times))
unfolding written_before minimum_by
waiting_since-NotAfter at times = elim (Option-cases (minimum_by written_before times)) [
  | inl nothing ↦ let gone = minimum_by-eq-none written_before times nothing in rw gone (tt, tt)
  | inr (a, least) ↦ rw least (
    minimum_by-measure written_before (λ t. t / second) (λ x y h. ground arith)
        (λ x y h. ground arith) times least,
    minimum_by-All written_before (λ t. Memᴰ t times) times (All-mem_self times) least,
  )
]

pub older-NotAfter :
    (r w : Option WaitingStats) (time : ℕ)
    → (NotAfter r time → NotAfter (older r w) time) × (NotAfter w time → NotAfter (older r w) time)
older-NotAfter none none time = ground arith
older-NotAfter none (some w) time = ground arith
older-NotAfter (some r) none time = ground arith
older-NotAfter (some r) (some w) time = ground arith

pub older-OneOf :
    (times : List ℕ) (r w : Option WaitingStats)
    → OneOf times r
    → OneOf times w
    → OneOf times (older r w)
older-OneOf times r none hr hw = hr
older-OneOf times none (some w) hr hw = hw
older-OneOf times (some r) (some w) hr hw = elim (Bool-cases (ltb w.captured_at r.captured_at)) [
  | inl lt ↦ rw lt hw
  | inr ge ↦ rw ge hr
]

captured_of-OneOf :
    (o : Option EventRow) (xs ys : List ℕ) (t : ℕ)
    → (Memᴰ t xs → Memᴰ t ys)
    → Memᴰ t (captured_of o xs)
    → Memᴰ t (captured_of o ys)
captured_of-OneOf none xs ys t f m = f m
captured_of-OneOf (some e) xs ys t f (Memᴰ.head h) = Memᴰ.head h
captured_of-OneOf (some e) xs ys t f (Memᴰ.tail m) = Memᴰ.tail (f m)

captured_of-tail :
    (o : Option EventRow) (xs : List ℕ) (t : ℕ) → Memᴰ t xs → Memᴰ t (captured_of o xs)
captured_of-tail none xs t m = m
captured_of-tail (some e) xs t m = Memᴰ.tail m

pub waiting_captures-times :
    (sink_id : ℕ) (es : List EventRow) (ds : List DeliveryRow) (t : ℕ)
    → Memᴰ t (waiting_captures sink_id es ds)
    → Memᴰ t (waiting_times es ds)
unfolding waiting_captures waiting_times
waiting_captures-times sink_id es [] t m = m
waiting_captures-times sink_id es (d ∷ ds) t m = elim (Bool-cases (d.sink_id == sink_id)) [
  | inl mine ↦ elim (Bool-cases (is_waiting d.state)) [
    | inl waits ↦ rw waits (
        captured_of-OneOf (event_of_sequence d.event_sequence es) _ _ t
          (waiting_captures-times sink_id es ds t) (rw (mine, waits) at m))
    | inr rests ↦ rw rests (waiting_captures-times sink_id es ds t (rw (mine, rests) at m))
  ]
  | inr foreign ↦
      let there = waiting_captures-times sink_id es ds t (rw foreign at m) in
      elim (Bool-cases (is_waiting d.state)) [
        | inl waits ↦ rw waits (captured_of-tail (event_of_sequence d.event_sequence es) _ t there)
        | inr rests ↦ rw rests there
      ]
]

captures_tail :
    (w : Option WaitingStats) (es : List EventRow) (sink_id : ℕ) (d : DeliveryRow)
    (ds : List DeliveryRow)
    → All (NotAfter w) (waiting_captures sink_id es (d ∷ ds))
    → All (NotAfter w) (waiting_captures sink_id es ds)
unfolding waiting_captures
captures_tail w es sink_id d ds m = elim (Bool-cases (waits_for sink_id d)) [
  | inr passes ↦ rw passes at m
  | inl hit ↦ elim (Option-cases (event_of_sequence d.event_sequence es)) [
    | inl gone ↦ rw (hit, gone) at m
    | inr (e, there) ↦ (rw (hit, there) at m).1
  ]
]

captures_head :
    (w : Option WaitingStats) (es : List EventRow) (sink_id : ℕ) (d : DeliveryRow)
    (ds : List DeliveryRow) (e : EventRow)
    → waits_for sink_id d ≡ true
    → event_of_sequence d.event_sequence es ≡ some e
    → All (NotAfter w) (waiting_captures sink_id es (d ∷ ds))
    → NotAfter w e.captured_at
unfolding waiting_captures
captures_head w es sink_id d ds e hit there m = (rw (hit, there) at m).0

-- A delivery's event is among what waits for the delivery's sink.
owner_bounds :
    (w : Option WaitingStats) (es : List EventRow) (ss : List SinkRow) (d : DeliveryRow)
    (ds : List DeliveryRow) (e : EventRow)
    → is_waiting d.state ≡ true
    → event_of_sequence d.event_sequence es ≡ some e
    → owners d.sink_id ss ≡ 1
    → All (λ s. All (NotAfter w) (waiting_captures s.sink_id es (d ∷ ds))) ss
    → NotAfter w e.captured_at
owner_bounds w es [] d ds e waits there one h = absurd (omega arith)
owner_bounds w es (s ∷ ss) d ds e waits there one h = elim (Bool-cases (s.sink_id == d.sink_id)) [
  | inl same ↦
      let hit : waits_for s.sink_id d ≡ true = ground (arith, same, waits) in
      captures_head w es s.sink_id d ds e hit there h.0
  | inr differs ↦ owner_bounds w es ss d ds e waits there (ground (arith, differs, one)) h.1
]

-- A bound on what waits for each of the sinks bounds what waits at all.
pub waiting_times-NotAfter :
    (w : Option WaitingStats) (es : List EventRow) (ss : List SinkRow) (ds : List DeliveryRow)
    → All (λ s. All (NotAfter w) (waiting_captures s.sink_id es ds)) ss
    → All (λ d. owners d.sink_id ss ≡ 1) ds
    → All (NotAfter w) (waiting_times es ds)
unfolding waiting_times
waiting_times-NotAfter w es ss [] h o = tt
waiting_times-NotAfter w es ss (d ∷ ds) h o =
    let rest =
      waiting_times-NotAfter w es ss ds (All-mono (λ s m. captures_tail w es s.sink_id d ds m) ss h)
        o.1 in
    elim (Bool-cases (is_waiting d.state)) [
      | inr rests ↦ rw rests rest
      | inl waits ↦ rw waits (elim (Option-cases (event_of_sequence d.event_sequence es)) [
        | inl gone ↦ rw gone rest
        | inr (e, there) ↦ rw there (owner_bounds w es ss d ds e waits there o.0 h, rest)
      ])
    ]
