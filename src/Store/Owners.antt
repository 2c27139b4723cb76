-- ===== src/Store/Owners.antt =====
-- The foreign key of deliveries and the primary key of sinks: each row has exactly one sink.
use write_relay.Prelude.{
  ℕ, suc, ◌+◌, ◌<◌, ◌≡◌, refl, ◌∙◌, Bool, List, [], ◌∷◌, ◌++◌, arith, ◌==◌, any, count, update, All,
  All-append, All-mono, All-update, Bool-cases, inl, inr,
}
use write_relay.Store.{
  EventRow, SinkRow, DeliveryRow, Db, has_key, insert_delivery, new_delivery, is_retained,
}
use write_relay.Store.Persist.{insert_for_sinks}
use write_relay.Store.Marks.Transitions.{Moves}
use write_relay.Store.Sinks.{backfill}

abbrev pub owners : ℕ → List SinkRow → ℕ
owners sink_id = count (λ s. s.sink_id == sink_id)

-- Sinks have distinct ids below the counter, and the sink of a delivery is one of them.
pub record Owned (db : Db) : Type 0 where
  pub below : All (λ s. s.sink_id < db.next_sink_id) db.sinks
  pub single : All (λ s. owners s.sink_id db.sinks ≡ 1) db.sinks
  pub deliveries : All (λ d. owners d.sink_id db.sinks ≡ 1) db.deliveries

owners-append :
    (sink_id : ℕ) (ss ts : List SinkRow)
    → owners sink_id (ss ++ ts) ≡ owners sink_id ss + owners sink_id ts
owners-append sink_id [] ts = ground arith
owners-append sink_id (s ∷ ss) ts = ground (arith, owners-append sink_id ss ts)

pub owners-switch :
    (sink_id : ℕ) (p : SinkRow → Bool) (active : Bool) (ss : List SinkRow)
    → owners sink_id (update p (λ s. record s { active = active }) ss) ≡ owners sink_id ss
owners-switch sink_id p active [] = refl
owners-switch sink_id p active (s ∷ ss) = ground (arith, owners-switch sink_id p active ss)

owners_unused : (n : ℕ) (ss : List SinkRow) → All (λ s. s.sink_id < n) ss → owners n ss ≡ 0
owners_unused n [] h = refl
owners_unused n (s ∷ ss) h = ground (arith, owners_unused n ss h.1, h.0)

owners_used :
    (n sink_id : ℕ) (ss : List SinkRow)
    → All (λ s. s.sink_id < n) ss
    → owners sink_id ss ≡ 1
    → sink_id < n
owners_used n sink_id [] h one = absurd (omega arith)
owners_used n sink_id (s ∷ ss) h one = ground (arith, h.0, owners_used n sink_id ss h.1)

insert_delivery-owners :
    (now sequence sink_id : ℕ) (ss : List SinkRow) (ds : List DeliveryRow)
    → owners sink_id ss ≡ 1
    → All (λ d. owners d.sink_id ss ≡ 1) ds
    → All (λ d. owners d.sink_id ss ≡ 1) (insert_delivery now sequence sink_id ds)
unfolding insert_delivery
insert_delivery-owners now sequence sink_id ss ds one h =
    elim (Bool-cases (any (has_key sequence sink_id) ds)) [
      | inl taken ↦ rw taken h
      | inr free ↦ rw free (
          All-append (λ (d : DeliveryRow). owners d.sink_id ss ≡ 1) ds
            (new_delivery now sequence sink_id ∷ []) h (one, tt))
    ]

pub insert_for_sinks-owners :
    (now sequence : ℕ) (all ss : List SinkRow) (ds : List DeliveryRow)
    → All (λ s. owners s.sink_id all ≡ 1) ss
    → All (λ d. owners d.sink_id all ≡ 1) ds
    → All (λ d. owners d.sink_id all ≡ 1) (insert_for_sinks now sequence ss ds)
unfolding insert_for_sinks
insert_for_sinks-owners now sequence all [] ds u h = h
insert_for_sinks-owners now sequence all (s ∷ ss) ds u h = elim (Bool-cases s.active) [
  | inl active ↦ rw active (
      insert_for_sinks-owners now sequence all ss (insert_delivery now sequence s.sink_id ds) u.1
        (insert_delivery-owners now sequence s.sink_id all ds u.0 h))
  | inr idle ↦ rw idle (insert_for_sinks-owners now sequence all ss ds u.1 h)
]

pub backfill-owners :
    (now sink_id : ℕ) (ss : List SinkRow) (es : List EventRow) (ds : List DeliveryRow)
    → owners sink_id ss ≡ 1
    → All (λ d. owners d.sink_id ss ≡ 1) ds
    → All (λ d. owners d.sink_id ss ≡ 1) (backfill now sink_id es ds)
unfolding backfill
backfill-owners now sink_id ss [] ds one h = h
backfill-owners now sink_id ss (e ∷ es) ds one h =
    let after = insert_delivery-owners now e.sequence sink_id ss ds one h in
    elim (Bool-cases (is_retained e)) [
      | inl kept ↦
          rw kept (
            backfill-owners now sink_id ss es (insert_delivery now e.sequence sink_id ds) one after)
      | inr pruned ↦ rw pruned (backfill-owners now sink_id ss es ds one h)
    ]

pub Moves-owners :
    (ss : List SinkRow) (ds es : List DeliveryRow)
    → Moves ds es
    → All (λ d. owners d.sink_id ss ≡ 1) ds
    → All (λ d. owners d.sink_id ss ≡ 1) es
Moves-owners ss [] [] m h = tt
Moves-owners ss [] (_ ∷ _) m h = absurd m
Moves-owners ss (_ ∷ _) [] m h = absurd m
Moves-owners ss (d ∷ ds) (e ∷ es) m h = (rw m.1 h.0, Moves-owners ss ds es m.3 h.1)

-- A new sink takes the id of the counter.
pub add-Owned :
    (db : Db) (s : SinkRow)
    → s.sink_id ≡ db.next_sink_id
    → Owned db
    → Owned (record db { sinks = db.sinks ++ s ∷ []; next_sink_id = suc db.next_sink_id })
      × (owners s.sink_id (db.sinks ++ s ∷ []) ≡ 1)
add-Owned db s new o = (
  record {
    below =
        All-append _ db.sinks (s ∷ []) (All-mono (λ t lt. omega (arith, lt)) db.sinks o.below)
          (omega (arith, new), tt);
    single =
        All-append _ db.sinks (s ∷ []) (All-mono (λ t one. stays t.sink_id one) db.sinks o.single)
          (own, tt);
    deliveries = All-mono (λ d one. stays d.sink_id one) db.deliveries o.deliveries;
  },
  own,
)
  where
    own : owners s.sink_id (db.sinks ++ s ∷ []) ≡ 1
    own = ground (
      arith,
      new,
      owners-append s.sink_id db.sinks (s ∷ []),
      owners_unused db.next_sink_id db.sinks o.below,
    )

    stays : (sink_id : ℕ) → owners sink_id db.sinks ≡ 1 → owners sink_id (db.sinks ++ s ∷ []) ≡ 1
    stays sink_id one = ground (
      arith,
      new,
      one,
      owners-append sink_id db.sinks (s ∷ []),
      owners_used db.next_sink_id sink_id db.sinks o.below one,
    )

pub switch-Owned :
    (db : Db) (p : SinkRow → Bool) (active : Bool)
    → Owned db
    → Owned (record db { sinks = update p (λ s. record s { active = active }) db.sinks })
switch-Owned db p active o = record {
  below = All-update _ p (λ s. record s { active = active }) (λ s hit lt. lt) db.sinks o.below;
  single =
      All-mono (λ s one. owners-switch s.sink_id p active db.sinks ∙ one)
        (update p (λ s. record s { active = active }) db.sinks)
        (All-update (λ (s : SinkRow). owners s.sink_id db.sinks ≡ 1) p
          (λ s. record s { active = active }) (λ s hit one. one) db.sinks o.single);
  deliveries =
      All-mono (λ d one. owners-switch d.sink_id p active db.sinks ∙ one) db.deliveries
        o.deliveries;
}
