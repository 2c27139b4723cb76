-- ===== src/Store/Persist/Stored.antt =====
-- What a persisted event leaves in the tables: its row and its deliveries, which no later batch takes away.
use write_relay.Prelude.{
  ℕ, suc, ◌≤◌, ◌<◌, ◌≡◌, refl, sym, subst, ◌∙◌, true, false, ◌&&◌, inl, inr, Option, none, some,
  List, [], ◌∷◌, ◌++◌, arith, ◌==◌, any, All, All-append, All-mono, All-find, Bool-cases,
  if◌then◌else◌, any-append, find-append, eq_refl, false≢true, bytes_eq, bytes_eq_refl,
}
use write_relay.Spool.{CapturedEvent, CommittedBatch, ok, >>=-eq-ok}
use write_relay.Event.{Runtime}
use write_relay.Store.{
  EventRow, SinkRow, DeliveryRow, Db, has_key, has_identity, find_event, is_retained,
  insert_delivery, new_delivery,
}
use write_relay.Store.Persist.{
  validate_captured_event, event_row, Inserted, verify_replay, insert_from, insert_or_verify,
  insert_for_sinks, has_payload, ensure_deliveries_for_event, Progress, record_event, persist_event,
  persist_events,
}
use write_relay.Store.Persist.Growth.{
  Grows, insert_for_sinks-Appends, persist_event-Grows, persist_events-Grows,
}

-- The counter is above every sequence in use.
abbrev pub SequencesBelow : Db → Type 0
SequencesBelow db = All (λ e. e.sequence < db.next_sequence) db.events

pub Grows-SequencesBelow : {a b : Db} → Grows a b → SequencesBelow a → SequencesBelow b
Grows-SequencesBelow {a} {b} g v = rw g.events (
    All-append (λ e. e.sequence < b.next_sequence) a.events g.new_events
      (All-mono (λ e l. omega (arith, g.next_sequence)) a.events v)
      (All-mono (λ e l. l.1) g.new_events g.sequences))

-- Every active sink has a delivery of an event that keeps its payload.
abbrev pub HasDeliveries : ℕ → List DeliveryRow → List SinkRow → Type 0
HasDeliveries sequence ds = All (λ s. s.active ≡ true → any (has_key sequence s.sink_id) ds ≡ true)

-- The event is in the table with this digest, and has its deliveries.
pub record Stored (db : Db) (e : CapturedEvent) : Type 0 where
  pub row : EventRow
  pub found : find_event e.source e.id db.events ≡ some row
  pub same_digest : bytes_eq row.payload_sha256 e.payload_sha256 ≡ true
  pub deliveries :
      has_payload row.sequence db.events ≡ true → HasDeliveries row.sequence db.deliveries db.sinks

any_new :
    (sequence n : ℕ) (es : List EventRow)
    → sequence < n
    → All (λ (e : EventRow). n ≤ e.sequence) es
    → has_payload sequence es ≡ false
any_new sequence n [] h v = refl
any_new sequence n (e ∷ es) h v = ground (arith, any_new sequence n es h v.1)

has_payload-Grows :
    {a b : Db} (sequence : ℕ)
    → Grows a b
    → sequence < a.next_sequence
    → has_payload sequence b.events ≡ has_payload sequence a.events
has_payload-Grows {a} {b} sequence g h =
    rw
      (
        g.events,
        any-append (λ e. e.sequence == sequence && is_retained e) a.events g.new_events,
        any_new sequence a.next_sequence g.new_events h
            (All-mono (λ e l. l.0) g.new_events g.sequences),
      )
      (ground arith)

any-Grows :
    {a b : Db} (sequence sink_id : ℕ)
    → Grows a b
    → any (has_key sequence sink_id) a.deliveries ≡ true
    → any (has_key sequence sink_id) b.deliveries ≡ true
any-Grows {a} {b} sequence sink_id g h =
    rw (g.deliveries, any-append (has_key sequence sink_id) a.deliveries g.new_deliveries)
      (ground arith)

pub Stored-Grows :
    {a b : Db} (e : CapturedEvent) → SequencesBelow a → Grows a b → Stored a e → Stored b e
Stored-Grows {a} {b} e v g s = record {
  row = s.row;
  found =
      rw (g.events, find-append (has_identity e.source e.id) a.events g.new_events)
        (ground (arith, s.found));
  same_digest = s.same_digest;
  deliveries = λ there.
      let below : s.row.sequence < a.next_sequence =
        All-find (λ r. r.sequence < a.next_sequence) (has_identity e.source e.id) a.events v
          s.found in
      rw g.sinks (
        All-mono (λ k has active. any-Grows s.row.sequence k.sink_id g (has active)) a.sinks
          (s.deliveries (sym (has_payload-Grows s.row.sequence g below) ∙ there)));
}

any-insert_delivery :
    (now sequence sink_id : ℕ) (ds : List DeliveryRow)
    → any (has_key sequence sink_id) (insert_delivery now sequence sink_id ds) ≡ true
unfolding insert_delivery
any-insert_delivery now sequence sink_id ds =
    ground
      (arith, any-append (has_key sequence sink_id) ds (new_delivery now sequence sink_id ∷ []))

insert_for_sinks-keeps :
    (now sequence sink_id : ℕ) (ss : List SinkRow) (ds : List DeliveryRow)
    → any (has_key sequence sink_id) ds ≡ true
    → any (has_key sequence sink_id) (insert_for_sinks now sequence ss ds) ≡ true
insert_for_sinks-keeps now sequence sink_id ss ds h =
    let (new, e, _) = insert_for_sinks-Appends now sequence ss ds in
    rw (e, any-append (has_key sequence sink_id) ds new) (ground arith)

insert_for_sinks-HasDeliveries :
    (now sequence : ℕ) (ss : List SinkRow) (ds : List DeliveryRow)
    → HasDeliveries sequence (insert_for_sinks now sequence ss ds) ss
unfolding insert_for_sinks
insert_for_sinks-HasDeliveries now sequence [] ds = tt
insert_for_sinks-HasDeliveries now sequence (s ∷ ss) ds = (
  λ active. rw active (
      insert_for_sinks-keeps now sequence s.sink_id ss _
        (any-insert_delivery now sequence s.sink_id ds)),
  insert_for_sinks-HasDeliveries now sequence ss
      (if s.active then insert_delivery now sequence s.sink_id ds else ds),
)

pub insert_for_sinks_again :
    (now sequence : ℕ) (ss : List SinkRow) (ds : List DeliveryRow)
    → HasDeliveries sequence ds ss
    → insert_for_sinks now sequence ss ds ≡ ds
unfolding insert_for_sinks insert_delivery
insert_for_sinks_again now sequence [] ds h = refl
insert_for_sinks_again now sequence (s ∷ ss) ds h = elim (Bool-cases s.active) [
  | inl active ↦ rw (active, h.0 active) (insert_for_sinks_again now sequence ss ds h.1)
  | inr idle ↦ rw idle (insert_for_sinks_again now sequence ss ds h.1)
]

-- The row that stands for the event after it was inserted or found.
insert_from-found :
    (now : ℕ) (db : Db) (e : CapturedEvent) (o : Option EventRow) {i : Inserted}
    → find_event e.source e.id db.events ≡ o
    → insert_from now db e o ≡ ok i
    → (row : EventRow) × (find_event e.source e.id i.db.events ≡ some row)
      × (bytes_eq row.payload_sha256 e.payload_sha256 ≡ true)
      × (row.sequence ≡ i.sequence)
unfolding insert_from verify_replay event_row
insert_from-found now db e none {i} f h = (
  event_row now db.next_sequence e,
  let grown : db.events ++ event_row now db.next_sequence e ∷ [] ≡ i.db.events = ground arith in
      rw
        (
          ← grown,
          find-append (has_identity e.source e.id) db.events
              (event_row now db.next_sequence e ∷ []),
        )
        (ground (arith, f, eq_refl e.source, eq_refl e.id)),
  bytes_eq_refl e.payload_sha256,
  ground arith,
)
insert_from-found now db e (some row) {i} f h = (row, ground (arith, f), ground arith, ground arith)

ensure_deliveries_for_event-HasDeliveries :
    (now sequence : ℕ) (db : Db)
    → ((ensure_deliveries_for_event now sequence db).events ≡ db.events)
      × (has_payload sequence db.events ≡ true
          → HasDeliveries sequence
              (ensure_deliveries_for_event now sequence db).deliveries
              (ensure_deliveries_for_event now sequence db).sinks)
unfolding ensure_deliveries_for_event
ensure_deliveries_for_event-HasDeliveries now sequence db =
    elim (Bool-cases (has_payload sequence db.events)) [
      | inl there ↦
          rw there (refl, λ _. insert_for_sinks-HasDeliveries now sequence db.sinks db.deliveries)
      | inr gone ↦ rw gone (refl, λ there. absurd (false≢true there))
    ]

module _ (rt : Runtime) (clock : ℕ → ℕ) (batch : CommittedBatch) where
  persist_event-Stored :
      (p : Progress) (e : CapturedEvent) (index : ℕ) {q : Progress}
      → persist_event rt clock batch p e index ≡ ok q
      → Stored q.db e
  unfolding persist_event record_event insert_or_verify
  persist_event-Stored p e index {q} h =
      let (_, _, rest) = >>=-eq-ok (validate_captured_event rt batch e index) _ h in
      let (i, inserted, done) = >>=-eq-ok (insert_or_verify (clock index) p.db e) _ rest in
      let same : ensure_deliveries_for_event (clock index) i.sequence i.db ≡ q.db = ground arith in
      let (row, found, digest, at) =
        insert_from-found (clock index) p.db e (find_event e.source e.id p.db.events) refl
          inserted in
      let (kept, has) = ensure_deliveries_for_event-HasDeliveries (clock index) i.sequence i.db in
      subst (λ db. Stored db e) same
        (record {
          row = row;
          found = rw kept found;
          same_digest = digest;
          deliveries = rw (kept, at) has;
        })

  pub persist_events-Stored :
      (p : Progress) (es : List CapturedEvent) (index : ℕ) {q : Progress}
      → SequencesBelow p.db
      → persist_events rt clock batch p es index ≡ ok q
      → All (Stored q.db) es
  unfolding persist_events
  persist_events-Stored p [] index v h = tt
  persist_events-Stored p (e ∷ es) index {q} v h =
      let (r, first, rest) = >>=-eq-ok (persist_event rt clock batch p e index) _ h in
      let v' : SequencesBelow r.db =
        Grows-SequencesBelow (persist_event-Grows rt clock batch p e index first) v in
      (
        Stored-Grows e v' (persist_events-Grows rt clock batch r es (suc index) {q = q} rest)
            (persist_event-Stored p e index first),
        persist_events-Stored r es (suc index) {q = q} v' rest,
      )
