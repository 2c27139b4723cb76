-- ===== src/Store/Persist/Growth.antt =====
-- What `PersistCommittedBatch` adds to the tables, and that it changes nothing else.
use mathlib.Core.List.{append_assoc, append-nil}
use write_relay.Prelude.{
  ℕ, suc, ◌≤◌, ◌<◌, ◌≡◌, refl, subst, ◌∙◌, Bool, true, false, inl, inr, Option, none, some, List,
  [], ◌∷◌, ◌++◌, arith, any, All, All-append, All-mono, Bool-cases, if◌then◌else◌, bytes_eq,
}
use write_relay.Spool.{CapturedEvent, CommittedBatch, ok, >>=-eq-ok}
use write_relay.Event.{Runtime}
use write_relay.Store.{
  EventRow, SinkRow, DeliveryRow, pending, Db, has_key, find_event, insert_delivery, new_delivery,
}
use write_relay.Store.Persist.{
  validate_captured_event, event_row, Inserted, verify_replay, insert_from, insert_or_verify,
  insert_for_sinks, ensure_deliveries_for_event, has_payload, Progress, record_event, persist_event,
  persist_events,
}

-- A delivery as an INSERT leaves it.
abbrev pub IsNew : DeliveryRow → Type 0
IsNew d = (d.state ≡ pending) × (d.attempts ≡ 0)

-- The rows that were there stand at the front, unchanged; new deliveries are pending.
pub record Grows (a b : Db) : Type 0 where
  pub new_events : List EventRow
  pub events : b.events ≡ a.events ++ new_events
  pub sequences :
      All (λ e. (a.next_sequence ≤ e.sequence) × (e.sequence < b.next_sequence)) new_events
  pub new_deliveries : List DeliveryRow
  pub deliveries : b.deliveries ≡ a.deliveries ++ new_deliveries
  pub pending_rows : All IsNew new_deliveries
  pub next_sequence : a.next_sequence ≤ b.next_sequence
  pub sinks : b.sinks ≡ a.sinks
  pub next_sink_id : b.next_sink_id ≡ a.next_sink_id
  pub checkpoint : b.checkpoint ≡ a.checkpoint

pub Grows-refl : (a : Db) → Grows a a
Grows-refl a = record {
  new_events = [];
  events = rw append-nil;
  sequences = tt;
  new_deliveries = [];
  deliveries = rw append-nil;
  pending_rows = tt;
  next_sequence = omega arith;
  sinks = refl;
  next_sink_id = refl;
  checkpoint = refl;
}

pub Grows-trans : {a b c : Db} → Grows a b → Grows b c → Grows a c
Grows-trans {a} {b} {c} g h = record {
  new_events = g.new_events ++ h.new_events;
  events = h.events ∙ rw g.events (append_assoc a.events g.new_events h.new_events);
  sequences =
      All-append (λ e. (a.next_sequence ≤ e.sequence) × (e.sequence < c.next_sequence)) g.new_events
        h.new_events (All-mono (λ e l. omega (arith, h.next_sequence)) g.new_events g.sequences)
        (All-mono (λ e l. omega (arith, g.next_sequence)) h.new_events h.sequences);
  new_deliveries = g.new_deliveries ++ h.new_deliveries;
  deliveries =
      h.deliveries ∙ rw g.deliveries (append_assoc a.deliveries g.new_deliveries h.new_deliveries);
  pending_rows = All-append IsNew g.new_deliveries h.new_deliveries g.pending_rows h.pending_rows;
  next_sequence = omega (arith, g.next_sequence, h.next_sequence);
  sinks = h.sinks ∙ g.sinks;
  next_sink_id = h.next_sink_id ∙ g.next_sink_id;
  checkpoint = h.checkpoint ∙ g.checkpoint;
}

-- The statement for deliveries alone.
abbrev Appends : List DeliveryRow → List DeliveryRow → Type 0
Appends ds es = (new : List DeliveryRow) × (es ≡ ds ++ new) × All IsNew new

insert_delivery-Appends :
    (now sequence sink_id : ℕ) (ds : List DeliveryRow)
    → Appends ds (insert_delivery now sequence sink_id ds)
unfolding insert_delivery
insert_delivery-Appends now sequence sink_id ds =
    elim (Bool-cases (any (has_key sequence sink_id) ds)) [
      | inl taken ↦ rw taken ([], rw append-nil, tt)
      | inr free ↦ rw free (new_delivery now sequence sink_id ∷ [], refl, ((refl, refl), tt))
    ]

Appends-trans :
    (a : List DeliveryRow) {b c : List DeliveryRow} → Appends a b → Appends b c → Appends a c
Appends-trans a (new, e, p) (more, f, q) =
    (new ++ more, f ∙ rw e (append_assoc a new more), All-append IsNew new more p q)

pub insert_for_sinks-Appends :
    (now sequence : ℕ) (ss : List SinkRow) (ds : List DeliveryRow)
    → Appends ds (insert_for_sinks now sequence ss ds)
unfolding insert_for_sinks
insert_for_sinks-Appends now sequence [] ds = ([], rw append-nil, tt)
insert_for_sinks-Appends now sequence (s ∷ ss) ds = Appends-trans ds (step s.active) (
    insert_for_sinks-Appends now sequence ss
      (if s.active then insert_delivery now sequence s.sink_id ds else ds))
  where
    step : (b : Bool) → Appends ds (if b then insert_delivery now sequence s.sink_id ds else ds)
    step true = insert_delivery-Appends now sequence s.sink_id ds
    step false = ([], rw append-nil, tt)

Appends-Grows :
    (db : Db) (ds : List DeliveryRow)
    → Appends db.deliveries ds
    → Grows db (record db { deliveries = ds })
Appends-Grows db ds (new, e, p) = record {
  new_events = [];
  events = rw append-nil;
  sequences = tt;
  new_deliveries = new;
  deliveries = e;
  pending_rows = p;
  next_sequence = omega arith;
  sinks = refl;
  next_sink_id = refl;
  checkpoint = refl;
}

ensure_deliveries_for_event-Grows :
    (now sequence : ℕ) (db : Db) → Grows db (ensure_deliveries_for_event now sequence db)
unfolding ensure_deliveries_for_event
ensure_deliveries_for_event-Grows now sequence db =
    elim (Bool-cases (has_payload sequence db.events)) [
      | inl there ↦
          rw there
            (Appends-Grows db _ (insert_for_sinks-Appends now sequence db.sinks db.deliveries))
      | inr gone ↦ rw gone (Grows-refl db)
    ]

insert_from-Grows :
    (now : ℕ) (db : Db) (e : CapturedEvent) (o : Option EventRow) {i : Inserted}
    → insert_from now db e o ≡ ok i
    → Grows db i.db
unfolding insert_from verify_replay event_row
insert_from-Grows now db e none {i} h =
    let q : record db {
      events = db.events ++ event_row now db.next_sequence e ∷ [];
      next_sequence = suc db.next_sequence;
    }
        ≡ i.db =
      cc in
    subst (Grows db) q (record {
      new_events = event_row now db.next_sequence e ∷ [];
      events = refl;
      sequences = (omega arith, tt);
      new_deliveries = [];
      deliveries = rw append-nil;
      pending_rows = tt;
      next_sequence = omega arith;
      sinks = refl;
      next_sink_id = refl;
      checkpoint = refl;
    })
insert_from-Grows now db e (some row) {i} h =
    elim (Bool-cases (bytes_eq row.payload_sha256 e.payload_sha256)) [
      | inl same ↦ let q : db ≡ i.db = ground arith in subst (Grows db) q (Grows-refl db)
      | inr differs ↦ absurd (ground arith)
    ]

module _ (rt : Runtime) (clock : ℕ → ℕ) where
  pub persist_event-Grows :
      (batch : CommittedBatch) (p : Progress) (e : CapturedEvent) (index : ℕ) {q : Progress}
      → persist_event rt clock batch p e index ≡ ok q
      → Grows p.db q.db
  unfolding persist_event record_event insert_or_verify
  persist_event-Grows batch p e index {q} h =
      let (_, _, rest) = >>=-eq-ok (validate_captured_event rt batch e index) _ h in
      let (i, inserted, done) = >>=-eq-ok (insert_or_verify (clock index) p.db e) _ rest in
      let same : ensure_deliveries_for_event (clock index) i.sequence i.db ≡ q.db = ground arith in
      subst (Grows p.db) same (
        Grows-trans
          (insert_from-Grows (clock index) p.db e (find_event e.source e.id p.db.events) inserted)
          (ensure_deliveries_for_event-Grows (clock index) i.sequence i.db))

  pub persist_events-Grows :
      (batch : CommittedBatch) (p : Progress) (es : List CapturedEvent) (index : ℕ) {q : Progress}
      → persist_events rt clock batch p es index ≡ ok q
      → Grows p.db q.db
  unfolding persist_events
  persist_events-Grows batch p [] index {q} h =
      let same : p.db ≡ q.db = ground arith in subst (Grows p.db) same (Grows-refl p.db)
  persist_events-Grows batch p (e ∷ es) index {q} h =
      let (r, first, rest) = >>=-eq-ok (persist_event rt clock batch p e index) _ h in
      Grows-trans (persist_event-Grows batch p e index first)
        (persist_events-Grows batch r es (suc index) {q = q} rest)
