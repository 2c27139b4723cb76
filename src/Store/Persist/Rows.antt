-- ===== src/Store/Persist/Rows.antt =====
-- The rows of the events after `PersistCommittedBatch`: those that were there, and those of the batch.
use write_relay.Prelude.{
  ℕ, suc, ◌≡◌, subst, Option, none, some, List, [], ◌∷◌, ◌++◌, arith, All, All-append,
}
use write_relay.Spool.{CapturedEvent, CommittedBatch, ok, >>=-eq-ok}
use write_relay.Event.{Runtime}
use write_relay.Store.{EventRow, Db, find_event}
use write_relay.Store.Persist.{
  validate_captured_event, event_row, Inserted, verify_replay, insert_from, insert_or_verify,
  ensure_deliveries_for_event, Progress, record_event, persist_event, persist_events,
}

module _ {ℓ} (P : EventRow → Type ℓ) where
  -- The predicate holds of any row that is made of the event.
  abbrev pub OfRow : CapturedEvent → Type ℓ
  OfRow e = (now sequence : ℕ) → P (event_row now sequence e)

  insert_from-All :
      (now : ℕ) (db : Db) (e : CapturedEvent) (o : Option EventRow) {i : Inserted}
      → OfRow e
      → All P db.events
      → insert_from now db e o ≡ ok i
      → All P i.db.events
  unfolding insert_from verify_replay
  insert_from-All now db e none {i} new old h =
      let same : db.events ++ event_row now db.next_sequence e ∷ [] ≡ i.db.events =
        ground (arith, h) in
      subst (All P) same (
        All-append P db.events (event_row now db.next_sequence e ∷ []) old
          (new now db.next_sequence, tt))
  insert_from-All now db e (some row) {i} new old h =
      let same : db.events ≡ i.db.events = ground (arith, h) in subst (All P) same old

  module _ (rt : Runtime) (clock : ℕ → ℕ) (batch : CommittedBatch) where
    pub persist_event-All :
        (p : Progress) (e : CapturedEvent) (index : ℕ) {q : Progress}
        → OfRow e
        → All P p.db.events
        → persist_event rt clock batch p e index ≡ ok q
        → All P q.db.events
    unfolding persist_event record_event insert_or_verify ensure_deliveries_for_event
    persist_event-All p e index {q} new old h =
        let (_, _, rest) = >>=-eq-ok (validate_captured_event rt batch e index) _ h in
        let (i, inserted, done) = >>=-eq-ok (insert_or_verify (clock index) p.db e) _ rest in
        let same : i.db.events ≡ q.db.events = ground (arith, done) in
        subst (All P) same (
          insert_from-All (clock index) p.db e (find_event e.source e.id p.db.events) {i = i} new
            old inserted)

    pub persist_events-All :
        (p : Progress) (es : List CapturedEvent) (index : ℕ) {q : Progress}
        → All OfRow es
        → All P p.db.events
        → persist_events rt clock batch p es index ≡ ok q
        → All P q.db.events
    unfolding persist_events
    persist_events-All p [] index {q} new old h =
        let same : p.db.events ≡ q.db.events = ground (arith, h) in subst (All P) same old
    persist_events-All p (e ∷ es) index {q} new old h =
        let (r, first, rest) = >>=-eq-ok (persist_event rt clock batch p e index) _ h in
        persist_events-All r es (suc index) {q = q} new.1
          (persist_event-All p e index {q = r} new.0 old first) rest
