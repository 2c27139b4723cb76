-- ===== src/Store/Persist/Kept.antt =====
-- What each statement of a commit keeps of the tables, the commit keeps.
use write_relay.Prelude.{ℕ, suc, ◌≡◌, subst, List, [], ◌∷◌, arith}
use write_relay.Spool.{CapturedEvent, CommittedBatch, PersistResult, ok, >>=-eq-ok}
use write_relay.Event.{Runtime}
use write_relay.Store.{Db}
use write_relay.Store.Persist.{
  validate_captured_event, Inserted, insert_or_verify, ensure_deliveries_for_event, Progress,
  record_event, advance_checkpoint, persist_event, persist_events, persist_committed_batch,
}
use write_relay.Store.Persist.Checkpoint.{persist-Committed, persist_cases}

module _ {ℓ} (rt : Runtime) (clock : ℕ → ℕ) (P : Db → Type ℓ)
    (inserts : (now : ℕ) (db : Db) (e : CapturedEvent) (i : Inserted)
      → insert_or_verify now db e ≡ ok i
      → P db
      → P i.db)
    (fans_out : (now sequence : ℕ) (db : Db)
      → P db
      → P (ensure_deliveries_for_event now sequence db))
    (advances : (batch : CommittedBatch) (p : Progress)
      → P p.db
      → P (advance_checkpoint batch p).0) where
  persist_events-keeps :
      (batch : CommittedBatch) (p : Progress) (es : List CapturedEvent) (index : ℕ) {q : Progress}
      → persist_events rt clock batch p es index ≡ ok q
      → P p.db
      → P q.db
  unfolding persist_events persist_event record_event
  persist_events-keeps batch p [] index {q} h held =
      let same : p ≡ q = ground (arith, h) in subst (λ (x : Progress). P x.db) same held
  persist_events-keeps batch p (e ∷ es) index {q} h held =
      let (mid, first, rest) = >>=-eq-ok (persist_event rt clock batch p e index) _ h in
      let (_, _, inserting) = >>=-eq-ok (validate_captured_event rt batch e index) _ first in
      let (i, inserted, done) = >>=-eq-ok (insert_or_verify (clock index) p.db e) _ inserting in
      let same : record_event (clock index) p i ≡ mid = ground (arith, done) in
      let after : P mid.db =
        subst (λ (x : Progress). P x.db) same
          (fans_out (clock index) i.sequence i.db (inserts (clock index) p.db e i inserted held)) in
      persist_events-keeps batch mid es (suc index) {q = q} rest after

  pub persist-keeps :
      (db : Db) (batch : CommittedBatch) → P db → P (persist_committed_batch rt clock db batch).0
  persist-keeps db batch held = persist_cases rt clock P db batch held (λ d r h.
      let c = persist-Committed rt clock db batch h in
      subst (λ (x : Db × PersistResult). P x.0) c.finished
        (advances batch c.progress (persist_events-keeps batch _ batch.events 0 c.ran held)))
