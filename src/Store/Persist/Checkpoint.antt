-- ===== src/Store/Persist/Checkpoint.antt =====
-- The result of `PersistCommittedBatch`: the checkpoint, the counters, and the rollback.
use write_relay.Prelude.{
  ℕ, suc, ◌+◌, ◌≤◌, ◌≡◌, sym, subst, not, inl, inr, List, [], ◌∷◌, arith, ltb, length,
  length-append, max,
}
use write_relay.Spool.{
  Error, CapturedEvent, CommittedBatch, PersistResult, Result, ok, err, durability, guard,
  >>=-eq-ok, Result-cases,
}
use write_relay.Event.{Runtime}
use write_relay.Store.{Db}
use write_relay.Store.Persist.{
  event_row, insert_from, insert_or_verify, verify_replay, ensure_deliveries_for_event, Progress,
  record_event, last_durable_lsn, advance_checkpoint, transact, persist_event, persist_events,
  persist_committed_batch,
}
use write_relay.Store.Persist.Growth.{persist_events-Grows}

-- What a successful transaction ran.
pub record Committed (rt : Runtime) (clock : ℕ → ℕ) (db db' : Db) (batch : CommittedBatch)
    (r : PersistResult) : Type 0 where
  pub progress : Progress
  pub ordered : batch.commit_lsn ≤ batch.commit_end_lsn
  pub ran :
      persist_events rt clock batch (record { db = db; inserted = 0; replayed = 0 }) batch.events 0
      ≡ ok progress
  pub finished : advance_checkpoint batch progress ≡ (db', r)

pub transact-eq-ok {ℓ} :
    {A : Type ℓ} (db : Db) (m : Result (Db × A)) {db' : Db} {a : A}
    → transact db m ≡ (db', ok a)
    → m ≡ ok (db', a)
unfolding transact
transact-eq-ok db (ok (x, b)) h = cc
transact-eq-ok db (err e) h = cc

transact-eq-err {ℓ} :
    {A : Type ℓ} (db : Db) (m : Result (Db × A)) {db' : Db} {e : Error}
    → transact db m ≡ (db', err e)
    → db' ≡ db
unfolding transact
transact-eq-err db (ok (x, b)) h = cc
transact-eq-err db (err e) h = cc

module _ (rt : Runtime) (clock : ℕ → ℕ) where
  pub persist-Committed :
      (db : Db) (batch : CommittedBatch) {db' : Db} {r : PersistResult}
      → persist_committed_batch rt clock db batch ≡ (db', ok r)
      → Committed rt clock db db' batch r
  unfolding persist_committed_batch
  persist-Committed db batch h =
      let (_, checked, rest) =
        >>=-eq-ok (guard (not (ltb batch.commit_end_lsn batch.commit_lsn)) durability) _
          (transact-eq-ok db _ h) in
      let (p, ran, done) =
        >>=-eq-ok
          (persist_events rt clock batch (record { db = db; inserted = 0; replayed = 0 })
            batch.events 0)
          _ rest in
      record { progress = p; ordered = ground arith; ran = ran; finished = cc done }

  persist_event_counts :
      (batch : CommittedBatch) (p : Progress) (e : CapturedEvent) (index : ℕ) {q : Progress}
      → persist_event rt clock batch p e index ≡ ok q
      → (q.inserted + q.replayed ≡ p.inserted + p.replayed + 1)
        × (length q.db.events + p.inserted ≡ length p.db.events + q.inserted)
  unfolding persist_event insert_or_verify insert_from verify_replay record_event
      ensure_deliveries_for_event
  persist_event_counts batch p e index h =
      ground (arith, length-append p.db.events (event_row (clock index) p.db.next_sequence e ∷ []))

  persist_events_counts :
      (batch : CommittedBatch) (p : Progress) (es : List CapturedEvent) (index : ℕ) {q : Progress}
      → persist_events rt clock batch p es index ≡ ok q
      → (q.inserted + q.replayed ≡ p.inserted + p.replayed + length es)
        × (length q.db.events + p.inserted ≡ length p.db.events + q.inserted)
  unfolding persist_events
  persist_events_counts batch p [] index h = ground arith
  persist_events_counts batch p (e ∷ es) index {q} h =
      let (r, first, rest) = >>=-eq-ok (persist_event rt clock batch p e index) _ h in
      omega (
        arith,
        persist_event_counts batch p e index first,
        persist_events_counts batch r es (suc index) {q = q} rest,
      )

  -- A batch that fails leaves the tables as they were.
  pub rollback :
      (db : Db) (batch : CommittedBatch) {db' : Db} (e : Error)
      → persist_committed_batch rt clock db batch ≡ (db', err e)
      → db' ≡ db
  unfolding persist_committed_batch
  rollback db batch e h = transact-eq-err db _ h

  checkpoint-Committed :
      {db db' : Db} (batch : CommittedBatch) {r : PersistResult}
      (c : Committed rt clock db db' batch r)
      → c.progress.db.checkpoint ≡ db.checkpoint
      → (c.progress.inserted + c.progress.replayed ≡ 0 + 0 + length batch.events)
        × (length c.progress.db.events + 0 ≡ length db.events + c.progress.inserted)
      → (last_durable_lsn db' ≡ r.durable_lsn)
        × (r.durable_lsn ≡ max (last_durable_lsn db) batch.commit_end_lsn)
        × (r.inserted + r.replayed ≡ length batch.events)
        × (length db'.events ≡ length db.events + r.inserted)
  unfolding advance_checkpoint last_durable_lsn
  checkpoint-Committed batch c same counts = ground (arith, c.finished)

  -- A batch that is persisted reports a checkpoint that is stored, is the larger of the old one and
  -- the transaction's end, and counts each event once: as inserted, which adds one row, or as
  -- replayed, which adds none.
  pub checkpoint-persist :
      (db : Db) (batch : CommittedBatch) {db' : Db} {r : PersistResult}
      → persist_committed_batch rt clock db batch ≡ (db', ok r)
      → (last_durable_lsn db' ≡ r.durable_lsn)
        × (r.durable_lsn ≡ max (last_durable_lsn db) batch.commit_end_lsn)
        × (r.inserted + r.replayed ≡ length batch.events)
        × (length db'.events ≡ length db.events + r.inserted)
  checkpoint-persist db batch h =
      let c = persist-Committed db batch h in
      checkpoint-Committed batch c
        (persist_events-Grows rt clock batch _ batch.events 0 c.ran).checkpoint
        (persist_events_counts batch _ batch.events 0 c.ran)

  -- To prove something of the tables after a call: of the old ones, and after a success.
  pub persist_cases {ℓ} :
      (P : Db → Type ℓ) (db : Db) (batch : CommittedBatch)
      → P db
      → ((db' : Db) (r : PersistResult)
          → persist_committed_batch rt clock db batch ≡ (db', ok r)
          → P db')
      → P (persist_committed_batch rt clock db batch).0
  persist_cases P db batch failed done =
      elim (Result-cases (persist_committed_batch rt clock db batch).1) [
        | inl (r, e) ↦ done _ r (ground (arith, e))
        | inr (x, e) ↦ subst P (sym (rollback db batch x (ground (arith, e)))) failed
      ]
