-- ===== src/Store/Persist/Replay.antt =====
-- A batch that was persisted once is persisted again without effect, at any later time.
use native.Mathlib.Nat.{add-zero}
use write_relay.Prelude.{
  ℕ, suc, ◌+◌, ◌≤◌, ◌≡◌, subst, ap, ◌∙◌, inl, inr, false, List, [], ◌∷◌, arith, ltb, length, All,
  All-mono, Bool-cases,
}
use write_relay.Spool.{CapturedEvent, CommittedBatch, PersistResult, ok, >>=-eq-ok}
use write_relay.Event.{Runtime}
use write_relay.Store.{Db}
use write_relay.Store.Persist.{
  validate_captured_event, verify_replay, insert_from, insert_or_verify, has_payload,
  ensure_deliveries_for_event, Progress, record_event, last_durable_lsn, advance_checkpoint,
  transact, persist_event, persist_events, persist_committed_batch,
}
use write_relay.Store.Persist.Growth.{persist_events-Grows}
use write_relay.Store.Persist.Checkpoint.{persist-Committed, checkpoint-persist, persist_cases}
use write_relay.Store.Persist.Stored.{
  SequencesBelow, Stored, Stored-Grows, insert_for_sinks_again, persist_events-Stored,
}

module _ (rt : Runtime) where
  -- `validateCapturedEvent` passes for every event, from this index on.
  abbrev pub AllValid : CommittedBatch → List CapturedEvent → ℕ → Type 0
  AllValid batch [] index = Unit
  AllValid batch (e ∷ es) index =
      (validate_captured_event rt batch e index ≡ ok tt) × AllValid batch es (suc index)

  -- The batch is in the tables, and the checkpoint is at or past its end.
  pub record Persisted (db : Db) (batch : CommittedBatch) : Type 0 where
    pub ordered : batch.commit_lsn ≤ batch.commit_end_lsn
    pub valid : AllValid batch batch.events 0
    pub stored : All (Stored db) batch.events
    pub reached : batch.commit_end_lsn ≤ last_durable_lsn db

  pub persist_events-AllValid :
      (clock : ℕ → ℕ) (batch : CommittedBatch) (p : Progress) (es : List CapturedEvent) (index : ℕ)
      {q : Progress}
      → persist_events rt clock batch p es index ≡ ok q
      → AllValid batch es index
  unfolding persist_events persist_event
  persist_events-AllValid clock batch p [] index h = tt
  persist_events-AllValid clock batch p (e ∷ es) index {q} h =
      let (r, first, rest) = >>=-eq-ok (persist_event rt clock batch p e index) _ h in
      let (u, valid, _) = >>=-eq-ok (validate_captured_event rt batch e index) _ first in
      (valid, persist_events-AllValid clock batch r es (suc index) {q = q} rest)

  insert_or_verify_again :
      (now : ℕ) (db : Db) (e : CapturedEvent) (s : Stored db e)
      → insert_or_verify now db e
        ≡ ok (record { db = db; fresh = false; sequence = s.row.sequence })
  unfolding insert_or_verify insert_from verify_replay
  insert_or_verify_again now db e s = rw (s.found, insert_from) (rw s.same_digest)

  ensure_again :
      (now : ℕ) (db : Db) (e : CapturedEvent) (s : Stored db e)
      → ensure_deliveries_for_event now s.row.sequence db ≡ db
  unfolding ensure_deliveries_for_event
  ensure_again now db e s = elim (Bool-cases (has_payload s.row.sequence db.events)) [
    | inl there ↦ rw (
      there,
      insert_for_sinks_again now s.row.sequence db.sinks db.deliveries (s.deliveries there),
    )
    | inr gone ↦ rw gone
  ]

  persist_event_again :
      (clock : ℕ → ℕ) (batch : CommittedBatch) (p : Progress) (e : CapturedEvent) (index : ℕ)
      → validate_captured_event rt batch e index ≡ ok tt
      → Stored p.db e
      → persist_event rt clock batch p e index ≡ ok (record p { replayed = p.replayed + 1 })
  unfolding persist_event record_event
  persist_event_again clock batch p e index valid s =
      rw (valid, insert_or_verify_again (clock index) p.db e s)
        (rw (ensure_again (clock index) p.db e s))

  persist_events_again :
      (clock : ℕ → ℕ) (batch : CommittedBatch) (p : Progress) (es : List CapturedEvent) (index : ℕ)
      → AllValid batch es index
      → All (Stored p.db) es
      → persist_events rt clock batch p es index
        ≡ ok (record p { replayed = p.replayed + length es })
  unfolding persist_events
  persist_events_again clock batch p [] index valid s = rw add-zero
  persist_events_again clock batch p (e ∷ es) index valid s =
      rw (persist_event_again clock batch p e index valid.0 s.0) (
        persist_events_again clock batch (record p { replayed = p.replayed + 1 }) es (suc index)
          valid.1 s.1
        ∙ ap (λ (n : ℕ). ok (record p { replayed = n })) (omega arith))

  -- A batch that is in the tables is persisted again, at any time, without any change to them:
  -- every event counts as replayed, and the checkpoint is reported as it stands.
  pub persist_replay :
      (clock : ℕ → ℕ) (db : Db) (batch : CommittedBatch)
      → Persisted db batch
      → persist_committed_batch rt clock db batch ≡ (
        db,
        ok (record {
          inserted = 0;
          replayed = length batch.events;
          durable_lsn = last_durable_lsn db;
        }),
      )
  unfolding persist_committed_batch transact advance_checkpoint
  persist_replay clock db batch p =
      let ordered : ltb batch.commit_end_lsn batch.commit_lsn ≡ false = ground (arith, p.ordered) in
      let reached : ltb (last_durable_lsn db) batch.commit_end_lsn ≡ false =
        ground (arith, p.reached) in
      rw
        (
          ordered,
          persist_events_again clock batch (record { db = db; inserted = 0; replayed = 0 })
              batch.events 0 p.valid p.stored,
        )
        (ground (arith, reached))

  advance_checkpoint-Stored :
      (batch : CommittedBatch) (p : Progress) (es : List CapturedEvent)
      → All (Stored p.db) es
      → All (Stored (advance_checkpoint batch p).0) es
  unfolding advance_checkpoint
  advance_checkpoint-Stored batch p es s =
      elim (Bool-cases (ltb (last_durable_lsn p.db) batch.commit_end_lsn)) [
        | inl ahead ↦ rw ahead (
            All-mono
              (λ e t. record {
                row = t.row;
                found = t.found;
                same_digest = t.same_digest;
                deliveries = t.deliveries;
              })
              es s)
        | inr behind ↦ rw behind s
      ]

  -- If the sequences in the table are below the counter, a successful call leaves its batch
  -- persisted: its events passed the validation and are in the table with their digests, each
  -- that keeps its payload has a delivery for every active sink, and the checkpoint is at or past
  -- the batch's end.
  pub persist-Persisted :
      (clock : ℕ → ℕ) (db : Db) (batch : CommittedBatch) {db' : Db} {r : PersistResult}
      → SequencesBelow db
      → persist_committed_batch rt clock db batch ≡ (db', ok r)
      → Persisted db' batch
  persist-Persisted clock db batch v h =
      let c = persist-Committed rt clock db batch h in
      record {
        ordered = c.ordered;
        valid = persist_events-AllValid clock batch _ batch.events 0 c.ran;
        stored =
            subst (λ (x : Db). All (Stored x) batch.events)
              (ap (λ (x : Db × PersistResult). x.0) c.finished)
              (advance_checkpoint-Stored batch c.progress batch.events
                (persist_events-Stored rt clock batch _ batch.events 0 v c.ran));
        reached = omega (arith, checkpoint-persist rt clock db batch h);
      }

  -- If the sequences in the table are below the counter, a batch that is persisted stays so when
  -- any other batch is handed over, whether that succeeds or fails.
  pub Persisted-persist :
      (clock : ℕ → ℕ) (db : Db) (batch other : CommittedBatch)
      → SequencesBelow db
      → Persisted db batch
      → Persisted (persist_committed_batch rt clock db other).0 batch
  Persisted-persist clock db batch other v p =
      persist_cases rt clock (λ (x : Db). Persisted x batch) db other p
        λ db' r h.
          let c = persist-Committed rt clock db other h in
          record {
            ordered = p.ordered;
            valid = p.valid;
            stored =
                subst (λ (x : Db). All (Stored x) batch.events)
                  (ap (λ (x : Db × PersistResult). x.0) c.finished)
                  (advance_checkpoint-Stored other c.progress batch.events (
                    All-mono
                      (λ e s.
                        Stored-Grows e v
                          (persist_events-Grows rt clock other _ other.events 0 c.ran) s)
                      batch.events p.stored));
            reached = omega (arith, p.reached, checkpoint-persist rt clock db other h);
          }
