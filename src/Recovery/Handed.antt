-- ===== src/Recovery/Handed.antt =====
-- What one batch does to the spool, as far as the recovery needs it.
use write_relay.Prelude.{
  ℕ, ◌<◌, ◌≤◌, ◌≡◌, refl, sym, ap, subst, ◌⊎◌, inl, inr, Bool, List, [], ◌∷◌, arith, ltb, All,
  Bool-cases,
}
use write_relay.Spool.{CommittedBatch, PersistResult, Result, ok, err, Result-cases}
use write_relay.Event.{Runtime}
use write_relay.Store.{Db}
use write_relay.Store.Persist.{
  Progress, advance_checkpoint, last_durable_lsn, persist_committed_batch,
}
use write_relay.Store.Persist.Checkpoint.{
  persist-Committed, checkpoint-persist, rollback, persist_cases,
}
use write_relay.Store.Persist.Stored.{SequencesBelow, Grows-SequencesBelow}
use write_relay.Store.Persist.Growth.{persist_events-Grows}
use write_relay.Store.Persist.Replay.{Persisted, persist-Persisted, Persisted-persist}
use write_relay.Replicator.{acknowledge_from}
use write_relay.Replicator.Sqlite.{sqlite}
use write_relay.Recovery.{World, confirm}

advance-SequencesBelow :
    (batch : CommittedBatch) (p : Progress)
    → SequencesBelow p.db
    → SequencesBelow (advance_checkpoint batch p).0
unfolding advance_checkpoint
advance-SequencesBelow batch p v =
    elim (Bool-cases (ltb (last_durable_lsn p.db) batch.commit_end_lsn)) [
      | inl ahead ↦ rw ahead v
      | inr behind ↦ rw behind v
    ]

module _ (rt : Runtime) where
  -- The spool after a batch was handed to it, whether it took it or not.
  abbrev pub persisted : (ℕ → ℕ) → Db → CommittedBatch → Db
  persisted clock db batch = (persist_committed_batch rt clock db batch).0

  -- What the spool has at this position after the batch, given that it had all up to its old one.
  pub persist-covers :
      (clock : ℕ → ℕ) (w : World) (batch c : CommittedBatch)
      → SequencesBelow w.db
      → (c ≡ batch)
        ⊎ (batch.commit_end_lsn < c.commit_end_lsn)
        ⊎ (c.commit_end_lsn ≤ last_durable_lsn w.db)
      → (c.commit_end_lsn ≤ last_durable_lsn w.db → Persisted rt w.db c)
      → c.commit_end_lsn ≤ last_durable_lsn (persisted clock w.db batch)
      → Persisted rt (persisted clock w.db batch) c
  persist-covers clock w batch c below order old early =
      elim (Result-cases (persist_committed_batch rt clock w.db batch).1) [
        | inr (x, e) ↦
            let same : persisted clock w.db batch ≡ w.db =
              rollback rt clock w.db batch x
                (ap (λ (y : Result PersistResult). (persisted clock w.db batch, y)) e) in
            subst (λ (d : Db). Persisted rt d c) (sym same)
              (old (subst (λ (d : Db). c.commit_end_lsn ≤ last_durable_lsn d) same early))
        | inl (r, e) ↦
            let done : persist_committed_batch rt clock w.db batch
                ≡ (persisted clock w.db batch, ok r) =
              ap (λ (y : Result PersistResult). (persisted clock w.db batch, y)) e in
            let advance = checkpoint-persist rt clock w.db batch done in
            elim order [
              | inl same ↦
                  subst (λ (b : CommittedBatch). Persisted rt (persisted clock w.db batch) b)
                    (sym same) (persist-Persisted rt clock w.db batch below done)
              | inr (inl later) ↦
                  Persisted-persist rt clock w.db c batch below
                    (old (omega (arith, later, early, advance.0, advance.1)))
              | inr (inr before) ↦ Persisted-persist rt clock w.db c batch below (old before)
            ]
      ]

  pub persist-SequencesBelow :
      (clock : ℕ → ℕ) (db : Db) (batch : CommittedBatch)
      → SequencesBelow db
      → SequencesBelow (persisted clock db batch)
  persist-SequencesBelow clock db batch below =
      persist_cases rt clock SequencesBelow db batch below (λ d r h.
        let c = persist-Committed rt clock db batch h in
        let grown = persist_events-Grows rt clock batch _ batch.events 0 c.ran in
        subst (λ (x : Db × PersistResult). SequencesBelow x.0) c.finished
          (advance-SequencesBelow batch c.progress (Grows-SequencesBelow grown below)))

  pub acknowledged_spool :
      (send_ok : Bool) (batch : CommittedBatch) (p : Db × Result PersistResult)
      → (acknowledge_from (sqlite rt) send_ok batch p).spool ≡ p.0
  unfolding acknowledge_from
  acknowledged_spool send_ok batch (d, ok r) = ground arith
  acknowledged_spool send_ok batch (d, err e) = refl

  pub confirm-le :
      (lsn limit : ℕ) (acks : List ℕ)
      → lsn ≤ limit
      → All (λ (l : ℕ). l ≤ limit) acks
      → confirm lsn acks ≤ limit
  confirm-le lsn limit [] h a = h
  confirm-le lsn limit (l ∷ acks) h a = omega (arith, a.0, confirm-le lsn limit acks h a.1)
