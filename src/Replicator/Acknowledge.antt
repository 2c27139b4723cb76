-- ===== src/Replicator/Acknowledge.antt =====
-- A position is acknowledged only once the spool has it.
use write_relay.Prelude.{
  ℕ, ◌≤◌, ◌≡◌, refl, sym, ap, Bool, true, inl, inr, [], ◌∷◌, arith, ltb, ltb→ge, All, Bool-cases,
}
use write_relay.Spool.{CommittedBatch, PersistResult, Error, Result, ok, err, cancelled}
use write_relay.Disk.{Guard, check}
use write_relay.Replicator.{
  CaptureSpool, Turn, Acknowledged, acknowledge_from, persist_then_acknowledge, persist_admitted,
  persist_batch,
}

module _ {D : Type 0} (ops : CaptureSpool D) where
  -- What may be acknowledged of a batch: the checkpoint that is stored, which covers the batch. The
  -- positions are those of all attempts to send.
  pub record Covers (send_ok : Bool) (batch : CommittedBatch) (d : D) (a : Acknowledged D)
      : Type 0 where
    pub not_behind : ops.last_durable d ≤ ops.last_durable a.spool
    pub acks_stored : All (λ l. (l ≡ ops.last_durable a.spool) × (batch.commit_end_lsn ≤ l)) a.acks
    pub result_stored :
        (r : PersistResult)
        → a.result ≡ ok r
        → (r.durable_lsn ≡ ops.last_durable a.spool)
          × (a.acks ≡ r.durable_lsn ∷ [])
          × (send_ok ≡ true)

  acknowledge_from-Covers :
      (send_ok : Bool) (clock : ℕ → ℕ) (d : D) (batch : CommittedBatch)
      (p : D × Result PersistResult)
      → ops.persist clock d batch ≡ p
      → Covers send_ok batch d (acknowledge_from ops send_ok batch p)
  unfolding acknowledge_from
  acknowledge_from-Covers send_ok clock d batch (d', err e) h = record {
    not_behind = omega (arith, ap ops.last_durable (ops.persist_err clock d batch h));
    acks_stored = tt;
    result_stored = λ r x. cc;
  }
  acknowledge_from-Covers send_ok clock d batch (d', ok r) h =
      let (same, ahead) = ops.persist_ok clock d batch h in
      elim (Bool-cases (ltb r.durable_lsn batch.commit_end_lsn)) [
        | inl short ↦
            rw short (record { not_behind = ahead; acks_stored = tt; result_stored = λ x y. cc })
        | inr enough ↦ rw enough (record {
          not_behind = ahead;
          acks_stored = ((sym same, ltb→ge r.durable_lsn batch.commit_end_lsn enough), tt);
          result_stored = λ x y. ground (arith, same);
        })
      ]

  -- Whatever the spool is asked to persist, and whether the send succeeds or not: a position is given
  -- to the send only if it is the spool's checkpoint after the call and at or past the transaction's
  -- end; the checkpoint does not move back; and success means that this position was given to the send
  -- once and the send succeeded.
  pub persist_then_acknowledge-Covers :
      (send_ok : Bool) (clock : ℕ → ℕ) (d : D) (batch : CommittedBatch)
      → Covers send_ok batch d (persist_then_acknowledge ops send_ok clock d batch)
  unfolding persist_then_acknowledge
  persist_then_acknowledge-Covers send_ok clock d batch =
      acknowledge_from-Covers send_ok clock d batch (ops.persist clock d batch) refl

  unsent-Covers :
      (send_ok : Bool) (batch : CommittedBatch) (d : D) (e : Error)
      → Covers send_ok batch d (record { spool = d; acks = []; result = err e })
  unsent-Covers send_ok batch d e = record {
    not_behind = omega arith;
    acks_stored = tt;
    result_stored = λ r x. cc;
  }

  persist_admitted-Covers :
      (t : Turn) (d : D) (batch : CommittedBatch) (c : Guard × Result (Unit {0}))
      → Covers t.send_ok batch d (persist_admitted ops t d batch c).1
  persist_admitted-Covers t d batch (g, err e) = unsent-Covers t.send_ok batch d e
  persist_admitted-Covers t d batch (g, ok u) =
      persist_then_acknowledge-Covers t.send_ok t.clock d batch

  pub persist_batch-Covers :
      (t : Turn) (g : Guard) (d : D) (batch : CommittedBatch)
      → Covers t.send_ok batch d (persist_batch ops t g d batch).1
  unfolding persist_batch
  persist_batch-Covers t g d batch = elim (Bool-cases t.batch_cancelled) [
    | inl stopped ↦ rw stopped (unsent-Covers t.send_ok batch d cancelled)
    | inr going ↦
        rw going (persist_admitted-Covers t d batch (check g true t.batch_checked_at t.batch_probe))
  ]
