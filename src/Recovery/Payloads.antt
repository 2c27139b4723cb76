-- ===== src/Recovery/Payloads.antt =====
-- The payloads in the spool are those of the events that were handed to it, as far as SHA-256 tells.
use write_relay.Prelude.{
  ℕ, suc, ◌≡◌, sym, subst, ◌∙◌, true, some, List, [], ◌∷◌, arith, All, All-mem, find-mem,
  bytes_eq_sound,
}
use write_relay.Spool.{CapturedEvent, CommittedBatch, ok}
use write_relay.Event.{Runtime}
use write_relay.Store.{EventRow, Db, find_event, has_identity, is_retained}
use write_relay.Store.Persist.{
  validate_captured_event, event_row, Progress, advance_checkpoint, persist_committed_batch,
}
use write_relay.Store.Persist.Checkpoint.{persist-Committed, persist_cases}
use write_relay.Store.Persist.Rows.{OfRow, persist_events-All}
use write_relay.Store.Persist.Stored.{Stored}
use write_relay.Store.Persist.Replay.{AllValid, Persisted, persist_events-AllValid}

module _ (rt : Runtime) where
  -- The digest column of a row that keeps its payload is the digest of that payload.
  abbrev pub IsDigested : EventRow → Type 0
  IsDigested row = is_retained row ≡ true → rt.sha256 row.payload ≡ row.payload_sha256

  -- A row has the event's identity, and as long as it keeps a payload, one with the digest of the
  -- event's payload.
  pub record IsHeld (db : Db) (e : CapturedEvent) : Type 0 where
    pub row : EventRow
    pub found : find_event e.source e.id db.events ≡ some row
    pub payload : is_retained row ≡ true → rt.sha256 row.payload ≡ rt.sha256 e.payload

  valid_digest :
      (batch : CommittedBatch) (e : CapturedEvent) (index : ℕ)
      → validate_captured_event rt batch e index ≡ ok tt
      → rt.sha256 e.payload ≡ e.payload_sha256
  unfolding validate_captured_event
  valid_digest batch e index h =
      bytes_eq_sound (rt.sha256 e.payload) e.payload_sha256 (ground (arith, h))

  valid-OfRow :
      (batch : CommittedBatch) (es : List CapturedEvent) (index : ℕ)
      → AllValid rt batch es index
      → All (OfRow IsDigested) es
  unfolding event_row
  valid-OfRow batch [] index v = tt
  valid-OfRow batch (e ∷ es) index v =
      (λ now sequence kept. valid_digest batch e index v.0, valid-OfRow batch es (suc index) v.1)

  advance_checkpoint_events :
      (batch : CommittedBatch) (p : Progress) → (advance_checkpoint batch p).0.events ≡ p.db.events
  unfolding advance_checkpoint
  advance_checkpoint_events batch p = ground arith

  pub persist-IsDigested :
      (clock : ℕ → ℕ) (db : Db) (batch : CommittedBatch)
      → All IsDigested db.events
      → All IsDigested (persist_committed_batch rt clock db batch).0.events
  persist-IsDigested clock db batch old =
      persist_cases rt clock (λ (d : Db). All IsDigested d.events) db batch old
        (λ d r h.
          let c = persist-Committed rt clock db batch h in
          let rows =
            persist_events-All IsDigested rt clock batch _ batch.events 0 {q = c.progress}
              (valid-OfRow batch batch.events 0
                (persist_events-AllValid rt clock batch _ batch.events 0 c.ran))
              old c.ran in
          subst (λ x. All IsDigested x.0.events) c.finished
            (subst (All IsDigested) (sym (advance_checkpoint_events batch c.progress)) rows))

  stored-IsHeld :
      (db : Db) (batch : CommittedBatch) (es : List CapturedEvent) (index : ℕ)
      → All IsDigested db.events
      → AllValid rt batch es index
      → All (Stored db) es
      → All (IsHeld db) es
  stored-IsHeld db batch [] index rows v s = tt
  stored-IsHeld db batch (e ∷ es) index rows v s =
      let digested =
        All-mem IsDigested db.events rows
          (find-mem (has_identity e.source e.id) db.events s.0.found) in
      (
        record {
          row = s.0.row;
          found = s.0.found;
          payload = λ kept.
              digested kept
              ∙ bytes_eq_sound s.0.row.payload_sha256 e.payload_sha256 s.0.same_digest
              ∙ sym (valid_digest batch e index v.0);
        },
        stored-IsHeld db batch es (suc index) rows v.1 s.1,
      )

  pub Persisted-IsHeld :
      (db : Db) (batch : CommittedBatch)
      → All IsDigested db.events
      → Persisted rt db batch
      → All (IsHeld db) batch.events
  Persisted-IsHeld db batch rows p = stored-IsHeld db batch batch.events 0 rows p.valid p.stored
