-- ===== src/Store/Persist/Captured.antt =====
-- internal/postgres/state.go meets internal/spool/sqlite/sqlite.go: what capture hands over passes
-- the spool's validation.
use mathlib.Core.List.{Memᴰ}
use write_relay.Prelude.{
  ℕ, suc, ◌≤◌, ◌≡◌, ◌≢◌, ◌⊎◌, ◌∙◌, refl, sym, ap, subst, inl, inr, true, false, some, List, [], ◌∷◌,
  arith, All, All-mono, All-mem, All-mem_self, find-mem, find_holds, Option-cases, eq_iff, bytes_eq,
  bytes_eq_refl, false≢true,
}
use write_relay.Spool.{
  CapturedEvent, CommittedBatch, Error, ok, err, identity_conflict, Result-cases,
}
use write_relay.Event.{Runtime}
use write_relay.Capture.{StateMachine, commit, stamp, committed_batch, consume}
use write_relay.Capture.Invariant.{IsCaptured, IsValid}
use write_relay.Store.{EventRow, Db, find_event, has_identity}
use write_relay.Store.Persist.Rows.{persist_event-All}
use write_relay.Store.Persist.{
  event_row, validate_captured_event, verify_replay, insert_from, insert_or_verify, Progress,
  transact, persist_event, persist_events, persist_committed_batch,
}
use write_relay.Store.Persist.Replay.{AllValid}

identity_of :
    (e : CapturedEvent) (row : EventRow)
    → has_identity e.source e.id row ≡ true
    → (row.source ≡ e.source) × (row.id ≡ e.id)
identity_of e row h = ground (arith, h, eq_iff row.source e.source, eq_iff row.id e.id)

bytes_differ : (xs ys : List ℕ) → bytes_eq xs ys ≡ false → xs ≢ ys
bytes_differ xs ys h same =
    false≢true (sym h ∙ subst (λ (z : List ℕ). bytes_eq xs z ≡ true) same (bytes_eq_refl xs))

-- The row was in the table, or has the identity and the digest of one of the events.
abbrev Origin : Db → List CapturedEvent → EventRow → Type 0
Origin db es row =
    Memᴰ row db.events
    ⊎ ((f : CapturedEvent) × Memᴰ f es
        × (f.source ≡ row.source)
        × (f.id ≡ row.id)
        × (f.payload_sha256 ≡ row.payload_sha256))

-- A row of the table, or an event of the batch, has the event's identity and another digest.
pub record IsConflict (db : Db) (batch : CommittedBatch) : Type 0 where
  pub event : CapturedEvent
  pub member : Memᴰ event batch.events
  pub taken :
      ((row : EventRow) × Memᴰ row db.events
        × (row.source ≡ event.source)
        × (row.id ≡ event.id)
        × (row.payload_sha256 ≢ event.payload_sha256))
      ⊎ ((f : CapturedEvent) × Memᴰ f batch.events
          × (f.source ≡ event.source)
          × (f.id ≡ event.id)
          × (f.payload_sha256 ≢ event.payload_sha256))

Origin-IsConflict :
    (db : Db) (batch : CommittedBatch) (e : CapturedEvent) (row : EventRow)
    → Memᴰ e batch.events
    → Origin db batch.events row
    → row.source ≡ e.source
    → row.id ≡ e.id
    → row.payload_sha256 ≢ e.payload_sha256
    → IsConflict db batch
Origin-IsConflict db batch e row member (inl known) source id differs = record {
  event = e;
  member = member;
  taken = inl (row, known, source, id, differs);
}
Origin-IsConflict db batch e row member (inr (f, among, s, i, d)) source id differs = record {
  event = e;
  member = member;
  taken = inr (f, among, s ∙ source, i ∙ id, λ same. differs (sym d ∙ same));
}

insert_or_verify-error :
    (now : ℕ) (db : Db) (e : CapturedEvent) {x : Error}
    → insert_or_verify now db e ≡ err x
    → (x ≡ identity_conflict)
      × ((row : EventRow) × (find_event e.source e.id db.events ≡ some row)
          × (bytes_eq row.payload_sha256 e.payload_sha256 ≡ false))
unfolding insert_or_verify insert_from verify_replay
insert_or_verify-error now db e h = elim (Option-cases (find_event e.source e.id db.events)) [
  | inl free ↦ absurd (ground (arith, free, h))
  | inr (row, found) ↦ (ground (arith, found, h), (row, found, ground (arith, found, h)))
]

module _ (rt : Runtime) where
  validate_stamped :
      (batch : CommittedBatch) (e : CapturedEvent) (limit index : ℕ)
      → IsCaptured rt limit e
      → validate_captured_event rt batch
          (record e {
            transaction_id = batch.transaction_id;
            commit_lsn = batch.commit_lsn;
            commit_end_lsn = batch.commit_end_lsn;
            commit_time = batch.commit_time;
            message_index = index;
          })
          index
        ≡ ok tt
  unfolding validate_captured_event
  validate_stamped batch e limit index c = ground (
    arith,
    c.source_nonempty,
    c.id_nonempty,
    c.type_nonempty,
    c.digest,
    bytes_eq_refl (rt.sha256 e.payload),
  )

  stamp-AllValid :
      (batch : CommittedBatch) (es : List CapturedEvent) (limit index : ℕ)
      → All (IsCaptured rt limit) es
      → AllValid rt batch
          (stamp batch.transaction_id batch.commit_lsn batch.commit_end_lsn batch.commit_time index
            es)
          index
  unfolding stamp
  stamp-AllValid batch [] limit index c = tt
  stamp-AllValid batch (e ∷ es) limit index c =
      (validate_stamped batch e limit index c.0, stamp-AllValid batch es limit (suc index) c.1)

  committed_batch-AllValid :
      (s : StateMachine) (commit_lsn end_lsn time : ℕ)
      → IsValid rt s
      → AllValid rt
          (committed_batch rt s commit_lsn end_lsn time)
          (committed_batch rt s commit_lsn end_lsn time).events
          0
  unfolding committed_batch
  committed_batch-AllValid s commit_lsn end_lsn time v =
      stamp-AllValid (committed_batch rt s commit_lsn end_lsn time) s.events s.max_event_bytes 0
        v.captured

  consume_commit_batch :
      (s t : StateMachine) (commit_lsn end_lsn time : ℕ) {batch : CommittedBatch}
      → consume rt s (commit commit_lsn end_lsn time) ≡ (t, ok (some batch))
      → committed_batch rt s commit_lsn end_lsn time ≡ batch
  unfolding consume
  consume_commit_batch s t commit_lsn end_lsn time handed = ground (arith, handed)

  module _ (clock : ℕ → ℕ) (db : Db) (batch : CommittedBatch) where
    persist_event-error :
        (p : Progress) (e : CapturedEvent) (index : ℕ) {x : Error}
        → validate_captured_event rt batch e index ≡ ok tt
        → Memᴰ e batch.events
        → All (Origin db batch.events) p.db.events
        → persist_event rt clock batch p e index ≡ err x
        → (x ≡ identity_conflict) × IsConflict db batch
    unfolding persist_event
    persist_event-error p e index {x} valid member origins h =
        elim (Result-cases (insert_or_verify (clock index) p.db e)) [
          | inl (i, found) ↦ absurd (ground (arith, valid, found, h))
          | inr (y, refused) ↦
              let same : y ≡ x = ground (arith, valid, refused, h) in
              let (conflict, (row, found, differs)) =
                insert_or_verify-error (clock index) p.db e refused in
              let (source, id) =
                identity_of e row
                  (find_holds (has_identity e.source e.id) p.db.events {a = row} found) in
              (
                sym same ∙ conflict,
                Origin-IsConflict db batch e row member
                    (All-mem (Origin db batch.events) p.db.events origins
                      (find-mem (has_identity e.source e.id) p.db.events found))
                    source id (bytes_differ row.payload_sha256 e.payload_sha256 differs),
              )
        ]

    persist_events-error :
        (p : Progress) (es : List CapturedEvent) (index : ℕ) {x : Error}
        → AllValid rt batch es index
        → All (λ (e : CapturedEvent). Memᴰ e batch.events) es
        → All (Origin db batch.events) p.db.events
        → persist_events rt clock batch p es index ≡ err x
        → (x ≡ identity_conflict) × IsConflict db batch
    unfolding persist_events event_row
    persist_events-error p [] index valid members origins h = cc
    persist_events-error p (e ∷ es) index {x} valid members origins h =
        elim (Result-cases (persist_event rt clock batch p e index)) [
          | inl (q, done) ↦
              persist_events-error q es (suc index) {x = x} valid.1 members.1
                (persist_event-All (Origin db batch.events) rt clock batch p e index {q = q}
                  (λ now sequence. inr (e, members.0, refl, refl, refl)) origins done)
                (rw done at h)
          | inr (y, refused) ↦
              let same : y ≡ x = cc (rw refused at h) in
              let (conflict, clash) =
                persist_event-error p e index valid.0 members.0 origins refused in
              (sym same ∙ conflict, clash)
        ]

    persist-error :
        {db' : Db} {x : Error}
        → AllValid rt batch batch.events 0
        → batch.commit_lsn ≤ batch.commit_end_lsn
        → persist_committed_batch rt clock db batch ≡ (db', err x)
        → (x ≡ identity_conflict) × IsConflict db batch
    unfolding persist_committed_batch transact
    persist-error {x = x} valid ordered h =
        elim (Result-cases (
          persist_events rt clock batch (record { db = db; inserted = 0; replayed = 0 })
            batch.events 0)) [
              | inl (q, done) ↦ absurd (ground (arith, done, ordered, h))
              | inr (y, refused) ↦
                  let same : y ≡ x = ground (arith, refused, ordered, h) in
                  let (conflict, clash) =
                    persist_events-error (record { db = db; inserted = 0; replayed = 0 })
                      batch.events 0 valid (All-mem_self batch.events)
                      (All-mono (λ r m. inl m) db.events (All-mem_self db.events)) refused in
                  (sym same ∙ conflict, clash)
            ]

  -- The batch that Commit returns, of a machine whose buffer is valid and with an end that is not before
  -- the commit, is refused by the spool only as an identity conflict, and only if one of its events has
  -- the identity of a stored row, or of another event of the batch, with another digest.
  pub persist-captured :
      (clock : ℕ → ℕ) (s t : StateMachine) (db : Db) (commit_lsn end_lsn time : ℕ)
      {batch : CommittedBatch} {db' : Db} {x : Error}
      → IsValid rt s
      → commit_lsn ≤ end_lsn
      → consume rt s (commit commit_lsn end_lsn time) ≡ (t, ok (some batch))
      → persist_committed_batch rt clock db batch ≡ (db', err x)
      → (x ≡ identity_conflict) × IsConflict db batch
  persist-captured clock s t db commit_lsn end_lsn time {batch} {x = x} v ordered handed h =
      let same : committed_batch rt s commit_lsn end_lsn time ≡ batch =
        consume_commit_batch s t commit_lsn end_lsn time handed in
      let valid : AllValid rt batch batch.events 0 =
        subst (λ (b : CommittedBatch). AllValid rt b b.events 0) same
          (committed_batch-AllValid s commit_lsn end_lsn time v) in
      let lower : commit_lsn ≡ batch.commit_lsn =
        unfold committed_batch in ap (λ (b : CommittedBatch). b.commit_lsn) same in
      let upper : end_lsn ≡ batch.commit_end_lsn =
        unfold committed_batch in ap (λ (b : CommittedBatch). b.commit_end_lsn) same in
      persist-error clock db batch {x = x} valid (omega (arith, lower, upper, ordered)) h
