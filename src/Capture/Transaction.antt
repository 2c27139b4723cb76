-- ===== src/Capture/Transaction.antt =====
-- One transaction, from Begin to Commit, against the description of its messages.
use write_relay.Prelude.{
  ℕ, suc, ◌≡◌, ◌≢◌, refl, true, false, inl, inr, none, some, List, [], ◌∷◌, arith, all, All,
}
use write_relay.Spool.{Error, CapturedEvent, CommittedBatch, ok, err, Result-cases}
use write_relay.Event.{Runtime, Metadata, validate}
use write_relay.Capture.{
  StateMachine, LogicalMessage, Message, begin, commit, stamp, reset, committed_batch, consume,
}
use write_relay.Capture.Body.{
  IsBody, protected_messages, content_bytes, consume_body, is_valid, admissible, event_of,
  events_of, extend, fits, Outcome, consume_body-Outcome,
}

-- The machine `u` after the transaction, by the machine `s` before it.
pub record IsEmptied (s u : StateMachine) : Type 0 where
  pub limits : u.limits ≡ s.limits
  pub idle : u.in_transaction ≡ false
  pub transaction_id : u.transaction_id ≡ 0
  pub events : u.events ≡ []
  pub bytes : u.buffered_bytes ≡ 0

pub record IsHeaded (xid end_of_commit end_lsn time : ℕ) (batch : CommittedBatch) : Type 0 where
  pub transaction_id : batch.transaction_id ≡ xid
  pub commit_lsn : batch.commit_lsn ≡ end_of_commit
  pub commit_end_lsn : batch.commit_end_lsn ≡ end_lsn
  pub commit_time : batch.commit_time ≡ time

-- The event is that of the message, at this index of the batch.
pub record IsEventOf (rt : Runtime) (limit : ℕ) (batch : CommittedBatch) (index : ℕ)
    (m : LogicalMessage) (e : CapturedEvent) : Type 0 where
  pub metadata : Metadata
  pub valid : validate rt m.content limit ≡ ok metadata
  pub source : e.source ≡ metadata.source
  pub id : e.id ≡ metadata.id
  pub event_type : e.event_type ≡ metadata.event_type
  pub subject : e.subject ≡ metadata.subject
  pub payload : e.payload ≡ m.content
  pub payload_sha256 : e.payload_sha256 ≡ rt.sha256 m.content
  pub message_lsn : e.message_lsn ≡ m.lsn
  pub transaction_id : e.transaction_id ≡ batch.transaction_id
  pub commit_lsn : e.commit_lsn ≡ batch.commit_lsn
  pub commit_end_lsn : e.commit_end_lsn ≡ batch.commit_end_lsn
  pub commit_time : e.commit_time ≡ batch.commit_time
  pub message_index : e.message_index ≡ index

abbrev pub Captures :
    Runtime → ℕ → CommittedBatch → ℕ → List LogicalMessage → List CapturedEvent → Type 0
Captures rt limit batch index [] [] = Unit
Captures rt limit batch index (m ∷ ms) (e ∷ es) =
    IsEventOf rt limit batch index m e × Captures rt limit batch (suc index) ms es
Captures rt limit batch index [] (_ ∷ _) = ⊥
Captures rt limit batch index (_ ∷ _) [] = ⊥

module _ (rt : Runtime) where
  admissible_refused :
      (limit : ℕ) (m : LogicalMessage) {x : Error}
      → validate rt m.content limit ≡ err x
      → admissible rt limit m ≢ true
  unfolding admissible is_valid
  admissible_refused limit m refused h = ground (arith, refused, h)

  stamp-Captures :
      (limit : ℕ) (batch : CommittedBatch) (index : ℕ) (ms : List LogicalMessage)
      → all (admissible rt limit) ms ≡ true
      → Captures rt limit batch index ms (
          stamp batch.transaction_id batch.commit_lsn batch.commit_end_lsn batch.commit_time index
            (events_of rt limit ms))
  unfolding stamp events_of event_of
  stamp-Captures limit batch index [] h = tt
  stamp-Captures limit batch index (m ∷ ms) h = elim (Result-cases (validate rt m.content limit)) [
    | inr (x, refused) ↦ absurd (admissible_refused limit m refused (ground (arith, h)))
    | inl (metadata, valid) ↦ rw valid (
      record {
        metadata = metadata;
        valid = valid;
        source = refl;
        id = refl;
        event_type = refl;
        subject = refl;
        payload = refl;
        payload_sha256 = refl;
        message_lsn = refl;
        transaction_id = refl;
        commit_lsn = refl;
        commit_end_lsn = refl;
        commit_time = refl;
        message_index = refl;
      },
      stamp-Captures limit batch (suc index) ms (ground (arith, h)),
    )
  ]

  begun : StateMachine → ℕ → StateMachine
  begun s xid = record s {
    in_transaction = true;
    transaction_id = xid;
    events = [];
    buffered_bytes = 0;
  }

  consume_begin :
      (s : StateMachine) (xid : ℕ)
      → s.in_transaction ≡ false
      → consume rt s (begin xid) ≡ (begun s xid, ok none)
  unfolding consume begun
  consume_begin s xid idle = simp idle

  consume_commit :
      (t : StateMachine) (commit_lsn end_lsn time : ℕ)
      → t.in_transaction ≡ true
      → consume rt t (commit commit_lsn end_lsn time)
        ≡ (reset t, ok (some (committed_batch rt t commit_lsn end_lsn time)))
  unfolding consume
  consume_commit t commit_lsn end_lsn time active = simp active

  module _ (s : StateMachine) (xid : ℕ) (ms : List Message) (idle : s.in_transaction ≡ false)
      (body : All IsBody ms) where
    outcome :
        Outcome rt
          (begun s xid)
          (protected_messages s.prefix ms)
          (consume_body rt s (begin xid ∷ ms))
    unfolding consume_body begun
    outcome =
        rw (consume_begin s xid idle)
          (consume_body-Outcome rt (begun s xid) ms body refl (omega arith) (omega arith))

    -- Begin, any messages but Begin and Commit, and Commit, read by an idle machine. If every
    -- protected message is transactional and valid, and they fit the event and byte limits, then
    -- Commit returns one batch, of this transaction and with the positions and the time of the Commit.
    -- It has one event for each protected message, in order and numbered from 0, with the identity that
    -- was read from the content, the content and its digest, the message's position, and the same
    -- metadata. The machine is idle and empty again.
    pub consume_transaction :
        (commit_lsn end_lsn time : ℕ)
        → fits rt s.limits ms ≡ true
        → (t : StateMachine) × (u : StateMachine) × (batch : CommittedBatch) × (consume_body rt s
              (begin xid ∷ ms)
            ≡ ok t)
          × (consume rt t (commit commit_lsn end_lsn time) ≡ (u, ok (some batch)))
          × IsEmptied s u
          × IsHeaded xid commit_lsn end_lsn time batch
          × Captures rt s.max_event_bytes batch 0 (protected_messages s.prefix ms) batch.events
    unfolding fits begun reset committed_batch
    consume_transaction commit_lsn end_lsn time fit =
        let accepted : List LogicalMessage = protected_messages s.prefix ms in
        let t : StateMachine =
          extend rt (begun s xid) (events_of rt s.max_event_bytes accepted)
            (content_bytes accepted) in
        let batch = committed_batch rt t commit_lsn end_lsn time in
        (
          t,
          reset t,
          batch,
          outcome.0 fit,
          consume_commit t commit_lsn end_lsn time refl,
          record { limits = refl; idle = refl; transaction_id = refl; events = refl; bytes = refl },
          record {
            transaction_id = refl;
            commit_lsn = refl;
            commit_end_lsn = refl;
            commit_time = refl;
          },
          stamp-Captures s.max_event_bytes batch 0 accepted (ground (arith, fit)),
        )

    -- If some protected message is not transactional or not valid, or they exceed a limit, then a
    -- message before Commit is refused, so that the stream ends and no batch is returned.
    pub consume_transaction_refused :
        fits rt s.limits ms ≡ false → (e : Error) × (consume_body rt s (begin xid ∷ ms) ≡ err e)
    unfolding fits begun
    consume_transaction_refused unfit = outcome.1 unfit
