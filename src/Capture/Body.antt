-- ===== src/Capture/Body.antt =====
-- The messages between Begin and Commit: which are protected, whether all of them fit, and what they
-- become, in a description that does not mention the machine's states.
use mathlib.Core.List.{append_assoc, append-nil}
use native.Mathlib.Nat.{add_assoc, add-zero}
use write_relay.Prelude.{
  ℕ, ◌+◌, ◌≤◌, String, ◌≡◌, refl, Bool, true, false, ◌&&◌, inl, inr, Option, none, List, [], ◌∷◌,
  ◌++◌, arith, leb, length, all, str_eq, All, Bool-cases, if◌then◌else◌, length-append, sym, ◌∙◌,
  false≢true,
}
use write_relay.Spool.{Error, CapturedEvent, CommittedBatch, Result, ok, err, Result-cases}
use write_relay.Event.{Runtime, Metadata, validate}
use write_relay.Capture.{
  Limits, StateMachine, LogicalMessage, Message, begin, logical, commit, table_change,
  other_message, captured_event, buffer_event, consume_logical_message, consume,
}

-- The messages of one stream in order, up to the first error, which `runOnce` returns.
abbrev pub then_consume :
    StateMachine × Result (Option CommittedBatch)
    → (StateMachine → Result StateMachine)
    → Result StateMachine
then_consume (t, ok _) rest = rest t
then_consume (t, err e) rest = err e

-- A message that may stand between Begin and Commit.
abbrev pub IsBody : Message → Type 0
IsBody (begin _) = ⊥
IsBody (commit _ _ _) = ⊥
IsBody _ = Unit

abbrev pub protected_messages : String → List Message → List LogicalMessage
protected_messages prefix [] = []
protected_messages prefix (logical m ∷ ms) =
    let rest = protected_messages prefix ms in if str_eq m.prefix prefix then m ∷ rest else rest
protected_messages prefix (_ ∷ ms) = protected_messages prefix ms

abbrev pub content_bytes : List LogicalMessage → ℕ
content_bytes [] = 0
content_bytes (m ∷ ms) = length m.content + content_bytes ms

module _ (rt : Runtime) where
  unfoldable pub consume_body : StateMachine → List Message → Result StateMachine
  consume_body s [] = ok s
  consume_body s (m ∷ ms) = then_consume (consume rt s m) (λ t. consume_body t ms)

  unfoldable pub is_valid : Result Metadata → Bool
  is_valid (ok _) = true
  is_valid (err _) = false

  -- A protected message is accepted if it is transactional and its content is a valid event.
  unfoldable pub admissible : ℕ → LogicalMessage → Bool
  unfolding is_valid
  admissible limit m = m.transactional && is_valid (validate rt m.content limit)

  unfoldable pub event_of :
      LogicalMessage → Result Metadata → List CapturedEvent → List CapturedEvent
  event_of m (ok metadata) rest = captured_event rt metadata m ∷ rest
  event_of m (err _) rest = rest

  -- The events of the protected messages, in order.
  unfoldable pub events_of : ℕ → List LogicalMessage → List CapturedEvent
  unfolding event_of
  events_of limit [] = []
  events_of limit (m ∷ ms) = event_of m (validate rt m.content limit) (events_of limit ms)

  abbrev pub extend : StateMachine → List CapturedEvent → ℕ → StateMachine
  extend s es n = record s { events = s.events ++ es; buffered_bytes = s.buffered_bytes + n }

  -- Whether a buffer that holds `n` events and `b` bytes takes these messages too.
  abbrev pub takes : Limits → ℕ → ℕ → List LogicalMessage → Bool
  takes l n b ms =
      all (admissible l.max_event_bytes) ms
      && (leb (n + length ms) l.max_events && leb (b + content_bytes ms) l.max_bytes)

  unfoldable pub fits : Limits → List Message → Bool
  fits l ms = takes l 0 0 (protected_messages l.prefix ms)

  abbrev pub Outcome : StateMachine → List LogicalMessage → Result StateMachine → Type 0
  Outcome s ms r =
      (takes s.limits (length s.events) s.buffered_bytes ms ≡ true
        → r ≡ ok (extend s (events_of s.max_event_bytes ms) (content_bytes ms)))
      × (takes s.limits (length s.events) s.buffered_bytes ms ≡ false → (e : Error) × (r ≡ err e))

  takes-cons :
      (l : Limits) (n b : ℕ) (m : LogicalMessage) (ms : List LogicalMessage)
      → takes l n b (m ∷ []) ≡ true
      → takes l n b (m ∷ ms) ≡ takes l (n + 1) (b + length m.content) ms
  takes-cons l n b m ms h = ground arith

  takes_none :
      (l : Limits) (n b : ℕ) (m : LogicalMessage) (ms : List LogicalMessage)
      → takes l n b (m ∷ []) ≡ false
      → takes l n b (m ∷ ms) ≡ false
  takes_none l n b m ms h = ground arith

  extend-extend :
      (s : StateMachine) (e : CapturedEvent) (fs : List CapturedEvent) (n k : ℕ)
      → extend (extend s (e ∷ []) n) fs k ≡ extend s (e ∷ fs) (n + k)
  extend-extend s e fs n k = rw (append_assoc, add_assoc)

  module _ (s : StateMachine) (m : LogicalMessage) (active : s.in_transaction ≡ true)
      (same : str_eq m.prefix s.prefix ≡ true) where
    -- What one protected message does to a machine inside a transaction.
    consume_accepted :
        takes s.limits (length s.events) s.buffered_bytes (m ∷ []) ≡ true
        → (metadata : Metadata) × (validate rt m.content s.max_event_bytes ≡ ok metadata)
          × (consume rt s (logical m)
              ≡ (extend s (captured_event rt metadata m ∷ []) (length m.content), ok none))
    unfolding consume consume_logical_message buffer_event admissible
    consume_accepted h = elim (Result-cases (validate rt m.content s.max_event_bytes)) [
      | inl (metadata, e) ↦ (metadata, e, ground arith)
      | inr (_, e) ↦ absurd (ground arith)
    ]

    consume_refused :
        takes s.limits (length s.events) s.buffered_bytes (m ∷ []) ≡ false
        → (e : Error) × (consume rt s (logical m) ≡ (s, err e))
    unfolding consume consume_logical_message buffer_event admissible
    consume_refused h = elim (Result-cases (consume rt s (logical m)).1) [
      | inl (_, e) ↦ absurd (ground arith)
      | inr (e, q) ↦ (e, ground arith)
    ]

  consume_table : (s : StateMachine) → consume rt s table_change ≡ (s, ok none)
  unfolding consume
  consume_table s = refl

  consume_other : (s : StateMachine) → consume rt s other_message ≡ (s, ok none)
  unfolding consume
  consume_other s = refl

  consume_ignored :
      (s : StateMachine) (m : LogicalMessage)
      → str_eq m.prefix s.prefix ≡ false
      → consume rt s (logical m) ≡ (s, ok none)
  unfolding consume consume_logical_message
  consume_ignored s m h = rw h

  -- After an accepted message the outcome for the rest is the outcome for the whole.
  Outcome-cons :
      (s : StateMachine) (m : LogicalMessage) (ms : List LogicalMessage) (metadata : Metadata)
      (r : Result StateMachine)
      → takes s.limits (length s.events) s.buffered_bytes (m ∷ []) ≡ true
      → validate rt m.content s.max_event_bytes ≡ ok metadata
      → Outcome (extend s (captured_event rt metadata m ∷ []) (length m.content)) ms r
      → Outcome s (m ∷ ms) r
  unfolding events_of
  Outcome-cons s m ms metadata r h e o =
      let l : ℕ = length s.events in
      let next : takes s.limits (length (s.events ++ captured_event rt metadata m ∷ []))
            (s.buffered_bytes + length m.content) ms
          ≡ takes s.limits l s.buffered_bytes (m ∷ ms) =
        rw (length-append s.events (captured_event rt metadata m ∷ []))
          (sym (takes-cons s.limits l s.buffered_bytes m ms h)) in
      (λ t. o.0 (next ∙ t) ∙ rw e (rw extend-extend), λ t. o.1 (next ∙ t))

  takes_room :
      (l : Limits) (n b : ℕ) (m : LogicalMessage)
      → takes l n b (m ∷ []) ≡ true
      → (n + 1 ≤ l.max_events) × (b + length m.content ≤ l.max_bytes)
  takes_room l n b m h = ground arith

  pub consume_body-Outcome :
      (s : StateMachine) (ms : List Message)
      → All IsBody ms
      → s.in_transaction ≡ true
      → length s.events ≤ s.max_events
      → s.buffered_bytes ≤ s.max_bytes
      → Outcome s (protected_messages s.prefix ms) (consume_body s ms)
  unfolding consume_body events_of
  consume_body-Outcome s [] body active n b =
      (λ _. rw (append-nil, add-zero), λ t. absurd (ground arith))
  consume_body-Outcome s (begin _ ∷ ms) body active n b = absurd body.0
  consume_body-Outcome s (commit _ _ _ ∷ ms) body active n b = absurd body.0
  consume_body-Outcome s (table_change ∷ ms) body active n b =
      rw (consume_table s) (consume_body-Outcome s ms body.1 active n b)
  consume_body-Outcome s (other_message ∷ ms) body active n b =
      rw (consume_other s) (consume_body-Outcome s ms body.1 active n b)
  consume_body-Outcome s (logical m ∷ ms) body active n b =
      elim (Bool-cases (str_eq m.prefix s.prefix)) [
        | inr skip ↦
            rw (skip, consume_ignored s m skip) (consume_body-Outcome s ms body.1 active n b)
        | inl same ↦
            rw same
              (elim (Bool-cases (takes s.limits (length s.events) s.buffered_bytes (m ∷ []))) [
                | inr full ↦
                    let (e, refused) = consume_refused s m active same full in
                    rw refused (
                      λ t. absurd (false≢true (sym (takes_none s.limits _ _ m _ full) ∙ t)),
                      λ _. (e, refl),
                    )
                | inl room ↦
                    let (metadata, valid, accepted) = consume_accepted s m active same room in
                    let (events_room, bytes_room) =
                      takes_room s.limits (length s.events) s.buffered_bytes m room in
                    rw accepted (
                      Outcome-cons s m (protected_messages s.prefix ms) metadata _ room valid (
                        consume_body-Outcome
                          (extend s (captured_event rt metadata m ∷ []) (length m.content)) ms
                          body.1 active
                          (rw (length-append s.events (captured_event rt metadata m ∷ []))
                            events_room)
                          bytes_room))
              ])
      ]
