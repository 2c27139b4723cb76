-- ===== src/Capture/Invariant.antt =====
-- The state machine's buffer between two messages.
use write_relay.Prelude.{
  ℕ, suc, ◌+◌, ◌≤◌, ◌≡◌, refl, true, false, inl, inr, List, [], ◌∷◌, ◌++◌, arith, length, str_eq,
  All, All-append, length-append, Bool-cases, false≢true, sym, ◌∙◌,
}
use write_relay.Spool.{CapturedEvent, ok, Result-cases}
use write_relay.Event.{Runtime, Metadata, validate}
use write_relay.Event.Envelope.{validate-IsEnvelope}
use write_relay.Capture.{
  Limits, StateMachine, LogicalMessage, Message, begin, logical, commit, table_change,
  other_message, new_state_machine, reset, captured_event, buffer_event, consume_logical_message,
  consume,
}

abbrev pub total_bytes : List CapturedEvent → ℕ
total_bytes [] = 0
total_bytes (e ∷ es) = length e.payload + total_bytes es

total_bytes-append :
    (es fs : List CapturedEvent) → total_bytes (es ++ fs) ≡ total_bytes es + total_bytes fs
total_bytes-append [] fs = omega arith
total_bytes-append (e ∷ es) fs = omega (arith, total_bytes-append es fs)

module _ (rt : Runtime) where
  -- An event that can be in a transaction: identified, within the size limit, with its own digest.
  pub record IsCaptured (limit : ℕ) (e : CapturedEvent) : Type 0 where
    pub source_nonempty : str_eq e.source "" ≡ false
    pub id_nonempty : str_eq e.id "" ≡ false
    pub type_nonempty : str_eq e.event_type "" ≡ false
    pub size : length e.payload ≤ limit
    pub digest : e.payload_sha256 ≡ rt.sha256 e.payload

  pub record IsValid (s : StateMachine) : Type 0 where
    pub idle_empty : s.in_transaction ≡ false → s.events ≡ []
    pub events_within : length s.events ≤ s.max_events
    pub bytes_exact : s.buffered_bytes ≡ total_bytes s.events
    pub bytes_within : s.buffered_bytes ≤ s.max_bytes
    pub captured : All (IsCaptured s.max_event_bytes) s.events

  pub new_state_machine-IsValid : (limits : Limits) → IsValid (new_state_machine limits)
  unfolding new_state_machine
  new_state_machine-IsValid limits = record {
    idle_empty = λ _. refl;
    events_within = omega arith;
    bytes_exact = refl;
    bytes_within = omega arith;
    captured = tt;
  }

  pub reset-IsValid : (s : StateMachine) → IsValid (reset s)
  unfolding reset
  reset-IsValid s = record {
    idle_empty = λ _. refl;
    events_within = omega arith;
    bytes_exact = refl;
    bytes_within = omega arith;
    captured = tt;
  }

  captured_event-IsCaptured :
      (m : LogicalMessage) (limit : ℕ) {metadata : Metadata}
      → validate rt m.content limit ≡ ok metadata
      → IsCaptured limit (captured_event rt metadata m)
  captured_event-IsCaptured m limit h =
      let (size, decoded) = validate-IsEnvelope rt m.content limit h in
      let (members, _, envelope) = decoded in
      record {
        source_nonempty = envelope.source_nonempty;
        id_nonempty = envelope.id_nonempty;
        type_nonempty = envelope.type_nonempty;
        size = size;
        digest = refl;
      }

  -- Appending an accepted event, within the limits, keeps the invariant.
  buffer_event-IsValid :
      (s : StateMachine) (m : LogicalMessage)
      → IsValid s
      → s.in_transaction ≡ true
      → suc (length s.events) ≤ s.max_events
      → s.buffered_bytes + length m.content ≤ s.max_bytes
      → IsValid (buffer_event rt s m (validate rt m.content s.max_event_bytes)).0
  unfolding buffer_event
  buffer_event-IsValid s m v active room bytes =
      elim (Result-cases (validate rt m.content s.max_event_bytes)) [
        | inl (metadata, e) ↦
            rw (e, buffer_event)
              (record {
                idle_empty = λ idle. absurd (false≢true (sym idle ∙ active));
                events_within =
                    omega (arith, length-append s.events (captured_event rt metadata m ∷ []));
                bytes_exact = omega (
                  arith,
                  v.bytes_exact,
                  total_bytes-append s.events (captured_event rt metadata m ∷ []),
                );
                bytes_within = bytes;
                captured =
                    All-append (IsCaptured s.max_event_bytes) s.events _ v.captured
                      (captured_event-IsCaptured m s.max_event_bytes e, tt);
              })
        | inr (_, e) ↦ rw (e, buffer_event) v
      ]

  consume_logical_message-IsValid :
      (s : StateMachine) (m : LogicalMessage)
      → IsValid s
      → IsValid (consume_logical_message rt s m).0
  unfolding consume_logical_message
  consume_logical_message-IsValid s m v = ground (arith, buffer_event-IsValid s m v)

  -- If the buffer is within its limits, its byte count exact, its events identified and digested,
  -- and an idle machine's buffer empty, then every message, accepted or refused, keeps it so.
  pub consume-IsValid : (s : StateMachine) (m : Message) → IsValid s → IsValid (consume rt s m).0
  unfolding consume
  consume-IsValid s (begin xid) v = elim (Bool-cases s.in_transaction) [
    | inl e ↦ simp e v
    | inr e ↦ simp e (record {
      idle_empty = λ _. refl;
      events_within = omega arith;
      bytes_exact = refl;
      bytes_within = omega arith;
      captured = tt;
    })
  ]
  consume-IsValid s (logical m) v = consume_logical_message-IsValid s m v
  consume-IsValid s (commit commit_lsn end_lsn time) v = elim (Bool-cases s.in_transaction) [
    | inl e ↦ simp e (reset-IsValid s)
    | inr e ↦ simp e v
  ]
  consume-IsValid s table_change v = v
  consume-IsValid s other_message v = v
