-- ===== src/Tests/Capture.antt =====
-- A transaction of two protected messages, one that is not transactional, and one envelope.
use write_relay.Prelude.{ℕ, ◌≡◌, ◌≤◌, String, refl, true, false, List, [], ◌∷◌, none, some, length}
use write_relay.Spool.{CommittedBatch, Error, ok, err}
use write_relay.Event.{
  RawMessage, object, Metadata, member, decode_string, required_from, required_string,
  optional_from, optional_string, time_from, validate_members, validate_decoded, validate,
}
use write_relay.Event.Envelope.{IsEnvelope, validate-IsEnvelope}
use write_relay.Capture.{
  StateMachine, Message, begin, logical, commit, table_change, new_state_machine, consume,
}
use write_relay.Capture.Invariant.{IsValid, new_state_machine-IsValid, consume-IsValid}
use write_relay.Capture.Body.{consume_body, admissible, is_valid, protected_messages, fits}
use write_relay.Capture.Transaction.{
  IsEmptied, IsHeaded, Captures, consume_transaction, consume_transaction_refused,
}
use write_relay.Tests.Data.{rt, limits, message}

abbrev idle : StateMachine
idle = record {
  limits = limits;
  in_transaction = false;
  transaction_id = 0;
  events = [];
  buffered_bytes = 0;
}

abbrev body : List Message
body = logical (message 1 true) ∷ table_change ∷ logical (message 2 true) ∷ []

abbrev broken : List Message
broken = logical (message 1 false) ∷ []

abbrev metadata : Metadata
metadata = record {
  spec_version = "1.0";
  id = "one";
  source = "shop";
  event_type = "paid";
  subject = "";
  time = none;
  data_content_type = "";
}

valid_one : validate rt (1 ∷ []) 10 ≡ ok metadata
unfolding validate validate_decoded validate_members required_string required_from optional_string
    optional_from time_from member decode_string
valid_one = refl

validate-IsEnvelope_example :
    (length {A = ℕ} (1 ∷ []) ≤ 10)
    × ((ms : List (String × RawMessage)) × (rt.decode (1 ∷ []) ≡ object ms true)
        × IsEnvelope ms metadata)
validate-IsEnvelope_example = validate-IsEnvelope rt (1 ∷ []) 10 valid_one

body_fits : fits rt limits body ≡ true
unfolding fits admissible is_valid validate validate_decoded validate_members required_string
    required_from optional_string optional_from time_from member decode_string
body_fits = refl

broken_unfit : fits rt limits broken ≡ false
unfolding fits admissible is_valid validate validate_decoded validate_members required_string
    required_from optional_string optional_from time_from member decode_string
broken_unfit = refl

consume_transaction_example :
    (t : StateMachine) × (u : StateMachine) × (batch : CommittedBatch) × (consume_body rt idle
        (begin 7 ∷ body)
      ≡ ok t)
    × (consume rt t (commit 10 12 100) ≡ (u, ok (some batch)))
    × IsEmptied idle u
    × IsHeaded 7 10 12 100 batch
    × Captures rt 10 batch 0 (protected_messages "relay" body) batch.events
consume_transaction_example =
    consume_transaction rt idle 7 body refl (tt, (tt, (tt, tt))) 10 12 100 body_fits

consume_transaction_refused_example :
    (e : Error) × (consume_body rt idle (begin 7 ∷ broken) ≡ err e)
consume_transaction_refused_example =
    consume_transaction_refused rt idle 7 broken refl (tt, tt) broken_unfit

consume-IsValid_example : IsValid rt (consume rt (new_state_machine limits) (begin 7)).0
consume-IsValid_example =
    consume-IsValid rt (new_state_machine limits) (begin 7) (new_state_machine-IsValid rt limits)
