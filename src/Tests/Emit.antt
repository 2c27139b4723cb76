-- ===== src/Tests/Emit.antt =====
-- An event with a character outside the basic plane, written as a pair of escapes.
use write_relay.Prelude.{
  ℕ, suc, ◌≡◌, refl, ◌⊎◌, true, false, Option, none, some, List, [], ◌∷◌, All, length, bytes_eq,
}
use write_relay.Emit.{
  Event, Library, EmitError, failed, done, invalid_event, valid_string, valid_json, valid_time,
  valid_offset, matches_timestamp, is_fraction, with_version, with_content_type, is_valid_event,
  encode, emit,
}
use write_relay.Emit.Escapes.{hex_digit, parse_hex, round, verdict, scan, scans}
use write_relay.Emit.Document.{Token, plain, unit, bytes_of, IsToken, WellFormed, codes_of}
use write_relay.Emit.Paired.{scan_decides}

abbrev lib : Library
lib = record {
  utf8_valid = λ value. true;
  json_valid = λ value. true;
  parses_time = λ time. true;
  marshal = λ event. event.event_data;
}

-- `"\ud83d\ude00"`
abbrev smile : List Token
smile = plain 34 ∷ unit b'd' b'8' b'3' b'd' ∷ unit b'd' b'e' b'0' b'0' ∷ plain 34 ∷ []

-- `"\ud83d"`
abbrev half : List ℕ
half = 34 ∷ 92 ∷ b'u' ∷ b'd' ∷ b'8' ∷ b'3' ∷ b'd' ∷ 34 ∷ []

abbrev text_of : List ℕ
text_of =
    34 ∷ 92 ∷ b'u' ∷ b'd' ∷ b'8' ∷ b'3' ∷ b'd' ∷ 92 ∷ b'u' ∷ b'd' ∷ b'e' ∷ b'0' ∷ b'0' ∷ 34 ∷ []

smile_text : bytes_of smile ≡ text_of
unfolding bytes_of
smile_text = refl

smile-IsToken : All IsToken smile
unfolding parse_hex hex_digit
smile-IsToken = (refl, ((0xd83d, refl), ((0xde00, refl), (refl, tt))))

abbrev paid : Event
paid = record {
  id = 1 ∷ [];
  source = 2 ∷ [];
  event_type = 3 ∷ [];
  spec_version = [];
  subject = none;
  time =
      b'2' ∷ b'0' ∷ b'2' ∷ b'6' ∷ b'-' ∷ b'0' ∷ b'1' ∷ b'-' ∷ b'0' ∷ b'2' ∷ b'T' ∷ b'0' ∷ b'3'
      ∷ b':' ∷ b'0' ∷ b'4' ∷ b':' ∷ b'0' ∷ b'5' ∷ b'.' ∷ b'6' ∷ b'+' ∷ b'2' ∷ b'3' ∷ b':' ∷ b'5'
      ∷ b'9' ∷ [];
  data_content_type = [];
  event_data = some text_of;
}

-- A database that executes the statement, and keeps the payloads.
abbrev execute : List (List ℕ) → List ℕ → List (List ℕ) × Option EmitError
execute log payload = (payload ∷ log, none)

emits : emit lib (some execute) [] paid ≡ (text_of ∷ [], done tt)
unfolding emit encode is_valid_event valid_string valid_json valid_time valid_offset
    matches_timestamp is_fraction with_version with_content_type scans scan round parse_hex
    hex_digit bytes_eq
emits = refl

refuses_half :
    emit lib (some execute) [] (record paid { event_data = some half }) ≡ ([], failed invalid_event)
unfolding emit encode is_valid_event valid_string valid_json valid_time valid_offset
    matches_timestamp is_fraction with_version with_content_type scans scan round parse_hex
    hex_digit bytes_eq
refuses_half = refl

scan_decides_example :
    ((scan (suc (length (bytes_of smile))) (bytes_of smile) ≡ verdict true)
      × WellFormed (codes_of smile))
    ⊎ ((scan (suc (length (bytes_of smile))) (bytes_of smile) ≡ verdict false)
        × (WellFormed (codes_of smile) → ⊥))
scan_decides_example = scan_decides smile smile-IsToken
