-- ===== src/Event.antt =====
-- internal/event/event.go: the validation of an event's envelope. The decoders of encoding/json and
-- of RFC 3339, and SHA-256, are the parameters in `Runtime`.
pub mod Envelope
use write_relay.Prelude.{
  ℕ, String, Bool, true, false, not, ◌&&◌, Option, none, some, List, [], ◌∷◌, ltb, length,
  if◌then◌else◌, str_eq,
}
use write_relay.Spool.{Result, ok, err, malformed, oversized, ◌>>=◌, ◌>>◌, guard}

-- A member of the decoded object, as `json.Unmarshal` into a string sees it: `null` leaves the
-- string empty and reports no error.
pub data RawMessage : Type 0 where
  null : RawMessage
  text : String → RawMessage
  other_value : RawMessage

-- `decoder.Decode(&object)` and then `ensureEOF`: `object` holds the members, and whether nothing
-- but white space follows the value.
pub data Decoded : Type 0 where
  invalid_json : Decoded
  null_root : Decoded
  object : List (String × RawMessage) → Bool → Decoded

pub record Runtime : Type 0 where
  pub sha256 : List ℕ → List ℕ
  pub decode : List ℕ → Decoded
  pub parse_rfc3339 : String → Option ℕ

pub record Metadata : Type 0 where
  pub spec_version : String
  pub id : String
  pub source : String
  pub event_type : String
  pub subject : String
  pub time : Option ℕ
  pub data_content_type : String

-- `raw, ok := object[name]`: the members have distinct names once they are decoded.
unfoldable pub member : String → List (String × RawMessage) → Option RawMessage
member name [] = none
member name ((key, raw) ∷ rest) = if str_eq key name then some raw else member name rest

unfoldable pub decode_string : RawMessage → Result String
decode_string null = ok ""
decode_string (text value) = ok value
decode_string other_value = err malformed

unfoldable pub required_from : Option RawMessage → Result String
required_from none = err malformed
required_from (some raw) = do
  value ← decode_string raw
  guard (not (str_eq value "")) malformed
  ok value

unfoldable pub required_string : List (String × RawMessage) → String → Result String
required_string members name = required_from (member name members)

unfoldable pub optional_from : Bool → Option RawMessage → Result String
optional_from allow_empty none = ok ""
optional_from allow_empty (some raw) = do
  value ← decode_string raw
  if not allow_empty && str_eq value "" then err malformed else ok value

unfoldable pub optional_string : List (String × RawMessage) → String → Bool → Result String
optional_string members name allow_empty = optional_from allow_empty (member name members)

module _ (rt : Runtime) where
  unfoldable pub parsed_time : Option ℕ → Result (Option ℕ)
  parsed_time none = err malformed
  parsed_time (some at) = ok (some at)

  unfoldable pub time_from : Option RawMessage → Result (Option ℕ)
  time_from none = ok none
  time_from (some raw) = do
    value ← decode_string raw
    guard (not (str_eq value "")) malformed
    parsed_time (rt.parse_rfc3339 value)

  unfoldable pub validate_members : List (String × RawMessage) → Result Metadata
  validate_members members = do
    spec_version ← required_string members "specversion"
    guard (str_eq spec_version "1.0") malformed
    id ← required_string members "id"
    source ← required_string members "source"
    event_type ← required_string members "type"
    subject ← optional_string members "subject" true
    data_content_type ← optional_string members "datacontenttype" false
    time ← time_from (member "time" members)
    ok (record {
      spec_version = spec_version;
      id = id;
      source = source;
      event_type = event_type;
      subject = subject;
      time = time;
      data_content_type = data_content_type;
    })

  unfoldable pub validate_decoded : Decoded → Result Metadata
  unfolding validate_members
  validate_decoded invalid_json = err malformed
  validate_decoded null_root = err malformed
  validate_decoded (object members at_end) = do guard at_end malformed; validate_members members

  unfoldable pub validate : List ℕ → ℕ → Result Metadata
  validate payload max_bytes = do
    guard (not (ltb max_bytes 1)) oversized
    guard (not (ltb max_bytes (length payload))) oversized
    validate_decoded (rt.decode payload)
