-- ===== src/Event/Envelope.antt =====
-- What `Validate` of internal/event/event.go promises of an envelope that it accepts.
use write_relay.Prelude.{
  ℕ, ◌≤◌, String, ◌≡◌, refl, true, false, Option, none, some, List, arith, length, str_eq, eq_refl,
  eq_iff,
}
use write_relay.Spool.{ok, >>=-eq-ok}
use write_relay.Event.{
  RawMessage, null, text, other_value, Decoded, invalid_json, null_root, object, Runtime, Metadata,
  member, decode_string, required_from, required_string, validate_members, validate_decoded,
  validate,
}

required_from-ne-empty :
    (raw : Option RawMessage) {v : String}
    → required_from raw ≡ ok v
    → (raw ≡ some (text v)) × (str_eq v "" ≡ false)
unfolding required_from decode_string
required_from-ne-empty none h = cc
required_from-ne-empty (some null) h = ground (arith, eq_refl "")
required_from-ne-empty (some (text w)) h = ground arith
required_from-ne-empty (some other_value) h = cc

-- A required member is there, is a string, and is not empty.
required_string-ne-empty :
    (members : List (String × RawMessage)) (name : String) {v : String}
    → required_string members name ≡ ok v
    → (member name members ≡ some (text v)) × (str_eq v "" ≡ false)
unfolding required_string
required_string-ne-empty members name h = required_from-ne-empty (member name members) h

pub record IsEnvelope (members : List (String × RawMessage)) (m : Metadata) : Type 0 where
  pub version : member "specversion" members ≡ some (text "1.0")
  pub id_given : member "id" members ≡ some (text m.id)
  pub id_nonempty : str_eq m.id "" ≡ false
  pub source_given : member "source" members ≡ some (text m.source)
  pub source_nonempty : str_eq m.source "" ≡ false
  pub type_given : member "type" members ≡ some (text m.event_type)
  pub type_nonempty : str_eq m.event_type "" ≡ false

module _ (rt : Runtime) where
  validate_members-IsEnvelope :
      (members : List (String × RawMessage)) {m : Metadata}
      → validate_members rt members ≡ ok m
      → IsEnvelope members m
  unfolding validate_members
  validate_members-IsEnvelope members {m} h =
      let (v, version, rest) = >>=-eq-ok (required_string members "specversion") _ h in
      ground (
        arith,
        required_string-ne-empty members "specversion" {v = v},
        eq_iff v "1.0",
        required_string-ne-empty members "id" {v = m.id},
        required_string-ne-empty members "source" {v = m.source},
        required_string-ne-empty members "type" {v = m.event_type},
      )

  validate_decoded-IsEnvelope :
      (d : Decoded) {m : Metadata}
      → validate_decoded rt d ≡ ok m
      → (members : List (String × RawMessage)) × (d ≡ object members true) × IsEnvelope members m
  unfolding validate_decoded
  validate_decoded-IsEnvelope invalid_json h = cc
  validate_decoded-IsEnvelope null_root h = cc
  validate_decoded-IsEnvelope (object members true) h =
      (members, refl, validate_members-IsEnvelope members h)
  validate_decoded-IsEnvelope (object members false) h = cc

  validate_size :
      (payload : List ℕ) (max_bytes : ℕ) {m : Metadata}
      → validate rt payload max_bytes ≡ ok m
      → length payload ≤ max_bytes
  unfolding validate
  validate_size payload max_bytes h = ground arith

  validate-decoded :
      (payload : List ℕ) (max_bytes : ℕ) {m : Metadata}
      → validate rt payload max_bytes ≡ ok m
      → validate_decoded rt (rt.decode payload) ≡ ok m
  unfolding validate
  validate-decoded payload max_bytes h = ground arith

  -- A payload that `Validate` accepts is within the limit, decodes to one object, and has the
  -- envelope's required members as non-empty strings, with specversion "1.0".
  pub validate-IsEnvelope :
      (payload : List ℕ) (max_bytes : ℕ) {m : Metadata}
      → validate rt payload max_bytes ≡ ok m
      → (length payload ≤ max_bytes)
        × ((members : List (String × RawMessage)) × (rt.decode payload ≡ object members true)
            × IsEnvelope members m)
  validate-IsEnvelope payload max_bytes h = (
    validate_size payload max_bytes h,
    validate_decoded-IsEnvelope (rt.decode payload) (validate-decoded payload max_bytes h),
  )
