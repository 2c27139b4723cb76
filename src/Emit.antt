-- ===== src/Emit.antt =====
-- sdk/go/writerelay.go: `encode`, `Emit` and `EmitSQL`. Texts are bytes. The tests for UTF-8 and JSON,
-- the parser of times, the JSON encoder and the database are arguments.
pub mod Escapes
pub mod Document
pub mod Rounds
pub mod Paired
pub mod Envelope
use write_relay.Prelude.{
  ℕ, zero, suc, ◌+◌, ◌-◌, Bool, true, false, not, ◌&&◌, ◌||◌, Option, none, some, List, [], ◌∷◌,
  leb, ◌==◌, all, any, take, length, if◌then◌else◌, bytes_eq,
}
use write_relay.Emit.Escapes.{scans}

pub record Event : Type 0 where
  pub id : List ℕ
  pub source : List ℕ
  pub event_type : List ℕ
  pub spec_version : List ℕ
  pub subject : Option (List ℕ)
  pub time : List ℕ
  pub data_content_type : List ℕ
  pub event_data : Option (List ℕ)

pub record Library : Type 0 where
  pub utf8_valid : List ℕ → Bool
  pub json_valid : List ℕ → Bool
  pub parses_time : List ℕ → Bool
  pub marshal : Event → Option (List ℕ)

-- The database answers with its own errors.
pub data EmitError : Type 0 where
  invalid_event nil_transaction : EmitError
  database : ℕ → EmitError

pub data Outcome {ℓ} (A : Type ℓ) : Type ℓ where
  failed : EmitError → Outcome A
  done : A → Outcome A

abbrev pub is_empty : List ℕ → Bool
is_empty [] = true
is_empty (_ ∷ _) = false

-- `1.0` and `application/json`
abbrev pub version_1_0 : List ℕ
version_1_0 = b'1' ∷ b'.' ∷ b'0' ∷ []

abbrev pub application_json : List ℕ
application_json =
    97 ∷ 112 ∷ 112 ∷ 108 ∷ 105 ∷ 99 ∷ 97 ∷ 116 ∷ 105 ∷ 111 ∷ 110 ∷ 47 ∷ 106 ∷ 115 ∷ 111 ∷ 110 ∷ []

abbrev pub drop : ℕ → List ℕ → List ℕ
drop zero xs = xs
drop (suc n) [] = []
drop (suc n) (x ∷ xs) = drop n xs

abbrev pub is_digit : ℕ → Bool
is_digit c = leb 48 c && leb c 57

-- `[+-]\d{2}:\d{2}` or `Z`, to the end.
abbrev pub is_zone : List ℕ → Bool
is_zone (z ∷ []) = z == 90
is_zone (sign ∷ a ∷ b ∷ colon ∷ c ∷ d ∷ []) =
    ((sign == 43 || sign == 45) && (is_digit a && is_digit b))
    && (colon == 58 && (is_digit c && is_digit d))
is_zone _ = false

-- `\d*` and a zone.
unfoldable pub is_fraction : List ℕ → Bool
is_fraction [] = false
is_fraction (c ∷ cs) = let more = is_fraction cs in if is_digit c then more else is_zone (c ∷ cs)

abbrev pub is_fraction_or_zone : List ℕ → Bool
is_fraction_or_zone (c ∷ d ∷ cs) =
    if c == 46 then is_digit d && is_fraction cs else is_zone (c ∷ d ∷ cs)
is_fraction_or_zone cs = is_zone cs

-- `\d{4}-\d{2}-\d{2}T\d{2}:\d{2}:\d{2}`, a digit where the shape has a 0.
abbrev pub has_shape : List ℕ → List ℕ → Bool
has_shape [] cs = is_fraction_or_zone cs
has_shape (s ∷ shape) [] = false
has_shape (s ∷ shape) (c ∷ cs) = (if s == 48 then is_digit c else c == s) && has_shape shape cs

abbrev pub timestamp_shape : List ℕ
timestamp_shape =
    48 ∷ 48 ∷ 48 ∷ 48 ∷ 45 ∷ 48 ∷ 48 ∷ 45 ∷ 48 ∷ 48 ∷ 84 ∷ 48 ∷ 48 ∷ 58 ∷ 48 ∷ 48 ∷ 58 ∷ 48 ∷ 48
    ∷ []

unfoldable pub matches_timestamp : List ℕ → Bool
matches_timestamp = has_shape timestamp_shape

-- The order of byte strings.
abbrev pub text_gt : List ℕ → List ℕ → Bool
text_gt [] ys = false
text_gt (x ∷ xs) [] = true
text_gt (x ∷ xs) (y ∷ ys) = not (leb x y) || (x == y && text_gt xs ys)

abbrev pub ends_with_z : List ℕ → Bool
ends_with_z time = bytes_eq (drop (length time - 1) time) (90 ∷ [])

unfoldable pub valid_offset : List ℕ → Bool
valid_offset offset =
    not (text_gt (take 2 offset) (50 ∷ 51 ∷ []) || text_gt (drop 3 offset) (53 ∷ 57 ∷ []))

module _ (lib : Library) where
  unfoldable pub valid_string : List ℕ → Bool
  valid_string value = lib.utf8_valid value && not (any (λ c. c == 0) value)

  unfoldable pub valid_json : List ℕ → Bool
  valid_json bytes = (lib.utf8_valid bytes && lib.json_valid bytes) && scans bytes

  unfoldable pub valid_time : List ℕ → Bool
  valid_time time =
      (lib.parses_time time && matches_timestamp time)
      && (ends_with_z time || valid_offset (drop (length time - 5) time))

  abbrev pub valid_optional : Option (List ℕ) → Bool
  valid_optional none = true
  valid_optional (some value) = valid_string value

  abbrev pub valid_data : Option (List ℕ) → Bool
  valid_data none = true
  valid_data (some bytes) = valid_json bytes

  -- The defaults that `encode` fills in.
  unfoldable pub with_version : Event → Event
  with_version event =
      if is_empty event.spec_version then record event { spec_version = version_1_0 } else event

  unfoldable pub with_content_type : Event → Event
  with_content_type event = elim event.event_data [
    | none ↦ event
    | some bytes ↦
        if is_empty event.data_content_type
        then record event { data_content_type = application_json }
        else event
  ]

  abbrev pub is_required : List ℕ → Bool
  is_required value = not (is_empty value) && valid_string value

  -- The checks in the order of the source.
  unfoldable pub is_valid_event : Event → Bool
  is_valid_event event =
      (is_required event.id && (is_required event.source && is_required event.event_type))
      && (bytes_eq event.spec_version version_1_0
          && (valid_optional event.subject
              && (valid_string event.data_content_type
                  && ((is_empty event.time || valid_time event.time)
                      && valid_data event.event_data))))

  abbrev pub marshalled : Option (List ℕ) → Outcome (List ℕ)
  marshalled none = failed invalid_event
  marshalled (some payload) = done payload

  unfoldable pub encode : Event → Outcome (List ℕ)
  encode event =
      if is_valid_event (with_version event)
      then marshalled (lib.marshal (with_content_type (with_version event)))
      else failed invalid_event

  module _ {D : Type 0} where
    -- What the database becomes and answers to the statement.
    abbrev pub executed : D × Option EmitError → D × Outcome (Unit {0})
    executed (db, none) = (db, done tt)
    executed (db, some failure) = (db, failed failure)

    abbrev pub send_encoded :
        (D → List ℕ → D × Option EmitError) → D → Outcome (List ℕ) → D × Outcome (Unit {0})
    send_encoded execute db (failed failure) = (db, failed failure)
    send_encoded execute db (done payload) = executed (execute db payload)

    -- A transaction that is not nil executes the statement with a payload in its database.
    unfoldable pub emit :
        Option (D → List ℕ → D × Option EmitError) → D → Event → D × Outcome (Unit {0})
    emit none db event = (db, failed nil_transaction)
    emit (some execute) db event = send_encoded execute db (encode event)
