-- ===== src/Emit/Envelope.antt =====
-- What reaches the database, and when.
use write_relay.Prelude.{
  ℕ, suc, ◌≡◌, ◌≢◌, ◌⊎◌, true, Option, none, some, List, [], ◌∷◌, All, length,
}
use write_relay.Emit.Escapes.{verdict, scan}
use write_relay.Emit.{Event, Library, EmitError, Outcome, invalid_event, failed, done, version_1_0}

-- UTF-8 without U+0000, and not empty.
abbrev pub IsText : Library → List ℕ → Type 0
IsText lib value = (lib.utf8_valid value ≡ true) × All (λ c. c ≢ 0) value

abbrev pub NonEmpty : List ℕ → Type 0
NonEmpty [] = ⊥
NonEmpty (_ ∷ _) = Unit {0}

abbrev pub IsJson : Library → Option (List ℕ) → Type 0
IsJson lib none = Unit {0}
IsJson lib (some bytes) =
    (lib.utf8_valid bytes ≡ true)
    × (lib.json_valid bytes ≡ true)
    × (scan (suc (length bytes)) bytes ≡ verdict true)

-- The payload is the encoding of the event with its defaults, and the event is sound.
pub record Encoded (lib : Library) (event : Event) (payload : List ℕ) : Type 0 where
  pub completed : Event
  pub marshals : lib.marshal completed ≡ some payload
  pub same :
      (completed.id ≡ event.id)
      × (completed.source ≡ event.source)
      × (completed.event_type ≡ event.event_type)
      × (completed.subject ≡ event.subject)
      × (completed.time ≡ event.time)
      × (completed.event_data ≡ event.event_data)
  pub version : completed.spec_version ≡ version_1_0
  pub id : NonEmpty event.id × IsText lib event.id
  pub source : NonEmpty event.source × IsText lib event.source
  pub event_type : NonEmpty event.event_type × IsText lib event.event_type
  pub content_type : (event.event_data ≡ none) ⊎ NonEmpty completed.data_content_type
  pub json : IsJson lib event.event_data

-- What `Emit` may do in a transaction: nothing, with an error of its own, or one execution of the
-- statement with an encoding of the event, whose answer it passes on.
abbrev pub Emits :
    {D : Type 0}
    → Library
    → (D → List ℕ → D × Option EmitError)
    → D
    → Event
    → D × Outcome (Unit {0})
    → Type 0
Emits lib execute db event (db', outcome) =
    ((db' ≡ db) × (outcome ≡ failed invalid_event))
    ⊎ ((payload : List ℕ) × Encoded lib event payload
        × ((execute db payload ≡ (db', none)) × (outcome ≡ done tt)
            ⊎ (e : EmitError) × (execute db payload ≡ (db', some e)) × (outcome ≡ failed e)))
