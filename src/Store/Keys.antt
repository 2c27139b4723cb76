-- ===== src/Store/Keys.antt =====
-- The primary key of deliveries: at most one row for each event and sink.
use mathlib.Core.List.{Memᴰ}
use write_relay.Prelude.{
  ℕ, ◌≡◌, refl, sym, subst, ◌∙◌, Bool, true, false, none, some, List, [], ◌∷◌, ◌++◌, arith, any,
  find, update, count, any-append, Bool-cases, inl, inr, if◌then◌else◌, false≢true,
}
use write_relay.Store.{DeliveryRow, has_key, insert_delivery, new_delivery}

abbrev pub KeysUnique : List DeliveryRow → Type 0
KeysUnique [] = Unit {0}
KeysUnique (d ∷ ds) = (any (has_key d.event_sequence d.sink_id) ds ≡ false) × KeysUnique ds

KeysUnique-append :
    (ds : List DeliveryRow) (x : DeliveryRow)
    → KeysUnique ds
    → any (has_key x.event_sequence x.sink_id) ds ≡ false
    → KeysUnique (ds ++ x ∷ [])
KeysUnique-append [] x u free = (refl, tt)
KeysUnique-append (d ∷ ds) x u free = (
  rw (any-append (has_key d.event_sequence d.sink_id) ds (x ∷ [])) (ground arith),
  KeysUnique-append ds x u.1 (ground arith),
)

pub insert_delivery-KeysUnique :
    (now sequence sink_id : ℕ) (ds : List DeliveryRow)
    → KeysUnique ds
    → KeysUnique (insert_delivery now sequence sink_id ds)
unfolding insert_delivery
insert_delivery-KeysUnique now sequence sink_id ds u =
    elim (Bool-cases (any (has_key sequence sink_id) ds)) [
      | inl taken ↦ rw taken u
      | inr free ↦ rw free (KeysUnique-append ds (new_delivery now sequence sink_id) u free)
    ]

-- An UPDATE that leaves the key alone.
abbrev pub KeepsKey : (DeliveryRow → DeliveryRow) → Type 0
KeepsKey f =
    (d : DeliveryRow) → ((f d).event_sequence ≡ d.event_sequence) × ((f d).sink_id ≡ d.sink_id)

any-update :
    (p : DeliveryRow → Bool) (f : DeliveryRow → DeliveryRow) (sequence sink_id : ℕ)
    (ds : List DeliveryRow)
    → KeepsKey f
    → any (has_key sequence sink_id) (update p f ds) ≡ any (has_key sequence sink_id) ds
any-update p f sequence sink_id [] k = refl
any-update p f sequence sink_id (d ∷ ds) k =
    ground (arith, k d, any-update p f sequence sink_id ds k)

pub update-KeysUnique :
    (p : DeliveryRow → Bool) (f : DeliveryRow → DeliveryRow) (ds : List DeliveryRow)
    → KeepsKey f
    → KeysUnique ds
    → KeysUnique (update p f ds)
update-KeysUnique p f [] k u = tt
update-KeysUnique p f (d ∷ ds) k u =
    (any-update p f _ _ ds k ∙ ground (arith, k d, u.0), update-KeysUnique p f ds k u.1)

has_key_parts :
    (sequence sink_id : ℕ) (d : DeliveryRow)
    → has_key sequence sink_id d ≡ true
    → (d.event_sequence ≡ sequence) × (d.sink_id ≡ sink_id)
has_key_parts sequence sink_id d h = ground arith

any-mem :
    (sequence sink_id : ℕ) (ds : List DeliveryRow) {row : DeliveryRow}
    → Memᴰ row ds
    → has_key sequence sink_id row ≡ true
    → any (has_key sequence sink_id) ds ≡ true
any-mem sequence sink_id [] m h = elim m [ ]
any-mem sequence sink_id (d ∷ ds) (Memᴰ.head e) h =
    rw (subst (λ (x : DeliveryRow). has_key sequence sink_id x ≡ true) e h)
any-mem sequence sink_id (d ∷ ds) (Memᴰ.tail m) h = ground (arith, any-mem sequence sink_id ds m h)

-- A condition that implies a key holds of no row if no row has the key, and else of at most one.
module _ (p : DeliveryRow → Bool) (sequence sink_id : ℕ)
    (key : (d : DeliveryRow) → p d ≡ true → has_key sequence sink_id d ≡ true) where
  count_free : (ds : List DeliveryRow) → any (has_key sequence sink_id) ds ≡ false → count p ds ≡ 0
  count_free [] h = refl
  count_free (d ∷ ds) h = ground (arith, key d, count_free ds)

  -- A row that meets it leaves no other row with the key behind it.
  alone :
      (d : DeliveryRow) (ds : List DeliveryRow)
      → KeysUnique (d ∷ ds)
      → p d ≡ true
      → any (has_key sequence sink_id) ds ≡ false
  alone d ds u hit =
      let (of_event, of_sink) = has_key_parts sequence sink_id d (key d hit) in
      subst (λ (a : ℕ). any (has_key a sink_id) ds ≡ false) of_event
        (subst (λ (b : ℕ). any (has_key d.event_sequence b) ds ≡ false) of_sink u.0)

  pub count_one :
      (ds : List DeliveryRow) (row : DeliveryRow)
      → KeysUnique ds
      → Memᴰ row ds
      → p row ≡ true
      → count p ds ≡ 1
  count_one [] row u m h = elim m [ ]
  count_one (d ∷ ds) row u (Memᴰ.head e) h =
      let hit : p d ≡ true = subst (λ (x : DeliveryRow). p x ≡ true) e h in
      rw hit (omega (arith, count_free ds (alone d ds u hit)))
  count_one (d ∷ ds) row u (Memᴰ.tail m) h = elim (Bool-cases (p d)) [
    | inl hit ↦
        absurd (false≢true (sym (alone d ds u hit) ∙ any-mem sequence sink_id ds m (key row h)))
    | inr miss ↦ rw miss (omega (arith, count_one ds row u.1 m h))
  ]

-- A row that a lookup by key finds, after an UPDATE.
pub find-update :
    (p : DeliveryRow → Bool) (f : DeliveryRow → DeliveryRow) (sequence sink_id : ℕ)
    (ds : List DeliveryRow)
    → KeepsKey f
    → find (has_key sequence sink_id) (update p f ds) ≡ elim (find (has_key sequence sink_id) ds) [
      | none ↦ none
      | some d ↦ some (if p d then f d else d)
    ]
find-update p f sequence sink_id [] k = refl
find-update p f sequence sink_id (d ∷ ds) k =
    ground (arith, k d, find-update p f sequence sink_id ds k)

-- An UPDATE that matches no row changes nothing.
pub update_none :
    (p : DeliveryRow → Bool) (f : DeliveryRow → DeliveryRow) (ds : List DeliveryRow)
    → any p ds ≡ false
    → (update p f ds ≡ ds) × (count p ds ≡ 0)
update_none p f [] h = (refl, refl)
update_none p f (d ∷ ds) h = ground (arith, update_none p f ds)

-- The lookup by a row's own key finds the row.
pub find_unique :
    (ds : List DeliveryRow) (row : DeliveryRow)
    → KeysUnique ds
    → Memᴰ row ds
    → find (has_key row.event_sequence row.sink_id) ds ≡ some row
find_unique [] row u m = elim m [ ]
find_unique (d ∷ ds) row u (Memᴰ.head e) = ground (arith, e)
find_unique (d ∷ ds) row u (Memᴰ.tail m) =
    elim (Bool-cases (has_key row.event_sequence row.sink_id d)) [
      | inl same ↦
          let (of_event, of_sink) = has_key_parts row.event_sequence row.sink_id d same in
          absurd (
            false≢true (
              sym u.0
              ∙ any-mem d.event_sequence d.sink_id ds m (ground (arith, of_event, of_sink))))
      | inr differs ↦ rw differs (find_unique ds row u.1 m)
    ]
