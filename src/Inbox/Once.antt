-- ===== src/Inbox/Once.antt =====
-- However often a delivery is received, and whatever fails, its handler's effects are committed once.
use write_relay.Prelude.{
  ℕ, ◌≡◌, refl, sym, ap, subst, ◌∙◌, Bool, true, false, ◌⊎◌, inl, inr, none, some, List, [], ◌∷◌,
  arith, Bool-cases, bytes_eq_refl, any,
}
use write_relay.Inbox.{
  Result, ok, err, InboxResult, processed, duplicate, Database, Commit, committed, refused, lost,
  Session, find_receipt, commit_transaction, finish, after_insert, run_inbox,
}

abbrev pub is_ok {ℓ} : {A : Type ℓ} → Result A → Bool
is_ok (ok a) = true
is_ok (err e) = false

Commit-cases : (c : Commit) → (c ≡ committed) ⊎ (c ≡ refused) ⊎ (c ≡ lost)
Commit-cases committed = inl refl
Commit-cases refused = inr (inl refl)
Commit-cases lost = inr (inr refl)

module _ {ℓ} {A : Type ℓ} (handle : A → A) (key digest : List ℕ) where
  -- The database after the one commit of this delivery.
  abbrev pub applied : Database A → Database A
  applied db = record { receipts = (key, digest) ∷ db.receipts; effects = handle db.effects }

  -- The webhook of one delivery, received once for each session.
  unfoldable pub receive_all : List Session → Database A → Database A × List (Result InboxResult)
  receive_all [] db = (db, [])
  receive_all (s ∷ ss) db =
      let (db', r) = run_inbox s key digest handle db in
      let (last, rs) = receive_all ss db' in (last, r ∷ rs)

  finish_cases :
      (s : Session) (db tx : Database A) (r : InboxResult)
      → ((finish s db tx r).0 ≡ db) × (is_ok (finish s db tx r).1 ≡ false)
        ⊎ ((finish s db tx r).0 ≡ tx)
  unfolding finish commit_transaction
  finish_cases s db tx r = elim (Bool-cases s.cancelled) [
    | inl h ↦ rw h (inl (refl, refl))
    | inr h ↦ elim (Bool-cases s.alive) [
      | inr g ↦ rw (h, g) (inl (refl, refl))
      | inl g ↦ elim (Commit-cases s.commit) [
        | inl u ↦ rw (h, g, u) (inr refl)
        | inr (inl u) ↦ rw (h, g, u) (inl (refl, refl))
        | inr (inr u) ↦ rw (h, g, u) (inr refl)
      ]
    ]
  ]

  -- A call whose key is free leaves the database alone and fails, or applies the delivery.
  run_new :
      (s : Session) (db : Database A)
      → find_receipt key db.receipts ≡ none
      → ((run_inbox s key digest handle db).0 ≡ db)
          × (is_ok (run_inbox s key digest handle db).1 ≡ false)
        ⊎ ((run_inbox s key digest handle db).0 ≡ applied db)
  unfolding run_inbox after_insert finish commit_transaction
  run_new s db new = elim (Bool-cases s.insert_ok) [
    | inr h ↦ rw h (inl (refl, refl))
    | inl h ↦ elim (Bool-cases s.handler_ok) [
      | inr g ↦ rw (h, new, g) (inl (refl, refl))
      | inl g ↦ rw (h, new, g) (finish_cases s db (applied db) processed)
    ]
  ]

  run_taken :
      (s : Session) (db : Database A) (previous : List ℕ)
      → find_receipt key db.receipts ≡ some previous
      → (run_inbox s key digest handle db).0 ≡ db
  unfolding run_inbox after_insert
  run_taken s db previous found =
      let same : (finish s db db duplicate).0 ≡ db = elim (finish_cases s db db duplicate) [
        | inl u ↦ u.0
        | inr u ↦ u
      ] in
      ground (arith, found, same)

  receive_taken :
      (ss : List Session) (db : Database A) (previous : List ℕ)
      → find_receipt key db.receipts ≡ some previous
      → (receive_all ss db).0 ≡ db
  unfolding receive_all
  receive_taken [] db previous found = refl
  receive_taken (s ∷ ss) db previous found =
      let same = run_taken s db previous found in
      let found' =
        subst (λ (x : Database A). find_receipt key x.receipts ≡ some previous) (sym same) found in
      receive_taken ss (run_inbox s key digest handle db).0 previous found' ∙ same

  applied-found : (db : Database A) → find_receipt key (applied db).receipts ≡ some digest
  unfolding find_receipt
  applied-found db = rw (bytes_eq_refl key) refl

  -- A delivery whose key has no receipt is received any number of times, and every call may fail at
  -- any statement, in its handler, or in its commit with or without effect. Then the database is as
  -- before and no call reported success, or it has the handler's effects exactly once, with the
  -- receipt.
  pub receive_all_once :
      (ss : List Session) (db : Database A)
      → find_receipt key db.receipts ≡ none
      → ((receive_all ss db).0 ≡ db) × (any is_ok (receive_all ss db).1 ≡ false)
        ⊎ ((receive_all ss db).0 ≡ applied db)
  unfolding receive_all
  receive_all_once [] db new = inl (refl, refl)
  receive_all_once (s ∷ ss) db new = elim (run_new s db new) [
    | inl u ↦
        (let new' = subst (λ (x : Database A). find_receipt key x.receipts ≡ none) (sym u.0) new in
          elim (receive_all_once ss (run_inbox s key digest handle db).0 new') [
            | inl v ↦ inl (v.0 ∙ u.0, rw u.1 v.1)
            | inr v ↦ inr (v ∙ ap applied u.0)
          ])
    | inr u ↦
        (let found =
            subst (λ (x : Database A). find_receipt key x.receipts ≡ some digest) (sym u)
              (applied-found db) in
          inr (receive_taken ss (run_inbox s key digest handle db).0 digest found ∙ u))
  ]
