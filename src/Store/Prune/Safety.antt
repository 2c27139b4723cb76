-- ===== src/Store/Prune/Safety.antt =====
-- What `Prune` may do to the tables.
use write_relay.Prelude.{
  ℕ, ◌≡◌, refl, sym, subst, ◌∙◌, true, false, some, ◌⊎◌, inl, inr, List, [], ◌∷◌, arith, any,
  select, take, update, All, All-take, All-select_self, Bool-cases, false≢true, if◌then◌else◌,
}
use write_relay.Spool.{Result, ok, err, >>=-eq-ok}
use write_relay.Store.{EventRow, DeliveryRow, Db, is_retained}
use write_relay.Store.Persist.{transact}
use write_relay.Store.Prune.{
  PruneOptions, PruneEntry, PruneResult, SpoolFile, belongs_to, holds_back, is_prunable,
  prune_candidates, prune_entry, prune_entries, is_entry, pruned_row, prune_payload, prune_payloads,
  prune_allowed, prune_selected, prune,
}

-- Two lists of the same length whose rows are related one by one.
abbrev pub Pairs {ℓ} : {A : Type ℓ} → (A → A → Type 0) → List A → List A → Type 0
Pairs R [] [] = Unit
Pairs R (x ∷ xs) (y ∷ ys) = R x y × Pairs R xs ys
Pairs R [] (_ ∷ _) = ⊥
Pairs R (_ ∷ _) [] = ⊥

abbrev emptied : ℕ → EventRow → EventRow
emptied now e = record e { payload = []; payload_pruned_at = some now }

emptied_gone : (now : ℕ) (e : EventRow) → is_retained (emptied now e) ≡ true → ⊥
emptied_gone now e h = false≢true h

module _ (now before : ℕ) (ds : List DeliveryRow) where
  -- All deliveries of the event succeeded before the cutoff, and there are some.
  abbrev pub IsDone : ℕ → Type 0
  IsDone sequence =
      (any (belongs_to sequence) ds ≡ true) × (any (holds_back before sequence) ds ≡ false)

  -- The row is as it was, or its payload was emptied and the time written.
  abbrev pub Emptied : EventRow → EventRow → Type 0
  Emptied a b =
      (b ≡ a)
      ⊎ ((b ≡ record a { payload = []; payload_pruned_at = some now })
          × (is_retained a ≡ true)
          × IsDone a.sequence)

  Pairs-refl : (es : List EventRow) → Pairs Emptied es es
  Pairs-refl [] = tt
  Pairs-refl (e ∷ es) = (inl refl, Pairs-refl es)

  Emptied-trans : (a b c : EventRow) → Emptied a b → Emptied b c → Emptied a c
  Emptied-trans a b c (inl h) g = subst (λ (x : EventRow). Emptied x c) h g
  Emptied-trans a b c (inr h) (inl g) =
      inr (subst (λ (x : EventRow). x ≡ emptied now a) (sym g) h.0, h.1, h.2)
  Emptied-trans a b c (inr h) (inr g) =
      absurd (emptied_gone now a (subst (λ (x : EventRow). is_retained x ≡ true) h.0 g.1))

  Pairs-trans :
      (xs ys zs : List EventRow) → Pairs Emptied xs ys → Pairs Emptied ys zs → Pairs Emptied xs zs
  Pairs-trans [] [] [] h g = tt
  Pairs-trans (a ∷ xs) (b ∷ ys) (c ∷ zs) h g =
      (Emptied-trans a b c h.0 g.0, Pairs-trans xs ys zs h.1 g.1)
  Pairs-trans [] [] (_ ∷ _) h g = g
  Pairs-trans [] (_ ∷ _) _ h g = absurd h
  Pairs-trans (_ ∷ _) [] _ h g = absurd h
  Pairs-trans (_ ∷ _) (_ ∷ _) [] h g = g

  update-Pairs :
      (sequence : ℕ) (es : List EventRow)
      → IsDone sequence
      → Pairs Emptied es (update (is_entry sequence) (pruned_row now) es)
  unfolding pruned_row
  update-Pairs sequence [] done = tt
  update-Pairs sequence (e ∷ es) done = elim (Bool-cases (is_entry sequence e)) [
    | inr miss ↦ rw miss (inl refl, update-Pairs sequence es done)
    | inl hit ↦
        let same : sequence ≡ e.sequence = ground (arith, hit) in
        rw hit
          (inr (refl, ground (arith, hit), subst IsDone same done), update-Pairs sequence es done)
  ]

  -- What a sequence of updates leaves of the tables.
  pub record Keeps (a b : Db) : Type 0 where
    pub events : Pairs Emptied a.events b.events
    pub deliveries : b.deliveries ≡ a.deliveries
    pub sinks : b.sinks ≡ a.sinks
    pub next_sink_id : b.next_sink_id ≡ a.next_sink_id
    pub checkpoint : b.checkpoint ≡ a.checkpoint
    pub next_sequence : b.next_sequence ≡ a.next_sequence

  Keeps-refl : (a : Db) → Keeps a a
  Keeps-refl a = record {
    events = Pairs-refl a.events;
    deliveries = refl;
    sinks = refl;
    next_sink_id = refl;
    checkpoint = refl;
    next_sequence = refl;
  }

  prune_payload-Keeps :
      (db : Db) (sequence : ℕ) {db' : Db}
      → IsDone sequence
      → prune_payload now db sequence ≡ ok db'
      → Keeps db db'
  unfolding prune_payload
  prune_payload-Keeps db sequence {db'} done h =
      let same : record db { events = update (is_entry sequence) (pruned_row now) db.events }
          ≡ db' =
        ground (arith, h) in
      subst (Keeps db) same (record {
        events = update-Pairs sequence db.events done;
        deliveries = refl;
        sinks = refl;
        next_sink_id = refl;
        checkpoint = refl;
        next_sequence = refl;
      })

  prune_payloads-Keeps :
      (db : Db) (xs : List PruneEntry) {db' : Db}
      → All (λ (x : PruneEntry). IsDone x.sequence) xs
      → prune_payloads now db xs ≡ ok db'
      → Keeps db db'
  unfolding prune_payloads
  prune_payloads-Keeps db [] {db'} done h =
      let same : db ≡ db' = cc h in subst (Keeps db) same (Keeps-refl db)
  prune_payloads-Keeps db (x ∷ xs) {db'} done h =
      let (mid, first, rest) = >>=-eq-ok (prune_payload now db x.sequence) _ h in
      let k = prune_payload-Keeps db x.sequence done.0 first in
      let l = prune_payloads-Keeps mid xs {db' = db'} done.1 rest in
      record {
        events = Pairs-trans db.events mid.events db'.events k.events l.events;
        deliveries = l.deliveries ∙ k.deliveries;
        sinks = l.sinks ∙ k.sinks;
        next_sink_id = l.next_sink_id ∙ k.next_sink_id;
        checkpoint = l.checkpoint ∙ k.checkpoint;
        next_sequence = l.next_sequence ∙ k.next_sequence;
      }

  prune_entries-IsDone :
      (es : List EventRow)
      → All (λ e. is_prunable before ds e ≡ true) es
      → All (λ (x : PruneEntry). IsDone x.sequence) (prune_entries es)
  unfolding prune_entries prune_entry
  prune_entries-IsDone [] h = tt
  prune_entries-IsDone (e ∷ es) h = (ground (arith, h.0), prune_entries-IsDone es h.1)

  candidates-IsDone :
      (limit : ℕ) (db : Db)
      → db.deliveries ≡ ds
      → All
          (λ (x : PruneEntry). IsDone x.sequence)
          (prune_entries (prune_candidates before limit db))
  unfolding prune_candidates
  candidates-IsDone limit db same =
      prune_entries-IsDone (take limit (select (is_prunable before db.deliveries) db.events)) (
        All-take (λ e. is_prunable before ds e ≡ true) limit
          (select (is_prunable before db.deliveries) db.events)
          (subst
            (λ (x : List DeliveryRow).
              All (λ e. is_prunable before x e ≡ true)
                (select (is_prunable before db.deliveries) db.events))
            same (All-select_self (is_prunable before db.deliveries) db.events)))

prune_selected-Keeps :
    (now before : ℕ) (options : PruneOptions) (db : Db) (xs : List PruneEntry) {db' : Db}
    {r : PruneResult}
    → All (λ (x : PruneEntry). IsDone now before db.deliveries x.sequence) xs
    → prune_selected now options db xs ≡ ok (db', r)
    → Keeps now before db.deliveries db db'
unfolding prune_selected
prune_selected-Keeps now before options db xs {db'} done h =
    let (mid, ran, rest) =
      >>=-eq-ok (if options.dry_run then ok db else prune_payloads now db xs) _ h in
    let last : mid ≡ db' = ground (arith, rest) in
    subst (Keeps now before db.deliveries db) last (elim (Bool-cases options.dry_run) [
      | inl dry ↦
          let same : db ≡ mid = ground (arith, dry, ran) in
          subst (Keeps now before db.deliveries db) same (Keeps-refl now before db.deliveries db)
      | inr wet ↦
          let pruned : prune_payloads now db xs ≡ ok mid = ground (arith, wet, ran) in
          prune_payloads-Keeps now before db.deliveries db xs done pruned
    ])

-- To prove something of the tables after a transaction: of the old ones, and after a success.
transact_cases {ℓ κ} :
    {A : Type ℓ} (P : Db → Type κ) (db : Db) (m : Result (Db × A))
    → P db
    → ((db' : Db) (a : A) → m ≡ ok (db', a) → P db')
    → P (transact db m).0
unfolding transact
transact_cases P db (ok (db', a)) failed done = done db' a refl
transact_cases P db (err e) failed done = failed

-- Whatever the options and however it ends, pruning keeps all deliveries, sinks and the checkpoint, and
-- every event with all its columns, but that the payload of a row can be emptied and the time of that
-- written: only of an event that has deliveries, all of which succeeded before the cutoff.
pub prune-Keeps :
    (now : ℕ) (file : SpoolFile) (options : PruneOptions) (db : Db)
    → Keeps now options.before db.deliveries db (prune now file options db).0
unfolding prune
prune-Keeps now file options db =
    transact_cases (Keeps now options.before db.deliveries db) db _
      (Keeps-refl now options.before db.deliveries db)
      (λ db' r h.
        let (_, _, selected) = >>=-eq-ok (prune_allowed now file options) _ h in
        prune_selected-Keeps now options.before options db _
          (candidates-IsDone now options.before db.deliveries options.limit db refl) selected)
