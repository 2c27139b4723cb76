-- ===== src/Recovery/Operations.antt =====
-- The operations of the spool together, and what all of them keep of the tables.
use write_relay.Prelude.{
  ℕ, ◌<◌, ◌≡◌, sym, subst, String, not, ◌||◌, inl, inr, Option, none, some, List, [], ◌∷◌, arith,
  ◌==◌, count, All, str_eq,
}
use write_relay.Spool.{CommittedBatch, ok, guard, durability, other, >>=-eq-ok, Result-cases}
use write_relay.Event.{Runtime}
use write_relay.Store.{EventRow, SinkRow, DeliveryRow, Db}
use write_relay.Store.Keys.{KeysUnique}
use write_relay.Store.Persist.{transact, persist_committed_batch}
use write_relay.Store.Persist.Stored.{SequencesBelow}
use write_relay.Store.Marks.Transitions.{Mark, mark, mark-Moves}
use write_relay.Store.Queue.{waits_for}
use write_relay.Store.Sinks.{
  SinkRegistration, Registered, deactivate, find_sink, register_from, backfilled, is_named,
  register, register_all, to_deactivate, deactivate_all, configured_result, configure_sinks,
}
use write_relay.Store.Sinks.Configure.{configure_sinks-Extends}
use write_relay.Store.Prune.{PruneOptions, SpoolFile, pruned_row, prune}
use write_relay.Store.Prune.Safety.{Pairs, Emptied, prune-Keeps}
use write_relay.Recovery.Retained.{mark-Same}
use write_relay.Recovery.Handed.{persist-SequencesBelow}
use write_relay.Store.Owners.{Owned}
use write_relay.Recovery.Owners.{configure_sinks-Owned, mark-Owned, persist-Owned, prune-Owned}
use write_relay.Recovery.Keys.{backfill-KeysUnique, Moves-KeysUnique, persist-KeysUnique}

register_from-deliveries :
    (db : Db) (r : SinkRegistration) (o : Option SinkRow) {g : Registered}
    → register_from db r o ≡ ok g
    → g.db.deliveries ≡ db.deliveries
unfolding register_from
register_from-deliveries db r none h = ground arith
register_from-deliveries db r (some s) h = ground arith

register-KeysUnique :
    (now : ℕ) (seen : List String) (db : Db) (r : SinkRegistration) {db' : Db}
    → register now seen db r ≡ ok db'
    → KeysUnique db.deliveries
    → KeysUnique db'.deliveries
unfolding register backfilled
register-KeysUnique now seen db r {db'} h u =
    let (_, _, h1) =
      >>=-eq-ok (guard (not (str_eq r.name "" || str_eq r.sink_type "")) durability) _ h in
    let (_, _, h2) = >>=-eq-ok (guard (not (is_named r.name seen)) durability) _ h1 in
    let (g, found, done) = >>=-eq-ok (register_from db r (find_sink r.name db.sinks)) _ h2 in
    let same : backfilled now g ≡ db' = ground (arith, done) in
    let before =
      subst KeysUnique (sym (register_from-deliveries db r (find_sink r.name db.sinks) found)) u in
    subst (λ (x : Db). KeysUnique x.deliveries) same
      (backfill-KeysUnique now g.sink_id g.db.events g.db.deliveries before)

register_all-KeysUnique :
    (now : ℕ) (seen : List String) (db : Db) (rs : List SinkRegistration) {db' : Db}
    {names : List String}
    → register_all now seen db rs ≡ ok (db', names)
    → KeysUnique db.deliveries
    → KeysUnique db'.deliveries
unfolding register_all
register_all-KeysUnique now seen db [] {db'} h u =
    let same : db ≡ db' = ground (arith, h) in subst (λ (x : Db). KeysUnique x.deliveries) same u
register_all-KeysUnique now seen db (r ∷ rs) {db'} {names} h u =
    let (mid, first, rest) = >>=-eq-ok (register now seen db r) _ h in
    register_all-KeysUnique now (r.name ∷ seen) mid rs {db' = db'} {names = names} rest
      (register-KeysUnique now seen db r first u)

deactivate_all-deliveries :
    (db : Db) (ss : List SinkRow) {db' : Db}
    → deactivate_all db ss ≡ ok db'
    → db'.deliveries ≡ db.deliveries
unfolding deactivate_all
deactivate_all-deliveries db [] {db'} h = ground (arith, h)
deactivate_all-deliveries db (s ∷ ss) {db'} h =
    let (_, _, rest) =
      >>=-eq-ok (guard (count (waits_for s.sink_id) db.deliveries == 0) other) _ h in
    deactivate_all-deliveries (record db { sinks = deactivate s.sink_id db.sinks }) ss {db' = db'}
      rest

configure_sinks-KeysUnique :
    (now : ℕ) (db : Db) (rs : List SinkRegistration)
    → KeysUnique db.deliveries
    → KeysUnique (configure_sinks now db rs).0.deliveries
unfolding configure_sinks transact configured_result
configure_sinks-KeysUnique now db rs u = elim (Result-cases (register_all now [] db rs)) [
  | inr (x, e) ↦ rw e u
  | inl ((mid, names), e) ↦
      elim (Result-cases (deactivate_all mid (to_deactivate names mid.sinks))) [
        | inr (x, d) ↦ rw (e, d) u
        | inl (last, d) ↦
            rw (e, d)
              (subst KeysUnique
                (sym (deactivate_all-deliveries mid (to_deactivate names mid.sinks) d))
                (register_all-KeysUnique now [] db rs {names = names} e u))
      ]
]

Pairs-sequences :
    (now before : ℕ) (ds : List DeliveryRow) (n : ℕ) (xs ys : List EventRow)
    → Pairs (Emptied now before ds) xs ys
    → All (λ e. e.sequence < n) xs
    → All (λ e. e.sequence < n) ys
unfolding pruned_row
Pairs-sequences now before ds n [] [] p h = tt
Pairs-sequences now before ds n [] (_ ∷ _) p h = absurd p
Pairs-sequences now before ds n (_ ∷ _) [] p h = absurd p
Pairs-sequences now before ds n (x ∷ xs) (y ∷ ys) p h = (
  elim p.0 [
    | inl same ↦ subst (λ (e : EventRow). e.sequence < n) (sym same) h.0
    | inr emptied ↦ subst (λ (e : EventRow). e.sequence < n) (sym (emptied.0)) h.0
  ],
  Pairs-sequences now before ds n xs ys p.1 h.1,
)

-- Whatever changes the tables.
pub data Operation : Type 0 where
  persists : (ℕ → ℕ) → CommittedBatch → Operation
  marks : Mark → Operation
  configures : ℕ → List SinkRegistration → Operation
  prunes : ℕ → SpoolFile → PruneOptions → Operation

abbrev pub apply : Runtime → Db → Operation → Db
apply rt db (persists clock batch) = (persist_committed_batch rt clock db batch).0
apply rt db (marks m) = (mark db m).0
apply rt db (configures now rs) = (configure_sinks now db rs).0
apply rt db (prunes now file options) = (prune now file options db).0

abbrev pub apply_all : Runtime → Db → List Operation → Db
apply_all rt db [] = db
apply_all rt db (o ∷ os) = apply_all rt (apply rt db o) os

pub record IsConsistent (db : Db) : Type 0 where
  pub sequences : SequencesBelow db
  pub keys : KeysUnique db.deliveries
  pub owned : Owned db

apply-IsConsistent :
    (rt : Runtime) (db : Db) (o : Operation) → IsConsistent db → IsConsistent (apply rt db o)
apply-IsConsistent rt db (persists clock batch) v = record {
  sequences = persist-SequencesBelow rt clock db batch v.sequences;
  keys = persist-KeysUnique rt clock db batch v.keys;
  owned = persist-Owned rt clock db batch v.owned;
}
apply-IsConsistent rt db (marks m) v =
    let t = mark-Same db m in
    record {
      sequences = rw (t.events, t.next_sequence) v.sequences;
      keys = Moves-KeysUnique db.deliveries (mark db m).0.deliveries (mark-Moves db m) v.keys;
      owned = mark-Owned db m v.owned;
    }
apply-IsConsistent rt db (configures now rs) v =
    let e = configure_sinks-Extends now db rs in
    record {
      sequences = rw (e.events, e.next_sequence) v.sequences;
      keys = configure_sinks-KeysUnique now db rs v.keys;
      owned = configure_sinks-Owned now db rs v.owned;
    }
apply-IsConsistent rt db (prunes now file options) v =
    let k = prune-Keeps now file options db in
    record {
      sequences = rw k.next_sequence (
          Pairs-sequences now options.before db.deliveries db.next_sequence db.events
            (prune now file options db).0.events k.events v.sequences);
      keys = rw k.deliveries v.keys;
      owned = prune-Owned now file options db v.owned;
    }

-- If the sequences of events are below the counter, no two deliveries have the same event and sink,
-- sinks have distinct ids below their counter, and each delivery has a sink, then any operations of capture, the worker, the operator, the configuration and pruning, in
-- any order and whether they succeed or fail, leave it so.
pub apply_all-IsConsistent :
    (rt : Runtime) (db : Db) (os : List Operation)
    → IsConsistent db
    → IsConsistent (apply_all rt db os)
apply_all-IsConsistent rt db [] v = v
apply_all-IsConsistent rt db (o ∷ os) v =
    apply_all-IsConsistent rt (apply rt db o) os (apply-IsConsistent rt db o v)
