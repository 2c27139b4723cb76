-- ===== src/Recovery/Owners.antt =====
-- Every operation of the spool keeps each delivery with exactly one sink.
use write_relay.Prelude.{
  ℕ, ◌≡◌, subst, String, not, ◌||◌, inl, inr, Option, none, some, List, [], ◌∷◌, arith, ◌==◌, count,
  str_eq, Bool-cases, All-find, refl, ◌∙◌, true, false, suc, ◌++◌,
}
use write_relay.Spool.{
  CapturedEvent, CommittedBatch, ok, guard, durability, other, >>=-eq-ok, Result-cases,
}
use write_relay.Event.{Runtime}
use write_relay.Store.{SinkRow, Db}
use write_relay.Store.Owners.{
  owners, Owned, insert_for_sinks-owners, backfill-owners, Moves-owners, add-Owned, switch-Owned,
  owners-switch,
}
use write_relay.Store.Persist.{
  transact, Inserted, insert_or_verify, insert_from, verify_replay, has_payload,
  ensure_deliveries_for_event, Progress, advance_checkpoint, persist_committed_batch,
}
use write_relay.Store.Persist.Kept.{persist-keeps}
use write_relay.Store.Marks.Transitions.{Mark, mark, mark-Moves}
use write_relay.Store.Queue.{waits_for}
use write_relay.Store.Sinks.{
  SinkRegistration, Registered, activate, deactivate, find_sink, register_from, backfilled,
  is_named, register, register_all, to_deactivate, deactivate_all, configured_result,
  configure_sinks,
}
use write_relay.Store.Prune.{PruneOptions, SpoolFile, prune}
use write_relay.Store.Prune.Safety.{prune-Keeps}
use write_relay.Recovery.Retained.{mark-Same}

-- Owned is about the sinks, their counter and the deliveries.
same-Owned :
    (a b : Db)
    → b.sinks ≡ a.sinks
    → b.next_sink_id ≡ a.next_sink_id
    → b.deliveries ≡ a.deliveries
    → Owned a
    → Owned b
same-Owned a b s n d o = record {
  below = rw (s, n) o.below;
  single = rw s o.single;
  deliveries = rw (s, d) o.deliveries;
}

insert_or_verify-Owned :
    (now : ℕ) (db : Db) (e : CapturedEvent) (i : Inserted)
    → insert_or_verify now db e ≡ ok i
    → Owned db
    → Owned i.db
unfolding insert_or_verify insert_from verify_replay
insert_or_verify-Owned now db e i h o =
    same-Owned db i.db (ground (arith, h)) (ground (arith, h)) (ground (arith, h)) o

ensure-Owned :
    (now sequence : ℕ) (db : Db) → Owned db → Owned (ensure_deliveries_for_event now sequence db)
unfolding ensure_deliveries_for_event
ensure-Owned now sequence db o = elim (Bool-cases (has_payload sequence db.events)) [
  | inl there ↦ rw there (record {
    below = o.below;
    single = o.single;
    deliveries =
        insert_for_sinks-owners now sequence db.sinks db.sinks db.deliveries o.single o.deliveries;
  })
  | inr gone ↦ rw gone o
]

advance-Owned :
    (batch : CommittedBatch) (p : Progress) → Owned p.db → Owned (advance_checkpoint batch p).0
unfolding advance_checkpoint
advance-Owned batch p o =
    same-Owned p.db (advance_checkpoint batch p).0 (ground arith) (ground arith) (ground arith) o

pub persist-Owned :
    (rt : Runtime) (clock : ℕ → ℕ) (db : Db) (batch : CommittedBatch)
    → Owned db
    → Owned (persist_committed_batch rt clock db batch).0
persist-Owned rt clock db batch o =
    persist-keeps rt clock Owned insert_or_verify-Owned ensure-Owned advance-Owned db batch o

abbrev GoodSink : Registered → Type 0
GoodSink g = Owned g.db × (owners g.sink_id g.db.sinks ≡ 1)

activate-GoodSink :
    (db : Db) (sink_id : ℕ)
    → owners sink_id db.sinks ≡ 1
    → Owned db
    → GoodSink (record { db = record db { sinks = activate sink_id db.sinks }; sink_id = sink_id })
unfolding activate
activate-GoodSink db sink_id one o = (
  switch-Owned db (λ s. s.sink_id == sink_id) true o,
  owners-switch sink_id (λ s. s.sink_id == sink_id) true db.sinks ∙ one,
)

register_from-Owned :
    (db : Db) (r : SinkRegistration) (found : Option SinkRow) {g : Registered}
    → find_sink r.name db.sinks ≡ found
    → register_from db r found ≡ ok g
    → Owned db
    → GoodSink g
unfolding register_from
register_from-Owned db r none {g} e h o =
    let added =
      add-Owned db
        record {
          sink_id = db.next_sink_id;
          sink_name = r.name;
          sink_type = r.sink_type;
          config_sha256 = r.config_sha256;
          active = true;
        }
        refl o in
    let same : record {
      db = record db {
        sinks =
            db.sinks
            ++ record {
              sink_id = db.next_sink_id;
              sink_name = r.name;
              sink_type = r.sink_type;
              config_sha256 = r.config_sha256;
              active = true;
            }
              ∷ [];
        next_sink_id = suc db.next_sink_id;
      };
      sink_id = db.next_sink_id;
    }
        ≡ g =
      ground (arith, h) in
    subst GoodSink same added
register_from-Owned db r (some s) {g} e h o =
    let one : owners s.sink_id db.sinks ≡ 1 = All-find _ _ db.sinks o.single e in
    let same : record {
      db = record db { sinks = activate s.sink_id db.sinks };
      sink_id = s.sink_id;
    }
        ≡ g =
      ground (arith, h) in
    subst GoodSink same (activate-GoodSink db s.sink_id one o)

register-Owned :
    (now : ℕ) (seen : List String) (db : Db) (r : SinkRegistration) {db' : Db}
    → register now seen db r ≡ ok db'
    → Owned db
    → Owned db'
unfolding register backfilled
register-Owned now seen db r {db'} h o =
    let (_, _, h1) =
      >>=-eq-ok (guard (not (str_eq r.name "" || str_eq r.sink_type "")) durability) _ h in
    let (_, _, h2) = >>=-eq-ok (guard (not (is_named r.name seen)) durability) _ h1 in
    let (g, found, done) = >>=-eq-ok (register_from db r (find_sink r.name db.sinks)) _ h2 in
    let same : backfilled now g ≡ db' = ground (arith, done) in
    let (good, one) = register_from-Owned db r (find_sink r.name db.sinks) {g = g} refl found o in
    subst Owned same (record {
      below = good.below;
      single = good.single;
      deliveries =
          backfill-owners now g.sink_id g.db.sinks g.db.events g.db.deliveries one good.deliveries;
    })

register_all-Owned :
    (now : ℕ) (seen : List String) (db : Db) (rs : List SinkRegistration) {db' : Db}
    {names : List String}
    → register_all now seen db rs ≡ ok (db', names)
    → Owned db
    → Owned db'
unfolding register_all
register_all-Owned now seen db [] {db'} h o =
    let same : db ≡ db' = ground (arith, h) in subst Owned same o
register_all-Owned now seen db (r ∷ rs) {db'} {names} h o =
    let (mid, first, rest) = >>=-eq-ok (register now seen db r) _ h in
    register_all-Owned now (r.name ∷ seen) mid rs {db' = db'} {names = names} rest
      (register-Owned now seen db r first o)

deactivate_all-Owned :
    (db : Db) (ss : List SinkRow) {db' : Db} → deactivate_all db ss ≡ ok db' → Owned db → Owned db'
unfolding deactivate_all deactivate
deactivate_all-Owned db [] {db'} h o = let same : db ≡ db' = ground (arith, h) in subst Owned same o
deactivate_all-Owned db (s ∷ ss) {db'} h o =
    let (_, _, rest) =
      >>=-eq-ok (guard (count (waits_for s.sink_id) db.deliveries == 0) other) _ h in
    deactivate_all-Owned (record db { sinks = deactivate s.sink_id db.sinks }) ss {db' = db'} rest
      (switch-Owned db (λ t. t.sink_id == s.sink_id) false o)

pub configure_sinks-Owned :
    (now : ℕ) (db : Db) (rs : List SinkRegistration)
    → Owned db
    → Owned (configure_sinks now db rs).0
unfolding configure_sinks transact configured_result
configure_sinks-Owned now db rs o = elim (Result-cases (register_all now [] db rs)) [
  | inr (x, e) ↦ rw e o
  | inl ((mid, names), e) ↦
      elim (Result-cases (deactivate_all mid (to_deactivate names mid.sinks))) [
        | inr (x, d) ↦ rw (e, d) o
        | inl (last, d) ↦
            rw (e, d)
              (deactivate_all-Owned mid (to_deactivate names mid.sinks) d
                (register_all-Owned now [] db rs {names = names} e o))
      ]
]

pub mark-Owned : (db : Db) (m : Mark) → Owned db → Owned (mark db m).0
mark-Owned db m o =
    let t = mark-Same db m in
    record {
      below = rw (t.sinks, t.next_sink_id) o.below;
      single = rw t.sinks o.single;
      deliveries = rw t.sinks (
          Moves-owners db.sinks db.deliveries (mark db m).0.deliveries (mark-Moves db m)
            o.deliveries);
    }

pub prune-Owned :
    (now : ℕ) (file : SpoolFile) (options : PruneOptions) (db : Db)
    → Owned db
    → Owned (prune now file options db).0
prune-Owned now file options db o =
    let k = prune-Keeps now file options db in
    same-Owned db (prune now file options db).0 k.sinks k.next_sink_id k.deliveries o
