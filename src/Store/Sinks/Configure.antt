-- ===== src/Store/Sinks/Configure.antt =====
-- `ConfigureSinks` from its steps.
use mathlib.Core.List.{append-nil}
use write_relay.Prelude.{
  ℕ, suc, ◌≡◌, refl, sym, subst, ◌∙◌, String, true, false, not, ◌||◌, inl, inr, Option, none, some,
  List, [], ◌∷◌, ◌++◌, arith, ◌==◌, count, str_eq,
}
use write_relay.Spool.{ok, durability, other, guard, >>=-eq-ok, Result-cases}
use write_relay.Store.{SinkRow, Db}
use write_relay.Store.Persist.{transact}
use write_relay.Store.Queue.{waits_for}
use write_relay.Store.Sinks.{
  SinkRegistration, Registered, activate, deactivate, find_sink, register_from, backfilled,
  is_named, register, register_all, to_deactivate, deactivate_all, configured_result,
  configure_sinks,
}
use write_relay.Store.Sinks.Extension.{
  identities, identities-append, Extends, Extends-refl, Extends-trans, switch-identities,
  sinks-Extends, backfill-new,
}

activate-Extends :
    (db : Db) (sink_id : ℕ) → Extends db (record db { sinks = activate sink_id db.sinks })
unfolding activate
activate-Extends db sink_id = sinks-Extends db (activate sink_id db.sinks) [] db.next_sink_id (
    switch-identities (λ s. s.sink_id == sink_id) true db.sinks
    ∙ sym (append-nil (identities db.sinks)))

deactivate-Extends :
    (db : Db) (sink_id : ℕ) → Extends db (record db { sinks = deactivate sink_id db.sinks })
unfolding deactivate
deactivate-Extends db sink_id = sinks-Extends db (deactivate sink_id db.sinks) [] db.next_sink_id (
    switch-identities (λ s. s.sink_id == sink_id) false db.sinks
    ∙ sym (append-nil (identities db.sinks)))

register_from-Extends :
    (db : Db) (r : SinkRegistration) (o : Option SinkRow) {g : Registered}
    → register_from db r o ≡ ok g
    → Extends db g.db
unfolding register_from
register_from-Extends db r none {g} h =
    let new : SinkRow = record {
      sink_id = db.next_sink_id;
      sink_name = r.name;
      sink_type = r.sink_type;
      config_sha256 = r.config_sha256;
      active = true;
    } in
    let same : record db { sinks = db.sinks ++ new ∷ []; next_sink_id = suc db.next_sink_id }
        ≡ g.db =
      ground (arith, h) in
    subst (Extends db) same (
      sinks-Extends db (db.sinks ++ new ∷ []) (new ∷ []) (suc db.next_sink_id)
        (identities-append db.sinks (new ∷ [])))
register_from-Extends db r (some s) {g} h =
    let same : record db { sinks = activate s.sink_id db.sinks } ≡ g.db = ground (arith, h) in
    subst (Extends db) same (activate-Extends db s.sink_id)

backfilled-Extends : (now : ℕ) (g : Registered) → Extends g.db (backfilled now g)
unfolding backfilled
backfilled-Extends now g =
    let (new, grown, fresh) = backfill-new now g.sink_id g.db.events g.db.deliveries in
    record {
      events = refl;
      checkpoint = refl;
      next_sequence = refl;
      new_sinks = [];
      sinks = sym (append-nil (identities g.db.sinks));
      new_deliveries = new;
      deliveries = grown;
      fresh = fresh;
    }

register-Extends :
    (now : ℕ) (seen : List String) (db : Db) (r : SinkRegistration) {db' : Db}
    → register now seen db r ≡ ok db'
    → Extends db db'
unfolding register
register-Extends now seen db r {db'} h =
    let (_, _, h1) =
      >>=-eq-ok (guard (not (str_eq r.name "" || str_eq r.sink_type "")) durability) _ h in
    let (_, _, h2) = >>=-eq-ok (guard (not (is_named r.name seen)) durability) _ h1 in
    let (g, found, done) = >>=-eq-ok (register_from db r (find_sink r.name db.sinks)) _ h2 in
    let same : backfilled now g ≡ db' = ground (arith, done) in
    subst (Extends db) same (
      Extends-trans db g.db (backfilled now g)
        (register_from-Extends db r (find_sink r.name db.sinks) found) (backfilled-Extends now g))

pub register_all-Extends :
    (now : ℕ) (seen : List String) (db : Db) (rs : List SinkRegistration) {db' : Db}
    {names : List String}
    → register_all now seen db rs ≡ ok (db', names)
    → Extends db db'
unfolding register_all
register_all-Extends now seen db [] {db'} h =
    let same : db ≡ db' = ground (arith, h) in subst (Extends db) same (Extends-refl db)
register_all-Extends now seen db (r ∷ rs) {db'} {names} h =
    let (mid, first, rest) = >>=-eq-ok (register now seen db r) _ h in
    Extends-trans db mid db' (register-Extends now seen db r first)
      (register_all-Extends now (r.name ∷ seen) mid rs {db' = db'} {names = names} rest)

pub deactivate_all-Extends :
    (db : Db) (ss : List SinkRow) {db' : Db} → deactivate_all db ss ≡ ok db' → Extends db db'
unfolding deactivate_all
deactivate_all-Extends db [] {db'} h =
    let same : db ≡ db' = ground (arith, h) in subst (Extends db) same (Extends-refl db)
deactivate_all-Extends db (s ∷ ss) {db'} h =
    let (_, _, rest) =
      >>=-eq-ok (guard (count (waits_for s.sink_id) db.deliveries == 0) other) _ h in
    Extends-trans db (record db { sinks = deactivate s.sink_id db.sinks }) db'
      (deactivate-Extends db s.sink_id)
      (deactivate_all-Extends (record db { sinks = deactivate s.sink_id db.sinks }) ss {db' = db'}
        rest)

-- However it ends, configuring sinks keeps every event and the checkpoint, keeps every sink with its
-- id, name, type and digest and every delivery as it stands, and appends only sinks, and deliveries
-- that are pending with no attempt.
pub configure_sinks-Extends :
    (now : ℕ) (db : Db) (rs : List SinkRegistration) → Extends db (configure_sinks now db rs).0
unfolding configure_sinks transact configured_result
configure_sinks-Extends now db rs = elim (Result-cases (register_all now [] db rs)) [
  | inr (x, e) ↦ rw e (Extends-refl db)
  | inl ((mid, names), e) ↦
      elim (Result-cases (deactivate_all mid (to_deactivate names mid.sinks))) [
        | inr (x, d) ↦ rw (e, d) (Extends-refl db)
        | inl (last, d) ↦
            rw (e, d)
              (Extends-trans db mid last (register_all-Extends now [] db rs {names = names} e)
                (deactivate_all-Extends mid (to_deactivate names mid.sinks) d))
      ]
]
