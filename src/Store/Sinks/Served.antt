-- ===== src/Store/Sinks/Served.antt =====
-- What `ConfigureSinks` gives each sink that is configured.
use mathlib.Core.List.{Memᴰ}
use write_relay.Prelude.{
  ℕ, ◌≡◌, refl, sym, subst, ap, ◌∙◌, String, true, false, not, ◌||◌, inl, inr, none, some, List, [],
  ◌∷◌, ◌++◌, arith, any, any-append, find-mem, find_holds, All, All-mono, Bool-cases, suc, ◌==◌,
  Option-cases, str_eq, eq_iff, bytes_eq_sound, ==_refl,
}
use write_relay.Spool.{ok, durability, guard, >>=-eq-ok}
use write_relay.Store.{
  EventRow, SinkRow, DeliveryRow, Db, is_retained, has_key, new_delivery, insert_delivery,
}
use write_relay.Store.Persist.Checkpoint.{transact-eq-ok}
use write_relay.Store.Sinks.{
  SinkRegistration, Registered, find_sink, register_from, activate, backfill, backfilled, is_named,
  register, register_all, to_deactivate, deactivate_all, configured_result, configure_sinks,
}
use write_relay.Store.Sinks.Extension.{
  identities, identities-append, switch-identities, Extends, backfill-new,
}
use write_relay.Store.Sinks.Active.{names_of, is_left_out, configure_sinks-active}
use write_relay.Store.Sinks.Configure.{register_all-Extends, deactivate_all-Extends}

abbrev pub HasDelivery : ℕ → List DeliveryRow → EventRow → Type 0
HasDelivery sink_id ds e = is_retained e ≡ true → any (has_key e.sequence sink_id) ds ≡ true

-- There is a sink as configured, and each event with a payload has a delivery to it.
pub record IsServed (db : Db) (r : SinkRegistration) : Type 0 where
  pub sink_id : ℕ
  pub sink : Memᴰ (sink_id, r.name, r.sink_type, r.config_sha256) (identities db.sinks)
  pub deliveries : All (HasDelivery sink_id db.deliveries) db.events

mem-append : {A : Type 0} {a : A} (xs ys : List A) → Memᴰ a xs → Memᴰ a (xs ++ ys)
mem-append [] ys m = elim m [ ]
mem-append (x ∷ xs) ys (Memᴰ.head e) = Memᴰ.head e
mem-append (x ∷ xs) ys (Memᴰ.tail m) = Memᴰ.tail (mem-append xs ys m)

mem_last : {A : Type 0} (xs : List A) (a : A) → Memᴰ a (xs ++ a ∷ [])
mem_last [] a = Memᴰ.head refl
mem_last (x ∷ xs) a = Memᴰ.tail (mem_last xs a)

Extends-IsServed : (a b : Db) (r : SinkRegistration) → Extends a b → IsServed a r → IsServed b r
Extends-IsServed a b r x v = record {
  sink_id = v.sink_id;
  sink =
      subst (Memᴰ (v.sink_id, r.name, r.sink_type, r.config_sha256)) (sym x.sinks)
        (mem-append (identities a.sinks) (identities x.new_sinks) v.sink);
  deliveries =
      rw (x.events, x.deliveries)
        (All-mono
          (λ e has kept.
            rw (any-append (has_key e.sequence v.sink_id) a.deliveries x.new_deliveries, has kept)
              refl)
          a.events v.deliveries);
}

insert_delivery-has :
    (now sequence sink_id : ℕ) (ds : List DeliveryRow)
    → any (has_key sequence sink_id) (insert_delivery now sequence sink_id ds) ≡ true
unfolding insert_delivery
insert_delivery-has now sequence sink_id ds =
    elim (Bool-cases (any (has_key sequence sink_id) ds)) [
      | inl taken ↦ rw taken taken
      | inr free ↦
          rw
            (
              free,
              any-append (has_key sequence sink_id) ds (new_delivery now sequence sink_id ∷ []),
              free,
            )
            (ground (arith, ==_refl sequence, ==_refl sink_id))
    ]

backfill-HasDelivery :
    (now sink_id : ℕ) (es : List EventRow) (ds : List DeliveryRow)
    → All (HasDelivery sink_id (backfill now sink_id es ds)) es
unfolding backfill
backfill-HasDelivery now sink_id [] ds = tt
backfill-HasDelivery now sink_id (e ∷ es) ds = elim (Bool-cases (is_retained e)) [
  | inr pruned ↦
      let same : backfill now sink_id es ds ≡ backfill now sink_id (e ∷ es) ds = rw pruned refl in
      subst (λ (x : List DeliveryRow). All (HasDelivery sink_id x) (e ∷ es)) same
        (λ kept. absurd (cc (sym pruned ∙ kept)), backfill-HasDelivery now sink_id es ds)
  | inl kept ↦
      let ds' = insert_delivery now e.sequence sink_id ds in
      let (more, rest, _) = backfill-new now sink_id es ds' in
      let same : backfill now sink_id es ds' ≡ backfill now sink_id (e ∷ es) ds = rw kept refl in
      subst (λ (x : List DeliveryRow). All (HasDelivery sink_id x) (e ∷ es)) same
        (
          λ _.
              rw
                (
                  rest,
                  any-append (has_key e.sequence sink_id) ds' more,
                  insert_delivery-has now e.sequence sink_id ds,
                )
                refl,
          backfill-HasDelivery now sink_id es ds',
        )
]

sink-identity :
    (ss : List SinkRow) {s : SinkRow}
    → Memᴰ s ss
    → Memᴰ (s.sink_id, s.sink_name, s.sink_type, s.config_sha256) (identities ss)
sink-identity [] m = elim m [ ]
sink-identity (x ∷ ss) {s} (Memᴰ.head e) =
    Memᴰ.head (ap (λ (y : SinkRow). (y.sink_id, y.sink_name, y.sink_type, y.config_sha256)) e)
sink-identity (x ∷ ss) (Memᴰ.tail m) = Memᴰ.tail (sink-identity ss m)

registered_new :
    (db : Db) (r : SinkRegistration) {g : Registered}
    → register_from db r none ≡ ok g
    → Memᴰ (g.sink_id, r.name, r.sink_type, r.config_sha256) (identities g.db.sinks)
unfolding register_from
registered_new db r {g} h =
    let new : SinkRow = record {
      sink_id = db.next_sink_id;
      sink_name = r.name;
      sink_type = r.sink_type;
      config_sha256 = r.config_sha256;
      active = true;
    } in
    let made : Registered = record {
      db = record db { sinks = db.sinks ++ new ∷ []; next_sink_id = suc db.next_sink_id };
      sink_id = db.next_sink_id;
    } in
    let same : made ≡ g = ground (arith, h) in
    subst
      (λ (x : Registered).
        Memᴰ (x.sink_id, r.name, r.sink_type, r.config_sha256) (identities x.db.sinks))
      same (rw (identities-append db.sinks (new ∷ [])) (mem_last (identities db.sinks) _))

registered_found :
    (db : Db) (r : SinkRegistration) (s : SinkRow) {g : Registered}
    → Memᴰ s db.sinks
    → s.sink_name ≡ r.name
    → register_from db r (some s) ≡ ok g
    → Memᴰ (g.sink_id, r.name, r.sink_type, r.config_sha256) (identities g.db.sinks)
unfolding register_from activate
registered_found db r s {g} m named h =
    let made : Registered = record {
      db = record db { sinks = activate s.sink_id db.sinks };
      sink_id = s.sink_id;
    } in
    let same : made ≡ g = ground (arith, h) in
    let kind : s.sink_type ≡ r.sink_type = ground (arith, h, eq_iff s.sink_type r.sink_type) in
    let digest : s.config_sha256 ≡ r.config_sha256 =
      bytes_eq_sound s.config_sha256 r.config_sha256 (ground (arith, h)) in
    subst
      (λ (x : Registered).
        Memᴰ (x.sink_id, r.name, r.sink_type, r.config_sha256) (identities x.db.sinks))
      same
      (rw (switch-identities (λ x. x.sink_id == s.sink_id) true db.sinks, ← named, ← kind, ← digest)
        (sink-identity db.sinks m))

-- The sink that was registered or found has the columns of its registration.
register_from-identity :
    (db : Db) (r : SinkRegistration) {g : Registered}
    → register_from db r (find_sink r.name db.sinks) ≡ ok g
    → Memᴰ (g.sink_id, r.name, r.sink_type, r.config_sha256) (identities g.db.sinks)
register_from-identity db r {g} h = elim (Option-cases (find_sink r.name db.sinks)) [
  | inl missing ↦ registered_new db r {g = g} (rw missing at h)
  | inr (s, found) ↦
      registered_found db r s {g = g} (find-mem (λ x. str_eq x.sink_name r.name) db.sinks found)
        ((eq_iff s.sink_name r.name).0
          (find_holds (λ x. str_eq x.sink_name r.name) db.sinks {a = s} found))
        (rw found at h)
]

register-IsServed :
    (now : ℕ) (seen : List String) (db : Db) (r : SinkRegistration) {db' : Db}
    → register now seen db r ≡ ok db'
    → IsServed db' r
unfolding register backfilled
register-IsServed now seen db r {db'} h =
    let (_, _, h1) =
      >>=-eq-ok (guard (not (str_eq r.name "" || str_eq r.sink_type "")) durability) _ h in
    let (_, _, h2) = >>=-eq-ok (guard (not (is_named r.name seen)) durability) _ h1 in
    let (g, found, done) = >>=-eq-ok (register_from db r (find_sink r.name db.sinks)) _ h2 in
    let same : backfilled now g ≡ db' = ground (arith, done) in
    subst (λ (x : Db). IsServed x r) same
      (record {
        sink_id = g.sink_id;
        sink = register_from-identity db r {g = g} found;
        deliveries = backfill-HasDelivery now g.sink_id g.db.events g.db.deliveries;
      })

register_all-IsServed :
    (now : ℕ) (seen : List String) (db : Db) (rs : List SinkRegistration) {db' : Db}
    {names : List String}
    → register_all now seen db rs ≡ ok (db', names)
    → All (IsServed db') rs
unfolding register_all
register_all-IsServed now seen db [] h = tt
register_all-IsServed now seen db (r ∷ rs) {db'} {names} h =
    let (mid, first, rest) = >>=-eq-ok (register now seen db r) _ h in
    (
      Extends-IsServed mid db' r
          (register_all-Extends now (r.name ∷ seen) mid rs {db' = db'} {names = names} rest)
          (register-IsServed now seen db r first),
      register_all-IsServed now (r.name ∷ seen) mid rs {db' = db'} {names = names} rest,
    )

configured-IsServed :
    (now : ℕ) (db : Db) (rs : List SinkRegistration) {db' : Db}
    → configure_sinks now db rs ≡ (db', ok tt)
    → All (IsServed db') rs
unfolding configure_sinks configured_result
configured-IsServed now db rs {db'} h =
    let ((mid, names), registered, rest) =
      >>=-eq-ok (register_all now [] db rs) _ (transact-eq-ok db _ h) in
    let (last, deactivated, done) =
      >>=-eq-ok (deactivate_all mid (to_deactivate names mid.sinks)) _ rest in
    let same : last ≡ db' = ground (arith, done) in
    let kept = deactivate_all-Extends mid (to_deactivate names mid.sinks) deactivated in
    subst (λ (x : Db). All (IsServed x) rs) same
      (All-mono (λ r v. Extends-IsServed mid last r kept v) rs
        (register_all-IsServed now [] db rs {db' = mid} {names = names} registered))

-- After a success, each registration has a sink with its name, type and digest, each event that still
-- has its payload has a delivery to that sink, and every active sink has the name of a registration.
pub configure_sinks-IsServed :
    (now : ℕ) (db : Db) (rs : List SinkRegistration) {db' : Db}
    → configure_sinks now db rs ≡ (db', ok tt)
    → All (IsServed db') rs × All (λ s. is_left_out (names_of rs) s ≡ false) db'.sinks
configure_sinks-IsServed now db rs {db'} h =
    (configured-IsServed now db rs {db' = db'} h, configure_sinks-active now db rs {db' = db'} h)
