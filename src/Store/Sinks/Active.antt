-- ===== src/Store/Sinks/Active.antt =====
-- Which sinks are active after `ConfigureSinks`.
use mathlib.Core.List.{Memᴰ}
use write_relay.Prelude.{
  ℕ, ◌≡◌, refl, sym, subst, String, Bool, true, false, not, ◌&&◌, ◌||◌, inl, inr, List, [], ◌∷◌,
  arith, ◌==◌, any, count, select, All, All-mono, All-mem_self, Bool-cases, ==_refl,
}
use write_relay.Spool.{ok, other, guard, >>=-eq-ok}
use write_relay.Store.{SinkRow, Db}
use write_relay.Store.Persist.Checkpoint.{transact-eq-ok}
use write_relay.Store.Queue.{waits_for}
use write_relay.Store.Sinks.{
  SinkRegistration, deactivate, is_named, register, register_all, to_deactivate, deactivate_all,
  configured_result, configure_sinks,
}

abbrev pub names_of : List SinkRegistration → List String
names_of [] = []
names_of (r ∷ rs) = r.name ∷ names_of rs

-- An active sink that these names leave out.
abbrev pub is_left_out : List String → SinkRow → Bool
is_left_out names s = s.active && not (is_named s.sink_name names)

register_all-names :
    (now : ℕ) (seen : List String) (db : Db) (rs : List SinkRegistration) {db' : Db}
    {names : List String}
    → register_all now seen db rs ≡ ok (db', names)
    → (n : String) → is_named n names ≡ (is_named n (names_of rs) || is_named n seen)
unfolding register_all
register_all-names now seen db [] {names = names} h n =
    let same : seen ≡ names = ground (arith, h) in
    subst (λ (x : List String). is_named n x ≡ is_named n seen) same refl
register_all-names now seen db (r ∷ rs) {db'} {names} h n =
    let (mid, _, rest) = >>=-eq-ok (register now seen db r) _ h in
    ground (arith, register_all-names now (r.name ∷ seen) mid rs {db' = db'} {names = names} rest n)

any-select_id :
    (p : SinkRow → Bool) (ss : List SinkRow) {row : SinkRow}
    → Memᴰ row ss
    → p row ≡ true
    → any (λ s. s.sink_id == row.sink_id) (select p ss) ≡ true
any-select_id p [] m h = elim m [ ]
any-select_id p (s ∷ ss) {row} (Memᴰ.head e) h =
    let hit : p s ≡ true = subst (λ (x : SinkRow). p x ≡ true) e h in
    let id : (s.sink_id == row.sink_id) ≡ true =
      subst (λ (x : SinkRow). (s.sink_id == x.sink_id) ≡ true) (sym e) (==_refl s.sink_id) in
    rw (hit, id) refl
any-select_id p (s ∷ ss) {row} (Memᴰ.tail m) h = elim (Bool-cases (p s)) [
  | inl hit ↦ rw hit (ground (arith, any-select_id p ss m h))
  | inr miss ↦ rw miss (any-select_id p ss m h)
]

module _ (names : List String) where
  -- Each sink that is left out is still to be deactivated.
  abbrev Listed : List SinkRow → List SinkRow → Type 0
  Listed ss = All (λ x. (is_left_out names x && not (any (λ s. s.sink_id == x.sink_id) ss)) ≡ false)

  deactivate-Listed :
      (s : SinkRow) (ss rows : List SinkRow)
      → Listed (s ∷ ss) rows
      → Listed ss (deactivate s.sink_id rows)
  unfolding deactivate
  deactivate-Listed s ss [] h = tt
  deactivate-Listed s ss (x ∷ rows) h = (ground (arith, h.0), deactivate-Listed s ss rows h.1)

  deactivate_all-active :
      (db : Db) (ss : List SinkRow) {db' : Db}
      → Listed ss db.sinks
      → deactivate_all db ss ≡ ok db'
      → All (λ x. is_left_out names x ≡ false) db'.sinks
  unfolding deactivate_all
  deactivate_all-active db [] {db'} listed h =
      let same : db ≡ db' = ground (arith, h) in
      subst (λ (x : Db). All (λ y. is_left_out names y ≡ false) x.sinks) same
        (All-mono (λ x k. ground (arith, k)) db.sinks listed)
  deactivate_all-active db (s ∷ ss) {db'} listed h =
      let (_, _, rest) =
        >>=-eq-ok (guard (count (waits_for s.sink_id) db.deliveries == 0) other) _ h in
      deactivate_all-active (record db { sinks = deactivate s.sink_id db.sinks }) ss {db' = db'}
        (deactivate-Listed s ss db.sinks listed) rest

  to_deactivate-Listed : (rows : List SinkRow) → Listed (to_deactivate names rows) rows
  unfolding to_deactivate
  to_deactivate-Listed rows =
      All-mono
        (λ x m. elim (Bool-cases (is_left_out names x)) [
          | inl out ↦ ground (arith, out, any-select_id (is_left_out names) rows m out)
          | inr kept ↦ ground (arith, kept)
        ])
        rows (All-mem_self rows)

-- After a success, every active sink has the name of one of the registrations.
pub configure_sinks-active :
    (now : ℕ) (db : Db) (rs : List SinkRegistration) {db' : Db}
    → configure_sinks now db rs ≡ (db', ok tt)
    → All (λ s. is_left_out (names_of rs) s ≡ false) db'.sinks
unfolding configure_sinks configured_result
configure_sinks-active now db rs {db'} h =
    let ((mid, names), registered, rest) =
      >>=-eq-ok (register_all now [] db rs) _ (transact-eq-ok db _ h) in
    let (last, deactivated, done) =
      >>=-eq-ok (deactivate_all mid (to_deactivate names mid.sinks)) _ rest in
    let same : last ≡ db' = ground (arith, done) in
    let active =
      deactivate_all-active names mid (to_deactivate names mid.sinks)
        (to_deactivate-Listed names mid.sinks) deactivated in
    subst (λ (x : Db). All (λ s. is_left_out (names_of rs) s ≡ false) x.sinks) same
      (All-mono
        (λ s k. ground (
          arith,
          k,
          register_all-names now [] db rs {db' = mid} {names = names} registered s.sink_name,
        ))
        last.sinks active)
