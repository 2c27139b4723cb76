-- ===== src/App/Registered.antt =====
-- The registrations of an accepted configuration are ones that the spool takes.
use write_relay.Prelude.{
  ℕ, ◌≡◌, ◌≢◌, refl, sym, subst, ◌∙◌, ◌⊎◌, inl, inr, String, false, ◌||◌, List, [], ◌∷◌, All, arith,
  str_eq, eq_iff, codes, Bool-cases,
}
use write_relay.Spool.{ok, err, durability, >>=-eq-ok, Result-cases}
use write_relay.Store.{SinkRow, Db}
use write_relay.Store.Persist.{transact}
use write_relay.Store.Sinks.{
  SinkRegistration, register_from, is_named, register, register_all, to_deactivate, deactivate,
  deactivate_all, configured_result, configure_sinks,
}
use write_relay.Config as Settings
use write_relay.Config.{SinkConfig, Config}
use write_relay.Config.Load.{set_defaults_and_validate}
use write_relay.Config.Valid.{Identifier, ValidSink, Distinct}
use write_relay.Config.Accepted.{validate-ValidConfig}
use write_relay.App.{
  Library, Sender, new_webhook_sender, new_stdout_sink, build_sink, Built, build_sinks,
}

abbrev IsNamed : SinkRegistration → Type 0
IsNamed r = (str_eq r.name "" || str_eq r.sink_type "") ≡ false

abbrev Unseen : List String → SinkRegistration → Type 0
Unseen seen r = is_named r.name seen ≡ false

abbrev DistinctNames : List SinkRegistration → Type 0
DistinctNames [] = Unit {0}
DistinctNames (r ∷ rs) = All (λ (t : SinkRegistration). t.name ≢ r.name) rs × DistinctNames rs

Unseen-cons :
    (seen : List String) (r : SinkRegistration) (rs : List SinkRegistration)
    → All (λ (t : SinkRegistration). t.name ≢ r.name) rs
    → All (Unseen seen) rs
    → All (Unseen (r.name ∷ seen)) rs
Unseen-cons seen r [] d u = tt
Unseen-cons seen r (t ∷ ts) d u = (
  ground (arith, d.0, u.0, eq_iff t.name r.name, eq_iff r.name t.name),
  Unseen-cons seen r ts d.1 u.1,
)

register-taken :
    (now : ℕ) (seen : List String) (db : Db) (r : SinkRegistration)
    → IsNamed r
    → Unseen seen r
    → register now seen db r ≢ err durability
unfolding register register_from
register-taken now seen db r named unseen = ground (arith, named, unseen)

register_all-taken :
    (now : ℕ) (seen : List String) (db : Db) (rs : List SinkRegistration)
    → All IsNamed rs
    → DistinctNames rs
    → All (Unseen seen) rs
    → register_all now seen db rs ≢ err durability
unfolding register_all
register_all-taken now seen db [] named distinct unseen = λ e. cc e
register_all-taken now seen db (r ∷ rs) named distinct unseen =
    let first = register-taken now seen db r named.0 unseen.0 in
    elim (Result-cases (register now seen db r)) [
      | inl (db', e) ↦ rw e (
          register_all-taken now (r.name ∷ seen) db' rs named.1 distinct.1
            (Unseen-cons seen r rs distinct.0 unseen.1))
      | inr (x, e) ↦ ground (arith, e, first)
    ]

deactivate_all-taken : (db : Db) (ss : List SinkRow) → deactivate_all db ss ≢ err durability
unfolding deactivate_all
deactivate_all-taken db [] = λ e. cc e
deactivate_all-taken db (s ∷ ss) =
    ground (arith, deactivate_all-taken (record db { sinks = deactivate s.sink_id db.sinks }) ss)

nothing_seen : (rs : List SinkRegistration) → All (Unseen []) rs
nothing_seen [] = tt
nothing_seen (r ∷ rs) = (refl, nothing_seen rs)

configure_sinks-taken :
    (now : ℕ) (db : Db) (rs : List SinkRegistration)
    → All IsNamed rs
    → DistinctNames rs
    → (configure_sinks now db rs).1 ≢ err durability
unfolding configure_sinks transact configured_result
configure_sinks-taken now db rs named distinct =
    let all = register_all-taken now [] db rs named distinct (nothing_seen rs) in
    elim (Result-cases (register_all now [] db rs)) [
      | inr (x, e) ↦ rw e (ground (arith, e, all))
      | inl ((mid, names), e) ↦
          let last = deactivate_all-taken mid (to_deactivate names mid.sinks) in
          elim (Result-cases (deactivate_all mid (to_deactivate names mid.sinks))) [
            | inr (x, d) ↦ rw (e, d) (ground (arith, d, last))
            | inl (done, d) ↦ rw (e, d) (λ h. cc h)
          ]
    ]

-- A registration has its sink's name, and a type that is not empty.
abbrev Matches : SinkConfig → SinkRegistration → Type 0
Matches s r = (r.name ≡ s.name) × ((r.sink_type ≡ "webhook") ⊎ (r.sink_type ≡ "stdout"))

build_sink-Matches :
    (lib : Library) (s : SinkConfig) {b : Sender × SinkRegistration}
    → build_sink lib s ≡ ok b
    → Matches s b.1
unfolding build_sink new_webhook_sender new_stdout_sink
build_sink-Matches lib s {b} h =
    ground (arith, h, eq_iff s.sink_type "webhook", eq_iff s.sink_type "stdout")

no-Identifier : Identifier (codes "") → ⊥
no-Identifier h = h

Identifier-given : (name : String) → Identifier (codes name) → str_eq name "" ≡ false
Identifier-given name h = elim (Bool-cases (str_eq name "")) [
  | inl same ↦
      let nothing : name ≡ "" = ground (arith, eq_iff name "") in
      absurd (no-Identifier (subst (λ v. Identifier (codes v)) nothing h))
  | inr differs ↦ differs
]

type_given : (value : String) → (value ≡ "webhook") ⊎ (value ≡ "stdout") → str_eq value "" ≡ false
type_given value (inl e) = rw e refl
type_given value (inr e) = rw e refl

Matches-IsNamed :
    (s : SinkConfig) (r : SinkRegistration) → Identifier (codes s.name) → Matches s r → IsNamed r
Matches-IsNamed s r v m =
    let named : str_eq r.name "" ≡ false = rw m.0 (Identifier-given s.name v) in
    ground (arith, named, type_given r.sink_type m.1)

abbrev Pairwise : List SinkConfig → List SinkRegistration → Type 0
Pairwise [] [] = Unit {0}
Pairwise [] (_ ∷ _) = ⊥
Pairwise (_ ∷ _) [] = ⊥
Pairwise (s ∷ ss) (r ∷ rs) = Matches s r × Pairwise ss rs

ok-eq : {A : Type 0} {a b : A} → ok a ≡ ok b → a ≡ b
ok-eq h = cc h

build_sinks-Pairwise :
    (lib : Library) (ss : List SinkConfig) {b : Built}
    → build_sinks lib ss ≡ ok b
    → Pairwise ss b.registrations
unfolding build_sinks
build_sinks-Pairwise lib [] {b} h = subst (λ (x : Built). Pairwise [] x.registrations) (ok-eq h) tt
build_sinks-Pairwise lib (s ∷ ss) {b} h =
    let (first, built, h1) = >>=-eq-ok (build_sink lib s) _ h in
    let (more, rest, h2) = >>=-eq-ok (build_sinks lib ss) _ h1 in
    subst (λ (x : Built). Pairwise (s ∷ ss) x.registrations) (ok-eq h2)
      (build_sink-Matches lib s built, build_sinks-Pairwise lib ss rest)

Pairwise-IsNamed :
    (valid : SinkConfig → Type 0) (named : (s : SinkConfig) → valid s → Identifier (codes s.name))
    (ss : List SinkConfig) (rs : List SinkRegistration)
    → All valid ss
    → Pairwise ss rs
    → All IsNamed rs
Pairwise-IsNamed valid named [] [] v p = tt
Pairwise-IsNamed valid named [] (_ ∷ _) v p = absurd p
Pairwise-IsNamed valid named (_ ∷ _) [] v p = absurd p
Pairwise-IsNamed valid named (s ∷ ss) (r ∷ rs) v p =
    (Matches-IsNamed s r (named s v.0) p.0, Pairwise-IsNamed valid named ss rs v.1 p.1)

Pairwise-differ :
    (name : String) (ss : List SinkConfig) (rs : List SinkRegistration)
    → All (λ (t : SinkConfig). t.name ≢ name) ss
    → Pairwise ss rs
    → All (λ (t : SinkRegistration). t.name ≢ name) rs
Pairwise-differ name [] [] d p = tt
Pairwise-differ name [] (_ ∷ _) d p = absurd p
Pairwise-differ name (_ ∷ _) [] d p = absurd p
Pairwise-differ name (s ∷ ss) (r ∷ rs) d p =
    (λ e. d.0 (sym p.0.0 ∙ e), Pairwise-differ name ss rs d.1 p.1)

Pairwise-DistinctNames :
    (ss : List SinkConfig) (rs : List SinkRegistration)
    → Distinct ss
    → Pairwise ss rs
    → DistinctNames rs
Pairwise-DistinctNames [] [] d p = tt
Pairwise-DistinctNames [] (_ ∷ _) d p = absurd p
Pairwise-DistinctNames (_ ∷ _) [] d p = absurd p
Pairwise-DistinctNames (s ∷ ss) (r ∷ rs) d p = (
  subst (λ (n : String). All (λ (t : SinkRegistration). t.name ≢ n) rs) (sym p.0.0)
      (Pairwise-differ s.name ss rs d.0 p.1),
  Pairwise-DistinctNames ss rs d.1 p.1,
)

-- If the configuration is accepted and its secrets are there, the registrations that the daemon makes
-- of its sinks are never refused as incomplete or duplicate, whatever is in the spool.
pub configure_sinks-accepted :
    (settings : Settings.Library) (c : Config) {d : Config}
    → set_defaults_and_validate settings c ≡ ok d
    → (lib : Library) (built : Built) → build_sinks lib d.delivery.sinks ≡ ok built
    → (now : ℕ) (db : Db) → (configure_sinks now db built.registrations).1 ≢ err durability
configure_sinks-accepted settings c {d} h lib built b now db =
    let valid = validate-ValidConfig settings c {d = d} h in
    let pairs = build_sinks-Pairwise lib d.delivery.sinks {b = built} b in
    configure_sinks-taken now db built.registrations
      (Pairwise-IsNamed (ValidSink settings) (λ s v. v.0) d.delivery.sinks built.registrations
        valid.delivery.sinks pairs)
      (Pairwise-DistinctNames d.delivery.sinks built.registrations valid.delivery.distinct pairs)
