-- ===== src/Store/Sinks/Extension.antt =====
-- What `ConfigureSinks` may do to the tables.
use mathlib.Core.List.{append_assoc, append-nil}
use write_relay.Prelude.{
  ℕ, ◌≡◌, refl, sym, ap, ◌∙◌, String, Bool, inl, inr, List, [], ◌∷◌, ◌++◌, any, update, All,
  All-append, Bool-cases,
}
use write_relay.Store.{
  EventRow, SinkRow, pending, DeliveryRow, Db, is_retained, has_key, new_delivery, insert_delivery,
}
use write_relay.Store.Sinks.{backfill}

-- The columns of a sink that never change.
abbrev pub identities : List SinkRow → List (ℕ × String × String × List ℕ)
identities [] = []
identities (s ∷ ss) = (s.sink_id, s.sink_name, s.sink_type, s.config_sha256) ∷ identities ss

abbrev pub IsFresh : DeliveryRow → Type 0
IsFresh d = (d.state ≡ pending) × (d.attempts ≡ 0)

pub record Extends (a b : Db) : Type 0 where
  pub events : b.events ≡ a.events
  pub checkpoint : b.checkpoint ≡ a.checkpoint
  pub next_sequence : b.next_sequence ≡ a.next_sequence
  pub new_sinks : List SinkRow
  pub sinks : identities b.sinks ≡ identities a.sinks ++ identities new_sinks
  pub new_deliveries : List DeliveryRow
  pub deliveries : b.deliveries ≡ a.deliveries ++ new_deliveries
  pub fresh : All IsFresh new_deliveries

pub identities-append :
    (xs ys : List SinkRow) → identities (xs ++ ys) ≡ identities xs ++ identities ys
identities-append [] ys = refl
identities-append (x ∷ xs) ys =
    ap (λ r. (x.sink_id, x.sink_name, x.sink_type, x.config_sha256) ∷ r) (identities-append xs ys)

pub Extends-refl : (a : Db) → Extends a a
Extends-refl a = record {
  events = refl;
  checkpoint = refl;
  next_sequence = refl;
  new_sinks = [];
  sinks = sym (append-nil (identities a.sinks));
  new_deliveries = [];
  deliveries = sym (append-nil a.deliveries);
  fresh = tt;
}

pub Extends-trans : (a b c : Db) → Extends a b → Extends b c → Extends a c
Extends-trans a b c g h = record {
  events = h.events ∙ g.events;
  checkpoint = h.checkpoint ∙ g.checkpoint;
  next_sequence = h.next_sequence ∙ g.next_sequence;
  new_sinks = g.new_sinks ++ h.new_sinks;
  sinks =
      rw (h.sinks, g.sinks, identities-append g.new_sinks h.new_sinks)
        (append_assoc (identities a.sinks) (identities g.new_sinks) (identities h.new_sinks));
  new_deliveries = g.new_deliveries ++ h.new_deliveries;
  deliveries =
      rw (h.deliveries, g.deliveries) (append_assoc a.deliveries g.new_deliveries h.new_deliveries);
  fresh = All-append IsFresh g.new_deliveries h.new_deliveries g.fresh h.fresh;
}

pub switch-identities :
    (p : SinkRow → Bool) (active : Bool) (ss : List SinkRow)
    → identities (update p (λ s. record s { active = active }) ss) ≡ identities ss
switch-identities p active [] = refl
switch-identities p active (s ∷ ss) = elim (Bool-cases (p s)) [
  | inl hit ↦ rw hit (
      ap (λ r. (s.sink_id, s.sink_name, s.sink_type, s.config_sha256) ∷ r)
        (switch-identities p active ss))
  | inr miss ↦ rw miss (
      ap (λ r. (s.sink_id, s.sink_name, s.sink_type, s.config_sha256) ∷ r)
        (switch-identities p active ss))
]

-- The sinks of `b` are those of `a` and some more, and the rest is the same.
pub sinks-Extends :
    (a : Db) (ss new : List SinkRow) (next_sink_id : ℕ)
    → identities ss ≡ identities a.sinks ++ identities new
    → Extends a (record a { sinks = ss; next_sink_id = next_sink_id })
sinks-Extends a ss new next_sink_id h = record {
  events = refl;
  checkpoint = refl;
  next_sequence = refl;
  new_sinks = new;
  sinks = h;
  new_deliveries = [];
  deliveries = sym (append-nil a.deliveries);
  fresh = tt;
}

insert_delivery-new :
    (now sequence sink_id : ℕ) (ds : List DeliveryRow)
    → (new : List DeliveryRow) × (insert_delivery now sequence sink_id ds ≡ ds ++ new)
      × All IsFresh new
unfolding insert_delivery
insert_delivery-new now sequence sink_id ds =
    elim (Bool-cases (any (has_key sequence sink_id) ds)) [
      | inl taken ↦ ([], rw taken (sym (append-nil ds)), tt)
      | inr free ↦ (new_delivery now sequence sink_id ∷ [], rw free refl, ((refl, refl), tt))
    ]

pub backfill-new :
    (now sink_id : ℕ) (es : List EventRow) (ds : List DeliveryRow)
    → (new : List DeliveryRow) × (backfill now sink_id es ds ≡ ds ++ new) × All IsFresh new
unfolding backfill
backfill-new now sink_id [] ds = ([], sym (append-nil ds), tt)
backfill-new now sink_id (e ∷ es) ds = elim (Bool-cases (is_retained e)) [
  | inr pruned ↦ rw pruned (backfill-new now sink_id es ds)
  | inl kept ↦
      let (one, first, fresh) = insert_delivery-new now e.sequence sink_id ds in
      let (more, rest, fresh') =
        backfill-new now sink_id es (insert_delivery now e.sequence sink_id ds) in
      rw kept (
        one ++ more,
        rest ∙ ap (λ (x : List DeliveryRow). x ++ more) first ∙ append_assoc ds one more,
        All-append IsFresh one more fresh fresh',
      )
]
