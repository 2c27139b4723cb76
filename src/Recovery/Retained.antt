-- ===== src/Recovery/Retained.antt =====
-- What was persisted stays persisted while the worker and the operator change deliveries.
use write_relay.Prelude.{ℕ, ◌≡◌, refl, ◌∙◌, Bool, List, [], ◌∷◌, arith, any, All-mono}
use write_relay.Spool.{CommittedBatch, Error, CapturedEvent}
use write_relay.Event.{Runtime}
use write_relay.Store.{Db, DeliveryRow, has_key}
use write_relay.Store.Persist.{last_durable_lsn}
use write_relay.Store.Persist.Stored.{Stored}
use write_relay.Store.Persist.Replay.{Persisted}
use write_relay.Store.Marks.{mark_delivered, mark_failed, redrive_delivery, update_live}
use write_relay.Store.Marks.Transitions.{Moves, Mark, delivers, fails, redrives, mark, mark-Moves}

-- An operation of the worker or the operator leaves the other tables alone.
pub record SameTables (a b : Db) : Type 0 where
  pub events : b.events ≡ a.events
  pub sinks : b.sinks ≡ a.sinks
  pub next_sink_id : b.next_sink_id ≡ a.next_sink_id
  pub checkpoint : b.checkpoint ≡ a.checkpoint
  pub next_sequence : b.next_sequence ≡ a.next_sequence

update_live-Same :
    (db : Db) (matches : DeliveryRow → Bool) (change : DeliveryRow → DeliveryRow) (e : Error)
    → SameTables db (update_live db matches change e).0
unfolding update_live
update_live-Same db matches change e = record {
  events = ground arith;
  sinks = ground arith;
  next_sink_id = ground arith;
  checkpoint = ground arith;
  next_sequence = ground arith;
}

pub mark-Same : (db : Db) (m : Mark) → SameTables db (mark db m).0
unfolding mark mark_delivered mark_failed redrive_delivery
mark-Same db (delivers item attempt status at) = record {
  events = refl;
  sinks = refl;
  next_sink_id = refl;
  checkpoint = refl;
  next_sequence = refl;
}
mark-Same db (fails item f) = update_live-Same db _ _ _
mark-Same db (redrives sink_name source id at) = update_live-Same db _ _ _

pub any-Moves :
    (sequence sink_id : ℕ) (ds es : List DeliveryRow)
    → Moves ds es
    → any (has_key sequence sink_id) es ≡ any (has_key sequence sink_id) ds
any-Moves sequence sink_id [] [] m = refl
any-Moves sequence sink_id (d ∷ ds) (e ∷ es) m =
    ground (arith, m.0, m.1, any-Moves sequence sink_id ds es m.3)
any-Moves sequence sink_id [] (_ ∷ _) m = absurd m
any-Moves sequence sink_id (_ ∷ _) [] m = absurd m

Stored-mark : (db : Db) (m : Mark) (e : CapturedEvent) → Stored db e → Stored (mark db m).0 e
Stored-mark db m e s =
    let t = mark-Same db m in
    record {
      row = s.row;
      found = rw (t.events) s.found;
      same_digest = s.same_digest;
      deliveries = λ there. rw (t.sinks) (
          All-mono
            (λ k h active.
              any-Moves s.row.sequence k.sink_id db.deliveries (mark db m).0.deliveries
                (mark-Moves db m)
              ∙ h active)
            db.sinks (s.deliveries (rw (t.events) at there)));
    }

module _ (rt : Runtime) where
  pub durable-mark : (db : Db) (m : Mark) → last_durable_lsn (mark db m).0 ≡ last_durable_lsn db
  unfolding last_durable_lsn
  durable-mark db m = rw (mark-Same db m).checkpoint

  pub Persisted-mark :
      (db : Db) (m : Mark) (batch : CommittedBatch)
      → Persisted rt db batch
      → Persisted rt (mark db m).0 batch
  Persisted-mark db m batch p = record {
    ordered = p.ordered;
    valid = p.valid;
    stored = All-mono (λ e s. Stored-mark db m e s) batch.events p.stored;
    reached = omega (arith, p.reached, durable-mark db m);
  }
