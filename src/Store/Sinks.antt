-- ===== src/Store/Sinks.antt =====
-- internal/spool/sqlite/sqlite.go: `ConfigureSinks`, which registers the configured sinks, gives each
-- the deliveries that it lacks, and deactivates the others, in one transaction.
pub mod Extension
pub mod Configure
pub mod Active
pub mod Served
use write_relay.Prelude.{
  ℕ, suc, String, Bool, true, false, not, ◌&&◌, ◌||◌, Option, none, some, List, [], ◌∷◌, ◌++◌, ◌==◌,
  any, find, select, update, count, if◌then◌else◌, str_eq, bytes_eq,
}
use write_relay.Spool.{Result, ok, err, durability, sink_conflict, other, guard, ◌>>=◌, ◌>>◌}
use write_relay.Store.{EventRow, SinkRow, DeliveryRow, Db, is_retained, insert_delivery}
use write_relay.Store.Persist.{transact}
use write_relay.Store.Queue.{waits_for}

-- internal/delivery/delivery.go: `SinkRegistration`
pub record SinkRegistration : Type 0 where
  pub name : String
  pub sink_type : String
  pub config_sha256 : List ℕ

-- The tables, and the id of the sink that was registered or found.
pub record Registered : Type 0 where
  pub db : Db
  pub sink_id : ℕ

unfoldable pub activate : ℕ → List SinkRow → List SinkRow
activate sink_id = update (λ s. s.sink_id == sink_id) (λ s. record s { active = true })

unfoldable pub deactivate : ℕ → List SinkRow → List SinkRow
deactivate sink_id = update (λ s. s.sink_id == sink_id) (λ s. record s { active = false })

abbrev pub find_sink : String → List SinkRow → Option SinkRow
find_sink name = find (λ s. str_eq s.sink_name name)

-- A sink keeps its type and its configuration digest for ever.
unfoldable pub register_from : Db → SinkRegistration → Option SinkRow → Result Registered
register_from db r none = ok (record {
  db = record db {
    sinks =
        db.sinks
        ++ record {
          sink_id = db.next_sink_id;
          sink_name = r.name;
          sink_type = r.sink_type;
          config_sha256 = r.config_sha256;
          active = true;
        }
          ∷ [];
    next_sink_id = suc db.next_sink_id;
  };
  sink_id = db.next_sink_id;
})
register_from db r (some s) =
    if not (str_eq s.sink_type r.sink_type) || not (bytes_eq s.config_sha256 r.config_sha256)
    then err sink_conflict
    else ok (record { db = record db { sinks = activate s.sink_id db.sinks }; sink_id = s.sink_id })

-- `INSERT … SELECT sequence … FROM events WHERE payload_pruned_at IS NULL ON CONFLICT DO NOTHING`
unfoldable pub backfill : ℕ → ℕ → List EventRow → List DeliveryRow → List DeliveryRow
backfill now sink_id [] ds = ds
backfill now sink_id (e ∷ es) ds =
    backfill now sink_id es
      (if is_retained e then insert_delivery now e.sequence sink_id ds else ds)

unfoldable pub backfilled : ℕ → Registered → Db
backfilled now g = record g.db { deliveries = backfill now g.sink_id g.db.events g.db.deliveries }

abbrev pub is_named : String → List String → Bool
is_named name = any (λ n. str_eq n name)

-- One round of the loop over the registrations, with the names seen so far.
unfoldable pub register : ℕ → List String → Db → SinkRegistration → Result Db
register now seen db r = do
  guard (not (str_eq r.name "" || str_eq r.sink_type "")) durability
  guard (not (is_named r.name seen)) durability
  g ← register_from db r (find_sink r.name db.sinks)
  ok (backfilled now g)

unfoldable pub register_all :
    ℕ → List String → Db → List SinkRegistration → Result (Db × List String)
register_all now seen db [] = ok (db, seen)
register_all now seen db (r ∷ rs) = do
  db' ← register now seen db r
  register_all now (r.name ∷ seen) db' rs

-- The active sinks that are no longer configured.
unfoldable pub to_deactivate : List String → List SinkRow → List SinkRow
to_deactivate configured = select (λ s. s.active && not (is_named s.sink_name configured))

-- A sink with deliveries that are not terminal cannot be removed.
unfoldable pub deactivate_all : Db → List SinkRow → Result Db
deactivate_all db [] = ok db
deactivate_all db (s ∷ ss) = do
  guard (count (waits_for s.sink_id) db.deliveries == 0) other
  deactivate_all (record db { sinks = deactivate s.sink_id db.sinks }) ss

unfoldable pub configured_result : Db → Result (Db × Unit {0})
configured_result db = ok (db, tt)

unfoldable pub configure_sinks : ℕ → Db → List SinkRegistration → Db × Result (Unit {0})
configure_sinks now db registrations = transact db (do
  registered ← register_all now [] db registrations
  db' ← deactivate_all registered.0 (to_deactivate registered.1 registered.0.sinks)
  configured_result db')
