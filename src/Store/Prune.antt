-- ===== src/Store/Prune.antt =====
-- internal/spool/sqlite/prune.go: `Prune`, which empties the payloads of events whose deliveries all
-- succeeded before a cutoff. The triggers of migration 3 stand where the UPDATE meets them.
pub mod Safety
pub mod DryRun
use write_relay.Prelude.{
  ℕ, ◌+◌, String, Bool, true, not, ◌&&◌, ◌||◌, Option, none, some, List, [], ◌∷◌, ltb, leb, ◌==◌,
  any, select, take, update, count, length, if◌then◌else◌,
}
use write_relay.Spool.{Result, ok, other, guard, ◌>>=◌, ◌>>◌}
use write_relay.Store.{EventRow, DeliveryRow, Db, is_delivered, is_retained, is_some}
use write_relay.Store.Persist.{transact}

pub record PruneOptions : Type 0 where
  pub before : ℕ
  pub limit : ℕ
  pub dry_run : Bool

pub record PruneEntry : Type 0 where
  pub sequence : ℕ
  pub source : String
  pub id : String
  pub payload_bytes : ℕ

pub record PruneResult : Type 0 where
  pub dry_run : Bool
  pub before : ℕ
  pub limit : ℕ
  pub events : ℕ
  pub payload_bytes : ℕ
  pub entries : List PruneEntry

-- What the file system and SQLite say of the spool file.
pub record SpoolFile : Type 0 where
  pub path_given : Bool
  pub is_regular : Bool
  pub version : ℕ
  pub is_wal : Bool

abbrev pub current_schema_version : ℕ
current_schema_version = 3

abbrev pub belongs_to : ℕ → DeliveryRow → Bool
belongs_to sequence d = d.event_sequence == sequence

-- `d.delivered_at IS NULL OR d.delivered_at >= ?`
abbrev pub not_before : ℕ → Option ℕ → Bool
not_before before none = true
not_before before (some at) = leb before at

-- A delivery that keeps its event's payload.
abbrev pub holds_back : ℕ → ℕ → DeliveryRow → Bool
holds_back before sequence d =
    belongs_to sequence d && (not (is_delivered d.state) || not_before before d.delivered_at)

abbrev pub is_prunable : ℕ → List DeliveryRow → EventRow → Bool
is_prunable before ds e =
    is_retained e && (any (belongs_to e.sequence) ds && not (any (holds_back before e.sequence) ds))

unfoldable pub prune_candidates : ℕ → ℕ → Db → List EventRow
prune_candidates before limit db = take limit (select (is_prunable before db.deliveries) db.events)

unfoldable pub prune_entry : EventRow → PruneEntry
prune_entry e = record {
  sequence = e.sequence;
  source = e.source;
  id = e.id;
  payload_bytes = length e.payload;
}

unfoldable pub prune_entries : List EventRow → List PruneEntry
prune_entries [] = []
prune_entries (e ∷ es) = prune_entry e ∷ prune_entries es

unfoldable pub total_payload_bytes : List PruneEntry → ℕ
total_payload_bytes [] = 0
total_payload_bytes (x ∷ xs) = x.payload_bytes + total_payload_bytes xs

-- `WHERE sequence = ? AND payload_pruned_at IS NULL`
abbrev pub is_entry : ℕ → EventRow → Bool
is_entry sequence e = e.sequence == sequence && is_retained e

unfoldable pub pruned_row : ℕ → EventRow → EventRow
pruned_row now e = record e { payload = []; payload_pruned_at = some now }

-- The trigger events_prune_requires_delivered, for one row that the UPDATE changes.
abbrev pub may_prune : List DeliveryRow → EventRow → Bool
may_prune ds e =
    any (belongs_to e.sequence) ds
    && not (
        any
          (λ d.
            belongs_to e.sequence d && (not (is_delivered d.state) || not (is_some d.delivered_at)))
          ds)

unfoldable pub prune_payload : ℕ → Db → ℕ → Result Db
prune_payload now db sequence = do
  guard (not (any (λ e. is_entry sequence e && not (may_prune db.deliveries e)) db.events)) other
  guard (count (is_entry sequence) db.events == 1) other
  ok (record db { events = update (is_entry sequence) (pruned_row now) db.events })

unfoldable pub prune_payloads : ℕ → Db → List PruneEntry → Result Db
prune_payloads now db [] = ok db
prune_payloads now db (x ∷ xs) = do db' ← prune_payload now db x.sequence; prune_payloads now db' xs

unfoldable pub prune_result : PruneOptions → List PruneEntry → PruneResult
prune_result options entries = record {
  dry_run = options.dry_run;
  before = options.before;
  limit = options.limit;
  events = length entries;
  payload_bytes = total_payload_bytes entries;
  entries = entries;
}

abbrev pub with_result : PruneResult → Db → Result (Db × PruneResult)
with_result r db = ok (db, r)

unfoldable pub prune_selected : ℕ → PruneOptions → Db → List PruneEntry → Result (Db × PruneResult)
prune_selected now options db entries = do
  db' ← if options.dry_run then ok db else prune_payloads now db entries
  with_result (prune_result options entries) db'

-- The checks before the first statement. A time of 0 is the zero timestamp.
unfoldable pub prune_allowed : ℕ → SpoolFile → PruneOptions → Result (Unit {0})
prune_allowed now file options = do
  guard (not (options.before == 0 || ltb now options.before)) other
  guard (not (ltb options.limit 1 || ltb 1000 options.limit)) other
  guard file.path_given other
  guard file.is_regular other
  guard (file.version == current_schema_version) other
  guard file.is_wal other

unfoldable pub prune : ℕ → SpoolFile → PruneOptions → Db → Db × Result PruneResult
prune now file options db = transact db (do
  prune_allowed now file options
  prune_selected now options db (prune_entries (prune_candidates options.before options.limit db)))
