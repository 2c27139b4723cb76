-- ===== src/Monitoring/Exported.antt =====
-- What the metrics say of the deliveries in the spool: all of them, or nothing.
use write_relay.Prelude.{
  ℕ, ◌+◌, ◌≡◌, refl, subst, ◌==◌, Bool, true, false, List, [], ◌∷◌, ◌++◌, map, arith, any, length,
  str_eq, if◌then◌else◌,
}
use write_relay.Spool.{ok, other, guard, >>=-eq-ok}
use write_relay.Store.{SinkRow, Db}
use write_relay.Store.Owners.{Owned}
use write_relay.Store.Prune.{current_schema_version}
use write_relay.Store.Stats.{
  DeliveryCounts, SinkStats, Stats, add_counts, add_sink, add_sinks, sink_row, by_name,
  stats_before, read_stats_snapshot,
}
use write_relay.Store.Stats.Totals.{read_stats-CountsOf}
use write_relay.Monitoring.{CaptureStatus}
use write_relay.Monitoring.Metrics.{
  Value, number, seconds_of, Metric, flat_map, write_metrics, spool_metrics, delivery_metrics,
  active_metric, age_metric, pause_metrics, disk_metrics, capture_metrics,
}

-- The lines of the family `writerelay_deliveries`.
abbrev pub counts_deliveries : Metric → Bool
counts_deliveries m = str_eq m.name "deliveries"

abbrev value_of : Value → ℕ
value_of (number n) = n
value_of (seconds_of n) = 0

pub exported : List Metric → ℕ
exported [] = 0
exported (m ∷ ms) = (if counts_deliveries m then value_of m.value else 0) + exported ms

exported-append : (xs ys : List Metric) → exported (xs ++ ys) ≡ exported xs + exported ys
unfolding exported
exported-append [] ys = omega arith
exported-append (x ∷ xs) ys = omega (arith, exported-append xs ys)

exported-active : (rows : List SinkStats) → exported (map active_metric rows) ≡ 0
unfolding exported active_metric
exported-active [] = refl
exported-active (r ∷ rows) = omega (arith, exported-active rows)

exported-age : (now : ℕ) (rows : List SinkStats) → exported (map (age_metric now) rows) ≡ 0
unfolding exported age_metric
exported-age now [] = refl
exported-age now (r ∷ rows) = omega (arith, exported-age now rows)

abbrev four : DeliveryCounts → ℕ
four c = c.pending + c.retry_wait + c.delivered + c.dead_letter

sum_rows : List SinkStats → ℕ
sum_rows [] = 0
sum_rows (r ∷ rows) = four r.deliveries + sum_rows rows

exported-delivery :
    (rows : List SinkStats) → exported (flat_map delivery_metrics rows) ≡ sum_rows rows
unfolding exported delivery_metrics sum_rows
exported-delivery [] = refl
exported-delivery (r ∷ rows) = omega (arith, exported-delivery rows)

exported-spool :
    (stats : Stats) (now : ℕ) → exported (spool_metrics stats now) ≡ sum_rows stats.sinks
unfolding exported spool_metrics
exported-spool stats now =
    let active = map active_metric stats.sinks in
    let deliveries = flat_map delivery_metrics stats.sinks in
    let ages = map (age_metric now) stats.sinks in
    omega (
      arith,
      exported-append active (deliveries ++ ages),
      exported-append deliveries ages,
      exported-active stats.sinks,
      exported-delivery stats.sinks,
      exported-age now stats.sinks,
    )

exported-capture :
    (capture : CaptureStatus) (fresh : Bool) (at : ℕ) (rest : List Metric)
    → exported (
        pause_metrics capture.disk
        ++ (disk_metrics capture.disk ++ (capture_metrics capture fresh at ++ rest)))
      ≡ exported rest
unfolding exported pause_metrics disk_metrics capture_metrics
exported-capture capture fresh at rest = ground arith

sum_rows-append : (xs ys : List SinkStats) → sum_rows (xs ++ ys) ≡ sum_rows xs + sum_rows ys
unfolding sum_rows
sum_rows-append [] ys = omega arith
sum_rows-append (x ∷ xs) ys = omega (arith, sum_rows-append xs ys)

-- The rows and the totals agree after every round of the loop.
add_sinks-rows :
    (at : ℕ) (db : Db) (r : Stats) (ss : List SinkRow)
    → sum_rows r.sinks ≡ four r.deliveries
    → sum_rows (add_sinks at db r ss).sinks ≡ four (add_sinks at db r ss).deliveries
unfolding add_sinks add_sink add_counts sum_rows
add_sinks-rows at db r [] h = h
add_sinks-rows at db r (s ∷ ss) h =
    add_sinks-rows at db (add_sink r (sink_row at db s)) ss
      (omega (arith, h, sum_rows-append r.sinks (sink_row at db s ∷ [])))

read_stats-rows :
    (version at : ℕ) (db : Db) {stats : Stats}
    → read_stats_snapshot version at db ≡ ok stats
    → sum_rows stats.sinks ≡ four stats.deliveries
unfolding read_stats_snapshot stats_before sum_rows
read_stats-rows version at db {stats} h =
    let (_, _, done) = >>=-eq-ok (guard (version == current_schema_version) other) _ h in
    let same : add_sinks at db (stats_before at db) (by_name db.sinks) ≡ stats =
      ground (arith, done) in
    subst (λ (s : Stats). sum_rows s.sinks ≡ four s.deliveries) same
      (add_sinks-rows at db (stats_before at db) (by_name db.sinks) refl)

-- If each delivery has exactly one sink, the delivery metrics of a fresh sample add up to the number
-- of deliveries in the spool. A sample that is not fresh exports no delivery metric at all.
pub exported-write_metrics :
    (version at : ℕ) (db : Db) {stats : Stats}
    → read_stats_snapshot version at db ≡ ok stats
    → Owned db
    → (capture : CaptureStatus) (now : ℕ)
    → (exported (write_metrics capture stats true now) ≡ length db.deliveries)
      × (any counts_deliveries (write_metrics capture stats false now) ≡ false)
unfolding write_metrics pause_metrics disk_metrics capture_metrics
exported-write_metrics version at db {stats} h o capture now =
    let counts = read_stats-CountsOf version at db {stats = stats} h o in
    (
      omega (
        arith,
        exported-capture capture true stats.sampled_at (spool_metrics stats now),
        exported-spool stats now,
        read_stats-rows version at db {stats = stats} h,
        counts.adds,
        counts.total,
      ),
      ground arith,
    )
