-- ===== src/Store/Stats/Totals.antt =====
-- The sums of the statistics: over all sinks they count each delivery once.
use write_relay.Prelude.{
  ℕ, ◌+◌, ◌≡◌, refl, subst, ◌∙◌, Bool, List, [], ◌∷◌, arith, ◌==◌, count, length, All,
  if◌then◌else◌,
}
use write_relay.Spool.{ok, other, guard, >>=-eq-ok}
use write_relay.Store.{SinkRow, DeliveryRow, DeliveryState, Db, is_delivered, is_dead_letter}
use write_relay.Store.Owners.{owners, Owned}
use write_relay.Store.Prune.{current_schema_version}
use write_relay.Store.Stats.{
  DeliveryCounts, Stats, is_pending, is_retry_wait, in_state, any_state, count_deliveries, sink_row,
  insert_by_name, by_name, add_counts, add_sink, add_sinks, stats_before, read_stats_snapshot,
}

-- The deliveries of these sinks in such a state.
sum_sinks : (DeliveryState → Bool) → List DeliveryRow → List SinkRow → ℕ
sum_sinks is_state ds [] = 0
sum_sinks is_state ds (s ∷ ss) = count (in_state s.sink_id is_state) ds + sum_sinks is_state ds ss

sum_sinks-nil : (is_state : DeliveryState → Bool) (ss : List SinkRow) → sum_sinks is_state [] ss ≡ 0
unfolding sum_sinks
sum_sinks-nil is_state [] = refl
sum_sinks-nil is_state (s ∷ ss) = omega (arith, sum_sinks-nil is_state ss)

sum_sinks-cons :
    (is_state : DeliveryState → Bool) (d : DeliveryRow) (ds : List DeliveryRow) (ss : List SinkRow)
    → sum_sinks is_state (d ∷ ds) ss
      ≡ (if is_state d.state then owners d.sink_id ss else 0) + sum_sinks is_state ds ss
unfolding sum_sinks
sum_sinks-cons is_state d ds [] = ground arith
sum_sinks-cons is_state d ds (s ∷ ss) = ground (arith, sum_sinks-cons is_state d ds ss)

sum_sinks-count :
    (is_state : DeliveryState → Bool) (ss : List SinkRow) (ds : List DeliveryRow)
    → All (λ d. owners d.sink_id ss ≡ 1) ds
    → sum_sinks is_state ds ss ≡ count (λ (d : DeliveryRow). is_state d.state) ds
sum_sinks-count is_state ss [] h = sum_sinks-nil is_state ss
sum_sinks-count is_state ss (d ∷ ds) h =
    ground (arith, sum_sinks-cons is_state d ds ss, sum_sinks-count is_state ss ds h.1, h.0)

sum_sinks-insert :
    (is_state : DeliveryState → Bool) (ds : List DeliveryRow) (s : SinkRow) (ss : List SinkRow)
    → sum_sinks is_state ds (insert_by_name s ss) ≡ sum_sinks is_state ds (s ∷ ss)
unfolding sum_sinks insert_by_name
sum_sinks-insert is_state ds s [] = refl
sum_sinks-insert is_state ds s (t ∷ ts) = ground (arith, sum_sinks-insert is_state ds s ts)

sum_sinks-by_name :
    (is_state : DeliveryState → Bool) (ds : List DeliveryRow) (ss : List SinkRow)
    → sum_sinks is_state ds (by_name ss) ≡ sum_sinks is_state ds ss
unfolding sum_sinks by_name
sum_sinks-by_name is_state ds [] = refl
sum_sinks-by_name is_state ds (s ∷ ss) =
    ground (arith, sum_sinks-insert is_state ds s (by_name ss), sum_sinks-by_name is_state ds ss)

-- What the loop over the sinks has added up.
record Adds (ds : List DeliveryRow) (ss : List SinkRow) (a b : DeliveryCounts) : Type 0 where
  total : b.total ≡ a.total + sum_sinks any_state ds ss
  pending : b.pending ≡ a.pending + sum_sinks is_pending ds ss
  retry_wait : b.retry_wait ≡ a.retry_wait + sum_sinks is_retry_wait ds ss
  delivered : b.delivered ≡ a.delivered + sum_sinks is_delivered ds ss
  dead_letter : b.dead_letter ≡ a.dead_letter + sum_sinks is_dead_letter ds ss

add_sinks-Adds :
    (at : ℕ) (db : Db) (r : Stats) (ss : List SinkRow)
    → Adds db.deliveries ss r.deliveries (add_sinks at db r ss).deliveries
unfolding sum_sinks add_sink add_sinks add_counts sink_row count_deliveries
add_sinks-Adds at db r [] = ground arith
add_sinks-Adds at db r (s ∷ ss) =
    ground (arith, add_sinks-Adds at db (add_sink r (sink_row at db s)) ss)

-- Each delivery is in one of the four states.
states_add :
    (ds : List DeliveryRow)
    → count (λ (d : DeliveryRow). any_state d.state) ds
      ≡ count (λ (d : DeliveryRow). is_pending d.state) ds
        + count (λ (d : DeliveryRow). is_retry_wait d.state) ds
        + count (λ (d : DeliveryRow). is_delivered d.state) ds
        + count (λ (d : DeliveryRow). is_dead_letter d.state) ds
states_add [] = omega arith
states_add (d ∷ ds) = ground (arith, states_add ds)

count_all : (ds : List DeliveryRow) → count (λ (d : DeliveryRow). any_state d.state) ds ≡ length ds
count_all [] = refl
count_all (d ∷ ds) = omega (arith, count_all ds)

sum_by_name :
    (is_state : DeliveryState → Bool) (db : Db)
    → All (λ d. owners d.sink_id db.sinks ≡ 1) db.deliveries
    → sum_sinks is_state db.deliveries (by_name db.sinks)
      ≡ count (λ (d : DeliveryRow). is_state d.state) db.deliveries
sum_by_name is_state db h =
    sum_sinks-by_name is_state db.deliveries db.sinks
    ∙ sum_sinks-count is_state db.sinks db.deliveries h

-- The sums of the statistics, against the table of deliveries.
pub record CountsOf (ds : List DeliveryRow) (c : DeliveryCounts) : Type 0 where
  pub total : c.total ≡ length ds
  pub pending : c.pending ≡ count (λ (d : DeliveryRow). is_pending d.state) ds
  pub retry_wait : c.retry_wait ≡ count (λ (d : DeliveryRow). is_retry_wait d.state) ds
  pub delivered : c.delivered ≡ count (λ (d : DeliveryRow). is_delivered d.state) ds
  pub dead_letter : c.dead_letter ≡ count (λ (d : DeliveryRow). is_dead_letter d.state) ds
  pub adds : c.total ≡ c.pending + c.retry_wait + c.delivered + c.dead_letter

add_sinks-CountsOf :
    (at : ℕ) (db : Db)
    → All (λ d. owners d.sink_id db.sinks ≡ 1) db.deliveries
    → CountsOf db.deliveries (add_sinks at db (stats_before at db) (by_name db.sinks)).deliveries
unfolding stats_before
add_sinks-CountsOf at db h = ground (
  arith,
  add_sinks-Adds at db (stats_before at db) (by_name db.sinks),
  sum_by_name any_state db h,
  sum_by_name is_pending db h,
  sum_by_name is_retry_wait db h,
  sum_by_name is_delivered db h,
  sum_by_name is_dead_letter db h,
  states_add db.deliveries,
  count_all db.deliveries,
)

-- If each delivery has exactly one sink, the sums of the statistics count every delivery once, in the
-- state that it is in: their total is the number of deliveries and the sum of the four states.
pub read_stats-CountsOf :
    (version at : ℕ) (db : Db) {stats : Stats}
    → read_stats_snapshot version at db ≡ ok stats
    → Owned db
    → CountsOf db.deliveries stats.deliveries
unfolding read_stats_snapshot
read_stats-CountsOf version at db {stats} h o =
    let (_, _, done) = >>=-eq-ok (guard (version == current_schema_version) other) _ h in
    let same : add_sinks at db (stats_before at db) (by_name db.sinks) ≡ stats =
      ground (arith, done) in
    subst (λ (s : Stats). CountsOf db.deliveries s.deliveries) same
      (add_sinks-CountsOf at db o.deliveries)
