-- ===== src/Store/Stats/Oldest.antt =====
-- The oldest waiting event of the statistics, to the second.
use write_relay.Prelude.{
  ℕ, ◌≡◌, refl, subst, ◌∙◌, Option, none, some, List, [], ◌∷◌, arith, ◌==◌, All, All-mono,
  minimum_by,
}
use write_relay.Spool.{ok, other, guard, >>=-eq-ok}
use write_relay.Store.{SinkRow, Db}
use write_relay.Store.Owners.{owners, Owned}
use write_relay.Store.Prune.{current_schema_version}
use write_relay.Store.Stats.Written.{written_before}
use write_relay.Store.Stats.{
  WaitingStats, Stats, waiting_captures, waiting_since, sink_row, insert_by_name, by_name, add_sink,
  add_sinks, stats_before, read_stats_snapshot,
}
use write_relay.Store.Stats.Waiting.{
  waiting_times, NotAfter, OneOf, waiting_since-NotAfter, older-NotAfter, older-OneOf,
  waiting_captures-times, waiting_times-NotAfter,
}

owners-insert :
    (sink_id : ℕ) (s : SinkRow) (ss : List SinkRow)
    → owners sink_id (insert_by_name s ss) ≡ owners sink_id (s ∷ ss)
unfolding insert_by_name
owners-insert sink_id s [] = refl
owners-insert sink_id s (t ∷ ts) = ground (arith, owners-insert sink_id s ts)

owners-by_name : (sink_id : ℕ) (ss : List SinkRow) → owners sink_id (by_name ss) ≡ owners sink_id ss
unfolding by_name
owners-by_name sink_id [] = refl
owners-by_name sink_id (s ∷ ss) =
    ground (arith, owners-insert sink_id s (by_name ss), owners-by_name sink_id ss)

module _ (at : ℕ) (db : Db) where
  sink_row-NotAfter :
      (s : SinkRow)
      → All
          (NotAfter (sink_row at db s).oldest_waiting)
          (waiting_captures s.sink_id db.events db.deliveries)
        × OneOf (waiting_times db.events db.deliveries) (sink_row at db s).oldest_waiting
  unfolding sink_row
  sink_row-NotAfter s =
      let (bound, member) =
        waiting_since-NotAfter at (waiting_captures s.sink_id db.events db.deliveries) in
      (
        bound,
        OneOf-mono
            (waiting_since at
              (minimum_by written_before (waiting_captures s.sink_id db.events db.deliveries)))
            member,
      )
    where
      OneOf-mono :
          (w : Option WaitingStats)
          → OneOf (waiting_captures s.sink_id db.events db.deliveries) w
          → OneOf (waiting_times db.events db.deliveries) w
      OneOf-mono none m = tt
      OneOf-mono (some w) m =
          waiting_captures-times s.sink_id db.events db.deliveries w.captured_at m

  add_sinks-kept :
      (r : Stats) (ss : List SinkRow) (time : ℕ)
      → NotAfter r.oldest_waiting time
      → NotAfter (add_sinks at db r ss).oldest_waiting time
  unfolding add_sinks add_sink
  add_sinks-kept r [] time h = h
  add_sinks-kept r (s ∷ ss) time h =
      add_sinks-kept (add_sink r (sink_row at db s)) ss time
        ((older-NotAfter r.oldest_waiting (sink_row at db s).oldest_waiting time).0 h)

  add_sinks-NotAfter :
      (r : Stats) (ss : List SinkRow)
      → All
          (λ s.
            All
              (NotAfter (add_sinks at db r ss).oldest_waiting)
              (waiting_captures s.sink_id db.events db.deliveries))
          ss
  unfolding add_sinks add_sink
  add_sinks-NotAfter r [] = tt
  add_sinks-NotAfter r (s ∷ ss) = (
    All-mono
        (λ t m.
          add_sinks-kept (add_sink r (sink_row at db s)) ss t
            ((older-NotAfter r.oldest_waiting (sink_row at db s).oldest_waiting t).1 m))
        (waiting_captures s.sink_id db.events db.deliveries) (sink_row-NotAfter s).0,
    add_sinks-NotAfter (add_sink r (sink_row at db s)) ss,
  )

  add_sinks-OneOf :
      (r : Stats) (ss : List SinkRow)
      → OneOf (waiting_times db.events db.deliveries) r.oldest_waiting
      → OneOf (waiting_times db.events db.deliveries) (add_sinks at db r ss).oldest_waiting
  unfolding add_sinks add_sink
  add_sinks-OneOf r [] h = h
  add_sinks-OneOf r (s ∷ ss) h = add_sinks-OneOf (add_sink r (sink_row at db s)) ss (
      older-OneOf (waiting_times db.events db.deliveries) r.oldest_waiting
        (sink_row at db s).oldest_waiting h (sink_row-NotAfter s).1)

-- If each delivery has exactly one sink, the oldest waiting event of the statistics is the event of a
-- delivery that waits, and no waiting delivery's event was captured in an earlier second; there is
-- none only if nothing waits. Within a second the choice may fall on a later event.
pub read_stats-oldest :
    (version at : ℕ) (db : Db) {stats : Stats}
    → read_stats_snapshot version at db ≡ ok stats
    → Owned db
    → All (NotAfter stats.oldest_waiting) (waiting_times db.events db.deliveries)
      × OneOf (waiting_times db.events db.deliveries) stats.oldest_waiting
unfolding read_stats_snapshot stats_before
read_stats-oldest version at db {stats} h o =
    let (_, _, done) = >>=-eq-ok (guard (version == current_schema_version) other) _ h in
    let same : add_sinks at db (stats_before at db) (by_name db.sinks) ≡ stats =
      ground (arith, done) in
    let owned =
      All-mono (λ d one. owners-by_name d.sink_id db.sinks ∙ one) db.deliveries o.deliveries in
    subst
      (λ (s : Stats).
        All (NotAfter s.oldest_waiting) (waiting_times db.events db.deliveries)
        × OneOf (waiting_times db.events db.deliveries) s.oldest_waiting)
      same
      (
        waiting_times-NotAfter
            (add_sinks at db (stats_before at db) (by_name db.sinks)).oldest_waiting db.events
            (by_name db.sinks) db.deliveries
            (add_sinks-NotAfter at db (stats_before at db) (by_name db.sinks)) owned,
        add_sinks-OneOf at db (stats_before at db) (by_name db.sinks) tt,
      )
