-- ===== src/Replicator/Sent.antt =====
-- What the status updates of one connection say, however it goes.
use write_relay.Prelude.{
  ℕ, ◌≤◌, true, false, inl, inr, Option, none, some, List, [], ◌∷◌, ◌++◌, arith, max, All, All-mono,
  All-append,
}
use write_relay.Spool.{CommittedBatch, Result, ok, err, Result-cases}
use write_relay.Event.{Runtime}
use write_relay.Capture.{Limits, StateMachine, consume}
use write_relay.Disk.{Guard, check}
use write_relay.Replicator.{
  CaptureSpool, Received, context_done, receive_timeout, receive_failed, other_data, bad_keepalive,
  bad_wal_data, keepalive, wal_data, Turn, Outcome, running, returned, Stream, Acknowledged,
  persist_batch, send_status, reset_on_error, return_on_error, receive_admitted, after_persist,
  after_consume, receive, step, run_turns, start_stream,
}
use write_relay.Replicator.Acknowledge.{Covers, persist_batch-Covers}

module _ {D : Type 0} (ops : CaptureSpool D) (start : ℕ) where
  abbrev pub Known : D → ℕ → Type 0
  Known d l = l ≤ max start (ops.last_durable d)

  -- No position is ahead of the spool's checkpoint and of the start.
  pub record IsValid (s : Stream D) : Type 0 where
    pub durable_known : Known s.spool s.durable_lsn
    pub sent_known : All (Known s.spool) s.sent

  Known-mono :
      (d d' : D) (ls : List ℕ)
      → ops.last_durable d ≤ ops.last_durable d'
      → All (Known d) ls
      → All (Known d') ls
  Known-mono d d' ls ahead known = All-mono (λ l k. omega (arith, ahead, k)) ls known

  send_status-IsValid : (t : Turn) (s : Stream D) → IsValid s → IsValid (send_status ops t s).0
  unfolding send_status
  send_status-IsValid t s v = record {
    durable_known = v.durable_known;
    sent_known = (v.durable_known, v.sent_known);
  }

  after_persist-IsValid :
      (t : Turn) (s : Stream D) (g : Guard) (batch : CommittedBatch) (a : Acknowledged D)
      → Covers ops t.send_ok batch s.spool a
      → IsValid s
      → IsValid (after_persist ops t s (g, a)).0
  unfolding after_persist
  after_persist-IsValid t s g batch a c v =
      let older = Known-mono s.spool a.spool s.sent c.not_behind v.sent_known in
      let acks : All (Known a.spool) a.acks =
        All-mono (λ l k. omega (arith, k.0)) a.acks c.acks_stored in
      let sent : All (Known a.spool) (a.acks ++ s.sent) =
        All-append (Known a.spool) a.acks s.sent acks older in
      let known : Known a.spool s.durable_lsn = omega (arith, v.durable_known, c.not_behind) in
      elim (Result-cases a.result) [
        | inl (r, e) ↦
            (let (same, _, _) = c.result_stored r e in
              rw e (record { durable_known = omega (arith, same); sent_known = sent }))
        | inr (x, e) ↦ rw e (record { durable_known = known; sent_known = sent })
      ]

  after_consume-IsValid :
      (t : Turn) (s : Stream D) (m : StateMachine × Result (Option CommittedBatch))
      → IsValid s
      → IsValid (after_consume ops t s m).0
  unfolding after_consume
  after_consume-IsValid t s (m, err e) v = record {
    durable_known = v.durable_known;
    sent_known = v.sent_known;
  }
  after_consume-IsValid t s (m, ok none) v = record {
    durable_known = v.durable_known;
    sent_known = v.sent_known;
  }
  after_consume-IsValid t s (m, ok (some batch)) v =
      let (g, a) = persist_batch ops t s.disk s.spool batch in
      after_persist-IsValid t (record s { machine = m }) g batch a
        (persist_batch-Covers ops t s.disk s.spool batch)
        (record { durable_known = v.durable_known; sent_known = v.sent_known })

  reset_on_error-IsValid :
      (w : Stream D × Result (Unit {0})) → IsValid w.0 → IsValid (reset_on_error ops w).0
  reset_on_error-IsValid (s, ok _) v = v
  reset_on_error-IsValid (s, err e) v = record {
    durable_known = v.durable_known;
    sent_known = v.sent_known;
  }

  return_on_error-IsValid :
      (w : Stream D × Result (Unit {0})) → IsValid w.0 → IsValid (return_on_error ops w).0
  return_on_error-IsValid (s, ok _) v = v
  return_on_error-IsValid (s, err e) v = v

  receive-IsValid :
      (rt : Runtime) (t : Turn) (s : Stream D) (r : Received)
      → IsValid s
      → IsValid (receive ops rt t s r).0
  unfolding receive
  receive-IsValid rt t s context_done v = record {
    durable_known = v.durable_known;
    sent_known = v.sent_known;
  }
  receive-IsValid rt t s receive_timeout v =
      reset_on_error-IsValid (send_status ops t s) (send_status-IsValid t s v)
  receive-IsValid rt t s receive_failed v = record {
    durable_known = v.durable_known;
    sent_known = v.sent_known;
  }
  receive-IsValid rt t s other_data v = v
  receive-IsValid rt t s bad_keepalive v = v
  receive-IsValid rt t s bad_wal_data v = v
  receive-IsValid rt t s (keepalive true) v =
      return_on_error-IsValid (send_status ops t s) (send_status-IsValid t s v)
  receive-IsValid rt t s (keepalive false) v = v
  receive-IsValid rt t s (wal_data none) v = v
  receive-IsValid rt t s (wal_data (some message)) v =
      after_consume-IsValid t s (consume rt s.machine message) v

  receive_admitted-IsValid :
      (rt : Runtime) (t : Turn) (s : Stream D) (c : Guard × Result (Unit {0}))
      → IsValid s
      → IsValid (receive_admitted ops rt t s c).0
  receive_admitted-IsValid rt t s (g, err e) v = record {
    durable_known = v.durable_known;
    sent_known = v.sent_known;
  }
  receive_admitted-IsValid rt t s (g, ok _) v =
      receive-IsValid rt t (record s { disk = g }) t.received
        (record { durable_known = v.durable_known; sent_known = v.sent_known })

  run_turns-IsValid :
      (rt : Runtime) (ts : List Turn) (w : Stream D × Outcome)
      → IsValid w.0
      → IsValid (run_turns ops rt ts w).0
  unfolding run_turns step
  run_turns-IsValid rt [] w v = v
  run_turns-IsValid rt (t ∷ ts) (s, returned r) v = v
  run_turns-IsValid rt (t ∷ ts) (s, running) v =
      run_turns-IsValid rt ts (step ops rt t s)
        (receive_admitted-IsValid rt t s (check s.disk false t.checked_at t.probe) v)

  -- Whatever the server sends and whatever fails, no status update of a connection is ahead of both
  -- the position at which it started and the checkpoint that the spool holds at the end.
  pub run_turns-sent-Known :
      (rt : Runtime) (limits : Limits) (g : Guard) (d : D) (ts : List Turn)
      → All
          (Known (run_turns ops rt ts (start_stream ops rt limits g d start, running)).0.spool)
          (run_turns ops rt ts (start_stream ops rt limits g d start, running)).0.sent
  unfolding start_stream
  run_turns-sent-Known rt limits g d ts =
      let v : IsValid (start_stream ops rt limits g d start) = record {
        durable_known = ground arith;
        sent_known = tt;
      } in
      (run_turns-IsValid rt ts (start_stream ops rt limits g d start, running) v).sent_known
