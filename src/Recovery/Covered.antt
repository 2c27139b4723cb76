-- ===== src/Recovery/Covered.antt =====
-- No transaction that the server may forget is missing in the spool.
use mathlib.Core.List.{Memᴰ}
use write_relay.Prelude.{
  ℕ, ◌≤◌, ◌≡◌, sym, subst, max, Bool, Option, none, some, [], ◌∷◌, arith, All-mem_self, All,
  All-mono, All-mem,
}
use write_relay.Spool.{CommittedBatch}
use write_relay.Event.{Runtime}
use write_relay.Store.{Db}
use write_relay.Store.Persist.{last_durable_lsn, persist_committed_batch}
use write_relay.Store.Persist.Checkpoint.{checkpoint-persist, persist_cases}
use write_relay.Store.Persist.Stored.{SequencesBelow}
use write_relay.Store.Persist.Replay.{Persisted}
use write_relay.Recovery.Payloads.{IsDigested, persist-IsDigested, IsHeld, Persisted-IsHeld}
use write_relay.Replicator.{Acknowledged, persist_then_acknowledge}
use write_relay.Replicator.Sqlite.{sqlite}
use write_relay.Replicator.Acknowledge.{Covers, persist_then_acknowledge-Covers}
use write_relay.Recovery.{
  World, confirm, received, IsNextAfter, Step, commits, connects, disconnects, receives, status,
  marks, Steps, begins, after,
}
use write_relay.Recovery.Handed.{
  persisted, persist-covers, persist-SequencesBelow, acknowledged_spool, confirm-le,
}
use write_relay.Recovery.Safe.{
  Within, IsSafe, commits-IsSafe, marks-IsSafe, next_cursor-Within, in_order,
}

module _ (rt : Runtime) (floor : ℕ) where
  -- The same step, with the spool's name for its tables.
  receives-IsSafe :
      (w : World) (position : ℕ) (batch : CommittedBatch) (clock : ℕ → ℕ) (send_ok arrives : Bool)
      (a : Acknowledged Db)
      → a.spool ≡ persisted rt clock w.db batch
      → Covers (sqlite rt) send_ok batch w.db a
      → w.cursor ≡ some position
      → Memᴰ batch w.history
      → IsNextAfter w position batch
      → IsSafe rt floor w
      → IsSafe rt floor (received arrives w batch a)
  receives-IsSafe w position batch clock send_ok arrives a spool covers at member next v =
      let limit : ℕ = max floor (last_durable_lsn a.spool) in
      let order =
        in_order rt floor w position batch
          (subst (Within (max floor (last_durable_lsn w.db))) at v.cursor_known) next v.later in
      let reached : confirm w.confirmed a.acks ≤ limit =
        confirm-le rt w.confirmed limit a.acks (omega (arith, covers.not_behind, v.confirmed_known))
          (All-mono (λ l k. omega (arith, k.0)) a.acks covers.acks_stored) in
      record {
        sequences =
            subst SequencesBelow (sym spool)
              (persist-SequencesBelow rt clock w.db batch v.sequences);
        known = v.known;
        later = v.later;
        behind_tip =
            subst (λ (d : Db). max floor (last_durable_lsn d) ≤ w.tip) (sym spool)
              (persist_cases rt clock (λ (d : Db). max floor (last_durable_lsn d) ≤ w.tip) w.db
                batch v.behind_tip
                (λ d r h.
                  let c = checkpoint-persist rt clock w.db batch h in
                  omega (arith, c.0, c.1, v.behind_tip, All-mem _ w.history v.known member)));
        confirmed_known = ground (arith, covers.not_behind, v.confirmed_known, reached);
        cursor_known = next_cursor-Within rt floor limit batch a.result (λ r done.
            let (_, acked, _) = covers.result_stored r done in
            let stored : All (λ l. (l ≡ last_durable_lsn a.spool) × (batch.commit_end_lsn ≤ l))
                (r.durable_lsn ∷ []) =
              subst (All (λ l. (l ≡ last_durable_lsn a.spool) × (batch.commit_end_lsn ≤ l))) acked
                covers.acks_stored in
            omega (arith, stored.0.0, stored.0.1));
        digested =
            subst (λ (d : Db). All (IsDigested rt) d.events) (sym spool)
              (persist-IsDigested rt clock w.db batch v.digested);
        covered =
            subst
              (λ (d : Db).
                All
                  (λ (c : CommittedBatch). c.commit_end_lsn ≤ last_durable_lsn d → Persisted rt d c)
                  w.history)
              (sym spool)
              (All-mono
                (λ c m.
                  persist-covers rt clock w batch c v.sequences (All-mem _ w.history order m)
                    (All-mem _ w.history v.covered m))
                w.history (All-mem_self w.history));
      }

  -- A step that changes only the connection and what is confirmed.
  moved-IsSafe :
      (w : World) (confirmed : ℕ) (cursor : Option ℕ)
      → confirmed ≤ max floor (last_durable_lsn w.db)
      → Within (max floor (last_durable_lsn w.db)) cursor
      → IsSafe rt floor w
      → IsSafe rt floor (record w { confirmed = confirmed; cursor = cursor })
  moved-IsSafe w confirmed cursor reached at v = record {
    sequences = v.sequences;
    known = v.known;
    later = v.later;
    behind_tip = v.behind_tip;
    confirmed_known = reached;
    cursor_known = at;
    digested = v.digested;
    covered = v.covered;
  }

  Step-IsSafe : {w w' : World} → Step rt w w' → IsSafe rt floor w → IsSafe rt floor w'
  unfolding persist_then_acknowledge
  Step-IsSafe {w} (commits batch later) v = commits-IsSafe rt floor w batch later v
  Step-IsSafe {w} connects v =
      moved-IsSafe w w.confirmed (some (max w.confirmed (last_durable_lsn w.db))) v.confirmed_known
        (omega (arith, v.confirmed_known)) v
  Step-IsSafe {w} disconnects v = moved-IsSafe w w.confirmed none v.confirmed_known tt v
  Step-IsSafe {w} (receives position batch clock send_ok arrives at member next) v =
      receives-IsSafe w position batch clock send_ok arrives
        (persist_then_acknowledge (sqlite rt) send_ok clock w.db batch)
        (acknowledged_spool rt send_ok batch (persist_committed_batch rt clock w.db batch))
        (persist_then_acknowledge-Covers (sqlite rt) send_ok clock w.db batch) at member next v
  Step-IsSafe {w} status v =
      moved-IsSafe w (max w.confirmed (last_durable_lsn w.db)) w.cursor
        (omega (arith, v.confirmed_known)) v.cursor_known v
  Step-IsSafe {w} (marks m) v = marks-IsSafe rt floor w m v

  Steps-IsSafe : {start w : World} → Steps rt start w → IsSafe rt floor start → IsSafe rt floor w
  Steps-IsSafe begins v = v
  Steps-IsSafe (after before last) v = Step-IsSafe last (Steps-IsSafe before v)

-- From an empty history without a connection, a spool whose sequences are below its counter and whose
-- payloads have the digests of their rows, and positions of the checkpoint and of what is confirmed that
-- the server has reached: after any commits, connections that begin and end at any time, transactions
-- that a connection gets one after the other in the order of their ends, lost or received
-- acknowledgments, status updates, and changes by the worker and the operator, a transaction that
-- ends at or before the position that the server has confirmed is in the spool. Each of its events has
-- a row of its identity and digest, whose payload, if it is still there, has the digest of the event's,
-- and has its deliveries.
pub confirmed-Persisted :
    (rt : Runtime) {start w : World} (c : CommittedBatch)
    → start.history ≡ []
    → start.cursor ≡ none
    → SequencesBelow start.db
    → All (IsDigested rt) start.db.events
    → last_durable_lsn start.db ≤ start.tip
    → start.confirmed ≤ start.tip
    → Steps rt start w
    → Memᴰ c w.history
    → c.commit_end_lsn ≤ w.confirmed
    → Persisted rt w.db c × All (IsHeld rt w.db) c.events
confirmed-Persisted rt {start} {w} c no_history unconnected below digests tip confirmed steps member
      early =
    let floor : ℕ = start.confirmed in
    let safe : IsSafe rt floor start = record {
      sequences = below;
      known = rw no_history tt;
      later = rw no_history tt;
      behind_tip = omega (arith, tip, confirmed);
      confirmed_known = omega arith;
      cursor_known = rw unconnected tt;
      digested = digests;
      covered = rw no_history tt;
    } in
    let v = Steps-IsSafe rt floor steps safe in
    let stored =
      All-mem _ w.history v.covered member
        (omega (arith, v.confirmed_known, early, All-mem _ w.history v.later member)) in
    (stored, Persisted-IsHeld rt w.db c v.digested stored)
