-- ===== src/Recovery/Safe.antt =====
-- What holds of the world after every step, and the steps that hand no batch over.
use write_relay.Prelude.{
  ℕ, ◌<◌, ◌≤◌, ◌≡◌, refl, ◌⊎◌, inl, inr, max, Option, none, some, ◌∷◌, arith, All-mem_self, All,
  All-mono, All-mem,
}
use write_relay.Spool.{CommittedBatch, PersistResult, Result, ok, err}
use write_relay.Event.{Runtime}
use write_relay.Store.Persist.{last_durable_lsn}
use write_relay.Store.Persist.Stored.{SequencesBelow}
use write_relay.Store.Persist.Replay.{Persisted}
use write_relay.Recovery.Payloads.{IsDigested}
use write_relay.Recovery.Retained.{mark-Same, durable-mark, Persisted-mark}
use write_relay.Store.Marks.Transitions.{Mark, mark}
use write_relay.Recovery.{World, next_cursor, IsNextAfter}

-- A position that is reached, if there is one.
abbrev pub Within : ℕ → Option ℕ → Type 0
Within limit none = Unit
Within limit (some position) = position ≤ limit

Within-mono : (a b : ℕ) (o : Option ℕ) → a ≤ b → Within a o → Within b o
Within-mono a b none le h = tt
Within-mono a b (some position) le h = omega (arith, le, h)

-- `floor` is the position that was confirmed at the start.
module _ (rt : Runtime) (floor : ℕ) where
  pub record IsSafe (w : World) : Type 0 where
    pub sequences : SequencesBelow w.db
    pub known : All (λ (c : CommittedBatch). c.commit_end_lsn ≤ w.tip) w.history
    pub later : All (λ (c : CommittedBatch). floor < c.commit_end_lsn) w.history
    pub behind_tip : max floor (last_durable_lsn w.db) ≤ w.tip
    pub confirmed_known : w.confirmed ≤ max floor (last_durable_lsn w.db)
    pub cursor_known : Within (max floor (last_durable_lsn w.db)) w.cursor
    pub digested : All (IsDigested rt) w.db.events
    pub covered :
        All
          (λ (c : CommittedBatch). c.commit_end_lsn ≤ last_durable_lsn w.db → Persisted rt w.db c)
          w.history

  pub commits-IsSafe :
      (w : World) (batch : CommittedBatch)
      → w.tip < batch.commit_end_lsn
      → IsSafe w
      → IsSafe (record w { history = batch ∷ w.history; tip = batch.commit_end_lsn })
  commits-IsSafe w batch later v = record {
    sequences = v.sequences;
    known = (omega arith, All-mono (λ c k. omega (arith, k, later)) w.history v.known);
    behind_tip = omega (arith, v.behind_tip, later);
    later = (omega (arith, later, v.behind_tip), v.later);
    confirmed_known = v.confirmed_known;
    cursor_known = v.cursor_known;
    digested = v.digested;
    covered = (λ early. absurd (omega (arith, early, v.behind_tip, later)), v.covered);
  }

  pub marks-IsSafe : (w : World) (m : Mark) → IsSafe w → IsSafe (record w { db = (mark w.db m).0 })
  marks-IsSafe w m v =
      let same = durable-mark rt w.db m in
      let t = mark-Same w.db m in
      record {
        sequences = rw (t.events, t.next_sequence) v.sequences;
        known = v.known;
        behind_tip = omega (arith, same, v.behind_tip);
        later = v.later;
        confirmed_known = omega (arith, same, v.confirmed_known);
        cursor_known =
            Within-mono (max floor (last_durable_lsn w.db))
              (max floor (last_durable_lsn (mark w.db m).0)) w.cursor (omega (arith, same))
              v.cursor_known;
        digested = rw t.events v.digested;
        covered =
            All-mono (λ c k early. Persisted-mark rt w.db m c (k (omega (arith, same, early))))
              w.history v.covered;
      }

  pub next_cursor-Within :
      (limit : ℕ) (batch : CommittedBatch) (o : Result PersistResult)
      → ((r : PersistResult) → o ≡ ok r → batch.commit_end_lsn ≤ limit)
      → Within limit (next_cursor batch o)
  next_cursor-Within limit batch (ok r) reached = reached r refl
  next_cursor-Within limit batch (err e) reached = tt

  -- What the connection's position says of the other transactions.
  pub in_order :
      (w : World) (position : ℕ) (batch : CommittedBatch)
      → position ≤ max floor (last_durable_lsn w.db)
      → IsNextAfter w position batch
      → All (λ (c : CommittedBatch). floor < c.commit_end_lsn) w.history
      → All
          (λ (c : CommittedBatch).
            (c ≡ batch)
            ⊎ (batch.commit_end_lsn < c.commit_end_lsn)
            ⊎ (c.commit_end_lsn ≤ last_durable_lsn w.db))
          w.history
  in_order w position batch at next later =
      All-mono
        (λ c m. elim (All-mem _ w.history next.1 m) [
          | inl same ↦ inl same
          | inr (inl after_it) ↦ inr (inl after_it)
          | inr (inr before) ↦ inr (inr (omega (arith, before, at, All-mem _ w.history later m)))
        ])
        w.history (All-mem_self w.history)
