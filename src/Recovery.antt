-- ===== src/Recovery.antt =====
-- The whole path from a commit in PostgreSQL to the spool, over crashes and reconnections: which
-- transactions the server may forget.
pub mod Retained
pub mod Payloads
pub mod Handed
pub mod Safe
pub mod Covered
pub mod Keys
pub mod Owners
pub mod Operations
use mathlib.Core.List.{Memᴰ}
use write_relay.Prelude.{
  ℕ, ◌+◌, ◌<◌, ◌≤◌, ◌≡◌, ◌⊎◌, Bool, true, false, Option, none, some, List, [], ◌∷◌, ◌++◌, max, All,
  if◌then◌else◌,
}
use write_relay.Spool.{CommittedBatch, PersistResult, Result, ok, err}
use write_relay.Event.{Runtime}
use write_relay.Store.{Db}
use write_relay.Store.Persist.{last_durable_lsn}
use write_relay.Store.Marks.Transitions.{Mark, mark}
use write_relay.Replicator.{Acknowledged, persist_then_acknowledge}
use write_relay.Replicator.Sqlite.{sqlite}

-- `history` holds every committed transaction, `tip` is the server's write position, and `confirmed`
-- the slot's confirmed_flush_lsn: what ends there or before is not sent again. `cursor` is the position
-- of the connection, if there is one: the end of the last transaction that was read on it, or its start.
pub record World : Type 0 where
  pub history : List CommittedBatch
  pub tip : ℕ
  pub confirmed : ℕ
  pub cursor : Option ℕ
  pub db : Db

-- The position that the server has after these acknowledgments arrived.
abbrev pub confirm : ℕ → List ℕ → ℕ
confirm lsn [] = lsn
confirm lsn (ack ∷ acks) = max ack (confirm lsn acks)

-- `runOnce` reads on after a success, and returns on an error, which ends the connection.
abbrev pub next_cursor : CommittedBatch → Result PersistResult → Option ℕ
next_cursor batch (ok r) = some batch.commit_end_lsn
next_cursor batch (err e) = none

abbrev pub received : Bool → World → CommittedBatch → Acknowledged Db → World
received arrives w batch a = record w {
  cursor = next_cursor batch a.result;
  db = a.spool;
  confirmed = if arrives then confirm w.confirmed a.acks else w.confirmed;
}

-- A connection at a position gets, of the transactions that end after it, the one that ends first.
abbrev pub IsNextAfter : World → ℕ → CommittedBatch → Type 0
IsNextAfter w position batch =
    (position < batch.commit_end_lsn)
    × All
        (λ (c : CommittedBatch).
          (c ≡ batch) ⊎ (batch.commit_end_lsn < c.commit_end_lsn) ⊎ (c.commit_end_lsn ≤ position))
        w.history

-- A crash loses only what is not in these records, so that it is no step of its own: a connection
-- that breaks, or a daemon that stops, is `disconnects`. A connection asks for the spool's checkpoint,
-- and the server starts there or at the confirmed position, if that is later; a spool without a
-- checkpoint asks for the confirmed position.
pub data Step (rt : Runtime) : World → World → Type 0 where
  commits :
      {w : World} (batch : CommittedBatch)
      → w.tip < batch.commit_end_lsn
      → Step rt w (record w { history = batch ∷ w.history; tip = batch.commit_end_lsn })
  connects :
      {w : World} → Step rt w (record w { cursor = some (max w.confirmed (last_durable_lsn w.db)) })
  disconnects : {w : World} → Step rt w (record w { cursor = none })
  receives :
      {w : World} (position : ℕ) (batch : CommittedBatch) (clock : ℕ → ℕ) (send_ok arrives : Bool)
      → w.cursor ≡ some position
      → Memᴰ batch w.history
      → IsNextAfter w position batch
      → Step rt w
          (received arrives w batch (persist_then_acknowledge (sqlite rt) send_ok clock w.db batch))
  status :
      {w : World} → Step rt w (record w { confirmed = max w.confirmed (last_durable_lsn w.db) })
  marks : {w : World} (m : Mark) → Step rt w (record w { db = (mark w.db m).0 })

pub data Steps (rt : Runtime) (start : World) : World → Type 0 where
  begins : Steps rt start start
  after : {w w' : World} → Steps rt start w → Step rt w w' → Steps rt start w'
