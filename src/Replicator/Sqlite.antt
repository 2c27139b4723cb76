-- ===== src/Replicator/Sqlite.antt =====
-- The SQLite spool as capture uses it.
use write_relay.Prelude.{arith}
use write_relay.Event.{Runtime}
use write_relay.Store.{Db}
use write_relay.Store.Persist.{last_durable_lsn, persist_committed_batch}
use write_relay.Store.Persist.Checkpoint.{checkpoint-persist, rollback}
use write_relay.Replicator.{CaptureSpool}

abbrev pub sqlite : Runtime → CaptureSpool Db
sqlite rt = record {
  persist = persist_committed_batch rt;
  last_durable = last_durable_lsn;
  persist_ok = λ clock db batch h.
      let c = checkpoint-persist rt clock db batch h in (c.0, omega (arith, c.0, c.1));
  persist_err = λ clock db batch h. rollback rt clock db batch _ h;
}
