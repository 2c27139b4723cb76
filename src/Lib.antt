-- ===== src/Lib.antt =====
-- WriteRelay: events that a PostgreSQL transaction writes with pg_logical_emit_message are captured
-- from the replication stream, stored in a SQLite spool, acknowledged, and delivered to sinks; a
-- receiver's inbox makes their effects happen once. This library models that path.
--
-- Spool.antt (internal/spool/spool.go) has the records that pass between the parts, and the errors
-- as values: an error keeps its sentinel and not its message.
-- Event.antt (internal/event/event.go) is Validate: `validate` and its helpers, one for each Go
-- function, over the members of the decoded object.
-- Capture.antt (internal/postgres/state.go) is StateMachine: `consume` is Consume on one message,
-- and returns the machine and either an error or, on Commit, the batch.
-- Store.antt (internal/spool/sqlite) has the tables as lists of rows in the order of insertion. Its
-- children are the operations: Store/Persist is PersistCommittedBatch, Store/Queue NextDueDelivery,
-- Store/Marks MarkDelivered, MarkFailed and RedriveDelivery, Store/Sinks ConfigureSinks, Store/Prune
-- Prune (prune.go), Store/Stats ReadStats (stats.go), Store/Listing ListEvents and ListDeliveries, and
-- Store/Open Open with the migrations. An operation takes the tables and returns them with a result; a
-- transaction that fails returns the old ones. The triggers of migrations/003_payload_retention.sql
-- stand in the statements that meet them. Store/Keys and Store/Owners are invariants of the tables.
-- Delivery.antt (internal/delivery/delivery.go) is the worker: `process_one` is ProcessOne, with
-- Send as an argument; `retry_delay` is retryDelay, with the int64 product written out. Delivery/Run
-- is Run, over the rounds that the timer starts.
-- Delivery/Webhook.antt (internal/delivery/webhook.go) is Send of the webhook: `request_of` and
-- `attempt_result`, with parseRetryAfter and deliveryKey; the HTTP client is an argument.
-- Disk.antt (internal/diskspace/guard.go, statfs_unix.go) is the guard: `check` is Check, with the
-- clock and the probe's answer as arguments.
-- Replicator.antt (internal/postgres/replicator.go) is the loop of runOnce: a `Turn` holds what one
-- round meets, `step` is the round, and `run_turns` the loop. persistThenAcknowledge and persistBatch
-- are `persist_then_acknowledge` and `persist_batch`, over the interface `CaptureSpool`, which
-- Replicator/Sqlite fills with the tables and their theorems. Replicator/Start is startLSN with
-- validateSlot and validateServerVersion (setup.go), Replicator/Reconnect what Run does next.
-- Recovery.antt puts the spool, a connection and the server's confirmed position together as a step
-- relation, over commits, connections that begin and end, lost acknowledgments and restarts: a
-- connection gets the transactions after its position in the order of their ends. Recovery/Operations
-- has all operations that change the spool, one after the other.
-- Inbox.antt (sdk/go/inbox.go) is WithInbox and WithInboxSQL: a `Session` says how each statement of
-- one call ends.
-- Config.antt (internal/config/config.go) has the settings and the checks of one value; Config/Delivery
-- and Config/Load are the sections of setDefaultsAndValidate, Decode, Load and PostgreSQLDSN.
-- Setup.antt (internal/postgres/setup.go) is Setup over what it reads and changes of the server;
-- Setup/Doctor (doctor.go) is Doctor, the list of its checks.
-- Monitoring.antt (internal/monitoring/server.go) is the sampling and the health endpoints, and
-- Monitoring/Metrics and Monitoring/Label (metrics.go) the samples of /metrics and their labels.
-- App.antt (internal/app/app.go) is what Run makes of the configuration, with the constructors of the
-- webhook and stdout sinks (internal/delivery/webhook.go, stdout.go), and runTogether.
-- Emit.antt (sdk/go/writerelay.go) is Emit and EmitSQL, over any database and what a statement does to
-- it; Emit/Escapes is validJSON's search for lone
-- surrogates.
-- Tests has the concrete inputs at which the properties are applied.
--
-- Numbers are natural numbers. An LSN is the number that its text stands for. Times count nanoseconds,
-- and the zero time is 0. Durations are those of an int64 that is not negative, except
-- in Config and Setup, where a setting can be negative and is a ℤ of Prelude/Int. Loops are structural
-- recursion on a list or on the rounds left. The search of Emit/Escapes jumps over what it read and
-- takes fuel: one round more than the text has bytes, of which each round reads at least one.
--
-- Not modelled: failures of the disk or of SQLite inside a statement of the daemon, which the code
-- turns into an error and a rollback (the inbox and Open have them); the gaps that AUTOINCREMENT
-- leaves after an ignored insert, since only the order of the sequences counts; encoding/json, YAML,
-- RFC 3339, SHA-256, the environment and the file system, which are arguments; the wire format, which
-- is pglogrepl's; the failure hooks, inert outside tests; logging, the HTTP listener, the texts of
-- messages, and the parsing of flags and the printing of the commands (internal/cli). The daemon is
-- one writer of the spool: each operation is one step.
mod Prelude
pub mod Spool
pub mod Event
pub mod Capture
pub mod Store
pub mod Delivery
pub mod Config
pub mod Disk
pub mod Emit
pub mod Inbox
pub mod Replicator
pub mod App
pub mod Setup
pub mod Monitoring
pub mod Recovery
pub mod Tests
