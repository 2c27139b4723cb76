-- ===== src/Tests/Stream.antt =====
-- A connection that receives a transaction over the SQLite spool, and the start of one.
use write_relay.Prelude.{◌≡◌, refl, true, false, List, [], ◌∷◌, none, some, All}
use write_relay.Spool.{ok, err, connection}
use write_relay.Capture.{begin, logical, commit}
use write_relay.Disk.{Guard, new_guard}
use write_relay.Replicator.{
  Received, Turn, receive_timeout, wal_data, running, persist_then_acknowledge, run_turns,
  start_stream,
}
use write_relay.Replicator.Sqlite.{sqlite}
use write_relay.Replicator.Acknowledge.{Covers, persist_then_acknowledge-Covers}
use write_relay.Replicator.Sent.{Known, run_turns-sent-Known}
use write_relay.Replicator.Start.{
  SlotInfo, Answers, validate_slot, validate_server_version, found_or_created, choose_start,
  start_lsn, MayStart, start_lsn-MayStart,
}
use write_relay.Replicator.Reconnect.{
  reconnect_after, second, jittered, delays_after, grow_delay, is_fatal_capture_error, run_round,
}
use write_relay.Tests.Data.{rt, limits, message, batch, clock, db_empty}

persist_then_acknowledge-Covers_example :
    Covers
      (sqlite rt)
      true
      batch
      db_empty
      (persist_then_acknowledge (sqlite rt) true clock db_empty batch)
persist_then_acknowledge-Covers_example =
    persist_then_acknowledge-Covers (sqlite rt) true clock db_empty batch

abbrev turn : Received → Turn
turn received = record {
  checked_at = 1;
  probe = none;
  received = received;
  send_ok = true;
  batch_cancelled = false;
  batch_checked_at = 2;
  batch_probe = none;
  clock = clock;
  captured_at = 3;
}

abbrev turns : List Turn
turns =
    turn (wal_data (some (begin 7)))
    ∷ turn (wal_data (some (logical (message 1 true))))
    ∷ turn (wal_data (some (commit 10 12 100)))
    ∷ turn receive_timeout
    ∷ []

abbrev disk : Guard
disk = new_guard (record { pause_below_bytes = 0; resume_at_bytes = 0; check_interval = 0 })

run_turns-sent-Known_example :
    All
      (Known
        (sqlite rt)
        4
        (run_turns
          (sqlite rt)
          rt
          turns
          (start_stream (sqlite rt) rt limits disk db_empty 4, running)).0.spool)
      (run_turns
        (sqlite rt)
        rt
        turns
        (start_stream (sqlite rt) rt limits disk db_empty 4, running)).0.sent
run_turns-sent-Known_example = run_turns-sent-Known (sqlite rt) 4 rt limits disk db_empty turns

abbrev slot : SlotInfo
slot = record {
  plugin = "pgoutput";
  database = "app";
  active = false;
  confirmed_flush_lsn = 40;
  restart_lsn = 30;
  exists = true;
}

abbrev answers : Answers
answers = record {
  connected = ok tt;
  slot = ok slot;
  created = ok tt;
  new_slot = ok slot;
  server = ok ("app", 160_000);
  local_lsn = ok 0;
}

start_forty : start_lsn false answers ≡ ok 40
unfolding start_lsn found_or_created validate_server_version validate_slot choose_start
start_forty = refl

start_lsn-MayStart_example : MayStart answers 40
start_lsn-MayStart_example = start_lsn-MayStart false answers 40 start_forty

waits :
    (run_round false (delays_after ((err connection, 5) ∷ []) second) 7 (err connection)).0
    ≡ reconnect_after 1_000_000_007
unfolding run_round delays_after jittered grow_delay is_fatal_capture_error
waits = refl
