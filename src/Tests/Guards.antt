-- ===== src/Tests/Guards.antt =====
-- A disk between its thresholds, a small block device, and an inbox delivery received three times.
use write_relay.Prelude.{
  ℕ, ◌+◌, ◌*◌, ◌^◌, ◌≡◌, ◌⊎◌, refl, arith, true, false, not, ◌&&◌, List, [], ◌∷◌, none, some, any,
  ltb, if◌then◌else◌,
}
use write_relay.Spool.{ok, err, paused, other}
use write_relay.Disk.{no_reason, Guard, check, available_bytes}
use write_relay.Disk.Hysteresis.{admits, check-admits, available_bytes_exact}
use write_relay.Inbox.{Database, Session, committed, lost, refused, find_receipt}
use write_relay.Inbox.Once.{is_ok, applied, receive_all, receive_all_once}

abbrev guarded : Guard
guarded = record {
  interval = 5;
  status = record {
    enabled = true;
    is_paused = false;
    reason = no_reason;
    available_bytes = 0;
    sampled_at = none;
    sample_fresh = false;
    pause_below_bytes = 10;
    resume_at_bytes = 20;
  };
  sample_ok = false;
}

check-admits_example :
    ((check guarded true 7 (some 4)).1 ≡ (if admits guarded (some 4) then ok tt else err paused))
    × ((check guarded true 7 (some 4)).0.status.is_paused ≡ not (admits guarded (some 4)))
    × ((check guarded true 7 (some 4)).0.status.pause_below_bytes ≡ 10)
    × ((check guarded true 7 (some 4)).0.status.resume_at_bytes ≡ 20)
    × ((check guarded true 7 (some 4)).0.interval ≡ 5)
check-admits_example = check-admits guarded true 7 (some 4) (refl, refl)

available_bytes_exact_example : available_bytes 3 4096 ≡ (
    if (ltb 0 4096 && ltb 4096 (2 ^ 63)) && ltb (3 * 4096) (2 ^ 64)
    then ok (3 * 4096)
    else err other)
available_bytes_exact_example = available_bytes_exact 3 4096 (omega arith)

abbrev handled : ℕ → ℕ
handled n = n + 1

abbrev inbox : Database ℕ
inbox = record { receipts = []; effects = 0 }

abbrev session : Session
session = record {
  insert_ok = true;
  read_ok = true;
  receipt_kept = true;
  handler_ok = true;
  cancelled = false;
  alive = true;
  commit = committed;
}

abbrev sessions : List Session
sessions = record session { commit = refused } ∷ record session { commit = lost } ∷ session ∷ []

unseen : find_receipt (1 ∷ []) inbox.receipts ≡ none
unfolding find_receipt
unseen = refl

receive_all_once_example :
    ((receive_all handled (1 ∷ []) (2 ∷ []) sessions inbox).0 ≡ inbox)
      × (any is_ok (receive_all handled (1 ∷ []) (2 ∷ []) sessions inbox).1 ≡ false)
    ⊎ ((receive_all handled (1 ∷ []) (2 ∷ []) sessions inbox).0
        ≡ applied handled (1 ∷ []) (2 ∷ []) inbox)
receive_all_once_example = receive_all_once handled (1 ∷ []) (2 ∷ []) sessions inbox unseen
