-- ===== src/Replicator/Start.antt =====
-- internal/postgres/replicator.go and setup.go: the checks before capture, and the position at which
-- it starts.
use write_relay.Prelude.{
  ℕ, ◌≤◌, ◌<◌, ◌≡◌, String, Bool, false, not, ltb, leb, ◌==◌, ◌||◌, if◌then◌else◌, str_eq, arith,
  ◌⊎◌, eq_iff,
}
use write_relay.Spool.{
  Result, ok, err, slot_mismatch, unsupported_version, other, guard, ◌>>=◌, ◌>>◌, >>=-eq-ok,
}

-- An LSN of 0 is one that the slot does not have.
pub record SlotInfo : Type 0 where
  pub plugin : String
  pub database : String
  pub active : Bool
  pub confirmed_flush_lsn : ℕ
  pub restart_lsn : ℕ
  pub exists : Bool

unfoldable pub validate_slot : SlotInfo → String → Result (Unit {0})
validate_slot slot database = do
  guard (str_eq slot.plugin "pgoutput") slot_mismatch
  guard (str_eq slot.database database) slot_mismatch
  guard (not slot.active) slot_mismatch

unfoldable pub validate_server_version : ℕ → Result (Unit {0})
validate_server_version version =
    if ltb version 140_000 || leb 190_000 version then err unsupported_version else ok tt

-- What the server and the spool answer to `startLSN`, in the order of the questions.
pub record Answers : Type 0 where
  pub connected : Result (Unit {0})
  pub slot : Result SlotInfo
  pub created : Result (Unit {0})
  pub new_slot : Result SlotInfo
  pub server : Result (String × ℕ)
  pub local_lsn : Result ℕ

unfoldable pub found_or_created : Bool → Answers → SlotInfo → Result SlotInfo
found_or_created create_if_missing a slot =
    if slot.exists then ok slot else (do guard create_if_missing other; a.created; a.new_slot)

unfoldable pub choose_start : SlotInfo → ℕ → Result ℕ
choose_start slot local_lsn =
    if not (local_lsn == 0)
    then ok local_lsn
    else if not (slot.confirmed_flush_lsn == 0)
    then ok slot.confirmed_flush_lsn
    else if not (slot.restart_lsn == 0)
    then ok slot.restart_lsn
    else err other

unfoldable pub start_lsn : Bool → Answers → Result ℕ
start_lsn create_if_missing a = do
  a.connected
  first ← a.slot
  slot ← found_or_created create_if_missing a first
  server ← a.server
  validate_server_version server.1
  validate_slot slot server.0
  local_lsn ← a.local_lsn
  choose_start slot local_lsn

-- What must hold of the server for capture to start at this position.
pub record MayStart (a : Answers) (lsn : ℕ) : Type 0 where
  pub slot : SlotInfo
  pub database : String
  pub version : ℕ
  pub local_lsn : ℕ
  pub server : a.server ≡ ok (database, version)
  pub local : a.local_lsn ≡ ok local_lsn
  pub origin : (a.slot ≡ ok slot) ⊎ (a.new_slot ≡ ok slot)
  pub supported : (140_000 ≤ version) × (version < 190_000)
  pub pgoutput : slot.plugin ≡ "pgoutput"
  pub same_database : slot.database ≡ database
  pub free : slot.active ≡ false
  pub nonzero : 0 < lsn
  pub position :
      (local_lsn ≡ lsn)
      ⊎ (local_lsn ≡ 0)
        × ((slot.confirmed_flush_lsn ≡ lsn)
            ⊎ (slot.confirmed_flush_lsn ≡ 0) × (slot.restart_lsn ≡ lsn))

choose_start_lem :
    (slot : SlotInfo) (local_lsn lsn : ℕ)
    → choose_start slot local_lsn ≡ ok lsn
    → (0 < lsn)
      × ((local_lsn ≡ lsn)
          ⊎ (local_lsn ≡ 0)
            × ((slot.confirmed_flush_lsn ≡ lsn)
                ⊎ (slot.confirmed_flush_lsn ≡ 0) × (slot.restart_lsn ≡ lsn)))
unfolding choose_start
choose_start_lem slot local_lsn lsn h = ground arith

validate_slot_lem :
    (slot : SlotInfo) (database : String)
    → validate_slot slot database ≡ ok tt
    → (slot.plugin ≡ "pgoutput") × (slot.database ≡ database) × (slot.active ≡ false)
unfolding validate_slot
validate_slot_lem slot database h =
    ground (arith, eq_iff slot.plugin "pgoutput", eq_iff slot.database database)

validate_server_version_lem :
    (version : ℕ)
    → validate_server_version version ≡ ok tt
    → (140_000 ≤ version) × (version < 190_000)
unfolding validate_server_version
validate_server_version_lem version h = ground arith

found_or_created_lem :
    (create_if_missing : Bool) (a : Answers) (first : SlotInfo) {slot : SlotInfo}
    → a.slot ≡ ok first
    → found_or_created create_if_missing a first ≡ ok slot
    → (a.slot ≡ ok slot) ⊎ (a.new_slot ≡ ok slot)
unfolding found_or_created
found_or_created_lem create_if_missing a first f h = ground arith

-- If capture starts, then the server is of a supported version, the slot is a free pgoutput slot of
-- the connected database, and the position is not 0: it is the spool's checkpoint, or with an empty
-- spool the slot's confirmed position, or without one the slot's restart position.
pub start_lsn-MayStart :
    (create_if_missing : Bool) (a : Answers) (lsn : ℕ)
    → start_lsn create_if_missing a ≡ ok lsn
    → MayStart a lsn
unfolding start_lsn
start_lsn-MayStart create_if_missing a lsn h =
    let (_, _, h1) = >>=-eq-ok a.connected _ h in
    let (first, f, h2) = >>=-eq-ok a.slot _ h1 in
    let (slot, sl, h3) = >>=-eq-ok (found_or_created create_if_missing a first) _ h2 in
    let (server, sv, h4) = >>=-eq-ok a.server _ h3 in
    let (_, ver, h5) = >>=-eq-ok (validate_server_version server.1) _ h4 in
    let (_, vs, h6) = >>=-eq-ok (validate_slot slot server.0) _ h5 in
    let (local_lsn, lo, h7) = >>=-eq-ok a.local_lsn _ h6 in
    let c = choose_start_lem slot local_lsn lsn h7 in
    let (plugin, database, free) = validate_slot_lem slot server.0 vs in
    record {
      slot = slot;
      database = server.0;
      version = server.1;
      local_lsn = local_lsn;
      server = sv;
      local = lo;
      origin = found_or_created_lem create_if_missing a first f sl;
      supported = validate_server_version_lem server.1 ver;
      pgoutput = plugin;
      same_database = database;
      free = free;
      nonzero = c.0;
      position = c.1;
    }
