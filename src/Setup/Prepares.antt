-- ===== src/Setup/Prepares.antt =====
-- What `Setup` leaves behind, when it succeeds and when it fails.
use write_relay.Prelude.{
  ℕ, ◌≤◌, ◌<◌, ◌≡◌, refl, ◌⊎◌, inl, inr, String, Bool, true, false, Option, none, some, arith,
  eq_iff,
}
use write_relay.Spool.{Error, Result, ok, err, Result-cases}
use write_relay.Replicator.Start.{SlotInfo, validate_slot, validate_server_version}
use write_relay.Setup.{
  Postgres, Faults, SetupResult, no_changes, read_slot, check_publication, check_slot, preflight,
  install_function, create_publication, create_replication_slot, mutate, setup,
}

-- What capture needs of the server.
pub record IsPrepared (s : Postgres) : Type 0 where
  pub supported : (140_000 ≤ s.version) × (s.version < 190_000)
  pub function : s.function_exists ≡ true
  pub publication : s.publication ≡ some 0
  pub slot : s.slot.exists ≡ true
  pub plugin : s.slot.plugin ≡ "pgoutput"
  pub database : s.slot.database ≡ s.database
  pub free : s.slot.active ≡ false

-- What is on a server stays, whatever setup does: an existing slot and publication are never
-- changed, and the result says what is new.
pub record Reports (before after : Postgres) (r : SetupResult) : Type 0 where
  pub same : (after.database ≡ before.database) × (after.version ≡ before.version)
  pub function :
      ((after.function_exists ≡ before.function_exists) × (r.installed_function ≡ false))
      ⊎ (before.function_exists ≡ false)
        × (after.function_exists ≡ true)
        × (r.installed_function ≡ true)
  pub publication :
      ((after.publication ≡ before.publication) × (r.created_publication ≡ false))
      ⊎ (before.publication ≡ none) × (after.publication ≡ some 0) × (r.created_publication ≡ true)
  pub slot :
      ((after.slot ≡ before.slot) × (r.created_slot ≡ false))
      ⊎ (before.slot.exists ≡ false) × (after.slot.exists ≡ true) × (r.created_slot ≡ true)

mutate-Reports : (f : Faults) (s : Postgres) → Reports s (mutate f s).0.server (mutate f s).0.result
unfolding mutate install_function create_publication create_replication_slot
mutate-Reports f s = ground arith

abbrev Passed : Postgres → Type 0
Passed s =
    ((140_000 ≤ s.version) × (s.version < 190_000))
    × ((s.publication ≡ none) ⊎ (s.publication ≡ some 0))
    × ((s.slot.exists ≡ false)
        ⊎ (s.slot.plugin ≡ "pgoutput") × (s.slot.database ≡ s.database) × (s.slot.active ≡ false))

check_slot-Passed :
    (create : Bool) (slot : SlotInfo) (database : String)
    → check_slot create slot database ≡ ok tt
    → (slot.exists ≡ false)
      ⊎ (slot.plugin ≡ "pgoutput") × (slot.database ≡ database) × (slot.active ≡ false)
unfolding check_slot validate_slot
check_slot-Passed create slot database h =
    ground (arith, eq_iff slot.plugin "pgoutput", eq_iff slot.database database)

check_publication-Passed :
    (f : Faults) (o : Option ℕ) → check_publication f o ≡ ok tt → (o ≡ none) ⊎ (o ≡ some 0)
check_publication-Passed f none h = inl refl
check_publication-Passed f (some n) h = ground arith

version-Passed : (n : ℕ) → validate_server_version n ≡ ok tt → (140_000 ≤ n) × (n < 190_000)
unfolding validate_server_version
version-Passed n h = ground arith

preflight-Passed :
    (f : Faults) (create : Bool) (dsn : Result String) (s : Postgres)
    → preflight f create dsn s ≡ ok tt
    → Passed s
unfolding preflight read_slot
preflight-Passed f create dsn s h = ground (
  arith,
  check_slot-Passed create s.slot s.database,
  check_publication-Passed f s.publication,
  version-Passed s.version,
)

mutate-IsPrepared :
    (f : Faults) (s : Postgres)
    → Passed s
    → (mutate f s).1 ≡ ok tt
    → IsPrepared (mutate f s).0.server
unfolding mutate install_function create_publication create_replication_slot
mutate-IsPrepared f s p h = ground (arith, p)

-- Setup never changes what is on the server already, and its result says what it added. If the checks
-- fail nothing was changed. If it succeeds, the server is of a supported version and has the function,
-- an empty publication, and a free pgoutput slot of the database.
pub setup-IsPrepared :
    (f : Faults) (create : Bool) (dsn : Result String) (s : Postgres)
    → Reports s (setup f create dsn s).0.server (setup f create dsn s).0.result
      × ((e : Error) → preflight f create dsn s ≡ err e → (setup f create dsn s).0.server ≡ s)
      × ((setup f create dsn s).1 ≡ ok tt → IsPrepared (setup f create dsn s).0.server)
unfolding setup
setup-IsPrepared f create dsn s = elim (Result-cases (preflight f create dsn s)) [
  | inr (e, failed) ↦ rw failed (ground arith, λ x h. refl, λ h. absurd (ground (arith, h)))
  | inl (_, passed) ↦ rw passed (
    mutate-Reports f s,
    λ x h. absurd (ground (arith, h)),
    mutate-IsPrepared f s (preflight-Passed f create dsn s passed),
  )
]

abbrev pub NoFaults : Faults → Type 0
NoFaults f =
    (f.connects ≡ true)
    × (f.reads_version ≡ true)
    × (f.reads_function ≡ true)
    × (f.reads_publication ≡ true)
    × (f.reads_tables ≡ true)
    × (f.reads_slot ≡ true)

prepared-preflight :
    (f : Faults) (create : Bool) (dsn : String) (s : Postgres)
    → NoFaults f
    → IsPrepared s
    → preflight f create (ok dsn) s ≡ ok tt
unfolding preflight read_slot check_slot validate_slot validate_server_version
prepared-preflight f create dsn s n v = ground (
  arith,
  n,
  v.supported,
  v.publication,
  v.slot,
  v.plugin,
  v.database,
  v.free,
  eq_iff s.slot.plugin "pgoutput",
  eq_iff s.slot.database s.database,
)

-- On a server that is prepared, setup succeeds and changes nothing, if its connection and its queries
-- do not fail.
pub setup_again :
    (f : Faults) (create : Bool) (dsn : String) (s : Postgres)
    → NoFaults f
    → IsPrepared s
    → setup f create (ok dsn) s ≡ (record { server = s; result = no_changes }, ok tt)
unfolding setup mutate install_function create_publication create_replication_slot
setup_again f create dsn s n v =
    rw (prepared-preflight f create dsn s n v) (ground (arith, v.function, v.publication, v.slot))
