-- ===== src/Tests/Operations.antt =====
-- A sink is added, a transaction stored, a delivery redriven, and the spool pruned.
use write_relay.Prelude.{refl, arith, false, true, List, [], ◌∷◌}
use write_relay.Store.Marks.Transitions.{redrives}
use write_relay.Recovery.Operations.{
  Operation, persists, marks, configures, prunes, apply_all, IsConsistent, apply_all-IsConsistent,
}
use write_relay.Tests.Data.{rt, batch, clock, db_two}

abbrev operations : List Operation
operations =
    configures 50 (record { name = "log"; sink_type = "stdout"; config_sha256 = 8 ∷ [] } ∷ [])
    ∷ persists clock batch
    ∷ marks (redrives "hook" "shop" "one" 9)
    ∷ prunes 3000 (record { path_given = true; is_regular = true; version = 3; is_wal = true })
        (record { before = 2000; limit = 10; dry_run = false })
    ∷ []

db_two-IsConsistent : IsConsistent db_two
db_two-IsConsistent = record {
  sequences = (omega arith, (omega arith, tt));
  keys = (refl, (refl, tt));
  owned = record {
    below = (omega arith, tt);
    single = (refl, tt);
    deliveries = (refl, (refl, tt));
  };
}

apply_all-IsConsistent_example : IsConsistent (apply_all rt db_two operations)
apply_all-IsConsistent_example = apply_all-IsConsistent rt db_two operations db_two-IsConsistent
