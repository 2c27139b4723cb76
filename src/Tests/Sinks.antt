-- ===== src/Tests/Sinks.antt =====
-- A second sink is configured beside the first, and then instead of it.
use write_relay.Prelude.{◌≡◌, refl, false, [], ◌∷◌, All, bytes_eq}
use write_relay.Spool.{ok}
use write_relay.Store.{Db, insert_delivery}
use write_relay.Store.Persist.{transact}
use write_relay.Store.Sinks.{
  SinkRegistration, activate, deactivate, register_from, backfill, backfilled, register,
  register_all, to_deactivate, deactivate_all, configured_result, configure_sinks,
}
use write_relay.Store.Sinks.Extension.{Extends}
use write_relay.Store.Sinks.Configure.{configure_sinks-Extends}
use write_relay.Store.Sinks.Active.{is_left_out}
use write_relay.Store.Sinks.Served.{IsServed, configure_sinks-IsServed}
use write_relay.Tests.Data.{db_empty, db_two}

abbrev log : SinkRegistration
log = record { name = "log"; sink_type = "stdout"; config_sha256 = 8 ∷ [] }

abbrev hook_again : SinkRegistration
hook_again = record { name = "hook"; sink_type = "webhook"; config_sha256 = 9 ∷ [] }

abbrev after : Db
after = (configure_sinks 50 db_empty (log ∷ [])).0

configured : configure_sinks 50 db_empty (log ∷ []) ≡ (after, ok tt)
unfolding configure_sinks transact register_all register register_from activate deactivate backfill
    backfilled insert_delivery to_deactivate deactivate_all configured_result bytes_eq
configured = refl

configure_sinks-Extends_example :
    Extends db_two (configure_sinks 50 db_two (hook_again ∷ log ∷ [])).0
configure_sinks-Extends_example = configure_sinks-Extends 50 db_two (hook_again ∷ log ∷ [])

configure_sinks-IsServed_example :
    All (IsServed after) (log ∷ []) × All (λ s. is_left_out ("log" ∷ []) s ≡ false) after.sinks
configure_sinks-IsServed_example = configure_sinks-IsServed 50 db_empty (log ∷ []) configured
