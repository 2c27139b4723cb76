-- ===== src/Tests/App.antt =====
-- The daemon that runs with a webhook and the console as its sinks.
use write_relay.Prelude.{◌≡◌, ◌≢◌, refl, some, [], ◌∷◌, codes}
use write_relay.Spool.{ok, err, durability, other, connection}
use write_relay.Store.Sinks.{configure_sinks}
use write_relay.App.{
  Library, webhook, stdout, Built, optional_secret, new_webhook_sender, new_stdout_sink, build_sink,
  build_sinks, replicator, worker, tasks_of, first_error, run_together, registration,
}
use write_relay.App.Registered.{configure_sinks-accepted}
use write_relay.Tests.Config as Settings
use write_relay.Tests.Config.{written, completed, both, accepts}
use write_relay.Tests.Data.{db_two}

abbrev daemon : Library
daemon = record { lookup_env = λ name. some "token"; sha256 = λ bytes. bytes }

abbrev built_both : Built
built_both = record {
  senders = ("hook_1", webhook "example.org" "token" []) ∷ ("console", stdout) ∷ [];
  registrations =
      registration "hook_1" "webhook" (codes "webhook\0example.org")
      ∷ registration "console" "stdout" (codes "stdout")
      ∷ [];
}

builds : build_sinks daemon both ≡ ok built_both
unfolding build_sinks build_sink new_webhook_sender new_stdout_sink optional_secret
builds = refl

runs_worker : tasks_of (completed both) built_both ≡ replicator ∷ worker ∷ []
unfolding tasks_of
runs_worker = refl

keeps_first : run_together (ok tt ∷ err connection ∷ err other ∷ []) ≡ err connection
unfolding run_together first_error
keeps_first = refl

configure_sinks-accepted_example :
    (configure_sinks 50 db_two built_both.registrations).1 ≢ err durability
configure_sinks-accepted_example =
    configure_sinks-accepted Settings.lib (written both) accepts daemon built_both builds 50 db_two
