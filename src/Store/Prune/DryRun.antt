-- ===== src/Store/Prune/DryRun.antt =====
-- A dry run of `Prune` against the run itself.
use write_relay.Prelude.{ℕ, ◌≡◌, refl, sym, ap, ◌∙◌, Bool, true, false, List, arith}
use write_relay.Spool.{ok, >>=-eq-ok}
use write_relay.Store.{Db}
use write_relay.Store.Persist.{transact}
use write_relay.Store.Persist.Checkpoint.{transact-eq-ok}
use write_relay.Store.Prune.{
  PruneOptions, PruneEntry, PruneResult, SpoolFile, prune_candidates, prune_entries, prune_payloads,
  prune_result, prune_allowed, prune_selected, prune,
}

prune_allowed_again :
    (now : ℕ) (file : SpoolFile) (options : PruneOptions) (dry_run : Bool)
    → prune_allowed now file (record options { dry_run = dry_run }) ≡ prune_allowed now file options
unfolding prune_allowed
prune_allowed_again now file options dry_run = refl

prune_success :
    (now : ℕ) (file : SpoolFile) (options : PruneOptions) (db db' : Db) (r : PruneResult)
    → prune_allowed now file options ≡ ok tt
    → prune_selected now options db
        (prune_entries (prune_candidates options.before options.limit db))
      ≡ ok (db', r)
    → prune now file options db ≡ (db', ok r)
unfolding prune transact
prune_success now file options db db' r allowed selected = ground (arith, allowed, selected)

-- What both runs report.
prune_selected_dry :
    (now : ℕ) (options : PruneOptions) (db : Db) (xs : List PruneEntry) {db' : Db} {r : PruneResult}
    → prune_selected now (record options { dry_run = false }) db xs ≡ ok (db', r)
    → prune_selected now (record options { dry_run = true }) db xs
      ≡ ok (db, record r { dry_run = true })
unfolding prune_selected prune_result
prune_selected_dry now options db xs {r} h =
    let (mid, _, rest) = >>=-eq-ok (prune_payloads now db xs) _ h in
    let same : prune_result (record options { dry_run = false }) xs ≡ r = ground (arith, rest) in
    ap (λ (x : PruneResult). ok (db, record x { dry_run = true })) same

-- If a run of Prune succeeds, a dry run with the same options and tables succeeds, changes
-- nothing, and reports the same events and bytes.
pub prune_dry_run :
    (now : ℕ) (file : SpoolFile) (options : PruneOptions) (db : Db) {db' : Db} {r : PruneResult}
    → prune now file (record options { dry_run = false }) db ≡ (db', ok r)
    → prune now file (record options { dry_run = true }) db ≡ (db, ok (record r { dry_run = true }))
unfolding prune
prune_dry_run now file options db {r} h =
    let (_, allowed, selected) =
      >>=-eq-ok (prune_allowed now file (record options { dry_run = false })) _
        (transact-eq-ok db _ h) in
    prune_success now file (record options { dry_run = true }) db db (record r { dry_run = true })
      (prune_allowed_again now file options true
        ∙ sym (prune_allowed_again now file options false)
        ∙ allowed)
      (prune_selected_dry now options db _ selected)
