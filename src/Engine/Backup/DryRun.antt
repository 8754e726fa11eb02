-- ===== src/Engine/Backup/DryRun.antt =====
-- engine/mod.rs: `run_backup` and `run_refresh` in a dry run.
use mail_backup.Base.{
  ℕ, true, not, ◌&&◌, is_empty, Error, pure, raise, reads, Keeps, Keeps-pure, Keeps-reads, Keeps-if,
  Keeps-bind, keeps_rules, ◌≡◌, refl, ◌==◌, nat_eq, list_eq,
}
use mail_backup.Entities.{SourceState}
use mail_backup.Stores.{BackupSummary, needs_backfill}
use mail_backup.Stores.Laws.{Outside}
use mail_backup.Engine.Summary.{no_changes, merge}
use mail_backup.Engine.Setup.{Setup}
use mail_backup.Engine.Sync
use mail_backup.Engine.Sync.{SyncOutcome}
use mail_backup.Engine.Sync.DryRun.{run-Keeps, reconcile-Keeps}
use mail_backup.Engine.Backfill.{run_backfill}
use mail_backup.Engine.Backfill.DryRun.{run_backfill-Keeps}
use mail_backup.Engine.Apply.Still.{Still, still}
use mail_backup.Engine.Backup.{
  wrong_account, check_account, open_and_connect, fall_back, catch_up, after_backfill, run_backup,
  run_refresh,
}

module _ {W V : Type 0} (e : Setup W) (view : W → V) (outside : Outside e.source e.around view)
    (v : V) (dry : e.options.dry_run ≡ true) where
  raise-Keeps : {A : Type 0} (x : Error) → Keeps {W = W} {A = A} (Still view v) (raise x)
  raise-Keeps x = record { at = λ w h. h }

  check_account-Keeps : (connected : SourceState) → Keeps (Still view v) (check_account e connected)
  unfolding check_account
  check_account-Keeps connected = simp dry (
      Keeps-bind (reads (λ w. (e.store.state w).source.account_id)) _
        (Keeps-reads (λ w. (e.store.state w).source.account_id))
        λ known.
          Keeps-if (not (is_empty known) && not (known == connected.account_id))
            (raise wrong_account) _ (raise-Keeps wrong_account)
            (Keeps-bind (pure tt) _ (Keeps-pure tt) λ u. Keeps-pure connected))

  connect-Keeps : Keeps (Still view v) e.source.connect
  connect-Keeps = still e view outside v e.source.connect outside.view-connect

  fall_back-Keeps :
      (summary : BackupSummary) (outcome : SyncOutcome)
      → Keeps (Still view v) (fall_back e summary outcome)
  unfolding fall_back
  fall_back-Keeps summary outcome =
      search (keeps_rules, connect-Keeps, reconcile-Keeps e view outside v dry)

  catch_up-Keeps :
      (fuel : ℕ) (summary : BackupSummary) → Keeps (Still view v) (catch_up e fuel summary)
  unfolding catch_up
  catch_up-Keeps fuel summary =
      search (keeps_rules, run-Keeps e view outside v dry, fall_back-Keeps)

  after_backfill-Keeps :
      (fuel : ℕ) (summary : BackupSummary) → Keeps (Still view v) (after_backfill e fuel summary)
  unfolding after_backfill
  after_backfill-Keeps fuel summary = search (keeps_rules, catch_up-Keeps)

  open_and_connect-Keeps :
      Keeps (Still view v) e.store.open_store → Keeps (Still view v) (open_and_connect e)
  unfolding open_and_connect
  open_and_connect-Keeps opens =
      Keeps-bind e.store.open_store _ opens
        λ u. Keeps-bind e.source.connect _ connect-Keeps check_account-Keeps

  run_backup-Keeps :
      (fuel : ℕ)
      → Keeps (Still view v) e.store.open_store
      → Keeps (Still view v) (run_backup e fuel)
  unfolding run_backup
  run_backup-Keeps fuel opens =
      Keeps-bind (open_and_connect e) _ (open_and_connect-Keeps opens) λ connected.
        Keeps-bind (reads (λ w. needs_backfill (e.store.state w))) _
          (Keeps-reads (λ w. needs_backfill (e.store.state w)))
          λ first.
            Keeps-if first _ (catch_up e fuel no_changes)
              (Keeps-bind (run_backfill e connected) _
                (run_backfill-Keeps e view outside v dry connected)
                λ filled. after_backfill-Keeps fuel (merge no_changes filled))
              (catch_up-Keeps fuel no_changes)

  run_refresh-Keeps : Keeps (Still view v) e.store.open_store → Keeps (Still view v) (run_refresh e)
  unfolding run_refresh
  run_refresh-Keeps opens =
      Keeps-bind (open_and_connect e) _ (open_and_connect-Keeps opens) λ connected.
        Keeps-bind (reads (λ w. needs_backfill (e.store.state w))) _
          (Keeps-reads (λ w. needs_backfill (e.store.state w)))
          λ first.
            Keeps-if first (run_backfill e connected) (Sync.reconcile e connected)
              (run_backfill-Keeps e view outside v dry connected)
              (reconcile-Keeps e view outside v dry connected)

module _ {W V : Type 0} (e : Setup W) (view : W → V) where
  -- A dry backup and a dry refresh, however they end, leave alone everything that neither opening the
  -- store nor reading from the source and its surroundings changes.
  pub dry_run_view :
      (fuel : ℕ) (w : W)
      → e.options.dry_run ≡ true
      → Outside e.source e.around view
      → ((w' : W) → view (e.store.open_store w').1 ≡ view w')
      → (view (run_backup e fuel w).1 ≡ view w) × (view (run_refresh e w).1 ≡ view w)
  dry_run_view fuel w dry outside opens =
      let opening = still e view outside (view w) e.store.open_store opens in
      (
        (run_backup-Keeps e view outside (view w) dry fuel opening).at w refl,
        (run_refresh-Keeps e view outside (view w) dry opening).at w refl,
      )
