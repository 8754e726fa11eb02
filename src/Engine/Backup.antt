-- ===== src/Engine/Backup.antt =====
-- engine/mod.rs: `open_and_connect`, `run_backup` and `run_refresh`.
pub mod Accounts
pub mod DryRun
use mail_backup.Base.{
  ℕ, Bool, true, false, not, ◌&&◌, is_empty, Text, Kind, user, Error, Exec, pure, raise, reads,
  modify, when, ◌>>=◌, ◌>>◌, ◌==◌, nat_eq, list_eq, if◌then◌else◌,
}
use mail_backup.Entities.{SourceState}
use mail_backup.Stores.{BackupSummary, needs_backfill}
use mail_backup.Engine.Summary.{no_changes, merge}
use mail_backup.Engine.Setup.{Setup}
use mail_backup.Engine.Sync
use mail_backup.Engine.Sync.{SyncOutcome}
use mail_backup.Engine.Backfill.{run_backfill}

abbrev pub wrong_account : Error
wrong_account = record { kind = user; what = "the store belongs to another account" }

module _ {W : Type 0} (e : Setup W) where
  unfoldable pub set_account : Text → W → W
  set_account id w =
      let s = e.store.state w in
      e.store.set_state (record s { source = record s.source { account_id = id } }) w

  -- The store must be new, or be that of the connected account.
  pub check_account : SourceState → Exec W SourceState
  check_account connected = do
    known ← reads (λ w. (e.store.state w).source.account_id)
    if not (is_empty known) && not (known == connected.account_id) then raise wrong_account else (do
      when (not e.options.dry_run) (modify (set_account connected.account_id))
      pure connected)

  pub open_and_connect : Exec W SourceState
  unfolding check_account
  open_and_connect = do e.store.open_store; connected ← e.source.connect; check_account connected

  -- A reconciliation from a fresh state, where the catch-up asked for one.
  pub fall_back : BackupSummary → SyncOutcome → Exec W BackupSummary
  fall_back summary outcome =
      let merged = merge summary outcome.summary in
      if outcome.needs_reconcile && not merged.interrupted
      then (do
        fresh ← e.source.connect
        reconciled ← Sync.reconcile e fresh
        pure (merge merged reconciled))
      else pure merged

  pub catch_up : ℕ → BackupSummary → Exec W BackupSummary
  unfolding fall_back
  catch_up fuel summary = do outcome ← Sync.run e fuel; fall_back summary outcome

  -- A dry run ends after the backfill.
  pub after_backfill : ℕ → BackupSummary → Exec W BackupSummary
  after_backfill fuel summary =
      if summary.interrupted
      then pure summary
      else if e.options.dry_run
      then pure summary
      else catch_up fuel summary

  unfoldable pub run_backup : ℕ → Exec W BackupSummary
  unfolding open_and_connect catch_up after_backfill
  run_backup fuel = do
    connected ← open_and_connect
    first ← reads (λ w. needs_backfill (e.store.state w))
    if first
        then (do filled ← run_backfill e connected; after_backfill fuel (merge no_changes filled))
        else catch_up fuel no_changes

  unfoldable pub run_refresh : Exec W BackupSummary
  unfolding open_and_connect
  run_refresh = do
    connected ← open_and_connect
    first ← reads (λ w. needs_backfill (e.store.state w))
    if first then run_backfill e connected else Sync.reconcile e connected
