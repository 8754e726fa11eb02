-- ===== src/Engine/Backup/Accounts.antt =====
-- engine/mod.rs: a store that belongs to another account than the one connected.
use mail_backup.Base.{ℕ, false, is_empty, ok, err, ◌≡◌, refl, ◌==◌, nat_eq, list_eq}
use mail_backup.Entities.{SourceState}
use mail_backup.Engine.Setup.{Setup}
use mail_backup.Engine.Backup.{
  wrong_account, check_account, open_and_connect, run_backup, run_refresh,
}

module _ {W : Type 0} (e : Setup W) where
  check_account-wrong :
      (connected : SourceState) (w : W)
      → is_empty (e.store.state w).source.account_id ≡ false
      → ((e.store.state w).source.account_id == connected.account_id) ≡ false
      → check_account e connected w ≡ (err wrong_account, w)
  unfolding check_account
  check_account-wrong connected w h k = rw (h, k) refl

  open_and_connect-wrong :
      (w opened w' : W) (connected : SourceState)
      → e.store.open_store w ≡ (ok tt, opened)
      → e.source.connect opened ≡ (ok connected, w')
      → is_empty (e.store.state w').source.account_id ≡ false
      → ((e.store.state w').source.account_id == connected.account_id) ≡ false
      → open_and_connect e w ≡ (err wrong_account, w')
  unfolding open_and_connect
  open_and_connect-wrong w opened w' connected o c h k =
      rw o (rw c (check_account-wrong connected w' h k))

  -- Where the store opens and the source connects, but the store holds the mail of another account,
  -- a backup and a refresh both fail with the error that says so, and do nothing further: the world
  -- is as the connection left it.
  pub run_backup-wrong :
      (fuel : ℕ) (w opened w' : W) (connected : SourceState)
      → e.store.open_store w ≡ (ok tt, opened)
      → e.source.connect opened ≡ (ok connected, w')
      → is_empty (e.store.state w').source.account_id ≡ false
      → ((e.store.state w').source.account_id == connected.account_id) ≡ false
      → (run_backup e fuel w ≡ (err wrong_account, w'))
        × (run_refresh e w ≡ (err wrong_account, w'))
  unfolding run_backup run_refresh
  run_backup-wrong fuel w opened w' connected o c h k =
      rw (open_and_connect-wrong w opened w' connected o c h k) (refl, refl)
