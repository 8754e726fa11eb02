-- ===== src/Engine/Stream/Ends.antt =====
-- engine/stream.rs: why `stream_phase` ends.
use mail_backup.Base.{ℕ, true, Option, ok, err, Error, ◌≡◌, ◌⊎◌}
use mail_backup.Stores.{BackupSummary}
use mail_backup.Engine.Setup.{Setup}
use mail_backup.Engine.Stream.{
  StreamOptions, StreamEnd, cancelled, disconnected, needs_reconcile, scheduled_refresh, Signal,
  changed, ping, ended, woken, failed, reconcile_first, sync_failed, Live, Phase, Turn, going, over,
  passed, run_sync, poll_again, sync_result,
}
use mail_backup.Engine.Sync

-- A signal that is no notification of a change.
abbrev pub IsQuiet : Signal → Type 0
IsQuiet (changed email mailbox) = ⊥
IsQuiet ping = Unit
IsQuiet ended = Unit
IsQuiet woken = Unit
IsQuiet (failed x) = Unit

-- `Owed` says of a world that a change has been notified since the last synchronization that
-- succeeded: only a notification makes it so, and such a synchronization ends it.
pub record IsOwing {W : Type 0} (e : Setup W) (live : Live W) (fuel : ℕ) (Owed : W → Type 0)
    : Type 0 where
  pub now_still : (w : W) → Owed (live.now w).1 → Owed w
  pub cancelled_still : (w : W) → Owed (e.around.cancelled w).1 → Owed w
  pub wait_quiet : (t : ℕ) (w : W) → IsQuiet (live.wait t w).0 → Owed (live.wait t w).1 → Owed w
  pub sync_settles :
      (w : W) (summary : BackupSummary)
      → sync_result (Sync.run e fuel w).0 ≡ ok summary
      → ¬ Owed (Sync.run e fuel w).1

module _ {W : Type 0} (e : Setup W) (live : Live W) (options : StreamOptions) (scheduled : Option ℕ)
    (fuel : ℕ) (Owed : W → Type 0) where
  -- Where the synchronization of a round begins that begins at `w`, if there is one.
  abbrev pub sync_from : Phase → W → W
  sync_from p w =
      let (now, w') = live.now (e.around.cancelled w).1 in
      (poll_again e live options scheduled fuel p now w').1

  -- The reason for each end, of a round that begins with `p₀` at `w` and ends at `w'`.
  abbrev pub Justified : Phase → W → StreamEnd → Phase → W → Type 0
  Justified p₀ w cancelled p w' = (e.around.cancelled w).0 ≡ true
  Justified p₀ w scheduled_refresh p w' =
      passed scheduled (live.now (e.around.cancelled w).1).0 ≡ true
  Justified p₀ w needs_reconcile p w' =
      run_sync e live options scheduled fuel (sync_from p₀ w) ≡ (err reconcile_first, w')
  Justified p₀ w disconnected p w' =
      ((p.lost ≡ true) × ¬ Owed w')
      ⊎ ((x : Error) × (run_sync e live options scheduled fuel (sync_from p₀ w)
            ≡ (err (sync_failed x), w')))

  -- Where a change is owed, one is pending.
  abbrev pub IsBalanced : Phase → W → Type 0
  IsBalanced p w = Owed w → p.pending ≡ true

  abbrev pub Ends : Phase → W → Turn × W → Type 0
  Ends p₀ w (going p, w') = IsBalanced p w'
  Ends p₀ w (over end p, w') = Justified p₀ w end p w'
