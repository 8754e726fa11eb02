-- ===== src/Engine/Stream/Daemon.antt =====
-- engine/stream.rs: `run`, the daemon's loop over backups and phases of streaming.
use mail_backup.Base.{
  ℕ, zero, suc, ◌+◌, ◌*◌, ◌/◌, ◌≤◌, min, Bool, true, false, Option, none, some, Result, ok, err,
  Error, ltb, ◌≡◌, if◌then◌else◌,
}
use mail_backup.Base.{Text}
use mail_backup.Ping.{PingConfig, observe}
use mail_backup.Engine.Summary.{completed}
use mail_backup.Stores.{BackupSummary}
use mail_backup.Engine.Setup.{Setup}
use mail_backup.Engine.Backup.{run_backup, run_refresh}
use mail_backup.Engine.Stream.{
  StreamOptions, StreamEnd, cancelled, disconnected, needs_reconcile, scheduled_refresh, Live,
  stream_phase,
}

-- The variables of the loop.
pub record Daemon : Type 0 where
  pub backoff : ℕ
  pub refresh : Bool

-- What a round of the loop comes to; `exhausted` where the phase of streaming ran out of rounds.
pub data Round : Type 0 where
  again : Daemon → Round
  stopped exhausted : Round

abbrev pub poll_interval : ℕ
poll_interval = 100000000

unfoldable pub doubled : StreamOptions → ℕ → ℕ
doubled options backoff = min (backoff * 2) options.reconnect_max

module _ {W : Type 0} (e : Setup W) (live : Live W) (options : StreamOptions)
    (next_scheduled : W → Option ℕ × W) (get : Text → W → W) (monitor : PingConfig) (fuel : ℕ) where
  unfoldable pub sleeping : ℕ → ℕ → ℕ → W → W
  sleeping zero deadline duration w = w
  sleeping (suc n) deadline duration w =
      let (now, w) = live.now w in
      let (stop, w') = e.around.cancelled w in
      let rest = sleeping n deadline duration (live.sleep (min poll_interval duration) w') in
      if ltb now deadline then (if stop then w' else rest) else w

  -- A round for every sleep that the duration has room for, and one more.
  unfoldable pub sleep_cancellable : ℕ → W → W
  unfolding sleeping
  sleep_cancellable duration w =
      let (now, w) = live.now w in
      sleeping (suc (suc (duration / poll_interval))) (now + duration) duration w

  -- The full pass with which a round begins.
  unfoldable pub full_pass : Bool → W → Result BackupSummary Error × W
  unfolding run_backup run_refresh
  full_pass refresh w = if refresh then run_refresh e w else run_backup e fuel w

  -- The pass, as the monitor is told of it.
  unfoldable pub observed_pass : Bool → W → Result BackupSummary Error × W
  unfolding full_pass observe
  observed_pass refresh w = observe get monitor (full_pass refresh) completed w

  unfoldable pub after_phase : ℕ → Option StreamEnd → W → Round × W
  unfolding sleep_cancellable doubled
  after_phase backoff none w = (exhausted, w)
  after_phase backoff (some cancelled) w = (stopped, w)
  after_phase backoff (some needs_reconcile) w =
      (again (record { backoff = backoff; refresh = false }), w)
  after_phase backoff (some scheduled_refresh) w =
      (again (record { backoff = backoff; refresh = true }), w)
  after_phase backoff (some disconnected) w = (
    again (record { backoff = doubled options backoff; refresh = false }),
    sleep_cancellable backoff w,
  )

  unfoldable pub stream_live : W → Round × W
  unfolding stream_phase after_phase
  stream_live w =
      let (scheduled, w) = next_scheduled w in
      let (end, w) = stream_phase e live options scheduled fuel w in
      after_phase options.reconnect_min end w

  unfoldable pub after_pass : ℕ → Result BackupSummary Error × W → Round × W
  unfolding stream_live sleep_cancellable doubled
  after_pass backoff (err x, w) = (
    again (record { backoff = doubled options backoff; refresh = false }),
    sleep_cancellable backoff w,
  )
  after_pass backoff (ok summary, w) =
      let (stop, w') = e.around.cancelled w in
      if summary.interrupted then (stopped, w) else if stop then (stopped, w') else stream_live w'

  unfoldable pub daemon_round : Daemon → W → Round × W
  unfolding observed_pass after_pass
  daemon_round d w =
      let (stop, w) = e.around.cancelled w in
      if stop then (stopped, w) else after_pass d.backoff (observed_pass d.refresh w)

  unfoldable pub daemon_rounds : ℕ → Daemon → W → Round × W
  unfolding daemon_round
  daemon_rounds zero d w = (exhausted, w)
  daemon_rounds (suc n) d w =
      let (next, w) = daemon_round d w in
      elim next [
        | again d' ↦ daemon_rounds n d' w
        | stopped ↦ (stopped, w)
        | exhausted ↦ (exhausted, w)
      ]

  unfoldable pub run_daemon : ℕ → W → Round × W
  unfolding daemon_rounds
  run_daemon n w = daemon_rounds n (record { backoff = options.reconnect_min; refresh = false }) w

  -- The wait before the next attempt is within the two bounds.
  abbrev pub IsBounded : ℕ → Type 0
  IsBounded backoff = (options.reconnect_min ≤ backoff) × (backoff ≤ options.reconnect_max)

  -- The phase of streaming that begins at `w` ends because the schedule came due, as it is there.
  abbrev pub ScheduleCame : W → Type 0
  ScheduleCame w =
      (stream_phase e live options (next_scheduled w).0 fuel (next_scheduled w).1).0
      ≡ some scheduled_refresh

  -- Where the phase of streaming of a round begins: after the pass and a look at the cancel flag.
  abbrev pub streaming_from : Daemon → W → W
  streaming_from d w = (e.around.cancelled (observed_pass d.refresh (e.around.cancelled w).1).1).1

  -- What a round leaves whose phase of streaming, if there is one, begins at `w₀`.
  abbrev pub Continued : W → Round × W → Type 0
  Continued w₀ (again d, w) = IsBounded d.backoff × (d.refresh ≡ true → ScheduleCame w₀)
  Continued w₀ (stopped, w) = Unit
  Continued w₀ (exhausted, w) = Unit
