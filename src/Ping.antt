-- ===== src/Ping.antt =====
-- ping.rs: what a monitor is told of a backup run.
use mail_backup.Base.{
  Bool, Option, none, some, Text, Result, ok, err, Error, Exec, ◌≡◌, arith, if◌then◌else◌,
}

pub record PingConfig : Type 0 where
  pub start : Option Text
  pub success : Option Text
  pub failure : Option Text

pub data PingState : Type 0 where
  run_start run_success run_failure : PingState

unfoldable pub url_for : PingConfig → PingState → Option Text
url_for config run_start = config.start
url_for config run_success = config.success
url_for config run_failure = config.failure

-- `get` sends a request and waits for the answer, whatever it is.
module _ {W : Type 0} (get : Text → W → W) (config : PingConfig) where
  unfoldable pub ping : PingState → W → W
  unfolding url_for
  ping state w = elim (url_for config state) [ none ↦ w | some url ↦ get url w ]

  unfoldable pub report : {T : Type 0} → (T → Bool) → Result T Error → W → W
  unfolding ping
  report report_success (ok value) w = if report_success value then ping run_success w else w
  report report_success (err x) w = ping run_failure w

  unfoldable pub observe : {T : Type 0} → Exec W T → (T → Bool) → Exec W T
  unfolding ping report
  observe task report_success w =
      let (r, w) = task (ping run_start w) in (r, report report_success r w)

  -- Without a URL for any state, observing a run is running it.
  module _ (no_start : config.start ≡ none) (no_success : config.success ≡ none)
      (no_failure : config.failure ≡ none) where
    report_silent :
        {T : Type 0} (report_success : T → Bool) (r : Result T Error) (w : W)
        → report report_success r w ≡ w
    unfolding report ping url_for
    report_silent report_success (ok value) w = ground arith
    report_silent report_success (err x) w = ground arith

    pub observe_silent :
        {T : Type 0} (task : Exec W T) (report_success : T → Bool) (w : W)
        → observe task report_success w ≡ task w
    unfolding observe ping url_for
    observe_silent task report_success w =
        ground (arith, report_silent report_success (task w).0 (task w).1)
