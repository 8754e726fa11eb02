-- ===== src/Engine/Stream.antt =====
-- engine/stream.rs: the daemon of a policy, with its stream of notifications. An instant or a duration
-- is a number of nanoseconds.
pub mod Deadlines
pub mod Prompt
pub mod Ends
pub mod Daemon
mod Examples
use mail_backup.Base.{
  ℕ, zero, suc, ◌+◌, ◌-◌, ◌*◌, ◌/◌, min, Bool, true, false, not, ◌&&◌, ◌||◌, Option, none, some,
  List, [], ◌∷◌, Result, ok, err, Error, leb, ltb, if◌then◌else◌,
}
use mail_backup.Entities.{nanos_per_second}
use mail_backup.Stores.{BackupSummary}
use mail_backup.Engine.Setup.{Setup}
use mail_backup.Engine.Sync.{SyncOutcome}
use mail_backup.Engine.Sync
use mail_backup.Engine.Backup.{run_backup, run_refresh}

pub record StreamOptions : Type 0 where
  pub quiet_period : ℕ
  pub max_batch_delay : ℕ
  pub safety_poll : ℕ
  pub reconnect_min : ℕ
  pub reconnect_max : ℕ

-- `StreamOptions::default()`
abbrev pub default_options : StreamOptions
default_options = record {
  quiet_period = 3 * nanos_per_second;
  max_batch_delay = 30 * nanos_per_second;
  safety_poll = 6 * 60 * 60 * nanos_per_second;
  reconnect_min = 1 * nanos_per_second;
  reconnect_max = 300 * nanos_per_second;
}

pub data StreamEnd : Type 0 where
  cancelled disconnected needs_reconcile scheduled_refresh : StreamEnd

-- What the wait of a turn ends with: an item of the source's stream, its end, or the time.
pub data Signal : Type 0 where
  changed : (email mailbox : Bool) → Signal
  ping ended woken : Signal
  failed : Error → Signal

pub data SyncFailure : Type 0 where
  reconcile_first : SyncFailure
  sync_failed : Error → SyncFailure

-- What the loop reads of its surroundings: the clock, `select!` of the stream and `sleep_until`, and
-- `sleep`.
pub record Live (W : Type 0) : Type 0 where
  pub now : W → ℕ × W
  pub wait : ℕ → W → Signal × W
  pub sleep : ℕ → W → W

-- The variables of the loop.
pub record Phase : Type 0 where
  pub pending : Bool
  pub quiet_deadline : Option ℕ
  pub batch_deadline : Option ℕ
  pub next_safety_poll : ℕ
  pub lost : Bool

-- A round of the loop ends the phase, with the variables as they are, or goes on.
pub data Turn : Type 0 where
  going : Phase → Turn
  over : StreamEnd → Phase → Turn

-- `is_some_and(|d| now >= d)`
unfoldable pub passed : Option ℕ → ℕ → Bool
passed none now = false
passed (some d) now = leb d now

unfoldable pub is_due : Phase → ℕ → Bool
unfolding passed
is_due p now = p.pending && (p.lost || passed p.quiet_deadline now || passed p.batch_deadline now)

unfoldable pub earliest : ℕ → List (Option ℕ) → ℕ
earliest t [] = t
earliest t (none ∷ ds) = earliest t ds
earliest t (some d ∷ ds) = earliest (min t d) ds

-- The last is the next look at the cancel flag.
unfoldable pub wake_at : Phase → Option ℕ → ℕ → ℕ
unfolding earliest
wake_at p scheduled now =
    earliest (now + nanos_per_second)
      (p.quiet_deadline ∷ p.batch_deadline ∷ some p.next_safety_poll ∷ scheduled ∷ [])

-- `get_or_insert`
unfoldable pub get_or_insert : Option ℕ → ℕ → Option ℕ
get_or_insert none d = some d
get_or_insert (some d') d = some d'

unfoldable pub noted : StreamOptions → Phase → ℕ → Phase
unfolding get_or_insert
noted options p now = record p {
  pending = true;
  quiet_deadline = some (now + options.quiet_period);
  batch_deadline = get_or_insert p.batch_deadline (now + options.max_batch_delay);
}

-- After a synchronization.
unfoldable pub applied : Phase → Result BackupSummary SyncFailure → Turn
applied p (ok summary) =
    going (record p { pending = false; quiet_deadline = none; batch_deadline = none })
applied p (err reconcile_first) = over needs_reconcile p
applied p (err (sync_failed e)) = over disconnected p

unfoldable pub sync_result : Result SyncOutcome Error → Result BackupSummary SyncFailure
sync_result (err e) = err (sync_failed e)
sync_result (ok outcome) =
    if outcome.needs_reconcile then err reconcile_first else ok outcome.summary

module _ {W : Type 0} (e : Setup W) (live : Live W) (options : StreamOptions) (scheduled : Option ℕ)
    (fuel : ℕ) where
  unfoldable pub run_sync : W → Result BackupSummary SyncFailure × W
  unfolding sync_result Sync.run
  run_sync w = let (r, w) = Sync.run e fuel w in (sync_result r, w)

  unfoldable pub poll_again : Phase → ℕ → W → Phase × W
  poll_again p now w =
      if leb p.next_safety_poll now
      then (let (later, w) = live.now w in
          (record p { next_safety_poll = later + options.safety_poll }, w))
      else (p, w)

  unfoldable pub sync_if_due : Phase → ℕ → W → Turn × W
  unfolding is_due poll_again run_sync applied
  sync_if_due p now w =
      if is_due p now || leb p.next_safety_poll now
      then (let (p, w) = poll_again p now w in let (r, w) = run_sync w in (applied p r, w))
      else (going p, w)

  unfoldable pub notice : Phase → Signal → W → Turn × W
  unfolding noted
  notice p (changed email mailbox) w = let (now, w) = live.now w in (going (noted options p now), w)
  notice p ping w = (going p, w)
  notice p woken w = (going p, w)
  notice p ended w = (going (record p { lost = true }), w)
  notice p (failed x) w = (going (record p { lost = true }), w)

  unfoldable pub listen : Phase → W → Turn × W
  unfolding wake_at notice
  listen p w =
      let (now, w) = live.now w in
      let (signal, w) = live.wait (wake_at p scheduled now) w in notice p signal w

  unfoldable pub after_sync : Turn × W → Turn × W
  unfolding listen
  after_sync (over end p, w) = (over end p, w)
  after_sync (going p, w) = if p.lost then (over disconnected p, w) else listen p w

  unfoldable pub turn : Phase → W → Turn × W
  unfolding passed sync_if_due after_sync
  turn p w =
      let (stop, w) = e.around.cancelled w in
      let (now, w') = live.now w in
      if stop
      then (over cancelled p, w)
      else if passed scheduled now
      then (over scheduled_refresh p, w')
      else after_sync (sync_if_due p now w')

  -- The loop for so many rounds; `none` past them.
  unfoldable pub rounds : ℕ → Phase → W → Option StreamEnd × W
  unfolding turn
  rounds zero p w = (none, w)
  rounds (suc n) p w =
      let (next, w) = turn p w in
      elim next [ over end p' ↦ (some end, w) | going p' ↦ rounds n p' w ]

  unfoldable pub stream_phase : W → Option StreamEnd × W
  unfolding rounds
  stream_phase w =
      let (now, w) = live.now w in
      rounds fuel
        (record {
          pending = false;
          quiet_deadline = none;
          batch_deadline = none;
          next_safety_poll = now + options.safety_poll;
          lost = false;
        })
        w
