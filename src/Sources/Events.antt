-- ===== src/Sources/Events.antt =====
-- sources/jmap/events/mod.rs: the chain of strategies for change notifications. An instant or a
-- duration is a number of nanoseconds.
pub mod Choosing
pub mod Healthy
pub mod Polling
mod Examples
use mail_backup.Base.{
  ℕ, zero, suc, ◌+◌, ◌-◌, ◌*◌, Bool, true, false, not, Option, none, some, List, [], ◌∷◌, ◌++◌, map,
  Kind, system, Result, ok, err, Error, ltb, leb, is_some, if◌then◌else◌,
}
use mail_backup.Entities.{nanos_per_second}

abbrev pub subscribe_timeout : ℕ
subscribe_timeout = 30 * nanos_per_second

abbrev pub healthy_stream_min : ℕ
healthy_stream_min = 60 * nanos_per_second

abbrev pub demotion_threshold : ℕ
demotion_threshold = 3

abbrev pub cooldown : ℕ
cooldown = 15 * 60 * nanos_per_second

pub data SourceNotification : Type 0 where
  changed : (email mailbox : Bool) → SourceNotification
  ping : SourceNotification

-- A strategy, by what it does to the world: whether the server supports it, its subscription within a
-- time (`tokio::time::timeout`, `none` where the time is over first), and the next item of its stream.
pub record EventStrategy (W : Type 0) : Type 0 where
  pub supported : W → Bool
  pub subscribe_within : ℕ → W → Option (Result (Unit {0}) Error) × W
  pub next : W → Option (Result SourceNotification Error) × W

pub record StrategyHealth : Type 0 where
  pub consecutive_failures : ℕ
  pub cooldown_until : Option ℕ
  pub subscribed_at : Option ℕ

abbrev pub default_health : StrategyHealth
default_health = record { consecutive_failures = 0; cooldown_until = none; subscribed_at = none }

-- The health of the strategies, in their order, and all else.
pub record Chain (W : Type 0) : Type 0 where
  pub health : List StrategyHealth
  pub outside : W

unfoldable pub strike : ℕ → StrategyHealth → StrategyHealth
strike now h =
    if leb demotion_threshold (suc h.consecutive_failures)
    then record h { consecutive_failures = 0; cooldown_until = some (now + cooldown) }
    else record h { consecutive_failures = suc h.consecutive_failures }

unfoldable pub failed_entry : ℕ → StrategyHealth → StrategyHealth
unfolding strike
failed_entry now h = strike now (record h { subscribed_at = none })

unfoldable pub ended_entry : ℕ → StrategyHealth → StrategyHealth
unfolding strike
ended_entry now h = elim h.subscribed_at [
  | none ↦ h
  | some at ↦
      if leb healthy_stream_min (now - at)
      then record h { subscribed_at = none; consecutive_failures = 0; cooldown_until = none }
      else strike now (record h { subscribed_at = none })
]

-- The entry of a strategy changes.
unfoldable pub update_at :
    ℕ → (StrategyHealth → StrategyHealth) → List StrategyHealth → List StrategyHealth
update_at i f [] = []
update_at zero f (h ∷ hs) = f h ∷ hs
update_at (suc i) f (h ∷ hs) = h ∷ update_at i f hs

unfoldable pub entry : ℕ → List StrategyHealth → StrategyHealth
entry i [] = default_health
entry zero (h ∷ hs) = h
entry (suc i) (h ∷ hs) = entry i hs

unfoldable pub remaining : Option ℕ → ℕ → Option ℕ
remaining none now = none
remaining (some until) now = if ltb now until then some (until - now) else none

abbrev pub timed_out : Error
timed_out = record { kind = system; what = "subscribing timed out" }

abbrev pub none_available : Error
none_available = record { kind = system; what = "no strategy is supported" }

-- `unwrap_or_else` of the result within the time.
unfoldable pub or_timed_out : Option (Result (Unit {0}) Error) → Result (Unit {0}) Error
or_timed_out none = err timed_out
or_timed_out (some r) = r

-- What the chain does with a strategy.
pub data Verdict : Type 0 where
  shutdown unsupported cooling subscribed : Verdict
  refused : Error → Verdict

-- What the selection comes to: a strategy by its place, a shutdown, or an error.
pub data Selection : Type 0 where
  chosen : ℕ → Selection
  stopped : Selection
  unavailable : Error → Selection

-- An item of the chain's stream, and whether the stream goes on after it.
pub data Forwarded : Type 0 where
  finished : Forwarded
  yielded : Result SourceNotification Error → (more : Bool) → Forwarded

unfoldable pub new : {W : Type 0} → List (EventStrategy W) → W → Chain W
new strategies w = record { health = map (λ s. default_health) strategies; outside = w }

module _ {W : Type 0} (now : W → ℕ) (cancelled : W → Bool × W) where
  unfoldable pub cooldown_remaining : ℕ → Chain W → Option ℕ
  unfolding remaining entry
  cooldown_remaining i c = remaining (entry i c.health).cooldown_until (now c.outside)

  unfoldable pub record_failure : ℕ → Chain W → Chain W
  unfolding update_at failed_entry
  record_failure i c = record c { health = update_at i (failed_entry (now c.outside)) c.health }

  unfoldable pub stream_ended : ℕ → Chain W → Chain W
  unfolding update_at ended_entry
  stream_ended i c = record c { health = update_at i (ended_entry (now c.outside)) c.health }

  unfoldable pub after_subscribe : ℕ → Result (Unit {0}) Error → Chain W → Verdict × Chain W
  unfolding record_failure update_at
  after_subscribe i (ok u) c = (
    subscribed,
    record c {
      health = update_at i (λ h. record h { subscribed_at = some (now c.outside) }) c.health;
    },
  )
  after_subscribe i (err x) c = (refused x, record_failure i c)

  unfoldable pub try_subscribe : ℕ → EventStrategy W → Chain W → Verdict × Chain W
  unfolding or_timed_out after_subscribe
  try_subscribe i s c =
      let (r, w) = s.subscribe_within subscribe_timeout c.outside in
      after_subscribe i (or_timed_out r) (record c { outside = w })

  -- A strategy in its turn.
  unfoldable pub consider : ℕ → EventStrategy W → Chain W → Verdict × Chain W
  unfolding cooldown_remaining try_subscribe
  consider i s c =
      let (stop, w) = cancelled c.outside in
      let c' = record c { outside = w } in
      if stop
      then (shutdown, c')
      else if not (s.supported w)
      then (unsupported, c')
      else if is_some (cooldown_remaining i c')
      then (cooling, c')
      else try_subscribe i s c'

  -- A strategy that was cooling down, where no other could be had.
  unfoldable pub insist : ℕ → EventStrategy W → Chain W → Verdict × Chain W
  unfolding try_subscribe
  insist i s c =
      let (stop, w) = cancelled c.outside in
      if stop
      then (shutdown, record c { outside = w })
      else try_subscribe i s (record c { outside = w })

  unfoldable pub or_none_available : Option Error → Error
  or_none_available none = none_available
  or_none_available (some x) = x

  unfoldable pub second_pass :
      List (ℕ × EventStrategy W) → Option Error → Chain W → Selection × Chain W
  unfolding insist or_none_available
  second_pass [] last_error c = (unavailable (or_none_available last_error), c)
  second_pass ((i, s) ∷ rest) last_error c =
      let (verdict, c) = insist i s c in
      elim verdict [
        | subscribed ↦ (chosen i, c)
        | shutdown ↦ (stopped, c)
        | refused x ↦ second_pass rest (some x) c
        | unsupported ↦ second_pass rest last_error c
        | cooling ↦ second_pass rest last_error c
      ]

  unfoldable pub first_pass :
      ℕ
      → List (EventStrategy W)
      → Option Error
      → List (ℕ × EventStrategy W)
      → Chain W
      → Selection × Chain W
  unfolding consider second_pass
  first_pass i [] last_error cooling_down c = second_pass cooling_down last_error c
  first_pass i (s ∷ rest) last_error cooling_down c =
      let (verdict, c) = consider i s c in
      elim verdict [
        | subscribed ↦ (chosen i, c)
        | shutdown ↦ (stopped, c)
        | refused x ↦ first_pass (suc i) rest (some x) cooling_down c
        | unsupported ↦ first_pass (suc i) rest last_error cooling_down c
        | cooling ↦ first_pass (suc i) rest last_error (cooling_down ++ (i, s) ∷ []) c
      ]

  unfoldable pub select : List (EventStrategy W) → Chain W → Selection × Chain W
  unfolding first_pass
  select strategies c = first_pass 0 strategies none [] c

  unfoldable pub forward_item :
      ℕ → Option (Result SourceNotification Error) → Chain W → Forwarded × Chain W
  unfolding stream_ended
  forward_item i none c = (finished, stream_ended i c)
  forward_item i (some item) c =
      let (stop, w) = cancelled c.outside in
      let c' = record c { outside = w } in
      if stop then (finished, c') else elim item [
        | ok n ↦ (yielded (ok n) true, c')
        | err x ↦ (yielded (err x) false, stream_ended i c')
      ]

  -- A round of the loop that forwards the chosen strategy's stream.
  unfoldable pub forward : ℕ → EventStrategy W → Chain W → Forwarded × Chain W
  unfolding forward_item
  forward i s c = let (item, w) = s.next c.outside in forward_item i item (record c { outside = w })
