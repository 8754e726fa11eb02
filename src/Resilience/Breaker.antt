-- ===== src/Resilience/Breaker.antt =====
-- helpers/resilience.rs: the breaker's states, its counter, and the callers that share it.
use mail_backup.Base.{
  ℕ, suc, ◌+◌, ◌*◌, ◌≤◌, ◌<◌, ◌≡◌, refl, Option, none, some, Result, ok, err, arith, Bool, min, max,
  ◌⊎◌, List, [], ◌∷◌, All,
}
use mail_backup.Resilience.{
  RetryPolicy, RetryError, BreakerState, CircuitBreaker, Timing, Attempt, retry, closed, open_until,
  half_open, try_acquire, record_failure, record_success, round,
}
use mail_backup.Resilience.Attempts.{Ends, Keeps, attempts_rule}

-- A closed breaker has counted fewer failures than open it.
abbrev pub BelowThreshold : ℕ → BreakerState → Type 0
BelowThreshold threshold (closed n) = n < threshold
BelowThreshold threshold _ = Unit

abbrev pub IsValid : CircuitBreaker → Type 0
IsValid b = (0 < b.threshold) × BelowThreshold b.threshold b.state

pub try_acquire-IsValid : (b : CircuitBreaker) (now : ℕ) → IsValid b → IsValid (try_acquire b now).1
unfolding try_acquire
try_acquire-IsValid b now h = ground arith

pub record_failure-IsValid :
    (b : CircuitBreaker) (now : ℕ) → IsValid b → IsValid (record_failure b now)
unfolding record_failure
record_failure-IsValid b now h = ground arith

-- What the callers that share a breaker do with it, in the order in which they do it.
pub data BreakerEvent : Type 0 where
  asks fails : ℕ → BreakerEvent
  succeeds : BreakerEvent

pub step : BreakerEvent → CircuitBreaker → CircuitBreaker
step (asks now) b = (try_acquire b now).1
step (fails now) b = record_failure b now
step succeeds b = record_success b

abbrev grant : Result (Unit {0}) ℕ → ℕ
grant (ok _) = 1
grant (err _) = 0

-- How many of the requests are let through.
pub grants : List BreakerEvent → CircuitBreaker → ℕ
unfolding step
grants [] b = 0
grants (asks now ∷ events) b = grant (try_acquire b now).0 + grants events (step (asks now) b)
grants (e ∷ events) b = grants events (step e b)

abbrev IsRequest : BreakerEvent → Type 0
IsRequest (asks now) = Unit
IsRequest _ = ⊥

-- Requests while the cooldown runs, and failures of requests that were on their way.
abbrev DuringCooldown : ℕ → BreakerEvent → Type 0
DuringCooldown until (asks now) = now < until
DuringCooldown until (fails now) = Unit
DuringCooldown until succeeds = ⊥

grants-half_open :
    (events : List BreakerEvent) (b : CircuitBreaker)
    → b.state ≡ half_open
    → All IsRequest events
    → grants events b ≡ 0
unfolding grants try_acquire
grants-half_open [] b h k = refl
grants-half_open (asks now ∷ events) b h k = ground (arith, grants-half_open events b h k.1)
grants-half_open (fails now ∷ events) b h k = absurd k.0
grants-half_open (succeeds ∷ events) b h k = absurd k.0

-- However many callers ask an open breaker at whatever times, until one of them reports an outcome
-- at most one is let through.
pub single_probe :
    (events : List BreakerEvent) (b : CircuitBreaker) (until : ℕ)
    → b.state ≡ open_until until
    → All IsRequest events
    → grants events b ≤ 1
unfolding grants try_acquire
single_probe [] b until h k = omega arith
single_probe (asks now ∷ events) b until h k = ground (
  arith,
  single_probe events b until h k.1,
  grants-half_open events (record b { state = half_open }) refl k.1,
)
single_probe (fails now ∷ events) b until h k = absurd k.0
single_probe (succeeds ∷ events) b until h k = absurd k.0

-- While the cooldown runs an open breaker lets no request through, and the failures of requests
-- that were on their way do not extend it.
pub cooldown_respected :
    (events : List BreakerEvent) (b : CircuitBreaker) (until : ℕ)
    → b.state ≡ open_until until
    → All (DuringCooldown until) events
    → grants events b ≡ 0
unfolding grants try_acquire record_failure
cooldown_respected [] b until h k = refl
cooldown_respected (asks now ∷ events) b until h k =
    ground (arith, cooldown_respected events b until h k.1)
cooldown_respected (fails now ∷ events) b until h k =
    ground (arith, cooldown_respected events (record_failure b now) until)
cooldown_respected (succeeds ∷ events) b until h k = absurd k.0

-- The failures counted, of a closed breaker.
abbrev pub Streak : ℕ → BreakerState → Type 0
Streak most (closed n) = n ≤ most
Streak most _ = ⊥

abbrev pub NotRejected : {T E : Type 0} → Result T (RetryError E) → Type 0
NotRejected (err (RetryError.circuit_open wait)) = ⊥
NotRejected _ = Unit

module _ {W T E : Type 0} (time : Timing W) (policy : RetryPolicy) (is_transient : E → Bool)
    (run : W → Result T E × W) where
  round-IsValid :
      (delay attempt : ℕ) (last : Option E) (s : Attempt W)
      → IsValid s.breaker
      → Keeps policy
          (λ r t. IsValid t.breaker)
          (λ l t. IsValid t.breaker)
          attempt
          (round time policy is_transient run delay attempt last s)
  unfolding round record_success
  round-IsValid d a none s i = ground (
    arith,
    try_acquire-IsValid s.breaker (time.now s.world) i,
    record_failure-IsValid (try_acquire s.breaker (time.now s.world)).1 (time.now (run s.world).1),
  )
  round-IsValid d a (some e) s i = ground (
    arith,
    try_acquire-IsValid s.breaker (time.now s.world) i,
    record_failure-IsValid (try_acquire s.breaker (time.now s.world)).1 (time.now (run s.world).1),
  )

  -- A call of `retry` keeps the breaker valid, however it ends.
  pub retry-IsValid :
      (b : CircuitBreaker) (w : W)
      → IsValid b
      → Ends (λ r t. IsValid t.breaker) (retry time policy is_transient run b w)
  unfolding retry
  retry-IsValid b w h =
      attempts_rule time policy is_transient run (λ r t. IsValid t.breaker)
        (λ d a l s. IsValid s.breaker) round-IsValid (suc policy.max_attempts) policy.initial_delay
        1 none _ (omega arith) (omega arith) h

  abbrev Streaks : ℕ → ℕ → ℕ → ℕ → Option E → Attempt W → Type 0
  Streaks threshold k delay attempt last s =
      (s.calls + 1 ≡ attempt)
      × ((attempt ≡ 1) ⊎ (attempt ≤ policy.max_attempts))
      × (s.breaker.threshold ≡ threshold)
      × Streak (k + s.calls) s.breaker.state

  round-Streak :
      (threshold k delay attempt : ℕ) (last : Option E) (s : Attempt W)
      → k + max 1 policy.max_attempts < threshold
      → Streaks threshold k delay attempt last s
      → Keeps policy
          (λ r t. NotRejected r × Streak (k + max 1 policy.max_attempts) t.breaker.state)
          (Streaks threshold k (min (delay * 2) policy.max_delay) (attempt + 1))
          attempt
          (round time policy is_transient run delay attempt last s)
  unfolding round try_acquire record_failure record_success
  round-Streak threshold k delay attempt none s h i = ground arith
  round-Streak threshold k delay attempt (some e) s h i = ground arith

  -- One call with fewer attempts than are missing for the breaker to open is never rejected and
  -- leaves the breaker closed, whatever the operation does.
  pub retry_never_opens :
      (b : CircuitBreaker) (w : W) (k : ℕ)
      → b.state ≡ closed k
      → k + max 1 policy.max_attempts < b.threshold
      → Ends
          (λ r t. NotRejected r × Streak (k + max 1 policy.max_attempts) t.breaker.state)
          (retry time policy is_transient run b w)
  unfolding retry
  retry_never_opens b w k h lt =
      attempts_rule time policy is_transient run _ (Streaks b.threshold k)
        (λ d a l s. round-Streak b.threshold k d a l s lt) (suc policy.max_attempts)
        policy.initial_delay 1 none (record { world = w; breaker = b; calls = 0; slept = 0 })
        (omega arith) (omega arith) (ground arith)
