-- ===== src/Resilience.antt =====
-- helpers/resilience.rs: the circuit breaker and the retry loop. Durations and instants are in
-- milliseconds.
pub mod Attempts
pub mod Breaker
pub mod Wedge
mod Examples
use mail_backup.Base.{
  ℕ, zero, suc, ◌+◌, ◌-◌, ◌*◌, min, Bool, ◌&&◌, Option, none, some, Result, ok, err, ltb, leb,
  if◌then◌else◌,
}

pub record RetryPolicy : Type 0 where
  pub max_attempts : ℕ
  pub initial_delay : ℕ
  pub max_delay : ℕ

abbrev pub default_policy : RetryPolicy
default_policy = record { max_attempts = 8; initial_delay = 500; max_delay = 30000 }

pub data RetryError {ℓ} (E : Type ℓ) : Type ℓ where
  operation : E → RetryError E
  circuit_open : ℕ → RetryError E

pub data BreakerState : Type 0 where
  closed : ℕ → BreakerState
  open_until : ℕ → BreakerState
  half_open : BreakerState

pub record CircuitBreaker : Type 0 where
  pub threshold : ℕ
  pub cooldown : ℕ
  pub state : BreakerState

abbrev pub new : ℕ → ℕ → CircuitBreaker
new threshold cooldown = record { threshold = threshold; cooldown = cooldown; state = closed 0 }

abbrev pub default_breaker : CircuitBreaker
default_breaker = new 10 60000

acquire_from : BreakerState → CircuitBreaker → ℕ → Result (Unit {0}) ℕ × CircuitBreaker
acquire_from (closed n) b now = (ok tt, b)
acquire_from half_open b now = (err b.cooldown, b)
acquire_from (open_until until) b now =
    if leb until now then (ok tt, record b { state = half_open }) else (err (until - now), b)

unfoldable pub try_acquire : CircuitBreaker → ℕ → Result (Unit {0}) ℕ × CircuitBreaker
unfolding acquire_from
try_acquire b now = acquire_from b.state b now

unfoldable pub record_success : CircuitBreaker → CircuitBreaker
record_success b = record b { state = closed 0 }

failed_from : BreakerState → CircuitBreaker → ℕ → BreakerState
failed_from (closed n) b now =
    if leb b.threshold (n + 1) then open_until (now + b.cooldown) else closed (n + 1)
failed_from half_open b now = open_until (now + b.cooldown)
failed_from (open_until until) b now = open_until until

pub record_failure : CircuitBreaker → ℕ → CircuitBreaker
unfolding failed_from
record_failure b now = record b { state = failed_from b.state b now }

-- The clock of the runtime.
pub record Timing (W : Type 0) : Type 0 where
  pub now : W → ℕ
  pub sleep : ℕ → W → W

-- What a call of `retry` acts on; `calls` and `slept` count what it did.
pub record Attempt (W : Type 0) : Type 0 where
  pub world : W
  pub breaker : CircuitBreaker
  pub calls : ℕ
  pub slept : ℕ

pub data Round (T E W : Type 0) : Type 0 where
  returns : Result T (RetryError E) → Attempt W → Round T E W
  goes_on : E → Attempt W → Round T E W

module _ {W T E : Type 0} (time : Timing W) (policy : RetryPolicy) (is_transient : E → Bool)
    (run : W → Result T E × W) where
  -- `last_error`, or the rejection where there is none.
  pub rejected : Option E → ℕ → RetryError E
  rejected (some error) retry_after = RetryError.operation error
  rejected none retry_after = circuit_open retry_after

  -- One call of the operation.
  pub call : Attempt W → Result T E × Attempt W
  call s = let (r, w) = run s.world in (r, record s { world = w; calls = s.calls + 1 })

  -- The last branch of the loop: the error is final.
  pub give_up : E → Attempt W → Attempt W
  give_up error s =
      if is_transient error
      then record s { breaker = record_failure s.breaker (time.now s.world) }
      else s

  pub back_off : ℕ → Attempt W → Attempt W
  back_off delay s = record s {
    breaker = record_failure s.breaker (time.now s.world);
    world = time.sleep delay s.world;
    slept = s.slept + delay;
  }

  pub acquire : Attempt W → Result (Unit {0}) ℕ × Attempt W
  acquire s = let (r, b) = try_acquire s.breaker (time.now s.world) in (r, record s { breaker = b })

  -- One round of the loop: it returns, or it goes on with the error that it met.
  pub round : ℕ → ℕ → Option E → Attempt W → Round T E W
  unfolding acquire call give_up back_off rejected
  round delay attempt last_error s =
      let (granted, s') = acquire s in
      elim granted [
        | err retry_after ↦ returns (err (rejected last_error retry_after)) s'
        | ok _ ↦
            let (result, s'') = call s' in
            elim result [
              | ok value ↦ returns (ok value) (record s'' { breaker = record_success s''.breaker })
              | err error ↦
                  if ltb attempt policy.max_attempts && is_transient error
                  then goes_on error (back_off delay s'')
                  else returns (err (RetryError.operation error)) (give_up error s'')
            ]
      ]

  -- The loop of `retry`; `none` means that the fuel ran out.
  pub attempts : ℕ → ℕ → ℕ → Option E → Attempt W → Option (Result T (RetryError E) × Attempt W)
  attempts zero delay attempt last_error s = none
  attempts (suc fuel) delay attempt last_error s = elim (round delay attempt last_error s) [
    | returns r t ↦ some (r, t)
    | goes_on error t ↦
        attempts fuel (min (delay * 2) policy.max_delay) (attempt + 1) (some error) t
  ]

  -- `max_attempts` rounds are enough, and one where `max_attempts` is 0.
  pub retry : CircuitBreaker → W → Option (Result T (RetryError E) × Attempt W)
  retry breaker w =
      attempts (suc policy.max_attempts) policy.initial_delay 1 none
        (record { world = w; breaker = breaker; calls = 0; slept = 0 })
