-- ===== src/Resilience/Attempts.antt =====
-- helpers/resilience.rs: the loop of `retry`, its end and its result.
use mail_backup.Base.{
  ℕ, zero, suc, ◌+◌, ◌*◌, ◌≤◌, ◌<◌, ◌≡◌, ◌≢◌, Option, none, some, Result, ok, err, arith, Bool, min,
  ◌⊎◌,
}
use mail_backup.Resilience.{
  RetryPolicy, RetryError, CircuitBreaker, Timing, Attempt, attempts, retry, closed, record_success,
  Round, returns, goes_on, round,
}

scaled_bounds :
    (slept delay most calls : ℕ)
    → slept ≤ calls * most
    → (slept ≤ (calls + 1) * most) × (delay ≤ most → slept + delay ≤ (calls + 1) * most)
scaled_bounds slept delay most calls h = grind arith

module _ {T E W : Type 0} where
  -- The call ended, and its result and final state are related.
  abbrev pub Ends :
      (Result T (RetryError E) → Attempt W → Type 0)
      → Option (Result T (RetryError E) × Attempt W)
      → Type 0
  Ends P none = ⊥
  Ends P (some (r, s)) = P r s

  -- After a round: the postcondition if it returned, else the invariant of the next round.
  abbrev pub Keeps :
      RetryPolicy
      → (Result T (RetryError E) → Attempt W → Type 0)
      → (Option E → Attempt W → Type 0)
      → ℕ
      → Round T E W
      → Type 0
  Keeps policy P I attempt (returns r s) = P r s
  Keeps policy P I attempt (goes_on e s) = (attempt < policy.max_attempts) × I (some e) s

  -- What the result says of the calls made.
  abbrev pub Accounted : Result T (RetryError E) → Attempt W → Type 0
  Accounted (ok value) s = (0 < s.calls) × (s.breaker.state ≡ closed 0)
  Accounted (err (RetryError.operation e)) s = 0 < s.calls
  Accounted (err (RetryError.circuit_open wait)) s = (s.calls ≡ 0) × (s.slept ≡ 0)

module _ {W T E : Type 0} (time : Timing W) (policy : RetryPolicy) (is_transient : E → Bool)
    (run : W → Result T E × W) where
  -- The rule for the loop: an invariant `I` of delay, attempt, last error and state.
  pub attempts_rule :
      (P : Result T (RetryError E) → Attempt W → Type 0) (I : ℕ → ℕ → Option E → Attempt W → Type 0)
      → ((delay attempt : ℕ) (last : Option E) (s : Attempt W)
          → I delay attempt last s
          → Keeps policy P
              (I (min (delay * 2) policy.max_delay) (attempt + 1))
              attempt
              (round time policy is_transient run delay attempt last s))
      → (fuel delay attempt : ℕ) (last : Option E) (s : Attempt W)
      → policy.max_attempts < fuel + attempt
      → 0 < fuel
      → I delay attempt last s
      → Ends P (attempts time policy is_transient run fuel delay attempt last s)
  unfolding attempts
  attempts_rule P I keep zero delay attempt last s h p i = elim p [ ]
  attempts_rule P I keep (suc fuel) delay attempt last s h p i =
      step (round time policy is_transient run delay attempt last s) (keep delay attempt last s i)
        (λ e t k.
          attempts_rule P I keep fuel (min (delay * 2) policy.max_delay) (attempt + 1) (some e) t
            (omega arith) (omega arith) k.1)
    where
      step :
          (r : Round T E W)
          → Keeps policy P (I (min (delay * 2) policy.max_delay) (attempt + 1)) attempt r
          → ((e : E) (t : Attempt W)
              → Keeps policy P
                  (I (min (delay * 2) policy.max_delay) (attempt + 1))
                  attempt
                  (goes_on e t)
              → Ends P (
                  attempts time policy is_transient run fuel
                    (min (delay * 2) policy.max_delay)
                    (attempt + 1)
                    (some e)
                    t))
          → Ends P (elim r [
            | returns q t ↦ some (q, t)
            | goes_on e t ↦
                attempts time policy is_transient run fuel
                  (min (delay * 2) policy.max_delay)
                  (attempt + 1)
                  (some e)
                  t
          ])
      step (returns q t) k next = k
      step (goes_on e t) k next = next e t k

  abbrev Counted : ℕ → ℕ → Option E → Attempt W → Type 0
  Counted delay attempt last s =
      (s.calls + 1 ≡ attempt)
      × ((attempt ≡ 1) ⊎ (attempt ≤ policy.max_attempts))
      × (s.slept ≤ s.calls * policy.max_delay)
      × (delay ≤ policy.max_delay)
      × ((last ≡ none) → (s.calls ≡ 0) × (s.slept ≡ 0))
      × ((last ≢ none) → 0 < s.calls)

  round-Accounted :
      (delay attempt : ℕ) (last : Option E) (s : Attempt W)
      → Counted delay attempt last s
      → Keeps policy
          (λ r t.
            Accounted r t
            × (t.slept ≤ t.calls * policy.max_delay)
            × ((t.calls ≤ 1) ⊎ (t.calls ≤ policy.max_attempts)))
          (Counted (min (delay * 2) policy.max_delay) (attempt + 1))
          attempt
          (round time policy is_transient run delay attempt last s)
  unfolding round record_success
  round-Accounted delay attempt none s h =
      ground (arith, scaled_bounds s.slept delay policy.max_delay s.calls)
  round-Accounted delay attempt (some e) s h =
      ground (arith, scaled_bounds s.slept delay policy.max_delay s.calls)

  -- A call of `retry` whose first delay is within the policy's maximum ends. It runs the operation
  -- at most `max_attempts` times (once where that is 0), waits at most `max_delay` for each run,
  -- leaves the breaker closed with no failure when it returns a value, has run the operation when it
  -- returns an error of the operation, and has neither run it nor waited when the breaker rejects it.
  pub retry-Accounted :
      (b : CircuitBreaker) (w : W)
      → policy.initial_delay ≤ policy.max_delay
      → Ends
          (λ r t.
            Accounted r t
            × (t.slept ≤ t.calls * policy.max_delay)
            × ((t.calls ≤ 1) ⊎ (t.calls ≤ policy.max_attempts)))
          (retry time policy is_transient run b w)
  unfolding retry
  retry-Accounted b w h =
      attempts_rule _ Counted round-Accounted (suc policy.max_attempts) policy.initial_delay 1 none
        (record { world = w; breaker = b; calls = 0; slept = 0 }) (omega arith) (omega arith)
        (ground arith)
