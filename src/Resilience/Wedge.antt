-- ===== src/Resilience/Wedge.antt =====
-- helpers/resilience.rs: a recovery probe that meets an error that is not transient.
use mail_backup.Base.{ℕ, ◌≤◌, ◌≡◌, refl, some, Result, err, arith, Bool, false}
use mail_backup.Resilience.{
  RetryPolicy, RetryError, CircuitBreaker, Timing, attempts, retry, open_until, half_open,
  try_acquire, round,
}
use mail_backup.Resilience.Attempts.{Ends}

module _ {W T E : Type 0} (time : Timing W) (policy : RetryPolicy) (is_transient : E → Bool)
    (run : W → Result T E × W) where
  rejected_half_open :
      (b : CircuitBreaker) (w : W)
      → b.state ≡ half_open
      → retry time policy is_transient run b w
        ≡ some (
          err (RetryError.circuit_open b.cooldown),
          record { world = w; breaker = b; calls = 0; slept = 0 },
        )
  unfolding retry attempts round try_acquire
  rejected_half_open b w h = ground arith

  lost_probe :
      (b : CircuitBreaker) (w : W) (until : ℕ) (e : E)
      → b.state ≡ open_until until
      → until ≤ time.now w
      → (run w).0 ≡ err e
      → is_transient e ≡ false
      → retry time policy is_transient run b w
        ≡ some (
          err (RetryError.operation e),
          record {
            world = (run w).1;
            breaker = record b { state = half_open };
            calls = 1;
            slept = 0;
          },
        )
  unfolding retry attempts round try_acquire
  lost_probe b w until e h k q f = ground arith

-- Where the probe of an open breaker meets an error that is not transient, the call returns that
-- error, and from then on every call with the same policy, of any operation, is rejected without running
-- and leaves the breaker as it is.
pub probe_lost :
    {W T E : Type 0} (time : Timing W) (policy : RetryPolicy) (is_transient : E → Bool)
    (run : W → Result T E × W) (b : CircuitBreaker) (w : W) (until : ℕ) (e : E)
    → b.state ≡ open_until until
    → until ≤ time.now w
    → (run w).0 ≡ err e
    → is_transient e ≡ false
    → Ends
        (λ r t.
          (r ≡ err (RetryError.operation e))
          × ((later : W → Result T E × W) (w' : W)
              → retry time policy is_transient later t.breaker w'
                ≡ some (
                  err (RetryError.circuit_open b.cooldown),
                  record { world = w'; breaker = t.breaker; calls = 0; slept = 0 },
                )))
        (retry time policy is_transient run b w)
probe_lost time policy is_transient run b w until e h k q f =
    rw (lost_probe time policy is_transient run b w until e h k q f)
      (refl, λ later w'. rejected_half_open time policy is_transient later _ w' refl)
