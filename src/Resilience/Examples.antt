-- ===== src/Resilience/Examples.antt =====
-- The retry loop and the breaker on small runs.
use mail_backup.Base.{
  ℕ, zero, suc, ◌+◌, ◌*◌, ◌≤◌, ◌⊎◌, ◌≡◌, refl, Bool, true, false, some, Result, ok, err, [], ◌∷◌,
  arith,
}
use mail_backup.Resilience.{
  RetryPolicy, RetryError, CircuitBreaker, Timing, open_until, new, retry, circuit_open,
}
use mail_backup.Resilience.Attempts.{Ends, Accounted, retry-Accounted}
use mail_backup.Resilience.Breaker.{asks, grants, single_probe}
use mail_backup.Resilience.Wedge.{probe_lost}

-- The time, and how many failures the server still has to give.
record Server : Type 0 where
  time : ℕ
  failures : ℕ

abbrev ticking : Timing Server
ticking = record { now = λ w. w.time; sleep = λ d w. record w { time = w.time + d } }

abbrev three_attempts : RetryPolicy
three_attempts = record { max_attempts = 3; initial_delay = 10; max_delay = 15 }

answer : ℕ → Server → Result ℕ ℕ × Server
answer zero w = (ok 7, w)
answer (suc n) w = (err 1, record w { failures = n })

abbrev ask : Server → Result ℕ ℕ × Server
ask w = answer w.failures w

abbrev always : ℕ → Bool
always e = true

abbrev never : ℕ → Bool
never e = false

abbrev flaky : Server
flaky = record { time = 0; failures = 2 }

abbrev later : Server
later = record { time = 100; failures = 1 }

abbrev opened : CircuitBreaker
opened = record { threshold = 5; cooldown = 60; state = open_until 50 }

retry-Accounted_example :
    Ends
      (λ r t. Accounted r t × (t.slept ≤ t.calls * 15) × ((t.calls ≤ 1) ⊎ (t.calls ≤ 3)))
      (retry ticking three_attempts always ask (new 5 60) flaky)
retry-Accounted_example =
    retry-Accounted ticking three_attempts always ask (new 5 60) flaky (omega arith)

single_probe_example : grants (asks 60 ∷ asks 10 ∷ asks 200 ∷ []) opened ≤ 1
single_probe_example =
    single_probe (asks 60 ∷ asks 10 ∷ asks 200 ∷ []) opened 50 refl (tt, (tt, (tt, tt)))

probe_lost_example :
    Ends
      (λ r t.
        (r ≡ err (RetryError.operation 1))
        × ((other : Server → Result ℕ ℕ × Server) (w' : Server)
            → retry ticking three_attempts never other t.breaker w'
              ≡ some (
                err (circuit_open 60),
                record { world = w'; breaker = t.breaker; calls = 0; slept = 0 },
              )))
      (retry ticking three_attempts never ask opened later)
unfolding answer
probe_lost_example =
    probe_lost ticking three_attempts never ask opened later 50 1 refl (omega arith) refl refl
