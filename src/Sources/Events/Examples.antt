-- ===== src/Sources/Events/Examples.antt =====
-- The chain of strategies with a push transport that is refused and polling that works.
use mail_backup.Base.{
  ℕ, Bool, true, false, none, some, List, [], ◌∷◌, system, ok, err, refl, inl, inr, arith,
}
use mail_backup.Sources.Events.{EventStrategy, Chain, ping, select, forward, default_health}
use mail_backup.Sources.Events.Choosing.{HasReliable, IsChosen, select-IsChosen}
use mail_backup.Sources.Events.Healthy.{IsHealthy, select-IsHealthy}

-- The world is the time.
abbrev push : EventStrategy ℕ
push = record {
  supported = λ w. true;
  subscribe_within = λ d w. (some (err (record { kind = system; what = "refused" })), w);
  next = λ w. (none, w);
}

abbrev polling : EventStrategy ℕ
polling = record {
  supported = λ w. true;
  subscribe_within = λ d w. (some (ok tt), w);
  next = λ w. (some (ok ping), w);
}

abbrev clock : ℕ → ℕ
clock w = w

abbrev never : ℕ → Bool × ℕ
never w = (false, w)

abbrev both : List (EventStrategy ℕ)
both = push ∷ polling ∷ []

-- Polling has failed before, and is set aside.
abbrev tired : Chain ℕ
tired = record {
  health =
      default_health
      ∷ record { consecutive_failures = 0; cooldown_until = some 100; subscribed_at = none }
      ∷ [];
  outside = 5;
}

both-HasReliable : HasReliable clock never both
both-HasReliable = inr (inl (λ w. (refl, (w, refl))))

select-IsChosen_example : IsChosen clock never (select clock never both tired).0
select-IsChosen_example = select-IsChosen clock never (λ w. refl) both tired both-HasReliable

tired-IsHealthy : IsHealthy clock never tired
tired-IsHealthy = (omega arith, (omega arith, tt))

select-IsHealthy_example :
    ((strategies : List (EventStrategy ℕ))
      → IsHealthy clock never (select clock never strategies tired).1)
    × ((i : ℕ) (s : EventStrategy ℕ) → IsHealthy clock never (forward clock never i s tired).1)
select-IsHealthy_example = select-IsHealthy clock never tired tired-IsHealthy
