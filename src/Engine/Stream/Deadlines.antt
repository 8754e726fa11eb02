-- ===== src/Engine/Stream/Deadlines.antt =====
-- engine/stream.rs: when `stream_phase` wakes, by the deadlines of its loop.
use mail_backup.Base.{
  ℕ, ◌+◌, ◌≤◌, ◌<◌, min, Option, none, some, List, [], ◌∷◌, ◌≡◌, refl, ◌⊎◌, inl, inr, arith,
}
use mail_backup.Entities.{nanos_per_second}
use mail_backup.Engine.Stream.{Phase, earliest, wake_at}

-- The deadline is one of those that are set.
abbrev pub IsDeadline : ℕ → List (Option ℕ) → Type 0
IsDeadline d [] = ⊥
IsDeadline d (o ∷ os) = (o ≡ some d) ⊎ IsDeadline d os

earliest_le_start : (t : ℕ) (ds : List (Option ℕ)) → earliest t ds ≤ t
unfolding earliest
earliest_le_start t [] = omega arith
earliest_le_start t (none ∷ ds) = earliest_le_start t ds
earliest_le_start t (some d ∷ ds) = omega (arith, earliest_le_start (min t d) ds)

earliest_le : (t : ℕ) (ds : List (Option ℕ)) (d : ℕ) → IsDeadline d ds → earliest t ds ≤ d
unfolding earliest
earliest_le t [] d k = absurd k
earliest_le t (none ∷ ds) d (inl e) = ground arith
earliest_le t (none ∷ ds) d (inr k) = earliest_le t ds d k
earliest_le t (some c ∷ ds) d (inl e) = ground (arith, earliest_le_start (min t c) ds)
earliest_le t (some c ∷ ds) d (inr k) = earliest_le (min t c) ds d k

earliest_gt :
    (now t : ℕ) (ds : List (Option ℕ))
    → now < t
    → ((d : ℕ) → IsDeadline d ds → now < d)
    → now < earliest t ds
unfolding earliest
earliest_gt now t [] h k = h
earliest_gt now t (none ∷ ds) h k = earliest_gt now t ds h (λ d s. k d (inr s))
earliest_gt now t (some c ∷ ds) h k =
    earliest_gt now (min t c) ds (omega (arith, h, k c (inl refl))) (λ d s. k d (inr s))

-- The deadlines of the loop.
abbrev pub deadlines : Phase → Option ℕ → List (Option ℕ)
deadlines p scheduled =
    p.quiet_deadline ∷ p.batch_deadline ∷ some p.next_safety_poll ∷ scheduled ∷ []

-- The loop wakes no later than any deadline that is set, and looks at the cancel flag after a second
-- at the latest; while every deadline is still to come, it waits, and does not spin.
pub wake_at_bounds :
    (p : Phase) (scheduled : Option ℕ) (now : ℕ)
    → ((d : ℕ) → IsDeadline d (deadlines p scheduled) → wake_at p scheduled now ≤ d)
      × (wake_at p scheduled now ≤ now + nanos_per_second)
      × (((d : ℕ) → IsDeadline d (deadlines p scheduled) → now < d) → now < wake_at p scheduled now)
unfolding wake_at
wake_at_bounds p scheduled now = (
  λ d s. earliest_le (now + nanos_per_second) (deadlines p scheduled) d s,
  earliest_le_start (now + nanos_per_second) (deadlines p scheduled),
  λ k. earliest_gt now (now + nanos_per_second) (deadlines p scheduled) (omega arith) k,
)
