-- ===== src/Engine/Stream/Prompt.antt =====
-- engine/stream.rs: the deadlines of the loop in `stream_phase`.
use mail_backup.Base.{ℕ, ◌+◌, ◌≤◌, ◌<◌, max, true, Option, none, some, ◌≡◌, ◌⊎◌}
use mail_backup.Engine.Setup.{Setup}
use mail_backup.Engine.Stream.{StreamOptions, cancelled, Live, Phase, Turn, going, over}

-- A clock that only waiting and synchronizing move, and a wait that ends at most so late.
pub record IsTimed {W : Type 0} (e : Setup W) (live : Live W) (late : ℕ) (clock : W → ℕ)
    : Type 0 where
  pub reads_clock : (w : W) → live.now w ≡ (clock w, w)
  pub cancelled_still : (w : W) → clock (e.around.cancelled w).1 ≡ clock w
  pub wait_ends : (t : ℕ) (w : W) → clock (live.wait t w).1 ≤ max t (clock w) + late

-- A batch with a deadline is pending, and is past its deadline by no more than a wait is late.
abbrev pub IsTimely : ℕ → Phase → ℕ → Type 0
IsTimely late p now = (d : ℕ) → p.batch_deadline ≡ some d → (p.pending ≡ true) × (now ≤ d + late)

-- No deadline has come, and a batch with one is pending.
abbrev IsEarly : Phase → ℕ → Type 0
IsEarly p now = (d : ℕ) → p.batch_deadline ≡ some d → (p.pending ≡ true) × (now < d)

-- What is known of the variables where the loop goes on.
abbrev pub Next : {W : Type 0} → (Phase → W → Type 0) → Turn × W → Type 0
Next P (going p, w) = P p w
Next P (over end p, w) = Unit

module _ {W : Type 0} (e : Setup W) (live : Live W) (options : StreamOptions) (scheduled : Option ℕ)
    (fuel late : ℕ) (clock : W → ℕ) (timed : IsTimed e live late clock) where
  -- The batch of the next round is this one, or one that this round began.
  abbrev Waited : Phase → Phase → W → Type 0
  Waited p p' w' =
      IsTimely late p' (clock w')
      × ((p'.batch_deadline ≡ p.batch_deadline)
          ⊎ (p'.batch_deadline ≡ some (clock w' + options.max_batch_delay)))

  -- The next round has no batch, or one that this round began.
  abbrev Renewed : Phase → W → Type 0
  Renewed p' w' =
      IsTimely late p' (clock w')
      × ((p'.batch_deadline ≡ none)
          ⊎ (p'.batch_deadline ≡ some (clock w' + options.max_batch_delay)))

  -- A batch whose deadline has come does not last.
  abbrev pub Prompt : Phase → ℕ → Phase → W → Type 0
  Prompt p now p' w' =
      IsTimely late p' (clock w')
      × ((d : ℕ)
          → p.batch_deadline ≡ some d
          → d ≤ now
          → (p'.batch_deadline ≡ none)
            ⊎ (p'.batch_deadline ≡ some (clock w' + options.max_batch_delay)))
