-- ===== src/Base/Returning.antt =====
-- Calls that return, whatever the state.
use mathlib.Core.Path.{◌≡◌, refl}
use mathlib.Core.Bool.{Bool, true, false}
use mathlib.Core.Option.{Option, none, some}
use native.Mathlib.Omega.{arith}
use mail_backup.Base.Tests.{is_some, if◌then◌else◌}
use mail_backup.Base.Running.{Error, Result, ok, err, Exec, pure, lift, reads, modify, after, ◌>>=◌}

-- A call returns, from any state.
pub record Returns {W A : Type 0} (m : Exec W A) : Type 0 where
  pub at : (w : W) → (a : A) × ((m w).0 ≡ ok a)

module _ {W A : Type 0} where
  pub Returns-pure : (a : A) → Returns {W = W} (pure a)
  Returns-pure a = record { at = λ w. (a, refl) }

  pub Returns-reads : (f : W → A) → Returns (reads f)
  Returns-reads f = record { at = λ w. (f w, refl) }

  pub Returns-lift : (r : Result A Error) → (a : A) × (r ≡ ok a) → Returns {W = W} (lift r)
  Returns-lift r h = record { at = λ w. h }

  pub Returns-if :
      (b : Bool) (m n : Exec W A) → Returns m → Returns n → Returns (if b then m else n)
  Returns-if true m n rm rn = rm
  Returns-if false m n rm rn = rn

module _ {W : Type 0} where
  pub Returns-modify : (f : W → W) → Returns (modify f)
  Returns-modify f = record { at = λ w. (tt, refl) }

module _ {W A B : Type 0} where
  pub Returns-option :
      (o : Option B) (m : Exec W A) (k : B → Exec W A)
      → Returns m
      → ((b : B) → Returns (k b))
      → Returns (elim o as (λ y. Exec W A) [ none ↦ m | some b ↦ k b ])
  Returns-option none m k rm rk = rm
  Returns-option (some b) m k rm rk = rk b

  pub Returns-some :
      (o : Option B) (m : Exec W A) (k : B → Exec W A)
      → is_some o ≡ true
      → ((b : B) → Returns (k b))
      → Returns (elim o as (λ y. Exec W A) [ none ↦ m | some b ↦ k b ])
  Returns-some none m k h rk = absurd (ground arith)
  Returns-some (some b) m k h rk = rk b

  Returns-after :
      (k : A → Exec W B)
      → ((a : A) → Returns (k a))
      → (r : Result A Error) (w : W) → (a : A) × (r ≡ ok a)
      → (b : B) × ((after k (r, w)).0 ≡ ok b)
  Returns-after k rk (ok a) w h = (rk a).at w
  Returns-after k rk (err e) w (a, h) = absurd (ground arith)

  pub Returns-bind :
      (m : Exec W A) (k : A → Exec W B) → Returns m → ((a : A) → Returns (k a)) → Returns (m >>= k)
  Returns-bind m k rm rk = record { at = λ w. Returns-after k rk (m w).0 (m w).1 (rm.at w) }

pub ruleset returns_rules = (Returns-pure, Returns-reads, Returns-modify, Returns-if, Returns-bind)
