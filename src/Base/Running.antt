-- ===== src/Base/Running.antt =====
-- Fallible code over a state: what was written before an error stays written.
use mathlib.Core.Bool.{Bool}
use Prim.Native.String.{String}
use mail_backup.Base.Tests.{if◌then◌else◌}

-- `human_errors::Kind`
pub data Kind : Type 0 where
  user system : Kind

-- `human_errors::Error`: its kind, and what failed in place of the whole message.
pub record Error : Type 0 where
  pub kind : Kind
  pub what : String

pub data Result {ℓ κ} (A : Type ℓ) (E : Type κ) : Type (ℓ ⊔ κ) where
  ok : A → Result A E
  err : E → Result A E

abbrev pub Exec {ℓ} : Type ℓ → Type 0 → Type ℓ
Exec W A = W → Result A Error × W

module _ {ℓ} {W : Type ℓ} where
  abbrev pub pure : {A : Type 0} → A → Exec W A
  pure a w = (ok a, w)

  abbrev pub raise : {A : Type 0} → Error → Exec W A
  raise e w = (err e, w)

  abbrev pub lift : {A : Type 0} → Result A Error → Exec W A
  lift r w = (r, w)

  abbrev pub reads : {A : Type 0} → (W → A) → Exec W A
  reads f w = (ok (f w), w)

  abbrev pub modify : (W → W) → Exec W (Unit {0})
  modify f w = (ok tt, f w)

  -- An effect that cannot fail.
  abbrev pub total : {A : Type 0} → (W → A × W) → Exec W A
  total f w = let (a, w') = f w in (ok a, w')

  abbrev pub after : {A B : Type 0} → (A → Exec W B) → Result A Error × W → Result B Error × W
  after k (ok a, w) = k a w
  after k (err e, w) = (err e, w)

  infixl 5 ◌>>=◌ ◌>>◌
  abbrev pub ◌>>=◌ : {A B : Type 0} → Exec W A → (A → Exec W B) → Exec W B
  ◌>>=◌ m k w = after k (m w)

  abbrev pub ◌>>◌ : {A B : Type 0} → Exec W A → Exec W B → Exec W B
  m >> n = m >>= λ _. n

  -- `if b { m }`
  abbrev pub when : Bool → Exec W (Unit {0}) → Exec W (Unit {0})
  when b m = if b then m else pure tt
