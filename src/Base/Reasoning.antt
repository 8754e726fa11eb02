-- ===== src/Base/Reasoning.antt =====
-- Rules for fallible code over a state.
use mathlib.Core.Path.{◌≡◌, refl, subst}
use mathlib.Core.Bool.{Bool, true, false}
use mathlib.Core.Option.{Option, none, some}
use native.Mathlib.Omega.{arith}
use mail_backup.Base.Tests.{if◌then◌else◌}
use mail_backup.Base.Running.{Error, Result, ok, err, Exec, pure, lift, reads, total, after, ◌>>=◌}

-- `m` keeps `P`, whether it returns or fails.
pub record Keeps {W A : Type 0} (P : W → Type 0) (m : Exec W A) : Type 0 where
  pub at : (w : W) → P w → P (m w).1

module _ {W A : Type 0} {P : W → Type 0} where
  pub Keeps-pure : (a : A) → Keeps {W = W} P (pure a)
  Keeps-pure a = record { at = λ w h. h }

  pub Keeps-lift : (r : Result A Error) → Keeps {W = W} P (lift r)
  Keeps-lift r = record { at = λ w h. h }

  pub Keeps-reads : (f : W → A) → Keeps P (reads f)
  Keeps-reads f = record { at = λ w h. h }

  pub Keeps-total : (f : W → A × W) → ((w : W) → P w → P (f w).1) → Keeps P (total f)
  Keeps-total f k = record { at = k }

  pub Keeps-if : (b : Bool) (m n : Exec W A) → Keeps P m → Keeps P n → Keeps P (if b then m else n)
  Keeps-if true m n km kn = km
  Keeps-if false m n km kn = kn

module _ {W A B : Type 0} {P : W → Type 0} where
  pub Keeps-option :
      (o : Option B) (m : Exec W A) (k : B → Exec W A)
      → Keeps P m
      → ((b : B) → Keeps P (k b))
      → Keeps P (elim o as (λ y. Exec W A) [ none ↦ m | some b ↦ k b ])
  Keeps-option none m k km kk = km
  Keeps-option (some b) m k km kk = kk b

  Keeps-after :
      (k : A → Exec W B)
      → ((a : A) → Keeps P (k a))
      → (r : Result A Error) (w : W) → P w
      → P (after k (r, w)).1
  Keeps-after k kk (ok a) w h = (kk a).at w h
  Keeps-after k kk (err e) w h = h

  pub Keeps-bind :
      (m : Exec W A) (k : A → Exec W B) → Keeps P m → ((a : A) → Keeps P (k a)) → Keeps P (m >>= k)
  Keeps-bind m k km kk = record { at = λ w h. Keeps-after k kk (m w).0 (m w).1 (km.at w h) }

pub ruleset keeps_rules = (Keeps-pure, Keeps-lift, Keeps-reads, Keeps-total, Keeps-if, Keeps-bind)

pub if_true :
    {W A : Type 0} (b : Bool) (m n : Exec W A) (w : W) → b ≡ true → (if b then m else n) w ≡ m w
if_true true m n w e = refl
if_true false m n w e = ground arith

-- What is known of a result: `Q` where it returned, `R` where it failed.
abbrev pub Post :
    {W A : Type 0} → (A → W → Type 0) → (Error → W → Type 0) → Result A Error × W → Type 0
Post Q R (ok a, w) = Q a w
Post Q R (err e, w) = R e w

module _ {W A B : Type 0} where
  -- The rule for a step: first the facts after it, then those wanted.
  pub Post-after :
      (Q : A → W → Type 0) (R : Error → W → Type 0) (Q' : B → W → Type 0) (R' : Error → W → Type 0)
      (p : Result A Error × W) (k : A → Exec W B)
      → Post Q R p
      → ((e : Error) (w : W) → R e w → R' e w)
      → ((a : A) (w : W) → Q a w → Post Q' R' (k a w))
      → Post Q' R' (after k p)
  Post-after Q R Q' R' (ok a, w) k h weaken next = next a w h
  Post-after Q R Q' R' (err e, w) k h weaken next = weaken e w h

module _ {W A : Type 0} where
  -- From facts about the two parts of a result.
  pub Post-intro :
      (Q : A → W → Type 0) (R : Error → W → Type 0) (p : Result A Error × W)
      → ((a : A) → p.0 ≡ ok a → Q a p.1)
      → ((e : Error) → p.0 ≡ err e → R e p.1)
      → Post Q R p
  Post-intro Q R (ok a, w) good bad = good a refl
  Post-intro Q R (err e, w) good bad = bad e refl

  pub Post-Keeps :
      {P : W → Type 0} {m : Exec W A} (w : W)
      → Keeps P m
      → P w
      → Post (λ a w'. P w') (λ e w'. P w') (m w)
  Post-Keeps {m = m} w k h = Post-intro _ _ (m w) (λ a e. k.at w h) (λ x e. k.at w h)

  -- A computed result leaves the state alone.
  pub Post-lift :
      (P : W → Type 0) (r : Result A Error) (w : W) → P w → Post (λ a. P) (λ x. P) (r, w)
  Post-lift P (ok a) w h = h
  Post-lift P (err x) w h = h

  -- What is known of a result that is known to be a value.
  pub Post-ok :
      (Q : A → W → Type 0) (R : Error → W → Type 0) (p : Result A Error × W) (a : A)
      → Post Q R p
      → p.0 ≡ ok a
      → Q a p.1
  Post-ok Q R p a h e = subst (λ (r : Result A Error). Post Q R (r, p.1)) e h

  pub Post-weaken :
      (Q : A → W → Type 0) (R : Error → W → Type 0) (Q' : A → W → Type 0) (R' : Error → W → Type 0)
      (p : Result A Error × W)
      → Post Q R p
      → ((x : Error) (w : W) → R x w → R' x w)
      → ((a : A) (w : W) → Q a w → Q' a w)
      → Post Q' R' p
  Post-weaken Q R Q' R' (ok a, w) h bad good = good a w h
  Post-weaken Q R Q' R' (err x, w) h bad good = bad x w h

module _ {W A B : Type 0} where
  -- A step that depends on an optional value.
  pub Post-option :
      (Q : A → W → Type 0) (R : Error → W → Type 0) (o : Option B) (m : Exec W A) (k : B → Exec W A)
      (w : W)
      → Post Q R (m w)
      → ((b : B) → Post Q R (k b w))
      → Post Q R ((elim o as (λ y. Exec W A) [ none ↦ m | some b ↦ k b ]) w)
  Post-option Q R none m k w h h' = h
  Post-option Q R (some b) m k w h h' = h' b

pub Post-both :
    {W A : Type 0} (Q Q' : A → W → Type 0) (R R' : Error → W → Type 0) (p : Result A Error × W)
    → Post Q R p
    → Post Q' R' p
    → Post (λ a w. Q a w × Q' a w) R p
Post-both Q Q' R R' (ok a, w) h k = (h, k)
Post-both Q Q' R R' (err x, w) h k = h
