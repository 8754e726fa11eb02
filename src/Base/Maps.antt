-- ===== src/Base/Maps.antt =====
-- A hash map or tree map keyed by texts, as an association list. A new key goes to the end.
use mathlib.Core.Path.{◌≡◌, refl}
use mathlib.Core.Option.{Option, none, some}
use mathlib.Core.List.{List, [], ◌∷◌, map}
use native.Mathlib.Omega.{arith}
use mail_backup.Base.Tests.{if◌then◌else◌}
use mail_backup.Base.Equality.{◌==◌, eq_iff, nat_eq, list_eq}
use mail_backup.Base.Texts.{Text}

abbrev pub Dictionary {ℓ} : Type ℓ → Type ℓ
Dictionary V = List (Text × V)

module _ {ℓ} {V : Type ℓ} where
  unfoldable pub get : Dictionary V → Text → Option V
  get [] k = none
  get ((j, v) ∷ m) k = if j == k then some v else get m k

  unfoldable pub put : Dictionary V → Text → V → Dictionary V
  put [] k v = (k, v) ∷ []
  put ((j, w) ∷ m) k v = if j == k then (k, v) ∷ m else (j, w) ∷ put m k v

  unfoldable pub erase : Dictionary V → Text → Dictionary V
  erase [] k = []
  erase ((j, w) ∷ m) k = let rest = erase m k in if j == k then rest else (j, w) ∷ rest

  abbrev pub values : Dictionary V → List V
  values = map (λ e. e.1)

  pub get-put :
      (m : Dictionary V) (k j : Text) (v : V)
      → get (put m k v) j ≡ (if k == j then some v else get m j)
  unfolding get put
  get-put [] k j v = refl
  get-put ((i, w) ∷ m) k j v = ground (arith, eq_iff k j, eq_iff i k, eq_iff i j, get-put m k j v)

  pub get-erase :
      (m : Dictionary V) (k j : Text) → get (erase m k) j ≡ (if k == j then none else get m j)
  unfolding get erase
  get-erase [] k j = ground arith
  get-erase ((i, w) ∷ m) k j = ground (arith, eq_iff k j, eq_iff i k, eq_iff i j, get-erase m k j)

  pub ruleset dictionary_laws = (get-put, get-erase)
