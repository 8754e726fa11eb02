-- ===== src/Base/Texts.antt =====
-- A text (`String`, `&str`, a relative path) as the list of its code points.
use Prim.Native.Nat.{ℕ}
use Prim.Native.Char.{code}
use Prim.Native.String.{String}
use mathlib.Core.Path.{◌≡◌, refl, ap}
use mathlib.Core.Bool.{Bool, true, false}
use mathlib.Core.Option.{Option, none, some}
use mathlib.Core.List.{List, [], ◌∷◌, ◌++◌}
use native.Mathlib.Omega.{arith}
use mathlib.Core.Logic.{◌≢◌, inl, inr}
use mail_backup.Base.Tests.{if◌then◌else◌, Option-cases}
use mail_backup.Base.Lists.{length, length-append}
use mail_backup.Base.Equality.{◌==◌, nat_eq, list_eq, eq_iff}

abbrev pub Text : Type 0
Text = List ℕ

abbrev pub Bytes : Type 0
Bytes = List ℕ

abbrev pub codes : String → Text
codes String.[] = []
codes (String.◌∷◌ c s) = code c ∷ codes s

-- `str::strip_prefix`
unfoldable pub strip_prefix : Text → Text → Option Text
strip_prefix s [] = some s
strip_prefix [] (p ∷ ps) = none
strip_prefix (c ∷ s) (p ∷ ps) = let rest = strip_prefix s ps in if c == p then rest else none

-- `str::starts_with`
abbrev pub starts_with : Text → Text → Bool
starts_with s p = elim (strip_prefix s p) [ none ↦ false | some rest ↦ true ]

pub strip_prefix-append : (p s : Text) → strip_prefix (p ++ s) p ≡ some s
unfolding strip_prefix
strip_prefix-append [] s = refl
strip_prefix-append (c ∷ p) s = ground (arith, strip_prefix-append p s)

pub append_of_strip_prefix : (s p rest : Text) → strip_prefix s p ≡ some rest → s ≡ p ++ rest
unfolding strip_prefix
append_of_strip_prefix s [] rest h = ground arith
append_of_strip_prefix [] (c ∷ p) rest h = cc
append_of_strip_prefix (d ∷ s) (c ∷ p) rest h = ground (arith, append_of_strip_prefix s p rest)

-- `str::strip_suffix`
unfoldable pub strip_suffix : Text → Text → Option Text
strip_suffix [] p = if p == [] then some [] else none
strip_suffix (c ∷ s) p =
    let rest = strip_suffix s p in
    if (c ∷ s) == p then some [] else elim rest [ none ↦ none | some t ↦ some (c ∷ t) ]

longer-ne : (c : ℕ) (s p : Text) → (c ∷ (s ++ p)) ≢ p
longer-ne c s p e = omega (arith, length-append s p, ap length e)

pub strip_suffix-append : (s p : Text) → strip_suffix (s ++ p) p ≡ some s
unfolding strip_suffix
strip_suffix-append [] [] = ground (arith, eq_iff {A = Text} [] [])
strip_suffix-append [] (c ∷ p) = ground (arith, eq_iff (c ∷ p) (c ∷ p))
strip_suffix-append (c ∷ s) p =
    ground (arith, eq_iff (c ∷ (s ++ p)) p, longer-ne c s p, strip_suffix-append s p)

pub append_of_strip_suffix : (s p rest : Text) → strip_suffix s p ≡ some rest → s ≡ rest ++ p
unfolding strip_suffix
append_of_strip_suffix [] p rest h = ground (arith, eq_iff p [])
append_of_strip_suffix (c ∷ s) p rest h = elim (Option-cases (strip_suffix s p)) [
  | inl e ↦ ground (arith, eq_iff (c ∷ s) p)
  | inr (t, e) ↦ ground (arith, eq_iff (c ∷ s) p, append_of_strip_suffix s p t)
]
