-- ===== src/Base/Everywhere.antt =====
-- Predicates on all elements of a list.
use mathlib.Core.Path.{◌≡◌, subst}
use mathlib.Core.Bool.{true}
use mathlib.Core.Logic.{inl, inr}
use mathlib.Core.List.{List, [], ◌∷◌, ◌++◌, map}
use mail_backup.Base.Lists.{All, contains, is_empty}
use mail_backup.Base.Tests.{Bool-cases}
use mail_backup.Base.Equality.{◌==◌, eq_iff, list_eq, nat_eq}
use mail_backup.Base.Texts.{Text}
use native.Mathlib.Omega.{arith}

pub All-first : {A : Type 0} (P : A → Type 0) (xs ys : List A) → All P (xs ++ ys) → All P xs
All-first P [] ys h = tt
All-first P (x ∷ xs) ys h = (h.0, All-first P xs ys h.1)

pub All-of_map :
    {A B : Type 0} (P : B → Type 0) (f : A → B) (xs : List A)
    → All P (map f xs)
    → All (λ x. P (f x)) xs
All-of_map P f [] h = tt
All-of_map P f (x ∷ xs) h = (h.0, All-of_map P f xs h.1)

pub All-second : {A : Type 0} (P : A → Type 0) (xs ys : List A) → All P (xs ++ ys) → All P ys
All-second P [] ys h = h
All-second P (x ∷ xs) ys h = All-second P xs ys h.1

pub All-contains :
    (P : Text → Type 0) (xs : List Text) (id : Text) → All P xs → contains xs id ≡ true → P id
unfolding contains
All-contains P [] id h k = absurd (ground arith)
All-contains P (x ∷ xs) id h k = elim (Bool-cases (x == id)) [
  | inl e ↦ subst P ((eq_iff x id).0 e) h.0
  | inr e ↦ All-contains P xs id h.1 (ground arith)
]

pub none_left : (P : Text → Type 0) (xs ys : List Text) → is_empty (xs ++ ys) ≡ true → All P ys
none_left P [] [] h = tt
none_left P [] (y ∷ ys) h = absurd (ground arith)
none_left P (x ∷ xs) ys h = absurd (ground arith)

pub All-map :
    {A : Type 0} (P Q : A → Type 0) (xs : List A) → ((x : A) → P x → Q x) → All P xs → All Q xs
All-map P Q [] f h = tt
All-map P Q (x ∷ xs) f h = (f x h.0, All-map P Q xs f h.1)
