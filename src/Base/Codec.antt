-- ===== src/Base/Codec.antt =====
-- Values as sequences of numbers, that are read back.
use Prim.Native.Nat.{ℕ, zero, suc}
use mathlib.Core.Path.{◌≡◌, refl, ap, ◌∙◌}
use mathlib.Core.Option.{Option, none, some}
use mathlib.Core.List.{List, [], ◌∷◌}
use native.Mathlib.Omega.{arith}
use mail_backup.Base.Lists.{length}
use mail_backup.Base.Texts.{Text, Bytes}

pub record Codec (A : Type 0) : Type 0 where
  pub write_before : A → Bytes → Bytes
  pub read_first : Bytes → Option (A × Bytes)
  pub back : (a : A) (rest : Bytes) → read_first (write_before a rest) ≡ some (a, rest)

module _ {A : Type 0} (c : Codec A) where
  abbrev pub write_whole : A → Bytes
  write_whole a = c.write_before a []

  abbrev pub read_whole : Bytes → Option A
  read_whole b = elim (c.read_first b) [ none ↦ none | some (a, rest) ↦ some a ]

  pub read_whole-write_whole : (a : A) → read_whole (write_whole a) ≡ some a
  read_whole-write_whole a =
      ap (λ (r : Option (A × Bytes)). elim r [ none ↦ none | some (b, rest) ↦ some b ])
        (c.back a [])

  -- Another type with the same values.
  abbrev pub via : {B : Type 0} (to : A → B) (from : B → A) → ((b : B) → to (from b) ≡ b) → Codec B
  via to from same = record {
    write_before = λ b rest. c.write_before (from b) rest;
    read_first = λ b. elim (c.read_first b) [ none ↦ none | some (a, rest) ↦ some (to a, rest) ];
    back = λ b rest.
        ap (λ r. elim r [ none ↦ none | some (a, rest) ↦ some (to a, rest) ]) (c.back (from b) rest)
        ∙ ap (λ (b' : _). some (b', rest)) (same b);
  }

  unfoldable pub write_many : List A → Bytes → Bytes
  write_many [] rest = rest
  write_many (a ∷ xs) rest = c.write_before a (write_many xs rest)

  unfoldable pub read_many : ℕ → Bytes → Option (List A × Bytes)
  read_many zero b = some ([], b)
  read_many (suc n) b = elim (c.read_first b) [
    | none ↦ none
    | some (a, rest) ↦ elim (read_many n rest) [
      | none ↦ none
      | some (xs, rest) ↦ some (a ∷ xs, rest)
    ]
  ]

  pub read_many-write_many :
      (xs : List A) (rest : Bytes) → read_many (length xs) (write_many xs rest) ≡ some (xs, rest)
  unfolding read_many write_many
  read_many-write_many [] rest = refl
  read_many-write_many (a ∷ xs) rest =
      ground (arith, c.back a (write_many xs rest), read_many-write_many xs rest)

module _ {A : Type 0} (c : Codec A) where
  unfoldable pub write_option : Option A → Bytes → Bytes
  write_option none rest = 0 ∷ rest
  write_option (some a) rest = 1 ∷ c.write_before a rest

  unfoldable pub read_some : Bytes → Option (Option A × Bytes)
  read_some b = elim (c.read_first b) [ none ↦ none | some (a, rest) ↦ some (some a, rest) ]

  unfoldable pub read_option : Bytes → Option (Option A × Bytes)
  unfolding read_some
  read_option [] = none
  read_option (zero ∷ rest) = some (none, rest)
  read_option (suc n ∷ rest) = read_some rest

  pub read_option-write_option :
      (known : Option A) (rest : Bytes) → read_option (write_option known rest) ≡ some (known, rest)
  unfolding read_option write_option
  read_option-write_option none rest = refl
  read_option-write_option (some a) rest = ground (arith, c.back a rest)

module _ {A B : Type 0} (c : Codec A) (d : Codec B) where
  unfoldable pub read_pair : Bytes → Option ((A × B) × Bytes)
  read_pair b = elim (c.read_first b) [
    | none ↦ none
    | some (a, rest) ↦ elim (d.read_first rest) [
      | none ↦ none
      | some (b, rest) ↦ some ((a, b), rest)
    ]
  ]

  pub read_pair-write_before :
      (p : A × B) (rest : Bytes)
      → read_pair (c.write_before p.0 (d.write_before p.1 rest)) ≡ some (p, rest)
  unfolding read_pair
  read_pair-write_before p rest =
      ground (arith, c.back p.0 (d.write_before p.1 rest), d.back p.1 rest)

abbrev pub number_codec : Codec ℕ
number_codec = record {
  write_before = λ n rest. n ∷ rest;
  read_first = λ b. elim b [ [] ↦ none | n ∷ rest ↦ some (n, rest) ];
  back = λ n rest. refl;
}

abbrev pub list_codec : {A : Type 0} → Codec A → Codec (List A)
list_codec c = record {
  write_before = λ xs rest. length xs ∷ write_many c xs rest;
  read_first = λ b. elim b [ [] ↦ none | n ∷ rest ↦ read_many c n rest ];
  back = λ xs rest. read_many-write_many c xs rest;
}

abbrev pub option_codec : {A : Type 0} → Codec A → Codec (Option A)
option_codec c = record {
  write_before = write_option c;
  read_first = read_option c;
  back = read_option-write_option c;
}

abbrev pub pair_codec : {A B : Type 0} → Codec A → Codec B → Codec (A × B)
pair_codec c d = record {
  write_before = λ p rest. c.write_before p.0 (d.write_before p.1 rest);
  read_first = read_pair c d;
  back = read_pair-write_before c d;
}

abbrev pub text_codec : Codec Text
text_codec = list_codec number_codec
