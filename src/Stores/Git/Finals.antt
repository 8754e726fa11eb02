-- ===== src/Stores/Git/Finals.antt =====
-- stores/git.rs: the final edit of each path, in `build_tree`.
use mail_backup.Base.{
  Bool, true, false, Option, none, some, List, [], ◌∷◌, Text, ◌==◌, nat_eq, list_eq, eq_iff,
  if◌then◌else◌, Dictionary, get, put, get-put, ◌≡◌, refl, ◌∙◌, arith, inl, inr, Bool-cases,
}
use mail_backup.Stores.{PathEdit, upsert, remove}
use mail_backup.Stores.Git.{finals}

abbrev edited_path : PathEdit → Text
edited_path (upsert path) = path
edited_path (remove path) = path

abbrev is_upsert : PathEdit → Bool
is_upsert (upsert path) = true
is_upsert (remove path) = false

-- The last edit of a path: whether it wrote the file.
unfoldable pub last_edit : List PathEdit → Text → Option Bool
last_edit [] path = none
last_edit (e ∷ es) path = elim (last_edit es path) [
  | some b ↦ some b
  | none ↦ if edited_path e == path then some (is_upsert e) else none
]

abbrev or_else : Option Bool → Option Bool → Option Bool
or_else none o = o
or_else (some b) o = some b

pub get-finals :
    (es : List PathEdit) (m : Dictionary Bool) (path : Text)
    → get (finals es m) path ≡ or_else (last_edit es path) (get m path)
unfolding finals last_edit
get-finals [] m path = refl
get-finals (upsert p ∷ es) m path =
    ground (arith, get-finals es (put m p true) path, get-put m p path true)
get-finals (remove p ∷ es) m path =
    ground (arith, get-finals es (put m p false) path, get-put m p path false)

-- No path has two entries.
abbrev pub Unique : Dictionary Bool → Type 0
Unique [] = Unit {0}
Unique ((k, v) ∷ m) = (get m k ≡ none) × Unique m

put-Unique : (m : Dictionary Bool) (k : Text) (v : Bool) → Unique m → Unique (put m k v)
unfolding put get
put-Unique [] k v u = (refl, tt)
put-Unique ((j, w) ∷ m) k v u = elim (Bool-cases (j == k)) [
  | inl e ↦ rw e (ground (arith, eq_iff j k), u.1)
  | inr e ↦ rw e (get-put m k j v ∙ ground (arith, eq_iff j k, eq_iff k j), put-Unique m k v u.1)
]

pub finals-Unique : (es : List PathEdit) (m : Dictionary Bool) → Unique m → Unique (finals es m)
unfolding finals
finals-Unique [] m u = u
finals-Unique (upsert p ∷ es) m u = finals-Unique es (put m p true) (put-Unique m p true u)
finals-Unique (remove p ∷ es) m u = finals-Unique es (put m p false) (put-Unique m p false u)
