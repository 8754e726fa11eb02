-- ===== src/Stores/Disk.antt =====
-- What the stores use of `std::fs` and `std::path`. A disk holds the files of the mail tree by their
-- paths from the store's root, and apart from them the files of the state directory by their names.
use mail_backup.Base.{
  ℕ, Bool, false, ◌||◌, is_some, is_empty, none, some, List, [], ◌∷◌, ◌++◌, map, any, contains,
  Text, Bytes, codes, starts_with, strip_prefix, Dictionary, get, put, erase, ◌==◌, nat_eq, list_eq,
  if◌then◌else◌,
}

-- Each entry of `faults` says whether the next operation that can fail does so.
pub record Disk : Type 0 where
  pub tree : Dictionary Bytes
  pub dirs : List Text
  pub state_dir : Dictionary Bytes
  pub faults : List Bool

abbrev pub slash : ℕ
slash = b'/'

abbrev pub has_slash : Text → Bool
has_slash path = contains path slash

-- `Path::parent`, of a path from the root; the root is empty.
unfoldable pub parent : Text → Text
parent [] = []
parent (c ∷ path) = let rest = parent path in if has_slash path then c ∷ rest else []

-- A file name without what stands from its last dot on; a dot in front is part of the name.
unfoldable pub without_extension : Text → Text
without_extension [] = []
without_extension (c ∷ name) =
    let rest = without_extension name in
    if contains name b'.' then c ∷ rest else if c == b'.' then [] else c ∷ name

-- `Path::with_extension`
unfoldable pub file_stem : Text → Text
file_stem [] = []
file_stem (c ∷ name) = c ∷ without_extension name

-- The name after the last slash, and what stands before it.
unfoldable pub split_name : Text → Text × Text
split_name [] = ([], [])
split_name (c ∷ path) =
    let (dir, name) = split_name path in
    if has_slash path
    then (c ∷ dir, name)
    else if c == slash
    then (c ∷ [], path)
    else ([], c ∷ path)

unfoldable pub with_extension : Text → Text → Text
unfolding split_name file_stem without_extension
with_extension path extension =
    let (dir, name) = split_name path in dir ++ file_stem name ++ codes "." ++ extension

abbrev pub under : Text → Text → Bool
under dir path = starts_with path (dir ++ codes "/")

-- The directories on the way to `dir`, itself included.
unfoldable pub prefixes : Text → Text → List Text
prefixes before [] = before ∷ []
prefixes before (c ∷ path) =
    let rest = prefixes (before ++ c ∷ []) path in if c == slash then before ∷ rest else rest

unfoldable pub with_dirs : List Text → List Text → List Text
with_dirs [] dirs = dirs
with_dirs (d ∷ ds) dirs =
    let rest = with_dirs ds dirs in if is_empty d || contains dirs d then rest else d ∷ rest

module _ (d : Disk) where
  abbrev pub file_exists : Text → Bool
  file_exists path = is_some (get d.tree path)

  -- `Path::exists`
  unfoldable pub exists : Text → Bool
  exists path = is_some (get d.tree path) || contains d.dirs path

  -- `fs::read(..).map(|existing| existing == content).unwrap_or(false)`
  unfoldable pub file_matches : Text → Bytes → Bool
  file_matches path content = elim (get d.tree path) [ none ↦ false | some c ↦ c == content ]

  unfoldable pub make_dirs : Text → Disk
  unfolding with_dirs prefixes
  make_dirs path = record d { dirs = with_dirs (prefixes [] path) d.dirs }

  abbrev pub write : Text → Bytes → Disk
  write path content = record d { tree = put d.tree path content }

  abbrev pub remove : Text → Disk
  remove path = record d { tree = erase d.tree path }

  -- `fs::rename` of a file, over whatever is at the target.
  unfoldable pub rename : Text → Text → Disk
  rename from to = elim (get d.tree from) [
    | none ↦ d
    | some content ↦ record d { tree = put (erase d.tree from) to content }
  ]

-- Where a path goes when the directory `from` becomes `to`.
unfoldable pub moved : Text → Text → Text → Text
moved from to path = if path == from then to else elim (strip_prefix path (from ++ codes "/")) [
  | none ↦ path
  | some rest ↦ to ++ codes "/" ++ rest
]

unfoldable pub moved_files : Text → Text → Dictionary Bytes → Dictionary Bytes
unfolding moved
moved_files from to [] = []
moved_files from to ((path, content) ∷ files) =
    (moved from to path, content) ∷ moved_files from to files

-- `fs::rename` of a directory, with all that is below it.
unfoldable pub rename_tree : Text → Text → Disk → Disk
unfolding moved_files moved
rename_tree from to d = record d {
  tree = moved_files from to d.tree;
  dirs = map (moved from to) d.dirs;
}

-- Whether a directory holds anything.
unfoldable pub has_contents : Text → Disk → Bool
has_contents dir d = any (λ (f : Text × Bytes). under dir f.0) d.tree || any (under dir) d.dirs
