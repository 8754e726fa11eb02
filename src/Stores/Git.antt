-- ===== src/Stores/Git.antt =====
-- stores/git.rs: `GitMailStore`, which keeps the mail tree of a directory store in a git repository.
pub mod Opening
pub mod Commits
pub mod Laws
pub mod Steps
pub mod Finals
pub mod Edits
pub mod Tree
pub mod Heads
pub mod History
pub mod Committed
pub mod Kept
pub mod Store
mod Examples
use mail_backup.Base.{
  ℕ, zero, suc, ◌+◌, ◌*◌, Bool, true, false, not, Option, none, some, List, [], ◌∷◌, ◌++◌, Text,
  Bytes, codes, String, Result, ok, err, Error, Exec, pure, raise, lift, reads, modify, after,
  ◌>>=◌, ◌>>◌, when, is_some, is_empty, strip_suffix, ◌==◌, nat_eq, list_eq, option_eq,
  if◌then◌else◌, Dictionary, get, put,
}
use mail_backup.Externals.{Externals}
use mail_backup.Entities
use mail_backup.Messages.{MailEvent}
use mail_backup.Layout.{mailbox_meta_file, sidecar_suffix, message_suffix}
use mail_backup.Stores.{
  StoreState, EventOutcome, SnapshotKind, backfill, live, Checkpoint, Description, PathEdit, upsert,
  remove, MailStore,
}
use mail_backup.Stores.Index.{
  StoreIndex, empty_store, get_message, insert_message, messages, diff_indexes,
}
use mail_backup.Stores.Sidecar.{Yaml, to_meta, to_info, parse_message, parse_mailbox}
use mail_backup.Stores.Disk.{Disk}
use mail_backup.Stores.Disk
use mail_backup.Stores.Persistence.{Json, load_index}
use mail_backup.Stores.Directory.{DirMailStore, attempt, panic, set_index, take_path_edits}
use mail_backup.Stores.Directory.Running
use mail_backup.Stores.Directory.Running.{take_message, rebuild_from_dir}

-- A moment is a number of seconds since 1970; its offset is always +0000.
pub record Signature : Type 0 where
  pub name : Text
  pub email : Text
  pub time : ℕ

-- The text of a commit, by what it is formatted from.
pub data Title : Type 0 where
  initialize : Title
  backup_for : ℕ → Description → Title

pub record Commit : Type 0 where
  pub committer : Signature
  pub author : Signature
  pub message : Title
  pub tree : Text
  pub parents : List Text

pub record TreeEntry : Type 0 where
  pub filename : Text
  pub is_tree : Bool
  pub object_id : Text

-- What the store uses of the crate `gix`. `G` is a repository, with what its handle has read, and `E`
-- a tree that is being edited.
pub record Gix (G E : Type 0) : Type 0 where
  -- Whether `.git` is there, and `gix::init` and `gix::open`.
  pub exists : G → Bool
  pub init : Exec G (Unit {0})
  pub open_repository : Exec G (Unit {0})
  pub has_committer : G → Bool
  -- `update_config` with one list of settings.
  pub set_config : List (Text × Text) → Exec G (Unit {0})
  pub head_id : G → Result Text Error
  pub head_tree_id : G → Result Text Error
  pub empty_tree : Text
  pub head_name : G → Result (Option Text) Error
  pub find_tree : G → Text → Result (List TreeEntry) Error
  pub find_object : G → Text → Result Bytes Error
  pub find_commit : G → Text → Result Commit Error
  pub write_blob : Bytes → Exec G Text
  pub edit_tree : Text → G → Result E Error
  pub upsert_entry : Text → Text → E → Result E Error
  pub remove_entry : Text → E → Result E Error
  pub write_tree : E → Exec G Text
  -- A commit that becomes the HEAD, and one that does not.
  pub commit_as : Commit → Exec G Text
  pub new_commit_as : Commit → Exec G Text
  -- The name of the branch, the commit that it must be at, and the new one.
  pub edit_reference : Text → Text → Text → Exec G (Unit {0})
  -- `index_from_tree` and `write`
  pub refresh_index : Text → Exec G (Unit {0})

pub record GitMailStore (G : Type 0) : Type 0 where
  pub inner : DirMailStore
  pub repo : G
  -- Whether `repo` has been opened.
  pub opened : Bool
  pub commit_name : Text
  pub commit_email : Text
  pub pending : List PathEdit
  -- What `Utc::now` gives.
  pub now : ℕ

abbrev or_text : Option Text → Text → Text
or_text none t = t
or_text (some s) t = s

unfoldable pub new :
    {G : Type 0} → DirMailStore → G → ℕ → Option Text → Option Text → GitMailStore G
new inner repo now commit_name commit_email = record {
  inner = inner;
  repo = repo;
  opened = false;
  commit_name = or_text commit_name (codes "mail-backup");
  commit_email = or_text commit_email (codes "mail-backup@sierrasoftworks.github.io");
  pending = [];
  now = now;
}

-- The final edit of each path: whether it is there.
unfoldable pub finals : List PathEdit → Dictionary Bool → Dictionary Bool
finals [] m = m
finals (upsert path ∷ edits) m = finals edits (put m path true)
finals (remove path ∷ edits) m = finals edits (put m path false)

unfoldable pub commit_message : Checkpoint → Title
commit_message c = backup_for c.date c.description

abbrev seconds_per_day : ℕ
seconds_per_day = 86400

-- `and_hms_opt(23, 59, 59)`
unfoldable pub end_of_day : ℕ → ℕ
end_of_day date = date * seconds_per_day + 86399

abbrev pub first : {A B : Type 0} → Result A Error → (A → Result B Error) → Result B Error
first (ok a) f = f a
first (err e) f = err e

abbrev pub found : {A : Type 0} → Result A Error → Option A
found (ok a) = some a
found (err e) = none

module _ {G E : Type 0} (gix : Gix G E) where
  -- A call of the repository, which has to be open.
  unfoldable pub repository : {A : Type 0} → Exec G A → Exec (GitMailStore G) A
  repository m s =
      if s.opened then (let (r, g) = m s.repo in (r, record s { repo = g })) else (err panic, s)

  -- A call of the directory store.
  unfoldable pub within : {A : Type 0} → Exec DirMailStore A → Exec (GitMailStore G) A
  within m s = let (r, d) = m s.inner in (r, record s { inner = d })

  unfoldable pub head_id : Exec (GitMailStore G) (Option Text)
  unfolding repository
  head_id = repository (reads (λ g. found (gix.head_id g)))

  abbrev pub tree_of_head : G → Text
  tree_of_head g = elim (gix.head_tree_id g) [ ok id ↦ id | err e ↦ gix.empty_tree ]

  unfoldable pub head_tree_id : Exec (GitMailStore G) Text
  unfolding repository
  head_tree_id = repository (reads tree_of_head)

  unfoldable pub signature : GitMailStore G → ℕ → Signature
  signature s time = record { name = s.commit_name; email = s.commit_email; time = time }
