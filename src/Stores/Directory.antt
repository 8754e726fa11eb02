-- ===== src/Stores/Directory.antt =====
-- stores/dir.rs: `DirMailStore`, its files and its directories.
pub mod Mailboxes
pub mod Emails
pub mod Running
pub mod Kept
pub mod Writing
pub mod Naming
pub mod Delivery
pub mod Deletion
pub mod Redelivery
pub mod Deferral
use mail_backup.Base.{
  ℕ, Bool, true, false, not, ◌||◌, Option, none, some, List, [], ◌∷◌, ◌++◌, map, filter, contains,
  Text, Bytes, codes, String, Kind, system, Result, ok, err, Error, Exec, pure, raise, reads,
  modify, ◌>>=◌, ◌>>◌, when, is_some, is_empty, strip_prefix, ◌==◌, nat_eq, list_eq, if◌then◌else◌,
  get, put,
}
use mail_backup.Externals.{Externals}
use mail_backup.Entities.{MailboxInfo, MailboxRecord, find, iter}
use mail_backup.Layout.{unfiled_dir, mailbox_meta_file}
use mail_backup.Stores.{StoreState, PathEdit, upsert, remove}
use mail_backup.Stores.Index.{StoreIndex, empty_store}
use mail_backup.Stores.Sidecar.{Yaml, parse_mailbox}
use mail_backup.Stores.Disk.{Disk, slash, parent, exists, make_dirs, write, rename}
use mail_backup.Stores.Disk
use mail_backup.Stores.Persistence.{fresh_state, attempt_with, temporary}

pub record DirMailStore : Type 0 where
  pub disk : Disk
  pub state : StoreState
  pub index : StoreIndex
  pub path_edits : List PathEdit
  pub opened : Bool

unfoldable pub new : Disk → DirMailStore
new d = record {
  disk = d;
  state = fresh_state;
  index = empty_store;
  path_edits = [];
  opened = false;
}

-- A call of the file system that fails where the disk's next fault says so.
unfoldable pub attempt : String → (Disk → Disk) → Exec DirMailStore (Unit {0})
unfolding attempt_with
attempt what f s =
    let (r, d) = attempt_with s.disk.faults what f s.disk in (r, record s { disk = d })

unfoldable pub push_edits : List PathEdit → Exec DirMailStore (Unit {0})
push_edits edits s = (ok tt, record s { path_edits = s.path_edits ++ edits })

unfoldable pub set_index : StoreIndex → Exec DirMailStore (Unit {0})
set_index index s = (ok tt, record s { index = index })

unfoldable pub take_path_edits : Exec DirMailStore (List PathEdit)
take_path_edits s = (ok s.path_edits, record s { path_edits = [] })

-- A call whose failure is only logged.
unfoldable pub ignored : Exec DirMailStore (Unit {0}) → Exec DirMailStore (Unit {0})
ignored m s = (ok tt, (m s).1)

-- An `expect` that does not hold.
abbrev pub panic : Error
panic = record { kind = system; what = "panic" }

unfoldable pub write_file : Text → Bytes → Exec DirMailStore (Unit {0})
unfolding attempt make_dirs rename exists push_edits
write_file rel content = do
  attempt "create the directory" (λ d. make_dirs d (parent rel))
  attempt "write" (λ d. Disk.write d (temporary rel) content)
  present ← reads (λ s. exists s.disk rel)
  when present (attempt "replace" (λ d. Disk.remove d rel))
  attempt "finalize writing" (λ d. rename d (temporary rel) rel)
  push_edits (upsert rel ∷ [])

unfoldable pub remove_file : Text → Exec DirMailStore (Unit {0})
unfolding attempt exists push_edits
remove_file rel = do
  present ← reads (λ s. exists s.disk rel)
  when present (attempt "remove" (λ d. Disk.remove d rel))
  push_edits (remove rel ∷ [])

unfoldable pub join_dir : Text → Text → Text
join_dir prefix segment = if is_empty prefix then segment else prefix ++ codes "/" ++ segment

abbrev pub meta_path : Text → Text
meta_path dir = dir ++ codes "/" ++ mailbox_meta_file

module _ (x : Externals) where
  unfoldable pub hex_digest : Bytes → Text
  hex_digest content = x.sha256_hex content

  -- The folded name of a mailbox's directory, where it is directly under the prefix.
  unfoldable pub taken_name : Text → MailboxRecord → Option Text
  taken_name prefix r =
      elim (if is_empty prefix
        then some r.dir_path
        else strip_prefix r.dir_path (prefix ++ codes "/")) [
          | none ↦ none
          | some rest ↦
              if is_empty rest || contains rest slash then none else some (x.to_lowercase rest)
        ]

  unfoldable pub taken_names : Text → List MailboxRecord → List Text
  unfolding taken_name
  taken_names prefix [] = []
  taken_names prefix (r ∷ rs) =
      let rest = taken_names prefix rs in
      elim (taken_name prefix r) [ none ↦ rest | some name ↦ name ∷ rest ]

  unfoldable pub sibling_dir_names : StoreIndex → Text → Text → List Text
  unfolding taken_names
  sibling_dir_names index parent_prefix exclude_id =
      let taken =
        taken_names parent_prefix
          (filter (λ r. not (r.info.id == exclude_id)) (iter index.mailboxes)) in
      if is_empty parent_prefix then x.to_lowercase unfiled_dir ∷ taken else taken

unfoldable pub parent_prefix : StoreIndex → MailboxInfo → Text
parent_prefix index info = elim info.parent_id [
  | none ↦ []
  | some parent_id ↦ elim (find index.mailboxes parent_id) [ none ↦ [] | some r ↦ r.dir_path ]
]

-- Whether a sidecar names another mailbox, or cannot be parsed.
unfoldable pub names_other : Yaml → Text → Bytes → Bool
unfolding parse_mailbox
names_other y mailbox_id content = elim (parse_mailbox y content) [
  | err e ↦ true
  | ok sidecar ↦ not (sidecar.id == mailbox_id)
]

unfoldable pub dir_belongs_to_other : Yaml → Disk → Text → Text → Bool
unfolding names_other
dir_belongs_to_other y d rel mailbox_id = elim (get d.tree (meta_path rel)) [
  | none ↦ false
  | some content ↦ names_other y mailbox_id content
]
