-- ===== src/Stores/Directory/Running.antt =====
-- stores/dir.rs and `rebuild_from_dir` of stores/index.rs: opening the store, applying events and
-- saving, as an implementation of `MailStore`.
pub mod Kept
pub mod Store
pub mod Opening
use mail_backup.Base.{
  ℕ, Bool, true, false, not, ◌||◌, Option, none, some, List, [], ◌∷◌, ◌++◌, Text, Bytes, codes,
  Kind, user, Result, ok, err, Error, Exec, pure, raise, lift, reads, modify, ◌>>=◌, ◌>>◌,
  starts_with, strip_suffix, ◌==◌, nat_eq, list_eq, contains, is_some, if◌then◌else◌, any,
}
use mail_backup.Externals.{Externals}
use mail_backup.Entities.{MailboxIndex}
use mail_backup.Entities
use mail_backup.Messages.{
  MailEvent, mailbox_upserted, mailbox_deleted, message_added, message_updated, message_deleted,
}
use mail_backup.Layout.{mailbox_meta_file, sidecar_suffix, message_suffix}
use mail_backup.Stores.{StoredMessage, StoreState, EventOutcome, Checkpoint, MailStore}
use mail_backup.Stores.Index.{
  StoreIndex, empty_store, get_message, insert_message, messages, diff_indexes,
}
use mail_backup.Stores.Sidecar.{Yaml, to_meta, to_info, parse_message, parse_mailbox}
use mail_backup.Stores.Disk.{Disk, slash, split_name}
use mail_backup.Stores.Disk
use mail_backup.Stores.Persistence.{Json, fresh_state, load_state, load_index}
use mail_backup.Stores.Persistence
use mail_backup.Stores.Directory.{DirMailStore, attempt}
use mail_backup.Stores.Directory.Mailboxes.{apply_mailbox_upserted, apply_mailbox_deleted}
use mail_backup.Stores.Directory.Emails.{
  apply_message_added, apply_message_updated, apply_message_deleted,
}

abbrev skipped_dirs : List Text
skipped_dirs = codes ".git" ∷ codes ".mail-backup" ∷ []

-- The names of the directories on the way to a file.
unfoldable pub dir_names : Text → Text → List Text
dir_names name [] = []
dir_names name (c ∷ path) =
    let inside = dir_names [] path in
    let onwards = dir_names (name ++ c ∷ []) path in if c == slash then name ∷ inside else onwards

unfoldable pub is_skipped : Text → Bool
unfolding dir_names
is_skipped path = any (contains skipped_dirs) (dir_names [] path)

unfoldable pub take_mailbox : Yaml → Text → Bytes → StoreIndex → Result StoreIndex Error
unfolding parse_mailbox to_info
take_mailbox y path content index = elim (parse_mailbox y content) [
  | err e ↦ err e
  | ok sidecar ↦ ok (record index {
    mailboxes =
        Entities.insert index.mailboxes
          (record { info = to_info sidecar; dir_path = Disk.parent path });
  })
]

unfoldable pub take_message : Yaml → Text → Bytes → StoreIndex → Result StoreIndex Error
unfolding parse_message to_meta insert_message
take_message y stem content index = elim (parse_message y content) [
  | err e ↦ err e
  | ok sidecar ↦ ok (
      insert_message index
        (record { meta = to_meta sidecar; path = stem ++ message_suffix; sha256 = sidecar.sha256 }))
]

unfoldable pub take_file : Yaml → Text → Bytes → StoreIndex → Result StoreIndex Error
unfolding is_skipped split_name take_mailbox take_message
take_file y path content index =
    if is_skipped path
    then ok index
    else if (split_name path).1 == mailbox_meta_file
    then take_mailbox y path content index
    else elim (strip_suffix path sidecar_suffix) [
      | none ↦ ok index
      | some stem ↦ take_message y stem content index
    ]

unfoldable pub take_files : Yaml → List (Text × Bytes) → StoreIndex → Result StoreIndex Error
unfolding take_file
take_files y [] index = ok index
take_files y ((path, content) ∷ files) index = elim (take_file y path content index) [
  | err e ↦ err e
  | ok next ↦ take_files y files next
]

-- In the order in which the disk has the files.
unfoldable pub rebuild_from_dir : Yaml → Disk → Result StoreIndex Error
unfolding take_files
rebuild_from_dir y d = take_files y d.tree empty_store

-- A call of the store's persistence.
unfoldable pub persist : Exec Disk (Unit {0}) → Exec DirMailStore (Unit {0})
persist m s = let (r, d) = m s.disk in (r, record s { disk = d })

module _ (json : Json) where
  unfoldable pub save_state : Exec DirMailStore (Unit {0})
  unfolding persist Persistence.save_state Persistence.save_index
  save_state = do
    state ← reads DirMailStore.state
    index ← reads DirMailStore.index
    persist (Persistence.save_state json state)
    persist (Persistence.save_index json index)

  unfoldable pub checkpoint : Checkpoint → Exec DirMailStore (Unit {0})
  unfolding save_state
  checkpoint c = do save_state; modify (λ s. record s { path_edits = [] })

  unfoldable pub load : Exec DirMailStore (Unit {0})
  unfolding load_state
  load = do
    saved ← reads (λ s. load_state json s.disk)
    found ← lift saved
    modify (λ s. record s { state = elim found [ none ↦ fresh_state | some state ↦ state ] })

  unfoldable pub open_without_index : Exec DirMailStore (Unit {0})
  unfolding attempt load
  open_without_index = do
    attempt "create the backup directory" (λ d. d)
    load
    modify (λ s. record s { opened = true })

  module _ (y : Yaml) where
    unfoldable pub cached_or_rebuilt : Disk → Result StoreIndex Error
    unfolding load_index rebuild_from_dir
    cached_or_rebuilt d = elim (load_index json d) [
      | some index ↦ ok index
      | none ↦ rebuild_from_dir y d
    ]

    unfoldable pub open_store : Exec DirMailStore (Unit {0})
    unfolding attempt load cached_or_rebuilt
    open_store = do
      attempt "create the backup directory" (λ d. d)
      load
      found ← reads (λ s. cached_or_rebuilt s.disk)
      index ← lift found
      modify (λ s. record s { index = index; opened = true })

    unfoldable pub rebuild_index : Exec DirMailStore (Unit {0})
    unfolding rebuild_from_dir persist Persistence.save_index
    rebuild_index = do
      found ← reads (λ s. rebuild_from_dir y s.disk)
      index ← lift found
      modify (λ s. record s { index = index })
      persist (Persistence.save_index json index)

unfoldable pub verify : Yaml → DirMailStore → Result (List Text) Error
unfolding rebuild_from_dir diff_indexes
verify y s = elim (rebuild_from_dir y s.disk) [
  | err e ↦ err e
  | ok on_disk ↦ ok (diff_indexes s.index on_disk)
]

module _ (x : Externals) (y : Yaml) where
  unfoldable pub apply_event : MailEvent → Exec DirMailStore EventOutcome
  unfolding apply_mailbox_upserted apply_mailbox_deleted apply_message_added apply_message_updated
      apply_message_deleted
  apply_event (mailbox_upserted info) = apply_mailbox_upserted x y info
  apply_event (mailbox_deleted id) = apply_mailbox_deleted id
  apply_event (message_added message raw) = apply_message_added x y message.meta raw
  apply_event (message_updated message) = apply_message_updated x y message.meta
  apply_event (message_deleted id) = apply_message_deleted id

  unfoldable pub apply : List MailEvent → Exec DirMailStore (List EventOutcome)
  unfolding apply_event
  apply [] = pure []
  apply (event ∷ events) = do
    outcome ← apply_event event
    outcomes ← apply events
    pure (outcome ∷ outcomes)

  unfoldable pub dir_store : Json → MailStore DirMailStore
  unfolding open_store get_message messages apply checkpoint save_state
  dir_store json = record {
    open_store = open_store json y;
    state = DirMailStore.state;
    set_state = λ state s. record s { state = state };
    mailboxes = λ s. s.index.mailboxes;
    lookup = λ id s. get_message s.index id;
    list = λ s. messages s.index;
    apply = apply;
    checkpoint = checkpoint json;
    save_state = save_state json;
  }
