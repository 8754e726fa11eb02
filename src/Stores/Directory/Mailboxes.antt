-- ===== src/Stores/Directory/Mailboxes.antt =====
-- stores/dir.rs: what the store does on the events of mailboxes.
use mail_backup.Base.{
  Bool, true, false, not, ◌||◌, Option, none, some, List, [], ◌∷◌, ◌++◌, filter, Text, codes,
  system, Exec, pure, raise, reads, ◌>>=◌, ◌>>◌, when, is_empty, strip_prefix, ◌==◌, nat_eq,
  list_eq, option_eq, if◌then◌else◌,
}
use mail_backup.Externals.{Externals}
use mail_backup.Entities.{
  MailboxInfo, MailboxRecord, MailboxIndex, find, iter, rebase_dir_paths, info_eq,
}
use mail_backup.Entities
use mail_backup.Layout.{assign_dir_name, sidecar_path}
use mail_backup.Stores.{
  StoredMessage, EventOutcome, added, moved, updated, removed, unchanged, skipped, PathEdit, upsert,
  remove,
}
use mail_backup.Stores.Index.{
  StoreIndex, get_message, insert_message, messages_under, has_mailboxes_under,
}
use mail_backup.Stores.Sidecar.{Yaml, new_mailbox, mailbox_bytes}
use mail_backup.Stores.Disk.{parent, exists, make_dirs, rename_tree, has_contents}
use mail_backup.Stores.Directory.{
  DirMailStore, attempt, push_edits, set_index, ignored, panic, write_file, remove_file, join_dir,
  meta_path, sibling_dir_names, parent_prefix, dir_belongs_to_other,
}

-- The directory of a new mailbox.
unfoldable pub new_dir_path : Externals → Yaml → MailboxInfo → DirMailStore → Text
unfolding parent_prefix sibling_dir_names assign_dir_name join_dir dir_belongs_to_other
new_dir_path x y info s =
    let prefix = parent_prefix s.index info in
    let taken = sibling_dir_names x s.index prefix info.id in
    let segment = assign_dir_name x info.name info.id taken in
    if dir_belongs_to_other y s.disk (join_dir prefix segment) info.id
    then join_dir prefix (assign_dir_name x info.name info.id (x.to_lowercase segment ∷ taken))
    else join_dir prefix segment

-- The directory of a mailbox whose name or parent has changed.
unfoldable pub changed_dir_path : Externals → MailboxInfo → StoreIndex → Text
unfolding parent_prefix sibling_dir_names assign_dir_name join_dir
changed_dir_path x info index =
    let prefix = parent_prefix index info in
    join_dir prefix (assign_dir_name x info.name info.id (sibling_dir_names x index prefix info.id))

-- `fs::rename` of a directory fails where the target holds anything.
unfoldable pub move_dir : Text → Text → Exec DirMailStore (Unit {0})
unfolding attempt has_contents rename_tree
move_dir from to = do
  full ← reads (λ s. has_contents to s.disk)
  if full
      then raise (record { kind = system; what = "the directory is not empty" })
      else attempt "rename the mailbox directory" (rename_tree from to)

unfoldable pub relocate_dir : Text → Text → Exec DirMailStore (Unit {0})
unfolding attempt exists make_dirs move_dir
relocate_dir old_dir new_dir = do
  old_exists ← reads (λ s. exists s.disk old_dir)
  new_exists ← reads (λ s. exists s.disk new_dir)
  if old_exists
      then (attempt "create the directory" (λ d. make_dirs d (parent new_dir))
          >> move_dir old_dir new_dir)
      else when (not new_exists) (attempt "create the directory" (λ d. make_dirs d new_dir))

-- A message's new path, with what is recorded of its two files.
unfoldable pub relocate_to : StoredMessage → Text → Exec DirMailStore (Unit {0})
unfolding push_edits set_index insert_message sidecar_path
relocate_to message new_path = do
  push_edits (
      remove message.path
      ∷ remove (sidecar_path message.path)
      ∷ upsert new_path
      ∷ upsert (sidecar_path new_path)
      ∷ [])
  index ← reads DirMailStore.index
  set_index (insert_message index (record message { path = new_path }))

unfoldable pub relocate_message : Text → Text → Option StoredMessage → Exec DirMailStore (Unit {0})
unfolding relocate_to
relocate_message old_dir new_dir none = raise panic
relocate_message old_dir new_dir (some message) =
    elim (strip_prefix message.path (old_dir ++ codes "/")) [
      | none ↦ raise panic
      | some rest ↦ relocate_to message (new_dir ++ codes "/" ++ rest)
    ]

unfoldable pub relocate_messages : Text → Text → List Text → Exec DirMailStore (Unit {0})
unfolding relocate_message get_message
relocate_messages old_dir new_dir [] = pure tt
relocate_messages old_dir new_dir (id ∷ ids) = do
  message ← reads (λ s. get_message s.index id)
  relocate_message old_dir new_dir message
  relocate_messages old_dir new_dir ids

-- What is recorded of the metadata files of the mailboxes below `old_dir`.
unfoldable pub relocated_metas : Text → Text → List MailboxRecord → List PathEdit
relocated_metas old_dir new_dir [] = []
relocated_metas old_dir new_dir (r ∷ rs) =
    let others = relocated_metas old_dir new_dir rs in
    elim (strip_prefix r.dir_path (old_dir ++ codes "/")) [
      | none ↦ others
      | some rest ↦
          remove (meta_path r.dir_path) ∷ upsert (meta_path (new_dir ++ codes "/" ++ rest)) ∷ others
    ]

unfoldable pub rename_dir : Text → Text → Exec DirMailStore (Unit {0})
unfolding relocate_dir relocate_messages push_edits relocated_metas set_index messages_under
    rebase_dir_paths
rename_dir old_dir new_dir = do
  relocate_dir old_dir new_dir
  ids ← reads (λ s. messages_under s.index old_dir)
  relocate_messages old_dir new_dir ids
  index ← reads DirMailStore.index
  push_edits (
      remove (meta_path old_dir)
      ∷ upsert (meta_path new_dir)
      ∷ relocated_metas old_dir new_dir (iter index.mailboxes))
  set_index (record index { mailboxes = (rebase_dir_paths index.mailboxes old_dir new_dir).1 })

-- Write a mailbox's metadata file, and take it into the index.
unfoldable pub record_mailbox : Yaml → MailboxInfo → Text → Exec DirMailStore (Unit {0})
unfolding write_file set_index new_mailbox mailbox_bytes
record_mailbox y info dir_path = do
  write_file (meta_path dir_path) (mailbox_bytes y (new_mailbox info))
  index ← reads DirMailStore.index
  set_index (record index {
    mailboxes = Entities.insert index.mailboxes (record { info = info; dir_path = dir_path });
  })

module _ (x : Externals) (y : Yaml) where
  unfoldable pub add_mailbox : MailboxInfo → Exec DirMailStore EventOutcome
  unfolding new_dir_path record_mailbox
  add_mailbox info = do
    dir_path ← reads (new_dir_path x y info)
    record_mailbox y info dir_path
    pure added

  -- Move the mailbox where its new name or parent wants it; whether it was moved.
  unfoldable pub move_mailbox : MailboxInfo → MailboxRecord → Exec DirMailStore Bool
  unfolding changed_dir_path rename_dir
  move_mailbox info existing = do
    new_dir ← reads (λ s. changed_dir_path x info s.index)
    let structural_change =
        not (existing.info.name == info.name) || not (existing.info.parent_id == info.parent_id)
    if structural_change
        then (if new_dir == existing.dir_path
            then pure false
            else (rename_dir existing.dir_path new_dir >> pure true))
        else pure false

  unfoldable pub refresh_mailbox :
      MailboxInfo → Bool → Option MailboxRecord → Exec DirMailStore EventOutcome
  unfolding record_mailbox
  refresh_mailbox info was_moved none = raise panic
  refresh_mailbox info was_moved (some r) =
      if r.info == info
      then pure (if was_moved then moved else unchanged)
      else (record_mailbox y info r.dir_path >> pure (if was_moved then moved else updated))

  unfoldable pub update_mailbox : MailboxInfo → MailboxRecord → Exec DirMailStore EventOutcome
  unfolding move_mailbox refresh_mailbox
  update_mailbox info existing = do
    was_moved ← move_mailbox info existing
    r ← reads (λ s. find s.index.mailboxes info.id)
    refresh_mailbox info was_moved r

  unfoldable pub apply_mailbox_upserted : MailboxInfo → Exec DirMailStore EventOutcome
  unfolding add_mailbox update_mailbox
  apply_mailbox_upserted info = do
    existing ← reads (λ s. find s.index.mailboxes info.id)
    elim existing [ none ↦ add_mailbox info | some r ↦ update_mailbox info r ]

-- `fs::remove_dir` fails where the directory holds anything.
unfoldable pub remove_dir : Text → Exec DirMailStore (Unit {0})
unfolding attempt has_contents
remove_dir dir = do
  full ← reads (λ s. has_contents dir s.disk)
  if full
      then raise (record { kind = system; what = "the directory is not empty" })
      else attempt "remove the directory"
          (λ d. record d { dirs = filter (λ p. not (p == dir)) d.dirs })

unfoldable pub delete_mailbox : Text → Text → Exec DirMailStore EventOutcome
unfolding remove_file ignored remove_dir exists set_index
delete_mailbox id dir_path = do
  remove_file (meta_path dir_path)
  present ← reads (λ s. exists s.disk dir_path)
  when present (ignored (remove_dir dir_path))
  index ← reads DirMailStore.index
  set_index (record index { mailboxes = Entities.remove index.mailboxes id })
  pure removed

-- Whether the index has a message or a mailbox below the directory.
unfoldable pub is_occupied : StoreIndex → Text → Bool
unfolding messages_under has_mailboxes_under
is_occupied index dir_path =
    not (is_empty (messages_under index dir_path)) || has_mailboxes_under index dir_path

unfoldable pub delete_known : Text → MailboxRecord → Exec DirMailStore EventOutcome
unfolding is_occupied delete_mailbox
delete_known id r = do
  occupied ← reads (λ s. is_occupied s.index r.dir_path)
  if occupied then pure skipped else delete_mailbox id r.dir_path

unfoldable pub apply_mailbox_deleted : Text → Exec DirMailStore EventOutcome
unfolding delete_known
apply_mailbox_deleted id = do
  known ← reads (λ s. find s.index.mailboxes id)
  elim known [ none ↦ pure unchanged | some r ↦ delete_known id r ]
