-- ===== src/Stores/Directory/Emails.antt =====
-- stores/dir.rs: what the store does on the events of messages.
use mail_backup.Base.{
  Bool, true, false, not, Option, none, some, List, [], ◌∷◌, Text, Bytes, Exec, pure, reads, ◌>>=◌,
  ◌>>◌, when, ◌==◌, nat_eq, list_eq, if◌then◌else◌,
}
use mail_backup.Externals.{Externals}
use mail_backup.Entities.{MessageMeta, MailboxIndex}
use mail_backup.Layout.{unfiled_dir, sidecar_path, primary_mailbox, message_path}
use mail_backup.Stores.{
  StoredMessage, EventOutcome, added, moved, updated, removed, unchanged, skipped, PathEdit, upsert,
  remove,
}
use mail_backup.Stores.Index.{StoreIndex, get_message, insert_message, remove_message, path_owner}
use mail_backup.Stores.Sidecar.{Yaml, MessageSidecar, new_message, to_meta, message_bytes}
use mail_backup.Stores.Disk.{Disk, parent, exists, file_matches, make_dirs, rename}
use mail_backup.Stores.Disk
use mail_backup.Stores.Directory.{
  DirMailStore, attempt, push_edits, set_index, ignored, write_file, remove_file, hex_digest,
}

unfoldable pub message_dir : MessageMeta → MailboxIndex → Text
unfolding primary_mailbox
message_dir meta mailboxes = elim (primary_mailbox meta.mailbox_ids mailboxes) [
  | none ↦ unfiled_dir
  | some r ↦ r.dir_path
]

-- Whether the path belongs to another message.
unfoldable pub is_taken : StoreIndex → Text → Text → Bool
unfolding path_owner
is_taken index id candidate = elim (path_owner index candidate) [
  | none ↦ false
  | some owner ↦ not (owner == id)
]

unfoldable pub path_for : Externals → MessageMeta → Text → StoreIndex → Text
unfolding message_dir message_path is_taken
path_for x meta sha256 index =
    message_path x (message_dir meta index.mailboxes) meta sha256 (is_taken index meta.id)

-- Write the file, unless it has the content; an edit is recorded in either case.
unfoldable pub write_unless_same : Text → Bytes → Exec DirMailStore (Unit {0})
unfolding file_matches write_file push_edits
write_unless_same rel content = do
  same ← reads (λ s. file_matches s.disk rel content)
  if same then push_edits (upsert rel ∷ []) else write_file rel content

-- Take the message of a sidecar into the index.
unfoldable pub index_message : MessageSidecar → Text → Exec DirMailStore (Unit {0})
unfolding set_index insert_message to_meta
index_message sidecar path = do
  index ← reads DirMailStore.index
  set_index (
      insert_message index
        (record { meta = to_meta sidecar; path = path; sha256 = sidecar.sha256 }))

-- `fs::rename` of the sidecar, over what is there.
unfoldable pub move_sidecar : Text → Text → Exec DirMailStore (Unit {0})
unfolding attempt exists rename ignored
move_sidecar old_sidecar new_sidecar = do
  old_exists ← reads (λ s. exists s.disk old_sidecar)
  new_exists ← reads (λ s. exists s.disk new_sidecar)
  when old_exists (
      when new_exists (ignored (attempt "remove" (λ d. Disk.remove d new_sidecar)))
      >> attempt "move" (λ d. rename d old_sidecar new_sidecar))

unfoldable pub move_files : Text → Text → Exec DirMailStore (Unit {0})
unfolding attempt make_dirs rename move_sidecar
move_files old_path new_path = do
  attempt "create the directory" (λ d. make_dirs d (parent new_path))
  attempt "move" (λ d. rename d old_path new_path)
  move_sidecar (sidecar_path old_path) (sidecar_path new_path)

unfoldable pub moved_edits : Text → Text → List PathEdit
unfolding sidecar_path
moved_edits old_path new_path =
    remove old_path
    ∷ remove (sidecar_path old_path)
    ∷ upsert new_path
    ∷ upsert (sidecar_path new_path)
    ∷ []

-- Move a message to another path; `false` where neither path has its file.
unfoldable pub move_message : Text → Text → Exec DirMailStore Bool
unfolding exists move_files push_edits moved_edits
move_message old_path new_path = do
  old_exists ← reads (λ s. exists s.disk old_path)
  new_exists ← reads (λ s. exists s.disk new_path)
  if old_exists
      then (move_files old_path new_path >> push_edits (moved_edits old_path new_path) >> pure true)
      else if new_exists
      then (push_edits (moved_edits old_path new_path) >> pure true)
      else pure false

-- Write the sidecar where it has changed; whether it has.
unfoldable pub refresh_sidecar : Text → Bytes → Exec DirMailStore Bool
unfolding file_matches write_file
refresh_sidecar rel content = do
  same ← reads (λ s. file_matches s.disk rel content)
  when (not same) (write_file rel content)
  pure (not same)

-- The message's former copy, of another content.
unfoldable pub discard : Text → StoredMessage → Exec DirMailStore (Unit {0})
unfolding remove_file set_index remove_message sidecar_path
discard id existing = do
  remove_file existing.path
  remove_file (sidecar_path existing.path)
  index ← reads DirMailStore.index
  set_index (remove_message index id).1

module _ (x : Externals) (y : Yaml) where
  -- The sidecar and the index, for a message whose file is at its path.
  unfoldable pub describe_message :
      MessageMeta → Text → Text → Bool → Exec DirMailStore EventOutcome
  unfolding refresh_sidecar index_message new_message message_bytes
  describe_message meta sha256 path was_moved = do
    changed ← refresh_sidecar (sidecar_path path) (message_bytes y (new_message meta sha256))
    index_message (new_message meta sha256) path
    pure (if was_moved then moved else if changed then updated else unchanged)

  unfoldable pub update_message : MessageMeta → StoredMessage → Exec DirMailStore EventOutcome
  unfolding path_for move_message describe_message
  update_message meta existing = do
    new_path ← reads (λ s. path_for x meta existing.sha256 s.index)
    if new_path == existing.path
        then describe_message meta existing.sha256 existing.path false
        else do
          found ← move_message existing.path new_path
          if found then describe_message meta existing.sha256 new_path true else pure skipped

  unfoldable pub apply_message_updated : MessageMeta → Exec DirMailStore EventOutcome
  unfolding update_message get_message
  apply_message_updated meta = do
    known ← reads (λ s. get_message s.index meta.id)
    elim known [ none ↦ pure skipped | some existing ↦ update_message meta existing ]

  unfoldable pub store_message : MessageMeta → Bytes → Text → Exec DirMailStore EventOutcome
  unfolding path_for write_unless_same index_message new_message message_bytes
  store_message meta raw sha256 = do
    path ← reads (λ s. path_for x meta sha256 s.index)
    write_unless_same path raw
    write_unless_same (sidecar_path path) (message_bytes y (new_message meta sha256))
    index_message (new_message meta sha256) path
    pure added

  unfoldable pub redeliver : MessageMeta → Bytes → StoredMessage → Exec DirMailStore EventOutcome
  unfolding exists write_file apply_message_updated
  redeliver meta raw existing = do
    present ← reads (λ s. exists s.disk existing.path)
    when (not present) (write_file existing.path raw)
    outcome ← apply_message_updated meta
    pure (elim outcome [
      | skipped ↦ unchanged
      | added ↦ added
      | moved ↦ moved
      | updated ↦ updated
      | removed ↦ removed
      | unchanged ↦ unchanged
    ])

  unfoldable pub apply_message_added : MessageMeta → Bytes → Exec DirMailStore EventOutcome
  unfolding hex_digest get_message redeliver discard store_message
  apply_message_added meta raw = do
    known ← reads (λ s. get_message s.index meta.id)
    elim known [
      | none ↦ store_message meta raw (hex_digest x raw)
      | some existing ↦
          if existing.sha256 == hex_digest x raw
          then redeliver meta raw existing
          else (discard meta.id existing >> store_message meta raw (hex_digest x raw))
    ]

unfoldable pub delete_message : Option StoredMessage → Exec DirMailStore EventOutcome
unfolding remove_file sidecar_path
delete_message none = pure unchanged
delete_message (some existing) = do
  remove_file existing.path
  remove_file (sidecar_path existing.path)
  pure removed

unfoldable pub apply_message_deleted : Text → Exec DirMailStore EventOutcome
unfolding set_index remove_message delete_message
apply_message_deleted id = do
  index ← reads DirMailStore.index
  set_index (remove_message index id).1
  delete_message (remove_message index id).0
