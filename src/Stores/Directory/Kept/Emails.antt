-- ===== src/Stores/Directory/Kept/Emails.antt =====
-- stores/dir.rs: what the events of messages leave alone.
use mail_backup.Base.{
  Bool, Option, none, some, Text, Bytes, Keeps, Keeps-pure, keeps_rules, nat_eq, list_eq,
}
use mail_backup.Externals.{Externals}
use mail_backup.Entities.{MessageMeta, info_eq}
use mail_backup.Stores.{StoredMessage, unchanged, skipped}
use mail_backup.Stores.Index.{get_message}
use mail_backup.Stores.Sidecar.{Yaml, MessageSidecar}
use mail_backup.Stores.Directory.{DirMailStore}
use mail_backup.Stores.Directory.Emails.{
  write_unless_same, index_message, move_sidecar, move_files, move_message, refresh_sidecar,
  describe_message, update_message, apply_message_updated, store_message, redeliver, discard,
  apply_message_added, delete_message, apply_message_deleted,
}
use mail_backup.Stores.Directory.Kept.{SameState, Keeps-known, step_rules, file_rules}

module _ (before : DirMailStore) where
  pub Keeps-write_unless_same :
      (rel : Text) (content : Bytes) → Keeps (SameState before) (write_unless_same rel content)
  unfolding write_unless_same
  Keeps-write_unless_same rel content = search (keeps_rules, step_rules, file_rules) depth 12

  pub Keeps-index_message :
      (sidecar : MessageSidecar) (path : Text)
      → Keeps (SameState before) (index_message sidecar path)
  unfolding index_message
  Keeps-index_message sidecar path = search (keeps_rules, step_rules) depth 12

  pub Keeps-move_sidecar : (from to : Text) → Keeps (SameState before) (move_sidecar from to)
  unfolding move_sidecar
  Keeps-move_sidecar from to = search (keeps_rules, step_rules) depth 12

  pub Keeps-move_files : (from to : Text) → Keeps (SameState before) (move_files from to)
  unfolding move_files
  Keeps-move_files from to = search (keeps_rules, step_rules, Keeps-move_sidecar)

  pub Keeps-move_message : (from to : Text) → Keeps (SameState before) (move_message from to)
  unfolding move_message
  Keeps-move_message from to = search (keeps_rules, step_rules, Keeps-move_files) depth 12

  pub Keeps-refresh_sidecar :
      (rel : Text) (content : Bytes) → Keeps (SameState before) (refresh_sidecar rel content)
  unfolding refresh_sidecar
  Keeps-refresh_sidecar rel content = search (keeps_rules, file_rules)

  pub Keeps-discard : (id : Text) (m : StoredMessage) → Keeps (SameState before) (discard id m)
  unfolding discard
  Keeps-discard id m = search (keeps_rules, step_rules, file_rules) depth 12

  pub Keeps-delete_message :
      (known : Option StoredMessage) → Keeps (SameState before) (delete_message known)
  unfolding delete_message
  Keeps-delete_message none = Keeps-pure unchanged
  Keeps-delete_message (some m) = search (keeps_rules, file_rules)

  pub Keeps-apply_message_deleted :
      (id : Text) → Keeps (SameState before) (apply_message_deleted id)
  unfolding apply_message_deleted
  Keeps-apply_message_deleted id = search (keeps_rules, step_rules, Keeps-delete_message)

  module _ (x : Externals) (y : Yaml) where
    pub Keeps-describe_message :
        (meta : MessageMeta) (sha path : Text) (b : Bool)
        → Keeps (SameState before) (describe_message x y meta sha path b)
    unfolding describe_message
    Keeps-describe_message meta sha path b =
        search (keeps_rules, Keeps-refresh_sidecar, Keeps-index_message)

    pub Keeps-update_message :
        (meta : MessageMeta) (m : StoredMessage)
        → Keeps (SameState before) (update_message x y meta m)
    unfolding update_message
    Keeps-update_message meta m = search (keeps_rules, Keeps-describe_message, Keeps-move_message)

    pub Keeps-apply_message_updated :
        (meta : MessageMeta) → Keeps (SameState before) (apply_message_updated x y meta)
    unfolding apply_message_updated
    Keeps-apply_message_updated meta =
        Keeps-known before (λ s. get_message s.index meta.id) _ _ (Keeps-pure skipped)
          (λ m. Keeps-update_message meta m)

    pub Keeps-store_message :
        (meta : MessageMeta) (raw : Bytes) (sha : Text)
        → Keeps (SameState before) (store_message x y meta raw sha)
    unfolding store_message
    Keeps-store_message meta raw sha =
        search (keeps_rules, Keeps-write_unless_same, Keeps-index_message)

    pub Keeps-redeliver :
        (meta : MessageMeta) (raw : Bytes) (m : StoredMessage)
        → Keeps (SameState before) (redeliver x y meta raw m)
    unfolding redeliver
    Keeps-redeliver meta raw m = search (keeps_rules, file_rules, Keeps-apply_message_updated)

    pub Keeps-apply_message_added :
        (meta : MessageMeta) (raw : Bytes)
        → Keeps (SameState before) (apply_message_added x y meta raw)
    unfolding apply_message_added
    Keeps-apply_message_added meta raw =
        Keeps-known before (λ s. get_message s.index meta.id) _ _ (Keeps-store_message meta raw _)
          (λ m. search (keeps_rules, Keeps-redeliver, Keeps-discard, Keeps-store_message))
