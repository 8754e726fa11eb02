-- ===== src/Stores/Directory/Kept/Mailboxes.antt =====
-- stores/dir.rs: what the events of mailboxes leave alone.
use mail_backup.Base.{
  Bool, Option, none, some, List, [], ◌∷◌, ◌++◌, Text, String, ◌>>◌, reads, Keeps, Keeps-pure,
  Keeps-reads, Keeps-bind, keeps_rules, refl, strip_prefix, codes, nat_eq, list_eq,
}
use mail_backup.Externals.{Externals}
use mail_backup.Entities.{MailboxInfo, MailboxRecord, info_eq, find}
use mail_backup.Stores.{StoredMessage, unchanged}
use mail_backup.Stores.Index.{get_message}
use mail_backup.Stores.Sidecar.{Yaml}
use mail_backup.Stores.Disk.{Disk, rename_tree}
use mail_backup.Stores.Directory.{DirMailStore, attempt, panic}
use mail_backup.Stores.Directory.Mailboxes.{
  relocate_dir, move_dir, relocate_to, relocate_message, relocate_messages, rename_dir,
  record_mailbox, add_mailbox, move_mailbox, refresh_mailbox, update_mailbox,
  apply_mailbox_upserted, remove_dir, delete_mailbox, delete_known, apply_mailbox_deleted,
}
use mail_backup.Stores.Directory.Kept.{
  SameState, Keeps-attempt, Keeps-raise, Keeps-option, Keeps-known, step_rules, file_rules,
}

module _ (before : DirMailStore) where
  pub Keeps-rename_tree :
      (what : String) (from to : Text)
      → Keeps (SameState before) (attempt what (rename_tree from to))
  unfolding rename_tree
  Keeps-rename_tree what from to = Keeps-attempt before what (rename_tree from to) (λ d. refl)

  pub Keeps-drop_dirs :
      (what : String) (dirs : Disk → List Text)
      → Keeps (SameState before) (attempt what (λ d. record d { dirs = dirs d }))
  Keeps-drop_dirs what dirs =
      Keeps-attempt before what (λ d. record d { dirs = dirs d }) (λ d. refl)

  pub Keeps-move_dir : (from to : Text) → Keeps (SameState before) (move_dir from to)
  unfolding move_dir
  Keeps-move_dir from to = search (keeps_rules, Keeps-raise, Keeps-rename_tree) depth 12

  pub Keeps-relocate_dir : (from to : Text) → Keeps (SameState before) (relocate_dir from to)
  unfolding relocate_dir
  Keeps-relocate_dir from to = search (keeps_rules, step_rules, Keeps-move_dir)

  pub Keeps-relocate_message :
      (from to : Text) (known : Option StoredMessage)
      → Keeps (SameState before) (relocate_message from to known)
  unfolding relocate_message relocate_to
  Keeps-relocate_message from to none = Keeps-raise before panic
  Keeps-relocate_message from to (some m) =
      Keeps-option before (strip_prefix m.path (from ++ codes "/")) _ _ (Keeps-raise before panic)
        (λ rest. search (keeps_rules, step_rules) depth 12)

  pub Keeps-relocate_messages :
      (from to : Text) (ids : List Text) → Keeps (SameState before) (relocate_messages from to ids)
  unfolding relocate_messages
  Keeps-relocate_messages from to [] = Keeps-pure tt
  Keeps-relocate_messages from to (id ∷ ids) =
      Keeps-bind (reads (λ s. get_message s.index id))
        (λ m. relocate_message from to m >> relocate_messages from to ids) (Keeps-reads _)
        (λ m.
          Keeps-bind _ _ (Keeps-relocate_message from to m)
            (λ u. Keeps-relocate_messages from to ids))

  pub Keeps-rename_dir : (from to : Text) → Keeps (SameState before) (rename_dir from to)
  unfolding rename_dir
  Keeps-rename_dir from to =
      search (keeps_rules, step_rules, Keeps-relocate_dir, Keeps-relocate_messages)

  pub Keeps-record_mailbox :
      (y : Yaml) (info : MailboxInfo) (dir : Text)
      → Keeps (SameState before) (record_mailbox y info dir)
  unfolding record_mailbox
  Keeps-record_mailbox y info dir = search (keeps_rules, step_rules, file_rules) depth 12

  pub Keeps-remove_dir : (dir : Text) → Keeps (SameState before) (remove_dir dir)
  unfolding remove_dir
  Keeps-remove_dir dir = search (keeps_rules, Keeps-raise, Keeps-drop_dirs) depth 12

  pub Keeps-delete_known :
      (id : Text) (r : MailboxRecord) → Keeps (SameState before) (delete_known id r)
  unfolding delete_known delete_mailbox
  Keeps-delete_known id r = search (keeps_rules, step_rules, file_rules, Keeps-remove_dir) depth 14

  pub Keeps-apply_mailbox_deleted :
      (id : Text) → Keeps (SameState before) (apply_mailbox_deleted id)
  unfolding apply_mailbox_deleted
  Keeps-apply_mailbox_deleted id =
      Keeps-known before (λ s. find s.index.mailboxes id) _ _ (Keeps-pure unchanged)
        (λ r. Keeps-delete_known id r)

  module _ (x : Externals) (y : Yaml) where
    pub Keeps-move_mailbox :
        (info : MailboxInfo) (r : MailboxRecord)
        → Keeps (SameState before) (move_mailbox x y info r)
    unfolding move_mailbox
    Keeps-move_mailbox info r = search (keeps_rules, Keeps-rename_dir)

    pub Keeps-refresh_mailbox :
        (info : MailboxInfo) (b : Bool) (known : Option MailboxRecord)
        → Keeps (SameState before) (refresh_mailbox x y info b known)
    unfolding refresh_mailbox
    Keeps-refresh_mailbox info b none = Keeps-raise before panic
    Keeps-refresh_mailbox info b (some r) = search (keeps_rules, Keeps-record_mailbox)

    pub Keeps-apply_mailbox_upserted :
        (info : MailboxInfo) → Keeps (SameState before) (apply_mailbox_upserted x y info)
    unfolding apply_mailbox_upserted add_mailbox update_mailbox
    Keeps-apply_mailbox_upserted info =
        Keeps-known before (λ s. find s.index.mailboxes info.id) _ _
          (search (keeps_rules, Keeps-record_mailbox))
          (λ r. search (keeps_rules, Keeps-move_mailbox, Keeps-refresh_mailbox))
