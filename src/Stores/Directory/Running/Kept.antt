-- ===== src/Stores/Directory/Running/Kept.antt =====
-- stores/dir.rs: what the events of a batch leave alone.
use mail_backup.Base.{List, [], ◌∷◌, ◌>>=◌, pure, Keeps, Keeps-pure, Keeps-bind, nat_eq, list_eq}
use mail_backup.Externals.{Externals}
use mail_backup.Entities.{info_eq}
use mail_backup.Messages.{
  MailEvent, mailbox_upserted, mailbox_deleted, message_added, message_updated, message_deleted,
}
use mail_backup.Stores.Sidecar.{Yaml}
use mail_backup.Stores.Directory.{DirMailStore}
use mail_backup.Stores.Directory.Running.{apply_event, apply}
use mail_backup.Stores.Directory.Kept.{SameState}
use mail_backup.Stores.Directory.Kept.Mailboxes.{
  Keeps-apply_mailbox_upserted, Keeps-apply_mailbox_deleted,
}
use mail_backup.Stores.Directory.Kept.Emails.{
  Keeps-apply_message_added, Keeps-apply_message_updated, Keeps-apply_message_deleted,
}

module _ (before : DirMailStore) (x : Externals) (y : Yaml) where
  Keeps-apply_event : (event : MailEvent) → Keeps (SameState before) (apply_event x y event)
  unfolding apply_event
  Keeps-apply_event (mailbox_upserted info) = Keeps-apply_mailbox_upserted before x y info
  Keeps-apply_event (mailbox_deleted id) = Keeps-apply_mailbox_deleted before id
  Keeps-apply_event (message_added message raw) =
      Keeps-apply_message_added before x y message.meta raw
  Keeps-apply_event (message_updated message) = Keeps-apply_message_updated before x y message.meta
  Keeps-apply_event (message_deleted id) = Keeps-apply_message_deleted before id

  pub Keeps-apply : (events : List MailEvent) → Keeps (SameState before) (apply x y events)
  unfolding apply
  Keeps-apply [] = Keeps-pure []
  Keeps-apply (event ∷ events) =
      Keeps-bind (apply_event x y event)
        (λ outcome. apply x y events >>= λ outcomes. pure (outcome ∷ outcomes))
        (Keeps-apply_event event)
        (λ outcome.
          Keeps-bind _ _ (Keeps-apply events) (λ outcomes. Keeps-pure (outcome ∷ outcomes)))
