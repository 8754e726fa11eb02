-- ===== src/Messages.antt =====
-- entities/mail.rs: a message with the metadata that filters read, and the events of a store.
use mail_backup.Base.{
  ℕ, ◌%◌, ◌^◌, Option, none, some, List, [], ◌∷◌, Text, Bytes, codes, String, sort, text_leb,
  Dictionary, put,
}
use mail_backup.Externals.{Externals}
use mail_backup.Entities.{MailboxInfo, MailboxIndex, MessageMeta, name_path}
use mail_backup.Layout.{primary_mailbox}

-- `FilterValue`, as far as the program builds it.
pub data FilterValue : Type 0 where
  text : Text → FilterValue
  texts : List Text → FilterValue
  number : ℕ → FilterValue

abbrev pub Metadata : Type 0
Metadata = Dictionary FilterValue

pub record MailMessage : Type 0 where
  pub meta : MessageMeta
  pub metadata : Metadata

-- `filter_map(|id| mailboxes.name_path(id))`
known_paths : List Text → MailboxIndex → List Text
known_paths [] mailboxes = []
known_paths (id ∷ ids) mailboxes =
    let rest = known_paths ids mailboxes in
    elim (name_path mailboxes id) [ none ↦ rest | some path ↦ path ∷ rest ]

primary_path : List Text → MailboxIndex → Option Text
primary_path ids mailboxes = elim (primary_mailbox ids mailboxes) [
  | none ↦ none
  | some primary ↦ name_path mailboxes primary.info.id
]

put_some : Metadata → String → Option Text → Metadata
put_some m key none = m
put_some m key (some t) = put m (codes key) (text t)

module _ (x : Externals) where
  inject_metadata : MessageMeta → MailboxIndex → Metadata
  unfolding known_paths primary_path put_some
  inject_metadata meta mailboxes =
      let m = put [] (codes "message.id") (text meta.id) in
      let m = put m (codes "message.thread") (text meta.thread_id) in
      let m = put m (codes "message.blob") (text meta.blob_id) in
      let paths = sort text_leb (known_paths meta.mailbox_ids mailboxes) in
      let m = put_some m "message.mailbox" (primary_path meta.mailbox_ids mailboxes) in
      let m = put m (codes "message.mailboxes") (texts paths) in
      let m = put m (codes "message.keyword") (texts meta.keywords) in
      let m = put m (codes "message.keywords") (texts meta.keywords) in
      let m = put m (codes "message.received") (text (x.format_rfc3339 meta.received_at)) in
      let m = put m (codes "message.date") (text (x.format_day meta.received_at)) in
      let m = put m (codes "message.size") (number (meta.size % 2 ^ 32)) in
      let m = put_some m "message.subject" meta.subject in
      put m (codes "message.from") (texts meta.from)

  unfoldable pub new : MessageMeta → MailboxIndex → MailMessage
  unfolding inject_metadata
  new meta mailboxes = record { meta = meta; metadata = inject_metadata meta mailboxes }

pub data MailEvent : Type 0 where
  mailbox_upserted : MailboxInfo → MailEvent
  mailbox_deleted : Text → MailEvent
  message_added : MailMessage → Bytes → MailEvent
  message_updated : MailMessage → MailEvent
  message_deleted : Text → MailEvent
