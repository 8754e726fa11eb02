-- ===== src/Stores/Sidecar.antt =====
-- stores/sidecar.rs: the metadata files that stand beside messages and in mailbox directories.
use mail_backup.Base.{
  ℕ, ◌/◌, ◌*◌, Option, none, some, List, Text, Bytes, system, Result, ok, err, Error, ◌≡◌, refl,
  arith, ap,
}
use mail_backup.Entities.{MailboxInfo, MessageMeta, nanos_per_second, received_day}

abbrev pub sidecar_version : ℕ
sidecar_version = 1

pub record MessageSidecar : Type 0 where
  pub v : ℕ
  pub id : Text
  pub blob_id : Text
  pub thread_id : Text
  pub mailbox_ids : List Text
  pub keywords : List Text
  pub received_at : ℕ
  pub size : ℕ
  pub message_id : List Text
  pub subject : Option Text
  pub from : List Text
  pub sha256 : Text

pub record MailboxSidecar : Type 0 where
  pub v : ℕ
  pub id : Text
  pub name : Text
  pub role : Option Text
  pub parent_id : Option Text
  pub sort_order : ℕ

-- `trunc_subsecs(0)`
unfoldable pub truncate_to_seconds : ℕ → ℕ
truncate_to_seconds t = t / nanos_per_second * nanos_per_second

unfoldable pub new_message : MessageMeta → Text → MessageSidecar
unfolding truncate_to_seconds
new_message meta sha256_hex = record {
  v = sidecar_version;
  id = meta.id;
  blob_id = meta.blob_id;
  thread_id = meta.thread_id;
  mailbox_ids = meta.mailbox_ids;
  keywords = meta.keywords;
  received_at = truncate_to_seconds meta.received_at;
  size = meta.size;
  message_id = meta.message_id;
  subject = meta.subject;
  from = meta.from;
  sha256 = sha256_hex;
}

unfoldable pub to_meta : MessageSidecar → MessageMeta
to_meta s = record {
  id = s.id;
  blob_id = s.blob_id;
  thread_id = s.thread_id;
  mailbox_ids = s.mailbox_ids;
  keywords = s.keywords;
  received_at = s.received_at;
  size = s.size;
  message_id = s.message_id;
  subject = s.subject;
  from = s.from;
}

unfoldable pub new_mailbox : MailboxInfo → MailboxSidecar
new_mailbox info = record {
  v = sidecar_version;
  id = info.id;
  name = info.name;
  role = info.role;
  parent_id = info.parent_id;
  sort_order = info.sort_order;
}

unfoldable pub to_info : MailboxSidecar → MailboxInfo
to_info s = record {
  id = s.id;
  name = s.name;
  role = s.role;
  parent_id = s.parent_id;
  sort_order = s.sort_order;
}

-- `serde_norway`: a document that cannot be read as the type gives `none`.
pub record Yaml : Type 0 where
  pub message_to_string : MessageSidecar → Bytes
  pub message_from_slice : Bytes → Option MessageSidecar
  pub mailbox_to_string : MailboxSidecar → Bytes
  pub mailbox_from_slice : Bytes → Option MailboxSidecar

-- What is written is read back.
pub record IsYaml (y : Yaml) : Type 0 where
  pub message_back : (s : MessageSidecar) → y.message_from_slice (y.message_to_string s) ≡ some s
  pub mailbox_back : (s : MailboxSidecar) → y.mailbox_from_slice (y.mailbox_to_string s) ≡ some s

abbrev pub bad_sidecar : Error
bad_sidecar = record { kind = system; what = "a sidecar cannot be parsed" }

module _ (y : Yaml) where
  unfoldable pub message_bytes : MessageSidecar → Bytes
  message_bytes s = y.message_to_string s

  unfoldable pub parse_message : Bytes → Result MessageSidecar Error
  parse_message content = elim (y.message_from_slice content) [
    | none ↦ err bad_sidecar
    | some s ↦ ok s
  ]

  unfoldable pub mailbox_bytes : MailboxSidecar → Bytes
  mailbox_bytes s = y.mailbox_to_string s

  unfoldable pub parse_mailbox : Bytes → Result MailboxSidecar Error
  parse_mailbox content = elim (y.mailbox_from_slice content) [
    | none ↦ err bad_sidecar
    | some s ↦ ok s
  ]

  -- A mailbox that is written to its metadata file is read back as it was.
  pub parse_mailbox-mailbox_bytes :
      IsYaml y
      → (info : MailboxInfo)
      → parse_mailbox (mailbox_bytes (new_mailbox info)) ≡ ok (new_mailbox info)
        × (to_info (new_mailbox info) ≡ info)
  unfolding parse_mailbox mailbox_bytes new_mailbox to_info
  parse_mailbox-mailbox_bytes h info = (ground (arith, h.mailbox_back (new_mailbox info)), refl)

truncate_to_seconds_twice :
    (t : ℕ) → truncate_to_seconds (truncate_to_seconds t) ≡ truncate_to_seconds t
unfolding truncate_to_seconds
truncate_to_seconds_twice t = omega arith

-- What is read back of a message from its sidecar gives the same sidecar again.
pub new_message-to_meta :
    (meta : MessageMeta) (sha : Text)
    → new_message (to_meta (new_message meta sha)) sha ≡ new_message meta sha
unfolding new_message to_meta
new_message-to_meta meta sha =
    ap (λ (t : ℕ). record (new_message meta sha) { received_at = t })
      (truncate_to_seconds_twice meta.received_at)

received_day-to_meta :
    (meta : MessageMeta) (sha : Text)
    → received_day (to_meta (new_message meta sha)) ≡ received_day meta
unfolding received_day new_message to_meta truncate_to_seconds
received_day-to_meta meta sha = omega arith

-- A sidecar that is written for a message is read back whole. The message that it gives has the
-- message's id, mailboxes and keywords, was received on the same day, and gives the same bytes when
-- its own sidecar is written, so that a redelivered message rewrites nothing.
pub sidecar_canonical :
    (y : Yaml)
    → IsYaml y
    → (meta : MessageMeta) (sha : Text)
    → let again = to_meta (new_message meta sha) in
      (parse_message y (message_bytes y (new_message meta sha)) ≡ ok (new_message meta sha))
      × (again.id ≡ meta.id)
      × (again.mailbox_ids ≡ meta.mailbox_ids)
      × (again.keywords ≡ meta.keywords)
      × (received_day again ≡ received_day meta)
      × (message_bytes y (new_message again sha) ≡ message_bytes y (new_message meta sha))
unfolding parse_message message_bytes new_message to_meta
sidecar_canonical y h meta sha = (
  ground (arith, h.message_back (new_message meta sha)),
  refl,
  refl,
  refl,
  received_day-to_meta meta sha,
  ap y.message_to_string (new_message-to_meta meta sha),
)
