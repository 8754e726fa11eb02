-- ===== src/Stores/Directory/Kept.antt =====
-- stores/dir.rs: what its calls of the file system leave alone.
pub mod Mailboxes
pub mod Emails
use mail_backup.Base.{
  arith, Bool, true, false, Option, none, some, List, [], ◌∷◌, ◌++◌, Text, Bytes, Error, String,
  Exec, raise, ◌>>=◌, ◌>>◌, pure, reads, Keeps, Keeps-pure, Keeps-reads, Keeps-bind, keeps_rules,
  ◌≡◌, refl, ◌∙◌, strip_prefix, codes, nat_eq, list_eq,
}
use mail_backup.Externals.{Externals}
use mail_backup.Entities.{MailboxInfo, MailboxRecord, MessageMeta, info_eq, find}
use mail_backup.Messages.{
  MailEvent, mailbox_upserted, mailbox_deleted, message_added, message_updated, message_deleted,
}
use mail_backup.Stores.{StoredMessage, unchanged, skipped, PathEdit}
use mail_backup.Stores.Index.{StoreIndex, get_message}
use mail_backup.Stores.Sidecar.{Yaml, MessageSidecar}
use mail_backup.Stores.Disk.{Disk, make_dirs, rename, rename_tree}
use mail_backup.Stores.Disk
use mail_backup.Stores.Persistence.{attempt_with}
use mail_backup.Stores.Directory.{
  DirMailStore, attempt, push_edits, set_index, ignored, panic, write_file, remove_file,
}
use mail_backup.Stores.Directory.Mailboxes.{
  relocate_dir, move_dir, relocate_to, relocate_message, relocate_messages, rename_dir,
  record_mailbox, add_mailbox, move_mailbox, refresh_mailbox, update_mailbox,
  apply_mailbox_upserted, remove_dir, delete_mailbox, delete_known, apply_mailbox_deleted,
}
use mail_backup.Stores.Directory.Emails.{
  write_unless_same, index_message, move_sidecar, move_files, move_message, refresh_sidecar,
  describe_message, update_message, apply_message_updated, store_message, redeliver, discard,
  apply_message_added, delete_message, apply_message_deleted,
}

-- The state and the files of the state directory are those of `before`.
abbrev pub SameState : DirMailStore → DirMailStore → Type 0
SameState before s = (s.state ≡ before.state) × (s.disk.state_dir ≡ before.disk.state_dir)

module _ (before : DirMailStore) where
  pub Keeps-attempt :
      (what : String) (f : Disk → Disk)
      → ((d : Disk) → (f d).state_dir ≡ d.state_dir)
      → Keeps (SameState before) (attempt what f)
  unfolding attempt attempt_with
  Keeps-attempt what f same = record { at = λ s h. go s.disk.faults s h }
    where
      go :
          (faults : List Bool) (s : DirMailStore)
          → SameState before s
          → SameState before (record s { disk = (attempt_with faults what f s.disk).1 })
      go [] s h = (h.0, same (record s.disk { faults = [] }) ∙ h.1)
      go (true ∷ rest) s h = h
      go (false ∷ rest) s h = (h.0, same (record s.disk { faults = rest }) ∙ h.1)

  pub Keeps-push_edits : (edits : List PathEdit) → Keeps (SameState before) (push_edits edits)
  unfolding push_edits
  Keeps-push_edits edits = record { at = λ s h. h }

  pub Keeps-set_index : (index : StoreIndex) → Keeps (SameState before) (set_index index)
  unfolding set_index
  Keeps-set_index index = record { at = λ s h. h }

  pub Keeps-ignored :
      (m : Exec DirMailStore (Unit {0}))
      → Keeps (SameState before) m
      → Keeps (SameState before) (ignored m)
  unfolding ignored
  Keeps-ignored m k = record { at = λ s h. k.at s h }

  pub Keeps-raise : {A : Type 0} (e : Error) → Keeps {A = A} (SameState before) (raise e)
  Keeps-raise e = record { at = λ s h. h }

  pub Keeps-option :
      {A B : Type 0} (known : Option A) (m : Exec DirMailStore B) (k : A → Exec DirMailStore B)
      → Keeps (SameState before) m
      → ((a : A) → Keeps (SameState before) (k a))
      → Keeps (SameState before) (elim known [ none ↦ m | some a ↦ k a ])
  Keeps-option none m k km kk = km
  Keeps-option (some a) m k km kk = kk a

  pub Keeps-known :
      {A B : Type 0} (known : DirMailStore → Option A) (m : Exec DirMailStore B)
      (k : A → Exec DirMailStore B)
      → Keeps (SameState before) m
      → ((a : A) → Keeps (SameState before) (k a))
      → Keeps (SameState before) (reads known >>= λ found. elim found [ none ↦ m | some a ↦ k a ])
  Keeps-known known m k km kk = record { at = λ s h. (Keeps-option (known s) m k km kk).at s h }

  pub Keeps-make_dirs :
      (what : String) (dir : Text) → Keeps (SameState before) (attempt what (λ d. make_dirs d dir))
  unfolding make_dirs
  Keeps-make_dirs what dir = Keeps-attempt what (λ d. make_dirs d dir) (λ d. refl)

  pub Keeps-write :
      (what : String) (path : Text) (content : Bytes)
      → Keeps (SameState before) (attempt what (λ d. Disk.write d path content))
  Keeps-write what path content = Keeps-attempt what (λ d. Disk.write d path content) (λ d. refl)

  pub Keeps-remove :
      (what : String) (path : Text)
      → Keeps (SameState before) (attempt what (λ d. Disk.remove d path))
  Keeps-remove what path = Keeps-attempt what (λ d. Disk.remove d path) (λ d. refl)

  pub Keeps-rename :
      (what : String) (from to : Text)
      → Keeps (SameState before) (attempt what (λ d. rename d from to))
  unfolding rename
  Keeps-rename what from to = Keeps-attempt what (λ d. rename d from to) (λ d. ground arith)

  pub ruleset step_rules = (
    Keeps-push_edits, Keeps-set_index, Keeps-ignored, Keeps-raise, Keeps-make_dirs, Keeps-write,
    Keeps-remove, Keeps-rename,
  )

  pub Keeps-write_file :
      (rel : Text) (content : Bytes) → Keeps (SameState before) (write_file rel content)
  unfolding write_file
  Keeps-write_file rel content = search (keeps_rules, step_rules) depth 12

  pub Keeps-remove_file : (rel : Text) → Keeps (SameState before) (remove_file rel)
  unfolding remove_file
  Keeps-remove_file rel = search (keeps_rules, step_rules) depth 12

  pub ruleset file_rules = (Keeps-write_file, Keeps-remove_file)
