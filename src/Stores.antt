-- ===== src/Stores.antt =====
-- stores/mod.rs: the state that a store keeps, and the trait `MailStore`.
pub mod Laws
pub mod Sidecar
pub mod Index
pub mod Disk
pub mod Persistence
pub mod Directory
pub mod Git
pub mod Examples
use mail_backup.Base.{
  ℕ, Bool, ◌||◌, not, is_some, Option, none, some, List, [], Text, Result, Error, Exec,
}
use mail_backup.Entities.{MailboxIndex, MessageMeta, SourceState}
use mail_backup.Messages.{MailEvent}

pub record StoredMessage : Type 0 where
  pub meta : MessageMeta
  pub path : Text
  pub sha256 : Text

pub data EventOutcome : Type 0 where
  added moved updated removed unchanged skipped : EventOutcome

pub data SnapshotKind : Type 0 where
  backfill live : SnapshotKind

pub record BackupSummary : Type 0 where
  pub added : ℕ
  pub moved : ℕ
  pub updated : ℕ
  pub removed : ℕ
  pub unchanged : ℕ
  pub skipped : ℕ
  pub interrupted : Bool

-- The text of a checkpoint, by what it is formatted from.
pub data Description : Type 0 where
  messages_received : ℕ → Description
  summary_of : BackupSummary → Description

-- A day is a number of days since 1970.
pub record Checkpoint : Type 0 where
  pub date : ℕ
  pub kind : SnapshotKind
  pub description : Description

pub record BackfillCursor : Type 0 where
  pub start_email_state : Option Text
  pub start_mailbox_state : Option Text
  pub anchor_id : Option Text
  pub last_committed_day : Option ℕ
  pub processed : ℕ

pub record StoreState : Type 0 where
  pub source : SourceState
  pub backfill : Option BackfillCursor
  pub current_commit_day : Option ℕ
  pub head_at_save : Option Text

unfoldable pub needs_backfill : StoreState → Bool
needs_backfill s = is_some s.backfill || not (is_some s.source.email_state)

pub data PathEdit : Type 0 where
  upsert remove : Text → PathEdit

pub record MailStore (W : Type 0) : Type 0 where
  pub open_store : Exec W (Unit {0})
  pub state : W → StoreState
  pub set_state : StoreState → W → W
  pub mailboxes : W → MailboxIndex
  pub lookup : Text → W → Option StoredMessage
  pub list : W → List StoredMessage
  pub apply : List MailEvent → Exec W (List EventOutcome)
  pub checkpoint : Checkpoint → Exec W (Unit {0})
  pub save_state : Exec W (Unit {0})
