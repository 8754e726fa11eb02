-- ===== src/Engine/Setup.antt =====
-- What a run of the engine is given.
use mail_backup.Base.{ℕ, Bool, Option, Result, Error, Exec, total}
use mail_backup.Entities.{MessageMeta}
use mail_backup.Messages
use mail_backup.Messages.{MailMessage}
use mail_backup.Sources.{MailSource, Surroundings}
use mail_backup.Stores.{MailStore}
use mail_backup.Externals.{Externals}

-- policy.rs: `BackupPolicy`, as far as the engine reads it. The filter language is a crate.
pub record BackupPolicy : Type 0 where
  pub filter : MailMessage → Result Bool Error
  pub backfill_start : Option ℕ

pub record EngineOptions : Type 0 where
  pub dry_run : Bool
  pub concurrency : ℕ

pub record Setup (W : Type 0) : Type 0 where
  pub source : MailSource W
  pub store : MailStore W
  pub around : Surroundings W
  pub externals : Externals
  pub policy : BackupPolicy
  pub options : EngineOptions

module _ {W : Type 0} (e : Setup W) where
  abbrev pub cancelled : Exec W Bool
  cancelled = total e.around.cancelled

  -- The filter, on the message as the store's mailboxes show it.
  unfoldable pub matches_filter : W → MessageMeta → Result Bool Error
  matches_filter w meta = e.policy.filter (Messages.new e.externals meta (e.store.mailboxes w))
