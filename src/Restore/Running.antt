-- ===== src/Restore/Running.antt =====
-- restore/mod.rs: `run_restore`.
use mail_backup.Base.{
  ℕ, ◌+◌, Bool, false, not, ◌&&◌, Option, none, some, List, [], ◌∷◌, Text, Bytes, Result, ok, err,
  Error, Exec, pure, lift, reads, modify, ◌>>=◌, ◌>>◌, length, nat_eq, list_eq, if◌then◌else◌,
  Dictionary,
}
use mail_backup.Externals.{Externals}
use mail_backup.Entities.{MailboxIndex}
use mail_backup.Messages.{MailMessage}
use mail_backup.Stores.{StoredMessage}
use mail_backup.Restore.{
  RestoreTarget, RestoreSummary, Archive, Restoring, mailbox_index, on_target, ensure_mailboxes,
}
use mail_backup.Restore.Selecting.{
  read, select, by_dir, resolve, needed_by, unfiled_needed, with_ancestors, or_endless, target_ids,
}

-- `RestorePolicy` and `RestoreOptions`, as far as the run reads them. The filter of the options is
-- what their expression is parsed to, and `archive` what opening the archive gives.
pub record RestoreSetup (W : Type 0) : Type 0 where
  pub target : RestoreTarget W
  pub externals : Externals
  pub archive : Result Archive Error
  pub policy_filter : MailMessage → Result Bool Error
  pub mailbox_prefix : Option Text
  pub dedupe_by_message_id : Bool
  pub options_filter : Option (Result (MailMessage → Result Bool Error) Error)
  pub force : Bool
  pub dry_run : Bool
  -- `cancel.load`
  pub cancelled : W → Bool × W

abbrev pub bump : {W : Type 0} → (RestoreSummary → RestoreSummary) → Exec (Restoring W) (Unit {0})
bump f = modify (λ s. record s { summary = f s.summary })

module _ {W : Type 0} (e : RestoreSetup W) where
  unfoldable pub chosen_filter : Result (MailMessage → Result Bool Error) Error
  chosen_filter = elim e.options_filter [ none ↦ ok e.policy_filter | some parsed ↦ parsed ]

  -- An import that fails is counted.
  unfoldable pub import_message : StoredMessage → List Text → Bytes → Exec (Restoring W) (Unit {0})
  import_message m mailbox_ids raw s =
      let (r, w) = e.target.import raw mailbox_ids m.meta.keywords m.meta.received_at s.world in
      elim r [
        | ok id ↦ bump (λ t. record t { imported = t.imported + 1 }) (record s { world = w })
        | err x ↦ bump (λ t. record t { failed = t.failed + 1 }) (record s { world = w })
      ]

  -- `dedupe && target.message_exists(..)`
  unfoldable pub is_present : StoredMessage → Exec (Restoring W) Bool
  unfolding on_target
  is_present m =
      if not e.force && e.dedupe_by_message_id
      then on_target e.target (e.target.message_exists m.meta)
      else pure false

  unfoldable pub restore_message :
      Archive → Dictionary Text → StoredMessage → List Text → Exec (Restoring W) (Unit {0})
  unfolding is_present import_message read target_ids
  restore_message archive mapping m ids = do
    present ← is_present m
    if present
        then bump (λ t. record t { skipped_existing = t.skipped_existing + 1 })
        else if e.dry_run
        then pure tt
        else (do
          raw ← lift (read e.externals archive m)
          import_message m (target_ids mapping ids) raw)

  unfoldable pub is_cancelled : Exec (Restoring W) Bool
  is_cancelled s = let (b, w) = e.cancelled s.world in (ok b, record s { world = w })

  unfoldable pub restore_messages :
      Archive
      → MailboxIndex
      → Dictionary Text
      → Dictionary Text
      → List StoredMessage
      → Exec (Restoring W) (Unit {0})
  unfolding is_cancelled restore_message resolve
  restore_messages archive index dirs mapping [] = pure tt
  restore_messages archive index dirs mapping (m ∷ ms) = do
    stop ← is_cancelled
    if stop then pure tt else (do
      restore_message archive mapping m (resolve index dirs m)
      restore_messages archive index dirs mapping ms)

  unfoldable pub restore_selected : ℕ → Archive → List StoredMessage → Exec (Restoring W) (Unit {0})
  unfolding on_target with_ancestors needed_by unfiled_needed ensure_mailboxes restore_messages
      by_dir mailbox_index
  restore_selected rounds archive taken =
      let index = mailbox_index archive in
      let dirs = by_dir archive.mailboxes [] in
      let needed = needed_by index dirs taken [] in
      do
        all ← lift (or_endless (with_ancestors rounds index needed needed))
        account ← on_target e.target e.target.connect
        mapping ←
            ensure_mailboxes e.target e.externals e.dry_run archive all
              (unfiled_needed index dirs taken) e.mailbox_prefix
        restore_messages archive index dirs mapping taken

  -- The summary of a new run.
  unfoldable pub start : Exec (Restoring W) (Unit {0})
  start = modify (λ s. record {
    world = s.world;
    counter = 0;
    summary = record {
      selected = 0;
      imported = 0;
      skipped_existing = 0;
      skipped_filter = 0;
      failed = 0;
      mailboxes_created = 0;
      dry_run = e.dry_run;
    };
  })

  unfoldable pub run_restore : ℕ → Exec (Restoring W) RestoreSummary
  unfolding start chosen_filter select restore_selected mailbox_index
  run_restore rounds = do
    start
    accepts ← lift chosen_filter
    archive ← lift e.archive
    chosen ← lift (select e.externals accepts (mailbox_index archive) archive.messages)
    bump (λ t. record t { selected = length chosen.taken; skipped_filter = chosen.skipped })
    restore_selected rounds archive chosen.taken
    reads Restoring.summary
