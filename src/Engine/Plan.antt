-- ===== src/Engine/Plan.antt =====
-- engine/mod.rs: `PlannedChanges`, `mailbox_events` and `plan_message_changes`.
pub mod Classes
mod Examples
use mail_backup.Base.{
  ◌+◌, Bool, true, false, not, ◌&&◌, none, some, List, [], ◌∷◌, ◌++◌, map, Text, contains, filter,
  is_empty, Result, ok, err, Error, Exec, pure, reads, ◌>>=◌, ◌==◌, nat_eq, list_eq, if◌then◌else◌,
}
use mail_backup.Entities.{MailboxInfo, MailboxIndex, MessageMeta, info_eq, find, iter}
use mail_backup.Messages.{MailEvent, mailbox_upserted, mailbox_deleted}
use mail_backup.Stores.{BackupSummary}
use mail_backup.Engine.Ordering.{topological_order, ids_of}
use mail_backup.Engine.Setup.{Setup}

pub record PlannedChanges : Type 0 where
  pub mailbox_upserts : List MailEvent
  pub mailbox_deletions : List MailEvent
  pub adds : List MessageMeta
  pub updates : List MessageMeta
  pub deletes : List Text

abbrev pub nothing_planned : PlannedChanges
nothing_planned = record {
  mailbox_upserts = [];
  mailbox_deletions = [];
  adds = [];
  updates = [];
  deletes = [];
}

unfoldable pub plans_nothing : PlannedChanges → Bool
plans_nothing p =
    is_empty p.mailbox_upserts
    && is_empty p.mailbox_deletions
    && is_empty p.adds
    && is_empty p.updates
    && is_empty p.deletes

-- `is_none_or(|record| record.info != *info)`
unfoldable pub is_stale : MailboxIndex → MailboxInfo → Bool
is_stale index info = elim (find index info.id) [ none ↦ true | some r ↦ not (r.info == info) ]

unfoldable pub diff_mailboxes : List MailboxInfo → MailboxIndex → List MailEvent × List MailEvent
unfolding is_stale
diff_mailboxes server index = (
  map mailbox_upserted (filter (is_stale index) (topological_order server)),
  map (λ r. mailbox_deleted r.info.id)
      (filter (λ r. not (contains (ids_of server) r.info.id)) (iter index)),
)

unfoldable pub mailbox_events : {W : Type 0} → Setup W → Exec W (List MailEvent × List MailEvent)
mailbox_events e = do
  server ← e.source.list_mailboxes
  index ← reads e.store.mailboxes
  pure (diff_mailboxes server index)

-- The loop's variables: what was planned, and the messages that were passed over.
pub record Planning : Type 0 where
  pub plan : PlannedChanges
  pub summary : BackupSummary

-- One message: is it held, and does it match?
unfoldable pub plan_message : MessageMeta → Bool → Bool → Planning → Planning
plan_message meta false true p = record p {
  plan = record p.plan { adds = p.plan.adds ++ meta ∷ [] };
}
plan_message meta false false p = record p {
  summary = record p.summary { skipped = p.summary.skipped + 1 };
}
plan_message meta true true p = record p {
  plan = record p.plan { updates = p.plan.updates ++ meta ∷ [] };
}
plan_message meta true false p = record p {
  plan = record p.plan { deletes = p.plan.deletes ++ meta.id ∷ [] };
}

module _ (matches : MessageMeta → Result Bool Error) (held : Text → Bool) where
  -- `sorted` holds the ids that were seen.
  unfoldable pub plan_messages : List Text → List MessageMeta → Planning → Result Planning Error
  unfolding plan_message
  plan_messages sorted [] p = ok p
  plan_messages sorted (meta ∷ metas) p =
      let again = plan_messages sorted metas p in
      let next = λ (b : Bool).
        plan_messages (meta.id ∷ sorted) metas (plan_message meta (held meta.id) b p) in
      if contains sorted meta.id
      then again
      else elim (matches meta) [ ok b ↦ next b | err e ↦ err e ]
