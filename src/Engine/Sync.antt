-- ===== src/Engine/Sync.antt =====
-- engine/sync.rs: the catch-up from the saved cursor, and the full reconciliation.
pub mod Carrying
pub mod Holding
pub mod Cursor
pub mod DryRun
pub mod Paging
pub mod Assembling
pub mod Scanning
use mail_backup.Base.{
  ℕ, zero, suc, ◌+◌, Bool, true, false, not, ◌&&◌, ◌||◌, is_some, is_empty, Option, none, some,
  List, [], ◌∷◌, ◌++◌, map, filter, contains, Text, Kind, system, Result, ok, err, Error, Exec,
  pure, raise, lift, reads, total, when, ◌>>=◌, ◌>>◌, ◌==◌, nat_eq, list_eq, option_eq,
  if◌then◌else◌,
}
use mail_backup.Entities.{MessageMeta, SourceState, ChangeSet, state_eq, all_dates}
use mail_backup.Sources.{ChangesResult, changes, state_too_old}
use mail_backup.Stores.{BackupSummary, StoredMessage}
use mail_backup.Messages.{MailEvent}
use mail_backup.Engine.Summary.{no_changes, merge}
use mail_backup.Engine.Changes.{dedupe_changes}
use mail_backup.Engine.Setup.{Setup, cancelled, matches_filter}
use mail_backup.Engine.Plan.{
  PlannedChanges, nothing_planned, plans_nothing, Planning, plan_messages, mailbox_events,
}
use mail_backup.Engine.Apply.{apply_planned}

pub record SyncOutcome : Type 0 where
  pub summary : BackupSummary
  pub needs_reconcile : Bool

-- The variables of the loop over the pages of changes.
pub record Gathered : Type 0 where
  pub created : List Text
  pub updated : List Text
  pub destroyed : List Text
  pub mailboxes_changed : Bool
  pub state : SourceState

pub data Gathering : Type 0 where
  complete : Gathered → Gathering
  too_old stopped : Gathering

unfoldable pub absorb : Gathered → ChangeSet → Gathered
absorb g c = record {
  created = g.created ++ c.created;
  updated = g.updated ++ c.updated;
  destroyed = g.destroyed ++ c.destroyed;
  mailboxes_changed = g.mailboxes_changed || c.mailboxes_changed;
  state = c.state;
}

-- The loop over pages has no bound in the source; this is what the model returns past its fuel.
abbrev pub out_of_fuel : Error
out_of_fuel = record { kind = system; what = "the server reported more pages than the fuel" }

abbrev pub interrupted_summary : BackupSummary
interrupted_summary = record no_changes { interrupted = true }

-- The variables of `reconcile`'s loop.
pub record Scan : Type 0 where
  pub seen : List Text
  pub plan : PlannedChanges
  pub summary : BackupSummary

-- One enumerated message, by what the store holds of it and whether it matches.
pub scan_message : MessageMeta → Option StoredMessage → Bool → Scan → Scan
scan_message meta none true s = record s {
  seen = meta.id ∷ s.seen;
  plan = record s.plan { adds = s.plan.adds ++ meta ∷ [] };
}
scan_message meta none false s = record s {
  seen = meta.id ∷ s.seen;
  summary = record s.summary { skipped = s.summary.skipped + 1 };
}
scan_message meta (some stored) false s = record s {
  seen = meta.id ∷ s.seen;
  plan = record s.plan { deletes = s.plan.deletes ++ meta.id ∷ [] };
}
scan_message meta (some stored) true s =
    if not (stored.meta.keywords == meta.keywords)
      || not (stored.meta.mailbox_ids == meta.mailbox_ids)
    then record s {
      seen = meta.id ∷ s.seen;
      plan = record s.plan { updates = s.plan.updates ++ meta ∷ [] };
    }
    else record s {
      seen = meta.id ∷ s.seen;
      summary = record s.summary { unchanged = s.summary.unchanged + 1 };
    }

module _ {W : Type 0} (e : Setup W) where
  -- What one page does; `more` goes on to the next.
  unfoldable pub absorb_page :
      (Gathered → Exec W Gathering) → Gathered → ChangesResult → Exec W Gathering
  absorb_page more g state_too_old = pure too_old
  absorb_page more g (changes c) =
      if c.has_more then more (absorb g c) else pure (complete (absorb g c))

  unfoldable pub gather : ℕ → Gathered → Exec W Gathering
  unfolding absorb_page
  gather zero g = raise out_of_fuel
  gather (suc fuel) g = do
    stop ← cancelled e
    if stop
        then pure stopped
        else (do page ← e.source.changes g.state; absorb_page (gather fuel) g page)

  -- The plan of the mailboxes, where any of them changed.
  pub plan_mailboxes : Bool → Exec W PlannedChanges
  plan_mailboxes changed =
      if changed
      then (do
        (upserts, deletions) ← mailbox_events e
        pure (record nothing_planned { mailbox_upserts = upserts; mailbox_deletions = deletions }))
      else pure nothing_planned

  abbrev pub held : W → Text → Bool
  held w id = is_some (e.store.lookup id w)

  -- `plan_message_changes`
  pub plan_message_changes : List MessageMeta → Planning → Exec W Planning
  plan_message_changes metas p w = (plan_messages (matches_filter e w) (held w) [] metas p, w)

  -- The planned changes are applied, unless there are none and the cursor is the same.
  pub settle : SourceState → List Text → Planning → Exec W SyncOutcome
  settle state destroyed planned = do
    let plan = record planned.plan { deletes = planned.plan.deletes ++ destroyed }
    current ← reads (λ w. (e.store.state w).source)
    if plans_nothing plan && state == current
        then pure (record { summary = planned.summary; needs_reconcile = false })
        else (do
          applied ← apply_planned e plan state
          pure (record { summary = merge planned.summary applied; needs_reconcile = false }))

  -- The loop found every page.
  pub apply_gathered : Gathered → Exec W SyncOutcome
  apply_gathered g = do
    let (created, updated, destroyed) = dedupe_changes g.created g.updated g.destroyed
    plan ← plan_mailboxes g.mailboxes_changed
    created_metas ← e.source.get_messages created
    updated_metas ← e.source.get_messages updated
    planned ←
        plan_message_changes (created_metas ++ updated_metas)
          (record { plan = plan; summary = no_changes })
    settle g.state destroyed planned

  unfoldable pub finish : Gathering → Exec W SyncOutcome
  finish stopped = pure (record { summary = interrupted_summary; needs_reconcile = false })
  finish too_old = pure (record { summary = no_changes; needs_reconcile = true })
  finish (complete g) = apply_gathered g

  unfoldable pub run : ℕ → Exec W SyncOutcome
  unfolding finish gather
  run fuel = do
    start ← reads (λ w. (e.store.state w).source)
    found ← gather fuel (record {
      created = [];
      updated = [];
      destroyed = [];
      mailboxes_changed = false;
      state = start;
    })
    finish found

  -- A shutdown sets `interrupted`, and the rest of the function is passed over.
  pub scan : List (Result MessageMeta Error) → Scan → Exec W Scan
  scan [] s = pure s
  scan (err x ∷ items) s = raise x
  scan (ok meta ∷ items) s = do
    stop ← cancelled e
    if stop then pure (record s { summary = record s.summary { interrupted = true } }) else (do
      matches ← λ w. (matches_filter e w meta, w)
      stored ← reads (e.store.lookup meta.id)
      scan items (scan_message meta stored matches s))

  -- What the server no longer has.
  unfoldable pub vanished : List Text → W → List Text
  vanished seen w =
      map (λ m. m.meta.id) (filter (λ m. not (contains seen m.meta.id)) (e.store.list w))

  pub apply_scan : SourceState → Scan → Exec W BackupSummary
  apply_scan fresh_state s = if s.summary.interrupted then pure s.summary else (do
    gone ← reads (vanished s.seen)
    applied ← apply_planned e (record s.plan { deletes = s.plan.deletes ++ gone }) fresh_state
    pure (merge s.summary applied))

  -- The new mailboxes go to the store before any message is looked at, but in a dry run.
  pub early_upserts : List MailEvent → Exec W (List MailEvent)
  early_upserts upserts =
      if not e.options.dry_run && not (is_empty upserts)
      then (do outcomes ← e.store.apply upserts; pure [])
      else pure upserts

  unfoldable pub reconcile : SourceState → Exec W BackupSummary
  unfolding early_upserts scan_message scan apply_scan
  reconcile fresh_state = do
    (upserts, deletions) ← mailbox_events e
    left ← early_upserts upserts
    items ← total (e.source.enumerate all_dates)
    s ← scan items (record {
      seen = [];
      plan = record nothing_planned { mailbox_upserts = left; mailbox_deletions = deletions };
      summary = no_changes;
    })
    apply_scan fresh_state s
