-- ===== src/Engine/Apply.antt =====
-- engine/mod.rs: `fetch_raw`, `added_events`, `updated_events` and `apply_planned`.
pub mod Cursor
pub mod Holding
pub mod Concluding
pub mod Still
use mail_backup.Base.{
  ℕ, Bool, true, false, is_empty, Option, none, some, List, [], ◌∷◌, ◌++◌, map, length, Text, Bytes,
  Exec, pure, reads, modify, total, when, ◌>>=◌, ◌>>◌, not, if◌then◌else◌,
}
use mail_backup.Entities.{MessageMeta, SourceState}
use mail_backup.Messages
use mail_backup.Messages.{MailEvent, message_added, message_updated, message_deleted}
use mail_backup.Sources.{MailSource}
use mail_backup.Stores.{
  BackupSummary, EventOutcome, Checkpoint, backfill, live, messages_received, summary_of,
  StoreState,
}
use mail_backup.Engine.Summary.{no_changes, record_all, record_masked, message_event_mask}
use mail_backup.Engine.Grouping.{Groups, group_by_day, group_of, without_day}
use mail_backup.Engine.Setup.{Setup, cancelled}
use mail_backup.Engine.Plan.{PlannedChanges}

module _ {W : Type 0} (e : Setup W) where
  -- The downloads, one after the other; they end in the order of `arrival`.
  pub download : List MessageMeta → Exec W (List (MessageMeta × Bytes))
  download [] = pure []
  download (meta ∷ metas) = do
    raw ← e.source.fetch_blob meta.blob_id
    rest ← download metas
    pure ((meta, raw) ∷ rest)

  unfoldable pub fetch_raw : List MessageMeta → Exec W (List (MessageMeta × Bytes))
  unfolding download
  fetch_raw metas = do fetched ← download metas; pure (e.around.arrival fetched)

  unfoldable pub added_events : List (MessageMeta × Bytes) → W → List MailEvent
  added_events fetched w =
      map (λ f. message_added (Messages.new e.externals f.0 (e.store.mailboxes w)) f.1) fetched

  unfoldable pub updated_events : List MessageMeta → W → List MailEvent
  updated_events metas w =
      map (λ m. message_updated (Messages.new e.externals m (e.store.mailboxes w))) metas

  -- The body of the loop over the days before today.
  pub apply_day : ℕ → List MessageMeta → BackupSummary → Exec W BackupSummary
  apply_day day metas summary = do
    fetched ← fetch_raw metas
    events ← reads (added_events fetched)
    outcomes ← e.store.apply events
    e.store.checkpoint
        (record { date = day; kind = backfill; description = messages_received (length metas) })
    pure (record_all summary outcomes)

  -- The loop; a shutdown sets `interrupted`, and the rest of the function is passed over.
  pub apply_days : Groups → BackupSummary → Exec W BackupSummary
  apply_days [] summary = pure summary
  apply_days ((day, metas) ∷ groups) summary = do
    stop ← cancelled e
    if stop
        then pure (record summary { interrupted = true })
        else (do summary' ← apply_day day metas summary; apply_days groups summary')

  -- The events of today's snapshot.
  pub live_events : List (MessageMeta × Bytes) → PlannedChanges → W → List MailEvent
  live_events fetched plan w =
      added_events fetched w
      ++ (updated_events plan.updates w
          ++ (map message_deleted plan.deletes ++ plan.mailbox_deletions))

  pub apply_live : List MailEvent → BackupSummary → Exec W BackupSummary
  apply_live events summary = if is_empty events then pure summary else (do
    outcomes ← e.store.apply events
    pure (record_masked summary (message_event_mask events) outcomes))

  pub set_source : SourceState → W → W
  set_source s w = e.store.set_state (record (e.store.state w) { source = s }) w

  -- Everything after the loop over the days.
  pub apply_today :
      ℕ → List MessageMeta → PlannedChanges → SourceState → BackupSummary → Exec W BackupSummary
  unfolding apply_live
  apply_today today todays_adds plan final_state summary = do
    fetched ← fetch_raw todays_adds
    events ← reads (live_events fetched plan)
    summary' ← apply_live events summary
    modify (set_source final_state)
    e.store.checkpoint (record { date = today; kind = live; description = summary_of summary' })
    pure summary'

  -- What follows the loop over the days before today.
  pub after_days :
      ℕ → List MessageMeta → PlannedChanges → SourceState → BackupSummary → Exec W BackupSummary
  after_days today todays_adds plan final_state summary =
      if summary.interrupted then pure summary else (do
        stop ← cancelled e
        if stop
            then pure (record summary { interrupted = true })
            else apply_today today todays_adds plan final_state summary)

  abbrev pub planned_summary : PlannedChanges → BackupSummary
  planned_summary plan = record no_changes {
    added = length plan.adds;
    updated = length plan.updates;
    removed = length plan.deletes;
  }

  pub apply_upserts : List MailEvent → Exec W (Unit {0})
  apply_upserts upserts =
      if is_empty upserts then pure tt else (do outcomes ← e.store.apply upserts; pure tt)

  unfoldable pub apply_planned : PlannedChanges → SourceState → Exec W BackupSummary
  unfolding apply_upserts
  apply_planned plan final_state = if e.options.dry_run then pure (planned_summary plan) else (do
    apply_upserts plan.mailbox_upserts
    today ← total e.around.today
    let groups = group_by_day plan.adds
    summary ← apply_days (without_day today groups) no_changes
    after_days today (group_of today groups) plan final_state summary)
