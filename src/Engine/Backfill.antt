-- ===== src/Engine/Backfill.antt =====
-- engine/backfill.rs: the first walk through all mail, one day after the other.
pub mod Anchor
pub mod Completion
pub mod DryRun
use mail_backup.Base.{
  ℕ, zero, suc, ◌+◌, ◌*◌, Bool, true, false, not, ◌&&◌, ◌||◌, is_some, is_empty, Option, none, some,
  List, [], ◌∷◌, ◌++◌, map, length, last?, Text, Result, ok, err, Error, Exec, pure, raise, lift,
  reads, modify, total, when, ◌>>=◌, ◌>>◌, ◌==◌, nat_eq, if◌then◌else◌,
}
use mail_backup.Entities.{MessageMeta, SourceState, DateRange, received_day, nanos_per_second}
use mail_backup.Messages.{MailEvent}
use mail_backup.Stores.{
  BackupSummary, BackfillCursor, StoreState, Checkpoint, backfill, messages_received,
}
use mail_backup.Engine.Summary.{no_changes, record_all}
use mail_backup.Engine.Setup.{Setup, cancelled, matches_filter}
use mail_backup.Engine.Plan.{mailbox_events}
use mail_backup.Engine.Apply.{fetch_raw, added_events}
use mail_backup.Engine.Sync.{held}

-- The variables that `finalize_day` changes.
pub record BackfillRun : Type 0 where
  pub cursor : BackfillCursor
  pub summary : BackupSummary

-- A day's messages, sorted by what is to be done with them.
pub record DayPlan : Type 0 where
  pub day_skipped : ℕ
  pub day_unchanged : ℕ
  pub to_fetch : List MessageMeta

unfoldable pub sort_message : MessageMeta → Bool → Bool → DayPlan → DayPlan
sort_message meta false is_held d = record d { day_skipped = d.day_skipped + 1 }
sort_message meta true true d = record d { day_unchanged = d.day_unchanged + 1 }
sort_message meta true false d = record d { to_fetch = d.to_fetch ++ meta ∷ [] }

module _ (matches : MessageMeta → Result Bool Error) (is_held : Text → Bool) where
  unfoldable pub sort_day : List MessageMeta → DayPlan → Result DayPlan Error
  unfolding sort_message
  sort_day [] d = ok d
  sort_day (meta ∷ metas) d = elim (matches meta) [
    | err x ↦ err x
    | ok b ↦ sort_day metas (sort_message meta b (is_held meta.id) d)
  ]

-- The variables of the loop over the enumerated messages.
pub record Walk : Type 0 where
  pub pending : List MessageMeta
  pub current_day : Option ℕ
  pub run : BackfillRun
  pub interrupted : Bool

unfoldable pub fresh_cursor : SourceState → BackfillCursor
fresh_cursor connected = record {
  start_email_state = connected.email_state;
  start_mailbox_state = connected.mailbox_state;
  anchor_id = none;
  last_committed_day = none;
  processed = 0;
}

-- `store.state().backfill.clone().unwrap_or_else(..)`
unfoldable pub starting_cursor : Option BackfillCursor → SourceState → BackfillCursor
unfolding fresh_cursor
starting_cursor none connected = fresh_cursor connected
starting_cursor (some cursor) connected = cursor

-- The day after the last committed one, or else the configured first day.
unfoldable pub start_day : BackfillCursor → Option ℕ → Option ℕ
start_day cursor configured = elim cursor.last_committed_day [
  | none ↦ configured
  | some d ↦ some (d + 1)
]

unfoldable pub range_from : Option ℕ → DateRange
range_from none = record { start = none; end = none }
range_from (some day) = record { start = some (day * (86400 * nanos_per_second)); end = none }

unfoldable pub advanced : BackfillCursor → ℕ → List MessageMeta → BackfillCursor
advanced cursor day metas = record cursor {
  anchor_id = elim (last? metas) [ none ↦ none | some m ↦ some m.id ];
  last_committed_day = some day;
  processed = cursor.processed + length metas;
}

module _ {W : Type 0} (e : Setup W) where
  unfoldable pub set_backfill : Option BackfillCursor → W → W
  set_backfill c w = e.store.set_state (record (e.store.state w) { backfill = c }) w

  -- Downloads, stores and commits the messages of a day; the cursor is saved with the commit.
  pub commit_day : ℕ → List MessageMeta → List MessageMeta → BackfillRun → Exec W BackfillRun
  commit_day day metas to_fetch r = do
    fetched ← fetch_raw e to_fetch
    events ← reads (added_events e fetched)
    outcomes ← e.store.apply events
    let cursor = advanced r.cursor day metas
    modify (set_backfill (some cursor))
    e.store.checkpoint
        (record { date = day; kind = backfill; description = messages_received (length to_fetch) })
    pure (record { cursor = cursor; summary = record_all r.summary outcomes })

  pub finalize_day : ℕ → List MessageMeta → BackfillRun → Exec W BackfillRun
  finalize_day day metas r = do
    d ← λ w. (
      sort_day (matches_filter e w) (held e w) metas
          (record { day_skipped = 0; day_unchanged = 0; to_fetch = [] }),
      w,
    )
    let summary = record r.summary {
      skipped = r.summary.skipped + d.day_skipped;
      unchanged = r.summary.unchanged + d.day_unchanged;
    }
    if e.options.dry_run
        then pure
            (record r { summary = record summary { added = summary.added + length d.to_fetch } })
        else commit_day day metas d.to_fetch (record r { summary = summary })

  -- Finalizes a day; its messages are no longer pending.
  pub close_day : ℕ → Walk → Exec W Walk
  close_day day k = do
    r ← finalize_day day k.pending k.run
    pure (record k { pending = []; run = r })

  -- Before a message of another day the pending day is finalized.
  pub turn_day : Option ℕ → ℕ → Walk → Exec W Walk
  turn_day none day k = pure k
  turn_day (some current) day k = if day == current then pure k else close_day current k

  pub walk : List (Result MessageMeta Error) → Walk → Exec W Walk
  walk [] k = pure k
  walk (err x ∷ items) k = raise x
  walk (ok meta ∷ items) k = do
    stop ← cancelled e
    if stop then pure (record k { interrupted = true }) else (do
      k' ← turn_day k.current_day (received_day meta) k
      walk items
          (record k' { current_day = some (received_day meta); pending = k'.pending ++ meta ∷ [] }))

  pub close_last : Option ℕ → Walk → Exec W Walk
  close_last none k = pure k
  close_last (some day) k = close_day day k

  -- The last day.
  pub last_day : Walk → Exec W Walk
  last_day k = if k.interrupted || is_empty k.pending then pure k else close_last k.current_day k

  -- The state captured at the beginning becomes the cursor, and the backfill is over.
  unfoldable pub set_complete : BackfillCursor → W → W
  set_complete c w =
      let s = e.store.state w in
      e.store.set_state
        (record s {
          source = record s.source {
            email_state = c.start_email_state;
            mailbox_state = c.start_mailbox_state;
          };
          backfill = none;
        })
        w

  abbrev is_interrupted : Walk → Exec W Bool
  is_interrupted k = if k.interrupted then pure true else cancelled e

  pub complete_walk : Walk → Exec W BackupSummary
  complete_walk k = do
    stop ← is_interrupted k
    if stop
        then pure (record k.run.summary { interrupted = true })
        else if e.options.dry_run
        then pure k.run.summary
        else (do modify (set_complete k.run.cursor); e.store.save_state; pure k.run.summary)

  pub apply_upserts : List MailEvent → Exec W (Unit {0})
  apply_upserts upserts =
      if e.options.dry_run || is_empty upserts
      then pure tt
      else (do outcomes ← e.store.apply upserts; pure tt)

  unfoldable pub run_backfill : SourceState → Exec W BackupSummary
  unfolding apply_upserts
  run_backfill connected = do
    saved ← reads (λ w. (e.store.state w).backfill)
    let cursor = starting_cursor saved connected
    when (not e.options.dry_run) (modify (set_backfill (some cursor)))
    events ← mailbox_events e
    apply_upserts events.0
    items ← total (e.source.enumerate (range_from (start_day cursor e.policy.backfill_start)))
    k ← walk items (record {
      pending = [];
      current_day = none;
      run = record { cursor = cursor; summary = no_changes };
      interrupted = false;
    })
    k' ← last_day k
    complete_walk k'
