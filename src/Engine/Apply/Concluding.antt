-- ===== src/Engine/Apply/Concluding.antt =====
-- engine/mod.rs: `apply_planned` with its end, after the days before today.
use mail_backup.Base.{
  All-second, All-map, ℕ, Bool, true, false, Option, List, [], ◌∷◌, pure, modify, ◌>>◌, Post,
  Post-after, Post-intro, Post-Keeps, ◌≡◌, refl, ◌∙◌, ap, inl, inr, Bool-cases, if◌then◌else◌,
}
use mail_backup.Entities.{MessageMeta, SourceState}
use mail_backup.Messages.{MailEvent}
use mail_backup.Base.{Result}
use mail_backup.Stores.{BackupSummary, BackfillCursor, EventOutcome, Checkpoint}
use mail_backup.Stores.Laws.{Progress, progress, IsStore, Outside}
use mail_backup.Engine.Summary.{
  no_changes, record_masked, message_event_mask, counted-record_all,
  record_masked-message_event_mask,
}
use mail_backup.Engine.Grouping.{group_by_day, group_of, without_day}
use mail_backup.Engine.Setup.{Setup}
use mail_backup.Engine.Plan.{PlannedChanges}
use mail_backup.Engine.Apply.{
  fetch_raw, apply_days, apply_live, apply_today, apply_upserts, apply_planned, after_days,
  set_source, live_events,
}
use mail_backup.Base.{total, err, Error, All, ◌++◌}
use mail_backup.Engine.Apply.Holding.{
  IsOld, IsHeld, FailedEarly, FailedAt, Committed, IsGiving, AppliedFrom, concluding, early, still,
  cancelled-still, apply-still, fetch_raw-still, apply_upserts-still, apply_days-Held,
}
use mail_backup.Engine.Apply.{added_events, updated_events}
use mail_backup.Entities.{MessageMeta}

interrupted-record_masked :
    (s : BackupSummary) (es : List MailEvent) (os : List EventOutcome)
    → (record_masked s (message_event_mask es) os).interrupted ≡ s.interrupted
interrupted-record_masked s es os =
    ap (λ (t : BackupSummary). t.interrupted) (record_masked-message_event_mask s es os)
    ∙ (counted-record_all s _).1

module _ {W : Type 0} (e : Setup W) (saved : W → Progress) (store : IsStore e.store saved)
    (outside : Outside e.source e.around e.store.state)
    (untouched : Outside e.source e.around saved) (Given : MailEvent → W → Type 0)
    (giving : IsGiving e Given) where
  abbrev Applied : PlannedChanges → SourceState → W → BackupSummary → W → Type 0
  Applied = AppliedFrom e saved store outside untouched Given giving

  -- All these events have been given.
  abbrev AllGiven : List MailEvent → W → Type 0
  AllGiven es w = All (λ event. Given event w) es

  abbrev events_of : PlannedChanges → List MailEvent
  events_of = concluding e saved store outside untouched Given giving

  apply_live-Given :
      (es : List MailEvent) (s : BackupSummary) (w₀ w : W)
      → IsHeld e saved w₀ w
      → Post
          (λ t w'. (t.interrupted ≡ s.interrupted) × IsHeld e saved w₀ w' × AllGiven es w')
          (λ x w'. IsHeld e saved w₀ w')
          (apply_live e es s w)
  unfolding apply_live
  apply_live-Given [] s w₀ w held = (refl, held, tt)
  apply_live-Given (event ∷ es) s w₀ w held =
      Post-after (λ os w'. IsHeld e saved w₀ w' × AllGiven (event ∷ es) w') (λ x. IsHeld e saved w₀)
        _ _ (e.store.apply (event ∷ es) w) _
        (Post-intro _ _ (e.store.apply (event ∷ es) w)
          (λ os done. (
            (apply-still e saved store outside untouched Given giving w₀ (event ∷ es)).at w held,
            giving.given-apply (event ∷ es) w os done,
          ))
          (λ x failed.
            (apply-still e saved store outside untouched Given giving w₀ (event ∷ es)).at w held))
        (λ x w' k. k) (λ os w' k. (interrupted-record_masked s (event ∷ es) os, k.0, k.1))

  -- The concluding part from `w`, where the progress is that of `w₀`.
  conclude-AppliedFrom :
      (c : Checkpoint) (plan : PlannedChanges) (final : SourceState) (t : BackupSummary) (w₀ w : W)
      → t.interrupted ≡ false
      → IsHeld e saved w₀ w
      → AllGiven (events_of plan) w
      → Post
          (Applied plan final w₀)
          (FailedAt e saved final w₀)
          ((modify (set_source e final) >> (e.store.checkpoint c >> pure t)) w)
  unfolding set_source
  conclude-AppliedFrom c plan final t w₀ w h held given =
      let w₁ = e.store.set_state (record (e.store.state w) { source = final }) w in
      let moved : progress (e.store.state w₁) ≡ (final, (e.store.state w₀).backfill) =
        ap progress (store.state-set_state _ w)
        ∙ ap (λ (b : Option BackfillCursor). let q : Progress = (final, b) in q)
            (ap (λ (q : Progress). q.1) held.0) in
      let same = store.saved-set_state (record (e.store.state w) { source = final }) w in
      let there =
        All-map _ _ (events_of plan)
          (λ event g.
            giving.given-checkpoint c event w₁
              (giving.given-set_state (record (e.store.state w) { source = final }) event w g))
          given in
      Post-after (λ u w'. Committed e saved final w₀ w' × AllGiven (events_of plan) w')
        (FailedAt e saved final w₀) _ _ (e.store.checkpoint c w₁) _
        (Post-intro _ _ (e.store.checkpoint c w₁)
          (λ u done. (
            (store.state-checkpoint c w₁ ∙ moved, store.saved-checkpoint c w₁ done ∙ moved),
            there,
          ))
          (λ x failed. inr (
            w₁,
            moved,
            kept w₁ same held.1,
            (c, broken w₁ x failed),
            store.state-checkpoint c w₁ ∙ moved,
          )))
        (λ x w' f. f) (λ u w' done. ((λ on. cc), (λ off. done)))
    where
      kept : (w₁ : W) → saved w₁ ≡ saved w → IsOld e saved w₀ w → IsOld e saved w₀ w₁
      kept w₁ k (inl a) = inl (k ∙ a)
      kept w₁ k (inr a) = inr (k ∙ a)

      broken :
          (w₁ : W) (x : Error)
          → (e.store.checkpoint c w₁).0 ≡ err x
          → e.store.checkpoint c w₁ ≡ (err x, (e.store.checkpoint c w₁).1)
      broken w₁ x failed =
          ap
            (λ (r : Result (Unit {0}) Error).
              let q : Result (Unit {0}) Error × W = (r, (e.store.checkpoint c w₁).1) in q)
            failed

  apply_today-AppliedFrom :
      (today : ℕ) (adds : List MessageMeta) (plan : PlannedChanges) (final : SourceState)
      (s : BackupSummary) (w₀ w : W)
      → s.interrupted ≡ false
      → IsHeld e saved w₀ w
      → Post
          (Applied plan final w₀)
          (FailedAt e saved final w₀)
          (apply_today e today adds plan final s w)
  unfolding apply_today live_events
  apply_today-AppliedFrom today adds plan final s w₀ w h held =
      Post-after (λ fetched. IsHeld e saved w₀) (λ x. IsHeld e saved w₀) _ _ (fetch_raw e adds w) _
        (Post-Keeps w (fetch_raw-still e saved store outside untouched Given giving w₀ adds) held)
        (λ x w' k. inl (early e saved store outside untouched Given giving w₀ x w' k))
        (λ fetched w' held'.
          Post-after
            (λ t w''.
              (t.interrupted ≡ s.interrupted)
              × IsHeld e saved w₀ w''
              × AllGiven (live_events e fetched plan w') w'')
            (λ x. IsHeld e saved w₀) _ _ (apply_live e (live_events e fetched plan w') s w') _
            (apply_live-Given (live_events e fetched plan w') s w₀ w' held')
            (λ x w'' k. inl (early e saved store outside untouched Given giving w₀ x w'' k))
            (λ t w'' k. conclude-AppliedFrom _ plan final t w₀ w'' (k.0 ∙ h) k.1 (
              All-second _ (updated_events e plan.updates w') (events_of plan) (
                All-second _ (added_events e fetched w')
                  (updated_events e plan.updates w' ++ events_of plan) k.2))))

  -- What follows the loop over the days.
  after_days-AppliedFrom :
      (today : ℕ) (adds : List MessageMeta) (plan : PlannedChanges) (final : SourceState)
      (s : BackupSummary) (w₀ w : W)
      → IsHeld e saved w₀ w
      → Post
          (Applied plan final w₀)
          (FailedAt e saved final w₀)
          (after_days e today adds plan final s w)
  unfolding after_days
  after_days-AppliedFrom today adds plan final s w₀ w held = elim (Bool-cases s.interrupted) [
    | inl on ↦ simp on ((λ _. held), (λ off. cc))
    | inr off ↦ simp off (
        stop_or_go (e.around.cancelled w).0 off
          ((cancelled-still e saved store outside untouched Given giving w₀).at w held))
  ]
    where
      stop_or_go :
          (stop : Bool)
          → s.interrupted ≡ false
          → IsHeld e saved w₀ (e.around.cancelled w).1
          → Post (Applied plan final w₀) (FailedAt e saved final w₀) (
              (if stop
                  then pure (record s { interrupted = true })
                  else apply_today e today adds plan final s)
                (e.around.cancelled w).1)
      stop_or_go true off kept = ((λ _. kept), (λ bad. cc))
      stop_or_go false off kept = apply_today-AppliedFrom today adds plan final s w₀ _ off kept

  -- Outside a dry run, `apply_planned` moves the synchronisation cursor with its concluding checkpoint
  -- only. Where it is interrupted, the progress in memory is what it was, and so is what is saved, or it
  -- is the former progress. Where it completes, the progress is the final state and the former backfill,
  -- in memory and saved, and the store has been given each planned deletion of a message or a mailbox.
  -- Where it fails, the progress in memory and what is saved are old in the same way, except that a
  -- failed checkpoint of that progress may have left anything saved; or the failure is that of a
  -- checkpoint which began with the final state in memory and nothing newer than the former progress
  -- saved, and which left the final state in memory.
  pub apply_planned-AppliedFrom :
      (plan : PlannedChanges) (final : SourceState) (w : W)
      → e.options.dry_run ≡ false
      → Post (Applied plan final w) (FailedAt e saved final w) (apply_planned e plan final w)
  unfolding apply_planned
  apply_planned-AppliedFrom plan final w real = simp real (
      Post-after (λ u. IsHeld e saved w) (λ x. IsHeld e saved w) _ _
        (apply_upserts e plan.mailbox_upserts w) _
        (Post-Keeps w
          (apply_upserts-still e saved store outside untouched Given giving w plan.mailbox_upserts)
          (refl, inl refl))
        (λ x w' held. inl (early e saved store outside untouched Given giving w x w' held))
        (λ u w' held.
          let (today, w'') = e.around.today w' in
          let groups = group_by_day plan.adds in
          Post-after (λ s. IsHeld e saved w) (FailedEarly e saved w) _ _
            (apply_days e (without_day today groups) no_changes w'') _
            (apply_days-Held e saved store outside untouched Given giving (without_day today groups)
              no_changes w w''
              ((still e saved store outside untouched Given giving w (total e.around.today)
                  outside.view-today untouched.view-today).at
                w' held))
            (λ x w₂ f. inl f)
            (λ s w₂ held'.
              after_days-AppliedFrom today (group_of today groups) plan final s w w₂ held')))
