-- ===== src/Engine/Apply/Holding.antt =====
-- engine/mod.rs: `apply_planned`, the progress, and what the store is given.
use mail_backup.Base.{
  ℕ, Bool, true, false, List, [], ◌∷◌, pure, Keeps, Keeps-pure, Keeps-bind, keeps_rules, Post,
  Post-after, Post-intro, Post-Keeps, ◌≡◌, ◌∙◌, ap, ◌⊎◌, inl, inr, if◌then◌else◌,
}
use mail_backup.Entities.{MessageMeta, SourceState}
use mail_backup.Messages.{MailEvent}
use mail_backup.Base.{Result, ◌>>=◌}
use mail_backup.Stores.{BackupSummary, EventOutcome, Checkpoint, StoreState}
use mail_backup.Stores.Laws.{Progress, progress, IsStore, Outside}
use mail_backup.Engine.Grouping.{Groups}
use mail_backup.Engine.Setup.{Setup, cancelled}
use mail_backup.Engine.Plan.{PlannedChanges}
use mail_backup.Engine.Apply.{download, fetch_raw, apply_day, apply_days, apply_upserts}
use mail_backup.Engine.Apply.Cursor.{At}
use mail_backup.Base.{err, ok, Error, Exec, All, map, ◌++◌}
use mail_backup.Messages.{message_deleted}

module _ {W : Type 0} (e : Setup W) (saved : W → Progress) where
  -- What is saved is what it was at `w₀`, or the progress that was in memory there.
  abbrev pub IsOld : W → W → Type 0
  IsOld w₀ w = (saved w ≡ saved w₀) ⊎ (saved w ≡ progress (e.store.state w₀))

  -- The progress is that of `w₀`.
  abbrev pub IsHeld : W → W → Type 0
  IsHeld w₀ w = At e (progress (e.store.state w₀)) w × IsOld w₀ w

  -- The failure `x` was that of a checkpoint from `v`, which ended in `w`.
  abbrev pub Broke : W → Error → W → Type 0
  Broke v x w = (c : Checkpoint) × (e.store.checkpoint c v ≡ (err x, w))

  -- The progress in memory is that of `w₀`, and what is saved is old, unless a checkpoint of this
  -- progress failed.
  abbrev pub FailedEarly : W → Error → W → Type 0
  FailedEarly w₀ x w =
      At e (progress (e.store.state w₀)) w × (IsOld w₀ w ⊎ ((v : W) × IsHeld w₀ v × Broke v x w))

  -- What a failure leaves: that, or, where the failure is that of the concluding checkpoint, the final
  -- state in memory; what was saved before this checkpoint is old.
  abbrev pub FailedAt : SourceState → W → Error → W → Type 0
  FailedAt final w₀ x w =
      FailedEarly w₀ x w
      ⊎ ((v : W) × At e (final, (e.store.state w₀).backfill) v
          × IsOld w₀ v
          × Broke v x w
          × At e (final, (e.store.state w₀).backfill) w)

  -- After the concluding part: the final state, in memory and saved.
  abbrev pub Committed : SourceState → W → W → Type 0
  Committed final w₀ w =
      At e (final, (e.store.state w₀).backfill) w × (saved w ≡ (final, (e.store.state w₀).backfill))

-- What is known from `w`, where the progress is that of `w₀`, is known from `w₀`.
module _ {W : Type 0} (e : Setup W) (saved : W → Progress) (w₀ w : W)
    (k : IsHeld e saved w₀ w) where
  IsOld-from : (w' : W) → IsOld e saved w w' → IsOld e saved w₀ w'
  IsOld-from w' (inl a) = was k.1
    where
      was : IsOld e saved w₀ w → IsOld e saved w₀ w'
      was (inl b) = inl (a ∙ b)
      was (inr b) = inr (a ∙ b)
  IsOld-from w' (inr a) = inr (a ∙ k.0)

  pub IsHeld-from : (w' : W) → IsHeld e saved w w' → IsHeld e saved w₀ w'
  IsHeld-from w' h = (h.0 ∙ k.0, IsOld-from w' h.1)

  FailedEarly-from : (x : Error) (w' : W) → FailedEarly e saved w x w' → FailedEarly e saved w₀ x w'
  FailedEarly-from x w' (h, inl a) = (h ∙ k.0, inl (IsOld-from w' a))
  FailedEarly-from x w' (h, inr (v, held, broke)) = (h ∙ k.0, inr (v, IsHeld-from v held, broke))

  same_backfill :
      (final : SourceState)
      → ◌≡◌ {A = Progress} (final, (e.store.state w).backfill) (final, (e.store.state w₀).backfill)
  same_backfill final = ap (λ (p : Progress). let q : Progress = (final, p.1) in q) k.0

  pub Committed-from :
      (final : SourceState) (w' : W) → Committed e saved final w w' → Committed e saved final w₀ w'
  Committed-from final w' c = (c.0 ∙ same_backfill final, c.1 ∙ same_backfill final)

  pub FailedAt-from :
      (final : SourceState) (x : Error) (w' : W)
      → FailedAt e saved final w x w'
      → FailedAt e saved final w₀ x w'
  FailedAt-from final x w' (inl f) = inl (FailedEarly-from x w' f)
  FailedAt-from final x w' (inr (v, h, old, broke, h')) =
      inr (v, h ∙ same_backfill final, IsOld-from v old, broke, h' ∙ same_backfill final)

-- `Given` says of a world that its store has been given an event.
pub record IsGiving {W : Type 0} (e : Setup W) (Given : MailEvent → W → Type 0) : Type 0 where
  pub given-apply :
      (es : List MailEvent) (w : W) (os : List EventOutcome)
      → (e.store.apply es w).0 ≡ ok os
      → All (λ event. Given event (e.store.apply es w).1) es
  pub given-set_state :
      (s : StoreState) (event : MailEvent) (w : W)
      → Given event w
      → Given event (e.store.set_state s w)
  pub given-checkpoint :
      (c : Checkpoint) (event : MailEvent) (w : W)
      → Given event w
      → Given event (e.store.checkpoint c w).1

module _ {W : Type 0} (e : Setup W) (saved : W → Progress) (store : IsStore e.store saved)
    (outside : Outside e.source e.around e.store.state)
    (untouched : Outside e.source e.around saved) (Given : MailEvent → W → Type 0)
    (giving : IsGiving e Given) where
  -- The events that do not depend on a download.
  abbrev pub concluding : PlannedChanges → List MailEvent
  concluding plan = map message_deleted plan.deletes ++ plan.mailbox_deletions

  -- A result of `apply_planned` from the world `w₀`.
  abbrev pub AppliedFrom : PlannedChanges → SourceState → W → BackupSummary → W → Type 0
  AppliedFrom plan final w₀ s w =
      (s.interrupted ≡ true → IsHeld e saved w₀ w)
      × (s.interrupted ≡ false
          → Committed e saved final w₀ w × All (λ event. Given event w) (concluding plan))

  pub still :
      {A : Type 0} (w₀ : W) (m : Exec W A)
      → ((w : W) → e.store.state (m w).1 ≡ e.store.state w)
      → ((w : W) → saved (m w).1 ≡ saved w)
      → Keeps (IsHeld e saved w₀) m
  still w₀ m h k = record { at = λ w held. (ap progress (h w) ∙ held.0, old w held.1) }
    where
      old : (w : W) → IsOld e saved w₀ w → IsOld e saved w₀ (m w).1
      old w (inl a) = inl (k w ∙ a)
      old w (inr a) = inr (k w ∙ a)

  pub cancelled-still : (w₀ : W) → Keeps (IsHeld e saved w₀) (cancelled e)
  cancelled-still w₀ = still w₀ (cancelled e) outside.view-cancelled untouched.view-cancelled

  pub apply-still : (w₀ : W) (es : List MailEvent) → Keeps (IsHeld e saved w₀) (e.store.apply es)
  apply-still w₀ es = still w₀ (e.store.apply es) (store.state-apply es) (store.saved-apply es)

  download-still :
      (w₀ : W) (metas : List MessageMeta) → Keeps (IsHeld e saved w₀) (download e metas)
  unfolding download
  download-still w₀ [] = search keeps_rules
  download-still w₀ (m ∷ metas) =
      Keeps-bind (e.source.fetch_blob m.blob_id) _
        (still w₀ _ (outside.view-fetch_blob m.blob_id) (untouched.view-fetch_blob m.blob_id))
        (λ raw. Keeps-bind (download e metas) _ (download-still w₀ metas) (λ rest. Keeps-pure _))

  pub fetch_raw-still :
      (w₀ : W) (metas : List MessageMeta) → Keeps (IsHeld e saved w₀) (fetch_raw e metas)
  unfolding fetch_raw
  fetch_raw-still w₀ metas = search (keeps_rules, download-still)

  pub apply_upserts-still :
      (w₀ : W) (es : List MailEvent) → Keeps (IsHeld e saved w₀) (apply_upserts e es)
  unfolding apply_upserts
  apply_upserts-still w₀ es = search (keeps_rules, apply-still)

  -- A checkpoint of the progress of `w₀`.
  checkpoint-Held :
      (c : Checkpoint) (w₀ w : W)
      → IsHeld e saved w₀ w
      → Post (λ u. IsHeld e saved w₀) (FailedEarly e saved w₀) (e.store.checkpoint c w)
  checkpoint-Held c w₀ w held =
      let here = store.state-checkpoint c w ∙ held.0 in
      Post-intro _ _ (e.store.checkpoint c w)
        (λ u done. (here, inr (store.saved-checkpoint c w done ∙ held.0)))
        (λ x failed. (
          here,
          inr (
            w,
            held,
            (
              c,
              ap
                  (λ (r : Result (Unit {0}) Error).
                    let q : Result (Unit {0}) Error × W = (r, (e.store.checkpoint c w).1) in q)
                  failed,
            ),
          ),
        ))

  -- A step that cannot fail otherwise.
  pub early : (w₀ : W) (x : Error) (w : W) → IsHeld e saved w₀ w → FailedEarly e saved w₀ x w
  early w₀ x w held = (held.0, inl held.1)

  apply_day-Held :
      (day : ℕ) (metas : List MessageMeta) (s : BackupSummary) (w₀ w : W)
      → IsHeld e saved w₀ w
      → Post (λ t. IsHeld e saved w₀) (FailedEarly e saved w₀) (apply_day e day metas s w)
  unfolding apply_day
  apply_day-Held day metas s w₀ w held =
      Post-after (λ fetched. IsHeld e saved w₀) (λ x. IsHeld e saved w₀) _ _ (fetch_raw e metas w) _
        (Post-Keeps w (fetch_raw-still w₀ metas) held) (early w₀)
        λ fetched w₁ held₁.
          Post-after (λ os. IsHeld e saved w₀) (λ x. IsHeld e saved w₀) _ _ (e.store.apply _ w₁) _
            (Post-Keeps w₁ (apply-still w₀ _) held₁) (early w₀)
            λ os w₂ held₂.
              Post-after (λ u. IsHeld e saved w₀) (FailedEarly e saved w₀) _ _
                (e.store.checkpoint _ w₂) _ (checkpoint-Held _ w₀ w₂ held₂) (λ x w' f. f)
                (λ u w' held'. held')

  pub apply_days-Held :
      (groups : Groups) (s : BackupSummary) (w₀ w : W)
      → IsHeld e saved w₀ w
      → Post (λ t. IsHeld e saved w₀) (FailedEarly e saved w₀) (apply_days e groups s w)
  unfolding apply_days
  apply_days-Held [] s w₀ w held = held
  apply_days-Held ((day, metas) ∷ groups) s w₀ w held =
      go_on (e.around.cancelled w).0 ((cancelled-still w₀).at w held)
        (λ t v. apply_days-Held groups t w₀ v)
    where
      go_on :
          (stop : Bool)
          → IsHeld e saved w₀ (e.around.cancelled w).1
          → ((t : BackupSummary) (v : W)
              → IsHeld e saved w₀ v
              → Post (λ t. IsHeld e saved w₀) (FailedEarly e saved w₀) (apply_days e groups t v))
          → Post
              (λ t. IsHeld e saved w₀)
              (FailedEarly e saved w₀)
              ((if stop
                  then pure (record s { interrupted = true })
                  else (do summary' ← apply_day e day metas s; apply_days e groups summary'))
                (e.around.cancelled w).1)
      go_on true held' more = held'
      go_on false held' more =
          Post-after (λ t. IsHeld e saved w₀) (FailedEarly e saved w₀) _ _
            (apply_day e day metas s _) _ (apply_day-Held day metas s w₀ _ held') (λ x w' f. f) more
