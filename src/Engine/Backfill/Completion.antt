-- ===== src/Engine/Backfill/Completion.antt =====
-- engine/backfill.rs: how a whole `run` ends, and the progress.
use mail_backup.Base.{
  Bool, true, false, not, ◌||◌, is_empty, none, some, List, Result, Error, pure, modify, when,
  ◌>>=◌, ◌>>◌, Keeps, Keeps-pure, Keeps-bind, Keeps-if, Post, Post-after, Post-intro, Post-Keeps,
  ◌≡◌, refl, ◌∙◌, ap, ◌⊎◌, inl, inr, Bool-cases, if◌then◌else◌,
}
use mail_backup.Entities.{MessageMeta, SourceState}
use mail_backup.Messages.{MailEvent}
use mail_backup.Stores.{BackupSummary, BackfillCursor}
use mail_backup.Stores.Laws.{Progress, progress, IsStore, Outside}
use mail_backup.Engine.Setup.{Setup, cancelled}
use mail_backup.Engine.Plan.{mailbox_events}
use mail_backup.Engine.Apply.Cursor.{At, cancelled-Keeps, apply-Keeps}
use mail_backup.Engine.Apply.Cursor.{mailbox_events-Keeps}
use mail_backup.Engine.Backfill.{
  Walk, starting_cursor, set_backfill, walk, last_day, set_complete, complete_walk, apply_upserts,
  run_backfill,
}
use mail_backup.Engine.Backfill.Anchor.{
  SameStart, Anchored, Kept, lifted, walk-Anchored, last_day-Anchored,
}

module _ {W : Type 0} (e : Setup W) (saved : W → Progress) where
  -- A completed backfill: the captured states are the cursor, in memory and saved.
  abbrev pub Caught : SourceState → BackfillCursor → Progress
  Caught src start = (
    record src { email_state = start.start_email_state; mailbox_state = start.start_mailbox_state },
    none,
  )

  abbrev pub Filled : SourceState → BackfillCursor → BackupSummary → W → Type 0
  Filled src start s w =
      (s.interrupted ≡ true → Anchored e src start w)
      × (s.interrupted ≡ false
          → (progress (e.store.state w) ≡ Caught src start) × (saved w ≡ Caught src start))

  abbrev pub FillFailed : SourceState → BackfillCursor → Error → W → Type 0
  FillFailed src start x w =
      Anchored e src start w ⊎ (progress (e.store.state w) ≡ Caught src start)

module _ {W : Type 0} (e : Setup W) (saved : W → Progress) (store : IsStore e.store saved)
    (outside : Outside e.source e.around e.store.state) (src : SourceState)
    (start : BackfillCursor) where
  set_complete-Caught :
      (c : BackfillCursor) (w : W)
      → SameStart start c
      → Anchored e src start w
      → progress (e.store.state (set_complete e c w)) ≡ (Caught e saved src start)
  unfolding set_complete
  set_complete-Caught c w h k =
      ap progress (store.state-set_state _ w)
      ∙ rw (h.0, h.1)
          (ap
            (λ (q : Progress).
              let r : Progress = (
                record q.0 {
                  email_state = start.start_email_state;
                  mailbox_state = start.start_mailbox_state;
                },
                none,
              ) in
              r)
            k.1)

  save-Filled :
      (k : Walk) (w : W)
      → Kept e src start k.run w
      → Post
          (Filled e saved src start)
          (FillFailed e saved src start)
          ((modify (set_complete e k.run.cursor) >> (e.store.save_state >> pure k.run.summary)) w)
  save-Filled k w h =
      let w₁ = set_complete e k.run.cursor w in
      let caught = set_complete-Caught k.run.cursor w h.0.0 h.1 in
      Post-after
        (λ x w'.
          (progress (e.store.state w') ≡ (Caught e saved src start))
          × (saved w' ≡ (Caught e saved src start)))
        (FillFailed e saved src start) _ _ (e.store.save_state w₁) _
        (Post-intro _ _ (e.store.save_state w₁)
          (λ u done. (store.state-save_state w₁ ∙ caught, store.saved-save_state w₁ done ∙ caught))
          (λ x failed. inr (store.state-save_state w₁ ∙ caught)))
        (λ x w' f. f) (λ u w' both. ((λ on. absurd (on_off on h.0.1)), (λ off. both)))
    where
      on_off : {b : Bool} → b ≡ true → b ≡ false → ⊥
      on_off x y = cc

  complete_walk-Filled :
      (k : Walk) (w : W)
      → e.options.dry_run ≡ false
      → Kept e src start k.run w
      → Post (Filled e saved src start) (FillFailed e saved src start) (complete_walk e k w)
  unfolding complete_walk
  complete_walk-Filled k w real h = simp real (elim (Bool-cases k.interrupted) [
    | inl on ↦ simp on ((λ _. h.1), (λ off. cc))
    | inr off ↦ simp off (
        stop_or_go (e.around.cancelled w).0 (
          (lifted e saved store outside src start (cancelled e)
              (cancelled-Keeps e saved store outside)).at
            w h.1))
  ])
    where
      stop_or_go :
          (stop : Bool)
          → Anchored e src start (e.around.cancelled w).1
          → Post (Filled e saved src start) (FillFailed e saved src start) (
              (if stop then pure (record k.run.summary { interrupted = true }) else (do
                modify (set_complete e k.run.cursor)
                e.store.save_state
                pure k.run.summary))
                (e.around.cancelled w).1)
      stop_or_go true kept = ((λ _. kept), (λ off. cc))
      stop_or_go false kept = save-Filled k _ (h.0, kept)

  apply_upserts-Keeps : (p : Progress) (es : List MailEvent) → Keeps (At e p) (apply_upserts e es)
  unfolding apply_upserts
  apply_upserts-Keeps p es =
      Keeps-if (e.options.dry_run || is_empty es) (pure tt) _ (Keeps-pure tt) (
        Keeps-bind (e.store.apply es) _ (apply-Keeps e saved store outside p es)
          λ outcomes. Keeps-pure tt)

  -- Everything after the cursor is set.
  after_cursor :
      (k : Walk) (items : List (Result MessageMeta Error)) (w : W)
      → e.options.dry_run ≡ false
      → Kept e src start k.run w
      → Post
          (Filled e saved src start)
          (FillFailed e saved src start)
          ((walk e items k >>= λ k'. last_day e k' >>= complete_walk e) w)
  after_cursor k items w real h =
      Post-after (λ k' w'. Kept e src start k'.run w') (λ x. Anchored e src start) _ _ _ _
        (walk-Anchored e saved store outside src start items k w h) (λ x w' kept. inl kept)
        (λ k' w' kept.
          Post-after (λ k'' w''. Kept e src start k''.run w'') (λ x. Anchored e src start) _ _ _ _
            (last_day-Anchored e saved store outside src start k' w' kept)
            (λ x w'' still. inl still) (λ k'' w'' still. complete_walk-Filled k'' w'' real still))

module _ {W : Type 0} (e : Setup W) (saved : W → Progress) (store : IsStore e.store saved)
    (outside : Outside e.source e.around e.store.state) where
  set_backfill_begun :
      (start : BackfillCursor) (w : W)
      → Anchored e (e.store.state w).source start (set_backfill e (some start) w)
  unfolding set_backfill
  set_backfill_begun start w = (_, ap progress (store.state-set_state _ w), (refl, refl))

  when_begun :
      (start : BackfillCursor) (w : W)
      → e.options.dry_run ≡ false
      → Post
          (λ x. Anchored e (e.store.state w).source start)
          (λ x. Anchored e (e.store.state w).source start)
          (when (not e.options.dry_run) (modify (set_backfill e (some start))) w)
  when_begun start w real = simp real (set_backfill_begun start w)

  -- Outside a dry run, a backfill, new or resumed, leaves the synchronisation cursor as it was where
  -- it is interrupted, with a backfill cursor that holds the states captured when the backfill first
  -- began. Where it completes, these states are the synchronisation cursor and no backfill is left,
  -- in memory and saved. Where it fails, it leaves what an interruption leaves, or, in memory, what a
  -- completion leaves.
  pub run_backfill-Filled :
      (connected : SourceState) (w : W)
      → e.options.dry_run ≡ false
      → let start = starting_cursor (e.store.state w).backfill connected in
        Post
          (Filled e saved (e.store.state w).source start)
          (FillFailed e saved (e.store.state w).source start)
          (run_backfill e connected w)
  unfolding run_backfill
  run_backfill-Filled connected w real =
      let src = (e.store.state w).source in
      let start = starting_cursor (e.store.state w).backfill connected in
      Post-after (λ x. Anchored e src start) (λ x. Anchored e src start) _ _ _ _
        (when_begun start w real) (λ x w' kept. inl kept)
        (λ x w₁ k₁.
          Post-after (λ x. Anchored e src start) (λ x. Anchored e src start) _ _
            (mailbox_events e w₁) _
            (Post-Keeps w₁
              (lifted e saved store outside src start (mailbox_events e)
                (mailbox_events-Keeps e saved store outside))
              k₁)
            (λ x w' kept. inl kept)
            (λ events w₂ k₂.
              Post-after (λ x. Anchored e src start) (λ x. Anchored e src start) _ _
                (apply_upserts e events.0 w₂) _
                (Post-Keeps w₂
                  (lifted e saved store outside src start (apply_upserts e events.0)
                    (λ p. apply_upserts-Keeps e saved store outside src start p _))
                  k₂)
                (λ x w' kept. inl kept)
                (λ u w₃ k₃. after_cursor e saved store outside src start _ _ _ real (
                  ((refl, refl), refl),
                  (k₃.0, ap progress (outside.view-enumerate _ w₃) ∙ k₃.1, k₃.2),
                ))))
