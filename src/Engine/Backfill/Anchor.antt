-- ===== src/Engine/Backfill/Anchor.antt =====
-- engine/backfill.rs: the loop over the messages, and the backfill's cursor.
use mail_backup.Base.{
  ℕ, Bool, true, false, ◌||◌, is_empty, Option, none, some, List, [], ◌∷◌, ◌++◌, Result, ok, err,
  Error, Exec, pure, ◌>>=◌, Keeps, Post, Post-after, Post-lift, Post-Keeps, ◌≡◌, ◌∙◌, ap, inl, inr,
  Bool-cases, if◌then◌else◌, ◌==◌, nat_eq,
}
use mail_backup.Entities.{MessageMeta, SourceState, received_day}
use mail_backup.Stores.{BackfillCursor}
use mail_backup.Stores.Laws.{Progress, progress, IsStore, Outside}
use mail_backup.Engine.Summary.{counted-record_all}
use mail_backup.Engine.Setup.{Setup, cancelled, matches_filter}
use mail_backup.Engine.Apply.{fetch_raw, added_events}
use mail_backup.Engine.Apply.Cursor.{
  At, cancelled-Keeps, fetch_raw-Keeps, apply-Keeps, checkpoint-Keeps,
}
use mail_backup.Engine.Backfill.{
  BackfillRun, DayPlan, Walk, advanced, set_backfill, commit_day, finalize_day, sort_day, close_day,
  turn_day, walk, close_last, last_day,
}
use mail_backup.Engine.Sync.{held}

-- The cursor still holds the captured states.
abbrev pub SameStart : BackfillCursor → BackfillCursor → Type 0
SameStart start c =
    (c.start_email_state ≡ start.start_email_state)
    × (c.start_mailbox_state ≡ start.start_mailbox_state)

-- The variables of an uninterrupted run.
abbrev pub Running : BackfillCursor → BackfillRun → Type 0
Running start r = SameStart start r.cursor × (r.summary.interrupted ≡ false)

module _ {W : Type 0} (e : Setup W) where
  -- The synchronisation cursor is `src`, and the backfill's holds the captured states.
  abbrev pub Anchored : SourceState → BackfillCursor → W → Type 0
  Anchored src start w = (c : BackfillCursor) × At e (src, some c) w × SameStart start c

  abbrev pub Kept : SourceState → BackfillCursor → BackfillRun → W → Type 0
  Kept src start r w = Running start r × Anchored src start w

module _ {W : Type 0} (e : Setup W) (saved : W → Progress) (store : IsStore e.store saved)
    (outside : Outside e.source e.around e.store.state) (src : SourceState)
    (start : BackfillCursor) where
  pub lifted :
      {A : Type 0} (m : Exec W A)
      → ((p : Progress) → Keeps (At e p) m)
      → Keeps (Anchored e src start) m
  lifted m h = record { at = λ w k. (k.0, (h (src, some k.0)).at w k.1, k.2) }

  pub set_backfill-Anchored :
      (c : BackfillCursor) (w : W)
      → SameStart start c
      → Anchored e src start w
      → Anchored e src start (set_backfill e (some c) w)
  unfolding set_backfill
  set_backfill-Anchored c w h k = (
    c,
    ap progress (store.state-set_state _ w)
        ∙ ap (λ (s : SourceState). let q : Progress = (s, some c) in q)
            (ap (λ (q : Progress). q.0) k.1),
    h,
  )

  commit_day-Anchored :
      (day : ℕ) (metas to_fetch : List MessageMeta) (r : BackfillRun) (w : W)
      → Running start r
      → Anchored e src start w
      → Post
          (λ r' w'. Running start r' × Anchored e src start w')
          (λ x. Anchored e src start)
          (commit_day e day metas to_fetch r w)
  unfolding commit_day advanced
  commit_day-Anchored day metas to_fetch r w h k =
      Post-after (λ f. Anchored e src start) (λ x. Anchored e src start) _ _
        (fetch_raw e to_fetch w) _
        (Post-Keeps w
          (lifted (fetch_raw e to_fetch) (λ p. fetch_raw-Keeps e saved store outside p to_fetch)) k)
        (λ x w' kept. kept)
        (λ f w₁ k₁.
          Post-after (λ os. Anchored e src start) (λ x. Anchored e src start) _ _
            (e.store.apply (added_events e f w₁) w₁) _
            (Post-Keeps w₁
              (lifted (e.store.apply (added_events e f w₁))
                (λ p. apply-Keeps e saved store outside p _))
              k₁)
            (λ x w' kept. kept)
            (λ os w₂ k₂.
              let c = advanced r.cursor day metas in
              let w₃ = set_backfill e (some c) w₂ in
              Post-after (λ u. Anchored e src start) (λ x. Anchored e src start) _ _
                (e.store.checkpoint _ w₃) _
                (Post-Keeps w₃
                  (lifted (e.store.checkpoint _) (λ p. checkpoint-Keeps e saved store outside p _))
                  (set_backfill-Anchored c w₂ h.0 k₂))
                (λ x w' kept. kept)
                (λ u w₄ k₄. ((h.0, (counted-record_all r.summary os).1 ∙ h.1), k₄))))

  sorted-Anchored :
      (day : ℕ) (metas : List MessageMeta) (w : W)
      → Anchored e src start w
      → Post {A = DayPlan}
          (λ d. Anchored e src start)
          (λ x. Anchored e src start)
          (
            sort_day
                (matches_filter e w)
                (held e w)
                metas
                (record { day_skipped = 0; day_unchanged = 0; to_fetch = [] }),
            w,
          )
  sorted-Anchored day metas w k =
      Post-lift (Anchored e src start)
        (sort_day (matches_filter e w) (held e w) metas
          (record { day_skipped = 0; day_unchanged = 0; to_fetch = [] }))
        w k

  finalize_day-Anchored :
      (day : ℕ) (metas : List MessageMeta) (r : BackfillRun) (w : W)
      → (Kept e src start) r w
      → Post (Kept e src start) (λ x. Anchored e src start) (finalize_day e day metas r w)
  unfolding finalize_day
  finalize_day-Anchored day metas r w k = elim (Bool-cases e.options.dry_run) [
    | inl dry ↦ simp dry (
        Post-after {A = DayPlan} (λ d. Anchored e src start) (λ x. Anchored e src start) _ _ _ _
          (sorted-Anchored day metas w k.1) (λ x w' kept. kept) (λ d w' kept. (k.0, kept)))
    | inr real ↦ simp real (
        Post-after {A = DayPlan} (λ d. Anchored e src start) (λ x. Anchored e src start) _ _ _ _
          (sorted-Anchored day metas w k.1) (λ x w' kept. kept)
          (λ d w' kept. commit_day-Anchored day metas d.to_fetch _ w' k.0 kept))
  ]

  close_day-Anchored :
      (day : ℕ) (k : Walk) (w : W)
      → (Kept e src start) k.run w
      → Post
          (λ k' w'. (Kept e src start) k'.run w')
          (λ x. Anchored e src start)
          (close_day e day k w)
  unfolding close_day
  close_day-Anchored day k w h =
      Post-after (Kept e src start) (λ x. Anchored e src start) _ _ _ _
        (finalize_day-Anchored day k.pending k.run w h) (λ x w' kept. kept) (λ r w' kept. kept)

  turn_day-Anchored :
      (current : Option ℕ) (day : ℕ) (k : Walk) (w : W)
      → (Kept e src start) k.run w
      → Post
          (λ k' w'. (Kept e src start) k'.run w')
          (λ x. Anchored e src start)
          (turn_day e current day k w)
  unfolding turn_day
  turn_day-Anchored none day k w h = h
  turn_day-Anchored (some current) day k w h = elim (Bool-cases (day == current)) [
    | inl same ↦ rw same h
    | inr other ↦ rw other (close_day-Anchored current k w h)
  ]

  pub walk-Anchored :
      (items : List (Result MessageMeta Error)) (k : Walk) (w : W)
      → (Kept e src start) k.run w
      → Post (λ k' w'. (Kept e src start) k'.run w') (λ x. Anchored e src start) (walk e items k w)
  unfolding walk
  walk-Anchored [] k w h = h
  walk-Anchored (err x ∷ items) k w h = h.1
  walk-Anchored (ok meta ∷ items) k w h =
      go_on (e.around.cancelled w).0
        ((lifted (cancelled e) (cancelled-Keeps e saved store outside)).at w h.1)
        (walk-Anchored items)
    where
      go_on :
          (stop : Bool)
          → Anchored e src start (e.around.cancelled w).1
          → ((k' : Walk) (w' : W)
              → (Kept e src start) k'.run w'
              → Post
                  (λ k'' w''. (Kept e src start) k''.run w'')
                  (λ x. Anchored e src start)
                  (walk e items k' w'))
          → Post
              (λ k' w'. (Kept e src start) k'.run w')
              (λ x. Anchored e src start)
              ((if stop then pure (record k { interrupted = true }) else (do
                k' ← turn_day e k.current_day (received_day meta) k
                walk e items (record k' {
                  current_day = some (received_day meta);
                  pending = k'.pending ++ meta ∷ [];
                })))
                (e.around.cancelled w).1)
      go_on true kept more = (h.0, kept)
      go_on false kept more =
          Post-after (λ k' w'. (Kept e src start) k'.run w') (λ x. Anchored e src start) _ _ _ _
            (turn_day-Anchored k.current_day (received_day meta) k _ (h.0, kept))
            (λ x w' still. still) (λ k' w' still. more _ w' still)

  close_last-Anchored :
      (current : Option ℕ) (k : Walk) (w : W)
      → (Kept e src start) k.run w
      → Post
          (λ k' w'. (Kept e src start) k'.run w')
          (λ x. Anchored e src start)
          (close_last e current k w)
  unfolding close_last
  close_last-Anchored none k w h = h
  close_last-Anchored (some day) k w h = close_day-Anchored day k w h

  pub last_day-Anchored :
      (k : Walk) (w : W)
      → (Kept e src start) k.run w
      → Post (λ k' w'. (Kept e src start) k'.run w') (λ x. Anchored e src start) (last_day e k w)
  unfolding last_day
  last_day-Anchored k w h = elim (Bool-cases (k.interrupted || is_empty k.pending)) [
    | inl nothing ↦ rw nothing h
    | inr some_left ↦ rw some_left (close_last-Anchored k.current_day k w h)
  ]
