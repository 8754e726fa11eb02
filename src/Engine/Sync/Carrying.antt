-- ===== src/Engine/Sync/Carrying.antt =====
-- engine/sync.rs: what `run` fetches, plans and applies of the pages of changes.
use mail_backup.Base.{
  true, ◌&&◌, List, [], ◌++◌, Result, ok, err, Error, Post, Post-after, Post-weaken, Post-intro,
  ◌≡◌, refl, ap, arith, ◌⊎◌, inl, inr, Bool-cases, ◌==◌, after,
}
use mail_backup.Entities.{MessageMeta, state_eq}
use mail_backup.Stores.{BackupSummary}
use mail_backup.Engine.Summary.{no_changes}
use mail_backup.Engine.Changes.{dedupe_changes}
use mail_backup.Engine.Setup.{Setup, matches_filter}
use mail_backup.Engine.Plan.{PlannedChanges, Planning, plans_nothing, plan_messages}
use mail_backup.Engine.Apply.{apply_planned}
use mail_backup.Engine.Sync.{
  Gathered, plan_mailboxes, plan_message_changes, held, apply_gathered, settle,
}

returned : {W A : Type 0} (p : Result A Error × W) (r : Result A Error) → p.0 ≡ r → p ≡ (r, p.1)
returned {W = W} {A = A} p r h = ap (λ s. let q : Result A Error × W = (s, p.1) in q) h

module _ {W : Type 0} (e : Setup W) where
  -- The plan, with the deletions that the pages call for.
  abbrev pub with_destroyed : Gathered → Planning → PlannedChanges
  with_destroyed g planned = record planned.plan {
    deletes = planned.plan.deletes ++ (dedupe_changes g.created g.updated g.destroyed).2;
  }

  -- The mailboxes have been compared where they changed. In `v`, what is created and what is updated by the pages has been fetched, and planned by the
  -- filter and the store; then there was nothing to do, or `apply_planned` has done it all.
  abbrev pub Carried : Gathered → W → Type 0
  Carried g w =
      (mailboxes : PlannedChanges) × (created : List MessageMeta) × (updated : List MessageMeta)
      × (planned : Planning) × (v₀ : W) × (v₁ : W) × (v₂ : W) × (v : W) × (plan_mailboxes e
            g.mailboxes_changed v₀
          ≡ (ok mailboxes, v₁))
      × (e.source.get_messages (dedupe_changes g.created g.updated g.destroyed).0 v₁
          ≡ (ok created, v₂))
      × (e.source.get_messages (dedupe_changes g.created g.updated g.destroyed).1 v₂
          ≡ (ok updated, v))
      × (plan_messages (matches_filter e v) (held e v) [] (created ++ updated)
            (record { plan = mailboxes; summary = no_changes })
          ≡ ok planned)
      × ((plans_nothing (with_destroyed g planned) ≡ true)
          ⊎ ((s : BackupSummary) × (apply_planned e (with_destroyed g planned) g.state v
                ≡ (ok s, w))))

  abbrev Whatever : Error → W → Type 0
  Whatever x w = Unit {0}

  -- Nothing was to be done, or everything has been.
  abbrev Done : Gathered → Planning → W → W → Type 0
  Done g planned v w =
      (plans_nothing (with_destroyed g planned) ≡ true)
      ⊎ ((s : BackupSummary) × (apply_planned e (with_destroyed g planned) g.state v ≡ (ok s, w)))

  settle-Done :
      (g : Gathered) (planned : Planning) (w : W)
      → Post
          (λ o. Done g planned w)
          Whatever
          (settle e g.state (dedupe_changes g.created g.updated g.destroyed).2 planned w)
  unfolding settle
  settle-Done g planned w =
      elim (Bool-cases
        (plans_nothing (with_destroyed g planned) && g.state == (e.store.state w).source)) [
          | inl idle ↦ simp idle (inl (ground arith))
          | inr busy ↦ simp busy (
              Post-after (λ s w'. apply_planned e (with_destroyed g planned) g.state w ≡ (ok s, w'))
                Whatever (λ o. Done g planned w) Whatever
                (apply_planned e (with_destroyed g planned) g.state w) _
                (Post-intro _ _ (apply_planned e (with_destroyed g planned) g.state w)
                  (λ s done. returned _ (ok s) done) (λ x f. tt))
                (λ x w' f. tt) (λ s w' done. inr (s, done)))
        ]

  pub apply_gathered-Carried :
      (g : Gathered) (w : W) → Post (λ o. Carried g) Whatever (apply_gathered e g w)
  unfolding apply_gathered plan_message_changes
  apply_gathered-Carried g w =
      Post-after (λ plan w'. plan_mailboxes e g.mailboxes_changed w ≡ (ok plan, w')) Whatever _
        Whatever (plan_mailboxes e g.mailboxes_changed w) _
        (Post-intro _ _ (plan_mailboxes e g.mailboxes_changed w) (λ a h. returned _ (ok a) h)
          (λ x f. tt))
        (λ x w' f. tt)
        λ mailboxes v₁ b.
          Post-after
            (λ created v₂.
              e.source.get_messages (dedupe_changes g.created g.updated g.destroyed).0 v₁
              ≡ (ok created, v₂))
            Whatever _ Whatever
            (e.source.get_messages (dedupe_changes g.created g.updated g.destroyed).0 v₁) _
            (Post-intro _ _ (e.source.get_messages _ v₁) (λ a h. returned _ (ok a) h) (λ x f. tt))
            (λ x w' f. tt)
            λ created v₂ c.
              Post-after
                (λ updated v.
                  e.source.get_messages (dedupe_changes g.created g.updated g.destroyed).1 v₂
                  ≡ (ok updated, v))
                Whatever _ Whatever
                (e.source.get_messages (dedupe_changes g.created g.updated g.destroyed).1 v₂) _
                (Post-intro _ _ (e.source.get_messages _ v₂) (λ a h. returned _ (ok a) h)
                  (λ x f. tt))
                (λ x w' f. tt)
                λ updated v d.
                  planning mailboxes created updated v₁ v₂ v b c d
                    (plan_messages (matches_filter e v) (held e v) [] (created ++ updated)
                      (record { plan = mailboxes; summary = no_changes }))
                    refl
    where
      planning :
          (mailboxes : PlannedChanges) (created updated : List MessageMeta) (v₁ v₂ v : W)
          → plan_mailboxes e g.mailboxes_changed w ≡ (ok mailboxes, v₁)
          → e.source.get_messages (dedupe_changes g.created g.updated g.destroyed).0 v₁
            ≡ (ok created, v₂)
          → e.source.get_messages (dedupe_changes g.created g.updated g.destroyed).1 v₂
            ≡ (ok updated, v)
          → (r : Result Planning Error)
          → plan_messages
              (matches_filter e v)
              (held e v)
              []
              (created ++ updated)
              (record { plan = mailboxes; summary = no_changes })
            ≡ r
          → Post
              (λ o. Carried g)
              Whatever
              (after (settle e g.state (dedupe_changes g.created g.updated g.destroyed).2) (r, v))
      planning mailboxes created updated v₁ v₂ v b c d (err x) p = tt
      planning mailboxes created updated v₁ v₂ v b c d (ok planned) p =
          Post-weaken (λ o. Done g planned v) Whatever _ _ (settle e g.state _ planned v)
            (settle-Done g planned v) (λ x w' f. tt)
            (λ o w' done. (mailboxes, created, updated, planned, w, v₁, v₂, v, b, c, d, p, done))
