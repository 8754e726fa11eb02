-- ===== src/Engine/Apply/Still.antt =====
-- engine/mod.rs: what a dry run does before it decides anything, as seen by a view of the world.
use mail_backup.Base.{
  true, Result, Error, Exec, reads, total, Keeps, Keeps-pure, Keeps-reads, Keeps-bind, ◌≡◌, ◌∙◌,
  nat_eq, list_eq,
}
use mail_backup.Entities.{SourceState, DateRange, state_eq}
use mail_backup.Stores.Laws.{Outside}
use mail_backup.Engine.Setup.{Setup, cancelled}
use mail_backup.Engine.Plan.{PlannedChanges, mailbox_events, diff_mailboxes}
use mail_backup.Engine.Apply.{apply_planned}

module _ {W V : Type 0} (view : W → V) where
  -- The view is `v`.
  abbrev pub Still : V → W → Type 0
  Still v w = view w ≡ v

module _ {W V : Type 0} (e : Setup W) (view : W → V) (outside : Outside e.source e.around view)
    (v : V) where
  pub still :
      {A : Type 0} (m : Exec W A) → ((w : W) → view (m w).1 ≡ view w) → Keeps (Still view v) m
  still m h = record { at = λ w k. h w ∙ k }

  pub cancelled-Keeps : Keeps (Still view v) (cancelled e)
  cancelled-Keeps = still (cancelled e) outside.view-cancelled

  pub enumerate-Keeps : (r : DateRange) → Keeps (Still view v) (total (e.source.enumerate r))
  enumerate-Keeps r = still (total (e.source.enumerate r)) (outside.view-enumerate r)

  pub computed-Keeps :
      {A : Type 0} (f : W → Result A Error) → Keeps {W = W} (Still view v) (λ w. (f w, w))
  computed-Keeps f = record { at = λ w k. k }

  pub mailbox_events-Keeps : Keeps (Still view v) (mailbox_events e)
  unfolding mailbox_events
  mailbox_events-Keeps =
      Keeps-bind e.source.list_mailboxes _ (still _ outside.view-list_mailboxes) λ server.
        Keeps-bind (reads e.store.mailboxes) _ (Keeps-reads e.store.mailboxes)
          λ index. Keeps-pure (diff_mailboxes server index)

  pub apply_planned-Keeps :
      e.options.dry_run ≡ true
      → (plan : PlannedChanges) (final : SourceState)
      → Keeps (Still view v) (apply_planned e plan final)
  unfolding apply_planned
  apply_planned-Keeps dry plan final = simp dry (Keeps-pure _)
