-- ===== src/Engine/Apply/Cursor.antt =====
-- engine/mod.rs: what leaves the progress of the store alone.
use mail_backup.Base.{
  reads, Keeps-reads, ℕ, List, [], ◌∷◌, Text, Keeps, Keeps-pure, Keeps-bind, keeps_rules, ◌≡◌, ◌∙◌,
  ap,
}
use mail_backup.Entities.{MessageMeta}
use mail_backup.Messages.{MailEvent}
use mail_backup.Stores.{BackupSummary, Checkpoint}
use mail_backup.Stores.Laws.{Progress, progress, IsStore, Outside}
use mail_backup.Engine.Grouping.{Groups}
use mail_backup.Engine.Setup.{Setup, cancelled}
use mail_backup.Engine.Plan.{mailbox_events, diff_mailboxes}
use mail_backup.Engine.Apply.{download, fetch_raw, apply_day, apply_days}

module _ {W : Type 0} (e : Setup W) where
  -- The progress in memory is `p`.
  abbrev pub At : Progress → W → Type 0
  At p w = progress (e.store.state w) ≡ p

module _ {W : Type 0} (e : Setup W) (saved : W → Progress) (store : IsStore e.store saved)
    (outside : Outside e.source e.around e.store.state) where
  view_state :
      (w w' : W) → e.store.state w' ≡ e.store.state w → (p : Progress) → At e p w → At e p w'
  view_state w w' h p k = ap progress h ∙ k

  pub cancelled-Keeps : (p : Progress) → Keeps (At e p) (cancelled e)
  cancelled-Keeps p = record { at = λ w h. view_state w _ (outside.view-cancelled w) p h }

  fetch_blob-Keeps : (p : Progress) (id : Text) → Keeps (At e p) (e.source.fetch_blob id)
  fetch_blob-Keeps p id = record { at = λ w h. view_state w _ (outside.view-fetch_blob id w) p h }

  pub apply-Keeps : (p : Progress) (es : List MailEvent) → Keeps (At e p) (e.store.apply es)
  apply-Keeps p es = record { at = λ w h. ap progress (store.state-apply es w) ∙ h }

  pub checkpoint-Keeps : (p : Progress) (c : Checkpoint) → Keeps (At e p) (e.store.checkpoint c)
  checkpoint-Keeps p c = record { at = λ w h. store.state-checkpoint c w ∙ h }

  download-Keeps : (p : Progress) (metas : List MessageMeta) → Keeps (At e p) (download e metas)
  unfolding download
  download-Keeps p [] = search keeps_rules
  download-Keeps p (m ∷ metas) =
      Keeps-bind (e.source.fetch_blob m.blob_id) _ (fetch_blob-Keeps p m.blob_id)
        (λ raw. Keeps-bind (download e metas) _ (download-Keeps p metas) (λ rest. Keeps-pure _))

  pub fetch_raw-Keeps :
      (p : Progress) (metas : List MessageMeta) → Keeps (At e p) (fetch_raw e metas)
  unfolding fetch_raw
  fetch_raw-Keeps p metas = search (keeps_rules, download-Keeps)

  apply_day-Keeps :
      (p : Progress) (day : ℕ) (metas : List MessageMeta) (s : BackupSummary)
      → Keeps (At e p) (apply_day e day metas s)
  unfolding apply_day
  apply_day-Keeps p day metas s =
      search (keeps_rules, fetch_raw-Keeps, apply-Keeps, checkpoint-Keeps)

  apply_days-Keeps :
      (p : Progress) (groups : Groups) (s : BackupSummary) → Keeps (At e p) (apply_days e groups s)
  unfolding apply_days
  apply_days-Keeps p [] s = search keeps_rules
  apply_days-Keeps p ((day, metas) ∷ groups) s =
      search (keeps_rules, cancelled-Keeps, apply_day-Keeps, apply_days-Keeps p groups)

  pub mailbox_events-Keeps : (p : Progress) → Keeps (At e p) (mailbox_events e)
  unfolding mailbox_events
  mailbox_events-Keeps p =
      Keeps-bind e.source.list_mailboxes _
        (record { at = λ w h. view_state w _ (outside.view-list_mailboxes w) p h })
        λ server.
          Keeps-bind (reads e.store.mailboxes) _ (Keeps-reads e.store.mailboxes)
            λ index. Keeps-pure (diff_mailboxes server index)
