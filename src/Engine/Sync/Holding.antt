-- ===== src/Engine/Sync/Holding.antt =====
-- engine/sync.rs: what gathers and plans leaves the progress alone.
use mail_backup.Base.{
  nat_eq, list_eq, ℕ, zero, suc, Bool, List, Text, Exec, pure, reads, Keeps, Keeps-pure,
  Keeps-reads, Keeps-bind, Keeps-if, keeps_rules, ◌≡◌,
}
use mail_backup.Entities.{state_eq}
use mail_backup.Sources.{ChangesResult, changes, state_too_old}
use mail_backup.Stores.Laws.{Progress, IsStore, Outside}
use mail_backup.Engine.Setup.{Setup, cancelled}
use mail_backup.Engine.Plan.{mailbox_events, diff_mailboxes, nothing_planned}
use mail_backup.Engine.Apply.Holding.{IsHeld, IsGiving, still, cancelled-still}
use mail_backup.Messages.{MailEvent}
use mail_backup.Engine.Sync.{Gathered, Gathering, stopped, gather, absorb_page, plan_mailboxes}

module _ {W : Type 0} (e : Setup W) (saved : W → Progress) (store : IsStore e.store saved)
    (outside : Outside e.source e.around e.store.state)
    (untouched : Outside e.source e.around saved) (Given : MailEvent → W → Type 0)
    (giving : IsGiving e Given) where
  abbrev same :
      {A : Type 0} (w₀ : W) (m : Exec W A)
      → ((w : W) → e.store.state (m w).1 ≡ e.store.state w)
      → ((w : W) → saved (m w).1 ≡ saved w)
      → Keeps (IsHeld e saved w₀) m
  same = still e saved store outside untouched Given giving

  absorb_page-Keeps :
      (w₀ : W) (more : Gathered → Exec W Gathering) (g : Gathered) (page : ChangesResult)
      → ((g' : Gathered) → Keeps (IsHeld e saved w₀) (more g'))
      → Keeps (IsHeld e saved w₀) (absorb_page e more g page)
  unfolding absorb_page
  absorb_page-Keeps w₀ more g state_too_old h = search keeps_rules
  absorb_page-Keeps w₀ more g (changes c) h = search (keeps_rules, h)

  pub gather-Keeps :
      (w₀ : W) (fuel : ℕ) (g : Gathered) → Keeps (IsHeld e saved w₀) (gather e fuel g)
  unfolding gather
  gather-Keeps w₀ zero g = record { at = λ w h. h }
  gather-Keeps w₀ (suc fuel) g =
      (Keeps-bind (cancelled e) _ (cancelled-still e saved store outside untouched Given giving w₀)
        λ stop. Keeps-if stop (pure stopped) _ (Keeps-pure stopped) (
          Keeps-bind (e.source.changes g.state) _
            (same w₀ _ (outside.view-changes g.state) (untouched.view-changes g.state))
            λ page. absorb_page-Keeps w₀ (gather e fuel) g page (gather-Keeps w₀ fuel)))

  pub get_messages-Keeps :
      (w₀ : W) (ids : List Text) → Keeps (IsHeld e saved w₀) (e.source.get_messages ids)
  get_messages-Keeps w₀ ids =
      same w₀ _ (outside.view-get_messages ids) (untouched.view-get_messages ids)

  mailbox_events-Keeps : (w₀ : W) → Keeps (IsHeld e saved w₀) (mailbox_events e)
  unfolding mailbox_events
  mailbox_events-Keeps w₀ =
      Keeps-bind e.source.list_mailboxes _
        (same w₀ _ outside.view-list_mailboxes untouched.view-list_mailboxes)
        λ server.
          Keeps-bind (reads e.store.mailboxes) _ (Keeps-reads e.store.mailboxes)
            λ index. Keeps-pure (diff_mailboxes server index)

  pub plan_mailboxes-Keeps : (w₀ : W) (b : Bool) → Keeps (IsHeld e saved w₀) (plan_mailboxes e b)
  unfolding plan_mailboxes
  plan_mailboxes-Keeps w₀ b =
      Keeps-if b _ _
        (Keeps-bind (mailbox_events e) _ (mailbox_events-Keeps w₀) λ events.
          Keeps-pure
            (record nothing_planned { mailbox_upserts = events.0; mailbox_deletions = events.1 }))
        (Keeps-pure nothing_planned)
