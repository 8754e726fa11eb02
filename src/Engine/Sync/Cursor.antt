-- ===== src/Engine/Sync/Cursor.antt =====
-- engine/sync.rs: `run` and the progress.
use mail_backup.Base.{nat_eq, list_eq, contains, ℕ, true, false, [], Text, ok, Error, ◌≡◌, ◌⊎◌}
use mail_backup.Entities.{state_eq}
use mail_backup.Stores.Laws.{Progress, IsStore, Outside}
use mail_backup.Engine.Summary.{no_changes}
use mail_backup.Engine.Setup.{Setup}
use mail_backup.Engine.Apply.Holding.{IsHeld, FailedAt, Committed, IsGiving}
use mail_backup.Engine.Sync.Carrying.{Carried}
use mail_backup.Messages.{MailEvent, message_deleted}
use mail_backup.Engine.Sync.{SyncOutcome, Gathered, Gathering, complete, too_old, stopped, gather}

module _ {W : Type 0} (e : Setup W) (saved : W → Progress) (store : IsStore e.store saved)
    (outside : Outside e.source e.around e.store.state)
    (untouched : Outside e.source e.around saved) (Given : MailEvent → W → Type 0)
    (giving : IsGiving e Given) where
  -- The variables of the loop over pages, at its start.
  abbrev pub at_first : W → Gathered
  at_first w = record {
    created = [];
    updated = [];
    destroyed = [];
    mailboxes_changed = false;
    state = (e.store.state w).source;
  }

  -- The deletion of each message that the pages say is destroyed has been given to the store.
  abbrev pub DeletionsGiven : Gathered → W → Type 0
  DeletionsGiven g w = (id : Text) → contains g.destroyed id ≡ true → Given (message_deleted id) w

  -- What a catch-up from `w₀` leaves whose loop over pages came to this.
  abbrev pub Settled : Gathering → W → SyncOutcome → W → Type 0
  Settled stopped w₀ o w =
      (o.needs_reconcile ≡ false) × (o.summary.interrupted ≡ true) × IsHeld e saved w₀ w
  Settled too_old w₀ o w =
      (o.needs_reconcile ≡ true) × (o.summary ≡ no_changes) × IsHeld e saved w₀ w
  Settled (complete g) w₀ o w =
      (o.needs_reconcile ≡ false)
      × (o.summary.interrupted ≡ true → IsHeld e saved w₀ w)
      × (o.summary.interrupted ≡ false
          → (((e.store.state w).source ≡ g.state) × DeletionsGiven g w)
            × (IsHeld e saved w₀ w ⊎ Committed e saved g.state w₀ w))

  abbrev pub SettleFailed : Gathering → W → Error → W → Type 0
  SettleFailed stopped w₀ x w = ⊥
  SettleFailed too_old w₀ x w = ⊥
  SettleFailed (complete g) w₀ x w = FailedAt e saved g.state w₀ x w

  -- What was planned of all the pages has been applied.
  abbrev pub Brought : Gathering → W → Type 0
  Brought stopped w = Unit
  Brought too_old w = Unit
  Brought (complete g) w = Carried e g w

  -- What the loop over pages from `w` comes to, with so much fuel.
  abbrev pub Gathers : ℕ → W → Gathering → Type 0
  Gathers fuel w r = (v : W) × (gather e fuel (at_first w) w ≡ (ok r, v))

  abbrev pub Synced : ℕ → W → SyncOutcome → W → Type 0
  Synced fuel w o w' = (r : Gathering) × Gathers fuel w r × Settled r w o w' × Brought r w'

  abbrev pub SyncFailed : ℕ → W → Error → W → Type 0
  SyncFailed fuel w x w' =
      IsHeld e saved w w' ⊎ ((r : Gathering) × Gathers fuel w r × SettleFailed r w x w')
