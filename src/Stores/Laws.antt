-- ===== src/Stores/Laws.antt =====
-- What the engine relies on, of a store and of a source that does not touch it.
use mail_backup.Base.{Option, List, Text, ok, ◌≡◌}
use mail_backup.Entities.{SourceState, DateRange}
use mail_backup.Messages.{MailEvent}
use mail_backup.Sources.{MailSource, Surroundings}
use mail_backup.Stores.{BackfillCursor, StoreState, Checkpoint, MailStore}

-- The part of the state that the engine owns; a store may keep more in it.
abbrev pub Progress : Type 0
Progress = SourceState × Option BackfillCursor

abbrev pub progress : StoreState → Progress
progress s = (s.source, s.backfill)

-- `saved` is the progress that opening the store again would find.
pub record IsStore {W : Type 0} (store : MailStore W) (saved : W → Progress) : Type 0 where
  pub state-set_state : (s : StoreState) (w : W) → store.state (store.set_state s w) ≡ s
  pub saved-set_state : (s : StoreState) (w : W) → saved (store.set_state s w) ≡ saved w
  pub state-apply : (es : List MailEvent) (w : W) → store.state (store.apply es w).1 ≡ store.state w
  pub saved-apply : (es : List MailEvent) (w : W) → saved (store.apply es w).1 ≡ saved w
  pub state-checkpoint :
      (c : Checkpoint) (w : W)
      → progress (store.state (store.checkpoint c w).1) ≡ progress (store.state w)
  pub saved-checkpoint :
      (c : Checkpoint) (w : W)
      → (store.checkpoint c w).0 ≡ ok tt
      → saved (store.checkpoint c w).1 ≡ progress (store.state w)
  pub state-save_state :
      (w : W) → progress (store.state (store.save_state w).1) ≡ progress (store.state w)
  pub saved-save_state :
      (w : W)
      → (store.save_state w).0 ≡ ok tt
      → saved (store.save_state w).1 ≡ progress (store.state w)

-- The source and the surroundings leave `view` of the world alone.
pub record Outside {W V : Type 0} (source : MailSource W) (around : Surroundings W) (view : W → V)
    : Type 0 where
  pub view-connect : (w : W) → view (source.connect w).1 ≡ view w
  pub view-list_mailboxes : (w : W) → view (source.list_mailboxes w).1 ≡ view w
  pub view-enumerate : (r : DateRange) (w : W) → view (source.enumerate r w).1 ≡ view w
  pub view-changes : (s : SourceState) (w : W) → view (source.changes s w).1 ≡ view w
  pub view-get_messages : (ids : List Text) (w : W) → view (source.get_messages ids w).1 ≡ view w
  pub view-fetch_blob : (id : Text) (w : W) → view (source.fetch_blob id w).1 ≡ view w
  pub view-cancelled : (w : W) → view (around.cancelled w).1 ≡ view w
  pub view-today : (w : W) → view (around.today w).1 ≡ view w
