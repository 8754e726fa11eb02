-- ===== src/Restore/DryRun.antt =====
-- restore/mod.rs: a dry run.
use mail_backup.Base.{
  ℕ, Bool, true, Option, List, [], ◌∷◌, Text, Error, Exec, raise, Keeps, Keeps-pure, Keeps-bind,
  Keeps-if, keeps_rules, Dictionary, ◌≡◌, ◌∙◌,
}
use mail_backup.Externals.{Externals}
use mail_backup.Entities.{MailboxIndex, MessageMeta}
use mail_backup.Stores.{StoredMessage}
use mail_backup.Restore.{RestoreSummary, Archive, Restoring, on_target, create, ensure_mailboxes}
use mail_backup.Restore.Kept.{ensure_mailboxes-Keeps}
use mail_backup.Restore.Running.{
  RestoreSetup, bump, is_present, restore_message, is_cancelled, restore_messages, restore_selected,
  run_restore, start,
}
use mail_backup.Restore.Selecting.{resolve}

-- Reading from the target, and from the cancel flag, leaves `view` of the world alone.
pub record Reads {W V : Type 0} (e : RestoreSetup W) (view : W → V) : Type 0 where
  pub view-connect : (w : W) → view (e.target.connect w).1 ≡ view w
  pub view-list_mailboxes : (w : W) → view (e.target.list_mailboxes w).1 ≡ view w
  pub view-message_exists :
      (meta : MessageMeta) (w : W) → view (e.target.message_exists meta w).1 ≡ view w
  pub view-cancelled : (w : W) → view (e.cancelled w).1 ≡ view w

module _ {W V : Type 0} (e : RestoreSetup W) (view : W → V) (outside : Reads e view) (v : V)
    (dry : e.dry_run ≡ true) where
  abbrev Still : Restoring W → Type 0
  Still s = view s.world ≡ v

  on_target-Keeps :
      {A : Type 0} (m : Exec W A)
      → ((w : W) → view (m w).1 ≡ view w)
      → Keeps Still (on_target e.target m)
  unfolding on_target
  on_target-Keeps m k = record { at = λ s h. k s.world ∙ h }

  connect-Keeps : Keeps Still (on_target e.target e.target.connect)
  connect-Keeps = on_target-Keeps e.target.connect outside.view-connect

  list-Keeps : Keeps Still (on_target e.target e.target.list_mailboxes)
  list-Keeps = on_target-Keeps e.target.list_mailboxes outside.view-list_mailboxes

  exists-Keeps :
      (meta : MessageMeta) → Keeps Still (on_target e.target (e.target.message_exists meta))
  exists-Keeps meta =
      on_target-Keeps (e.target.message_exists meta) (outside.view-message_exists meta)

  bump-Keeps : (f : RestoreSummary → RestoreSummary) → Keeps {W = Restoring W} Still (bump f)
  bump-Keeps f = record { at = λ s h. h }

  raise-Keeps : {A : Type 0} (x : Error) → Keeps {W = Restoring W} {A = A} Still (raise x)
  raise-Keeps x = record { at = λ s h. h }

  create-Keeps :
      (name : Text) (parent role : Option Text)
      → Keeps Still (create e.target e.dry_run name parent role)
  unfolding create
  create-Keeps name parent role = rw dry (record { at = λ s h. h })

  is_cancelled-Keeps : Keeps Still (is_cancelled e)
  unfolding is_cancelled
  is_cancelled-Keeps = record { at = λ s h. outside.view-cancelled s.world ∙ h }

  ruleset dry_rules = (keeps_rules, bump-Keeps, raise-Keeps, create-Keeps)

  ensure_mailboxes-Still :
      (x : Externals) (archive : Archive) (needed : List Text) (unfiled : Bool)
      (prefix : Option Text)
      → Keeps Still (ensure_mailboxes e.target x e.dry_run archive needed unfiled prefix)
  ensure_mailboxes-Still x =
      ensure_mailboxes-Keeps e.target x e.dry_run Still create-Keeps list-Keeps

  is_present-Keeps : (m : StoredMessage) → Keeps Still (is_present e m)
  unfolding is_present
  is_present-Keeps m = search (dry_rules, exists-Keeps)

  restore_message-Keeps :
      (archive : Archive) (mapping : Dictionary Text) (m : StoredMessage) (ids : List Text)
      → Keeps Still (restore_message e archive mapping m ids)
  unfolding restore_message
  restore_message-Keeps archive mapping m ids = rw dry (search (dry_rules, is_present-Keeps))

  restore_messages-Keeps :
      (archive : Archive) (index : MailboxIndex) (dirs mapping : Dictionary Text)
      (ms : List StoredMessage)
      → Keeps Still (restore_messages e archive index dirs mapping ms)
  unfolding restore_messages
  restore_messages-Keeps archive index dirs mapping [] = search dry_rules
  restore_messages-Keeps archive index dirs mapping (m ∷ ms) =
      Keeps-bind _ _ is_cancelled-Keeps λ stop. Keeps-if stop _ _ (Keeps-pure tt) (
        Keeps-bind _ _ (restore_message-Keeps archive mapping m (resolve index dirs m))
          λ u. restore_messages-Keeps archive index dirs mapping ms)

  restore_selected-Keeps :
      (rounds : ℕ) (archive : Archive) (taken : List StoredMessage)
      → Keeps Still (restore_selected e rounds archive taken)
  unfolding restore_selected
  restore_selected-Keeps rounds archive taken =
      search (dry_rules, connect-Keeps, ensure_mailboxes-Still, restore_messages-Keeps) depth 9

  start-Keeps : Keeps Still (start e)
  unfolding start
  start-Keeps = record { at = λ s h. h }

  run_restore-Keeps : (rounds : ℕ) → Keeps Still (run_restore e rounds)
  unfolding run_restore
  run_restore-Keeps rounds = search (dry_rules, start-Keeps, restore_selected-Keeps) depth 14

  -- A dry run, however it ends, leaves alone everything that reading from the target does not change.
  pub run_restore-Still :
      (rounds : ℕ) (s : Restoring W) → view s.world ≡ v → view (run_restore e rounds s).1.world ≡ v
  run_restore-Still rounds s h = (run_restore-Keeps rounds).at s h
