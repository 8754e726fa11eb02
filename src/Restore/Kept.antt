-- ===== src/Restore/Kept.antt =====
-- restore/mod.rs: what `ensure_mailboxes` leaves alone.
use mail_backup.Base.{
  Bool, Option, none, some, List, [], ◌∷◌, Text, Error, raise, Keeps, Keeps-pure, Keeps-bind,
  Keeps-if, Keeps-option, keeps_rules, get, Dictionary,
}
use mail_backup.Externals.{Externals}
use mail_backup.Entities.{MailboxInfo, MailboxIndex, MailboxRecord, name_path}
use mail_backup.Restore.{
  RestoreTarget, Archive, Restoring, Mapped, on_target, create, ensure_prefix, ensure_mailbox,
  ensure_each, ensure_unfiled, ensure_mailboxes, target_path, unfiled_path,
}

-- Whatever the two calls of the target keep.
module _ {W : Type 0} (target : RestoreTarget W) (x : Externals) (dry_run : Bool)
    (P : Restoring W → Type 0)
    (made : (name : Text) (parent role : Option Text)
      → Keeps P (create target dry_run name parent role))
    (listed : Keeps P (on_target target target.list_mailboxes)) where
  raise-Keeps : {A : Type 0} (y : Error) → Keeps {W = Restoring W} {A = A} P (raise y)
  raise-Keeps y = record { at = λ s h. h }

  ruleset made_rules = (keeps_rules, raise-Keeps)

  ensure_prefix-Keeps :
      (prefix : Option Text) (m : Dictionary Text)
      → Keeps P (ensure_prefix target x dry_run prefix m)
  unfolding ensure_prefix
  ensure_prefix-Keeps none m = search made_rules
  ensure_prefix-Keeps (some prefix) m =
      Keeps-option (get m (x.to_lowercase prefix)) _ _ (search made_rules) λ id. search made_rules

  ensure_mailbox-Keeps :
      (index : MailboxIndex) (existing : List MailboxInfo) (prefix prefix_id : Option Text)
      (r : MailboxRecord) (m : Mapped)
      → Keeps P (ensure_mailbox target x dry_run index existing prefix prefix_id r m)
  unfolding ensure_mailbox
  ensure_mailbox-Keeps index existing prefix prefix_id r m =
      Keeps-option (name_path index r.info.id) _ _ (search made_rules) λ name.
        Keeps-option (get m.by_path (target_path x prefix name)) _ _ (search made_rules)
          λ id. search made_rules

  ensure_each-Keeps :
      (index : MailboxIndex) (existing : List MailboxInfo) (prefix prefix_id : Option Text)
      (rs : List MailboxRecord) (m : Mapped)
      → Keeps P (ensure_each target x dry_run index existing prefix prefix_id rs m)
  unfolding ensure_each
  ensure_each-Keeps index existing prefix prefix_id [] m = search made_rules
  ensure_each-Keeps index existing prefix prefix_id (r ∷ rs) m =
      Keeps-bind _ _ (ensure_mailbox-Keeps index existing prefix prefix_id r m)
        λ next. ensure_each-Keeps index existing prefix prefix_id rs next

  ensure_unfiled-Keeps :
      (prefix prefix_id : Option Text) (m : Mapped)
      → Keeps P (ensure_unfiled target x dry_run prefix prefix_id m)
  unfolding ensure_unfiled
  ensure_unfiled-Keeps prefix prefix_id m =
      Keeps-bind _ _
        (Keeps-option (get m.by_path (unfiled_path prefix)) _ _ (search made_rules)
          λ id. search made_rules)
        λ id. search made_rules

  pub ensure_mailboxes-Keeps :
      (archive : Archive) (needed : List Text) (unfiled : Bool) (prefix : Option Text)
      → Keeps P (ensure_mailboxes target x dry_run archive needed unfiled prefix)
  unfolding ensure_mailboxes
  ensure_mailboxes-Keeps archive needed unfiled prefix = Keeps-bind _ _ listed λ existing.
      Keeps-bind _ _ (ensure_prefix-Keeps prefix _) λ rooted.
        Keeps-bind _ _ (ensure_each-Keeps _ existing prefix rooted.0 _ _)
          λ m. Keeps-if unfiled _ _ (ensure_unfiled-Keeps prefix rooted.0 m) (Keeps-pure m.mapping)
