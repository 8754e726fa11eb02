-- ===== src/Restore/Returning.antt =====
-- restore/mod.rs: that a restore returns where the calls that it makes do.
use mail_backup.Base.{
  Returns, Returns-pure, Returns-if, Returns-option, Returns-some, Returns-bind, returns_rules,
  Bool, true, false, ◌||◌, Option, none, some, List, [], ◌∷◌, Text, filter, any, All, All-sort,
  is_some, get, get-put, Dictionary, ◌≡◌, arith, if◌then◌else◌, ◌==◌, list_eq, nat_eq, eq_refl,
}
use mail_backup.Externals.{Externals}
use mail_backup.Entities.{
  MailboxInfo, MailboxIndex, MailboxRecord, empty_index, name_path, find, insert,
}
use mail_backup.Restore.{
  RestoreTarget, Archive, Mapped, on_target, create, ensure_prefix, ensure_mailbox, ensure_each,
  ensure_unfiled, ensure_mailboxes, target_path, unfiled_path, index_of, ordered, mailbox_index,
}

-- The record of an archive is in its index.
abbrev pub IsKnown : MailboxIndex → MailboxRecord → Type 0
IsKnown index r = is_some (find index r.info.id) ≡ true

find-index_of :
    (rs : List MailboxRecord) (index : MailboxIndex) (id : Text)
    → (any (λ r. r.info.id == id) rs || is_some (find index id)) ≡ true
    → is_some (find (index_of rs index) id) ≡ true
unfolding index_of find insert
find-index_of [] index id h = h
find-index_of (r ∷ rs) index id h =
    find-index_of rs (insert index r) id (ground (arith, get-put index.boxes r.info.id id r))

All-IsKnown :
    (rs : List MailboxRecord) (index : MailboxIndex) → All (IsKnown (index_of rs index)) rs
unfolding index_of find insert
All-IsKnown [] index = tt
All-IsKnown (r ∷ rs) index = (
  find-index_of rs (insert index r) r.info.id
      (ground (arith, get-put index.boxes r.info.id r.info.id r, eq_refl r.info.id)),
  All-IsKnown rs (insert index r),
)

All-filter :
    {A : Type 0} (P : A → Type 0) (p : A → Bool) (xs : List A) → All P xs → All P (filter p xs)
All-filter P p [] h = tt
All-filter P p (x ∷ xs) h = go (p x) (All-filter P p xs h.1)
  where
    go : (b : Bool) → All P (filter p xs) → All P (if b then x ∷ filter p xs else filter p xs)
    go true rest = (h.0, rest)
    go false rest = rest

is_named :
    (index : MailboxIndex) (r : MailboxRecord)
    → IsKnown index r
    → is_some (name_path index r.info.id) ≡ true
unfolding name_path find
is_named index r h = ground arith

-- A dry run makes mailboxes up; the target may also make and list them without an error.
module _ {W : Type 0} (target : RestoreTarget W) (x : Externals) (dry_run : Bool)
    (made : (name : Text) (parent role : Option Text)
      → Returns (create target dry_run name parent role))
    (listed : Returns (on_target target target.list_mailboxes)) where
  ensure_prefix-Returns :
      (prefix : Option Text) (m : Dictionary Text)
      → Returns (ensure_prefix target x dry_run prefix m)
  unfolding ensure_prefix
  ensure_prefix-Returns none m = search returns_rules
  ensure_prefix-Returns (some prefix) m =
      Returns-option (get m (x.to_lowercase prefix)) _ _ (search returns_rules)
        λ id. search returns_rules

  ensure_mailbox-Returns :
      (index : MailboxIndex) (existing : List MailboxInfo) (prefix prefix_id : Option Text)
      (r : MailboxRecord) (m : Mapped)
      → IsKnown index r
      → Returns (ensure_mailbox target x dry_run index existing prefix prefix_id r m)
  unfolding ensure_mailbox
  ensure_mailbox-Returns index existing prefix prefix_id r m h =
      Returns-some (name_path index r.info.id) _ _ (is_named index r h) λ name.
        Returns-option (get m.by_path (target_path x prefix name)) _ _ (search returns_rules)
          λ id. search returns_rules

  ensure_each-Returns :
      (index : MailboxIndex) (existing : List MailboxInfo) (prefix prefix_id : Option Text)
      (rs : List MailboxRecord) (m : Mapped)
      → All (IsKnown index) rs
      → Returns (ensure_each target x dry_run index existing prefix prefix_id rs m)
  unfolding ensure_each
  ensure_each-Returns index existing prefix prefix_id [] m h = search returns_rules
  ensure_each-Returns index existing prefix prefix_id (r ∷ rs) m h =
      Returns-bind _ _ (ensure_mailbox-Returns index existing prefix prefix_id r m h.0)
        λ next. ensure_each-Returns index existing prefix prefix_id rs next h.1

  ensure_unfiled-Returns :
      (prefix prefix_id : Option Text) (m : Mapped)
      → Returns (ensure_unfiled target x dry_run prefix prefix_id m)
  unfolding ensure_unfiled
  ensure_unfiled-Returns prefix prefix_id m =
      Returns-bind _ _
        (Returns-option (get m.by_path (unfiled_path prefix)) _ _ (search returns_rules)
          λ id. search returns_rules)
        λ id. search returns_rules

  -- The mailboxes are there where the target can list them and create each.
  pub ensure_mailboxes-Returns :
      (archive : Archive) (needed : List Text) (unfiled : Bool) (prefix : Option Text)
      → Returns (ensure_mailboxes target x dry_run archive needed unfiled prefix)
  unfolding ensure_mailboxes mailbox_index ordered
  ensure_mailboxes-Returns archive needed unfiled prefix = Returns-bind _ _ listed λ existing.
      Returns-bind _ _ (ensure_prefix-Returns prefix _) λ rooted.
        Returns-bind _ _
          (ensure_each-Returns _ existing prefix rooted.0 _ _ (
            All-sort _ _ _
              (All-filter _ _ archive.mailboxes (All-IsKnown archive.mailboxes empty_index))))
          λ m.
            Returns-if unfiled _ _ (ensure_unfiled-Returns prefix rooted.0 m)
              (Returns-pure m.mapping)
