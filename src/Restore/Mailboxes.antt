-- ===== src/Restore/Mailboxes.antt =====
-- restore/mod.rs: every message is restored into a mailbox.
pub mod Resolving
pub mod Covering
pub mod Existing
use mail_backup.Base.{
  Post-both, ℕ, zero, suc, ◌<◌, Bool, true, false, not, ◌&&◌, ◌||◌, Option, none, some, List, [],
  ◌∷◌, Text, Result, ok, err, Error, Exec, pure, filter, any, All, length, contains, is_some,
  is_empty, Post, Post-after, Post-weaken, Post-option, Dictionary, get, put, get-put, eq_iff,
  eq_refl, ◌==◌, nat_eq, list_eq, if◌then◌else◌, ◌≡◌, refl, sym, ◌∙◌, ap, subst, arith, Bool-cases,
  Option-cases, inl, inr, ◌⊎◌, contains-append, any-sort,
}
use mail_backup.Externals.{Externals}
use mail_backup.Entities.{
  MailboxRecord, MailboxIndex, MailboxInfo, empty_index, find, insert, name_path, parent_of,
}
use mail_backup.Stores.{StoredMessage}
use mail_backup.Stores.Disk.{parent}
use mail_backup.Restore.{
  RestoreTarget, Archive, Restoring, Mapped, index_of, mailbox_index, ordered, unfiled_archive_id,
  create, ensure_prefix, ensure_mailbox, ensure_each, ensure_unfiled, ensure_mailboxes, on_target,
  target_path, parent_target, claimed_role, paths_of, existing_index,
}
use mail_backup.Restore.Selecting.{
  by_dir, resolve, is_unfiled, needed_by, unfiled_needed, add, add_all, climb, with_ancestors,
  target_ids,
}
use mail_backup.Restore.Mailboxes.Resolving.{
  resolve-Resolved, All-needed_by, with_ancestors-contains,
}
use mail_backup.Restore.Mailboxes.Covering.{
  Covers, AllThere, ensure_mailboxes-AllThere, Covers-Resolved,
}
use mail_backup.Restore.Mailboxes.Existing.{
  IsHousing, AllHoused, target_ids-There, ensure_mailboxes-Housed,
}

target_ids-length :
    (mapping : Dictionary Text) (ids : List Text)
    → All (Covers mapping) ids
    → length (target_ids mapping ids) ≡ length ids
unfolding target_ids
target_ids-length mapping [] h = refl
target_ids-length mapping (id ∷ ids) h = ground (arith, target_ids-length mapping ids h.1, h.0)

-- All the mailboxes that a message is restored into, and there is one.
abbrev Placed : MailboxIndex → Dictionary Text → Dictionary Text → StoredMessage → Type 0
Placed index dirs mapping m =
    (0 < length (resolve index dirs m))
    × (length (target_ids mapping (resolve index dirs m)) ≡ length (resolve index dirs m))

needed-later :
    (needed all : List Text)
    → ((id : Text) → contains needed id ≡ true → contains all id ≡ true)
    → (ids : List Text) → All (λ id. contains needed id ≡ true) ids
    → All (λ id. contains all id ≡ true) ids
needed-later needed all h [] k = tt
needed-later needed all h (id ∷ ids) k = (h id k.0, needed-later needed all h ids k.1)

module _ {W : Type 0} (target : RestoreTarget W) (x : Externals) (dry_run : Bool)
    (archive : Archive) (all : List Text) where
  abbrev index : MailboxIndex
  index = mailbox_index archive

  abbrev dirs : Dictionary Text
  dirs = by_dir archive.mailboxes []

  All-Placed :
      (mapping : Dictionary Text) (s : Restoring W) (needed : List Text) (unfiled : Bool)
      (ms : List StoredMessage)
      → AllThere target x dry_run archive all unfiled mapping s
      → ((id : Text) → contains needed id ≡ true → contains all id ≡ true)
      → All (λ m. All (λ id. contains needed id ≡ true) (resolve index dirs m)) ms
      → (unfiled_needed index dirs ms ≡ true → unfiled ≡ true)
      → All (Placed index dirs mapping) ms
  unfolding unfiled_needed mailbox_index
  All-Placed mapping s needed unfiled [] there grow h u = tt
  All-Placed mapping s needed unfiled (m ∷ ms) there grow h u =
      let r = resolve-Resolved archive.mailboxes m unfiled (λ k. u (ground arith)) in
      (
        (
          r.1,
          target_ids-length mapping (resolve index dirs m) (
              Covers-Resolved target x dry_run archive all unfiled mapping s (resolve index dirs m)
                there r.0 (needed-later needed all grow (resolve index dirs m) h.0)),
        ),
        All-Placed mapping s needed unfiled ms there grow h.1 (λ k. u (ground arith)),
      )

  -- No mailbox of a selected message is missing from the mapping.
  ensure_mailboxes-Mapped :
      (rounds : ℕ) (taken : List StoredMessage) (prefix : Option Text) (s : Restoring W)
      → with_ancestors rounds index (needed_by index dirs taken []) (needed_by index dirs taken [])
        ≡ some all
      → Post
          (λ mapping s'. All (Placed index dirs mapping) taken)
          (λ y s'. Unit {0})
          (ensure_mailboxes target x dry_run archive all (unfiled_needed index dirs taken) prefix s)
  ensure_mailboxes-Mapped rounds taken prefix s h =
      Post-weaken (AllThere target x dry_run archive all (unfiled_needed index dirs taken))
        (λ y s'. Unit {0}) (λ mapping s'. All (Placed index dirs mapping) taken) (λ y s'. Unit {0})
        _
        (ensure_mailboxes-AllThere target x dry_run archive all (unfiled_needed index dirs taken)
          prefix s)
        (λ y t k. tt)
        (λ mapping t there.
          All-Placed mapping t (needed_by index dirs taken []) (unfiled_needed index dirs taken)
            taken there
            (λ id k.
              with_ancestors-contains rounds index (needed_by index dirs taken [])
                (needed_by index dirs taken []) all id h k)
            (All-needed_by index dirs taken []) (λ k. k))

module _ {W : Type 0} (target : RestoreTarget W) (There : Text → W → Type 0)
    (housing : IsHousing target There) (x : Externals) (archive : Archive) where
  -- A message is restored into at least one mailbox, each of those it is to be in has a counterpart,
  -- and the target has all of these.
  abbrev pub IsPlaced : Dictionary Text → StoredMessage → W → Type 0
  IsPlaced mapping m w =
      let wanted = resolve (mailbox_index archive) (by_dir archive.mailboxes []) m in
      (0 < length wanted)
      × (length (target_ids mapping wanted) ≡ length wanted)
      × All (λ id. There id w) (target_ids mapping wanted)

  All-IsPlaced :
      (mapping : Dictionary Text) (ms : List StoredMessage) (w : W)
      → All (Placed (mailbox_index archive) (by_dir archive.mailboxes []) mapping) ms
      → AllHoused There mapping w
      → All (λ m. IsPlaced mapping m w) ms
  All-IsPlaced mapping [] w h k = tt
  All-IsPlaced mapping (m ∷ ms) w h k =
      ((h.0.0, h.0.1, target_ids-There There mapping _ w k), All-IsPlaced mapping ms w h.1 k)

  -- Outside a dry run, where the mailboxes that the selected messages need, with their ancestors, are
  -- ensured without an error, each of these messages has a mailbox to be restored into, every mailbox
  -- that it is to be in is mapped to one, and the target has them all: it has listed each of them, or
  -- made it.
  pub ensure_mailboxes-Placed :
      (rounds : ℕ) (taken : List StoredMessage) (all : List Text) (prefix : Option Text)
      (s : Restoring W)
      → (let index = mailbox_index archive in
          let needed = needed_by index (by_dir archive.mailboxes []) taken [] in
          with_ancestors rounds index needed needed ≡ some all)
      → Post
          (λ mapping s'. All (λ m. IsPlaced mapping m s'.world) taken)
          (λ y s'. Unit {0})
          (ensure_mailboxes target x false archive all
            (unfiled_needed (mailbox_index archive) (by_dir archive.mailboxes []) taken)
            prefix
            s)
  ensure_mailboxes-Placed rounds taken all prefix s h =
      let index = mailbox_index archive in
      let dirs = by_dir archive.mailboxes [] in
      let unfiled = unfiled_needed index dirs taken in
      Post-weaken
        (λ mapping s'. All (Placed index dirs mapping) taken × AllHoused There mapping s'.world)
        (λ y s'. Unit {0}) _ _ (ensure_mailboxes target x false archive all unfiled prefix s)
        (Post-both (λ mapping s'. All (Placed index dirs mapping) taken)
          (λ mapping s'. AllHoused There mapping s'.world) (λ y s'. Unit {0}) (λ y s'. Unit {0})
          (ensure_mailboxes target x false archive all unfiled prefix s)
          (ensure_mailboxes-Mapped target x false archive all rounds taken prefix s h)
          (ensure_mailboxes-Housed target There housing x archive all unfiled prefix s))
        (λ y t k. tt) (λ mapping t k. All-IsPlaced mapping taken t.world k.0 k.1)
