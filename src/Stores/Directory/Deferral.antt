-- ===== src/Stores/Directory/Deferral.antt =====
-- stores/dir.rs: the deletion of a mailbox, which waits until the mailbox is empty.
use mail_backup.Base.{
  Bool, true, false, not, Option, none, some, Text, system, Result, ok, err, Error, Exec, raise,
  when, pure, Post, Post-after, Post-weaken, get, get-erase, filter, ◌==◌, nat_eq, list_eq, eq_refl,
  ◌≡◌, ◌≢◌, refl, ◌∙◌, ap, ◌⊎◌, inl, inr, arith, if◌then◌else◌,
}
use mail_backup.Entities.{MailboxRecord, MailboxIndex, find}
use mail_backup.Entities
use mail_backup.Stores.{EventOutcome, removed, unchanged, skipped}
use mail_backup.Stores.Index.{get_message}
use mail_backup.Stores.Disk.{exists, has_contents}
use mail_backup.Stores.Directory.{DirMailStore, attempt, ignored, set_index, meta_path}
use mail_backup.Stores.Directory.Mailboxes.{
  is_occupied, remove_dir, delete_mailbox, delete_known, apply_mailbox_deleted,
}
use mail_backup.Stores.Directory.Writing.{attempt_lem}
use mail_backup.Stores.Directory.Deletion.{Gone, remove_file-Gone}

either :
    {A : Type 0} (P : DirMailStore → Type 0) (p : Result A Error × DirMailStore)
    → Post (λ a. P) (λ x. P) p
    → P p.1
either P (ok a, s) h = h
either P (err x, s) h = h

-- The index and the files are those of `s`.
abbrev Same : DirMailStore → DirMailStore → Type 0
Same s s' = (s'.index ≡ s.index) × (s'.disk.tree ≡ s.disk.tree)

remove_dir-Same : (dir : Text) (s : DirMailStore) → Same s (remove_dir dir s).1
unfolding remove_dir
remove_dir-Same dir s = go (has_contents dir s.disk)
  where
    full : Error
    full = record { kind = system; what = "the directory is not empty" }

    drop : Exec DirMailStore (Unit {0})
    drop =
        attempt "remove the directory"
          (λ d. record d { dirs = filter (λ p. not (p == dir)) d.dirs })

    go : (b : Bool) → Same s ((if b then raise full else drop) s).1
    go true = (refl, refl)
    go false = either {A = Unit {0}} (Same s) (drop s) (
        attempt_lem "remove the directory" _ s (Same s) (Same s) (λ rest. (refl, refl))
          (λ rest. (refl, refl)))

-- The mailbox is gone, and with it its metadata file; every message and every other file is there.
abbrev pub Removed : Text → MailboxRecord → DirMailStore → DirMailStore → Type 0
Removed id r s s' =
    (find s'.index.mailboxes id ≡ none)
    × ((j : Text) → get_message s'.index j ≡ get_message s.index j)
    × ((q : Text) → q ≢ meta_path r.dir_path → get s'.disk.tree q ≡ get s.disk.tree q)

find-remove : (index : MailboxIndex) (id : Text) → find (Entities.remove index id) id ≡ none
unfolding find Entities.remove
find-remove index id = ground (arith, get-erase index.boxes id id, eq_refl id)

delete_mailbox-Removed :
    (id : Text) (r : MailboxRecord) (s : DirMailStore)
    → Post
        (λ outcome s'. (outcome ≡ removed) × Removed id r s s')
        (λ x s'. s'.index ≡ s.index)
        (delete_mailbox id r.dir_path s)
unfolding delete_mailbox ignored set_index get_message
delete_mailbox-Removed id r s =
    Post-after (λ u. Gone (meta_path r.dir_path) s) (λ x s'. s'.index ≡ s.index) _ _ _ _
      (remove_file-Gone (meta_path r.dir_path) s) (λ x s₁ h. h)
      (λ u s₁ h₁.
        Post-after (λ u. Same s₁) (λ x s'. s'.index ≡ s₁.index) _ _ _ _
          (dropped (exists s₁.disk r.dir_path) s₁) (λ x s₂ h. h ∙ h₁.0)
          (λ u s₂ h₂. (
            refl,
            (
              gone s₂,
              λ j. ap (λ i. get_message i j) (h₂.0 ∙ h₁.0),
              λ q a. ap (λ t. get t q) h₂.1 ∙ h₁.2 q a,
            ),
          )))
  where
    dropped :
        (present : Bool) (s₁ : DirMailStore)
        → Post {A = Unit {0}}
            (λ u. Same s₁)
            (λ x s'. s'.index ≡ s₁.index)
            (when present (ignored (remove_dir r.dir_path)) s₁)
    dropped true s₁ = remove_dir-Same r.dir_path s₁
    dropped false s₁ = (refl, refl)

    gone : (s₂ : DirMailStore) → find (Entities.remove s₂.index.mailboxes id) id ≡ none
    gone s₂ = find-remove s₂.index.mailboxes id

-- Deleting a mailbox loses no message: one that the index does not have is reported as unchanged, one
-- that has a message or a mailbox below it is deferred, and both leave the store as it is; any other
-- is removed, with no file but its metadata, and every message stays in the index. Where that fails,
-- the index is as it was.
pub apply_mailbox_deleted-Removed :
    (id : Text) (s : DirMailStore)
    → Post
        (λ outcome s'.
          ((outcome ≡ unchanged) × (find s.index.mailboxes id ≡ none) × (s' ≡ s))
          ⊎ ((r : MailboxRecord) × (find s.index.mailboxes id ≡ some r)
              × (((outcome ≡ skipped) × (is_occupied s.index r.dir_path ≡ true) × (s' ≡ s))
                  ⊎ ((outcome ≡ removed)
                      × (is_occupied s.index r.dir_path ≡ false)
                      × Removed id r s s'))))
        (λ x s'. s'.index ≡ s.index)
        (apply_mailbox_deleted id s)
unfolding apply_mailbox_deleted delete_known
apply_mailbox_deleted-Removed id s = go (find s.index.mailboxes id) refl
  where
    Wanted : EventOutcome → DirMailStore → Type 0
    Wanted outcome s' =
        ((outcome ≡ unchanged) × (find s.index.mailboxes id ≡ none) × (s' ≡ s))
        ⊎ ((r : MailboxRecord) × (find s.index.mailboxes id ≡ some r)
            × (((outcome ≡ skipped) × (is_occupied s.index r.dir_path ≡ true) × (s' ≡ s))
                ⊎ ((outcome ≡ removed)
                    × (is_occupied s.index r.dir_path ≡ false)
                    × Removed id r s s')))

    known :
        (r : MailboxRecord) (occupied : Bool)
        → find s.index.mailboxes id ≡ some r
        → is_occupied s.index r.dir_path ≡ occupied
        → Post Wanted
            (λ x s'. s'.index ≡ s.index)
            ((if occupied then pure skipped else delete_mailbox id r.dir_path) s)
    known r true e o = inr (r, e, inl (refl, o, refl))
    known r false e o =
        Post-weaken (λ outcome s'. (outcome ≡ removed) × Removed id r s s')
          (λ x s'. s'.index ≡ s.index) Wanted (λ x s'. s'.index ≡ s.index)
          (delete_mailbox id r.dir_path s) (delete_mailbox-Removed id r s) (λ x s' h. h)
          (λ outcome s' h. inr (r, e, inr (h.0, o, h.1)))

    go :
        (found : Option MailboxRecord)
        → find s.index.mailboxes id ≡ found
        → Post Wanted
            (λ x s'. s'.index ≡ s.index)
            (elim found as (λ f. Exec DirMailStore EventOutcome) [
              | none ↦ pure unchanged
              | some r ↦ delete_known id r
            ]
              s)
    go none e = inl (refl, e, refl)
    go (some r) e = known r (is_occupied s.index r.dir_path) e refl
