-- ===== src/Restore/Mailboxes/Covering.antt =====
-- restore/mod.rs: `ensure_mailboxes` finds or makes every mailbox that is needed.
use mail_backup.Base.{
  Bool, true, false, Option, List, [], ◌∷◌, Text, Result, ok, err, Error, Exec, pure, All, contains,
  is_some, Post, Post-after, Post-weaken, Post-option, Dictionary, get, put, get-put, eq_iff,
  eq_refl, ◌==◌, nat_eq, list_eq, if◌then◌else◌, ◌≡◌, sym, subst, arith, Bool-cases, inl, inr,
}
use mail_backup.Externals.{Externals}
use mail_backup.Entities.{MailboxRecord, MailboxIndex, MailboxInfo, empty_index, name_path}
use mail_backup.Restore.{
  RestoreTarget, Archive, Restoring, Mapped, mailbox_index, ordered, unfiled_archive_id, create,
  ensure_prefix, ensure_mailbox, ensure_each, ensure_unfiled, ensure_mailboxes, on_target,
  target_path, parent_target, claimed_role, paths_of, existing_index,
}
use mail_backup.Restore.Mailboxes.Resolving.{has, has-ordered, Resolved}

abbrev pub Covers : Dictionary Text → Text → Type 0
Covers mapping id = is_some (get mapping id) ≡ true

Covers-put : (m : Dictionary Text) (k j t : Text) → Covers m j → Covers (put m k t) j
Covers-put m k j t h = ground (arith, get-put m k j t)

Covers-put_self : (m : Dictionary Text) (k t : Text) → Covers (put m k t) k
Covers-put_self m k t = ground (arith, get-put m k k t, eq_refl k)

module _ {W : Type 0} (target : RestoreTarget W) (x : Externals) (dry_run : Bool) where
  abbrev Anything : Error → Restoring W → Type 0
  Anything y s = Unit {0}

  anything : {A : Type 0} (p : Result A Error × Restoring W) → Post (λ a s. Unit {0}) Anything p
  anything (ok a, s) = tt
  anything (err y, s) = tt

  -- One more mailbox is covered.
  abbrev Grown : Mapped → MailboxRecord → Mapped → Restoring W → Type 0
  Grown m r m' s =
      Covers m'.mapping r.info.id × ((id : Text) → Covers m.mapping id → Covers m'.mapping id)

  ensure_mailbox-Grown :
      (index : MailboxIndex) (existing : List MailboxInfo) (prefix prefix_id : Option Text)
      (r : MailboxRecord) (m : Mapped) (s : Restoring W)
      → Post
          (Grown m r)
          Anything
          (ensure_mailbox target x dry_run index existing prefix prefix_id r m s)
  unfolding ensure_mailbox
  ensure_mailbox-Grown index existing prefix prefix_id r m s =
      Post-option (Grown m r) Anything (name_path index r.info.id) _ _ s tt λ name.
        Post-option (Grown m r) Anything (get m.by_path (target_path x prefix name)) _ _ s
          (Post-after (λ a t. Unit {0}) Anything (Grown m r) Anything
            (create target dry_run r.info.name (parent_target m.mapping prefix_id r.info.parent_id)
              (claimed_role existing prefix r.info.role) s)
            _ (anything _) (λ y t k. tt)
            (λ id t k. put_there id (put m.by_path (target_path x prefix name) id) t))
          λ id. put_there id m.by_path s
    where
      put_there :
          (id : Text) (by : Dictionary Text) (t : Restoring W)
          → Grown m r (record { by_path = by; mapping = put m.mapping r.info.id id }) t
      put_there id by t =
          (Covers-put_self m.mapping r.info.id id, λ j h. Covers-put m.mapping r.info.id j id h)

  abbrev AllCovered : List MailboxRecord → Mapped → Mapped → Restoring W → Type 0
  AllCovered rs m m' s =
      ((id : Text) → has id rs ≡ true → Covers m'.mapping id)
      × ((id : Text) → Covers m.mapping id → Covers m'.mapping id)

  ensure_each-AllCovered :
      (index : MailboxIndex) (existing : List MailboxInfo) (prefix prefix_id : Option Text)
      (rs : List MailboxRecord) (m : Mapped) (s : Restoring W)
      → Post
          (AllCovered rs m)
          Anything
          (ensure_each target x dry_run index existing prefix prefix_id rs m s)
  unfolding ensure_each
  ensure_each-AllCovered index existing prefix prefix_id [] m s =
      (λ id h. absurd (ground arith), λ id h. h)
  ensure_each-AllCovered index existing prefix prefix_id (r ∷ rs) m s =
      Post-after (Grown m r) Anything (AllCovered (r ∷ rs) m) Anything _ _
        (ensure_mailbox-Grown index existing prefix prefix_id r m s) (λ y t k. tt)
        (λ next t grown.
          Post-weaken (AllCovered rs next) Anything (AllCovered (r ∷ rs) m) Anything _
            (ensure_each-AllCovered index existing prefix prefix_id rs next t) (λ y t k. tt)
            (λ m' t' k. (
              λ id h. elim (Bool-cases (r.info.id == id)) [
                | inl e ↦
                    subst (Covers m'.mapping) ((eq_iff r.info.id id).0 e) (k.1 r.info.id grown.0)
                | inr e ↦ k.0 id (ground arith)
              ],
              λ id h. k.1 id (grown.1 id h),
            )))

  -- The mailboxes that are needed, and the one for messages without one, are somewhere.
  abbrev pub AllThere : Archive → List Text → Bool → Dictionary Text → Restoring W → Type 0
  AllThere archive needed unfiled mapping s =
      ((id : Text)
        → has id archive.mailboxes ≡ true
        → contains needed id ≡ true
        → Covers mapping id)
      × (unfiled ≡ true → Covers mapping unfiled_archive_id)

  ensure_unfiled-AllThere :
      (archive : Archive) (needed : List Text) (prefix prefix_id : Option Text) (m : Mapped)
      (s : Restoring W)
      → ((id : Text)
          → has id archive.mailboxes ≡ true
          → contains needed id ≡ true
          → Covers m.mapping id)
      → Post
          (AllThere archive needed true)
          Anything
          (ensure_unfiled target x dry_run prefix prefix_id m s)
  unfolding ensure_unfiled
  ensure_unfiled-AllThere archive needed prefix prefix_id m s h =
      Post-after {A = Text} (λ a t. Unit {0}) Anything (AllThere archive needed true) Anything _
        (λ id. pure (put m.mapping unfiled_archive_id id)) (anything _) (λ y t k. tt)
        (λ id t k. (
          λ j a b. Covers-put m.mapping unfiled_archive_id j id (h j a b),
          λ u. Covers-put_self m.mapping unfiled_archive_id id,
        ))

  finish-AllThere :
      (archive : Archive) (needed : List Text) (unfiled : Bool) (prefix prefix_id : Option Text)
      (m : Mapped) (s : Restoring W)
      → ((id : Text)
          → has id archive.mailboxes ≡ true
          → contains needed id ≡ true
          → Covers m.mapping id)
      → Post (AllThere archive needed unfiled) Anything (
          (if unfiled then ensure_unfiled target x dry_run prefix prefix_id m else pure m.mapping)
            s)
  finish-AllThere archive needed true prefix prefix_id m s h =
      ensure_unfiled-AllThere archive needed prefix prefix_id m s h
  finish-AllThere archive needed false prefix prefix_id m s h = (h, λ u. absurd (ground arith))

  pub ensure_mailboxes-AllThere :
      (archive : Archive) (needed : List Text) (unfiled : Bool) (prefix : Option Text)
      (s : Restoring W)
      → Post
          (AllThere archive needed unfiled)
          Anything
          (ensure_mailboxes target x dry_run archive needed unfiled prefix s)
  unfolding ensure_mailboxes
  ensure_mailboxes-AllThere archive needed unfiled prefix s =
      Post-after (λ a t. Unit {0}) Anything (AllThere archive needed unfiled) Anything
        (on_target target target.list_mailboxes s) _
        (anything (on_target target target.list_mailboxes s)) (λ y t k. tt)
        (λ existing s₁ k.
          Post-after {A = Option Text × Dictionary Text} (λ a t. Unit {0}) Anything
            (AllThere archive needed unfiled) Anything (rooting existing s₁) _
            (anything (rooting existing s₁)) (λ y t k. tt)
            (λ rooted s₂ k.
              Post-after
                (AllCovered (ordered archive.mailboxes needed)
                  (record { by_path = rooted.1; mapping = [] }))
                Anything (AllThere archive needed unfiled) Anything _ _
                (ensure_each-AllCovered (mailbox_index archive) existing prefix rooted.0
                  (ordered archive.mailboxes needed) (record { by_path = rooted.1; mapping = [] })
                  s₂)
                (λ y t k. tt)
                (λ m s₃ all.
                  finish-AllThere archive needed unfiled prefix rooted.0 m s₃
                    (λ id h k. all.0 id (has-ordered archive.mailboxes needed id h k)))))
    where
      rooting : List MailboxInfo → Exec (Restoring W) (Option Text × Dictionary Text)
      rooting existing =
          ensure_prefix target x dry_run prefix
            (paths_of x (existing_index existing empty_index) existing [])

  pub Covers-Resolved :
      (archive : Archive) (needed : List Text) (unfiled : Bool) (mapping : Dictionary Text)
      (s : Restoring W) (ids : List Text)
      → AllThere archive needed unfiled mapping s
      → All (Resolved archive.mailboxes unfiled) ids
      → All (λ id. contains needed id ≡ true) ids
      → All (Covers mapping) ids
  Covers-Resolved archive needed unfiled mapping s [] there h k = tt
  Covers-Resolved archive needed unfiled mapping s (id ∷ ids) there h k = (
    elim h.0 [
      | inl kept ↦ there.0 id kept k.0
      | inr (same, u) ↦ subst (Covers mapping) (sym same) (there.1 u)
    ],
    Covers-Resolved archive needed unfiled mapping s ids there h.1 k.1,
  )
