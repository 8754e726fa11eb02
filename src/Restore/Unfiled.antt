-- ===== src/Restore/Unfiled.antt =====
-- restore/mod.rs: the mailbox for messages without one, under a prefix.
use mail_backup.Base.{
  ℕ, ◌+◌, ◌≤◌, ◌<◌, Bool, true, false, Option, none, some, List, [], ◌∷◌, ◌++◌, Text, codes, Result,
  ok, err, Error, pure, reads, modify, ◌>>=◌, is_some, Post, Post-after, Post-option, Dictionary,
  get, put, get-put, eq_iff, ◌==◌, nat_eq, list_eq, if◌then◌else◌, ◌≡◌, ◌≢◌, refl, sym, subst,
  arith, Bool-cases, Option-cases, inl, inr,
}
use mail_backup.Externals.{Externals}
use mail_backup.Entities.{MailboxInfo, MailboxIndex, MailboxRecord, name_path, empty_index}
use mail_backup.Restore.{
  RestoreTarget, Archive, Restoring, Mapped, paths_of, existing_index, ordered, mailbox_index,
  on_target, create, ensure_prefix, ensure_mailbox, ensure_each, ensure_unfiled, ensure_mailboxes,
  target_path, parent_target, claimed_role, unfiled_path, unfiled_archive_id,
}

module _ {W : Type 0} (target : RestoreTarget W) (x : Externals) (dry_run : Bool)
    (twice : (t : Text) → x.to_lowercase (x.to_lowercase t) ≡ x.to_lowercase t) where
  abbrev Anything : Error → Restoring W → Type 0
  Anything y s = Unit {0}

  -- Every path is folded.
  abbrev Folded : Dictionary Text → Type 0
  Folded m = (k : Text) → is_some (get m k) ≡ true → x.to_lowercase k ≡ k

  put-Folded : (m : Dictionary Text) (k v : Text) → Folded m → Folded (put m (x.to_lowercase k) v)
  put-Folded m k v h j there = elim (Bool-cases (x.to_lowercase k == j)) [
    | inl e ↦ subst (λ t. x.to_lowercase t ≡ t) ((eq_iff (x.to_lowercase k) j).0 e) (twice k)
    | inr e ↦ h j (ground (arith, get-put m (x.to_lowercase k) j v))
  ]

  paths_of-Folded :
      (index : MailboxIndex) (infos : List MailboxInfo) (m : Dictionary Text)
      → Folded m
      → Folded (paths_of x index infos m)
  unfolding paths_of
  paths_of-Folded index [] m h = h
  paths_of-Folded index (info ∷ infos) m h = elim (Option-cases (name_path index info.id)) [
    | inl e ↦ rw (e, paths_of) (paths_of-Folded index infos m h)
    | inr (path, e) ↦
        rw (e, paths_of)
          (paths_of-Folded index infos (put m (x.to_lowercase path) info.id)
            (put-Folded m path info.id h))
  ]

  abbrev created : Restoring W → ℕ
  created s = s.summary.mailboxes_created

  create-more :
      (name : Text) (parent role : Option Text) (n : ℕ) (s : Restoring W)
      → n ≤ created s
      → Post (λ id s'. n < created s') Anything (create target dry_run name parent role s)
  unfolding create on_target
  create-more name parent role n s h = made dry_run
    where
      counted : Restoring W
      counted = record s {
        summary = record s.summary { mailboxes_created = s.summary.mailboxes_created + 1 };
      }

      asked :
          (p : Result Text Error × W)
          → Post (λ id s'. n < created s') Anything (p.0, record counted { world = p.1 })
      asked (ok id, w) = omega arith
      asked (err y, w) = tt

      made :
          (b : Bool)
          → Post
              (λ id s'. n < created s')
              Anything
              ((if b
                  then (modify (λ s. record s { counter = s.counter + 1 }) >>= λ u.
                      reads (λ s. codes "dry-run-" ++ s.counter ∷ []))
                  else on_target target (target.create_mailbox name parent role))
                counted)
      made true = omega arith
      made false = asked (target.create_mailbox name parent role s.world)

  -- The paths of a result are folded, and no fewer mailboxes are created than before.
  abbrev Good : {A : Type 0} → (A → Dictionary Text) → ℕ → A → Restoring W → Type 0
  Good paths n a s = Folded (paths a) × (n ≤ created s)

  ensure_prefix-Good :
      (prefix : Option Text) (m : Dictionary Text) (n : ℕ) (s : Restoring W)
      → Folded m
      → n ≤ created s
      → Post (Good (λ r. r.1) n) Anything (ensure_prefix target x dry_run prefix m s)
  unfolding ensure_prefix
  ensure_prefix-Good none m n s f h = (f, h)
  ensure_prefix-Good (some prefix) m n s f h =
      Post-option (Good (λ (r : Option Text × Dictionary Text). r.1) n) Anything
        (get m (x.to_lowercase prefix)) _ _ s
        (Post-after (λ id s'. n < created s') Anything (Good (λ r. r.1) n) Anything
          (create target dry_run prefix none none s) _ (create-more prefix none none n s h)
          (λ y t k. tt) (λ id t k. (put-Folded m prefix id f, omega arith)))
        λ id. (f, h)

  target_path-fold :
      (prefix : Option Text) (name : Text)
      → (k : Text) × (target_path x prefix name ≡ x.to_lowercase k)
  unfolding target_path
  target_path-fold none name = (name, refl)
  target_path-fold (some prefix) name = (prefix ++ codes "/" ++ name, refl)

  ensure_mailbox-Good :
      (index : MailboxIndex) (existing : List MailboxInfo) (prefix prefix_id : Option Text)
      (r : MailboxRecord) (m : Mapped) (n : ℕ) (s : Restoring W)
      → Folded m.by_path
      → n ≤ created s
      → Post
          (Good Mapped.by_path n)
          Anything
          (ensure_mailbox target x dry_run index existing prefix prefix_id r m s)
  unfolding ensure_mailbox
  ensure_mailbox-Good index existing prefix prefix_id r m n s f h =
      Post-option (Good Mapped.by_path n) Anything (name_path index r.info.id) _ _ s tt λ name.
        Post-option (Good Mapped.by_path n) Anything (get m.by_path (target_path x prefix name)) _ _
          s
          (Post-after (λ id s'. n < created s') Anything (Good Mapped.by_path n) Anything
            (create target dry_run r.info.name (parent_target m.mapping prefix_id r.info.parent_id)
              (claimed_role existing prefix r.info.role) s)
            _ (create-more _ _ _ n s h) (λ y t k. tt)
            (λ id t k.
              let (key, e) = target_path-fold prefix name in
              (
                subst (λ p. Folded (put m.by_path p id)) (sym e) (put-Folded m.by_path key id f),
                omega arith,
              )))
          λ id. (f, h)

  ensure_each-Good :
      (index : MailboxIndex) (existing : List MailboxInfo) (prefix prefix_id : Option Text)
      (rs : List MailboxRecord) (m : Mapped) (n : ℕ) (s : Restoring W)
      → Folded m.by_path
      → n ≤ created s
      → Post
          (Good Mapped.by_path n)
          Anything
          (ensure_each target x dry_run index existing prefix prefix_id rs m s)
  unfolding ensure_each
  ensure_each-Good index existing prefix prefix_id [] m n s f h = (f, h)
  ensure_each-Good index existing prefix prefix_id (r ∷ rs) m n s f h =
      Post-after (Good Mapped.by_path n) Anything (Good Mapped.by_path n) Anything _ _
        (ensure_mailbox-Good index existing prefix prefix_id r m n s f h) (λ y t k. tt)
        (λ next t k. ensure_each-Good index existing prefix prefix_id rs next n t k.0 k.1)

  ensure_unfiled-more :
      (prefix : Text) (prefix_id : Option Text) (m : Mapped) (n : ℕ) (s : Restoring W)
      → x.to_lowercase (prefix ++ codes "/unfiled") ≢ prefix ++ codes "/unfiled"
      → Folded m.by_path
      → n ≤ created s
      → Post
          (λ mapping s'. n < created s')
          Anything
          (ensure_unfiled target x dry_run (some prefix) prefix_id m s)
  unfolding ensure_unfiled unfiled_path
  ensure_unfiled-more prefix prefix_id m n s upper f h =
      elim (Option-cases (get m.by_path (prefix ++ codes "/unfiled"))) [
        | inl e ↦ rw e (
            Post-after (λ id s'. n < created s') Anything (λ mapping s'. n < created s') Anything
              (create target dry_run (codes "Unfiled") prefix_id none s)
              (λ id. pure (put m.mapping unfiled_archive_id id)) (create-more _ _ _ n s h)
              (λ y t k. tt) (λ id t k. k))
        | inr (id, e) ↦ absurd (upper (f (prefix ++ codes "/unfiled") (ground arith)))
      ]

  -- Under a prefix that lower-casing changes, a restore with messages that need the mailbox for those
  -- without one creates a mailbox, whatever mailboxes the target has already, also where this one was
  -- created by a run before.
  pub ensure_mailboxes_again :
      (archive : Archive) (needed : List Text) (prefix : Text) (s : Restoring W)
      → x.to_lowercase (prefix ++ codes "/unfiled") ≢ prefix ++ codes "/unfiled"
      → Post
          (λ mapping s'. s.summary.mailboxes_created < s'.summary.mailboxes_created)
          (λ y s'. Unit {0})
          (ensure_mailboxes target x dry_run archive needed true (some prefix) s)
  unfolding ensure_mailboxes on_target get
  ensure_mailboxes_again archive needed prefix s upper =
      Post-after (λ a t. n ≤ created t) Anything (λ mapping t. n < created t) Anything _ _
        (listed (target.list_mailboxes s.world)) (λ y t k. tt)
        (λ existing s₁ k.
          Post-after (Good (λ (r : Option Text × Dictionary Text). r.1) n) Anything
            (λ mapping t. n < created t) Anything _ _
            (ensure_prefix-Good (some prefix) (paths existing) n s₁
              (paths_of-Folded (existing_index existing empty_index) existing []
                (λ k h. absurd (ground arith)))
              k)
            (λ y t k. tt)
            (λ rooted s₂ k.
              Post-after (Good Mapped.by_path n) Anything (λ mapping t. n < created t) Anything _ _
                (ensure_each-Good (mailbox_index archive) existing (some prefix) rooted.0
                  (ordered archive.mailboxes needed) (record { by_path = rooted.1; mapping = [] }) n
                  s₂ k.0 k.1)
                (λ y t k. tt) (λ m s₃ k. ensure_unfiled-more prefix rooted.0 m n s₃ upper k.0 k.1)))
    where
      n : ℕ
      n = created s

      paths : List MailboxInfo → Dictionary Text
      paths existing = paths_of x (existing_index existing empty_index) existing []

      listed :
          (p : Result (List MailboxInfo) Error × W)
          → Post (λ a t. n ≤ created t) Anything (p.0, record s { world = p.1 })
      listed (ok infos, w) = omega arith
      listed (err y, w) = tt
