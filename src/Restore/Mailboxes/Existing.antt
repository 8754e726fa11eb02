-- ===== src/Restore/Mailboxes/Existing.antt =====
-- restore/mod.rs: `ensure_mailboxes` maps to mailboxes that the target has.
use mail_backup.Base.{
  codes, ◌>>=◌, Bool, true, false, Option, none, some, List, [], ◌∷◌, Text, ok, Error, Exec, pure,
  All, Post, Post-after, Post-intro, Post-option, Dictionary, get, put, get-put, ◌==◌, nat_eq,
  list_eq, if◌then◌else◌, ◌≡◌, refl, arith, Bool-cases, inl, inr, subst,
}
use mail_backup.Externals.{Externals}
use mail_backup.Entities.{MailboxRecord, MailboxIndex, MailboxInfo, empty_index, name_path}
use mail_backup.Restore.{
  RestoreTarget, Archive, Restoring, Mapped, mailbox_index, ordered, unfiled_archive_id, create,
  ensure_prefix, ensure_mailbox, ensure_each, ensure_unfiled, ensure_mailboxes, on_target,
  target_path, unfiled_path, parent_target, claimed_role, paths_of, existing_index,
}
use mail_backup.Restore.Selecting.{target_ids}

-- `There` says of a world that the target has a mailbox of this id: it has those that it lists and
-- that it has made, and making one loses none.
pub record IsHousing {W : Type 0} (target : RestoreTarget W) (There : Text → W → Type 0)
    : Type 0 where
  pub there-list_mailboxes :
      (w : W) (infos : List MailboxInfo)
      → (target.list_mailboxes w).0 ≡ ok infos
      → All (λ i. There i.id (target.list_mailboxes w).1) infos
  pub there-create_mailbox :
      (name : Text) (parent role : Option Text) (w : W) (id : Text)
      → (target.create_mailbox name parent role w).0 ≡ ok id
      → There id (target.create_mailbox name parent role w).1
  pub kept-create_mailbox :
      (name : Text) (parent role : Option Text) (w : W) (id : Text)
      → There id w
      → There id (target.create_mailbox name parent role w).1

module _ {W : Type 0} (There : Text → W → Type 0) where
  -- The target has every mailbox that is a value.
  abbrev pub AllHoused : Dictionary Text → W → Type 0
  AllHoused m w = (k id : Text) → get m k ≡ some id → There id w

  AllHoused-put :
      (m : Dictionary Text) (k id : Text) (w : W)
      → AllHoused m w
      → There id w
      → AllHoused (put m k id) w
  AllHoused-put m k id w h there j a e = elim (Bool-cases (k == j)) [
    | inl same ↦
        let found : some id ≡ some a = ground (arith, get-put m k j id) in
        subst (λ (o : Option Text). held_of o) found there
    | inr other ↦ h j a (ground (arith, get-put m k j id))
  ]
    where
      held_of : Option Text → Type 0
      held_of none = Unit
      held_of (some b) = There b w

  AllHoused-grow :
      (m : Dictionary Text) (w w' : W)
      → ((id : Text) → There id w → There id w')
      → AllHoused m w
      → AllHoused m w'
  AllHoused-grow m w w' grow h k id e = grow id (h k id e)

  AllHoused-paths_of :
      (x : Externals) (index : MailboxIndex) (infos : List MailboxInfo) (m : Dictionary Text)
      (w : W)
      → All (λ i. There i.id w) infos
      → AllHoused m w
      → AllHoused (paths_of x index infos m) w
  unfolding paths_of
  AllHoused-paths_of x index [] m w all h = h
  AllHoused-paths_of x index (info ∷ infos) m w all h =
      go (name_path index info.id) (λ m'. AllHoused-paths_of x index infos m' w all.1)
    where
      go :
          (path : Option Text)
          → ((m' : Dictionary Text) → AllHoused m' w → AllHoused (paths_of x index infos m') w)
          → AllHoused
              (elim path as (λ p. Dictionary Text) [
                | none ↦ paths_of x index infos m
                | some path ↦ paths_of x index infos (put m (x.to_lowercase path) info.id)
              ])
              w
      go none rest = rest m h
      go (some path) rest = rest _ (AllHoused-put m (x.to_lowercase path) info.id w h all.0)

  AllHoused-none : (w : W) → AllHoused [] w
  unfolding get
  AllHoused-none w k id e = absurd (ground arith)

  pub target_ids-There :
      (mapping : Dictionary Text) (ids : List Text) (w : W)
      → AllHoused mapping w
      → All (λ id. There id w) (target_ids mapping ids)
  unfolding target_ids
  target_ids-There mapping [] w h = tt
  target_ids-There mapping (id ∷ ids) w h =
      go (get mapping id) refl (target_ids-There mapping ids w h)
    where
      go :
          (o : Option Text)
          → get mapping id ≡ o
          → All (λ t. There t w) (target_ids mapping ids)
          → All
              (λ t. There t w)
              (elim o as (λ o. List Text) [
                | none ↦ target_ids mapping ids
                | some t ↦ t ∷ target_ids mapping ids
              ])
      go none e rest = rest
      go (some t) e rest = (h id t e, rest)

module _ {W : Type 0} (target : RestoreTarget W) (There : Text → W → Type 0)
    (housing : IsHousing target There) (x : Externals) where
  abbrev Anything : Error → Restoring W → Type 0
  Anything y s = Unit {0}

  -- The target has this mailbox, and all that it had.
  abbrev Made : Restoring W → Text → Restoring W → Type 0
  Made s id s' = There id s'.world × ((j : Text) → There j s.world → There j s'.world)

  create-Made :
      (name : Text) (parent role : Option Text) (s : Restoring W)
      → Post (Made s) Anything (create target false name parent role s)
  unfolding create on_target
  create-Made name parent role s =
      Post-intro _ _ (create target false name parent role s)
        (λ id done. (
          housing.there-create_mailbox name parent role s.world id done,
          housing.kept-create_mailbox name parent role s.world,
        ))
        (λ y failed. tt)

  abbrev Housed : Dictionary Text → Restoring W → Type 0
  Housed m s = AllHoused There m s.world

  abbrev BothHoused : Mapped → Restoring W → Type 0
  BothHoused m s = Housed m.by_path s × Housed m.mapping s

  ensure_prefix-Housed :
      (prefix : Option Text) (m : Dictionary Text) (s : Restoring W)
      → Housed m s
      → Post (λ r. Housed r.1) Anything (ensure_prefix target x false prefix m s)
  unfolding ensure_prefix
  ensure_prefix-Housed none m s h = h
  ensure_prefix-Housed (some prefix) m s h =
      Post-option (λ r. Housed r.1) Anything (get m (x.to_lowercase prefix)) _ _ s
        (Post-after (Made s) Anything (λ r. Housed r.1) Anything _ _
          (create-Made prefix none none s) (λ y t k. tt)
          (λ id t made.
            AllHoused-put There m (x.to_lowercase prefix) id t.world
              (AllHoused-grow There m s.world t.world made.1 h) made.0))
        (λ id. h)

  ensure_mailbox-Housed :
      (index : MailboxIndex) (existing : List MailboxInfo) (prefix prefix_id : Option Text)
      (r : MailboxRecord) (m : Mapped) (s : Restoring W)
      → BothHoused m s
      → Post BothHoused Anything
          (ensure_mailbox target x false index existing prefix prefix_id r m s)
  unfolding ensure_mailbox
  ensure_mailbox-Housed index existing prefix prefix_id r m s h =
      Post-option BothHoused Anything (name_path index r.info.id) _ _ s tt
        λ name. found name (get m.by_path (target_path x prefix name)) refl
    where
      made_of : Text → Exec (Restoring W) Mapped
      made_of name = do
        id ←
            create target false r.info.name (parent_target m.mapping prefix_id r.info.parent_id)
              (claimed_role existing prefix r.info.role)
        pure (record {
          by_path = put m.by_path (target_path x prefix name) id;
          mapping = put m.mapping r.info.id id;
        })

      found :
          (name : Text) (o : Option Text)
          → get m.by_path (target_path x prefix name) ≡ o
          → Post BothHoused Anything (
              (elim o as (λ y. Exec (Restoring W) Mapped) [
                | none ↦ made_of name
                | some id ↦ pure (record m { mapping = put m.mapping r.info.id id })
              ])
                s)
      found name (some id) e =
          (h.0, AllHoused-put There m.mapping r.info.id id s.world h.1 (h.0 _ id e))
      found name none e =
          Post-after (Made s) Anything BothHoused Anything _ _ (create-Made r.info.name _ _ s)
            (λ y t k. tt)
            (λ id t made. (
              AllHoused-put There m.by_path (target_path x prefix name) id t.world
                  (AllHoused-grow There m.by_path s.world t.world made.1 h.0) made.0,
              AllHoused-put There m.mapping r.info.id id t.world
                  (AllHoused-grow There m.mapping s.world t.world made.1 h.1) made.0,
            ))

  ensure_each-Housed :
      (index : MailboxIndex) (existing : List MailboxInfo) (prefix prefix_id : Option Text)
      (rs : List MailboxRecord) (m : Mapped) (s : Restoring W)
      → BothHoused m s
      → Post BothHoused Anything (ensure_each target x false index existing prefix prefix_id rs m s)
  unfolding ensure_each
  ensure_each-Housed index existing prefix prefix_id [] m s h = h
  ensure_each-Housed index existing prefix prefix_id (r ∷ rs) m s h =
      Post-after BothHoused Anything BothHoused Anything _ _
        (ensure_mailbox-Housed index existing prefix prefix_id r m s h) (λ y t k. tt)
        (λ next t. ensure_each-Housed index existing prefix prefix_id rs next t)

  ensure_unfiled-Housed :
      (prefix prefix_id : Option Text) (m : Mapped) (s : Restoring W)
      → BothHoused m s
      → Post Housed Anything (ensure_unfiled target x false prefix prefix_id m s)
  unfolding ensure_unfiled
  ensure_unfiled-Housed prefix prefix_id m s h =
      Post-after (Made s) Anything Housed Anything _
        (λ id. pure (put m.mapping unfiled_archive_id id))
        (found (get m.by_path (unfiled_path prefix)) refl) (λ y t k. tt)
        (λ id t made.
          AllHoused-put There m.mapping unfiled_archive_id id t.world
            (AllHoused-grow There m.mapping s.world t.world made.1 h.1) made.0)
    where
      found :
          (o : Option Text)
          → get m.by_path (unfiled_path prefix) ≡ o
          → Post (Made s) Anything (
              (elim o as (λ y. Exec (Restoring W) Text) [
                | some id ↦ pure id
                | none ↦ create target false (codes "Unfiled") prefix_id none
              ])
                s)
      found (some id) e = (h.0 _ id e, λ j k. k)
      found none e = create-Made (codes "Unfiled") prefix_id none s

  pub ensure_mailboxes-Housed :
      (archive : Archive) (needed : List Text) (unfiled : Bool) (prefix : Option Text)
      (s : Restoring W)
      → Post Housed Anything (ensure_mailboxes target x false archive needed unfiled prefix s)
  unfolding ensure_mailboxes on_target
  ensure_mailboxes-Housed archive needed unfiled prefix s =
      Post-after (λ infos t. All (λ i. There i.id t.world) infos) Anything Housed Anything
        (on_target target target.list_mailboxes s) _
        (Post-intro _ _ (on_target target target.list_mailboxes s)
          (λ infos done. housing.there-list_mailboxes s.world infos done) (λ y failed. tt))
        (λ y t k. tt)
        (λ existing s₁ all.
          Post-after {A = Option Text × Dictionary Text} (λ r. Housed r.1) Anything Housed Anything
            (ensure_prefix target x false prefix
              (paths_of x (existing_index existing empty_index) existing []) s₁)
            _
            (ensure_prefix-Housed prefix _ s₁ (
              AllHoused-paths_of There x _ existing [] s₁.world all
                (AllHoused-none There s₁.world)))
            (λ y t k. tt)
            (λ rooted s₂ h.
              Post-after BothHoused Anything Housed Anything _ _
                (ensure_each-Housed (mailbox_index archive) existing prefix rooted.0
                  (ordered archive.mailboxes needed) (record { by_path = rooted.1; mapping = [] })
                  s₂ (h, AllHoused-none There s₂.world))
                (λ y t k. tt) (λ m s₃ both. finished unfiled rooted.0 m s₃ both)))
    where
      finished :
          (u : Bool) (prefix_id : Option Text) (m : Mapped) (t : Restoring W)
          → BothHoused m t
          → Post Housed Anything
              ((if u then ensure_unfiled target x false prefix prefix_id m else pure m.mapping) t)
      finished true prefix_id m t both = ensure_unfiled-Housed prefix prefix_id m t both
      finished false prefix_id m t both = both.1
