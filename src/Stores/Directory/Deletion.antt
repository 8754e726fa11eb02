-- ===== src/Stores/Directory/Deletion.antt =====
-- stores/dir.rs: what is left of a message after its deletion was applied.
use mail_backup.Base.{
  Bool, true, false, none, some, List, Text, Error, when, Post, Post-after, Post-weaken, get,
  get-erase, ◌==◌, nat_eq, list_eq, eq_iff, eq_refl, ◌≡◌, ◌≢◌, refl, sym, ◌∙◌, ap, subst,
  Bool-cases, inl, inr, arith, if◌then◌else◌,
}
use mail_backup.Layout.{sidecar_path}
use mail_backup.Stores.{StoredMessage, EventOutcome, removed}
use mail_backup.Stores.Index.{get_message, remove_message}
use mail_backup.Stores.Index.Valid.{get_message-remove_message}
use mail_backup.Stores.Disk.{Disk, exists}
use mail_backup.Stores.Disk
use mail_backup.Stores.Directory.{DirMailStore, attempt, push_edits, set_index, remove_file}
use mail_backup.Stores.Directory.Emails.{delete_message, apply_message_deleted}
use mail_backup.Stores.Directory.Writing.{attempt_lem}

-- The file is gone, and every other file and the index are as before.
abbrev pub Gone : Text → DirMailStore → DirMailStore → Type 0
Gone rel s s' =
    (s'.index ≡ s.index)
    × (get s'.disk.tree rel ≡ none)
    × ((q : Text) → q ≢ rel → get s'.disk.tree q ≡ get s.disk.tree q)

absent : (d : Disk) (rel : Text) → exists d rel ≡ false → get d.tree rel ≡ none
unfolding exists
absent d rel e = ground arith

-- A file that stays as it was keeps out what was removed.
erase-Gone :
    (rel : Text) (s : DirMailStore) (rest : List Bool)
    → Gone rel s (record s { disk = Disk.remove (record s.disk { faults = rest }) rel })
erase-Gone rel s rest = (
  refl,
  ground (arith, get-erase s.disk.tree rel rel, eq_refl rel),
  λ q a. ground (arith, get-erase s.disk.tree rel q, eq_iff rel q),
)

pub remove_file-Gone :
    (rel : Text) (s : DirMailStore)
    → Post {A = Unit {0}} (λ u. Gone rel s) (λ x s'. s'.index ≡ s.index) (remove_file rel s)
unfolding remove_file push_edits
remove_file-Gone rel s =
    Post-after (λ u. Gone rel s) (λ x s'. s'.index ≡ s.index) _ _ _ _ (go (exists s.disk rel) refl)
      (λ x s₁ h. h) (λ u s₁ h. h)
  where
    go :
        (present : Bool)
        → exists s.disk rel ≡ present
        → Post {A = Unit {0}}
            (λ u. Gone rel s)
            (λ x s'. s'.index ≡ s.index)
            (when present (attempt "remove" (λ d. Disk.remove d rel)) s)
    go false e = (refl, absent s.disk rel e, λ q a. refl)
    go true e =
        attempt_lem "remove" (λ d. Disk.remove d rel) s _ _ (λ rest. erase-Gone rel s rest)
          (λ rest. refl)

-- Both files of the message are gone, and no others.
abbrev pub Deleted : Text → DirMailStore → DirMailStore → Type 0
Deleted path s s' =
    (get s'.disk.tree path ≡ none)
    × (get s'.disk.tree (sidecar_path path) ≡ none)
    × ((q : Text) → q ≢ path → q ≢ sidecar_path path → get s'.disk.tree q ≡ get s.disk.tree q)

still-Gone :
    (path q : Text) (s s₁ s₂ : DirMailStore)
    → Gone path s s₁
    → Gone q s₁ s₂
    → get s₂.disk.tree path ≡ none
still-Gone path q s s₁ s₂ h₁ h₂ = elim (Bool-cases (path == q)) [
  | inl same ↦ ap (get s₂.disk.tree) ((eq_iff path q).0 same) ∙ h₂.1
  | inr other ↦ ground (arith, h₂.2 path, eq_iff path q, h₁.1)
]

delete_message_lem :
    (m : StoredMessage) (s : DirMailStore)
    → Post
        (λ outcome s'. (outcome ≡ removed) × (s'.index ≡ s.index) × Deleted m.path s s')
        (λ x s'. s'.index ≡ s.index)
        (delete_message (some m) s)
unfolding delete_message
delete_message_lem m s =
    Post-after (λ u. Gone m.path s) (λ x s'. s'.index ≡ s.index) _ _ _ _ (remove_file-Gone m.path s)
      (λ x s₁ h. h)
      (λ u s₁ h₁.
        Post-after (λ u. Gone (sidecar_path m.path) s₁) (λ x s'. s'.index ≡ s₁.index) _ _ _ _
          (remove_file-Gone (sidecar_path m.path) s₁) (λ x s₂ h. h ∙ h₁.0)
          (λ u s₂ h₂. (
            refl,
            h₂.0 ∙ h₁.0,
            (
              still-Gone m.path (sidecar_path m.path) s s₁ s₂ h₁ h₂,
              h₂.1,
              λ q a b. h₂.2 q b ∙ h₁.2 q a,
            ),
          )))

-- When the deletion of a message that the store holds is applied, the index has it no longer, whether
-- that succeeds or fails; where it succeeds, it is reported as removed, its file and its sidecar are
-- gone, and every other file is as it was. The other messages stay in the index.
pub apply_message_deleted-Deleted :
    (id : Text) (m : StoredMessage) (s : DirMailStore)
    → get_message s.index id ≡ some m
    → Post
        (λ outcome s'.
          (outcome ≡ removed)
          × Deleted m.path s s'
          × ((j : Text)
              → get_message s'.index j ≡ (if id == j then none else get_message s.index j)))
        (λ x s'. get_message s'.index id ≡ none)
        (apply_message_deleted id s)
unfolding apply_message_deleted set_index remove_message get_message
apply_message_deleted-Deleted id m s e =
    subst (λ known. Post Good Bad (delete_message known s₁)) (sym e)
      (Post-weaken
        (λ outcome s'. (outcome ≡ removed) × (s'.index ≡ s₁.index) × Deleted m.path s₁ s')
        (λ x s'. s'.index ≡ s₁.index) Good Bad (delete_message (some m) s₁)
        (delete_message_lem m s₁)
        (λ x s' h.
          ap (λ i. get_message i id) h
          ∙ ground (arith, get_message-remove_message s.index id id, eq_refl id))
        (λ outcome s' h.
          (h.0, h.2, λ j. ap (λ i. get_message i j) h.1 ∙ get_message-remove_message s.index id j)))
  where
    s₁ : DirMailStore
    s₁ = record s { index = (remove_message s.index id).1 }

    Good : EventOutcome → DirMailStore → Type 0
    Good outcome s' =
        (outcome ≡ removed)
        × Deleted m.path s s'
        × ((j : Text) → get_message s'.index j ≡ (if id == j then none else get_message s.index j))

    Bad : Error → DirMailStore → Type 0
    Bad x s' = get_message s'.index id ≡ none
