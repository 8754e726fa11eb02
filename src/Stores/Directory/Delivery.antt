-- ===== src/Stores/Directory/Delivery.antt =====
-- stores/dir.rs: what the store holds of a message after its event was applied.
use mail_backup.Base.{
  Bool, true, false, Option, none, some, ◌++◌, Text, Bytes, Error, Exec, ◌>>◌, Post, Post-after,
  Post-weaken, get, ◌==◌, nat_eq, list_eq, eq_iff, eq_refl, subst, ◌≡◌, ◌≢◌, refl, sym, ◌∙◌, ap,
  inl, inr, ◌⊎◌, arith, if◌then◌else◌,
}
use mail_backup.Externals.{Externals}
use mail_backup.Entities.{MessageMeta}
use mail_backup.Layout.{sidecar_path, message_suffix, message_path}
use mail_backup.Stores.{StoredMessage, EventOutcome, added}
use mail_backup.Stores.Index.{StoreIndex, get_message, insert_message, remove_message}
use mail_backup.Stores.Index.Valid.{get_message-insert_message, get_message-remove_message}
use mail_backup.Stores.Sidecar.{Yaml, new_message, to_meta, message_bytes}
use mail_backup.Stores.Directory.{DirMailStore, hex_digest, set_index, remove_file}
use mail_backup.Stores.Directory.Emails.{
  path_for, write_unless_same, index_message, store_message, redeliver, discard,
  apply_message_added,
}
use mail_backup.Stores.Directory.Writing.{Elsewhere, Wrote, write_unless_same_lem, remove_file_lem}
use mail_backup.Stores.Directory.Naming.{names_apart}

same_suffix :
    (b : Bool) (u v : Text)
    → (stem : Text) × ((if b then u ++ message_suffix else v ++ message_suffix)
        ≡ stem ++ message_suffix)
same_suffix true u v = (u, refl)
same_suffix false u v = (v, refl)

-- A message file's name is a stem and the suffix of messages.
path_for_stem :
    (x : Externals) (meta : MessageMeta) (sha256 : Text) (index : StoreIndex)
    → (stem : Text) × (path_for x meta sha256 index ≡ stem ++ message_suffix)
unfolding path_for message_path
path_for_stem x meta sha256 index = same_suffix _ _ _

module _ (x : Externals) (y : Yaml) (meta : MessageMeta) (raw : Bytes) (sha256 : Text) where
  abbrev sidecar : Bytes
  sidecar = message_bytes y (new_message meta sha256)

  abbrev pub stored_at : Text → StoredMessage
  stored_at path = record { meta = to_meta (new_message meta sha256); path = path; sha256 = sha256 }

  -- The index has the message at the path, and the two files have its content and its sidecar.
  abbrev pub Holds : Text → DirMailStore → Type 0
  Holds path s =
      (get_message s.index meta.id ≡ some (stored_at path))
      × (get s.disk.tree path ≡ some raw)
      × (get s.disk.tree (sidecar_path path) ≡ some sidecar)

  -- The two files of the message are written, and the index is as before.
  abbrev Filed : Text → DirMailStore → DirMailStore → Type 0
  Filed path s s' =
      (s'.index ≡ s.index)
      × (get s'.disk.tree path ≡ some raw)
      × (get s'.disk.tree (sidecar_path path) ≡ some sidecar)

  file_sidecar :
      (path stem : Text)
      → path ≡ stem ++ message_suffix
      → (s s₁ : DirMailStore) → Wrote path raw s s₁
      → Post {A = Unit {0}}
          (λ u. Filed path s)
          (λ e s'. s'.index ≡ s.index)
          (write_unless_same (sidecar_path path) sidecar s₁)
  file_sidecar path stem e s s₁ h₁ =
      Post-weaken (λ u. Wrote (sidecar_path path) sidecar s₁)
        (λ x. Elsewhere (sidecar_path path) s₁) (λ u. Filed path s) (λ x s'. s'.index ≡ s.index)
        (write_unless_same (sidecar_path path) sidecar s₁)
        (write_unless_same_lem (sidecar_path path) sidecar (names_apart path stem e).1 s₁)
        (λ x s₂ h. h.0 ∙ h₁.0.0)
        (λ u s₂ h. (
          h.0.0 ∙ h₁.0.0,
          h.0.1 path (names_apart path stem e).2 (names_apart path stem e).3 ∙ h₁.1,
          h.1,
        ))

  -- What storing a message leaves behind, at the path chosen for it.
  abbrev Stored : Text → StoreIndex → DirMailStore → Type 0
  Stored path index s' =
      (s'.index ≡ insert_message index (stored_at path))
      × (get s'.disk.tree path ≡ some raw)
      × (get s'.disk.tree (sidecar_path path) ≡ some sidecar)

  store_message_lem :
      (s : DirMailStore)
      → Post
          (λ outcome s'. (outcome ≡ added) × Stored (path_for x meta sha256 s.index) s.index s')
          (λ e s'. s'.index ≡ s.index)
          (store_message x y meta raw sha256 s)
  unfolding store_message index_message set_index
  store_message_lem s =
      let path = path_for x meta sha256 s.index in
      let (stem, e) = path_for_stem x meta sha256 s.index in
      Post-after (λ u. Wrote path raw s) (λ e. Elsewhere path s) _ _ _ _
        (write_unless_same_lem path raw (names_apart path stem e).0 s) (λ x s₁ h. h.0)
        (λ u s₁ h₁.
          Post-after (λ u. Filed path s) (λ e s'. s'.index ≡ s.index) _ _ _ _
            (file_sidecar path stem e s s₁ h₁) (λ x s₂ h. h)
            (λ u s₂ h₂.
              (refl, (ap (λ index. insert_message index (stored_at path)) h₂.0, h₂.1, h₂.2))))

  Stored-Holds :
      (path : Text) (index : StoreIndex) (s' : DirMailStore) → Stored path index s' → Holds path s'
  unfolding to_meta new_message
  Stored-Holds path index s' h = (
    ap (λ i. get_message i meta.id) h.0
        ∙ ground
            (arith, get_message-insert_message index (stored_at path) meta.id, eq_refl meta.id),
    h.1,
    h.2,
  )

discard_lem :
    (id : Text) (m : StoredMessage) (s : DirMailStore)
    → Post {A = Unit {0}}
        (λ u s'. s'.index ≡ (remove_message s.index id).1)
        (λ x s'. s'.index ≡ s.index)
        (discard id m s)
unfolding discard set_index
discard_lem id m s =
    Post-after (λ u s'. s'.index ≡ s.index) (λ x s'. s'.index ≡ s.index) _ _ _ _
      (remove_file_lem m.path s) (λ x s₁ h. h)
      (λ u s₁ h₁.
        Post-after (λ u s'. s'.index ≡ s.index) (λ x s'. s'.index ≡ s.index) _ _ _ _
          (Post-weaken (λ u s'. s'.index ≡ s₁.index) (λ x s'. s'.index ≡ s₁.index)
            (λ u s'. s'.index ≡ s.index) (λ x s'. s'.index ≡ s.index)
            (remove_file (sidecar_path m.path) s₁) (remove_file_lem (sidecar_path m.path) s₁)
            (λ x s₂ h. h ∙ h₁) (λ u s₂ h. h ∙ h₁))
          (λ x s₂ h. h) (λ u s₂ h₂. ap (λ index. (remove_message index id).1) h₂))

-- A message that the store does not hold with this content: when its event is applied, it is reported
-- as added, and the index has it at a path whose file has the content, with the sidecar beside it. If
-- that fails, the index has of it what it had before, or nothing.
pub apply_message_added-Holds :
    (x : Externals) (y : Yaml) (meta : MessageMeta) (raw : Bytes) (s : DirMailStore)
    → ((m : StoredMessage) → get_message s.index meta.id ≡ some m → m.sha256 ≢ hex_digest x raw)
    → Post
        (λ outcome s'.
          (outcome ≡ added) × ((path : Text) × Holds x y meta raw (hex_digest x raw) path s'))
        (λ e s'.
          (get_message s'.index meta.id ≡ get_message s.index meta.id)
          ⊎ (get_message s'.index meta.id ≡ none))
        (apply_message_added x y meta raw s)
unfolding apply_message_added
apply_message_added-Holds x y meta raw s different = go (get_message s.index meta.id) refl
  where
    Good : EventOutcome → DirMailStore → Type 0
    Good outcome s' =
        (outcome ≡ added) × ((path : Text) × Holds x y meta raw (hex_digest x raw) path s')

    Bad : Error → DirMailStore → Type 0
    Bad e s' =
        (get_message s'.index meta.id ≡ get_message s.index meta.id)
        ⊎ (get_message s'.index meta.id ≡ none)

    sha : Text
    sha = hex_digest x raw

    storing :
        (s₁ : DirMailStore)
        → (get_message s₁.index meta.id ≡ get_message s.index meta.id)
          ⊎ (get_message s₁.index meta.id ≡ none)
        → Post Good Bad (store_message x y meta raw sha s₁)
    storing s₁ h =
        let path = path_for x meta sha s₁.index in
        Post-weaken (λ outcome s'. (outcome ≡ added) × Stored x y meta raw sha path s₁.index s')
          (λ e s'. s'.index ≡ s₁.index) Good Bad (store_message x y meta raw sha s₁)
          (store_message_lem x y meta raw sha s₁)
          (λ e s' same.
            subst
              (λ i.
                (get_message i meta.id ≡ get_message s.index meta.id)
                ⊎ (get_message i meta.id ≡ none))
              (sym same) h)
          (λ outcome s' h'. (h'.0, (path, Stored-Holds x y meta raw sha path s₁.index s' h'.1)))

    replacing :
        (m : StoredMessage) (same : Bool)
        → (m.sha256 == sha) ≡ same
        → get_message s.index meta.id ≡ some m
        → Post Good Bad (
            (if same
                then redeliver x y meta raw m
                else (discard meta.id m >> store_message x y meta raw sha))
              s)
    replacing m true t e = absurd (different m e ((eq_iff m.sha256 sha).0 t))
    replacing m false t e =
        Post-after (λ u s'. s'.index ≡ (remove_message s.index meta.id).1)
          (λ e s'. s'.index ≡ s.index) _ _ _ _ (discard_lem meta.id m s)
          (λ e s₁ h. inl (ap (λ i. get_message i meta.id) h))
          (λ u s₁ h. storing s₁ (
            inr (
              ap (λ i. get_message i meta.id) h
              ∙ ground
                  (arith, get_message-remove_message s.index meta.id meta.id, eq_refl meta.id))))

    go :
        (known : Option StoredMessage)
        → get_message s.index meta.id ≡ known
        → Post Good Bad (
            elim known as (λ k. Exec DirMailStore EventOutcome) [
              | none ↦ store_message x y meta raw (hex_digest x raw)
              | some existing ↦
                  if existing.sha256 == hex_digest x raw
                  then redeliver x y meta raw existing
                  else (discard meta.id existing >> store_message x y meta raw (hex_digest x raw))
            ]
              s)
    go none e = storing s (inl refl)
    go (some m) e = replacing m (m.sha256 == sha) refl e
