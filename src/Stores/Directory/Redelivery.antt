-- ===== src/Stores/Directory/Redelivery.antt =====
-- stores/dir.rs: a message event that is applied again.
use mail_backup.Base.{
  true, false, some, Text, Bytes, ok, get, ◌==◌, nat_eq, list_eq, eq_iff, eq_refl, if_true, ◌≡◌,
  refl, ◌∙◌, ap, arith,
}
use mail_backup.Externals.{Externals}
use mail_backup.Entities.{MessageMeta}
use mail_backup.Layout.{sidecar_path}
use mail_backup.Stores.{StoredMessage, unchanged}
use mail_backup.Stores.Index.{get_message, insert_message}
use mail_backup.Stores.Index.Valid.{get_message-insert_message}
use mail_backup.Stores.Sidecar.{Yaml, new_message, to_meta, message_bytes}
use mail_backup.Stores.Disk.{Disk, exists, file_matches}
use mail_backup.Stores.Directory.{DirMailStore, hex_digest, set_index}
use mail_backup.Stores.Directory.Emails.{
  path_for, refresh_sidecar, index_message, describe_message, update_message, apply_message_updated,
  redeliver, apply_message_added,
}
use mail_backup.Stores.Directory.Delivery.{Holds}

file_matches_found :
    (d : Disk) (rel : Text) (content : Bytes)
    → get d.tree rel ≡ some content
    → file_matches d rel content ≡ true
unfolding file_matches
file_matches_found d rel content e = ground (arith, eq_refl content)

exists_found :
    (d : Disk) (rel : Text) (content : Bytes) → get d.tree rel ≡ some content → exists d rel ≡ true
unfolding exists
exists_found d rel content e = ground arith

refresh_sidecar_same :
    (rel : Text) (content : Bytes) (s : DirMailStore)
    → file_matches s.disk rel content ≡ true
    → refresh_sidecar rel content s ≡ (ok false, s)
unfolding refresh_sidecar
refresh_sidecar_same rel content s e = rw (e, refresh_sidecar) refl

module _ (x : Externals) (y : Yaml) (meta : MessageMeta) (sha256 : Text) (path : Text)
    (s : DirMailStore) where
  abbrev held : StoredMessage
  held = record { meta = to_meta (new_message meta sha256); path = path; sha256 = sha256 }

  abbrev again : DirMailStore
  again = record s { index = insert_message s.index held }

  describe_message_same :
      get s.disk.tree (sidecar_path path) ≡ some (message_bytes y (new_message meta sha256))
      → describe_message x y meta sha256 path false s ≡ (ok unchanged, again)
  unfolding describe_message index_message set_index new_message
  describe_message_same e = ground (
    arith,
    refresh_sidecar_same (sidecar_path path) (message_bytes y (new_message meta sha256)) s (
        file_matches_found s.disk (sidecar_path path) (message_bytes y (new_message meta sha256))
          e),
  )

  update_message_same :
      path_for x meta sha256 s.index ≡ path
      → get s.disk.tree (sidecar_path path) ≡ some (message_bytes y (new_message meta sha256))
      → update_message x y meta held s ≡ (ok unchanged, again)
  unfolding update_message
  update_message_same e h =
      if_true (path_for x meta sha256 s.index == path) (describe_message x y meta sha256 path false)
        _ s ((eq_iff (path_for x meta sha256 s.index) path).1 e)
      ∙ describe_message_same h

  apply_message_updated_same :
      get_message s.index meta.id ≡ some held
      → path_for x meta sha256 s.index ≡ path
      → get s.disk.tree (sidecar_path path) ≡ some (message_bytes y (new_message meta sha256))
      → apply_message_updated x y meta s ≡ (ok unchanged, again)
  unfolding apply_message_updated
  apply_message_updated_same found e h = rw (found, apply_message_updated) (update_message_same e h)

  redeliver_same :
      (raw : Bytes)
      → get_message s.index meta.id ≡ some held
      → path_for x meta sha256 s.index ≡ path
      → get s.disk.tree path ≡ some raw
      → get s.disk.tree (sidecar_path path) ≡ some (message_bytes y (new_message meta sha256))
      → redeliver x y meta raw held s ≡ (ok unchanged, again)
  unfolding redeliver
  redeliver_same raw found e there h =
      ground (arith, exists_found s.disk path raw there, apply_message_updated_same found e h)

module _ (x : Externals) (y : Yaml) (meta : MessageMeta) (raw : Bytes) (path : Text)
    (s : DirMailStore) where
  apply_message_added_same :
      Holds x y meta raw (hex_digest x raw) path s
      → path_for x meta (hex_digest x raw) s.index ≡ path
      → apply_message_added x y meta raw s
        ≡ (ok unchanged, again x y meta (hex_digest x raw) path s)
  unfolding apply_message_added
  apply_message_added_same h e =
      rw (h.0, apply_message_added)
        (if_true (hex_digest x raw == hex_digest x raw)
            (redeliver x y meta raw (held x y meta (hex_digest x raw) path s)) _ s
            (eq_refl (hex_digest x raw))
          ∙ redeliver_same x y meta (hex_digest x raw) path s raw h.0 e h.1 h.2)

  same_messages :
      get_message s.index meta.id ≡ some (held x y meta (hex_digest x raw) path s)
      → (j : Text)
      → get_message (again x y meta (hex_digest x raw) path s).index j ≡ get_message s.index j
  unfolding to_meta new_message
  same_messages found j = ground (
    arith,
    get_message-insert_message s.index (held x y meta (hex_digest x raw) path s) j,
    eq_iff meta.id j,
  )

-- A message that the store holds with its file and sidecar, at the path where it belongs: when its
-- event is applied again, that is reported as unchanged, nothing is written or recorded, and the index
-- has the same messages.
pub apply_message_added_twice :
    (x : Externals) (y : Yaml) (meta : MessageMeta) (raw : Bytes) (path : Text) (s : DirMailStore)
    → Holds x y meta raw (hex_digest x raw) path s
    → path_for x meta (hex_digest x raw) s.index ≡ path
    → let (outcome, s') = apply_message_added x y meta raw s in
      (outcome ≡ ok unchanged)
      × (s'.disk ≡ s.disk)
      × (s'.path_edits ≡ s.path_edits)
      × ((j : Text) → get_message s'.index j ≡ get_message s.index j)
apply_message_added_twice x y meta raw path s h e =
    let same = apply_message_added_same x y meta raw path s h e in
    (
      ap (λ r. r.0) same,
      ap (λ r. r.1.disk) same,
      ap (λ r. r.1.path_edits) same,
      λ j. ap (λ r. get_message r.1.index j) same ∙ same_messages x y meta raw path s h.0 j,
    )
