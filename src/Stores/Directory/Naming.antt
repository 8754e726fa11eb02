-- ===== src/Stores/Directory/Naming.antt =====
-- stores/dir.rs: the names of a message's files, and of the temporary ones.
use mail_backup.Base.{
  some, ◌++◌, Text, codes, nat_eq, list_eq, ◌≡◌, ◌≢◌, refl, sym, ◌∙◌, ap, arith, last?,
  last_of_append, length, length-append, strip_suffix-append,
}
use mail_backup.Layout.{message_suffix, sidecar_suffix, sidecar_path}
use mail_backup.Stores.Disk.{with_extension, split_name, file_stem}
use mail_backup.Stores.Persistence.{temporary}

-- A temporary file has another name than a file that does not end as it does.
pub last-temporary : (path : Text) → last? (temporary path) ≡ some b'b'
unfolding with_extension
last-temporary path =
    let (dir, name) = split_name path in
    last_of_append (dir ++ file_stem name ++ codes ".") (codes "tmp-mb") b'b' refl

-- The files of a message, by its path without the suffix.
module _ (stem : Text) where
  pub sidecar_path_lem : sidecar_path (stem ++ message_suffix) ≡ stem ++ sidecar_suffix
  unfolding sidecar_path
  sidecar_path_lem = ground (arith, strip_suffix-append stem message_suffix)

  last_message : last? (stem ++ message_suffix) ≡ some b'l'
  last_message = last_of_append stem message_suffix b'l' refl

  last_sidecar : last? (stem ++ sidecar_suffix) ≡ some b'l'
  last_sidecar = last_of_append stem sidecar_suffix b'l' refl

  pub message_apart : (other : Text) → temporary other ≢ stem ++ message_suffix
  message_apart other e = ground (arith, last-temporary other, ap last? e, last_message)

  pub sidecar_apart : (other : Text) → temporary other ≢ stem ++ sidecar_suffix
  sidecar_apart other e = ground (arith, last-temporary other, ap last? e, last_sidecar)

  pub files_apart : stem ++ message_suffix ≢ stem ++ sidecar_suffix
  files_apart e = omega (
    arith,
    ap (λ (t : Text). length t) e,
    length-append stem message_suffix,
    length-append stem sidecar_suffix,
  )

-- The names of a message's two files, and their temporary ones.
pub names_apart :
    (path stem : Text)
    → path ≡ stem ++ message_suffix
    → (temporary path ≢ path)
      × (temporary (sidecar_path path) ≢ sidecar_path path)
      × (path ≢ sidecar_path path)
      × (path ≢ temporary (sidecar_path path))
names_apart path stem e = (
  λ h. message_apart stem path (h ∙ e),
  λ h. sidecar_apart stem (sidecar_path path) (h ∙ sidecar),
  λ h. files_apart stem (sym e ∙ h ∙ sidecar),
  λ h. message_apart stem (sidecar_path path) (sym h ∙ e),
)
  where
    sidecar : sidecar_path path ≡ stem ++ sidecar_suffix
    sidecar = ap sidecar_path e ∙ sidecar_path_lem stem
