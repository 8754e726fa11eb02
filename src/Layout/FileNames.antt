-- ===== src/Layout/FileNames.antt =====
-- stores/layout.rs and stores/index.rs: the names of message files and of their sidecars.
use mail_backup.Base.{◌≡◌, Option, none, some, ◌++◌, Text, arith, strip_suffix, strip_suffix-append}
use mail_backup.Layout.{message_suffix, sidecar_suffix, sidecar_path}

-- `rebuild_from_dir` of stores/index.rs: the path of the message that a sidecar stands beside.
unfoldable pub eml_path : Text → Option Text
eml_path sidecar = elim (strip_suffix sidecar sidecar_suffix) [
  | none ↦ none
  | some stem ↦ some (stem ++ message_suffix)
]

-- The scan of a store recovers from the sidecar's path the path of every message file, so two
-- message files never share a sidecar.
pub eml_path-sidecar_path :
    (stem : Text) → eml_path (sidecar_path (stem ++ message_suffix)) ≡ some (stem ++ message_suffix)
unfolding eml_path sidecar_path
eml_path-sidecar_path stem =
    ground (arith, strip_suffix-append stem message_suffix, strip_suffix-append stem sidecar_suffix)
