-- ===== src/Stores/Git/Opening.antt =====
-- stores/git.rs: opening the store, and the index of a committed tree.
pub mod Rebuilding
pub mod Trusted
use mail_backup.Base.{
  ℕ, zero, suc, ◌+◌, ◌*◌, Bool, true, false, not, Option, none, some, List, [], ◌∷◌, ◌++◌, Text,
  Bytes, codes, String, Kind, system, Result, ok, err, Error, Exec, pure, raise, lift, reads,
  modify, after, ◌>>=◌, ◌>>◌, when, is_some, is_empty, strip_suffix, ◌==◌, nat_eq, list_eq,
  option_eq, if◌then◌else◌, Dictionary, get, put,
}
use mail_backup.Externals.{Externals}
use mail_backup.Entities
use mail_backup.Messages.{MailEvent}
use mail_backup.Layout.{mailbox_meta_file, sidecar_suffix, message_suffix}
use mail_backup.Stores.{
  StoreState, EventOutcome, SnapshotKind, backfill, live, Checkpoint, Description, PathEdit, upsert,
  remove, MailStore,
}
use mail_backup.Stores.Index.{
  StoreIndex, empty_store, get_message, insert_message, messages, diff_indexes,
}
use mail_backup.Stores.Sidecar.{Yaml, to_meta, to_info, parse_message, parse_mailbox}
use mail_backup.Stores.Disk.{Disk}
use mail_backup.Stores.Disk
use mail_backup.Stores.Persistence.{Json, load_index}
use mail_backup.Stores.Directory.{DirMailStore, attempt, panic, set_index, take_path_edits}
use mail_backup.Stores.Directory.Running
use mail_backup.Stores.Directory.Running.{take_message, rebuild_from_dir}
use mail_backup.Stores.Git.{
  Signature, TreeEntry, Commit, initialize, Gix, GitMailStore, first, repository, within, head_id,
  head_tree_id, signature,
}

abbrev pub out_of_rounds : Error
out_of_rounds = record { kind = system; what = "out of rounds" }

abbrev attributes : Bytes
attributes = codes "* -text\n"

module _ {G E : Type 0} (gix : Gix G E) where
  -- The handle is replaced where the call succeeds.
  unfoldable pub acquire : Exec G (Unit {0}) → Exec (GitMailStore G) (Unit {0})
  acquire m = do
    λ s. let (r, g) = m s.repo in (r, record s { repo = g })
    modify (λ s. record s { opened = true })

  unfoldable pub initialize_repository : Exec (GitMailStore G) (Unit {0})
  unfolding repository
  initialize_repository = do
    name ← reads GitMailStore.commit_name
    email ← reads GitMailStore.commit_email
    repository gix (
        gix.set_config (
          (codes "user.name", name)
          ∷ (codes "user.email", email)
          ∷ (codes "core.autocrlf", codes "false")
          ∷ (codes "core.eol", codes "lf")
          ∷ (codes "core.longpaths", codes "true")
          ∷ (codes "gc.auto", codes "0")
          ∷ []))

  unfoldable pub ensure_committer : Exec (GitMailStore G) (Unit {0})
  unfolding repository acquire
  ensure_committer = do
    known ← repository gix (reads gix.has_committer)
    name ← reads GitMailStore.commit_name
    email ← reads GitMailStore.commit_email
    when (not known) (do
      repository gix (
          gix.set_config (
            (codes "gitoxide.committer.nameFallback", name)
            ∷ (codes "gitoxide.committer.emailFallback", email)
            ∷ []))
      acquire gix.open_repository)

  unfoldable pub initial_commit : Exec (GitMailStore G) (Unit {0})
  unfolding repository within attempt signature
  initial_commit = do
    within gix
        (attempt "write .gitattributes" (λ d. Disk.write d (codes ".gitattributes") attributes))
    blob ← repository gix (gix.write_blob attributes)
    opened ← repository gix (reads (gix.edit_tree gix.empty_tree))
    editor ← lift opened
    edited ← lift (gix.upsert_entry (codes ".gitattributes") blob editor)
    tree ← repository gix (gix.write_tree edited)
    by ← reads (λ s. signature gix s s.now)
    id ← repository gix (
        gix.commit_as
          (record { committer = by; author = by; message = initialize; tree = tree; parents = [] }))
    pure tt

  unfoldable pub ensure_initial_commit : Exec (GitMailStore G) (Unit {0})
  unfolding head_id initial_commit
  ensure_initial_commit = do head ← head_id gix; when (not (is_some head)) initial_commit

  -- What one entry of a tree adds to the directories that are still to be walked, and to the index.
  unfoldable pub take_entry :
      Yaml
      → G
      → Text
      → TreeEntry
      → List (Text × Text) × StoreIndex
      → Result (List (Text × Text) × StoreIndex) Error
  unfolding take_message parse_mailbox to_info
  take_entry y g prefix entry (pending, index) =
      let path =
        if is_empty prefix then entry.filename else prefix ++ codes "/" ++ entry.filename in
      if entry.is_tree
      then ok ((path, entry.object_id) ∷ pending, index)
      else if entry.filename == mailbox_meta_file
      then first (gix.find_object g entry.object_id) (λ blob.
        first (parse_mailbox y blob) (λ sidecar. ok (
          pending,
          record index {
            mailboxes =
                Entities.insert index.mailboxes
                  (record { info = to_info sidecar; dir_path = prefix });
          },
        )))
      else elim (strip_suffix entry.filename sidecar_suffix) [
        | none ↦ ok (pending, index)
        | some short ↦ first (gix.find_object g entry.object_id) (λ blob.
            elim (strip_suffix path sidecar_suffix) [
              | none ↦ err panic
              | some stem ↦ first (take_message y stem blob index) (λ next. ok (pending, next))
            ])
      ]

  unfoldable pub take_entries :
      Yaml
      → G
      → Text
      → List TreeEntry
      → List (Text × Text) × StoreIndex
      → Result (List (Text × Text) × StoreIndex) Error
  unfolding take_entry
  take_entries y g prefix [] found = ok found
  take_entries y g prefix (entry ∷ entries) found =
      first (take_entry y g prefix entry found) (take_entries y g prefix entries)

  -- The directories that are still to be walked are a stack, its top first. There are so many rounds.
  unfoldable pub walk :
      Yaml → G → ℕ → List (Text × Text) → StoreIndex → Option (Result StoreIndex Error)
  unfolding take_entries
  walk y g rounds [] index = some (ok index)
  walk y g zero ((prefix, tree) ∷ pending) index = none
  walk y g (suc rounds) ((prefix, tree) ∷ pending) index =
      elim (first (gix.find_tree g tree)
        (λ entries. take_entries y g prefix entries (pending, index))) [
          | err e ↦ some (err e)
          | ok (pending', index') ↦ walk y g rounds pending' index'
        ]

  unfoldable pub rebuild_index_from_head : Yaml → ℕ → Exec (GitMailStore G) StoreIndex
  unfolding head_id head_tree_id repository walk
  rebuild_index_from_head y rounds = do
    head ← head_id gix
    tree ← head_tree_id gix
    result ← repository gix (
        reads (λ g. elim (walk y g rounds (([], tree) ∷ []) empty_store) [
          | none ↦ err out_of_rounds
          | some r ↦ r
        ]))
    if is_some head then lift result else pure empty_store

  unfoldable pub verify : Yaml → ℕ → Exec (GitMailStore G) (List Text)
  unfolding rebuild_index_from_head rebuild_from_dir diff_indexes
  verify y rounds = do
    committed ← rebuild_index_from_head y rounds
    scanned ← reads (λ s. rebuild_from_dir y s.inner.disk)
    on_disk ← lift scanned
    pure (diff_indexes committed on_disk)

  -- The saved index where the state was saved at this HEAD and the index can be read, or that of the
  -- committed tree.
  unfoldable pub choose_index : Json → Yaml → ℕ → Option Text → Exec (GitMailStore G) StoreIndex
  unfolding rebuild_index_from_head load_index
  choose_index json y rounds head = do
    saved ← reads (λ s. s.inner.state.head_at_save)
    cached ← reads (λ s. load_index json s.inner.disk)
    if saved == head
        then elim cached [ some index ↦ pure index | none ↦ rebuild_index_from_head y rounds ]
        else rebuild_index_from_head y rounds

  unfoldable pub connect : Exec (GitMailStore G) (Unit {0})
  unfolding acquire initialize_repository ensure_committer ensure_initial_commit
  connect = do
    present ← reads (λ s. gix.exists s.repo)
    acquire (if present then gix.open_repository else gix.init)
    when (not present) (do initialize_repository; acquire gix.open_repository)
    ensure_committer
    ensure_initial_commit

  unfoldable pub open_store : Json → Yaml → ℕ → Exec (GitMailStore G) (Unit {0})
  unfolding connect choose_index head_id within attempt set_index Running.open_without_index
  open_store json y rounds = do
    within gix (attempt "create the backup directory" (λ d. d))
    connect
    within gix (Running.open_without_index json)
    head ← head_id gix
    index ← choose_index json y rounds head
    within gix (set_index index)
