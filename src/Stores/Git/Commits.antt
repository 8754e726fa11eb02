-- ===== src/Stores/Git/Commits.antt =====
-- stores/git.rs: the tree and the commit of a checkpoint.
use mail_backup.Base.{
  ℕ, Bool, true, false, ◌&&◌, Option, none, some, List, [], ◌∷◌, ◌++◌, Text, Bytes, system, ok, err,
  Exec, pure, raise, lift, reads, modify, ◌>>=◌, ◌>>◌, when, is_some, is_empty, ◌==◌, nat_eq,
  list_eq, option_eq, if◌then◌else◌, Dictionary, get,
}
use mail_backup.Externals.{Externals}
use mail_backup.Messages.{MailEvent}
use mail_backup.Stores.{StoreState, EventOutcome, backfill, live, Checkpoint, MailStore}
use mail_backup.Stores.Index.{get_message, messages}
use mail_backup.Stores.Sidecar.{Yaml}
use mail_backup.Stores.Persistence.{Json}
use mail_backup.Stores.Directory.{panic, take_path_edits}
use mail_backup.Stores.Directory.Running
use mail_backup.Stores.Directory.Running.{take_message, rebuild_from_dir}
use mail_backup.Stores.Git.Opening.{open_store}
use mail_backup.Stores.Git.{
  Title, Gix, GitMailStore, repository, within, head_id, head_tree_id, signature, finals,
  commit_message, end_of_day,
}

abbrev pub parent_list : Option Text → List Text
parent_list none = []
parent_list (some id) = id ∷ []

-- Whether the HEAD is the commit of that day, as it was left.
unfoldable pub is_amendable : StoreState → ℕ → Option Text → Bool
is_amendable state date head =
    (state.current_commit_day == some date) && (state.head_at_save == head) && is_some head

module _ {G E : Type 0} (gix : Gix G E) where
  -- What is at a path of the disk, to be read.
  unfoldable pub read_file : Text → Exec (GitMailStore G) Bytes
  read_file path s = elim (get s.inner.disk.tree path) [
    | none ↦ (err (record { kind = system; what = "read while committing" }), s)
    | some content ↦ (ok content, s)
  ]

  unfoldable pub edit_path : Text → Bool → E → Exec (GitMailStore G) E
  unfolding read_file repository
  edit_path path true editor = do
    content ← read_file path
    blob ← repository gix (gix.write_blob content)
    lift (gix.upsert_entry path blob editor)
  edit_path path false editor = lift (gix.remove_entry path editor)

  unfoldable pub edit_paths : Dictionary Bool → E → Exec (GitMailStore G) E
  unfolding edit_path
  edit_paths [] editor = pure editor
  edit_paths ((path, is_upsert) ∷ rest) editor = do
    edited ← edit_path path is_upsert editor
    edit_paths rest edited

  unfoldable pub build_tree : Exec (GitMailStore G) Text
  unfolding edit_paths finals repository head_tree_id
  build_tree = do
    pending ← reads GitMailStore.pending
    modify (λ s. record s { pending = [] })
    head_tree ← head_tree_id gix
    opened ← repository gix (reads (λ g. gix.edit_tree head_tree g))
    editor ← lift opened
    edited ← edit_paths (finals pending []) editor
    repository gix (gix.write_tree edited)

  unfoldable pub commit_new : Text → Title → ℕ → Exec (GitMailStore G) Text
  unfolding repository head_id signature
  commit_new tree message at = do
    by ← reads (λ s. signature gix s at)
    head ← head_id gix
    repository gix (
        gix.commit_as (record {
          committer = by;
          author = by;
          message = message;
          tree = tree;
          parents = parent_list head;
        }))

  -- The name of the branch, which has to be there.
  unfoldable pub branch_name : Option Text → Exec (GitMailStore G) Text
  branch_name none = raise panic
  branch_name (some branch) = pure branch

  unfoldable pub amend_head : Text → Text → Title → Exec (GitMailStore G) Text
  unfolding repository signature branch_name
  amend_head head tree message = do
    looked_up ← repository gix (reads (λ g. gix.find_commit g head))
    old ← lift looked_up
    committer ← reads (λ s. signature gix s s.now)
    new_id ←
        repository gix
          (gix.new_commit_as (record old { committer = committer; message = message; tree = tree }))
    named ← repository gix (reads gix.head_name)
    name ← lift named
    branch ← branch_name name
    repository gix (gix.edit_reference branch head new_id)
    pure new_id

  abbrev pub set_commit_day : ℕ → Exec (GitMailStore G) (Unit {0})
  set_commit_day date = modify (λ s. record s {
    inner = record s.inner { state = record s.inner.state { current_commit_day = some date } };
  })

  abbrev pub set_head_at_save : Option Text → Exec (GitMailStore G) (Unit {0})
  set_head_at_save head = modify (λ s. record s {
    inner = record s.inner { state = record s.inner.state { head_at_save = head } };
  })

  unfoldable pub amend_or_commit : Bool → Option Text → Text → Title → Exec (GitMailStore G) Text
  unfolding amend_head commit_new
  amend_or_commit true (some head) tree message = amend_head head tree message
  amend_or_commit true none tree message = raise panic
  amend_or_commit false head tree message = do
    now ← reads GitMailStore.now
    commit_new tree message now

  unfoldable pub commit_live : ℕ → Option Text → Text → Title → Exec (GitMailStore G) (Option Text)
  unfolding is_amendable amend_or_commit
  commit_live date head tree message = do
    amendable ← reads (λ s. is_amendable s.inner.state date head)
    id ← amend_or_commit amendable head tree message
    set_commit_day date
    pure (some id)

  unfoldable pub commit_backfill : ℕ → Text → Title → Exec (GitMailStore G) (Option Text)
  unfolding commit_new end_of_day
  commit_backfill date tree message = do
    id ← commit_new tree message (end_of_day date)
    pure (some id)

  unfoldable pub commit_kind : Checkpoint → Option Text → Text → Exec (GitMailStore G) (Option Text)
  unfolding commit_live commit_backfill commit_message
  commit_kind c head tree = elim c.kind [
    | backfill ↦ commit_backfill c.date tree (commit_message c)
    | live ↦ commit_live c.date head tree (commit_message c)
  ]

  -- The commit of a checkpoint, which is the new HEAD; none where the tree is as it was.
  unfoldable pub commit_snapshot :
      Checkpoint → Option Text → Text → Text → Exec (GitMailStore G) (Option Text)
  unfolding commit_kind
  commit_snapshot c head head_tree tree =
      let made = commit_kind c head tree in if tree == head_tree then pure head else made

  unfoldable pub snapshot_tree : Text → Exec (GitMailStore G) Text
  unfolding build_tree
  snapshot_tree head_tree = do
    pending ← reads GitMailStore.pending
    if is_empty pending then pure head_tree else build_tree

  -- A call whose failure is only logged.
  unfoldable pub refresh_git_index : Text → Exec (GitMailStore G) (Unit {0})
  unfolding repository
  refresh_git_index tree s = (ok tt, (repository gix (gix.refresh_index tree) s).1)

  unfoldable pub checkpoint : Json → Checkpoint → Exec (GitMailStore G) (Unit {0})
  unfolding head_id head_tree_id snapshot_tree commit_snapshot within refresh_git_index
      Running.checkpoint
  checkpoint json c = do
    head ← head_id gix
    head_tree ← head_tree_id gix
    new_tree ← snapshot_tree head_tree
    new_head ← commit_snapshot c head head_tree new_tree
    set_head_at_save new_head
    within gix (Running.checkpoint json c)
    when (is_some new_head) (refresh_git_index new_tree)

  unfoldable pub save_state : Json → Exec (GitMailStore G) (Unit {0})
  unfolding within Running.save_state
  save_state json = within gix (Running.save_state json)

  unfoldable pub apply :
      Externals → Yaml → List MailEvent → Exec (GitMailStore G) (List EventOutcome)
  unfolding within take_path_edits Running.apply
  apply x y events = do
    outcomes ← within gix (Running.apply x y events)
    edits ← within gix take_path_edits
    modify (λ s. record s { pending = s.pending ++ edits })
    pure outcomes

  unfoldable pub git_store : Externals → Yaml → Json → ℕ → MailStore (GitMailStore G)
  unfolding open_store apply checkpoint save_state get_message messages
  git_store x y json rounds = record {
    open_store = open_store gix json y rounds;
    state = λ s. s.inner.state;
    set_state = λ state s. record s { inner = record s.inner { state = state } };
    mailboxes = λ s. s.inner.index.mailboxes;
    lookup = λ id s. get_message s.inner.index id;
    list = λ s. messages s.inner.index;
    apply = apply x y;
    checkpoint = checkpoint json;
    save_state = save_state json;
  }
