-- ===== src/Stores/Git/Kept.antt =====
-- stores/git.rs: what a checkpoint leaves of the progress in memory.
use mail_backup.Base.{
  ℕ, Bool, true, false, Option, none, some, Bytes, system, get, Text, Result, ok, err, Error, Exec,
  Keeps, Keeps-bind, Keeps-if, keeps_rules, [], ◌∷◌, if◌then◌else◌, pure, raise, modify, ◌≡◌,
  Dictionary, ◌==◌, list_eq, nat_eq,
}
use mail_backup.Stores.{SnapshotKind, backfill, live, Description, Checkpoint}
use mail_backup.Stores.Laws.{Progress, progress}
use mail_backup.Stores.Directory.{panic}
use mail_backup.Stores.Git.{Title, Gix, GitMailStore, repository, head_id, head_tree_id}
use mail_backup.Stores.Git.Commits.{
  read_file, edit_path, edit_paths, build_tree, commit_new, branch_name, amend_head,
  amend_or_commit, commit_live, commit_backfill, commit_kind, commit_snapshot, snapshot_tree,
  set_commit_day, refresh_git_index,
}

module _ {G E : Type 0} (gix : Gix G E) (q : Progress) where
  -- The progress in memory.
  abbrev pub At : GitMailStore G → Type 0
  At s = progress s.inner.state ≡ q

  Keeps-repository : {A : Type 0} (m : Exec G A) → Keeps At (repository gix m)
  unfolding repository
  Keeps-repository {A} m = record { at = λ s h. called s.opened s h }
    where
      called :
          (b : Bool) (s : GitMailStore G)
          → At s
          → (let p : Result A Error × GitMailStore G =
                (if b
                  then (let (r, g) = m s.repo in (r, record s { repo = g }))
                  else (err panic, s)) in
              At p.1)
      called true s h = h
      called false s h = h

  Keeps-raise : {A : Type 0} (x : Error) → Keeps {A = A} At (raise x)
  Keeps-raise x = record { at = λ s h. h }

  ruleset git_rules = (keeps_rules, Keeps-repository, Keeps-raise)

  pub Keeps-head_id : Keeps At (head_id gix)
  unfolding head_id
  Keeps-head_id = search git_rules

  pub Keeps-head_tree_id : Keeps At (head_tree_id gix)
  unfolding head_tree_id
  Keeps-head_tree_id = search git_rules

  Keeps-read_file : (path : Text) → Keeps At (read_file gix path)
  unfolding read_file
  Keeps-read_file path = record { at = λ s h. read s h (get s.inner.disk.tree path) }
    where
      read :
          (s : GitMailStore G)
          → At s
          → (o : Option Bytes)
          → At
              (elim o as (λ x. Result Bytes Error × GitMailStore G) [
                | none ↦ (err (record { kind = system; what = "read while committing" }), s)
                | some content ↦ (ok content, s)
              ]).1
      read s h none = h
      read s h (some content) = h

  Keeps-edit_path : (path : Text) (b : Bool) (e : E) → Keeps At (edit_path gix path b e)
  unfolding edit_path
  Keeps-edit_path path true e = search (git_rules, Keeps-read_file)
  Keeps-edit_path path false e = search git_rules

  Keeps-edit_paths : (m : Dictionary Bool) (e : E) → Keeps At (edit_paths gix m e)
  unfolding edit_paths
  Keeps-edit_paths [] e = search git_rules
  Keeps-edit_paths ((p, b) ∷ m) e =
      Keeps-bind _ _ (Keeps-edit_path p b e) (λ e'. Keeps-edit_paths m e')

  Keeps-drained : Keeps At (modify (λ s. record s { pending = [] }))
  Keeps-drained = record { at = λ s h. h }

  Keeps-set_commit_day : (date : ℕ) → Keeps At (set_commit_day gix date)
  Keeps-set_commit_day date = record { at = λ s h. h }

  Keeps-build_tree : Keeps At (build_tree gix)
  unfolding build_tree
  Keeps-build_tree = search (git_rules, Keeps-drained, Keeps-edit_paths) depth 12

  pub Keeps-snapshot_tree : (tree : Text) → Keeps At (snapshot_tree gix tree)
  unfolding snapshot_tree
  Keeps-snapshot_tree tree = search (git_rules, Keeps-build_tree)

  Keeps-commit_new : (tree : Text) (m : Title) (at : ℕ) → Keeps At (commit_new gix tree m at)
  unfolding commit_new
  Keeps-commit_new tree m at = search git_rules

  Keeps-branch_name : (o : Option Text) → Keeps At (branch_name gix o)
  unfolding branch_name
  Keeps-branch_name none = search git_rules
  Keeps-branch_name (some b) = search git_rules

  Keeps-amend_head : (id tree : Text) (m : Title) → Keeps At (amend_head gix id tree m)
  unfolding amend_head
  Keeps-amend_head id tree m = search (git_rules, Keeps-branch_name) depth 14

  Keeps-amend_or_commit :
      (b : Bool) (o : Option Text) (tree : Text) (m : Title)
      → Keeps At (amend_or_commit gix b o tree m)
  unfolding amend_or_commit
  Keeps-amend_or_commit true (some id) tree m = Keeps-amend_head id tree m
  Keeps-amend_or_commit true none tree m = search git_rules
  Keeps-amend_or_commit false o tree m = search (git_rules, Keeps-commit_new)

  Keeps-commit_kind :
      (kind : SnapshotKind) (date : ℕ) (about : Description) (o : Option Text) (tree : Text)
      → Keeps At (commit_kind gix (record { date = date; kind = kind; description = about }) o tree)
  unfolding commit_kind commit_backfill commit_live
  Keeps-commit_kind backfill date about o tree = search (git_rules, Keeps-commit_new)
  Keeps-commit_kind live date about o tree =
      search (git_rules, Keeps-amend_or_commit, Keeps-set_commit_day)

  pub Keeps-commit_snapshot :
      (c : Checkpoint) (o : Option Text) (old tree : Text)
      → Keeps At (commit_snapshot gix c o old tree)
  unfolding commit_snapshot
  Keeps-commit_snapshot c o old tree =
      Keeps-if (tree == old) (pure o) (commit_kind gix c o tree) (search git_rules)
        (Keeps-commit_kind c.kind c.date c.description o tree)

  Keeps-refresh : (tree : Text) → Keeps At (refresh_git_index gix tree)
  unfolding refresh_git_index
  Keeps-refresh tree = record { at = λ s h. (Keeps-repository (gix.refresh_index tree)).at s h }
