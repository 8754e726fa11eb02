-- ===== src/Stores/Git/History.antt =====
-- stores/git.rs: the commit that a checkpoint makes.
use mail_backup.Base.{
  ℕ, Bool, true, false, Option, none, some, Text, ok, Error, Exec, Post, Post-after, pure, ◌>>=◌,
  ◌≡◌, refl, sym, ◌∙◌, ap, subst, arith,
}
use mail_backup.Stores.{SnapshotKind, backfill, live, Checkpoint, Description}
use mail_backup.Stores.Directory.{DirMailStore}
use mail_backup.Stores.Git.{
  Commit, Title, Gix, GitMailStore, found, signature, commit_message, end_of_day,
}
use mail_backup.Stores.Git.Laws.{SameTrees, IsGix}
use mail_backup.Stores.Git.Steps.{Wrote}
use mail_backup.Stores.Git.Commits.{
  commit_new, is_amendable, amend_or_commit, commit_live, commit_backfill, commit_kind,
  set_commit_day,
}
use mail_backup.Stores.Git.Heads
use mail_backup.Stores.Git.Heads.{IsHead, commit_new_at, amend_head_lem}

module _ {G E : Type 0} (gix : Gix G E) (entry : G → Text → Text → Option Text)
    (listed : E → Text → Option Text) (laws : IsGix gix entry listed) where
  abbrev Anything : Error → GitMailStore G → Type 0
  Anything = Heads.Anything gix entry listed laws

  abbrev pub Fresh : GitMailStore G → Option Text → ℕ → Commit → Type 0
  Fresh = Heads.Fresh gix entry listed laws

  abbrev pub Amended : GitMailStore G → Option Text → Commit → Type 0
  Amended = Heads.Amended gix entry listed laws

  abbrev Text-Made :
      (Commit → Type 0) → GitMailStore G → Title → Text → Text → GitMailStore G → Type 0
  Text-Made = Heads.Text-Made gix entry listed laws

  -- How a commit stands to the HEAD that was found, by whether that was to be amended.
  abbrev pub Standing : SnapshotKind → Bool → ℕ → GitMailStore G → Option Text → Commit → Type 0
  Standing backfill b date s head k = Fresh s head (end_of_day date) k
  Standing live true date s head k = Amended s head k
  Standing live false date s head k = Fresh s head s.now k

  -- That of a day of the backfill is new and has the end of that day as its time; that of today
  -- amends the HEAD if that is today's, as it was saved.
  abbrev pub Follows : Checkpoint → GitMailStore G → Option Text → Commit → Type 0
  Follows c s head = Standing c.kind (is_amendable s.inner.state c.date head) c.date s head

  -- The new HEAD of a checkpoint; the files are as they were.
  abbrev pub Recorded :
      Checkpoint → GitMailStore G → Option Text → Text → Option Text → GitMailStore G → Type 0
  Recorded c s head tree new s' =
      (id : Text) × (k : Commit) × (new ≡ some id)
      × (gix.head_id s'.repo ≡ ok id)
      × (gix.find_commit s'.repo id ≡ ok k)
      × (k.tree ≡ tree)
      × (k.message ≡ commit_message c)
      × Follows c s head k
      × SameTrees gix entry s.repo s'.repo
      × (s'.opened ≡ s.opened)
      × (s'.inner.disk ≡ s.inner.disk)

  made :
      (P : Commit → Type 0) (c : Checkpoint) (s : GitMailStore G) (head : Option Text) (tree : Text)
      (m : Exec (GitMailStore G) Text) (k : Text → Exec (GitMailStore G) (Option Text))
      → Post (Text-Made P s (commit_message c) tree) Anything (m s)
      → ((commit : Commit) → P commit → Follows c s head commit)
      → ((id : Text) (s' : GitMailStore G)
          → (d : DirMailStore) × (d.disk ≡ s'.inner.disk)
            × (k id s' ≡ (ok (some id), record s' { inner = d })))
      → Post (Recorded c s head tree) Anything ((m >>= k) s)
  made P c s head tree m k post follows next =
      Post-after (Text-Made P s (commit_message c) tree) Anything (Recorded c s head tree) Anything
        _ _ post (λ x s' n. tt)
        (λ id s' (commit, now, t, message, p).
          let (d, disk, e) = next id s' in
          rw e (
            id,
            commit,
            refl,
            now.head_now,
            now.commit_now,
            t,
            message,
            follows commit p,
            now.trees,
            now.store.opened_same,
            disk ∙ ap (λ (i : DirMailStore). i.disk) now.store.inner_same,
          ))

  amend_or_commit_lem :
      (c : Checkpoint) (b : Bool) (head : Option Text) (tree : Text) (s : GitMailStore G)
      → s.opened ≡ true
      → head ≡ found (gix.head_id s.repo)
      → Post
          (Text-Made (Standing live b c.date s head) s (commit_message c) tree)
          Anything
          (amend_or_commit gix b head tree (commit_message c) s)
  unfolding amend_or_commit
  amend_or_commit_lem c true (some id) tree s h e =
      amend_head_lem gix entry listed laws id tree (commit_message c) s h
  amend_or_commit_lem c true none tree s h e = tt
  amend_or_commit_lem c false head tree s h e =
      commit_new_at gix entry listed laws tree (commit_message c) s.now head s h e

  pub commit_kind_lem :
      (kind : SnapshotKind) (date : ℕ) (about : Description) (head : Option Text) (tree : Text)
      (s : GitMailStore G)
      → s.opened ≡ true
      → head ≡ found (gix.head_id s.repo)
      → Post
          (Recorded (record { date = date; kind = kind; description = about }) s head tree)
          Anything
          (commit_kind gix (record { date = date; kind = kind; description = about }) head tree s)
  unfolding commit_kind commit_backfill commit_live
  commit_kind_lem backfill date about head tree s h e =
      made (Fresh s head (end_of_day date)) c s head tree
        (commit_new gix tree (commit_message c) (end_of_day date)) (λ id. pure (some id))
        (commit_new_at gix entry listed laws tree (commit_message c) (end_of_day date) head s h e)
        (λ k p. p) (λ id s'. (s'.inner, refl, refl))
    where
      c : Checkpoint
      c = record { date = date; kind = backfill; description = about }
  commit_kind_lem live date about head tree s h e =
      made (Follows c s head) c s head tree
        (amend_or_commit gix (is_amendable s.inner.state date head) head tree (commit_message c))
        (λ id. set_commit_day gix date >>= λ u. pure (some id))
        (amend_or_commit_lem c (is_amendable s.inner.state date head) head tree s h e) (λ k p. p)
        (λ id s'. (
          record s'.inner { state = record s'.inner.state { current_commit_day = some date } },
          refl,
          refl,
        ))
    where
      c : Checkpoint
      c = record { date = date; kind = live; description = about }

  -- To write the objects of a tree changes nothing that this is about.
  pub Follows-Wrote :
      (c : Checkpoint) (s s₁ : GitMailStore G) (k : Commit)
      → Wrote gix s s₁
      → Follows c s₁ (found (gix.head_id s.repo)) k
      → Follows c s (found (gix.head_id s.repo)) k
  Follows-Wrote c s s₁ k w f =
      go c.kind (is_amendable s.inner.state c.date head) (is_amendable s₁.inner.state c.date head)
        (ap (λ (d : DirMailStore). is_amendable d.state c.date head) w.store.inner_same) f
    where
      head : Option Text
      head = found (gix.head_id s.repo)

      fresh : (at : ℕ) → Fresh s₁ head at k → Fresh s head at k
      fresh at h = (h.0, h.1 ∙ w.store.by_same at, h.2 ∙ w.store.by_same at)

      now : (at : ℕ) → at ≡ s.now → Fresh s₁ head at k → Fresh s head s.now k
      now at e h = subst (λ t. Fresh s head t k) e (fresh at h)

      amended : Amended s₁ head k → Amended s head k
      amended (id, old, e, l, p, a, by) = (
        id,
        old,
        e,
        sym (w.repo.commits_same id) ∙ l,
        p,
        a,
        by ∙ w.store.by_same s₁.now ∙ ap (signature gix s) w.store.now_same,
      )

      go :
          (kind : SnapshotKind) (b b₁ : Bool)
          → b₁ ≡ b
          → Standing kind b₁ c.date s₁ head k
          → Standing kind b c.date s head k
      go backfill b b₁ e h = fresh (end_of_day c.date) h
      go live true true e h = amended h
      go live false false e h = now s₁.now w.store.now_same h
      go live true false e h = absurd (ground arith)
      go live false true e h = absurd (ground arith)
