-- ===== src/Stores/Git/Heads.antt =====
-- stores/git.rs: `commit_new` and `amend_head`.
use mail_backup.Base.{
  ℕ, true, Option, none, some, Text, Result, ok, err, Error, Post, Post-after, Post-weaken, pure,
  lift, reads, ◌>>=◌, ◌≡◌, refl, sym, ◌∙◌, subst,
}
use mail_backup.Stores.Git.{Commit, Title, Gix, GitMailStore, repository, head_id, found, signature}
use mail_backup.Stores.Git.Laws.{SameTrees, IsGix}
use mail_backup.Stores.Git.Steps.{
  SameStore, SameStore-trans, SameStore-repo, Post-repository, repository-reads,
}
use mail_backup.Stores.Git.Commits.{parent_list, commit_new, amend_head, branch_name}

module _ {G E : Type 0} (gix : Gix G E) (entry : G → Text → Text → Option Text)
    (listed : E → Text → Option Text) (laws : IsGix gix entry listed) where
  abbrev pub Anything : Error → GitMailStore G → Type 0
  Anything x s = Unit {0}

  -- A commit on the HEAD of that time.
  abbrev pub Fresh : GitMailStore G → Option Text → ℕ → Commit → Type 0
  Fresh s head at k =
      (k.parents ≡ parent_list head)
      × (k.author ≡ signature gix s at)
      × (k.committer ≡ signature gix s at)

  -- A commit in place of the HEAD, with its parents and its author.
  abbrev pub Amended : GitMailStore G → Option Text → Commit → Type 0
  Amended s head k =
      (id : Text) × (old : Commit) × (head ≡ some id)
      × (gix.find_commit s.repo id ≡ ok old)
      × (k.parents ≡ old.parents)
      × (k.author ≡ old.author)
      × (k.committer ≡ signature gix s s.now)

  -- The commit is the HEAD; the rest is as it was.
  pub record IsHead (s : GitMailStore G) (id : Text) (k : Commit) (s' : GitMailStore G)
      : Type 0 where
    pub store : SameStore gix s s'
    pub trees : SameTrees gix entry s.repo s'.repo
    pub head_now : gix.head_id s'.repo ≡ ok id
    pub commit_now : gix.find_commit s'.repo id ≡ ok k

  abbrev pub Text-Made :
      (Commit → Type 0) → GitMailStore G → Title → Text → Text → GitMailStore G → Type 0
  Text-Made P s message tree id s' =
      (k : Commit) × IsHead s id k s' × (k.tree ≡ tree) × (k.message ≡ message) × P k

  commit_new_lem :
      (tree : Text) (message : Title) (at : ℕ) (s : GitMailStore G)
      → s.opened ≡ true
      → Post
          (Text-Made (Fresh s (found (gix.head_id s.repo)) at) s message tree)
          Anything
          (commit_new gix tree message at s)
  unfolding commit_new head_id
  commit_new_lem tree message at s h = rw (repository-reads gix (λ g. found (gix.head_id g)) s h) (
      Post-repository gix _ Anything (gix.commit_as commit) s h (
        Post-weaken
          (λ id g'.
            SameTrees gix entry s.repo g'
            × (gix.head_id g' ≡ ok id)
            × (gix.find_commit g' id ≡ ok commit))
          (λ x g'. Unit {0})
          (λ id g'.
            Text-Made (Fresh s (found (gix.head_id s.repo)) at) s message tree id
              (record s { repo = g' }))
          (λ x g'. Unit {0}) (gix.commit_as commit s.repo) (laws.commit_as_lem commit s.repo)
          (λ x g k. tt)
          (λ id g k. (
            commit,
            record {
              store = SameStore-repo gix s g;
              trees = k.0;
              head_now = k.1;
              commit_now = k.2;
            },
            refl,
            refl,
            (refl, refl, refl),
          ))))
    where
      commit : Commit
      commit = record {
        committer = signature gix s at;
        author = signature gix s at;
        message = message;
        tree = tree;
        parents = parent_list (found (gix.head_id s.repo));
      }

  pub commit_new_at :
      (tree : Text) (message : Title) (at : ℕ) (head : Option Text) (s : GitMailStore G)
      → s.opened ≡ true
      → head ≡ found (gix.head_id s.repo)
      → Post
          (Text-Made (Fresh s head at) s message tree)
          Anything
          (commit_new gix tree message at s)
  commit_new_at tree message at head s h e =
      subst
        (λ (o : Option Text).
          Post (Text-Made (Fresh s o at) s message tree) Anything
            (commit_new gix tree message at s))
        (sym e) (commit_new_lem tree message at s h)

  SameTrees-trans :
      {g h k : G} → SameTrees gix entry g h → SameTrees gix entry h k → SameTrees gix entry g k
  SameTrees-trans a b = record {
    entries_same = λ t p. b.entries_same t p ∙ a.entries_same t p;
    objects_stay = λ id o e. b.objects_stay id o (a.objects_stay id o e);
  }

  -- The branch is moved to a commit that is there.
  move_branch_lem :
      (id new : Text) (k : Commit) (s s₁ : GitMailStore G)
      → s₁.opened ≡ true
      → SameStore gix s s₁
      → SameTrees gix entry s.repo s₁.repo
      → gix.find_commit s₁.repo new ≡ ok k
      → (r : Result (Option Text) Error) → gix.head_name s₁.repo ≡ r
      → Post
          (λ id' s'. IsHead s id' k s')
          Anything
          ((lift r >>= λ name. branch_name gix name >>= λ branch.
              repository gix (gix.edit_reference branch id new) >>= λ u. pure new)
            s₁)
  unfolding branch_name
  move_branch_lem id new k s s₁ h same trees c (err x) e = tt
  move_branch_lem id new k s s₁ h same trees c (ok none) e = tt
  move_branch_lem id new k s s₁ h same trees c (ok (some branch)) e =
      Post-after (λ u s'. IsHead s new k s') Anything (λ id' s'. IsHead s id' k s') Anything _ _
        (Post-repository gix (λ u s'. IsHead s new k s') Anything (gix.edit_reference branch id new)
          s₁ h
          (Post-weaken
            (λ u g'.
              SameTrees gix entry s₁.repo g'
              × (gix.head_id g' ≡ ok new)
              × ((c : Commit) → gix.find_commit s₁.repo new ≡ ok c → gix.find_commit g' new ≡ ok c))
            (λ x g'. Unit {0}) (λ u g'. IsHead s new k (record s₁ { repo = g' })) (λ x g'. Unit {0})
            (gix.edit_reference branch id new s₁.repo)
            (laws.edit_reference_lem branch id new s₁.repo e) (λ x g m. tt)
            (λ u g m. record {
              store = SameStore-trans gix same (SameStore-repo gix s₁ g);
              trees = SameTrees-trans trees m.0;
              head_now = m.1;
              commit_now = m.2 k c;
            })))
        (λ x s' m. tt) (λ u s' m. m)

  amended_lem :
      (id tree : Text) (message : Title) (s : GitMailStore G)
      → s.opened ≡ true
      → (r : Result Commit Error) → gix.find_commit s.repo id ≡ r
      → Post (Text-Made (Amended s (some id)) s message tree) Anything (
          (lift r >>= λ old. reads (λ s. signature gix s s.now) >>= λ committer.
          repository gix (
            gix.new_commit_as
              (record old { committer = committer; message = message; tree = tree }))
          >>= λ new_id. repository gix (reads gix.head_name) >>= λ named. lift named >>= λ name.
              branch_name gix name >>= λ branch.
              repository gix (gix.edit_reference branch id new_id) >>= λ u. pure new_id)
            s)
  amended_lem id tree message s h (err x) e = tt
  amended_lem id tree message s h (ok old) e =
      Post-after
        (λ new s₁.
          SameStore gix s s₁
          × SameTrees gix entry s.repo s₁.repo
          × (gix.find_commit s₁.repo new ≡ ok commit))
        Anything (Text-Made (Amended s (some id)) s message tree) Anything _ _
        (Post-repository gix _ Anything (gix.new_commit_as commit) s h (
          Post-weaken (λ new g. SameTrees gix entry s.repo g × (gix.find_commit g new ≡ ok commit))
            (λ x g. Unit {0})
            (λ new g.
              SameStore gix s (record s { repo = g })
              × SameTrees gix entry s.repo g
              × (gix.find_commit g new ≡ ok commit))
            (λ x g. Unit {0}) (gix.new_commit_as commit s.repo)
            (laws.new_commit_as_lem commit s.repo) (λ x g m. tt)
            (λ new g m. (SameStore-repo gix s g, m.0, m.1))))
        (λ x s₁ m. tt)
        (λ new s₁ m.
          let open_still : s₁.opened ≡ true = m.0.opened_same ∙ h in
          rw (repository-reads gix gix.head_name s₁ open_still) (
            Post-weaken (λ id' s'. IsHead s id' commit s') Anything
              (Text-Made (Amended s (some id)) s message tree) Anything _
              (move_branch_lem id new commit s s₁ open_still m.0 m.1 m.2 (gix.head_name s₁.repo)
                refl)
              (λ x s' n. tt)
              (λ id' s' n. (commit, n, refl, refl, (id, old, refl, e, refl, refl, refl)))))
    where
      commit : Commit
      commit = record old { committer = signature gix s s.now; message = message; tree = tree }

  pub amend_head_lem :
      (id tree : Text) (message : Title) (s : GitMailStore G)
      → s.opened ≡ true
      → Post
          (Text-Made (Amended s (some id)) s message tree)
          Anything
          (amend_head gix id tree message s)
  unfolding amend_head
  amend_head_lem id tree message s h =
      rw (repository-reads gix (λ g. gix.find_commit g id) s h)
        (amended_lem id tree message s h (gix.find_commit s.repo id) refl)
