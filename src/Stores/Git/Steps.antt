-- ===== src/Stores/Git/Steps.antt =====
-- stores/git.rs: what a call of the repository leaves alone.
use mail_backup.Base.{
  ℕ, Bool, true, false, Result, ok, err, Error, Exec, Post, ◌≡◌, refl, ◌∙◌, arith, if◌then◌else◌,
  reads,
}
use mail_backup.Stores.Directory.{DirMailStore, panic}
use mail_backup.Stores.Git.{Gix, GitMailStore, repository, within, signature}
use mail_backup.Stores.Git.Laws.{Extends}

module _ {G E : Type 0} (gix : Gix G E) where
  pub Extends-refl : (g : G) → Extends gix g g
  Extends-refl g = record {
    head_same = refl;
    name_same = refl;
    commits_same = λ id. refl;
    objects_stay = λ id b h. h;
  }

  pub Extends-trans : {g h k : G} → Extends gix g h → Extends gix h k → Extends gix g k
  Extends-trans a b = record {
    head_same = b.head_same ∙ a.head_same;
    name_same = b.name_same ∙ a.name_same;
    commits_same = λ id. b.commits_same id ∙ a.commits_same id;
    objects_stay = λ id o e. b.objects_stay id o (a.objects_stay id o e);
  }

  -- The store is as it was, but for the repository and the pending edits.
  pub record SameStore (s s' : GitMailStore G) : Type 0 where
    pub inner_same : s'.inner ≡ s.inner
    pub opened_same : s'.opened ≡ s.opened
    pub now_same : s'.now ≡ s.now
    pub by_same : (time : ℕ) → signature gix s' time ≡ signature gix s time

  pub SameStore-refl : (s : GitMailStore G) → SameStore s s
  SameStore-refl s = record {
    inner_same = refl;
    opened_same = refl;
    now_same = refl;
    by_same = λ t. refl;
  }

  pub SameStore-trans : {s t u : GitMailStore G} → SameStore s t → SameStore t u → SameStore s u
  SameStore-trans a b = record {
    inner_same = b.inner_same ∙ a.inner_same;
    opened_same = b.opened_same ∙ a.opened_same;
    now_same = b.now_same ∙ a.now_same;
    by_same = λ time. b.by_same time ∙ a.by_same time;
  }

  pub SameStore-repo : (s : GitMailStore G) (g : G) → SameStore s (record s { repo = g })
  unfolding signature
  SameStore-repo s g = record {
    inner_same = refl;
    opened_same = refl;
    now_same = refl;
    by_same = λ t. refl;
  }

  -- A step that adds objects to the repository, and does nothing else.
  pub record Wrote (s s' : GitMailStore G) : Type 0 where
    pub store : SameStore s s'
    pub repo : Extends gix s.repo s'.repo

  pub Wrote-refl : (s : GitMailStore G) → Wrote s s
  Wrote-refl s = record { store = SameStore-refl s; repo = Extends-refl s.repo }

  pub Wrote-trans : {s t u : GitMailStore G} → Wrote s t → Wrote t u → Wrote s u
  Wrote-trans a b = record {
    store = SameStore-trans a.store b.store;
    repo = Extends-trans a.repo b.repo;
  }

  pub Wrote-repo :
      (s : GitMailStore G) (g : G) → Extends gix s.repo g → Wrote s (record s { repo = g })
  Wrote-repo s g h = record { store = SameStore-repo s g; repo = h }

  module _ {A : Type 0} where
    -- A call of the repository, by what the call does.
    pub Post-repository :
        (Q : A → GitMailStore G → Type 0) (R : Error → GitMailStore G → Type 0) (m : Exec G A)
        (s : GitMailStore G)
        → s.opened ≡ true
        → Post (λ a g. Q a (record s { repo = g })) (λ x g. R x (record s { repo = g })) (m s.repo)
        → Post Q R (repository gix m s)
    unfolding repository
    Post-repository Q R m s h k = opened s.opened h
      where
        called :
            (p : Result A Error × G)
            → Post (λ a g. Q a (record s { repo = g })) (λ x g. R x (record s { repo = g })) p
            → Post Q R (p.0, record s { repo = p.1 })
        called (ok a, g) h' = h'
        called (err x, g) h' = h'

        opened :
            (b : Bool)
            → b ≡ true
            → Post Q R (
                if b then (let (r, g) = m s.repo in (r, record s { repo = g })) else (err panic, s))
        opened true h' = called (m s.repo) k
        opened false h' = absurd (ground arith)

    -- A call that only reads.
    pub Post-read :
        (Q : A → GitMailStore G → Type 0) (R : Error → GitMailStore G → Type 0) (f : G → A)
        (s : GitMailStore G)
        → s.opened ≡ true
        → Q (f s.repo) s
        → Post Q R (repository gix (reads f) s)
    Post-read Q R f s h k = Post-repository Q R (reads f) s h k

    pub repository-reads :
        (f : G → A) (s : GitMailStore G)
        → s.opened ≡ true
        → repository gix (reads f) s ≡ (ok (f s.repo), s)
    unfolding repository
    repository-reads f s h = rw h refl

    -- A call of the directory store, by what the call does.
    pub Post-within :
        (Q : A → GitMailStore G → Type 0) (R : Error → GitMailStore G → Type 0)
        (m : Exec DirMailStore A) (s : GitMailStore G)
        → Post
            (λ a d. Q a (record s { inner = d }))
            (λ x d. R x (record s { inner = d }))
            (m s.inner)
        → Post Q R (within gix m s)
    unfolding within
    Post-within Q R m s k = called (m s.inner) k
      where
        called :
            (p : Result A Error × DirMailStore)
            → Post (λ a d. Q a (record s { inner = d })) (λ x d. R x (record s { inner = d })) p
            → Post Q R (p.0, record s { inner = p.1 })
        called (ok a, d) h = h
        called (err x, d) h = h
