-- ===== src/Stores/Git/Committed.antt =====
-- stores/git.rs: what a checkpoint leaves in the repository.
use mail_backup.Base.{
  true, Option, none, some, Text, ok, Error, Post, Post-after, Post-weaken, when, is_some, ◌≡◌, ◌≢◌,
  ◌⊎◌, sym, ◌∙◌, ap, arith, inl, inr, Bool-cases, ◌==◌, list_eq, nat_eq, eq_iff,
}
use mail_backup.Stores.{StoreState, Checkpoint}
use mail_backup.Stores.Persistence.{Json, load_state}
use mail_backup.Stores.Directory.Running
use mail_backup.Stores.Directory.Running.Store.{IsJson, Saved, Kept, checkpoint_lem}
use mail_backup.Stores.Git.{
  Commit, Gix, GitMailStore, repository, within, head_id, head_tree_id, tree_of_head, found,
  commit_message,
}
use mail_backup.Stores.Git.Laws.{Extends, SameTrees, IsGix}
use mail_backup.Stores.Git.Steps.{repository-reads, Post-within}
use mail_backup.Stores.Git.Finals.{last_edit}
use mail_backup.Stores.Git.Tree.{AtPath, AtPath-later, EditsApart, Built, snapshot_tree-Built}
use mail_backup.Stores.Git.History.{Follows, Follows-Wrote, Recorded, commit_kind_lem}
use mail_backup.Stores.Git.Commits.{commit_snapshot, refresh_git_index, checkpoint}

module _ {G E : Type 0} (gix : Gix G E) (entry : G → Text → Text → Option Text)
    (listed : E → Text → Option Text) (laws : IsGix gix entry listed) (c : Checkpoint) (path : Text)
    (s : GitMailStore G) where
  abbrev Anything : Error → GitMailStore G → Type 0
  Anything x s = Unit {0}

  -- The HEAD is a new commit of that tree.
  abbrev pub Advanced : Text → G → Type 0
  Advanced tree g =
      (id : Text) × (k : Commit) × (gix.head_id g ≡ ok id)
      × (gix.find_commit g id ≡ ok k)
      × (k.tree ≡ tree)
      × (k.message ≡ commit_message c)
      × Follows gix entry listed laws c s (found (gix.head_id s.repo)) k

  -- The repository after a checkpoint that found the store as `s`.
  record Done (tree : Text) (new : Option Text) (s' : GitMailStore G) : Type 0 where
    opened_still : s'.opened ≡ true
    at_path :
        AtPath gix entry listed laws s.inner.disk.tree s.repo s'.repo
          (tree_of_head gix s.repo)
          tree
          path
          (last_edit s.pending path)
    head_new : new ≡ found (gix.head_id s'.repo)
    advanced :
        ((tree ≡ tree_of_head gix s.repo) × (gix.head_id s'.repo ≡ gix.head_id s.repo))
        ⊎ ((tree ≢ tree_of_head gix s.repo) × Advanced tree s'.repo)

  Done-same :
      (tree : Text) (s₁ : GitMailStore G)
      → s₁.opened ≡ true
      → Built gix entry listed laws s path tree s₁
      → tree ≡ tree_of_head gix s.repo
      → Done tree (found (gix.head_id s.repo)) s₁
  Done-same tree s₁ h built e = record {
    opened_still = h;
    at_path = built.1;
    head_new = ap found (sym built.0.repo.head_same);
    advanced = inl (e, built.0.repo.head_same);
  }

  Done-advanced :
      (tree : Text) (new : Option Text) (s₁ s' : GitMailStore G)
      → s₁.opened ≡ true
      → Built gix entry listed laws s path tree s₁
      → tree ≢ tree_of_head gix s.repo
      → Recorded gix entry listed laws c s₁ (found (gix.head_id s.repo)) tree new s'
      → Done tree new s'
  Done-advanced tree new s₁ s' h built n (id, k, e, now, there, t, m, f, trees, open_still, d) =
      record {
        opened_still = open_still ∙ h;
        at_path =
            AtPath-later gix entry listed laws s.inner.disk.tree s.repo s₁.repo s'.repo
              (tree_of_head gix s.repo) tree path (last_edit s.pending path) trees built.1;
        head_new = e ∙ ap found (sym now);
        advanced =
            inr (
              n,
              (id, k, now, there, t, m, Follows-Wrote gix entry listed laws c s s₁ k built.0 f),
            );
      }

  commit_snapshot-Done :
      (tree : Text) (s₁ : GitMailStore G)
      → s₁.opened ≡ true
      → Built gix entry listed laws s path tree s₁
      → Post
          (Done tree)
          Anything
          (commit_snapshot gix c (found (gix.head_id s.repo)) (tree_of_head gix s.repo) tree s₁)
  unfolding commit_snapshot
  commit_snapshot-Done tree s₁ h built = elim (Bool-cases (tree == tree_of_head gix s.repo)) [
    | inl e ↦ rw e (Done-same tree s₁ h built ((eq_iff tree (tree_of_head gix s.repo)).0 e))
    | inr e ↦ rw e (
        Post-weaken (Recorded gix entry listed laws c s₁ (found (gix.head_id s.repo)) tree) Anything
          (Done tree) Anything _
          (commit_kind_lem gix entry listed laws c.kind c.date c.description
            (found (gix.head_id s.repo)) tree s₁ h (ap found (sym built.0.repo.head_same)))
          (λ x s' m. tt)
          (λ new s' m.
            Done-advanced tree new s₁ s' h built
              (λ same. ground (arith, eq_iff tree (tree_of_head gix s.repo))) m))
  ]

  -- After a checkpoint the HEAD's tree has at the path what its last edit says, the HEAD is the one of
  -- before or a new commit, and the state is saved with the HEAD's id.
  abbrev pub Committed : Json → Unit {0} → GitMailStore G → Type 0
  Committed json u s' =
      (tree : Text) × AtPath gix entry listed laws s.inner.disk.tree s.repo s'.repo
        (tree_of_head gix s.repo) tree path (last_edit s.pending path)
      × (((tree ≡ tree_of_head gix s.repo) × (gix.head_id s'.repo ≡ gix.head_id s.repo))
          ⊎ ((tree ≢ tree_of_head gix s.repo) × Advanced tree s'.repo))
      × (s'.inner.state.head_at_save ≡ found (gix.head_id s'.repo))
      × (load_state json s'.inner.disk ≡ ok (some s'.inner.state))

  -- The state is saved, and the commit is done.
  abbrev Settled : Json → Text → Option Text → GitMailStore G → Type 0
  Settled json tree new s' =
      Done tree new s'
      × (s'.inner.state.head_at_save ≡ new)
      × (load_state json s'.inner.disk ≡ ok (some s'.inner.state))

  Settled-Committed :
      (json : Json) (tree : Text) (new : Option Text) (s' : GitMailStore G)
      → Settled json tree new s'
      → Committed json tt s'
  Settled-Committed json tree new s' (d, e, l) = (tree, d.at_path, d.advanced, e ∙ d.head_new, l)

  Advanced-later : (tree : Text) (g g' : G) → Extends gix g g' → Advanced tree g → Advanced tree g'
  Advanced-later tree g g' x (id, k, now, there, t, m, f) =
      (id, k, x.head_same ∙ now, x.commits_same id ∙ there, t, m, f)

  Done-later :
      (tree : Text) (new : Option Text) (s₁ : GitMailStore G) (g : G)
      → Extends gix s₁.repo g × SameTrees gix entry s₁.repo g
      → Done tree new s₁
      → Done tree new (record s₁ { repo = g })
  Done-later tree new s₁ g x d = record {
    opened_still = d.opened_still;
    at_path =
        AtPath-later gix entry listed laws s.inner.disk.tree s.repo s₁.repo g
          (tree_of_head gix s.repo) tree path (last_edit s.pending path) x.1 d.at_path;
    head_new = d.head_new ∙ ap found (sym x.0.head_same);
    advanced = either d.advanced;
  }
    where
      either :
          ((tree ≡ tree_of_head gix s.repo) × (gix.head_id s₁.repo ≡ gix.head_id s.repo))
            ⊎ ((tree ≢ tree_of_head gix s.repo) × Advanced tree s₁.repo)
          → ((tree ≡ tree_of_head gix s.repo) × (gix.head_id g ≡ gix.head_id s.repo))
            ⊎ ((tree ≢ tree_of_head gix s.repo) × Advanced tree g)
      either (inl h) = inl (h.0, x.0.head_same ∙ h.1)
      either (inr h) = inr (h.0, Advanced-later tree s₁.repo g x.0 h.1)

  refresh-Settled :
      (json : Json) (tree : Text) (new : Option Text) (s₁ : GitMailStore G)
      → Settled json tree new s₁
      → Post (Committed json) Anything (when (is_some new) (refresh_git_index gix tree) s₁)
  unfolding refresh_git_index repository
  refresh-Settled json tree none s₁ h = Settled-Committed json tree none s₁ h
  refresh-Settled json tree (some id) s₁ (d, e, l) = rw d.opened_still (
      Settled-Committed json tree (some id) (record s₁ { repo = g })
        (Done-later tree (some id) s₁ g (laws.refresh_index_lem tree s₁.repo) d, e, l))
    where
      g : G
      g = (gix.refresh_index tree s₁.repo).1

  abbrev noted : Option Text → GitMailStore G → GitMailStore G
  noted new t = record t {
    inner = record t.inner { state = record t.inner.state { head_at_save = new } };
  }

  -- The HEAD's id is put down, and the state is saved.
  save-Settled :
      (json : Json) (j : IsJson json) (tree : Text) (new : Option Text) (s₁ : GitMailStore G)
      → Done tree new s₁
      → Post
          (λ u. Settled json tree new)
          Anything
          (within gix (Running.checkpoint json c) (noted new s₁))
  save-Settled json j tree new s₁ d =
      Post-within gix (λ u. Settled json tree new) Anything (Running.checkpoint json c)
        (noted new s₁)
        (Post-weaken (λ u. Saved json j (noted new s₁).inner)
          (λ x. Kept json j (noted new s₁).inner)
          (λ u d'. Settled json tree new (record s₁ { inner = d' })) (λ x d'. Unit {0})
          (Running.checkpoint json c (noted new s₁).inner)
          (checkpoint_lem json j c (noted new s₁).inner) (λ x d' m. tt)
          (λ u d' m. (
            record {
              opened_still = d.opened_still;
              at_path = d.at_path;
              head_new = d.head_new;
              advanced = d.advanced;
            },
            ap (λ (t : StoreState). t.head_at_save) m.1,
            m.0 ∙ ap (λ t. ok (some t)) (sym m.1),
          )))

  -- A checkpoint of an open store, for each path that no pending edit is above or below. Where it
  -- succeeds, the tree of the HEAD has at this path the file on the disk if the last pending edit of
  -- the path wrote it, nothing if that removed it, and what it had before if there is none. Where
  -- the tree is the former one, so is the HEAD. Else the HEAD is a commit of the tree, new and at
  -- the end of its day for the backfill, in place of the former HEAD, with its parents and its
  -- author, if that was left as the commit of the same day, and else new and at the present time.
  -- The id of the HEAD is in the state, and the state is saved.
  pub checkpoint-Committed :
      (json : Json)
      → IsJson json
      → s.opened ≡ true
      → EditsApart gix entry listed laws s.pending path
      → Post (Committed json) Anything (checkpoint gix json c s)
  unfolding checkpoint head_id head_tree_id
  checkpoint-Committed json j h apart = rw (repository-reads gix (λ g. found (gix.head_id g)) s h) (
      rw (repository-reads gix (tree_of_head gix) s h) (
        Post-after (Built gix entry listed laws s path) Anything (Committed json) Anything _ _
          (snapshot_tree-Built gix entry listed laws path s h apart) (λ x s₁ m. tt)
          (λ tree s₁ built.
            Post-after (Done tree) Anything (Committed json) Anything _ _
              (commit_snapshot-Done tree s₁ (built.0.store.opened_same ∙ h) built) (λ x s₂ m. tt)
              (λ new s₂ d.
                Post-after (λ u. Settled json tree new) Anything (Committed json) Anything _ _
                  (save-Settled json j tree new s₂ d) (λ x s₃ m. tt)
                  (λ u s₃ m. refresh-Settled json tree new s₃ m)))))
