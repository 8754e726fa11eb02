-- ===== src/Stores/Git/Store.antt =====
-- stores/git.rs: the store as an implementation of the trait `MailStore`.
use mail_backup.Base.{
  ℕ, Bool, true, false, List, ◌++◌, Text, Result, ok, err, Error, Exec, Keeps, is_some, Post,
  Post-after, Post-intro, Post-Keeps, Post-ok, if◌then◌else◌, pure, modify, after, when, ◌>>=◌, ◌≡◌,
  refl, ◌∙◌, list_eq, nat_eq,
}
use mail_backup.Externals.{Externals}
use mail_backup.Stores.{EventOutcome, Checkpoint}
use mail_backup.Messages.{MailEvent}
use mail_backup.Stores.Laws.{Progress, progress, IsStore}
use mail_backup.Stores.Sidecar.{Yaml}
use mail_backup.Stores.Persistence.{Json}
use mail_backup.Stores.Directory.{DirMailStore, panic, take_path_edits}
use mail_backup.Stores.Directory.Running
use mail_backup.Stores.Directory.Running.{dir_store}
use mail_backup.Stores.Directory.Running.Store.{IsJson, saved_progress, dir_store-IsStore}
use mail_backup.Stores.Git.{Gix, GitMailStore, repository, within, head_id, head_tree_id}
use mail_backup.Stores.Git.Steps.{Post-within}
use mail_backup.Stores.Git.Commits.{
  commit_snapshot, snapshot_tree, refresh_git_index, checkpoint, save_state, apply, git_store,
}
use mail_backup.Stores.Git.Kept.{
  At, Keeps-head_id, Keeps-head_tree_id, Keeps-snapshot_tree, Keeps-commit_snapshot,
}

module _ {G E : Type 0} (gix : Gix G E) (json : Json) (j : IsJson json) (x : Externals)
    (y : Yaml) where
  abbrev saved : GitMailStore G → Progress
  saved s = saved_progress json s.inner

  dir : IsStore (dir_store x y json) (saved_progress json)
  dir = dir_store-IsStore json j x y

  abbrev Good : Progress → Unit {0} → GitMailStore G → Type 0
  Good q u s = (progress s.inner.state ≡ q) × (saved s ≡ q)

  abbrev Bad : Progress → Error → GitMailStore G → Type 0
  Bad q e s = progress s.inner.state ≡ q

  inner_checkpoint :
      (c : Checkpoint) (q : Progress) (s : GitMailStore G)
      → At gix q s
      → Post (Good q) (Bad q) (within gix (Running.checkpoint json c) s)
  unfolding dir_store
  inner_checkpoint c q s h = Post-within gix (Good q) (Bad q) (Running.checkpoint json c) s (
      Post-intro _ _ (Running.checkpoint json c s.inner)
        (λ u e. (dir.state-checkpoint c s.inner ∙ h, dir.saved-checkpoint c s.inner e ∙ h))
        (λ u e. dir.state-checkpoint c s.inner ∙ h))

  refresh_lem :
      (q : Progress) (b : Bool) (tree : Text) (s : GitMailStore G)
      → Good q tt s
      → Post (Good q) (Bad q) (when b (refresh_git_index gix tree) s)
  unfolding refresh_git_index repository
  refresh_lem q false tree s h = h
  refresh_lem q true tree s h = refreshed s.opened
    where
      refreshed :
          (b : Bool)
          → (let p : Result (Unit {0}) Error × GitMailStore G =
                (if b
                  then (let (r, g) = gix.refresh_index tree s.repo in (r, record s { repo = g }))
                  else (err panic, s)) in
              Good q tt p.1)
      refreshed true = h
      refreshed false = h

  checkpoint_lem :
      (c : Checkpoint) (s : GitMailStore G)
      → Post
          (Good (progress s.inner.state))
          (Bad (progress s.inner.state))
          (checkpoint gix json c s)
  unfolding checkpoint
  checkpoint_lem c s = step (head_id gix) _ s (Keeps-head_id gix q) refl λ head s₁ h₁.
      step (head_tree_id gix) _ s₁ (Keeps-head_tree_id gix q) h₁ λ old s₂ h₂.
        step (snapshot_tree gix old) _ s₂ (Keeps-snapshot_tree gix q old) h₂ λ tree s₃ h₃.
          step (commit_snapshot gix c head old tree) _ s₃
            (Keeps-commit_snapshot gix q c head old tree) h₃
            λ new s₄ h₄.
              Post-after (Good q) (Bad q) (Good q) (Bad q) _ _
                (inner_checkpoint c q
                  (record s₄ {
                    inner = record s₄.inner {
                      state = record s₄.inner.state { head_at_save = new };
                    };
                  })
                  h₄)
                (λ e s₅ h. h) (λ u s₅ h. refresh_lem q (is_some new) tree s₅ h)
    where
      q : Progress
      q = progress s.inner.state

      step :
          {A : Type 0} (m : Exec (GitMailStore G) A) (k : A → Exec (GitMailStore G) (Unit {0}))
          (t : GitMailStore G)
          → Keeps (At gix q) m
          → At gix q t
          → ((a : A) (t' : GitMailStore G) → At gix q t' → Post (Good q) (Bad q) (k a t'))
          → Post (Good q) (Bad q) ((m >>= k) t)
      step m k t keeps h next =
          Post-after (λ a. At gix q) (λ e. At gix q) (Good q) (Bad q) (m t) k (Post-Keeps t keeps h)
            (λ e t' h'. h') next

  abbrev Same : GitMailStore G → GitMailStore G → Type 0
  Same s s' = (s'.inner.state ≡ s.inner.state) × (saved s' ≡ saved s)

  -- The events are applied to the directory store, whose edits are taken over.
  apply_lem : (es : List MailEvent) (s : GitMailStore G) → Same s (apply gix x y es s).1
  unfolding apply take_path_edits dir_store within saved_progress
  apply_lem es s =
      taken (Running.apply x y es s.inner) (dir.state-apply es s.inner, dir.saved-apply es s.inner)
    where
      taken :
          (p : Result (List EventOutcome) Error × DirMailStore)
          → (p.1.state ≡ s.inner.state) × (saved_progress json p.1 ≡ saved s)
          → Same s
              (after {W = GitMailStore G}
                (λ outcomes. within gix take_path_edits >>= λ edits.
                  modify (λ t. record t { pending = t.pending ++ edits }) >>= λ u. pure outcomes)
                (p.0, record s { inner = p.1 })).1
      taken (ok outcomes, d) h = h
      taken (err e, d) h = h

  save_state_lem :
      (s : GitMailStore G)
      → Post (Good (progress s.inner.state)) (Bad (progress s.inner.state)) (save_state gix json s)
  unfolding save_state dir_store
  save_state_lem s =
      Post-within gix (Good (progress s.inner.state)) (Bad (progress s.inner.state))
        (Running.save_state json) s
        (Post-intro _ _ (Running.save_state json s.inner)
          (λ u e. (dir.state-save_state s.inner, dir.saved-save_state s.inner e))
          (λ u e. dir.state-save_state s.inner))

  Post-At :
      (q : Progress) (p : Result (Unit {0}) Error × GitMailStore G)
      → Post (Good q) (Bad q) p
      → progress p.1.inner.state ≡ q
  Post-At q (ok u, s) h = h.0
  Post-At q (err e, s) h = h

  -- The git store is such a store as the engine relies on, whatever the calls of the repository do:
  -- what the events of a batch do leaves the state alone, in memory and as saved; a checkpoint or a
  -- save leaves the progress in memory alone, and where it succeeds, opening the directory store
  -- again finds that progress.
  pub git_store-IsStore :
      (rounds : ℕ) → IsStore (git_store gix x y json rounds) (λ s. saved_progress json s.inner)
  unfolding git_store saved_progress
  git_store-IsStore rounds = record {
    state-set_state = λ st s. refl;
    saved-set_state = λ st s. refl;
    state-apply = λ es s. (apply_lem es s).0;
    saved-apply = λ es s. (apply_lem es s).1;
    state-checkpoint =
        λ c s. Post-At (progress s.inner.state) (checkpoint gix json c s) (checkpoint_lem c s);
    saved-checkpoint = λ c s e.
        (Post-ok (Good (progress s.inner.state)) (Bad (progress s.inner.state))
          (checkpoint gix json c s) tt (checkpoint_lem c s) e).1;
    state-save_state =
        λ s. Post-At (progress s.inner.state) (save_state gix json s) (save_state_lem s);
    saved-save_state = λ s e.
        (Post-ok (Good (progress s.inner.state)) (Bad (progress s.inner.state))
          (save_state gix json s) tt (save_state_lem s) e).1;
  }
