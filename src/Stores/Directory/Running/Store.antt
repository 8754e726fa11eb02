-- ===== src/Stores/Directory/Running/Store.antt =====
-- stores/dir.rs: the store as an implementation of the trait `MailStore`.
use mail_backup.Base.{
  Option, none, some, Bytes, Result, ok, err, Error, Exec, Post, Post-after, Post-weaken, Post-ok,
  get, ◌≡◌, refl, ◌∙◌, ap, ◌⊎◌,
}
use mail_backup.Externals.{Externals}
use mail_backup.Stores.{StoreState, Checkpoint}
use mail_backup.Stores.Laws.{Progress, progress, IsStore}
use mail_backup.Stores.Sidecar.{Yaml}
use mail_backup.Stores.Disk.{Disk}
use mail_backup.Stores.Persistence.{
  Json, fresh_state, load_state, state_path, index_path, to_index_file, write_atomic,
}
use mail_backup.Stores.Persistence
use mail_backup.Stores.Persistence.Replacing.{
  Written, Spoiled, write_atomic_lem, index_apart, index_elsewhere,
}
use mail_backup.Stores.Persistence.Saving.{save_state-load_state, load_state_same}
use mail_backup.Stores.Directory.{DirMailStore}
use mail_backup.Stores.Directory.Running.{apply, persist, save_state, checkpoint, dir_store}
use mail_backup.Stores.Directory.Running.Kept.{Keeps-apply}

-- What is written of a state is read back.
pub record IsJson (json : Json) : Type 0 where
  pub state_back : (s : StoreState) → json.state_from_slice (json.state_to_vec s) ≡ some s

-- What opening finds, where the state file was read.
unfoldable pub found_progress : Result (Option StoreState) Error → Progress
found_progress (ok (some s)) = progress s
found_progress (ok none) = progress fresh_state
found_progress (err e) = progress fresh_state

-- The progress that opening the store would find.
unfoldable pub saved_progress : Json → DirMailStore → Progress
unfolding found_progress load_state
saved_progress json s = found_progress (load_state json s.disk)

Post-persist :
    (Q R : DirMailStore → Type 0) (m : Exec Disk (Unit {0})) (s : DirMailStore)
    → Post (λ u d. Q (record s { disk = d })) (λ x d. R (record s { disk = d })) (m s.disk)
    → Post (λ u. Q) (λ x. R) (persist m s)
unfolding persist
Post-persist Q R m s h = go (m s.disk) h
  where
    go :
        (p : Result (Unit {0}) Error × Disk)
        → Post (λ u d. Q (record s { disk = d })) (λ x d. R (record s { disk = d })) p
        → Post {A = Unit {0}} (λ u. Q) (λ x. R) (p.0, record s { disk = p.1 })
    go (ok u, d) h' = h'
    go (err x, d) h' = h'

module _ (json : Json) (j : IsJson json) where
  abbrev pub Saved : DirMailStore → DirMailStore → Type 0
  Saved s s' = (load_state json s'.disk ≡ ok (some s.state)) × (s'.state ≡ s.state)

  abbrev pub Kept : DirMailStore → DirMailStore → Type 0
  Kept s s' = s'.state ≡ s.state

  save_index-Saved :
      (s s₁ : DirMailStore)
      → Saved s s₁
      → Post (λ u. Saved s) (λ x. Kept s) (persist (Persistence.save_index json s.index) s₁)
  unfolding Persistence.save_index
  save_index-Saved s s₁ h =
      Post-persist (Saved s) (Kept s) (Persistence.save_index json s.index) s₁ (
        Post-weaken (λ u. Written index_path content s₁.disk) (λ x. Spoiled index_path s₁.disk)
          (λ u d. Saved s (record s₁ { disk = d })) (λ x d. Kept s (record s₁ { disk = d }))
          (write_atomic index_path content s₁.disk)
          (write_atomic_lem index_path content index_apart s₁.disk) (λ x d w. h.1)
          (λ u d w. (
            load_state_same json s₁.disk d (w.0.2 state_path index_elsewhere.0 index_elsewhere.1)
                ∙ h.0,
            h.1,
          )))
    where
      content : Bytes
      content = json.index_to_vec (to_index_file s.index)

  -- To save leaves the state in memory alone; where it succeeds, loading finds that state.
  pub save_state_lem : (s : DirMailStore) → Post (λ u. Saved s) (λ x. Kept s) (save_state json s)
  unfolding save_state
  save_state_lem s =
      Post-after (λ u. Saved s) (λ x. Kept s) _ _ _ _
        (Post-persist (Saved s) (Kept s) (Persistence.save_state json s.state) s (
          Post-weaken (λ u d'. (load_state json d' ≡ ok (some s.state)) × (d'.tree ≡ s.disk.tree))
            (λ x d'.
              ((load_state json d' ≡ load_state json s.disk) ⊎ (load_state json d' ≡ ok none))
              × (d'.tree ≡ s.disk.tree))
            (λ u d. Saved s (record s { disk = d })) (λ x d. Kept s (record s { disk = d }))
            (Persistence.save_state json s.state s.disk)
            (save_state-load_state json s.state s.disk (j.state_back s.state)) (λ x d h. refl)
            (λ u d h. (h.0, refl))))
        (λ x s₁ h. h) (λ u s₁ h. save_index-Saved s s₁ h)

  pub checkpoint_lem :
      (c : Checkpoint) (s : DirMailStore) → Post (λ u. Saved s) (λ x. Kept s) (checkpoint json c s)
  unfolding checkpoint
  checkpoint_lem c s =
      Post-after (λ u. Saved s) (λ x. Kept s) _ _ _ _ (save_state_lem s) (λ x s₁ h. h) (λ u s₁ h. h)

  Post-Kept :
      (s : DirMailStore) (p : Result (Unit {0}) Error × DirMailStore)
      → Post (λ u. Saved s) (λ x. Kept s) p
      → Kept s p.1
  Post-Kept s (ok u, s₁) h = h.1
  Post-Kept s (err x, s₁) h = h

  saved_progress_lem :
      (s : DirMailStore) (p : Result (Unit {0}) Error × DirMailStore)
      → Post (λ u. Saved s) (λ x. Kept s) p
      → p.0 ≡ ok tt
      → saved_progress json p.1 ≡ progress s.state
  unfolding saved_progress
  saved_progress_lem s p h e = ap found_progress (Post-ok (λ u. Saved s) (λ x. Kept s) p tt h e).0

  -- The directory store is such a store as the engine relies on: what the events of a batch do leaves
  -- the state alone, in memory and as saved, and where a checkpoint or a save succeeds, opening the
  -- store again finds the progress that the state had.
  pub dir_store-IsStore :
      (x : Externals) (y : Yaml) → IsStore (dir_store x y json) (saved_progress json)
  unfolding dir_store saved_progress
  dir_store-IsStore x y = record {
    state-set_state = λ st s. refl;
    saved-set_state = λ st s. refl;
    state-apply = λ es s. ((Keeps-apply s x y es).at s (refl, refl)).0;
    saved-apply = λ es s. ap found_progress (
        load_state_same json s.disk (apply x y es s).1.disk
          (ap (λ f. get f state_path) ((Keeps-apply s x y es).at s (refl, refl)).1));
    state-checkpoint = λ c s. ap progress (Post-Kept s (checkpoint json c s) (checkpoint_lem c s));
    saved-checkpoint = λ c s e. saved_progress_lem s (checkpoint json c s) (checkpoint_lem c s) e;
    state-save_state = λ s. ap progress (Post-Kept s (save_state json s) (save_state_lem s));
    saved-save_state = λ s e. saved_progress_lem s (save_state json s) (save_state_lem s) e;
  }
