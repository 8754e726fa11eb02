-- ===== src/Stores/Persistence/Saving.antt =====
-- stores/index.rs: the state that is read back.
use mail_backup.Base.{
  Bool, true, false, none, some, List, ◌∷◌, Bytes, ok, Post, Post-weaken, get, nat_eq, list_eq, ◌≡◌,
  refl, ◌⊎◌, inl, inr,
}
use mail_backup.Stores.{StoreState}
use mail_backup.Stores.Disk.{Disk}
use mail_backup.Stores.Persistence.{Json, write_atomic, state_path, load_state, save_state}
use mail_backup.Stores.Persistence.Replacing.{
  Written, Spoiled, write_atomic_lem, write_atomic_window, state_apart,
}

module _ (json : Json) where
  pub load_state_found :
      (d : Disk) (state : StoreState)
      → json.state_from_slice (json.state_to_vec state) ≡ some state
      → get d.state_dir state_path ≡ some (json.state_to_vec state)
      → load_state json d ≡ ok (some state)
  unfolding load_state
  load_state_found d state back e = rw (e, load_state) (rw back refl)

  pub load_state_same :
      (d d' : Disk)
      → get d'.state_dir state_path ≡ get d.state_dir state_path
      → load_state json d' ≡ load_state json d
  unfolding load_state
  load_state_same d d' e = rw (e, load_state) refl

  load_state-none : (d : Disk) → get d.state_dir state_path ≡ none → load_state json d ≡ ok none
  unfolding load_state
  load_state-none d e = rw (e, load_state) refl

  -- Where the state is saved, it is the state that is loaded; where saving fails, what is loaded is
  -- what was loaded before, or nothing; and the mail tree is left alone.
  pub save_state-load_state :
      (state : StoreState) (d : Disk)
      → json.state_from_slice (json.state_to_vec state) ≡ some state
      → Post
          (λ u d'. (load_state json d' ≡ ok (some state)) × (d'.tree ≡ d.tree))
          (λ x d'.
            ((load_state json d' ≡ load_state json d) ⊎ (load_state json d' ≡ ok none))
            × (d'.tree ≡ d.tree))
          (save_state json state d)
  unfolding save_state
  save_state-load_state state d back =
      Post-weaken (λ u. Written state_path (json.state_to_vec state) d) (λ x. Spoiled state_path d)
        (λ u d'. (load_state json d' ≡ ok (some state)) × (d'.tree ≡ d.tree))
        (λ x d'.
          ((load_state json d' ≡ load_state json d) ⊎ (load_state json d' ≡ ok none))
          × (d'.tree ≡ d.tree))
        (write_atomic state_path (json.state_to_vec state) d)
        (write_atomic_lem state_path (json.state_to_vec state) state_apart d)
        (λ x d' h. (spoiled d' h.1, h.0.0)) (λ u d' h. (load_state_found d' state back h.1, h.0.0))
    where
      spoiled :
          (d' : Disk)
          → (get d'.state_dir state_path ≡ get d.state_dir state_path)
            ⊎ (get d'.state_dir state_path ≡ none)
          → (load_state json d' ≡ load_state json d) ⊎ (load_state json d' ≡ ok none)
      spoiled d' (inl same) = inl (load_state_same d d' same)
      spoiled d' (inr gone) = inr (load_state-none d' gone)

  -- Where a state was saved before, and of the steps of saving only the last one fails, the rename
  -- after the former file was removed, then saving fails and no state is left to load.
  pub save_state_window :
      (state : StoreState) (d : Disk) (old : Bytes) (rest : List Bool)
      → get d.state_dir state_path ≡ some old
      → Post {A = Unit {0}}
          (λ u d'. ⊥)
          (λ x d'. load_state json d' ≡ ok none)
          (save_state json state (record d { faults = false ∷ false ∷ false ∷ true ∷ rest }))
  unfolding save_state
  save_state_window state d old rest saved =
      Post-weaken {A = Unit {0}} (λ u d'. ⊥) (λ x d'. get d'.state_dir state_path ≡ none)
        (λ u d'. ⊥) (λ x d'. load_state json d' ≡ ok none)
        (write_atomic state_path (json.state_to_vec state)
          (record d { faults = false ∷ false ∷ false ∷ true ∷ rest }))
        (write_atomic_window state_path (json.state_to_vec state) state_apart d old rest saved)
        (λ x d' gone. load_state-none d' gone) (λ u d' no. no)
