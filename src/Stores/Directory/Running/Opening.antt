-- ===== src/Stores/Directory/Running/Opening.antt =====
-- stores/dir.rs: what opening a store finds.
use mail_backup.Base.{
  get, true, Option, none, some, Result, ok, err, Error, Exec, ◌>>=◌, lift, modify, Post,
  Post-after, ◌≡◌, refl, sym, ap, arith,
}
use mail_backup.Stores.{StoreState}
use mail_backup.Stores.Laws.{progress}
use mail_backup.Stores.Sidecar.{Yaml}
use mail_backup.Stores.Index.{StoreIndex}
use mail_backup.Stores.Disk.{Disk}
use mail_backup.Stores.Persistence.{Json, fresh_state, state_path, load_state, load_index}
use mail_backup.Stores.Persistence.Saving.{load_state_same}
use mail_backup.Stores.Directory.{DirMailStore}
use mail_backup.Stores.Directory.Writing.{attempt_lem}
use mail_backup.Stores.Directory.Running.{rebuild_from_dir, load, cached_or_rebuilt, open_store}
use mail_backup.Stores.Directory.Running.Store.{found_progress, saved_progress}

load_index_same :
    (json : Json) (d d' : Disk)
    → d'.state_dir ≡ d.state_dir
    → load_index json d' ≡ load_index json d
unfolding load_index
load_index_same json d d' e = rw (e, load_index) refl

rebuild_from_dir_same :
    (y : Yaml) (d d' : Disk) → d'.tree ≡ d.tree → rebuild_from_dir y d' ≡ rebuild_from_dir y d
unfolding rebuild_from_dir
rebuild_from_dir_same y d d' e = rw (e, rebuild_from_dir) refl

-- The files are those of `s`.
abbrev pub SameFiles : DirMailStore → DirMailStore → Type 0
SameFiles s s' = (s'.disk.tree ≡ s.disk.tree) × (s'.disk.state_dir ≡ s.disk.state_dir)

module _ (json : Json) (y : Yaml) (s : DirMailStore) where
  abbrev pub Opened : DirMailStore → Type 0
  Opened s' =
      (s'.opened ≡ true)
      × SameFiles s s'
      × (progress s'.state ≡ saved_progress json s)
      × ((index : StoreIndex) → load_index json s.disk ≡ some index → s'.index ≡ index)
      × (load_index json s.disk ≡ none → rebuild_from_dir y s.disk ≡ ok s'.index)

  -- The state is found.
  abbrev Found : DirMailStore → Type 0
  Found s' = SameFiles s s' × (progress s'.state ≡ saved_progress json s)

  load-Found :
      (s₁ : DirMailStore)
      → SameFiles s s₁
      → Post {A = Unit {0}} (λ u. Found) (λ x. SameFiles s) (load json s₁)
  unfolding load saved_progress found_progress
  load-Found s₁ same =
      go (load_state json s₁.disk)
        (load_state_same json s.disk s₁.disk (ap (λ f. get f state_path) same.1))
    where
      go :
          (r : Result (Option StoreState) Error)
          → r ≡ load_state json s.disk
          → Post {A = Unit {0}}
              (λ u. Found)
              (λ x. SameFiles s)
              ((lift r >>= λ found. modify (λ t. record t {
                state = elim found [ none ↦ fresh_state | some state ↦ state ];
              }))
                s₁)
      go (err x) e = same
      go (ok none) e = (same, ap found_progress e)
      go (ok (some st)) e = (same, ap found_progress e)

  abbrev finish : Result StoreIndex Error → Exec DirMailStore (Unit {0})
  finish r = lift r >>= λ index. modify (λ t. record t { index = index; opened = true })

  index_Opened :
      (s₂ : DirMailStore)
      → Found s₂
      → Post {A = Unit {0}}
          (λ u. Opened)
          (λ x. SameFiles s)
          (finish (cached_or_rebuilt json y s₂.disk) s₂)
  unfolding cached_or_rebuilt
  index_Opened s₂ h =
      cached (load_index json s₂.disk) (sym (load_index_same json s.disk s₂.disk h.0.1))
    where
      rebuilt :
          (r : Result StoreIndex Error)
          → rebuild_from_dir y s.disk ≡ r
          → load_index json s.disk ≡ none
          → Post {A = Unit {0}} (λ u. Opened) (λ x. SameFiles s) (finish r s₂)
      rebuilt (err x) e absent = h.0
      rebuilt (ok index) e absent = (refl, h.0, h.1, λ i k. absurd (ground arith), λ k. e)

      cached :
          (k : Option StoreIndex)
          → load_index json s.disk ≡ k
          → Post {A = Unit {0}}
              (λ u. Opened)
              (λ x. SameFiles s)
              (finish (elim k [ some index ↦ ok index | none ↦ rebuild_from_dir y s₂.disk ]) s₂)
      cached (some index) e = (refl, h.0, h.1, λ i k. ground arith, λ k. absurd (ground arith))
      cached none e =
          rebuilt (rebuild_from_dir y s₂.disk) (sym (rebuild_from_dir_same y s.disk s₂.disk h.0.0))
            e

  -- Opening a store finds the progress that was saved, or that of a new store where none was. It takes
  -- the saved index where it can be read, and otherwise the one that a scan of the files gives. It
  -- changes no file, whether it succeeds or fails.
  pub open_store-Opened : Post {A = Unit {0}} (λ u. Opened) (λ x. SameFiles s) (open_store json y s)
  unfolding open_store
  open_store-Opened =
      Post-after (λ u. SameFiles s) (λ x. SameFiles s) _ _ _ _
        (attempt_lem "create the backup directory" (λ d. d) s _ _ (λ rest. (refl, refl))
          (λ rest. (refl, refl)))
        (λ x s₁ h. h)
        (λ u s₁ h₁.
          Post-after (λ u. Found) (λ x. SameFiles s) _ _ _ _ (load-Found s₁ h₁) (λ x s₂ h. h)
            (λ u s₂ h₂. index_Opened s₂ h₂))
