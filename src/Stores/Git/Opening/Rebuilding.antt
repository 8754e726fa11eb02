-- ===== src/Stores/Git/Opening/Rebuilding.antt =====
-- stores/git.rs: the index of a committed tree, `rebuild_index_from_head`.
use mail_backup.Base.{
  ℕ, zero, suc, ◌+◌, Bool, true, false, Option, none, some, List, [], ◌∷◌, Text, Result, ok, err,
  Error, Post, Post-after, if◌then◌else◌, pure, lift, reads, is_some, list_eq, nat_eq, option_eq,
  ◌≡◌, ◌⊎◌, refl, sym, ◌∙◌, ap, arith, inl, inr,
}
use mail_backup.Stores.Index.{StoreIndex, empty_store}
use mail_backup.Stores.Sidecar.{Yaml}
use mail_backup.Stores.Directory.{panic}
use mail_backup.Stores.Git.{
  Gix, GitMailStore, first, found, repository, head_id, head_tree_id, tree_of_head,
}
use mail_backup.Stores.Git.Opening.{take_entries, walk, rebuild_index_from_head, out_of_rounds}

module _ {G E : Type 0} (gix : Gix G E) (y : Yaml) where
  -- More rounds find the same index.
  pub walk_enough :
      (g : G) (rounds more : ℕ) (pending : List (Text × Text)) (index : StoreIndex)
      (r : Result StoreIndex Error)
      → walk gix y g rounds pending index ≡ some r
      → walk gix y g (rounds + more) pending index ≡ some r
  unfolding walk
  walk_enough g zero more [] index r h = h
  walk_enough g (suc rounds) more [] index r h = h
  walk_enough g zero more ((p, t) ∷ pending) index r h = absurd (ground arith)
  walk_enough g (suc rounds) more ((p, t) ∷ pending) index r h =
      let e : suc rounds + more ≡ suc (rounds + more) = omega arith in
      rw e (
        onwards (λ pending' index' k. walk_enough g rounds more pending' index' r k)
          (first (gix.find_tree g t) (λ entries. take_entries gix y g p entries (pending, index)))
          h)
    where
      onwards :
          ((pending' : List (Text × Text)) (index' : StoreIndex)
            → walk gix y g rounds pending' index' ≡ some r
            → walk gix y g (rounds + more) pending' index' ≡ some r)
          → (q : Result (List (Text × Text) × StoreIndex) Error)
          → elim q as (λ x. Option (Result StoreIndex Error)) [
            | err x ↦ some (err x)
            | ok (pending', index') ↦ walk gix y g rounds pending' index'
          ]
            ≡ some r
          → elim q as (λ x. Option (Result StoreIndex Error)) [
            | err x ↦ some (err x)
            | ok (pending', index') ↦ walk gix y g (rounds + more) pending' index'
          ]
            ≡ some r
      onwards later (err x) k = k
      onwards later (ok (pending', index')) k = later pending' index' k

  abbrev pub Anything : Error → GitMailStore G → Type 0
  Anything x s = Unit {0}

  -- A read of the repository, which changes nothing.
  pub reads_lem :
      {A : Type 0} (f : G → A) (s : GitMailStore G)
      → Post (λ a s'. (s' ≡ s) × (a ≡ f s.repo)) Anything (repository gix (reads f) s)
  unfolding repository
  reads_lem f s = go s.opened
    where
      go :
          (b : Bool)
          → Post
              (λ a s'. (s' ≡ s) × (a ≡ f s.repo))
              Anything
              (if b then (ok (f s.repo), s) else (err panic, s))
      go true = (refl, refl)
      go false = tt

  -- The index of the tree of the HEAD; that of no commit is empty.
  abbrev pub Rebuilt : ℕ → GitMailStore G → StoreIndex → Type 0
  Rebuilt rounds s index =
      ((found (gix.head_id s.repo) ≡ none) × (index ≡ empty_store))
      ⊎ (walk gix y s.repo rounds (([], tree_of_head gix s.repo) ∷ []) empty_store
          ≡ some (ok index))

  pub rebuild_lem :
      (rounds : ℕ) (s : GitMailStore G)
      → Post
          (λ index s'. (s' ≡ s) × Rebuilt rounds s index)
          Anything
          (rebuild_index_from_head gix y rounds s)
  unfolding rebuild_index_from_head head_id head_tree_id
  rebuild_lem rounds s =
      Post-after (λ a s'. (s' ≡ s) × (a ≡ found (gix.head_id s.repo))) Anything _ Anything _ _
        (reads_lem (λ g. found (gix.head_id g)) s) (λ x s' k. tt)
        (λ head s₁ k₁.
          Post-after (λ a s'. (s' ≡ s₁) × (a ≡ tree_of_head gix s₁.repo)) Anything _ Anything _ _
            (reads_lem (tree_of_head gix) s₁) (λ x s' k. tt)
            (λ tree s₂ k₂.
              Post-after (λ a s'. (s' ≡ s₂) × (a ≡ walked tree s₂)) Anything _ Anything _ _
                (reads_lem (λ g. outcome (walk gix y g rounds (([], tree) ∷ []) empty_store)) s₂)
                (λ x s' k. tt)
                (λ result s₃ k₃. chosen head result s₃ (k₃.0 ∙ k₂.0 ∙ k₁.0) k₁.1 (
                  k₃.1
                  ∙ ap (walked tree) (k₂.0 ∙ k₁.0)
                  ∙ ap (λ t. walked t s)
                      (k₂.1 ∙ ap (λ (t : GitMailStore G). tree_of_head gix t.repo) k₁.0)))))
    where
      outcome : Option (Result StoreIndex Error) → Result StoreIndex Error
      outcome o = elim o [ none ↦ err out_of_rounds | some r ↦ r ]

      walked : Text → GitMailStore G → Result StoreIndex Error
      walked tree t = outcome (walk gix y t.repo rounds (([], tree) ∷ []) empty_store)

      ended :
          (o : Option (Result StoreIndex Error)) (index : StoreIndex)
          → outcome o ≡ ok index
          → o ≡ some (ok index)
      ended none index e = absurd (ground arith)
      ended (some r) index e = ap some e

      chosen :
          (head : Option Text) (result : Result StoreIndex Error) (t : GitMailStore G)
          → t ≡ s
          → head ≡ found (gix.head_id s.repo)
          → result ≡ walked (tree_of_head gix s.repo) s
          → Post
              (λ index s'. (s' ≡ s) × Rebuilt rounds s index)
              Anything
              ((if is_some head then lift result else pure empty_store) t)
      chosen none result t e h k = (e, inl (sym h, refl))
      chosen (some id) (err x) t e h k = tt
      chosen (some id) (ok index) t e h k = (
        e,
        inr (
            ended (walk gix y s.repo rounds (([], tree_of_head gix s.repo) ∷ []) empty_store) index
              (sym k)),
      )
