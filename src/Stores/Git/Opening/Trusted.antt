-- ===== src/Stores/Git/Opening/Trusted.antt =====
-- stores/git.rs: the index that opening takes, `open`.
use mail_backup.Base.{
  ℕ, Option, none, some, Text, Result, ok, err, Error, Exec, Post, Post-after, Post-weaken, pure,
  lift, modify, ◌>>=◌, ◌==◌, list_eq, nat_eq, option_eq, eq_iff, ◌≡◌, ◌⊎◌, refl, sym, ◌∙◌, ap,
  subst, inl, inr, Bool-cases,
}
use mail_backup.Stores.{StoreState}
use mail_backup.Stores.Index.{StoreIndex}
use mail_backup.Stores.Sidecar.{Yaml}
use mail_backup.Stores.Persistence.{Json, fresh_state, load_state, load_index}
use mail_backup.Stores.Directory.{DirMailStore, attempt, set_index}
use mail_backup.Stores.Directory.Running
use mail_backup.Stores.Git.{Gix, GitMailStore, found, within, head_id}
use mail_backup.Stores.Git.Steps.{Post-within}
use mail_backup.Stores.Git.Opening.{rebuild_index_from_head, choose_index, connect, open_store}
use mail_backup.Stores.Git.Opening.Rebuilding
use mail_backup.Stores.Git.Opening.Rebuilding.{reads_lem, rebuild_lem}

module _ {G E : Type 0} (gix : Gix G E) (json : Json) (y : Yaml) where
  abbrev Anything : Error → GitMailStore G → Type 0
  Anything = Rebuilding.Anything gix y

  abbrev pub Rebuilt : ℕ → GitMailStore G → StoreIndex → Type 0
  Rebuilt = Rebuilding.Rebuilt gix y

  -- Where the state says that it was saved at this HEAD, the saved index if it can be read, and else
  -- that of the HEAD's tree; where it says otherwise, that of the HEAD's tree.
  abbrev pub Trusted : ℕ → Unit {0} → GitMailStore G → Type 0
  Trusted rounds u s =
      (((s.inner.state.head_at_save ≡ found (gix.head_id s.repo))
          × (load_index json s.inner.disk ≡ some s.inner.index))
        ⊎ Rebuilt rounds s s.inner.index)
      × ((load_state json s.inner.disk ≡ ok (some s.inner.state))
          ⊎ ((load_state json s.inner.disk ≡ ok none) × (s.inner.state ≡ fresh_state)))

  Chosen : ℕ → GitMailStore G → StoreIndex → Type 0
  Chosen rounds s index =
      ((s.inner.state.head_at_save ≡ found (gix.head_id s.repo))
        × (load_index json s.inner.disk ≡ some index))
      ⊎ Rebuilt rounds s index

  choose_lem :
      (rounds : ℕ) (head : Option Text) (s : GitMailStore G)
      → head ≡ found (gix.head_id s.repo)
      → Post
          (λ index s'. (s' ≡ s) × Chosen rounds s index)
          Anything
          (choose_index gix json y rounds head s)
  unfolding choose_index Chosen
  choose_lem rounds head s h = elim (Bool-cases (s.inner.state.head_at_save == head)) [
    | inl e ↦ rw e (
        cached (load_index json s.inner.disk) refl
          ((eq_iff s.inner.state.head_at_save head).0 e ∙ h))
    | inr e ↦ rw e rebuilt
  ]
    where
      rebuilt :
          Post
            (λ index s'. (s' ≡ s) × Chosen rounds s index)
            Anything
            (rebuild_index_from_head gix y rounds s)
      rebuilt =
          Post-weaken (λ index s'. (s' ≡ s) × Rebuilt rounds s index) Anything
            (λ index s'. (s' ≡ s) × Chosen rounds s index) Anything _ (rebuild_lem gix y rounds s)
            (λ x s' k. tt) (λ index s' k. (k.0, inr k.1))

      cached :
          (o : Option StoreIndex)
          → load_index json s.inner.disk ≡ o
          → s.inner.state.head_at_save ≡ found (gix.head_id s.repo)
          → Post
              (λ index s'. (s' ≡ s) × Chosen rounds s index)
              Anything
              (elim o as (λ x. Exec (GitMailStore G) StoreIndex) [
                | some index ↦ pure index
                | none ↦ rebuild_index_from_head gix y rounds
              ]
                s)
      cached none e k = rebuilt
      cached (some index) e k = (refl, inl (k, e))

  abbrev Loaded : DirMailStore → Type 0
  Loaded d =
      (load_state json d.disk ≡ ok (some d.state))
      ⊎ ((load_state json d.disk ≡ ok none) × (d.state ≡ fresh_state))

  load_lem :
      (d : DirMailStore) → Post (λ u. Loaded) (λ x d'. Unit {0}) (Running.open_without_index json d)
  unfolding Running.open_without_index Running.load
  load_lem d =
      Post-after (λ u d'. Unit {0}) (λ x d'. Unit {0}) (λ u. Loaded) (λ x d'. Unit {0}) _ _
        (whatever (attempt "create the backup directory" (λ d. d) d)) (λ x d' k. tt)
        (λ u d₁ k.
          Post-after (λ u. Loaded) (λ x d'. Unit {0}) (λ u. Loaded) (λ x d'. Unit {0}) _ _
            (loaded d₁ (load_state json d₁.disk) refl) (λ x d' k. tt) (λ u d₂ k. k))
    where
      whatever :
          (p : Result (Unit {0}) Error × DirMailStore)
          → Post (λ u d'. Unit {0}) (λ x d'. Unit {0}) p
      whatever (ok u, d') = tt
      whatever (err x, d') = tt

      loaded :
          (d₁ : DirMailStore) (r : Result (Option StoreState) Error)
          → load_state json d₁.disk ≡ r
          → Post {A = Unit {0}}
              (λ u. Loaded)
              (λ x d'. Unit {0})
              ((lift r >>= λ known. modify (λ t. record t {
                state = elim known [ none ↦ fresh_state | some state ↦ state ];
              }))
                d₁)
      loaded d₁ (err x) e = tt
      loaded d₁ (ok none) e = inr (e, refl)
      loaded d₁ (ok (some st)) e = inl e

  -- When opening succeeds, the state is the saved one, or that of a new store where none was saved. The
  -- saved index is taken only where the state was saved at this HEAD, and else the index is the one
  -- that the tree of the HEAD gives, with nothing that was not committed; it is empty where there is
  -- no commit.
  pub open_store-Trusted :
      (rounds : ℕ) (s : GitMailStore G)
      → Post (Trusted rounds) Anything (open_store gix json y rounds s)
  unfolding open_store head_id set_index within Chosen
  open_store-Trusted rounds s =
      Post-after (λ u t. Unit {0}) Anything (Trusted rounds) Anything _ _
        (whatever (within gix (attempt "create the backup directory" (λ d. d)) s)) (λ x t k. tt)
        (λ u s₁ k.
          Post-after (λ u t. Unit {0}) Anything (Trusted rounds) Anything _ _
            (whatever (connect gix s₁)) (λ x t k. tt)
            (λ u s₂ k.
              Post-after (λ u t. Loaded t.inner) Anything (Trusted rounds) Anything _ _
                (Post-within gix (λ u t. Loaded t.inner) Anything (Running.open_without_index json)
                  s₂ (load_lem s₂.inner))
                (λ x t k. tt)
                (λ u s₃ loaded.
                  Post-after (λ a t. (t ≡ s₃) × (a ≡ found (gix.head_id s₃.repo))) Anything
                    (Trusted rounds) Anything _ _ (reads_lem gix y (λ g. found (gix.head_id g)) s₃)
                    (λ x t k. tt)
                    (λ head s₄ at.
                      Post-after (λ index t. (t ≡ s₄) × Chosen rounds s₄ index) Anything
                        (Trusted rounds) Anything _ _
                        (choose_lem rounds head s₄ (
                          at.1
                          ∙ ap (λ (t : GitMailStore G). found (gix.head_id t.repo)) (sym at.0)))
                        (λ x t k. tt)
                        (λ index s₅ chosen.
                          taken rounds index s₄ s₅ chosen.0 chosen.1
                            (subst (λ (t : GitMailStore G). Loaded t.inner) (sym at.0) loaded))))))
    where
      whatever : (p : Result (Unit {0}) Error × GitMailStore G) → Post (λ u t. Unit {0}) Anything p
      whatever (ok u, t) = tt
      whatever (err x, t) = tt

      taken :
          (rounds : ℕ) (index : StoreIndex) (s₄ s₅ : GitMailStore G)
          → s₅ ≡ s₄
          → Chosen rounds s₄ index
          → Loaded s₄.inner
          → Trusted rounds tt (record s₅ { inner = record s₅.inner { index = index } })
      taken rounds index s₄ s₅ e c l =
          subst
            (λ (t : GitMailStore G).
              Trusted rounds tt (record t { inner = record t.inner { index = index } }))
            (sym e) (c, l)
