-- ===== src/Stores/Persistence/Replacing.antt =====
-- stores/index.rs: `write_atomic`, and what it does to the files of the state directory.
use mail_backup.Base.{
  ℕ, Bool, true, false, not, Option, none, some, List, [], ◌∷◌, Text, Bytes, codes, String, Result,
  ok, err, Error, Exec, reads, when, ◌>>=◌, ◌>>◌, Post, Post-after, Post-intro, Post-weaken,
  is_some, get, put, erase, get-put, get-erase, Bool-cases, ◌==◌, nat_eq, list_eq, eq_iff, eq_refl,
  ◌≡◌, ◌≢◌, refl, sym, ◌∙◌, ap, ◌⊎◌, inl, inr, arith, if◌then◌else◌, list_beq, if◌then◌else◌,
}
use mail_backup.Stores.Disk.{Disk, with_extension}
use mail_backup.Stores.Persistence.{
  attempt_with, attempt, temporary, rename_state, write_atomic, state_path, index_path,
}

-- The rule for an operation that may fail: it is done or not, and only the faults to come change.
pub attempt_rule :
    (what : String) (f : Disk → Disk) (d : Disk) (Q R : Disk → Type 0)
    → ((rest : List Bool) → Q (f (record d { faults = rest })))
    → ((rest : List Bool) → R (record d { faults = rest }))
    → Post {A = Unit {0}} (λ u. Q) (λ x. R) (attempt what f d)
unfolding attempt_with
attempt_rule what f d Q R done failed = go d.faults
  where
    go : (faults : List Bool) → Post {A = Unit {0}} (λ u. Q) (λ x. R) (attempt_with faults what f d)
    go [] = done []
    go (true ∷ rest) = failed rest
    go (false ∷ rest) = done rest

-- The mail tree is as before, and so is every other file of the state directory.
abbrev Elsewhere : Text → Disk → Disk → Type 0
Elsewhere path d d' =
    (d'.tree ≡ d.tree)
    × (d'.dirs ≡ d.dirs)
    × ((q : Text) → q ≢ path → q ≢ temporary path → get d'.state_dir q ≡ get d.state_dir q)

-- The file has the content.
abbrev pub Written : Text → Bytes → Disk → Disk → Type 0
Written path content d d' = Elsewhere path d d' × (get d'.state_dir path ≡ some content)

-- The file is as it was, or gone.
abbrev pub Spoiled : Text → Disk → Disk → Type 0
Spoiled path d d' =
    Elsewhere path d d'
    × ((get d'.state_dir path ≡ get d.state_dir path) ⊎ (get d'.state_dir path ≡ none))

-- Before the last step: the temporary file has the content.
abbrev Ready : Text → Bytes → Disk → Disk → Type 0
Ready path content d d' = Spoiled path d d' × (get d'.state_dir (temporary path) ≡ some content)

rename_state_lem :
    (from to : Text) (content : Bytes) (d : Disk)
    → get d.state_dir from ≡ some content
    → rename_state from to d ≡ record d { state_dir = put (erase d.state_dir from) to content }
unfolding rename_state
rename_state_lem from to content d e = rw (e, rename_state) refl

module _ (path : Text) (content : Bytes) (apart : temporary path ≢ path) (d : Disk) where
  written :
      (d₁ : Disk)
      → Spoiled path d d₁
      → Ready path content d (record d₁ { state_dir = put d₁.state_dir (temporary path) content })
  written d₁ h = (
    (
      (
        h.0.0,
        h.0.1,
        λ q a b. ground (
          arith,
          get-put d₁.state_dir (temporary path) q content,
          eq_iff (temporary path) q,
          h.0.2 q a b,
        ),
      ),
      ground (
        arith,
        get-put d₁.state_dir (temporary path) path content,
        eq_iff (temporary path) path,
        h.1,
      ),
    ),
    ground (
      arith,
      get-put d₁.state_dir (temporary path) (temporary path) content,
      eq_refl (temporary path),
    ),
  )

  replaced :
      (d₁ : Disk)
      → Ready path content d d₁
      → Ready path content d (record d₁ { state_dir = erase d₁.state_dir path })
  replaced d₁ h = (
    (
      (
        h.0.0.0,
        h.0.0.1,
        λ q a b. ground (arith, get-erase d₁.state_dir path q, eq_iff path q, h.0.0.2 q a b),
      ),
      ground (arith, get-erase d₁.state_dir path path, eq_refl path),
    ),
    ground (arith, get-erase d₁.state_dir path (temporary path), eq_iff path (temporary path), h.1),
  )

  finalized :
      (d₁ : Disk)
      → Ready path content d d₁
      → Written path content d (rename_state (temporary path) path d₁)
  finalized d₁ h = rw (rename_state_lem (temporary path) path content d₁ h.1) (
    (
      h.0.0.0,
      h.0.0.1,
      λ q a b. ground (
        arith,
        get-put (erase d₁.state_dir (temporary path)) path q content,
        get-erase d₁.state_dir (temporary path) q,
        eq_iff path q,
        eq_iff (temporary path) q,
        h.0.0.2 q a b,
      ),
    ),
    ground (arith, get-put (erase d₁.state_dir (temporary path)) path path content, eq_refl path),
  )

  -- To write a file of the state directory gives it the content, or fails and leaves it as it was or
  -- gone; whichever it is, it touches no other file but its temporary one, and not the mail tree.
  pub write_atomic_lem :
      Post {A = Unit {0}}
        (λ u. Written path content d)
        (λ x. Spoiled path d)
        (write_atomic path content d)
  unfolding write_atomic
  write_atomic_lem =
      Post-after (λ u. Spoiled path d) (λ x. Spoiled path d) _ _ _ _
        (attempt_rule "create the state directory" (λ e. e) d _ _ (λ rest. unchanged rest)
          (λ rest. unchanged rest))
        (λ x d₁ h. h)
        (λ u d₁ h₁.
          Post-after (λ u. Ready path content d) (λ x. Spoiled path d) _ _ _ _
            (attempt_rule "write"
              (λ e. record e { state_dir = put e.state_dir (temporary path) content }) d₁ _ _
              (λ rest. written (record d₁ { faults = rest }) h₁) (λ rest. h₁))
            (λ x d₂ h. h)
            (λ u d₂ h₂.
              Post-after (λ u. Ready path content d) (λ x. Spoiled path d) _ _ _ _
                (replace_step (is_some (get d₂.state_dir path)) d₂ h₂) (λ x d₃ h. h)
                (λ u d₃ h₃.
                  attempt_rule "finalize" (rename_state (temporary path) path) d₃ _ _
                    (λ rest. finalized (record d₃ { faults = rest }) h₃) (λ rest. h₃.0))))
    where
      unchanged : (rest : List Bool) → Spoiled path d (record d { faults = rest })
      unchanged rest = ((refl, refl, λ q a b. refl), inl refl)

      replace_step :
          (present : Bool) (d₂ : Disk)
          → Ready path content d d₂
          → Post {A = Unit {0}}
              (λ u. Ready path content d)
              (λ x. Spoiled path d)
              (when present
                (attempt "replace" (λ e. record e { state_dir = erase e.state_dir path }))
                d₂)
      replace_step false d₂ h = h
      replace_step true d₂ h =
          attempt_rule "replace" (λ e. record e { state_dir = erase e.state_dir path }) d₂ _ _
            (λ rest. replaced (record d₂ { faults = rest }) h) (λ rest. h.0)

module _ (path : Text) (content : Bytes) (apart : temporary path ≢ path) (d : Disk) where
  -- The file was there, and the last step fails.
  pub write_atomic_window :
      (old : Bytes) (rest : List Bool)
      → get d.state_dir path ≡ some old
      → Post {A = Unit {0}}
          (λ u d'. ⊥)
          (λ x d'. get d'.state_dir path ≡ none)
          (write_atomic path content (record d { faults = false ∷ false ∷ false ∷ true ∷ rest }))
  unfolding write_atomic attempt_with
  write_atomic_window old rest saved =
      go (is_some (get (put d.state_dir (temporary path) content) path)) (
        ground
          (arith, get-put d.state_dir (temporary path) path content, eq_iff (temporary path) path))
    where
      d₂ : Disk
      d₂ = record d {
        state_dir = put d.state_dir (temporary path) content;
        faults = false ∷ true ∷ rest;
      }

      go :
          (present : Bool)
          → present ≡ true
          → Post {A = Unit {0}}
              (λ u d'. ⊥)
              (λ x d'. get d'.state_dir path ≡ none)
              ((when present
                    (attempt "replace" (λ e. record e { state_dir = erase e.state_dir path }))
                  >> attempt "finalize" (rename_state (temporary path) path))
                d₂)
      go false e = ground arith
      go true e = ground (arith, get-erase d₂.state_dir path path, eq_refl path)

is_apart : (a b : Text) → (a == b) ≡ false → a ≢ b
is_apart a b e same = ground (arith, eq_iff a b)

pub state_apart : temporary state_path ≢ state_path
unfolding with_extension list_beq mail_backup.Base.contains
state_apart = is_apart (temporary state_path) state_path differ
  where
    differ : (temporary state_path == state_path) ≡ false
    differ = refl

pub index_apart : temporary index_path ≢ index_path
unfolding with_extension list_beq mail_backup.Base.contains
index_apart = is_apart (temporary index_path) index_path differ
  where
    differ : (temporary index_path == index_path) ≡ false
    differ = refl

-- The file of the state is none that saving the index writes.
pub index_elsewhere : (state_path ≢ index_path) × (state_path ≢ temporary index_path)
unfolding with_extension list_beq mail_backup.Base.contains
index_elsewhere =
    (is_apart state_path index_path differ, is_apart state_path (temporary index_path) differ')
  where
    differ : (state_path == index_path) ≡ false
    differ = refl

    differ' : (state_path == temporary index_path) ≡ false
    differ' = refl
