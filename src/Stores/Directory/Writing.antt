-- ===== src/Stores/Directory/Writing.antt =====
-- stores/dir.rs: what writing and removing a file does to the others.
use mail_backup.Base.{
  Bool, true, false, some, List, [], ◌∷◌, Text, Bytes, String, when, Post, Post-after, get, put,
  erase, get-put, get-erase, nat_eq, list_eq, eq_iff, eq_refl, ◌≡◌, ◌≢◌, refl, inl, inr,
  Option-cases, arith, if◌then◌else◌,
}
use mail_backup.Stores.{upsert}
use mail_backup.Stores.Disk.{
  Disk, exists, file_matches, make_dirs, rename, parent, with_extension, split_name, file_stem,
}
use mail_backup.Stores.Disk
use mail_backup.Stores.Persistence.{attempt_with, temporary}
use mail_backup.Stores.Directory.{DirMailStore, attempt, push_edits, write_file, remove_file}
use mail_backup.Stores.Directory.Emails.{write_unless_same}

pub attempt_lem :
    (what : String) (f : Disk → Disk) (s : DirMailStore) (Q R : DirMailStore → Type 0)
    → ((rest : List Bool) → Q (record s { disk = f (record s.disk { faults = rest }) }))
    → ((rest : List Bool) → R (record s { disk = record s.disk { faults = rest } }))
    → Post {A = Unit {0}} (λ u. Q) (λ x. R) (attempt what f s)
unfolding attempt attempt_with
attempt_lem what f s Q R done failed = go s.disk.faults
  where
    go :
        (faults : List Bool)
        → Post {A = Unit {0}}
            (λ u. Q)
            (λ x. R)
            (
              (attempt_with faults what f s.disk).0,
              record s { disk = (attempt_with faults what f s.disk).1 },
            )
    go [] = done []
    go (true ∷ rest) = failed rest
    go (false ∷ rest) = done rest

-- The index is as before, and so is every file but this one and its temporary one.
abbrev pub Elsewhere : Text → DirMailStore → DirMailStore → Type 0
Elsewhere rel s s' =
    (s'.index ≡ s.index)
    × ((q : Text) → q ≢ rel → q ≢ temporary rel → get s'.disk.tree q ≡ get s.disk.tree q)

abbrev pub Wrote : Text → Bytes → DirMailStore → DirMailStore → Type 0
Wrote rel content s s' = Elsewhere rel s s' × (get s'.disk.tree rel ≡ some content)

abbrev Ready : Text → Bytes → DirMailStore → DirMailStore → Type 0
Ready rel content s s' = Elsewhere rel s s' × (get s'.disk.tree (temporary rel) ≡ some content)

rename_lem :
    (from to : Text) (content : Bytes) (d : Disk)
    → get d.tree from ≡ some content
    → rename d from to ≡ record d { tree = put (erase d.tree from) to content }
unfolding rename
rename_lem from to content d e = rw (e, rename) refl

file_matches_lem :
    (d : Disk) (rel : Text) (content : Bytes)
    → file_matches d rel content ≡ true
    → get d.tree rel ≡ some content
unfolding file_matches
file_matches_lem d rel content e = elim (Option-cases (get d.tree rel)) [
  | inl absent ↦ ground arith
  | inr (c, found) ↦ ground (arith, eq_iff c content)
]

module _ (rel : Text) (content : Bytes) (apart : temporary rel ≢ rel) (s : DirMailStore) where
  write_step :
      (s₁ : DirMailStore)
      → Elsewhere rel s s₁
      → Ready rel content s (record s₁ { disk = Disk.write s₁.disk (temporary rel) content })
  write_step s₁ h = (
    (
      h.0,
      λ q a b. ground (
        arith,
        get-put s₁.disk.tree (temporary rel) q content,
        eq_iff (temporary rel) q,
        h.1 q a b,
      ),
    ),
    ground (
      arith,
      get-put s₁.disk.tree (temporary rel) (temporary rel) content,
      eq_refl (temporary rel),
    ),
  )

  remove_step :
      (s₁ : DirMailStore)
      → Ready rel content s s₁
      → Ready rel content s (record s₁ { disk = Disk.remove s₁.disk rel })
  remove_step s₁ h = (
    (h.0.0, λ q a b. ground (arith, get-erase s₁.disk.tree rel q, eq_iff rel q, h.0.1 q a b)),
    ground (arith, get-erase s₁.disk.tree rel (temporary rel), eq_iff rel (temporary rel), h.1),
  )

  rename_step :
      (s₁ : DirMailStore)
      → Ready rel content s s₁
      → Wrote rel content s (record s₁ { disk = rename s₁.disk (temporary rel) rel })
  rename_step s₁ h = rw (rename_lem (temporary rel) rel content s₁.disk h.1) (
    (
      h.0.0,
      λ q a b. ground (
        arith,
        get-put (erase s₁.disk.tree (temporary rel)) rel q content,
        get-erase s₁.disk.tree (temporary rel) q,
        eq_iff rel q,
        eq_iff (temporary rel) q,
        h.0.1 q a b,
      ),
    ),
    ground (arith, get-put (erase s₁.disk.tree (temporary rel)) rel rel content, eq_refl rel),
  )

  -- Writing gives the file the content, or fails; either way it touches no other file but the
  -- temporary one, and not the index.
  pub write_file_lem :
      Post {A = Unit {0}}
        (λ u. Wrote rel content s)
        (λ x. Elsewhere rel s)
        (write_file rel content s)
  unfolding write_file push_edits make_dirs
  write_file_lem =
      Post-after (λ u. Elsewhere rel s) (λ x. Elsewhere rel s) _ _ _ _
        (attempt_lem "create the directory" (λ d. make_dirs d (parent rel)) s _ _ (λ rest. still)
          (λ rest. still))
        (λ x s₁ h. h)
        (λ u s₁ h₁.
          Post-after (λ u. Ready rel content s) (λ x. Elsewhere rel s) _ _ _ _
            (attempt_lem "write" (λ d. Disk.write d (temporary rel) content) s₁ _ _
              (λ rest. write_step (record s₁ { disk = record s₁.disk { faults = rest } }) h₁)
              (λ rest. h₁))
            (λ x s₂ h. h)
            (λ u s₂ h₂.
              Post-after (λ u. Ready rel content s) (λ x. Elsewhere rel s) _ _ _ _
                (replace_step (exists s₂.disk rel) s₂ h₂) (λ x s₃ h. h)
                (λ u s₃ h₃.
                  Post-after (λ u. Wrote rel content s) (λ x. Elsewhere rel s) _ _ _ _
                    (attempt_lem "finalize writing" (λ d. rename d (temporary rel) rel) s₃ _ _
                      (λ rest.
                        rename_step (record s₃ { disk = record s₃.disk { faults = rest } }) h₃)
                      (λ rest. h₃.0))
                    (λ x s₄ h. h) (λ u s₄ h. h))))
    where
      still : Elsewhere rel s s
      still = (refl, λ q a b. refl)

      replace_step :
          (present : Bool) (s₂ : DirMailStore)
          → Ready rel content s s₂
          → Post {A = Unit {0}}
              (λ u. Ready rel content s)
              (λ x. Elsewhere rel s)
              (when present (attempt "replace" (λ d. Disk.remove d rel)) s₂)
      replace_step false s₂ h = h
      replace_step true s₂ h =
          attempt_lem "replace" (λ d. Disk.remove d rel) s₂ _ _
            (λ rest. remove_step (record s₂ { disk = record s₂.disk { faults = rest } }) h)
            (λ rest. h.0)

  -- The same of a write that is left out where the file has the content.
  pub write_unless_same_lem :
      Post {A = Unit {0}}
        (λ u. Wrote rel content s)
        (λ x. Elsewhere rel s)
        (write_unless_same rel content s)
  unfolding write_unless_same push_edits
  write_unless_same_lem = go (file_matches s.disk rel content) refl
    where
      go :
          (same : Bool)
          → file_matches s.disk rel content ≡ same
          → Post {A = Unit {0}}
              (λ u. Wrote rel content s)
              (λ x. Elsewhere rel s)
              ((if same then push_edits (upsert rel ∷ []) else write_file rel content) s)
      go true e = ((refl, λ q a b. refl), file_matches_lem s.disk rel content e)
      go false e = write_file_lem

-- Removing a file leaves the index alone.
pub remove_file_lem :
    (rel : Text) (s : DirMailStore)
    → Post {A = Unit {0}}
        (λ u s'. s'.index ≡ s.index)
        (λ x s'. s'.index ≡ s.index)
        (remove_file rel s)
unfolding remove_file push_edits
remove_file_lem rel s =
    Post-after (λ u s'. s'.index ≡ s.index) (λ x s'. s'.index ≡ s.index) _ _ _ _
      (go (exists s.disk rel)) (λ x s₁ h. h) (λ u s₁ h. h)
  where
    go :
        (present : Bool)
        → Post {A = Unit {0}}
            (λ u s'. s'.index ≡ s.index)
            (λ x s'. s'.index ≡ s.index)
            (when present (attempt "remove" (λ d. Disk.remove d rel)) s)
    go false = refl
    go true = attempt_lem "remove" (λ d. Disk.remove d rel) s _ _ (λ rest. refl) (λ rest. refl)
