-- ===== src/Stores/Git/Edits.antt =====
-- stores/git.rs: the edits of a tree, in `build_tree`.
use mail_backup.Base.{
  Bool, true, false, Option, none, some, [], ◌∷◌, Text, Bytes, Result, ok, err, Error, Post,
  Post-after, Post-weaken, is_some, ◌==◌, nat_eq, list_eq, eq_iff, Dictionary, get, system, subst,
  lift, ◌>>=◌, ◌≡◌, ◌≢◌, refl, sym, ◌∙◌, ap, arith, inl, inr, Bool-cases,
}
use mail_backup.Stores.Disk.{under}
use mail_backup.Stores.Directory.{DirMailStore}
use mail_backup.Stores.Git.{Gix, GitMailStore, repository}
use mail_backup.Stores.Git.Laws.{Extends, IsGix}
use mail_backup.Stores.Git.Steps.{Wrote, Wrote-refl, Wrote-trans, Wrote-repo, Post-repository}
use mail_backup.Stores.Git.Commits.{read_file, edit_path, edit_paths}
use mail_backup.Stores.Git.Finals.{Unique}

module _ {G E : Type 0} (gix : Gix G E) (entry : G → Text → Text → Option Text)
    (listed : E → Text → Option Text) (laws : IsGix gix entry listed) where
  -- What the last edit of a path makes of the tree: the file that is on the disk, or nothing.
  abbrev pub Final : Dictionary Bytes → G → E → Text → Bool → Type 0
  Final files g e path true =
      (id : Text) × (content : Bytes) × (listed e path ≡ some id)
      × (gix.find_object g id ≡ ok content)
      × (get files path ≡ some content)
  Final files g e path false = listed e path ≡ none

  Final-later :
      (files : Dictionary Bytes) (g g' : G) (e e' : E) (path : Text) (b : Bool)
      → Extends gix g g'
      → listed e' path ≡ listed e path
      → Final files g e path b
      → Final files g' e' path b
  Final-later files g g' e e' path true x h (id, content, l, o, f) =
      (id, content, h ∙ l, x.objects_stay id content o, f)
  Final-later files g g' e e' path false x h l = h ∙ l

  abbrev pub Files : GitMailStore G → Dictionary Bytes
  Files s = s.inner.disk.tree

  abbrev pub Apart : Text → Text → Type 0
  Apart path other = (under path other ≡ false) × (under other path ≡ false)

  -- An edit of one path.
  record Edited (path : Text) (b : Bool) (e : E) (s : GitMailStore G) (e' : E) (s' : GitMailStore G)
      : Type 0 where
    wrote : Wrote gix s s'
    there : Final (Files s) s'.repo e' path b
    elsewhere : (other : Text) → path ≢ other → Apart path other → listed e' other ≡ listed e other

  abbrev pub Anything : Error → GitMailStore G → Type 0
  Anything x s = Unit {0}

  upsert-Edited :
      (path : Text) (content : Bytes) (e : E) (s s₁ : GitMailStore G) (id : Text)
      → get (Files s) path ≡ some content
      → Wrote gix s s₁
      → gix.find_object s₁.repo id ≡ ok content
      → (r : Result E Error) → gix.upsert_entry path id e ≡ r
      → Post (Edited path true e s) Anything (r, s₁)
  upsert-Edited path content e s s₁ id f w o (err x) h = tt
  upsert-Edited path content e s s₁ id f w o (ok e') h = record {
    wrote = w;
    there = (id, content, laws.upsert_entry_lem path id e e' h, o, f);
    elsewhere = λ other n a. laws.upsert_entry_apart path id e e' h other n a.0 a.1;
  }

  read_file-Edited :
      (path : Text) (e : E) (s : GitMailStore G) (o : Option Bytes)
      → get (Files s) path ≡ o
      → Post {A = Bytes}
          (λ content s'. (s' ≡ s) × (get (Files s) path ≡ some content))
          Anything
          (elim o [
            | none ↦ (err (record { kind = system; what = "read while committing" }), s)
            | some content ↦ (ok content, s)
          ])
  read_file-Edited path e s none h = tt
  read_file-Edited path e s (some content) h = (refl, h)

  write_blob-Wrote :
      (content : Bytes) (s : GitMailStore G)
      → s.opened ≡ true
      → Post
          (λ id s₁. Wrote gix s s₁ × (gix.find_object s₁.repo id ≡ ok content))
          Anything
          (repository gix (gix.write_blob content) s)
  write_blob-Wrote content s h = Post-repository gix _ Anything (gix.write_blob content) s h (
      Post-weaken (λ id g. Extends gix s.repo g × (gix.find_object g id ≡ ok content))
        (λ x g. Unit {0})
        (λ id g. Wrote gix s (record s { repo = g }) × (gix.find_object g id ≡ ok content))
        (λ x g. Unit {0}) (gix.write_blob content s.repo) (laws.write_blob_lem content s.repo)
        (λ x g k. tt) (λ id g k. (Wrote-repo gix s g k.0, k.1)))

  edit_path-Edited :
      (path : Text) (b : Bool) (e : E) (s : GitMailStore G)
      → s.opened ≡ true
      → Post (Edited path b e s) Anything (edit_path gix path b e s)
  unfolding edit_path read_file
  edit_path-Edited path true e s h =
      Post-after (λ content s'. (s' ≡ s) × (get (Files s) path ≡ some content)) Anything _ _ _ _
        (read_file-Edited path e s (get (Files s) path) refl) (λ x w k. tt)
        (λ content s' k.
          subst
            (λ (t : GitMailStore G). Post (Edited path true e s) Anything (
              (repository gix (gix.write_blob content) >>= λ blob.
              lift (gix.upsert_entry path blob e))
                t))
            (sym k.0)
            (Post-after (λ id s₁. Wrote gix s s₁ × (gix.find_object s₁.repo id ≡ ok content))
              Anything _ _ _ _ (write_blob-Wrote content s h) (λ x w k. tt)
              (λ id s₁ w.
                upsert-Edited path content e s s₁ id k.1 w.0 w.1 (gix.upsert_entry path id e)
                  refl)))
  edit_path-Edited path false e s h = removed (gix.remove_entry path e) refl
    where
      removed :
          (r : Result E Error)
          → gix.remove_entry path e ≡ r
          → Post (Edited path false e s) Anything (r, s)
      removed (err x) k = tt
      removed (ok e') k = record {
        wrote = Wrote-refl gix s;
        there = laws.remove_entry_lem path e e' k;
        elsewhere = λ other n a. laws.remove_entry_apart path e e' k other n a.0 a.1;
      }

  -- What a path is after the edits: what the entry for it says, or what it was.
  abbrev pub Shows : Dictionary Bytes → G → E → E → Text → Option Bool → Type 0
  Shows files g e e' path none = listed e' path ≡ listed e path
  Shows files g e e' path (some b) = Final files g e' path b

  Shows-later :
      (files : Dictionary Bytes) (g : G) (e e₁ e' : E) (path : Text) (o : Option Bool)
      → listed e₁ path ≡ listed e path
      → Shows files g e₁ e' path o
      → Shows files g e e' path o
  Shows-later files g e e₁ e' path none h k = k ∙ h
  Shows-later files g e e₁ e' path (some b) h k = k

  Shows-absent :
      (files : Dictionary Bytes) (g : G) (e e' : E) (path : Text) (o : Option Bool)
      → o ≡ none
      → Shows files g e e' path o
      → listed e' path ≡ listed e path
  Shows-absent files g e e' path none h k = k
  Shows-absent files g e e' path (some b) h k = absurd (ground arith)

  abbrev pub AllApart : Dictionary Bool → Text → Type 0
  AllApart m path = (p : Text) → is_some (get m p) ≡ true → Apart p path

  AllApart-tail :
      (p : Text) (b : Bool) (m : Dictionary Bool) (path : Text)
      → AllApart ((p, b) ∷ m) path
      → AllApart m path
  unfolding get
  AllApart-tail p b m path h q k = h q (ground (arith, eq_iff p q))

  AllApart-head :
      (p : Text) (b : Bool) (m : Dictionary Bool) (path : Text)
      → AllApart ((p, b) ∷ m) path
      → Apart p path
  unfolding get
  AllApart-head p b m path h = h p (ground (arith, eq_iff p p))

  -- An edit, and the edits of other paths after it.
  Shows-step :
      (p : Text) (b : Bool) (m : Dictionary Bool) (path : Text) (e e₁ e' : E)
      (s s₁ s' : GitMailStore G)
      → get m p ≡ none
      → Apart p path
      → Edited p b e s e₁ s₁
      → Wrote gix s₁ s'
      → Shows (Files s) s'.repo e₁ e' path (get m path)
      → Shows (Files s) s'.repo e e' path (get ((p, b) ∷ m) path)
  unfolding get
  Shows-step p b m path e e₁ e' s s₁ s' absent apart step w shows = elim (Bool-cases (p == path)) [
    | inl same ↦
        let here : p ≡ path = (eq_iff p path).0 same in
        rw same (
          Final-later (Files s) s₁.repo s'.repo e₁ e' path b w.repo
            (Shows-absent (Files s) s'.repo e₁ e' path (get m path) (ap (get m) (sym here) ∙ absent)
              shows)
            (subst (λ t. Final (Files s) s₁.repo e₁ t b) here step.there))
    | inr other ↦ rw other (
        Shows-later (Files s) s'.repo e e₁ e' path (get m path)
          (step.elsewhere path (λ h. ground (arith, eq_iff p path)) apart) shows)
  ]

  pub record EditedAll (m : Dictionary Bool) (e : E) (path : Text) (s : GitMailStore G) (e' : E)
      (s' : GitMailStore G) : Type 0 where
    pub wrote : Wrote gix s s'
    pub shows : Shows (Files s) s'.repo e e' path (get m path)

  pub edit_paths-EditedAll :
      (m : Dictionary Bool) (e : E) (path : Text) (s : GitMailStore G)
      → s.opened ≡ true
      → Unique m
      → AllApart m path
      → Post (EditedAll m e path s) Anything (edit_paths gix m e s)
  unfolding edit_paths get
  edit_paths-EditedAll [] e path s h u a = record { wrote = Wrote-refl gix s; shows = refl }
  edit_paths-EditedAll ((p, b) ∷ m) e path s h u a =
      Post-after (Edited p b e s) Anything (EditedAll ((p, b) ∷ m) e path s) Anything _ _
        (edit_path-Edited p b e s h) (λ x w k. tt)
        (λ e₁ s₁ step.
          Post-weaken (EditedAll m e₁ path s₁) Anything (EditedAll ((p, b) ∷ m) e path s) Anything _
            (edit_paths-EditedAll m e₁ path s₁ (step.wrote.store.opened_same ∙ h) u.1
              (AllApart-tail p b m path a))
            (λ x w k. tt)
            (λ e' s' all. record {
              wrote = Wrote-trans gix step.wrote all.wrote;
              shows =
                  Shows-step p b m path e e₁ e' s s₁ s' u.0 (AllApart-head p b m path a) step
                    all.wrote
                    (subst (λ (d : DirMailStore). Shows d.disk.tree s'.repo e₁ e' path (get m path))
                      step.wrote.store.inner_same all.shows);
            }))
