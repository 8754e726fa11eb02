-- ===== src/Stores/Git/Tree.antt =====
-- stores/git.rs: the tree that a checkpoint builds, `build_tree`.
use mail_backup.Base.{
  Bool, true, false, Option, none, some, List, [], ◌∷◌, Text, Bytes, Result, ok, err, Error, Post,
  Post-after, Post-weaken, is_some, is_empty, nat_eq, list_eq, if◌then◌else◌, Dictionary, get,
  subst, pure, lift, ◌>>=◌, ◌≡◌, refl, ◌∙◌, arith,
}
use mail_backup.Stores.{PathEdit}
use mail_backup.Stores.Directory.{DirMailStore}
use mail_backup.Stores.Git.{
  Gix, GitMailStore, repository, head_tree_id, tree_of_head, finals, signature,
}
use mail_backup.Stores.Git.Laws.{Extends, SameTrees, IsGix}
use mail_backup.Stores.Git.Steps.{
  Extends-refl, Wrote, Wrote-refl, Wrote-trans, Wrote-repo, Post-repository, repository-reads,
}
use mail_backup.Stores.Git.Commits.{edit_paths, build_tree, snapshot_tree}
use mail_backup.Stores.Git.Finals.{last_edit, get-finals, finals-Unique}
use mail_backup.Stores.Git.Edits
use mail_backup.Stores.Git.Edits.{EditedAll, edit_paths-EditedAll}

module _ {G E : Type 0} (gix : Gix G E) (entry : G → Text → Text → Option Text)
    (listed : E → Text → Option Text) (laws : IsGix gix entry listed) where
  abbrev Anything : Error → GitMailStore G → Type 0
  Anything = Edits.Anything gix entry listed laws

  abbrev Files : GitMailStore G → Dictionary Bytes
  Files = Edits.Files gix entry listed laws

  abbrev Apart : Text → Text → Type 0
  Apart = Edits.Apart gix entry listed laws

  abbrev Shows : Dictionary Bytes → G → E → E → Text → Option Bool → Type 0
  Shows = Edits.Shows gix entry listed laws

  -- What a checkpoint's tree has at a path: the file on the disk where the last edit wrote it, nothing
  -- where it removed it, and what the former tree had where no edit is of this path.
  abbrev pub AtPath : Dictionary Bytes → G → G → Text → Text → Text → Option Bool → Type 0
  AtPath files g g' old tree path none = entry g' tree path ≡ entry g old path
  AtPath files g g' old tree path (some true) =
      (id : Text) × (content : Bytes) × (entry g' tree path ≡ some id)
      × (gix.find_object g' id ≡ ok content)
      × (get files path ≡ some content)
  AtPath files g g' old tree path (some false) = entry g' tree path ≡ none

  pub AtPath-later :
      (files : Dictionary Bytes) (g g₁ g' : G) (old tree path : Text) (o : Option Bool)
      → SameTrees gix entry g₁ g'
      → AtPath files g g₁ old tree path o
      → AtPath files g g' old tree path o
  AtPath-later files g g₁ g' old tree path none t h = t.entries_same tree path ∙ h
  AtPath-later files g g₁ g' old tree path (some true) t (id, content, l, o, f) =
      (id, content, t.entries_same tree path ∙ l, t.objects_stay id content o, f)
  AtPath-later files g g₁ g' old tree path (some false) t h = t.entries_same tree path ∙ h

  AtPath-intro :
      (files : Dictionary Bytes) (g g₁ g' : G) (e e' : E) (old tree path : Text) (o : Option Bool)
      → listed e path ≡ entry g old path
      → Extends gix g₁ g'
      → entry g' tree path ≡ listed e' path
      → Shows files g₁ e e' path o
      → AtPath files g g' old tree path o
  AtPath-intro files g g₁ g' e e' old tree path none was x h k = h ∙ k ∙ was
  AtPath-intro files g g₁ g' e e' old tree path (some true) was x h (id, content, l, o, f) =
      (id, content, h ∙ l, x.objects_stay id content o, f)
  AtPath-intro files g g₁ g' e e' old tree path (some false) was x h k = h ∙ k

  -- What holds of the tree of a checkpoint, and of the store after it was built.
  abbrev pub Built : GitMailStore G → Text → Text → GitMailStore G → Type 0
  Built s path tree s' =
      Wrote gix s s'
      × AtPath (Files s) s.repo s'.repo (tree_of_head gix s.repo) tree path
          (last_edit s.pending path)

  abbrev pub EditsApart : List PathEdit → Text → Type 0
  EditsApart es path = (p : Text) → is_some (last_edit es p) ≡ true → Apart p path

  AllApart-finals :
      (es : List PathEdit) (path : Text)
      → EditsApart es path
      → Edits.AllApart gix entry listed laws (finals es []) path
  unfolding get
  AllApart-finals es path h p k = h p (ground (arith, get-finals es [] p))

  finals-last_edit :
      (es : List PathEdit) (path : Text) → get (finals es []) path ≡ last_edit es path
  unfolding get
  finals-last_edit es path = ground (arith, get-finals es [] path)

  Wrote-drained : (s : GitMailStore G) → Wrote gix s (record s { pending = [] })
  unfolding signature
  Wrote-drained s = record {
    store = record { inner_same = refl; opened_same = refl; now_same = refl; by_same = λ t. refl };
    repo = Extends-refl gix s.repo;
  }

  write_tree-Built :
      (path : Text) (s s₀ s₁ : GitMailStore G) (e e' : E)
      → s₁.opened ≡ true
      → Wrote gix s s₁
      → listed e path ≡ entry s.repo (tree_of_head gix s.repo) path
      → Shows (Files s) s₁.repo e e' path (last_edit s.pending path)
      → Post (Built s path) Anything (repository gix (gix.write_tree e') s₁)
  write_tree-Built path s s₀ s₁ e e' h w was shows =
      Post-repository gix (Built s path) Anything (gix.write_tree e') s₁ h (
        Post-weaken (λ tree g. Extends gix s₁.repo g × ((p : Text) → entry g tree p ≡ listed e' p))
          (λ x g. Unit {0}) (λ tree g. Built s path tree (record s₁ { repo = g })) (λ x g. Unit {0})
          (gix.write_tree e' s₁.repo) (laws.write_tree_lem e' s₁.repo) (λ x g k. tt)
          (λ tree g k. (
            Wrote-trans gix w (Wrote-repo gix s₁ g k.0),
            AtPath-intro (Files s) s.repo s₁.repo g e e' (tree_of_head gix s.repo) tree path
                (last_edit s.pending path) was k.0 (k.1 path) shows,
          )))

  edits-Built :
      (path : Text) (s s₀ : GitMailStore G)
      → s₀.opened ≡ true
      → Wrote gix s s₀
      → EditsApart s.pending path
      → (r : Result E Error) → gix.edit_tree (tree_of_head gix s.repo) s.repo ≡ r
      → Post (Built s path) Anything (
          (lift r >>= λ editor. edit_paths gix (finals s.pending []) editor >>= λ edited.
          repository gix (gix.write_tree edited))
            s₀)
  edits-Built path s s₀ h w a (err x) k = tt
  edits-Built path s s₀ h w a (ok e) k =
      Post-after (EditedAll gix entry listed laws (finals s.pending []) e path s₀) Anything
        (Built s path) Anything _ _
        (edit_paths-EditedAll gix entry listed laws (finals s.pending []) e path s₀ h
          (finals-Unique s.pending [] tt) (AllApart-finals s.pending path a))
        (λ x t m. tt)
        (λ e' s₁ all.
          write_tree-Built path s s₀ s₁ e e' (all.wrote.store.opened_same ∙ h)
            (Wrote-trans gix w all.wrote)
            (laws.edit_tree_lem (tree_of_head gix s.repo) s.repo e k path)
            (subst (Shows (Files s) s₁.repo e e' path) (finals-last_edit s.pending path) (
              subst
                (λ (d : DirMailStore).
                  Shows d.disk.tree s₁.repo e e' path (get (finals s.pending []) path))
                w.store.inner_same all.shows)))

  build_tree-Built :
      (path : Text) (s : GitMailStore G)
      → s.opened ≡ true
      → EditsApart s.pending path
      → Post (Built s path) Anything (build_tree gix s)
  unfolding build_tree head_tree_id
  build_tree-Built path s h a =
      let start = record s { pending = [] } in
      rw (repository-reads gix (tree_of_head gix) start h) (
        rw (repository-reads gix (gix.edit_tree (tree_of_head gix s.repo)) start h) (
          edits-Built path s start h (Wrote-drained s) a
            (gix.edit_tree (tree_of_head gix s.repo) s.repo) refl))

  pub snapshot_tree-Built :
      (path : Text) (s : GitMailStore G)
      → s.opened ≡ true
      → EditsApart s.pending path
      → Post (Built s path) Anything (snapshot_tree gix (tree_of_head gix s.repo) s)
  unfolding snapshot_tree last_edit
  snapshot_tree-Built path s h a = chosen s.pending refl
    where
      chosen :
          (es : List PathEdit)
          → s.pending ≡ es
          → Post
              (Built s path)
              Anything
              ((if is_empty es then pure (tree_of_head gix s.repo) else build_tree gix) s)
      chosen [] e = (Wrote-refl gix s, rw (e, last_edit) refl)
      chosen (edit ∷ es) e = build_tree-Built path s h a
