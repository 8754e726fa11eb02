-- ===== src/Stores/Git/Laws.antt =====
-- stores/git.rs: what the store relies on of the crate `gix`.
use mail_backup.Base.{false, Option, none, some, Text, Bytes, ok, Post, ◌≡◌, ◌≢◌}
use mail_backup.Stores.Disk.{under}
use mail_backup.Stores.Git.{Commit, Gix}

module _ {G E : Type 0} (gix : Gix G E) where
  -- A write of objects other than commits; it moves no reference.
  pub record Extends (g g' : G) : Type 0 where
    pub head_same : gix.head_id g' ≡ gix.head_id g
    pub name_same : gix.head_name g' ≡ gix.head_name g
    pub commits_same : (id : Text) → gix.find_commit g' id ≡ gix.find_commit g id
    pub objects_stay :
        (id : Text) (b : Bytes) → gix.find_object g id ≡ ok b → gix.find_object g' id ≡ ok b

  -- A call that changes neither trees nor files.
  pub record SameTrees (entry : G → Text → Text → Option Text) (g g' : G) : Type 0 where
    pub entries_same : (tree path : Text) → entry g' tree path ≡ entry g tree path
    pub objects_stay :
        (id : Text) (b : Bytes) → gix.find_object g id ≡ ok b → gix.find_object g' id ≡ ok b

  -- `entry` is the object at a path of a tree, and `listed` that of a tree being edited. An edit of a
  -- path leaves the paths that are neither above nor below it.
  pub record IsGix (entry : G → Text → Text → Option Text) (listed : E → Text → Option Text)
      : Type 0 where
    pub edit_tree_lem :
        (tree : Text) (g : G) (e : E)
        → gix.edit_tree tree g ≡ ok e
        → (path : Text) → listed e path ≡ entry g tree path
    pub upsert_entry_lem :
        (path id : Text) (e e' : E) → gix.upsert_entry path id e ≡ ok e' → listed e' path ≡ some id
    pub upsert_entry_apart :
        (path id : Text) (e e' : E)
        → gix.upsert_entry path id e ≡ ok e'
        → (other : Text) → path ≢ other
        → under path other ≡ false
        → under other path ≡ false
        → listed e' other ≡ listed e other
    pub remove_entry_lem :
        (path : Text) (e e' : E) → gix.remove_entry path e ≡ ok e' → listed e' path ≡ none
    pub remove_entry_apart :
        (path : Text) (e e' : E)
        → gix.remove_entry path e ≡ ok e'
        → (other : Text) → path ≢ other
        → under path other ≡ false
        → under other path ≡ false
        → listed e' other ≡ listed e other
    pub write_blob_lem :
        (b : Bytes) (g : G)
        → Post
            (λ id g'. Extends g g' × (gix.find_object g' id ≡ ok b))
            (λ x g'. Unit {0})
            (gix.write_blob b g)
    pub write_tree_lem :
        (e : E) (g : G)
        → Post
            (λ tree g'. Extends g g' × ((path : Text) → entry g' tree path ≡ listed e path))
            (λ x g'. Unit {0})
            (gix.write_tree e g)
    pub commit_as_lem :
        (c : Commit) (g : G)
        → Post
            (λ id g'.
              SameTrees entry g g' × (gix.head_id g' ≡ ok id) × (gix.find_commit g' id ≡ ok c))
            (λ x g'. Unit {0})
            (gix.commit_as c g)
    pub new_commit_as_lem :
        (c : Commit) (g : G)
        → Post
            (λ id g'. SameTrees entry g g' × (gix.find_commit g' id ≡ ok c))
            (λ x g'. Unit {0})
            (gix.new_commit_as c g)
    -- The branch of the HEAD is moved.
    pub edit_reference_lem :
        (branch old new : Text) (g : G)
        → gix.head_name g ≡ ok (some branch)
        → Post
            (λ u g'.
              SameTrees entry g g'
              × (gix.head_id g' ≡ ok new)
              × ((c : Commit) → gix.find_commit g new ≡ ok c → gix.find_commit g' new ≡ ok c))
            (λ x g'. Unit {0})
            (gix.edit_reference branch old new g)
    -- The index of the worktree is apart from all this.
    pub refresh_index_lem :
        (tree : Text) (g : G)
        → Extends g (gix.refresh_index tree g).1 × SameTrees entry g (gix.refresh_index tree g).1
