-- ===== src/Stores/Git/Examples.antt =====
-- A small repository in place of the crate `gix`, and the theorems about the git store at it.
use mail_backup.Base.{
  true, false, Option, none, some, [], ◌∷◌, Text, codes, system, Result, ok, err, Error, Post,
  Dictionary, get, put, erase, get-put, get-erase, length, is_some, ◌==◌, nat_eq, list_eq, eq_iff,
  eq_refl, list_beq, option_beq, contains, strip_prefix, Bool-cases, subst, inl, inr, if◌then◌else◌,
  ◌≡◌, refl, ap, arith,
}
use mail_backup.Base.Codec.{
  Codec, read_many, text_codec, list_codec, pair_codec, write_whole, read_whole,
  read_whole-write_whole,
}
use mail_backup.Externals.{Externals}
use mail_backup.Stores.{Checkpoint, live, messages_received, upsert}
use mail_backup.Stores.Laws.{IsStore}
use mail_backup.Stores.Disk.{under, with_extension}
use mail_backup.Stores.Persistence.{fresh_state, write_atomic}
use mail_backup.Stores.Index.{empty_store}
use mail_backup.Stores.Directory.Running.Store.{saved_progress}
use mail_backup.Stores.Examples.Formats.{yaml, json, json-IsJson}
use mail_backup.Stores.Git.{Commit, Gix, GitMailStore}
use mail_backup.Stores.Git.Laws.{Extends, SameTrees, IsGix}
use mail_backup.Stores.Git.Finals.{last_edit}
use mail_backup.Stores.Git.Tree.{EditsApart}
use mail_backup.Stores.Git.Commits.{checkpoint, git_store}
use mail_backup.Stores.Git.Committed.{Committed, checkpoint-Committed}
use mail_backup.Stores.Git.Opening.{open_store}
use mail_backup.Stores.Git.Opening.Trusted.{Trusted, open_store-Trusted}
use mail_backup.Stores.Git.Store.{git_store-IsStore}

record Repo : Type 0 where
  head : Option Text
  commits : Dictionary Commit

abbrev missing : Error
missing = record { kind = system; what = "missing" }

abbrev or_missing : {A : Type 0} → Option A → Result A Error
or_missing none = err missing
or_missing (some a) = ok a

-- A tree is the list of its files, and its id is that list in bytes.
abbrev Files : Type 0
Files = Dictionary Text

abbrev files_codec : Codec Files
files_codec = list_codec (pair_codec text_codec text_codec)

abbrev entry : Repo → Text → Text → Option Text
entry g tree path = elim (read_whole files_codec tree) [ none ↦ none | some e ↦ get e path ]

abbrev commit_id : Repo → Text
commit_id g = length g.commits ∷ []

abbrev with_commit : Commit → Repo → Repo
with_commit c g = record g { commits = put g.commits (commit_id g) c }

abbrev tree_of : Option Commit → Result Text Error
tree_of none = err missing
tree_of (some c) = ok c.tree

-- The id of a blob is its content.
abbrev gix : Gix Repo Files
gix = record {
  exists = λ g. is_some g.head;
  init = λ g. (ok tt, g);
  open_repository = λ g. (ok tt, g);
  has_committer = λ g. true;
  set_config = λ settings g. (ok tt, g);
  head_id = λ g. or_missing g.head;
  head_tree_id = λ g. elim g.head [ none ↦ err missing | some id ↦ tree_of (get g.commits id) ];
  empty_tree = write_whole files_codec [];
  head_name = λ g. ok (some (codes "main"));
  find_tree = λ g id. ok [];
  find_object = λ g id. ok id;
  find_commit = λ g id. or_missing (get g.commits id);
  write_blob = λ b g. (ok b, g);
  edit_tree = λ tree g. or_missing (read_whole files_codec tree);
  upsert_entry = λ path id e. ok (put e path id);
  remove_entry = λ path e. ok (erase e path);
  write_tree = λ e g. (ok (write_whole files_codec e), g);
  commit_as = λ c g. (ok (commit_id g), record (with_commit c g) { head = some (commit_id g) });
  new_commit_as = λ c g. (ok (commit_id g), with_commit c g);
  edit_reference = λ branch old new g. (ok tt, record g { head = some new });
  refresh_index = λ tree g. (ok tt, g);
}

same_trees : (g g' : Repo) → SameTrees gix entry g g'
same_trees g g' = record { entries_same = λ t p. refl; objects_stay = λ id b h. h }

extends : (g : Repo) → Extends gix g g
extends g = record {
  head_same = refl;
  name_same = refl;
  commits_same = λ id. refl;
  objects_stay = λ id b h. h;
}

read-edit :
    (o : Option Files) (e : Files) (path : Text)
    → or_missing o ≡ ok e
    → get e path ≡ elim o as (λ x. Option Text) [ none ↦ none | some e' ↦ get e' path ]
read-edit none e path h = absurd (ground arith)
read-edit (some e') e path h = ground arith

put-ok :
    (path id : Text) (e e' : Files) (other : Text)
    → (let r : Result Files Error = ok (put e path id) in r ≡ ok e')
    → get e' other ≡ (if path == other then some id else get e other)
put-ok path id e e' other h = ground (arith, get-put e path other id)

erase-ok :
    (path : Text) (e e' : Files) (other : Text)
    → (let r : Result Files Error = ok (erase e path) in r ≡ ok e')
    → get e' other ≡ (if path == other then none else get e other)
erase-ok path e e' other h = ground (arith, get-erase e path other)

found_again :
    (c : Commit) (g : Repo) → or_missing (get (put g.commits (commit_id g) c) (commit_id g)) ≡ ok c
found_again c g =
    ground (arith, get-put g.commits (commit_id g) (commit_id g) c, eq_refl (commit_id g))

gix-IsGix : IsGix gix entry get
gix-IsGix = record {
  edit_tree_lem = λ tree g e h path. read-edit (read_whole files_codec tree) e path h;
  upsert_entry_lem = λ path id e e' h. ground (arith, put-ok path id e e' path, eq_refl path);
  upsert_entry_apart =
      λ path id e e' h other n a b. ground (arith, put-ok path id e e' other, eq_iff path other);
  remove_entry_lem = λ path e e' h. ground (arith, erase-ok path e e' path, eq_refl path);
  remove_entry_apart =
      λ path e e' h other n a b. ground (arith, erase-ok path e e' other, eq_iff path other);
  write_blob_lem = λ b g. (extends g, refl);
  write_tree_lem = λ e g. (
    extends g,
    λ path.
        ap
          (λ (o : Option Files). elim o as (λ x. Option Text) [ none ↦ none | some f ↦ get f path ])
          (read_whole-write_whole files_codec e),
  );
  commit_as_lem = λ c g. (same_trees g _, refl, found_again c g);
  new_commit_as_lem = λ c g. (same_trees g _, found_again c g);
  edit_reference_lem = λ branch old new g h. (same_trees g _, refl, λ c k. k);
  refresh_index_lem = λ tree g. (extends g, same_trees g g);
}

abbrev plain : Externals
plain = record {
  sha256_hex = λ b. b;
  nfc = λ t. t;
  to_lowercase = λ t. t;
  as_bytes = λ t. t;
  format_instant = λ n. [];
  format_rfc3339 = λ n. [];
  format_day = λ n. [];
}

abbrev path : Text
path = codes "a/b.eml"

-- A store with a file that is not committed yet.
abbrev written : GitMailStore Repo
written = record {
  inner = record {
    disk = record {
      tree = (path, 1 ∷ []) ∷ [];
      dirs = codes "a" ∷ [];
      state_dir = [];
      faults = [];
    };
    state = fresh_state;
    index = empty_store;
    path_edits = [];
    opened = true;
  };
  repo = record { head = none; commits = [] };
  opened = true;
  commit_name = codes "n";
  commit_email = codes "e";
  pending = upsert path ∷ [];
  now = 100;
}

abbrev today : Checkpoint
today = record { date = 0; kind = live; description = messages_received 1 }

only_path : EditsApart gix entry get gix-IsGix written.pending path
unfolding last_edit list_beq strip_prefix
only_path p h = elim (Bool-cases (path == p)) [
  | inl e ↦
      subst (λ q. (under q path ≡ false) × (under path q ≡ false)) ((eq_iff path p).0 e)
        (refl, refl)
  | inr e ↦ absurd (ground arith)
]

checkpoint-Committed_example :
    Post
      (Committed gix entry get gix-IsGix today path written json)
      (λ x s. Unit {0})
      (checkpoint gix json today written)
checkpoint-Committed_example =
    checkpoint-Committed gix entry get gix-IsGix today path written json json-IsJson refl only_path

-- The checkpoint succeeds, and makes the first commit.
checkpoint_commits : (checkpoint gix json today written).1.repo.head ≡ some (0 ∷ [])
unfolding checkpoint read_many put get list_beq option_beq write_atomic with_extension contains
    erase
checkpoint_commits = refl

git_store-IsStore_example :
    IsStore (git_store gix plain yaml json 9) (λ s. saved_progress json s.inner)
git_store-IsStore_example = git_store-IsStore gix json json-IsJson plain yaml 9

open_store-Trusted_example :
    Post (Trusted gix json yaml 9) (λ x s. Unit {0}) (open_store gix json yaml 9 written)
open_store-Trusted_example = open_store-Trusted gix json yaml 9 written
