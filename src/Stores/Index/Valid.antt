-- ===== src/Stores/Index/Valid.antt =====
-- stores/index.rs: the two keys of the index agree.
use mail_backup.Base.{
  none, some, Text, get, get-put, get-erase, ◌==◌, nat_eq, list_eq, eq_iff, eq_refl, ◌≡◌, ◌≢◌, refl,
  sym, ◌∙◌, ◌⊎◌, inl, inr, Option-cases, Bool-cases, arith, if◌then◌else◌,
}
use mail_backup.Stores.{StoredMessage}
use mail_backup.Stores.Index.{
  StoreIndex, forget_path, insert_message, remove_message, get_message, path_owner,
}

-- Every message is found under its own id and owns its path, and every path belongs to a message
-- that is there; so no two messages share a path.
pub record IsValid (index : StoreIndex) : Type 0 where
  pub keyed : (id : Text) (m : StoredMessage) → get_message index id ≡ some m → m.meta.id ≡ id
  pub owns :
      (id : Text) (m : StoredMessage)
      → get_message index id ≡ some m
      → path_owner index m.path ≡ some id
  pub owned :
      (path id : Text)
      → path_owner index path ≡ some id
      → (m : StoredMessage) × (get_message index id ≡ some m) × (m.path ≡ path)

-- After the path of `id` is forgotten, it is nobody's, and every other path is whose it was.
forget_path_own :
    (index : StoreIndex) (id path : Text)
    → IsValid index
    → path_owner index path ≡ some id
    → get (forget_path index id) path ≡ none
unfolding forget_path path_owner get_message
forget_path_own index id path h e =
    let (m, found, at) = h.owned path id e in
    ground (arith, found, at, get-erase index.by_path m.path path, eq_refl path)

forget_path_other :
    (index : StoreIndex) (id path : Text)
    → IsValid index
    → path_owner index path ≢ some id
    → get (forget_path index id) path ≡ path_owner index path
unfolding forget_path path_owner get_message
forget_path_other index id path h ne = elim (Option-cases (get index.emails id)) [
  | inl absent ↦ ground arith
  | inr (m, found) ↦
      ground
        (arith, found, h.owns id m found, get-erase index.by_path m.path path, eq_iff m.path path)
]

-- A path that still has an owner had it before, and the owner is another.
forgotten :
    (index : StoreIndex) (id path other : Text)
    → IsValid index
    → get (forget_path index id) path ≡ some other
    → (path_owner index path ≡ some other) × (other ≢ id)
forgotten index id path other h e = elim (Option-cases (path_owner index path)) [
  | inl nobody ↦ absurd (ground (arith, forget_path_other index id path h))
  | inr (a, owner) ↦ elim (Bool-cases (a == id)) [
    | inl same ↦ absurd (ground (arith, eq_iff a id, forget_path_own index id path h))
    | inr apart ↦ ground (arith, eq_iff a id, forget_path_other index id path h)
  ]
]

-- The path is nobody's, or the message's own.
abbrev pub IsFree : StoreIndex → Text → Text → Type 0
IsFree index id path = (path_owner index path ≡ none) ⊎ (path_owner index path ≡ some id)

module _ (index : StoreIndex) (m : StoredMessage) where
  pub get_message-insert_message :
      (id : Text)
      → get_message (insert_message index m) id
        ≡ (if m.meta.id == id then some m else get_message index id)
  unfolding get_message insert_message
  get_message-insert_message id = get-put index.emails m.meta.id id m

  path_owner-insert_message :
      (path : Text)
      → path_owner (insert_message index m) path
        ≡ (if m.path == path then some m.meta.id else get (forget_path index m.meta.id) path)
  unfolding path_owner insert_message
  path_owner-insert_message path = get-put (forget_path index m.meta.id) m.path path m.meta.id

  inserted_keyed :
      IsValid index
      → (id : Text) (n : StoredMessage) → get_message (insert_message index m) id ≡ some n
      → n.meta.id ≡ id
  inserted_keyed h id n e =
      ground (arith, get_message-insert_message id, eq_iff m.meta.id id, h.keyed id n)

  inserted_owns :
      IsValid index
      → IsFree index m.meta.id m.path
      → (id : Text) (n : StoredMessage) → get_message (insert_message index m) id ≡ some n
      → path_owner (insert_message index m) n.path ≡ some id
  inserted_owns h free id n e = elim (Bool-cases (m.meta.id == id)) [
    | inl same ↦ ground (
      arith,
      get_message-insert_message id,
      eq_iff m.meta.id id,
      path_owner-insert_message n.path,
      eq_refl n.path,
    )
    | inr other ↦ ground (
      arith,
      get_message-insert_message id,
      eq_iff m.meta.id id,
      h.owns id n,
      path_owner-insert_message n.path,
      eq_iff m.path n.path,
      forget_path_other index m.meta.id n.path h,
      free,
    )
  ]

  inserted_owned :
      IsValid index
      → (path id : Text) → path_owner (insert_message index m) path ≡ some id
      → (n : StoredMessage) × (get_message (insert_message index m) id ≡ some n) × (n.path ≡ path)
  inserted_owned h path id e = elim (Bool-cases (m.path == path)) [
    | inl same ↦ (
      m,
      ground (
        arith,
        path_owner-insert_message path,
        get_message-insert_message id,
        eq_iff m.meta.id id,
      ),
      ground (arith, eq_iff m.path path),
    )
    | inr other ↦
        let (before, apart) =
          forgotten index m.meta.id path id h (ground (arith, path_owner-insert_message path)) in
        let (n, found, at) = h.owned path id before in
        (n, ground (arith, get_message-insert_message id, eq_iff m.meta.id id), at)
  ]

  -- To insert a message whose path is free or its own, in place of its former copy if there is one,
  -- keeps the two keys in agreement.
  pub insert_message-IsValid :
      IsValid index → IsFree index m.meta.id m.path → IsValid (insert_message index m)
  insert_message-IsValid h free = record {
    keyed = inserted_keyed h;
    owns = inserted_owns h free;
    owned = inserted_owned h;
  }

module _ (index : StoreIndex) (id : Text) where
  pub get_message-remove_message :
      (j : Text)
      → get_message (remove_message index id).1 j ≡ (if id == j then none else get_message index j)
  unfolding get_message remove_message
  get_message-remove_message j = get-erase index.emails id j

  path_owner-remove_message :
      (path : Text) → path_owner (remove_message index id).1 path ≡ get (forget_path index id) path
  unfolding path_owner remove_message
  path_owner-remove_message path = refl

  removed_owned :
      IsValid index
      → (path j : Text) → path_owner (remove_message index id).1 path ≡ some j
      → (n : StoredMessage) × (get_message (remove_message index id).1 j ≡ some n) × (n.path ≡ path)
  removed_owned h path j e =
      let (before, apart) =
        forgotten index id path j h (sym (path_owner-remove_message path) ∙ e) in
      let (n, found, at) = h.owned path j before in
      (n, ground (arith, get_message-remove_message j, eq_iff id j), at)

  removed_owns :
      IsValid index
      → (j : Text) (n : StoredMessage) → get_message (remove_message index id).1 j ≡ some n
      → path_owner (remove_message index id).1 n.path ≡ some j
  removed_owns h j n e = ground (
    arith,
    get_message-remove_message j,
    eq_iff id j,
    h.owns j n,
    path_owner-remove_message n.path,
    forget_path_other index id n.path h,
  )

  -- To remove a message keeps the two keys in agreement, and the message is no longer found.
  pub remove_message-IsValid :
      IsValid index
      → IsValid (remove_message index id).1 × (get_message (remove_message index id).1 id ≡ none)
  remove_message-IsValid h = (valid, ground (arith, get_message-remove_message id, eq_refl id))
    where
      valid : IsValid (remove_message index id).1
      valid = record {
        keyed = λ j n e. ground (arith, get_message-remove_message j, eq_iff id j, h.keyed j n);
        owns = removed_owns h;
        owned = removed_owned h;
      }
