-- ===== src/Restore/Mailboxes/Resolving.antt =====
-- restore/mod.rs: the mailboxes that messages resolve to, and that these are needed.
use mail_backup.Base.{
  ℕ, zero, suc, ◌<◌, Bool, true, not, ◌&&◌, ◌||◌, Option, none, some, List, [], ◌∷◌, Text, filter,
  any, All, length, contains, is_some, is_empty, Dictionary, get, put, get-put, eq_iff, eq_refl,
  ◌==◌, nat_eq, list_eq, if◌then◌else◌, ◌≡◌, refl, ◌∙◌, ap, arith, Bool-cases, Option-cases, inl,
  inr, ◌⊎◌, contains-append, any-sort,
}
use mail_backup.Entities.{MailboxRecord, MailboxIndex, empty_index, find, insert, parent_of}
use mail_backup.Stores.{StoredMessage}
use mail_backup.Stores.Disk.{parent}
use mail_backup.Restore.{index_of, ordered, unfiled_archive_id}
use mail_backup.Restore.Selecting.{
  by_dir, resolve, is_unfiled, needed_by, add, add_all, climb, with_ancestors,
}

-- Whether the archive has a mailbox of this id.
abbrev pub has : Text → List MailboxRecord → Bool
has id rs = any (λ r. r.info.id == id) rs

has-index_of :
    (rs : List MailboxRecord) (index : MailboxIndex) (id : Text)
    → is_some (find (index_of rs index) id) ≡ true
    → (has id rs || is_some (find index id)) ≡ true
unfolding index_of find insert
has-index_of [] index id h = h
has-index_of (r ∷ rs) index id h =
    ground (arith, has-index_of rs (insert index r) id, get-put index.boxes r.info.id id r)

has-by_dir :
    (rs : List MailboxRecord) (m : Dictionary Text) (dir id : Text)
    → get (by_dir rs m) dir ≡ some id
    → (has id rs ≡ true) ⊎ (get m dir ≡ some id)
unfolding by_dir
has-by_dir [] m dir id h = inr h
has-by_dir (r ∷ rs) m dir id h = elim (has-by_dir rs (put m r.dir_path r.info.id) dir id h) [
  | inl k ↦ inl (ground arith)
  | inr k ↦ elim (Bool-cases (r.dir_path == dir)) [
    | inl e ↦ inl (ground (arith, get-put m r.dir_path dir r.info.id, eq_iff r.info.id id))
    | inr e ↦ inr (ground (arith, get-put m r.dir_path dir r.info.id))
  ]
]

none_get : (dir id : Text) → get {V = Text} [] dir ≡ some id → ⊥
unfolding get
none_get dir id h = ground arith

contains-add :
    (set : List Text) (a id : Text) → contains (add set a) id ≡ (contains set id || (a == id))
unfolding contains
contains-add set a id = ground (arith, contains-append set (a ∷ []) id, eq_iff a id)

contains-add_all :
    (set ids : List Text) (id : Text)
    → contains (add_all set ids) id ≡ (contains set id || contains ids id)
unfolding contains
contains-add_all set [] id = ground arith
contains-add_all set (a ∷ ids) id =
    ground (arith, contains-add_all (add set a) ids id, contains-add set a id)

climb-contains :
    (rounds : ℕ) (index : MailboxIndex) (r : Option MailboxRecord) (set all : List Text) (id : Text)
    → climb rounds index r set ≡ some all
    → contains set id ≡ true
    → contains all id ≡ true
unfolding climb
climb-contains zero index none set all id h k = ground arith
climb-contains (suc n) index none set all id h k = ground arith
climb-contains zero index (some r) set all id h k = absurd (ground arith)
climb-contains (suc n) index (some r) set all id h k = elim (Option-cases (parent_of index r)) [
  | inl e ↦ climb-contains n index none set all id (ground arith) k
  | inr (p, e) ↦
      climb-contains n index (some p) (add set p.info.id) all id (ground arith)
        (ground (arith, contains-add set p.info.id id))
]

pub with_ancestors-contains :
    (rounds : ℕ) (index : MailboxIndex) (ids set all : List Text) (id : Text)
    → with_ancestors rounds index ids set ≡ some all
    → contains set id ≡ true
    → contains all id ≡ true
unfolding with_ancestors
with_ancestors-contains rounds index [] set all id h k = ground arith
with_ancestors-contains rounds index (a ∷ ids) set all id h k =
    elim (Option-cases (climb rounds index (find index a) set)) [
      | inl e ↦ absurd (ground arith)
      | inr (next, e) ↦
          with_ancestors-contains rounds index ids next all id (ground arith)
            (climb-contains rounds index (find index a) set next id e k)
    ]

has-filter :
    (needed : List Text) (rs : List MailboxRecord) (id : Text)
    → has id rs ≡ true
    → contains needed id ≡ true
    → has id (filter (λ r. contains needed r.info.id) rs) ≡ true
has-filter needed [] id h k = absurd (ground arith)
has-filter needed (r ∷ rs) id h k = elim (Bool-cases (r.info.id == id)) [
  | inl e ↦
      let same : contains needed r.info.id ≡ true =
        ap (contains needed) ((eq_iff r.info.id id).0 e) ∙ k in
      rw same (ground arith)
  | inr e ↦ ground (arith, has-filter needed rs id (ground arith) k)
]

pub has-ordered :
    (rs : List MailboxRecord) (needed : List Text) (id : Text)
    → has id rs ≡ true
    → contains needed id ≡ true
    → has id (ordered rs needed) ≡ true
unfolding ordered
has-ordered rs needed id h k = any-sort _ _ _ ∙ has-filter needed rs id h k

-- A mailbox that a message resolves to: the archive's, or the one for messages without one.
abbrev pub Resolved : List MailboxRecord → Bool → Text → Type 0
Resolved rs unfiled id = (has id rs ≡ true) ⊎ ((id ≡ unfiled_archive_id) × (unfiled ≡ true))

known-Resolved :
    (rs : List MailboxRecord) (unfiled : Bool) (ids : List Text)
    → All (Resolved rs unfiled) (filter (λ id. is_some (find (index_of rs empty_index) id)) ids)
unfolding find get
known-Resolved rs unfiled [] = tt
known-Resolved rs unfiled (id ∷ ids) =
    elim (Bool-cases (is_some (find (index_of rs empty_index) id))) [
      | inl e ↦
          rw e (inl (ground (arith, has-index_of rs empty_index id)), known-Resolved rs unfiled ids)
      | inr e ↦ rw e (known-Resolved rs unfiled ids)
    ]

-- What a message resolves to, and that there is something.
pub resolve-Resolved :
    (rs : List MailboxRecord) (m : StoredMessage) (unfiled : Bool)
    → (is_unfiled (index_of rs empty_index) (by_dir rs []) m ≡ true → unfiled ≡ true)
    → All (Resolved rs unfiled) (resolve (index_of rs empty_index) (by_dir rs []) m)
      × (0 < length (resolve (index_of rs empty_index) (by_dir rs []) m))
unfolding resolve is_unfiled
resolve-Resolved rs m unfiled h =
    go (filter (λ id. is_some (find (index_of rs empty_index) id)) m.meta.mailbox_ids)
      (known-Resolved rs unfiled m.meta.mailbox_ids) (get (by_dir rs []) (parent m.path)) refl h
  where
    go :
        (known : List Text)
        → All (Resolved rs unfiled) known
        → (o : Option Text) → get (by_dir rs []) (parent m.path) ≡ o
        → ((is_empty known && not (is_some o)) ≡ true → unfiled ≡ true)
        → (let ids : List Text =
              (if is_empty known
                then elim o [ some id ↦ id ∷ [] | none ↦ unfiled_archive_id ∷ [] ]
                else known) in
            All (Resolved rs unfiled) ids × (0 < length ids))
    go (id ∷ ids) k o e u = (k, omega arith)
    go [] k none e u = ((inr (refl, u refl), tt), omega arith)
    go [] k (some id) e u = ((dir id e, tt), omega arith)
      where
        dir : (id : Text) → get (by_dir rs []) (parent m.path) ≡ some id → Resolved rs unfiled id
        dir id e = elim (has-by_dir rs [] (parent m.path) id e) [
          | inl k ↦ inl k
          | inr k ↦ absurd (none_get (parent m.path) id k)
        ]

All-contains :
    (P : Text → Type 0) (ids : List Text)
    → ((id : Text) → contains ids id ≡ true → P id)
    → All P ids
unfolding contains
All-contains P [] h = tt
All-contains P (a ∷ ids) h =
    (h a (ground (arith, eq_refl a)), All-contains P ids (λ id k. h id (ground arith)))

needed_by-contains :
    (index : MailboxIndex) (dirs : Dictionary Text) (ms : List StoredMessage) (set : List Text)
    (id : Text)
    → contains set id ≡ true
    → contains (needed_by index dirs ms set) id ≡ true
unfolding needed_by
needed_by-contains index dirs [] set id h = h
needed_by-contains index dirs (m ∷ ms) set id h =
    needed_by-contains index dirs ms (add_all set (resolve index dirs m)) id
      (ground (arith, contains-add_all set (resolve index dirs m) id))

-- What each message resolves to is needed.
pub All-needed_by :
    (index : MailboxIndex) (dirs : Dictionary Text) (ms : List StoredMessage) (set : List Text)
    → All
        (λ m. All (λ id. contains (needed_by index dirs ms set) id ≡ true) (resolve index dirs m))
        ms
unfolding needed_by
All-needed_by index dirs [] set = tt
All-needed_by index dirs (m ∷ ms) set = (
  All-contains _ (resolve index dirs m) (λ id k.
      needed_by-contains index dirs ms (add_all set (resolve index dirs m)) id
        (ground (arith, contains-add_all set (resolve index dirs m) id))),
  All-needed_by index dirs ms (add_all set (resolve index dirs m)),
)
