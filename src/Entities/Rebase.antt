-- ===== src/Entities/Rebase.antt =====
-- entities/mail.rs: `rebase_dir_paths`.
use mail_backup.Base.{
  Option, none, some, [], ◌∷◌, ◌++◌, Text, codes, Dictionary, get, ◌≡◌, ◌≢◌, refl, ap, arith,
  eq_iff, length-append, length, inl, inr, Option-cases, strip_prefix, strip_prefix-append,
  append_of_strip_prefix, nat_eq, list_eq,
}
use mail_backup.Entities.{
  MailboxRecord, MailboxIndex, find, rebased, rebase_record, rebase_boxes, rebase_dir_paths,
}

get-rebase_boxes :
    (old new id : Text) (boxes : Dictionary MailboxRecord)
    → get (rebase_boxes old new boxes) id
      ≡ elim (get boxes id) [ none ↦ none | some r ↦ some (rebase_record old new r) ]
unfolding get rebase_boxes
get-rebase_boxes old new id [] = refl
get-rebase_boxes old new id ((j, r) ∷ boxes) = ground (arith, get-rebase_boxes old new id boxes)

-- What a rebase makes of the record found under an id.
abbrev pub Relocated : Text → Text → Option MailboxRecord → Option MailboxRecord → Type 0
Relocated old new none after = after ≡ none
Relocated old new (some r) after =
    (r.dir_path ≡ old → after ≡ some (record r { dir_path = new }))
    × ((rest : Text)
        → r.dir_path ≡ old ++ codes "/" ++ rest
        → after ≡ some (record r { dir_path = new ++ codes "/" ++ rest }))
    × (r.dir_path ≢ old → ((rest : Text) → r.dir_path ≢ old ++ codes "/" ++ rest) → after ≡ some r)

-- A path below a directory: what is left, and that it is not the directory.
strip_below :
    (old rest : Text) → strip_prefix (old ++ codes "/" ++ rest) (old ++ codes "/") ≡ some rest
strip_below old rest = strip_prefix-append (old ++ codes "/") rest

below-ne : (old rest : Text) → (old ++ codes "/" ++ rest) ≢ old
below-ne old rest e =
    omega (arith, length-append (old ++ codes "/") rest, length-append old (codes "/"), ap length e)

Relocated-rebase_record :
    (old new : Text) (r : MailboxRecord)
    → Relocated old new (some r) (some (rebase_record old new r))
unfolding rebase_record rebased
Relocated-rebase_record old new r = (
  λ e. ground (arith, eq_iff r.dir_path old),
  λ rest e. rw e (
      ground
        (arith, eq_iff (old ++ codes "/" ++ rest) old, strip_below old rest, below-ne old rest)),
  λ h k. elim (Option-cases (strip_prefix r.dir_path (old ++ codes "/"))) [
    | inl e ↦ ground (arith, eq_iff r.dir_path old)
    | inr (rest, e) ↦ absurd (k rest (append_of_strip_prefix r.dir_path (old ++ codes "/") rest e))
  ],
)

-- After a rebase the index has the same ids. A mailbox at the old directory is at the new one, a
-- mailbox below it keeps its place below the new one, and every other mailbox is where it was;
-- nothing but directories changes.
pub find-rebase_dir_paths :
    (index : MailboxIndex) (old new id : Text)
    → Relocated old new (find index id) (find (rebase_dir_paths index old new).1 id)
unfolding find rebase_dir_paths
find-rebase_dir_paths index old new id =
    rw (get-rebase_boxes old new id index.boxes) (moved (get index.boxes id))
  where
    moved :
        (o : Option MailboxRecord)
        → Relocated old new o (elim o [ none ↦ none | some r ↦ some (rebase_record old new r) ])
    moved none = refl
    moved (some r) = Relocated-rebase_record old new r
