-- ===== src/Layout/Primary.antt =====
-- stores/layout.rs: `primary_mailbox`.
use mail_backup.Base.{
  ◌≡◌, refl, sym, true, false, Option, none, some, List, [], ◌∷◌, Text, All, contains, arith,
  text_leb_total, text_leb_trans, text_leb_antisymm, eq_iff, nat_eq, list_eq, ◌⊎◌, inl, inr,
  Option-cases, if◌then◌else◌,
}
use mathlib.Core.Path.{subst}
use mail_backup.Entities.{MailboxRecord, MailboxIndex, find}
use mail_backup.Layout.{ranks_before, known, least, primary_mailbox}

ranks_before_refl : (a : MailboxRecord) → ranks_before a a ≡ true
unfolding ranks_before
ranks_before_refl a =
    ground (arith, eq_iff a.dir_path a.dir_path, text_leb_total a.info.id a.info.id)

ranks_before_total : (a b : MailboxRecord) → ranks_before a b ≡ false → ranks_before b a ≡ true
unfolding ranks_before
ranks_before_total a b h = ground (
  arith,
  eq_iff a.dir_path b.dir_path,
  eq_iff b.dir_path a.dir_path,
  text_leb_total a.dir_path b.dir_path,
  text_leb_total a.info.id b.info.id,
)

ranks_before_trans :
    (a b c : MailboxRecord)
    → ranks_before a b ≡ true
    → ranks_before b c ≡ true
    → ranks_before a c ≡ true
unfolding ranks_before
ranks_before_trans a b c h k = ground (
  arith,
  eq_iff a.dir_path b.dir_path,
  eq_iff b.dir_path c.dir_path,
  eq_iff a.dir_path c.dir_path,
  text_leb_trans a.dir_path b.dir_path c.dir_path,
  text_leb_trans a.info.id b.info.id c.info.id,
  text_leb_antisymm a.dir_path b.dir_path,
)

abbrev Leads : MailboxRecord → List MailboxRecord → Type 0
Leads r = All (λ s. ranks_before r s ≡ true)

Leads-trans :
    (a b : MailboxRecord) (rest : List MailboxRecord)
    → ranks_before a b ≡ true
    → Leads b rest
    → Leads a rest
Leads-trans a b [] h k = tt
Leads-trans a b (c ∷ rest) h k = (ranks_before_trans a b c h k.0, Leads-trans a b rest h k.1)

-- One step of the choice.
abbrev preferred : MailboxRecord → MailboxRecord → MailboxRecord
preferred r s = if ranks_before r s then r else s

preferred_leads :
    (r s : MailboxRecord)
    → (ranks_before (preferred r s) r ≡ true) × (ranks_before (preferred r s) s ≡ true)
preferred_leads r s =
    ground (arith, ranks_before_refl r, ranks_before_refl s, ranks_before_total r s)

least-Leads :
    (r : MailboxRecord) (rest : List MailboxRecord)
    → (ranks_before (least r rest) r ≡ true) × Leads (least r rest) rest
unfolding least
least-Leads r [] = (ranks_before_refl r, tt)
least-Leads r (s ∷ rest) =
    let p = preferred r s in
    let (lead, others) = least-Leads p rest in
    let (before_r, before_s) = preferred_leads r s in
    (
      ranks_before_trans (least p rest) p r lead before_r,
      (ranks_before_trans (least p rest) p s lead before_s, others),
    )

-- `r` is the record of one of the mailboxes.
abbrev pub Holds : MailboxRecord → List Text → MailboxIndex → Type 0
Holds r ids index = (id : Text) × (contains ids id ≡ true) × (find index id ≡ some r)

abbrev OneOf : MailboxRecord → List MailboxRecord → Type 0
OneOf r [] = ⊥
OneOf r (s ∷ rest) = (r ≡ s) ⊎ OneOf r rest

OneOf-known :
    (r : MailboxRecord) (ids : List Text) (index : MailboxIndex)
    → OneOf r (known ids index)
    → Holds r ids index
unfolding known contains
OneOf-known r [] index h = absurd h
OneOf-known r (id ∷ ids) index h = elim (Option-cases (find index id)) [
  | inl missing ↦
      let (other, listed, found) = OneOf-known r ids index (ground arith) in
      (other, ground arith, found)
  | inr (s, found) ↦ elim (tail_or_here s found) [
    | inl here ↦ (id, ground (arith, eq_iff id id), ground arith)
    | inr there ↦
        let (other, listed, found') = OneOf-known r ids index there in (other, ground arith, found')
  ]
]
  where
    tail_or_here :
        (s : MailboxRecord) → find index id ≡ some s → (r ≡ s) ⊎ OneOf r (known ids index)
    tail_or_here s found = ground arith

known-OneOf :
    (r : MailboxRecord) (id : Text) (ids : List Text) (index : MailboxIndex)
    → contains ids id ≡ true
    → find index id ≡ some r
    → OneOf r (known ids index)
unfolding known contains
known-OneOf r id [] index h f = cc
known-OneOf r id (i ∷ ids) index h f = ground (arith, eq_iff i id, known-OneOf r id ids index)

least-OneOf : (r : MailboxRecord) (rest : List MailboxRecord) → OneOf (least r rest) (r ∷ rest)
unfolding least
least-OneOf r [] = inl refl
least-OneOf r (s ∷ rest) = ground (arith, least-OneOf (preferred r s) rest)

Leads-OneOf :
    (a r : MailboxRecord) (rest : List MailboxRecord)
    → Leads a rest
    → OneOf r rest
    → ranks_before a r ≡ true
Leads-OneOf a r [] h k = absurd k
Leads-OneOf a r (s ∷ rest) h k = ground (arith, Leads-OneOf a r rest h.1)

-- What is chosen is one of the mailboxes, and no other of them ranks before it.
abbrev pub Chosen : List Text → MailboxIndex → Option MailboxRecord → Type 0
Chosen ids index none = (r : MailboxRecord) → ¬ Holds r ids index
Chosen ids index (some r) =
    Holds r ids index × ((s : MailboxRecord) → Holds s ids index → ranks_before r s ≡ true)

-- `primary_mailbox` finds nothing exactly when none of the ids is known, and else it chooses one of
-- the known mailboxes that comes before every other by rank of its role, directory and id.
pub primary_mailbox-Chosen :
    (ids : List Text) (index : MailboxIndex) → Chosen ids index (primary_mailbox ids index)
unfolding primary_mailbox
primary_mailbox-Chosen ids index = choose (known ids index) refl
  where
    choose :
        (l : List MailboxRecord)
        → known ids index ≡ l
        → Chosen ids index (elim l [ [] ↦ none | r ∷ rest ↦ some (least r rest) ])
    choose [] e = λ r h. subst (OneOf r) e (known-OneOf r h.0 ids index h.1 h.2)
    choose (r ∷ rest) e = (
      OneOf-known (least r rest) ids index
          (subst (OneOf (least r rest)) (sym e) (least-OneOf r rest)),
      λ s h.
          Leads-OneOf (least r rest) s (r ∷ rest) (least-Leads r rest)
            (subst (OneOf s) e (known-OneOf s h.0 ids index h.1 h.2)),
    )
