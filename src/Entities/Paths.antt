-- ===== src/Entities/Paths.antt =====
-- entities/mail.rs: `name_path` of a mailbox and of its parent.
use mail_backup.Base.{
  ℕ, zero, suc, ◌≤◌, ◌<◌, none, some, ◌∷◌, ◌++◌, Text, codes, ◌≡◌, refl, ap, sym, ◌∙◌, length,
  arith, inl, inr, Option-cases,
}
use mathlib.Core.Path.{subst}
use mail_backup.Entities.{
  MailboxRecord, MailboxIndex, find, parent_of, ancestors, join_up, name_path,
}

-- The chain of parents of `r` ends after at most `n` steps.
abbrev pub Rooted : ℕ → MailboxIndex → MailboxRecord → Type 0
Rooted zero index r = parent_of index r ≡ none
Rooted (suc n) index r = (p : MailboxRecord) → parent_of index r ≡ some p → Rooted n index p

-- From such a mailbox, a walk with more steps to spare finds the same names.
ancestors-enough :
    (n m : ℕ) (index : MailboxIndex) (r : MailboxRecord)
    → Rooted n index r
    → n ≤ m
    → ancestors m index r ≡ ancestors n index r
unfolding ancestors
ancestors-enough zero zero index r h k = refl
ancestors-enough zero (suc m) index r h k = rw (h, ancestors)
ancestors-enough (suc n) zero index r h k = absurd (omega arith)
ancestors-enough (suc n) (suc m) index r h k = elim (Option-cases (parent_of index r)) [
  | inl e ↦ rw (e, ancestors)
  | inr (p, e) ↦ rw (e, ancestors) (rw (ancestors-enough n m index p (h p e) (omega arith)))
]

join_up-ancestors :
    (n : ℕ) (index : MailboxIndex) (p : MailboxRecord) (s : Text)
    → join_up (s ∷ ancestors n index p) ≡ join_up (ancestors n index p) ++ codes "/" ++ s
unfolding ancestors join_up
join_up-ancestors zero index p s = refl
join_up-ancestors (suc n) index p s = ground arith

some_eq : (p q : MailboxRecord) → some p ≡ some q → p ≡ q
some_eq p q h = ground arith

-- The path of a mailbox whose parent is in the index, under the parent's own id, is the parent's
-- path, a slash, and the mailbox's own name, where the parent's chain of parents ends after fewer
-- steps than there are mailboxes.
pub name_path-child :
    (index : MailboxIndex) (id : Text) (r p : MailboxRecord) (n : ℕ)
    → find index id ≡ some r
    → parent_of index r ≡ some p
    → find index p.info.id ≡ some p
    → Rooted n index p
    → n < length index.boxes
    → (path : Text) × (name_path index p.info.id ≡ some path)
      × (name_path index id ≡ some (path ++ codes "/" ++ r.info.name))
unfolding name_path
name_path-child index id r p n found up found' rooted enough =
    let most = length index.boxes in
    let above : ancestors most index p ≡ ancestors n index p =
      ancestors-enough n most index p rooted (omega arith) in
    let chain : ancestors most index r ≡ r.info.name ∷ ancestors n index p =
      ancestors-enough (suc n) most index r
        (λ q e. subst (Rooted n index) (some_eq p q (sym up ∙ e)) rooted) enough
      ∙ unfold ancestors in rw (up, ancestors) in
    (
      join_up (ancestors n index p),
      rw (found', name_path) (ap (λ l. some (join_up l)) above),
      rw (found, name_path)
          (ap (λ l. some (join_up l)) chain ∙ ap some (join_up-ancestors n index p r.info.name)),
    )
