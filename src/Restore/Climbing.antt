-- ===== src/Restore/Climbing.antt =====
-- restore/mod.rs: the loop of `run_restore` over the ancestors of a mailbox, where the parents end.
use mail_backup.Base.{ℕ, zero, suc, Option, none, some, List, [], ◌∷◌, Text, ◌≡◌, refl, arith, ◌<◌}
use mail_backup.Entities.{MailboxRecord, MailboxIndex, find, parent_of}
use mail_backup.Restore.Selecting.{climb, with_ancestors, add}

-- The result is there.
abbrev pub IsFound : {A : Type 0} → Option A → Type 0
IsFound {A} found = (a : A) × (found ≡ some a)

-- Each parent is of a smaller depth than its child.
module _ (index : MailboxIndex) (depth : MailboxRecord → ℕ)
    (falls : (r p : MailboxRecord) → parent_of index r ≡ some p → depth p < depth r) where
  -- From a mailbox of less depth than there are rounds, the ancestors are all collected.
  pub climb_enough :
      (rounds : ℕ) (r : MailboxRecord) (set : List Text)
      → depth r < rounds
      → IsFound (climb rounds index (some r) set)
  unfolding climb
  climb_enough zero r set h = absurd (ground arith)
  climb_enough (suc rounds) r set h =
      onwards (parent_of index r) refl (λ p s k. climb_enough rounds p s k)
    where
      onwards :
          (parent : Option MailboxRecord)
          → parent_of index r ≡ parent
          → ((p : MailboxRecord) (s : List Text)
              → depth p < rounds
              → IsFound (climb rounds index (some p) s))
          → IsFound {A = List Text} (elim parent as (λ p. Option (List Text)) [
            | none ↦ climb rounds index none set
            | some p ↦ climb rounds index (some p) (add set p.info.id)
          ])
      onwards none k rest = (set, refl)
      onwards (some p) k rest = let lower = falls r p k in rest p (add set p.info.id) (omega arith)

  -- With more rounds than each mailbox is deep, so are those of all the mailboxes.
  pub with_ancestors_enough :
      (rounds : ℕ) (ids set : List Text)
      → ((id : Text) (r : MailboxRecord) → find index id ≡ some r → depth r < rounds)
      → IsFound (with_ancestors rounds index ids set)
  unfolding with_ancestors climb
  with_ancestors_enough rounds [] set h = (set, refl)
  with_ancestors_enough rounds (id ∷ ids) set h =
      begun (find index id) refl (λ s. with_ancestors_enough rounds ids s h)
    where
      climbed :
          (found : Option (List Text))
          → IsFound found
          → ((s : List Text) → IsFound (with_ancestors rounds index ids s))
          → IsFound {A = List Text} (elim found as (λ c. Option (List Text)) [
            | none ↦ none
            | some set' ↦ with_ancestors rounds index ids set'
          ])
      climbed none (c, k) rest = absurd (ground arith)
      climbed (some set') k rest = rest set'

      begun :
          (start : Option MailboxRecord)
          → find index id ≡ start
          → ((s : List Text) → IsFound (with_ancestors rounds index ids s))
          → IsFound {A = List Text}
              (elim (climb rounds index start set) as (λ c. Option (List Text)) [
                | none ↦ none
                | some set' ↦ with_ancestors rounds index ids set'
              ])
      begun none k rest = climbed (climb rounds index none set) (set, refl) rest
      begun (some r) k rest =
          climbed (climb rounds index (some r) set) (climb_enough rounds r set (h id r k)) rest
