-- ===== src/Engine/Ordering.antt =====
-- engine/mod.rs: `topological_order`.
use mail_backup.Base.{
  ℕ, zero, suc, Bool, true, false, not, ◌&&◌, ◌||◌, Option, none, some, List, [], ◌∷◌, ◌++◌, map,
  Text, contains, filter, length, sort, text_leb, ltb, nat_eq, list_eq, ◌==◌, if◌then◌else◌,
}
use mail_backup.Entities.{MailboxInfo}

-- `sort_by`: by sort order, then by id.
unfoldable pub sorts_before : MailboxInfo → MailboxInfo → Bool
sorts_before a b =
    ltb a.sort_order b.sort_order || (a.sort_order == b.sort_order && text_leb a.id b.id)

-- The variables of the loop.
pub record Placement : Type 0 where
  pub placed : List Text
  pub ordered : List MailboxInfo
  pub progressed : Bool

parent_ready : List Text → List Text → Option Text → Bool
parent_ready ids placed none = true
parent_ready ids placed (some parent) = not (contains ids parent) || contains placed parent

-- The inner `for` loop.
pass : List Text → List MailboxInfo → Placement → Placement
unfolding parent_ready
pass ids [] p = p
pass ids (m ∷ mailboxes) p = pass ids mailboxes (
    if not (contains p.placed m.id) && parent_ready ids p.placed m.parent_id
    then record { placed = m.id ∷ p.placed; ordered = p.ordered ++ m ∷ []; progressed = true }
    else p)

-- The `while` loop, with fuel.
passes : ℕ → List Text → List MailboxInfo → Placement → List MailboxInfo
passes zero ids mailboxes p = p.ordered
passes (suc fuel) ids mailboxes p =
    let q = pass ids mailboxes (record p { progressed = false }) in
    let more = passes fuel ids mailboxes q in
    let rest = q.ordered ++ filter (λ m. not (contains q.placed m.id)) mailboxes in
    if ltb (length p.ordered) (length mailboxes)
    then if q.progressed then more else rest
    else p.ordered

abbrev pub ids_of : List MailboxInfo → List Text
ids_of = map (λ m. m.id)

-- Every pass but the last places a mailbox, so one more pass than mailboxes is enough.
unfoldable pub topological_order : List MailboxInfo → List MailboxInfo
unfolding passes pass sorts_before
topological_order mailboxes =
    let sorted = sort sorts_before mailboxes in
    passes (suc (length sorted)) (ids_of sorted) sorted
      (record { placed = []; ordered = []; progressed = false })
