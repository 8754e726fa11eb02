-- ===== src/Engine/Summary.antt =====
-- engine/mod.rs: the counters of a run.
use mail_backup.Base.{
  ℕ, ◌+◌, ◌≡◌, refl, Bool, true, false, not, ◌||◌, List, [], ◌∷◌, length, arith, if◌then◌else◌,
}
use mail_backup.Messages.{
  MailEvent, mailbox_upserted, mailbox_deleted, message_added, message_updated, message_deleted,
}
use mail_backup.Stores.{
  EventOutcome, added, moved, updated, removed, unchanged, skipped, BackupSummary,
}

-- `BackupSummary::default()`
abbrev pub no_changes : BackupSummary
no_changes = record {
  added = 0;
  moved = 0;
  updated = 0;
  removed = 0;
  unchanged = 0;
  skipped = 0;
  interrupted = false;
}

pub record_outcome : BackupSummary → EventOutcome → BackupSummary
record_outcome s added = record s { added = s.added + 1 }
record_outcome s moved = record s { moved = s.moved + 1 }
record_outcome s updated = record s { updated = s.updated + 1 }
record_outcome s removed = record s { removed = s.removed + 1 }
record_outcome s unchanged = record s { unchanged = s.unchanged + 1 }
record_outcome s skipped = record s { skipped = s.skipped + 1 }

unfoldable pub record_all : BackupSummary → List EventOutcome → BackupSummary
unfolding record_outcome
record_all s [] = s
record_all s (o ∷ os) = record_all (record_outcome s o) os

unfoldable pub record_masked : BackupSummary → List Bool → List EventOutcome → BackupSummary
unfolding record_outcome
record_masked s (m ∷ ms) (o ∷ os) = record_masked (if m then record_outcome s o else s) ms os
record_masked s _ _ = s

unfoldable pub merge : BackupSummary → BackupSummary → BackupSummary
merge a b = record {
  added = a.added + b.added;
  moved = a.moved + b.moved;
  updated = a.updated + b.updated;
  removed = a.removed + b.removed;
  unchanged = a.unchanged + b.unchanged;
  skipped = a.skipped + b.skipped;
  interrupted = a.interrupted || b.interrupted;
}

unfoldable pub changes : BackupSummary → ℕ
changes s = s.added + s.moved + s.updated + s.removed

unfoldable pub completed : BackupSummary → Bool
completed s = not s.interrupted

unfoldable pub is_message_event : MailEvent → Bool
is_message_event (message_added m raw) = true
is_message_event (message_updated m) = true
is_message_event (message_deleted id) = true
is_message_event (mailbox_upserted info) = false
is_message_event (mailbox_deleted id) = false

unfoldable pub message_event_mask : List MailEvent → List Bool
unfolding is_message_event
message_event_mask [] = []
message_event_mask (e ∷ es) = is_message_event e ∷ message_event_mask es

-- Everything that the summary counts.
abbrev pub counted : BackupSummary → ℕ
counted s = s.added + s.moved + s.updated + s.removed + s.unchanged + s.skipped

-- The outcomes that stand at the places of message events.
abbrev pub message_outcomes : List MailEvent → List EventOutcome → List EventOutcome
message_outcomes (e ∷ es) (o ∷ os) =
    let rest = message_outcomes es os in if is_message_event e then o ∷ rest else rest
message_outcomes _ _ = []

-- Masking by the events records exactly the outcomes of the message events.
pub record_masked-message_event_mask :
    (s : BackupSummary) (es : List MailEvent) (os : List EventOutcome)
    → record_masked s (message_event_mask es) os ≡ record_all s (message_outcomes es os)
unfolding record_masked record_all message_event_mask
record_masked-message_event_mask s [] os = refl
record_masked-message_event_mask s (e ∷ es) [] = refl
record_masked-message_event_mask s (e ∷ es) (o ∷ os) = ground (
  arith,
  record_masked-message_event_mask s es os,
  record_masked-message_event_mask (record_outcome s o) es os,
)

counted-record_outcome :
    (s : BackupSummary) (o : EventOutcome)
    → (counted (record_outcome s o) ≡ counted s + 1)
      × ((record_outcome s o).interrupted ≡ s.interrupted)
unfolding record_outcome
counted-record_outcome s added = ground arith
counted-record_outcome s _ = ground arith

-- Recording outcomes counts each of them once, and does not touch the interruption.
pub counted-record_all :
    (s : BackupSummary) (os : List EventOutcome)
    → (counted (record_all s os) ≡ counted s + length os)
      × ((record_all s os).interrupted ≡ s.interrupted)
unfolding record_all
counted-record_all s [] = (omega arith, refl)
counted-record_all s (o ∷ os) =
    ground (arith, counted-record_outcome s o, counted-record_all (record_outcome s o) os)

merge-record_outcome :
    (a b : BackupSummary) (o : EventOutcome)
    → merge a (record_outcome b o) ≡ record_outcome (merge a b) o
unfolding merge record_outcome
merge-record_outcome a b added = ground arith
merge-record_outcome a b _ = ground arith

-- To record outcomes apart and merge is to record them.
pub merge-record_all :
    (a b : BackupSummary) (os : List EventOutcome)
    → merge a (record_all b os) ≡ record_all (merge a b) os
unfolding record_all
merge-record_all a b [] = refl
merge-record_all a b (o ∷ os) =
    ground (arith, merge-record_outcome a b o, merge-record_all a (record_outcome b o) os)
