-- ===== src/Engine/Plan/Examples.antt =====
-- What the engine computes from lists, on small lists.
use mail_backup.Base.{
  ℕ, none, List, [], ◌∷◌, filter, contains, not, String, ok, ◌≡◌, codes, ◌==◌, nat_eq, list_eq,
}
use mail_backup.Base.{Bool, Result, Error}
use mail_backup.Entities.{MessageMeta}
use mail_backup.Messages.{MailEvent, message_deleted, mailbox_deleted}
use mail_backup.Stores.{EventOutcome, removed, unchanged}
use mail_backup.Engine.Summary.{no_changes}
use mail_backup.Engine.Changes.{dedupe_changes_classifies, dedupe_changes}
use mail_backup.Base.{Distinct, ◌&&◌}
use mail_backup.Engine.Grouping.{IsOrdered, group_by_day, group_of, group_by_day_partitions}
use mail_backup.Entities.{received_day}
use mail_backup.Engine.Plan.{nothing_planned}
use mail_backup.Base.{Result, ltb}
use mail_backup.Engine.Plan.{Planning, plan_messages}
use mail_backup.Engine.Plan.Classes.{Sorted, plan_messages_sorts}

abbrev message : String → ℕ → MessageMeta
message id received_at = record {
  id = codes id;
  blob_id = codes id;
  thread_id = [];
  mailbox_ids = [];
  keywords = [];
  received_at = received_at;
  size = 1;
  message_id = [];
  subject = none;
  from = [];
}

dedupe_changes_classifies_example :
    let (c, u, d) =
      dedupe_changes (codes "a" ∷ codes "b" ∷ []) (codes "b" ∷ codes "c" ∷ []) (codes "a" ∷ []) in
    (Distinct c × Distinct u × Distinct d)
    × (contains c (codes "b") ≡ (
        contains (codes "a" ∷ codes "b" ∷ []) (codes "b")
        && not (contains (codes "a" ∷ []) (codes "b"))))
    × (contains u (codes "b") ≡ (
        contains (codes "b" ∷ codes "c" ∷ []) (codes "b")
        && not (contains (codes "a" ∷ []) (codes "b"))
        && not (contains (codes "a" ∷ codes "b" ∷ []) (codes "b"))))
    × (contains d (codes "b") ≡ contains (codes "a" ∷ []) (codes "b"))
dedupe_changes_classifies_example =
    dedupe_changes_classifies (codes "a" ∷ codes "b" ∷ []) (codes "b" ∷ codes "c" ∷ [])
      (codes "a" ∷ []) (codes "b")

abbrev three_messages : List MessageMeta
three_messages = message "b" 200000000000000 ∷ message "a" 5 ∷ message "c" 6 ∷ []

group_by_day_partitions_example :
    IsOrdered (group_by_day three_messages)
    × (group_of 0 (group_by_day three_messages) ≡ filter (λ m. received_day m == 0) three_messages)
group_by_day_partitions_example = group_by_day_partitions three_messages 0

abbrev two_events : List MailEvent
two_events = mailbox_deleted (codes "m") ∷ message_deleted (codes "a") ∷ []

abbrev two_outcomes : List EventOutcome
two_outcomes = unchanged ∷ removed ∷ []

abbrev undecided : Planning
undecided = record { plan = nothing_planned; summary = no_changes }

abbrev is_early : MessageMeta → Result Bool Error
is_early m = ok (ltb m.received_at 100)

plan_messages_sorts_example :
    Sorted is_early
      (λ id. id == codes "a")
      []
      three_messages
      undecided
      (plan_messages is_early (λ id. id == codes "a") [] three_messages undecided)
plan_messages_sorts_example =
    plan_messages_sorts is_early (λ id. id == codes "a") three_messages undecided
