-- ===== src/Entities/Examples.antt =====
-- The mailbox index on two mailboxes, one below the other.
use mail_backup.Base.{none, some, [], ◌∷◌, get, list_beq, codes, ◌≡◌, refl}
use mail_backup.Entities.{MailboxRecord, MailboxIndex, find, parent_of, rebase_dir_paths}
use mail_backup.Entities.Rebase.{Relocated, find-rebase_dir_paths}

abbrev work : MailboxRecord
work = record {
  info = record {
    id = codes "w";
    name = codes "Work";
    role = none;
    parent_id = none;
    sort_order = 0;
  };
  dir_path = codes "Work";
}

abbrev plans : MailboxRecord
plans = record {
  info = record {
    id = codes "p";
    name = codes "Plans";
    role = none;
    parent_id = some (codes "w");
    sort_order = 0;
  };
  dir_path = codes "Work/Plans";
}

abbrev two_boxes : MailboxIndex
two_boxes = record { boxes = (codes "p", plans) ∷ (codes "w", work) ∷ [] }

plans_found : find two_boxes (codes "p") ≡ some plans
unfolding find get list_beq
plans_found = refl

work_found : find two_boxes (codes "w") ≡ some work
unfolding find get list_beq
work_found = refl

plans_below : parent_of two_boxes plans ≡ some work
unfolding parent_of get list_beq
plans_below = refl

work_rooted : parent_of two_boxes work ≡ none
unfolding parent_of get list_beq
work_rooted = refl

find-rebase_dir_paths_example :
    Relocated
      (codes "Work")
      (codes "Job")
      (find two_boxes (codes "p"))
      (find (rebase_dir_paths two_boxes (codes "Work") (codes "Job")).1 (codes "p"))
find-rebase_dir_paths_example =
    find-rebase_dir_paths two_boxes (codes "Work") (codes "Job") (codes "p")
