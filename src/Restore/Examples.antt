-- ===== src/Restore/Examples.antt =====
-- A small target, and the theorems about restoring at it.
use mail_backup.Base.{
  Result, Error, err, system, ap, sym, ◌∙◌, get-put, ◌==◌, list_eq, nat_eq, Option, is_some,
  if◌then◌else◌, ℕ, ◌+◌, Bool, true, false, none, some, List, [], ◌∷◌, Text, codes, ok, All, Post,
  contains, sort, list_beq, get, put, ◌≡◌, ◌≢◌, ◌++◌, ◌<◌, map, arith, refl,
}
use mail_backup.Externals.{Externals}
use mail_backup.Entities.{MailboxRecord, find, insert, parent_of, name_path}
use mail_backup.Stores.{StoredMessage}
use mail_backup.Stores.Disk.{parent}
use mail_backup.Restore.Completing.{IsWilling, run_restore-Completed}
use mail_backup.Restore.Selecting.{read}
use mail_backup.Restore.{
  index_of, RestoreSummary, RestoreTarget, Archive, Restoring, mailbox_index, ensure_mailboxes,
}
use mail_backup.Restore.Running.{chosen_filter, RestoreSetup, run_restore}
use mail_backup.Restore.Selecting.{by_dir, needed_by, unfiled_needed, with_ancestors}
use mail_backup.Restore.DryRun.{Reads, run_restore-Still}
use mail_backup.Restore.Tallied.{Tally, after_import, IsTallied, Agrees, run_restore-Tallied}
use mail_backup.Restore.Accounted.{Accounted}
use mail_backup.Layout.{to_ascii_lowercase}
use mail_backup.Restore.Unfiled.{ensure_mailboxes_again}
use mail_backup.Restore.Mailboxes.{IsPlaced, ensure_mailboxes-Placed}
use mail_backup.Restore.Mailboxes.Existing.{IsHousing}
use mail_backup.Entities.{MailboxInfo}
use mail_backup.Base.{subst}

abbrev plain : Externals
plain = record {
  sha256_hex = λ b. b;
  nfc = λ t. t;
  to_lowercase = λ t. t;
  as_bytes = λ t. t;
  format_instant = λ n. [];
  format_rfc3339 = λ n. [];
  format_day = λ n. [];
}

-- It counts what is written to it.
abbrev target : RestoreTarget ℕ
target = record {
  connect = λ w. (ok (codes "a"), w);
  list_mailboxes = λ w. (ok [], w);
  create_mailbox = λ name parent role w. (ok (w ∷ []), w + 1);
  message_exists = λ meta w. (ok false, w);
  import = λ raw ids keywords at w. (ok (w ∷ []), w + 1);
}

abbrev inbox : MailboxRecord
inbox = record {
  info = record {
    id = codes "i";
    name = codes "Inbox";
    role = none;
    parent_id = none;
    sort_order = 0;
  };
  dir_path = codes "Inbox";
}

-- A message in the inbox, and one whose mailbox is gone.
abbrev in_mailbox : Text → Text → StoredMessage
in_mailbox id path = record {
  meta = record {
    id = id;
    blob_id = [];
    thread_id = [];
    mailbox_ids = id ∷ [];
    keywords = [];
    received_at = 0;
    size = 1;
    message_id = [];
    subject = none;
    from = [];
  };
  path = path;
  sha256 = 7 ∷ [];
}

abbrev both : List StoredMessage
both = in_mailbox (codes "i") (codes "Inbox/a") ∷ in_mailbox (codes "x") (codes "_unfiled/b") ∷ []

abbrev archive : Archive
archive = record { mailboxes = inbox ∷ []; messages = both; content = λ m. ok (7 ∷ []) }

abbrev setup : Bool → RestoreSetup ℕ
setup dry = record {
  target = target;
  externals = plain;
  archive = ok archive;
  policy_filter = λ m. ok true;
  mailbox_prefix = none;
  dedupe_by_message_id = true;
  options_filter = none;
  force = false;
  dry_run = dry;
  cancelled = λ w. (false, w);
}

abbrev begin : Restoring ℕ
begin = record {
  world = 0;
  counter = 0;
  summary = record {
    selected = 0;
    imported = 0;
    skipped_existing = 0;
    skipped_filter = 0;
    failed = 0;
    mailboxes_created = 0;
    dry_run = false;
  };
}

reads : Reads (setup true) (λ w. w)
reads = record {
  view-connect = λ w. refl;
  view-list_mailboxes = λ w. refl;
  view-message_exists = λ meta w. refl;
  view-cancelled = λ w. refl;
}

run_restore-Still_example : (run_restore (setup true) 9 begin).1.world ≡ 0
run_restore-Still_example = run_restore-Still (setup true) (λ w. w) reads 0 refl 9 begin refl

-- Both messages are imported, after two mailboxes were created.
both_restored : (run_restore (setup false) 9 begin).1.world ≡ 4
unfolding run_restore get put list_beq contains find insert parent parent_of sort name_path
both_restored = refl

-- What the target has made is a number below how many it has made.
abbrev HasMade : Text → ℕ → Type 0
HasMade [] w = ⊥
HasMade (n ∷ id) w = n < w

target-IsHousing : IsHousing target HasMade
target-IsHousing = record {
  there-list_mailboxes = λ w infos h.
      let nothing : ◌≡◌ {A = List MailboxInfo} [] infos = ground arith in
      subst (λ is. All (λ i. HasMade i.id w) is) nothing tt;
  there-create_mailbox = λ name parent role w id h.
      let made : ◌≡◌ {A = Text} (w ∷ []) id = ground arith in
      subst (λ t. HasMade t (w + 1)) made (omega arith);
  kept-create_mailbox = λ name parent role w id h. grown w id h;
}
  where
    grown : (w : ℕ) (id : Text) → HasMade id w → HasMade id (w + 1)
    grown w [] h = h
    grown w (n ∷ id) h = omega (arith, h)

ensure_mailboxes-Placed_example :
    Post
      (λ mapping s.
        All (λ m. IsPlaced target HasMade target-IsHousing plain archive mapping m s.world) both)
      (λ x s. Unit {0})
      (ensure_mailboxes target plain false archive
        (codes "i" ∷ (0 ∷ codes "unfiled") ∷ [])
        (unfiled_needed (mailbox_index archive) (by_dir archive.mailboxes []) both)
        none
        begin)
unfolding with_ancestors needed_by mailbox_index by_dir list_beq get put contains find insert parent
    parent_of
ensure_mailboxes-Placed_example =
    ensure_mailboxes-Placed target HasMade target-IsHousing plain archive 9 both
      (codes "i" ∷ (0 ∷ codes "unfiled") ∷ []) none begin refl

folded : List ℕ → List ℕ
folded t = map to_ascii_lowercase t

folded_twice : (t : Text) → folded (folded t) ≡ folded t
unfolding folded to_ascii_lowercase
folded_twice [] = refl
folded_twice (c ∷ t) = ground (arith, folded_twice t)

capital : folded (codes "B" ++ codes "/unfiled") ≢ codes "B" ++ codes "/unfiled"
unfolding folded to_ascii_lowercase
capital e = ground arith

ensure_mailboxes_again_example :
    Post
      (λ mapping s. 0 < s.summary.mailboxes_created)
      (λ x s. Unit {0})
      (ensure_mailboxes target
        (record plain { to_lowercase = folded })
        false
        archive
        []
        true
        (some (codes "B"))
        begin)
ensure_mailboxes_again_example =
    ensure_mailboxes_again target (record plain { to_lowercase = folded }) false folded_twice
      archive [] (codes "B") begin capital

-- The inbox has no parent, and whatever is below a mailbox here is below the inbox.
abbrev level : MailboxRecord → ℕ
level r = if is_some r.info.parent_id then 1 else 0

abbrev level_of : Option MailboxRecord → ℕ
level_of none = 0
level_of (some r) = level r

known :
    (q : Text) (same : Bool) (p : MailboxRecord)
    → (if same then some inbox else get [] q) ≡ some p
    → level p < 1
unfolding get
known q true p h = ground (arith, ap level_of h)
known q false p h = absurd (ground arith)

level_falls :
    (r p : MailboxRecord) → parent_of (mailbox_index archive) r ≡ some p → level p < level r
unfolding parent_of find insert mailbox_index index_of
level_falls r p h = go r.info.parent_id h
  where
    go :
        (parent : Option Text)
        → elim parent as (λ q. Option MailboxRecord) [
          | none ↦ none
          | some q ↦ find (mailbox_index archive) q
        ]
          ≡ some p
        → level p < (if is_some parent then 1 else 0)
    go none k = absurd (ground arith)
    go (some q) k = known q (codes "i" == q) p (sym (get-put [] (codes "i") q inbox) ∙ k)

willing : IsWilling (setup false) archive
unfolding read list_beq
willing = record {
  connected = record { at = λ w. (_, refl) };
  listed = record { at = λ w. (_, refl) };
  made = λ name parent role. record { at = λ w. (_, refl) };
  asked = λ m. record { at = λ w. (_, refl) };
  readable = ((_, refl), ((_, refl), tt));
}

level_shallow :
    (id : Text) (r : MailboxRecord) → find (mailbox_index archive) id ≡ some r → level r < 9
level_shallow id r h = go r.info.parent_id
  where
    go : (parent : Option Text) → (if is_some parent then 1 else 0) < 9
    go none = omega arith
    go (some q) = omega arith

run_restore-Completed_example :
    (t : RestoreSummary) × ((run_restore (setup false) 9 begin).0 ≡ ok t)
    × Accounted (setup false) refl (λ w. refl) archive t (run_restore (setup false) 9 begin).1
unfolding chosen_filter
run_restore-Completed_example =
    run_restore-Completed (setup false) archive willing level 9 level_falls level_shallow
      (λ m. ok true) (λ m. (true, refl)) refl (λ w. refl) begin refl refl

-- A target that counts what is asked of it, and takes one message only.
abbrev first_only : Tally → Result Text Error
first_only n =
    if n.succeeded == 0 then ok (codes "m") else err (record { kind = system; what = "full" })

abbrev counting : RestoreTarget Tally
counting = record {
  connect = λ n. (ok (codes "a"), n);
  list_mailboxes = λ n. (ok [], n);
  create_mailbox =
      λ name parent role n. (ok (n.creations ∷ []), record n { creations = n.creations + 1 });
  message_exists = λ meta n. (ok false, n);
  import = λ raw ids keywords at n. (first_only n, after_import (first_only n) n);
}

abbrev counted : RestoreSetup Tally
counted = record {
  target = counting;
  externals = plain;
  archive = ok archive;
  policy_filter = λ m. ok true;
  mailbox_prefix = none;
  dedupe_by_message_id = true;
  options_filter = none;
  force = false;
  dry_run = false;
  cancelled = λ w. (false, w);
}

abbrev untouched : Restoring Tally
untouched = record {
  world = record { succeeded = 0; failures = 0; creations = 0; found = 0 };
  counter = 0;
  summary = begin.summary;
}

counted-IsTallied : IsTallied counted (λ n. n)
counted-IsTallied = record {
  tally-connect = λ w. refl;
  tally-list_mailboxes = λ w. refl;
  tally-create_mailbox = λ name parent role w. refl;
  tally-message_exists = λ m w. refl;
  tally-import = λ m raw ids w. refl;
  tally-cancelled = λ w. refl;
}

run_restore-Tallied_example :
    Agrees untouched.world
      (run_restore counted 9 untouched).1.world
      (run_restore counted 9 untouched).1.summary
    × Post (λ t s'. t ≡ s'.summary) (λ x s'. Unit {0}) (run_restore counted 9 untouched)
run_restore-Tallied_example =
    run_restore-Tallied counted (λ n. n) counted-IsTallied refl 9 untouched
