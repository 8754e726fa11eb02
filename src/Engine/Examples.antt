-- ===== src/Engine/Examples.antt =====
-- The engine on a small mailbox: a store that keeps its messages in memory, and a server with one
-- page of changes.
use mail_backup.Base.{
  ℕ, true, false, Option, none, some, List, [], ◌∷◌, map, filter, not, Text, String, if◌then◌else◌,
  ok, Post, ◌≡◌, refl, codes, ◌==◌, nat_eq, list_eq,
}
use mail_backup.Base.{Error, Result}
use mail_backup.Engine.Summary.{no_changes}
use mail_backup.Engine.Sync.{Scan, scan}
use mail_backup.Engine.Sync.Scanning.{IsStill, Scanned, scan-Scanned}
use mail_backup.Externals.{Externals}
use mail_backup.Entities.{MessageMeta, SourceState, ChangeSet, empty_index}
use mail_backup.Messages.{
  MailEvent, message_added, message_deleted, mailbox_upserted, mailbox_deleted, message_updated,
}
use mail_backup.Sources.{MailSource, changes, Surroundings}
use mail_backup.Stores.{
  StoredMessage, EventOutcome, added, removed, unchanged, StoreState, MailStore,
}
use mail_backup.Stores.Laws.{Progress, progress, IsStore, Outside}
use mail_backup.Engine.Setup.{Setup}
use mail_backup.Engine.Plan.{PlannedChanges, nothing_planned}
use mail_backup.Engine.Apply.{apply_planned}
use mail_backup.Engine.Apply.Holding.{AppliedFrom, FailedAt, IsGiving}
use mail_backup.Engine.Apply.Concluding.{apply_planned-AppliedFrom}
use mail_backup.Base.{All, ◌++◌, ◌⊎◌, inl, inr}
use mail_backup.Engine.Sync
use mail_backup.Engine.Sync.{Gathered, complete, gather}
use mail_backup.Engine.Sync.Assembling.{gathered_of, GivenPages, gather-complete_iff}
use mail_backup.Base.{◌↔◌}
use mail_backup.Engine.Backfill.{starting_cursor, run_backfill}
use mail_backup.Engine.Backfill.Completion.{Filled, FillFailed, run_backfill-Filled}
use mail_backup.Engine.Backup.{run_backup, run_refresh}
use mail_backup.Engine.Sync.{Gathered, gather, absorb, complete}
use mail_backup.Engine.Backup.DryRun.{dry_run_view}

-- What the store holds and has saved.
record World : Type 0 where
  current : StoreState
  kept : Progress
  messages : List StoredMessage
  -- The events that were given to it.
  given : List MailEvent

abbrev message : String → ℕ → MessageMeta
message id received_at = record {
  id = codes id;
  blob_id = codes id;
  thread_id = [];
  mailbox_ids = [];
  keywords = [];
  received_at = received_at;
  size = 1;
  message_id = [];
  subject = none;
  from = [];
}

abbrev drop_message : Text → List StoredMessage → List StoredMessage
drop_message id = filter (λ m. not (m.meta.id == id))

take_event : MailEvent → List StoredMessage → EventOutcome × List StoredMessage
take_event (message_added m raw) l =
    (added, record { meta = m.meta; path = m.meta.id; sha256 = raw } ∷ drop_message m.meta.id l)
take_event (message_updated m) l = (unchanged, l)
take_event (message_deleted id) l = (removed, drop_message id l)
take_event (mailbox_upserted info) l = (unchanged, l)
take_event (mailbox_deleted id) l = (unchanged, l)

take_events : List MailEvent → List StoredMessage → List EventOutcome × List StoredMessage
take_events [] l = ([], l)
take_events (e ∷ es) l =
    let (o, l') = take_event e l in let (os, l'') = take_events es l' in (o ∷ os, l'')

find_message : Text → List StoredMessage → Option StoredMessage
find_message id [] = none
find_message id (m ∷ l) = let rest = find_message id l in if m.meta.id == id then some m else rest

abbrev save : World → World
save w = record w { kept = progress w.current }

abbrev memory_store : MailStore World
memory_store = record {
  open_store = λ w. (ok tt, w);
  state = λ w. w.current;
  set_state = λ s w. record w { current = s };
  mailboxes = λ w. empty_index;
  lookup = λ id w. find_message id w.messages;
  list = λ w. w.messages;
  apply = λ es w.
      let (os, l) = take_events es w.messages in
      (ok os, record w { messages = l; given = es ++ w.given });
  checkpoint = λ c w. (ok tt, save w);
  save_state = λ w. (ok tt, save w);
}

abbrev memory_store_laws : IsStore memory_store (λ w. w.kept)
memory_store_laws = record {
  state-set_state = λ s w. refl;
  saved-set_state = λ s w. refl;
  state-apply = λ es w. refl;
  saved-apply = λ es w. refl;
  state-checkpoint = λ c w. refl;
  saved-checkpoint = λ c w h. refl;
  state-save_state = λ w. refl;
  saved-save_state = λ w h. refl;
}

abbrev state_named : String → SourceState
state_named name = record {
  account_id = codes "me";
  email_state = some (codes name);
  mailbox_state = some (codes name);
}

abbrev one_page : ChangeSet
one_page = record {
  state = state_named "s2";
  mailboxes_changed = true;
  created = codes "b" ∷ [];
  updated = [];
  destroyed = codes "a" ∷ [];
  has_more = false;
}

abbrev small_server : MailSource World
small_server = record {
  connect = λ w. (ok (state_named "s2"), w);
  list_mailboxes = λ w. (ok [], w);
  enumerate = λ r w. (ok (message "a" 5) ∷ ok (message "b" 200000000000000) ∷ [], w);
  changes = λ s w. (ok (changes one_page), w);
  get_messages = λ ids w. (ok (map (λ id. record (message "" 7) { id = id }) ids), w);
  fetch_blob = λ id w. (ok id, w);
}

abbrev calm : Surroundings World
calm = record { cancelled = λ w. (false, w); today = λ w. (3, w); arrival = λ l. l }

abbrev small_server_outside : Outside small_server calm (λ w. w.current)
small_server_outside = record {
  view-connect = λ w. refl;
  view-list_mailboxes = λ w. refl;
  view-enumerate = λ r w. refl;
  view-changes = λ s w. refl;
  view-get_messages = λ ids w. refl;
  view-fetch_blob = λ id w. refl;
  view-cancelled = λ w. refl;
  view-today = λ w. refl;
}

abbrev small_server_untouched : Outside small_server calm (λ w. w.kept)
small_server_untouched = record {
  view-connect = λ w. refl;
  view-list_mailboxes = λ w. refl;
  view-enumerate = λ r w. refl;
  view-changes = λ s w. refl;
  view-get_messages = λ ids w. refl;
  view-fetch_blob = λ id w. refl;
  view-cancelled = λ w. refl;
  view-today = λ w. refl;
}

abbrev Listed : MailEvent → List MailEvent → Type 0
Listed event [] = ⊥
Listed event (x ∷ xs) = (event ≡ x) ⊎ Listed event xs

Listed-append : (x : MailEvent) (xs ys : List MailEvent) → Listed x xs → Listed x (xs ++ ys)
Listed-append x (z ∷ xs) ys (inl e) = inl e
Listed-append x (z ∷ xs) ys (inr h) = inr (Listed-append x xs ys h)
Listed-append x [] ys h = absurd h

All-Listed :
    (whole es : List MailEvent)
    → ((x : MailEvent) → Listed x es → Listed x whole)
    → All (λ x. Listed x whole) es
All-Listed whole [] f = tt
All-Listed whole (x ∷ xs) f = (f x (inl refl), All-Listed whole xs (λ y h. f y (inr h)))

abbrev Given : MailEvent → World → Type 0
Given event w = Listed event w.given

abbrev plain : Externals
plain = record {
  sha256_hex = λ b. b;
  nfc = λ t. t;
  to_lowercase = λ t. t;
  as_bytes = λ t. t;
  format_instant = λ n. [];
  format_rfc3339 = λ n. [];
  format_day = λ n. [];
}

abbrev setup : Setup World
setup = record {
  source = small_server;
  store = memory_store;
  around = calm;
  externals = plain;
  policy = record { filter = λ m. ok true; backfill_start = none };
  options = record { dry_run = false; concurrency = 4 };
}

-- A store that has seen the server's state `s1`, and holds the message `a`.
abbrev caught_up : World
caught_up = record {
  current = record {
    source = state_named "s1";
    backfill = none;
    current_commit_day = none;
    head_at_save = none;
  };
  kept = (state_named "s1", none);
  messages = record { meta = message "a" 5; path = codes "a"; sha256 = [] } ∷ [];
  given = [];
}

-- A store that nothing has been saved in.
abbrev empty_world : World
empty_world = record {
  current = record {
    source = record { account_id = []; email_state = none; mailbox_state = none };
    backfill = none;
    current_commit_day = none;
    head_at_save = none;
  };
  kept = (record { account_id = []; email_state = none; mailbox_state = none }, none);
  messages = [];
  given = [];
}

abbrev plan_one : PlannedChanges
plan_one = record nothing_planned { adds = message "b" 7 ∷ []; deletes = codes "a" ∷ [] }

memory_store_giving : IsGiving setup Given
memory_store_giving = record {
  given-apply = λ es w os h. All-Listed (es ++ w.given) es (λ x k. Listed-append x es w.given k);
  given-set_state = λ s event w g. g;
  given-checkpoint = λ c event w g. g;
}

apply_planned-AppliedFrom_example :
    Post
      (AppliedFrom setup
        (λ w. w.kept)
        memory_store_laws
        small_server_outside
        small_server_untouched
        Given
        memory_store_giving
        plan_one
        (state_named "s2")
        caught_up)
      (FailedAt setup (λ w. w.kept) (state_named "s2") caught_up)
      (apply_planned setup plan_one (state_named "s2") caught_up)
apply_planned-AppliedFrom_example =
    apply_planned-AppliedFrom setup (λ w. w.kept) memory_store_laws small_server_outside
      small_server_untouched Given memory_store_giving plan_one (state_named "s2") caught_up refl

run_backfill-Filled_example :
    Post
      (Filled setup
        (λ w. w.kept)
        empty_world.current.source
        (starting_cursor none (state_named "s2")))
      (FillFailed setup
        (λ w. w.kept)
        empty_world.current.source
        (starting_cursor none (state_named "s2")))
      (run_backfill setup (state_named "s2") empty_world)
run_backfill-Filled_example =
    run_backfill-Filled setup (λ w. w.kept) memory_store_laws small_server_outside
      (state_named "s2") empty_world refl

abbrev dry_setup : Setup World
dry_setup = record setup { options = record { dry_run = true; concurrency = 4 } }

dry_run_view_example :
    ((run_backup dry_setup 2 empty_world).1.current ≡ empty_world.current)
    × ((run_refresh dry_setup empty_world).1.current ≡ empty_world.current)
dry_run_view_example =
    dry_run_view dry_setup (λ w. w.current) 2 empty_world refl small_server_outside (λ w. refl)

abbrev two_items : List (Result MessageMeta Error)
two_items = ok (message "a" 5) ∷ ok (message "b" 6) ∷ []

abbrev unseen : Scan
unseen = record { seen = []; plan = nothing_planned; summary = no_changes }

still_setup : IsStill setup
still_setup = record {
  lookup_still = λ id w. refl;
  mailboxes_still = λ w. refl;
  list_still = λ w. refl;
}

scan-Scanned_example :
    Post
      (Scanned setup still_setup caught_up two_items unseen)
      (λ x w'. Unit {0})
      (scan setup two_items unseen caught_up)
scan-Scanned_example = scan-Scanned setup still_setup caught_up two_items unseen

abbrev nothing_gathered : Gathered
nothing_gathered = record {
  created = [];
  updated = codes "c" ∷ [];
  destroyed = [];
  mailboxes_changed = false;
  state = state_named "s1";
}

gather-complete_iff_example :
    (gather setup 2 nothing_gathered caught_up
      ≡ (ok (complete (gathered_of nothing_gathered (one_page ∷ []))), caught_up))
    ↔ GivenPages setup 2 nothing_gathered caught_up
        (gathered_of nothing_gathered (one_page ∷ []))
        caught_up
gather-complete_iff_example =
    gather-complete_iff setup 2 nothing_gathered (gathered_of nothing_gathered (one_page ∷ []))
      caught_up caught_up
