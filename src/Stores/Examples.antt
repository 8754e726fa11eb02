-- ===== src/Stores/Examples.antt =====
-- Test data for the stores, and the theorems about them at it.
pub mod Formats
use mail_backup.Base.{
  ℕ, Bool, true, false, Option, none, some, List, [], ◌∷◌, ◌++◌, Text, Bytes, codes, ◌≡◌, ◌≢◌, ◌↔◌,
  ◌⊎◌, inl, inr, refl, ok, err, get, put, Post, list_beq, ◌==◌, nat_eq, list_eq, if◌then◌else◌,
}
use mail_backup.Base.Codec.{
  Codec, number_codec, text_codec, option_codec, list_codec, pair_codec, via, write_whole,
  read_whole, read_whole-write_whole,
}
use mail_backup.Externals.{Externals}
use mail_backup.Entities.{MessageMeta, SourceState, received_day}
use mail_backup.Layout.{sidecar_path, unfiled_dir, message_path}
use mail_backup.Stores.{StoreState, StoredMessage, BackfillCursor, added, removed, unchanged}
use mail_backup.Stores.Laws.{IsStore}
use mail_backup.Stores.Sidecar.{
  MessageSidecar, MailboxSidecar, Yaml, IsYaml, new_message, to_meta, message_bytes, parse_message,
  sidecar_canonical,
}
use mail_backup.Stores.Index.{
  empty_store, get_message, insert_message, remove_message, path_owner, diff_indexes,
}
use mail_backup.Stores.Index.Valid.{IsValid, IsFree, insert_message-IsValid, remove_message-IsValid}
use mail_backup.Stores.Index.Differences.{Agree, diff_indexes_iff}
use mail_backup.Stores.Disk.{Disk}
use mail_backup.Stores.Persistence.{Json, fresh_state, state_path, load_state, save_state}
use mail_backup.Stores.Persistence.Saving.{save_state-load_state, save_state_window}
use mail_backup.Stores.Directory.{DirMailStore, new, hex_digest}
use mail_backup.Stores.Directory.Emails.{
  path_for, is_taken, message_dir, apply_message_added, apply_message_deleted,
}
use mail_backup.Entities.{MailboxRecord, find}
use mail_backup.Stores.{skipped}
use mail_backup.Stores.Directory.Mailboxes.{is_occupied, apply_mailbox_deleted}
use mail_backup.Stores.Directory.Deferral.{Removed, apply_mailbox_deleted-Removed}
use mail_backup.Stores.Directory.Running.{dir_store, open_store}
use mail_backup.Stores.Directory.Running.Opening.{SameFiles, Opened, open_store-Opened}
use mail_backup.Stores.Directory.Running.Store.{IsJson, saved_progress, dir_store-IsStore}
use mail_backup.Stores.Directory.Delivery.{Holds, apply_message_added-Holds}
use mail_backup.Stores.Directory.Deletion.{Deleted, apply_message_deleted-Deleted}
use mail_backup.Stores.Directory.Redelivery.{apply_message_added_twice}
use mail_backup.Stores.Examples.Formats.{yaml, yaml-IsYaml, json, json-IsJson}

abbrev plain : Externals
plain = record {
  sha256_hex = λ b. b;
  nfc = λ t. t;
  to_lowercase = λ t. t;
  as_bytes = λ t. t;
  format_instant = λ n. codes "20260101-000000";
  format_rfc3339 = λ n. codes "2026-01-01T00:00:00Z";
  format_day = λ n. codes "2026-01-01";
}

abbrev meta : MessageMeta
meta = record {
  id = codes "m";
  blob_id = codes "b";
  thread_id = codes "t";
  mailbox_ids = [];
  keywords = [];
  received_at = 1500000000;
  size = 3;
  message_id = [];
  subject = none;
  from = [];
}

abbrev raw : Bytes
raw = 1 ∷ 2 ∷ 3 ∷ []

abbrev disk : Disk
disk = record { tree = []; dirs = []; state_dir = []; faults = [] }

abbrev path : Text
path = codes "_unfiled/20260101-000000-" ++ raw ++ codes ".eml"

abbrev stored : StoredMessage
stored = record { meta = to_meta (new_message meta raw); path = path; sha256 = raw }

-- A store that has the message.
abbrev filled : DirMailStore
filled = record {
  disk = record {
    tree = (path, raw) ∷ (sidecar_path path, message_bytes yaml (new_message meta raw)) ∷ [];
    dirs = unfiled_dir ∷ [];
    state_dir = [];
    faults = [];
  };
  state = fresh_state;
  index = insert_message empty_store stored;
  path_edits = [];
  opened = true;
}

sidecar_canonical_example :
    let again = to_meta (new_message meta raw) in
    (parse_message yaml (message_bytes yaml (new_message meta raw)) ≡ ok (new_message meta raw))
    × (again.id ≡ meta.id)
    × (again.mailbox_ids ≡ meta.mailbox_ids)
    × (again.keywords ≡ meta.keywords)
    × (received_day again ≡ received_day meta)
    × (message_bytes yaml (new_message again raw) ≡ message_bytes yaml (new_message meta raw))
sidecar_canonical_example = sidecar_canonical yaml yaml-IsYaml meta raw

nothing_held :
    (m : StoredMessage) → get_message empty_store meta.id ≡ some m → m.sha256 ≢ hex_digest plain raw
unfolding get_message get
nothing_held m e = absurd cc

empty-IsValid : IsValid empty_store
unfolding get_message path_owner get
empty-IsValid = record {
  keyed = λ id m e. absurd cc;
  owns = λ id m e. absurd cc;
  owned = λ path id e. absurd cc;
}

stored_path-IsFree : IsFree empty_store stored.meta.id stored.path
unfolding path_owner get
stored_path-IsFree = inl refl

insert_message-IsValid_example : IsValid (insert_message empty_store stored)
insert_message-IsValid_example =
    insert_message-IsValid empty_store stored empty-IsValid stored_path-IsFree

remove_message-IsValid_example :
    IsValid (remove_message empty_store meta.id).1
    × (get_message (remove_message empty_store meta.id).1 meta.id ≡ none)
remove_message-IsValid_example = remove_message-IsValid empty_store meta.id empty-IsValid

diff_indexes_iff_example :
    (diff_indexes empty_store filled.index ≡ []) ↔ Agree empty_store filled.index
diff_indexes_iff_example = diff_indexes_iff empty_store filled.index

save_state-load_state_example :
    Post
      (λ u d'. (load_state json d' ≡ ok (some fresh_state)) × (d'.tree ≡ disk.tree))
      (λ x d'.
        ((load_state json d' ≡ load_state json disk) ⊎ (load_state json d' ≡ ok none))
        × (d'.tree ≡ disk.tree))
      (save_state json fresh_state disk)
save_state-load_state_example =
    save_state-load_state json fresh_state disk (json-IsJson.state_back fresh_state)

abbrev saved_disk : Disk
saved_disk = record disk { state_dir = (state_path, raw) ∷ [] }

was_saved : get saved_disk.state_dir state_path ≡ some raw
unfolding get list_beq
was_saved = refl

save_state_window_example :
    Post {A = Unit {0}}
      (λ u d'. ⊥)
      (λ x d'. load_state json d' ≡ ok none)
      (save_state json fresh_state
        (record saved_disk { faults = false ∷ false ∷ false ∷ true ∷ [] }))
save_state_window_example = save_state_window json fresh_state saved_disk raw [] was_saved

dir_store-IsStore_example : IsStore (dir_store plain yaml json) (saved_progress json)
dir_store-IsStore_example = dir_store-IsStore json json-IsJson plain yaml

apply_message_added-Holds_example :
    Post
      (λ outcome s'.
        (outcome ≡ added)
        × ((path : Text) × Holds plain yaml meta raw (hex_digest plain raw) path s'))
      (λ e s'.
        (get_message s'.index meta.id ≡ get_message empty_store meta.id)
        ⊎ (get_message s'.index meta.id ≡ none))
      (apply_message_added plain yaml meta raw (new disk))
unfolding new
apply_message_added-Holds_example =
    apply_message_added-Holds plain yaml meta raw (new disk) nothing_held

is_stored : get_message filled.index meta.id ≡ some stored
unfolding get_message insert_message get put to_meta new_message list_beq
is_stored = refl

filled-Holds : Holds plain yaml meta raw (hex_digest plain raw) path filled
unfolding hex_digest get list_beq sidecar_path mail_backup.Base.strip_suffix
filled-Holds = (is_stored, refl, refl)

path_for_same : path_for plain meta (hex_digest plain raw) filled.index ≡ path
unfolding path_for hex_digest message_path is_taken message_dir insert_message get put list_beq
    to_meta new_message
path_for_same = refl

apply_message_added_twice_example :
    let (outcome, s') = apply_message_added plain yaml meta raw filled in
    (outcome ≡ ok unchanged)
    × (s'.disk ≡ filled.disk)
    × (s'.path_edits ≡ filled.path_edits)
    × ((j : Text) → get_message s'.index j ≡ get_message filled.index j)
apply_message_added_twice_example =
    apply_message_added_twice plain yaml meta raw path filled filled-Holds path_for_same

apply_message_deleted-Deleted_example :
    Post
      (λ outcome s'.
        (outcome ≡ removed)
        × Deleted path filled s'
        × ((j : Text)
            → get_message s'.index j ≡ (if meta.id == j then none else get_message filled.index j)))
      (λ x s'. get_message s'.index meta.id ≡ none)
      (apply_message_deleted meta.id filled)
apply_message_deleted-Deleted_example =
    apply_message_deleted-Deleted meta.id stored filled is_stored

open_store-Opened_example :
    Post {A = Unit {0}}
      (λ u. Opened json yaml filled)
      (λ x. SameFiles filled)
      (open_store json yaml filled)
open_store-Opened_example = open_store-Opened json yaml filled

-- A mailbox that has the message.
abbrev box : MailboxRecord
box = record {
  info = record {
    id = codes "i";
    name = codes "Inbox";
    role = none;
    parent_id = none;
    sort_order = 0;
  };
  dir_path = unfiled_dir;
}

abbrev with_box : DirMailStore
with_box = record filled {
  index = record filled.index { mailboxes = record { boxes = (codes "i", box) ∷ [] } };
}

apply_mailbox_deleted-Removed_example :
    Post
      (λ outcome s'.
        ((outcome ≡ unchanged)
          × (find with_box.index.mailboxes (codes "i") ≡ none)
          × (s' ≡ with_box))
        ⊎ ((r : MailboxRecord) × (find with_box.index.mailboxes (codes "i") ≡ some r)
            × (((outcome ≡ skipped)
                  × (is_occupied with_box.index r.dir_path ≡ true)
                  × (s' ≡ with_box))
                ⊎ ((outcome ≡ removed)
                    × (is_occupied with_box.index r.dir_path ≡ false)
                    × Removed (codes "i") r with_box s'))))
      (λ x s'. s'.index ≡ with_box.index)
      (apply_mailbox_deleted (codes "i") with_box)
apply_mailbox_deleted-Removed_example = apply_mailbox_deleted-Removed (codes "i") with_box
