-- ===== src/Stores/Persistence.antt =====
-- stores/index.rs: the files in which a store keeps its state and its index.
pub mod Replacing
pub mod Saving
use mail_backup.Base.{
  ℕ, Bool, true, false, Option, none, some, List, [], ◌∷◌, map, Text, Bytes, codes, String, Kind,
  system, Result, ok, err, Error, Exec, pure, raise, lift, reads, ◌>>=◌, ◌>>◌, when, is_some, get,
  put, erase, sort, text_leb,
}
use mail_backup.Entities.{MailboxInfo, MailboxRecord, MailboxIndex, iter}
use mail_backup.Entities
use mail_backup.Stores.{StoredMessage, StoreState}
use mail_backup.Stores.Index.{StoreIndex, empty_store, insert_message, messages}
use mail_backup.Stores.Disk.{Disk, with_extension}

pub record MailboxFileRecord : Type 0 where
  pub info : MailboxInfo
  pub dir_path : Text

pub record IndexFile : Type 0 where
  pub emails : List StoredMessage
  pub mailboxes : List MailboxFileRecord

-- `serde_json`: a document that cannot be read as the type gives `none`.
pub record Json : Type 0 where
  pub state_to_vec : StoreState → Bytes
  pub state_from_slice : Bytes → Option StoreState
  pub index_to_vec : IndexFile → Bytes
  pub index_from_slice : Bytes → Option IndexFile

-- `StoreState::default()`
abbrev pub fresh_state : StoreState
fresh_state = record {
  source = record { account_id = []; email_state = none; mailbox_state = none };
  backfill = none;
  current_commit_day = none;
  head_at_save = none;
}

abbrev pub state_path : Text
state_path = codes "state.json"

abbrev pub index_path : Text
index_path = codes "index.json"

-- An operation that fails where the disk's next fault says so, and then does nothing.
unfoldable pub attempt_with : List Bool → String → (Disk → Disk) → Exec Disk (Unit {0})
attempt_with [] what f d = (ok tt, f (record d { faults = [] }))
attempt_with (true ∷ rest) what f d =
    (err (record { kind = system; what = what }), record d { faults = rest })
attempt_with (false ∷ rest) what f d = (ok tt, f (record d { faults = rest }))

abbrev pub attempt : String → (Disk → Disk) → Exec Disk (Unit {0})
attempt what f d = attempt_with d.faults what f d

abbrev pub temporary : Text → Text
temporary path = with_extension path (codes "tmp-mb")

-- `fs::rename` within the state directory.
unfoldable pub rename_state : Text → Text → Disk → Disk
rename_state from to d = elim (get d.state_dir from) [
  | none ↦ d
  | some content ↦ record d { state_dir = put (erase d.state_dir from) to content }
]

unfoldable pub write_atomic : Text → Bytes → Exec Disk (Unit {0})
unfolding attempt_with rename_state
write_atomic path content = do
  attempt "create the state directory" (λ d. d)
  attempt "write" (λ d. record d { state_dir = put d.state_dir (temporary path) content })
  present ← reads (λ d. is_some (get d.state_dir path))
  when present (attempt "replace" (λ d. record d { state_dir = erase d.state_dir path }))
  attempt "finalize" (rename_state (temporary path) path)

unfoldable pub to_file_record : MailboxRecord → MailboxFileRecord
to_file_record r = record { info = r.info; dir_path = r.dir_path }

unfoldable pub to_index_file : StoreIndex → IndexFile
unfolding to_file_record
to_index_file index = record {
  emails = sort (λ a b. text_leb a.meta.id b.meta.id) (messages index);
  mailboxes =
      sort (λ a b. text_leb a.info.id b.info.id) (map to_file_record (iter index.mailboxes));
}

unfoldable pub insert_mailboxes : List MailboxFileRecord → StoreIndex → StoreIndex
insert_mailboxes [] index = index
insert_mailboxes (r ∷ rs) index = insert_mailboxes rs (record index {
  mailboxes = Entities.insert index.mailboxes (record { info = r.info; dir_path = r.dir_path });
})

unfoldable pub insert_messages : List StoredMessage → StoreIndex → StoreIndex
insert_messages [] index = index
insert_messages (m ∷ ms) index = insert_messages ms (insert_message index m)

unfoldable pub from_index_file : IndexFile → StoreIndex
unfolding insert_mailboxes insert_messages
from_index_file file = insert_messages file.emails (insert_mailboxes file.mailboxes empty_store)

module _ (json : Json) where
  abbrev pub bad_state : Error
  bad_state = record { kind = system; what = "the state file cannot be parsed" }

  unfoldable pub load_state : Disk → Result (Option StoreState) Error
  load_state d = elim (get d.state_dir state_path) [
    | none ↦ ok none
    | some content ↦ elim (json.state_from_slice content) [
      | none ↦ err bad_state
      | some s ↦ ok (some s)
    ]
  ]

  unfoldable pub save_state : StoreState → Exec Disk (Unit {0})
  save_state state = write_atomic state_path (json.state_to_vec state)

  unfoldable pub load_index : Disk → Option StoreIndex
  unfolding from_index_file
  load_index d = elim (get d.state_dir index_path) [
    | none ↦ none
    | some content ↦ elim (json.index_from_slice content) [
      | none ↦ none
      | some file ↦ some (from_index_file file)
    ]
  ]

  unfoldable pub save_index : StoreIndex → Exec Disk (Unit {0})
  unfolding to_index_file
  save_index index = write_atomic index_path (json.index_to_vec (to_index_file index))
