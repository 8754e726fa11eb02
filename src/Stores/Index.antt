-- ===== src/Stores/Index.antt =====
-- stores/index.rs: the index of a store's messages, by id and by path, and of its mailboxes.
pub mod Valid
pub mod Differences
use mail_backup.Base.{
  ℕ, Bool, true, false, not, ◌&&◌, Option, none, some, List, [], ◌∷◌, ◌++◌, map, filter, any, Text,
  codes, Dictionary, get, put, erase, values, starts_with, is_some, sort, text_leb, ◌==◌, nat_eq,
  list_eq, if◌then◌else◌,
}
use mail_backup.Entities.{MailboxRecord, MailboxIndex, empty_index, find, iter}
use mail_backup.Stores.{StoredMessage}

pub record StoreIndex : Type 0 where
  pub emails : Dictionary StoredMessage
  pub by_path : Dictionary Text
  pub mailboxes : MailboxIndex

abbrev pub empty_store : StoreIndex
empty_store = record { emails = []; by_path = []; mailboxes = empty_index }

unfoldable pub get_message : StoreIndex → Text → Option StoredMessage
get_message index id = get index.emails id

-- `by_path`, without the path of the message's former copy.
unfoldable pub forget_path : StoreIndex → Text → Dictionary Text
forget_path index id = elim (get index.emails id) [
  | none ↦ index.by_path
  | some previous ↦ erase index.by_path previous.path
]

unfoldable pub insert_message : StoreIndex → StoredMessage → StoreIndex
unfolding forget_path
insert_message index message = record index {
  by_path = put (forget_path index message.meta.id) message.path message.meta.id;
  emails = put index.emails message.meta.id message;
}

unfoldable pub remove_message : StoreIndex → Text → Option StoredMessage × StoreIndex
unfolding forget_path
remove_message index id = (
  get index.emails id,
  record index { emails = erase index.emails id; by_path = forget_path index id },
)

unfoldable pub messages : StoreIndex → List StoredMessage
messages index = values index.emails

unfoldable pub path_owner : StoreIndex → Text → Option Text
path_owner index path = get index.by_path path

-- Whether a path is below a directory.
abbrev pub below : Text → Text → Bool
below dir_prefix path = starts_with path (dir_prefix ++ codes "/")

unfoldable pub messages_under : StoreIndex → Text → List Text
messages_under index dir_prefix =
    map (λ (e : Text × Text). e.1)
      (filter (λ (e : Text × Text). below dir_prefix e.0) index.by_path)

unfoldable pub has_mailboxes_under : StoreIndex → Text → Bool
has_mailboxes_under index dir_prefix = any (λ r. below dir_prefix r.dir_path) (iter index.mailboxes)

abbrev message_name : Text → Text → Text
message_name id path = codes "message " ++ id ++ codes " (" ++ path ++ codes ")"

abbrev mailbox_name : Text → Text → Text
mailbox_name id path = codes "mailbox " ++ id ++ codes " (" ++ path ++ codes ")"

abbrev misplaced : Text → Text → Text → Text → Text
misplaced what id found expected =
    what ++ id ++ codes " is at " ++ found ++ codes " instead of " ++ expected

-- What is said of an expected message, by what is found under its id.
unfoldable pub message_issues : StoredMessage → Option StoredMessage → List Text
message_issues m none = (message_name m.meta.id m.path ++ codes " is missing") ∷ []
message_issues m (some found) =
    (if found.path == m.path
      then []
      else misplaced (codes "message ") m.meta.id found.path m.path ∷ [])
    ++ (if found.sha256 == m.sha256
        then []
        else (message_name m.meta.id m.path ++ codes " has different content") ∷ [])

unfoldable pub mailbox_issues : MailboxRecord → Option MailboxRecord → List Text
mailbox_issues r none = (mailbox_name r.info.id r.dir_path ++ codes " is missing") ∷ []
mailbox_issues r (some found) =
    if found.dir_path == r.dir_path
    then []
    else misplaced (codes "mailbox ") r.info.id found.dir_path r.dir_path ∷ []

-- What is said of something that only the actual index has.
unfoldable pub unexpected : Text → Bool → List Text
unexpected name known = if known then [] else (name ++ codes " is present but not expected") ∷ []

-- A loop that pushes what it says of each element.
abbrev pub gathered : {A : Type 0} → (A → List Text) → List A → List Text
gathered f [] = []
gathered f (x ∷ xs) = f x ++ gathered f xs

module _ (expected actual : StoreIndex) where
  unfoldable pub all_issues : List Text
  all_issues =
      gathered (λ m. message_issues m (get_message actual m.meta.id)) (messages expected)
      ++ (gathered
            (λ m.
              unexpected (message_name m.meta.id m.path) (is_some (get_message expected m.meta.id)))
            (messages actual)
          ++ (gathered (λ r. mailbox_issues r (find actual.mailboxes r.info.id))
                (iter expected.mailboxes)
              ++ gathered
                  (λ r.
                    unexpected (mailbox_name r.info.id r.dir_path)
                      (is_some (find expected.mailboxes r.info.id)))
                  (iter actual.mailboxes)))

  unfoldable pub diff_indexes : List Text
  unfolding all_issues
  diff_indexes = sort text_leb all_issues
