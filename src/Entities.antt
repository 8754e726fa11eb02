-- ===== src/Entities.antt =====
-- entities/mail.rs: mailboxes, messages, events and cursors. Instants are nanoseconds since 1970.
pub mod Paths
pub mod Rebase
mod Examples
use mail_backup.Base.{
  ℕ, zero, suc, ◌/◌, ◌*◌, ◌+◌, Bool, true, false, ◌&&◌, Option, none, some, List, [], ◌∷◌, ◌++◌,
  map, Text, Bytes, codes, Dictionary, get, put, erase, values, length, strip_prefix, Eq, ◌==◌,
  nat_eq, list_eq, option_eq, if◌then◌else◌, arith, eq_iff, ◌↔◌, ◌≡◌,
}

pub record MailboxInfo : Type 0 where
  pub id : Text
  pub name : Text
  pub role : Option Text
  pub parent_id : Option Text
  pub sort_order : ℕ

pub record MessageMeta : Type 0 where
  pub id : Text
  pub blob_id : Text
  pub thread_id : Text
  pub mailbox_ids : List Text
  pub keywords : List Text
  pub received_at : ℕ
  pub size : ℕ
  pub message_id : List Text
  pub subject : Option Text
  pub from : List Text

abbrev pub nanos_per_second : ℕ
nanos_per_second = 1000000000

-- A `NaiveDate`, as days since 1970.
unfoldable pub received_day : MessageMeta → ℕ
received_day meta = meta.received_at / (86400 * nanos_per_second)

pub record MailboxRecord : Type 0 where
  pub info : MailboxInfo
  pub dir_path : Text

pub record MailboxIndex : Type 0 where
  pub boxes : Dictionary MailboxRecord

-- The derived equality of `MailboxInfo`.
pub info_beq : MailboxInfo → MailboxInfo → Bool
info_beq a b =
    a.id == b.id
    && a.name == b.name
    && a.role == b.role
    && a.parent_id == b.parent_id
    && a.sort_order == b.sort_order

pub info_beq_iff : (a b : MailboxInfo) → (info_beq a b ≡ true) ↔ (a ≡ b)
unfolding info_beq
info_beq_iff a b = ground (
  arith,
  eq_iff a.id b.id,
  eq_iff a.name b.name,
  eq_iff a.role b.role,
  eq_iff a.parent_id b.parent_id,
)

instance abbrev pub info_eq : Eq MailboxInfo
info_eq = record { same = info_beq; same_iff = info_beq_iff }

abbrev pub empty_index : MailboxIndex
empty_index = record { boxes = [] }

unfoldable pub insert : MailboxIndex → MailboxRecord → MailboxIndex
insert index r = record { boxes = put index.boxes r.info.id r }

unfoldable pub remove : MailboxIndex → Text → MailboxIndex
remove index id = record { boxes = erase index.boxes id }

unfoldable pub find : MailboxIndex → Text → Option MailboxRecord
find index id = get index.boxes id

unfoldable pub iter : MailboxIndex → List MailboxRecord
iter index = values index.boxes

-- The record of the mailbox's parent, if both are known.
unfoldable pub parent_of : MailboxIndex → MailboxRecord → Option MailboxRecord
unfolding find
parent_of index r = elim r.info.parent_id [ none ↦ none | some p ↦ find index p ]

-- The names from a mailbox up, over at most so many parents.
pub ancestors : ℕ → MailboxIndex → MailboxRecord → List Text
ancestors zero index r = r.info.name ∷ []
ancestors (suc n) index r = elim (parent_of index r) [
  | none ↦ r.info.name ∷ []
  | some parent ↦ r.info.name ∷ ancestors n index parent
]

-- The names, last to first, joined by `/`.
pub join_up : List Text → Text
join_up [] = []
join_up (s ∷ []) = s
join_up (s ∷ t ∷ rest) = join_up (t ∷ rest) ++ codes "/" ++ s

unfoldable pub name_path : MailboxIndex → Text → Option Text
unfolding find ancestors join_up parent_of
name_path index id = elim (find index id) [
  | none ↦ none
  | some r ↦ some (join_up (ancestors (length index.boxes) index r))
]

-- Where a directory goes when `old_prefix` becomes `new_prefix`; `none` if it is not below it.
pub rebased : Text → Text → Text → Option Text
rebased old_prefix new_prefix dir =
    if dir == old_prefix
    then some new_prefix
    else elim (strip_prefix dir (old_prefix ++ codes "/")) [
      | none ↦ none
      | some rest ↦ some (new_prefix ++ codes "/" ++ rest)
    ]

rebase_record : Text → Text → MailboxRecord → MailboxRecord
unfolding rebased
rebase_record old_prefix new_prefix r = elim (rebased old_prefix new_prefix r.dir_path) [
  | none ↦ r
  | some dir ↦ record r { dir_path = dir }
]

rebase_boxes : Text → Text → Dictionary MailboxRecord → Dictionary MailboxRecord
unfolding rebase_record
rebase_boxes old_prefix new_prefix [] = []
rebase_boxes old_prefix new_prefix ((id, r) ∷ boxes) =
    (id, rebase_record old_prefix new_prefix r) ∷ rebase_boxes old_prefix new_prefix boxes

affected : Text → Text → Dictionary MailboxRecord → List Text
unfolding rebased
affected old_prefix new_prefix [] = []
affected old_prefix new_prefix ((id, r) ∷ boxes) =
    let rest = affected old_prefix new_prefix boxes in
    elim (rebased old_prefix new_prefix r.dir_path) [ none ↦ rest | some dir ↦ r.info.id ∷ rest ]

unfoldable pub rebase_dir_paths : MailboxIndex → Text → Text → List Text × MailboxIndex
unfolding affected rebase_boxes
rebase_dir_paths index old_prefix new_prefix = (
  affected old_prefix new_prefix index.boxes,
  record { boxes = rebase_boxes old_prefix new_prefix index.boxes },
)

pub record SourceState : Type 0 where
  pub account_id : Text
  pub email_state : Option Text
  pub mailbox_state : Option Text

pub state_beq : SourceState → SourceState → Bool
state_beq a b =
    a.account_id == b.account_id
    && a.email_state == b.email_state
    && a.mailbox_state == b.mailbox_state

pub state_beq_iff : (a b : SourceState) → (state_beq a b ≡ true) ↔ (a ≡ b)
unfolding state_beq
state_beq_iff a b = ground (
  arith,
  eq_iff a.account_id b.account_id,
  eq_iff a.email_state b.email_state,
  eq_iff a.mailbox_state b.mailbox_state,
)

instance abbrev pub state_eq : Eq SourceState
state_eq = record { same = state_beq; same_iff = state_beq_iff }

pub record ChangeSet : Type 0 where
  pub state : SourceState
  pub mailboxes_changed : Bool
  pub created : List Text
  pub updated : List Text
  pub destroyed : List Text
  pub has_more : Bool

pub record DateRange : Type 0 where
  pub start : Option ℕ
  pub end : Option ℕ

abbrev pub all_dates : DateRange
all_dates = record { start = none; end = none }
