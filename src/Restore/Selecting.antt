-- ===== src/Restore/Selecting.antt =====
-- restore/mod.rs: what `run_restore` restores and where to, by the archive; `read` of restore/reader.rs.
use mail_backup.Base.{
  ℕ, zero, suc, ◌+◌, Bool, true, false, not, ◌&&◌, Option, none, some, List, [], ◌∷◌, ◌++◌, Text,
  Bytes, system, Result, ok, err, Error, filter, is_some, is_empty, contains, ◌==◌, nat_eq, list_eq,
  if◌then◌else◌, Dictionary, get, put,
}
use mail_backup.Externals.{Externals}
use mail_backup.Entities.{MailboxRecord, MailboxIndex, find, parent_of}
use mail_backup.Messages
use mail_backup.Messages.{MailMessage}
use mail_backup.Stores.{StoredMessage}
use mail_backup.Stores.Disk.{parent}
use mail_backup.Restore.{Archive, unfiled_archive_id}

-- The content of a message, if it is what was recorded.
unfoldable pub read : Externals → Archive → StoredMessage → Result Bytes Error
read x archive m = elim (archive.content m) [
  | err e ↦ err e
  | ok raw ↦
      if x.sha256_hex raw == m.sha256
      then ok raw
      else err (record { kind = system; what = "checksum" })
]

-- The messages that the filter takes, and how many it does not.
pub record Selection : Type 0 where
  pub taken : List StoredMessage
  pub skipped : ℕ

unfoldable pub select :
    Externals
    → (MailMessage → Result Bool Error)
    → MailboxIndex
    → List StoredMessage
    → Result Selection Error
select x accepts index [] = ok (record { taken = []; skipped = 0 })
select x accepts index (m ∷ ms) = elim (accepts (Messages.new x m.meta index)) [
  | err e ↦ err e
  | ok matches ↦ elim (select x accepts index ms) [
    | err e ↦ err e
    | ok rest ↦
        if matches
        then ok (record rest { taken = m ∷ rest.taken })
        else ok (record rest { skipped = rest.skipped + 1 })
  ]
]

-- The directories of the mailboxes; a later one takes the place of a former.
unfoldable pub by_dir : List MailboxRecord → Dictionary Text → Dictionary Text
by_dir [] m = m
by_dir (r ∷ rs) m = by_dir rs (put m r.dir_path r.info.id)

-- The mailboxes that a message is restored into.
unfoldable pub resolve : MailboxIndex → Dictionary Text → StoredMessage → List Text
resolve index dirs m =
    let known = filter (λ id. is_some (find index id)) m.meta.mailbox_ids in
    if is_empty known
    then elim (get dirs (parent m.path)) [ some id ↦ id ∷ [] | none ↦ unfiled_archive_id ∷ [] ]
    else known

unfoldable pub is_unfiled : MailboxIndex → Dictionary Text → StoredMessage → Bool
is_unfiled index dirs m =
    is_empty (filter (λ id. is_some (find index id)) m.meta.mailbox_ids)
    && not (is_some (get dirs (parent m.path)))

-- The insertion of a set.
abbrev pub add : List Text → Text → List Text
add set id = if contains set id then set else set ++ id ∷ []

abbrev pub add_all : List Text → List Text → List Text
add_all set [] = set
add_all set (id ∷ ids) = add_all (add set id) ids

unfoldable pub needed_by :
    MailboxIndex → Dictionary Text → List StoredMessage → List Text → List Text
unfolding resolve
needed_by index dirs [] set = set
needed_by index dirs (m ∷ ms) set = needed_by index dirs ms (add_all set (resolve index dirs m))

unfoldable pub unfiled_needed : MailboxIndex → Dictionary Text → List StoredMessage → Bool
unfolding is_unfiled
unfiled_needed index dirs [] = false
unfiled_needed index dirs (m ∷ ms) =
    let rest = unfiled_needed index dirs ms in if is_unfiled index dirs m then true else rest

-- The ancestors of a mailbox, over so many of them; `none` where there are more.
unfoldable pub climb : ℕ → MailboxIndex → Option MailboxRecord → List Text → Option (List Text)
climb rounds index none set = some set
climb zero index (some r) set = none
climb (suc rounds) index (some r) set = elim (parent_of index r) [
  | none ↦ climb rounds index none set
  | some p ↦ climb rounds index (some p) (add set p.info.id)
]

unfoldable pub with_ancestors : ℕ → MailboxIndex → List Text → List Text → Option (List Text)
unfolding climb
with_ancestors rounds index [] set = some set
with_ancestors rounds index (id ∷ ids) set = elim (climb rounds index (find index id) set) [
  | none ↦ none
  | some set' ↦ with_ancestors rounds index ids set'
]

abbrev pub endless : Error
endless = record { kind = system; what = "out of rounds" }

abbrev pub or_endless : Option (List Text) → Result (List Text) Error
or_endless none = err endless
or_endless (some set) = ok set

-- `filter_map` over the mapping.
unfoldable pub target_ids : Dictionary Text → List Text → List Text
target_ids mapping [] = []
target_ids mapping (id ∷ ids) =
    let rest = target_ids mapping ids in elim (get mapping id) [ none ↦ rest | some t ↦ t ∷ rest ]
