-- ===== src/Restore.antt =====
-- restore/mod.rs: the target of a restore, and the mailboxes that are recreated there.
pub mod Selecting
pub mod Running
pub mod Tallied
pub mod Climbing
pub mod Returning
pub mod Completing
pub mod Kept
pub mod DryRun
pub mod Counting
pub mod Accounted
pub mod Unfiled
pub mod Mailboxes
mod Examples
use mail_backup.Base.{
  ℕ, zero, suc, ◌+◌, Bool, true, false, not, ◌&&◌, Option, none, some, List, [], ◌∷◌, ◌++◌, Text,
  Bytes, codes, Kind, system, Result, ok, err, Error, Exec, pure, raise, lift, reads, modify, ◌>>=◌,
  ◌>>◌, any, filter, sort, leb, contains, ◌==◌, nat_eq, list_eq, option_eq, if◌then◌else◌,
  Dictionary, get, put,
}
use mail_backup.Externals.{Externals}
use mail_backup.Entities.{
  MailboxInfo, MessageMeta, MailboxRecord, MailboxIndex, empty_index, find, name_path, parent_of,
}
use mail_backup.Entities
use mail_backup.Stores.{StoredMessage}
use mail_backup.Stores.Directory.{panic}
use mail_backup.Stores.Disk.{slash}

pub record RestoreTarget (W : Type 0) : Type 0 where
  pub connect : Exec W Text
  pub list_mailboxes : Exec W (List MailboxInfo)
  -- The name, the parent and the role.
  pub create_mailbox : Text → Option Text → Option Text → Exec W Text
  pub message_exists : MessageMeta → Exec W Bool
  -- The content, the mailboxes, the keywords and the time of reception.
  pub import : Bytes → List Text → List Text → ℕ → Exec W Text

pub record RestoreSummary : Type 0 where
  pub selected : ℕ
  pub imported : ℕ
  pub skipped_existing : ℕ
  pub skipped_filter : ℕ
  pub failed : ℕ
  pub mailboxes_created : ℕ
  pub dry_run : Bool

-- restore/reader.rs: the archive, with the content that is recorded for a message.
pub record Archive : Type 0 where
  pub mailboxes : List MailboxRecord
  pub messages : List StoredMessage
  pub content : StoredMessage → Result Bytes Error

unfoldable pub index_of : List MailboxRecord → MailboxIndex → MailboxIndex
index_of [] index = index
index_of (r ∷ rs) index = index_of rs (Entities.insert index r)

unfoldable pub mailbox_index : Archive → MailboxIndex
unfolding index_of
mailbox_index archive = index_of archive.mailboxes empty_index

-- What a restore changes: the world, its summary, and the number of mailboxes that a dry run made up.
pub record Restoring (W : Type 0) : Type 0 where
  pub world : W
  pub summary : RestoreSummary
  pub counter : ℕ

abbrev pub unfiled_archive_id : Text
unfiled_archive_id = 0 ∷ codes "unfiled"

-- The mailboxes of the target by their folded paths.
unfoldable pub paths_of :
    Externals → MailboxIndex → List MailboxInfo → Dictionary Text → Dictionary Text
paths_of x index [] m = m
paths_of x index (info ∷ infos) m = elim (name_path index info.id) [
  | none ↦ paths_of x index infos m
  | some path ↦ paths_of x index infos (put m (x.to_lowercase path) info.id)
]

unfoldable pub existing_index : List MailboxInfo → MailboxIndex → MailboxIndex
existing_index [] index = index
existing_index (info ∷ infos) index =
    existing_index infos (Entities.insert index (record { info = info; dir_path = [] }))

-- How many slashes a path has.
unfoldable pub depth : Text → ℕ
depth [] = 0
depth (c ∷ path) = let rest = depth path in if c == slash then rest + 1 else rest

unfoldable pub ordered : List MailboxRecord → List Text → List MailboxRecord
unfolding depth
ordered mailboxes needed =
    sort (λ a b. leb (depth a.dir_path) (depth b.dir_path))
      (filter (λ r. contains needed r.info.id) mailboxes)

-- What the loop over mailboxes carries: the paths that are there, and where each mailbox is.
pub record Mapped : Type 0 where
  pub by_path : Dictionary Text
  pub mapping : Dictionary Text

unfoldable pub target_path : Externals → Option Text → Text → Text
target_path x none name = x.to_lowercase name
target_path x (some prefix) name = x.to_lowercase (prefix ++ codes "/" ++ name)

-- The role, where the target has none such and no prefix is set.
unfoldable pub claimed_role : List MailboxInfo → Option Text → Option Text → Option Text
claimed_role existing (some prefix) role = none
claimed_role existing none none = none
claimed_role existing none (some role) =
    if any (λ (m : MailboxInfo). m.role == some role) existing then none else some role

unfoldable pub parent_target : Dictionary Text → Option Text → Option Text → Option Text
parent_target mapping prefix_id none = prefix_id
parent_target mapping prefix_id (some parent) = elim (get mapping parent) [
  | none ↦ prefix_id
  | some id ↦ some id
]

unfoldable pub unfiled_path : Option Text → Text
unfiled_path none = codes "unfiled"
unfiled_path (some prefix) = prefix ++ codes "/unfiled"

module _ {W : Type 0} (target : RestoreTarget W) where
  -- A call of the target.
  unfoldable pub on_target : {A : Type 0} → Exec W A → Exec (Restoring W) A
  on_target m s = let (r, w) = m s.world in (r, record s { world = w })

  -- The number of a mailbox that a dry run makes up is one character of its id.
  unfoldable pub create : Bool → Text → Option Text → Option Text → Exec (Restoring W) Text
  unfolding on_target
  create dry_run name parent role = do
    modify (λ s. record s {
      summary = record s.summary { mailboxes_created = s.summary.mailboxes_created + 1 };
    })
    if dry_run
        then (do
          modify (λ s. record s { counter = s.counter + 1 })
          reads (λ s. codes "dry-run-" ++ s.counter ∷ []))
        else on_target (target.create_mailbox name parent role)

  module _ (x : Externals) (dry_run : Bool) where
    unfoldable pub ensure_prefix :
        Option Text → Dictionary Text → Exec (Restoring W) (Option Text × Dictionary Text)
    unfolding create
    ensure_prefix none by_path = pure (none, by_path)
    ensure_prefix (some prefix) by_path = elim (get by_path (x.to_lowercase prefix)) [
      | some id ↦ pure (some id, by_path)
      | none ↦ do
        id ← create dry_run prefix none none
        pure (some id, put by_path (x.to_lowercase prefix) id)
    ]

    unfoldable pub ensure_mailbox :
        MailboxIndex
        → List MailboxInfo
        → Option Text
        → Option Text
        → MailboxRecord
        → Mapped
        → Exec (Restoring W) Mapped
    unfolding create target_path claimed_role parent_target
    ensure_mailbox archive_index existing prefix prefix_id r m =
        elim (name_path archive_index r.info.id) [
          | none ↦ raise panic
          | some name ↦ elim (get m.by_path (target_path x prefix name)) [
            | some id ↦ pure (record m { mapping = put m.mapping r.info.id id })
            | none ↦ do
              id ←
                  create dry_run r.info.name (parent_target m.mapping prefix_id r.info.parent_id)
                    (claimed_role existing prefix r.info.role)
              pure (record {
                by_path = put m.by_path (target_path x prefix name) id;
                mapping = put m.mapping r.info.id id;
              })
          ]
        ]

    unfoldable pub ensure_each :
        MailboxIndex
        → List MailboxInfo
        → Option Text
        → Option Text
        → List MailboxRecord
        → Mapped
        → Exec (Restoring W) Mapped
    unfolding ensure_mailbox
    ensure_each archive_index existing prefix prefix_id [] m = pure m
    ensure_each archive_index existing prefix prefix_id (r ∷ rs) m = do
      next ← ensure_mailbox archive_index existing prefix prefix_id r m
      ensure_each archive_index existing prefix prefix_id rs next

    unfoldable pub ensure_unfiled :
        Option Text → Option Text → Mapped → Exec (Restoring W) (Dictionary Text)
    unfolding create unfiled_path
    ensure_unfiled prefix prefix_id m = do
      id ← elim (get m.by_path (unfiled_path prefix)) [
        | some id ↦ pure id
        | none ↦ create dry_run (codes "Unfiled") prefix_id none
      ]
      pure (put m.mapping unfiled_archive_id id)

    unfoldable pub ensure_mailboxes :
        Archive → List Text → Bool → Option Text → Exec (Restoring W) (Dictionary Text)
    unfolding on_target existing_index paths_of ensure_prefix ordered mailbox_index ensure_each
        ensure_unfiled
    ensure_mailboxes archive needed unfiled_needed prefix = do
      existing ← on_target target.list_mailboxes
      rooted ← ensure_prefix prefix (paths_of x (existing_index existing empty_index) existing [])
      m ←
          ensure_each (mailbox_index archive) existing prefix rooted.0
            (ordered archive.mailboxes needed) (record { by_path = rooted.1; mapping = [] })
      if unfiled_needed then ensure_unfiled prefix rooted.0 m else pure m.mapping
