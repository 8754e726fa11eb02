-- ===== src/Restore/Completing.antt =====
-- restore/mod.rs: that a whole restore ends with its summary.
use mail_backup.Base.{
  All, ℕ, ◌+◌, ◌<◌, Bool, true, false, not, ◌&&◌, Option, none, some, List, [], ◌∷◌, Text, Bytes,
  Result, ok, err, Error, Exec, lift, reads, ◌>>=◌, length, Post-ok, Dictionary, if◌then◌else◌, ◌≡◌,
  refl, arith, Returns, Returns-pure, Returns-reads, Returns-lift, Returns-modify, Returns-if,
  Returns-bind, returns_rules,
}
use mail_backup.Externals.{Externals}
use mail_backup.Entities.{MailboxIndex, MailboxRecord, find, parent_of}
use mail_backup.Messages.{MailMessage}
use mail_backup.Messages
use mail_backup.Stores.{StoredMessage}
use mail_backup.Restore.{RestoreSummary, Archive, Restoring, on_target, create, mailbox_index}
use mail_backup.Restore.Returning.{ensure_mailboxes-Returns}
use mail_backup.Restore.Climbing.{IsFound, with_ancestors_enough}
use mail_backup.Restore.Accounted.{Accounted, run_restore-Accounted}
use mail_backup.Restore.Counting.{Anything}
use mail_backup.Restore.Selecting.{
  Selection, read, select, by_dir, resolve, needed_by, unfiled_needed, or_endless, with_ancestors,
  target_ids,
}
use mail_backup.Restore.Running.{
  RestoreSetup, bump, chosen_filter, import_message, is_present, restore_message, is_cancelled,
  restore_messages, restore_selected, start, run_restore,
}

-- A message has the content that was recorded.
abbrev pub IsReadable : Externals → Archive → StoredMessage → Type 0
IsReadable x archive m = (raw : Bytes) × (read x archive m ≡ ok raw)

-- The calls that a restore makes, but for the imports, return, and each message of the
-- archive has the content that was recorded.
pub record IsWilling {W : Type 0} (e : RestoreSetup W) (archive : Archive) : Type 0 where
  pub connected : Returns e.target.connect
  pub listed : Returns e.target.list_mailboxes
  pub made :
      (name : Text) (parent role : Option Text) → Returns (e.target.create_mailbox name parent role)
  pub asked : (m : StoredMessage) → Returns (e.target.message_exists m.meta)
  pub readable : All (IsReadable e.externals archive) archive.messages

-- The filter selects from these messages, and only such of them as `P` holds of.
abbrev Selects : (StoredMessage → Type 0) → Result Selection Error → Type 0
Selects P (err e) = ⊥
Selects P (ok c) = All P c.taken

select_ends :
    (x : Externals) (accepts : MailMessage → Result Bool Error) (index : MailboxIndex)
    (P : StoredMessage → Type 0) (ms : List StoredMessage)
    → ((m : MailMessage) → (b : Bool) × (accepts m ≡ ok b))
    → All P ms
    → Selects P (select x accepts index ms)
unfolding select
select_ends x accepts index P [] h ps = tt
select_ends x accepts index P (m ∷ ms) h ps =
    go (accepts (Messages.new x m.meta index)) (h (Messages.new x m.meta index))
      (select x accepts index ms) (select_ends x accepts index P ms h ps.1)
  where
    go :
        (b : Result Bool Error)
        → (matches : Bool) × (b ≡ ok matches)
        → (rest : Result Selection Error) → Selects P rest
        → Selects P (elim b as (λ y. Result Selection Error) [
          | err e ↦ err e
          | ok matches ↦ elim rest [
            | err e ↦ err e
            | ok rest ↦
                if matches
                then ok (record rest { taken = m ∷ rest.taken })
                else ok (record rest { skipped = rest.skipped + 1 })
          ]
        ])
    go (err x) (b, k) rest l = absurd (ground arith)
    go (ok b) k (err x) l = l
    go (ok true) k (ok c) l = (ps.0, l)
    go (ok false) k (ok c) l = l

module _ {W : Type 0} (e : RestoreSetup W) (archive : Archive) (willing : IsWilling e archive) where
  on_target-Returns : {A : Type 0} (m : Exec W A) → Returns m → Returns (on_target e.target m)
  unfolding on_target
  on_target-Returns m h = record { at = λ s. h.at s.world }

  create-Returns :
      (name : Text) (parent role : Option Text)
      → Returns (create e.target e.dry_run name parent role)
  unfolding create
  create-Returns name parent role =
      let created =
        on_target-Returns (e.target.create_mailbox name parent role)
          (willing.made name parent role) in
      search returns_rules

  import_message-Returns :
      (m : StoredMessage) (ids : List Text) (raw : Bytes) → Returns (import_message e m ids raw)
  unfolding import_message
  import_message-Returns m ids raw = record {
    at = λ s. go s (e.target.import raw ids m.meta.keywords m.meta.received_at s.world);
  }
    where
      go :
          (s : Restoring W) (p : Result Text Error × W)
          → (u : Unit {0}) × ((elim p.0 as (λ r. Result (Unit {0}) Error × Restoring W) [
            | ok id ↦ bump (λ t. record t { imported = t.imported + 1 }) (record s { world = p.1 })
            | err x ↦ bump (λ t. record t { failed = t.failed + 1 }) (record s { world = p.1 })
          ]).0
              ≡ ok u)
      go s (ok id, w) = (tt, refl)
      go s (err x, w) = (tt, refl)

  restore_message-Returns :
      (mapping : Dictionary Text) (m : StoredMessage) (ids : List Text)
      → IsReadable e.externals archive m
      → Returns (restore_message e archive mapping m ids)
  unfolding restore_message is_present
  restore_message-Returns mapping m ids h =
      Returns-bind _ _
        (Returns-if (not e.force && e.dedupe_by_message_id) _ _
          (on_target-Returns _ (willing.asked m)) (Returns-pure false))
        λ present. Returns-if present _ _ (Returns-modify _) (
          Returns-if e.dry_run _ _ (Returns-pure tt) (
            Returns-bind _ _ (Returns-lift _ h)
              λ raw. import_message-Returns m (target_ids mapping ids) raw))

  restore_messages-Returns :
      (index : MailboxIndex) (dirs mapping : Dictionary Text) (ms : List StoredMessage)
      → All (IsReadable e.externals archive) ms
      → Returns (restore_messages e archive index dirs mapping ms)
  unfolding restore_messages is_cancelled
  restore_messages-Returns index dirs mapping [] h = Returns-pure tt
  restore_messages-Returns index dirs mapping (m ∷ ms) h =
      Returns-bind _ _ (record { at = λ s. (_, refl) })
        λ stop. Returns-if stop _ _ (Returns-pure tt) (
          Returns-bind _ _ (restore_message-Returns mapping m (resolve index dirs m) h.0)
            λ u. restore_messages-Returns index dirs mapping ms h.1)

  restore_selected-Returns :
      (rounds : ℕ) (taken : List StoredMessage)
      → ((needed : List Text)
          → IsFound (with_ancestors rounds (mailbox_index archive) needed needed))
      → All (IsReadable e.externals archive) taken
      → Returns (restore_selected e rounds archive taken)
  unfolding restore_selected
  restore_selected-Returns rounds taken enough h =
      Returns-bind _ _ (Returns-lift _ (all_found _ (enough (needed_by index dirs taken []))))
        λ all. Returns-bind _ _ (on_target-Returns e.target.connect willing.connected) λ account.
          Returns-bind _ _
            (ensure_mailboxes-Returns e.target e.externals e.dry_run create-Returns
              (on_target-Returns e.target.list_mailboxes willing.listed) archive all
              (unfiled_needed index dirs taken) e.mailbox_prefix)
            λ mapping. restore_messages-Returns index dirs mapping taken h
    where
      index : MailboxIndex
      index = mailbox_index archive

      dirs : Dictionary Text
      dirs = by_dir archive.mailboxes []

      all_found :
          (found : Option (List Text))
          → IsFound found
          → (all : List Text) × (or_endless found ≡ ok all)
      all_found none (all, h) = absurd (ground arith)
      all_found (some all) h = (all, refl)

  module _ (depth : MailboxRecord → ℕ) (rounds : ℕ)
      (falls : (r p : MailboxRecord)
        → parent_of (mailbox_index archive) r ≡ some p
        → depth p < depth r)
      (shallow : (id : Text) (r : MailboxRecord)
        → find (mailbox_index archive) id ≡ some r
        → depth r < rounds)
      (accepts : MailMessage → Result Bool Error)
      (decides : (m : MailMessage) → (b : Bool) × (accepts m ≡ ok b)) where
    chosen-Returns :
        (r : Result Selection Error)
        → Selects (IsReadable e.externals archive) r
        → Returns (
            lift r >>= λ c.
            bump (λ t. record t { selected = length c.taken; skipped_filter = c.skipped }) >>= λ u.
            restore_selected e rounds archive c.taken >>= λ u. reads Restoring.summary)
    chosen-Returns (err x) h = absurd h
    chosen-Returns (ok c) h =
        let restored =
          restore_selected-Returns rounds c.taken
            (λ needed.
              with_ancestors_enough (mailbox_index archive) depth falls rounds needed needed
                shallow)
            h in
        Returns-bind _ _ (Returns-modify _)
          λ u. Returns-bind _ _ restored λ u. Returns-reads Restoring.summary

    run_restore-Returns :
        chosen_filter e ≡ ok accepts → e.archive ≡ ok archive → Returns (run_restore e rounds)
    unfolding run_restore start
    run_restore-Returns f h =
        let selected =
          select_ends e.externals accepts (mailbox_index archive) (IsReadable e.externals archive)
            archive.messages decides willing.readable in
        let rest = chosen-Returns _ selected in
        rw (f, h) (Returns-bind _ _ (Returns-modify _) λ u. rest)

    -- A restore that is no dry run and is not interrupted ends with its summary, where the archive can
    -- be opened and has the content that was recorded for each message, the filter decides of each
    -- message, and the calls of the target, but for the imports, succeed: the numbers of the selected
    -- messages and of those passed over add up to the messages of the archive, and those of the
    -- imported, the failed and the ones that were there already to the selected. The parents of
    -- mailboxes end, and there are more rounds than the mailboxes are deep.
    pub run_restore-Completed :
        (real : e.dry_run ≡ false) (calm : (w : W) → (e.cancelled w).0 ≡ false) (s : Restoring W)
        → chosen_filter e ≡ ok accepts
        → e.archive ≡ ok archive
        → (t : RestoreSummary) × ((run_restore e rounds s).0 ≡ ok t)
          × Accounted e real calm archive t (run_restore e rounds s).1
    run_restore-Completed real calm s f h =
        let (t, k) = (run_restore-Returns f h).at s in
        (
          t,
          k,
          Post-ok (Accounted e real calm archive) Anything (run_restore e rounds s) t
              (run_restore-Accounted e real calm archive rounds s h) k,
        )
