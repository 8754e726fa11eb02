-- ===== src/Restore/Tallied.antt =====
-- restore/mod.rs: the counters of a restore against what the target did.
use mail_backup.Base.{
  ℕ, length, after, ◌+◌, Bool, true, false, not, ◌&&◌, List, [], ◌∷◌, Text, Bytes, Option, Result,
  ok, err, Error, Exec, pure, lift, reads, ◌>>=◌, Keeps, Keeps-pure, Keeps-lift, Keeps-if,
  Keeps-bind, Keeps-reads, Post, Dictionary, if◌then◌else◌, ◌≡◌, refl, arith,
}
use mail_backup.Entities.{MailboxIndex}
use mail_backup.Messages.{MailMessage}
use mail_backup.Stores.{StoredMessage}
use mail_backup.Restore.{RestoreSummary, Archive, Restoring, on_target, create, mailbox_index}
use mail_backup.Restore.Kept.{ensure_mailboxes-Keeps}
use mail_backup.Restore.Selecting.{
  Selection, read, select, by_dir, resolve, unfiled_needed, target_ids,
}
use mail_backup.Restore.Running.{
  RestoreSetup, bump, chosen_filter, import_message, is_present, restore_message, is_cancelled,
  restore_messages, restore_selected, start, run_restore,
}

-- What the world has seen of the target: imports that succeeded, imports that failed, mailboxes that were
-- created, attempts that failed included, and messages that were found there.
pub record Tally : Type 0 where
  pub succeeded : ℕ
  pub failures : ℕ
  pub creations : ℕ
  pub found : ℕ

abbrev pub after_import : Result Text Error → Tally → Tally
after_import (ok id) n = record n { succeeded = n.succeeded + 1 }
after_import (err x) n = record n { failures = n.failures + 1 }

abbrev pub after_lookup : Result Bool Error → Tally → Tally
after_lookup (ok true) n = record n { found = n.found + 1 }
after_lookup (ok false) n = n
after_lookup (err x) n = n

-- `tally` counts the calls of the target.
pub record IsTallied {W : Type 0} (e : RestoreSetup W) (tally : W → Tally) : Type 0 where
  pub tally-connect : (w : W) → tally (e.target.connect w).1 ≡ tally w
  pub tally-list_mailboxes : (w : W) → tally (e.target.list_mailboxes w).1 ≡ tally w
  pub tally-create_mailbox :
      (name : Text) (parent role : Option Text) (w : W)
      → tally (e.target.create_mailbox name parent role w).1
        ≡ record (tally w) { creations = (tally w).creations + 1 }
  pub tally-message_exists :
      (m : StoredMessage) (w : W)
      → tally (e.target.message_exists m.meta w).1
        ≡ after_lookup (e.target.message_exists m.meta w).0 (tally w)
  pub tally-import :
      (m : StoredMessage) (raw : Bytes) (ids : List Text) (w : W)
      → tally (e.target.import raw ids m.meta.keywords m.meta.received_at w).1
        ≡ after_import (e.target.import raw ids m.meta.keywords m.meta.received_at w).0 (tally w)
  pub tally-cancelled : (w : W) → tally (e.cancelled w).1 ≡ tally w

-- The counters say what the target did since `before`.
abbrev pub Agrees : Tally → Tally → RestoreSummary → Type 0
Agrees before now t =
    (now.succeeded ≡ before.succeeded + t.imported)
    × (now.failures ≡ before.failures + t.failed)
    × (now.creations ≡ before.creations + t.mailboxes_created)
    × (now.found ≡ before.found + t.skipped_existing)

module _ {W : Type 0} (e : RestoreSetup W) (tally : W → Tally) (tallied : IsTallied e tally)
    (real : e.dry_run ≡ false) (before : Tally) where
  abbrev pub InStep : Restoring W → Type 0
  InStep s = Agrees before (tally s.world) s.summary

  silent-Keeps :
      {A : Type 0} (m : Exec W A)
      → ((w : W) → tally (m w).1 ≡ tally w)
      → Keeps InStep (on_target e.target m)
  unfolding on_target
  silent-Keeps m still = record { at = λ s h. rw (still s.world) h }

  create-Keeps :
      (name : Text) (parent role : Option Text)
      → Keeps InStep (create e.target e.dry_run name parent role)
  unfolding create on_target
  create-Keeps name parent role = rw real (record {
    at = λ s h.
        rw (tallied.tally-create_mailbox name parent role s.world)
          (h.0, h.1, ground (arith, h.2), h.3);
  })

  import_message-Keeps :
      (m : StoredMessage) (ids : List Text) (raw : Bytes)
      → Keeps InStep (import_message e m ids raw)
  unfolding import_message
  import_message-Keeps m ids raw = record {
    at = λ s h.
        go s h (e.target.import raw ids m.meta.keywords m.meta.received_at s.world)
          (tallied.tally-import m raw ids s.world);
  }
    where
      go :
          (s : Restoring W)
          → InStep s
          → (p : Result Text Error × W) → tally p.1 ≡ after_import p.0 (tally s.world)
          → InStep
              (elim p.0 as (λ r. Result (Unit {0}) Error × Restoring W) [
                | ok id ↦
                    bump (λ t. record t { imported = t.imported + 1 }) (record s { world = p.1 })
                | err x ↦ bump (λ t. record t { failed = t.failed + 1 }) (record s { world = p.1 })
              ]).1
      go s h (ok id, w) k = rw k (ground (arith, h.0), h.1, h.2, h.3)
      go s h (err x, w) k = rw k (h.0, ground (arith, h.1), h.2, h.3)

  -- What is done of a message that is not there.
  fetched-Keeps :
      (archive : Archive) (mapping : Dictionary Text) (m : StoredMessage) (ids : List Text)
      → Keeps InStep (
          if e.dry_run
          then pure tt
          else (lift (read e.externals archive m) >>= λ raw.
              import_message e m (target_ids mapping ids) raw))
  fetched-Keeps archive mapping m ids = Keeps-if e.dry_run _ _ (Keeps-pure tt) (
      Keeps-bind (lift (read e.externals archive m)) _ (Keeps-lift _)
        λ raw. import_message-Keeps m (target_ids mapping ids) raw)

  restore_message-Keeps :
      (archive : Archive) (mapping : Dictionary Text) (m : StoredMessage) (ids : List Text)
      → Keeps InStep (restore_message e archive mapping m ids)
  unfolding restore_message is_present on_target
  restore_message-Keeps archive mapping m ids = asking (not e.force && e.dedupe_by_message_id)
    where
      onwards : Bool → Exec (Restoring W) (Unit {0})
      onwards present =
          if present
          then bump (λ t. record t { skipped_existing = t.skipped_existing + 1 })
          else if e.dry_run
          then pure tt
          else (lift (read e.externals archive m) >>= λ raw.
              import_message e m (target_ids mapping ids) raw)

      answered :
          (s : Restoring W)
          → InStep s
          → (p : Result Bool Error × W) → tally p.1 ≡ after_lookup p.0 (tally s.world)
          → InStep (after onwards (p.0, record s { world = p.1 })).1
      answered s h (ok true, w) k = rw k (h.0, h.1, h.2, ground (arith, h.3))
      answered s h (ok false, w) k = (fetched-Keeps archive mapping m ids).at _ (rw k h)
      answered s h (err x, w) k = rw k h

      asking :
          (b : Bool)
          → Keeps InStep (
              (if b then on_target e.target (e.target.message_exists m.meta) else pure false)
              >>= onwards)
      asking false = fetched-Keeps archive mapping m ids
      asking true = record {
        at = λ s h.
            answered s h (e.target.message_exists m.meta s.world)
              (tallied.tally-message_exists m s.world);
      }

  restore_messages-Keeps :
      (archive : Archive) (index : MailboxIndex) (dirs mapping : Dictionary Text)
      (ms : List StoredMessage)
      → Keeps InStep (restore_messages e archive index dirs mapping ms)
  unfolding restore_messages is_cancelled
  restore_messages-Keeps archive index dirs mapping [] = Keeps-pure tt
  restore_messages-Keeps archive index dirs mapping (m ∷ ms) =
      Keeps-bind (is_cancelled e) _ (record { at = λ s h. rw (tallied.tally-cancelled s.world) h })
        λ stop. Keeps-if stop _ _ (Keeps-pure tt) (
          Keeps-bind _ _ (restore_message-Keeps archive mapping m (resolve index dirs m))
            λ u. restore_messages-Keeps archive index dirs mapping ms)

  restore_selected-Keeps :
      (rounds : ℕ) (archive : Archive) (taken : List StoredMessage)
      → Keeps InStep (restore_selected e rounds archive taken)
  unfolding restore_selected
  restore_selected-Keeps rounds archive taken =
      let index = mailbox_index archive in
      let dirs = by_dir archive.mailboxes [] in
      Keeps-bind _ _ (Keeps-lift _) λ all.
        Keeps-bind _ _ (silent-Keeps e.target.connect tallied.tally-connect) λ account.
          Keeps-bind _ _
            (ensure_mailboxes-Keeps e.target e.externals e.dry_run InStep create-Keeps
              (silent-Keeps e.target.list_mailboxes tallied.tally-list_mailboxes) archive all
              (unfiled_needed index dirs taken) e.mailbox_prefix)
            λ mapping. restore_messages-Keeps archive index dirs mapping taken

module _ {W : Type 0} (e : RestoreSetup W) (tally : W → Tally) (tallied : IsTallied e tally)
    (real : e.dry_run ≡ false) where
  abbrev select_noted : Selection → Exec (Restoring W) (Unit {0})
  select_noted c = bump (λ t. record t { selected = length c.taken; skipped_filter = c.skipped })

  -- The rest of a run, from where a message is selected, an archive opened and a filter chosen.
  abbrev once_noted : ℕ → Archive → Selection → Unit {0} → Exec (Restoring W) RestoreSummary
  once_noted rounds archive c u =
      restore_selected e rounds archive c.taken >>= λ u. reads Restoring.summary

  abbrev once_selected : ℕ → Archive → Selection → Exec (Restoring W) RestoreSummary
  once_selected rounds archive c = select_noted c >>= once_noted rounds archive c

  abbrev selection : (MailMessage → Result Bool Error) → Archive → Result Selection Error
  selection accepts archive = select e.externals accepts (mailbox_index archive) archive.messages

  abbrev once_opened :
      ℕ → (MailMessage → Result Bool Error) → Archive → Exec (Restoring W) RestoreSummary
  once_opened rounds accepts archive =
      lift (selection accepts archive) >>= once_selected rounds archive

  abbrev once_filtered : ℕ → (MailMessage → Result Bool Error) → Exec (Restoring W) RestoreSummary
  once_filtered rounds accepts = lift e.archive >>= once_opened rounds accepts

  begun-Keeps :
      (rounds : ℕ) (before : Tally)
      → Keeps (InStep e tally tallied real before) (lift (chosen_filter e) >>= once_filtered rounds)
  begun-Keeps rounds before =
      Keeps-bind (lift (chosen_filter e)) (once_filtered rounds) (Keeps-lift (chosen_filter e))
        λ accepts.
          Keeps-bind (lift e.archive) (once_opened rounds accepts) (Keeps-lift e.archive) λ archive.
            Keeps-bind (lift (selection accepts archive)) (once_selected rounds archive)
              (Keeps-lift (selection accepts archive))
              λ c.
                Keeps-bind (select_noted c) (once_noted rounds archive c) (record { at = λ s h. h })
                  λ u.
                    Keeps-bind (restore_selected e rounds archive c.taken)
                      (λ u. reads Restoring.summary)
                      (restore_selected-Keeps e tally tallied real before rounds archive c.taken)
                      λ u. Keeps-reads Restoring.summary

  -- What is returned is the summary as it is at the end.
  abbrev IsLast : Result RestoreSummary Error × Restoring W → Type 0
  IsLast = Post (λ t s. t ≡ s.summary) (λ x s. Unit {0})

  ends-IsLast :
      {A : Type 0} (k : A → Exec (Restoring W) RestoreSummary)
      → ((a : A) (s : Restoring W) → IsLast (k a s))
      → (p : Result A Error × Restoring W) → IsLast (after k p)
  ends-IsLast k h (ok a, s) = h a s
  ends-IsLast k h (err x, s) = tt

  run_restore-IsLast : (rounds : ℕ) (s : Restoring W) → IsLast (run_restore e rounds s)
  unfolding run_restore start
  run_restore-IsLast rounds s =
      ends-IsLast (once_filtered rounds)
        (λ accepts s₁.
          ends-IsLast (once_opened rounds accepts)
            (λ archive s₂.
              ends-IsLast (once_selected rounds archive)
                (λ c s₃.
                  ends-IsLast (λ (u : Unit {0}). reads Restoring.summary)
                    (λ u s₄. let same : s₄.summary ≡ s₄.summary = refl in same)
                    (restore_selected e rounds archive c.taken (select_noted c s₃).1))
                (selection accepts archive, s₂))
            (e.archive, s₁))
        (chosen_filter e, (start e s).1)

  -- Of a restore that is no dry run, the counters say what the target has done since it began, at its
  -- end as after an error: so many imports succeeded, so many failed, so many mailboxes were created,
  -- or attempted to be, and so many messages were found to be there. The summary that is returned is
  -- this one.
  pub run_restore-Tallied :
      (rounds : ℕ) (s : Restoring W)
      → Agrees
          (tally s.world)
          (tally (run_restore e rounds s).1.world)
          (run_restore e rounds s).1.summary
        × Post (λ t s'. t ≡ s'.summary) (λ x s'. Unit {0}) (run_restore e rounds s)
  unfolding run_restore start
  run_restore-Tallied rounds s = (
    (begun-Keeps rounds (tally s.world)).at (start e s).1
        (omega arith, omega arith, omega arith, omega arith),
    run_restore-IsLast rounds s,
  )
