-- ===== src/Restore/Accounted.antt =====
-- restore/mod.rs: what a restore counts.
use mail_backup.Base.{
  ℕ, ◌+◌, Bool, false, List, [], Text, Result, ok, err, Error, lift, reads, ◌>>=◌, length, Post,
  Post-after, Post-Keeps, Dictionary, ◌≡◌, refl, arith,
}
use mail_backup.Entities.{MailboxIndex}
use mail_backup.Messages.{MailMessage}
use mail_backup.Stores.{StoredMessage}
use mail_backup.Restore.{
  RestoreSummary, Archive, Restoring, on_target, ensure_mailboxes, mailbox_index,
}
use mail_backup.Restore.Kept.{ensure_mailboxes-Keeps}
use mail_backup.Restore.Running.{
  RestoreSetup, bump, restore_messages, restore_selected, run_restore, start, chosen_filter,
}
use mail_backup.Restore.Selecting.{
  Selection, select, or_endless, with_ancestors, needed_by, unfiled_needed, by_dir,
}
use mail_backup.Restore.Counting.{
  decided, select-length, Anything, At, on_target-Keeps, create-Keeps, restore_messages-Counts,
}

module _ {W : Type 0} (e : RestoreSetup W) (real : e.dry_run ≡ false)
    (calm : (w : W) → (e.cancelled w).0 ≡ false) where
  restore_selected-Counts :
      (rounds : ℕ) (archive : Archive) (taken : List StoredMessage) (n : ℕ × ℕ) (s : Restoring W)
      → At 0 n s
      → Post (λ u. At (length taken) n) Anything (restore_selected e rounds archive taken s)
  unfolding restore_selected
  restore_selected-Counts rounds archive taken n s h = climbed (
      or_endless (
        with_ancestors rounds index (needed_by index dirs taken [])
          (needed_by index dirs taken [])))
    where
      index : MailboxIndex
      index = mailbox_index archive

      dirs : Dictionary Text
      dirs = by_dir archive.mailboxes []

      climbed :
          (r : Result (List Text) Error)
          → Post
              (λ u. At (length taken) n)
              Anything
              ((lift r >>= λ all. on_target e.target e.target.connect >>= λ account.
                  ensure_mailboxes e.target e.externals e.dry_run archive all
                    (unfiled_needed index dirs taken)
                    e.mailbox_prefix
                  >>= λ mapping. restore_messages e archive index dirs mapping taken)
                s)
      climbed (err x) = tt
      climbed (ok all) =
          Post-after (λ b. At 0 n) (λ x. At 0 n) (λ u. At (length taken) n) Anything
            (on_target e.target e.target.connect s) _
            (Post-Keeps s (on_target-Keeps e real calm 0 n e.target.connect) h) (λ x t k. tt)
            (λ account t k.
              Post-after (λ b. At 0 n) (λ x. At 0 n) (λ u. At (length taken) n) Anything _ _
                (Post-Keeps t
                  (ensure_mailboxes-Keeps e.target e.externals e.dry_run (At 0 n)
                    (create-Keeps e real calm 0 n)
                    (on_target-Keeps e real calm 0 n e.target.list_mailboxes) archive all
                    (unfiled_needed index dirs taken) e.mailbox_prefix)
                  k)
                (λ x t k. tt)
                (λ mapping t k.
                  let same : length taken + 0 ≡ length taken = omega arith in
                  rw (← same)
                    (restore_messages-Counts e real calm archive index dirs mapping taken 0 n t k)))

  -- The counters of a restore add up at its end.
  abbrev pub Accounted : Archive → RestoreSummary → Restoring W → Type 0
  Accounted archive t s =
      (t.selected + t.skipped_filter ≡ length archive.messages) × (decided t ≡ t.selected)

  -- Of a restore that is no dry run and is not interrupted: where it ends without an error, the numbers
  -- of the selected messages and of those passed over by the filter add up to the messages of the
  -- archive, and those of the imported, the failed and the ones that were there already to the selected.
  pub run_restore-Accounted :
      (archive : Archive) (rounds : ℕ) (s : Restoring W)
      → e.archive ≡ ok archive
      → Post (Accounted archive) Anything (run_restore e rounds s)
  unfolding run_restore start
  run_restore-Accounted archive rounds s h = filtered (chosen_filter e)
    where
      chosen :
          (accepts : MailMessage → Result Bool Error) (t : Restoring W)
          → At 0 (0, 0) t
          → (r : Result Selection Error)
          → select e.externals accepts (mailbox_index archive) archive.messages ≡ r
          → Post (Accounted archive) Anything (
              (lift r >>= λ c.
              bump (λ t. record t { selected = length c.taken; skipped_filter = c.skipped })
              >>= λ u. restore_selected e rounds archive c.taken >>= λ u. reads Restoring.summary)
                t)
      chosen accepts t k (err x) l = tt
      chosen accepts t k (ok c) l =
          Post-after (λ u. At (length c.taken) (length c.taken, c.skipped)) Anything
            (Accounted archive) Anything _ _
            (restore_selected-Counts rounds archive c.taken (length c.taken, c.skipped)
              (record t {
                summary = record t.summary {
                  selected = length c.taken;
                  skipped_filter = c.skipped;
                };
              })
              (k.0, refl, refl))
            (λ x t k. tt)
            (λ u t' k'. (
              ground (
                arith,
                select-length e.externals accepts (mailbox_index archive) archive.messages c l,
              ),
              ground arith,
            ))

      filtered :
          (f : Result (MailMessage → Result Bool Error) Error)
          → Post (Accounted archive) Anything (
              (lift f >>= λ accepts. lift e.archive >>= λ archive.
              lift (select e.externals accepts (mailbox_index archive) archive.messages) >>= λ c.
              bump (λ t. record t { selected = length c.taken; skipped_filter = c.skipped })
              >>= λ u. restore_selected e rounds archive c.taken >>= λ u. reads Restoring.summary)
                (start e s).1)
      filtered (err x) = tt
      filtered (ok accepts) = rw h (
          chosen accepts (start e s).1 (refl, refl, refl)
            (select e.externals accepts (mailbox_index archive) archive.messages) refl)
