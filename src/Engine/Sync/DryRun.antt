-- ===== src/Engine/Sync/DryRun.antt =====
-- engine/sync.rs: `run` and `reconcile` in a dry run.
use mail_backup.Base.{
  ℕ, zero, suc, Bool, true, List, [], ◌∷◌, Text, Result, ok, err, Error, Exec, pure, reads, total,
  Keeps, Keeps-pure, Keeps-reads, Keeps-if, Keeps-bind, keeps_rules, ◌≡◌, nat_eq, list_eq,
}
use mail_backup.Entities.{MessageMeta, SourceState, all_dates, state_eq}
use mail_backup.Messages.{MailEvent}
use mail_backup.Sources.{ChangesResult, changes, state_too_old}
use mail_backup.Stores.Laws.{Outside}
use mail_backup.Engine.Setup.{Setup, cancelled, matches_filter}
use mail_backup.Engine.Plan.{Planning, mailbox_events, nothing_planned}
use mail_backup.Engine.Sync.{
  Gathered, Gathering, complete, too_old, stopped, gather, absorb_page, plan_mailboxes,
  plan_message_changes, apply_gathered, settle, finish, run, Scan, scan, scan_message, apply_scan,
  early_upserts, reconcile,
}
use mail_backup.Engine.Summary.{no_changes}
use mail_backup.Engine.Apply.Still.{
  Still, still, cancelled-Keeps, enumerate-Keeps, computed-Keeps, mailbox_events-Keeps,
  apply_planned-Keeps,
}

module _ {W V : Type 0} (e : Setup W) (view : W → V) (outside : Outside e.source e.around view)
    (v : V) (dry : e.options.dry_run ≡ true) where
  absorb_page-Keeps :
      (more : Gathered → Exec W Gathering) (g : Gathered) (page : ChangesResult)
      → ((g' : Gathered) → Keeps (Still view v) (more g'))
      → Keeps (Still view v) (absorb_page e more g page)
  unfolding absorb_page
  absorb_page-Keeps more g state_too_old h = Keeps-pure _
  absorb_page-Keeps more g (changes c) h = Keeps-if c.has_more _ (pure _) (h _) (Keeps-pure _)

  gather-Keeps : (fuel : ℕ) (g : Gathered) → Keeps (Still view v) (gather e fuel g)
  unfolding gather
  gather-Keeps zero g = record { at = λ w h. h }
  gather-Keeps (suc fuel) g = Keeps-bind (cancelled e) _ (cancelled-Keeps e view outside v) λ stop.
      Keeps-if stop (pure stopped) _ (Keeps-pure stopped) (
        Keeps-bind (e.source.changes g.state) _
          (still e view outside v _ (outside.view-changes g.state))
          λ page. absorb_page-Keeps (gather e fuel) g page (gather-Keeps fuel))

  get_messages-Keeps : (ids : List Text) → Keeps (Still view v) (e.source.get_messages ids)
  get_messages-Keeps ids = still e view outside v _ (outside.view-get_messages ids)

  plan_mailboxes-Keeps : (b : Bool) → Keeps (Still view v) (plan_mailboxes e b)
  unfolding plan_mailboxes
  plan_mailboxes-Keeps b =
      Keeps-if b _ (pure _)
        (Keeps-bind (mailbox_events e) _ (mailbox_events-Keeps e view outside v)
          λ events. Keeps-pure _)
        (Keeps-pure _)

  plan_message_changes-Keeps :
      (metas : List MessageMeta) (p : Planning)
      → Keeps (Still view v) (plan_message_changes e metas p)
  unfolding plan_message_changes
  plan_message_changes-Keeps metas p = computed-Keeps e view outside v _

  settle-Keeps :
      (state : SourceState) (destroyed : List Text) (planned : Planning)
      → Keeps (Still view v) (settle e state destroyed planned)
  unfolding settle
  settle-Keeps state destroyed planned =
      search (keeps_rules, apply_planned-Keeps e view outside v dry)

  apply_gathered-Keeps : (g : Gathered) → Keeps (Still view v) (apply_gathered e g)
  unfolding apply_gathered
  apply_gathered-Keeps g = search (
    keeps_rules, plan_mailboxes-Keeps, get_messages-Keeps, plan_message_changes-Keeps, settle-Keeps,
  )

  finish-Keeps : (g : Gathering) → Keeps (Still view v) (finish e g)
  unfolding finish
  finish-Keeps stopped = Keeps-pure _
  finish-Keeps too_old = Keeps-pure _
  finish-Keeps (complete g) = apply_gathered-Keeps g

  pub run-Keeps : (fuel : ℕ) → Keeps (Still view v) (run e fuel)
  unfolding run
  run-Keeps fuel = search (keeps_rules, gather-Keeps, finish-Keeps)

  scan-Keeps :
      (items : List (Result MessageMeta Error)) (s : Scan) → Keeps (Still view v) (scan e items s)
  unfolding scan
  scan-Keeps [] s = Keeps-pure s
  scan-Keeps (err x ∷ items) s = record { at = λ w h. h }
  scan-Keeps (ok meta ∷ items) s =
      Keeps-bind (cancelled e) _ (cancelled-Keeps e view outside v) λ stop.
        Keeps-if stop (pure (record s { summary = record s.summary { interrupted = true } })) _
          (Keeps-pure _)
          (Keeps-bind (λ w. (matches_filter e w meta, w)) _
            (computed-Keeps e view outside v (λ w. matches_filter e w meta))
            λ matches.
              Keeps-bind (reads (e.store.lookup meta.id)) _ (Keeps-reads (e.store.lookup meta.id))
                λ stored. scan-Keeps items (scan_message meta stored matches s))

  apply_scan-Keeps : (fresh : SourceState) (s : Scan) → Keeps (Still view v) (apply_scan e fresh s)
  unfolding apply_scan
  apply_scan-Keeps fresh s = search (keeps_rules, apply_planned-Keeps e view outside v dry)

  early_upserts-Keeps : (upserts : List MailEvent) → Keeps (Still view v) (early_upserts e upserts)
  unfolding early_upserts
  early_upserts-Keeps upserts = simp dry (Keeps-pure upserts)

  pub reconcile-Keeps : (fresh : SourceState) → Keeps (Still view v) (reconcile e fresh)
  unfolding reconcile
  reconcile-Keeps fresh =
      Keeps-bind (mailbox_events e) _ (mailbox_events-Keeps e view outside v) λ events.
        Keeps-bind (early_upserts e events.0) _ (early_upserts-Keeps events.0) λ left.
          Keeps-bind (total (e.source.enumerate all_dates)) _
            (enumerate-Keeps e view outside v all_dates)
            λ items.
              Keeps-bind (scan e items (first_scan events left)) _
                (scan-Keeps items (first_scan events left)) (apply_scan-Keeps fresh)
    where
      first_scan : List MailEvent × List MailEvent → List MailEvent → Scan
      first_scan events left = record {
        seen = [];
        plan = record nothing_planned { mailbox_upserts = left; mailbox_deletions = events.1 };
        summary = no_changes;
      }
