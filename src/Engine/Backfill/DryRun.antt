-- ===== src/Engine/Backfill/DryRun.antt =====
-- engine/backfill.rs: `run` in a dry run.
use mail_backup.Base.{
  ℕ, true, false, ◌||◌, is_empty, Option, none, some, List, [], ◌∷◌, ◌++◌, Result, ok, err, Error,
  pure, reads, total, Keeps, Keeps-pure, Keeps-reads, Keeps-if, Keeps-bind, ◌≡◌, ◌==◌, nat_eq,
  list_eq,
}
use mail_backup.Entities.{MessageMeta, SourceState, received_day, state_eq}
use mail_backup.Stores.{BackfillCursor}
use mail_backup.Stores.Laws.{Outside}
use mail_backup.Engine.Setup.{Setup, cancelled}
use mail_backup.Engine.Plan.{mailbox_events}
use mail_backup.Engine.Backfill.{
  BackfillRun, Walk, finalize_day, close_day, turn_day, walk, close_last, last_day, complete_walk,
  run_backfill, range_from, start_day, starting_cursor,
}
use mail_backup.Engine.Summary.{no_changes}
use mail_backup.Engine.Apply.Still.{
  Still, cancelled-Keeps, enumerate-Keeps, computed-Keeps, mailbox_events-Keeps,
}

module _ {W V : Type 0} (e : Setup W) (view : W → V) (outside : Outside e.source e.around view)
    (v : V) (dry : e.options.dry_run ≡ true) where
  finalize_day-Keeps :
      (day : ℕ) (metas : List MessageMeta) (r : BackfillRun)
      → Keeps (Still view v) (finalize_day e day metas r)
  unfolding finalize_day
  finalize_day-Keeps day metas r =
      simp dry (Keeps-bind _ _ (computed-Keeps e view outside v _) λ d. Keeps-pure _)

  close_day-Keeps : (day : ℕ) (k : Walk) → Keeps (Still view v) (close_day e day k)
  unfolding close_day
  close_day-Keeps day k = Keeps-bind _ _ (finalize_day-Keeps day k.pending k.run) λ r. Keeps-pure _

  turn_day-Keeps :
      (current : Option ℕ) (day : ℕ) (k : Walk) → Keeps (Still view v) (turn_day e current day k)
  unfolding turn_day
  turn_day-Keeps none day k = Keeps-pure k
  turn_day-Keeps (some current) day k =
      Keeps-if (day == current) (pure k) _ (Keeps-pure k) (close_day-Keeps current k)

  walk-Keeps :
      (items : List (Result MessageMeta Error)) (k : Walk) → Keeps (Still view v) (walk e items k)
  unfolding walk
  walk-Keeps [] k = Keeps-pure k
  walk-Keeps (err x ∷ items) k = record { at = λ w h. h }
  walk-Keeps (ok meta ∷ items) k =
      Keeps-bind (cancelled e) _ (cancelled-Keeps e view outside v) λ stop.
        Keeps-if stop (pure (record k { interrupted = true })) _ (Keeps-pure _) (
          Keeps-bind (turn_day e k.current_day (received_day meta) k) _
            (turn_day-Keeps k.current_day (received_day meta) k)
            λ k'. walk-Keeps items (record k' {
              current_day = some (received_day meta);
              pending = k'.pending ++ meta ∷ [];
            }))

  last_day-Keeps : (k : Walk) → Keeps (Still view v) (last_day e k)
  unfolding last_day close_last
  last_day-Keeps k =
      Keeps-if (k.interrupted || is_empty k.pending) (pure k) _ (Keeps-pure k) (last k.current_day)
    where
      last : (o : Option ℕ) → Keeps (Still view v) (close_last e o k)
      last none = Keeps-pure k
      last (some day) = close_day-Keeps day k

  complete_walk-Keeps : (k : Walk) → Keeps (Still view v) (complete_walk e k)
  unfolding complete_walk
  complete_walk-Keeps k = simp dry (
      Keeps-bind _ _
        (Keeps-if k.interrupted (pure true) _ (Keeps-pure true) (cancelled-Keeps e view outside v))
        λ stop. Keeps-if stop (pure _) _ (Keeps-pure _) (Keeps-pure _))

  pub run_backfill-Keeps :
      (connected : SourceState) → Keeps (Still view v) (run_backfill e connected)
  unfolding run_backfill
  run_backfill-Keeps connected = simp dry (
      Keeps-bind (reads (λ w. (e.store.state w).backfill)) _
        (Keeps-reads (λ w. (e.store.state w).backfill))
        λ saved. Keeps-bind (pure tt) _ (Keeps-pure tt) λ u.
          Keeps-bind (mailbox_events e) _ (mailbox_events-Keeps e view outside v) λ events.
            Keeps-bind (pure tt) _ (Keeps-pure tt) λ u'.
              Keeps-bind
                (total (
                  e.source.enumerate (
                    range_from
                      (start_day (starting_cursor saved connected) e.policy.backfill_start))))
                _ (enumerate-Keeps e view outside v _)
                λ items.
                  Keeps-bind (walk e items (first_walk saved)) _
                    (walk-Keeps items (first_walk saved))
                    λ k. Keeps-bind (last_day e k) _ (last_day-Keeps k) complete_walk-Keeps)
    where
      first_walk : Option BackfillCursor → Walk
      first_walk saved = record {
        pending = [];
        current_day = none;
        run = record { cursor = starting_cursor saved connected; summary = no_changes };
        interrupted = false;
      }
