-- ===== src/Restore/Counting.antt =====
-- restore/mod.rs: how the loop over the messages of a restore counts.
use mail_backup.Base.{
  ℕ, suc, ◌+◌, Bool, true, false, not, ◌&&◌, Option, List, [], ◌∷◌, Text, Bytes, Result, ok, err,
  Error, Exec, pure, lift, ◌>>=◌, length, Keeps, Keeps-if, Keeps-pure, Post, Post-after, Post-Keeps,
  Dictionary, if◌then◌else◌, ◌≡◌, refl, arith,
}
use mail_backup.Externals.{Externals}
use mail_backup.Entities.{MailboxIndex}
use mail_backup.Messages.{MailMessage}
use mail_backup.Messages
use mail_backup.Stores.{StoredMessage}
use mail_backup.Restore.{RestoreSummary, Archive, Restoring, on_target, create}
use mail_backup.Restore.Running.{
  RestoreSetup, bump, is_present, restore_message, import_message, is_cancelled, restore_messages,
}
use mail_backup.Restore.Selecting.{Selection, read, select, resolve, target_ids}

-- What the loop has decided of the messages that it has met.
abbrev pub decided : RestoreSummary → ℕ
decided t = t.imported + t.failed + t.skipped_existing

pub select-length :
    (x : Externals) (accepts : MailMessage → Result Bool Error) (index : MailboxIndex)
    (ms : List StoredMessage) (c : Selection)
    → select x accepts index ms ≡ ok c
    → length c.taken + c.skipped ≡ length ms
unfolding select
select-length x accepts index [] c h = ground arith
select-length x accepts index (m ∷ ms) c h =
    go (accepts (Messages.new x m.meta index)) (select x accepts index ms)
      (select-length x accepts index ms) h
  where
    go :
        (b : Result Bool Error) (rest : Result Selection Error)
        → ((d : Selection) → rest ≡ ok d → length d.taken + d.skipped ≡ length ms)
        → elim b as (λ y. Result Selection Error) [
          | err e ↦ err e
          | ok matches ↦ elim rest [
            | err e ↦ err e
            | ok rest ↦
                if matches
                then ok (record rest { taken = m ∷ rest.taken })
                else ok (record rest { skipped = rest.skipped + 1 })
          ]
        ]
          ≡ ok c
        → length c.taken + c.skipped ≡ suc (length ms)
    go (err e) rest ih k = absurd (ground arith)
    go (ok b) (err e) ih k = absurd (ground arith)
    go (ok true) (ok d) ih k = ground (arith, ih d refl)
    go (ok false) (ok d) ih k = ground (arith, ih d refl)

abbrev pub Anything : {W : Type 0} → Error → Restoring W → Type 0
Anything x s = Unit {0}

-- So many messages are decided, and so many are selected and passed over.
abbrev pub Counts : ℕ → ℕ × ℕ → RestoreSummary → Type 0
Counts d n t = (decided t ≡ d) × (t.selected ≡ n.0) × (t.skipped_filter ≡ n.1)

abbrev pub At : {W : Type 0} → ℕ → ℕ × ℕ → Restoring W → Type 0
At d n s = Counts d n s.summary

module _ {W : Type 0} (e : RestoreSetup W) (real : e.dry_run ≡ false)
    (calm : (w : W) → (e.cancelled w).0 ≡ false) where
  pub on_target-Keeps :
      {A : Type 0} (d : ℕ) (n : ℕ × ℕ) (m : Exec W A) → Keeps (At d n) (on_target e.target m)
  unfolding on_target
  on_target-Keeps d n m = record { at = λ s h. h }

  pub create-Keeps :
      (d : ℕ) (n : ℕ × ℕ) (name : Text) (parent role : Option Text)
      → Keeps (At d n) (create e.target e.dry_run name parent role)
  unfolding create on_target
  create-Keeps d n name parent role = rw real (record { at = λ s h. h })

  is_present-Keeps : (m : StoredMessage) (d : ℕ) (n : ℕ × ℕ) → Keeps (At d n) (is_present e m)
  unfolding is_present on_target
  is_present-Keeps m d n =
      Keeps-if (not e.force && e.dedupe_by_message_id) _ _
        (on_target-Keeps d n (e.target.message_exists m.meta)) (Keeps-pure false)

  import_message-Counts :
      (m : StoredMessage) (ids : List Text) (raw : Bytes) (d : ℕ) (n : ℕ × ℕ) (s : Restoring W)
      → At d n s
      → Post (λ u. At (suc d) n) Anything (import_message e m ids raw s)
  unfolding import_message
  import_message-Counts m ids raw d n s h =
      go (e.target.import raw ids m.meta.keywords m.meta.received_at s.world)
    where
      go :
          (p : Result Text Error × W)
          → Post {A = Unit {0}}
              (λ u. At (suc d) n)
              Anything
              (elim p.0 as (λ r. Result (Unit {0}) Error × Restoring W) [
                | ok id ↦
                    bump (λ t. record t { imported = t.imported + 1 }) (record s { world = p.1 })
                | err x ↦ bump (λ t. record t { failed = t.failed + 1 }) (record s { world = p.1 })
              ])
      go (ok id, w) = ground arith
      go (err x, w) = ground arith

  restore_message-Counts :
      (archive : Archive) (mapping : Dictionary Text) (m : StoredMessage) (ids : List Text) (d : ℕ)
      (n : ℕ × ℕ) (s : Restoring W)
      → At d n s
      → Post (λ u. At (suc d) n) Anything (restore_message e archive mapping m ids s)
  unfolding restore_message
  restore_message-Counts archive mapping m ids d n s h =
      Post-after (λ b. At d n) (λ x. At d n) (λ u. At (suc d) n) Anything (is_present e m s) _
        (Post-Keeps s (is_present-Keeps m d n) h) (λ x t k. tt) (λ present t k. onwards present t k)
    where
      importing :
          (r : Result Bytes Error) (t : Restoring W)
          → At d n t
          → Post
              (λ u. At (suc d) n)
              Anything
              ((lift r >>= λ raw. import_message e m (target_ids mapping ids) raw) t)
      importing (err x) t k = tt
      importing (ok raw) t k = import_message-Counts m (target_ids mapping ids) raw d n t k

      onwards :
          (present : Bool) (t : Restoring W)
          → At d n t
          → Post
              (λ u. At (suc d) n)
              Anything
              ((if present
                  then bump (λ c. record c { skipped_existing = c.skipped_existing + 1 })
                  else if e.dry_run
                  then pure tt
                  else (lift (read e.externals archive m) >>= λ raw.
                      import_message e m (target_ids mapping ids) raw))
                t)
      onwards true t k = ground arith
      onwards false t k = rw real (importing (read e.externals archive m) t k)

  pub restore_messages-Counts :
      (archive : Archive) (index : MailboxIndex) (dirs mapping : Dictionary Text)
      (ms : List StoredMessage) (d : ℕ) (n : ℕ × ℕ) (s : Restoring W)
      → At d n s
      → Post
          (λ u. At (length ms + d) n)
          Anything
          (restore_messages e archive index dirs mapping ms s)
  unfolding restore_messages is_cancelled
  restore_messages-Counts archive index dirs mapping [] d n s h = ground arith
  restore_messages-Counts archive index dirs mapping (m ∷ ms) d n s h = rw (calm s.world) (
      Post-after (λ u. At (suc d) n) Anything (λ u. At (length (m ∷ ms) + d) n) Anything _ _
        (restore_message-Counts archive mapping m (resolve index dirs m) d n
          (record s { world = (e.cancelled s.world).1 }) h)
        (λ x t k. tt)
        (λ u t k.
          let same : length ms + suc d ≡ length (m ∷ ms) + d = omega arith in
          rw (← same) (restore_messages-Counts archive index dirs mapping ms (suc d) n t k)))
