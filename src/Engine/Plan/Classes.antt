-- ===== src/Engine/Plan/Classes.antt =====
-- engine/mod.rs: `plan_message_changes`, and what becomes of each message.
use mail_backup.Base.{
  ap, sym, suc, ℕ, ◌+◌, Bool, true, false, List, [], ◌∷◌, length, Text, contains, map, filter, not,
  ◌&&◌, ◌++◌, Result, ok, err, Error, ◌≡◌, refl, inl, inr, arith, Bool-cases, if◌then◌else◌, nat_eq,
  list_eq, ◌∙◌,
}
use mail_backup.Entities.{MessageMeta}
use mail_backup.Stores.{BackupSummary}
use mail_backup.Engine.Plan.{Planning, plan_message, plan_messages}

-- The messages whose ids are not in `sorted` and were not met before in the list.
abbrev pub first_met : List Text → List MessageMeta → List MessageMeta
first_met sorted [] = []
first_met sorted (m ∷ metas) =
    let again = first_met sorted metas in
    let next = first_met (m.id ∷ sorted) metas in if contains sorted m.id then again else m ∷ next

pub append_nil : {A : Type 0} (xs : List A) → xs ++ [] ≡ xs
append_nil [] = refl
append_nil (x ∷ xs) = ap (λ ys. x ∷ ys) (append_nil xs)

pub after_one :
    {A : Type 0} (xs : List A) (x : A) (ys : List A) → (xs ++ x ∷ []) ++ ys ≡ xs ++ x ∷ ys
after_one [] x ys = refl
after_one (z ∷ xs) x ys = ap (λ zs. z ∷ zs) (after_one xs x ys)

-- One message more that is passed over.
skipped_one :
    (s : BackupSummary) (n : ℕ)
    → record s { skipped = s.skipped + 1 + n } ≡ record s { skipped = s.skipped + suc n }
skipped_one s n =
    let same : s.skipped + 1 + n ≡ s.skipped + suc n = omega arith in
    ap (λ k. record s { skipped = k }) same

skipped_none : (s : BackupSummary) → s ≡ record s { skipped = s.skipped + 0 }
skipped_none s =
    let same : s.skipped ≡ s.skipped + 0 = omega arith in ap (λ k. record s { skipped = k }) same

-- Whether the filter takes a message, and whether it passes it over.
abbrev pub takes : Result Bool Error → Bool
takes (ok b) = b
takes (err x) = false

abbrev pub rejects : Result Bool Error → Bool
rejects (ok b) = not b
rejects (err x) = false

module _ (matches : MessageMeta → Result Bool Error) (held : Text → Bool) where
  abbrev pub to_add : List MessageMeta → List MessageMeta
  to_add = filter (λ m. not (held m.id) && takes (matches m))

  abbrev pub to_update : List MessageMeta → List MessageMeta
  to_update = filter (λ m. held m.id && takes (matches m))

  abbrev pub to_delete : List MessageMeta → List MessageMeta
  to_delete = filter (λ m. held m.id && rejects (matches m))

  abbrev pub to_skip : List MessageMeta → List MessageMeta
  to_skip = filter (λ m. not (held m.id) && rejects (matches m))

  -- The result, of these messages, each of them once, and what was planned before.
  abbrev pub Planned : List MessageMeta → Planning → Planning → Type 0
  Planned ms p q =
      (q.plan.adds ≡ p.plan.adds ++ to_add ms)
      × (q.plan.updates ≡ p.plan.updates ++ to_update ms)
      × (q.plan.deletes ≡ p.plan.deletes ++ map MessageMeta.id (to_delete ms))
      × (q.summary ≡ record p.summary { skipped = p.summary.skipped + length (to_skip ms) })
      × (q.plan.mailbox_upserts ≡ p.plan.mailbox_upserts)
      × (q.plan.mailbox_deletions ≡ p.plan.mailbox_deletions)

  abbrev pub Sorted : List Text → List MessageMeta → Planning → Result Planning Error → Type 0
  Sorted sorted metas p (ok q) = Planned (first_met sorted metas) p q
  Sorted sorted metas p (err x) = (m : MessageMeta) × (matches m ≡ err x)

  -- One more message that was decided.
  Planned-next :
      (m : MessageMeta) (ms : List MessageMeta) (h b : Bool) (p q : Planning)
      → held m.id ≡ h
      → matches m ≡ ok b
      → Planned ms (plan_message m h b p) q
      → Planned (m ∷ ms) p q
  unfolding plan_message
  Planned-next m ms false true p q k e r =
      rw (k, e) (r.0 ∙ after_one p.plan.adds m _, r.1, r.2, r.3, r.4, r.5)
  Planned-next m ms false false p q k e r =
      rw (k, e) (r.0, r.1, r.2, r.3 ∙ skipped_one p.summary _, r.4, r.5)
  Planned-next m ms true true p q k e r =
      rw (k, e) (r.0, r.1 ∙ after_one p.plan.updates m _, r.2, r.3, r.4, r.5)
  Planned-next m ms true false p q k e r =
      rw (k, e) (r.0, r.1, r.2 ∙ after_one p.plan.deletes m.id _, r.3, r.4, r.5)

  plan_messages-Sorted :
      (sorted : List Text) (metas : List MessageMeta) (p : Planning)
      → Sorted sorted metas p (plan_messages matches held sorted metas p)
  unfolding plan_messages
  plan_messages-Sorted sorted [] p = (
    sym (append_nil p.plan.adds),
    sym (append_nil p.plan.updates),
    sym (append_nil p.plan.deletes),
    skipped_none p.summary,
    refl,
    refl,
  )
  plan_messages-Sorted sorted (m ∷ metas) p = elim (Bool-cases (contains sorted m.id)) [
    | inl old ↦
        simp old (
          skip (plan_messages matches held sorted metas p) old
            (plan_messages-Sorted sorted metas p))
    | inr new ↦ simp new (
        decide (matches m) refl new
          (λ b. plan_messages-Sorted (m.id ∷ sorted) metas (plan_message m (held m.id) b p)))
  ]
    where
      skip :
          (q : Result Planning Error)
          → contains sorted m.id ≡ true
          → Sorted sorted metas p q
          → Sorted sorted (m ∷ metas) p q
      skip (err x) old k = k
      skip (ok q) old k = simp old k

      next :
          (b : Bool) (r : Result Planning Error)
          → contains sorted m.id ≡ false
          → matches m ≡ ok b
          → Sorted (m.id ∷ sorted) metas (plan_message m (held m.id) b p) r
          → Sorted sorted (m ∷ metas) p r
      next b (err x) new e k = k
      next b (ok q) new e k = simp new (Planned-next m _ (held m.id) b p q refl e k)

      decide :
          (o : Result Bool Error)
          → matches m ≡ o
          → contains sorted m.id ≡ false
          → ((b : Bool)
              → Sorted (m.id ∷ sorted) metas (plan_message m (held m.id) b p) (
                  plan_messages matches held
                    (m.id ∷ sorted)
                    metas
                    (plan_message m (held m.id) b p)))
          → Sorted sorted (m ∷ metas) p (elim o [
            | ok b ↦
                plan_messages matches held (m.id ∷ sorted) metas (plan_message m (held m.id) b p)
            | err x ↦ err x
          ])
      decide (err x) e new k = (m, e)
      decide (ok b) e new k = next b _ new e (k b)

  -- Of messages of which some may be listed twice, each is decided once, where it is first met: the
  -- messages to be added are exactly those that are new and match the filter, those to be updated the
  -- ones that are held and match, those to be deleted the ones that are held and do not match, all in
  -- the order they were met and after what was planned before, and the rest, which are new and do not
  -- match, are counted as passed over; nothing else changes. Only where the filter fails on a message is
  -- there an error, which is the filter's.
  pub plan_messages_sorts :
      (metas : List MessageMeta) (p : Planning)
      → Sorted [] metas p (plan_messages matches held [] metas p)
  plan_messages_sorts metas p = plan_messages-Sorted [] metas p
