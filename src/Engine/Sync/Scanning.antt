-- ===== src/Engine/Sync/Scanning.antt =====
-- engine/sync.rs: the loop of `reconcile` over the enumerated messages, and what it finds vanished.
use mail_backup.Base.{
  subst, ◌+◌, Bool, true, false, not, ◌&&◌, ◌||◌, Option, none, some, is_some, List, [], ◌∷◌, ◌++◌,
  map, filter, length, Text, contains, Result, ok, err, Error, pure, reads, ◌>>=◌, after, Post,
  Post-weaken, ◌≡◌, refl, sym, ◌∙◌, ap, arith, nat_eq, list_eq, ◌==◌, if◌then◌else◌, Bool-cases,
  inl, inr, eq_iff,
}
use mail_backup.Entities.{MessageMeta, MailboxIndex}
use mail_backup.Messages
use mail_backup.Stores.{StoredMessage}
use mail_backup.Engine.Setup.{Setup, matches_filter}
use mail_backup.Engine.Plan.Classes.{takes, rejects, append_nil, after_one}
use mail_backup.Engine.Sync.{Scan, scan, scan_message, vanished}

-- The messages that were enumerated.
abbrev pub listed : List (Result MessageMeta Error) → List MessageMeta
listed [] = []
listed (ok m ∷ items) = m ∷ listed items
listed (err x ∷ items) = listed items

-- Whether what is stored has other keywords or other mailboxes than the message.
abbrev pub differs : MessageMeta → Option StoredMessage → Bool
differs m none = false
differs m (some stored) =
    not (stored.meta.keywords == m.keywords) || not (stored.meta.mailbox_ids == m.mailbox_ids)

scan_changed :
    (m : MessageMeta) (old : StoredMessage) (s : Scan)
    → differs m (some old) ≡ true
    → scan_message m (some old) true s ≡ record s {
      seen = m.id ∷ s.seen;
      plan = record s.plan { updates = s.plan.updates ++ m ∷ [] };
    }
unfolding scan_message
scan_changed m old s h = simp h refl

scan_same :
    (m : MessageMeta) (old : StoredMessage) (s : Scan)
    → differs m (some old) ≡ false
    → scan_message m (some old) true s ≡ record s {
      seen = m.id ∷ s.seen;
      summary = record s.summary { unchanged = s.summary.unchanged + 1 };
    }
unfolding scan_message
scan_same m old s h = simp h refl

contains-vanished :
    (seen : List Text) (xs : List StoredMessage) (id : Text)
    → contains (map (λ m. m.meta.id) (filter (λ m. not (contains seen m.meta.id)) xs)) id
      ≡ (contains (map (λ m. m.meta.id) xs) id && not (contains seen id))
unfolding contains
contains-vanished seen [] id = refl
contains-vanished seen (x ∷ xs) id = elim (Bool-cases (contains seen x.meta.id)) [
  | inl old ↦ simp old (ground (arith, contains-vanished seen xs id, eq_iff x.meta.id id))
  | inr new ↦ simp new (ground (arith, contains-vanished seen xs id, eq_iff x.meta.id id))
]

-- Looking at the cancel flag leaves the store alone.
pub record IsStill {W : Type 0} (e : Setup W) : Type 0 where
  pub lookup_still :
      (id : Text) (w : W) → e.store.lookup id (e.around.cancelled w).1 ≡ e.store.lookup id w
  pub mailboxes_still : (w : W) → e.store.mailboxes (e.around.cancelled w).1 ≡ e.store.mailboxes w
  pub list_still : (w : W) → e.store.list (e.around.cancelled w).1 ≡ e.store.list w

module _ {W : Type 0} (e : Setup W) (w₀ : W) where
  abbrev stored : MessageMeta → Option StoredMessage
  stored m = e.store.lookup m.id w₀

  abbrev decision : MessageMeta → Result Bool Error
  decision m = matches_filter e w₀ m

  abbrev pub to_add : List MessageMeta → List MessageMeta
  to_add = filter (λ m. takes (decision m) && not (is_some (stored m)))

  abbrev pub to_delete : List MessageMeta → List MessageMeta
  to_delete = filter (λ m. rejects (decision m) && is_some (stored m))

  abbrev pub to_update : List MessageMeta → List MessageMeta
  to_update = filter (λ m. takes (decision m) && differs m (stored m))

  abbrev pub to_skip : List MessageMeta → List MessageMeta
  to_skip = filter (λ m. rejects (decision m) && not (is_some (stored m)))

  abbrev pub to_keep : List MessageMeta → List MessageMeta
  to_keep = filter (λ m. takes (decision m) && is_some (stored m) && not (differs m (stored m)))

  -- What a loop over these messages from `s` leaves, if it is not interrupted.
  abbrev pub Decided : List MessageMeta → Scan → Scan → Type 0
  Decided ms s t =
      (t.plan.adds ≡ s.plan.adds ++ to_add ms)
      × (t.plan.updates ≡ s.plan.updates ++ to_update ms)
      × (t.plan.deletes ≡ s.plan.deletes ++ map MessageMeta.id (to_delete ms))
      × (t.summary.skipped ≡ s.summary.skipped + length (to_skip ms))
      × (t.summary.unchanged ≡ s.summary.unchanged + length (to_keep ms))
      × ((id : Text)
          → contains t.seen id ≡ (contains s.seen id || contains (map MessageMeta.id ms) id))

  Decided-next :
      (m : MessageMeta) (ms : List MessageMeta) (o : Option StoredMessage) (b : Bool) (s t : Scan)
      → stored m ≡ o
      → decision m ≡ ok b
      → Decided ms (scan_message m o b s) t
      → Decided (m ∷ ms) s t
  unfolding scan_message contains
  Decided-next m ms none true s t k d r =
      rw (k, d) (r.0 ∙ after_one s.plan.adds m _, r.1, r.2, r.3, r.4, λ id. ground (arith, r.5 id))
  Decided-next m ms none false s t k d r =
      rw (k, d) (r.0, r.1, r.2, omega (arith, r.3), r.4, λ id. ground (arith, r.5 id))
  Decided-next m ms (some old) false s t k d r =
      rw (k, d)
        (r.0, r.1, r.2 ∙ after_one s.plan.deletes m.id _, r.3, r.4, λ id. ground (arith, r.5 id))
  Decided-next m ms (some old) true s t k d r = elim (Bool-cases (differs m (some old))) [
    | inl new ↦
        let q = subst (λ u. Decided ms u t) (scan_changed m old s new) r in
        rw (k, d)
          (simp new
            (q.0, q.1 ∙ after_one s.plan.updates m _, q.2, q.3, q.4, λ id. ground (arith, q.5 id)))
    | inr same ↦
        let q = subst (λ u. Decided ms u t) (scan_same m old s same) r in
        rw (k, d) (simp same (q.0, q.1, q.2, q.3, omega (arith, q.4), λ id. ground (arith, q.5 id)))
  ]

module _ {W : Type 0} (e : Setup W) (still : IsStill e) (w₀ : W) where
  -- The store at `w` is as it is at `w₀`.
  abbrev SameStore : W → Type 0
  SameStore w =
      ((id : Text) → e.store.lookup id w ≡ e.store.lookup id w₀)
      × (e.store.mailboxes w ≡ e.store.mailboxes w₀)
      × (e.store.list w ≡ e.store.list w₀)

  -- What an uninterrupted loop from `s` leaves, and what is vanished after it.
  abbrev pub Scanned : List (Result MessageMeta Error) → Scan → Scan → W → Type 0
  Scanned items s t w =
      t.summary.interrupted ≡ false
      → Decided e w₀ (listed items) s t
        × ((id : Text)
            → contains (vanished e t.seen w) id ≡ (
                contains (map (λ m. m.meta.id) (e.store.list w₀)) id
                && not (contains s.seen id || contains (map MessageMeta.id (listed items)) id)))

  same_after : (w : W) → SameStore w → SameStore (e.around.cancelled w).1
  same_after w h = (
    λ id. still.lookup_still id w ∙ h.0 id,
    still.mailboxes_still w ∙ h.1,
    still.list_still w ∙ h.2,
  )

  filter_same :
      (m : MessageMeta) (w : W) → SameStore w → matches_filter e w₀ m ≡ matches_filter e w m
  unfolding matches_filter
  filter_same m w h =
      ap (λ (index : MailboxIndex). e.policy.filter (Messages.new e.externals m index)) (sym h.1)

  -- The store is the same, and an uninterrupted loop has decided.
  abbrev Core : List (Result MessageMeta Error) → Scan → Scan → W → Type 0
  Core items s t w = SameStore w × (t.summary.interrupted ≡ false → Decided e w₀ (listed items) s t)

  scan-from :
      (items : List (Result MessageMeta Error)) (s : Scan) (w : W)
      → SameStore w
      → Post (Core items s) (λ x w'. Unit {0}) (scan e items s w)
  unfolding scan contains
  scan-from [] s w h = (
    h,
    λ off. (
      sym (append_nil s.plan.adds),
      sym (append_nil s.plan.updates),
      sym (append_nil s.plan.deletes),
      omega arith,
      omega arith,
      λ id. ground arith,
    ),
  )
  scan-from (err x ∷ items) s w h = tt
  scan-from (ok m ∷ items) s w h =
      go_on (e.around.cancelled w).0 (e.around.cancelled w).1 (same_after w h) (scan-from items)
    where
      go_on :
          (stop : Bool) (w' : W)
          → SameStore w'
          → ((s' : Scan) (v : W)
              → SameStore v
              → Post (Core items s') (λ x v'. Unit {0}) (scan e items s' v))
          → Post
              (Core (ok m ∷ items) s)
              (λ x v'. Unit {0})
              ((if stop
                  then pure (record s { summary = record s.summary { interrupted = true } })
                  else (do
                    matches ← λ v. (matches_filter e v m, v)
                    stored ← reads (e.store.lookup m.id)
                    scan e items (scan_message m stored matches s)))
                w')
      go_on true w' same more = (same, λ off. cc)
      go_on false w' same more = matched (matches_filter e w' m) (filter_same m w' same)
        where
          matched :
              (r : Result Bool Error)
              → matches_filter e w₀ m ≡ r
              → Post
                  (Core (ok m ∷ items) s)
                  (λ x v'. Unit {0})
                  (after
                    (λ b. reads (e.store.lookup m.id) >>= λ stored.
                      scan e items (scan_message m stored b s))
                    (r, w'))
          matched (err x) d = tt
          matched (ok b) d =
              Post-weaken (Core items (scan_message m (e.store.lookup m.id w') b s))
                (λ x v'. Unit {0}) _ _ _
                (more (scan_message m (e.store.lookup m.id w') b s) w' same) (λ x v k. tt)
                (λ t v k. (
                  k.0,
                  λ off.
                      Decided-next e w₀ m (listed items) (e.store.lookup m.id w') b s t
                        (sym (same.0 m.id)) d (k.1 off),
                ))

  -- A scan from `w₀` that is not interrupted has decided each enumerated message by what the store
  -- holds of it: the messages to be added are, in their order and after what was planned before, exactly
  -- those that match the filter and are not stored, those to be updated the ones that match and are
  -- stored with other keywords or mailboxes, and those to be deleted the ones that are stored and do
  -- not match; the others are counted as unchanged or as passed over. And what is vanished after it are
  -- exactly the ids of the stored messages that were not enumerated, nor seen before. Looking at the
  -- cancel flag is taken to leave the store alone.
  pub scan-Scanned :
      (items : List (Result MessageMeta Error)) (s : Scan)
      → Post (Scanned items s) (λ x w'. Unit {0}) (scan e items s w₀)
  unfolding vanished
  scan-Scanned items s =
      Post-weaken (Core items s) (λ x w'. Unit {0}) _ _ (scan e items s w₀)
        (scan-from items s w₀ (λ id. refl, refl, refl)) (λ x w k. tt)
        (λ t w k off. (
          k.1 off,
          λ id.
              ap
                (λ (xs : List StoredMessage).
                  contains (map (λ m. m.meta.id) (filter (λ m. not (contains t.seen m.meta.id)) xs))
                    id)
                k.0.2
              ∙ contains-vanished t.seen (e.store.list w₀) id
              ∙ ap (λ (b : Bool). contains (map (λ m. m.meta.id) (e.store.list w₀)) id && not b)
                  ((k.1 off).5 id),
        ))
