-- ===== src/Sources/Events/Choosing.antt =====
-- sources/jmap/events/mod.rs: which strategy the chain selects.
use mail_backup.Base.{
  ℕ, suc, Bool, true, false, not, Option, none, some, List, [], ◌∷◌, ◌++◌, Result, ok, err, Error,
  ◌≡◌, refl, ◌⊎◌, inl, inr, if◌then◌else◌,
}
use mail_backup.Sources.Events.{
  EventStrategy, Chain, Verdict, shutdown, unsupported, cooling, subscribed, refused, Selection,
  chosen, stopped, unavailable, subscribe_timeout, or_timed_out, after_subscribe, try_subscribe,
  consider, insist, second_pass, first_pass, select,
}

module _ {W : Type 0} (now : W → ℕ) (cancelled : W → Bool × W) where
  -- A strategy that the server always supports and that can always be subscribed to in time.
  abbrev pub IsReliable : EventStrategy W → Type 0
  IsReliable s =
      (w : W)
      → (s.supported w ≡ true)
        × ((w' : W) × (s.subscribe_within subscribe_timeout w ≡ (some (ok tt), w')))

  abbrev pub HasReliable : List (EventStrategy W) → Type 0
  HasReliable [] = ⊥
  HasReliable (s ∷ ss) = IsReliable s ⊎ HasReliable ss

  abbrev WasReliable : List (ℕ × EventStrategy W) → Type 0
  WasReliable [] = ⊥
  WasReliable ((i, s) ∷ ss) = IsReliable s ⊎ WasReliable ss

  abbrev pub IsChosen : Selection → Type 0
  IsChosen (chosen i) = Unit
  IsChosen stopped = ⊥
  IsChosen (unavailable x) = ⊥

  WasReliable-append :
      (xs ys : List (ℕ × EventStrategy W)) → WasReliable xs → WasReliable (xs ++ ys)
  WasReliable-append [] ys h = absurd h
  WasReliable-append ((i, s) ∷ xs) ys (inl h) = inl h
  WasReliable-append ((i, s) ∷ xs) ys (inr h) = inr (WasReliable-append xs ys h)

  WasReliable-last :
      (xs : List (ℕ × EventStrategy W)) (i : ℕ) (s : EventStrategy W)
      → IsReliable s
      → WasReliable (xs ++ (i, s) ∷ [])
  WasReliable-last [] i s h = inl h
  WasReliable-last ((j, t) ∷ xs) i s h = inr (WasReliable-last xs i s h)

  try_subscribe-subscribed :
      (i : ℕ) (s : EventStrategy W) (c : Chain W)
      → IsReliable s
      → (try_subscribe now cancelled i s c).0 ≡ subscribed
  unfolding try_subscribe or_timed_out after_subscribe
  try_subscribe-subscribed i s c h = let (w', e) = (h c.outside).1 in rw (e, try_subscribe) refl

  module _ (running : (w : W) → (cancelled w).0 ≡ false) where
    insist-subscribed :
        (i : ℕ) (s : EventStrategy W) (c : Chain W)
        → IsReliable s
        → (insist now cancelled i s c).0 ≡ subscribed
    unfolding insist
    insist-subscribed i s c h = rw (running c.outside, insist) (try_subscribe-subscribed i s _ h)

    after_subscribe-runs :
        (i : ℕ) (r : Result (Unit {0}) Error) (c : Chain W)
        → (after_subscribe now cancelled i r c).0 ≡ shutdown
        → ⊥
    unfolding after_subscribe
    after_subscribe-runs i (ok u) c e = cc
    after_subscribe-runs i (err x) c e = cc

    try_subscribe-runs :
        (i : ℕ) (s : EventStrategy W) (c : Chain W)
        → (try_subscribe now cancelled i s c).0 ≡ shutdown
        → ⊥
    unfolding try_subscribe
    try_subscribe-runs i s c e = after_subscribe-runs i _ _ e

    insist-runs :
        (i : ℕ) (s : EventStrategy W) (c : Chain W) → (insist now cancelled i s c).0 ≡ shutdown → ⊥
    unfolding insist
    insist-runs i s c = rw (running c.outside, insist) (try_subscribe-runs i s _)

    guarded-runs :
        (stop unfit idle : Bool) (c : Chain W) (t : Verdict × Chain W)
        → stop ≡ false
        → (t.0 ≡ shutdown → ⊥)
        → (if stop
            then (shutdown, c)
            else if unfit
            then (unsupported, c)
            else if idle
            then (cooling, c)
            else t).0
          ≡ shutdown
        → ⊥
    guarded-runs true unfit idle c t f r e = cc
    guarded-runs false true idle c t f r e = cc
    guarded-runs false false true c t f r e = cc
    guarded-runs false false false c t f r e = r e

    guarded-reliable :
        (stop fit idle : Bool) (c : Chain W) (t : Verdict × Chain W)
        → stop ≡ false
        → fit ≡ true
        → t.0 ≡ subscribed
        → let v =
            (if stop
              then (shutdown, c)
              else if not fit
              then (unsupported, c)
              else if idle
              then (cooling, c)
              else t).0 in
          (v ≡ subscribed) ⊎ (v ≡ cooling)
    guarded-reliable true fit idle c t f g e = absurd cc
    guarded-reliable false false idle c t f g e = absurd cc
    guarded-reliable false true true c t f g e = inr refl
    guarded-reliable false true false c t f g e = inl e

    consider-runs :
        (i : ℕ) (s : EventStrategy W) (c : Chain W)
        → (consider now cancelled i s c).0 ≡ shutdown
        → ⊥
    unfolding consider
    consider-runs i s c =
        guarded-runs (cancelled c.outside).0 _ _ _ _ (running c.outside) (try_subscribe-runs i s _)

    consider-reliable :
        (i : ℕ) (s : EventStrategy W) (c : Chain W)
        → IsReliable s
        → ((consider now cancelled i s c).0 ≡ subscribed)
          ⊎ ((consider now cancelled i s c).0 ≡ cooling)
    unfolding consider
    consider-reliable i s c h =
        guarded-reliable (cancelled c.outside).0 (s.supported (cancelled c.outside).1) _ _ _
          (running c.outside) (h (cancelled c.outside).1).0 (try_subscribe-subscribed i s _ h)

    after_insist-IsChosen :
        (i : ℕ) (s : EventStrategy W) (rest : List (ℕ × EventStrategy W)) (last : Option Error)
        → ((last : Option Error) (c : Chain W)
            → WasReliable rest
            → IsChosen (second_pass now cancelled rest last c).0)
        → (v : Verdict) (c : Chain W) → (v ≡ shutdown → ⊥)
        → (IsReliable s → v ≡ subscribed)
        → IsReliable s ⊎ WasReliable rest
        → IsChosen
            (elim v as (λ v. Selection × Chain W) [
              | subscribed ↦ (chosen i, c)
              | shutdown ↦ (stopped, c)
              | refused x ↦ second_pass now cancelled rest (some x) c
              | unsupported ↦ second_pass now cancelled rest last c
              | cooling ↦ second_pass now cancelled rest last c
            ]).0
    after_insist-IsChosen i s rest last rec subscribed c runs good h = tt
    after_insist-IsChosen i s rest last rec shutdown c runs good h = absurd (runs refl)
    after_insist-IsChosen i s rest last rec (refused x) c runs good (inl r) = absurd (cc (good r))
    after_insist-IsChosen i s rest last rec unsupported c runs good (inl r) = absurd (cc (good r))
    after_insist-IsChosen i s rest last rec cooling c runs good (inl r) = absurd (cc (good r))
    after_insist-IsChosen i s rest last rec (refused x) c runs good (inr k) = rec (some x) c k
    after_insist-IsChosen i s rest last rec unsupported c runs good (inr k) = rec last c k
    after_insist-IsChosen i s rest last rec cooling c runs good (inr k) = rec last c k

    second_pass-IsChosen :
        (cooled : List (ℕ × EventStrategy W)) (last : Option Error) (c : Chain W)
        → WasReliable cooled
        → IsChosen (second_pass now cancelled cooled last c).0
    unfolding second_pass
    second_pass-IsChosen [] last c h = absurd h
    second_pass-IsChosen ((i, s) ∷ rest) last c h =
        after_insist-IsChosen i s rest last (second_pass-IsChosen rest)
          (insist now cancelled i s c).0 (insist now cancelled i s c).1 (insist-runs i s c)
          (insist-subscribed i s c) h

    after_consider-IsChosen :
        (i : ℕ) (s : EventStrategy W) (rest : List (EventStrategy W)) (last : Option Error)
        (cooled : List (ℕ × EventStrategy W))
        → ((last : Option Error) (cooled : List (ℕ × EventStrategy W)) (c : Chain W)
            → HasReliable rest ⊎ WasReliable cooled
            → IsChosen (first_pass now cancelled (suc i) rest last cooled c).0)
        → (v : Verdict) (c : Chain W) → (v ≡ shutdown → ⊥)
        → (IsReliable s → (v ≡ subscribed) ⊎ (v ≡ cooling))
        → (IsReliable s ⊎ HasReliable rest) ⊎ WasReliable cooled
        → IsChosen
            (elim v as (λ v. Selection × Chain W) [
              | subscribed ↦ (chosen i, c)
              | shutdown ↦ (stopped, c)
              | refused x ↦ first_pass now cancelled (suc i) rest (some x) cooled c
              | unsupported ↦ first_pass now cancelled (suc i) rest last cooled c
              | cooling ↦ first_pass now cancelled (suc i) rest last (cooled ++ (i, s) ∷ []) c
            ]).0
    after_consider-IsChosen i s rest last cooled rec subscribed c runs good h = tt
    after_consider-IsChosen i s rest last cooled rec shutdown c runs good h = absurd (runs refl)
    after_consider-IsChosen i s rest last cooled rec cooling c runs good (inl (inl r)) =
        rec last (cooled ++ (i, s) ∷ []) c (inr (WasReliable-last cooled i s r))
    after_consider-IsChosen i s rest last cooled rec cooling c runs good (inl (inr k)) =
        rec last (cooled ++ (i, s) ∷ []) c (inl k)
    after_consider-IsChosen i s rest last cooled rec cooling c runs good (inr k) =
        rec last (cooled ++ (i, s) ∷ []) c (inr (WasReliable-append cooled ((i, s) ∷ []) k))
    after_consider-IsChosen i s rest last cooled rec (refused x) c runs good (inl (inl r)) =
        absurd (neither (good r))
      where
        neither : (refused x ≡ subscribed) ⊎ (refused x ≡ cooling) → ⊥
        neither (inl e) = cc
        neither (inr e) = cc
    after_consider-IsChosen i s rest last cooled rec (refused x) c runs good (inl (inr k)) =
        rec (some x) cooled c (inl k)
    after_consider-IsChosen i s rest last cooled rec (refused x) c runs good (inr k) =
        rec (some x) cooled c (inr k)
    after_consider-IsChosen i s rest last cooled rec unsupported c runs good (inl (inl r)) =
        absurd (neither (good r))
      where
        neither : (unsupported ≡ subscribed) ⊎ (unsupported ≡ cooling) → ⊥
        neither (inl e) = cc
        neither (inr e) = cc
    after_consider-IsChosen i s rest last cooled rec unsupported c runs good (inl (inr k)) =
        rec last cooled c (inl k)
    after_consider-IsChosen i s rest last cooled rec unsupported c runs good (inr k) =
        rec last cooled c (inr k)

    first_pass-IsChosen :
        (i : ℕ) (strategies : List (EventStrategy W)) (last : Option Error)
        (cooled : List (ℕ × EventStrategy W)) (c : Chain W)
        → HasReliable strategies ⊎ WasReliable cooled
        → IsChosen (first_pass now cancelled i strategies last cooled c).0
    unfolding first_pass
    first_pass-IsChosen i [] last cooled c (inl nobody) = absurd nobody
    first_pass-IsChosen i [] last cooled c (inr k) = second_pass-IsChosen cooled last c k
    first_pass-IsChosen i (s ∷ rest) last cooled c h =
        after_consider-IsChosen i s rest last cooled (first_pass-IsChosen (suc i) rest)
          (consider now cancelled i s c).0 (consider now cancelled i s c).1 (consider-runs i s c)
          (consider-reliable i s c) h

    -- While no shutdown is asked for, and one of the strategies is always supported and can always be
    -- subscribed to, the chain selects a strategy, whatever the others do and whatever has failed
    -- before, so a strategy that is cooling down is not lost.
    pub select-IsChosen :
        (strategies : List (EventStrategy W)) (c : Chain W)
        → HasReliable strategies
        → IsChosen (select now cancelled strategies c).0
    unfolding select
    select-IsChosen strategies c h = first_pass-IsChosen 0 strategies none [] c (inl h)
