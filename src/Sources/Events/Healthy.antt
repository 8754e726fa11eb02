-- ===== src/Sources/Events/Healthy.antt =====
-- sources/jmap/events/mod.rs: the failures that are counted against a strategy.
use mail_backup.Base.{
  ℕ, zero, suc, ◌<◌, Bool, true, false, not, Option, none, some, List, [], ◌∷◌, ◌++◌, Result, ok,
  err, Error, All, is_some, arith, if◌then◌else◌,
}
use mail_backup.Sources.Events.{
  SourceNotification, EventStrategy, StrategyHealth, Chain, Verdict, shutdown, unsupported, cooling,
  subscribed, refused, Selection, chosen, stopped, Forwarded, finished, yielded, cooldown_remaining,
  demotion_threshold, strike, failed_entry, ended_entry, update_at, record_failure, stream_ended,
  after_subscribe, try_subscribe, consider, insist, second_pass, first_pass, select, forward_item,
  forward,
}

-- Fewer failures are counted than make a strategy cool down.
abbrev pub IsCounted : StrategyHealth → Type 0
IsCounted h = h.consecutive_failures < demotion_threshold

strike-IsCounted : (now : ℕ) (h : StrategyHealth) → IsCounted h → IsCounted (strike now h)
unfolding strike
strike-IsCounted now h k = ground arith

failed_entry-IsCounted :
    (now : ℕ) (h : StrategyHealth) → IsCounted h → IsCounted (failed_entry now h)
unfolding failed_entry
failed_entry-IsCounted now h k = strike-IsCounted now _ k

ended_entry-IsCounted : (now : ℕ) (h : StrategyHealth) → IsCounted h → IsCounted (ended_entry now h)
unfolding ended_entry
ended_entry-IsCounted now h k = go h.subscribed_at
  where
    go : (since : Option ℕ) → IsCounted (ended_entry now (record h { subscribed_at = since }))
    go none = k
    go (some at) = ground (arith, strike-IsCounted now (record h { subscribed_at = none }) k)

All-update_at :
    (f : StrategyHealth → StrategyHealth)
    → ((h : StrategyHealth) → IsCounted h → IsCounted (f h))
    → (i : ℕ) (hs : List StrategyHealth) → All IsCounted hs
    → All IsCounted (update_at i f hs)
unfolding update_at
All-update_at f k i [] a = a
All-update_at f k zero (h ∷ hs) a = (k h a.0, a.1)
All-update_at f k (suc i) (h ∷ hs) a = (a.0, All-update_at f k i hs a.1)

module _ {W : Type 0} (now : W → ℕ) (cancelled : W → Bool × W) where
  abbrev pub IsHealthy : Chain W → Type 0
  IsHealthy c = All IsCounted c.health

  stream_ended-IsHealthy :
      (i : ℕ) (c : Chain W) → IsHealthy c → IsHealthy (stream_ended now cancelled i c)
  unfolding stream_ended
  stream_ended-IsHealthy i c a =
      All-update_at (ended_entry (now c.outside)) (ended_entry-IsCounted (now c.outside)) i c.health
        a

  after_subscribe-IsHealthy :
      (i : ℕ) (r : Result (Unit {0}) Error) (c : Chain W)
      → IsHealthy c
      → IsHealthy (after_subscribe now cancelled i r c).1
  unfolding after_subscribe record_failure
  after_subscribe-IsHealthy i (ok u) c a = All-update_at _ (λ h k. k) i c.health a
  after_subscribe-IsHealthy i (err x) c a =
      All-update_at (failed_entry (now c.outside)) (failed_entry-IsCounted (now c.outside)) i
        c.health a

  try_subscribe-IsHealthy :
      (i : ℕ) (s : EventStrategy W) (c : Chain W)
      → IsHealthy c
      → IsHealthy (try_subscribe now cancelled i s c).1
  unfolding try_subscribe
  try_subscribe-IsHealthy i s c a = after_subscribe-IsHealthy i _ _ a

  insist-IsHealthy :
      (i : ℕ) (s : EventStrategy W) (c : Chain W)
      → IsHealthy c
      → IsHealthy (insist now cancelled i s c).1
  unfolding insist
  insist-IsHealthy i s c a = go (cancelled c.outside).0
    where
      c' : Chain W
      c' = record c { outside = (cancelled c.outside).1 }

      go :
          (stop : Bool)
          → IsHealthy (if stop then (shutdown, c') else try_subscribe now cancelled i s c').1
      go true = a
      go false = try_subscribe-IsHealthy i s c' a

  guarded-IsHealthy :
      (stop unfit idle : Bool) (c : Chain W) (t : Verdict × Chain W)
      → IsHealthy c
      → IsHealthy t.1
      → IsHealthy
          (if stop
            then (shutdown, c)
            else if unfit
            then (unsupported, c)
            else if idle
            then (cooling, c)
            else t).1
  guarded-IsHealthy true unfit idle c t a b = a
  guarded-IsHealthy false true idle c t a b = a
  guarded-IsHealthy false false true c t a b = a
  guarded-IsHealthy false false false c t a b = b

  consider-IsHealthy :
      (i : ℕ) (s : EventStrategy W) (c : Chain W)
      → IsHealthy c
      → IsHealthy (consider now cancelled i s c).1
  unfolding consider
  consider-IsHealthy i s c a =
      guarded-IsHealthy (cancelled c.outside).0 (not (s.supported w))
        (is_some (cooldown_remaining now cancelled i c')) c' (try_subscribe now cancelled i s c') a
        (try_subscribe-IsHealthy i s c' a)
    where
      w : W
      w = (cancelled c.outside).1

      c' : Chain W
      c' = record c { outside = w }

  after_insist-IsHealthy :
      (i : ℕ) (rest : List (ℕ × EventStrategy W)) (last : Option Error)
      → ((last : Option Error) (c : Chain W)
          → IsHealthy c
          → IsHealthy (second_pass now cancelled rest last c).1)
      → (v : Verdict) (c : Chain W) → IsHealthy c
      → IsHealthy
          (elim v as (λ v. Selection × Chain W) [
            | subscribed ↦ (chosen i, c)
            | shutdown ↦ (stopped, c)
            | refused x ↦ second_pass now cancelled rest (some x) c
            | unsupported ↦ second_pass now cancelled rest last c
            | cooling ↦ second_pass now cancelled rest last c
          ]).1
  after_insist-IsHealthy i rest last rec subscribed c a = a
  after_insist-IsHealthy i rest last rec shutdown c a = a
  after_insist-IsHealthy i rest last rec (refused x) c a = rec (some x) c a
  after_insist-IsHealthy i rest last rec unsupported c a = rec last c a
  after_insist-IsHealthy i rest last rec cooling c a = rec last c a

  second_pass-IsHealthy :
      (cooled : List (ℕ × EventStrategy W)) (last : Option Error) (c : Chain W)
      → IsHealthy c
      → IsHealthy (second_pass now cancelled cooled last c).1
  unfolding second_pass
  second_pass-IsHealthy [] last c a = a
  second_pass-IsHealthy ((i, s) ∷ rest) last c a =
      after_insist-IsHealthy i rest last (second_pass-IsHealthy rest) (insist now cancelled i s c).0
        (insist now cancelled i s c).1 (insist-IsHealthy i s c a)

  after_consider-IsHealthy :
      (i : ℕ) (s : EventStrategy W) (rest : List (EventStrategy W)) (last : Option Error)
      (cooled : List (ℕ × EventStrategy W))
      → ((last : Option Error) (cooled : List (ℕ × EventStrategy W)) (c : Chain W)
          → IsHealthy c
          → IsHealthy (first_pass now cancelled (suc i) rest last cooled c).1)
      → (v : Verdict) (c : Chain W) → IsHealthy c
      → IsHealthy
          (elim v as (λ v. Selection × Chain W) [
            | subscribed ↦ (chosen i, c)
            | shutdown ↦ (stopped, c)
            | refused x ↦ first_pass now cancelled (suc i) rest (some x) cooled c
            | unsupported ↦ first_pass now cancelled (suc i) rest last cooled c
            | cooling ↦ first_pass now cancelled (suc i) rest last (cooled ++ (i, s) ∷ []) c
          ]).1
  after_consider-IsHealthy i s rest last cooled rec subscribed c a = a
  after_consider-IsHealthy i s rest last cooled rec shutdown c a = a
  after_consider-IsHealthy i s rest last cooled rec (refused x) c a = rec (some x) cooled c a
  after_consider-IsHealthy i s rest last cooled rec unsupported c a = rec last cooled c a
  after_consider-IsHealthy i s rest last cooled rec cooling c a =
      rec last (cooled ++ (i, s) ∷ []) c a

  first_pass-IsHealthy :
      (i : ℕ) (strategies : List (EventStrategy W)) (last : Option Error)
      (cooled : List (ℕ × EventStrategy W)) (c : Chain W)
      → IsHealthy c
      → IsHealthy (first_pass now cancelled i strategies last cooled c).1
  unfolding first_pass
  first_pass-IsHealthy i [] last cooled c a = second_pass-IsHealthy cooled last c a
  first_pass-IsHealthy i (s ∷ rest) last cooled c a =
      after_consider-IsHealthy i s rest last cooled (first_pass-IsHealthy (suc i) rest)
        (consider now cancelled i s c).0 (consider now cancelled i s c).1
        (consider-IsHealthy i s c a)

  forward_item-IsHealthy :
      (i : ℕ) (item : Option (Result SourceNotification Error)) (c : Chain W)
      → IsHealthy c
      → IsHealthy (forward_item now cancelled i item c).1
  unfolding forward_item
  forward_item-IsHealthy i none c a = stream_ended-IsHealthy i c a
  forward_item-IsHealthy i (some item) c a = go (cancelled c.outside).0 item
    where
      c' : Chain W
      c' = record c { outside = (cancelled c.outside).1 }

      go :
          (stop : Bool) (item : Result SourceNotification Error)
          → IsHealthy
              (if stop then (finished, c') else elim item as (λ r. Forwarded × Chain W) [
                | ok n ↦ (yielded (ok n) true, c')
                | err x ↦ (yielded (err x) false, stream_ended now cancelled i c')
              ]).1
      go true item = a
      go false (ok n) = a
      go false (err x) = stream_ended-IsHealthy i c' a

  -- Selecting a strategy and forwarding its stream keep the count of failures of every strategy below
  -- the number at which it is set aside, so the count never runs past it.
  pub select-IsHealthy :
      (c : Chain W)
      → IsHealthy c
      → ((strategies : List (EventStrategy W)) → IsHealthy (select now cancelled strategies c).1)
        × ((i : ℕ) (s : EventStrategy W) → IsHealthy (forward now cancelled i s c).1)
  unfolding select forward
  select-IsHealthy c a = (
    λ strategies. first_pass-IsHealthy 0 strategies none [] c a,
    λ i s.
        forward_item-IsHealthy i (s.next c.outside).0 (record c { outside = (s.next c.outside).1 })
          a,
  )
