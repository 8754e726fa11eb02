-- ===== src/Engine/Sync/Paging.antt =====
-- engine/sync.rs: the loop over the pages of changes, as steps.
use mail_backup.Base.{
  ℕ, zero, suc, ◌≤◌, Bool, true, false, Result, ok, err, Error, ◌≡◌, refl, arith, if◌then◌else◌,
  Bool-cases, inl, inr, Post, Post-intro, Post-ok, pure, after, ◌>>=◌, ◌↔◌,
}
use mathlib.Core.Path.{subst}
use mail_backup.Entities.{ChangeSet}
use mail_backup.Sources.{ChangesResult, changes, state_too_old}
use mail_backup.Engine.Setup.{Setup}
use mail_backup.Engine.Sync.{
  Gathered, Gathering, complete, too_old, stopped, absorb, gather, absorb_page,
}

-- From the variables `g` and a world, so many rounds of the loop end with a result and a world.
pub data Pages {W : Type 0} (e : Setup W) : ℕ → Gathered → W → Gathering → W → Type 0 where
  halts : (g : Gathered) (w w' : W) → e.around.cancelled w ≡ (true, w') → Pages e 1 g w stopped w'
  expires :
      (g : Gathered) (w w' w'' : W)
      → e.around.cancelled w ≡ (false, w')
      → e.source.changes g.state w' ≡ (ok state_too_old, w'')
      → Pages e 1 g w too_old w''
  ends :
      (g : Gathered) (w w' w'' : W) (c : ChangeSet)
      → e.around.cancelled w ≡ (false, w')
      → e.source.changes g.state w' ≡ (ok (changes c), w'')
      → c.has_more ≡ false
      → Pages e 1 g w (complete (absorb g c)) w''
  goes_on :
      (n : ℕ) (g : Gathered) (w w' w'' v : W) (c : ChangeSet) (r : Gathering)
      → e.around.cancelled w ≡ (false, w')
      → e.source.changes g.state w' ≡ (ok (changes c), w'')
      → c.has_more ≡ true
      → Pages e n (absorb g c) w'' r v
      → Pages e (suc n) g w r v

module _ {W : Type 0} (e : Setup W) where
  -- Where the loop over the pages ends after so many rounds, that much fuel or more is enough to
  -- return what it ends with.
  gather-Pages :
      (fuel : ℕ) {n : ℕ} {g : Gathered} {w w' : W} {r : Gathering}
      → Pages e n g w r w'
      → n ≤ fuel
      → gather e fuel g w ≡ (ok r, w')
  unfolding gather absorb_page
  gather-Pages zero (halts g w w' c) h = absurd (omega arith)
  gather-Pages zero (expires g w w' w'' c p) h = absurd (omega arith)
  gather-Pages zero (ends g w w' w'' s c p b) h = absurd (omega arith)
  gather-Pages zero (goes_on n g w w' w'' v s r c p b more) h = absurd (omega arith)
  gather-Pages (suc fuel) (halts g w w' c) h = rw c refl
  gather-Pages (suc fuel) (expires g w w' w'' c p) h = rw c (rw p refl)
  gather-Pages (suc fuel) (ends g w w' w'' s c p b) h = rw c (rw p (simp b refl))
  gather-Pages (suc fuel) (goes_on n g w w' w'' v s r c p b more) h =
      rw c (rw p (simp b (gather-Pages fuel more (omega arith))))

  -- A result of the loop from `g` and `w`, by at most so many rounds.
  abbrev Found : ℕ → Gathered → W → Gathering → W → Type 0
  Found fuel g w r w' = (n : ℕ) × (n ≤ fuel) × Pages e n g w r w'

  abbrev IsFound : ℕ → Gathered → W → Result Gathering Error × W → Type 0
  IsFound fuel g w = Post (Found fuel g w) (λ x v. Unit)

  page_Found :
      (fuel : ℕ) (g : Gathered) (w w' w'' : W) (page : Result ChangesResult Error)
      → e.around.cancelled w ≡ (false, w')
      → e.source.changes g.state w' ≡ (page, w'')
      → ((g' : Gathered) (v : W) → IsFound fuel g' v (gather e fuel g' v))
      → IsFound (suc fuel) g w (after (λ p. absorb_page e (gather e fuel) g p) (page, w''))
  unfolding absorb_page
  page_Found fuel g w w' w'' (err x) c p more = tt
  page_Found fuel g w w' w'' (ok state_too_old) c p more = (1, omega arith, expires g w w' w'' c p)
  page_Found fuel g w w' w'' (ok (changes s)) c p more = elim (Bool-cases s.has_more) [
    | inl b ↦ simp b (
        Post-intro _ _ (gather e fuel (absorb g s) w'')
          (λ r h.
            let (n, le, rest) =
              Post-ok (Found fuel (absorb g s) w'') (λ x v. Unit) _ r (more (absorb g s) w'') h in
            (suc n, omega arith, goes_on n g w w' w'' _ s r c p b rest))
          (λ x h. tt))
    | inr b ↦ simp b (1, omega arith, ends g w w' w'' s c p b)
  ]

  gather-Found : (fuel : ℕ) (g : Gathered) (w : W) → IsFound fuel g w (gather e fuel g w)
  unfolding gather
  gather-Found zero g w = tt
  gather-Found (suc fuel) g w =
      checked (e.around.cancelled w).0 (e.around.cancelled w).1 refl (gather-Found fuel)
    where
      checked :
          (stop : Bool) (w' : W)
          → e.around.cancelled w ≡ (stop, w')
          → ((g' : Gathered) (v : W) → IsFound fuel g' v (gather e fuel g' v))
          → IsFound (suc fuel) g w (
              (if stop
                  then pure stopped
                  else (do page ← e.source.changes g.state; absorb_page e (gather e fuel) g page))
                w')
      checked true w' c more = (1, omega arith, halts g w w' c)
      checked false w' c more =
          page_Found fuel g w w' (e.source.changes g.state w').1 (e.source.changes g.state w').0 c
            refl more

  -- With so much fuel `gather` returns a result exactly where the loop without a bound ends with it
  -- after at most that many rounds.
  pub gather_iff :
      (fuel : ℕ) (g : Gathered) (w w' : W) (r : Gathering)
      → (gather e fuel g w ≡ (ok r, w')) ↔ ((n : ℕ) × (n ≤ fuel) × Pages e n g w r w')
  gather_iff fuel g w w' r =
      (λ h. subst (IsFound fuel g w) h (gather-Found fuel g w), λ f. gather-Pages fuel f.2 f.1)
