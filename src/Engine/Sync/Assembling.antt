-- ===== src/Engine/Sync/Assembling.antt =====
-- engine/sync.rs: what the loop over the pages of changes gathers, by the pages that the server gave.
use mail_backup.Base.{
  ℕ, suc, ◌≤◌, Bool, true, false, ◌||◌, List, [], ◌∷◌, ◌++◌, Text, ok, ◌≡◌, refl, sym, ap, ◌∙◌,
  subst, arith, length, ◌↔◌,
}
use mail_backup.Entities.{SourceState, ChangeSet}
use mail_backup.Sources.{changes}
use mail_backup.Engine.Setup.{Setup}
use mail_backup.Engine.Plan.Classes.{append_nil}
use mail_backup.Engine.Sync.{Gathered, Gathering, complete, too_old, stopped, absorb, gather}
use mail_backup.Engine.Sync.Paging.{Pages, halts, expires, ends, goes_on, gather_iff}

abbrev pub created_of : List ChangeSet → List Text
created_of [] = []
created_of (c ∷ cs) = c.created ++ created_of cs

abbrev pub updated_of : List ChangeSet → List Text
updated_of [] = []
updated_of (c ∷ cs) = c.updated ++ updated_of cs

abbrev pub destroyed_of : List ChangeSet → List Text
destroyed_of [] = []
destroyed_of (c ∷ cs) = c.destroyed ++ destroyed_of cs

abbrev pub any_mailboxes : List ChangeSet → Bool
any_mailboxes [] = false
any_mailboxes (c ∷ cs) = c.mailboxes_changed || any_mailboxes cs

-- The state of the last page, or this one if there is none.
abbrev pub last_state : SourceState → List ChangeSet → SourceState
last_state s [] = s
last_state s (c ∷ cs) = last_state c.state cs

-- All that the pages say, after what was gathered before.
abbrev pub gathered_of : Gathered → List ChangeSet → Gathered
gathered_of g cs = record {
  created = g.created ++ created_of cs;
  updated = g.updated ++ updated_of cs;
  destroyed = g.destroyed ++ destroyed_of cs;
  mailboxes_changed = g.mailboxes_changed || any_mailboxes cs;
  state = last_state g.state cs;
}

append_assoc : (xs ys zs : List Text) → (xs ++ ys) ++ zs ≡ xs ++ (ys ++ zs)
append_assoc [] ys zs = refl
append_assoc (x ∷ xs) ys zs = ap (λ l. x ∷ l) (append_assoc xs ys zs)

or_assoc : (a b c : Bool) → ((a || b) || c) ≡ (a || (b || c))
or_assoc true b c = refl
or_assoc false b c = refl

gathered_of-absorb :
    (g : Gathered) (c : ChangeSet) (cs : List ChangeSet)
    → gathered_of (absorb g c) cs ≡ gathered_of g (c ∷ cs)
unfolding absorb
gathered_of-absorb g c cs =
    rw
      (
        append_assoc g.created c.created (created_of cs),
        append_assoc g.updated c.updated (updated_of cs),
        append_assoc g.destroyed c.destroyed (destroyed_of cs),
        or_assoc g.mailboxes_changed c.mailboxes_changed (any_mailboxes cs),
      )
      refl

or_false : (a : Bool) → (a || false) ≡ a
or_false true = refl
or_false false = refl

gathered_of-none : (g : Gathered) → g ≡ gathered_of g []
gathered_of-none g =
    rw
      (
        append_nil g.created,
        append_nil g.updated,
        append_nil g.destroyed,
        or_false g.mailboxes_changed,
      )
      refl

module _ {W : Type 0} (e : Setup W) where
  -- From the state `s` the server, asked each time for what changed since the page before, gives these
  -- pages, of which the last does not announce another; then the world is `w'`. The cancel flag is
  -- looked at before each page, and is not set.
  abbrev pub Gives : SourceState → W → ChangeSet → List ChangeSet → W → Type 0
  Gives s w c [] w' =
      (w₁ : W) × (e.around.cancelled w ≡ (false, w₁))
      × (e.source.changes s w₁ ≡ (ok (changes c), w'))
      × (c.has_more ≡ false)
  Gives s w c (d ∷ cs) w' =
      (w₁ : W) × (w₂ : W) × (e.around.cancelled w ≡ (false, w₁))
      × (e.source.changes s w₁ ≡ (ok (changes c), w₂))
      × (c.has_more ≡ true)
      × Gives c.state w₂ d cs w'

  -- The pages and what is gathered of them.
  abbrev pub GivenPages : ℕ → Gathered → W → Gathered → W → Type 0
  GivenPages fuel g w g' w' =
      (c : ChangeSet) × (cs : List ChangeSet) × (length (c ∷ cs) ≤ fuel)
      × Gives g.state w c cs w'
      × (g' ≡ gathered_of g (c ∷ cs))

  -- Where a loop ended with every page.
  abbrev IfComplete : ℕ → Gathered → W → Gathering → W → Type 0
  IfComplete n g w (complete g') w' = GivenPages n g w g' w'
  IfComplete n g w too_old w' = Unit
  IfComplete n g w stopped w' = Unit

  one_more :
      (n : ℕ) (g : Gathered) (w w₁ w₂ v : W) (c : ChangeSet) (r : Gathering)
      → e.around.cancelled w ≡ (false, w₁)
      → e.source.changes g.state w₁ ≡ (ok (changes c), w₂)
      → c.has_more ≡ true
      → IfComplete n (absorb g c) w₂ r v
      → IfComplete (suc n) g w r v
  unfolding absorb
  one_more n g w w₁ w₂ v c too_old p b f rest = tt
  one_more n g w w₁ w₂ v c stopped p b f rest = tt
  one_more n g w w₁ w₂ v c (complete g') p b f (d, cs, le, gives, same) = (
    c,
    d ∷ cs,
    omega (arith, le),
    (w₁, w₂, p, b, f, gives),
    same ∙ gathered_of-absorb g c (d ∷ cs),
  )

  of_Pages :
      {n : ℕ} {g : Gathered} {r : Gathering} {w w' : W} → Pages e n g w r w' → IfComplete n g w r w'
  of_Pages (halts g w w' c) = tt
  of_Pages (expires g w w' w'' c p) = tt
  of_Pages (ends g w w₁ w₂ c p b f) =
      (c, [], omega arith, (w₁, p, b, f), gathered_of-none (absorb g c) ∙ gathered_of-absorb g c [])
  of_Pages (goes_on n g w w₁ w₂ v c r p b f more) = one_more n g w w₁ w₂ v c r p b f (of_Pages more)

  to_Pages :
      (g : Gathered) (w : W) (c : ChangeSet) (cs : List ChangeSet) (w' : W)
      → Gives g.state w c cs w'
      → Pages e (length (c ∷ cs)) g w (complete (gathered_of g (c ∷ cs))) w'
  unfolding absorb
  to_Pages g w c [] w' (w₁, p, b, f) =
      subst (λ g'. Pages e 1 g w (complete g') w')
        (gathered_of-none (absorb g c) ∙ gathered_of-absorb g c []) (ends g w w₁ w' c p b f)
  to_Pages g w c (d ∷ cs) w' (w₁, w₂, p, b, f, gives) = goes_on _ g w w₁ w₂ w' c _ p b f (
      subst (λ g'. Pages e (length (d ∷ cs)) (absorb g c) w₂ (complete g') w')
        (gathered_of-absorb g c (d ∷ cs)) (to_Pages (absorb g c) w₂ d cs w' gives))

  -- With so much fuel the loop over pages ends with every page exactly where the server, asked each
  -- time for what changed since the page before, gives that many pages or fewer, of which the last
  -- announces no other, while the cancel flag is not set. What is gathered is then, after what was
  -- gathered before, all that the pages list as created, updated and destroyed, in their order, whether
  -- any says that mailboxes changed, and the state of the last page.
  pub gather-complete_iff :
      (fuel : ℕ) (g g' : Gathered) (w w' : W)
      → (gather e fuel g w ≡ (ok (complete g'), w')) ↔ GivenPages fuel g w g' w'
  gather-complete_iff fuel g g' w w' = (
    (λ h.
        let (n, le, pages) = (gather_iff e fuel g w w' (complete g')).0 h in
        let (c, cs, few, gives, same) = of_Pages pages in
        (c, cs, omega (arith, le, few), gives, same)),
    (λ (c, cs, few, gives, same). (gather_iff e fuel g w w' (complete g')).1 (
      length (c ∷ cs),
      few,
      subst (λ g₁. Pages e (length (c ∷ cs)) g w (complete g₁) w') (sym same)
          (to_Pages g w c cs w' gives),
    )),
  )
