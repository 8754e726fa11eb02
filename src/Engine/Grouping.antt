-- ===== src/Engine/Grouping.antt =====
-- engine/mod.rs: `group_by_day`. The tree map is a list of days in ascending order.
use mail_backup.Base.{
  ℕ, ◌<◌, ◌≤◌, ◌≡◌, ◌≢◌, refl, List, [], ◌∷◌, ◌++◌, ltb, ◌==◌, nat_eq, filter, arith, sym, ◌∙◌, inl,
  inr, Bool-cases, if◌then◌else◌,
}
use mathlib.Core.List.{append-nil, append_assoc}
use mail_backup.Entities.{MessageMeta, received_day}

abbrev pub Groups : Type 0
Groups = List (ℕ × List MessageMeta)

-- `groups.entry(day).or_default().push(meta)`
pub push : ℕ → MessageMeta → Groups → Groups
push day meta [] = (day, meta ∷ []) ∷ []
push day meta ((d, metas) ∷ groups) =
    if ltb day d
    then (day, meta ∷ []) ∷ (d, metas) ∷ groups
    else if day == d
    then (d, metas ++ meta ∷ []) ∷ groups
    else (d, metas) ∷ push day meta groups

group_from : Groups → List MessageMeta → Groups
unfolding push
group_from groups [] = groups
group_from groups (meta ∷ metas) = group_from (push (received_day meta) meta groups) metas

unfoldable pub group_by_day : List MessageMeta → Groups
unfolding group_from
group_by_day metas = group_from [] metas

-- The group of a day; `unwrap_or_default` where there is none.
unfoldable pub group_of : ℕ → Groups → List MessageMeta
group_of day [] = []
group_of day ((d, metas) ∷ groups) = if d == day then metas else group_of day groups

-- `groups.remove(&day)`
unfoldable pub without_day : ℕ → Groups → Groups
without_day day [] = []
without_day day ((d, metas) ∷ groups) =
    let rest = without_day day groups in if d == day then rest else (d, metas) ∷ rest

-- The days ascend, from above `low` on, and no group is empty.
abbrev pub Ascending : ℕ → Groups → Type 0
Ascending low [] = Unit
Ascending low ((d, metas) ∷ groups) = (low < d) × (metas ≢ []) × Ascending d groups

abbrev pub IsOrdered : Groups → Type 0
IsOrdered [] = Unit
IsOrdered ((d, metas) ∷ groups) = (metas ≢ []) × Ascending d groups

snoc-ne-nil : (metas : List MessageMeta) (m : MessageMeta) → (metas ++ m ∷ []) ≢ []
snoc-ne-nil [] m = λ e. cc
snoc-ne-nil (x ∷ metas) m = λ e. cc

push-Ascending :
    (low day : ℕ) (m : MessageMeta) (groups : Groups)
    → low < day
    → Ascending low groups
    → Ascending low (push day m groups)
unfolding push
push-Ascending low day m [] h k = ground arith
push-Ascending low day m ((d, metas) ∷ groups) h k =
    ground (arith, push-Ascending d day m groups, snoc-ne-nil metas m)

push-IsOrdered :
    (day : ℕ) (m : MessageMeta) (groups : Groups) → IsOrdered groups → IsOrdered (push day m groups)
unfolding push
push-IsOrdered day m [] h = ground arith
push-IsOrdered day m ((d, metas) ∷ groups) h =
    ground (arith, push-Ascending d day m groups, snoc-ne-nil metas m)

group_of-Ascending :
    (low day : ℕ) (groups : Groups) → day ≤ low → Ascending low groups → group_of day groups ≡ []
unfolding group_of
group_of-Ascending low day [] h k = refl
group_of-Ascending low day ((d, metas) ∷ groups) h k =
    ground (arith, group_of-Ascending d day groups)

group_of-push :
    (day d : ℕ) (m : MessageMeta) (groups : Groups)
    → IsOrdered groups
    → group_of day (push d m groups)
      ≡ (if d == day then group_of day groups ++ m ∷ [] else group_of day groups)
unfolding group_of push
group_of-push day d m [] h = ground arith
group_of-push day d m ((e, metas) ∷ []) h = ground arith
group_of-push day d m ((e, metas) ∷ (f, others) ∷ groups) h =
    ground (arith, group_of-push day d m ((f, others) ∷ groups), group_of-Ascending f day groups)

group_from_lem :
    (day : ℕ) (groups : Groups) (metas : List MessageMeta)
    → IsOrdered groups
    → IsOrdered (group_from groups metas)
      × (group_of day (group_from groups metas)
          ≡ group_of day groups ++ filter (λ m. received_day m == day) metas)
unfolding group_from
group_from_lem day groups [] h = (h, sym (append-nil (group_of day groups)))
group_from_lem day groups (m ∷ metas) h =
    let (ordered, grouped) =
      group_from_lem day (push (received_day m) m groups) metas
        (push-IsOrdered (received_day m) m groups h) in
    (
      ordered,
      grouped ∙ elim (Bool-cases (received_day m == day)) [
        | inl this ↦
            rw (group_of-push day (received_day m) m groups h, this)
              (append_assoc (group_of day groups) (m ∷ []) _)
        | inr other ↦ rw (group_of-push day (received_day m) m groups h, other) refl
      ],
    )

-- The days ascend strictly, none has an empty group, and the group of each day is the messages
-- received on that day, in the order in which they were listed.
pub group_by_day_partitions :
    (metas : List MessageMeta) (day : ℕ)
    → IsOrdered (group_by_day metas)
      × (group_of day (group_by_day metas) ≡ filter (λ m. received_day m == day) metas)
unfolding group_by_day group_of
group_by_day_partitions metas day = group_from_lem day [] metas tt
