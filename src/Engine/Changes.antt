-- ===== src/Engine/Changes.antt =====
-- engine/mod.rs: `dedupe_changes`.
use mail_backup.Base.{
  ◌≡◌, refl, Bool, true, not, ◌&&◌, List, [], ◌∷◌, Text, contains, Distinct, nat_eq, list_eq,
  eq_iff, eq_refl, arith, if◌then◌else◌,
}

-- `filter(|id| keep(id) && seen.insert(id.clone()))`: `seen` holds the ids that were let through.
pub first_mentions : (Text → Bool) → List Text → List Text → List Text
first_mentions keep seen [] = []
first_mentions keep seen (id ∷ ids) =
    let new = first_mentions keep (id ∷ seen) ids in
    let old = first_mentions keep seen ids in
    if keep id && not (contains seen id) then id ∷ new else old

unfoldable pub dedupe_changes :
    List Text → List Text → List Text → List Text × List Text × List Text
unfolding first_mentions
dedupe_changes created updated destroyed =
    let created' = first_mentions (λ id. not (contains destroyed id)) [] created in
    let updated' =
      first_mentions (λ id. not (contains destroyed id) && not (contains created' id)) [] updated in
    (created', updated', first_mentions (λ id. true) [] destroyed)

module _ (keep : Text → Bool) where
  contains-first_mentions :
      (seen ids : List Text) (a : Text)
      → contains (first_mentions keep seen ids) a
        ≡ (contains ids a && keep a && not (contains seen a))
  unfolding first_mentions contains
  contains-first_mentions seen [] a = refl
  contains-first_mentions seen (id ∷ ids) a = ground (
    arith,
    eq_iff id a,
    contains-first_mentions (id ∷ seen) ids a,
    contains-first_mentions seen ids a,
  )

  first_mentions-Distinct : (seen ids : List Text) → Distinct (first_mentions keep seen ids)
  unfolding first_mentions contains
  first_mentions-Distinct seen [] = tt
  first_mentions-Distinct seen (id ∷ ids) = ground (
    arith,
    eq_refl id,
    contains-first_mentions (id ∷ seen) ids id,
    first_mentions-Distinct (id ∷ seen) ids,
    first_mentions-Distinct seen ids,
  )

-- No list mentions an id twice. An id is fetched as new when it was created and not destroyed, as
-- changed when it was updated and neither created nor destroyed, and is deleted when it was
-- destroyed; so the three lists are disjoint and lose no id.
pub dedupe_changes_classifies :
    (created updated destroyed : List Text) (a : Text)
    → let (c, u, d) = dedupe_changes created updated destroyed in
      (Distinct c × Distinct u × Distinct d)
      × (contains c a ≡ (contains created a && not (contains destroyed a)))
      × (contains u a
          ≡ (contains updated a && not (contains destroyed a) && not (contains created a)))
      × (contains d a ≡ contains destroyed a)
unfolding dedupe_changes contains
dedupe_changes_classifies created updated destroyed a =
    let alive = λ (id : Text). not (contains destroyed id) in
    let created' = first_mentions alive [] created in
    let fresh = λ (id : Text). not (contains destroyed id) && not (contains created' id) in
    (
      (
        first_mentions-Distinct alive [] created,
        first_mentions-Distinct fresh [] updated,
        first_mentions-Distinct (λ id. true) [] destroyed,
      ),
      ground (arith, contains-first_mentions alive [] created a),
      ground (
        arith,
        contains-first_mentions fresh [] updated a,
        contains-first_mentions alive [] created a,
      ),
      ground (arith, contains-first_mentions (λ id. true) [] destroyed a),
    )
