-- ===== src/Layout/Segments.antt =====
-- stores/layout.rs: `sanitize_segment`.
use mail_backup.Base.{
  ℕ, ◌-◌, ◌≤◌, ◌≡◌, ◌≢◌, refl, false, [], ◌∷◌, map, Text, All, contains, arith, ltb, Bool-cases,
  inl, inr,
}
use mail_backup.Externals.{Externals}
use mail_backup.Layout.{
  forbidden, replace_char, replace_leading_dot, trailing, trim_trailing, or_underscore,
  escape_reserved, byte_len, utf8_len, truncate, shorten, sanitize_segment, max_segment_bytes,
}

abbrev pub IsAllowed : ℕ → Type 0
IsAllowed c = forbidden c ≡ false

abbrev pub StartsWell : Text → Type 0
StartsWell [] = Unit
StartsWell (c ∷ s) = c ≢ b'.'

-- The last character is neither a dot nor a space, and there is one.
abbrev pub EndsWell : Text → Type 0
EndsWell [] = ⊥
EndsWell (c ∷ []) = trailing c ≡ false
EndsWell (c ∷ d ∷ s) = EndsWell (d ∷ s)

-- Of the empty text too.
abbrev EndsWellOrEmpty : Text → Type 0
EndsWellOrEmpty [] = Unit
EndsWellOrEmpty (c ∷ s) = EndsWell (c ∷ s)

abbrev IsClean : Text → Type 0
IsClean s = All IsAllowed s × StartsWell s

underscore-IsAllowed : IsAllowed b'_'
unfolding forbidden contains
underscore-IsAllowed = refl

replace_char-IsAllowed : (c : ℕ) → IsAllowed (replace_char c)
unfolding replace_char
replace_char-IsAllowed c = ground (arith, underscore-IsAllowed)

replaced-IsAllowed : (s : Text) → All IsAllowed (map replace_char s)
replaced-IsAllowed [] = tt
replaced-IsAllowed (c ∷ s) = (replace_char-IsAllowed c, replaced-IsAllowed s)

replace_leading_dot-IsClean : (s : Text) → All IsAllowed s → IsClean (replace_leading_dot s)
unfolding replace_leading_dot
replace_leading_dot-IsClean [] h = (tt, tt)
replace_leading_dot-IsClean (c ∷ s) h = ground (arith, underscore-IsAllowed)

trim_trailing-IsAllowed : (s : Text) → All IsAllowed s → All IsAllowed (trim_trailing s)
unfolding trim_trailing
trim_trailing-IsAllowed [] h = tt
trim_trailing-IsAllowed (c ∷ s) h = ground (arith, trim_trailing-IsAllowed s h.1)

trim_trailing-StartsWell : (s : Text) → StartsWell s → StartsWell (trim_trailing s)
unfolding trim_trailing
trim_trailing-StartsWell [] h = tt
trim_trailing-StartsWell (c ∷ s) h = ground arith

trim_trailing-IsClean : (s : Text) → IsClean s → IsClean (trim_trailing s)
trim_trailing-IsClean s h = (trim_trailing-IsAllowed s h.0, trim_trailing-StartsWell s h.1)

trim_trailing_ends : (s : Text) → EndsWellOrEmpty (trim_trailing s)
unfolding trim_trailing
trim_trailing_ends [] = tt
trim_trailing_ends (c ∷ s) = ground (arith, trim_trailing_ends s)

-- What every pass after the trimming keeps.
abbrev IsSegment : Text → Type 0
IsSegment s = IsClean s × EndsWell s

or_underscore-IsSegment : (s : Text) → IsClean s → EndsWellOrEmpty s → IsSegment (or_underscore s)
unfolding or_underscore
or_underscore-IsSegment [] h e = ground (arith, underscore-IsAllowed)
or_underscore-IsSegment (c ∷ s) h e = (h, e)

escape_reserved-IsSegment : (s : Text) → IsSegment s → IsSegment (escape_reserved s)
unfolding escape_reserved
escape_reserved-IsSegment [] h = absurd h.1
escape_reserved-IsSegment (c ∷ s) h = ground (arith, underscore-IsAllowed)

truncate-IsAllowed : (n : ℕ) (s : Text) → All IsAllowed s → All IsAllowed (truncate n s)
unfolding truncate
truncate-IsAllowed n [] h = tt
truncate-IsAllowed n (c ∷ s) h = ground (arith, truncate-IsAllowed (n - utf8_len c) s h.1)

truncate-StartsWell : (n : ℕ) (s : Text) → StartsWell s → StartsWell (truncate n s)
unfolding truncate
truncate-StartsWell n [] h = tt
truncate-StartsWell n (c ∷ s) h = ground arith

byte_len-truncate-le : (n : ℕ) (s : Text) → byte_len (truncate n s) ≤ n
unfolding byte_len truncate
byte_len-truncate-le n [] = omega arith
byte_len-truncate-le n (c ∷ s) = ground (arith, byte_len-truncate-le (n - utf8_len c) s)

byte_len-trim_trailing-le : (s : Text) → byte_len (trim_trailing s) ≤ byte_len s
unfolding byte_len trim_trailing
byte_len-trim_trailing-le [] = omega arith
byte_len-trim_trailing-le (c ∷ s) = ground (arith, byte_len-trim_trailing-le s)

byte_len-or_underscore-le :
    (s : Text) → byte_len s ≤ max_segment_bytes → byte_len (or_underscore s) ≤ max_segment_bytes
unfolding byte_len or_underscore
byte_len-or_underscore-le [] h = omega arith
byte_len-or_underscore-le (c ∷ s) h = h

shortened-IsSegment :
    (s : Text)
    → IsSegment s
    → IsSegment (or_underscore (trim_trailing (truncate max_segment_bytes s)))
shortened-IsSegment s h =
    let cut = truncate max_segment_bytes s in
    or_underscore-IsSegment (trim_trailing cut)
      (trim_trailing-IsClean cut (
        truncate-IsAllowed max_segment_bytes s h.0.0,
        truncate-StartsWell max_segment_bytes s h.0.1,
      ))
      (trim_trailing_ends cut)

shortened_fits :
    (s : Text)
    → byte_len (or_underscore (trim_trailing (truncate max_segment_bytes s))) ≤ max_segment_bytes
shortened_fits s =
    let cut = truncate max_segment_bytes s in
    byte_len-or_underscore-le (trim_trailing cut)
      (omega (arith, byte_len-truncate-le max_segment_bytes s, byte_len-trim_trailing-le cut))

shorten-IsSegment :
    (s : Text) → IsSegment s → IsSegment (shorten s) × (byte_len (shorten s) ≤ max_segment_bytes)
unfolding shorten
shorten-IsSegment s h = elim (Bool-cases (ltb max_segment_bytes (byte_len s))) [
  | inl long ↦ rw long (shortened-IsSegment s h, shortened_fits s)
  | inr short ↦ rw short (h, ground arith)
]

-- Whatever the mailbox is called, and whatever normalisation makes of it, its directory name is not
-- empty, has no character that the code forbids and none below U+0020, does not start with a dot,
-- does not end in a dot or a space, and takes at most 100 bytes of UTF-8.
pub sanitize_segment_safe :
    (x : Externals) (name : Text)
    → All IsAllowed (sanitize_segment x name)
      × StartsWell (sanitize_segment x name)
      × EndsWell (sanitize_segment x name)
      × (byte_len (sanitize_segment x name) ≤ max_segment_bytes)
unfolding sanitize_segment
sanitize_segment_safe x name =
    let replaced = map replace_char (x.nfc name) in
    let trimmed = trim_trailing (replace_leading_dot replaced) in
    let clean =
      trim_trailing-IsClean (replace_leading_dot replaced)
        (replace_leading_dot-IsClean replaced (replaced-IsAllowed (x.nfc name))) in
    let segment =
      or_underscore-IsSegment trimmed clean (trim_trailing_ends (replace_leading_dot replaced)) in
    let (whole, fits) =
      shorten-IsSegment (escape_reserved (or_underscore trimmed))
        (escape_reserved-IsSegment (or_underscore trimmed) segment) in
    (whole.0.0, whole.0.1, whole.1, fits)
