-- ===== src/Layout/Examples.antt =====
-- The layout's rules on concrete names.
use mail_backup.Base.{
  ◌≤◌, none, some, [], ◌∷◌, ◌++◌, replicate, String, codes, All, list_beq, contains, ◌≡◌, refl,
}
use mail_backup.Externals.{Externals}
use mail_backup.Entities.{MailboxRecord, MailboxIndex, empty_index, insert}
use mail_backup.Layout.{sanitize_segment, primary_mailbox, byte_len, max_segment_bytes}
use mail_backup.Layout.Segments.{IsAllowed, StartsWell, EndsWell, sanitize_segment_safe}
use mail_backup.Layout.Primary.{Chosen, primary_mailbox-Chosen}

abbrev plain : Externals
plain = record {
  sha256_hex = λ b. b;
  nfc = λ t. t;
  to_lowercase = λ t. t;
  as_bytes = λ t. t;
  format_instant = λ n. [];
  format_rfc3339 = λ n. [];
  format_day = λ n. [];
}

abbrev box : String → String → MailboxRecord
box id role = record {
  info = record {
    id = codes id;
    name = codes id;
    role = some (codes role);
    parent_id = none;
    sort_order = 0;
  };
  dir_path = codes id;
}

abbrev two_boxes : MailboxIndex
unfolding insert
two_boxes = insert (insert empty_index (box "t" "trash")) (box "i" "inbox")

sanitize_segment_safe_example :
    All IsAllowed (sanitize_segment plain (codes ".a/b. "))
    × StartsWell (sanitize_segment plain (codes ".a/b. "))
    × EndsWell (sanitize_segment plain (codes ".a/b. "))
    × (byte_len (sanitize_segment plain (codes ".a/b. ")) ≤ max_segment_bytes)
sanitize_segment_safe_example = sanitize_segment_safe plain (codes ".a/b. ")

sanitize_segment_test : sanitize_segment plain (codes ".a/b. ") ≡ codes "_a_b"
unfolding sanitize_segment list_beq contains
sanitize_segment_test = refl

-- A reserved name that stands before a hundred bytes comes back when the rest is cut off.
sanitize_segment_reserved :
    sanitize_segment plain (codes "CON" ++ (replicate 97 b' ' ++ codes "x")) ≡ codes "CON"
unfolding sanitize_segment list_beq contains
sanitize_segment_reserved = refl

primary_mailbox-Chosen_example :
    Chosen
      (codes "t" ∷ codes "i" ∷ [])
      two_boxes
      (primary_mailbox (codes "t" ∷ codes "i" ∷ []) two_boxes)
primary_mailbox-Chosen_example = primary_mailbox-Chosen (codes "t" ∷ codes "i" ∷ []) two_boxes
