-- ===== src/Layout.antt =====
-- stores/layout.rs: the rules for paths. A text is a list of code points.
pub mod Segments
pub mod Primary
pub mod FileNames
mod Examples
use mail_backup.Base.{
  ℕ, zero, suc, ◌+◌, ◌-◌, Bool, true, false, ◌&&◌, ◌||◌, Option, none, some, List, [], ◌∷◌, ◌++◌,
  map, take, any, contains, is_empty, Text, codes, ltb, leb, not, text_leb, ◌==◌, nat_eq, list_eq,
  option_eq, if◌then◌else◌, strip_suffix, starts_with,
}
use mail_backup.Entities.{MailboxRecord, MailboxIndex, MessageMeta, find}
use mail_backup.Externals.{Externals}

abbrev pub mailbox_meta_file : Text
mailbox_meta_file = codes ".mailbox.yaml"

abbrev pub sidecar_suffix : Text
sidecar_suffix = codes ".meta.yaml"

abbrev pub message_suffix : Text
message_suffix = codes ".eml"

abbrev pub unfiled_dir : Text
unfiled_dir = codes "_unfiled"

abbrev pub reserved_names : List Text
reserved_names =
    codes "CON"
    ∷ codes "PRN"
    ∷ codes "AUX"
    ∷ codes "NUL"
    ∷ codes "COM1"
    ∷ codes "COM2"
    ∷ codes "COM3"
    ∷ codes "COM4"
    ∷ codes "COM5"
    ∷ codes "COM6"
    ∷ codes "COM7"
    ∷ codes "COM8"
    ∷ codes "COM9"
    ∷ codes "LPT1"
    ∷ codes "LPT2"
    ∷ codes "LPT3"
    ∷ codes "LPT4"
    ∷ codes "LPT5"
    ∷ codes "LPT6"
    ∷ codes "LPT7"
    ∷ codes "LPT8"
    ∷ codes "LPT9"
    ∷ []

abbrev pub max_segment_bytes : ℕ
max_segment_bytes = 100

-- The characters that the first pass of `sanitize_segment` replaces.
unfoldable pub forbidden : ℕ → Bool
forbidden c = contains (codes "<>:\"/\\|?*") c || ltb c 0x20

replace_char : ℕ → ℕ
unfolding forbidden
replace_char c = if forbidden c then b'_' else c

-- `replace_range(..1, "_")` where the text starts with a dot.
replace_leading_dot : Text → Text
replace_leading_dot [] = []
replace_leading_dot (c ∷ s) = if c == b'.' then b'_' ∷ s else c ∷ s

abbrev pub trailing : ℕ → Bool
trailing c = c == b'.' || c == b' '

-- `while ends_with('.') || ends_with(' ') { pop() }`
pub trim_trailing : Text → Text
trim_trailing [] = []
trim_trailing (c ∷ s) =
    let rest = trim_trailing s in if is_empty rest && trailing c then [] else c ∷ rest

-- `if is_empty() { push('_') }`
pub or_underscore : Text → Text
or_underscore [] = codes "_"
or_underscore (c ∷ s) = c ∷ s

-- `split('.').next()`
until_dot : Text → Text
until_dot [] = []
until_dot (c ∷ s) = let rest = until_dot s in if c == b'.' then [] else c ∷ rest

-- `char::is_whitespace`
is_whitespace : ℕ → Bool
is_whitespace c =
    (leb 9 c && leb c 13)
    || c == 0x20
    || c == 0x85
    || c == 0xa0
    || c == 0x1680
    || (leb 0x2000 c && leb c 0x200a)
    || c == 0x2028
    || c == 0x2029
    || c == 0x202f
    || c == 0x205f
    || c == 0x3000

-- `str::trim_end`
trim_end : Text → Text
unfolding is_whitespace
trim_end [] = []
trim_end (c ∷ s) =
    let rest = trim_end s in if is_empty rest && is_whitespace c then [] else c ∷ rest

unfoldable pub to_ascii_lowercase : ℕ → ℕ
to_ascii_lowercase c = if leb b'A' c && leb c b'Z' then c + 32 else c

unfoldable pub eq_ignore_ascii_case : Text → Text → Bool
unfolding to_ascii_lowercase
eq_ignore_ascii_case s t = map to_ascii_lowercase s == map to_ascii_lowercase t

pub is_reserved : Text → Bool
unfolding eq_ignore_ascii_case until_dot trim_end
is_reserved s = any (λ r. eq_ignore_ascii_case r (trim_end (until_dot s))) reserved_names

pub escape_reserved : Text → Text
unfolding is_reserved
escape_reserved s = if is_reserved s then b'_' ∷ s else s

-- The length of a character in UTF-8.
pub utf8_len : ℕ → ℕ
utf8_len c = if ltb c 0x80 then 1 else if ltb c 0x800 then 2 else if ltb c 0x10000 then 3 else 4

pub byte_len : Text → ℕ
unfolding utf8_len
byte_len [] = 0
byte_len (c ∷ s) = utf8_len c + byte_len s

-- `truncate` at the last character boundary that is not past `n` bytes.
pub truncate : ℕ → Text → Text
unfolding utf8_len
truncate n [] = []
truncate n (c ∷ s) =
    let rest = truncate (n - utf8_len c) s in if leb (utf8_len c) n then c ∷ rest else []

pub shorten : Text → Text
unfolding byte_len truncate trim_trailing or_underscore
shorten s =
    if ltb max_segment_bytes (byte_len s)
    then or_underscore (trim_trailing (truncate max_segment_bytes s))
    else s

module _ (x : Externals) where
  pub short_hash : Text → ℕ → Text
  short_hash input n = take n (x.sha256_hex (x.as_bytes input))

  pub sanitize_segment : Text → Text
  unfolding replace_char replace_leading_dot trim_trailing or_underscore escape_reserved shorten
  sanitize_segment name = shorten (
      escape_reserved
        (or_underscore (trim_trailing (replace_leading_dot (map replace_char (x.nfc name))))))

  -- `taken` holds lower-cased names.
  unfoldable pub assign_dir_name : Text → Text → List Text → Text
  unfolding short_hash
  assign_dir_name name mailbox_id taken =
      let sanitized = sanitize_segment name in
      if contains taken (x.to_lowercase sanitized)
      then sanitized ++ codes "~" ++ short_hash mailbox_id 6
      else sanitized

  unfoldable pub message_basename : MessageMeta → Text → Text
  message_basename meta sha256_hex =
      x.format_instant meta.received_at ++ codes "-" ++ take 12 sha256_hex

  unfoldable pub message_path : Text → MessageMeta → Text → (Text → Bool) → Text
  unfolding message_basename short_hash
  message_path dir_path meta sha256_hex is_taken_by_other =
      let base = message_basename meta sha256_hex in
      let natural = dir_path ++ codes "/" ++ base ++ message_suffix in
      if is_taken_by_other natural
      then dir_path ++ codes "/" ++ base ++ codes "~" ++ short_hash meta.id 6 ++ message_suffix
      else natural

unfoldable pub role_rank : Option Text → ℕ
unfolding to_ascii_lowercase
role_rank none = 5
role_rank (some role) =
    let r = map to_ascii_lowercase role in
    if r == codes "inbox"
    then 0
    else if r == codes "archive"
    then 1
    else if r == codes "sent"
    then 2
    else if r == codes "drafts"
    then 3
    else if r == codes "junk" || r == codes "spam"
    then 6
    else if r == codes "trash"
    then 7
    else 4

-- The comparison of `primary_mailbox`: rank, then directory, then id.
unfoldable pub ranks_before : MailboxRecord → MailboxRecord → Bool
ranks_before a b =
    let ra = role_rank a.info.role in
    let rb = role_rank b.info.role in
    ltb ra rb
    || (ra == rb
        && ((text_leb a.dir_path b.dir_path && not (a.dir_path == b.dir_path))
            || (a.dir_path == b.dir_path && text_leb a.info.id b.info.id)))

-- `filter_map(|id| mailboxes.get(id))`
pub known : List Text → MailboxIndex → List MailboxRecord
known [] index = []
known (id ∷ ids) index =
    let rest = known ids index in elim (find index id) [ none ↦ rest | some r ↦ r ∷ rest ]

-- `min_by`: the first of the least.
pub least : MailboxRecord → List MailboxRecord → MailboxRecord
least r [] = r
least r (s ∷ rest) = least (if ranks_before r s then r else s) rest

unfoldable pub primary_mailbox : List Text → MailboxIndex → Option MailboxRecord
unfolding known least ranks_before role_rank
primary_mailbox mailbox_ids mailboxes = elim (known mailbox_ids mailboxes) [
  | [] ↦ none
  | r ∷ rest ↦ some (least r rest)
]

unfoldable pub sidecar_path : Text → Text
sidecar_path message_path = elim (strip_suffix message_path message_suffix) [
  | some stem ↦ stem ++ sidecar_suffix
  | none ↦ message_path ++ sidecar_suffix
]
