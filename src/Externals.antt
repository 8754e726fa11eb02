-- ===== src/Externals.antt =====
-- What the program takes from crates outside the repository.
use mail_backup.Base.{ℕ, Text, Bytes}

pub record Externals : Type 0 where
  -- `sha2::Sha256`, in lower-case hexadecimal digits.
  pub sha256_hex : Bytes → Text
  -- `unicode_normalization`'s `nfc`.
  pub nfc : Text → Text
  -- `str::to_lowercase`, by the Unicode tables.
  pub to_lowercase : Text → Text
  -- The UTF-8 encoding of a text.
  pub as_bytes : Text → Bytes
  -- `chrono`'s `format` of an instant, for `%Y%m%d-%H%M%S`.
  pub format_instant : ℕ → Text
  -- `to_rfc3339_opts` with seconds, and `format` for `%Y-%m-%d`.
  pub format_rfc3339 : ℕ → Text
  pub format_day : ℕ → Text
