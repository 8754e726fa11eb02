-- ===== src/Sources.antt =====
-- sources/mod.rs: what the engine asks of a mail source. `W` is everything outside the engine: the
-- server, the store, the clock and the cancel flag.
pub mod Events
use mail_backup.Base.{ℕ, Bool, List, Text, Bytes, Result, Error, Exec}
use mail_backup.Entities.{MailboxInfo, MessageMeta, SourceState, ChangeSet, DateRange}

pub data ChangesResult : Type 0 where
  changes : ChangeSet → ChangesResult
  state_too_old : ChangesResult

pub record MailSource (W : Type 0) : Type 0 where
  pub connect : Exec W SourceState
  pub list_mailboxes : Exec W (List MailboxInfo)
  -- The items that the stream yields, in order.
  pub enumerate : DateRange → W → List (Result MessageMeta Error) × W
  pub changes : SourceState → Exec W ChangesResult
  pub get_messages : List Text → Exec W (List MessageMeta)
  pub fetch_blob : Text → Exec W Bytes

-- What the process reads of its surroundings.
pub record Surroundings (W : Type 0) : Type 0 where
  -- `cancel.load`
  pub cancelled : W → Bool × W
  -- `Utc::now().date_naive()`
  pub today : W → ℕ × W
  -- The order in which concurrent downloads end (`buffer_unordered`).
  pub arrival : List (MessageMeta × Bytes) → List (MessageMeta × Bytes)
