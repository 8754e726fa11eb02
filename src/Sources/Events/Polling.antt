-- ===== src/Sources/Events/Polling.antt =====
-- sources/jmap/events/polling.rs: notifications by asking for the states of the server.
use mail_backup.Base.{
  ℕ, ◌*◌, ◌≤◌, max, not, ◌||◌, Text, Exec, pure, ◌>>=◌, ◌==◌, nat_eq, list_eq, eq_iff, ◌≡◌, ◌↔◌,
  arith, if◌then◌else◌,
}
use mail_backup.Entities.{nanos_per_second}
use mail_backup.Sources.Events.{SourceNotification, changed, ping}

abbrev default_interval : ℕ
default_interval = 120 * nanos_per_second

abbrev pub min_interval : ℕ
min_interval = 10 * nanos_per_second

pub record PollingStrategy : Type 0 where
  pub interval : ℕ

unfoldable pub new : ℕ → PollingStrategy
new interval = record { interval = max interval min_interval }

abbrev default_strategy : PollingStrategy
unfolding new
default_strategy = new default_interval

-- The states that were seen last.
pub record Seen : Type 0 where
  pub last_email : Text
  pub last_mailbox : Text

-- What is said of the states, by those that were seen last.
unfoldable pub compared : Seen → Text → Text → SourceNotification
compared seen email_state mailbox_state =
    let email = not (email_state == seen.last_email) in
    let mailbox = not (mailbox_state == seen.last_mailbox) in
    if email || mailbox then changed email mailbox else ping

-- The client asks for the two states.
module _ {W : Type 0} (email_state mailbox_state : Exec W Text) where
  unfoldable pub subscribe : Exec W Seen
  subscribe = do
    email ← email_state
    mailbox ← mailbox_state
    pure (record { last_email = email; last_mailbox = mailbox })

  -- A round of the stream after its tick; it ends at an error.
  unfoldable pub poll : Seen → Exec W (SourceNotification × Seen)
  unfolding compared
  poll seen = do
    email ← email_state
    mailbox ← mailbox_state
    pure (compared seen email mailbox, record { last_email = email; last_mailbox = mailbox })

-- No server is asked more often than every ten seconds.
pub new-interval : (interval : ℕ) → min_interval ≤ (new interval).interval
unfolding new
new-interval interval = omega arith

-- A round reports nothing exactly where both states are those that were seen last.
pub compared-ping :
    (seen : Seen) (email mailbox : Text)
    → (compared seen email mailbox ≡ ping)
      ↔ ((email ≡ seen.last_email) × (mailbox ≡ seen.last_mailbox))
unfolding compared
compared-ping seen email mailbox =
    ground (arith, eq_iff email seen.last_email, eq_iff mailbox seen.last_mailbox)
