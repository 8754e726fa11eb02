-- ===== src/Engine/Stream/Examples.antt =====
-- The daemon's loops in a small world with a clock, and the theorems about them there.
use mail_backup.Base.{Bool, false, ℕ, ◌+◌, max, ◌*◌, true, none, some, [], map, ok, codes}
use mail_backup.Entities.{SourceState, empty_index, nanos_per_second}
use mail_backup.Ping.{PingConfig}
use mail_backup.Sources.{MailSource, state_too_old}
use mail_backup.Stores.{StoreState, MailStore, unchanged}
use mail_backup.Engine.Setup.{Setup}
use mail_backup.Engine.Sync
use mail_backup.Engine.Stream.{changed, woken, Live, Phase}
use mail_backup.Engine.Stream.Prompt.{Prompt}
use mail_backup.Engine.Stream.Ends.{Ends}
use mail_backup.Engine.Stream.Daemon.{Daemon}

record Room : Type 0 where
  current : StoreState
  clock : ℕ
  is_owed : Bool

abbrev nowhere : SourceState
nowhere = record { account_id = []; email_state = some (codes "s"); mailbox_state = none }

-- A server that no longer knows any state, and has no messages.
abbrev forgetful_server : MailSource Room
forgetful_server = record {
  connect = λ w. (ok nowhere, w);
  list_mailboxes = λ w. (ok [], w);
  enumerate = λ r w. ([], w);
  changes = λ s w. (ok state_too_old, w);
  get_messages = λ ids w. (ok [], w);
  fetch_blob = λ id w. (ok id, w);
}

abbrev bare_store : MailStore Room
bare_store = record {
  open_store = λ w. (ok tt, w);
  state = λ w. w.current;
  set_state = λ s w. record w { current = s };
  mailboxes = λ w. empty_index;
  lookup = λ id w. none;
  list = λ w. [];
  apply = λ es w. (ok (map (λ e. unchanged) es), w);
  checkpoint = λ c w. (ok tt, w);
  save_state = λ w. (ok tt, w);
}

abbrev bare : Setup Room
bare = record {
  source = forgetful_server;
  store = bare_store;
  around = record { cancelled = λ w. (false, w); today = λ w. (3, w); arrival = λ l. l };
  externals = record {
    sha256_hex = λ b. b;
    nfc = λ t. t;
    to_lowercase = λ t. t;
    as_bytes = λ t. t;
    format_instant = λ n. [];
    format_rfc3339 = λ n. [];
    format_day = λ n. [];
  };
  policy = record { filter = λ m. ok true; backfill_start = none };
  options = record { dry_run = false; concurrency = 4 };
}

-- Every wait ends a little after its time, without a notification.
abbrev quiet : Live Room
quiet = record {
  now = λ w. (w.clock, w);
  wait = λ t w. (woken, record w { clock = max t w.clock + 1 });
  sleep = λ d w. record w { clock = w.clock + d };
}

abbrev room : Room
room = record {
  current = record {
    source = nowhere;
    backfill = none;
    current_commit_day = none;
    head_at_save = none;
  };
  clock = 31;
  is_owed = false;
}

-- A batch whose deadline has come.
abbrev waiting : Phase
waiting = record {
  pending = true;
  quiet_deadline = some 40;
  batch_deadline = some 30;
  next_safety_poll = 1000;
  lost = false;
}

abbrev idle : Phase
idle = record waiting { pending = false; quiet_deadline = none; batch_deadline = none }

-- Every wait ends with a notification, and the room notes it.
abbrev chatty : Live Room
chatty = record quiet { wait = λ t w. (changed true false, record w { is_owed = true }) }

abbrev silent : PingConfig
silent = record { start = none; success = none; failure = none }

abbrev started : Daemon
started = record { backoff = 1 * nanos_per_second; refresh = true }
