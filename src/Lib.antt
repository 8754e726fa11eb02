-- ===== src/Lib.antt =====
-- Models of mail-backup, a program that backs up a mail account into a local store, and the theorems
-- that hold of them.
--
-- The program. A mail source (src/sources) lists mailboxes and messages, reports what changed since
-- a state, and sends the content of messages. A store (src/stores) keeps the messages of one account
-- in directories, with its own progress: the source's state up to which it is synchronised, and the
-- cursor of an unfinished backfill. The engine (src/engine) takes both and makes the store follow
-- the source: a first walk through all mail, one day after the other (backfill), then catch-ups from
-- the saved state, and full reconciliations where the server no longer knows that state. Requests go
-- through a retry loop with a circuit breaker (src/helpers/resilience.rs).
--
-- The files, by what they model.
--   Base: shared tests, equality, lists, texts, dictionaries, sorting, and fallible code over a state
--     (`Exec`), with rules for what such code keeps (`Keeps`) and leaves (`Post`).
--   Externals: what crates provide, as parameters: the digest, Unicode tables, formats of dates.
--   Entities: src/entities/mail.rs, with mailboxes, messages, the mailbox index and the cursors;
--     Entities/Paths and Entities/Rebase are about the index.
--   Layout: src/stores/layout.rs, the rules for paths. Layout/Segments is about directory names,
--     Layout/Primary about the mailbox that a message is filed under, Layout/FileNames about sidecars.
--   Messages: the messages and events of src/entities/mail.rs that refer to the index and the layout.
--   Sources, Stores: the traits `MailSource` and `MailStore` as records of operations on a world `W`,
--     which is everything outside the engine. Stores/Laws states what the engine relies on: applying
--     events and saving do not change the progress in memory, saving saves it, and the source does
--     not touch the store.
--   Sources/Events: the chain of strategies of src/sources/jmap/events/mod.rs; Sources/Events/Choosing
--     is about what it selects, Sources/Events/Healthy about the failures that it counts.
--     Sources/Events/Polling: src/sources/jmap/events/polling.rs.
--   Stores/Sidecar: src/stores/sidecar.rs. Stores/Index: `StoreIndex` and `diff_indexes` of
--     src/stores/index.rs; Stores/Index/Valid is about its two keys, Stores/Index/Differences about
--     the comparison. Stores/Persistence: `StatePersistence` of that file; Stores/Persistence/
--     Replacing is about `write_atomic`, Stores/Persistence/Saving about what is read back.
--   Stores/Disk: what the stores use of `std::fs` and `std::path`.
--   Stores/Directory: `DirMailStore` of src/stores/dir.rs with its files and names;
--     Stores/Directory/Mailboxes and Emails have its handlers of events, Stores/Directory/Running has
--     opening, rebuilding, saving and the trait. Stores/Directory/Kept, Stores/Directory/Running/Kept and Store are about
--     what the engine relies on, Stores/Directory/Running/Opening about what opening finds, Stores/Directory/Writing,
--     Naming, Delivery, Redelivery and Deletion about the files of messages, Stores/Directory/Deferral about mailboxes that are deleted.
--   Stores/Git: `GitMailStore` of src/stores/git.rs, with the crate `gix` as a record of operations,
--     whose laws are in Stores/Git/Laws. Stores/Git/Opening has opening and the index of a committed
--     tree, Stores/Git/Commits the tree and the commit of a checkpoint and the trait. Stores/Git/Steps,
--     Finals, Edits and Tree are about the tree that is built, Stores/Git/Heads and History about its
--     commit, Stores/Git/Committed about the whole checkpoint, Stores/Git/Kept and Store about what the
--     engine relies on, Stores/Git/Opening/Rebuilding and Trusted about the index that opening takes.
--   Engine/Summary, Changes, Grouping, Ordering, Setup, Plan, Apply, Backup: src/engine/mod.rs, with
--     `BackupSummary`, `dedupe_changes`, `group_by_day`, `topological_order`, `mailbox_events` and
--     `plan_message_changes`, `apply_planned`, `run_backup` and `run_refresh`. Engine/Plan/Classes is
--     about what is planned, Engine/Backup/Accounts about stores of another account, and the files
--     named DryRun and Apply/Still about dry runs.
--   Engine/Sync: src/engine/sync.rs, with `run` and `reconcile`. Engine/Sync/Cursor is about the
--     progress and the deletions of a catch-up, Engine/Sync/Holding about what leaves the progress
--     alone, Engine/Sync/Carrying about what is planned, as Engine/Apply/Concluding, Cursor and
--     Holding are for `apply_planned`. Engine/Sync/Paging and Assembling are about the loop over
--     pages, Engine/Sync/Scanning about the loop over messages.
--   Engine/Backfill: src/engine/backfill.rs, with `run` (here `run_backfill`) and `finalize_day`.
--     Engine/Backfill/Anchor and Completion are about its cursor.
--   Engine/Stream: src/engine/stream.rs, `stream_phase`; Engine/Stream/Deadlines and Prompt are about its deadlines,
--     Engine/Stream/Ends about why it ends. Engine/Stream/Daemon: `run` of that file.
--   Restore: src/restore/mod.rs, `ensure_mailboxes`; Restore/Selecting and Running:
--     `run_restore` of that file, and what it takes of src/restore/reader.rs. Restore/Climbing is
--     about the loop over ancestors, Restore/Mailboxes with its children about where messages are
--     restored to, Restore/Counting, Accounted and Tallied about what is counted, Restore/Returning and
--     Completing about a run that ends, Restore/DryRun about dry runs, Restore/Unfiled about the
--     mailbox for messages that have none. Restore/Kept has the lemma on which
--     these rest.
--   Ping: src/ping.rs, which the daemon's passes are observed by.
--   Resilience: src/helpers/resilience.rs, with `CircuitBreaker` and `retry`.
--   The files named Examples hold tests and runs of the theorems on concrete values.
--
-- How the code is rendered. A text is a list of code points, an instant a number of nanoseconds since
-- 1970 and a day a number of days since 1970, so earlier dates and the end of the calendar are not
-- modelled; counters are unbounded. A `HashMap` is an association list, whose order the theorems do
-- not use. An async function is a function of the world; of concurrent downloads only the order of
-- their results is left, as a parameter (`arrival`). What an error says is reduced to a short text.
-- A loop's variables are a record, and a loop is a recursive function on what it goes through.
--
-- The disk of a store holds the files of the mail tree and, apart from them, those of the state
-- directory, which the code joins to the same root but which no mail path reaches. A list of faults
-- says which of the next calls that write fail, so a theorem about all disks is about every pattern of
-- failures; a call that fails does nothing. Reading fails only where no file is, and
-- removing a path that is a directory does nothing, where the system's call fails. Paths are relative to
-- the root. A panic (`expect`) is an error of its own.
--
-- Fuel. `retry` runs on one more round than `max_attempts`, since each round but the last counts an
-- attempt. `name_path` walks at
-- most as many parents as there are mailboxes, as the source does. `topological_order` has one pass
-- more than there are mailboxes: every pass but the last places one. The loop over pages of changes
-- has no bound in the source, since the server decides how many pages there are; here it takes a
-- number of rounds, and fails with an error of its own past it; the loop without a bound is a step
-- relation, `Pages`. The walk of a committed tree takes a number of rounds too, and
-- `walk_enough` says that more of them find the same. The walk to the ancestors of a mailbox in a
-- restore takes such a number as well, and fails past it; `with_ancestors_enough` says that more
-- rounds than the mailboxes are deep suffice where the parents end. The loops of the daemon have no
-- bound either; they take a number of rounds, what is stated holds of every round, and a cancellable
-- sleep has a round for each part that it sleeps.
--
-- Not modelled: logging, spans and texts for people; the formats YAML and JSON, HTTP and the
-- connections behind the source; the transports of events, opening an archive that is to be restored,
-- the target of a restore, and the command line.
pub mod Base
pub mod Entities
pub mod Externals
pub mod Layout
pub mod Messages
pub mod Sources
pub mod Stores
pub mod Engine
pub mod Resilience
pub mod Ping
pub mod Restore
