-- ===== src/Lib.antt =====
-- AnvilNotify: events about notifications go through a message queue to a consumer, which renders
-- and sends e-mails and keeps a delivery log in a database; an outbox worker moves the events of a
-- business database to the queue. This library models the consumer from the message of the queue to
-- its acknowledgement, the manual retry over HTTP, the block list, the senders of e-mail, what these
-- stand on, and the outbox worker.
--
-- Prelude: numbers, Boolean tests, lists and texts over the native types; nothing of the program.
-- Common: crates/common. `Error` is error.rs, `Status` is log.rs, `Event` and `Attachment` are
--   event.rs, `Email` is email_validation.rs, `Amqp` is amqp_util.rs with `append_heartbeat_param` of
--   crates/consumer/src/runner.rs, `Json` the values of serde_json. A UUID is its text, a time a
--   number of milliseconds.
-- Filter: crates/recipient_filter/src/lib.rs. A hash set is the list of its texts.
-- RateLimiter: crates/rate_limiter/src/lib.rs; the token bucket of the crate governor is a parameter.
-- Store: crates/store/src/notification_log.rs. The tables `notification_log` and
--   `email_notification_log` are one list of joined rows (`Table`), of the channel e-mail; each SQL
--   statement is a function on it (`Log`) that takes the database's clock. `Queries` are the
--   look-ups of one event; `Invariant`, `Keys`, `Hits`, `Transitions` and `Compensation` say what the statements keep
--   and change.
-- Consumer: crates/consumer. `World` is the state that a task changes (the table, the messages handed
--   to senders, the sleeps) and the surroundings (`Context`): templates, senders, the block list of
--   the database, the clock, failures of the database, what other tasks do to the table, shutdown.
--   All of these may differ at each call, so they are functions of the number of calls made.
--   `Message`, `Send`, `Recipient` and `Group` are processor.rs, with `process_recipient` and
--   `process_group`; `Steps`, `Effects`, `Fresh` and `Idempotency` reason about it. `Retry` is
--   `process_one_recipient` of delivery.rs. Its endless loop is given a number of rounds: `Run` says
--   whether it returned in them. That it returns is proved where it does, and that it is still
--   running after any number of rounds where it does not.
--   `Group.Retry` is `process_one_group` with `fallback_to_individual_sends`, and `Delivery` is
--   `handle_delivery` with `insert_sentinel_failed_row`. Tasks that the source runs side by side are
--   run one after the other, each with its own number of rounds; what one of them does to the table
--   while another one waits is among what other tasks do to it. serde, the HTTP client and the broker
--   are parameters of `Delivery`.
-- Store.BlockList: crates/store/src/block_list_store.rs. The rows of `block_list`, the cached snapshot
--   and the operations; moka is a parameter that says whether it still holds what was put in.
--   `Snapshots` has the abstract view, the set of rules in force, which forgets ids, reasons, times
--   and order; `Checks`, `Entries`, `Store` and `Refinement` relate the store to it. Calls come one
--   after the other: that a load of the snapshot may overlap with another call is not modelled.
-- Mailer: crates/mailer. `Fetcher` is fetcher.rs, `Webhook` webhook.rs, `Smtp` smtp.rs; reqwest, base64
--   and lettre are parameters. The fetches that are polled together are made one after the other.
-- Outbox: crates/outbox/src/worker.rs. `Rows` holds the statements, `Event` the envelope, `Worker`
--   publishing and polling, `Order` and `Batch` what a poll publishes and in which order, `Invariant`
--   and `Runs` what holds after any sequence of steps. serde's
--   decoding of a field and the broker's answers are parameters.
-- Api: crates/api. `Publisher` is publisher.rs; lapin is a parameter that says how each of its calls
--   ends. `Replay` and `Retry` are `republish_event`, `retry_recipient` and `retry_event` of
--   handlers.rs, over the queries of `Store.Queries`; the code of the answer and its body are left out.
-- Tests: concrete data, and each theorem applied to it.
--
-- Counters of the database are unbounded numbers: i32 columns are incremented once an attempt. The
-- product of the backoff saturates at 64 bits, as in the source. Metrics and log lines are left out.
-- Not modelled: the reconnect loops, the other handlers of the HTTP API, the command line, the MCP
-- server, and start-up. SQL, minijinja, serde, lapin and governor are outside the repository, and stand
-- in the model as parameters or as what a statement does.
pub mod Prelude
pub mod Common
pub mod Filter
pub mod Store
pub mod RateLimiter
pub mod Consumer
pub mod Mailer
pub mod Outbox
pub mod Api
pub mod Tests
