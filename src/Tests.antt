-- ===== src/Tests.antt =====
-- Concrete data for the examples: one event, its recipient, and surroundings in which all goes well.
pub mod Delivery
pub mod Base
pub mod Moves
pub mod Groups
pub mod Deliveries
pub mod Mail
pub mod BlockLists
pub mod Retries
use anvil_notify.Prelude.{ℕ, ◌+◌, Bool, true, false, String, Option, none, some, List, [], ◌∷◌}
use anvil_notify.Common.Error.{AppError, Result, ok, err}
use anvil_notify.Common.Json.{Json, null}
use anvil_notify.Common.Event.{
  SendMode, GroupRetryMode, RetryPolicy, Recipient, EmailOptions, ChannelOverrides,
  NotificationEvent, Metadata,
}
use anvil_notify.Filter.{FilterConfig, RecipientFilter, new}
use anvil_notify.Store.Table.{Row, Table}
use anvil_notify.Store.Log.{InsertArgs, pending_row}
use anvil_notify.Consumer.World.{Context, World, EmailSender, NotificationTemplate}
use anvil_notify.Consumer.Message.{EffectiveCcBcc}
use anvil_notify.Consumer.Retry.{ConsumerConfig}

abbrev pub bob : Recipient
bob = record { email = "bob@mail.example"; name = some "Bob" }

abbrev pub options_with : RetryPolicy → EmailOptions
options_with policy = record {
  send_mode = SendMode.individual;
  group_retry_mode = GroupRetryMode.whole;
  retry_policy = policy;
  recipients = bob ∷ [];
  cc = [];
  bcc = [];
  from_override = none;
  attachments = [];
  sender_account = none;
  send_at = none;
  priority = none;
}

abbrev pub options : EmailOptions
options = options_with RetryPolicy.retry

abbrev pub event : NotificationEvent
event = record {
  event_id = "e1";
  timestamp = 5;
  event_type = "ORDER_PAID";
  payload = null;
  metadata = record { source = none };
  channel_overrides = record { email = some options };
}

abbrev pub no_copies : EffectiveCcBcc
no_copies = record { cc = []; bcc = [] }

abbrev pub consumer_config : ConsumerConfig
consumer_config = record {
  exchange = "notifications";
  max_retries = 3;
  retry_base_ms = 1000;
  max_attachment_bytes = 1000000;
  max_rl_waits = 5;
  max_recipients_per_event = 100;
}

abbrev pub lower : String → String
lower s = s

abbrev pub no_rules : FilterConfig
no_rules = record {
  blocked_emails = [];
  blocked_domains = [];
  allowed_emails = [];
  allowed_domains = [];
}

abbrev pub blocks_bob : FilterConfig
blocks_bob = record no_rules { blocked_domains = "mail.example" ∷ [] }

abbrev pub template : NotificationTemplate
template = record { subject = "Paid"; body_html = "<p>Paid</p>"; body_text = "Paid" }

abbrev pub takes_all : EmailSender
takes_all n msg = ok tt

abbrev pub refuses_with : AppError → EmailSender
refuses_with e n msg = err e

abbrev pub context_with : EmailSender → FilterConfig → Context
context_with sender cfg = record {
  resolve = λ n event_type channel. ok template;
  sender = sender;
  sender_registry = [];
  filter = new lower cfg;
  block_list_check = λ n email. ok tt;
  rate_limiter = record { inner = none };
  render_template = λ source payload. ok source;
  render_html_template = λ source payload. ok source;
  to_lowercase = lower;
  now = λ n. n + 100;
  db_fault = λ n. none;
  others = λ n. [];
  cancelled = λ n. false;
}

abbrev pub context : Context
context = context_with takes_all no_rules

abbrev pub empty_world : World
empty_world = record { step = 0; table = []; handed = []; slept = [] }

abbrev pub bob_args : InsertArgs
bob_args = record {
  event_id = "e1";
  event_type = "ORDER_PAID";
  recipient_email = "bob@mail.example";
  payload = null;
  event_timestamp = 5;
  recipient_name = some "Bob";
  from_override = none;
  attachments = none;
  sender_account = none;
  cc = none;
  bcc = none;
  send_mode = "individual";
  group_retry_mode = none;
  to_recipients = none;
}

abbrev pub bob_row : Row
bob_row = pending_row 7 bob_args

-- A world in which the event came before and its row is still PENDING.
abbrev pub redelivered_world : World
redelivered_world = record empty_world { table = bob_row ∷ [] }
