-- ===== src/Common/Event.antt =====
-- crates/common/src/event.rs: the event envelope and its e-mail options.
use anvil_notify.Prelude.{
  ℕ, Bool, String, str_eq, concat, Option, none, some, List, [], ◌∷◌, if◌then◌else◌, true, false,
}
use anvil_notify.Common.Error.{Result, ok, err, unknown_status}
use anvil_notify.Common.Json.{Json}

-- A UUID is kept as its hyphenated text, a `DateTime<Utc>` as milliseconds.
abbrev pub Uuid : Type 0
Uuid = String

abbrev pub Timestamp : Type 0
Timestamp = ℕ

pub data SendMode : Type 0 where
  individual group : SendMode

pub data GroupRetryMode : Type 0 where
  whole individual : GroupRetryMode

pub data RetryPolicy : Type 0 where
  retry no_retry : RetryPolicy

unfoldable pub send_mode_str : SendMode → String
send_mode_str SendMode.individual = "individual"
send_mode_str SendMode.group = "group"

unfoldable pub group_retry_str : GroupRetryMode → String
group_retry_str GroupRetryMode.whole = "whole"
group_retry_str GroupRetryMode.individual = "individual"

unfoldable pub group_retry_try_from : String → Result GroupRetryMode
group_retry_try_from s =
    if str_eq s "whole"
    then ok GroupRetryMode.whole
    else if str_eq s "individual"
    then ok GroupRetryMode.individual
    else err (unknown_status (concat ("unknown group_retry_mode: " ∷ s ∷ [])))

abbrev pub is_whole : GroupRetryMode → Bool
is_whole GroupRetryMode.whole = true
is_whole GroupRetryMode.individual = false

abbrev pub is_group : SendMode → Bool
is_group SendMode.individual = false
is_group SendMode.group = true

abbrev pub is_no_retry : RetryPolicy → Bool
is_no_retry RetryPolicy.retry = false
is_no_retry RetryPolicy.no_retry = true

pub record FromOverride : Type 0 where
  pub email : String
  pub name : Option String

pub record Recipient : Type 0 where
  pub email : String
  pub name : Option String

pub record Metadata : Type 0 where
  pub source : Option String

pub record AttachmentRef : Type 0 where
  pub url : String
  pub filename : String
  pub content_type : String
  pub fetch_token : Option String
  pub max_age_secs : Option ℕ

pub record EmailOptions : Type 0 where
  pub send_mode : SendMode
  pub group_retry_mode : GroupRetryMode
  pub retry_policy : RetryPolicy
  pub recipients : List Recipient
  pub cc : List Recipient
  pub bcc : List Recipient
  pub from_override : Option FromOverride
  pub attachments : List AttachmentRef
  pub sender_account : Option String
  pub send_at : Option Timestamp
  pub priority : Option ℕ

pub record ChannelOverrides : Type 0 where
  pub email : Option EmailOptions

pub record NotificationEvent : Type 0 where
  pub event_id : Uuid
  pub timestamp : Timestamp
  pub event_type : String
  pub payload : Json
  pub metadata : Metadata
  pub channel_overrides : ChannelOverrides

-- The legacy flat envelope.
pub record EmailEvent : Type 0 where
  pub event_id : Uuid
  pub timestamp : Timestamp
  pub event_type : String
  pub recipients : List Recipient
  pub payload : Json
  pub from_override : Option FromOverride
  pub metadata : Metadata
  pub cc : List Recipient
  pub bcc : List Recipient
  pub attachments : List AttachmentRef
  pub sender_account : Option String

unfoldable pub into_notification_event : EmailEvent → NotificationEvent
into_notification_event e = record {
  event_id = e.event_id;
  timestamp = e.timestamp;
  event_type = e.event_type;
  payload = e.payload;
  metadata = e.metadata;
  channel_overrides = record {
    email = some (record {
      send_mode = SendMode.individual;
      group_retry_mode = GroupRetryMode.whole;
      retry_policy = RetryPolicy.retry;
      recipients = e.recipients;
      cc = e.cc;
      bcc = e.bcc;
      from_override = e.from_override;
      attachments = e.attachments;
      sender_account = e.sender_account;
      send_at = none;
      priority = none;
    });
  };
}
