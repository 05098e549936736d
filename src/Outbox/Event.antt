-- ===== src/Outbox/Event.antt =====
-- crates/outbox/src/worker.rs: the event envelope that is built from an outbox row. serde's
-- deserialisation of each type is a parameter: what it makes of a JSON value, if anything.
use anvil_notify.Prelude.{ℕ, String, Option, none, some, List, []}
use anvil_notify.Common.Json.{Json, get, as_text, singleton, empty_array, empty_object}
use anvil_notify.Common.Event.{
  Timestamp, SendMode, GroupRetryMode, RetryPolicy, FromOverride, Recipient, AttachmentRef,
  Metadata, NotificationEvent,
}
use anvil_notify.Outbox.Rows.{OutboxRow}

pub record Serde : Type 0 where
  pub recipients : Json → Option (List Recipient)
  pub from_override : Json → Option FromOverride
  pub attachments : Json → Option (List AttachmentRef)
  pub send_mode : Json → Option SendMode
  pub group_retry_mode : Json → Option GroupRetryMode
  pub send_at : Json → Option Timestamp
  pub priority : Json → Option ℕ
  pub metadata : Json → Option Metadata

unfoldable pub promote_recipients : Json → Json
promote_recipients payload = elim (get payload "recipients") [
  | some arr ↦ arr
  | none ↦ elim (get payload "recipient") [ some r ↦ singleton r | none ↦ empty_array ]
]

unfoldable pub deserialize_optional : {A : Type 0} → (Json → Option A) → Json → String → Option A
deserialize_optional decode payload key = elim (get payload key) [ none ↦ none | some v ↦ decode v ]

abbrev pub or_default : {A : Type 0} → A → Option A → A
or_default d none = d
or_default d (some a) = a

abbrev pub text_at : Json → String → Option String
text_at payload key = elim (get payload key) [ none ↦ none | some v ↦ as_text v ]

-- The envelope; `None` is the malformed recipients field.
unfoldable pub envelope : Serde → OutboxRow → Option NotificationEvent
unfolding promote_recipients deserialize_optional
envelope serde row = elim (serde.recipients (promote_recipients row.payload)) [
  | none ↦ none
  | some recipients ↦ some (record {
    event_id = row.event_id;
    timestamp = row.created_at;
    event_type = row.event_type;
    payload = or_default empty_object (get row.payload "payload");
    metadata =
        or_default (record { source = none })
          (deserialize_optional serde.metadata row.payload "metadata");
    channel_overrides = record {
      email = some (record {
        send_mode =
            or_default SendMode.individual
              (deserialize_optional serde.send_mode row.payload "send_mode");
        group_retry_mode =
            or_default GroupRetryMode.whole
              (deserialize_optional serde.group_retry_mode row.payload "group_retry_mode");
        retry_policy = RetryPolicy.retry;
        recipients = recipients;
        cc = or_default [] (deserialize_optional serde.recipients row.payload "cc");
        bcc = or_default [] (deserialize_optional serde.recipients row.payload "bcc");
        from_override = deserialize_optional serde.from_override row.payload "from_override";
        attachments =
            or_default [] (deserialize_optional serde.attachments row.payload "attachments");
        sender_account = text_at row.payload "sender_account";
        send_at = deserialize_optional serde.send_at row.payload "send_at";
        priority = deserialize_optional serde.priority row.payload "priority";
      });
    };
  })
]
