-- ===== src/Api/Replay.antt =====
-- crates/api/src/handlers.rs, `republish_event`: the envelope that is built from the rows of an event.
-- serde's deserialisation of a stored value is a parameter, as is its serialisation of the envelope.
pub mod Laws
use anvil_notify.Prelude.{
  ℕ, Bool, true, false, not, ◌&&◌, ◌++◌, String, str_eq, concat, show, Option, none, some, List, [],
  ◌∷◌, map, keep, all, is_empty, length, ltb, contains_text, if◌then◌else◌,
}
use anvil_notify.Common.Error.{Result, ok, err, ◌>>=◌, permanent_mailer}
use anvil_notify.Common.Status.{NotificationStatus, skipped}
use anvil_notify.Common.Json.{
  Json, Items, null, array, nil, cons, get, as_text, as_u64, empty_array,
}
use anvil_notify.Common.Event.{
  Uuid, Timestamp, SendMode, GroupRetryMode, RetryPolicy, FromOverride, Recipient, AttachmentRef,
  NotificationEvent, group_retry_try_from,
}
use anvil_notify.Common.Email.{is_valid_email}
use anvil_notify.Common.Attachment.{age_secs}
use anvil_notify.Filter.{RecipientFilter, check}
use anvil_notify.Consumer.Recipient.{blocked_reason}
use anvil_notify.Store.Queries.{NotificationLog, EventDeliveryDetail}

pub data Decoded (A : Type 0) : Type 0 where
  decoded : A → Decoded A
  malformed : String → Decoded A

pub record Serde : Type 0 where
  pub from_override : Json → Decoded FromOverride
  pub attachments : Json → Decoded (List AttachmentRef)
  pub recipients : Json → Decoded (List Recipient)
  pub to_vec : NotificationEvent → Decoded (List ℕ)

-- Step 3: a stored sender that is no address. A value without a text `email` passes.
unfoldable pub check_from_override : Option Json → Result (Unit {0})
check_from_override none = ok tt
check_from_override (some v) = elim (get v "email") [
  | none ↦ ok tt
  | some e ↦ elim (as_text e) [
    | none ↦ ok tt
    | some email ↦
        if is_valid_email email
        then ok tt
        else err (
            permanent_mailer (
              concat (
                "stored from_override email address '" ∷ email
                ∷ "' is invalid — fix the notification_log row before retrying" ∷ [])))
  ]
]

-- The filename of a reference that is too old; nothing where `?` leaves the closure.
unfoldable pub expired_name : ℕ → Json → Option String
expired_name age r = elim (get r "max_age_secs") [
  | none ↦ none
  | some m ↦ elim (as_u64 m) [
    | none ↦ none
    | some max_age ↦
        if ltb max_age age
        then elim (get r "filename") [ none ↦ none | some f ↦ as_text f ]
        else none
  ]
]

unfoldable pub expired : ℕ → Items → List String
unfolding expired_name
expired age nil = []
expired age (cons r refs) =
    let more = expired age refs in elim (expired_name age r) [ none ↦ more | some f ↦ f ∷ more ]

-- `join(", ")`.
unfoldable pub join : List String → String
join [] = ""
join (s ∷ []) = s
join (s ∷ t ∷ r) = concat (s ∷ ", " ∷ join (t ∷ r) ∷ [])

-- Step 5.
unfoldable pub check_expiry : ℕ → Json → Result (Unit {0})
unfolding expired join
check_expiry age (array refs) =
    let names = expired age refs in
    if is_empty names
    then ok tt
    else err (
        permanent_mailer (
          concat (
            show (length names)
            ∷ " attachment URL(s) have expired (age "
            ∷ show age
            ∷ "s > max_age_secs): "
            ∷ join names
            ∷ ". The business service must re-publish the event with fresh URLs before retrying."
            ∷ [])))
check_expiry age _ = ok tt

abbrev pub is_skipped : NotificationStatus → Bool
is_skipped skipped = true
is_skipped _ = false

abbrev pub is_wanted : Option (List String) → NotificationLog → Bool
is_wanted none l = true
is_wanted (some emails) l = contains_text l.recipient_email emails

abbrev pub to_recipient : NotificationLog → Recipient
to_recipient l = record { email = l.recipient_email; name = l.recipient_name }

-- Step 6, its guard included.
unfoldable pub replay_recipients :
    Uuid → Option (List String) → List NotificationLog → Result (List Recipient)
replay_recipients event_id only_emails logs =
    let recipients =
      map to_recipient
        (keep (is_wanted only_emails) (keep (λ l. not (is_skipped l.status)) logs)) in
    if is_empty recipients && all (λ l. is_skipped l.status) logs
    then err (
        permanent_mailer (
          concat (
            "Event " ∷ event_id
            ∷ " was skipped at validation time and has no deliverable recipients. The publisher must re-publish a corrected event."
            ∷ [])))
    else ok recipients

-- A stored value that must be what its column says.
unfoldable pub demand : {A : Type 0} → String → Decoded A → Result A
demand column (decoded a) = ok a
demand column (malformed e) = err (
    permanent_mailer
      (concat ("stored " ∷ column ∷ " is malformed and cannot be deserialized: " ∷ e ∷ [])))

unfoldable pub demand_optional :
    {A : Type 0} → String → (Json → Decoded A) → Option Json → Result (Option A)
unfolding demand
demand_optional column decode none = ok none
demand_optional column decode (some v) = do a ← demand column (decode v); ok (some a)

unfoldable pub stored_copies : String → Serde → Option Json → Result (List Recipient)
unfolding demand
stored_copies column serde none = ok []
stored_copies column serde (some v) = demand column (serde.recipients v)

unfoldable pub stored_send_mode : Option String → Result SendMode
stored_send_mode none = ok SendMode.individual
stored_send_mode (some s) =
    if str_eq s "group"
    then ok SendMode.group
    else if str_eq s "individual"
    then ok SendMode.individual
    else err (
        permanent_mailer (
          concat (
            "unknown send_mode value '" ∷ s
            ∷ "' in notification_log row — fix the DB row before retrying" ∷ [])))

unfoldable pub stored_group_retry_mode : Option String → Result GroupRetryMode
stored_group_retry_mode none = ok GroupRetryMode.whole
stored_group_retry_mode (some s) = elim (group_retry_try_from s) [
  | ok m ↦ ok m
  | err _ ↦ err (
      permanent_mailer (
        concat (
          "unknown group_retry_mode value '" ∷ s
          ∷ "' in notification_log row — fix the DB row before retrying" ∷ [])))
]

-- Step 9, the copies. The To addresses are only warned about.
unfoldable pub check_copies :
    (String → String) → RecipientFilter → List Recipient → Result (Unit {0})
check_copies to_lowercase filter [] = ok tt
check_copies to_lowercase filter (r ∷ rs) =
    elim (blocked_reason (check to_lowercase filter r.email)) [
      | none ↦ check_copies to_lowercase filter rs
      | some reason ↦ err (
          permanent_mailer (
            concat (
              "cc/bcc address " ∷ r.email ∷ " is blocked: " ∷ reason
              ∷ ". Remove the blocked address before retrying." ∷ [])))
    ]

-- The guard of step 10.
unfoldable pub check_payload : Json → Result (Unit {0})
check_payload null = err (
    permanent_mailer
      "stored payload is null — the notification_log row must be repaired with a valid JSON payload before this event can be retried")
check_payload _ = ok tt

abbrev pub attachments_or_empty : Option Json → Json
attachments_or_empty none = empty_array
attachments_or_empty (some v) = v

-- Steps 3 to 10 but for the serialisation: the envelope, of the rows and the detail.
unfoldable pub replay :
    Serde
    → (String → String)
    → RecipientFilter
    → Timestamp
    → Uuid
    → Option (List String)
    → List NotificationLog
    → EventDeliveryDetail
    → Result NotificationEvent
unfolding check_from_override check_expiry replay_recipients demand demand_optional stored_copies
    stored_send_mode stored_group_retry_mode check_copies check_payload
replay serde to_lowercase filter now event_id only_emails logs d = do
  _ ← check_from_override d.from_override
  _ ← check_expiry (age_secs d.event_timestamp now) (attachments_or_empty d.attachments)
  recipients ← replay_recipients event_id only_emails logs
  from_override ← demand_optional "from_override" serde.from_override d.from_override
  attachments ← demand "attachments JSON" (serde.attachments (attachments_or_empty d.attachments))
  cc ← stored_copies "cc JSON" serde d.cc
  bcc ← stored_copies "bcc JSON" serde d.bcc
  send_mode ← stored_send_mode d.send_mode
  group_retry_mode ← stored_group_retry_mode d.group_retry_mode
  _ ← check_copies to_lowercase filter (cc ++ bcc)
  _ ← check_payload d.payload
  ok (record {
    event_id = event_id;
    timestamp = d.event_timestamp;
    event_type = d.event_type;
    payload = d.payload;
    metadata = record { source = none };
    channel_overrides = record {
      email = some (record {
        send_mode = send_mode;
        group_retry_mode = group_retry_mode;
        retry_policy = RetryPolicy.retry;
        recipients = recipients;
        cc = cc;
        bcc = bcc;
        from_override = from_override;
        attachments = attachments;
        sender_account = d.sender_account;
        send_at = none;
        priority = none;
      });
    };
  })
