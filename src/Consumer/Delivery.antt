-- ===== src/Consumer/Delivery.antt =====
-- crates/consumer/src/delivery.rs, `handle_delivery`: what becomes of one message of the queue, from
-- its bytes to its acknowledgement.
pub mod Settling
pub mod Deferral
pub mod Oversized
pub mod Addresses
pub mod Copies
pub mod Whole
use anvil_notify.Prelude.{
  ℕ, ◌+◌, ◌-◌, max, Bool, true, false, not, String, concat, show, Option, none, some, List, [], ◌∷◌,
  length, is_empty, ltb, if◌then◌else◌,
}
use anvil_notify.Common.Error.{AppError, is_permanent_mailer, Result, ok, err}
use anvil_notify.Common.Status.{try_from}
use anvil_notify.Common.Email.{is_valid_email}
use anvil_notify.Common.Event.{
  Recipient, EmailOptions, NotificationEvent, EmailEvent, into_notification_event, is_whole,
  is_group,
}
use anvil_notify.Filter.{check}
use anvil_notify.Store.Log.{InsertArgs, InsertResult, inserted, mark_skipped}
use anvil_notify.Consumer.World.{Context, World, M, ResolvedAttachment, db, tick}
use anvil_notify.Consumer.Message.{EffectiveCcBcc}
use anvil_notify.Consumer.Recipient.{insert_call, blocked_reason}
use anvil_notify.Consumer.Retry.{ConsumerConfig, mark_failed_row, Run, returned, running}
use anvil_notify.Consumer.Group.{is_terminal}
use anvil_notify.Consumer.Group.Retry.{join_all, get_call, recipient_task, process_one_group}
use anvil_notify.Mailer.Fetcher.{HttpRequest, HttpReply, Client, Net, fetch_attachments_with_limit}

-- How the message is settled: `basic_ack`, or `basic_nack` with its `requeue`.
pub data Settlement : Type 0 where
  ack : Settlement
  nack : Bool → Settlement

-- `basic_publish` to the delayed exchange.
pub record Publish : Type 0 where
  pub exchange : String
  pub routing_key : String
  pub payload : List ℕ
  pub content_type : String
  pub delivery_mode : ℕ
  pub expiration : String

-- The broker's confirmation (and whether it is an acknowledgement), or an error on the way to it.
pub data PublishReply : Type 0 where
  confirmed : Bool → PublishReply
  confirm_error : PublishReply
  publish_error : PublishReply

-- What lies outside: serde_json on the two shapes of an event, the HTTP client, the broker.
pub record Outside : Type 0 where
  pub notification_event : List ℕ → Option NotificationEvent
  pub email_event : List ℕ → Option EmailEvent
  pub http : ℕ → HttpRequest → HttpReply
  pub broker : ℕ → Publish → PublishReply

-- The world, with what was published and how the delivery was settled, newest first.
pub record Handling : Type 0 where
  pub world : World
  pub published : List Publish
  pub settled : List Settlement

-- A handler that has returned, or whose tasks are still running when their rounds are used up.
pub data Handled : Type 0 where
  done : Handling → Handled
  waiting : Handling → Handled

abbrev pub settle : Settlement → Handling → Handled
settle s h = done (record h { settled = s ∷ h.settled })

abbrev pub at : World → Handling → Handling
at w h = record h { world = w }

-- The new shape of an event, or else the legacy one.
unfoldable pub parse : Outside → List ℕ → Option NotificationEvent
unfolding into_notification_event
parse out bytes = elim (out.notification_event bytes) [
  | some e ↦ some e
  | none ↦ elim (out.email_event bytes) [
    | some legacy ↦ some (into_notification_event legacy)
    | none ↦ none
  ]
]

-- A SKIPPED row under a key of its own, its failure ignored.
unfoldable pub skip_event : Context → NotificationEvent → String → World → World
unfolding mark_skipped
skip_event ctx event reason w =
    (db ctx
      (λ now.
        mark_skipped now event.event_id event.event_type (concat ("event:" ∷ event.event_id ∷ []))
          reason event.timestamp event.payload)
      w).1

abbrev pub no_options : String
no_options = "no email channel_overrides in event — publisher must re-publish with corrected data"

abbrev pub no_recipients : String
no_recipients =
    "email channel_overrides.recipients is empty — publisher must re-publish with at least one recipient"

abbrev pub sentinel_args : NotificationEvent → Recipient → InsertArgs
sentinel_args event primary = record {
  event_id = event.event_id;
  event_type = event.event_type;
  recipient_email = primary.email;
  payload = event.payload;
  event_timestamp = event.timestamp;
  recipient_name = primary.name;
  from_override = none;
  attachments = none;
  sender_account = none;
  cc = none;
  bcc = none;
  send_mode = "individual";
  group_retry_mode = none;
  to_recipients = none;
}

-- Whether the sentinel row is marked after its insert.
abbrev pub marks_sentinel : Result InsertResult → Bool
marks_sentinel (ok inserted) = true
marks_sentinel (ok (InsertResult.duplicate n status)) = not (is_terminal (try_from status))
marks_sentinel (err e) = false

unfoldable pub insert_sentinel_failed_row :
    Context → NotificationEvent → List Recipient → String → World → World
unfolding mark_failed_row
insert_sentinel_failed_row ctx event [] reason w = w
insert_sentinel_failed_row ctx event (primary ∷ rs) reason w =
    let (result, w1) = db ctx (insert_call (sentinel_args event primary)) w in
    elim (marks_sentinel result) [
      | true ↦ mark_failed_row ctx event.event_id primary.email reason true w1
      | false ↦ w1
    ]

abbrev pub oversized_reason : ℕ → ℕ → String
oversized_reason count limit = concat (
    "recipient count "
    ∷ show count
    ∷ " exceeds max_recipients_per_event "
    ∷ show limit
    ∷ " — raise the limit or split this event before retrying"
    ∷ [])

abbrev pub delayed_publish : ConsumerConfig → List ℕ → ℕ → Publish
delayed_publish cfg bytes ttl_ms = record {
  exchange = concat (cfg.exchange ∷ ".delayed" ∷ []);
  routing_key = "";
  payload = bytes;
  content_type = "application/json";
  delivery_mode = 2;
  expiration = show ttl_ms;
}

abbrev pub after_publish : PublishReply → Settlement
after_publish (confirmed true) = ack
after_publish (confirmed false) = nack true
after_publish confirm_error = nack true
after_publish publish_error = nack true

-- The original is settled by the broker's confirmation of the copy.
unfoldable pub defer : Outside → ConsumerConfig → List ℕ → ℕ → Handling → Handled
defer out cfg bytes ttl_ms h =
    let p = delayed_publish cfg bytes ttl_ms in
    settle (after_publish (out.broker h.world.step p))
      (record h { world = tick h.world; published = p ∷ h.published })

-- Whether a copy's address is kept.
unfoldable pub cc_bcc_allowed : Context → Recipient → M Bool
cc_bcc_allowed ctx r w =
    if is_valid_email r.email
    then elim (blocked_reason (check ctx.to_lowercase ctx.filter r.email)) [
      | some reason ↦ (false, w)
      | none ↦ (
        elim (blocked_reason (ctx.block_list_check w.step r.email)) [
          | some reason ↦ false
          | none ↦ true
        ],
        tick w,
      )
    ]
    else (false, w)

unfoldable pub allowed_copies : Context → List Recipient → M (List Recipient)
unfolding cc_bcc_allowed
allowed_copies ctx [] w = ([], w)
allowed_copies ctx (r ∷ rs) w =
    let (keeps, w1) = cc_bcc_allowed ctx r w in
    let (more, w2) = allowed_copies ctx rs w1 in (if keeps then r ∷ more else more, w2)

unfoldable pub effective_cc_bcc : Context → EmailOptions → M EffectiveCcBcc
unfolding allowed_copies
effective_cc_bcc ctx opts w =
    let (cc, w1) = allowed_copies ctx opts.cc w in
    let (bcc, w2) = allowed_copies ctx opts.bcc w1 in (record { cc = cc; bcc = bcc }, w2)

-- The attachments, fetched once for the event; none need no fetch.
unfoldable pub fetch :
    Outside
    → Context
    → ConsumerConfig
    → NotificationEvent
    → EmailOptions
    → M (Result (List ResolvedAttachment))
unfolding fetch_attachments_with_limit
fetch out ctx cfg event opts w =
    if is_empty opts.attachments
    then (ok [], w)
    else let client : Client = record {
      send = out.http;
      now = ctx.now;
      cancelled = ctx.cancelled;
    } in
      let net : Net = record { step = w.step; requests = []; slept = [] } in
      let (atts, net') =
        fetch_attachments_with_limit client opts.attachments event.timestamp
          cfg.max_attachment_bytes net in
      (atts, record w { step = net'.step })

-- In the mode `whole` a look-up tells whether to warn of a second send; nothing depends on it.
abbrev pub probe : Context → NotificationEvent → EmailOptions → List Recipient → World → World
probe ctx event opts [] w = w
probe ctx event opts (primary ∷ rs) w =
    if is_whole opts.group_retry_mode then (get_call event.event_id primary.email ctx w).1 else w

unfoldable pub dispatch :
    Context
    → ConsumerConfig
    → NotificationEvent
    → EmailOptions
    → List ResolvedAttachment
    → EffectiveCcBcc
    → ℕ
    → ℕ
    → World
    → Run
unfolding process_one_group join_all
dispatch ctx cfg event opts atts cc_bcc task_fuel fuel w =
    if is_group opts.send_mode
    then process_one_group ctx cfg event opts atts cc_bcc task_fuel fuel
        (probe ctx event opts opts.recipients w)
    else join_all (recipient_task ctx cfg event opts atts cc_bcc task_fuel) opts.recipients w

abbrev pub settle_run : Run → Handling → Handled
settle_run (returned w) h = settle ack (at w h)
settle_run (running w) h = waiting (at w h)

module _ (out : Outside) (ctx : Context) (cfg : ConsumerConfig) (bytes : List ℕ)
    (task_fuel fuel : ℕ) where
  -- From the attachments on.
  unfoldable pub deliver : NotificationEvent → EmailOptions → Handling → Handled
  unfolding fetch effective_cc_bcc dispatch
  deliver event opts h =
      let (fetched, w1) = fetch out ctx cfg event opts h.world in
      elim fetched [
        | err e ↦ settle (nack (not (is_permanent_mailer e))) (at w1 h)
        | ok atts ↦
            let (cc_bcc, w2) = effective_cc_bcc ctx opts w1 in
            settle_run (dispatch ctx cfg event opts atts cc_bcc task_fuel fuel w2) h
      ]

  -- The delivery time, if there is one and it has not come.
  unfoldable pub schedule : NotificationEvent → EmailOptions → Handling → Handled
  unfolding defer deliver
  schedule event opts h = elim opts.send_at [
    | none ↦ deliver event opts h
    | some send_at ↦
        let now = ctx.now h.world.step in
        let h1 = at (tick h.world) h in
        if ltb now send_at
        then defer out cfg bytes (max (send_at - now) 1) h1
        else deliver event opts h1
  ]

  -- The checks of the recipients.
  unfoldable pub handle_options : NotificationEvent → EmailOptions → Handling → Handled
  unfolding skip_event insert_sentinel_failed_row schedule
  handle_options event opts h =
      if is_empty opts.recipients
      then settle ack (at (skip_event ctx event no_recipients h.world) h)
      else if ltb cfg.max_recipients_per_event (length opts.recipients)
      then settle ack (
          at
            (insert_sentinel_failed_row ctx event opts.recipients
              (oversized_reason (length opts.recipients) cfg.max_recipients_per_event) h.world)
            h)
      else schedule event opts h

  unfoldable pub handle_delivery : Handling → Handled
  unfolding parse skip_event handle_options
  handle_delivery h = elim (parse out bytes) [
    | none ↦ settle (nack false) h
    | some event ↦ elim event.channel_overrides.email [
      | none ↦ settle ack (at (skip_event ctx event no_options h.world) h)
      | some opts ↦ handle_options event opts h
    ]
  ]
