-- ===== src/Consumer/Group.antt =====
-- crates/consumer/src/processor.rs, `process_group`: one attempt to send one e-mail to all the
-- recipients of an event. Its template, override, rendering and serialisation steps are those of
-- `process_recipient`, in the same order: `prepare_with`.
pub mod Once
pub mod Addressed
pub mod Rows
pub mod Claimed
pub mod Retry
use anvil_notify.Prelude.{
  ℕ, Bool, true, false, not, String, concat, Option, none, some, List, [], ◌∷◌, map, keep, length,
  skip_one, is_empty, ltb, contains_text, show, if◌then◌else◌,
}
use anvil_notify.Common.Error.{AppError, permanent_mailer, Result, ok, err}
use anvil_notify.Common.Status.{NotificationStatus, try_from}
use anvil_notify.Common.Json.{Json}
use anvil_notify.Common.Event.{
  Uuid, Timestamp, Recipient, EmailOptions, NotificationEvent, GroupRetryMode, is_whole,
  send_mode_str, group_retry_str,
}
use anvil_notify.Common.Email.{is_valid_email}
use anvil_notify.Filter.{check}
use anvil_notify.Store.Table.{Table}
use anvil_notify.Store.Log.{InsertResult, InsertArgs, inserted, insert_pending_batch, mark_blocked}
use anvil_notify.Consumer.World.{Context, World, M, ResolvedAttachment, EmailMessage, db, tick}
use anvil_notify.Consumer.Message.{
  EffectiveCcBcc, SerializedEmailFields, build_email_message, json_array, json_recipient, mailbox,
}
use anvil_notify.Consumer.Send.{RecipientOutcome, SendTargets, execute_send}
use anvil_notify.Consumer.Recipient.{Prepared, prepare_with, inspect_insert, blocked_reason}

-- The first address that is not valid.
abbrev pub first_invalid : List Recipient → Option String
first_invalid [] = none
first_invalid (r ∷ rs) =
    let rest = first_invalid rs in if is_valid_email r.email then rest else some r.email

-- Steps 0a and 0b.
unfoldable pub group_refusal : ℕ → List Recipient → Option AppError
group_refusal max_recipients rs =
    if ltb max_recipients (length rs)
    then some (
        permanent_mailer (
          concat (
            "group send: recipient count "
            ∷ show (length rs)
            ∷ " exceeds maximum allowed ("
            ∷ show max_recipients
            ∷ ")"
            ∷ [])))
    else elim (first_invalid rs) [
      | none ↦ none
      | some addr ↦
          some (permanent_mailer (concat ("invalid recipient email address: " ∷ addr ∷ [])))
    ]

unfoldable pub prepare_group :
    Context → NotificationEvent → EmailOptions → EffectiveCcBcc → ℕ → M (Result Prepared)
unfolding group_refusal prepare_with
prepare_group ctx event opts cc_bcc max_recipients w =
    elim (group_refusal max_recipients opts.recipients) [
      | some e ↦ (err e, w)
      | none ↦
          (prepare_with ctx event opts cc_bcc (ctx.resolve w.step event.event_type "email"), tick w)
    ]

abbrev pub to_recipients_json : EmailOptions → Option Json
to_recipients_json opts =
    if is_whole opts.group_retry_mode
    then some (json_array json_recipient opts.recipients)
    else none

-- `make_args`.
unfoldable pub make_args :
    NotificationEvent → EmailOptions → SerializedEmailFields → Recipient → InsertArgs
make_args event opts fields r = record {
  event_id = event.event_id;
  event_type = event.event_type;
  recipient_email = r.email;
  payload = event.payload;
  event_timestamp = event.timestamp;
  recipient_name = r.name;
  from_override = fields.from_override;
  attachments = fields.attachments;
  sender_account = opts.sender_account;
  cc = fields.cc;
  bcc = fields.bcc;
  send_mode = send_mode_str opts.send_mode;
  group_retry_mode = some (group_retry_str opts.group_retry_mode);
  to_recipients = to_recipients_json opts;
}

-- A row for each recipient, or for the primary one alone.
unfoldable pub rows_to_insert :
    NotificationEvent
    → EmailOptions
    → SerializedEmailFields
    → Recipient
    → List Recipient
    → List InsertArgs
unfolding make_args
rows_to_insert event opts fields primary secondaries =
    make_args event opts fields primary
    ∷ (if is_whole opts.group_retry_mode then [] else map (make_args event opts fields) secondaries)

abbrev pub batch_call : List InsertArgs → Timestamp → Table → Result (List InsertResult) × Table
batch_call rows now t = let (rs, t') = insert_pending_batch now rows t in (ok rs, t')

-- The primary row decides whether the attempt ends here.
unfoldable pub inspect_primary : Result (List InsertResult) → Option RecipientOutcome
unfolding inspect_insert
inspect_primary (ok []) =
    some (RecipientOutcome.failed (permanent_mailer "insert_pending_batch returned empty results"))
inspect_primary (ok (r ∷ rs)) = inspect_insert (ok r)
inspect_primary (err e) = some (RecipientOutcome.failed e)

abbrev pub is_terminal : Result NotificationStatus → Bool
is_terminal (ok NotificationStatus.sent) = true
is_terminal (ok NotificationStatus.blocked) = true
is_terminal _ = false

abbrev pub is_done : InsertResult → Bool
is_done inserted = false
is_done (InsertResult.duplicate n status) = is_terminal (try_from status)

-- Step 3c: the secondary recipients whose row is terminal already.
abbrev pub already_sent : List Recipient → List InsertResult → List String
already_sent [] rs = []
already_sent (x ∷ xs) [] = []
already_sent (x ∷ xs) (r ∷ rs) =
    let rest = already_sent xs rs in if is_done r then x.email ∷ rest else rest

abbrev pub secondary_results : Result (List InsertResult) → List InsertResult
secondary_results (ok rs) = skip_one rs
secondary_results (err e) = []

-- Step 4: the recipients that the configured filter allows; the others' rows are marked.
unfoldable pub partition : Context → Uuid → List Recipient → M (List Recipient)
partition ctx event_id [] w = ([], w)
partition ctx event_id (r ∷ rs) w =
    let blocked = partition ctx event_id rs in
    elim (blocked_reason (check ctx.to_lowercase ctx.filter r.email)) [
      | none ↦ let (more, w') = blocked w in (r ∷ more, w')
      | some reason ↦ blocked (db ctx (λ now. mark_blocked now event_id r.email reason) w).1
    ]

abbrev pub emails_of : List Recipient → List String
emails_of = map (λ r. r.email)

-- The targets and the message, over the recipients that are left.
abbrev pub group_targets :
    NotificationEvent → EmailOptions → Recipient → List Recipient → SendTargets
group_targets event opts primary left =
    SendTargets.group event.event_id primary.email
      (if is_whole opts.group_retry_mode then [] else emails_of (skip_one left))
      opts.group_retry_mode

abbrev pub group_message :
    NotificationEvent
    → Recipient
    → List Recipient
    → Prepared
    → List ResolvedAttachment
    → EffectiveCcBcc
    → EmailMessage
group_message event primary left p attachments cc_bcc =
    build_email_message event primary (map mailbox (skip_one left)) p.rendered p.from attachments
      cc_bcc.cc cc_bcc.bcc

-- Steps 4b to 7.
unfoldable pub send_group :
    Context
    → NotificationEvent
    → EmailOptions
    → Recipient
    → List ResolvedAttachment
    → EffectiveCcBcc
    → Prepared
    → List String
    → List Recipient
    → M RecipientOutcome
send_group ctx event opts primary attachments cc_bcc p already allowed w =
    let left = keep (λ r. not (contains_text r.email already)) allowed in
    if is_empty allowed
    then (RecipientOutcome.blocked "all TO recipients blocked by filter", w)
    else execute_send ctx (group_message event primary left p attachments cc_bcc)
        opts.sender_account (group_targets event opts primary left) w

-- What follows a successful preparation.
unfoldable pub attempt_group :
    Context
    → NotificationEvent
    → EmailOptions
    → Recipient
    → List Recipient
    → List ResolvedAttachment
    → EffectiveCcBcc
    → Prepared
    → M RecipientOutcome
unfolding rows_to_insert inspect_primary partition send_group
attempt_group ctx event opts primary secondaries attachments cc_bcc p w =
    let (results, w1) =
      db ctx (batch_call (rows_to_insert event opts p.fields primary secondaries)) w in
    elim (inspect_primary results) [
      | some outcome ↦ (outcome, w1)
      | none ↦
          let already =
            if is_whole opts.group_retry_mode
            then []
            else already_sent secondaries (secondary_results results) in
          let (allowed, w2) = partition ctx event.event_id (primary ∷ secondaries) w1 in
          send_group ctx event opts primary attachments cc_bcc p already allowed w2
    ]

-- The attempt over the list of recipients, whose first one is the primary.
unfoldable pub group_of :
    Context
    → NotificationEvent
    → EmailOptions
    → List ResolvedAttachment
    → EffectiveCcBcc
    → ℕ
    → List Recipient
    → M RecipientOutcome
unfolding prepare_group attempt_group
group_of ctx event opts attachments cc_bcc max_recipients [] w =
    (RecipientOutcome.failed (permanent_mailer "group send: recipients list is empty"), w)
group_of ctx event opts attachments cc_bcc max_recipients (primary ∷ secondaries) w =
    let (prepared, w1) = prepare_group ctx event opts cc_bcc max_recipients w in
    elim prepared [
      | err e ↦ (RecipientOutcome.failed e, w1)
      | ok p ↦ attempt_group ctx event opts primary secondaries attachments cc_bcc p w1
    ]

unfoldable pub process_group :
    Context
    → NotificationEvent
    → EmailOptions
    → List ResolvedAttachment
    → EffectiveCcBcc
    → ℕ
    → M RecipientOutcome
unfolding group_of
process_group ctx event opts attachments cc_bcc max_recipients w =
    group_of ctx event opts attachments cc_bcc max_recipients opts.recipients w
