-- ===== src/Consumer/Recipient.antt =====
-- crates/consumer/src/processor.rs, `process_recipient`: one attempt for one recipient. The function
-- is cut where its steps return early: `prepare` (steps 0 to 2c, whose early returns are all
-- `Failed`), `claim` (step 3), `screen` (steps 4 and 4b), and the send.
use anvil_notify.Prelude.{
  ℕ, Bool, true, false, String, concat, Option, none, some, List, [], ◌∷◌, if◌then◌else◌,
}
use anvil_notify.Common.Error.{AppError, permanent_mailer, Result, ok, err, ◌>>=◌}
use anvil_notify.Common.Status.{NotificationStatus, try_from}
use anvil_notify.Common.Event.{
  Uuid, Timestamp, Recipient, EmailOptions, NotificationEvent, send_mode_str,
}
use anvil_notify.Common.Email.{is_valid_email}
use anvil_notify.Filter.{check, is_passthrough}
use anvil_notify.Store.Table.{Table}
use anvil_notify.Store.Log.{InsertResult, InsertArgs, inserted, insert_pending, mark_blocked}
use anvil_notify.Consumer.World.{Context, M, ResolvedAttachment, NotificationTemplate, db, tick}
use anvil_notify.Consumer.Message.{
  EffectiveCcBcc, RenderedTemplates, SerializedEmailFields, render_all_templates,
  resolve_from_override, serialize_email_fields, build_email_message,
}
use anvil_notify.Consumer.Send.{RecipientOutcome, individual, execute_send}

pub record Prepared : Type 0 where
  pub from : Option String × Option String
  pub rendered : RenderedTemplates
  pub fields : SerializedEmailFields

abbrev pub ensure_valid : Bool → String → String → Result (Unit {0})
ensure_valid true what addr = ok tt
ensure_valid false what addr = err (permanent_mailer (concat (what ∷ addr ∷ [])))

abbrev pub valid_override : Option String → Result (Unit {0})
valid_override none = ok tt
valid_override (some addr) =
    ensure_valid (is_valid_email addr) "invalid from_override email address: " addr

-- Steps 1 to 3 up to the insert, given the template's lookup.
unfoldable pub prepare_with :
    Context
    → NotificationEvent
    → EmailOptions
    → EffectiveCcBcc
    → Result NotificationTemplate
    → Result Prepared
prepare_with ctx event opts cc_bcc found = do
  t ← found
  let from = resolve_from_override opts.from_override
  _ ← valid_override from.0
  rendered ← render_all_templates ctx t.subject t.body_html t.body_text event.payload
  fields ← serialize_email_fields opts cc_bcc.cc cc_bcc.bcc
  ok (record { from = from; rendered = rendered; fields = fields })

unfoldable pub prepare :
    Context → NotificationEvent → EmailOptions → Recipient → EffectiveCcBcc → M (Result Prepared)
unfolding prepare_with
prepare ctx event opts r cc_bcc w =
    if is_valid_email r.email
    then (prepare_with ctx event opts cc_bcc (ctx.resolve w.step event.event_type "email"), tick w)
    else (err (permanent_mailer (concat ("invalid recipient email address: " ∷ r.email ∷ []))), w)

unfoldable pub individual_args :
    NotificationEvent → EmailOptions → Recipient → SerializedEmailFields → InsertArgs
individual_args event opts r fields = record {
  event_id = event.event_id;
  event_type = event.event_type;
  recipient_email = r.email;
  payload = event.payload;
  event_timestamp = event.timestamp;
  recipient_name = r.name;
  from_override = fields.from_override;
  attachments = fields.attachments;
  sender_account = opts.sender_account;
  cc = fields.cc;
  bcc = fields.bcc;
  send_mode = send_mode_str opts.send_mode;
  group_retry_mode = none;
  to_recipients = none;
}

-- What a row that was there already means: `Some outcome` is an early return.
unfoldable pub inspect_duplicate : ℕ → Result NotificationStatus → RecipientOutcome
inspect_duplicate n (ok NotificationStatus.sent) = RecipientOutcome.skipped
inspect_duplicate n (ok NotificationStatus.blocked) = RecipientOutcome.skipped
inspect_duplicate n (ok _) = RecipientOutcome.duplicate n
inspect_duplicate n (err e) = RecipientOutcome.failed e

unfoldable pub inspect_insert : Result InsertResult → Option RecipientOutcome
unfolding inspect_duplicate
inspect_insert (ok inserted) = none
inspect_insert (ok (InsertResult.duplicate n status)) = some (inspect_duplicate n (try_from status))
inspect_insert (err e) = some (RecipientOutcome.failed e)

abbrev pub insert_call : InsertArgs → Timestamp → Table → Result InsertResult × Table
insert_call a now t = let (r, t') = insert_pending now a t in (ok r, t')

unfoldable pub claim : Context → InsertArgs → M (Option RecipientOutcome)
unfolding inspect_insert
claim ctx a w = let (r, w') = db ctx (insert_call a) w in (inspect_insert r, w')

-- `mark_blocked` whose failure is ignored, and the outcome.
unfoldable pub block : Context → Uuid → String → String → M (Option RecipientOutcome)
block ctx event_id email reason w =
    let (_, w') = db ctx (λ now. mark_blocked now event_id email reason) w in
    (some (RecipientOutcome.blocked reason), w')

-- Only a `Blocked` error blocks; any other result passes.
abbrev pub blocked_reason : Result (Unit {0}) → Option String
blocked_reason (err (AppError.blocked reason)) = some reason
blocked_reason _ = none

abbrev pub config_reason : Context → String → Option String
config_reason ctx email =
    if is_passthrough ctx.filter
    then none
    else blocked_reason (check ctx.to_lowercase ctx.filter email)

unfoldable pub screen : Context → Uuid → String → M (Option RecipientOutcome)
unfolding block
screen ctx event_id email w = elim (config_reason ctx email) [
  | some reason ↦ block ctx event_id email reason w
  | none ↦
      let w1 = tick w in
      elim (blocked_reason (ctx.block_list_check w.step email)) [
        | some reason ↦ block ctx event_id email reason w1
        | none ↦ (none, w1)
      ]
]

-- What follows a successful preparation.
unfoldable pub attempt :
    Context
    → NotificationEvent
    → EmailOptions
    → Recipient
    → List ResolvedAttachment
    → EffectiveCcBcc
    → Prepared
    → M RecipientOutcome
unfolding claim screen individual_args
attempt ctx event opts r attachments cc_bcc p w =
    let (claimed, w1) = claim ctx (individual_args event opts r p.fields) w in
    elim claimed [
      | some outcome ↦ (outcome, w1)
      | none ↦
          let (screened, w2) = screen ctx event.event_id r.email w1 in
          elim screened [
            | some outcome ↦ (outcome, w2)
            | none ↦
                execute_send ctx
                  (build_email_message event r [] p.rendered p.from attachments cc_bcc.cc
                    cc_bcc.bcc)
                  opts.sender_account (individual event.event_id r.email) w2
          ]
    ]

unfoldable pub process_recipient :
    Context
    → NotificationEvent
    → EmailOptions
    → Recipient
    → List ResolvedAttachment
    → EffectiveCcBcc
    → M RecipientOutcome
unfolding prepare attempt
process_recipient ctx event opts r attachments cc_bcc w =
    let (prepared, w1) = prepare ctx event opts r cc_bcc w in
    elim prepared [
      | err e ↦ (RecipientOutcome.failed e, w1)
      | ok p ↦ attempt ctx event opts r attachments cc_bcc p w1
    ]
