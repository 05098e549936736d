-- ===== src/Mailer/Webhook.antt =====
-- crates/mailer/src/webhook.rs: the sender that posts a message to a URL, and what it makes of the
-- answer.
use anvil_notify.Prelude.{
  ℕ, ◌≡◌, Bool, true, false, not, ◌&&◌, String, concat, show, Option, List, [], ◌∷◌, length, take,
  ltb, leb, ◌==◌, arith, if◌then◌else◌,
}
use anvil_notify.Common.Error.{
  AppError, permanent_mailer, transient_mailer, rate_limited, is_permanent_mailer, Result, ok, err,
  is_ok,
}
use anvil_notify.Common.Json.{Json, text, object, end, field}
use anvil_notify.Consumer.World.{EmailMessage, EmailSender, MailboxRef, ResolvedAttachment}
use anvil_notify.Consumer.Message.{json_array, optional_text}
use anvil_notify.Mailer.Fetcher.{is_client_error}

pub record WebhookSender : Type 0 where
  pub url : String
  pub auth_token : Option String

pub record Post : Type 0 where
  pub url : String
  pub bearer : Option String
  pub json : Json

-- A status with its text and the bytes of its body, none where they cannot be read; or no answer.
pub data Answer : Type 0 where
  no_answer : String → Answer
  answered : ℕ → String → List ℕ → Answer

-- `reqwest`, base64, and the lossy reading of UTF-8.
pub record Web : Type 0 where
  pub post : ℕ → Post → Answer
  pub encode : List ℕ → String
  pub from_utf8_lossy : List ℕ → String

abbrev pub json_mailbox : MailboxRef → Json
json_mailbox r = object (field "email" (text r.email) (field "name" (optional_text r.name) end))

abbrev pub json_resolved : Web → ResolvedAttachment → Json
json_resolved web a = object (
    field "filename" (text a.filename)
      (field "content_type" (text a.content_type) (field "data" (text (web.encode a.bytes)) end)))

unfoldable pub webhook_body : Web → EmailMessage → Json
webhook_body web msg = object (
    field "event_id" (text msg.event_id) (
      field "to_email" (text msg.to_email) (
        field "to_name" (optional_text msg.to_name) (
          field "to_extra" (json_array json_mailbox msg.to_extra) (
            field "subject" (text msg.subject) (
              field "body_html" (text msg.body_html) (
                field "body_text" (text msg.body_text) (
                  field "from_email_override" (optional_text msg.from_email_override) (
                    field "from_name_override" (optional_text msg.from_name_override) (
                      field "attachments" (json_array (json_resolved web) msg.attachments) (
                        field "cc" (json_array json_mailbox msg.cc)
                          (field "bcc" (json_array json_mailbox msg.bcc) end))))))))))))

abbrev pub is_success : ℕ → Bool
is_success status = leb 200 status && ltb status 300

-- The first 512 bytes of the answer, and how many there are in all.
unfoldable pub truncated : Web → List ℕ → String
truncated web raw =
    let shown = web.from_utf8_lossy (if leb 512 (length raw) then take 512 raw else raw) in
    if ltb 512 (length raw)
    then concat (shown ∷ "… (" ∷ show (length raw) ∷ " bytes total)" ∷ [])
    else shown

unfoldable pub classify_answer : Web → Answer → Result (Unit {0})
unfolding truncated
classify_answer web (no_answer e) = err (transient_mailer e)
classify_answer web (answered status status_text raw) =
    if is_success status
    then ok tt
    else if status == 429
    then err (rate_limited (concat ("webhook HTTP 429: " ∷ truncated web raw ∷ [])))
    else if is_client_error status
    then err
        (permanent_mailer (concat ("webhook HTTP " ∷ status_text ∷ ": " ∷ truncated web raw ∷ [])))
    else err
        (transient_mailer (concat ("webhook HTTP " ∷ status_text ∷ ": " ∷ truncated web raw ∷ [])))

-- `EmailSender::send`.
unfoldable pub webhook_send : WebhookSender → Web → EmailSender
unfolding classify_answer webhook_body
webhook_send s web step msg =
    classify_answer web
      (web.post step (record { url = s.url; bearer = s.auth_token; json = webhook_body web msg }))

abbrev pub error_is : (AppError → Bool) → Result (Unit {0}) → Bool
error_is p (ok u) = false
error_is p (err e) = p e

abbrev pub is_rate_limited : AppError → Bool
is_rate_limited (rate_limited m) = true
is_rate_limited _ = false

-- How a send through the webhook fares by the status of the answer: it succeeds on 200 to 299, is
-- rate limited on 429, and fails for good on the other statuses from 400 to 499.
pub webhook_by_status :
    (s : WebhookSender) (web : Web) (step status : ℕ) (status_text : String) (raw : List ℕ)
    (msg : EmailMessage)
    → web.post step (record { url = s.url; bearer = s.auth_token; json = webhook_body web msg })
      ≡ answered status status_text raw
    → let result = webhook_send s web step msg in
      (is_ok result ≡ leb 200 status && ltb status 300)
      × (error_is is_rate_limited result ≡ status == 429)
      × (error_is is_permanent_mailer result
          ≡ leb 400 status && ltb status 500 && not (status == 429))
unfolding webhook_send classify_answer is_permanent_mailer
webhook_by_status s web step status status_text raw msg e =
    rw e (ground arith, ground arith, ground arith)
