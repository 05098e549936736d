-- ===== src/Tests/Mail.antt =====
-- Fetching an attachment, and the two senders.
use anvil_notify.Prelude.{
  ℕ, ◌+◌, ◌*◌, ◌≡◌, ◌≢◌, ◌≤◌, refl, true, false, none, some, [], ◌∷◌, length, all,
}
use anvil_notify.Common.Error.{is_permanent_mailer, permanent_mailer, ok, err, is_ok}
use anvil_notify.Common.Event.{AttachmentRef}
use anvil_notify.Common.Amqp.{contains}
use anvil_notify.Common.Attachment.{validate, expiry}
use anvil_notify.Consumer.World.{EmailMessage}
use anvil_notify.Mailer.Fetcher.{
  Client, Net, body, HttpReply, response, read_body, classify, fetch_one, wait_before,
  before_request, attempts, fetch_one_with_retry, validate_all, fetch_all, failures, representative,
  collect, fetch_attachments_with_limit,
}
use anvil_notify.Mailer.Fetcher.Laws.{ResolvesAll, fetch_resolves, fetch_permanent}
use anvil_notify.Mailer.Fetcher.Requests.{fetch_requests, invalid_asks_nothing}
use anvil_notify.Mailer.Webhook.{
  WebhookSender, Web, answered, webhook_send, error_is, is_rate_limited, webhook_by_status,
}
use anvil_notify.Mailer.Smtp.{
  SmtpError, SmtpSender, Lettre, Envelope, no_tls, classify_smtp_error, format_mailbox, format_all,
  attach_all, build, smtp_send, classify_smtp_permanent,
}
use anvil_notify.Mailer.Smtp.Addresses.{AddressedTo, smtp_addressed}

abbrev report : AttachmentRef
report = record {
  url = "https://files.example/report.pdf";
  filename = "report.pdf";
  content_type = "application/pdf";
  fetch_token = none;
  max_age_secs = none;
}

abbrev replies : HttpReply → Client
replies reply = record { send = λ n req. reply; now = λ n. 100; cancelled = λ n. false }

abbrev net : Net
net = record { step = 0; requests = []; slept = [] }

abbrev gives : Client
gives = replies (response 200 "200 OK" (body (1 ∷ 2 ∷ [])))

abbrev gone : Client
gone = replies (response 404 "404 Not Found" (body []))

fetched :
    (fetch_attachments_with_limit gives (report ∷ []) 5 10 net).0
    ≡ ok (
        record { filename = "report.pdf"; content_type = "application/pdf"; bytes = 1 ∷ 2 ∷ [] }
        ∷ [])
unfolding fetch_attachments_with_limit validate_all validate contains expiry fetch_all
    fetch_one_with_retry attempts before_request wait_before fetch_one classify read_body collect
fetched = refl

fetch_resolves_example :
    ResolvesAll 10 (report ∷ []) (
      record { filename = "report.pdf"; content_type = "application/pdf"; bytes = 1 ∷ 2 ∷ [] } ∷ [])
fetch_resolves_example =
    fetch_resolves gives (report ∷ []) 5 10 net
      (record { filename = "report.pdf"; content_type = "application/pdf"; bytes = 1 ∷ 2 ∷ [] }
        ∷ [])
      fetched

valid_report : (validate_all gone 5 (report ∷ []) net).0 ≡ none
unfolding validate_all validate contains expiry
valid_report = refl

not_fetched :
    (fetch_attachments_with_limit gone (report ∷ []) 5 10 net).0
    ≡ err (
        permanent_mailer
          "attachment 'report.pdf' fetch returned HTTP 404 Not Found (https://files.example/report.pdf)")
unfolding fetch_attachments_with_limit validate_all validate contains expiry fetch_all
    fetch_one_with_retry attempts before_request wait_before fetch_one classify collect
    representative is_permanent_mailer
not_fetched = refl

fetch_permanent_example :
    is_permanent_mailer (
      permanent_mailer
        "attachment 'report.pdf' fetch returned HTTP 404 Not Found (https://files.example/report.pdf)")
    ≡ all is_permanent_mailer
        (failures (fetch_all gone 10 (report ∷ []) (validate_all gone 5 (report ∷ []) net).1).0)
fetch_permanent_example =
    fetch_permanent gone (report ∷ []) 5 10 net valid_report
      (permanent_mailer
        "attachment 'report.pdf' fetch returned HTTP 404 Not Found (https://files.example/report.pdf)")
      not_fetched

fetch_requests_example :
    length (fetch_attachments_with_limit gone (report ∷ []) 5 10 net).1.requests ≤ 0 + 4 * 1
fetch_requests_example = fetch_requests gone 10 (report ∷ []) 5 net

abbrev nowhere : AttachmentRef
nowhere = record report { url = "" }

never_valid : (t : ℕ) → validate nowhere 5 t ≢ none
unfolding validate
never_valid t q = cc q

invalid_asks_nothing_example :
    let (result, s') = fetch_attachments_with_limit gives (report ∷ nowhere ∷ []) 5 10 net in
    (is_ok result ≢ true) × (s'.requests ≡ [])
invalid_asks_nothing_example =
    invalid_asks_nothing gives 10 5 nowhere never_valid (report ∷ []) [] net

abbrev mail : EmailMessage
mail = record {
  event_id = "e1";
  to_email = "bob@mail.example";
  to_name = some "Bob";
  to_extra = [];
  subject = "Paid";
  body_html = "<p>Paid</p>";
  body_text = "Paid";
  from_email_override = none;
  from_name_override = none;
  attachments = [];
  cc = record { email = "ann@other.example"; name = none } ∷ [];
  bcc = [];
}

abbrev hook : WebhookSender
hook = record { url = "https://hook.example"; auth_token = none }

abbrev busy : Web
busy = record {
  post = λ n p. answered 429 "429 Too Many Requests" [];
  encode = λ bytes. "";
  from_utf8_lossy = λ bytes. "";
}

webhook_by_status_example :
    let result = webhook_send hook busy 3 mail in
    (is_ok result ≡ false)
    × (error_is is_rate_limited result ≡ true)
    × (error_is is_permanent_mailer result ≡ false)
webhook_by_status_example = webhook_by_status hook busy 3 429 "429 Too Many Requests" [] mail refl

abbrev auth_failed : SmtpError
auth_failed = record {
  shown = "535";
  is_permanent = true;
  is_transient = false;
  is_timeout = false;
  is_tls = false;
  is_client = false;
}

classify_smtp_permanent_example : is_permanent_mailer (classify_smtp_error auth_failed) ≡ true
classify_smtp_permanent_example = classify_smtp_permanent auth_failed

abbrev sender : SmtpSender
sender = record {
  transport = record {
    mode = no_tls;
    relay_host = "localhost";
    port = 1025;
    timeout = 5000;
    pool_size = 5;
    credentials = none;
  };
  from_email = "no-reply@example.com";
  from_name = "App";
}

abbrev lettre : Lettre
lettre = record {
  bad_mailbox = λ s. none;
  bad_content_type = λ s. none;
  bad_message = λ e. none;
  transport_error = λ n e. none;
}

sent_by_smtp : smtp_send sender lettre 3 mail ≡ ok tt
unfolding smtp_send build format_mailbox format_all attach_all
sent_by_smtp = refl

smtp_addressed_example :
    (e : Envelope) × (lettre.transport_error 3 e ≡ none) × AddressedTo sender lettre mail e
smtp_addressed_example = smtp_addressed sender lettre mail 3 sent_by_smtp
