-- ===== src/Mailer/Smtp.antt =====
-- crates/mailer/src/smtp.rs: the transport for a configuration, the message built by lettre's parts,
-- and the classes of lettre's errors. lettre itself is outside: what it parses, builds and sends is
-- given by `Lettre`.
pub mod Addresses
use anvil_notify.Prelude.{
  ℕ, ◌≡◌, ◌≢◌, refl, ap, ◌⊎◌, inl, inr, Bool, true, false, not, ◌&&◌, ◌||◌, String, str_eq, concat,
  Option, none, some, List, [], ◌∷◌, All, ◌==◌, Bool-cases, Option-cases, arith, if◌then◌else◌,
}
use anvil_notify.Common.Error.{
  AppError, permanent_mailer, transient_mailer, is_permanent_mailer, Result, ok, err, ◌>>=◌,
  Result-cases,
}
use anvil_notify.Consumer.World.{EmailMessage, EmailSender, MailboxRef, ResolvedAttachment}

pub data SmtpTlsMode : Type 0 where
  smtps starttls no_tls : SmtpTlsMode

pub record SmtpConfig : Type 0 where
  pub host : String
  pub port : ℕ
  pub username : String
  pub password : String
  pub from_email : String
  pub from_name : String
  pub tls_mode : Option SmtpTlsMode
  pub connection_timeout : ℕ
  pub read_timeout : ℕ
  pub write_timeout : ℕ
  pub pool_size : ℕ

-- The mode that the port stands for.
abbrev pub tls_mode_of_port : ℕ → SmtpTlsMode
tls_mode_of_port port =
    if port == 465 then smtps else if port == 587 || port == 25 then starttls else no_tls

unfoldable pub effective_tls_mode : SmtpConfig → SmtpTlsMode
effective_tls_mode cfg = elim cfg.tls_mode [ some m ↦ m | none ↦ tls_mode_of_port cfg.port ]

-- The settings of `AsyncSmtpTransport`.
pub record Transport : Type 0 where
  pub mode : SmtpTlsMode
  pub relay_host : String
  pub port : ℕ
  pub timeout : ℕ
  pub pool_size : ℕ
  pub credentials : Option (String × String)

pub record SmtpSender : Type 0 where
  pub transport : Transport
  pub from_email : String
  pub from_name : String

abbrev pub transport_of : SmtpTlsMode → SmtpConfig → Transport
transport_of mode cfg = record {
  mode = mode;
  relay_host = cfg.host;
  port = cfg.port;
  timeout = cfg.connection_timeout;
  pool_size = cfg.pool_size;
  credentials = if str_eq cfg.username "" then none else some (cfg.username, cfg.password);
}

abbrev sender_of : SmtpTlsMode → SmtpConfig → SmtpSender
sender_of mode cfg = record {
  transport = transport_of mode cfg;
  from_email = cfg.from_email;
  from_name = cfg.from_name;
}

-- lettre refuses a host for the two modes with TLS, by an error's text.
unfoldable pub new : (String → Option String) → SmtpConfig → Result SmtpSender
unfolding effective_tls_mode
new refuses cfg = elim (effective_tls_mode cfg) [
  | no_tls ↦ ok (sender_of no_tls cfg)
  | smtps ↦ elim (refuses cfg.host) [
    | some e ↦ err (transient_mailer e)
    | none ↦ ok (sender_of smtps cfg)
  ]
  | starttls ↦ elim (refuses cfg.host) [
    | some e ↦ err (transient_mailer e)
    | none ↦ ok (sender_of starttls cfg)
  ]
]

-- `lettre::transport::smtp::Error`, by its text and its predicates.
pub record SmtpError : Type 0 where
  pub shown : String
  pub is_permanent : Bool
  pub is_transient : Bool
  pub is_timeout : Bool
  pub is_tls : Bool
  pub is_client : Bool

unfoldable pub classify_smtp_error : SmtpError → AppError
classify_smtp_error e =
    if e.is_permanent
    then permanent_mailer (concat ("SMTP " ∷ e.shown ∷ []))
    else if e.is_transient
    then transient_mailer (concat ("SMTP transient: " ∷ e.shown ∷ []))
    else if e.is_timeout || e.is_tls
    then transient_mailer e.shown
    else if e.is_client
    then permanent_mailer (concat ("SMTP client error: " ∷ e.shown ∷ []))
    else transient_mailer e.shown

-- The parts of the message that lettre is given; a mailbox by the text that was parsed.
pub record Envelope : Type 0 where
  pub from : String
  pub to : String
  pub to_extra : List String
  pub cc : List String
  pub bcc : List String
  pub subject : String
  pub body_text : String
  pub body_html : String
  pub attachments : List ResolvedAttachment

-- Each of them an error's text, or none.
pub record Lettre : Type 0 where
  pub bad_mailbox : String → Option String
  pub bad_content_type : String → Option String
  pub bad_message : Envelope → Option String
  pub transport_error : ℕ → Envelope → Option SmtpError

abbrev pub mailbox_text : String → Option String → String
mailbox_text email none = email
mailbox_text email (some n) = if str_eq n "" then email else concat (n ∷ " <" ∷ email ∷ ">" ∷ [])

abbrev pub unwrap_or : Option String → String → String
unwrap_or none d = d
unwrap_or (some s) d = s

-- A check's text becomes an error of the program.
abbrev pub guard : {A : Type 0} → Option String → (String → AppError) → A → Result A
guard none f a = ok a
guard (some e) f a = err (f e)

unfoldable pub format_mailbox :
    Lettre → (String → AppError) → String → Option String → Result String
format_mailbox l f email name =
    guard (l.bad_mailbox (mailbox_text email name)) f (mailbox_text email name)

-- `collect`: all of them, or the first error.
unfoldable pub format_all : Lettre → (String → AppError) → List MailboxRef → Result (List String)
unfolding format_mailbox
format_all l f [] = ok []
format_all l f (r ∷ rs) = do
  x ← format_mailbox l f r.email r.name
  xs ← format_all l f rs
  ok (x ∷ xs)

abbrev pub permanent_with : String → String → AppError
permanent_with what e = permanent_mailer (concat (what ∷ e ∷ []))

unfoldable pub attach_all : Lettre → List ResolvedAttachment → Result (Unit {0})
attach_all l [] = ok tt
attach_all l (a ∷ as') = do
  _ ←
      guard {A = Unit {0}} (l.bad_content_type a.content_type)
        (λ e. permanent_mailer (
          concat (
            "attachment '" ∷ a.filename ∷ "' has invalid content-type '" ∷ a.content_type ∷ "': "
            ∷ e ∷ [])))
        tt
  attach_all l as'

-- Up to `.multipart(body)`.
unfoldable pub build : SmtpSender → Lettre → EmailMessage → Result Envelope
unfolding format_mailbox format_all attach_all
build s l msg = do
  from ←
      format_mailbox l transient_mailer (unwrap_or msg.from_email_override s.from_email)
        (some (unwrap_or msg.from_name_override s.from_name))
  to ← format_mailbox l transient_mailer msg.to_email msg.to_name
  cc ← format_all l (permanent_with "invalid cc address: ") msg.cc
  bcc ← format_all l (permanent_with "invalid bcc address: ") msg.bcc
  _ ← attach_all l msg.attachments
  to_extra ← format_all l (permanent_with "invalid to address: ") msg.to_extra
  let envelope : Envelope = record {
    from = from;
    to = to;
    to_extra = to_extra;
    cc = cc;
    bcc = bcc;
    subject = msg.subject;
    body_text = msg.body_text;
    body_html = msg.body_html;
    attachments = msg.attachments;
  }
  guard (l.bad_message envelope) transient_mailer envelope

abbrev pub reply_of : Option SmtpError → Result (Unit {0})
reply_of none = ok tt
reply_of (some e) = err (classify_smtp_error e)

-- `EmailSender::send`.
unfoldable pub smtp_send : SmtpSender → Lettre → EmailSender
unfolding build classify_smtp_error
smtp_send s l step msg = do envelope ← build s l msg; reply_of (l.transport_error step envelope)

-- An error of lettre's transport is permanent just when lettre calls it permanent, or calls it an
-- error of the client and neither transient nor a timeout nor one of TLS.
pub classify_smtp_permanent :
    (e : SmtpError)
    → is_permanent_mailer (classify_smtp_error e)
      ≡ e.is_permanent || (not e.is_transient && not e.is_timeout && not e.is_tls && e.is_client)
unfolding classify_smtp_error is_permanent_mailer
classify_smtp_permanent e = ground arith
