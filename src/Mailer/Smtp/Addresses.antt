-- ===== src/Mailer/Smtp/Addresses.antt =====
-- Who a message that SMTP accepts is addressed to.
use anvil_notify.Prelude.{ℕ, ◌≡◌, refl, ap, ◌∙◌, String, Option, none, some, List, [], ◌∷◌, map}
use anvil_notify.Common.Error.{bind_ok, AppError, transient_mailer, ok}
use anvil_notify.Consumer.World.{EmailMessage, MailboxRef}
use anvil_notify.Mailer.Smtp.{
  SmtpSender, SmtpError, Lettre, Envelope, mailbox_text, unwrap_or, guard, format_mailbox,
  format_all, permanent_with, attach_all, build, reply_of, smtp_send,
}

guard_ok :
    {A : Type 0} (o : Option String) (f : String → AppError) (a b : A)
    → guard o f a ≡ ok b
    → (o ≡ none) × (b ≡ a)
guard_ok none f a b e = (refl, cc e)
guard_ok (some x) f a b e = absurd (cc e)

abbrev pub formatted : List MailboxRef → List String
formatted = map (λ r. mailbox_text r.email r.name)

format_all_ok :
    (l : Lettre) (f : String → AppError) (rs : List MailboxRef) (xs : List String)
    → format_all l f rs ≡ ok xs
    → xs ≡ formatted rs
unfolding format_all format_mailbox
format_all_ok l f [] xs e = cc e
format_all_ok l f (r ∷ rs) xs e =
    let (y, p, q) = bind_ok (format_mailbox l f r.email r.name) _ xs e in
    let (ys, p', q') = bind_ok (format_all l f rs) _ xs q in
    let (none_bad, same) =
      guard_ok (l.bad_mailbox (mailbox_text r.email r.name)) f (mailbox_text r.email r.name) y p in
    let rest = format_all_ok l f rs ys p' in cc (q', same, rest)

module _ (s : SmtpSender) (l : Lettre) (msg : EmailMessage) where
  -- The addresses that the headers of an envelope must have.
  abbrev pub AddressedTo : Envelope → Type 0
  AddressedTo e =
      (e.to ≡ mailbox_text msg.to_email msg.to_name)
      × (e.to_extra ≡ formatted msg.to_extra)
      × (e.cc ≡ formatted msg.cc)
      × (e.bcc ≡ formatted msg.bcc)

  build_addressed : (e : Envelope) → build s l msg ≡ ok e → AddressedTo e
  unfolding build format_mailbox
  build_addressed e h =
      let bad = permanent_with in
      let (from, p1, h1) =
        bind_ok
          (format_mailbox l transient_mailer (unwrap_or msg.from_email_override s.from_email)
            (some (unwrap_or msg.from_name_override s.from_name)))
          _ e h in
      let (to, p2, h2) =
        bind_ok (format_mailbox l transient_mailer msg.to_email msg.to_name) _ e h1 in
      let (cc', p3, h3) = bind_ok (format_all l (bad "invalid cc address: ") msg.cc) _ e h2 in
      let (bcc', p4, h4) = bind_ok (format_all l (bad "invalid bcc address: ") msg.bcc) _ e h3 in
      let (u, p5, h5) = bind_ok (attach_all l msg.attachments) _ e h4 in
      let (extra, p6, h6) =
        bind_ok (format_all l (bad "invalid to address: ") msg.to_extra) _ e h5 in
      let same = (guard_ok (l.bad_message _) transient_mailer _ e h6).1 in
      let to_same =
        (guard_ok (l.bad_mailbox (mailbox_text msg.to_email msg.to_name)) transient_mailer _ to
          p2).1 in
      (
        ap (λ (x : Envelope). x.to) same ∙ to_same,
        ap (λ (x : Envelope). x.to_extra) same
            ∙ format_all_ok l (permanent_with "invalid to address: ") msg.to_extra extra p6,
        ap (λ (x : Envelope). x.cc) same
            ∙ format_all_ok l (permanent_with "invalid cc address: ") msg.cc cc' p3,
        ap (λ (x : Envelope). x.bcc) same
            ∙ format_all_ok l (permanent_with "invalid bcc address: ") msg.bcc bcc' p4,
      )

  -- A message that is sent by SMTP was sent in an envelope whose To, CC and BCC headers name the
  -- recipients of the message, all of them and in their order.
  pub smtp_addressed :
      (step : ℕ)
      → smtp_send s l step msg ≡ ok tt
      → (e : Envelope) × (l.transport_error step e ≡ none) × AddressedTo e
  unfolding smtp_send
  smtp_addressed step h =
      let (e, p, q) = bind_ok (build s l msg) _ tt h in
      (e, accepted (l.transport_error step e) q, build_addressed e p)
    where
      accepted : (o : Option SmtpError) → reply_of o ≡ ok tt → o ≡ none
      accepted none k = refl
      accepted (some x) k = absurd (cc k)
