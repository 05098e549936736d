-- ===== src/Consumer/Message.antt =====
-- crates/consumer/src/processor.rs, the pure helpers: rendering, the stored fields, the message.
use anvil_notify.Prelude.{
  ℕ, String, Option, none, some, List, [], ◌∷◌, map, is_empty, if◌then◌else◌,
}
use anvil_notify.Common.Error.{Result, ok, err, ◌>>=◌}
use anvil_notify.Common.Json.{
  Json, null, text, num_u64, array, object, nil, cons, Items, end, field,
}
use anvil_notify.Common.Event.{
  FromOverride, Recipient, AttachmentRef, EmailOptions, NotificationEvent,
}
use anvil_notify.Consumer.World.{Context, MailboxRef, ResolvedAttachment, EmailMessage}

pub record EffectiveCcBcc : Type 0 where
  pub cc : List Recipient
  pub bcc : List Recipient

pub record RenderedTemplates : Type 0 where
  pub subject : String
  pub body_html : String
  pub body_text : String

-- The first error of the three, in the order subject, HTML, text.
unfoldable pub first_error :
    Result String → Result String → Result String → Result RenderedTemplates
first_error (ok s) (ok h) (ok t) = ok (record { subject = s; body_html = h; body_text = t })
first_error (err e) h t = err e
first_error (ok s) (err e) t = err e
first_error (ok s) (ok h) (err e) = err e

unfoldable pub render_all_templates :
    Context → String → String → String → Json → Result RenderedTemplates
unfolding first_error
render_all_templates ctx subject_tpl html_tpl text_tpl payload =
    first_error (ctx.render_template subject_tpl payload)
      (ctx.render_html_template html_tpl payload) (ctx.render_template text_tpl payload)

unfoldable pub resolve_from_override : Option FromOverride → Option String × Option String
resolve_from_override none = (none, none)
resolve_from_override (some o) = (some o.email, o.name)

-- The derived `Serialize` instances, which never fail on these types.
abbrev pub optional_text : Option String → Json
optional_text none = null
optional_text (some s) = text s

abbrev pub optional_number : Option ℕ → Json
optional_number none = null
optional_number (some n) = num_u64 n

abbrev pub json_from_override : FromOverride → Json
json_from_override o =
    object (field "email" (text o.email) (field "name" (optional_text o.name) end))

abbrev pub json_recipient : Recipient → Json
json_recipient r = object (field "email" (text r.email) (field "name" (optional_text r.name) end))

abbrev pub json_attachment : AttachmentRef → Json
json_attachment a = object (
    field "url" (text a.url) (
      field "filename" (text a.filename) (
        field "content_type" (text a.content_type) (
          field "fetch_token" (optional_text a.fetch_token)
            (field "max_age_secs" (optional_number a.max_age_secs) end)))))

abbrev pub json_items : {A : Type 0} → (A → Json) → List A → Items
json_items f [] = nil
json_items f (x ∷ xs) = cons (f x) (json_items f xs)

abbrev pub json_array : {A : Type 0} → (A → Json) → List A → Json
json_array f xs = array (json_items f xs)

unfoldable pub serialize_recipient_list : List Recipient → Result (Option Json)
serialize_recipient_list list =
    if is_empty list then ok none else ok (some (json_array json_recipient list))

pub record SerializedEmailFields : Type 0 where
  pub from_override : Option Json
  pub attachments : Option Json
  pub cc : Option Json
  pub bcc : Option Json

abbrev optional_map : {A B : Type 0} → (A → B) → Option A → Option B
optional_map f none = none
optional_map f (some a) = some (f a)

unfoldable pub serialize_email_fields :
    EmailOptions → List Recipient → List Recipient → Result SerializedEmailFields
unfolding serialize_recipient_list
serialize_email_fields opts effective_cc effective_bcc = do
  cc ← serialize_recipient_list effective_cc
  bcc ← serialize_recipient_list effective_bcc
  ok (record {
    from_override = optional_map json_from_override opts.from_override;
    attachments =
        if is_empty opts.attachments
        then none
        else some (json_array json_attachment opts.attachments);
    cc = cc;
    bcc = bcc;
  })

abbrev pub mailbox : Recipient → MailboxRef
mailbox r = record { email = r.email; name = r.name }

unfoldable pub build_email_message :
    NotificationEvent
    → Recipient
    → List MailboxRef
    → RenderedTemplates
    → Option String × Option String
    → List ResolvedAttachment
    → List Recipient
    → List Recipient
    → EmailMessage
build_email_message event primary extra rendered from attachments effective_cc effective_bcc =
    record {
      event_id = event.event_id;
      to_email = primary.email;
      to_name = primary.name;
      to_extra = extra;
      subject = rendered.subject;
      body_html = rendered.body_html;
      body_text = rendered.body_text;
      from_email_override = from.0;
      from_name_override = from.1;
      attachments = attachments;
      cc = map mailbox effective_cc;
      bcc = map mailbox effective_bcc;
    }
