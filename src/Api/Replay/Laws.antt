-- ===== src/Api/Replay/Laws.antt =====
-- What the envelope of a replay has been checked for: crates/api/src/handlers.rs, `republish_event`.
use anvil_notify.Prelude.{
  ◌≡◌, refl, ap, subst, sym, ◌∙◌, ◌≢◌, inl, inr, true, Bool-cases, ◌++◌, String, none, some, List,
  [], ◌∷◌, arith, All, map, keep, not, contains_text,
}
use anvil_notify.Common.Error.{Result, ok, err, is_ok, bind_ok}
use anvil_notify.Common.Json.{Json, null}
use anvil_notify.Common.Event.{Uuid, Timestamp, EmailOptions, NotificationEvent, Recipient}
use anvil_notify.Common.Attachment.{age_secs}
use anvil_notify.Filter.{RecipientFilter, check}
use anvil_notify.Store.Queries.{NotificationLog, EventDeliveryDetail}
use anvil_notify.Api.Replay.{
  Serde, check_from_override, check_expiry, is_wanted, to_recipient, is_skipped, replay_recipients,
  demand, demand_optional, stored_copies, stored_send_mode, stored_group_retry_mode, check_copies,
  check_payload, attachments_or_empty, replay,
}

OkWith : {A : Type 0} → (A → Type 0) → Result A → Type 0
OkWith P (ok a) = P a
OkWith P (err e) = Unit {0}

-- An envelope for these recipients at most, whose copies the filter passes, and which is due at once.
pub record IsReplay (to_lowercase : String → String) (filter : RecipientFilter) (event_id : Uuid)
    (emails : List String) (event : NotificationEvent) : Type 0 where
  pub options : EmailOptions
  pub same_event : event.event_id ≡ event_id
  pub has_options : event.channel_overrides.email ≡ some options
  pub wanted : All (λ r. contains_text r.email emails ≡ true) options.recipients
  pub passed :
      All (λ r. is_ok (check to_lowercase filter r.email) ≡ true) (options.cc ++ options.bcc)
  pub has_payload : event.payload ≢ null
  pub due : options.send_at ≡ none

module _ (serde : Serde) (to_lowercase : String → String) (filter : RecipientFilter) where
  check_copies_ok :
      (rs : List Recipient)
      → check_copies to_lowercase filter rs ≡ ok tt
      → All (λ r. is_ok (check to_lowercase filter r.email) ≡ true) rs
  unfolding check_copies check
  check_copies_ok [] h = tt
  check_copies_ok (r ∷ rs) h = (ground (arith, h), check_copies_ok rs (ground (arith, h)))

  kept_wanted :
      (emails : List String) (logs : List NotificationLog)
      → All
          (λ r. contains_text r.email emails ≡ true)
          (map to_recipient (keep (is_wanted (some emails)) logs))
  kept_wanted emails [] = tt
  kept_wanted emails (l ∷ ls) = elim (Bool-cases (contains_text l.recipient_email emails)) [
    | inl y ↦ rw y (y, kept_wanted emails ls)
    | inr n ↦ rw n (kept_wanted emails ls)
  ]

  replay_recipients_ok :
      (event_id : Uuid) (emails : List String) (logs : List NotificationLog) (rs : List Recipient)
      → replay_recipients event_id (some emails) logs ≡ ok rs
      → All (λ r. contains_text r.email emails ≡ true) rs
  unfolding replay_recipients
  replay_recipients_ok event_id emails logs rs h =
      let k = kept_wanted emails (keep (λ l. not (is_skipped l.status)) logs) in
      ground (arith, h, k)

  check_payload_ok : (v : Json) → check_payload v ≡ ok tt → v ≢ null
  unfolding check_payload
  check_payload_ok v h e = absurd (cc (sym (ap check_payload e) ∙ h))

  pub replay_ok :
      (now : Timestamp) (event_id : Uuid) (emails : List String) (logs : List NotificationLog)
      (d : EventDeliveryDetail) (event : NotificationEvent)
      → replay serde to_lowercase filter now event_id (some emails) logs d ≡ ok event
      → IsReplay to_lowercase filter event_id emails event
  unfolding replay OkWith
  replay_ok now event_id emails logs d event h =
      let attachments = attachments_or_empty d.attachments in
      let (_, _, h1) = bind_ok (check_from_override d.from_override) _ event h in
      let (_, _, h2) =
        bind_ok (check_expiry (age_secs d.event_timestamp now) attachments) _ event h1 in
      let (rs, wanted, h3) = bind_ok (replay_recipients event_id (some emails) logs) _ event h2 in
      let (_, _, h4) =
        bind_ok (demand_optional "from_override" serde.from_override d.from_override) _ event h3 in
      let (_, _, h5) =
        bind_ok (demand "attachments JSON" (serde.attachments attachments)) _ event h4 in
      let (cs, _, h6) = bind_ok (stored_copies "cc JSON" serde d.cc) _ event h5 in
      let (bs, _, h7) = bind_ok (stored_copies "bcc JSON" serde d.bcc) _ event h6 in
      let (_, _, h8) = bind_ok (stored_send_mode d.send_mode) _ event h7 in
      let (_, _, h9) = bind_ok (stored_group_retry_mode d.group_retry_mode) _ event h8 in
      let (_, passed, h10) = bind_ok (check_copies to_lowercase filter (cs ++ bs)) _ event h9 in
      let (_, payload, h11) = bind_ok (check_payload d.payload) _ event h10 in
      subst (OkWith (IsReplay to_lowercase filter event_id emails)) h11 (record {
        options = _;
        same_event = refl;
        has_options = refl;
        wanted = replay_recipients_ok event_id emails logs rs wanted;
        passed = check_copies_ok (cs ++ bs) passed;
        has_payload = check_payload_ok d.payload payload;
        due = refl;
      })
