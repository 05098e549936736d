-- ===== src/Api/Retry/Published.antt =====
-- What a retry that is accepted has published: crates/api/src/handlers.rs.
use anvil_notify.Prelude.{
  ℕ, ◌≡◌, refl, sym, ◌∙◌, inl, inr, ap, subst, true, Bool-cases, String, Option, some, List, [],
  ◌∷◌, arith,
}
use anvil_notify.Common.Error.{Result, ok, err}
use anvil_notify.Common.Event.{Uuid, NotificationEvent}
use anvil_notify.Common.Email.{is_valid_email}
use anvil_notify.Api.Publisher.{Publisher}
use anvil_notify.Api.Publisher.Confirmed.{Confirmed, publish_ok}
use anvil_notify.Api.Replay.{Decoded, decoded, malformed, replay}
use anvil_notify.Api.Replay.Laws.{IsReplay, replay_ok}
use anvil_notify.Api.Retry.{
  ApiState, Site, M, store, load_logs, load_detail, load_all, reset_row, reset_failed, ◌then_do◌,
  send_body, send_replay, republish_event, or_revert, republish_or_revert, retry_recipient,
  answer_reset, retry_event,
}

-- One more message was given to the broker, which answered for it: a replay, serialised.
pub record Published (state : ApiState) (event_id : Uuid) (emails : List String) (p p' : Publisher)
    : Type 0 where
  pub event : NotificationEvent
  pub is_replay : IsReplay state.to_lowercase state.filter event_id emails event
  pub body : List ℕ
  pub serialised : state.serde.to_vec event ≡ decoded body
  pub confirmed : Confirmed body p p'

-- A chain that succeeds has a first call that does.
then_do_ok :
    {A B : Type 0} (x : Result A × Site) (f : A → M B) (b : B)
    → (x then_do f).0 ≡ ok b
    → (a : A) × (x.0 ≡ ok a) × ((f a x.1).0 ≡ ok b) × ((x then_do f).1 ≡ (f a x.1).1)
then_do_ok (ok a, s) f b h = (a, refl, h, refl)
then_do_ok (err e, s) f b h = absurd (cc h)

module _ (state : ApiState) where
  -- A call of the database leaves the publisher alone.
  load_logs-publisher :
      (event_id : Uuid) (only_emails : Option (List String)) (s : Site)
      → (load_logs state event_id only_emails s).1.publisher ≡ s.publisher
  unfolding store
  load_logs-publisher event_id only_emails s = ground arith

  load_detail-publisher :
      (event_id : Uuid) (s : Site) → (load_detail state event_id s).1.publisher ≡ s.publisher
  unfolding store
  load_detail-publisher event_id s = ground arith

  reset_row-publisher :
      (event_id : Uuid) (email : String) (s : Site)
      → (reset_row state event_id email s).1.publisher ≡ s.publisher
  unfolding store
  reset_row-publisher event_id email s = ground arith

  reset_failed-publisher :
      (event_id : Uuid) (s : Site) → (reset_failed state event_id s).1.publisher ≡ s.publisher
  unfolding store
  reset_failed-publisher event_id s = ground arith

  module _ (event_id : Uuid) (emails : List String) where
    or_revert_ok :
        (x : Result (Unit {0}) × Site)
        → (or_revert state event_id emails x).0 ≡ ok tt
        → (x.0 ≡ ok tt) × ((or_revert state event_id emails x).1 ≡ x.1)
    unfolding or_revert
    or_revert_ok (ok _, s) h = (refl, refl)
    or_revert_ok (err e, s) h = absurd (cc h)

    cast :
        {p q p' q' : Publisher}
        → p ≡ q
        → p' ≡ q'
        → Published state event_id emails p p'
        → Published state event_id emails q q'
    cast {p = p} {q' = q'} e e' x =
        subst (λ y. Published state event_id emails y q') e
          (subst (λ y. Published state event_id emails p y) e' x)

    send_body_ok :
        (x : Decoded (List ℕ)) (s : Site)
        → (send_body state x s).0 ≡ ok tt
        → (body : List ℕ) × (x ≡ decoded body)
          × Confirmed body s.publisher (send_body state x s).1.publisher
    unfolding send_body
    send_body_ok (malformed e) s h = absurd (cc h)
    send_body_ok (decoded body) s h = (body, refl, publish_ok state.lapin body s.publisher h)

    send_replay_ok :
        (r : Result NotificationEvent) (s : Site)
        → ((event : NotificationEvent)
            → r ≡ ok event
            → IsReplay state.to_lowercase state.filter event_id emails event)
        → (send_replay state r s).0 ≡ ok tt
        → Published state event_id emails s.publisher (send_replay state r s).1.publisher
    unfolding send_replay
    send_replay_ok (err e) s k h = absurd (cc h)
    send_replay_ok (ok event) s k h =
        let (body, q, c) = send_body_ok (state.serde.to_vec event) s h in
        record {
          event = event;
          is_replay = k event refl;
          body = body;
          serialised = q;
          confirmed = c;
        }

    republish_event_ok :
        (s : Site)
        → (republish_event state event_id (some emails) s).0 ≡ ok tt
        → Published state event_id emails s.publisher
            (republish_event state event_id (some emails) s).1.publisher
    unfolding republish_event
    republish_event_ok s h =
        let s1 = (load_logs state event_id (some emails) s).1 in
        let (logs, q1, h1, e1) = then_do_ok (load_logs state event_id (some emails) s) _ tt h in
        let s2 = (load_detail state event_id s1).1 in
        let (d, q2, h2, e2) = then_do_ok (load_detail state event_id s1) _ tt h1 in
        let sent =
          send_replay_ok
            (replay state.serde state.to_lowercase state.filter (state.now s2.step) event_id
              (some emails) logs d)
            s2
            (replay_ok state.serde state.to_lowercase state.filter (state.now s2.step) event_id
              emails logs d)
            h2 in
        cast (load_detail-publisher event_id s1 ∙ load_logs-publisher event_id (some emails) s)
          (ap (λ x. x.publisher) (sym (e1 ∙ e2))) sent

    republish_or_revert_ok :
        (s : Site)
        → (republish_or_revert state event_id emails s).0 ≡ ok tt
        → Published state event_id emails s.publisher
            (republish_or_revert state event_id emails s).1.publisher
    unfolding republish_or_revert
    republish_or_revert_ok s h =
        let (q, e) = or_revert_ok (republish_event state event_id (some emails) s) h in
        cast refl (ap (λ x. x.publisher) (sym e)) (republish_event_ok s q)

  answer_reset_ok :
      (event_id : Uuid) (es emails : List String) (s : Site)
      → (answer_reset state event_id es s).0 ≡ ok emails
      → (es ≡ emails)
        × Published state event_id es s.publisher (answer_reset state event_id es s).1.publisher
  unfolding answer_reset
  answer_reset_ok event_id [] emails s h =
      let (_, _, h1, _) = then_do_ok (load_all state event_id s) _ emails h in absurd (cc h1)
  answer_reset_ok event_id (e ∷ es) emails s h =
      let (_, q, h1, e1) = then_do_ok (republish_or_revert state event_id (e ∷ es) s) _ emails h in
      (
        cc h1,
        cast event_id (e ∷ es) refl (ap (λ x. x.publisher) (sym e1))
            (republish_or_revert_ok event_id (e ∷ es) s q),
      )

  -- A retry of an event that is accepted has given the broker one message, for which the broker
  -- answered: the serialised envelope of that event, addressed to none but the recipients in the
  -- answer, with copies that the configured filter passes, a payload, and no delivery time.
  pub retry_event-Published :
      (event_id : Uuid) (emails : List String) (s : Site)
      → (retry_event state event_id s).0 ≡ ok emails
      → Published state event_id emails s.publisher (retry_event state event_id s).1.publisher
  unfolding retry_event
  retry_event-Published event_id emails s h =
      let s1 = (reset_failed state event_id s).1 in
      let (es, _, h1, e1) = then_do_ok (reset_failed state event_id s) _ emails h in
      let (same, sent) = answer_reset_ok event_id es emails s1 h1 in
      cast event_id emails (reset_failed-publisher event_id s) (ap (λ x. x.publisher) (sym e1)) (
        subst
          (λ l.
            Published state event_id l s1.publisher (answer_reset state event_id es s1).1.publisher)
          same sent)

  when_valid :
      (event_id : Uuid) (email : String) (s : Site)
      → is_valid_email email ≡ true
      → retry_recipient state event_id email s ≡ (
          reset_row state event_id email s then_do λ _ x.
          republish_or_revert state event_id (email ∷ []) x)
  unfolding retry_recipient
  when_valid event_id email s y = rw y refl

  -- A retry of one recipient that is accepted has given the broker one message in the same way,
  -- addressed to none but that recipient.
  pub retry_recipient-Published :
      (event_id : Uuid) (email : String) (s : Site)
      → (retry_recipient state event_id email s).0 ≡ ok tt
      → Published state event_id
          (email ∷ [])
          s.publisher
          (retry_recipient state event_id email s).1.publisher
  unfolding retry_recipient
  retry_recipient-Published event_id email s h = elim (Bool-cases (is_valid_email email)) [
    | inr n ↦ absurd (ground (arith, n, h))
    | inl y ↦
        let s1 = (reset_row state event_id email s).1 in
        let (_, _, h1, e1) =
          then_do_ok (reset_row state event_id email s)
            (λ _ x. republish_or_revert state event_id (email ∷ []) x) tt
            (sym (ap (λ x. x.0) (when_valid event_id email s y)) ∙ h) in
        cast event_id (email ∷ []) (reset_row-publisher event_id email s)
          (ap (λ x. x.publisher) (sym (ap (λ x. x.1) (when_valid event_id email s y) ∙ e1)))
          (republish_or_revert_ok event_id (email ∷ []) s1 h1)
  ]
