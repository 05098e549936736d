-- ===== src/Consumer/Idempotency.antt =====
-- A recipient whose row exists is sent nothing; a fresh one at most one message.
use anvil_notify.Prelude.{
  ◌≡◌, refl, ap, ◌∙◌, ◌⊎◌, inl, inr, Bool, List, [], ◌∷◌, Bool-cases, Option-cases,
}
use anvil_notify.Common.Error.{Result-cases}
use anvil_notify.Common.Email.{is_valid_email}
use anvil_notify.Common.Event.{Recipient, EmailOptions, NotificationEvent}
use anvil_notify.Store.Log.{InsertArgs}
use anvil_notify.Store.Keys.{HasRow}
use anvil_notify.Consumer.World.{Context, World, EmailMessage, ResolvedAttachment}
use anvil_notify.Consumer.Message.{EffectiveCcBcc, build_email_message}
use anvil_notify.Consumer.Send.{SendTargets, individual}
use anvil_notify.Consumer.Recipient.{
  Prepared, prepare, individual_args, claim, screen, attempt, process_recipient,
}
use anvil_notify.Consumer.Effects.{
  handed-claim, claim_existing, claim_new, handed-screen, screen-HasRow, handed-execute_send,
  execute_send-HasRow,
}

module _ (ctx : Context) (event : NotificationEvent) (opts : EmailOptions) (r : Recipient)
    (atts : List ResolvedAttachment) (cb : EffectiveCcBcc) where
  abbrev pub RowThere : World → Type 0
  RowThere w = HasRow event.event_id r.email w.table

  -- Nothing was handed over between two worlds.
  abbrev pub Silent : World → World → Type 0
  Silent w w' = w'.handed ≡ w.handed

  -- One message was, to this recipient alone in its To header.
  abbrev pub HandedOne : World → World → Type 0
  HandedOne w w' =
      (msg : EmailMessage) × (accepted : Bool) × (w'.handed ≡ (msg, accepted) ∷ w.handed)
      × (msg.event_id ≡ event.event_id)
      × (msg.to_email ≡ r.email)
      × (msg.to_extra ≡ [])

  pub prepare_rows :
      (w : World)
      → ((prepare ctx event opts r cb w).1.table ≡ w.table)
        × ((prepare ctx event opts r cb w).1.handed ≡ w.handed)
  unfolding prepare
  prepare_rows w = elim (Bool-cases (is_valid_email r.email)) [
    | inl y ↦ (rw (y, prepare), rw (y, prepare))
    | inr n ↦ (rw (n, prepare), rw (n, prepare))
  ]

  module _ (p : Prepared) (w : World) where
    attempt_existing :
        RowThere w → let w' = (attempt ctx event opts r atts cb p w).1 in Silent w w' × RowThere w'
    unfolding attempt individual_args
    attempt_existing h =
        let ((o, e), kept) = claim_existing ctx (individual_args event opts r p.fields) w h in
        rw (e, attempt) (handed-claim ctx (individual_args event opts r p.fields) w, kept)

    attempt_once :
        let w' = (attempt ctx event opts r atts cb p w).1 in
        Silent w w' ⊎ (HandedOne w w' × RowThere w')
    unfolding attempt individual_args build_email_message
    attempt_once = elim (Option-cases (claim ctx a w).0) [
      | inl n ↦ elim (Option-cases (screen ctx event.event_id r.email w1).0) [
        | inl n' ↦ elim (handed-execute_send ctx msg opts.sender_account target w2) [
          | inl e ↦ inl (rw (n, attempt) (rw (n', attempt) (e ∙ silent)))
          | inr (b, e) ↦ inr (
            (
              msg,
              b,
              rw (n, attempt) (rw (n', attempt) (e ∙ ap (◌∷◌ (msg, b)) silent)),
              refl,
              refl,
              refl,
            ),
            rw (n, attempt)
                (rw (n', attempt)
                  (execute_send-HasRow ctx msg opts.sender_account target w2 event.event_id r.email
                    (screen-HasRow ctx event.event_id r.email event.event_id r.email w1
                      (claim_new ctx a w n)))),
          )
        ]
        | inr (o, y) ↦ inl (rw (n, attempt) (rw (y, attempt) silent))
      ]
      | inr (o, y) ↦ inl (rw (y, attempt) (handed-claim ctx a w))
    ]
      where
        a : InsertArgs
        a = individual_args event opts r p.fields

        w1 : World
        w1 = (claim ctx a w).1

        w2 : World
        w2 = (screen ctx event.event_id r.email w1).1

        msg : EmailMessage
        msg = build_email_message event r [] p.rendered p.from atts cb.cc cb.bcc

        target : SendTargets
        target = individual event.event_id r.email

        silent : w2.handed ≡ w.handed
        silent = handed-screen ctx event.event_id r.email w1 ∙ handed-claim ctx a w

  -- An attempt for a recipient whose row exists hands nothing over.
  pub process_recipient_existing :
      (w : World)
      → RowThere w
      → let w' = (process_recipient ctx event opts r atts cb w).1 in Silent w w' × RowThere w'
  unfolding process_recipient
  process_recipient_existing w h = elim (Result-cases (prepare ctx event opts r cb w).0) [
    | inl (p, e) ↦
        let (s, k) = attempt_existing p w1 there in
        rw (e, process_recipient) (s ∙ (prepare_rows w).1, k)
    | inr (x, e) ↦ rw (e, process_recipient) ((prepare_rows w).1, there)
  ]
    where
      w1 : World
      w1 = (prepare ctx event opts r cb w).1

      there : RowThere w1
      there = rw ((prepare_rows w).0) h

  -- Any attempt hands over nothing, or one message with the row in place.
  pub process_recipient_once :
      (w : World)
      → let w' = (process_recipient ctx event opts r atts cb w).1 in
        Silent w w' ⊎ (HandedOne w w' × RowThere w')
  unfolding process_recipient
  process_recipient_once w = elim (Result-cases (prepare ctx event opts r cb w).0) [
    | inl (p, e) ↦ elim (attempt_once p w1) [
      | inl s ↦ inl (rw (e, process_recipient) (s ∙ (prepare_rows w).1))
      | inr ((msg, b, q, i, t, x), k) ↦ inr (
        (msg, b, rw (e, process_recipient) (q ∙ ap (◌∷◌ (msg, b)) (prepare_rows w).1), i, t, x),
        rw (e, process_recipient) k,
      )
    ]
    | inr (x, e) ↦ inl (rw (e, process_recipient) ((prepare_rows w).1))
  ]
    where
      w1 : World
      w1 = (prepare ctx event opts r cb w).1
