-- ===== src/Consumer/Steps.antt =====
-- `process_recipient`, one step at a time: an equation for each way on.
use anvil_notify.Prelude.{ℕ, ◌≡◌, refl, ap, true, Option, none, some, List, []}
use anvil_notify.Common.Error.{Result, ok}
use anvil_notify.Common.Email.{is_valid_email}
use anvil_notify.Common.Event.{Recipient, EmailOptions, NotificationEvent}
use anvil_notify.Consumer.World.{Context, World, ResolvedAttachment, tick}
use anvil_notify.Consumer.Message.{EffectiveCcBcc, build_email_message}
use anvil_notify.Consumer.Send.{RecipientOutcome, individual, execute_send}
use anvil_notify.Consumer.Recipient.{
  Prepared, prepare, prepare_with, individual_args, claim, screen, attempt, process_recipient,
}

-- The steps before the insert succeed, whenever they are made.
pub record Preparable (ctx : Context) (event : NotificationEvent) (opts : EmailOptions)
    (r : Recipient) (cb : EffectiveCcBcc) : Type 0 where
  pub address : is_valid_email r.email ≡ true
  pub prepared :
      (n : ℕ)
      → (p : Prepared) × (prepare_with ctx event opts cb (ctx.resolve n event.event_type "email")
          ≡ ok p)

-- The table's other users keep away, and the database refuses nothing.
pub record Calm (ctx : Context) : Type 0 where
  pub quiet : (n : ℕ) → ctx.others n ≡ []
  pub up : (n : ℕ) → ctx.db_fault n ≡ none

module _ (ctx : Context) (event : NotificationEvent) (opts : EmailOptions) (r : Recipient)
    (atts : List ResolvedAttachment) (cb : EffectiveCcBcc) where
  prepare_ready :
      (w : World) (p : Prepared)
      → is_valid_email r.email ≡ true
      → prepare_with ctx event opts cb (ctx.resolve w.step event.event_type "email") ≡ ok p
      → prepare ctx event opts r cb w ≡ (ok p, tick w)
  unfolding prepare
  prepare_ready w p y e = rw (y, prepare) (rw e refl)

  pub process_prepared :
      (w : World) (p : Prepared)
      → is_valid_email r.email ≡ true
      → prepare_with ctx event opts cb (ctx.resolve w.step event.event_type "email") ≡ ok p
      → process_recipient ctx event opts r atts cb w ≡ attempt ctx event opts r atts cb p (tick w)
  unfolding process_recipient
  process_prepared w p y e =
      rw (prepare_ready w p y e, process_recipient)
        (rw (ap (λ (x : Result Prepared × World). x.1) (prepare_ready w p y e)) refl)

  module _ (p : Prepared) (w : World) where
    abbrev pub claimed : Option RecipientOutcome × World
    claimed = claim ctx (individual_args event opts r p.fields) w

    abbrev pub screened : Option RecipientOutcome × World
    screened = screen ctx event.event_id r.email claimed.1

    pub attempt_unclaimed :
        (o : RecipientOutcome)
        → claimed.0 ≡ some o
        → attempt ctx event opts r atts cb p w ≡ (o, claimed.1)
    unfolding attempt
    attempt_unclaimed o e = rw (e, attempt)

    pub attempt_blocked :
        (o : RecipientOutcome)
        → claimed.0 ≡ none
        → screened.0 ≡ some o
        → attempt ctx event opts r atts cb p w ≡ (o, screened.1)
    unfolding attempt
    attempt_blocked o n e = rw (n, attempt) (rw (e, attempt))

    pub attempt_sends :
        claimed.0 ≡ none
        → screened.0 ≡ none
        → attempt ctx event opts r atts cb p w
          ≡ execute_send ctx
              (build_email_message event r [] p.rendered p.from atts cb.cc cb.bcc)
              opts.sender_account
              (individual event.event_id r.email)
              screened.1
    unfolding attempt
    attempt_sends n n' = rw (n, attempt) (rw (n', attempt))
