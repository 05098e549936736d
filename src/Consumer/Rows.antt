-- ===== src/Consumer/Rows.antt =====
-- A row of the delivery log stays in it, whatever an attempt or a loop of the consumer does.
use anvil_notify.Prelude.{ℕ, zero, suc, inl, inr, Bool, String, List, [], Option-cases}
use anvil_notify.Common.Error.{Result-cases}
use anvil_notify.Common.Event.{Uuid, Recipient, EmailOptions, NotificationEvent}
use anvil_notify.Store.Log.{mark_failed}
use anvil_notify.Store.Invariant.{keeps}
use anvil_notify.Store.Keys.{HasRow, insert_pending-HasRow, must_hit-HasRow}
use anvil_notify.Consumer.World.{Context, World, ResolvedAttachment}
use anvil_notify.Consumer.Message.{EffectiveCcBcc, build_email_message}
use anvil_notify.Consumer.Send.{individual}
use anvil_notify.Consumer.Recipient.{
  Prepared, prepare, individual_args, insert_call, claim, screen, attempt, process_recipient,
}
use anvil_notify.Consumer.Effects.{db-HasRow, screen-HasRow, execute_send-HasRow}
use anvil_notify.Consumer.Idempotency.{prepare_rows}
use anvil_notify.Consumer.Retry.{
  ConsumerConfig, Round, finished, again, returned, world_of, mark_failed_row, round, loop,
  process_one_recipient,
}
use anvil_notify.Consumer.Retry.Once.{round_world, on_outcome_keeps}

-- What every round of a loop keeps, the loop keeps.
pub loop_keeps :
    (Q : World → Type 0) (body : ℕ → ℕ → World → Round)
    → ((a c : ℕ) (w : World) → Q w → Q (round_world (body a c w)))
    → (fuel a c : ℕ) (w : World) → Q w
    → Q (world_of (loop body fuel a c w))
unfolding loop
loop_keeps Q body k zero a c w q = q
loop_keeps Q body k (suc fuel) a c w q = after (body a c w) (k a c w q) (loop_keeps Q body k fuel)
  where
    after :
        (x : Round)
        → Q (round_world x)
        → ((a' c' : ℕ) (w' : World) → Q w' → Q (world_of (loop body fuel a' c' w')))
        → Q (
            world_of
              (elim x [ finished w' ↦ returned w' | again a' c' w' ↦ loop body fuel a' c' w' ]))
    after (finished w') q' ih = q'
    after (again a' c' w') q' ih = ih a' c' w' q'

module _ (e : Uuid) (m : String) where
  abbrev pub There : World → Type 0
  There w = HasRow e m w.table

  pub mark_failed_row-HasRow :
      (ctx : Context) (e' : Uuid) (m' msg : String) (x : Bool) (w : World)
      → There w
      → There (mark_failed_row ctx e' m' msg x w)
  unfolding mark_failed_row mark_failed
  mark_failed_row-HasRow ctx e' m' msg x w =
      db-HasRow ctx e m (λ now. mark_failed now e' m' msg x) w
        (λ now t. must_hit-HasRow e m "mark_failed" e' m' _ t keeps)

  module _ (ctx : Context) (event : NotificationEvent) (opts : EmailOptions)
      (atts : List ResolvedAttachment) (cb : EffectiveCcBcc) where
    attempt-HasRow :
        (r : Recipient) (p : Prepared) (w : World)
        → There w
        → There (attempt ctx event opts r atts cb p w).1
    unfolding attempt claim
    attempt-HasRow r p w h =
        let a = individual_args event opts r p.fields in
        let w1 = (claim ctx a w).1 in
        let h1 : There w1 =
          db-HasRow ctx e m (insert_call a) w (λ now t. insert_pending-HasRow e m now a t) h in
        let w2 = (screen ctx event.event_id r.email w1).1 in
        let h2 : There w2 = screen-HasRow ctx e m event.event_id r.email w1 h1 in
        elim (Option-cases (claim ctx a w).0) [
          | inr (o, y) ↦ rw (y, attempt) h1
          | inl n ↦ elim (Option-cases (screen ctx event.event_id r.email w1).0) [
            | inr (o, y) ↦ rw (n, attempt) (rw (y, attempt) h2)
            | inl n' ↦
                rw (n, attempt)
                  (rw (n', attempt)
                    (execute_send-HasRow ctx
                      (build_email_message event r [] p.rendered p.from atts cb.cc cb.bcc)
                      opts.sender_account (individual event.event_id r.email) w2 e m h2))
          ]
        ]

    process_recipient-HasRow :
        (r : Recipient) (w : World)
        → There w
        → There (process_recipient ctx event opts r atts cb w).1
    unfolding process_recipient
    process_recipient-HasRow r w h =
        let w1 = (prepare ctx event opts r cb w).1 in
        let h1 : There w1 = rw ((prepare_rows ctx event opts r atts cb w).0) h in
        elim (Result-cases (prepare ctx event opts r cb w).0) [
          | inl (p, y) ↦ rw (y, process_recipient) (attempt-HasRow r p w1 h1)
          | inr (x, y) ↦ rw (y, process_recipient) h1
        ]

    module _ (cfg : ConsumerConfig) (r : Recipient) where
      round-HasRow :
          (a c : ℕ) (w : World)
          → There w
          → There (round_world (round ctx cfg event opts r atts cb a c w))
      unfolding round
      round-HasRow a c w h =
          on_outcome_keeps ctx cfg event opts r atts cb There
            (λ msg x w'. mark_failed_row-HasRow ctx event.event_id r.email msg x w') (λ n w' q. q) a
            c _ _ (process_recipient-HasRow r w h)

      -- No loop of a recipient deletes a row of the log.
      pub process_one_recipient-HasRow :
          (fuel : ℕ) (w : World)
          → There w
          → There (world_of (process_one_recipient ctx cfg event opts r atts cb fuel w))
      unfolding process_one_recipient
      process_one_recipient-HasRow fuel w h =
          loop_keeps There (round ctx cfg event opts r atts cb) round-HasRow fuel 0 0 w h
