-- ===== src/Consumer/Retry/Outcomes.antt =====
-- `process_one_recipient` on a recipient whose row is not in the log yet: how the loop ends.
use anvil_notify.Prelude.{
  ℕ, suc, ◌+◌, ◌≡◌, ap, ◌∙◌, ◌⊎◌, inl, inr, Bool, true, String, none, some, List, ◌∷◌,
}
use anvil_notify.Common.Error.{ok}
use anvil_notify.Common.Event.{Recipient, EmailOptions, NotificationEvent}
use anvil_notify.Store.Table.{Row, lookup}
use anvil_notify.Store.Log.{mark_sent, mark_blocked}
use anvil_notify.Store.Invariant.{keeps}
use anvil_notify.Consumer.World.{Context, World, ResolvedAttachment, EmailMessage, tick}
use anvil_notify.Consumer.Message.{EffectiveCcBcc}
use anvil_notify.Consumer.Send.{
  RecipientOutcome, sent, individual, mark_sent_one, mark_sent_for_targets, resolve_sender,
}
use anvil_notify.Consumer.Recipient.{
  Prepared, config_reason, blocked_reason, block, screen, process_recipient,
}
use anvil_notify.Consumer.Effects.{handed-db, slept-db}
use anvil_notify.Consumer.Steps.{Calm}
use anvil_notify.Consumer.Fresh.{
  Admitted, First, after_send, execute_send_accepted, first_sends, first_blocked, handed_claimed,
  lookup-db, message, new_row, row_claimed, screen_config, screen-block_list, slept_claimed,
  w_claimed,
}
use anvil_notify.Consumer.Retry.{
  ConsumerConfig, Round, finished, again, on_outcome, round, Run, returned, loop,
  process_one_recipient,
}

module _ (ctx : Context) (calm : Calm ctx) (cfg : ConsumerConfig) (event : NotificationEvent)
    (opts : EmailOptions) (r : Recipient) (atts : List ResolvedAttachment)
    (cb : EffectiveCcBcc) where
  abbrev pub Body : Type 0
  Body = ℕ → ℕ → World → Round

  abbrev pub body : Body
  body = round ctx cfg event opts r atts cb

  pub round_of :
      (a c : ℕ) (w w' : World) (o : RecipientOutcome)
      → process_recipient ctx event opts r atts cb w ≡ (o, w')
      → body a c w ≡ on_outcome ctx cfg event opts r atts cb a c o w'
  unfolding round
  round_of a c w w' o h =
      ap (λ (x : RecipientOutcome × World). on_outcome ctx cfg event opts r atts cb a c x.0 x.1) h

  pub process_finished :
      (fuel : ℕ) (w w' : World)
      → body 0 0 w ≡ finished w'
      → process_one_recipient ctx cfg event opts r atts cb (suc fuel) w ≡ returned w'
  unfolding process_one_recipient loop
  process_finished fuel w w' h = rw (h, loop)

  pub process_again :
      (fuel a c : ℕ) (w w' : World)
      → body 0 0 w ≡ again a c w'
      → process_one_recipient ctx cfg event opts r atts cb (suc fuel) w ≡ loop body fuel a c w'
  unfolding process_one_recipient loop
  process_again fuel a c w w' h = rw (h, loop)

  module _ (p : Prepared) (w : World) (first : First ctx event opts r cb p w) where
    abbrev msg : EmailMessage
    msg = message ctx calm event opts r atts cb p w first

    abbrev row : Row
    row = new_row ctx calm event opts r atts cb p w first

    abbrev w1 : World
    w1 = tick (w_claimed ctx calm event opts r atts cb p w first)

    abbrev RowNow : World → Row → Type 0
    RowNow w' x = lookup event.event_id r.email w'.table ≡ some x

    pub row1 : RowNow w1 row
    row1 = row_claimed ctx calm event opts r atts cb p w first

    pub handed1 : (b : Bool) → (after_send w1 msg b).handed ≡ (msg, b) ∷ w.handed
    handed1 b = ap (◌∷◌ (msg, b)) (handed_claimed ctx calm event opts r atts cb p w first)

    marked_sent :
        (v : World)
        → RowNow v row
        → (n : ℕ) × RowNow
            (mark_sent_one ctx event.event_id r.email v)
            (record row { status = "SENT"; total_attempts = 1; updated_at = ctx.now n })
    unfolding mark_sent_one mark_sent
    marked_sent v h =
        (v.step, lookup-db ctx calm v "mark_sent" event.event_id r.email _ row (λ now. keeps) h)

    abbrev pub SentOnce : Run → Type 0
    SentOnce x =
        (w' : World) × (x ≡ returned w')
        × (w'.handed ≡ (msg, true) ∷ w.handed)
        × (w'.slept ≡ w.slept)
        × (n : ℕ) × RowNow w'
            (record row { status = "SENT"; total_attempts = 1; updated_at = ctx.now n })

    -- A recipient that is new, is on no block list and whose mail the sender takes: however many
    -- rounds are allowed, one is enough; the loop returns, the one message has been handed over and
    -- was accepted, nothing slept, and the recipient's row is SENT after one attempt.
    pub first_delivered :
        Admitted ctx r.email
        → ((n : ℕ) → resolve_sender ctx opts.sender_account n msg ≡ ok tt)
        → (fuel : ℕ) → SentOnce (process_one_recipient ctx cfg event opts r atts cb (suc fuel) w)
    unfolding on_outcome mark_sent_for_targets mark_sent_one
    first_delivered adm accepts fuel =
        let v = after_send w1 msg true in
        let sends = first_sends ctx calm event opts r atts cb p w first adm in
        let done =
          execute_send_accepted ctx msg opts.sender_account (individual event.event_id r.email) w1
            (adm.token w1.step) (accepts (w1.step + 1)) in
        let w' = mark_sent_one ctx event.event_id r.email v in
        let (n, k) = marked_sent v row1 in
        (
          w',
          process_finished fuel w w' (round_of 0 0 w w' sent (sends ∙ done)),
          handed-db ctx (λ now. mark_sent now event.event_id r.email) v ∙ handed1 true,
          slept-db ctx (λ now. mark_sent now event.event_id r.email) v
              ∙ slept_claimed ctx calm event opts r atts cb p w first,
          n,
          k,
        )

    -- What the loop leaves of a blocked recipient: no message, no sleep, a BLOCKED row with the reason.
    abbrev pub BlockedWith : String → Run → Type 0
    BlockedWith reason x =
        (w' : World) × (x ≡ returned w')
        × (w'.handed ≡ w.handed)
        × (w'.slept ≡ w.slept)
        × (n : ℕ) × RowNow w'
            (record row { status = "BLOCKED"; last_error = some reason; updated_at = ctx.now n })

    blocked_with :
        (reason : String) (v : World)
        → RowNow v row
        → v.handed ≡ w.handed
        → v.slept ≡ w.slept
        → screen ctx event.event_id r.email (w_claimed ctx calm event opts r atts cb p w first)
          ≡ block ctx event.event_id r.email reason v
        → (fuel : ℕ)
        → BlockedWith reason (process_one_recipient ctx cfg event opts r atts cb (suc fuel) w)
    unfolding on_outcome block mark_blocked
    blocked_with reason v k h l s fuel =
        let w' = (block ctx event.event_id r.email reason v).1 in
        let b = first_blocked ctx calm event opts r atts cb p w first reason v s in
        (
          w',
          process_finished fuel w w' (round_of 0 0 w w' _ b),
          handed-db ctx (λ now. mark_blocked now event.event_id r.email reason) v ∙ h,
          slept-db ctx (λ now. mark_blocked now event.event_id r.email reason) v ∙ l,
          v.step,
          lookup-db ctx calm v "mark_blocked" event.event_id r.email _ row (λ now. keeps) k,
        )

    -- A new recipient that the configured filter, or else the block list in the database, blocks: the
    -- loop returns in its first round, hands nothing over, and the row is BLOCKED with the reason.
    pub first_blocked_ends :
        (reason : String)
        → (config_reason ctx r.email ≡ some reason)
          ⊎ ((config_reason ctx r.email ≡ none)
              × ((n : ℕ) → blocked_reason (ctx.block_list_check n r.email) ≡ some reason))
        → (fuel : ℕ)
        → BlockedWith reason (process_one_recipient ctx cfg event opts r atts cb (suc fuel) w)
    first_blocked_ends reason (inl c) fuel =
        let v = w_claimed ctx calm event opts r atts cb p w first in
        blocked_with reason v row1 (handed_claimed ctx calm event opts r atts cb p w first)
          (slept_claimed ctx calm event opts r atts cb p w first)
          (screen_config ctx event.event_id r.email v reason c) fuel
    first_blocked_ends reason (inr (c, b)) fuel =
        let v = w_claimed ctx calm event opts r atts cb p w first in
        blocked_with reason (tick v) row1 (handed_claimed ctx calm event opts r atts cb p w first)
          (slept_claimed ctx calm event opts r atts cb p w first)
          (screen-block_list ctx event.event_id r.email v reason c (b v.step)) fuel
