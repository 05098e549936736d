-- ===== src/Consumer/Retry/Livelock.antt =====
-- A row that is in the log and not terminal: the retry loop turns for ever and sends nothing.
use anvil_notify.Prelude.{ℕ, zero, suc, ◌≡◌, refl, ap, ◌∙◌, ◌⊎◌, inl, inr, String, some, List}
use anvil_notify.Common.Error.{ok}
use anvil_notify.Common.Status.{try_from}
use anvil_notify.Common.Event.{Recipient, EmailOptions, NotificationEvent}
use anvil_notify.Store.Table.{Row, lookup}
use anvil_notify.Store.Log.{InsertArgs, InsertResult, insert_pending_old}
use anvil_notify.Consumer.World.{Context, World, ResolvedAttachment, db, tick}
use anvil_notify.Consumer.Message.{EffectiveCcBcc}
use anvil_notify.Consumer.Send.{RecipientOutcome}
use anvil_notify.Consumer.Recipient.{
  individual_args, insert_call, inspect_insert, inspect_duplicate, claim, process_recipient,
}
use anvil_notify.Consumer.Steps.{Calm, Preparable, process_prepared, attempt_unclaimed}
use anvil_notify.Consumer.Effects.{before, db_up, handed-claim, slept-claim}
use anvil_notify.Consumer.Retry.{
  ConsumerConfig, again, on_outcome, round, Run, running, loop, process_one_recipient,
}

-- The statuses that are not terminal.
abbrev pub IsOpen : String → Type 0
IsOpen s = (s ≡ "PENDING") ⊎ (s ≡ "FAILED") ⊎ (s ≡ "SKIPPED")

IsOpen-duplicate :
    (n : ℕ) (s : String)
    → IsOpen s
    → inspect_duplicate n (try_from s) ≡ RecipientOutcome.duplicate n
unfolding inspect_duplicate try_from
IsOpen-duplicate n s (inl e) = rw e
IsOpen-duplicate n s (inr (inl e)) = rw e
IsOpen-duplicate n s (inr (inr e)) = rw e

module _ (ctx : Context) (event : NotificationEvent) (opts : EmailOptions) (r : Recipient)
    (atts : List ResolvedAttachment) (cb : EffectiveCcBcc) (calm : Calm ctx)
    (prep : Preparable ctx event opts r cb) where
  abbrev pub Stored : Row → World → Type 0
  Stored row w = lookup event.event_id r.email w.table ≡ some row

  before_calm : (w : World) → before ctx w ≡ w.table
  before_calm w = rw (calm.quiet w.step)

  claim_open :
      (a : InsertArgs) (w : World) (row : Row)
      → lookup a.event_id a.recipient_email w.table ≡ some row
      → IsOpen row.status
      → ((claim ctx a w).0 ≡ some (RecipientOutcome.duplicate row.retry_count))
        × ((claim ctx a w).1.table ≡ w.table)
  unfolding claim inspect_insert
  claim_open a w row h s =
      let (q, t) = db_up ctx (insert_call a) w (calm.up w.step) in
      let old = insert_pending_old (ctx.now w.step) a w.table row h in
      let found : (db ctx (insert_call a) w).0
          ≡ ok (InsertResult.duplicate row.retry_count row.status) =
        q ∙ rw (before_calm w, old) in
      (
        ap inspect_insert found ∙ ap some (IsOpen-duplicate row.retry_count row.status s),
        t ∙ rw (before_calm w, old),
      )

  -- What an attempt does on an open row: it reports a duplicate and leaves the table and the messages.
  attempt_open :
      (w : World) (row : Row)
      → Stored row w
      → IsOpen row.status
      → let (o, w') = process_recipient ctx event opts r atts cb w in
        (o ≡ RecipientOutcome.duplicate row.retry_count)
        × (w'.table ≡ w.table)
        × (w'.handed ≡ w.handed)
        × (w'.slept ≡ w.slept)
  unfolding individual_args
  attempt_open w row h s =
      let (p, e) = prep.prepared w.step in
      let a = individual_args event opts r p.fields in
      let (c, t) = claim_open a (tick w) row h s in
      rw (process_prepared ctx event opts r atts cb w p prep.address e) (
        rw (attempt_unclaimed ctx event opts r atts cb p (tick w) _ c)
          (refl, t, handed-claim ctx a (tick w), slept-claim ctx a (tick w)))

  module _ (cfg : ConsumerConfig) where
    -- The loop is still running, and nothing but the step count has changed.
    abbrev pub Turns : World → Run → Type 0
    Turns w x =
        (w' : World) × (x ≡ running w')
        × (w'.table ≡ w.table)
        × (w'.handed ≡ w.handed)
        × (w'.slept ≡ w.slept)

    round_open :
        (a c : ℕ) (w : World) (row : Row)
        → (process_recipient ctx event opts r atts cb w).0
          ≡ RecipientOutcome.duplicate row.retry_count
        → round ctx cfg event opts r atts cb a c w
          ≡ again row.retry_count c (process_recipient ctx event opts r atts cb w).1
    unfolding round on_outcome
    round_open a c w row o = rw (o, round, on_outcome)

    pub loop_open :
        (row : Row)
        → IsOpen row.status
        → (fuel a c : ℕ) (w : World) → Stored row w
        → Turns w (loop (round ctx cfg event opts r atts cb) fuel a c w)
    unfolding loop
    loop_open row s zero a c w h = (w, refl, refl, refl, refl)
    loop_open row s (suc fuel) a c w h =
        let (o, t, k, l) = attempt_open w row h s in
        let w1 = (process_recipient ctx event opts r atts cb w).1 in
        let (w2, e, t', k', l') = loop_open row s fuel row.retry_count c w1 (rw t h) in
        rw (round_open a c w row o, loop) (w2, e, t' ∙ t, k' ∙ k, l' ∙ l)

    -- An event that comes again while its row is open, that is PENDING, FAILED or SKIPPED: the loop
    -- for it never returns. After any number of rounds it is running, it has sent nothing and slept
    -- nowhere, and the table is as it was. This is so where the steps before the insert succeed, no
    -- other task changes the table and the database is up.
    pub open_row_spins :
        (w : World) (row : Row)
        → Stored row w
        → IsOpen row.status
        → (fuel : ℕ) → Turns w (process_one_recipient ctx cfg event opts r atts cb fuel w)
    unfolding process_one_recipient
    open_row_spins w row h s fuel = loop_open row s fuel 0 0 w h
