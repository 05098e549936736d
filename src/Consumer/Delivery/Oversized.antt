-- ===== src/Consumer/Delivery/Oversized.antt =====
-- An event with more recipients than the limit.
use anvil_notify.Prelude.{
  ℕ, ◌≡◌, ◌<◌, ap, ◌∙◌, true, String, str_eq_refl, Option, none, some, List, ◌∷◌, length,
}
use anvil_notify.Common.Error.{Result, ok}
use anvil_notify.Common.Event.{Recipient, EmailOptions, NotificationEvent}
use anvil_notify.Store.Table.{Row, lookup}
use anvil_notify.Store.Log.{InsertResult, inserted, pending_row, insert_pending_new, mark_failed}
use anvil_notify.Store.Invariant.{keeps}
use anvil_notify.Consumer.World.{Context, World, db}
use anvil_notify.Consumer.Recipient.{insert_call}
use anvil_notify.Consumer.Steps.{Calm}
use anvil_notify.Consumer.Effects.{db_up}
use anvil_notify.Consumer.Fresh.{before_calm, lookup-db}
use anvil_notify.Consumer.Retry.{ConsumerConfig, mark_failed_row}
use anvil_notify.Consumer.Delivery.{
  ack, Outside, Handling, Handled, settle, at, parse, skip_event, no_options, sentinel_args,
  marks_sentinel, insert_sentinel_failed_row, oversized_reason, handle_options,
}

module _ (ctx : Context) (calm : Calm ctx) (event : NotificationEvent) (primary : Recipient)
    (reason : String) (w : World) (fresh : lookup event.event_id primary.email w.table ≡ none) where
  abbrev sentinel : Row
  sentinel = pending_row (ctx.now w.step) (sentinel_args event primary)

  abbrev inserting : Result InsertResult × World
  inserting = db ctx (insert_call (sentinel_args event primary)) w

  inserting_new : (inserting.0 ≡ ok inserted) × (inserting.1.table ≡ sentinel ∷ w.table)
  inserting_new =
      let args = sentinel_args event primary in
      let (q, t) = db_up ctx (insert_call args) w (calm.up w.step) in
      let new = insert_pending_new (ctx.now w.step) args w.table fresh in
      (q ∙ rw (before_calm ctx calm w, new), t ∙ rw (before_calm ctx calm w, new))

  found : lookup event.event_id primary.email inserting.1.table ≡ some sentinel
  found = rw (inserting_new.1) (rw (str_eq_refl event.event_id, str_eq_refl primary.email))

  -- The row of an event that was refused as a whole.
  pub sentinel_row :
      (rs : List Recipient)
      → lookup event.event_id primary.email
          (insert_sentinel_failed_row ctx event (primary ∷ rs) reason w).table
        ≡ some (record sentinel {
          status = "FAILED";
          retry_count = 1;
          total_attempts = 1;
          last_error = some reason;
          updated_at = ctx.now inserting.1.step;
        })
  unfolding insert_sentinel_failed_row mark_failed_row mark_failed
  sentinel_row rs =
      let marks : marks_sentinel inserting.0 ≡ true = ap marks_sentinel inserting_new.0 in
      rw (marks, insert_sentinel_failed_row)
        (lookup-db ctx calm inserting.1 "mark_failed" event.event_id primary.email _ sentinel
          (λ now. keeps) found)

module _ (out : Outside) (ctx : Context) (calm : Calm ctx) (cfg : ConsumerConfig) (bytes : List ℕ)
    (task_fuel fuel : ℕ) (event : NotificationEvent) (opts : EmailOptions) (primary : Recipient)
    (rs : List Recipient) (parsed : parse out bytes ≡ some event)
    (by_email : event.channel_overrides.email ≡ some opts)
    (recipients : opts.recipients ≡ primary ∷ rs)
    (over : cfg.max_recipients_per_event < length opts.recipients) where
  abbrev reason : String
  reason = oversized_reason (length opts.recipients) cfg.max_recipients_per_event

  abbrev by_options : Handling → Option EmailOptions → Handled
  by_options h none = settle ack (at (skip_event ctx event no_options h.world) h)
  by_options h (some o) = handle_options out ctx cfg bytes task_fuel fuel event o h

  abbrev left : Handling → World
  left h = insert_sentinel_failed_row ctx event (primary ∷ rs) reason h.world
