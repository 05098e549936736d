-- ===== src/Consumer/Delivery/Settling.antt =====
-- How often a delivery is settled, and what has happened when it is rejected.
use anvil_notify.Prelude.{
  ℕ, ◌-◌, max, ◌≡◌, refl, ◌⊎◌, inl, inr, Bool, true, false, not, List, ◌∷◌, length, is_empty, ltb,
  Bool-cases, Option-cases, if◌then◌else◌,
}
use anvil_notify.Common.Error.{is_permanent_mailer, Result-cases}
use anvil_notify.Common.Event.{EmailOptions, NotificationEvent}
use anvil_notify.Consumer.World.{Context, World, tick}
use anvil_notify.Consumer.Retry.{ConsumerConfig, Run, returned, running}
use anvil_notify.Consumer.Delivery.{
  ack, nack, Publish, PublishReply, confirmed, confirm_error, publish_error, Outside, Handling,
  Handled, done, waiting, settle, at, parse, after_publish, delayed_publish, defer, fetch,
  effective_cc_bcc, dispatch, settle_run, deliver, schedule, handle_options, handle_delivery,
}

-- One settlement when it is done, none before. A rejection leaves the messages and the log as they
-- were.
abbrev pub SettledOnce : Handling → Handled → Type 0
SettledOnce h (done h') =
    (h'.settled ≡ ack ∷ h.settled)
    ⊎ ((requeue : Bool) × (h'.settled ≡ nack requeue ∷ h.settled)
        × (h'.world.handed ≡ h.world.handed)
        × (h'.world.table ≡ h.world.table))
SettledOnce h (waiting h') = h'.settled ≡ h.settled

if_SettledOnce :
    (h : Handling) (c : Bool) (x y : Handled)
    → SettledOnce h x
    → SettledOnce h y
    → SettledOnce h (if c then x else y)
if_SettledOnce h true x y p q = p
if_SettledOnce h false x y p q = q

run-SettledOnce : (h : Handling) (x : Run) → SettledOnce h (settle_run x h)
run-SettledOnce h (returned w) = inl refl
run-SettledOnce h (running w) = refl

published-SettledOnce :
    (h : Handling) (w : World) (ps : List Publish) (reply : PublishReply)
    → w.handed ≡ h.world.handed
    → w.table ≡ h.world.table
    → SettledOnce h (settle (after_publish reply) (record h { world = w; published = ps }))
published-SettledOnce h w ps (confirmed true) p q = inl refl
published-SettledOnce h w ps (confirmed false) p q = inr (true, refl, p, q)
published-SettledOnce h w ps confirm_error p q = inr (true, refl, p, q)
published-SettledOnce h w ps publish_error p q = inr (true, refl, p, q)

-- A fetch changes neither the messages nor the log.
pub fetch_world :
    (out : Outside) (ctx : Context) (cfg : ConsumerConfig) (event : NotificationEvent)
    (opts : EmailOptions) (w : World)
    → ((fetch out ctx cfg event opts w).1.handed ≡ w.handed)
      × ((fetch out ctx cfg event opts w).1.table ≡ w.table)
unfolding fetch
fetch_world out ctx cfg event opts w = elim (Bool-cases (is_empty opts.attachments)) [
  | inl y ↦ (rw (y, fetch), rw (y, fetch))
  | inr y ↦ (rw (y, fetch), rw (y, fetch))
]

module _ (out : Outside) (ctx : Context) (cfg : ConsumerConfig) (bytes : List ℕ)
    (task_fuel fuel : ℕ) where
  deliver-SettledOnce :
      (event : NotificationEvent) (opts : EmailOptions) (h : Handling)
      → SettledOnce h (deliver out ctx cfg bytes task_fuel fuel event opts h)
  unfolding deliver
  deliver-SettledOnce event opts h = elim (Result-cases (fetch out ctx cfg event opts h.world).0) [
    | inr (e, y) ↦
        rw (y, deliver)
          (inr (
            not (is_permanent_mailer e),
            refl,
            (fetch_world out ctx cfg event opts h.world).0,
            (fetch_world out ctx cfg event opts h.world).1,
          ))
    | inl (atts, y) ↦
        let w1 = (fetch out ctx cfg event opts h.world).1 in
        let (cc_bcc, w2) = effective_cc_bcc ctx opts w1 in
        rw (y, deliver)
          (run-SettledOnce h (dispatch ctx cfg event opts atts cc_bcc task_fuel fuel w2))
  ]

  schedule-SettledOnce :
      (event : NotificationEvent) (opts : EmailOptions) (h : Handling)
      → SettledOnce h (schedule out ctx cfg bytes task_fuel fuel event opts h)
  unfolding schedule defer
  schedule-SettledOnce event opts h = elim (Option-cases opts.send_at) [
    | inl y ↦ rw (y, schedule) (deliver-SettledOnce event opts h)
    | inr (send_at, y) ↦
        rw (y, schedule)
          (if_SettledOnce h (ltb (ctx.now h.world.step) send_at) _ _
            (published-SettledOnce h (tick (tick h.world))
              (delayed_publish cfg bytes (max (send_at - ctx.now h.world.step) 1) ∷ h.published) _
              refl refl)
            (deliver-SettledOnce event opts (at (tick h.world) h)))
  ]

  options-SettledOnce :
      (event : NotificationEvent) (opts : EmailOptions) (h : Handling)
      → SettledOnce h (handle_options out ctx cfg bytes task_fuel fuel event opts h)
  unfolding handle_options
  options-SettledOnce event opts h = if_SettledOnce h (is_empty opts.recipients) _ _ (inl refl) (
      if_SettledOnce h (ltb cfg.max_recipients_per_event (length opts.recipients)) _ _ (inl refl)
        (schedule-SettledOnce event opts h))

  -- A delivery whose handling ends is settled exactly once, and one whose tasks still run is not
  -- settled yet. If it is rejected, nothing was handed to a sender and the delivery log is as it was.
  pub settled_once :
      (h : Handling) → SettledOnce h (handle_delivery out ctx cfg bytes task_fuel fuel h)
  unfolding handle_delivery
  settled_once h = elim (Option-cases (parse out bytes)) [
    | inl y ↦ rw (y, handle_delivery) (inr (false, refl, refl, refl))
    | inr (event, y) ↦ elim (Option-cases event.channel_overrides.email) [
      | inl z ↦ rw (y, handle_delivery) (rw (z, handle_delivery) (inl refl))
      | inr (opts, z) ↦
          rw (y, handle_delivery) (rw (z, handle_delivery) (options-SettledOnce event opts h))
    ]
  ]
