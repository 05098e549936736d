-- ===== src/Consumer/Delivery/Whole.antt =====
-- `handle_delivery` as a whole: no address gets two messages of one delivery.
use anvil_notify.Prelude.{
  ℕ, ◌+◌, ◌≡◌, ◌≤◌, refl, ap, ◌∙◌, inl, inr, Bool, true, false, String, List, [], ◌∷◌, length,
  is_empty, ltb, Bool-cases, Option-cases, arith, if◌then◌else◌,
}
use anvil_notify.Common.Error.{Result-cases}
use anvil_notify.Common.Email.{is_valid_email}
use anvil_notify.Common.Event.{Recipient, EmailOptions, NotificationEvent}
use anvil_notify.Filter.{check}
use anvil_notify.Consumer.World.{Context, World, db, tick}
use anvil_notify.Consumer.Recipient.{insert_call, blocked_reason}
use anvil_notify.Consumer.Effects.{handed-db}
use anvil_notify.Consumer.Retry.{ConsumerConfig, mark_failed_row, Run, returned, running, world_of}
use anvil_notify.Consumer.Delivery.{
  Outside, Handling, Handled, done, waiting, at, parse, skip_event, no_options, no_recipients,
  sentinel_args, marks_sentinel, oversized_reason, insert_sentinel_failed_row, defer,
  cc_bcc_allowed, allowed_copies, effective_cc_bcc, fetch, dispatch, settle_run, deliver, schedule,
  handle_options, handle_delivery,
}
use anvil_notify.Consumer.Delivery.Settling.{fetch_world}
use anvil_notify.Consumer.Delivery.Addresses.{addressed, dispatch_bound}

abbrev pub handled_world : Handled → World
handled_world (done h) = h.world
handled_world (waiting h) = h.world

run_world : (x : Run) (h : Handling) → handled_world (settle_run x h) ≡ world_of x
run_world (returned w) h = refl
run_world (running w) h = refl

pub handed-skip_event :
    (ctx : Context) (event : NotificationEvent) (reason : String) (w : World)
    → (skip_event ctx event reason w).handed ≡ w.handed
unfolding skip_event
handed-skip_event ctx event reason w = handed-db ctx _ w

pub handed-sentinel :
    (ctx : Context) (event : NotificationEvent) (rs : List Recipient) (reason : String) (w : World)
    → (insert_sentinel_failed_row ctx event rs reason w).handed ≡ w.handed
unfolding insert_sentinel_failed_row mark_failed_row
handed-sentinel ctx event [] reason w = refl
handed-sentinel ctx event (p ∷ ss) reason w =
    let (result, w1) = db ctx (insert_call (sentinel_args event p)) w in
    let quiet : w1.handed ≡ w.handed = handed-db ctx (insert_call (sentinel_args event p)) w in
    elim (Bool-cases (marks_sentinel result)) [
      | inl y ↦ rw (y, insert_sentinel_failed_row) (handed-db ctx _ w1 ∙ quiet)
      | inr y ↦ rw (y, insert_sentinel_failed_row) quiet
    ]

module _ (ctx : Context) where
  handed-cc_bcc_allowed : (r : Recipient) (w : World) → (cc_bcc_allowed ctx r w).1.handed ≡ w.handed
  unfolding cc_bcc_allowed
  handed-cc_bcc_allowed r w = elim (Bool-cases (is_valid_email r.email)) [
    | inr y ↦ rw (y, cc_bcc_allowed)
    | inl y ↦ elim (Option-cases (blocked_reason (check ctx.to_lowercase ctx.filter r.email))) [
      | inl z ↦ rw (y, cc_bcc_allowed) (rw (z, cc_bcc_allowed))
      | inr (reason, z) ↦ rw (y, cc_bcc_allowed) (rw (z, cc_bcc_allowed))
    ]
  ]

  handed-allowed_copies :
      (rs : List Recipient) (w : World) → (allowed_copies ctx rs w).1.handed ≡ w.handed
  unfolding allowed_copies
  handed-allowed_copies [] w = refl
  handed-allowed_copies (r ∷ rs) w =
      handed-allowed_copies rs (cc_bcc_allowed ctx r w).1 ∙ handed-cc_bcc_allowed r w

  handed-effective_cc_bcc :
      (opts : EmailOptions) (w : World) → (effective_cc_bcc ctx opts w).1.handed ≡ w.handed
  unfolding effective_cc_bcc
  handed-effective_cc_bcc opts w =
      handed-allowed_copies opts.bcc (allowed_copies ctx opts.cc w).1
      ∙ handed-allowed_copies opts.cc w

module _ (out : Outside) (ctx : Context) (cfg : ConsumerConfig) (bytes : List ℕ)
    (task_fuel fuel : ℕ) (m : String) where
  abbrev AtMostOneMore : Handling → Handled → Type 0
  AtMostOneMore h x = addressed m (handled_world x).handed ≤ addressed m h.world.handed + 1

  if_bound :
      (h : Handling) (c : Bool) (x y : Handled)
      → (c ≡ true → AtMostOneMore h x)
      → (c ≡ false → AtMostOneMore h y)
      → AtMostOneMore h (if c then x else y)
  if_bound h true x y p q = p refl
  if_bound h false x y p q = q refl

  quiet_bound :
      (h : Handling) (w : World)
      → w.handed ≡ h.world.handed
      → addressed m w.handed ≤ addressed m h.world.handed + 1
  quiet_bound h w s =
      let same : addressed m w.handed ≡ addressed m h.world.handed = ap (addressed m) s in
      omega (arith, same)

  deliver_bound :
      (event : NotificationEvent) (opts : EmailOptions) (h : Handling)
      → is_empty opts.recipients ≡ false
      → AtMostOneMore h (deliver out ctx cfg bytes task_fuel fuel event opts h)
  unfolding deliver
  deliver_bound event opts h ne =
      let w1 = (fetch out ctx cfg event opts h.world).1 in
      let quiet : w1.handed ≡ h.world.handed = (fetch_world out ctx cfg event opts h.world).0 in
      elim (Result-cases (fetch out ctx cfg event opts h.world).0) [
        | inr (e, y) ↦ rw (y, deliver) (quiet_bound h w1 quiet)
        | inl (atts, y) ↦
            let (cc_bcc, w2) = effective_cc_bcc ctx opts w1 in
            let same : addressed m w2.handed ≡ addressed m h.world.handed =
              ap (addressed m) (handed-effective_cc_bcc ctx opts w1 ∙ quiet) in
            let run = dispatch ctx cfg event opts atts cc_bcc task_fuel fuel w2 in
            let world : addressed m (handled_world (settle_run run h)).handed
                ≡ addressed m (world_of run).handed =
              ap (λ (w : World). addressed m w.handed) (run_world run h) in
            let bound = dispatch_bound ctx cfg event opts atts cc_bcc m task_fuel fuel w2 ne in
            rw (y, deliver) (omega (arith, same, world, bound))
      ]

  schedule_bound :
      (event : NotificationEvent) (opts : EmailOptions) (h : Handling)
      → is_empty opts.recipients ≡ false
      → AtMostOneMore h (schedule out ctx cfg bytes task_fuel fuel event opts h)
  unfolding schedule defer
  schedule_bound event opts h ne = elim (Option-cases opts.send_at) [
    | inl y ↦ rw (y, schedule) (deliver_bound event opts h ne)
    | inr (send_at, y) ↦
        rw (y, schedule)
          (if_bound h (ltb (ctx.now h.world.step) send_at) _ _
            (λ _. quiet_bound h (tick (tick h.world)) refl)
            (λ _. deliver_bound event opts (at (tick h.world) h) ne))
  ]

  options_bound :
      (event : NotificationEvent) (opts : EmailOptions) (h : Handling)
      → AtMostOneMore h (handle_options out ctx cfg bytes task_fuel fuel event opts h)
  unfolding handle_options
  options_bound event opts h =
      if_bound h (is_empty opts.recipients) _ _
        (λ _.
          quiet_bound h (skip_event ctx event no_recipients h.world)
            (handed-skip_event ctx event no_recipients h.world))
        (λ ne.
          if_bound h (ltb cfg.max_recipients_per_event (length opts.recipients)) _ _
            (λ _.
              let reason = oversized_reason (length opts.recipients) cfg.max_recipients_per_event in
              quiet_bound h (insert_sentinel_failed_row ctx event opts.recipients reason h.world)
                (handed-sentinel ctx event opts.recipients reason h.world))
            (λ _. schedule_bound event opts h ne))

  -- One delivery of an event hands over at most one message with a given address in its To header,
  -- as the first one or among the others, in either send mode, with any repetition in the list of
  -- recipients, and whatever the outside does.
  pub delivered_once_each :
      (h : Handling)
      → addressed m (handled_world (handle_delivery out ctx cfg bytes task_fuel fuel h)).handed
        ≤ addressed m h.world.handed + 1
  unfolding handle_delivery
  delivered_once_each h = elim (Option-cases (parse out bytes)) [
    | inl y ↦ rw (y, handle_delivery) (omega arith)
    | inr (event, y) ↦ elim (Option-cases event.channel_overrides.email) [
      | inl z ↦
          rw (y, handle_delivery)
            (rw (z, handle_delivery)
              (quiet_bound h (skip_event ctx event no_options h.world)
                (handed-skip_event ctx event no_options h.world)))
      | inr (opts, z) ↦
          rw (y, handle_delivery) (rw (z, handle_delivery) (options_bound event opts h))
    ]
  ]
