-- ===== src/Consumer/Delivery/Deferral.antt =====
-- An event whose delivery time has not come.
use anvil_notify.Prelude.{
  ℕ, ◌+◌, ◌-◌, max, ◌≡◌, ◌≤◌, ◌<◌, refl, ap, ◌∙◌, ◌⊎◌, inl, inr, ◌≢◌, concat, true, false, Option,
  none, some, List, [], ◌∷◌, length, is_empty, ltb, lt→ltb, arith, show,
}
use anvil_notify.Common.Event.{EmailOptions, NotificationEvent}
use anvil_notify.Consumer.World.{Context, tick}
use anvil_notify.Consumer.Retry.{ConsumerConfig}
use anvil_notify.Consumer.Delivery.{
  Settlement, ack, nack, Publish, PublishReply, confirmed, confirm_error, publish_error, Outside,
  Handling, Handled, done, settle, at, parse, skip_event, no_options, delayed_publish,
  after_publish, defer, schedule, handle_options, handle_delivery,
}

-- The message is given up to the broker's copy, or taken back into the queue.
abbrev pub FollowsBroker : PublishReply → Settlement → Type 0
FollowsBroker reply s =
    ((reply ≡ confirmed true) × (s ≡ ack)) ⊎ ((reply ≢ confirmed true) × (s ≡ nack true))

after_publish-FollowsBroker : (x : PublishReply) → FollowsBroker x (after_publish x)
after_publish-FollowsBroker (confirmed true) = inl (refl, refl)
after_publish-FollowsBroker (confirmed false) = inr (λ e. absurd (cc e), refl)
after_publish-FollowsBroker confirm_error = inr (λ e. absurd (cc e), refl)
after_publish-FollowsBroker publish_error = inr (λ e. absurd (cc e), refl)

module _ (out : Outside) (ctx : Context) (cfg : ConsumerConfig) (bytes : List ℕ)
    (task_fuel fuel : ℕ) (event : NotificationEvent) (opts : EmailOptions) (send_at : ℕ) where
  -- The event is read, its recipients are within the limit, and its time is still to come.
  pub record IsEarly (h : Handling) : Type 0 where
    pub parsed : parse out bytes ≡ some event
    pub by_email : event.channel_overrides.email ≡ some opts
    pub someone : is_empty opts.recipients ≡ false
    pub within : ltb cfg.max_recipients_per_event (length opts.recipients) ≡ false
    pub timed : opts.send_at ≡ some send_at
    pub later : ctx.now h.world.step < send_at

  abbrev copy : Handling → Publish
  copy h = delayed_publish cfg bytes (max (send_at - ctx.now h.world.step) 1)

  abbrev by_options : NotificationEvent → Handling → Option EmailOptions → Handled
  by_options ev h none = settle ack (at (skip_event ctx ev no_options h.world) h)
  by_options ev h (some o) = handle_options out ctx cfg bytes task_fuel fuel ev o h

  scheduled :
      (h : Handling)
      → IsEarly h
      → handle_delivery out ctx cfg bytes task_fuel fuel h
        ≡ schedule out ctx cfg bytes task_fuel fuel event opts h
  unfolding handle_delivery handle_options
  scheduled h e =
      rw (e.parsed, handle_delivery)
        (ap (by_options event h) e.by_email
          ∙ rw (e.someone, handle_options) (rw (e.within, handle_options) refl))

  abbrev kept : Handling → Handling
  kept h = record h { world = tick (tick h.world); published = copy h ∷ h.published }

  deferred :
      (h : Handling)
      → IsEarly h
      → schedule out ctx cfg bytes task_fuel fuel event opts h
        ≡ settle (after_publish (out.broker (h.world.step + 1) (copy h))) (kept h)
  unfolding schedule defer
  deferred h e =
      rw (e.timed, schedule) (rw (lt→ltb (ctx.now h.world.step) send_at e.later, schedule) refl)

  -- A copy that can stand for the original: its bytes, kept on disk, for the delayed exchange, with
  -- the time that is left as its time to live.
  pub record IsCopy (h : Handling) (p : Publish) : Type 0 where
    pub same_bytes : p.payload ≡ bytes
    pub persistent : p.delivery_mode ≡ 2
    pub to_delayed : p.exchange ≡ concat (cfg.exchange ∷ ".delayed" ∷ [])
    pub lives : p.expiration ≡ show (send_at - ctx.now h.world.step)
    pub positive : 1 ≤ send_at - ctx.now h.world.step

  copy-IsCopy : (h : Handling) → IsEarly h → IsCopy h (copy h)
  copy-IsCopy h e =
      let left : max (send_at - ctx.now h.world.step) 1 ≡ send_at - ctx.now h.world.step =
        omega (arith, e.later) in
      record {
        same_bytes = refl;
        persistent = refl;
        to_delayed = refl;
        lives = rw left;
        positive = omega (arith, e.later);
      }

  -- An event whose time is still to come: one message is published, which has the bytes of the
  -- delivery, is persistent, goes to the delayed exchange and lives for the time that is left, at
  -- least a millisecond; nothing is handed to a sender or written to the log. If the broker confirms
  -- the copy with an acknowledgement, the delivery is acknowledged, and otherwise it goes back to the
  -- queue.
  pub deferral :
      (h : Handling)
      → IsEarly h
      → (h' : Handling) × (p : Publish) × (s : Settlement) × (handle_delivery out ctx cfg bytes
            task_fuel fuel h
          ≡ done h')
        × (h'.published ≡ p ∷ h.published)
        × IsCopy h p
        × (h'.settled ≡ s ∷ h.settled)
        × FollowsBroker (out.broker (h.world.step + 1) p) s
        × (h'.world.handed ≡ h.world.handed)
        × (h'.world.table ≡ h.world.table)
  deferral h e = (
    record (kept h) {
      settled = after_publish (out.broker (h.world.step + 1) (copy h)) ∷ h.settled;
    },
    copy h,
    after_publish (out.broker (h.world.step + 1) (copy h)),
    rw (scheduled h e) (deferred h e),
    refl,
    copy-IsCopy h e,
    refl,
    after_publish-FollowsBroker (out.broker (h.world.step + 1) (copy h)),
    refl,
    refl,
  )
