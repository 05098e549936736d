-- ===== src/Consumer/Retry/Once.antt =====
-- However often the loop runs, a recipient is handed at most one message for an event.
use anvil_notify.Prelude.{
  ℕ, zero, suc, ◌+◌, ◌≡◌, refl, ap, ◌∙◌, ◌⊎◌, inl, inr, Bool, true, false, not, leb, ltb, String,
  List, ◌∷◌, if◌then◌else◌,
}
use anvil_notify.Common.Error.{AppError, to_string, rate_limited}
use anvil_notify.Common.Event.{Recipient, EmailOptions, NotificationEvent, RetryPolicy, is_no_retry}
use anvil_notify.Store.Log.{mark_failed}
use anvil_notify.Store.Invariant.{keeps}
use anvil_notify.Store.Keys.{HasRow, must_hit-HasRow}
use anvil_notify.Consumer.World.{Context, World, EmailMessage, ResolvedAttachment}
use anvil_notify.Consumer.Message.{EffectiveCcBcc}
use anvil_notify.Consumer.Send.{RecipientOutcome, is_retryable}
use anvil_notify.Consumer.Effects.{handed-db, db-HasRow}
use anvil_notify.Consumer.Idempotency.{
  Silent, HandedOne, process_recipient_existing, process_recipient_once,
}
use anvil_notify.Consumer.Retry.{
  ConsumerConfig, Round, finished, again, Mark, mark_failed_row, pause, on_rate_limited,
  on_transient, on_retryable, on_failed, mark_recipient, on_outcome, round, returned, world_of,
  loop, process_one_recipient,
}

abbrev pub round_world : Round → World
round_world (finished w) = w
round_world (again a c w) = w

-- Whatever the marks and the sleeps keep, the handling of a failure keeps.
module _ (Q : World → Type 0) (ctx : Context) (cfg : ConsumerConfig) (mark : Mark)
    (by_mark : (msg : String) (x : Bool) (w : World) → Q w → Q (mark msg x w))
    (by_sleep : (n : ℕ) (w : World)
      → Q w
      → Q (record w { step = w.step + 1; slept = n ∷ w.slept })) where
  if_keeps :
      (c : Bool) (x y : Round)
      → Q (round_world x)
      → Q (round_world y)
      → Q (round_world (if c then x else y))
  if_keeps true x y p q = p
  if_keeps false x y p q = q

  pause_keeps :
      (d : ℕ) (s : String) (a c : ℕ) (w : World) → Q w → Q (round_world (pause ctx mark d s a c w))
  unfolding pause
  pause_keeps d s a c w q =
      if_keeps (ctx.cancelled w.step) _ _ (by_mark s true _ (by_sleep d w q)) (by_sleep d w q)

  on_transient_keeps :
      (a : ℕ) (e : AppError) (w : World) → Q w → Q (round_world (on_transient ctx cfg mark a e w))
  unfolding on_transient
  on_transient_keeps a e w q = pause_keeps _ _ (a + 1) 0 _ (by_mark (to_string e) false w q)

  on_retryable_keeps :
      (a c : ℕ) (e : AppError) (w : World)
      → Q w
      → Q (round_world (on_retryable ctx cfg mark a c e w))
  unfolding on_retryable on_rate_limited
  on_retryable_keeps a c (rate_limited msg) w q =
      if_keeps (ltb cfg.max_rl_waits (c + 1)) _ _ (by_mark msg true w q)
        (pause_keeps _ _ a (c + 1) _ (by_mark msg false w q))
  on_retryable_keeps a c e w q = on_transient_keeps a e w q

  pub on_failed_keeps :
      (policy : RetryPolicy) (a c : ℕ) (e : AppError) (w : World)
      → Q w
      → Q (round_world (on_failed ctx cfg policy mark a c e w))
  unfolding on_failed
  on_failed_keeps policy a c e w q =
      if_keeps (not (is_retryable e)) _ _ (by_mark (to_string e) true w q) (
        if_keeps (leb cfg.max_retries a) _ _ (by_mark (to_string e) true w q) (
          if_keeps (is_no_retry policy) _ _ (by_mark (to_string e) true w q)
            (on_retryable_keeps a c e w q)))

module _ (ctx : Context) (cfg : ConsumerConfig) (event : NotificationEvent) (opts : EmailOptions)
    (r : Recipient) (atts : List ResolvedAttachment) (cb : EffectiveCcBcc) where
  -- The messages handed over so far, and the row.
  abbrev Settled : List (EmailMessage × Bool) → World → Type 0
  Settled hs w = (w.handed ≡ hs) × HasRow event.event_id r.email w.table

  mark_keeps :
      (hs : List (EmailMessage × Bool)) (msg : String) (x : Bool) (w : World)
      → Settled hs w
      → Settled hs (mark_failed_row ctx event.event_id r.email msg x w)
  unfolding mark_failed_row mark_failed
  mark_keeps hs msg x w (s, h) = (
    handed-db ctx _ w ∙ s,
    db-HasRow ctx event.event_id r.email _ w
        (λ now t.
          must_hit-HasRow event.event_id r.email "mark_failed" event.event_id r.email _ t keeps)
        h,
  )

  abbrev mark_row : Mark
  mark_row = mark_failed_row ctx event.event_id r.email

  pub on_outcome_keeps :
      (Q : World → Type 0)
      → ((msg : String) (x : Bool) (w : World) → Q w → Q (mark_row msg x w))
      → ((n : ℕ) (w : World) → Q w → Q (record w { step = w.step + 1; slept = n ∷ w.slept }))
      → (a c : ℕ) (o : RecipientOutcome) (w : World) → Q w
      → Q (round_world (on_outcome ctx cfg event opts r atts cb a c o w))
  unfolding on_outcome mark_recipient
  on_outcome_keeps Q bm bs a c RecipientOutcome.sent w q = q
  on_outcome_keeps Q bm bs a c (RecipientOutcome.blocked reason) w q = q
  on_outcome_keeps Q bm bs a c RecipientOutcome.skipped w q = q
  on_outcome_keeps Q bm bs a c (RecipientOutcome.duplicate n) w q = q
  on_outcome_keeps Q bm bs a c (RecipientOutcome.failed e) w q =
      on_failed_keeps Q ctx cfg mark_row bm bs opts.retry_policy a c e w q
  on_outcome_keeps Q bm bs a c (RecipientOutcome.group_failed_with_individual_rows e) w q =
      bm (to_string e) true w q

  Settled-outcome :
      (hs : List (EmailMessage × Bool)) (a c : ℕ) (o : RecipientOutcome) (w : World)
      → Settled hs w
      → Settled hs (round_world (on_outcome ctx cfg event opts r atts cb a c o w))
  Settled-outcome hs = on_outcome_keeps (Settled hs) (mark_keeps hs) (λ n w q. q)

  silent_outcome :
      (hs : List (EmailMessage × Bool)) (a c : ℕ) (o : RecipientOutcome) (w : World)
      → w.handed ≡ hs
      → (round_world (on_outcome ctx cfg event opts r atts cb a c o w)).handed ≡ hs
  unfolding mark_failed_row
  silent_outcome hs =
      on_outcome_keeps (λ w. w.handed ≡ hs) (λ msg x w q. handed-db ctx _ w ∙ q) (λ n w q. q)

  -- A round for a recipient whose row is there, and then the rest of the loop.
  round_keeps :
      (hs : List (EmailMessage × Bool)) (a c : ℕ) (w : World)
      → Settled hs w
      → Settled hs (round_world (round ctx cfg event opts r atts cb a c w))
  unfolding round
  round_keeps hs a c w (s, h) =
      let (quiet, there) = process_recipient_existing ctx event opts r atts cb w h in
      Settled-outcome hs a c _ _ (quiet ∙ s, there)

  loop_keeps :
      (hs : List (EmailMessage × Bool)) (fuel a c : ℕ) (w : World)
      → Settled hs w
      → Settled hs (world_of (loop (round ctx cfg event opts r atts cb) fuel a c w))
  unfolding loop
  loop_keeps hs zero a c w q = q
  loop_keeps hs (suc fuel) a c w q =
      after (round ctx cfg event opts r atts cb a c w) (round_keeps hs a c w q) (loop_keeps hs fuel)
    where
      body : ℕ → ℕ → World → Round
      body = round ctx cfg event opts r atts cb

      after :
          (x : Round)
          → Settled hs (round_world x)
          → ((a' c' : ℕ) (w' : World)
              → Settled hs w'
              → Settled hs (world_of (loop body fuel a' c' w')))
          → Settled hs (
              world_of
                (elim x [ finished w' ↦ returned w' | again a' c' w' ↦ loop body fuel a' c' w' ]))
      after (finished w') q' ih = q'
      after (again a' c' w') q' ih = ih a' c' w' q'

  -- A redelivered event whose row is in the log hands nothing over, however long the loop runs,
  -- whatever the templates, the filters, the database and the other tasks do.
  pub redelivery_silent :
      (fuel : ℕ) (w : World)
      → HasRow event.event_id r.email w.table
      → (world_of (process_one_recipient ctx cfg event opts r atts cb fuel w)).handed ≡ w.handed
  unfolding process_one_recipient
  redelivery_silent fuel w h = (loop_keeps w.handed fuel 0 0 w (refl, h)).0

  -- One round hands over nothing, or one message, and then the row is there.
  round_once :
      (a c : ℕ) (w : World)
      → let w' = round_world (round ctx cfg event opts r atts cb a c w) in
        Silent ctx event opts r atts cb w w'
        ⊎ (HandedOne ctx event opts r atts cb w w' × HasRow event.event_id r.email w'.table)
  unfolding round
  round_once a c w = elim (process_recipient_once ctx event opts r atts cb w) [
    | inl s ↦ inl (silent_outcome w.handed a c _ _ s)
    | inr ((msg, b, q, i, t, x), there) ↦
        let (h, k) = Settled-outcome ((msg, b) ∷ w.handed) a c _ _ (q, there) in
        inr ((msg, b, h, i, t, x), k)
  ]

  -- Nothing, or one message and the row.
  AtMostOne : World → World → Type 0
  AtMostOne w w' =
      Silent ctx event opts r atts cb w w'
      ⊎ (HandedOne ctx event opts r atts cb w w' × HasRow event.event_id r.email w'.table)

  carry : (w w' w'' : World) → w'.handed ≡ w.handed → AtMostOne w' w'' → AtMostOne w w''
  unfolding AtMostOne
  carry w w' w'' s (inl t) = inl (t ∙ s)
  carry w w' w'' s (inr ((msg, b, q, i, t, x), k)) =
      inr ((msg, b, q ∙ ap (◌∷◌ (msg, b)) s, i, t, x), k)

  -- From a silent round the loop goes on as from its start; from another one it is settled.
  then_once :
      (fuel : ℕ) (w : World) (x : Round)
      → AtMostOne w (round_world x)
      → ((a' c' : ℕ) (w' : World)
          → AtMostOne w' (world_of (loop (round ctx cfg event opts r atts cb) fuel a' c' w')))
      → AtMostOne w (
          world_of (elim x [
            | finished w' ↦ returned w'
            | again a' c' w' ↦ loop (round ctx cfg event opts r atts cb) fuel a' c' w'
          ]))
  unfolding AtMostOne
  then_once fuel w (finished w') s ih = s
  then_once fuel w (again a' c' w') (inl s) ih =
      carry w w' (world_of (loop (round ctx cfg event opts r atts cb) fuel a' c' w')) s
        (ih a' c' w')
  then_once fuel w (again a' c' w') (inr ((msg, b, q, i, t, x), k)) ih =
      let (h, k') = loop_keeps ((msg, b) ∷ w.handed) fuel a' c' w' (q, k) in
      inr ((msg, b, h, i, t, x), k')

  loop_once :
      (fuel a c : ℕ) (w : World)
      → AtMostOne w (world_of (loop (round ctx cfg event opts r atts cb) fuel a c w))
  unfolding loop AtMostOne
  loop_once zero a c w = inl refl
  loop_once (suc fuel) a c w =
      then_once fuel w (round ctx cfg event opts r atts cb a c w) (round_once a c w)
        (loop_once fuel)

  -- The loop hands over nothing, or one message with the row in place.
  pub handed_with_row :
      (fuel : ℕ) (w : World)
      → let w' = world_of (process_one_recipient ctx cfg event opts r atts cb fuel w) in
        Silent ctx event opts r atts cb w w'
        ⊎ (HandedOne ctx event opts r atts cb w w' × HasRow event.event_id r.email w'.table)
  unfolding process_one_recipient AtMostOne
  handed_with_row fuel w = loop_once fuel 0 0 w

  -- However often the loop runs, it hands over nothing, or one message, addressed to the recipient
  -- alone and carrying the event's id; whatever the templates, the filters, the senders, the
  -- database and the other tasks do.
  pub handed_at_most_once :
      (fuel : ℕ) (w : World)
      → let w' = world_of (process_one_recipient ctx cfg event opts r atts cb fuel w) in
        Silent ctx event opts r atts cb w w' ⊎ HandedOne ctx event opts r atts cb w w'
  handed_at_most_once fuel w = elim (handed_with_row fuel w) [ inl s ↦ inl s | inr (h, k) ↦ inr h ]
