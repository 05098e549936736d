-- ===== src/Consumer/Group/Retry/Settled.antt =====
-- The rounds of a group's loop: from a settled event on, nothing is handed over.
use anvil_notify.Prelude.{ℕ, zero, suc, ◌+◌, ◌≡◌, refl, ◌∙◌, Bool, true, String, List, [], ◌∷◌}
use anvil_notify.Common.Event.{Uuid, Recipient, EmailOptions, NotificationEvent}
use anvil_notify.Store.Keys.{HasRow}
use anvil_notify.Consumer.World.{Context, World, ResolvedAttachment, EmailMessage}
use anvil_notify.Consumer.Message.{EffectiveCcBcc}
use anvil_notify.Consumer.Send.{RecipientOutcome}
use anvil_notify.Consumer.Effects.{handed-db}
use anvil_notify.Consumer.Rows.{mark_failed_row-HasRow}
use anvil_notify.Consumer.Retry.{
  ConsumerConfig, finished, again, mark_failed_row, Run, returned, world_of,
}
use anvil_notify.Consumer.Retry.Once.{round_world, on_failed_keeps}
use anvil_notify.Consumer.Group.{process_group}
use anvil_notify.Consumer.Group.Rows.{is_fallback, KeysOf, process_group-HasRow}
use anvil_notify.Consumer.Group.Claimed.{process_group_fallback}
use anvil_notify.Consumer.Group.Addressed.{group_redelivery_silent}
use anvil_notify.Consumer.Group.Retry.{
  mark_primary, primary_mark, GroupRound, decided, fall_back, fallback_to_individual_sends,
  on_group_outcome, group_round, group_loop,
}
use anvil_notify.Consumer.Group.Retry.Once.{fallback_silent}

handed-mark_primary :
    (ctx : Context) (e : Uuid) (rs : List Recipient) (msg : String) (x : Bool) (w : World)
    → (mark_primary ctx e rs msg x w).handed ≡ w.handed
unfolding mark_primary mark_failed_row
handed-mark_primary ctx e [] msg x w = refl
handed-mark_primary ctx e (r ∷ rs) msg x w = handed-db ctx _ w

mark_primary-HasRow :
    (e : Uuid) (m : String) (ctx : Context) (e' : Uuid) (rs : List Recipient) (msg : String)
    (x : Bool) (w : World)
    → HasRow e m w.table
    → HasRow e m (mark_primary ctx e' rs msg x w).table
unfolding mark_primary
mark_primary-HasRow e m ctx e' [] msg x w h = h
mark_primary-HasRow e m ctx e' (r ∷ rs) msg x w h =
    mark_failed_row-HasRow e m ctx e' r.email msg x w h

module _ (ctx : Context) (cfg : ConsumerConfig) (event : NotificationEvent) (opts : EmailOptions)
    (primary : Recipient) (secondaries : List Recipient) (atts : List ResolvedAttachment)
    (cb : EffectiveCcBcc) (recipients : opts.recipients ≡ primary ∷ secondaries) where
  abbrev pub Sent : Type 0
  Sent = List (EmailMessage × Bool)

  -- These messages were handed over, and the primary recipient has a row.
  abbrev pub Settled : Sent → World → Type 0
  Settled hs w = (w.handed ≡ hs) × HasRow event.event_id primary.email w.table

  -- What a round leaves: where it falls back, every recipient has a row.
  abbrev pub Leaves : (World → Type 0) → GroupRound → Type 0
  Leaves Q (decided x) = Q (round_world x)
  Leaves Q (fall_back w) = Q w × KeysOf event.event_id opts.recipients w.table

  outcome-Leaves :
      (Q : World → Type 0)
      → ((msg : String) (x : Bool) (w : World)
          → Q w
          → Q (primary_mark ctx cfg event opts atts cb msg x w))
      → ((n : ℕ) (w : World) → Q w → Q (record w { step = w.step + 1; slept = n ∷ w.slept }))
      → (a c : ℕ) (o : RecipientOutcome) (w : World) → Q w
      → (is_fallback o ≡ true → KeysOf event.event_id opts.recipients w.table)
      → Leaves Q (on_group_outcome ctx cfg event opts atts cb a c o w)
  unfolding on_group_outcome
  outcome-Leaves Q bm bs a c RecipientOutcome.sent w q k = q
  outcome-Leaves Q bm bs a c (RecipientOutcome.blocked reason) w q k = q
  outcome-Leaves Q bm bs a c RecipientOutcome.skipped w q k = q
  outcome-Leaves Q bm bs a c (RecipientOutcome.duplicate n) w q k = q
  outcome-Leaves Q bm bs a c (RecipientOutcome.failed e) w q k =
      on_failed_keeps Q ctx cfg (primary_mark ctx cfg event opts atts cb) bm bs opts.retry_policy a
        c e w q
  outcome-Leaves Q bm bs a c (RecipientOutcome.group_failed_with_individual_rows e) w q k =
      (q, k refl)

  module _ (a c : ℕ) (w : World) where
    abbrev attempted : RecipientOutcome × World
    attempted = process_group ctx event opts atts cb cfg.max_recipients_per_event w

    pub round-Settled :
        (hs : Sent)
        → Settled hs attempted.1
        → Leaves (Settled hs) (group_round ctx cfg event opts atts cb a c w)
    unfolding group_round
    round-Settled hs s =
        outcome-Leaves (Settled hs)
          (λ msg x w' (q, h). (
            handed-mark_primary ctx event.event_id opts.recipients msg x w' ∙ q,
            mark_primary-HasRow event.event_id primary.email ctx event.event_id opts.recipients msg
                x w' h,
          ))
          (λ n w' q. q) a c attempted.0 attempted.1 s
          (process_group_fallback ctx event opts atts cb cfg.max_recipients_per_event w)

    pub round_silent :
        (hs : Sent)
        → attempted.1.handed ≡ hs
        → Leaves (λ w'. w'.handed ≡ hs) (group_round ctx cfg event opts atts cb a c w)
    unfolding group_round
    round_silent hs s =
        outcome-Leaves (λ w'. w'.handed ≡ hs)
          (λ msg x w' q. handed-mark_primary ctx event.event_id opts.recipients msg x w' ∙ q)
          (λ n w' q. q) a c attempted.0 attempted.1 s
          (process_group_fallback ctx event opts atts cb cfg.max_recipients_per_event w)

    -- A round for an event whose primary recipient has a row.
    round_again :
        HasRow event.event_id primary.email w.table
        → Leaves (Settled w.handed) (group_round ctx cfg event opts atts cb a c w)
    round_again h = round-Settled w.handed (
      group_redelivery_silent ctx event opts primary secondaries atts cb
          cfg.max_recipients_per_event recipients w h,
      process_group-HasRow event.event_id primary.email ctx event opts atts cb
          cfg.max_recipients_per_event w h,
    )

  module _ (task_fuel : ℕ) where
    abbrev pub run_group : ℕ → ℕ → ℕ → World → Run
    run_group = group_loop ctx cfg event opts atts cb task_fuel

    -- The rest of the loop after a round.
    abbrev pub resume : ℕ → GroupRound → Run
    resume fuel x = elim x [
      | decided y ↦ elim y [ finished w' ↦ returned w' | again a' c' w' ↦ run_group fuel a' c' w' ]
      | fall_back w' ↦ fallback_to_individual_sends ctx cfg event opts atts cb task_fuel w'
    ]

    pub resume_silent :
        (fuel : ℕ) (hs : Sent)
        → ((a' c' : ℕ) (w' : World)
            → Settled hs w'
            → (world_of (run_group fuel a' c' w')).handed ≡ hs)
        → (x : GroupRound) → Leaves (Settled hs) x
        → (world_of (resume fuel x)).handed ≡ hs
    resume_silent fuel hs ih (decided (finished w')) q = q.0
    resume_silent fuel hs ih (decided (again a' c' w')) q = ih a' c' w' q
    resume_silent fuel hs ih (fall_back w') ((q, h), k) =
        fallback_silent ctx cfg event opts atts cb task_fuel w' k ∙ q

    pub loop_silent :
        (hs : Sent) (fuel a c : ℕ) (w : World)
        → Settled hs w
        → (world_of (run_group fuel a c w)).handed ≡ hs
    unfolding group_loop
    loop_silent hs zero a c w q = q.0
    loop_silent hs (suc fuel) a c w (q, h) =
        resume_silent fuel w.handed (λ a' c' w' s. loop_silent w.handed fuel a' c' w' s)
          (group_round ctx cfg event opts atts cb a c w) (round_again a c w h)
        ∙ q
