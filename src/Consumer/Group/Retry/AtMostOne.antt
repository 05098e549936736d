-- ===== src/Consumer/Group/Retry/AtMostOne.antt =====
-- The loop of a group as a whole: a message for the event is handed over once at most.
use anvil_notify.Prelude.{
  ℕ, zero, suc, ◌≡◌, refl, ap, ◌∙◌, ◌⊎◌, inl, inr, Bool, none, List, ◌∷◌, All,
}
use anvil_notify.Common.Event.{Recipient, EmailOptions, NotificationEvent}
use anvil_notify.Filter.{check}
use anvil_notify.Consumer.World.{Context, World, ResolvedAttachment, EmailMessage, MailboxRef}
use anvil_notify.Consumer.Message.{EffectiveCcBcc}
use anvil_notify.Consumer.Recipient.{blocked_reason}
use anvil_notify.Consumer.Retry.{ConsumerConfig, finished, again, world_of}
use anvil_notify.Consumer.Group.{process_group}
use anvil_notify.Consumer.Group.Claimed.{process_group_row}
use anvil_notify.Consumer.Group.Addressed.{group_addressed}
use anvil_notify.Consumer.Group.Retry.{
  GroupRound, decided, fall_back, fallback_to_individual_sends, group_round, group_loop,
  process_one_group,
}
use anvil_notify.Consumer.Group.Retry.Once.{fallback_silent}
use anvil_notify.Consumer.Group.Retry.Settled.{
  Leaves, round-Settled, round_silent, resume, resume_silent, loop_silent,
}

module _ (ctx : Context) (cfg : ConsumerConfig) (event : NotificationEvent) (opts : EmailOptions)
    (primary : Recipient) (secondaries : List Recipient) (atts : List ResolvedAttachment)
    (cb : EffectiveCcBcc) (recipients : opts.recipients ≡ primary ∷ secondaries) where
  abbrev pub PassesFilter : MailboxRef → Type 0
  PassesFilter m = blocked_reason (check ctx.to_lowercase ctx.filter m.email) ≡ none

  -- One message was handed over, to the first recipient and to others that the filter allows.
  abbrev pub HandedGroup : World → World → Type 0
  HandedGroup w w' =
      (msg : EmailMessage) × (accepted : Bool) × (w'.handed ≡ (msg, accepted) ∷ w.handed)
      × (msg.event_id ≡ event.event_id)
      × (msg.to_email ≡ primary.email)
      × All PassesFilter msg.to_extra

  AtMost : World → World → Type 0
  AtMost w w' = (w'.handed ≡ w.handed) ⊎ HandedGroup w w'

  carry : (w w' w'' : World) → w'.handed ≡ w.handed → AtMost w' w'' → AtMost w w''
  unfolding AtMost
  carry w w' w'' s (inl t) = inl (t ∙ s)
  carry w w' w'' s (inr (msg, b, q, i, t, x)) = inr (msg, b, q ∙ ap (◌∷◌ (msg, b)) s, i, t, x)

  module _ (task_fuel : ℕ) where
    -- From a silent round the loop goes on as from its start.
    resume_once :
        (fuel : ℕ) (w : World)
        → ((a' c' : ℕ) (w' : World)
            → AtMost w' (world_of (group_loop ctx cfg event opts atts cb task_fuel fuel a' c' w')))
        → (x : GroupRound)
        → Leaves ctx cfg event opts primary secondaries atts cb recipients
            (λ w'. w'.handed ≡ w.handed)
            x
        → AtMost w (
            world_of
              (resume ctx cfg event opts primary secondaries atts cb recipients task_fuel fuel x))
    unfolding AtMost
    resume_once fuel w ih (decided (finished w')) q = inl q
    resume_once fuel w ih (decided (again a' c' w')) q =
        carry w w' (world_of (group_loop ctx cfg event opts atts cb task_fuel fuel a' c' w')) q
          (ih a' c' w')
    resume_once fuel w ih (fall_back w') (q, k) =
        inl (fallback_silent ctx cfg event opts atts cb task_fuel w' k ∙ q)

    loop_once :
        (fuel a c : ℕ) (w : World)
        → AtMost w (world_of (group_loop ctx cfg event opts atts cb task_fuel fuel a c w))
    unfolding group_loop AtMost
    loop_once zero a c w = inl refl
    loop_once (suc fuel) a c w =
        let n = cfg.max_recipients_per_event in
        let x = group_round ctx cfg event opts atts cb a c w in
        let quiet = λ (s : (process_group ctx event opts atts cb n w).1.handed ≡ w.handed).
          resume_once fuel w (loop_once fuel) x (
            round_silent ctx cfg event opts primary secondaries atts cb recipients a c w w.handed
              s) in
        elim (process_group_row ctx event opts atts cb n primary secondaries recipients w) [
          | inl s ↦ quiet s
          | inr h ↦
              elim (group_addressed ctx event opts primary secondaries atts cb n recipients w) [
                | inl s ↦ quiet s
                | inr (msg, b, q, i, t, p) ↦ inr (
                  msg,
                  b,
                  resume_silent ctx cfg event opts primary secondaries atts cb recipients task_fuel
                      fuel ((msg, b) ∷ w.handed)
                      (λ a' c' w' s.
                        loop_silent ctx cfg event opts primary secondaries atts cb recipients
                          task_fuel ((msg, b) ∷ w.handed) fuel a' c' w' s)
                      x
                      (round-Settled ctx cfg event opts primary secondaries atts cb recipients a c w
                        ((msg, b) ∷ w.handed) (q, h)),
                  i,
                  t,
                  p,
                )
              ]
        ]

    -- However often the loop of a group event runs, its fallback to single messages included, it
    -- hands over nothing, or one message: it carries the event's id, is addressed to the first
    -- recipient, and every other address in its To header is allowed by the configured filter. So it
    -- is whatever the templates, the senders, the database and the other tasks do.
    pub group_handed_at_most_once :
        (fuel : ℕ) (w : World)
        → let w' = world_of (process_one_group ctx cfg event opts atts cb task_fuel fuel w) in
          (w'.handed ≡ w.handed) ⊎ HandedGroup w w'
    unfolding process_one_group AtMost
    group_handed_at_most_once fuel w = loop_once fuel 0 0 w

  -- Where a round of a group event ends in the fallback to single messages, the fallback hands
  -- nothing over, however many rounds its tasks are given: each recipient has a row by then.
  pub fallback_sends_nothing :
      (a c task_fuel : ℕ) (w w' : World)
      → group_round ctx cfg event opts atts cb a c w ≡ fall_back w'
      → (world_of (fallback_to_individual_sends ctx cfg event opts atts cb task_fuel w')).handed
        ≡ w'.handed
  fallback_sends_nothing a c task_fuel w w' e =
      let h = process_group ctx event opts atts cb cfg.max_recipients_per_event w in
      let (q, k) = ended w' h.1.handed e (
        round_silent ctx cfg event opts primary secondaries atts cb recipients a c w h.1.handed
          refl) in
      fallback_silent ctx cfg event opts atts cb task_fuel w' k
    where
      ended :
          (w1 : World) (hs : List (EmailMessage × Bool))
          → group_round ctx cfg event opts atts cb a c w ≡ fall_back w1
          → Leaves ctx cfg event opts primary secondaries atts cb recipients
              (λ v. v.handed ≡ hs)
              (group_round ctx cfg event opts atts cb a c w)
          → Leaves ctx cfg event opts primary secondaries atts cb recipients
              (λ v. v.handed ≡ hs)
              (fall_back w1)
      ended w1 hs e' l = rw e' at l
