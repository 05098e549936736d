-- ===== src/Consumer/Group/Retry/Once.antt =====
-- However often the loop of a group runs, and its fallback with it, one message at most is handed
-- over for the event.
use anvil_notify.Prelude.{
  ℕ, ◌≡◌, refl, ◌∙◌, inl, inr, Bool, not, String, List, [], ◌∷◌, keep, contains_text, Bool-cases,
}
use anvil_notify.Common.Event.{Recipient, EmailOptions, NotificationEvent}
use anvil_notify.Store.Keys.{HasRow}
use anvil_notify.Consumer.World.{Context, World, ResolvedAttachment}
use anvil_notify.Consumer.Message.{EffectiveCcBcc}
use anvil_notify.Consumer.Effects.{handed-db, db-HasRow}
use anvil_notify.Consumer.Rows.{process_one_recipient-HasRow}
use anvil_notify.Consumer.Retry.{ConsumerConfig, Run, returned, running, world_of}
use anvil_notify.Consumer.Retry.Once.{redelivery_silent}
use anvil_notify.Consumer.Group.Rows.{KeysOf}
use anvil_notify.Consumer.Group.Retry.{
  join_next, join_all, get_call, already_terminal, recipient_task, fallback_to_individual_sends,
}

-- The world in which a task and what follows it end.
join_next_world :
    (x : Run) (rest : World → Run) → world_of (join_next x rest) ≡ world_of (rest (world_of x))
join_next_world (returned w) rest = refl
join_next_world (running w) rest = still (rest w)
  where
    still :
        (y : Run)
        → world_of (elim y [ returned w' ↦ running w' | running w' ↦ running w' ]) ≡ world_of y
    still (returned w') = refl
    still (running w') = refl

-- What every task keeps, the set of them keeps.
pub join_all_keeps :
    (Q : World → Type 0) (task : Recipient → World → Run)
    → ((r : Recipient) (w : World) → Q w → Q (world_of (task r w)))
    → (rs : List Recipient) (w : World) → Q w
    → Q (world_of (join_all task rs w))
unfolding join_all
join_all_keeps Q task k [] w q = q
join_all_keeps Q task k (r ∷ rs) w q =
    rw (join_next_world (task r w) (join_all task rs))
      (join_all_keeps Q task k rs (world_of (task r w)) (k r w q))

keep_keys :
    (e : String) (p : Recipient → Bool) (rs : List Recipient) (w : World)
    → KeysOf e rs w.table
    → KeysOf e (keep p rs) w.table
keep_keys e p [] w h = tt
keep_keys e p (r ∷ rs) w h = elim (Bool-cases (p r)) [
  | inl y ↦ rw y (h.0, keep_keys e p rs w h.1)
  | inr n ↦ rw n (keep_keys e p rs w h.1)
]

module _ (ctx : Context) (cfg : ConsumerConfig) (event : NotificationEvent) (opts : EmailOptions)
    (atts : List ResolvedAttachment) (cb : EffectiveCcBcc) where
  abbrev task_of : ℕ → Recipient → World → Run
  task_of = recipient_task ctx cfg event opts atts cb

  task_keys :
      (fuel : ℕ) (r : Recipient) (rs : List Recipient) (w : World)
      → KeysOf event.event_id rs w.table
      → KeysOf event.event_id rs (world_of (task_of fuel r w)).table
  task_keys fuel r [] w h = tt
  task_keys fuel r (x ∷ rs) w h = (
    process_one_recipient-HasRow event.event_id x.email ctx event opts atts cb cfg r fuel w h.0,
    task_keys fuel r rs w h.1,
  )

  join_silent :
      (fuel : ℕ) (rs : List Recipient) (w : World)
      → KeysOf event.event_id rs w.table
      → (world_of (join_all (task_of fuel) rs w)).handed ≡ w.handed
  unfolding join_all
  join_silent fuel [] w h = refl
  join_silent fuel (r ∷ rs) w h =
      let w1 = world_of (task_of fuel r w) in
      rw (join_next_world (task_of fuel r w) (join_all (task_of fuel) rs)) (
        join_silent fuel rs w1 (task_keys fuel r rs w h.1)
        ∙ redelivery_silent ctx cfg event opts r atts cb fuel w h.0)

  terminal_handed :
      (rs : List Recipient) (w : World)
      → (already_terminal ctx event.event_id rs w).1.handed ≡ w.handed
  unfolding already_terminal
  terminal_handed [] w = refl
  terminal_handed (r ∷ rs) w =
      terminal_handed rs (get_call event.event_id r.email ctx w).1 ∙ handed-db ctx _ w

  terminal-HasRow :
      (m : String) (rs : List Recipient) (w : World)
      → HasRow event.event_id m w.table
      → HasRow event.event_id m (already_terminal ctx event.event_id rs w).1.table
  unfolding already_terminal
  terminal-HasRow m [] w h = h
  terminal-HasRow m (r ∷ rs) w h =
      terminal-HasRow m rs (get_call event.event_id r.email ctx w).1
        (db-HasRow ctx event.event_id m _ w (λ now t q. q) h)

  terminal_keys :
      (ms rs : List Recipient) (w : World)
      → KeysOf event.event_id ms w.table
      → KeysOf event.event_id ms (already_terminal ctx event.event_id rs w).1.table
  terminal_keys [] rs w h = tt
  terminal_keys (x ∷ ms) rs w h = (terminal-HasRow x.email rs w h.0, terminal_keys ms rs w h.1)

  -- The fallback for a group whose recipients all have a row hands nothing over.
  pub fallback_silent :
      (fuel : ℕ) (w : World)
      → KeysOf event.event_id opts.recipients w.table
      → (world_of (fallback_to_individual_sends ctx cfg event opts atts cb fuel w)).handed
        ≡ w.handed
  unfolding fallback_to_individual_sends
  fallback_silent fuel w h =
      let (terminal, w') = already_terminal ctx event.event_id opts.recipients w in
      let p = λ (r : Recipient). not (contains_text r.email terminal) in
      join_silent fuel (keep p opts.recipients) w' (
        keep_keys event.event_id p opts.recipients w'
          (terminal_keys opts.recipients opts.recipients w h))
      ∙ terminal_handed opts.recipients w
