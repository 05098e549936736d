-- ===== src/Consumer/Group/Retry.antt =====
-- crates/consumer/src/delivery.rs, `process_one_group`: the retry loop of a group e-mail, and
-- `fallback_to_individual_sends`. Tasks that run side by side are run one after the other here; what
-- one does to the table while another waits is among the `others` of the context.
pub mod Once
pub mod Settled
pub mod AtMostOne
use anvil_notify.Prelude.{
  ℕ, zero, suc, Bool, true, false, not, String, Option, none, some, List, [], ◌∷◌, keep,
  contains_text,
}
use anvil_notify.Common.Error.{AppError, to_string, Result, ok, err}
use anvil_notify.Common.Status.{try_from}
use anvil_notify.Common.Event.{Uuid, Recipient, EmailOptions, NotificationEvent, RetryPolicy}
use anvil_notify.Store.Table.{Row}
use anvil_notify.Store.Log.{get_by_event_and_recipient}
use anvil_notify.Consumer.World.{Context, World, M, ResolvedAttachment, db}
use anvil_notify.Consumer.Message.{EffectiveCcBcc}
use anvil_notify.Consumer.Send.{RecipientOutcome}
use anvil_notify.Consumer.Group.{process_group, is_terminal}
use anvil_notify.Consumer.Retry.{
  ConsumerConfig, Round, finished, again, Mark, mark_failed_row, on_failed, Run, returned, running,
  process_one_recipient,
}

-- A task that follows another one: the whole is running as long as one of them is.
abbrev pub join_next : Run → (World → Run) → Run
join_next (returned w) rest = rest w
join_next (running w) rest = elim (rest w) [ returned w' ↦ running w' | running w' ↦ running w' ]

-- A `JoinSet` of one task for each recipient, each with its share of rounds.
unfoldable pub join_all : (Recipient → World → Run) → List Recipient → World → Run
join_all task [] w = returned w
join_all task (r ∷ rs) w = join_next (task r w) (join_all task rs)

abbrev pub row_is_terminal : Result Row → Bool
row_is_terminal (ok row) = is_terminal (try_from row.status)
row_is_terminal (err e) = false

abbrev pub get_call : Uuid → String → Context → M (Result Row)
get_call event_id recipient_id ctx =
    db ctx (λ now t. (get_by_event_and_recipient event_id recipient_id t, t))

-- The addresses whose row is SENT or BLOCKED.
unfoldable pub already_terminal : Context → Uuid → List Recipient → M (List String)
already_terminal ctx event_id [] w = ([], w)
already_terminal ctx event_id (r ∷ rs) w =
    let (row, w1) = get_call event_id r.email ctx w in
    let (more, w2) = already_terminal ctx event_id rs w1 in
    (elim (row_is_terminal row) [ true ↦ r.email ∷ more | false ↦ more ], w2)

unfoldable pub mark_primary : Context → Uuid → List Recipient → Mark
unfolding mark_failed_row
mark_primary ctx event_id [] msg exhausted w = w
mark_primary ctx event_id (primary ∷ rs) msg exhausted w =
    mark_failed_row ctx event_id primary.email msg exhausted w

-- A round of the group's loop ends like one of a recipient's, or in the fallback.
pub data GroupRound : Type 0 where
  decided : Round → GroupRound
  fall_back : World → GroupRound

module _ (ctx : Context) (cfg : ConsumerConfig) (event : NotificationEvent) (opts : EmailOptions)
    (atts : List ResolvedAttachment) (cc_bcc : EffectiveCcBcc) where
  abbrev pub recipient_task : ℕ → Recipient → World → Run
  recipient_task fuel r w = process_one_recipient ctx cfg event opts r atts cc_bcc fuel w

  unfoldable pub fallback_to_individual_sends : ℕ → World → Run
  unfolding join_all already_terminal
  fallback_to_individual_sends fuel w =
      let (terminal, w') = already_terminal ctx event.event_id opts.recipients w in
      join_all (recipient_task fuel)
        (keep (λ r. not (contains_text r.email terminal)) opts.recipients) w'

  abbrev pub primary_mark : Mark
  primary_mark = mark_primary ctx event.event_id opts.recipients

  unfoldable pub on_group_outcome : ℕ → ℕ → RecipientOutcome → World → GroupRound
  unfolding on_failed mark_primary
  on_group_outcome attempt rl_count RecipientOutcome.sent w = decided (finished w)
  on_group_outcome attempt rl_count (RecipientOutcome.blocked reason) w = decided (finished w)
  on_group_outcome attempt rl_count RecipientOutcome.skipped w = decided (finished w)
  on_group_outcome attempt rl_count (RecipientOutcome.duplicate retry_count) w =
      decided (again retry_count rl_count w)
  on_group_outcome attempt rl_count (RecipientOutcome.failed e) w =
      decided (on_failed ctx cfg opts.retry_policy primary_mark attempt rl_count e w)
  on_group_outcome attempt rl_count (RecipientOutcome.group_failed_with_individual_rows e) w =
      fall_back w

  unfoldable pub group_round : ℕ → ℕ → World → GroupRound
  unfolding on_group_outcome
  group_round attempt rl_count w =
      let (outcome, w') = process_group ctx event opts atts cc_bcc cfg.max_recipients_per_event w in
      on_group_outcome attempt rl_count outcome w'

  -- The loop, for so many rounds, each task of the fallback for so many too.
  unfoldable pub group_loop : ℕ → ℕ → ℕ → ℕ → World → Run
  unfolding fallback_to_individual_sends
  group_loop task_fuel zero attempt rl_count w = running w
  group_loop task_fuel (suc fuel) attempt rl_count w = elim (group_round attempt rl_count w) [
    | decided x ↦ elim x [
      | finished w' ↦ returned w'
      | again a c w' ↦ group_loop task_fuel fuel a c w'
    ]
    | fall_back w' ↦ fallback_to_individual_sends task_fuel w'
  ]

  unfoldable pub process_one_group : ℕ → ℕ → World → Run
  unfolding group_loop
  process_one_group task_fuel fuel w = group_loop task_fuel fuel 0 0 w
