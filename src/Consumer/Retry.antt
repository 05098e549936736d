-- ===== src/Consumer/Retry.antt =====
-- crates/consumer/src/delivery.rs, `process_one_recipient`: the retry loop of one recipient. The two
-- loops of the file, for one recipient and for a group, decide alike on a failure: `on_failed` is
-- that decision, over the row that the loop marks.
pub mod Backoff
pub mod Once
pub mod Livelock
pub mod Outcomes
pub mod Failures
use anvil_notify.Prelude.{
  ℕ, zero, suc, ◌+◌, ◌-◌, ◌*◌, ◌^◌, min, Bool, true, false, not, String, Option, none, some, List,
  [], ◌∷◌, ltb, leb, if◌then◌else◌,
}
use anvil_notify.Common.Error.{AppError, rate_limited, to_string}
use anvil_notify.Common.Event.{
  Uuid, Recipient, EmailOptions, NotificationEvent, RetryPolicy, is_no_retry,
}
use anvil_notify.Store.Log.{mark_failed}
use anvil_notify.Consumer.World.{Context, World, ResolvedAttachment, db}
use anvil_notify.Consumer.Message.{EffectiveCcBcc}
use anvil_notify.Consumer.Send.{RecipientOutcome, is_retryable}
use anvil_notify.Consumer.Recipient.{process_recipient}

-- The fields of ConsumerConfig (crates/consumer/src/config.rs) that the handlers read.
pub record ConsumerConfig : Type 0 where
  pub exchange : String
  pub max_retries : ℕ
  pub retry_base_ms : ℕ
  pub max_attachment_bytes : ℕ
  pub max_rl_waits : ℕ
  pub max_recipients_per_event : ℕ

abbrev pub max_retry_delay_ms : ℕ
max_retry_delay_ms = 30 * 60 * 1000

-- u64.
abbrev pub saturating_mul : ℕ → ℕ → ℕ
saturating_mul a b = min (a * b) (2 ^ 64 - 1)

unfoldable pub retry_delay_ms : ℕ → ℕ → ℕ
retry_delay_ms base attempt = min (saturating_mul base (2 ^ min attempt 10)) max_retry_delay_ms

unfoldable pub rl_delay_secs : ℕ → ℕ
rl_delay_secs rl_count = 30 * 2 ^ min rl_count 3

-- What one round of the loop ends in: a return, or another round with its two counters.
pub data Round : Type 0 where
  finished : World → Round
  again : ℕ → ℕ → World → Round

-- `mark_failed` on a row, its failure ignored.
unfoldable pub mark_failed_row : Context → Uuid → String → String → Bool → World → World
mark_failed_row ctx event_id recipient_id msg exhausted w =
    (db ctx (λ now. mark_failed now event_id recipient_id msg exhausted) w).1

abbrev pub Mark : Type 0
Mark = String → Bool → World → World

-- The `select!` of the backoff sleep and the shutdown.
unfoldable pub pause : Context → Mark → ℕ → String → ℕ → ℕ → World → Round
pause ctx mark delay_ms shutdown_msg attempt rl_count w =
    let w' = record w { step = w.step + 1; slept = delay_ms ∷ w.slept } in
    if ctx.cancelled w.step then finished (mark shutdown_msg true w') else again attempt rl_count w'

unfoldable pub on_rate_limited : Context → ConsumerConfig → Mark → ℕ → ℕ → String → World → Round
unfolding pause rl_delay_secs
on_rate_limited ctx cfg mark attempt rl_count msg w =
    if ltb cfg.max_rl_waits (rl_count + 1)
    then finished (mark msg true w)
    else pause ctx mark (rl_delay_secs (rl_count + 1) * 1000)
        "service shutdown during rate-limit backoff" attempt (rl_count + 1) (mark msg false w)

unfoldable pub on_transient : Context → ConsumerConfig → Mark → ℕ → AppError → World → Round
unfolding pause retry_delay_ms
on_transient ctx cfg mark attempt e w =
    pause ctx mark (retry_delay_ms cfg.retry_base_ms (attempt + 1))
      "service shutdown during retry backoff" (attempt + 1) 0 (mark (to_string e) false w)

-- The last two arms: a rate limit, and any other retryable failure.
unfoldable pub on_retryable : Context → ConsumerConfig → Mark → ℕ → ℕ → AppError → World → Round
unfolding on_rate_limited on_transient
on_retryable ctx cfg mark attempt rl_count (rate_limited msg) w =
    on_rate_limited ctx cfg mark attempt rl_count msg w
on_retryable ctx cfg mark attempt rl_count e w = on_transient ctx cfg mark attempt e w

-- The arms for `Failed(e)`, in their order.
unfoldable pub on_failed :
    Context → ConsumerConfig → RetryPolicy → Mark → ℕ → ℕ → AppError → World → Round
unfolding on_retryable
on_failed ctx cfg policy mark attempt rl_count e w =
    if not (is_retryable e)
    then finished (mark (to_string e) true w)
    else if leb cfg.max_retries attempt
    then finished (mark (to_string e) true w)
    else if is_no_retry policy
    then finished (mark (to_string e) true w)
    else on_retryable ctx cfg mark attempt rl_count e w

module _ (ctx : Context) (cfg : ConsumerConfig) (event : NotificationEvent) (opts : EmailOptions)
    (r : Recipient) (atts : List ResolvedAttachment) (cc_bcc : EffectiveCcBcc) where
  unfoldable pub mark_recipient : Mark
  unfolding mark_failed_row
  mark_recipient = mark_failed_row ctx event.event_id r.email

  unfoldable pub on_outcome : ℕ → ℕ → RecipientOutcome → World → Round
  unfolding on_failed mark_recipient
  on_outcome attempt rl_count RecipientOutcome.sent w = finished w
  on_outcome attempt rl_count (RecipientOutcome.blocked reason) w = finished w
  on_outcome attempt rl_count RecipientOutcome.skipped w = finished w
  on_outcome attempt rl_count (RecipientOutcome.duplicate retry_count) w =
      again retry_count rl_count w
  on_outcome attempt rl_count (RecipientOutcome.failed e) w =
      on_failed ctx cfg opts.retry_policy mark_recipient attempt rl_count e w
  on_outcome attempt rl_count (RecipientOutcome.group_failed_with_individual_rows e) w =
      finished (mark_recipient (to_string e) true w)

  -- One round.
  unfoldable pub round : ℕ → ℕ → World → Round
  unfolding on_outcome
  round attempt rl_count w =
      let (outcome, w') = process_recipient ctx event opts r atts cc_bcc w in
      on_outcome attempt rl_count outcome w'

-- A loop that has returned, or that is still running when the rounds given to it are used up.
pub data Run : Type 0 where
  returned : World → Run
  running : World → Run

abbrev pub world_of : Run → World
world_of (returned w) = w
world_of (running w) = w

-- `loop { … }` over a round, for so many rounds.
unfoldable pub loop : (ℕ → ℕ → World → Round) → ℕ → ℕ → ℕ → World → Run
loop body zero attempt rl_count w = running w
loop body (suc fuel) attempt rl_count w = elim (body attempt rl_count w) [
  | finished w' ↦ returned w'
  | again a c w' ↦ loop body fuel a c w'
]

unfoldable pub process_one_recipient :
    Context
    → ConsumerConfig
    → NotificationEvent
    → EmailOptions
    → Recipient
    → List ResolvedAttachment
    → EffectiveCcBcc
    → ℕ
    → World
    → Run
process_one_recipient ctx cfg event opts r atts cc_bcc fuel w =
    loop (round ctx cfg event opts r atts cc_bcc) fuel 0 0 w
