-- ===== src/Consumer/Send.antt =====
-- crates/consumer/src/processor.rs, steps 6 and 7: the rate limit, the sender, the send, the rows.
use anvil_notify.Prelude.{
  ℕ, ◌+◌, Bool, true, false, String, str_eq, Option, none, some, List, [], ◌∷◌, if◌then◌else◌,
}
use anvil_notify.Common.Error.{
  AppError, database, mailer, template, rate_limited, queue, deserialize, not_found, unknown_status,
  permanent, is_permanent_mailer, Result, ok, err, is_ok,
}
use anvil_notify.Common.Event.{Uuid, GroupRetryMode}
use anvil_notify.RateLimiter.{TokenResult, wait_for_token}
use anvil_notify.Store.Log.{mark_sent}
use anvil_notify.Consumer.World.{Context, World, M, EmailMessage, EmailSender, db, tick}

pub data RecipientOutcome : Type 0 where
  sent : RecipientOutcome
  blocked : String → RecipientOutcome
  skipped : RecipientOutcome
  duplicate : ℕ → RecipientOutcome
  failed : AppError → RecipientOutcome
  group_failed_with_individual_rows : AppError → RecipientOutcome

unfoldable pub is_retryable : AppError → Bool
unfolding is_permanent_mailer
is_retryable (AppError.duplicate m) = false
is_retryable (not_found m) = false
is_retryable (template m) = false
is_retryable (AppError.blocked m) = false
is_retryable (unknown_status m) = false
is_retryable e = if is_permanent_mailer e then false else true

unfoldable pub error_reason_label : AppError → String
error_reason_label (rate_limited m) = "rate_limited"
error_reason_label (mailer m permanent) = "permanent"
error_reason_label (mailer m _) = "transient"
error_reason_label (AppError.blocked m) = "blocked"
error_reason_label (database m) = "database"
error_reason_label (template m) = "template"
error_reason_label (queue m) = "queue"
error_reason_label (not_found m) = "not_found"
error_reason_label (deserialize m) = "deserialize"
error_reason_label (unknown_status m) = "unknown_status"
error_reason_label (AppError.duplicate m) = "other"

-- Which rows are marked SENT after a send. The log's `to_count` is left out.
pub data SendTargets : Type 0 where
  individual : Uuid → String → SendTargets
  group : Uuid → String → List String → GroupRetryMode → SendTargets

abbrev pub token_outcome : TokenResult → Option RecipientOutcome
token_outcome TokenResult.acquired = none
token_outcome TokenResult.acquired_after_wait = none
token_outcome TokenResult.shutdown = some (failed (queue "service shutdown during rate-limit wait"))

-- `Some outcome` is the code's `Err(outcome)`.
unfoldable pub acquire_rate_limit_token : Context → M (Option RecipientOutcome)
acquire_rate_limit_token ctx w = (token_outcome (wait_for_token ctx.rate_limiter w.step), tick w)

-- SenderRegistry::resolve of crates/mailer/src/registry.rs.
abbrev pub account_of : String → List (String × EmailSender) → Option EmailSender
account_of name [] = none
account_of name ((n, s) ∷ r) = if str_eq n name then some s else account_of name r

unfoldable pub registry_resolve : List (String × EmailSender) → Option String → Option EmailSender
registry_resolve accounts none = none
registry_resolve accounts (some name) = account_of name accounts

unfoldable pub resolve_sender : Context → Option String → EmailSender
unfolding registry_resolve
resolve_sender ctx sender_account = elim (registry_resolve ctx.sender_registry sender_account) [
  | some s ↦ s
  | none ↦ ctx.sender
]

-- A row whose update fails is only logged.
unfoldable pub mark_sent_one : Context → Uuid → String → World → World
unfolding mark_sent
mark_sent_one ctx event_id email w = (db ctx (λ now. mark_sent now event_id email) w).1

unfoldable pub mark_sent_all : Context → Uuid → List String → World → World
unfolding mark_sent_one
mark_sent_all ctx event_id [] w = w
mark_sent_all ctx event_id (email ∷ r) w =
    mark_sent_all ctx event_id r (mark_sent_one ctx event_id email w)

unfoldable pub mark_sent_for_targets : Context → SendTargets → World → World
unfolding mark_sent_all
mark_sent_for_targets ctx (individual event_id email) w = mark_sent_one ctx event_id email w
mark_sent_for_targets ctx (group event_id primary secondaries mode) w =
    mark_sent_all ctx event_id secondaries (mark_sent_one ctx event_id primary w)

abbrev pub failure_outcome : SendTargets → AppError → RecipientOutcome
failure_outcome (individual event_id email) e = failed e
failure_outcome (group event_id primary secondaries GroupRetryMode.individual) e =
    group_failed_with_individual_rows e
failure_outcome (group event_id primary secondaries GroupRetryMode.whole) e = failed e

-- `sender.send(msg)`.
unfoldable pub send : EmailSender → EmailMessage → M (Result (Unit {0}))
send s msg w =
    let r = s w.step msg in (r, record w { step = w.step + 1; handed = (msg, is_ok r) ∷ w.handed })

unfoldable pub execute_send :
    Context → EmailMessage → Option String → SendTargets → M RecipientOutcome
unfolding acquire_rate_limit_token send
execute_send ctx msg sender_account targets w =
    let (token, w1) = acquire_rate_limit_token ctx w in
    elim token [
      | some outcome ↦ (outcome, w1)
      | none ↦
          let (reply, w2) = send (resolve_sender ctx sender_account) msg w1 in
          elim reply [
            | ok _ ↦ (sent, mark_sent_for_targets ctx targets w2)
            | err e ↦ (failure_outcome targets e, w2)
          ]
    ]
