-- ===== src/Api/Retry.antt =====
-- crates/api/src/handlers.rs: the two handlers that retry a delivery. The database, the clock and the
-- broker are functions of the number of calls made; what other requests and tasks do to the table
-- between two calls is `others`. The bodies of the answers are left out.
pub mod Published
pub mod Restored
use anvil_notify.Prelude.{
  ℕ, ◌+◌, Bool, String, str_eq, concat, Option, none, some, List, [], ◌∷◌, any, is_empty,
  if◌then◌else◌,
}
use anvil_notify.Common.Error.{
  AppError, Result, ok, err, database, queue, not_found, permanent_mailer, to_string,
}
use anvil_notify.Common.Event.{Uuid, Timestamp, NotificationEvent}
use anvil_notify.Common.Email.{is_valid_email}
use anvil_notify.Filter.{RecipientFilter}
use anvil_notify.Store.Table.{Table}
use anvil_notify.Store.Log.{reset_for_retry, reset_all_failed_for_event, revert_to_failed}
use anvil_notify.Store.Queries.{
  NotificationLog, EventDeliveryDetail, get_by_event_id, get_recipients_for_event,
  get_event_delivery_detail,
}
use anvil_notify.Store.Invariant.{Statement}
use anvil_notify.Consumer.World.{execute_all}
use anvil_notify.Api.Publisher.{Lapin, Publisher, publish}
use anvil_notify.Api.Replay.{Serde, Decoded, decoded, malformed, is_skipped, replay}

-- ApiState, and what lies outside the program.
pub record ApiState : Type 0 where
  pub filter : RecipientFilter
  pub to_lowercase : String → String
  pub serde : Serde
  pub lapin : Lapin
  pub now : ℕ → Timestamp
  pub db_fault : ℕ → Option String
  pub others : ℕ → List (Timestamp × Statement)

-- What a request works on.
pub record Site : Type 0 where
  pub step : ℕ
  pub table : Table
  pub publisher : Publisher

abbrev pub M : Type 0 → Type 0
M A = Site → Result A × Site

-- One call of the database, which takes effect or fails as a whole.
unfoldable pub store : {A : Type 0} → ApiState → (Timestamp → Table → Result A × Table) → M A
store state op s =
    let t = execute_all (state.others s.step) s.table in
    elim (state.db_fault s.step) [
      | some msg ↦ (err (database msg), record s { step = s.step + 1; table = t })
      | none ↦
          let (r, t') = op (state.now s.step) t in (r, record s { step = s.step + 1; table = t' })
    ]

-- A call, and what follows if it succeeds.
infixl 5 ◌then_do◌
abbrev pub ◌then_do◌ : {A B : Type 0} → Result A × Site → (A → M B) → Result B × Site
(ok a, s) then_do f = f a s
(err e, s) then_do f = (err e, s)

unfoldable pub send_body : ApiState → Decoded (List ℕ) → M (Unit {0})
send_body state (malformed e) s = (err (queue e), s)
send_body state (decoded body) s =
    let (r, p) = publish state.lapin body s.publisher in (r, record s { publisher = p })

-- The envelope, serialised and published.
unfoldable pub send_replay : ApiState → Result NotificationEvent → M (Unit {0})
unfolding send_body
send_replay state (err e) s = (err e, s)
send_replay state (ok event) s = send_body state (state.serde.to_vec event) s

abbrev pub load_logs : ApiState → Uuid → Option (List String) → M (List NotificationLog)
load_logs state event_id only_emails =
    store state λ now t. (get_recipients_for_event event_id only_emails t, t)

abbrev pub load_detail : ApiState → Uuid → M EventDeliveryDetail
load_detail state event_id = store state λ now t. (get_event_delivery_detail event_id t, t)

unfoldable pub republish_event : ApiState → Uuid → Option (List String) → M (Unit {0})
unfolding store send_replay
republish_event state event_id only_emails s =
    load_logs state event_id only_emails s then_do λ logs s1.
    load_detail state event_id s1 then_do λ detail s2.
    send_replay state
      (replay state.serde state.to_lowercase state.filter (state.now s2.step) event_id only_emails
        logs detail)
      s2

abbrev pub abort_reason : AppError → String
abort_reason e = concat ("manual retry aborted: re-enqueue failed: " ∷ to_string e ∷ [])

-- What follows a replay that failed: a revert, whose own failure is only logged.
unfoldable pub or_revert :
    ApiState → Uuid → List String → Result (Unit {0}) × Site → Result (Unit {0}) × Site
unfolding store
or_revert state event_id emails (ok _, s) = (ok tt, s)
or_revert state event_id emails (err e, s) =
    let (_, s') =
      store state
        (λ now t.
          let (n, t') = revert_to_failed now event_id emails (abort_reason e) t in (ok n, t'))
        s in
    (err e, s')

unfoldable pub republish_or_revert : ApiState → Uuid → List String → M (Unit {0})
unfolding republish_event or_revert
republish_or_revert state event_id only_emails s =
    or_revert state event_id only_emails (republish_event state event_id (some only_emails) s)

abbrev pub reset_row : ApiState → Uuid → String → M (Unit {0})
reset_row state event_id email = store state λ now t. reset_for_retry now event_id email t

-- POST /emails/:event_id/recipients/:email/retry.
unfoldable pub retry_recipient : ApiState → Uuid → String → M (Unit {0})
unfolding store republish_or_revert
retry_recipient state event_id email s =
    if is_valid_email email
    then reset_row state event_id email s
      then_do (λ _ s1. republish_or_revert state event_id (email ∷ []) s1)
    else (err (permanent_mailer (concat ("'" ∷ email ∷ "' is not a valid email address" ∷ []))), s)

unfoldable pub nothing_failed : Uuid → Bool → AppError
nothing_failed event_id has_skipped =
    if has_skipped
    then permanent_mailer (
        concat (
          "Event " ∷ event_id
          ∷ " was skipped at validation time (no email channel, empty recipients, or recipient count exceeded limit) and cannot be retried. The publisher must re-publish a corrected event."
          ∷ []))
    else not_found (concat ("No FAILED recipients for event " ∷ event_id ∷ []))

abbrev pub load_all : ApiState → Uuid → M (List NotificationLog)
load_all state event_id = store state λ now t. (get_by_event_id event_id t, t)

-- POST /emails/:event_id/retry, after the reset. The answer has the recipients that were reset.
unfoldable pub answer_reset : ApiState → Uuid → List String → M (List String)
unfolding store nothing_failed republish_or_revert
answer_reset state event_id [] s = load_all state event_id s then_do λ logs s1.
    (err (nothing_failed event_id (any (λ l. is_skipped l.status) logs)), s1)
answer_reset state event_id (e ∷ es) s =
    republish_or_revert state event_id (e ∷ es) s then_do λ _ s1. (ok (e ∷ es), s1)

abbrev pub reset_failed : ApiState → Uuid → M (List String)
reset_failed state event_id =
    store state
      λ now t. let (emails, t') = reset_all_failed_for_event now event_id t in (ok emails, t')

unfoldable pub retry_event : ApiState → Uuid → M (List String)
unfolding store answer_reset
retry_event state event_id s =
    reset_failed state event_id s then_do λ emails s1. answer_reset state event_id emails s1
