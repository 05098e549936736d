-- ===== src/Outbox/Worker.antt =====
-- crates/outbox/src/worker.rs: publishing a row, a poll, and the pace of the polls.
use anvil_notify.Prelude.{
  ℕ, ◌≡◌, refl, ◌⊎◌, inl, inr, ◌+◌, ◌-◌, ◌*◌, ◌^◌, min, Bool, true, false, String, Option, none,
  some, List, [], ◌∷◌, is_empty, if◌then◌else◌,
}
use anvil_notify.Common.Json.{get, as_u64}
use anvil_notify.Common.Event.{Uuid, Timestamp, NotificationEvent}
use anvil_notify.Outbox.Rows.{
  OutboxRow, Rows, sort_by, fetch_pending_batch, mark_published, record_publish_failure,
  reap_stale_in_progress,
}
use anvil_notify.Outbox.Event.{Serde, envelope}

-- The fields of OutboxConfig (crates/outbox/src/config.rs) that a poll reads. The exchange and the
-- routing key are the broker's own affair.
pub record OutboxConfig : Type 0 where
  pub batch_size : ℕ
  pub max_publish_failures : ℕ
  pub stale_lock_timeout_secs : ℕ

-- What the broker makes of a publish: an ack, a nack, no confirm in time, or a broken channel.
pub data Confirm : Type 0 where
  ack nack timeout : Confirm
  broken : String → Confirm

-- What lies outside the worker, at each step: the clock, the database's failures and other
-- transactions' locks, the broker.
pub record Surroundings : Type 0 where
  pub serde : Serde
  pub now : ℕ → Timestamp
  pub db_fault : ℕ → Option String
  pub locked : ℕ → Uuid → Bool
  pub broker : ℕ → NotificationEvent → Confirm
  pub connected : ℕ → Bool

-- A publish that the broker was asked for: the row, the event, and whether it was acknowledged.
pub record Publish : Type 0 where
  pub row_id : Uuid
  pub event : NotificationEvent
  pub acked : Bool

pub record Worker : Type 0 where
  pub step : ℕ
  pub rows : Rows
  pub published : List Publish

pub data Outcome : Type 0 where
  done : Outcome
  failed : String → Outcome

pub Outcome-cases : (o : Outcome) → (o ≡ done) ⊎ ((e : String) × (o ≡ failed e))
Outcome-cases done = inl refl
Outcome-cases (failed e) = inr (e, refl)

abbrev pub is_ack : Confirm → Bool
is_ack ack = true
is_ack _ = false

-- The text of the failure, which is only logged; the row's id and the timeout are left out of it.
abbrev pub complaint : Confirm → String
complaint ack = ""
complaint nack = "broker returned Nack"
complaint timeout = "broker publish confirm timed out"
complaint (broken e) = e

-- A statement that either takes effect or fails as a whole.
unfoldable pub db : Surroundings → (Timestamp → Rows → Rows) → Worker → Outcome × Worker
db s op w = elim (s.db_fault w.step) [
  | some e ↦ (failed e, record w { step = w.step + 1 })
  | none ↦ (done, record w { step = w.step + 1; rows = op (s.now w.step) w.rows })
]

abbrev pub asked : Uuid → NotificationEvent → Bool → Worker → Worker
asked id event acked w = record w {
  step = w.step + 1;
  published = record { row_id = id; event = event; acked = acked } ∷ w.published;
}

abbrev pub ask_broker : Surroundings → Uuid → NotificationEvent → Worker → Confirm × Worker
ask_broker s id event w = let c = s.broker w.step event in (c, asked id event (is_ack c) w)

-- Publish before mark.
unfoldable pub publish_and_mark : Surroundings → OutboxRow → Worker → Outcome × Worker
unfolding envelope db
publish_and_mark s row w = elim (envelope s.serde row) [
  | none ↦ (failed "outbox row has malformed recipients field — skipping", w)
  | some event ↦
      let (confirm, w') = ask_broker s row.id event w in
      if is_ack confirm
      then db s (λ now. mark_published now row.id) w'
      else (failed (complaint confirm), w')
]

-- The rows of a batch, in order; a failure is recorded, and a dead channel ends the batch.
unfoldable pub publish_batch : Surroundings → OutboxConfig → Rows → Worker → Outcome × Worker
unfolding publish_and_mark
publish_batch s cfg [] w = (done, w)
publish_batch s cfg (row ∷ rows) w =
    let (o, w1) = publish_and_mark s row w in
    let w2 = (db s (λ now. record_publish_failure row.id cfg.max_publish_failures) w1).1 in
    let w3 = record w2 { step = w2.step + 1 } in
    let after_success = publish_batch s cfg rows w1 in
    let after_failure = publish_batch s cfg rows w3 in
    elim o [
      | done ↦ after_success
      | failed e ↦ if s.connected w2.step then after_failure else (failed e, w3)
    ]

-- `unwrap_or(u64::MAX)`.
abbrev pub priority_of : OutboxRow → ℕ
priority_of r = elim (get r.payload "priority") [
  | none ↦ 2 ^ 64 - 1
  | some v ↦ elim (as_u64 v) [ none ↦ 2 ^ 64 - 1 | some n ↦ n ]
]

pub data Poll : Type 0 where
  had_rows : Bool → Poll
  broken_channel : String → Poll

abbrev pub poll_result : Outcome → Poll
poll_result done = had_rows true
poll_result (failed e) = broken_channel e

unfoldable pub poll_once : Surroundings → OutboxConfig → Worker → Poll × Worker
unfolding publish_batch sort_by
poll_once s cfg w =
    let (rows, t) = fetch_pending_batch (s.now w.step) (s.locked w.step) cfg.batch_size w.rows in
    elim (s.db_fault w.step) [
      | some e ↦ (had_rows false, record w { step = w.step + 1 })
      | none ↦
          let w1 = record w { step = w.step + 1; rows = t } in
          if is_empty rows
          then (had_rows false, w1)
          else let (o, w2) = publish_batch s cfg (sort_by priority_of rows) w1 in
            (poll_result o, w2)
    ]

-- MAX_IDLE_MULTIPLIER, and the multiplier after a poll.
abbrev pub max_idle_multiplier : ℕ
max_idle_multiplier = 8

unfoldable pub next_multiplier : Bool → ℕ → ℕ
next_multiplier busy m = if busy then 1 else min (m * 2) max_idle_multiplier

-- One turn of `run_reaper`.
unfoldable pub reap : Surroundings → OutboxConfig → Worker → Worker
unfolding db
reap s cfg w = (db s (λ now. reap_stale_in_progress now cfg.stale_lock_timeout_secs) w).1
