-- ===== src/Outbox/Runs.antt =====
-- Runs of the outbox: polls and reaps in any order and in any surroundings, while the business
-- service writes new rows (`send_notification` in its database).
use anvil_notify.Prelude.{ℕ, ◌≤◌, ◌≡◌, refl, Bool, true, false, ◌∷◌, arith, All}
use anvil_notify.Outbox.Rows.{OutboxRow}
use anvil_notify.Outbox.Worker.{
  OutboxConfig, Surroundings, Worker, poll_once, reap, next_multiplier,
}
use anvil_notify.Outbox.Invariant.{is_sound, poll_once-IsSound, reap_once-IsSound}

pub data Step (cfg : OutboxConfig) : Worker → Worker → Type 0 where
  polled : (s : Surroundings) (w : Worker) → Step cfg w (poll_once s cfg w).1
  reaped : (s : Surroundings) (w : Worker) → Step cfg w (reap s cfg w)
  written :
      (r : OutboxRow) (w : Worker)
      → r.status ≡ "PENDING"
      → r.fail_count ≡ 0
      → Step cfg w (record w { rows = r ∷ w.rows })

pub data Reaches (cfg : OutboxConfig) : Worker → Worker → Type 0 where
  start : (w : Worker) → Reaches cfg w w
  then_step : {w1 w2 w3 : Worker} → Reaches cfg w1 w2 → Step cfg w2 w3 → Reaches cfg w1 w3

-- The surroundings play no part in soundness.
abbrev pub Sound : OutboxConfig → Worker → Type 0
Sound cfg w = All (λ r. is_sound cfg.max_publish_failures w.published r ≡ true) w.rows

written-is_sound :
    (cfg : OutboxConfig) (w : Worker) (r : OutboxRow)
    → 1 ≤ cfg.max_publish_failures
    → r.status ≡ "PENDING"
    → r.fail_count ≡ 0
    → is_sound cfg.max_publish_failures w.published r ≡ true
written-is_sound cfg w r h s c = rw (s, c) (ground (arith, h))

Step-Sound :
    {cfg : OutboxConfig} {w w' : Worker}
    → 1 ≤ cfg.max_publish_failures
    → Step cfg w w'
    → Sound cfg w
    → Sound cfg w'
Step-Sound {cfg} h (polled s w) k = poll_once-IsSound s cfg w k
Step-Sound {cfg} h (reaped s w) k = reap_once-IsSound s cfg w k
Step-Sound {cfg} h (written r w p c) k = (written-is_sound cfg w r h p c, k)

-- Whatever is done to an outbox that starts out sound, in whatever order and surroundings, a row
-- stands as PUBLISHED only when the broker acknowledged a publish of it, and a row is FAILED once
-- it has failed as often as the limit, where the limit is at least one.
pub reachable-Sound :
    (cfg : OutboxConfig) (w w' : Worker)
    → 1 ≤ cfg.max_publish_failures
    → Reaches cfg w w'
    → Sound cfg w
    → Sound cfg w'
reachable-Sound cfg w w' h r k = go r k
  where
    go : {a b : Worker} → Reaches cfg a b → Sound cfg a → Sound cfg b
    go (start a) k = k
    go (then_step r s) k = Step-Sound h s (go r k)

-- The idle multiplier stays between one and eight, and a poll that found rows sets it back to one.
next_multiplier_bounds :
    (busy : Bool) (m : ℕ)
    → 1 ≤ m
    → m ≤ 8
    → (1 ≤ next_multiplier busy m) × (next_multiplier busy m ≤ 8) × (next_multiplier true m ≡ 1)
unfolding next_multiplier
next_multiplier_bounds true m h k = (omega arith, omega arith, refl)
next_multiplier_bounds false m h k = (omega arith, omega arith, refl)
