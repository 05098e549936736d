-- ===== src/RateLimiter.antt =====
-- crates/rate_limiter/src/lib.rs: the token bucket in front of the mail server. The bucket itself is
-- the crate `governor`: `Governor` is what the code asks of it at each moment (the number of a step).
use anvil_notify.Prelude.{ℕ, Bool, Option, none, some, ◌==◌, max, if◌then◌else◌}

pub data TokenResult : Type 0 where
  acquired acquired_after_wait shutdown : TokenResult

pub record RateLimitConfig : Type 0 where
  pub emails_per_second : ℕ
  pub burst_size : ℕ

pub record Governor : Type 0 where
  -- `check().is_ok()`.
  pub check : ℕ → Bool
  -- In the `select!`, `until_ready()` completes before the cancellation.
  pub ready_first : ℕ → Bool

pub record MailRateLimiter : Type 0 where
  pub inner : Option Governor

-- `make` is `RateLimiter::direct` on a quota of so many a second and that burst.
unfoldable pub new : (ℕ → ℕ → Governor) → RateLimitConfig → MailRateLimiter
new make cfg =
    if cfg.emails_per_second == 0
    then record { inner = none }
    else record { inner = some (make cfg.emails_per_second (max cfg.burst_size 1)) }

unfoldable pub wait_for_token : MailRateLimiter → ℕ → TokenResult
wait_for_token l n = elim l.inner [
  | none ↦ acquired
  | some limiter ↦
      if limiter.check n
      then acquired
      else if limiter.ready_first n
      then acquired_after_wait
      else shutdown
]
