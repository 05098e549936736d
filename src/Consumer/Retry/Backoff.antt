-- ===== src/Consumer/Retry/Backoff.antt =====
-- The lengths of the backoff sleeps.
use native.Mathlib.Nat.{pow-le-pow_right}
use anvil_notify.Prelude.{ℕ, ◌+◌, ◌*◌, ◌^◌, ◌≤◌, ◌≡◌, min, arith}
use anvil_notify.Consumer.Retry.{retry_delay_ms, rl_delay_secs}

-- A retry's sleep is the exact product, cut off at 30 minutes: neither the saturation at 64 bits nor
-- a wrap ever shows. With a base delay of at least a millisecond it is at least a millisecond,
-- and never shorter than the one before it.
pub retry_delay_exact :
    (base attempt : ℕ)
    → 1 ≤ base
    → (retry_delay_ms base attempt ≡ min (base * 2 ^ min attempt 10) 1800000)
      × (1 ≤ retry_delay_ms base attempt)
      × (retry_delay_ms base attempt ≤ retry_delay_ms base (attempt + 1))
unfolding retry_delay_ms
retry_delay_exact base attempt h =
    let p : 1 ≤ 2 ^ min attempt 10 =
      pow-le-pow_right {n = 2} (omega arith) {i = 0} {j = min attempt 10} (omega arith) in
    let q : 2 ^ min attempt 10 ≤ 2 ^ min (attempt + 1) 10 =
      pow-le-pow_right {n = 2} (omega arith) (omega arith) in
    let low : 1 ≤ base * 2 ^ min attempt 10 = grind arith in
    let up : base * 2 ^ min attempt 10 ≤ base * 2 ^ min (attempt + 1) 10 = grind arith in
    (omega (arith, low, up), omega (arith, low, up), omega (arith, low, up))

-- Each rate-limit wait sleeps between one and four minutes.
rl_delay_bounds :
    (rl_count : ℕ) → (60 ≤ rl_delay_secs (rl_count + 1)) × (rl_delay_secs (rl_count + 1) ≤ 240)
unfolding rl_delay_secs
rl_delay_bounds c =
    let low : 2 ^ 1 ≤ 2 ^ min (c + 1) 3 =
      pow-le-pow_right {n = 2} (omega arith) {i = 1} (omega arith) in
    let up : 2 ^ min (c + 1) 3 ≤ 2 ^ 3 =
      pow-le-pow_right {n = 2} (omega arith) {j = 3} (omega arith) in
    (omega (arith, low, up), omega (arith, low, up))
