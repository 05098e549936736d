-- ===== src/Consumer/Delivery/Copies.antt =====
-- The addresses of CC and BCC that a delivery keeps.
use anvil_notify.Prelude.{
  ℕ, ◌+◌, ◌≡◌, ◌≤◌, ◌<◌, ◌⊎◌, inl, inr, true, false, none, some, String, List, [], ◌∷◌, Bool-cases,
  Option-cases, arith,
}
use anvil_notify.Common.Email.{is_valid_email}
use anvil_notify.Common.Event.{Recipient, EmailOptions}
use anvil_notify.Filter.{check}
use anvil_notify.Consumer.World.{Context, World}
use anvil_notify.Consumer.Recipient.{blocked_reason}
use anvil_notify.Consumer.Delivery.{cc_bcc_allowed, allowed_copies, effective_cc_bcc}

-- One list is what a sieve keeps of another one: what it keeps has `P`, what it takes out has `Q`, and
-- the order stays.
pub data Sieve (P Q : Recipient → Type 0) : List Recipient → List Recipient → Type 0 where
  nothing : Sieve P Q [] []
  kept :
      {rs ss : List Recipient} (r : Recipient) → P r → Sieve P Q rs ss → Sieve P Q (r ∷ rs) (r ∷ ss)
  stripped :
      {rs ss : List Recipient} (r : Recipient) → Q r → Sieve P Q rs ss → Sieve P Q rs (r ∷ ss)

module _ (ctx : Context) (first end : ℕ) where
  -- A valid address that the configured filter passes, and that the block list of the database did not
  -- refuse when it was asked, which was from the call `first` on and before the call `end`. A block
  -- list that cannot be asked refuses nothing.
  abbrev pub Passed : Recipient → Type 0
  Passed r =
      (is_valid_email r.email ≡ true)
      × (blocked_reason (check ctx.to_lowercase ctx.filter r.email) ≡ none)
      × ((n : ℕ) × (first ≤ n)
          × (n < end)
          × (blocked_reason (ctx.block_list_check n r.email) ≡ none))

  -- An address that is not valid, or that the filter or, when it was asked, the block list refused.
  abbrev pub Refused : Recipient → Type 0
  Refused r =
      (is_valid_email r.email ≡ false)
      ⊎ (((reason : String) × (blocked_reason (check ctx.to_lowercase ctx.filter r.email)
              ≡ some reason))
          ⊎ ((n : ℕ) × (first ≤ n)
              × (n < end)
              × (reason : String) × (blocked_reason (ctx.block_list_check n r.email)
                  ≡ some reason)))

module _ (ctx : Context) where
  allowed_step : (r : Recipient) (w : World) → w.step ≤ (cc_bcc_allowed ctx r w).1.step
  unfolding cc_bcc_allowed
  allowed_step r w = ground arith

  copies_step : (rs : List Recipient) (w : World) → w.step ≤ (allowed_copies ctx rs w).1.step
  unfolding allowed_copies
  copies_step [] w = omega arith
  copies_step (r ∷ rs) w =
      omega (arith, allowed_step r w, copies_step rs (cc_bcc_allowed ctx r w).1)

  module _ (first end : ℕ) where
    -- One address is kept or taken out for what was answered about it.
    allowed-cases :
        (r : Recipient) (w : World)
        → first ≤ w.step
        → (cc_bcc_allowed ctx r w).1.step ≤ end
        → (((cc_bcc_allowed ctx r w).0 ≡ true) × Passed ctx first end r)
          ⊎ (((cc_bcc_allowed ctx r w).0 ≡ false) × Refused ctx first end r)
    unfolding cc_bcc_allowed
    allowed-cases r w lo hi = elim (Bool-cases (is_valid_email r.email)) [
      | inr y ↦ inr (rw (y, cc_bcc_allowed), inl y)
      | inl y ↦ elim (Option-cases (blocked_reason (check ctx.to_lowercase ctx.filter r.email))) [
        | inr (reason, z) ↦
            inr (rw (y, cc_bcc_allowed) (rw (z, cc_bcc_allowed)), inr (inl (reason, z)))
        | inl z ↦
            let asked : w.step + 1 ≤ end = ground (arith, hi, y, z) in
            let before : w.step < end = omega (arith, asked) in
            elim (Option-cases (blocked_reason (ctx.block_list_check w.step r.email))) [
              | inl x ↦ inl (
                rw (y, cc_bcc_allowed) (rw (z, cc_bcc_allowed) (rw (x, cc_bcc_allowed))),
                (y, z, (w.step, lo, before, x)),
              )
              | inr (reason, x) ↦ inr (
                rw (y, cc_bcc_allowed) (rw (z, cc_bcc_allowed) (rw (x, cc_bcc_allowed))),
                inr (inr (w.step, lo, before, reason, x)),
              )
            ]
      ]
    ]

    copies-Sieve :
        (rs : List Recipient) (w : World)
        → first ≤ w.step
        → (allowed_copies ctx rs w).1.step ≤ end
        → Sieve (Passed ctx first end) (Refused ctx first end) (allowed_copies ctx rs w).0 rs
    unfolding allowed_copies
    copies-Sieve [] w lo hi = nothing
    copies-Sieve (r ∷ rs) w lo hi =
        let w1 = (cc_bcc_allowed ctx r w).1 in
        let up = allowed_step r w in
        let rest = copies-Sieve rs w1 (omega (arith, lo, up)) hi in
        elim (allowed-cases r w lo (omega (arith, hi, copies_step rs w1))) [
          | inl (y, p) ↦ rw (y, allowed_copies) (kept r p rest)
          | inr (y, q) ↦ rw (y, allowed_copies) (stripped r q rest)
        ]

  -- The copies of a delivery are, in their order, the CC and the BCC addresses of the event, without
  -- those that are not valid, that the configured filter refuses, or that the block list of the
  -- database refused when it was asked in this step of the delivery; every other one is there. A block
  -- list that cannot be asked refuses nothing.
  pub effective_copies :
      (opts : EmailOptions) (w : World)
      → let (cc_bcc, w') = effective_cc_bcc ctx opts w in
        Sieve (Passed ctx w.step w'.step) (Refused ctx w.step w'.step) cc_bcc.cc opts.cc
        × Sieve (Passed ctx w.step w'.step) (Refused ctx w.step w'.step) cc_bcc.bcc opts.bcc
  unfolding effective_cc_bcc
  effective_copies opts w =
      let w1 = (allowed_copies ctx opts.cc w).1 in
      let w2 = (allowed_copies ctx opts.bcc w1).1 in
      let up = copies_step opts.cc w in
      let up' = copies_step opts.bcc w1 in
      (
        copies-Sieve w.step w2.step opts.cc w (omega arith) up',
        copies-Sieve w.step w2.step opts.bcc w1 up (omega arith),
      )
