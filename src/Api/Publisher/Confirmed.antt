-- ===== src/Api/Publisher/Confirmed.antt =====
-- What a publish that succeeds has done: crates/api/src/publisher.rs.
use anvil_notify.Prelude.{
  ℕ, zero, suc, ◌+◌, ◌≡◌, refl, inl, inr, Bool, Option-cases, none, some, List, ◌∷◌, arith,
}
use anvil_notify.Common.Error.{ok, Result-cases}
use anvil_notify.Api.Publisher.{
  Lapin, Publisher, Reply, timed_out, confirmation, broken, channel, await_confirm, try_publish,
  publish_from, publish,
}

-- One more message went to the broker, and the broker answered for it.
abbrev pub Confirmed : List ℕ → Publisher → Publisher → Type 0
Confirmed body p p' = (acked : Bool) × (p'.sent ≡ (body, confirmation acked) ∷ p.sent)

module _ (l : Lapin) (body : List ℕ) where
  channel_sent : (p : Publisher) → (channel l p).1.sent ≡ p.sent
  unfolding channel
  channel_sent p = ground arith

  await_confirm_ok :
      (r : Reply) → await_confirm r ≡ ok tt → (acked : Bool) × (r ≡ confirmation acked)
  unfolding await_confirm
  await_confirm_ok timed_out h = cc h
  await_confirm_ok (confirmation b) h = (b, refl)
  await_confirm_ok (broken e) h = cc h

  -- A turn that ends the loop with success, and one that does not end it.
  try_publish_ok :
      (n : ℕ) (p : Publisher)
      → (try_publish l body n p).0 ≡ some (ok tt)
      → Confirmed body p (try_publish l body n p).1
  unfolding try_publish
  try_publish_ok n p h = elim (Result-cases (channel l p).0) [
    | inr (e, q) ↦ absurd (ground (arith, q, h))
    | inl (u, q) ↦
        let p1 = (channel l p).1 in
        elim (Option-cases (l.basic_publish p1.step body)) [
          | inr (e, q2) ↦ absurd (ground (arith, q, q2, h))
          | inl q2 ↦
              let (b, c) = await_confirm_ok (l.confirm p1.step body) (ground (arith, q, q2, h)) in
              (b, ground (arith, q, q2, c, channel_sent p))
        ]
  ]

  try_publish_unfinished :
      (n : ℕ) (p : Publisher)
      → (try_publish l body n p).0 ≡ none
      → (try_publish l body n p).1.sent ≡ p.sent
  unfolding try_publish
  try_publish_unfinished n p h = ground (arith, channel_sent p)

  publish_from_ok :
      (left n : ℕ) (p : Publisher)
      → (publish_from l body n left p).0 ≡ ok tt
      → Confirmed body p (publish_from l body n left p).1
  unfolding publish_from
  publish_from_ok zero n p h = cc h
  publish_from_ok (suc left) n p h = elim (Option-cases (try_publish l body n p).0) [
    | inl q ↦
        let (b, c) =
          publish_from_ok left (n + 1) (try_publish l body n p).1 (ground (arith, q, h)) in
        (b, ground (arith, q, c, try_publish_unfinished n p q))
    | inr (r, q) ↦
        let (b, c) = try_publish_ok n p (ground (arith, q, h)) in (b, ground (arith, q, c))
  ]

  pub publish_ok :
      (p : Publisher) → (publish l body p).0 ≡ ok tt → Confirmed body p (publish l body p).1
  unfolding publish
  publish_ok = publish_from_ok 2 0
