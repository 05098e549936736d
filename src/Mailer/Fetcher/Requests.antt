-- ===== src/Mailer/Fetcher/Requests.antt =====
-- How many requests a fetch makes, and when it makes none.
use anvil_notify.Prelude.{
  ℕ, zero, suc, ◌+◌, ◌*◌, ◌≡◌, ◌≢◌, ◌≤◌, refl, ap, inl, inr, true, Option, none, some, List, [],
  ◌∷◌, ◌++◌, length, Bool-cases, Option-cases, arith,
}
use anvil_notify.Common.Error.{AppError, is_permanent_mailer, is_ok, Result-cases}
use anvil_notify.Common.Event.{Timestamp, AttachmentRef}
use anvil_notify.Common.Attachment.{validate}
use anvil_notify.Mailer.Fetcher.{
  Client, Net, fetch_max_retries, next, fetch_one, wait_before, before_request, attempts,
  fetch_one_with_retry, validate_all, fetch_all, fetch_attachments_with_limit,
}

module _ (client : Client) where
  waiting_requests :
      (a : AttachmentRef) (k : ℕ) (s : Net) → (before_request client a k s).1.requests ≡ s.requests
  unfolding before_request wait_before
  waiting_requests a k s = elim (Bool-cases (client.cancelled s.step)) [
    | inl y ↦ rw (y, before_request)
    | inr y ↦ rw (y, before_request) (waited k)
  ]
    where
      waited : (j : ℕ) → (wait_before client a j (next s)).1.requests ≡ s.requests
      waited zero = refl
      waited (suc j) = refl

  validating_requests :
      (ts : Timestamp) (as' : List AttachmentRef) (s : Net)
      → (validate_all client ts as' s).1.requests ≡ s.requests
  unfolding validate_all
  validating_requests ts [] s = refl
  validating_requests ts (a ∷ as') s = elim (Option-cases (validate a ts (client.now s.step))) [
    | inr (msg, y) ↦ rw (y, validate_all)
    | inl y ↦ elim (Bool-cases (client.cancelled (s.step + 1))) [
      | inl z ↦ rw (y, validate_all) (rw (z, validate_all))
      | inr z ↦
          rw (y, validate_all) (rw (z, validate_all) (validating_requests ts as' (next (next s))))
    ]
  ]

  -- A reference that is not valid refuses the whole list, wherever it stands.
  refused :
      (ts : Timestamp) (bad : AttachmentRef)
      → ((t : Timestamp) → validate bad ts t ≢ none)
      → (before after : List AttachmentRef) (s : Net)
      → (validate_all client ts (before ++ bad ∷ after) s).0 ≢ none
  unfolding validate_all
  refused ts bad never [] after s = elim (Option-cases (validate bad ts (client.now s.step))) [
    | inl y ↦ absurd (never (client.now s.step) y)
    | inr (msg, y) ↦ rw (y, validate_all) (λ q. cc q)
  ]
  refused ts bad never (a ∷ before) after s =
      elim (Option-cases (validate a ts (client.now s.step))) [
        | inr (msg, y) ↦ rw (y, validate_all) (λ q. cc q)
        | inl y ↦ elim (Bool-cases (client.cancelled (s.step + 1))) [
          | inl z ↦ rw (y, validate_all) (rw (z, validate_all) (λ q. cc q))
          | inr z ↦
              rw (y, validate_all)
                (rw (z, validate_all) (refused ts bad never before after (next (next s))))
        ]
      ]

  module _ (n : ℕ) where
    abbrev asked : Net → ℕ
    asked s = length s.requests

    attempts_requests :
        (a : AttachmentRef) (left k : ℕ) (last : Option AppError) (s : Net)
        → asked (attempts client a n left k last s).1 ≤ asked s + left
    unfolding attempts fetch_one
    attempts_requests a zero k last s = omega arith
    attempts_requests a (suc left) k last s =
        let s1 = (before_request client a k s).1 in
        let s2 = (fetch_one client a n s1).1 in
        let same : asked s1 ≡ asked s = ap length (waiting_requests a k s) in
        elim (Option-cases (before_request client a k s).0) [
          | inr (e, y) ↦ rw (y, attempts) (omega (arith, same))
          | inl y ↦ elim (Result-cases (fetch_one client a n s1).0) [
            | inl (bytes, z) ↦ rw (y, attempts) (rw (z, attempts) (omega (arith, same)))
            | inr (e, z) ↦ elim (Bool-cases (is_permanent_mailer e)) [
              | inl p ↦ rw (y, attempts) (rw (z, attempts) (rw (p, attempts) (omega (arith, same))))
              | inr p ↦
                  let rest = attempts_requests a left (k + 1) (some e) s2 in
                  rw (y, attempts) (rw (z, attempts) (rw (p, attempts) (omega (arith, same, rest))))
            ]
          ]
        ]

    fetch_all_requests :
        (as' : List AttachmentRef) (s : Net)
        → asked (fetch_all client n as' s).1 ≤ asked s + 4 * length as'
    unfolding fetch_all fetch_one_with_retry
    fetch_all_requests [] s = omega arith
    fetch_all_requests (a ∷ as') s =
        let s1 = (fetch_one_with_retry client a n s).1 in
        omega
          (arith, attempts_requests a (fetch_max_retries + 1) 0 none s, fetch_all_requests as' s1)

    module _ (refs : List AttachmentRef) (ts : Timestamp) (s : Net) where
      -- The fetch of the attachments of an event makes at most four requests for each.
      pub fetch_requests :
          length (fetch_attachments_with_limit client refs ts n s).1.requests
          ≤ length s.requests + 4 * length refs
      unfolding fetch_attachments_with_limit
      fetch_requests =
          let s1 = (validate_all client ts refs s).1 in
          let same : asked s1 ≡ asked s = ap length (validating_requests ts refs s) in
          elim (Option-cases (validate_all client ts refs s).0) [
            | inr (x, y) ↦ rw (y, fetch_attachments_with_limit) (omega (arith, same))
            | inl y ↦
                rw (y, fetch_attachments_with_limit)
                  (omega (arith, same, fetch_all_requests refs s1))
          ]

    -- A list of attachments with a reference in it that is valid at no time: the fetch fails, and no
    -- request is made, not for the others either.
    pub invalid_asks_nothing :
        (ts : Timestamp) (bad : AttachmentRef)
        → ((t : Timestamp) → validate bad ts t ≢ none)
        → (before after : List AttachmentRef) (s : Net)
        → let (result, s') = fetch_attachments_with_limit client (before ++ bad ∷ after) ts n s in
          (is_ok result ≢ true) × (s'.requests ≡ s.requests)
    unfolding fetch_attachments_with_limit
    invalid_asks_nothing ts bad never before after s =
        elim (Option-cases (validate_all client ts (before ++ bad ∷ after) s).0) [
          | inl y ↦ absurd (refused ts bad never before after s y)
          | inr (x, y) ↦
              rw (y, fetch_attachments_with_limit)
                (λ q. cc q, validating_requests ts (before ++ bad ∷ after) s)
        ]
