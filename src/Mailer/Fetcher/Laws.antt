-- ===== src/Mailer/Fetcher/Laws.antt =====
-- What the fetched attachments are, and which error stands for those that were not fetched.
use anvil_notify.Prelude.{
  ℕ, zero, suc, ◌+◌, ◌≡◌, ◌≤◌, refl, ap, ◌∙◌, inl, inr, Bool, true, false, ◌&&◌, Option, none, some,
  List, [], ◌∷◌, length, ltb, leb, ◌==◌, all, Bool-cases, Option-cases, arith, if◌then◌else◌,
}
use anvil_notify.Common.Error.{AppError, is_permanent_mailer, Result, ok, err, Result-cases}
use anvil_notify.Common.Event.{Timestamp, AttachmentRef}
use anvil_notify.Consumer.World.{ResolvedAttachment}
use anvil_notify.Mailer.Fetcher.{
  Client, Net, fetch_max_retries, Body, read_error, body, HttpReply, network_error, response,
  read_body, classify, fetch_one, before_request, attempts, fetch_one_with_retry, validate_all,
  fetch_all, successes, failures, prefer, representative, collect, fetch_attachments_with_limit,
}

-- The attachment of a reference: its names, and no more bytes than the limit.
abbrev pub Resolves : ℕ → AttachmentRef → ResolvedAttachment → Type 0
Resolves max_bytes a r =
    (r.filename ≡ a.filename) × (r.content_type ≡ a.content_type) × (length r.bytes ≤ max_bytes)

abbrev pub ResolvesAll : ℕ → List AttachmentRef → List ResolvedAttachment → Type 0
ResolvesAll max_bytes [] [] = Unit
ResolvesAll max_bytes [] (r ∷ rs) = ⊥
ResolvesAll max_bytes (a ∷ as') [] = ⊥
ResolvesAll max_bytes (a ∷ as') (r ∷ rs) = Resolves max_bytes a r × ResolvesAll max_bytes as' rs

-- The same of a result, if it is one.
abbrev ResolvesIf : ℕ → AttachmentRef → Result ResolvedAttachment → Type 0
ResolvesIf max_bytes a (ok r) = Resolves max_bytes a r
ResolvesIf max_bytes a (err e) = Unit

abbrev Bounded : ℕ → Result (List ℕ) → Type 0
Bounded max_bytes (ok bytes) = length bytes ≤ max_bytes
Bounded max_bytes (err e) = Unit

and_assoc : (a b c : Bool) → (a && b) && c ≡ a && (b && c)
and_assoc true b c = refl
and_assoc false b c = refl

if_Bounded :
    (n : ℕ) (c : Bool) (x y : Result (List ℕ))
    → Bounded n x
    → (c ≡ false → Bounded n y)
    → Bounded n (if c then x else y)
if_Bounded n true x y p q = p
if_Bounded n false x y p q = q refl

read_body-Bounded : (a : AttachmentRef) (n : ℕ) (b : Body) → Bounded n (read_body a n b)
unfolding read_body
read_body-Bounded a n (read_error e) = tt
read_body-Bounded a n (body bytes) =
    if_Bounded n (ltb n (length bytes)) _ _ tt (λ h. ground (arith, h))

classify-Bounded : (a : AttachmentRef) (n : ℕ) (x : HttpReply) → Bounded n (classify a n x)
unfolding classify
classify-Bounded a n (network_error e) = tt
classify-Bounded a n (response status status_text b) = if_Bounded n (status == 429) _ _ tt λ _.
    if_Bounded n (leb 400 status && ltb status 500) _ _ tt
      λ _. if_Bounded n (leb 500 status && ltb status 600) _ _ tt λ _. read_body-Bounded a n b

module _ (client : Client) (n : ℕ) where
  attempts-ResolvesIf :
      (a : AttachmentRef) (left k : ℕ) (last : Option AppError) (s : Net)
      → ResolvesIf n a (attempts client a n left k last s).0
  unfolding attempts fetch_one
  attempts-ResolvesIf a zero k last s = tt
  attempts-ResolvesIf a (suc left) k last s =
      let s1 = (before_request client a k s).1 in
      elim (Option-cases (before_request client a k s).0) [
        | inr (e, y) ↦ rw (y, attempts) tt
        | inl y ↦ elim (Result-cases (fetch_one client a n s1).0) [
          | inl (bytes, z) ↦
              let b : Bounded n (fetch_one client a n s1).0 =
                classify-Bounded a n (client.send s1.step _) in
              let b' : length bytes ≤ n = rw z at b in
              rw (y, attempts) (rw (z, attempts) (refl, refl, b'))
          | inr (e, z) ↦ elim (Bool-cases (is_permanent_mailer e)) [
            | inl p ↦ rw (y, attempts) (rw (z, attempts) (rw (p, attempts) tt))
            | inr p ↦
                rw (y, attempts)
                  (rw (z, attempts)
                    (rw (p, attempts)
                      (attempts-ResolvesIf a left (k + 1) (some e) (fetch_one client a n s1).1)))
          ]
        ]
      ]

  -- Where nothing failed, every reference is resolved.
  resolve_step :
      (a : AttachmentRef) (as' : List AttachmentRef) (x : Result ResolvedAttachment)
      (xs : List (Result ResolvedAttachment))
      → ResolvesIf n a x
      → (failures xs ≡ [] → ResolvesAll n as' (successes xs))
      → failures (x ∷ xs) ≡ []
      → ResolvesAll n (a ∷ as') (successes (x ∷ xs))
  resolve_step a as' (ok r) xs p k e = (p, k e)
  resolve_step a as' (err x) xs p k e = absurd (cc e)

  fetch_all-ResolvesAll :
      (as' : List AttachmentRef) (s : Net)
      → failures (fetch_all client n as' s).0 ≡ []
      → ResolvesAll n as' (successes (fetch_all client n as' s).0)
  unfolding fetch_all fetch_one_with_retry
  fetch_all-ResolvesAll [] s e = tt
  fetch_all-ResolvesAll (a ∷ as') s e =
      let (x, s1) = fetch_one_with_retry client a n s in
      resolve_step a as' x (fetch_all client n as' s1).0
        (attempts-ResolvesIf a (fetch_max_retries + 1) 0 none s) (fetch_all-ResolvesAll as' s1) e

collect_ok :
    {A : Type 0} (rs : List A) (es : List AppError) (x : List A)
    → collect rs es ≡ ok x
    → (es ≡ []) × (rs ≡ x)
unfolding collect
collect_ok rs [] x e = (refl, cc e)
collect_ok rs (x ∷ es) y e = absurd (cc e)

module _ (client : Client) (refs : List AttachmentRef) (event_timestamp : Timestamp) (n : ℕ)
    (s : Net) where
  -- When the attachments of an event are fetched, they come in the order of their references, one for
  -- each, with the declared name and content type, and none is longer than the limit.
  pub fetch_resolves :
      (atts : List ResolvedAttachment)
      → (fetch_attachments_with_limit client refs event_timestamp n s).0 ≡ ok atts
      → ResolvesAll n refs atts
  unfolding fetch_attachments_with_limit
  fetch_resolves atts e =
      let s1 = (validate_all client event_timestamp refs s).1 in
      elim (Option-cases (validate_all client event_timestamp refs s).0) [
        | inr (x, y) ↦ absurd (cc (rw (y, fetch_attachments_with_limit) at e))
        | inl y ↦
            let results = (fetch_all client n refs s1).0 in
            let (q, t) =
              collect_ok (successes results) (failures results) atts
                (rw (y, fetch_attachments_with_limit) at e) in
            rw t at (fetch_all-ResolvesAll client n refs s1 q)
      ]

prefer_permanent :
    (acc e : AppError)
    → is_permanent_mailer (prefer acc e) ≡ is_permanent_mailer acc && is_permanent_mailer e
prefer_permanent acc e = elim (Bool-cases (is_permanent_mailer acc)) [
  | inl p ↦ elim (Bool-cases (is_permanent_mailer e)) [
    | inl q ↦ rw (p, q, p)
    | inr q ↦ rw (p, q, q)
  ]
  | inr p ↦ rw (p, p)
]

representative_permanent :
    (acc : AppError) (es : List AppError)
    → is_permanent_mailer (representative acc es)
      ≡ is_permanent_mailer acc && all is_permanent_mailer es
unfolding representative
representative_permanent acc [] = elim (Bool-cases (is_permanent_mailer acc)) [
  | inl p ↦ rw p
  | inr p ↦ rw p
]
representative_permanent acc (e ∷ es) =
    representative_permanent (prefer acc e) es
    ∙ ap (λ (b : Bool). b && all is_permanent_mailer es) (prefer_permanent acc e)
    ∙ and_assoc (is_permanent_mailer acc) (is_permanent_mailer e) (all is_permanent_mailer es)

collect_permanent :
    {A : Type 0} (rs : List A) (es : List AppError) (e : AppError)
    → collect rs es ≡ err e
    → is_permanent_mailer e ≡ all is_permanent_mailer es
unfolding collect
collect_permanent rs [] e h = absurd (cc h)
collect_permanent rs (x ∷ es) e h =
    let q : representative x es ≡ e = cc h in rw q at (representative_permanent x es)

module _ (client : Client) (refs : List AttachmentRef) (event_timestamp : Timestamp) (n : ℕ)
    (s : Net) where
  -- When the references are valid and the fetch of the attachments fails, its error is permanent just
  -- when the error of every attachment that was not fetched is: one that may pass makes the whole
  -- worth another try.
  pub fetch_permanent :
      (validate_all client event_timestamp refs s).0 ≡ none
      → (e : AppError) → (fetch_attachments_with_limit client refs event_timestamp n s).0 ≡ err e
      → is_permanent_mailer e
        ≡ all is_permanent_mailer
            (failures (fetch_all client n refs (validate_all client event_timestamp refs s).1).0)
  unfolding fetch_attachments_with_limit
  fetch_permanent y e h =
      let results = (fetch_all client n refs (validate_all client event_timestamp refs s).1).0 in
      collect_permanent (successes results) (failures results) e
        (rw (y, fetch_attachments_with_limit) at h)
