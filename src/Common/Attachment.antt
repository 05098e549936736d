-- ===== src/Common/Attachment.antt =====
-- crates/common/src/event.rs, `AttachmentRef::validate`: the checks of an attachment's reference
-- that need no network, and when they stop to hold.
use text.Mathlib.Text.{starts_with}
use anvil_notify.Prelude.{
  ℕ, refl, ◌+◌, ◌*◌, ◌<◌, ◌≢◌, ◌⊎◌, ◌↔◌, true, false, sym, str_eq_iff, Bool-cases, ◌-◌, ◌/◌, ◌≤◌,
  ◌≡◌, inl, inr, not, ◌&&◌, ◌||◌, Option-cases, String, str_eq, concat, Option, none, some, [], ◌∷◌,
  ltb, show, arith, if◌then◌else◌,
}
use anvil_notify.Common.Event.{Timestamp, AttachmentRef}
use anvil_notify.Common.Amqp.{contains}

-- Whole seconds since the event; none before it.
abbrev pub age_secs : Timestamp → Timestamp → ℕ
age_secs event_timestamp check_time = (check_time - event_timestamp) / 1000

unfoldable pub expiry : AttachmentRef → ℕ → Option String
expiry a age = elim a.max_age_secs [
  | none ↦ none
  | some max_age ↦
      if ltb max_age age
      then some (
          concat (
            "permanent: attachment '"
            ∷ a.filename
            ∷ "' URL has expired (max_age_secs="
            ∷ show max_age
            ∷ ", age="
            ∷ show age
            ∷ "s)"
            ∷ []))
      else none
]

-- The error, if there is one.
unfoldable pub validate : AttachmentRef → Timestamp → Timestamp → Option String
unfolding expiry contains
validate a event_timestamp check_time =
    if str_eq a.url ""
    then some "permanent: attachment url must not be empty"
    else if not (starts_with a.url "http://") && not (starts_with a.url "https://")
    then some (
        concat
          ("permanent: attachment url '" ∷ a.url ∷ "' must start with http:// or https://" ∷ []))
    else if str_eq a.filename ""
    then some "permanent: attachment filename must not be empty"
    else if contains a.filename "/" || contains a.filename "\\"
    then some (
        concat (
          "permanent: attachment filename '" ∷ a.filename ∷ "' must not contain path separators"
          ∷ []))
    else if not (contains a.content_type "/")
    then some (
        concat (
          "permanent: attachment content_type '" ∷ a.content_type ∷ "' is not a valid MIME type"
          ∷ []))
    else expiry a (age_secs event_timestamp check_time)

-- A reference that can be fetched at a time: a web address, a plain file name, a content type with its
-- two parts, and no more whole seconds since the event than the limit, if there is one.
pub record IsUsable (a : AttachmentRef) (event_timestamp check_time : Timestamp) : Type 0 where
  pub web : (starts_with a.url "http://" ≡ true) ⊎ (starts_with a.url "https://" ≡ true)
  pub named : a.filename ≢ ""
  pub plain : (contains a.filename "/" ≡ false) × (contains a.filename "\\" ≡ false)
  pub typed : contains a.content_type "/" ≡ true
  pub fresh :
      (max_age : ℕ)
      → a.max_age_secs ≡ some max_age
      → check_time < event_timestamp + (max_age + 1) * 1000

not_empty : (s : String) → str_eq s "" ≡ false → s ≢ ""
not_empty s n e = absurd (cc ((str_eq_iff s "").1 e, n))

empty_not : (s : String) → s ≢ "" → str_eq s "" ≡ false
empty_not s n = elim (Bool-cases (str_eq s "")) [
  | inl y ↦ absurd (n ((str_eq_iff s "").0 y))
  | inr z ↦ z
]

expiry-fresh :
    (a : AttachmentRef) (ts now : Timestamp)
    → (expiry a (age_secs ts now) ≡ none)
      ↔ ((max_age : ℕ) → a.max_age_secs ≡ some max_age → now < ts + (max_age + 1) * 1000)
unfolding expiry
expiry-fresh a ts now = elim (Option-cases a.max_age_secs) [
  | inl q ↦ (λ e max_age y. absurd (cc (q, y)), λ f. rw (q, expiry) refl)
  | inr (limit, q) ↦ (
    λ e max_age y.
        let same : limit ≡ max_age = cc (q, y) in
        let e' = rw (q, expiry) at e in rw (sym same) (within limit (ground (arith, e'))),
    λ f. rw (q, expiry) (ground (arith, without limit (f limit q))),
  )
]
  where
    within : (limit : ℕ) → age_secs ts now ≤ limit → now < ts + (limit + 1) * 1000
    within limit h = omega (arith, h)

    without : (limit : ℕ) → now < ts + (limit + 1) * 1000 → age_secs ts now ≤ limit
    without limit h = omega (arith, h)

not_web :
    (url : String)
    → str_eq url "" ≡ true
    → (not (starts_with url "http://") && not (starts_with url "https://")) ≡ true
not_web url y = rw ((str_eq_iff url "").0 y) refl

-- The validation passes exactly the references that can be fetched at that time.
pub validate_iff :
    (a : AttachmentRef) (event_timestamp check_time : Timestamp)
    → (validate a event_timestamp check_time ≡ none) ↔ IsUsable a event_timestamp check_time
unfolding validate
validate_iff a ts now = (to, from)
  where
    to : validate a ts now ≡ none → IsUsable a ts now
    to e = record {
      web = elim (Bool-cases (starts_with a.url "http://")) [
        | inl y ↦ inl y
        | inr n ↦ inr (ground (arith, e, n))
      ];
      named = not_empty a.filename (ground (arith, e));
      plain = (ground (arith, e), ground (arith, e));
      typed = ground (arith, e);
      fresh = (expiry-fresh a ts now).0 (ground (arith, e));
    }

    from : IsUsable a ts now → validate a ts now ≡ none
    from u =
        let young = (expiry-fresh a ts now).1 u.fresh in
        let name = empty_not a.filename u.named in
        let bare = not_web a.url in ground (arith, young, name, bare, u.web, u.plain, u.typed)
