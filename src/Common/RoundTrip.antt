-- ===== src/Common/RoundTrip.antt =====
-- The status of crates/common/src/log.rs and the text that stands for it in the database.
use anvil_notify.Prelude.{
  ◌≡◌, ◌↔◌, refl, ap, ◌∙◌, ◌⊎◌, inl, inr, Bool-cases, String, str_eq, str_eq_iff,
}
use anvil_notify.Common.Error.{ok, err, unknown_status}
use anvil_notify.Common.Status.{
  NotificationStatus, pending, sent, failed, blocked, skipped, as_str, try_from,
}

try_from-as_str : (s : NotificationStatus) → try_from (as_str s) ≡ ok s
unfolding try_from as_str
try_from-as_str pending = refl
try_from-as_str sent = refl
try_from-as_str failed = refl
try_from-as_str blocked = refl
try_from-as_str skipped = refl

-- A text is that of a status, or it is refused.
status_or_refused :
    (t : String)
    → ((s : NotificationStatus) × (t ≡ as_str s)) ⊎ (try_from t ≡ err (unknown_status t))
unfolding try_from as_str
status_or_refused t = elim (Bool-cases (str_eq t "PENDING")) [
  | inl y ↦ inl (pending, (str_eq_iff t "PENDING").0 y)
  | inr p ↦ elim (Bool-cases (str_eq t "SENT")) [
    | inl y ↦ inl (sent, (str_eq_iff t "SENT").0 y)
    | inr s ↦ elim (Bool-cases (str_eq t "FAILED")) [
      | inl y ↦ inl (failed, (str_eq_iff t "FAILED").0 y)
      | inr f ↦ elim (Bool-cases (str_eq t "BLOCKED")) [
        | inl y ↦ inl (blocked, (str_eq_iff t "BLOCKED").0 y)
        | inr b ↦ elim (Bool-cases (str_eq t "SKIPPED")) [
          | inl y ↦ inl (skipped, (str_eq_iff t "SKIPPED").0 y)
          | inr k ↦ inr (rw (p, s, f, b, k))
        ]
      ]
    ]
  ]
]

as_str-try_from : (t : String) (s : NotificationStatus) → try_from t ≡ ok s → t ≡ as_str s
as_str-try_from t s h = elim (status_or_refused t) [
  | inl (s0, e) ↦
      let same : s0 ≡ s = cc (h, ap try_from e, try_from-as_str s0) in e ∙ ap as_str same
  | inr e ↦ absurd (cc (h, e))
]

-- A text is read as a status exactly when it is the text that the status is written as: the two
-- functions are inverse to each other, and every other text is refused.
pub try_from_iff : (t : String) (s : NotificationStatus) → (try_from t ≡ ok s) ↔ (t ≡ as_str s)
try_from_iff t s = (as_str-try_from t s, λ e. ap try_from e ∙ try_from-as_str s)
