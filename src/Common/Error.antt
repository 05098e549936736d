-- ===== src/Common/Error.antt =====
-- crates/common/src/error.rs: the error type, and the results that carry it.
use anvil_notify.Prelude.{◌≡◌, refl, ◌⊎◌, inl, inr, Bool, true, false, String, concat, [], ◌∷◌}

-- MailerKind.
pub data MailerKind : Type 0 where
  transient permanent : MailerKind

-- AppError. The payloads of third-party errors (sqlx, serde_json) are kept as their text.
pub data AppError : Type 0 where
  database : String → AppError
  mailer : String → MailerKind → AppError
  template : String → AppError
  rate_limited : String → AppError
  blocked : String → AppError
  queue : String → AppError
  deserialize : String → AppError
  not_found : String → AppError
  duplicate : String → AppError
  unknown_status : String → AppError

abbrev pub permanent_mailer : String → AppError
permanent_mailer msg = mailer msg permanent

abbrev pub transient_mailer : String → AppError
transient_mailer msg = mailer msg transient

unfoldable pub is_permanent_mailer : AppError → Bool
is_permanent_mailer (mailer m permanent) = true
is_permanent_mailer _ = false

-- The `Display` text that thiserror derives from the `#[error]` attributes.
unfoldable pub to_string : AppError → String
to_string (database m) = concat ("database error: " ∷ m ∷ [])
to_string (mailer m k) = concat ("mailer error: " ∷ m ∷ [])
to_string (template m) = concat ("template error: " ∷ m ∷ [])
to_string (rate_limited m) = concat ("rate limited by mail provider: " ∷ m ∷ [])
to_string (blocked m) = concat ("recipient blocked: " ∷ m ∷ [])
to_string (queue m) = concat ("queue error: " ∷ m ∷ [])
to_string (deserialize m) = concat ("deserialization error: " ∷ m ∷ [])
to_string (not_found m) = concat ("not found: " ∷ m ∷ [])
to_string (duplicate m) = concat ("duplicate event (already processed): " ∷ m ∷ [])
to_string (unknown_status m) = concat ("unknown email status value in database: '" ∷ m ∷ "'" ∷ [])

-- Result<T, AppError>.
pub data Result {ℓ} (A : Type ℓ) : Type ℓ where
  ok : A → Result A
  err : AppError → Result A

abbrev pub is_ok {ℓ} : {A : Type ℓ} → Result A → Bool
is_ok (ok a) = true
is_ok (err e) = false

infixl 5 ◌>>=◌
abbrev pub ◌>>=◌ {ℓ κ} : {A : Type ℓ} {B : Type κ} → Result A → (A → Result B) → Result B
ok a >>= f = f a
err e >>= f = err e

pub Result-cases {ℓ} :
    {A : Type ℓ} (r : Result A) → ((a : A) × (r ≡ ok a)) ⊎ ((e : AppError) × (r ≡ err e))
Result-cases (ok a) = inl (a, refl)
Result-cases (err e) = inr (e, refl)

-- A chain that succeeds has a first step that does.
pub bind_ok {ℓ κ} :
    {A : Type ℓ} {B : Type κ} (x : Result A) (f : A → Result B) (b : B)
    → (x >>= f) ≡ ok b
    → (a : A) × (x ≡ ok a) × (f a ≡ ok b)
bind_ok (ok a) f b e = (a, refl, e)
bind_ok (err x) f b e = absurd (cc e)
