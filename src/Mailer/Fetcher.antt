-- ===== src/Mailer/Fetcher.antt =====
-- crates/mailer/src/fetcher.rs. The fetches that `join_all` polls together are made one after the
-- other here, each with its own retries. The clock, the shutdown and the HTTP client are functions of
-- the number of steps made.
pub mod Laws
pub mod Requests
use anvil_notify.Prelude.{
  ℕ, zero, suc, ◌+◌, ◌-◌, ◌*◌, ◌^◌, min, Bool, true, false, not, ◌&&◌, String, concat, show, Option,
  none, some, List, [], ◌∷◌, length, ltb, leb, ◌==◌, if◌then◌else◌,
}
use anvil_notify.Common.Error.{
  AppError, permanent_mailer, transient_mailer, rate_limited, is_permanent_mailer, Result, ok, err,
}
use anvil_notify.Common.Event.{Timestamp, AttachmentRef}
use anvil_notify.Common.Attachment.{validate}
use anvil_notify.Consumer.World.{ResolvedAttachment}

pub record HttpRequest : Type 0 where
  pub url : String
  pub bearer : Option String

-- A body that is read whole, or an error while it is read.
pub data Body : Type 0 where
  read_error : String → Body
  body : List ℕ → Body

-- `reqwest`: a failure of the network, or a status with its text and the body.
pub data HttpReply : Type 0 where
  network_error : String → HttpReply
  response : ℕ → String → Body → HttpReply

pub record Client : Type 0 where
  pub send : ℕ → HttpRequest → HttpReply
  pub now : ℕ → Timestamp
  pub cancelled : ℕ → Bool

-- The requests made and the sleeps (in seconds), newest first.
pub record Net : Type 0 where
  pub step : ℕ
  pub requests : List HttpRequest
  pub slept : List ℕ

abbrev pub next : Net → Net
next s = record s { step = s.step + 1 }

abbrev pub max_attachment_bytes : ℕ
max_attachment_bytes = 10 * 1024 * 1024

abbrev pub fetch_max_retries : ℕ
fetch_max_retries = 3

abbrev pub is_client_error : ℕ → Bool
is_client_error status = leb 400 status && ltb status 500

abbrev pub is_server_error : ℕ → Bool
is_server_error status = leb 500 status && ltb status 600

unfoldable pub read_body : AttachmentRef → ℕ → Body → Result (List ℕ)
read_body a max_bytes (read_error e) =
    err (transient_mailer (concat ("attachment '" ∷ a.filename ∷ "' read error: " ∷ e ∷ [])))
read_body a max_bytes (body bytes) =
    if ltb max_bytes (length bytes)
    then err (
        permanent_mailer (
          concat (
            "attachment '"
            ∷ a.filename
            ∷ "' exceeds size limit ("
            ∷ show (length bytes)
            ∷ " > "
            ∷ show max_bytes
            ∷ " bytes)"
            ∷ [])))
    else ok bytes

-- What `fetch_one` makes of the reply.
unfoldable pub classify : AttachmentRef → ℕ → HttpReply → Result (List ℕ)
unfolding read_body
classify a max_bytes (network_error e) =
    err
      (transient_mailer (concat ("attachment fetch network error '" ∷ a.filename ∷ "': " ∷ e ∷ [])))
classify a max_bytes (response status status_text b) =
    if status == 429
    then err
        (rate_limited (concat ("attachment '" ∷ a.filename ∷ "' source returned HTTP 429" ∷ [])))
    else if is_client_error status
    then err (
        permanent_mailer (
          concat (
            "attachment '" ∷ a.filename ∷ "' fetch returned HTTP " ∷ status_text ∷ " (" ∷ a.url
            ∷ ")" ∷ [])))
    else if is_server_error status
    then err (
        transient_mailer (
          concat (
            "attachment '" ∷ a.filename ∷ "' fetch returned HTTP " ∷ status_text ∷ " — will retry"
            ∷ [])))
    else read_body a max_bytes b

abbrev pub request_of : AttachmentRef → HttpRequest
request_of a = record { url = a.url; bearer = a.fetch_token }

unfoldable pub fetch_one : Client → AttachmentRef → ℕ → Net → Result (List ℕ) × Net
unfolding classify
fetch_one client a max_bytes s = (
  classify a max_bytes (client.send s.step (request_of a)),
  record s { step = s.step + 1; requests = request_of a ∷ s.requests },
)

abbrev pub shutdown_error : String → AttachmentRef → AppError
shutdown_error phase a =
    transient_mailer
      (concat ("shutdown requested during " ∷ phase ∷ " of '" ∷ a.filename ∷ "'" ∷ []))

abbrev pub delay_secs : ℕ → ℕ
delay_secs attempt = 2 ^ min (attempt - 1) 3

-- The `select!` of the sleep before a retry and the shutdown: the error, if the shutdown wins.
unfoldable pub wait_before : Client → AttachmentRef → ℕ → Net → Option AppError × Net
wait_before client a zero s = (none, s)
wait_before client a (suc n) s = (
  if client.cancelled s.step then some (shutdown_error "fetch retry" a) else none,
  record s { step = s.step + 1; slept = delay_secs (suc n) ∷ s.slept },
)

-- The checks before a request: the shutdown, and the sleep before a retry.
unfoldable pub before_request : Client → AttachmentRef → ℕ → Net → Option AppError × Net
unfolding wait_before
before_request client a attempt s =
    if client.cancelled s.step
    then (some (shutdown_error "fetch" a), next s)
    else wait_before client a attempt (next s)

abbrev pub resolved : AttachmentRef → List ℕ → ResolvedAttachment
resolved a bytes = record { filename = a.filename; content_type = a.content_type; bytes = bytes }

abbrev pub given_up : AttachmentRef → Option AppError → AppError
given_up a (some e) = e
given_up a none = transient_mailer (
    concat (
      "attachment '"
      ∷ a.filename
      ∷ "' fetch failed after "
      ∷ show fetch_max_retries
      ∷ " retries"
      ∷ []))

-- The attempts that are left, with the error of the one before.
unfoldable pub attempts :
    Client → AttachmentRef → ℕ → ℕ → ℕ → Option AppError → Net → Result ResolvedAttachment × Net
unfolding before_request fetch_one
attempts client a max_bytes zero attempt last_err s = (err (given_up a last_err), s)
attempts client a max_bytes (suc left) attempt last_err s =
    let (stop, s1) = before_request client a attempt s in
    let (reply, s2) = fetch_one client a max_bytes s1 in
    elim stop [
      | some e ↦ (err e, s1)
      | none ↦ elim reply [
        | ok bytes ↦ (ok (resolved a bytes), s2)
        | err e ↦ elim (is_permanent_mailer e) [
          | true ↦ (err e, s2)
          | false ↦ attempts client a max_bytes left (attempt + 1) (some e) s2
        ]
      ]
    ]

unfoldable pub fetch_one_with_retry :
    Client → AttachmentRef → ℕ → Net → Result ResolvedAttachment × Net
unfolding attempts
fetch_one_with_retry client a max_bytes s =
    attempts client a max_bytes (fetch_max_retries + 1) 0 none s

-- Step 1: the first refusal.
unfoldable pub validate_all : Client → Timestamp → List AttachmentRef → Net → Option AppError × Net
unfolding validate
validate_all client event_timestamp [] s = (none, s)
validate_all client event_timestamp (a ∷ as') s =
    elim (validate a event_timestamp (client.now s.step)) [
      | some msg ↦ (some (permanent_mailer msg), next s)
      | none ↦ elim (client.cancelled (s.step + 1)) [
        | true ↦ (
          some (transient_mailer "shutdown requested during attachment validation"),
          next (next s),
        )
        | false ↦ validate_all client event_timestamp as' (next (next s))
      ]
    ]

-- Step 2: a result for each attachment, in order.
unfoldable pub fetch_all :
    Client → ℕ → List AttachmentRef → Net → List (Result ResolvedAttachment) × Net
unfolding fetch_one_with_retry
fetch_all client max_bytes [] s = ([], s)
fetch_all client max_bytes (a ∷ as') s =
    let (x, s1) = fetch_one_with_retry client a max_bytes s in
    let (xs, s2) = fetch_all client max_bytes as' s1 in (x ∷ xs, s2)

-- Step 3.
abbrev pub successes : {A : Type 0} → List (Result A) → List A
successes [] = []
successes (ok a ∷ xs) = a ∷ successes xs
successes (err e ∷ xs) = successes xs

abbrev pub failures : {A : Type 0} → List (Result A) → List AppError
failures [] = []
failures (ok a ∷ xs) = failures xs
failures (err e ∷ xs) = e ∷ failures xs

abbrev pub prefer : AppError → AppError → AppError
prefer acc e = if is_permanent_mailer acc && not (is_permanent_mailer e) then e else acc

unfoldable pub representative : AppError → List AppError → AppError
unfolding is_permanent_mailer
representative acc [] = acc
representative acc (e ∷ es) = representative (prefer acc e) es

unfoldable pub collect : {A : Type 0} → List A → List AppError → Result (List A)
unfolding representative
collect resolved [] = ok resolved
collect resolved (e ∷ es) = err (representative e es)

unfoldable pub fetch_attachments_with_limit :
    Client → List AttachmentRef → Timestamp → ℕ → Net → Result (List ResolvedAttachment) × Net
unfolding validate_all fetch_all collect
fetch_attachments_with_limit client refs event_timestamp max_bytes s =
    let (refused, s1) = validate_all client event_timestamp refs s in
    elim refused [
      | some e ↦ (err e, s1)
      | none ↦
          let (results, s2) = fetch_all client max_bytes refs s1 in
          (collect (successes results) (failures results), s2)
    ]

unfoldable pub fetch_attachments :
    Client → List AttachmentRef → Timestamp → Net → Result (List ResolvedAttachment) × Net
unfolding fetch_attachments_with_limit
fetch_attachments client refs event_timestamp s =
    fetch_attachments_with_limit client refs event_timestamp max_attachment_bytes s
