-- ===== src/Store/Table.antt =====
-- The rows of `notification_log`, each joined with its row of `email_notification_log`, and the
-- SQL statements as functions on the table. Only rows of the channel `email` are kept, to which
-- every statement of the store is confined. The order of the rows has no meaning.
use anvil_notify.Prelude.{
  ℕ, Bool, ◌&&◌, String, str_eq, Option, List, [], ◌∷◌, find, keep, length, if◌then◌else◌,
}
use anvil_notify.Common.Json.{Json}
use anvil_notify.Common.Event.{Uuid, Timestamp}

pub record EmailDetail : Type 0 where
  pub recipient_email : String
  pub recipient_name : Option String
  pub from_override : Option Json
  pub sender_account : Option String
  pub send_mode : String
  pub group_retry_mode : Option String
  pub cc : Option Json
  pub bcc : Option Json
  pub attachments : Option Json
  pub to_recipients : Option Json

pub record Row : Type 0 where
  pub event_id : Uuid
  pub event_type : String
  pub recipient_id : String
  pub status : String
  pub retry_count : ℕ
  pub total_attempts : ℕ
  pub last_error : Option String
  pub payload : Json
  pub event_timestamp : Timestamp
  pub created_at : Timestamp
  pub updated_at : Timestamp
  pub detail : Option EmailDetail

abbrev pub Table : Type 0
Table = List Row

-- The idempotency key `(event_id, 'email', recipient_id)`.
abbrev pub has_key : Uuid → String → Row → Bool
has_key event_id recipient_id r = str_eq r.event_id event_id && str_eq r.recipient_id recipient_id

abbrev pub lookup : Uuid → String → Table → Option Row
lookup event_id recipient_id = find (has_key event_id recipient_id)

-- `UPDATE … SET … WHERE …`, and its `rows_affected`.
abbrev pub update : (Row → Bool) → (Row → Row) → Table → Table
update p f [] = []
update p f (r ∷ t) = (if p r then f r else r) ∷ update p f t

abbrev pub rows_affected : (Row → Bool) → Table → ℕ
rows_affected p t = length (keep p t)
