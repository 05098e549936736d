-- ===== src/Store/Queries.antt =====
-- crates/store/src/notification_log.rs: the queries of the rows of one event. `ORDER BY created_at`
-- leaves rows of the same time in any order; here they keep that of the table, which has no meaning.
use anvil_notify.Prelude.{
  ◌&&◌, Bool, String, str_eq, Option, none, some, List, [], ◌∷◌, take, keep, leb, contains_text,
  min, if◌then◌else◌,
}
use anvil_notify.Common.Error.{Result, ok, err, ◌>>=◌, not_found}
use anvil_notify.Common.Status.{NotificationStatus, try_from}
use anvil_notify.Common.Json.{Json}
use anvil_notify.Common.Event.{Uuid, Timestamp}
use anvil_notify.Store.Table.{EmailDetail, Row, Table}

-- The columns that are passed on as they are stay in `row`.
pub record NotificationLog : Type 0 where
  pub row : Row
  pub recipient_email : String
  pub recipient_name : Option String
  pub status : NotificationStatus

pub record EventDeliveryDetail : Type 0 where
  pub event_type : String
  pub payload : Json
  pub event_timestamp : Timestamp
  pub earliest_created_at : Timestamp
  pub from_override : Option Json
  pub sender_account : Option String
  pub send_mode : Option String
  pub group_retry_mode : Option String
  pub attachments : Option Json
  pub cc : Option Json
  pub bcc : Option Json

insert_created : Row → Table → Table
insert_created x [] = x ∷ []
insert_created x (y ∷ ys) =
    if leb x.created_at y.created_at then x ∷ y ∷ ys else y ∷ insert_created x ys

unfoldable pub by_created_at : Table → Table
unfolding insert_created
by_created_at [] = []
by_created_at (x ∷ xs) = insert_created x (by_created_at xs)

-- `COALESCE(e.recipient_email, n.recipient_id)`.
abbrev pub address_of : Row → String
address_of r = elim r.detail [ none ↦ r.recipient_id | some d ↦ d.recipient_email ]

abbrev pub name_of : Row → Option String
name_of r = elim r.detail [ none ↦ none | some d ↦ d.recipient_name ]

unfoldable pub to_log : Row → Result NotificationLog
to_log r = do
  status ← try_from r.status
  ok (record {
    row = r;
    recipient_email = address_of r;
    recipient_name = name_of r;
    status = status;
  })

unfoldable pub to_logs : Table → Result (List NotificationLog)
unfolding to_log
to_logs [] = ok []
to_logs (r ∷ rs) = do log ← to_log r; logs ← to_logs rs; ok (log ∷ logs)

-- The rows that the SELECT returns, or the error where there are none.
unfoldable pub logs_of : Uuid → Table → Result (List NotificationLog)
unfolding to_logs
logs_of event_id [] = err (not_found event_id)
logs_of event_id (r ∷ rs) = to_logs (r ∷ rs)

unfoldable pub get_by_event_id : Uuid → Table → Result (List NotificationLog)
unfolding by_created_at logs_of
get_by_event_id event_id t =
    logs_of event_id (take 500 (by_created_at (keep (λ r. str_eq r.event_id event_id) t)))

abbrev pub is_addressed : Uuid → List String → Row → Bool
is_addressed event_id emails r = str_eq r.event_id event_id && contains_text (address_of r) emails

unfoldable pub get_recipients_for_event :
    Uuid → Option (List String) → Table → Result (List NotificationLog)
unfolding by_created_at logs_of get_by_event_id
get_recipients_for_event event_id (some (e ∷ es)) t =
    logs_of event_id (take 500 (by_created_at (keep (is_addressed event_id (e ∷ es)) t)))
get_recipients_for_event event_id _ t = get_by_event_id event_id t

-- The rows that an inner join with `email_notification_log` keeps, each with its detail.
unfoldable pub joined : Table → List (Row × EmailDetail)
joined [] = []
joined (r ∷ rs) = elim r.detail [ none ↦ joined rs | some d ↦ (r, d) ∷ joined rs ]

earliest : Timestamp → List (Row × EmailDetail) → Timestamp
earliest n [] = n
earliest n ((r, d) ∷ rs) = earliest (min n r.created_at) rs

-- The first row's columns; the assertions of debug builds are left out.
unfoldable pub delivery_detail : Uuid → List (Row × EmailDetail) → Result EventDeliveryDetail
unfolding earliest
delivery_detail event_id [] = err (not_found event_id)
delivery_detail event_id ((first, d) ∷ rows) = ok (record {
  event_type = first.event_type;
  payload = first.payload;
  event_timestamp = first.event_timestamp;
  earliest_created_at = earliest first.created_at rows;
  from_override = d.from_override;
  sender_account = d.sender_account;
  send_mode = some d.send_mode;
  group_retry_mode = d.group_retry_mode;
  attachments = d.attachments;
  cc = d.cc;
  bcc = d.bcc;
})

unfoldable pub get_event_delivery_detail : Uuid → Table → Result EventDeliveryDetail
unfolding by_created_at joined delivery_detail
get_event_delivery_detail event_id t =
    delivery_detail event_id (joined (by_created_at (keep (λ r. str_eq r.event_id event_id) t)))
