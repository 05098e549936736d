-- ===== src/Store/Log.antt =====
-- The operations of `EmailNotificationStore`. Each takes the database's clock, `now()`, and returns
-- its result with the table that it leaves. A statement that the database refuses is not here but in
-- Consumer/World: there every call may fail and leave the table as it was.
use anvil_notify.Prelude.{
  ◌≡◌, ℕ, ◌+◌, ◌*◌, Bool, ◌&&◌, ◌||◌, String, str_eq, concat, Option, none, some, List, [], ◌∷◌,
  map, ltb, ◌==◌, keep, contains_text, if◌then◌else◌,
}
use anvil_notify.Common.Error.{Result, ok, err, not_found}
use anvil_notify.Common.Status.{try_from}
use anvil_notify.Common.Json.{Json}
use anvil_notify.Common.Event.{Uuid, Timestamp}
use anvil_notify.Store.Table.{Row, Table, has_key, lookup, update, rows_affected}

pub data InsertResult : Type 0 where
  inserted : InsertResult
  duplicate : ℕ → String → InsertResult

-- EmailInsertPendingArgs.
pub record InsertArgs : Type 0 where
  pub event_id : Uuid
  pub event_type : String
  pub recipient_email : String
  pub payload : Json
  pub event_timestamp : Timestamp
  pub recipient_name : Option String
  pub from_override : Option Json
  pub attachments : Option Json
  pub sender_account : Option String
  pub cc : Option Json
  pub bcc : Option Json
  pub send_mode : String
  pub group_retry_mode : Option String
  pub to_recipients : Option Json

-- The row that the two INSERT statements write; the columns left out take their defaults.
abbrev pub pending_row : Timestamp → InsertArgs → Row
pending_row now a = record {
  event_id = a.event_id;
  event_type = a.event_type;
  recipient_id = a.recipient_email;
  status = "PENDING";
  retry_count = 0;
  total_attempts = 0;
  last_error = none;
  payload = a.payload;
  event_timestamp = a.event_timestamp;
  created_at = now;
  updated_at = now;
  detail = some (record {
    recipient_email = a.recipient_email;
    recipient_name = a.recipient_name;
    from_override = a.from_override;
    sender_account = a.sender_account;
    send_mode = a.send_mode;
    group_retry_mode = a.group_retry_mode;
    cc = a.cc;
    bcc = a.bcc;
    attachments = a.attachments;
    to_recipients = a.to_recipients;
  });
}

-- `ON CONFLICT … DO UPDATE SET updated_at = notification_log.updated_at` changes nothing.
unfoldable pub insert_pending : Timestamp → InsertArgs → Table → InsertResult × Table
insert_pending now a t = elim (lookup a.event_id a.recipient_email t) [
  | some r ↦ (duplicate r.retry_count r.status, t)
  | none ↦ (inserted, pending_row now a ∷ t)
]

module _ (now : Timestamp) (a : InsertArgs) (t : Table) where
  pub insert_pending_new :
      lookup a.event_id a.recipient_email t ≡ none
      → insert_pending now a t ≡ (inserted, pending_row now a ∷ t)
  unfolding insert_pending
  insert_pending_new e = rw (e, insert_pending)

  pub insert_pending_old :
      (r : Row)
      → lookup a.event_id a.recipient_email t ≡ some r
      → insert_pending now a t ≡ (duplicate r.retry_count r.status, t)
  unfolding insert_pending
  insert_pending_old r e = rw (e, insert_pending)

-- One transaction: the results in the order of the arguments.
unfoldable pub insert_pending_batch :
    Timestamp → List InsertArgs → Table → List InsertResult × Table
insert_pending_batch now [] t = ([], t)
insert_pending_batch now (a ∷ as') t =
    let (r, t') = insert_pending now a t in
    let (rs, t'') = insert_pending_batch now as' t' in (r ∷ rs, t'')

-- The result of an UPDATE that must hit a row.
abbrev pub must_hit : String → Uuid → String → (Row → Row) → Table → Result (Unit {0}) × Table
must_hit op event_id recipient_id f t =
    if rows_affected (has_key event_id recipient_id) t == 0
    then (err (not_found (concat (op ∷ ": no row for " ∷ event_id ∷ "/" ∷ recipient_id ∷ []))), t)
    else (ok tt, update (has_key event_id recipient_id) f t)

unfoldable pub mark_sent : Timestamp → Uuid → String → Table → Result (Unit {0}) × Table
mark_sent now event_id recipient_id =
    must_hit "mark_sent" event_id recipient_id
      λ r. record r { status = "SENT"; total_attempts = r.total_attempts + 1; updated_at = now }

unfoldable pub mark_failed :
    Timestamp → Uuid → String → String → Bool → Table → Result (Unit {0}) × Table
mark_failed now event_id recipient_id error_msg exhausted =
    must_hit "mark_failed" event_id recipient_id λ r. record r {
      retry_count = r.retry_count + 1;
      total_attempts = r.total_attempts + 1;
      last_error = some error_msg;
      status = if exhausted then "FAILED" else "PENDING";
      updated_at = now;
    }

unfoldable pub mark_blocked : Timestamp → Uuid → String → String → Table → Result (Unit {0}) × Table
mark_blocked now event_id recipient_id reason =
    must_hit "mark_blocked" event_id recipient_id
      λ r. record r { status = "BLOCKED"; last_error = some reason; updated_at = now }

abbrev pub skipped_row : Timestamp → Uuid → String → String → String → Timestamp → Json → Row
skipped_row now event_id event_type recipient_id reason event_timestamp payload = record {
  event_id = event_id;
  event_type = event_type;
  recipient_id = recipient_id;
  status = "SKIPPED";
  retry_count = 0;
  total_attempts = 0;
  last_error = some reason;
  payload = payload;
  event_timestamp = event_timestamp;
  created_at = now;
  updated_at = now;
  detail = none;
}

-- `ON CONFLICT … DO NOTHING`.
unfoldable pub mark_skipped :
    Timestamp
    → Uuid
    → String
    → String
    → String
    → Timestamp
    → Json
    → Table
    → Result (Unit {0}) × Table
mark_skipped now event_id event_type recipient_id reason event_timestamp payload t =
    elim (lookup event_id recipient_id t) [
      | some r ↦ (ok tt, t)
      | none ↦ (
        ok tt,
        skipped_row now event_id event_type recipient_id reason event_timestamp payload ∷ t,
      )
    ]

module _ (now : Timestamp) (event_id : Uuid) (event_type recipient_id reason : String)
    (ts : Timestamp) (payload : Json) (t : Table) where
  pub mark_skipped_new :
      lookup event_id recipient_id t ≡ none
      → mark_skipped now event_id event_type recipient_id reason ts payload t
        ≡ (ok tt, skipped_row now event_id event_type recipient_id reason ts payload ∷ t)
  unfolding mark_skipped
  mark_skipped_new e = rw (e, mark_skipped)

  pub mark_skipped_old :
      (r : Row)
      → lookup event_id recipient_id t ≡ some r
      → mark_skipped now event_id event_type recipient_id reason ts payload t ≡ (ok tt, t)
  unfolding mark_skipped
  mark_skipped_old r e = rw (e, mark_skipped)

unfoldable pub get_by_event_and_recipient : Uuid → String → Table → Result Row
get_by_event_and_recipient event_id recipient_id t = elim (lookup event_id recipient_id t) [
  | some r ↦ elim (try_from r.status) [ ok status ↦ ok r | err e ↦ err e ]
  | none ↦ err (not_found (concat (event_id ∷ "/" ∷ recipient_id ∷ [])))
]

abbrev pub is_retry_candidate : Row → Bool
is_retry_candidate r = str_eq r.status "FAILED" || str_eq r.status "BLOCKED"

abbrev pub reset : Timestamp → Row → Row
reset now r = record r { status = "PENDING"; retry_count = 0; last_error = none; updated_at = now }

unfoldable pub reset_for_retry : Timestamp → Uuid → String → Table → Result (Unit {0}) × Table
reset_for_retry now event_id recipient_id t =
    let hit = λ (r : Row). has_key event_id recipient_id r && is_retry_candidate r in
    if rows_affected hit t == 0
    then (
      err (
          not_found
            (concat ("No FAILED or BLOCKED record for " ∷ event_id ∷ "/" ∷ recipient_id ∷ []))),
      t,
    )
    else (ok tt, update hit (reset now) t)

abbrev pub is_failed_of : Uuid → Row → Bool
is_failed_of event_id r = str_eq r.event_id event_id && str_eq r.status "FAILED"

-- `RETURNING recipient_id`.
unfoldable pub reset_all_failed_for_event : Timestamp → Uuid → Table → List String × Table
reset_all_failed_for_event now event_id t = (
  map (λ r. r.recipient_id) (keep (is_failed_of event_id) t),
  update (is_failed_of event_id) (reset now) t,
)

abbrev pub is_pending_among : Uuid → List String → Row → Bool
is_pending_among event_id ids r =
    str_eq r.event_id event_id && contains_text r.recipient_id ids && str_eq r.status "PENDING"

unfoldable pub revert_to_failed : Timestamp → Uuid → List String → String → Table → ℕ × Table
revert_to_failed now event_id recipient_ids reason t =
    let hit = is_pending_among event_id recipient_ids in
    (
      rows_affected hit t,
      update hit (λ r. record r { status = "FAILED"; last_error = some reason; updated_at = now })
          t,
    )

abbrev pub reaper_message : String
reaper_message =
    "Orphaned by stale-PENDING reaper: PENDING row exceeded timeout with no AMQP message to drive it. Trigger a manual retry when the broker is healthy."

abbrev pub is_stale_pending : Timestamp → ℕ → Row → Bool
is_stale_pending now timeout_secs r =
    str_eq r.status "PENDING" && ltb (r.updated_at + timeout_secs * 1000) now

-- The distinct ids, each where it first occurs.
abbrev distinct : List String → List String → List String
distinct seen [] = []
distinct seen (x ∷ xs) =
    let more = x ∷ distinct (x ∷ seen) xs in
    let same = distinct seen xs in if contains_text x seen then same else more

unfoldable pub reap_stale_pending : Timestamp → ℕ → Table → List Uuid × Table
reap_stale_pending now timeout_secs t =
    let hit = is_stale_pending now timeout_secs in
    (
      distinct [] (map (λ r. r.event_id) (keep hit t)),
      update hit
          (λ r. record r { status = "FAILED"; last_error = some reaper_message; updated_at = now })
          t,
    )
