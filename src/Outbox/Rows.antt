-- ===== src/Outbox/Rows.antt =====
-- crates/outbox/src/worker.rs, the statements on the table `outbox`. Each takes the database's clock.
use anvil_notify.Prelude.{
  ℕ, ◌+◌, ◌*◌, Bool, true, ◌&&◌, not, String, str_eq, Option, none, some, List, [], ◌∷◌, map, take,
  keep, leb, ltb, contains_text, if◌then◌else◌,
}
use anvil_notify.Common.Json.{Json}
use anvil_notify.Common.Event.{Uuid, Timestamp}

pub record OutboxRow : Type 0 where
  pub id : Uuid
  pub event_id : Uuid
  pub event_type : String
  pub payload : Json
  pub created_at : Timestamp
  pub fail_count : ℕ
  pub status : String
  pub locked_at : Option Timestamp
  pub published_at : Option Timestamp

abbrev pub Rows : Type 0
Rows = List OutboxRow

abbrev pub update : (OutboxRow → Bool) → (OutboxRow → OutboxRow) → Rows → Rows
update p f [] = []
update p f (r ∷ t) = (if p r then f r else r) ∷ update p f t

-- A stable sort by a key: `ORDER BY … ASC`, and `sort_by_key`.
abbrev pub insert_by : (OutboxRow → ℕ) → OutboxRow → Rows → Rows
insert_by key x [] = x ∷ []
insert_by key x (y ∷ ys) = if leb (key x) (key y) then x ∷ y ∷ ys else y ∷ insert_by key x ys

unfoldable pub sort_by : (OutboxRow → ℕ) → Rows → Rows
sort_by key [] = []
sort_by key (x ∷ xs) = insert_by key x (sort_by key xs)

abbrev pub ids_of : Rows → List Uuid
ids_of = map (λ r. r.id)

abbrev pub claim_row : Timestamp → OutboxRow → OutboxRow
claim_row now r = record r { status = "IN_PROGRESS"; locked_at = some now }

-- The rows that the SELECT returns: those of other open transactions (`locked`) are skipped.
unfoldable pub select_pending : (Uuid → Bool) → ℕ → Rows → Rows
unfolding sort_by
select_pending locked limit t =
    take limit
      (sort_by (λ r. r.created_at) (keep (λ r. str_eq r.status "PENDING" && not (locked r.id)) t))

abbrev pub is_claimed : Rows → OutboxRow → Bool
is_claimed rows r = contains_text r.id (ids_of rows) && str_eq r.status "PENDING"

unfoldable pub fetch_pending_batch : Timestamp → (Uuid → Bool) → ℕ → Rows → Rows × Rows
unfolding select_pending
fetch_pending_batch now locked limit t =
    let rows = select_pending locked limit t in (rows, update (is_claimed rows) (claim_row now) t)

abbrev pub is_in_progress : Uuid → OutboxRow → Bool
is_in_progress id r = str_eq r.id id && str_eq r.status "IN_PROGRESS"

unfoldable pub mark_published : Timestamp → Uuid → Rows → Rows
mark_published now id =
    update (is_in_progress id)
      (λ r. record r { status = "PUBLISHED"; published_at = some now; locked_at = none })

-- `CASE WHEN fail_count + 1 >= $2 THEN 'FAILED' ELSE 'PENDING' END`.
abbrev pub fail_row : ℕ → OutboxRow → OutboxRow
fail_row max_failures r = record r {
  fail_count = r.fail_count + 1;
  locked_at = none;
  status = if leb max_failures (r.fail_count + 1) then "FAILED" else "PENDING";
}

unfoldable pub record_publish_failure : Uuid → ℕ → Rows → Rows
record_publish_failure id max_failures = update (λ r. str_eq r.id id) (fail_row max_failures)

-- `COALESCE(locked_at, '-infinity') < now() - timeout`.
abbrev pub is_stale : Timestamp → ℕ → OutboxRow → Bool
is_stale now timeout_secs r =
    let old : Bool = elim r.locked_at [
      | none ↦ true
      | some t ↦ ltb (t + timeout_secs * 1000) now
    ] in
    str_eq r.status "IN_PROGRESS" && old

unfoldable pub reap_stale_in_progress : Timestamp → ℕ → Rows → Rows
reap_stale_in_progress now timeout_secs =
    update (is_stale now timeout_secs) (λ r. record r { status = "PENDING"; locked_at = none })
