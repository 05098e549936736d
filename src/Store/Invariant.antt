-- ===== src/Store/Invariant.antt =====
-- What every statement of the delivery log keeps: one row for each key, known statuses, counters in order.
use anvil_notify.Prelude.{
  ℕ, ◌≤◌, ◌≡◌, refl, inl, inr, Bool, true, false, String, none, some, List, [], ◌∷◌, arith,
  Bool-cases, Option-cases, if◌then◌else◌,
}
use anvil_notify.Common.Error.{is_ok}
use anvil_notify.Common.Status.{try_from}
use anvil_notify.Common.Json.{Json}
use anvil_notify.Common.Event.{Uuid, Timestamp}
use anvil_notify.Store.Table.{Row, Table, lookup, update}
use anvil_notify.Store.Log.{
  InsertArgs, insert_pending, insert_pending_new, insert_pending_old, insert_pending_batch,
  mark_sent, mark_failed, mark_blocked, mark_skipped, mark_skipped_new, mark_skipped_old,
  reset_for_retry, reset_all_failed_for_event, revert_to_failed, reap_stale_pending,
}

abbrev pub RowIsValid : Row → Type 0
RowIsValid r = (r.retry_count ≤ r.total_attempts) × (is_ok (try_from r.status) ≡ true)

-- The primary constraint of the table, and the check on each row.
abbrev pub IsValid : Table → Type 0
IsValid [] = Unit
IsValid (r ∷ t) = RowIsValid r × (lookup r.event_id r.recipient_id t ≡ none) × IsValid t

-- A change of a row that leaves its key alone.
abbrev pub KeepsKey : (Row → Row) → Type 0
KeepsKey f = (r : Row) → ((f r).event_id ≡ r.event_id) × ((f r).recipient_id ≡ r.recipient_id)

abbrev KeepsRow : (Row → Row) → Type 0
KeepsRow f = (r : Row) → RowIsValid r → RowIsValid (f r)

module _ (p : Row → Bool) (f : Row → Row) (k : KeepsKey f) where
  -- A statement that keeps the keys finds what was found before, changed or not.
  pub lookup-update :
      (e m : String) (t : Table)
      → lookup e m (update p f t)
        ≡ elim (lookup e m t) [ none ↦ none | some r ↦ some (if p r then f r else r) ]
  lookup-update e m [] = refl
  lookup-update e m (r ∷ t) = ground (arith, k r, lookup-update e m t)

  update-IsValid : KeepsRow f → (t : Table) → IsValid t → IsValid (update p f t)
  update-IsValid v [] h = tt
  update-IsValid v (r ∷ t) h = elim (Bool-cases (p r)) [
    | inl e ↦ rw e (
      v r h.0,
      rw ((k r).0, (k r).1) (rw (lookup-update r.event_id r.recipient_id t, h.1)),
      update-IsValid v t h.2,
    )
    | inr e ↦
        rw e (h.0, rw (lookup-update r.event_id r.recipient_id t, h.1), update-IsValid v t h.2)
  ]

-- The statements that change the table, with their arguments.
pub data Statement : Type 0 where
  insert : InsertArgs → Statement
  insert_batch : List InsertArgs → Statement
  sent : Uuid → String → Statement
  failed : Uuid → String → String → Bool → Statement
  blocked : Uuid → String → String → Statement
  skipped : Uuid → String → String → String → Timestamp → Json → Statement
  reset_one : Uuid → String → Statement
  reset_all : Uuid → Statement
  revert : Uuid → List String → String → Statement
  reap : ℕ → Statement

-- The table after a statement, at a time.
unfoldable pub execute : Timestamp → Statement → Table → Table
execute now (insert a) t = (insert_pending now a t).1
execute now (insert_batch as') t = (insert_pending_batch now as' t).1
execute now (sent e m) t = (mark_sent now e m t).1
execute now (failed e m msg x) t = (mark_failed now e m msg x t).1
execute now (blocked e m reason) t = (mark_blocked now e m reason t).1
execute now (skipped e ty m reason ts p) t = (mark_skipped now e ty m reason ts p t).1
execute now (reset_one e m) t = (reset_for_retry now e m t).1
execute now (reset_all e) t = (reset_all_failed_for_event now e t).1
execute now (revert e ids reason) t = (revert_to_failed now e ids reason t).1
execute now (reap secs) t = (reap_stale_pending now secs t).1

insert_pending-IsValid :
    (now : Timestamp) (a : InsertArgs) (t : Table) → IsValid t → IsValid (insert_pending now a t).1
unfolding try_from
insert_pending-IsValid now a t h = elim (Option-cases (lookup a.event_id a.recipient_email t)) [
  | inl e ↦ rw (insert_pending_new now a t e) ((omega arith, refl), e, h)
  | inr (r, e) ↦ rw (insert_pending_old now a t r e) h
]

insert_pending_batch-IsValid :
    (now : Timestamp) (as' : List InsertArgs) (t : Table)
    → IsValid t
    → IsValid (insert_pending_batch now as' t).1
unfolding insert_pending_batch
insert_pending_batch-IsValid now [] t h = h
insert_pending_batch-IsValid now (a ∷ as') t h =
    insert_pending_batch-IsValid now as' (insert_pending now a t).1
      (insert_pending-IsValid now a t h)

mark_skipped-IsValid :
    (now : Timestamp) (e ty m reason : String) (ts : Timestamp) (p : Json) (t : Table)
    → IsValid t
    → IsValid (mark_skipped now e ty m reason ts p t).1
unfolding try_from
mark_skipped-IsValid now e ty m reason ts p t h = elim (Option-cases (lookup e m t)) [
  | inl q ↦ rw (mark_skipped_new now e ty m reason ts p t q) ((omega arith, refl), q, h)
  | inr (r, q) ↦ rw (mark_skipped_old now e ty m reason ts p t r q) h
]

-- An update that is made only if it hits a row.
cond_update-IsValid :
    {A : Type 0} (c : Bool) (x y : A) (q : Row → Bool) (f : Row → Row) (t : Table)
    → KeepsKey f
    → KeepsRow f
    → IsValid t
    → IsValid (if◌then◌else◌ {A = A × Table} c (x, t) (y, update q f t)).1
cond_update-IsValid true x y q f t k v h = h
cond_update-IsValid false x y q f t k v h = update-IsValid q f k v t h

pub keeps : (r : Row) → (r.event_id ≡ r.event_id) × (r.recipient_id ≡ r.recipient_id)
keeps r = (refl, refl)

-- Every statement of the store keeps the table valid: at most one row for each event and recipient,
-- every status a known one, and no row with more retries than attempts.
pub execute-IsValid :
    (now : Timestamp) (s : Statement) (t : Table) → IsValid t → IsValid (execute now s t)
unfolding execute mark_sent mark_failed mark_blocked reset_for_retry reset_all_failed_for_event
    revert_to_failed reap_stale_pending try_from
execute-IsValid now (insert a) t h = insert_pending-IsValid now a t h
execute-IsValid now (insert_batch as') t h = insert_pending_batch-IsValid now as' t h
execute-IsValid now (sent e m) t h =
    cond_update-IsValid _ _ _ _ _ t keeps (λ r v. (omega arith, refl)) h
execute-IsValid now (failed e m msg x) t h =
    cond_update-IsValid _ _ _ _ _ t keeps (λ r v. (omega arith, known x)) h
  where
    known : (x : Bool) → is_ok (try_from (if x then "FAILED" else "PENDING")) ≡ true
    known true = refl
    known false = refl
execute-IsValid now (blocked e m reason) t h =
    cond_update-IsValid _ _ _ _ _ t keeps (λ r v. (v.0, refl)) h
execute-IsValid now (skipped e ty m reason ts p) t h =
    mark_skipped-IsValid now e ty m reason ts p t h
execute-IsValid now (reset_one e m) t h =
    cond_update-IsValid _ _ _ _ _ t keeps (λ r v. (omega arith, refl)) h
execute-IsValid now (reset_all e) t h = update-IsValid _ _ keeps (λ r v. (omega arith, refl)) t h
execute-IsValid now (revert e ids reason) t h = update-IsValid _ _ keeps (λ r v. (v.0, refl)) t h
execute-IsValid now (reap secs) t h = update-IsValid _ _ keeps (λ r v. (v.0, refl)) t h
