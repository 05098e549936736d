-- ===== src/Store/Keys.antt =====
-- No statement of the delivery log deletes a row.
use anvil_notify.Prelude.{
  ◌≡◌, inl, inr, Bool, true, false, String, str_eq_refl, some, List, [], ◌∷◌, Bool-cases,
  Option-cases, if◌then◌else◌,
}
use anvil_notify.Common.Json.{Json}
use anvil_notify.Common.Event.{Uuid, Timestamp}
use anvil_notify.Store.Table.{Row, Table, has_key, lookup, update}
use anvil_notify.Store.Log.{
  InsertArgs, insert_pending, pending_row, must_hit, insert_pending_new, insert_pending_old,
  insert_pending_batch, mark_sent, mark_failed, mark_blocked, mark_skipped, mark_skipped_new,
  mark_skipped_old, reset_for_retry, reset_all_failed_for_event, revert_to_failed,
  reap_stale_pending,
}
use anvil_notify.Store.Invariant.{
  Statement, insert, insert_batch, sent, failed, blocked, skipped, reset_one, reset_all, revert,
  reap, execute, lookup-update, KeepsKey, keeps,
}

abbrev pub HasRow : Uuid → String → Table → Type 0
HasRow e m t = (r : Row) × (lookup e m t ≡ some r)

module _ (e : Uuid) (m : String) where
  HasRow-cons : (r : Row) (t : Table) → HasRow e m t → HasRow e m (r ∷ t)
  HasRow-cons r t (q, h) = elim (Bool-cases (has_key e m r)) [
    | inl y ↦ (r, rw y)
    | inr n ↦ (q, rw n h)
  ]

  HasRow-update :
      (p : Row → Bool) (f : Row → Row) (t : Table)
      → KeepsKey f
      → HasRow e m t
      → HasRow e m (update p f t)
  HasRow-update p f t k (q, h) = (if p q then f q else q, rw (lookup-update p f k e m t, h))

  cond_update-HasRow :
      {A : Type 0} (c : Bool) (x y : A) (q : Row → Bool) (f : Row → Row) (t : Table)
      → KeepsKey f
      → HasRow e m t
      → HasRow e m (if◌then◌else◌ {A = A × Table} c (x, t) (y, update q f t)).1
  cond_update-HasRow true x y q f t k h = h
  cond_update-HasRow false x y q f t k h = HasRow-update q f t k h

  pub insert_pending-HasRow :
      (now : Timestamp) (a : InsertArgs) (t : Table)
      → HasRow e m t
      → HasRow e m (insert_pending now a t).1
  insert_pending-HasRow now a t h = elim (Option-cases (lookup a.event_id a.recipient_email t)) [
    | inl n ↦ rw (insert_pending_new now a t n) (HasRow-cons _ t h)
    | inr (r, y) ↦ rw (insert_pending_old now a t r y) h
  ]

  pub insert_pending_batch-HasRow :
      (now : Timestamp) (as' : List InsertArgs) (t : Table)
      → HasRow e m t
      → HasRow e m (insert_pending_batch now as' t).1
  unfolding insert_pending_batch
  insert_pending_batch-HasRow now [] t h = h
  insert_pending_batch-HasRow now (a ∷ as') t h =
      insert_pending_batch-HasRow now as' (insert_pending now a t).1
        (insert_pending-HasRow now a t h)

  mark_skipped-HasRow :
      (now : Timestamp) (e' ty m' reason : String) (ts : Timestamp) (p : Json) (t : Table)
      → HasRow e m t
      → HasRow e m (mark_skipped now e' ty m' reason ts p t).1
  mark_skipped-HasRow now e' ty m' reason ts p t h = elim (Option-cases (lookup e' m' t)) [
    | inl n ↦ rw (mark_skipped_new now e' ty m' reason ts p t n) (HasRow-cons _ t h)
    | inr (r, y) ↦ rw (mark_skipped_old now e' ty m' reason ts p t r y) h
  ]

  -- A row that is in the table stays in it, whatever statement is executed.
  pub execute-HasRow :
      (now : Timestamp) (s : Statement) (t : Table) → HasRow e m t → HasRow e m (execute now s t)
  unfolding execute mark_sent mark_failed mark_blocked reset_for_retry reset_all_failed_for_event
      revert_to_failed reap_stale_pending
  execute-HasRow now (insert a) t h = insert_pending-HasRow now a t h
  execute-HasRow now (insert_batch as') t h = insert_pending_batch-HasRow now as' t h
  execute-HasRow now (sent e' m') t h = cond_update-HasRow _ _ _ _ _ t keeps h
  execute-HasRow now (failed e' m' msg x) t h = cond_update-HasRow _ _ _ _ _ t keeps h
  execute-HasRow now (blocked e' m' reason) t h = cond_update-HasRow _ _ _ _ _ t keeps h
  execute-HasRow now (skipped e' ty m' reason ts p) t h =
      mark_skipped-HasRow now e' ty m' reason ts p t h
  execute-HasRow now (reset_one e' m') t h = cond_update-HasRow _ _ _ _ _ t keeps h
  execute-HasRow now (reset_all e') t h = HasRow-update _ _ t keeps h
  execute-HasRow now (revert e' ids reason) t h = HasRow-update _ _ t keeps h
  execute-HasRow now (reap secs) t h = HasRow-update _ _ t keeps h

-- After an insert its row is there, whether it was new or not.
pub insert_pending-row :
    (now : Timestamp) (a : InsertArgs) (t : Table)
    → HasRow a.event_id a.recipient_email (insert_pending now a t).1
insert_pending-row now a t = elim (Option-cases (lookup a.event_id a.recipient_email t)) [
  | inl n ↦
      rw (insert_pending_new now a t n)
        (pending_row now a, rw (str_eq_refl a.event_id, str_eq_refl a.recipient_email))
  | inr (r, y) ↦ rw (insert_pending_old now a t r y) (r, y)
]

-- An UPDATE that must hit a row deletes none.
pub must_hit-HasRow :
    (e : Uuid) (m : String) (op : String) (e' : Uuid) (m' : String) (f : Row → Row) (t : Table)
    → KeepsKey f
    → HasRow e m t
    → HasRow e m (must_hit op e' m' f t).1
must_hit-HasRow e m op e' m' f t k h = cond_update-HasRow e m _ _ _ (has_key e' m') f t k h
