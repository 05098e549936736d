-- ===== src/Store/Transitions.antt =====
-- Which rows a statement of the delivery log changes, and from what to what.
use anvil_notify.Prelude.{
  ℕ, ◌+◌, ◌*◌, ◌<◌, ◌≡◌, refl, ◌⊎◌, inl, inr, Bool, true, false, ◌&&◌, ◌||◌, String, str_eq,
  str_eq_iff, Option, none, some, List, [], ◌∷◌, arith, find, ltb→lt, lt→ltb, ◌==◌, contains_text,
  Bool-cases, Option-cases, if◌then◌else◌,
}
use anvil_notify.Common.Json.{Json}
use anvil_notify.Common.Event.{Uuid, Timestamp}
use anvil_notify.Store.Table.{Row, Table, has_key, lookup, update, rows_affected}
use anvil_notify.Store.Log.{
  InsertArgs, insert_pending, pending_row, skipped_row, insert_pending_new, insert_pending_old,
  insert_pending_batch, mark_sent, mark_failed, mark_blocked, mark_skipped, mark_skipped_new,
  mark_skipped_old, reset_for_retry, reset_all_failed_for_event, revert_to_failed,
  reap_stale_pending, reaper_message, is_retry_candidate, is_failed_of, is_pending_among,
  is_stale_pending,
}
use anvil_notify.Store.Invariant.{
  Statement, insert, insert_batch, sent, failed, blocked, skipped, reset_one, reset_all, revert,
  reap, execute, lookup-update, KeepsKey, keeps,
}

-- The rows that a statement is about: named by their key or their event, in the status from which
-- the statement leads. An insert is about no row that is there.
abbrev pub Targets : Timestamp → Statement → Row → Type 0
Targets now (sent e m) r = (r.event_id ≡ e) × (r.recipient_id ≡ m)
Targets now (failed e m msg x) r = (r.event_id ≡ e) × (r.recipient_id ≡ m)
Targets now (blocked e m reason) r = (r.event_id ≡ e) × (r.recipient_id ≡ m)
Targets now (reset_one e m) r =
    (r.event_id ≡ e) × (r.recipient_id ≡ m) × ((r.status ≡ "FAILED") ⊎ (r.status ≡ "BLOCKED"))
Targets now (reset_all e) r = (r.event_id ≡ e) × (r.status ≡ "FAILED")
Targets now (revert e ids reason) r =
    (r.event_id ≡ e) × (contains_text r.recipient_id ids ≡ true) × (r.status ≡ "PENDING")
Targets now (reap secs) r = (r.status ≡ "PENDING") × (r.updated_at + secs * 1000 < now)
Targets now _ r = true ≡ false

-- A row with another status, other counters and another error, and otherwise as it was.
pub record Became (now : Timestamp) (status : String) (retries attempts : ℕ) (error : Option String)
    (r r' : Row) : Type 0 where
  pub to_status : r'.status ≡ status
  pub to_retries : r'.retry_count ≡ retries
  pub to_attempts : r'.total_attempts ≡ attempts
  pub to_error : r'.last_error ≡ error
  pub stamped : r'.updated_at ≡ now
  pub same_key : (r'.event_id ≡ r.event_id) × (r'.recipient_id ≡ r.recipient_id)
  pub same_content :
      (r'.event_type ≡ r.event_type)
      × (r'.payload ≡ r.payload)
      × (r'.event_timestamp ≡ r.event_timestamp)
      × (r'.created_at ≡ r.created_at)
      × (r'.detail ≡ r.detail)

-- What becomes of a row that a statement is about.
abbrev pub Move : Timestamp → Statement → Row → Row → Type 0
Move now (sent e m) r = Became now "SENT" r.retry_count (r.total_attempts + 1) r.last_error r
Move now (failed e m msg true) r =
    Became now "FAILED" (r.retry_count + 1) (r.total_attempts + 1) (some msg) r
Move now (failed e m msg false) r =
    Became now "PENDING" (r.retry_count + 1) (r.total_attempts + 1) (some msg) r
Move now (blocked e m reason) r =
    Became now "BLOCKED" r.retry_count r.total_attempts (some reason) r
Move now (reset_one e m) r = Became now "PENDING" 0 r.total_attempts none r
Move now (reset_all e) r = Became now "PENDING" 0 r.total_attempts none r
Move now (revert e ids reason) r =
    Became now "FAILED" r.retry_count r.total_attempts (some reason) r
Move now (reap secs) r = Became now "FAILED" r.retry_count r.total_attempts (some reaper_message) r
Move now _ r = λ r'. true ≡ false

abbrev pub Outcome : Timestamp → Statement → Row → Row → Type 0
Outcome now s r r' = (Targets now s r × Move now s r r') ⊎ ((¬ Targets now s r) × (r' ≡ r))

found_hits :
    (q p : Row → Bool) (t : Table) (r : Row)
    → find q t ≡ some r
    → p r ≡ true
    → (rows_affected p t == 0) ≡ false
found_hits q p [] r h y = absurd (cc h)
found_hits q p (x ∷ t) r h y = elim (Bool-cases (p x)) [
  | inl z ↦ rw z (ground arith)
  | inr z ↦ rw z (found_hits q p t r (ground (arith, h, y, z)) y)
]

eq_of : (s t : String) → str_eq s t ≡ true → s ≡ t
eq_of s t = (str_eq_iff s t).0

of_eq : (s t : String) → s ≡ t → str_eq s t ≡ true
of_eq s t = (str_eq_iff s t).1

key_to : (e m : String) (r : Row) → has_key e m r ≡ true → (r.event_id ≡ e) × (r.recipient_id ≡ m)
key_to e m r y =
    (eq_of r.event_id e (ground (arith, y)), eq_of r.recipient_id m (ground (arith, y)))

key_from : (e m : String) (r : Row) → (r.event_id ≡ e) × (r.recipient_id ≡ m) → has_key e m r ≡ true
key_from e m r (h, k) = ground (arith, of_eq r.event_id e h, of_eq r.recipient_id m k)

either_to :
    (s : String)
    → (str_eq s "FAILED" || str_eq s "BLOCKED") ≡ true
    → (s ≡ "FAILED") ⊎ (s ≡ "BLOCKED")
either_to s y = elim (Bool-cases (str_eq s "FAILED")) [
  | inl z ↦ inl (eq_of s "FAILED" z)
  | inr z ↦ inr (eq_of s "BLOCKED" (ground (arith, y, z)))
]

either_from :
    (s : String)
    → (s ≡ "FAILED") ⊎ (s ≡ "BLOCKED")
    → (str_eq s "FAILED" || str_eq s "BLOCKED") ≡ true
either_from s (inl h) = rw h refl
either_from s (inr h) = rw h refl

module _ (e : Uuid) (m : String) (t : Table) (r : Row) (found : lookup e m t ≡ some r) where
  After : Timestamp → Statement → Table → Type 0
  After now s t' = (r' : Row) × (lookup e m t' ≡ some r') × Outcome now s r r'

  -- An UPDATE whose WHERE is what the statement is about.
  updated :
      (now : Timestamp) (s : Statement) (p : Row → Bool) (f : Row → Row)
      → KeepsKey f
      → (p r ≡ true → Targets now s r)
      → (Targets now s r → p r ≡ true)
      → Move now s r (f r)
      → After now s (update p f t)
  unfolding After
  updated now s p f k to from moved = elim (Bool-cases (p r)) [
    | inl y ↦ (f r, rw (lookup-update p f k e m t, found) (rw y refl), inl (to y, moved))
    | inr n ↦ (
      r,
      rw (lookup-update p f k e m t, found) (rw n refl),
      inr (λ h. absurd (cc (from h, n)), refl),
    )
  ]

  -- The same where no row hit leaves the table alone.
  updated_if_hit :
      {A : Type 0} (x y : A) (now : Timestamp) (s : Statement) (p : Row → Bool) (f : Row → Row)
      → KeepsKey f
      → (p r ≡ true → Targets now s r)
      → (Targets now s r → p r ≡ true)
      → Move now s r (f r)
      → After now s
          (if◌then◌else◌ {A = A × Table} (rows_affected p t == 0) (x, t) (y, update p f t)).1
  unfolding After
  updated_if_hit x y now s p f k to from moved = elim (Bool-cases (rows_affected p t == 0)) [
    | inr n ↦ rw n (updated now s p f k to from moved)
    | inl z ↦
        rw z (
          r,
          found,
          inr (λ h. absurd (cc (found_hits (has_key e m) p t r found (from h), z)), refl),
        )
  ]

  -- A row under a new key in front hides no row.
  behind : (x : Row) → lookup x.event_id x.recipient_id t ≡ none → lookup e m (x ∷ t) ≡ some r
  behind x new = elim (Bool-cases (has_key e m x)) [
    | inr n ↦ rw n found
    | inl y ↦
        let (p, q) = key_to e m x y in
        let none_there : lookup e m t ≡ none = rw (p, q) at new in absurd (cc (none_there, found))
  ]

  inserted_behind :
      (now : Timestamp) (a : InsertArgs) → lookup e m (insert_pending now a t).1 ≡ some r
  inserted_behind now a = elim (Option-cases (lookup a.event_id a.recipient_email t)) [
    | inl n ↦ rw (insert_pending_new now a t n) (behind (pending_row now a) n)
    | inr (x, y) ↦ rw (insert_pending_old now a t x y) found
  ]

  skipped_behind :
      (now : Timestamp) (e' ty m' reason : String) (ts : Timestamp) (p : Json)
      → lookup e m (mark_skipped now e' ty m' reason ts p t).1 ≡ some r
  skipped_behind now e' ty m' reason ts p = elim (Option-cases (lookup e' m' t)) [
    | inl n ↦
        rw (mark_skipped_new now e' ty m' reason ts p t n)
          (behind (skipped_row now e' ty m' reason ts p) n)
    | inr (x, y) ↦ rw (mark_skipped_old now e' ty m' reason ts p t x y) found
  ]

batch_behind :
    (e : Uuid) (m : String) (now : Timestamp) (as' : List InsertArgs) (t : Table) (r : Row)
    → lookup e m t ≡ some r
    → lookup e m (insert_pending_batch now as' t).1 ≡ some r
unfolding insert_pending_batch
batch_behind e m now [] t r found = found
batch_behind e m now (a ∷ as') t r found =
    batch_behind e m now as' (insert_pending now a t).1 r (inserted_behind e m t r found now a)

abbrev became :
    {now : Timestamp} {status : String} {n k : ℕ} {error : Option String} (r : Row)
    → Became now status n k error r (record r {
      status = status;
      retry_count = n;
      total_attempts = k;
      last_error = error;
      updated_at = now;
    })
became r = record {
  to_status = refl;
  to_retries = refl;
  to_attempts = refl;
  to_error = refl;
  stamped = refl;
  same_key = (refl, refl);
  same_content = (refl, refl, refl, refl, refl);
}

-- No statement takes a row out of the log, and each changes exactly the rows that it is about, and as
-- it is to. `mark_sent`, `mark_failed` and `mark_blocked` are about the row of their key; a reset is
-- about FAILED rows, and about a BLOCKED one where it names the row, and leaves the lifetime counter;
-- the revert and the reaper are about PENDING rows. An insert is about no row that is there.
pub execute-Outcome :
    (now : Timestamp) (s : Statement) (e : Uuid) (m : String) (t : Table) (r : Row)
    → lookup e m t ≡ some r
    → (r' : Row) × (lookup e m (execute now s t) ≡ some r') × Outcome now s r r'
unfolding execute mark_sent mark_failed mark_blocked reset_for_retry reset_all_failed_for_event
    revert_to_failed reap_stale_pending After
execute-Outcome now (insert a) e m t r found =
    (r, inserted_behind e m t r found now a, inr (λ h. absurd (cc h), refl))
execute-Outcome now (insert_batch as') e m t r found =
    (r, batch_behind e m now as' t r found, inr (λ h. absurd (cc h), refl))
execute-Outcome now (skipped e' ty m' reason ts p) e m t r found =
    (r, skipped_behind e m t r found now e' ty m' reason ts p, inr (λ h. absurd (cc h), refl))
execute-Outcome now (sent e' m') e m t r found =
    updated_if_hit e m t r found _ _ now (sent e' m') (has_key e' m') _ keeps (key_to e' m' r)
      (key_from e' m' r) (became r)
execute-Outcome now (failed e' m' msg true) e m t r found =
    updated_if_hit e m t r found _ _ now (failed e' m' msg true) (has_key e' m') _ keeps
      (key_to e' m' r) (key_from e' m' r) (became r)
execute-Outcome now (failed e' m' msg false) e m t r found =
    updated_if_hit e m t r found _ _ now (failed e' m' msg false) (has_key e' m') _ keeps
      (key_to e' m' r) (key_from e' m' r) (became r)
execute-Outcome now (blocked e' m' reason) e m t r found =
    updated_if_hit e m t r found _ _ now (blocked e' m' reason) (has_key e' m') _ keeps
      (key_to e' m' r) (key_from e' m' r) (became r)
execute-Outcome now (reset_one e' m') e m t r found =
    updated_if_hit e m t r found _ _ now (reset_one e' m')
      (λ x. has_key e' m' x && is_retry_candidate x) _ keeps
      (λ y.
        let (p, q) = key_to e' m' r (ground (arith, y)) in
        (p, q, either_to r.status (ground (arith, y))))
      (λ (p, q, c). ground (arith, key_from e' m' r (p, q), either_from r.status c)) (became r)
execute-Outcome now (reset_all e') e m t r found =
    updated e m t r found now (reset_all e') (is_failed_of e') _ keeps
      (λ y. (eq_of r.event_id e' (ground (arith, y)), eq_of r.status "FAILED" (ground (arith, y))))
      (λ (p, q). ground (arith, of_eq r.event_id e' p, of_eq r.status "FAILED" q)) (became r)
execute-Outcome now (revert e' ids reason) e m t r found =
    updated e m t r found now (revert e' ids reason) (is_pending_among e' ids) _ keeps
      (λ y. (
        eq_of r.event_id e' (ground (arith, y)),
        ground (arith, y),
        eq_of r.status "PENDING" (ground (arith, y)),
      ))
      (λ (p, q, c). ground (arith, of_eq r.event_id e' p, q, of_eq r.status "PENDING" c)) (became r)
execute-Outcome now (reap secs) e m t r found =
    updated e m t r found now (reap secs) (is_stale_pending now secs) _ keeps
      (λ y. (
        eq_of r.status "PENDING" (ground (arith, y)),
        ltb→lt (r.updated_at + secs * 1000) now (ground (arith, y)),
      ))
      (λ (p, q).
        ground (arith, of_eq r.status "PENDING" p, lt→ltb (r.updated_at + secs * 1000) now q))
      (became r)
