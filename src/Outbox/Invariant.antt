-- ===== src/Outbox/Invariant.antt =====
-- What holds of the outbox at every moment: nothing counts as published that the broker has not
-- acknowledged, and no row is retried beyond its limit.
use anvil_notify.Prelude.{
  ℕ, ◌+◌, ◌≡◌, inl, inr, Bool, true, false, ◌&&◌, ◌||◌, not, String, str_eq, str_eq_iff,
  str_eq_refl, none, some, List, [], ◌∷◌, arith, any, All, ltb, leb, is_empty, Bool-cases,
  Option-cases,
}
use anvil_notify.Common.Event.{Uuid, Timestamp, NotificationEvent}
use anvil_notify.Outbox.Rows.{
  OutboxRow, Rows, update, claim_row, is_claimed, is_in_progress, is_stale, fail_row,
  fetch_pending_batch, select_pending, mark_published, record_publish_failure,
  reap_stale_in_progress, sort_by,
}
use anvil_notify.Outbox.Event.{envelope}
use anvil_notify.Outbox.Worker.{
  OutboxConfig, Surroundings, Publish, Worker, Outcome-cases, db, asked, is_ack, publish_and_mark,
  publish_batch, priority_of, poll_once, reap,
}

-- Some publish of the row was acknowledged.
abbrev pub acknowledged : Uuid → List Publish → Bool
acknowledged id log = any (λ p. str_eq p.row_id id && p.acked) log

-- A row that is PUBLISHED was acknowledged; one that is not FAILED has failed less often than the limit.
abbrev pub is_sound : ℕ → List Publish → OutboxRow → Bool
is_sound max_failures log r =
    (not (str_eq r.status "PUBLISHED") || acknowledged r.id log)
    && (ltb r.fail_count max_failures || str_eq r.status "FAILED")

abbrev pub IsSound : ℕ → List Publish → Rows → Type 0
IsSound n log t = All (λ r. is_sound n log r ≡ true) t

update-All :
    (P : OutboxRow → Type 0) (p : OutboxRow → Bool) (f : OutboxRow → OutboxRow)
    → ((r : OutboxRow) → p r ≡ true → P r → P (f r))
    → (t : Rows) → All P t
    → All P (update p f t)
update-All P p f k [] h = tt
update-All P p f k (r ∷ t) h = elim (Bool-cases (p r)) [
  | inl y ↦ rw y (k r y h.0, update-All P p f k t h.1)
  | inr n ↦ rw n (h.0, update-All P p f k t h.1)
]

All-map :
    {P Q : OutboxRow → Type 0} → ((r : OutboxRow) → P r → Q r) → (t : Rows) → All P t → All Q t
All-map k [] h = tt
All-map k (r ∷ t) h = (k r h.0, All-map k t h.1)

module _ (n : ℕ) (log : List Publish) where
  is_status : (r : OutboxRow) (s : String) → str_eq r.status s ≡ true → r.status ≡ s
  is_status r s h = (str_eq_iff r.status s).0 h

  claim_row-is_sound :
      (now : Timestamp) (rows : Rows) (r : OutboxRow)
      → is_claimed rows r ≡ true
      → is_sound n log r ≡ true
      → is_sound n log (claim_row now r) ≡ true
  claim_row-is_sound now rows r c h =
      let pending : r.status ≡ "PENDING" = is_status r "PENDING" (ground arith) in
      let h' : (not (str_eq "PENDING" "PUBLISHED") || acknowledged r.id log)
            && (ltb r.fail_count n || str_eq "PENDING" "FAILED")
          ≡ true =
        rw (pending) at h in
      ground (arith, h')

  pub fetch-IsSound :
      (now : Timestamp) (locked : Uuid → Bool) (limit : ℕ) (t : Rows)
      → IsSound n log t
      → IsSound n log (fetch_pending_batch now locked limit t).1
  unfolding fetch_pending_batch
  fetch-IsSound now locked limit t h =
      update-All _ (is_claimed (select_pending locked limit t)) (claim_row now)
        (claim_row-is_sound now (select_pending locked limit t)) t h

  published-is_sound :
      (now : Timestamp) (id : Uuid)
      → acknowledged id log ≡ true
      → (r : OutboxRow) → is_in_progress id r ≡ true
      → is_sound n log r ≡ true
      → is_sound n log
          (record r { status = "PUBLISHED"; published_at = some now; locked_at = none })
        ≡ true
  published-is_sound now id k r c h =
      let busy : r.status ≡ "IN_PROGRESS" = is_status r "IN_PROGRESS" (ground arith) in
      let same : r.id ≡ id = (str_eq_iff r.id id).0 (ground arith) in
      let k' : acknowledged r.id log ≡ true = rw same k in
      let h' : (not (str_eq "IN_PROGRESS" "PUBLISHED") || acknowledged r.id log)
            && (ltb r.fail_count n || str_eq "IN_PROGRESS" "FAILED")
          ≡ true =
        rw busy at h in
      ground (arith, h', k')

  mark_published-IsSound :
      (now : Timestamp) (id : Uuid) (t : Rows)
      → acknowledged id log ≡ true
      → IsSound n log t
      → IsSound n log (mark_published now id t)
  unfolding mark_published
  mark_published-IsSound now id t k h =
      update-All _ (is_in_progress id) _ (published-is_sound now id k) t h

  record_failure-IsSound :
      (id : Uuid) (t : Rows) → IsSound n log t → IsSound n log (record_publish_failure id n t)
  unfolding record_publish_failure
  record_failure-IsSound id t h = update-All _ _ (fail_row n) failed_sound t h
    where
      failed_sound :
          (r : OutboxRow)
          → str_eq r.id id ≡ true
          → is_sound n log r ≡ true
          → is_sound n log (fail_row n r) ≡ true
      failed_sound r c h = elim (Bool-cases (leb n (r.fail_count + 1))) [
        | inl y ↦ rw y (ground arith)
        | inr m ↦ rw m (ground arith)
      ]

  reap-IsSound :
      (now : Timestamp) (secs : ℕ) (t : Rows)
      → IsSound n log t
      → IsSound n log (reap_stale_in_progress now secs t)
  unfolding reap_stale_in_progress
  reap-IsSound now secs t h = update-All _ (is_stale now secs) _ reset_sound t h
    where
      reset_sound :
          (r : OutboxRow)
          → is_stale now secs r ≡ true
          → is_sound n log r ≡ true
          → is_sound n log (record r { status = "PENDING"; locked_at = none }) ≡ true
      reset_sound r c h =
          let busy : r.status ≡ "IN_PROGRESS" = is_status r "IN_PROGRESS" (ground arith) in
          let h' : (not (str_eq "IN_PROGRESS" "PUBLISHED") || acknowledged r.id log)
                && (ltb r.fail_count n || str_eq "IN_PROGRESS" "FAILED")
              ≡ true =
            rw busy at h in
          ground (arith, h')

  -- One more publish in the log leaves the rows sound.
  more-IsSound : (p : Publish) (t : Rows) → IsSound n log t → IsSound n (p ∷ log) t
  more-IsSound p t h = All-map (λ r k. ground (arith, k)) t h

module _ (s : Surroundings) (cfg : OutboxConfig) where
  abbrev pub WorkerIsSound : Worker → Type 0
  WorkerIsSound w = IsSound cfg.max_publish_failures w.published w.rows

  db-IsSound :
      (op : Timestamp → Rows → Rows) (w : Worker)
      → ((now : Timestamp)
          → IsSound cfg.max_publish_failures w.published w.rows
          → IsSound cfg.max_publish_failures w.published (op now w.rows))
      → WorkerIsSound w
      → WorkerIsSound (db s op w).1
  unfolding db
  db-IsSound op w k h = elim (Option-cases (s.db_fault w.step)) [
    | inl e ↦ rw (e, db) (k (s.now w.step) h)
    | inr (m, e) ↦ rw (e, db) h
  ]

  asked-IsSound :
      (id : Uuid) (event : NotificationEvent) (b : Bool) (w : Worker)
      → WorkerIsSound w
      → WorkerIsSound (asked id event b w)
  asked-IsSound id event b w h =
      more-IsSound cfg.max_publish_failures w.published
        (record { row_id = id; event = event; acked = b }) w.rows h

  publish_and_mark-IsSound :
      (row : OutboxRow) (w : Worker) → WorkerIsSound w → WorkerIsSound (publish_and_mark s row w).1
  unfolding publish_and_mark
  publish_and_mark-IsSound row w h = elim (Option-cases (envelope s.serde row)) [
    | inl e ↦ rw (e, publish_and_mark) h
    | inr (event, e) ↦ elim (Bool-cases (is_ack (s.broker w.step event))) [
      | inl y ↦
          rw (e, publish_and_mark)
            (rw (y, publish_and_mark)
              (db-IsSound (λ now. mark_published now row.id) (asked row.id event true w)
                (λ now.
                  mark_published-IsSound cfg.max_publish_failures
                    (asked row.id event true w).published now row.id w.rows
                    (rw (str_eq_refl row.id)))
                (asked-IsSound row.id event true w h)))
      | inr n ↦
          rw (e, publish_and_mark) (rw (n, publish_and_mark) (asked-IsSound row.id event false w h))
    ]
  ]

  publish_batch-IsSound :
      (rows : Rows) (w : Worker) → WorkerIsSound w → WorkerIsSound (publish_batch s cfg rows w).1
  unfolding publish_batch
  publish_batch-IsSound [] w h = h
  publish_batch-IsSound (row ∷ rows) w h = elim (Outcome-cases (publish_and_mark s row w).0) [
    | inl e ↦ rw (e, publish_batch) (publish_batch-IsSound rows w1 h1)
    | inr (m, e) ↦ elim (Bool-cases (s.connected w2.step)) [
      | inl y ↦ rw (e, publish_batch) (rw (y, publish_batch) (publish_batch-IsSound rows w3 h2))
      | inr n ↦ rw (e, publish_batch) (rw (n, publish_batch) h2)
    ]
  ]
    where
      w1 : Worker
      w1 = (publish_and_mark s row w).1

      w2 : Worker
      w2 = (db s (λ now. record_publish_failure row.id cfg.max_publish_failures) w1).1

      w3 : Worker
      w3 = record w2 { step = w2.step + 1 }

      h1 : WorkerIsSound w1
      h1 = publish_and_mark-IsSound row w h

      h2 : WorkerIsSound w2
      h2 =
          db-IsSound (λ now. record_publish_failure row.id cfg.max_publish_failures) w1
            (λ now. record_failure-IsSound cfg.max_publish_failures w1.published row.id w1.rows) h1

  -- A poll keeps the outbox sound, whatever the database and the broker do: a PUBLISHED row was
  -- acknowledged by the broker, and a row that is not FAILED has failed less often than the limit.
  pub poll_once-IsSound : (w : Worker) → WorkerIsSound w → WorkerIsSound (poll_once s cfg w).1
  unfolding poll_once
  poll_once-IsSound w h = elim (Option-cases (s.db_fault w.step)) [
    | inr (m, e) ↦ rw (e, poll_once) h
    | inl e ↦ elim (Bool-cases (is_empty fetched.0)) [
      | inl y ↦ rw (e, poll_once) (rw (y, poll_once) sound)
      | inr n ↦
          rw (e, poll_once)
            (rw (n, poll_once) (publish_batch-IsSound (sort_by priority_of fetched.0) w1 sound))
    ]
  ]
    where
      fetched : Rows × Rows
      fetched = fetch_pending_batch (s.now w.step) (s.locked w.step) cfg.batch_size w.rows

      w1 : Worker
      w1 = record w { step = w.step + 1; rows = fetched.1 }

      sound : WorkerIsSound w1
      sound =
          fetch-IsSound cfg.max_publish_failures w.published (s.now w.step) (s.locked w.step)
            cfg.batch_size w.rows h

  pub reap_once-IsSound : (w : Worker) → WorkerIsSound w → WorkerIsSound (reap s cfg w)
  unfolding reap
  reap_once-IsSound w h =
      db-IsSound (λ now. reap_stale_in_progress now cfg.stale_lock_timeout_secs) w
        (λ now.
          reap-IsSound cfg.max_publish_failures w.published now cfg.stale_lock_timeout_secs w.rows)
        h
