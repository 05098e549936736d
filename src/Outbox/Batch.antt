-- ===== src/Outbox/Batch.antt =====
-- What a poll asks the broker to publish, and in which order: crates/outbox/src/worker.rs, `poll_once`.
use anvil_notify.Prelude.{
  ℕ, zero, suc, ◌+◌, ◌≤◌, ◌<◌, ◌≡◌, refl, sym, ◌∙◌, ap, Bool-cases, Option-cases, ◌⊎◌, inl, inr,
  Bool, true, false, none, some, str_eq, str_eq_iff, not, ◌&&◌, List, [], ◌∷◌, arith, All, keep,
  take, length, is_empty, min, subst,
}
use anvil_notify.Common.Event.{Uuid, Timestamp}
use anvil_notify.Outbox.Event.{envelope}
use anvil_notify.Outbox.Rows.{
  OutboxRow, Rows, sort_by, select_pending, fetch_pending_batch, record_publish_failure,
  mark_published,
}
use anvil_notify.Outbox.Worker.{
  Surroundings, OutboxConfig, Publish, Worker, Outcome-cases, is_ack, asked, db, publish_and_mark,
  publish_batch, priority_of, poll_once,
}
use anvil_notify.Outbox.Order.{
  length-sort_by, sort_by-Sorted, sort_by-All, InOrder, sort-InOrder, take-All, take-Sorted,
}

-- A row that is PENDING and that no other transaction holds.
abbrev pub Free : (Uuid → Bool) → OutboxRow → Type 0
Free locked r = (r.status ≡ "PENDING") × (locked r.id ≡ false)

abbrev pub In : OutboxRow → Rows → Type 0
In r [] = true ≡ false
In r (x ∷ t) = (r ≡ x) ⊎ In r t

All-both :
    (P Q R : OutboxRow → Type 0)
    → ((r : OutboxRow) → P r → Q r → R r)
    → (t : Rows) → All P t
    → All Q t
    → All R t
All-both P Q R k [] h g = tt
All-both P Q R k (r ∷ t) h g = (k r h.0 g.0, All-both P Q R k t h.1 g.1)

each-In : (t : Rows) → All (λ r. In r t) t
each-In [] = tt
each-In (x ∷ t) = (
  inl refl,
  All-both (λ r. In r t) (λ r. In r t) (λ r. In r (x ∷ t)) (λ r h g. inr h) t (each-In t)
      (each-In t),
)

keep-All : (P : OutboxRow → Type 0) (p : OutboxRow → Bool) (t : Rows) → All P t → All P (keep p t)
keep-All P p [] h = tt
keep-All P p (r ∷ t) h = elim (Bool-cases (p r)) [
  | inl y ↦ rw y (h.0, keep-All P p t h.1)
  | inr n ↦ rw n (keep-All P p t h.1)
]

length-take : (n : ℕ) (xs : Rows) → length (take n xs) ≡ min n (length xs)
length-take zero xs = omega arith
length-take (suc n) [] = omega arith
length-take (suc n) (x ∷ xs) = omega (arith, length-take n xs)

abbrev pub is_free : (Uuid → Bool) → OutboxRow → Bool
is_free locked r = str_eq r.status "PENDING" && not (locked r.id)

kept-Free : (locked : Uuid → Bool) (t : Rows) → All (Free locked) (keep (is_free locked) t)
kept-Free locked [] = tt
kept-Free locked (r ∷ t) = elim (Bool-cases (is_free locked r)) [
  | inl y ↦
      let free : Free locked r =
        ((str_eq_iff r.status "PENDING").0 (ground (arith, y)), ground (arith, y)) in
      rw y (free, kept-Free locked t)
  | inr n ↦ rw n (kept-Free locked t)
]

-- What a poll takes: rows of the table that are free, as many as there are or as the batch may hold,
-- the more urgent and then the older ones first.
pub record IsBatch (locked : Uuid → Bool) (limit : ℕ) (t batch : Rows) : Type 0 where
  pub from_table : All (λ r. In r t) batch
  pub free : All (Free locked) batch
  pub full : length batch ≡ min limit (length (keep (is_free locked) t))
  pub in_order : InOrder batch

selected-IsBatch :
    (locked : Uuid → Bool) (limit : ℕ) (t : Rows)
    → IsBatch locked limit t (sort_by priority_of (select_pending locked limit t))
unfolding select_pending
selected-IsBatch locked limit t =
    let frees = keep (is_free locked) t in
    let old = λ (r : OutboxRow). r.created_at in
    let oldest = sort_by old frees in
    let all = λ (P : OutboxRow → Type 0) (h : All P frees).
      sort_by-All priority_of P (take limit oldest)
        (take-All P limit oldest (sort_by-All old P frees h)) in
    record {
      from_table = all (λ r. In r t) (keep-All (λ r. In r t) (is_free locked) t (each-In t));
      free = all (Free locked) (kept-Free locked t);
      full =
          length-sort_by priority_of (take limit oldest)
          ∙ length-take limit oldest
          ∙ ap (min limit) (length-sort_by old frees);
      in_order =
          sort-InOrder (take limit oldest)
            (take-Sorted old limit oldest (sort_by-Sorted old frees));
    }

module _ (s : Surroundings) (cfg : OutboxConfig) where
  -- The broker was asked to publish the envelope of the row, or the row has none.
  abbrev pub Asked : OutboxRow → List Publish → List Publish → Type 0
  Asked row log log' =
      ((envelope s.serde row ≡ none) × (log' ≡ log))
      ⊎ ((p : Publish) × (p.row_id ≡ row.id)
          × (envelope s.serde row ≡ some p.event)
          × (log' ≡ p ∷ log))

  -- The rows one after the other, until the last one, or one after which the channel was found
  -- broken, at a step from `first` on and before `end`.
  abbrev pub AskedInTurn : ℕ → ℕ → Rows → List Publish → List Publish → Type 0
  AskedInTurn first end [] log log' = log' ≡ log
  AskedInTurn first end (row ∷ rows) log log' =
      (log1 : List Publish) × Asked row log log1
      × (AskedInTurn first end rows log1 log'
          ⊎ ((log' ≡ log1) × ((n : ℕ) × (first ≤ n) × (n < end) × (s.connected n ≡ false))))

  published-db : (op : Timestamp → Rows → Rows) (w : Worker) → (db s op w).1.published ≡ w.published
  unfolding db
  published-db op w = ground arith

  row-Asked :
      (row : OutboxRow) (w : Worker) → Asked row w.published (publish_and_mark s row w).1.published
  unfolding publish_and_mark
  row-Asked row w = elim (Option-cases (envelope s.serde row)) [
    | inl n ↦ inl (n, rw (n, publish_and_mark) refl)
    | inr (event, y) ↦ elim (Bool-cases (is_ack (s.broker w.step event))) [
      | inl a ↦ inr (
        record { row_id = row.id; event = event; acked = is_ack (s.broker w.step event) },
        refl,
        y,
        rw (y, publish_and_mark)
            (rw (a, publish_and_mark)
              (published-db (λ now. mark_published now row.id) (asked row.id event true w))),
      )
      | inr a ↦ inr (
        record { row_id = row.id; event = event; acked = is_ack (s.broker w.step event) },
        refl,
        y,
        rw (y, publish_and_mark) (rw (a, publish_and_mark) refl),
      )
    ]
  ]

  db_step : (op : Timestamp → Rows → Rows) (w : Worker) → w.step ≤ (db s op w).1.step
  unfolding db
  db_step op w = ground arith

  row_step : (row : OutboxRow) (w : Worker) → w.step ≤ (publish_and_mark s row w).1.step
  unfolding publish_and_mark db
  row_step row w = ground arith

  abbrev after_refusal : OutboxRow → Worker → Worker
  after_refusal row w =
      (db s (λ now. record_publish_failure row.id cfg.max_publish_failures)
        (publish_and_mark s row w).1).1

  refusal_step : (row : OutboxRow) (w : Worker) → w.step ≤ (after_refusal row w).step
  refusal_step row w =
      let w1 = (publish_and_mark s row w).1 in
      omega (
        arith,
        row_step row w,
        db_step (λ now. record_publish_failure row.id cfg.max_publish_failures) w1,
      )

  batch_step : (rows : Rows) (w : Worker) → w.step ≤ (publish_batch s cfg rows w).1.step
  unfolding publish_batch
  batch_step [] w = omega arith
  batch_step (row ∷ rows) w =
      let w1 = (publish_and_mark s row w).1 in
      let w2 = after_refusal row w in
      let done_step = batch_step rows w1 in
      let failed_step = batch_step rows (record w2 { step = w2.step + 1 }) in
      let up1 = row_step row w in
      let up2 = refusal_step row w in
      elim (Outcome-cases (publish_and_mark s row w).0) [
        | inl e ↦ rw (e, publish_batch) (omega (arith, done_step, up1))
        | inr (m, e) ↦ elim (Bool-cases (s.connected w2.step)) [
          | inl y ↦ rw (e, publish_batch) (rw (y, publish_batch) (omega (arith, failed_step, up2)))
          | inr n ↦ rw (e, publish_batch) (rw (n, publish_batch) (omega (arith, up2)))
        ]
      ]

  batch-AskedInTurn :
      (first end : ℕ) (rows : Rows) (w : Worker)
      → first ≤ w.step
      → (publish_batch s cfg rows w).1.step ≤ end
      → AskedInTurn first end rows w.published (publish_batch s cfg rows w).1.published
  unfolding publish_batch
  batch-AskedInTurn first end [] w lo hi = refl
  batch-AskedInTurn first end (row ∷ rows) w lo hi =
      elim (Outcome-cases (publish_and_mark s row w).0) [
        | inl e ↦
            let hi1 = rw (e, publish_batch) at hi in
            rw (e, publish_batch)
              (
                w1.published,
                row-Asked row w,
                inl (batch-AskedInTurn first end rows w1 (omega (arith, lo, row_step row w)) hi1),
              )
        | inr (m, e) ↦
            let hi1 = rw (e, publish_batch) at hi in
            elim (Bool-cases (s.connected w2.step)) [
              | inl y ↦
                  let hi2 = rw (y, publish_batch) at hi1 in
                  rw (e, publish_batch)
                    (rw (y, publish_batch)
                      (
                        w3.published,
                        refused,
                        inl (batch-AskedInTurn first end rows w3 (omega (arith, lo, up2)) hi2),
                      ))
              | inr n ↦
                  let hi2 : w3.step ≤ end = rw (n, publish_batch) at hi1 in
                  rw (e, publish_batch)
                    (rw (n, publish_batch)
                      (
                        w3.published,
                        refused,
                        inr (refl, (w2.step, omega (arith, lo, up2), omega (arith, hi2), n)),
                      ))
            ]
      ]
    where
      w1 : Worker
      w1 = (publish_and_mark s row w).1

      w2 : Worker
      w2 = after_refusal row w

      up2 : w.step ≤ w2.step
      up2 = refusal_step row w

      w3 : Worker
      w3 = record w2 { step = w2.step + 1 }

      refused : Asked row w.published w3.published
      refused =
          subst (Asked row w.published)
            (sym (published-db (λ now. record_publish_failure row.id cfg.max_publish_failures) w1))
            (row-Asked row w)

  none_asked :
      (first end : ℕ) (rows : Rows) (log : List Publish)
      → is_empty rows ≡ true
      → AskedInTurn first end (sort_by priority_of rows) log log
  unfolding sort_by
  none_asked first end [] log y = refl
  none_asked first end (r ∷ rs) log y = absurd (cc y)

  -- A poll whose look-up the database answers takes as many of the rows that are PENDING and not held
  -- by another transaction as there are or as a batch may hold, and asks the broker to publish their
  -- envelopes in the order of priority, and of age where that is the same; rows without an envelope
  -- are passed over, and only a channel that is found broken during the poll ends the batch early.
  pub poll_asks :
      (w : Worker)
      → s.db_fault w.step ≡ none
      → let w' = (poll_once s cfg w).1 in
        (batch : Rows) × IsBatch (s.locked w.step) cfg.batch_size w.rows batch
        × AskedInTurn w.step w'.step batch w.published w'.published
  unfolding poll_once fetch_pending_batch
  poll_asks w up =
      let rows = select_pending (s.locked w.step) cfg.batch_size w.rows in
      (
        sort_by priority_of rows,
        selected-IsBatch (s.locked w.step) cfg.batch_size w.rows,
        elim (Bool-cases (is_empty rows)) [
          | inl y ↦ rw (up, poll_once) (rw (y, poll_once) (none_asked _ _ rows w.published y))
          | inr n ↦
              rw (up, poll_once)
                (rw (n, poll_once)
                  (batch-AskedInTurn w.step
                    (publish_batch s cfg (sort_by priority_of rows) w1).1.step
                    (sort_by priority_of rows) w1 (omega arith) (omega arith)))
        ],
      )
    where
      w1 : Worker
      w1 = record w {
        step = w.step + 1;
        rows = (fetch_pending_batch (s.now w.step) (s.locked w.step) cfg.batch_size w.rows).1;
      }
