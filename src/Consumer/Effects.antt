-- ===== src/Consumer/Effects.antt =====
-- What the calls of an attempt do to the rows and to the messages handed over.
use anvil_notify.Prelude.{
  ◌+◌, ◌≡◌, refl, ap, ◌∙◌, ◌⊎◌, inl, inr, Bool, true, false, String, Option, none, some, List, [],
  ◌∷◌, Option-cases,
}
use anvil_notify.Common.Error.{AppError, Result, err, Result-cases}
use anvil_notify.Common.Event.{Uuid, Timestamp}
use anvil_notify.Store.Table.{Table}
use anvil_notify.Store.Log.{InsertArgs, insert_pending_old, mark_sent, mark_blocked}
use anvil_notify.Store.Invariant.{Statement, execute, keeps}
use anvil_notify.Store.Keys.{HasRow, execute-HasRow, insert_pending-row, must_hit-HasRow}
use anvil_notify.Consumer.World.{Context, World, EmailMessage, db, execute_all, tick}
use anvil_notify.RateLimiter.{wait_for_token}
use anvil_notify.Consumer.Send.{
  RecipientOutcome, SendTargets, individual, group, execute_send, mark_sent_one, mark_sent_all,
  mark_sent_for_targets, resolve_sender, token_outcome,
}
use anvil_notify.Consumer.Recipient.{
  insert_call, inspect_insert, config_reason, blocked_reason, claim, block, screen,
}

pub execute_all-HasRow :
    (e : Uuid) (m : String) (ss : List (Timestamp × Statement)) (t : Table)
    → HasRow e m t
    → HasRow e m (execute_all ss t)
execute_all-HasRow e m [] t h = h
execute_all-HasRow e m ((now, s) ∷ r) t h =
    execute_all-HasRow e m r (execute now s t) (execute-HasRow e m now s t h)

module _ (ctx : Context) where
  -- What the database does to the rest of the world: nothing.
  pub handed-db :
      {A : Type 0} (op : Timestamp → Table → Result A × Table) (w : World)
      → (db ctx op w).1.handed ≡ w.handed
  unfolding db
  handed-db op w = elim (Option-cases (ctx.db_fault w.step)) [
    | inl e ↦ rw (e, db)
    | inr (msg, e) ↦ rw (e, db)
  ]

  pub slept-db :
      {A : Type 0} (op : Timestamp → Table → Result A × Table) (w : World)
      → (db ctx op w).1.slept ≡ w.slept
  unfolding db
  slept-db op w = elim (Option-cases (ctx.db_fault w.step)) [
    | inl e ↦ rw (e, db)
    | inr (msg, e) ↦ rw (e, db)
  ]

  abbrev pub before : World → Table
  before w = execute_all (ctx.others w.step) w.table

  module _ {A : Type 0} (op : Timestamp → Table → Result A × Table) (w : World) where
    pub db_up :
        ctx.db_fault w.step ≡ none
        → ((db ctx op w).0 ≡ (op (ctx.now w.step) (before w)).0)
          × ((db ctx op w).1.table ≡ (op (ctx.now w.step) (before w)).1)
    unfolding db
    db_up e = (rw (e, db), rw (e, db))

    pub db_down :
        (msg : String)
        → ctx.db_fault w.step ≡ some msg
        → ((db ctx op w).0 ≡ err (AppError.database msg)) × ((db ctx op w).1.table ≡ before w)
    unfolding db
    db_down msg e = (rw (e, db), rw (e, db))

  module _ (a : InsertArgs) (w : World) where
    pub handed-claim : (claim ctx a w).1.handed ≡ w.handed
    unfolding claim
    handed-claim = handed-db (insert_call a) w

    pub slept-claim : (claim ctx a w).1.slept ≡ w.slept
    unfolding claim
    slept-claim = slept-db (insert_call a) w

    -- An existing row is never claimed.
    pub claim_existing :
        HasRow a.event_id a.recipient_email w.table
        → ((o : RecipientOutcome) × ((claim ctx a w).0 ≡ some o))
          × HasRow a.event_id a.recipient_email (claim ctx a w).1.table
    unfolding claim
    claim_existing h = elim (Option-cases (ctx.db_fault w.step)) [
      | inl up ↦
          rw
            (
              (db_up (insert_call a) w up).0,
              (db_up (insert_call a) w up).1,
              insert_pending_old _ a (before w) row.0 row.1,
            )
            ((_, refl), row)
      | inr (msg, e) ↦
          rw ((db_down (insert_call a) w msg e).0, (db_down (insert_call a) w msg e).1)
            ((_, refl), row)
    ]
      where
        row : HasRow a.event_id a.recipient_email (before w)
        row = execute_all-HasRow a.event_id a.recipient_email (ctx.others w.step) w.table h

    -- A claimed row is there.
    pub claim_new :
        (claim ctx a w).0 ≡ none → HasRow a.event_id a.recipient_email (claim ctx a w).1.table
    unfolding claim inspect_insert
    claim_new h = elim (Option-cases (ctx.db_fault w.step)) [
      | inl up ↦ rw ((db_up (insert_call a) w up).1) (insert_pending-row _ a (before w))
      | inr (msg, e) ↦ absurd (cc (h, ap inspect_insert (db_down (insert_call a) w msg e).0))
    ]

  -- An update in the database leaves every row in place.
  pub db-HasRow :
      {A : Type 0} (e : Uuid) (m : String) (op : Timestamp → Table → Result A × Table) (w : World)
      → ((now : Timestamp) (t : Table) → HasRow e m t → HasRow e m (op now t).1)
      → HasRow e m w.table
      → HasRow e m (db ctx op w).1.table
  db-HasRow e m op w k h = elim (Option-cases (ctx.db_fault w.step)) [
    | inl up ↦ rw ((db_up op w up).1) (k _ _ row)
    | inr (msg, d) ↦ rw ((db_down op w msg d).1) row
  ]
    where
      row : HasRow e m (before w)
      row = execute_all-HasRow e m (ctx.others w.step) w.table h

  pub handed-block :
      (e : Uuid) (m reason : String) (w : World) → (block ctx e m reason w).1.handed ≡ w.handed
  unfolding block
  handed-block e m reason w = handed-db (λ now. mark_blocked now e m reason) w

  pub block-HasRow :
      (e : Uuid) (m : String) (e' : Uuid) (m' reason : String) (w : World)
      → HasRow e m w.table
      → HasRow e m (block ctx e' m' reason w).1.table
  unfolding block mark_blocked
  block-HasRow e m e' m' reason w =
      db-HasRow e m (λ now. mark_blocked now e' m' reason) w
        (λ now t. must_hit-HasRow e m "mark_blocked" e' m' _ t keeps)

  pub handed-screen : (e : Uuid) (m : String) (w : World) → (screen ctx e m w).1.handed ≡ w.handed
  unfolding screen
  handed-screen e m w = elim (Option-cases (config_reason ctx m)) [
    | inl n ↦ elim (Option-cases (blocked_reason (ctx.block_list_check w.step m))) [
      | inl n' ↦ rw (n, screen) (rw (n', screen))
      | inr (reason, y) ↦ rw (n, screen) (rw (y, screen) (handed-block e m reason (tick w)))
    ]
    | inr (reason, y) ↦ rw (y, screen) (handed-block e m reason w)
  ]

  pub screen-HasRow :
      (e : Uuid) (m : String) (e' : Uuid) (m' : String) (w : World)
      → HasRow e m w.table
      → HasRow e m (screen ctx e' m' w).1.table
  unfolding screen
  screen-HasRow e m e' m' w h = elim (Option-cases (config_reason ctx m')) [
    | inl n ↦ elim (Option-cases (blocked_reason (ctx.block_list_check w.step m'))) [
      | inl n' ↦ rw (n, screen) (rw (n', screen) h)
      | inr (reason, y) ↦ rw (n, screen) (rw (y, screen) (block-HasRow e m e' m' reason (tick w) h))
    ]
    | inr (reason, y) ↦ rw (y, screen) (block-HasRow e m e' m' reason w h)
  ]

  handed-mark_sent_one :
      (e : Uuid) (m : String) (w : World) → (mark_sent_one ctx e m w).handed ≡ w.handed
  unfolding mark_sent_one
  handed-mark_sent_one e m w = handed-db (λ now. mark_sent now e m) w

  mark_sent_one-HasRow :
      (e : Uuid) (m : String) (e' : Uuid) (m' : String) (w : World)
      → HasRow e m w.table
      → HasRow e m (mark_sent_one ctx e' m' w).table
  unfolding mark_sent_one mark_sent
  mark_sent_one-HasRow e m e' m' w =
      db-HasRow e m (λ now. mark_sent now e' m') w
        (λ now t. must_hit-HasRow e m "mark_sent" e' m' _ t keeps)

  handed-mark_sent_all :
      (e : Uuid) (ms : List String) (w : World) → (mark_sent_all ctx e ms w).handed ≡ w.handed
  unfolding mark_sent_all
  handed-mark_sent_all e [] w = refl
  handed-mark_sent_all e (m ∷ ms) w =
      handed-mark_sent_all e ms (mark_sent_one ctx e m w) ∙ handed-mark_sent_one e m w

  mark_sent_all-HasRow :
      (e : Uuid) (m : String) (e' : Uuid) (ms : List String) (w : World)
      → HasRow e m w.table
      → HasRow e m (mark_sent_all ctx e' ms w).table
  unfolding mark_sent_all
  mark_sent_all-HasRow e m e' [] w h = h
  mark_sent_all-HasRow e m e' (m' ∷ ms) w h =
      mark_sent_all-HasRow e m e' ms (mark_sent_one ctx e' m' w)
        (mark_sent_one-HasRow e m e' m' w h)

  handed-mark_sent_for_targets :
      (ts : SendTargets) (w : World) → (mark_sent_for_targets ctx ts w).handed ≡ w.handed
  unfolding mark_sent_for_targets
  handed-mark_sent_for_targets (individual e m) w = handed-mark_sent_one e m w
  handed-mark_sent_for_targets (group e m ms mode) w =
      handed-mark_sent_all e ms (mark_sent_one ctx e m w) ∙ handed-mark_sent_one e m w

  mark_sent_for_targets-HasRow :
      (e : Uuid) (m : String) (ts : SendTargets) (w : World)
      → HasRow e m w.table
      → HasRow e m (mark_sent_for_targets ctx ts w).table
  unfolding mark_sent_for_targets
  mark_sent_for_targets-HasRow e m (individual e' m') w h = mark_sent_one-HasRow e m e' m' w h
  mark_sent_for_targets-HasRow e m (group e' m' ms mode) w h =
      mark_sent_all-HasRow e m e' ms _ (mark_sent_one-HasRow e m e' m' w h)

  module _ (msg : EmailMessage) (account : Option String) (ts : SendTargets) (w : World) where
    -- A send hands over the message, once, or nothing.
    pub handed-execute_send :
        let w' = (execute_send ctx msg account ts w).1 in
        (w'.handed ≡ w.handed) ⊎ ((accepted : Bool) × (w'.handed ≡ (msg, accepted) ∷ w.handed))
    unfolding execute_send
    handed-execute_send =
        elim (Option-cases (token_outcome (wait_for_token ctx.rate_limiter w.step))) [
          | inl n ↦ elim (Result-cases (resolve_sender ctx account (w.step + 1) msg)) [
            | inl (u, e) ↦ inr (
              true,
              rw (n, execute_send)
                  (rw (e, execute_send)
                    (handed-mark_sent_for_targets ts _
                      ∙ ap (λ (b : Bool). (msg, b) ∷ w.handed) (rw e))),
            )
            | inr (x, e) ↦ inr (
              false,
              rw (n, execute_send)
                  (rw (e, execute_send) (ap (λ (b : Bool). (msg, b) ∷ w.handed) (rw e))),
            )
          ]
          | inr (o, y) ↦ inl (rw (y, execute_send))
        ]

    pub execute_send-HasRow :
        (e : Uuid) (m : String)
        → HasRow e m w.table
        → HasRow e m (execute_send ctx msg account ts w).1.table
    unfolding execute_send
    execute_send-HasRow e m h =
        elim (Option-cases (token_outcome (wait_for_token ctx.rate_limiter w.step))) [
          | inl n ↦ elim (Result-cases (resolve_sender ctx account (w.step + 1) msg)) [
            | inl (u, r) ↦
                rw (n, execute_send)
                  (rw (r, execute_send) (mark_sent_for_targets-HasRow e m ts _ h))
            | inr (x, r) ↦ rw (n, execute_send) (rw (r, execute_send) h)
          ]
          | inr (o, y) ↦ rw (y, execute_send) h
        ]
