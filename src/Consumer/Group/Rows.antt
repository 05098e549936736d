-- ===== src/Consumer/Group/Rows.antt =====
-- The rows of a group event: no attempt deletes one, and what is sent has its rows in the log.
use anvil_notify.Prelude.{
  ℕ, ◌+◌, ◌≡◌, ap, ◌∙◌, inl, inr, Bool, true, false, not, String, none, some, List, [], ◌∷◌, map,
  keep, contains_text, is_empty, All, if◌then◌else◌, Bool-cases, Option, Option-cases,
}
use anvil_notify.Common.Error.{AppError, Result, Result-cases}
use anvil_notify.Common.Event.{
  Uuid, Timestamp, Recipient, EmailOptions, NotificationEvent, is_whole,
}
use anvil_notify.Filter.{check}
use anvil_notify.RateLimiter.{TokenResult, wait_for_token}
use anvil_notify.Store.Table.{Table}
use anvil_notify.Store.Log.{
  InsertArgs, InsertResult, insert_pending, insert_pending_batch, mark_blocked,
}
use anvil_notify.Store.Invariant.{keeps}
use anvil_notify.Store.Keys.{
  HasRow, insert_pending_batch-HasRow, insert_pending-row, must_hit-HasRow,
}
use anvil_notify.Consumer.World.{Context, World, ResolvedAttachment, EmailMessage, db}
use anvil_notify.Consumer.Message.{EffectiveCcBcc, SerializedEmailFields}
use anvil_notify.Consumer.Send.{
  RecipientOutcome, SendTargets, execute_send, resolve_sender, token_outcome, failure_outcome,
}
use anvil_notify.Consumer.Recipient.{Prepared, blocked_reason}
use anvil_notify.Consumer.Effects.{before, db_up, db_down, db-HasRow, execute_send-HasRow}
use anvil_notify.Consumer.Group.{
  prepare_group, group_refusal, make_args, partition, send_group, attempt_group, group_of,
  process_group, batch_call, rows_to_insert, inspect_primary, group_targets, group_message,
}

-- The outcome that makes the loop fall back to a message for each recipient.
abbrev pub is_fallback : RecipientOutcome → Bool
is_fallback (RecipientOutcome.group_failed_with_individual_rows e) = true
is_fallback _ = false

abbrev pub fallback_in : Option RecipientOutcome → Bool
fallback_in none = false
fallback_in (some o) = is_fallback o

abbrev pub KeysOf : Uuid → List Recipient → Table → Type 0
KeysOf e rs t = All (λ (r : Recipient). HasRow e r.email t) rs

pub keys_at :
    (e : Uuid) (rs : List Recipient) (t t' : Table) → t ≡ t' → KeysOf e rs t' → KeysOf e rs t
keys_at e [] t t' q h = tt
keys_at e (r ∷ rs) t t' q h = (rw q h.0, keys_at e rs t t' q h.1)

-- What a batch inserts is there afterwards.
batch_rows :
    (now : Timestamp) (a : InsertArgs) (as' : List InsertArgs) (t : Table)
    → HasRow a.event_id a.recipient_email (insert_pending_batch now (a ∷ as') t).1
unfolding insert_pending_batch
batch_rows now a as' t =
    insert_pending_batch-HasRow a.event_id a.recipient_email now as' (insert_pending now a t).1
      (insert_pending-row now a t)

batch_all :
    (event : NotificationEvent) (opts : EmailOptions) (fields : SerializedEmailFields)
    (now : Timestamp) (rs : List Recipient) (t : Table)
    → KeysOf event.event_id rs (insert_pending_batch now (map (make_args event opts fields) rs) t).1
unfolding insert_pending_batch make_args
batch_all event opts fields now [] t = tt
batch_all event opts fields now (r ∷ rs) t =
    let args = make_args event opts fields in
    (
      batch_rows now (args r) (map args rs) t,
      batch_all event opts fields now rs (insert_pending now (args r) t).1,
    )

module _ (e : Uuid) (m : String) (ctx : Context) (event : NotificationEvent) (opts : EmailOptions)
    (atts : List ResolvedAttachment) (cb : EffectiveCcBcc) where
  abbrev Here : World → Type 0
  Here w = HasRow e m w.table

  pub partition-HasRow :
      (rs : List Recipient) (w : World) → Here w → Here (partition ctx event.event_id rs w).1
  unfolding partition mark_blocked
  partition-HasRow [] w h = h
  partition-HasRow (r ∷ rs) w h =
      elim (Option-cases (blocked_reason (check ctx.to_lowercase ctx.filter r.email))) [
        | inl n ↦ rw (n, partition) (partition-HasRow rs w h)
        | inr (reason, y) ↦
            rw (y, partition)
              (partition-HasRow rs
                (db ctx (λ now. mark_blocked now event.event_id r.email reason) w).1
                (blocked-HasRow r.email reason w h))
      ]
    where
      blocked-HasRow :
          (m' reason : String) (w' : World)
          → Here w'
          → Here (db ctx (λ now. mark_blocked now event.event_id m' reason) w').1
      blocked-HasRow m' reason w' =
          db-HasRow ctx e m (λ now. mark_blocked now event.event_id m' reason) w'
            (λ now t. must_hit-HasRow e m "mark_blocked" event.event_id m' _ t keeps)

  send_group-HasRow :
      (primary : Recipient) (p : Prepared) (already : List String) (allowed : List Recipient)
      (w : World)
      → Here w
      → Here (send_group ctx event opts primary atts cb p already allowed w).1
  unfolding send_group
  send_group-HasRow primary p already allowed w h =
      let left = keep (λ r. not (contains_text r.email already)) allowed in
      elim (Bool-cases (is_empty allowed)) [
        | inl y ↦ rw (y, send_group) h
        | inr n ↦
            rw (n, send_group)
              (execute_send-HasRow ctx (group_message event primary left p atts cb)
                opts.sender_account (group_targets event opts primary left) w e m h)
      ]

  -- What follows the insert keeps a row.
  pub finish-HasRow :
      (primary : Recipient) (secondaries : List Recipient) (p : Prepared) (w : World)
      → Here (db ctx (batch_call (rows_to_insert event opts p.fields primary secondaries)) w).1
      → Here (attempt_group ctx event opts primary secondaries atts cb p w).1
  unfolding attempt_group
  finish-HasRow primary secondaries p w h1 =
      let (results, w1) =
        db ctx (batch_call (rows_to_insert event opts p.fields primary secondaries)) w in
      elim (Option-cases (inspect_primary results)) [
        | inr (o, y) ↦ rw (y, attempt_group) h1
        | inl n ↦
            rw (n, attempt_group)
              (send_group-HasRow primary p _ _ _ (partition-HasRow (primary ∷ secondaries) w1 h1))
      ]

  attempt_group-HasRow :
      (primary : Recipient) (secondaries : List Recipient) (p : Prepared) (w : World)
      → Here w
      → Here (attempt_group ctx event opts primary secondaries atts cb p w).1
  attempt_group-HasRow primary secondaries p w h = finish-HasRow primary secondaries p w (
      db-HasRow ctx e m (batch_call (rows_to_insert event opts p.fields primary secondaries)) w
        (λ now t.
          insert_pending_batch-HasRow e m now
            (rows_to_insert event opts p.fields primary secondaries) t)
        h)

  pub prepare_group-table :
      (n : ℕ) (w : World) → (prepare_group ctx event opts cb n w).1.table ≡ w.table
  unfolding prepare_group
  prepare_group-table n w = elim (Option-cases (group_refusal n opts.recipients)) [
    | inl y ↦ rw (y, prepare_group)
    | inr (x, y) ↦ rw (y, prepare_group)
  ]

  group_of-HasRow :
      (n : ℕ) (rs : List Recipient) (w : World)
      → Here w
      → Here (group_of ctx event opts atts cb n rs w).1
  unfolding group_of
  group_of-HasRow n [] w h = h
  group_of-HasRow n (primary ∷ secondaries) w h =
      let (prepared, w1) = prepare_group ctx event opts cb n w in
      let h1 : Here w1 = rw (prepare_group-table n w) h in
      elim (Result-cases prepared) [
        | inl (p, y) ↦ rw (y, group_of) (attempt_group-HasRow primary secondaries p w1 h1)
        | inr (x, y) ↦ rw (y, group_of) h1
      ]

  pub process_group-HasRow :
      (n : ℕ) (w : World) → Here w → Here (process_group ctx event opts atts cb n w).1
  unfolding process_group
  process_group-HasRow n w = group_of-HasRow n opts.recipients w

module _ (ctx : Context) (event : NotificationEvent) (opts : EmailOptions)
    (atts : List ResolvedAttachment) (cb : EffectiveCcBcc) where
  -- A rate limiter that gives no token is not a failed send.
  token_silent :
      (t : TokenResult) (o : RecipientOutcome) → token_outcome t ≡ some o → is_fallback o ≡ true → ⊥
  token_silent TokenResult.shutdown o e h = cc (ap fallback_in e, h)
  token_silent TokenResult.acquired o e h = cc e
  token_silent TokenResult.acquired_after_wait o e h = cc e

  pub execute_send_fallback :
      (msg : EmailMessage) (account : Option String) (ts : SendTargets) (w : World)
      → is_fallback (execute_send ctx msg account ts w).0 ≡ true
      → (x : AppError) × (is_fallback (failure_outcome ts x) ≡ true)
  unfolding execute_send
  execute_send_fallback msg account ts w h =
      elim (Option-cases (token_outcome (wait_for_token ctx.rate_limiter w.step))) [
        | inl n ↦ elim (Result-cases (resolve_sender ctx account (w.step + 1) msg)) [
          | inl (u, r) ↦ absurd (let h' = rw (n, execute_send, r) at h in cc h')
          | inr (x, r) ↦ (x, rw (n, execute_send, r) at h)
        ]
        | inr (o, y) ↦
            absurd (
              token_silent (wait_for_token ctx.rate_limiter w.step) o y (rw (y, execute_send) at h))
      ]

  module _ (primary : Recipient) (secondaries : List Recipient) (p : Prepared) (w : World) where
    abbrev pub args : List InsertArgs
    args = rows_to_insert event opts p.fields primary secondaries

    abbrev pub inserts : Result (List InsertResult) × World
    inserts = db ctx (batch_call args) w

    -- An attempt that goes on has inserted its rows.
    claimed_table :
        inspect_primary inserts.0 ≡ none
        → inserts.1.table ≡ (insert_pending_batch (ctx.now w.step) args (before ctx w)).1
    unfolding inspect_primary
    claimed_table n = elim (Option-cases (ctx.db_fault w.step)) [
      | inl up ↦ (db_up ctx (batch_call args) w up).1
      | inr (msg, d) ↦ absurd (cc (n, ap inspect_primary (db_down ctx (batch_call args) w msg d).0))
    ]

    pub primary_claimed :
        inspect_primary inserts.0 ≡ none → HasRow event.event_id primary.email inserts.1.table
    unfolding rows_to_insert make_args
    primary_claimed n =
        rw (claimed_table n)
          (batch_rows (ctx.now w.step) (make_args event opts p.fields primary) _ (before ctx w))

    separate_rows :
        is_whole opts.group_retry_mode ≡ false
        → args ≡ map (make_args event opts p.fields) (primary ∷ secondaries)
    unfolding rows_to_insert
    separate_rows m =
        ap
          (λ (b : Bool).
            make_args event opts p.fields primary
            ∷ (if b then [] else map (make_args event opts p.fields) secondaries))
          m

    pub all_claimed :
        inspect_primary inserts.0 ≡ none
        → is_whole opts.group_retry_mode ≡ false
        → KeysOf event.event_id (primary ∷ secondaries) inserts.1.table
    all_claimed n m =
        keys_at event.event_id (primary ∷ secondaries) _ _
          (claimed_table n
            ∙ ap
                (λ (as' : List InsertArgs).
                  (insert_pending_batch (ctx.now w.step) as' (before ctx w)).1)
                (separate_rows m))
          (batch_all event opts p.fields (ctx.now w.step) (primary ∷ secondaries) (before ctx w))
