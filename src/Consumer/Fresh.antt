-- ===== src/Consumer/Fresh.antt =====
-- `process_recipient` for a recipient whose row is not in the log yet, where the database is up and
-- no other task changes the table: what each step leaves behind.
use anvil_notify.Prelude.{
  ℕ, ◌+◌, ◌≡◌, ap, ◌∙◌, Bool, true, false, String, str_eq_refl, Option, none, some, List, [], ◌∷◌,
}
use anvil_notify.Common.Error.{AppError, ok, err}
use anvil_notify.Common.Event.{Uuid, Timestamp, Recipient, EmailOptions, NotificationEvent}
use anvil_notify.Common.Email.{is_valid_email}
use anvil_notify.RateLimiter.{wait_for_token}
use anvil_notify.Store.Table.{Row, Table, lookup}
use anvil_notify.Store.Log.{InsertArgs, InsertResult, pending_row, insert_pending_new, must_hit}
use anvil_notify.Store.Invariant.{KeepsKey}
use anvil_notify.Store.Hits.{lookup-must_hit}
use anvil_notify.Consumer.World.{Context, World, EmailMessage, ResolvedAttachment, db, tick}
use anvil_notify.Consumer.Message.{EffectiveCcBcc, build_email_message}
use anvil_notify.Consumer.Send.{
  RecipientOutcome, sent, SendTargets, individual, execute_send, failure_outcome,
  mark_sent_for_targets, resolve_sender, token_outcome, send, acquire_rate_limit_token,
}
use anvil_notify.Consumer.Recipient.{
  Prepared, prepare_with, individual_args, insert_call, inspect_insert, claim, config_reason,
  blocked_reason, block, screen, process_recipient,
}
use anvil_notify.Consumer.Effects.{db_up, handed-claim, slept-claim, before}
use anvil_notify.Consumer.Steps.{Calm, process_prepared, attempt_blocked, attempt_sends}

module _ (ctx : Context) (calm : Calm ctx) where
  pub before_calm : (w : World) → before ctx w ≡ w.table
  before_calm w = rw (calm.quiet w.step)

  -- An update by key in the database: its row is changed.
  pub lookup-db :
      (w : World) (op : String) (e : Uuid) (m : String) (f : Timestamp → Row → Row) (r : Row)
      → ((now : Timestamp) → KeepsKey (f now))
      → lookup e m w.table ≡ some r
      → lookup e m (db ctx (λ now. must_hit op e m (f now)) w).1.table ≡ some (f (ctx.now w.step) r)
  lookup-db w op e m f r k h =
      rw ((db_up ctx (λ now. must_hit op e m (f now)) w (calm.up w.step)).1, before_calm w)
        (lookup-must_hit op e m (f (ctx.now w.step)) w.table r h (k (ctx.now w.step)))

  claim_fresh :
      (a : InsertArgs) (w : World)
      → lookup a.event_id a.recipient_email w.table ≡ none
      → ((claim ctx a w).0 ≡ none)
        × ((claim ctx a w).1.table ≡ pending_row (ctx.now w.step) a ∷ w.table)
  unfolding claim inspect_insert
  claim_fresh a w h =
      let (q, t) = db_up ctx (insert_call a) w (calm.up w.step) in
      let new = insert_pending_new (ctx.now w.step) a w.table h in
      let got : (db ctx (insert_call a) w).0 ≡ ok InsertResult.inserted =
        q ∙ rw (before_calm w, new) in
      (ap inspect_insert got, t ∙ rw (before_calm w, new))

-- The world after the send's answer.
abbrev pub after_send : World → EmailMessage → Bool → World
after_send w msg accepted = record w { step = w.step + 1 + 1; handed = (msg, accepted) ∷ w.handed }

module _ (ctx : Context) (msg : EmailMessage) (account : Option String) (ts : SendTargets)
    (w : World) (token : token_outcome (wait_for_token ctx.rate_limiter w.step) ≡ none) where
  pub execute_send_accepted :
      resolve_sender ctx account (w.step + 1) msg ≡ ok tt
      → execute_send ctx msg account ts w
        ≡ (sent, mark_sent_for_targets ctx ts (after_send w msg true))
  unfolding execute_send send acquire_rate_limit_token
  execute_send_accepted e =
      rw (token, execute_send)
        (rw (e, execute_send)
          (ap (λ (b : Bool). (sent, mark_sent_for_targets ctx ts (after_send w msg b))) (rw e)))

  pub execute_send_refused :
      (x : AppError)
      → resolve_sender ctx account (w.step + 1) msg ≡ err x
      → execute_send ctx msg account ts w ≡ (failure_outcome ts x, after_send w msg false)
  unfolding execute_send send acquire_rate_limit_token
  execute_send_refused x e =
      rw (token, execute_send)
        (rw (e, execute_send)
          (ap (λ (b : Bool). (failure_outcome ts x, after_send w msg b)) (rw e)))

module _ (ctx : Context) (e : Uuid) (m : String) (w : World) where
  pub screen_passes :
      config_reason ctx m ≡ none
      → blocked_reason (ctx.block_list_check w.step m) ≡ none
      → screen ctx e m w ≡ (none, tick w)
  unfolding screen
  screen_passes c b = rw (c, screen) (rw (b, screen))

  pub screen_config :
      (reason : String)
      → config_reason ctx m ≡ some reason
      → screen ctx e m w ≡ block ctx e m reason w
  unfolding screen
  screen_config reason c = rw (c, screen)

  pub screen-block_list :
      (reason : String)
      → config_reason ctx m ≡ none
      → blocked_reason (ctx.block_list_check w.step m) ≡ some reason
      → screen ctx e m w ≡ block ctx e m reason (tick w)
  unfolding screen
  screen-block_list reason c b = rw (c, screen) (rw (b, screen))

-- A first attempt: no row yet, a valid address, and a template that renders.
pub record First (ctx : Context) (event : NotificationEvent) (opts : EmailOptions) (r : Recipient)
    (cb : EffectiveCcBcc) (p : Prepared) (w : World) : Type 0 where
  pub fresh : lookup event.event_id r.email w.table ≡ none
  pub address : is_valid_email r.email ≡ true
  pub prepared : prepare_with ctx event opts cb (ctx.resolve w.step event.event_type "email") ≡ ok p

-- Neither list blocks the recipient, and the rate limit gives a token.
pub record Admitted (ctx : Context) (m : String) : Type 0 where
  pub config : config_reason ctx m ≡ none
  pub block_list : (n : ℕ) → blocked_reason (ctx.block_list_check n m) ≡ none
  pub token : (n : ℕ) → token_outcome (wait_for_token ctx.rate_limiter n) ≡ none

module _ (ctx : Context) (calm : Calm ctx) (event : NotificationEvent) (opts : EmailOptions)
    (r : Recipient) (atts : List ResolvedAttachment) (cb : EffectiveCcBcc) (p : Prepared)
    (w : World) (first : First ctx event opts r cb p w) where
  -- The row that the first attempt inserts, and the message that it composes.
  abbrev pub new_row : Row
  new_row = pending_row (ctx.now (w.step + 1)) (individual_args event opts r p.fields)

  abbrev pub message : EmailMessage
  message = build_email_message event r [] p.rendered p.from atts cb.cc cb.bcc

  abbrev args : InsertArgs
  args = individual_args event opts r p.fields

  abbrev pub w_claimed : World
  w_claimed = (claim ctx args (tick w)).1

  claimed_table : ((claim ctx args (tick w)).0 ≡ none) × (w_claimed.table ≡ new_row ∷ w.table)
  unfolding individual_args
  claimed_table = claim_fresh ctx calm args (tick w) first.fresh

  lookup_new : (t : Table) → lookup event.event_id r.email (new_row ∷ t) ≡ some new_row
  unfolding individual_args
  lookup_new t = rw (str_eq_refl event.event_id, str_eq_refl r.email)

  pub row_claimed : lookup event.event_id r.email w_claimed.table ≡ some new_row
  row_claimed = rw (claimed_table.1) (lookup_new w.table)

  pub handed_claimed : w_claimed.handed ≡ w.handed
  handed_claimed = handed-claim ctx args (tick w)

  pub slept_claimed : w_claimed.slept ≡ w.slept
  slept_claimed = slept-claim ctx args (tick w)

  -- An admitted recipient's attempt goes on to the send.
  pub first_sends :
      Admitted ctx r.email
      → process_recipient ctx event opts r atts cb w
        ≡ execute_send ctx message opts.sender_account
            (individual event.event_id r.email)
            (tick w_claimed)
  first_sends adm =
      let s =
        screen_passes ctx event.event_id r.email w_claimed adm.config
          (adm.block_list w_claimed.step) in
      process_prepared ctx event opts r atts cb w p first.address first.prepared
      ∙ attempt_sends ctx event opts r atts cb p (tick w) claimed_table.0
          (ap (λ (x : Option RecipientOutcome × World). x.0) s)
      ∙ ap
          (λ (x : Option RecipientOutcome × World).
            execute_send ctx message opts.sender_account (individual event.event_id r.email) x.1)
          s

  -- A blocked recipient's attempt ends at the row.
  pub first_blocked :
      (reason : String) (v : World)
      → screen ctx event.event_id r.email w_claimed ≡ block ctx event.event_id r.email reason v
      → process_recipient ctx event opts r atts cb w
        ≡ (RecipientOutcome.blocked reason, (block ctx event.event_id r.email reason v).1)
  unfolding block
  first_blocked reason v s =
      process_prepared ctx event opts r atts cb w p first.address first.prepared
      ∙ attempt_blocked ctx event opts r atts cb p (tick w) (RecipientOutcome.blocked reason)
          claimed_table.0 (ap (λ (x : Option RecipientOutcome × World). x.0) s)
      ∙ ap (λ (x : Option RecipientOutcome × World). (RecipientOutcome.blocked reason, x.1)) s
