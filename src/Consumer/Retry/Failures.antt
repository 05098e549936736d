-- ===== src/Consumer/Retry/Failures.antt =====
-- `process_one_recipient` on a recipient whose row is not in the log yet and whose mail the sender
-- refuses: how the loop ends, or does not.
use anvil_notify.Prelude.{
  ℕ, suc, ◌+◌, ◌≡◌, refl, ap, ◌∙◌, ◌⊎◌, inl, inr, Bool, true, false, Bool-cases, leb, String, some,
  List, ◌∷◌, if◌then◌else◌,
}
use anvil_notify.Common.Error.{AppError, rate_limited, err, to_string}
use anvil_notify.Common.Event.{Recipient, EmailOptions, NotificationEvent, is_no_retry}
use anvil_notify.Store.Table.{Row, lookup}
use anvil_notify.Store.Log.{mark_failed}
use anvil_notify.Store.Invariant.{keeps}
use anvil_notify.Consumer.World.{Context, World, ResolvedAttachment, EmailMessage, tick}
use anvil_notify.Consumer.Message.{EffectiveCcBcc}
use anvil_notify.Consumer.Send.{RecipientOutcome, individual, is_retryable, resolve_sender}
use anvil_notify.Consumer.Recipient.{Prepared, process_recipient}
use anvil_notify.Consumer.Effects.{handed-db, slept-db}
use anvil_notify.Consumer.Steps.{Calm, Preparable}
use anvil_notify.Consumer.Fresh.{
  Admitted, First, after_send, execute_send_refused, first_sends, lookup-db, message, new_row,
  slept_claimed, w_claimed,
}
use anvil_notify.Consumer.Retry.{
  ConsumerConfig, Mark, finished, again, mark_failed_row, mark_recipient, on_outcome, on_failed,
  Run, returned, running, process_one_recipient, retry_delay_ms, pause, on_retryable, on_transient,
}
use anvil_notify.Consumer.Retry.Outcomes.{round_of, process_finished, process_again, row1, handed1}
use anvil_notify.Consumer.Retry.Livelock.{loop_open}

on_retryable_transient :
    (ctx : Context) (cfg : ConsumerConfig) (mark : Mark) (a c : ℕ) (x : AppError) (v : World)
    → ((text : String) → ¬ (x ≡ rate_limited text))
    → on_retryable ctx cfg mark a c x v ≡ on_transient ctx cfg mark a x v
unfolding on_retryable
on_retryable_transient ctx cfg mark a c (rate_limited text) v h = absurd (h text refl)
on_retryable_transient ctx cfg mark a c (AppError.database m) v h = refl
on_retryable_transient ctx cfg mark a c (AppError.mailer m k) v h = refl
on_retryable_transient ctx cfg mark a c (AppError.template m) v h = refl
on_retryable_transient ctx cfg mark a c (AppError.blocked m) v h = refl
on_retryable_transient ctx cfg mark a c (AppError.queue m) v h = refl
on_retryable_transient ctx cfg mark a c (AppError.not_found m) v h = refl
on_retryable_transient ctx cfg mark a c (AppError.deserialize m) v h = refl
on_retryable_transient ctx cfg mark a c (AppError.unknown_status m) v h = refl
on_retryable_transient ctx cfg mark a c (AppError.duplicate m) v h = refl

module _ (ctx : Context) (calm : Calm ctx) (cfg : ConsumerConfig) (event : NotificationEvent)
    (opts : EmailOptions) (r : Recipient) (atts : List ResolvedAttachment)
    (cb : EffectiveCcBcc) where
  module _ (p : Prepared) (w : World) (first : First ctx event opts r cb p w) where
    abbrev msg : EmailMessage
    msg = message ctx calm event opts r atts cb p w first

    abbrev row : Row
    row = new_row ctx calm event opts r atts cb p w first

    abbrev w1 : World
    w1 = tick (w_claimed ctx calm event opts r atts cb p w first)

    abbrev RowNow : World → Row → Type 0
    RowNow w' x = lookup event.event_id r.email w'.table ≡ some x

    module _ (adm : Admitted ctx r.email) (x : AppError)
        (refuses : (n : ℕ) → resolve_sender ctx opts.sender_account n msg ≡ err x) where
      abbrev w2 : World
      w2 = after_send w1 msg false

      refused : process_recipient ctx event opts r atts cb w ≡ (RecipientOutcome.failed x, w2)
      refused =
          first_sends ctx calm event opts r atts cb p w first adm
          ∙ execute_send_refused ctx msg opts.sender_account (individual event.event_id r.email) w1
              (adm.token w1.step) x (refuses (w1.step + 1))

      abbrev marked : Bool → World
      marked exhausted = mark_failed_row ctx event.event_id r.email (to_string x) exhausted w2

      row-marked :
          (exhausted : Bool)
          → RowNow (marked exhausted) (record row {
            status = if exhausted then "FAILED" else "PENDING";
            retry_count = 1;
            total_attempts = 1;
            last_error = some (to_string x);
            updated_at = ctx.now w2.step;
          })
      unfolding mark_failed_row mark_failed
      row-marked exhausted =
          lookup-db ctx calm w2 "mark_failed" event.event_id r.email _ row (λ now. keeps)
            (row1 ctx calm cfg event opts r atts cb p w first)

      handed_marked : (exhausted : Bool) → (marked exhausted).handed ≡ (msg, false) ∷ w.handed
      unfolding mark_failed_row
      handed_marked exhausted =
          handed-db ctx (λ now. mark_failed now event.event_id r.email (to_string x) exhausted) w2
          ∙ handed1 ctx calm cfg event opts r atts cb p w first false

      slept_marked : (exhausted : Bool) → (marked exhausted).slept ≡ w.slept
      unfolding mark_failed_row
      slept_marked exhausted =
          slept-db ctx (λ now. mark_failed now event.event_id r.email (to_string x) exhausted) w2
          ∙ slept_claimed ctx calm event opts r atts cb p w first

      -- No retry: the failure is permanent, the configuration allows none, or the event asks for none.
      abbrev pub NoRetry : Type 0
      NoRetry =
          (is_retryable x ≡ false) ⊎ (cfg.max_retries ≡ 0) ⊎ (is_no_retry opts.retry_policy ≡ true)

      on_failed_final :
          NoRetry
          → (mark : Mark) (v : World)
          → on_failed ctx cfg opts.retry_policy mark 0 0 x v ≡ finished (mark (to_string x) true v)
      unfolding on_failed
      on_failed_final (inl e) mark v = rw e
      on_failed_final (inr (inl e)) mark v =
          rw e (elim (Bool-cases (is_retryable x)) [ inl y ↦ rw y | inr n ↦ rw n ])
      on_failed_final (inr (inr e)) mark v = rw e (elim (Bool-cases (is_retryable x)) [
        | inl y ↦
            rw y (elim (Bool-cases (leb cfg.max_retries 0)) [ inl y' ↦ rw y' | inr n' ↦ rw n' ])
        | inr n ↦ rw n
      ])

      abbrev pub FailedOnce : Run → Type 0
      FailedOnce y =
          (w' : World) × (y ≡ returned w')
          × (w'.handed ≡ (msg, false) ∷ w.handed)
          × (w'.slept ≡ w.slept)
          × (n : ℕ) × RowNow w' (record row {
            status = "FAILED";
            retry_count = 1;
            total_attempts = 1;
            last_error = some (to_string x);
            updated_at = ctx.now n;
          })

      -- A new, admitted recipient whose mail the sender refuses, with no retry: the loop returns in
      -- its first round without a sleep, the message was handed over once and refused, and the row is
      -- FAILED after one attempt with the refusal's text.
      pub first_failed_ends :
          NoRetry
          → (fuel : ℕ)
          → FailedOnce (process_one_recipient ctx cfg event opts r atts cb (suc fuel) w)
      unfolding on_outcome mark_recipient
      first_failed_ends final fuel = (
        marked true,
        process_finished ctx calm cfg event opts r atts cb fuel w (marked true) (
            round_of ctx calm cfg event opts r atts cb 0 0 w w2 _ refused
            ∙ on_failed_final final (mark_recipient ctx cfg event opts r atts cb) w2),
        handed_marked true,
        slept_marked true,
        w2.step,
        row-marked true,
      )

      -- The failure is to be retried: it is transient, and a retry is allowed.
      pub record Retried : Type 0 where
        pub retryable : is_retryable x ≡ true
        pub transient : (text : String) → ¬ (x ≡ rate_limited text)
        pub allowed : leb cfg.max_retries 0 ≡ false
        pub policy : is_no_retry opts.retry_policy ≡ false
        pub alive : (n : ℕ) → ctx.cancelled n ≡ false

      abbrev slept2 : World
      slept2 = record (marked false) {
        step = (marked false).step + 1;
        slept = retry_delay_ms cfg.retry_base_ms 1 ∷ (marked false).slept;
      }

      on_failed_retried :
          Retried
          → on_failed ctx cfg opts.retry_policy
              (mark_recipient ctx cfg event opts r atts cb)
              0
              0
              x
              w2
            ≡ again 1 0 slept2
      unfolding on_failed on_transient pause mark_recipient
      on_failed_retried retried =
          rw (retried.retryable, retried.allowed, retried.policy)
            (on_retryable_transient ctx cfg (mark_recipient ctx cfg event opts r atts cb) 0 0 x w2
                retried.transient
              ∙ rw (retried.alive (marked false).step))

      abbrev pub SentNoMore : Run → Type 0
      SentNoMore y =
          (w' : World) × (y ≡ running w')
          × (w'.handed ≡ (msg, false) ∷ w.handed)
          × (w'.slept ≡ retry_delay_ms cfg.retry_base_ms 1 ∷ w.slept)
          × (n : ℕ) × RowNow w' (record row {
            status = "PENDING";
            retry_count = 1;
            total_attempts = 1;
            last_error = some (to_string x);
            updated_at = ctx.now n;
          })

      -- A new, admitted recipient whose mail the sender refuses for the moment, with a retry allowed:
      -- the loop sleeps its one backoff and then turns for ever. However long it runs, it has handed
      -- the message over once, and the row is PENDING after one attempt: no retry ever sends it.
      pub first_transient_spins :
          Retried
          → Preparable ctx event opts r cb
          → (fuel : ℕ)
          → SentNoMore (process_one_recipient ctx cfg event opts r atts cb (suc fuel) w)
      unfolding on_outcome
      first_transient_spins retried prep fuel =
          let pending = record row {
            status = "PENDING";
            retry_count = 1;
            total_attempts = 1;
            last_error = some (to_string x);
            updated_at = ctx.now w2.step;
          } in
          let (w', e, t, k, l) =
            loop_open ctx event opts r atts cb calm prep cfg pending (inl refl) fuel 1 0 slept2
              (row-marked false) in
          (
            w',
            process_again ctx calm cfg event opts r atts cb fuel 1 0 w slept2 (
                  round_of ctx calm cfg event opts r atts cb 0 0 w w2 _ refused
                  ∙ on_failed_retried retried)
                ∙ e,
            k ∙ handed_marked false,
            l ∙ ap (◌∷◌ (retry_delay_ms cfg.retry_base_ms 1)) (slept_marked false),
            w2.step,
            rw t (row-marked false),
          )
