-- ===== src/Consumer/World.antt =====
-- What a consumer task works on. `World` is the state that it changes; `Context` is
-- `ProcessorContext` of crates/consumer/src/processor.rs with what lies outside the program: the
-- clock, the database's failures, the other tasks' statements, templates, senders, shutdown. What
-- lies outside may differ from step to step, so it is a function of the number of calls made.
use anvil_notify.Prelude.{ℕ, ◌+◌, Bool, String, Option, none, some, List, [], ◌∷◌}
use anvil_notify.Common.Error.{database, Result, err}
use anvil_notify.Common.Json.{Json}
use anvil_notify.Common.Event.{Uuid, Timestamp}
use anvil_notify.Filter.{RecipientFilter}
use anvil_notify.RateLimiter.{MailRateLimiter}
use anvil_notify.Store.Table.{Table}
use anvil_notify.Store.Invariant.{Statement, execute}

-- crates/mailer/src/message.rs.
pub record MailboxRef : Type 0 where
  pub email : String
  pub name : Option String

pub record ResolvedAttachment : Type 0 where
  pub filename : String
  pub content_type : String
  pub bytes : List ℕ

pub record EmailMessage : Type 0 where
  pub event_id : Uuid
  pub to_email : String
  pub to_name : Option String
  pub to_extra : List MailboxRef
  pub subject : String
  pub body_html : String
  pub body_text : String
  pub from_email_override : Option String
  pub from_name_override : Option String
  pub attachments : List ResolvedAttachment
  pub cc : List MailboxRef
  pub bcc : List MailboxRef

pub record NotificationTemplate : Type 0 where
  pub subject : String
  pub body_html : String
  pub body_text : String

-- `dyn EmailSender`: the answer of `send` at a step.
abbrev pub EmailSender : Type 0
EmailSender = ℕ → EmailMessage → Result (Unit {0})

pub record Context : Type 0 where
  -- ProcessorContext.
  pub resolve : ℕ → String → String → Result NotificationTemplate
  pub sender : EmailSender
  pub sender_registry : List (String × EmailSender)
  pub filter : RecipientFilter
  pub block_list_check : ℕ → String → Result (Unit {0})
  pub rate_limiter : MailRateLimiter
  -- minijinja, behind crates/mailer/src/template.rs.
  pub render_template : String → Json → Result String
  pub render_html_template : String → Json → Result String
  -- The standard library's lower-casing.
  pub to_lowercase : String → String
  -- The clock, and the database's refusal of a call.
  pub now : ℕ → Timestamp
  pub db_fault : ℕ → Option String
  -- What other tasks and processes did to the table since the call before.
  pub others : ℕ → List (Timestamp × Statement)
  -- In a `select!` of a sleep and the cancellation, the cancellation comes first.
  pub cancelled : ℕ → Bool

-- `handed` holds each message handed to a sender, newest first, and whether it was
-- accepted; `slept` the lengths of the backoff sleeps, in milliseconds, newest first.
pub record World : Type 0 where
  pub step : ℕ
  pub table : Table
  pub handed : List (EmailMessage × Bool)
  pub slept : List ℕ

abbrev pub M : Type 0 → Type 0
M A = World → A × World

abbrev pub tick : World → World
tick w = record w { step = w.step + 1 }

abbrev pub execute_all : List (Timestamp × Statement) → Table → Table
execute_all [] t = t
execute_all ((now, s) ∷ r) t = execute_all r (execute now s t)

-- One call of the database: a transaction, which either takes effect or fails as a whole.
unfoldable pub db : {A : Type 0} → Context → (Timestamp → Table → Result A × Table) → M (Result A)
db ctx op w =
    let t = execute_all (ctx.others w.step) w.table in
    elim (ctx.db_fault w.step) [
      | some msg ↦ (err (database msg), record w { step = w.step + 1; table = t })
      | none ↦
          let (r, t') = op (ctx.now w.step) t in (r, record w { step = w.step + 1; table = t' })
    ]
