-- ===== src/Tests/Delivery.antt =====
-- The delivery of one event to one recipient.
use anvil_notify.Prelude.{ℕ, ◌≡◌, refl, ◌⊎◌, inl, true, false, none, some, []}
use anvil_notify.Common.Error.{AppError, ok, err, transient_mailer, permanent_mailer}
use anvil_notify.Common.Email.{is_valid_email}
use anvil_notify.Filter.{FilterConfig, new, check, is_passthrough, domain_of}
use anvil_notify.RateLimiter.{wait_for_token}
use anvil_notify.Consumer.World.{Context, EmailSender}
use anvil_notify.Consumer.Recipient.{Prepared, prepare_with, config_reason}
use anvil_notify.Consumer.Message.{
  resolve_from_override, render_all_templates, serialize_email_fields,
}
use anvil_notify.Consumer.Send.{is_retryable, resolve_sender}
use anvil_notify.Consumer.Idempotency.{Silent, HandedOne}
use anvil_notify.Consumer.Steps.{Calm, Preparable}
use anvil_notify.Consumer.Fresh.{First, Admitted, message}
use anvil_notify.Consumer.Retry.{world_of, process_one_recipient}
use anvil_notify.Consumer.Retry.Once.{handed_at_most_once, redelivery_silent}
use anvil_notify.Consumer.Retry.Livelock.{Turns, open_row_spins}
use anvil_notify.Consumer.Retry.Outcomes.{
  SentOnce, BlockedWith, first_delivered, first_blocked_ends,
}
use anvil_notify.Consumer.Retry.Failures.{
  FailedOnce, Retried, SentNoMore, first_failed_ends, first_transient_spins,
}
use anvil_notify.Tests.{
  bob, options, event, no_copies, consumer_config, no_rules, blocks_bob, takes_all, refuses_with,
  context_with, context, empty_world, bob_row, redelivered_world,
}

calm : (s : EmailSender) (c : FilterConfig) → Calm (context_with s c)
calm s c = record { quiet = λ n. refl; up = λ n. refl }

abbrev prepared : Prepared
prepared = record {
  from = (none, none);
  rendered = record { subject = "Paid"; body_html = "<p>Paid</p>"; body_text = "Paid" };
  fields = record { from_override = none; attachments = none; cc = none; bcc = none };
}

bob_valid : is_valid_email bob.email ≡ true
unfolding is_valid_email
bob_valid = refl

prepares :
    (s : EmailSender) (c : FilterConfig) (n : ℕ)
    → prepare_with
        (context_with s c)
        event
        options
        no_copies
        ((context_with s c).resolve n event.event_type "email")
      ≡ ok prepared
unfolding prepare_with resolve_from_override render_all_templates serialize_email_fields
prepares s c n = refl

preparable :
    (s : EmailSender) (c : FilterConfig) → Preparable (context_with s c) event options bob no_copies
preparable s c = record { address = bob_valid; prepared = λ n. (prepared, prepares s c n) }

first :
    (s : EmailSender) (c : FilterConfig)
    → First (context_with s c) event options bob no_copies prepared empty_world
first s c = record { fresh = refl; address = bob_valid; prepared = prepares s c 0 }

admitted : (s : EmailSender) → Admitted (context_with s no_rules) bob.email
unfolding wait_for_token new is_passthrough
admitted s = record { config = refl; block_list = λ n. refl; token = λ n. refl }

sender_of : (s : EmailSender) (c : FilterConfig) → resolve_sender (context_with s c) none ≡ s
unfolding resolve_sender
sender_of s c = refl

handed_at_most_once_example :
    let w' = world_of (
      process_one_recipient context consumer_config event options bob [] no_copies 3 empty_world) in
    Silent context event options bob [] no_copies empty_world w'
    ⊎ HandedOne context event options bob [] no_copies empty_world w'
handed_at_most_once_example =
    handed_at_most_once context consumer_config event options bob [] no_copies 3 empty_world

redelivery_silent_example :
    (world_of (
      process_one_recipient context consumer_config event options bob [] no_copies 5
        redelivered_world)).handed
    ≡ []
redelivery_silent_example =
    redelivery_silent context consumer_config event options bob [] no_copies 5 redelivered_world
      (bob_row, refl)

open_row_spins_example :
    Turns context event options bob [] no_copies
      (calm takes_all no_rules)
      (preparable takes_all no_rules)
      consumer_config
      redelivered_world
      (process_one_recipient context consumer_config event options bob [] no_copies 9
        redelivered_world)
open_row_spins_example =
    open_row_spins context event options bob [] no_copies (calm takes_all no_rules)
      (preparable takes_all no_rules) consumer_config redelivered_world bob_row refl (inl refl) 9

first_delivered_example :
    SentOnce context
      (calm takes_all no_rules)
      consumer_config
      event
      options
      bob
      []
      no_copies
      prepared
      empty_world
      (first takes_all no_rules)
      (process_one_recipient context consumer_config event options bob [] no_copies 1 empty_world)
first_delivered_example =
    first_delivered context (calm takes_all no_rules) consumer_config event options bob [] no_copies
      prepared empty_world (first takes_all no_rules) (admitted takes_all)
      (λ n. rw (sender_of takes_all no_rules)) 0

abbrev blocking : Context
blocking = context_with takes_all blocks_bob

bob_blocked :
    config_reason blocking bob.email
    ≡ some "bob@mail.example: domain 'mail.example' is on the blocked-domain list"
unfolding check new is_passthrough domain_of
bob_blocked = refl

first_blocked_ends_example :
    BlockedWith blocking
      (calm takes_all blocks_bob)
      consumer_config
      event
      options
      bob
      []
      no_copies
      prepared
      empty_world
      (first takes_all blocks_bob)
      "bob@mail.example: domain 'mail.example' is on the blocked-domain list"
      (process_one_recipient blocking consumer_config event options bob [] no_copies 1 empty_world)
first_blocked_ends_example =
    first_blocked_ends blocking (calm takes_all blocks_bob) consumer_config event options bob []
      no_copies prepared empty_world (first takes_all blocks_bob)
      "bob@mail.example: domain 'mail.example' is on the blocked-domain list" (inl bob_blocked) 0

abbrev bounces : AppError
bounces = permanent_mailer "550 no such user"

not_retryable : is_retryable bounces ≡ false
unfolding is_retryable
not_retryable = refl

first_failed_ends_example :
    FailedOnce
      (context_with (refuses_with bounces) no_rules)
      (calm (refuses_with bounces) no_rules)
      consumer_config
      event
      options
      bob
      []
      no_copies
      prepared
      empty_world
      (first (refuses_with bounces) no_rules)
      (admitted (refuses_with bounces))
      bounces
      (λ n. rw (sender_of (refuses_with bounces) no_rules))
      (process_one_recipient
        (context_with (refuses_with bounces) no_rules)
        consumer_config
        event
        options
        bob
        []
        no_copies
        1
        empty_world)
first_failed_ends_example =
    first_failed_ends (context_with (refuses_with bounces) no_rules)
      (calm (refuses_with bounces) no_rules) consumer_config event options bob [] no_copies prepared
      empty_world (first (refuses_with bounces) no_rules) (admitted (refuses_with bounces)) bounces
      (λ n. rw (sender_of (refuses_with bounces) no_rules)) (inl not_retryable) 0

abbrev busy : AppError
busy = transient_mailer "421 try again later"

abbrev busy_context : Context
busy_context = context_with (refuses_with busy) no_rules

busy_retryable : is_retryable busy ≡ true
unfolding is_retryable
busy_retryable = refl

busy_refuses :
    (n : ℕ)
    → resolve_sender busy_context options.sender_account n (
        message busy_context
          (calm (refuses_with busy) no_rules)
          event
          options
          bob
          []
          no_copies
          prepared
          empty_world
          (first (refuses_with busy) no_rules))
      ≡ err busy
busy_refuses n = rw (sender_of (refuses_with busy) no_rules)

busy_retried :
    Retried busy_context
      (calm (refuses_with busy) no_rules)
      consumer_config
      event
      options
      bob
      []
      no_copies
      prepared
      empty_world
      (first (refuses_with busy) no_rules)
      (admitted (refuses_with busy))
      busy
      busy_refuses
busy_retried = record {
  retryable = busy_retryable;
  transient = λ text h. cc h;
  allowed = refl;
  policy = refl;
  alive = λ n. refl;
}

first_transient_spins_example :
    SentNoMore busy_context
      (calm (refuses_with busy) no_rules)
      consumer_config
      event
      options
      bob
      []
      no_copies
      prepared
      empty_world
      (first (refuses_with busy) no_rules)
      (admitted (refuses_with busy))
      busy
      busy_refuses
      (process_one_recipient busy_context consumer_config event options bob [] no_copies 9
        empty_world)
first_transient_spins_example =
    first_transient_spins busy_context (calm (refuses_with busy) no_rules) consumer_config event
      options bob [] no_copies prepared empty_world (first (refuses_with busy) no_rules)
      (admitted (refuses_with busy)) busy busy_refuses busy_retried
      (preparable (refuses_with busy) no_rules) 8
