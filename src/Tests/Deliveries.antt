-- ===== src/Tests/Deliveries.antt =====
-- Deliveries of one message, from its bytes to its settlement.
use anvil_notify.Prelude.{◌+◌, ◌≡◌, ◌≤◌, refl, ◌⊎◌, true, none, some, [], ◌∷◌, arith}
use anvil_notify.Common.Error.{transient_mailer}
use anvil_notify.Common.Email.{is_valid_email}
use anvil_notify.Common.Event.{EmailOptions, NotificationEvent, GroupRetryMode}
use anvil_notify.Filter.{check, new, domain_of}
use anvil_notify.RateLimiter.{wait_for_token}
use anvil_notify.Store.Log.{insert_pending, insert_pending_batch}
use anvil_notify.Consumer.World.{Context, World, db}
use anvil_notify.Consumer.Message.{
  resolve_from_override, render_all_templates, serialize_email_fields, serialize_recipient_list,
  first_error,
}
use anvil_notify.Consumer.Send.{
  execute_send, acquire_rate_limit_token, resolve_sender, registry_resolve, send,
}
use anvil_notify.Consumer.Recipient.{prepare_with, inspect_insert}
use anvil_notify.Consumer.Retry.{ConsumerConfig, world_of}
use anvil_notify.Consumer.Group.{
  group_refusal, prepare_group, make_args, rows_to_insert, inspect_primary, partition, send_group,
  attempt_group, group_of, process_group,
}
use anvil_notify.Consumer.Group.Retry.{
  fall_back, group_round, on_group_outcome, process_one_group, fallback_to_individual_sends,
}
use anvil_notify.Consumer.Group.Retry.AtMostOne.{
  HandedGroup, group_handed_at_most_once, fallback_sends_nothing,
}
use anvil_notify.Consumer.Delivery.{
  Settlement, Publish, confirmed, Outside, Handling, done, parse, handle_delivery, effective_cc_bcc,
}
use anvil_notify.Consumer.Delivery.Settling.{SettledOnce, settled_once}
use anvil_notify.Consumer.Delivery.Addresses.{addressed}
use anvil_notify.Consumer.Delivery.Whole.{handled_world, delivered_once_each}
use anvil_notify.Consumer.Delivery.Deferral.{IsEarly, FollowsBroker, IsCopy, deferral}
use anvil_notify.Consumer.Delivery.Copies.{Sieve, Passed, Refused, effective_copies}
use anvil_notify.Mailer.Fetcher.{network_error}
use anvil_notify.Tests.{
  bob, options, event, no_copies, consumer_config, no_rules, refuses_with, context_with, context,
  empty_world,
}
use anvil_notify.Tests.Groups.{ann, cem, group_options}

group_handed_at_most_once_example :
    let w' = world_of (
      process_one_group context consumer_config event group_options [] no_copies 2 3 empty_world) in
    (w'.handed ≡ [])
    ⊎ HandedGroup context consumer_config event group_options bob
        (ann ∷ cem ∷ [])
        []
        no_copies
        refl
        empty_world
        w'
group_handed_at_most_once_example =
    group_handed_at_most_once context consumer_config event group_options bob (ann ∷ cem ∷ []) []
      no_copies refl 2 3 empty_world

-- An event that the broker delivers with its bytes.
abbrev brings : NotificationEvent → Outside
brings e = record {
  notification_event = λ bytes. some e;
  email_event = λ bytes. none;
  http = λ n req. network_error "refused";
  broker = λ n p. confirmed true;
}

abbrev delivered : Handling
delivered = record { world = empty_world; published = []; settled = [] }

settled_once_example :
    SettledOnce delivered
      (handle_delivery (brings event) context consumer_config (1 ∷ 2 ∷ []) 4 4 delivered)
settled_once_example =
    settled_once (brings event) context consumer_config (1 ∷ 2 ∷ []) 4 4 delivered

delivered_once_each_example :
    addressed "bob@mail.example"
      (handled_world
        (handle_delivery (brings event) context consumer_config (1 ∷ 2 ∷ []) 4 4 delivered)).handed
    ≤ 0 + 1
delivered_once_each_example =
    delivered_once_each (brings event) context consumer_config (1 ∷ 2 ∷ []) 4 4 "bob@mail.example"
      delivered

abbrev event_with : EmailOptions → NotificationEvent
event_with opts = record event { channel_overrides = record { email = some opts } }

abbrev later_options : EmailOptions
later_options = record options { send_at = some 5000 }

early :
    IsEarly
      (brings (event_with later_options))
      context
      consumer_config
      (1 ∷ 2 ∷ [])
      4
      4
      (event_with later_options)
      later_options
      5000
      delivered
unfolding parse
early = record {
  parsed = refl;
  by_email = refl;
  someone = refl;
  within = refl;
  timed = refl;
  later = omega arith;
}

deferral_example :
    (h' : Handling) × (p : Publish) × (s : Settlement) × (handle_delivery
        (brings (event_with later_options))
        context
        consumer_config
        (1 ∷ 2 ∷ [])
        4
        4
        delivered
      ≡ done h')
    × (h'.published ≡ p ∷ [])
    × IsCopy
        (brings (event_with later_options))
        context
        consumer_config
        (1 ∷ 2 ∷ [])
        4
        4
        (event_with later_options)
        later_options
        5000
        delivered
        p
    × (h'.settled ≡ s ∷ [])
    × FollowsBroker (confirmed true) s
    × (h'.world.handed ≡ [])
    × (h'.world.table ≡ [])
deferral_example =
    deferral (brings (event_with later_options)) context consumer_config (1 ∷ 2 ∷ []) 4 4
      (event_with later_options) later_options 5000 delivered early

abbrev small_config : ConsumerConfig
small_config = record consumer_config { max_recipients_per_event = 2 }

abbrev copied_options : EmailOptions
copied_options = record options { cc = ann ∷ []; bcc = cem ∷ [] }

effective_copies_example :
    let (cc_bcc, w') = effective_cc_bcc context copied_options empty_world in
    Sieve (Passed context 0 w'.step) (Refused context 0 w'.step) cc_bcc.cc (ann ∷ [])
    × Sieve (Passed context 0 w'.step) (Refused context 0 w'.step) cc_bcc.bcc (cem ∷ [])
effective_copies_example = effective_copies context copied_options empty_world

-- A group in the mode `individual`, whose sender refuses for the moment.
abbrev split_options : EmailOptions
split_options = record group_options { group_retry_mode = GroupRetryMode.individual }

abbrev refusing : Context
refusing = context_with (refuses_with (transient_mailer "421")) no_rules

abbrev failed_world : World
failed_world =
    (process_group refusing event split_options [] no_copies
      consumer_config.max_recipients_per_event empty_world).1

falls_back :
    group_round refusing consumer_config event split_options [] no_copies 0 0 empty_world
    ≡ fall_back failed_world
unfolding group_round on_group_outcome process_group group_of prepare_group group_refusal
    prepare_with attempt_group make_args rows_to_insert inspect_primary inspect_insert partition
    send_group execute_send acquire_rate_limit_token resolve_sender registry_resolve send db
    insert_pending_batch insert_pending check new domain_of wait_for_token is_valid_email
    resolve_from_override render_all_templates first_error serialize_email_fields
    serialize_recipient_list
falls_back = refl

fallback_sends_nothing_example :
    (world_of (
      fallback_to_individual_sends refusing consumer_config event split_options [] no_copies 5
        failed_world)).handed
    ≡ failed_world.handed
fallback_sends_nothing_example =
    fallback_sends_nothing refusing consumer_config event split_options bob (ann ∷ cem ∷ []) []
      no_copies refl 0 0 5 empty_world failed_world falls_back
