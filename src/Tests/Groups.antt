-- ===== src/Tests/Groups.antt =====
-- A group e-mail to three recipients, the first of whom the configured filter may block.
use anvil_notify.Prelude.{◌≡◌, refl, ◌⊎◌, Bool, none, some, [], ◌∷◌, map, skip_one, keep, All}
use anvil_notify.Common.Event.{Recipient, EmailOptions, SendMode}
use anvil_notify.Filter.{check, new, domain_of}
use anvil_notify.Consumer.World.{Context, EmailMessage}
use anvil_notify.Consumer.Message.{mailbox}
use anvil_notify.Consumer.Recipient.{blocked_reason}
use anvil_notify.Consumer.Group.{process_group}
use anvil_notify.Consumer.Group.Once.{is_allowed}
use anvil_notify.Consumer.Group.Addressed.{
  Passes, group_redelivery_silent, group_addressed, group_blocked_primary,
}
use anvil_notify.Tests.{
  bob, options, event, no_copies, blocks_bob, takes_all, context_with, context, empty_world,
  bob_row, redelivered_world,
}

abbrev pub ann : Recipient
ann = record { email = "ann@other.example"; name = none }

abbrev pub cem : Recipient
cem = record { email = "cem@other.example"; name = none }

abbrev pub group_options : EmailOptions
group_options = record options { send_mode = SendMode.group; recipients = bob ∷ ann ∷ cem ∷ [] }

abbrev blocking_bob : Context
blocking_bob = context_with takes_all blocks_bob

bob_is_blocked :
    blocked_reason (check blocking_bob.to_lowercase blocking_bob.filter bob.email)
    ≡ some "bob@mail.example: domain 'mail.example' is on the blocked-domain list"
unfolding check new domain_of
bob_is_blocked = refl

group_redelivery_silent_example :
    (process_group context event group_options [] no_copies 100 redelivered_world).1.handed ≡ []
group_redelivery_silent_example =
    group_redelivery_silent context event group_options bob (ann ∷ cem ∷ []) [] no_copies 100 refl
      redelivered_world (bob_row, refl)

group_addressed_example :
    ((process_group context event group_options [] no_copies 100 empty_world).1.handed ≡ [])
    ⊎ ((msg : EmailMessage) × (accepted : Bool) × ((process_group context event group_options []
            no_copies 100 empty_world).1.handed
          ≡ (msg, accepted) ∷ [])
        × (msg.event_id ≡ "e1")
        × (msg.to_email ≡ "bob@mail.example")
        × All
            (Passes context event group_options bob
              (ann ∷ cem ∷ [])
              []
              no_copies
              100
              refl
              empty_world)
            msg.to_extra)
group_addressed_example =
    group_addressed context event group_options bob (ann ∷ cem ∷ []) [] no_copies 100 refl
      empty_world

group_blocked_primary_example :
    ((process_group blocking_bob event group_options [] no_copies 100 empty_world).1.handed ≡ [])
    ⊎ ((msg : EmailMessage) × (accepted : Bool) × ((process_group blocking_bob event group_options
            [] no_copies 100 empty_world).1.handed
          ≡ (msg, accepted) ∷ [])
        × (msg.to_email ≡ "bob@mail.example")
        × (msg.to_extra
            ≡ map mailbox (
                skip_one (
                  keep
                    (is_allowed blocking_bob event group_options bob (ann ∷ cem ∷ []) [] no_copies)
                    (ann ∷ cem ∷ [])))))
group_blocked_primary_example =
    group_blocked_primary blocking_bob event group_options bob (ann ∷ cem ∷ []) [] no_copies 100
      refl empty_world "bob@mail.example: domain 'mail.example' is on the blocked-domain list"
      bob_is_blocked refl
