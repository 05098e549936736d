-- ===== src/Consumer/Group/Addressed.antt =====
-- `process_group` as a whole: who is addressed.
use anvil_notify.Prelude.{
  ℕ, ◌≡◌, refl, ap, ◌∙◌, ◌⊎◌, inl, inr, Bool, true, false, not, String, none, some, List, [], ◌∷◌,
  map, keep, skip_one, contains_text, All, Bool-cases, Option-cases,
}
use anvil_notify.Common.Error.{AppError, ok, err, Result-cases}
use anvil_notify.Common.Event.{Recipient, EmailOptions, NotificationEvent, is_whole}
use anvil_notify.Filter.{check}
use anvil_notify.Store.Keys.{HasRow}
use anvil_notify.Consumer.World.{Context, World, ResolvedAttachment, EmailMessage, MailboxRef}
use anvil_notify.Consumer.Message.{EffectiveCcBcc, build_email_message, mailbox}
use anvil_notify.Consumer.Recipient.{Prepared, blocked_reason}
use anvil_notify.Consumer.Send.{RecipientOutcome}
use anvil_notify.Consumer.Group.{
  prepare_group, group_refusal, attempt_group, group_of, process_group, group_message,
}
use anvil_notify.Consumer.Group.Once.{
  is_allowed, left_of, prepared_handed, attempt_group-HandsAtMost, attempt_group_existing,
}

keep_all : (rs : List Recipient) → keep (λ r. not (contains_text r.email [])) rs ≡ rs
keep_all [] = refl
keep_all (r ∷ rs) = ap (◌∷◌ r) (keep_all rs)

All-keep :
    (P : Recipient → Type 0) (p : Recipient → Bool) (rs : List Recipient)
    → All P rs
    → All P (keep p rs)
All-keep P p [] h = tt
All-keep P p (r ∷ rs) h = elim (Bool-cases (p r)) [
  | inl y ↦ rw y (h.0, All-keep P p rs h.1)
  | inr n ↦ rw n (All-keep P p rs h.1)
]

All-skip_one : (P : Recipient → Type 0) (rs : List Recipient) → All P rs → All P (skip_one rs)
All-skip_one P [] h = tt
All-skip_one P (r ∷ rs) h = h.1

All-mailbox :
    (P : MailboxRef → Type 0) (rs : List Recipient)
    → All (λ r. P (mailbox r)) rs
    → All P (map mailbox rs)
All-mailbox P [] h = tt
All-mailbox P (r ∷ rs) h = (h.0, All-mailbox P rs h.1)

module _ (ctx : Context) (event : NotificationEvent) (opts : EmailOptions) (primary : Recipient)
    (secondaries : List Recipient) (atts : List ResolvedAttachment) (cb : EffectiveCcBcc) (n : ℕ)
    (recipients : opts.recipients ≡ primary ∷ secondaries) where
  abbrev after_group : World → World
  after_group w = (process_group ctx event opts atts cb n w).1

  abbrev Allowed : Recipient → Type 0
  Allowed r = blocked_reason (check ctx.to_lowercase ctx.filter r.email) ≡ none

  abbrev allows : Recipient → Bool
  allows = is_allowed ctx event opts primary secondaries atts cb

  kept-Allowed : (rs : List Recipient) → All Allowed (keep allows rs)
  kept-Allowed [] = tt
  kept-Allowed (r ∷ rs) =
      elim (Option-cases (blocked_reason (check ctx.to_lowercase ctx.filter r.email))) [
        | inl n ↦ rw (n, is_allowed) (n, kept-Allowed rs)
        | inr (reason, y) ↦ rw (y, is_allowed) (kept-Allowed rs)
      ]

  kept_blocked :
      (reason : String)
      → blocked_reason (check ctx.to_lowercase ctx.filter primary.email) ≡ some reason
      → keep allows (primary ∷ secondaries) ≡ keep allows secondaries
  kept_blocked reason y = rw (y, is_allowed)

  prepared_table : (w : World) → (prepare_group ctx event opts cb n w).1.table ≡ w.table
  unfolding prepare_group
  prepared_table w = elim (Option-cases (group_refusal n opts.recipients)) [
    | inl e ↦ rw (e, prepare_group)
    | inr (x, e) ↦ rw (e, prepare_group)
  ]

  module _ (w : World) where
    abbrev w1 : World
    w1 = (prepare_group ctx event opts cb n w).1

    silent1 : w1.handed ≡ w.handed
    silent1 = prepared_handed ctx event opts primary secondaries atts cb n w

    listed :
        process_group ctx event opts atts cb n w
        ≡ group_of ctx event opts atts cb n (primary ∷ secondaries) w
    unfolding process_group
    listed = ap (λ (rs : List Recipient). group_of ctx event opts atts cb n rs w) recipients

    process_ready :
        (p : Prepared)
        → (prepare_group ctx event opts cb n w).0 ≡ ok p
        → process_group ctx event opts atts cb n w
          ≡ attempt_group ctx event opts primary secondaries atts cb p w1
    unfolding group_of
    process_ready p e = listed ∙ rw (e, group_of)

    process_refused :
        (x : AppError)
        → (prepare_group ctx event opts cb n w).0 ≡ err x
        → (after_group w).handed ≡ w.handed
    unfolding group_of
    process_refused x e =
        let refused : group_of ctx event opts atts cb n (primary ∷ secondaries) w
            ≡ (RecipientOutcome.failed x, w1) =
          rw (e, group_of) in
        ap (λ (y : RecipientOutcome × World). y.1.handed) (listed ∙ refused) ∙ silent1

    -- A group event whose primary row is in the log is not handed over again by an attempt for it.
    pub group_redelivery_silent :
        HasRow event.event_id primary.email w.table → (after_group w).handed ≡ w.handed
    group_redelivery_silent h = elim (Result-cases (prepare_group ctx event opts cb n w).0) [
      | inl (p, e) ↦
          let k =
            attempt_group_existing ctx event opts primary secondaries atts cb p w1
              (rw (prepared_table w) h) in
          ap (λ (x : RecipientOutcome × World). x.1.handed) (process_ready p e) ∙ k ∙ silent1
      | inr (x, e) ↦ process_refused x e
    ]

    group_hands :
        ((after_group w).handed ≡ w.handed)
        ⊎ ((p : Prepared) × (already : List String) × (accepted : Bool) × ((after_group w).handed
              ≡ (
                group_message event primary
                    (left_of ctx event opts primary secondaries atts cb already
                      (primary ∷ secondaries))
                    p
                    atts
                    cb,
                accepted,
              )
                ∷ w.handed)
            × ((is_whole opts.group_retry_mode ≡ false) ⊎ (already ≡ [])))
    group_hands = elim (Result-cases (prepare_group ctx event opts cb n w).0) [
      | inr (x, e) ↦ inl (process_refused x e)
      | inl (p, e) ↦
          elim (attempt_group-HandsAtMost ctx event opts primary secondaries atts cb p w1) [
            | inl s ↦ inl (
                ap (λ (x : RecipientOutcome × World). x.1.handed) (process_ready p e) ∙ s ∙ silent1)
            | inr (p', already, b, q, m) ↦ inr (
              p',
              already,
              b,
              ap (λ (x : RecipientOutcome × World). x.1.handed) (process_ready p e)
                  ∙ q
                  ∙ ap
                      (◌∷◌ (
                        group_message event primary
                            (left_of ctx event opts primary secondaries atts cb already
                              (primary ∷ secondaries))
                            p' atts cb,
                        b,
                      ))
                      silent1,
              m,
            )
          ]
    ]

    abbrev pub Passes : MailboxRef → Type 0
    Passes m = blocked_reason (check ctx.to_lowercase ctx.filter m.email) ≡ none

    -- An attempt for a group event hands over nothing, or one message: it carries the event's id, is
    -- addressed to the first recipient, and every other address in its To header is allowed by the
    -- configured filter.
    pub group_addressed :
        ((after_group w).handed ≡ w.handed)
        ⊎ ((msg : EmailMessage) × (accepted : Bool) × ((after_group w).handed
              ≡ (msg, accepted) ∷ w.handed)
            × (msg.event_id ≡ event.event_id)
            × (msg.to_email ≡ primary.email)
            × All Passes msg.to_extra)
    unfolding build_email_message
    group_addressed = elim group_hands [
      | inl s ↦ inl s
      | inr (p, already, b, q, m) ↦ inr (
        _,
        b,
        q,
        refl,
        refl,
        All-mailbox Passes
            (skip_one
              (left_of ctx event opts primary secondaries atts cb already (primary ∷ secondaries)))
            (All-skip_one Allowed
              (left_of ctx event opts primary secondaries atts cb already (primary ∷ secondaries))
              (All-keep Allowed (λ r. not (contains_text r.email already))
                (keep allows (primary ∷ secondaries)) (kept-Allowed (primary ∷ secondaries)))),
      )
    ]

    -- A group event of the mode `whole` whose first recipient the configured filter blocks: if a
    -- message is handed over, it is addressed to that blocked recipient all the same, and the first
    -- of the allowed recipients is not addressed.
    pub group_blocked_primary :
        (reason : String)
        → blocked_reason (check ctx.to_lowercase ctx.filter primary.email) ≡ some reason
        → is_whole opts.group_retry_mode ≡ true
        → ((after_group w).handed ≡ w.handed)
          ⊎ ((msg : EmailMessage) × (accepted : Bool) × ((after_group w).handed
                ≡ (msg, accepted) ∷ w.handed)
              × (msg.to_email ≡ primary.email)
              × (msg.to_extra
                  ≡ map mailbox (
                      skip_one (
                        keep (is_allowed ctx event opts primary secondaries atts cb) secondaries))))
    unfolding build_email_message
    group_blocked_primary reason blocked whole = elim group_hands [
      | inl s ↦ inl s
      | inr (p, already, b, q, inl never) ↦ absurd (cc (never, whole))
      | inr (p, already, b, q, inr e) ↦
          let left : left_of ctx event opts primary secondaries atts cb already
                (primary ∷ secondaries)
              ≡ keep allows secondaries =
            rw e (keep_all (keep allows (primary ∷ secondaries)) ∙ kept_blocked reason blocked) in
          inr (_, b, q, refl, ap (λ (rs : List Recipient). map mailbox (skip_one rs)) left)
    ]
