-- ===== src/Consumer/Group/Once.antt =====
-- Who a group e-mail goes to, and how often.
use anvil_notify.Prelude.{
  ℕ, ◌≡◌, refl, ap, ◌∙◌, ◌⊎◌, inl, inr, Bool, true, false, not, String, none, some, List, [], ◌∷◌,
  keep, is_empty, contains_text, Bool-cases, Option-cases, if◌then◌else◌,
}
use anvil_notify.Common.Error.{Result}
use anvil_notify.Common.Event.{Recipient, EmailOptions, NotificationEvent, is_whole}
use anvil_notify.Common.Status.{try_from}
use anvil_notify.Filter.{check}
use anvil_notify.Store.Table.{Table}
use anvil_notify.Store.Log.{
  InsertArgs, InsertResult, insert_pending_batch, insert_pending_old, mark_blocked,
}
use anvil_notify.Store.Keys.{HasRow}
use anvil_notify.Consumer.World.{Context, World, ResolvedAttachment, EmailMessage, db}
use anvil_notify.Consumer.Message.{EffectiveCcBcc}
use anvil_notify.Consumer.Send.{RecipientOutcome}
use anvil_notify.Consumer.Recipient.{Prepared, blocked_reason, inspect_duplicate, inspect_insert}
use anvil_notify.Consumer.Effects.{
  before, db_up, db_down, handed-db, handed-execute_send, execute_all-HasRow,
}
use anvil_notify.Consumer.Group.{
  prepare_group, group_refusal, make_args, rows_to_insert, batch_call, inspect_primary,
  already_sent, secondary_results, partition, group_targets, group_message, send_group,
  attempt_group,
}

module _ (ctx : Context) (event : NotificationEvent) (opts : EmailOptions) (primary : Recipient)
    (secondaries : List Recipient) (atts : List ResolvedAttachment) (cb : EffectiveCcBcc) where
  -- The configured filter lets the recipient through.
  abbrev pub is_allowed : Recipient → Bool
  is_allowed r = elim (blocked_reason (check ctx.to_lowercase ctx.filter r.email)) [
    | none ↦ true
    | some reason ↦ false
  ]

  partition_allowed :
      (rs : List Recipient) (w : World) → (partition ctx event.event_id rs w).0 ≡ keep is_allowed rs
  unfolding partition
  partition_allowed [] w = refl
  partition_allowed (r ∷ rs) w =
      elim (Option-cases (blocked_reason (check ctx.to_lowercase ctx.filter r.email))) [
        | inl n ↦ rw (n, partition) (ap (◌∷◌ r) (partition_allowed rs w) ∙ rw (n, is_allowed))
        | inr (reason, y) ↦
            rw (y, partition)
              (partition_allowed rs
                  (db ctx (λ now. mark_blocked now event.event_id r.email reason) w).1
                ∙ rw (y, is_allowed))
      ]

  handed-partition :
      (rs : List Recipient) (w : World) → (partition ctx event.event_id rs w).1.handed ≡ w.handed
  unfolding partition
  handed-partition [] w = refl
  handed-partition (r ∷ rs) w =
      elim (Option-cases (blocked_reason (check ctx.to_lowercase ctx.filter r.email))) [
        | inl n ↦ rw (n, partition) (handed-partition rs w)
        | inr (reason, y) ↦
            rw (y, partition)
              (handed-partition rs
                  (db ctx (λ now. mark_blocked now event.event_id r.email reason) w).1
                ∙ handed-db ctx (λ now. mark_blocked now event.event_id r.email reason) w)
      ]

  -- The recipients that are left when those who have had the e-mail are taken out.
  abbrev pub left_of : List String → List Recipient → List Recipient
  left_of already rs = keep (λ r. not (contains_text r.email already)) (keep is_allowed rs)

  -- A message was handed over, composed of what is left.
  abbrev pub HandedGroup : World → World → Type 0
  HandedGroup w w' =
      (p : Prepared) × (already : List String) × (accepted : Bool) × (w'.handed
        ≡ (
          group_message event primary (left_of already (primary ∷ secondaries)) p atts cb,
          accepted,
        )
          ∷ w.handed)
      × ((is_whole opts.group_retry_mode ≡ false) ⊎ (already ≡ []))

  abbrev pub HandsAtMost : World → World → Type 0
  HandsAtMost w w' = (w'.handed ≡ w.handed) ⊎ HandedGroup w w'

  send_group-HandsAtMost :
      (p : Prepared) (already : List String) (allowed : List Recipient) (w0 w : World)
      → allowed ≡ keep is_allowed (primary ∷ secondaries)
      → w.handed ≡ w0.handed
      → (is_whole opts.group_retry_mode ≡ false) ⊎ (already ≡ [])
      → HandsAtMost w0 (send_group ctx event opts primary atts cb p already allowed w).1
  unfolding send_group
  send_group-HandsAtMost p already allowed w0 w a h m = elim (Bool-cases (is_empty allowed)) [
    | inl y ↦ inl (rw (y, send_group) h)
    | inr n ↦
        elim (handed-execute_send ctx msg opts.sender_account
          (group_targets event opts primary left) w) [
            | inl e ↦ inl (rw (n, send_group) (e ∙ h))
            | inr (b, e) ↦ inr (
              p,
              already,
              b,
              rw (n, send_group)
                  (e
                    ∙ ap (◌∷◌ (msg, b)) h
                    ∙ ap
                        (λ (rs : List Recipient).
                          (
                            group_message event primary
                                (keep (λ r. not (contains_text r.email already)) rs) p atts cb,
                            b,
                          )
                          ∷ w0.handed)
                        a),
              m,
            )
          ]
  ]
    where
      left : List Recipient
      left = keep (λ r. not (contains_text r.email already)) allowed

      msg : EmailMessage
      msg = group_message event primary left p atts cb

  pub prepared_handed :
      (n : ℕ) (w : World) → (prepare_group ctx event opts cb n w).1.handed ≡ w.handed
  unfolding prepare_group
  prepared_handed n w = elim (Option-cases (group_refusal n opts.recipients)) [
    | inl e ↦ rw (e, prepare_group)
    | inr (x, e) ↦ rw (e, prepare_group)
  ]

  module _ (p : Prepared) (w : World) where
    abbrev results : Result (List InsertResult) × World
    results = db ctx (batch_call (rows_to_insert event opts p.fields primary secondaries)) w

    handed_results : results.1.handed ≡ w.handed
    handed_results =
        handed-db ctx (batch_call (rows_to_insert event opts p.fields primary secondaries)) w

    abbrev already_of : List String
    already_of =
        if is_whole opts.group_retry_mode
        then []
        else already_sent secondaries (secondary_results results.0)

    whole_none : (is_whole opts.group_retry_mode ≡ false) ⊎ (already_of ≡ [])
    whole_none = elim (Bool-cases (is_whole opts.group_retry_mode)) [
      | inl y ↦ inr (rw y)
      | inr n ↦ inl n
    ]

    pub attempt_group-HandsAtMost :
        HandsAtMost w (attempt_group ctx event opts primary secondaries atts cb p w).1
    unfolding attempt_group
    attempt_group-HandsAtMost = elim (Option-cases (inspect_primary results.0)) [
      | inr (o, y) ↦ inl (rw (y, attempt_group) handed_results)
      | inl n ↦
          rw (n, attempt_group)
            (send_group-HandsAtMost p already_of
              (partition ctx event.event_id (primary ∷ secondaries) results.1).0 w
              (partition ctx event.event_id (primary ∷ secondaries) results.1).1
              (partition_allowed (primary ∷ secondaries) results.1)
              (handed-partition (primary ∷ secondaries) results.1 ∙ handed_results) whole_none)
    ]

    abbrev first_args : InsertArgs
    first_args = make_args event opts p.fields primary

    batch_existing :
        (row : HasRow event.event_id primary.email (before ctx w))
        → (o : RecipientOutcome) × (inspect_primary
              (batch_call
                (rows_to_insert event opts p.fields primary secondaries)
                (ctx.now w.step)
                (before ctx w)).0
            ≡ some o)
    unfolding insert_pending_batch rows_to_insert make_args inspect_primary inspect_insert
    batch_existing row = (
      inspect_duplicate row.0.retry_count (try_from row.0.status),
      rw (
          ap (λ (x : InsertResult × Table). x.0)
            (insert_pending_old (ctx.now w.step) first_args (before ctx w) row.0 row.1)),
    )

    results_existing :
        HasRow event.event_id primary.email w.table
        → (o : RecipientOutcome) × (inspect_primary results.0 ≡ some o)
    unfolding inspect_primary
    results_existing h = elim (Option-cases (ctx.db_fault w.step)) [
      | inl up ↦
          let (o, e) =
            batch_existing
              (execute_all-HasRow event.event_id primary.email (ctx.others w.step) w.table h) in
          (
            o,
            ap inspect_primary
                  (db_up ctx (batch_call (rows_to_insert event opts p.fields primary secondaries)) w
                    up).0
                ∙ e,
          )
      | inr (msg, d) ↦ (
        _,
        ap inspect_primary
            (db_down ctx (batch_call (rows_to_insert event opts p.fields primary secondaries)) w msg
              d).0,
      )
    ]

    -- A primary row that is there ends the attempt.
    pub attempt_group_existing :
        HasRow event.event_id primary.email w.table
        → (attempt_group ctx event opts primary secondaries atts cb p w).1.handed ≡ w.handed
    unfolding attempt_group
    attempt_group_existing h = elim (Option-cases (inspect_primary results.0)) [
      | inr (o, y) ↦ rw (y, attempt_group) handed_results
      | inl n ↦ absurd (let (o, e) = results_existing h in cc (n, e))
    ]
