-- ===== src/Consumer/Group/Claimed.antt =====
-- An attempt for a group that hands its message over, or that fails so that the loop falls back, has
-- its rows in the log.
use anvil_notify.Prelude.{
  ℕ, ◌≡◌, refl, ap, ◌∙◌, sym, ◌⊎◌, inl, inr, true, false, not, String, List, [], ◌∷◌, keep,
  skip_one, contains_text, is_empty, Bool-cases, Option-cases, if◌then◌else◌,
}
use anvil_notify.Common.Error.{AppError, ok, err, Result, Result-cases}
use anvil_notify.Common.Event.{GroupRetryMode, Recipient, EmailOptions, NotificationEvent, is_whole}
use anvil_notify.Common.Status.{NotificationStatus, try_from}
use anvil_notify.Store.Log.{InsertResult, inserted}
use anvil_notify.Store.Keys.{HasRow}
use anvil_notify.Consumer.World.{Context, World, ResolvedAttachment}
use anvil_notify.Consumer.Message.{EffectiveCcBcc}
use anvil_notify.Consumer.Send.{RecipientOutcome, SendTargets, failure_outcome}
use anvil_notify.Consumer.Recipient.{Prepared, inspect_insert, inspect_duplicate}
use anvil_notify.Consumer.Effects.{handed-db}
use anvil_notify.Consumer.Group.{
  prepare_group, send_group, attempt_group, group_of, process_group, batch_call, rows_to_insert,
  inspect_primary, group_message, group_targets, emails_of,
}
use anvil_notify.Consumer.Group.Once.{prepared_handed}
use anvil_notify.Consumer.Group.Rows.{
  is_fallback, fallback_in, KeysOf, keys_at, inserts, execute_send_fallback, primary_claimed,
  all_claimed, finish-HasRow,
}

duplicate_plain :
    (n : ℕ) (s : Result NotificationStatus) → is_fallback (inspect_duplicate n s) ≡ false
unfolding inspect_duplicate
duplicate_plain n (ok NotificationStatus.sent) = refl
duplicate_plain n (ok NotificationStatus.blocked) = refl
duplicate_plain n (ok NotificationStatus.pending) = refl
duplicate_plain n (ok NotificationStatus.failed) = refl
duplicate_plain n (ok NotificationStatus.skipped) = refl
duplicate_plain n (err e) = refl

-- A row that was there is no reason to fall back.
inspect_plain : (x : Result (List InsertResult)) → fallback_in (inspect_primary x) ≡ false
unfolding inspect_primary inspect_insert
inspect_plain (ok []) = refl
inspect_plain (ok (inserted ∷ rs)) = refl
inspect_plain (ok (InsertResult.duplicate n s ∷ rs)) = duplicate_plain n (try_from s)
inspect_plain (err e) = refl

-- Only the mode `individual` falls back.
target_mode :
    (e m : String) (ms : List String) (x : AppError) (mode : GroupRetryMode)
    → is_fallback (failure_outcome (SendTargets.group e m ms mode) x) ≡ true
    → is_whole mode ≡ false
target_mode e m ms x GroupRetryMode.individual h = refl
target_mode e m ms x GroupRetryMode.whole h = sym h

module _ (ctx : Context) (event : NotificationEvent) (opts : EmailOptions)
    (atts : List ResolvedAttachment) (cb : EffectiveCcBcc) where
  send_group_mode :
      (primary : Recipient) (p : Prepared) (already : List String) (allowed : List Recipient)
      (w : World)
      → is_fallback (send_group ctx event opts primary atts cb p already allowed w).0 ≡ true
      → is_whole opts.group_retry_mode ≡ false
  unfolding send_group
  send_group_mode primary p already allowed w h =
      let left = keep (λ r. not (contains_text r.email already)) allowed in
      elim (Bool-cases (is_empty allowed)) [
        | inl y ↦ absurd (cc (rw (y, send_group) at h))
        | inr n ↦
            let (x, f) =
              execute_send_fallback ctx event opts atts cb
                (group_message event primary left p atts cb) opts.sender_account
                (group_targets event opts primary left) w (rw (n, send_group) at h) in
            target_mode event.event_id primary.email
              (if is_whole opts.group_retry_mode then [] else emails_of (skip_one left)) x
              opts.group_retry_mode f
      ]

  module _ (primary : Recipient) (secondaries : List Recipient) (p : Prepared) (w : World) where
    abbrev after : RecipientOutcome × World
    after = attempt_group ctx event opts primary secondaries atts cb p w

    abbrev claimed : Result (List InsertResult) × World
    claimed = inserts ctx event opts atts cb primary secondaries p w

    kept :
        (rs : List Recipient)
        → KeysOf event.event_id rs claimed.1.table
        → KeysOf event.event_id rs after.1.table
    kept [] h = tt
    kept (r ∷ rs) h = (
      finish-HasRow event.event_id r.email ctx event opts atts cb primary secondaries p w h.0,
      kept rs h.1,
    )

    pub attempt_group_fallback :
        is_fallback after.0 ≡ true → KeysOf event.event_id (primary ∷ secondaries) after.1.table
    unfolding attempt_group
    attempt_group_fallback h = elim (Option-cases (inspect_primary claimed.0)) [
      | inr (o, y) ↦
          absurd (cc (rw (y, attempt_group) at h, ap fallback_in y, inspect_plain claimed.0))
      | inl n ↦ kept (primary ∷ secondaries) (
          all_claimed ctx event opts atts cb primary secondaries p w n
            (send_group_mode primary p _ _ _ (rw (n, attempt_group) at h)))
    ]

    pub attempt_group_row :
        (after.1.handed ≡ w.handed) ⊎ HasRow event.event_id primary.email after.1.table
    unfolding attempt_group
    attempt_group_row = elim (Option-cases (inspect_primary claimed.0)) [
      | inr (o, y) ↦ inl (
          rw (y, attempt_group)
            (handed-db ctx (batch_call (rows_to_insert event opts p.fields primary secondaries)) w))
      | inl n ↦ inr (
          finish-HasRow event.event_id primary.email ctx event opts atts cb primary secondaries p w
            (primary_claimed ctx event opts atts cb primary secondaries p w n))
    ]

  pub ready :
      (n : ℕ) (primary : Recipient) (secondaries : List Recipient) (p : Prepared) (w : World)
      → (prepare_group ctx event opts cb n w).0 ≡ ok p
      → group_of ctx event opts atts cb n (primary ∷ secondaries) w
        ≡ attempt_group ctx event opts primary secondaries atts cb p
            (prepare_group ctx event opts cb n w).1
  unfolding group_of
  ready n primary secondaries p w y = rw (y, group_of)

  group_of_fallback :
      (n : ℕ) (rs : List Recipient) (w : World)
      → let (o, w') = group_of ctx event opts atts cb n rs w in
        is_fallback o ≡ true → KeysOf event.event_id rs w'.table
  unfolding group_of
  group_of_fallback n [] w h = tt
  group_of_fallback n (primary ∷ secondaries) w h =
      elim (Result-cases (prepare_group ctx event opts cb n w).0) [
        | inl (p, y) ↦
            keys_at event.event_id (primary ∷ secondaries) _ _
              (ap (λ (x : RecipientOutcome × World). x.1.table) (ready n primary secondaries p w y))
              (attempt_group_fallback primary secondaries p (prepare_group ctx event opts cb n w).1
                (ap (λ (x : RecipientOutcome × World). is_fallback x.0)
                    (sym (ready n primary secondaries p w y))
                  ∙ h))
        | inr (x, y) ↦ absurd (cc (rw (y, group_of) at h))
      ]

  -- Where the loop falls back, every recipient has a row.
  pub process_group_fallback :
      (n : ℕ) (w : World)
      → let (o, w') = process_group ctx event opts atts cb n w in
        is_fallback o ≡ true → KeysOf event.event_id opts.recipients w'.table
  unfolding process_group
  process_group_fallback n w = group_of_fallback n opts.recipients w

  group_of_row :
      (n : ℕ) (primary : Recipient) (secondaries : List Recipient) (w : World)
      → let w' = (group_of ctx event opts atts cb n (primary ∷ secondaries) w).1 in
        (w'.handed ≡ w.handed) ⊎ HasRow event.event_id primary.email w'.table
  unfolding group_of
  group_of_row n primary secondaries w =
      let (prepared, w1) = prepare_group ctx event opts cb n w in
      let quiet : w1.handed ≡ w.handed =
        prepared_handed ctx event opts primary secondaries atts cb n w in
      elim (Result-cases prepared) [
        | inl (p, y) ↦ elim (attempt_group_row primary secondaries p w1) [
          | inl s ↦ inl (rw (ready n primary secondaries p w y) (s ∙ quiet))
          | inr h ↦ inr (rw (ready n primary secondaries p w y) h)
        ]
        | inr (x, y) ↦ inl (rw (y, group_of) quiet)
      ]

  -- What is handed over has the row of its primary recipient in the log.
  pub process_group_row :
      (n : ℕ) (primary : Recipient) (secondaries : List Recipient)
      → opts.recipients ≡ primary ∷ secondaries
      → (w : World)
      → let w' = (process_group ctx event opts atts cb n w).1 in
        (w'.handed ≡ w.handed) ⊎ HasRow event.event_id primary.email w'.table
  unfolding process_group
  process_group_row n primary secondaries q w =
      let e : process_group ctx event opts atts cb n w
          ≡ group_of ctx event opts atts cb n (primary ∷ secondaries) w =
        ap (λ (rs : List Recipient). group_of ctx event opts atts cb n rs w) q in
      elim (group_of_row n primary secondaries w) [
        | inl s ↦ inl (ap (λ (x : RecipientOutcome × World). x.1.handed) e ∙ s)
        | inr h ↦ inr (rw e h)
      ]
