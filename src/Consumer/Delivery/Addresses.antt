-- ===== src/Consumer/Delivery/Addresses.antt =====
-- How many messages of one delivery are addressed to one recipient.
use anvil_notify.Prelude.{
  ℕ, ◌+◌, ◌≡◌, ◌≤◌, refl, ap, ◌∙◌, ◌⊎◌, inl, inr, Bool, true, false, String, str_eq, str_eq_iff,
  ◌||◌, any, List, [], ◌∷◌, keep, length, is_empty, Bool-cases, arith,
}
use anvil_notify.Common.Event.{Recipient, EmailOptions, NotificationEvent, is_whole, is_group}
use anvil_notify.Store.Keys.{HasRow}
use anvil_notify.Consumer.World.{Context, World, EmailMessage, ResolvedAttachment}
use anvil_notify.Consumer.Message.{EffectiveCcBcc}
use anvil_notify.Consumer.Effects.{handed-db}
use anvil_notify.Consumer.Rows.{process_one_recipient-HasRow}
use anvil_notify.Consumer.Retry.{ConsumerConfig, world_of}
use anvil_notify.Consumer.Retry.Once.{handed_with_row, redelivery_silent}
use anvil_notify.Consumer.Group.Retry.{join_all, recipient_task, process_one_group}
use anvil_notify.Consumer.Group.Retry.Once.{join_all_keeps}
use anvil_notify.Consumer.Group.Retry.AtMostOne.{group_handed_at_most_once}
use anvil_notify.Consumer.Delivery.{probe, dispatch}

-- Whether an address is in the To header of a message, as the first one or among the others.
abbrev pub is_to : String → EmailMessage → Bool
is_to m msg = str_eq msg.to_email m || any (λ x. str_eq x.email m) msg.to_extra

-- The messages handed over that have this address in their To header.
abbrev pub addressed : String → List (EmailMessage × Bool) → ℕ
addressed m hs = length (keep (λ x. is_to m x.0) hs)

-- A message to one recipient alone is to no other one.
is_to_alone :
    (m : String) (msg : EmailMessage)
    → msg.to_extra ≡ []
    → is_to m msg ≡ true
    → str_eq msg.to_email m ≡ true
is_to_alone m msg x h = ground (arith, rw x at h)

addressed_cons :
    (m : String) (msg : EmailMessage) (b : Bool) (hs : List (EmailMessage × Bool))
    → addressed m ((msg, b) ∷ hs) ≤ addressed m hs + 1
addressed_cons m msg b hs = elim (Bool-cases (is_to m msg)) [
  | inl y ↦ rw y (omega arith)
  | inr n ↦ rw n (omega arith)
]

List-cases :
    (rs : List Recipient)
    → (is_empty rs ≡ true) ⊎ ((p : Recipient) × (ss : List Recipient) × (rs ≡ p ∷ ss))
List-cases [] = inl refl
List-cases (p ∷ ss) = inr (p, ss, refl)

module _ (ctx : Context) (cfg : ConsumerConfig) (event : NotificationEvent) (opts : EmailOptions)
    (atts : List ResolvedAttachment) (cb : EffectiveCcBcc) (m : String) where
  -- So far none, or else one and its row.
  abbrev Budget : ℕ → World → Type 0
  Budget n w =
      (addressed m w.handed ≡ n)
      ⊎ ((addressed m w.handed ≤ n + 1) × HasRow event.event_id m w.table)

  Budget-bound : (n : ℕ) (w : World) → Budget n w → addressed m w.handed ≤ n + 1
  Budget-bound n w (inl e) = omega (arith, e)
  Budget-bound n w (inr (le, row)) = le

  silent-Budget :
      (n : ℕ) (w w' : World)
      → w'.handed ≡ w.handed
      → (HasRow event.event_id m w.table → HasRow event.event_id m w'.table)
      → Budget n w
      → Budget n w'
  silent-Budget n w w' s k (inl e) = inl (ap (addressed m) s ∙ e)
  silent-Budget n w w' s k (inr (le, row)) =
      let same : addressed m w'.handed ≡ addressed m w.handed = ap (addressed m) s in
      inr (omega (arith, same, le), k row)

  -- Another recipient's message does not count.
  other-Budget :
      (n : ℕ) (w w' : World) (msg : EmailMessage) (b : Bool)
      → w'.handed ≡ (msg, b) ∷ w.handed
      → is_to m msg ≡ false
      → (HasRow event.event_id m w.table → HasRow event.event_id m w'.table)
      → Budget n w
      → Budget n w'
  other-Budget n w w' msg b q o k s =
      let skipped : addressed m ((msg, b) ∷ w.handed) ≡ addressed m w.handed = rw o in
      let same : addressed m w'.handed ≡ addressed m w.handed = ap (addressed m) q ∙ skipped in
      counted s same
    where
      counted : Budget n w → addressed m w'.handed ≡ addressed m w.handed → Budget n w'
      counted (inl e) same = inl (same ∙ e)
      counted (inr (le, row)) same = inr (omega (arith, same, le), k row)

  own-Budget :
      (n : ℕ) (w w' : World) (msg : EmailMessage) (b : Bool)
      → w'.handed ≡ (msg, b) ∷ w.handed
      → addressed m w.handed ≡ n
      → HasRow event.event_id m w'.table
      → Budget n w'
  own-Budget n w w' msg b q e row =
      let bound : addressed m w'.handed ≤ n + 1 =
        rw (q) (rw e at (addressed_cons m msg b w.handed)) in
      inr (bound, row)

  module _ (task_fuel : ℕ) where
    task-Budget :
        (n : ℕ) (r : Recipient) (w : World)
        → Budget n w
        → Budget n (world_of (recipient_task ctx cfg event opts atts cb task_fuel r w))
    task-Budget n r w s = elim (handed_with_row ctx cfg event opts r atts cb task_fuel w) [
      | inl q ↦ silent-Budget n w w' q kept s
      | inr ((msg, b, q, i, t, x), k) ↦ elim (Bool-cases (is_to m msg)) [
        | inr o ↦ other-Budget n w w' msg b q o kept s
        | inl y ↦
            let same : r.email ≡ m =
              cc (t, (str_eq_iff msg.to_email m).0 (is_to_alone m msg x y)) in
            elim s [
              | inl e ↦ own-Budget n w w' msg b q e (moved same w' k)
              | inr (le, row) ↦
                  silent-Budget n w w'
                    (redelivery_silent ctx cfg event opts r atts cb task_fuel w (moved' same w row))
                    kept (inr (le, row))
            ]
      ]
    ]
      where
        w' : World
        w' = world_of (recipient_task ctx cfg event opts atts cb task_fuel r w)

        kept : HasRow event.event_id m w.table → HasRow event.event_id m w'.table
        kept row =
            process_one_recipient-HasRow event.event_id m ctx event opts atts cb cfg r task_fuel w
              row

        moved :
            r.email ≡ m
            → (v : World) → HasRow event.event_id r.email v.table
            → HasRow event.event_id m v.table
        moved q v row = rw q at row

        moved' :
            r.email ≡ m
            → (v : World) → HasRow event.event_id m v.table
            → HasRow event.event_id r.email v.table
        moved' q v row = rw q row

    tasks_bound :
        (rs : List Recipient) (w : World)
        → addressed m
            (world_of (join_all (recipient_task ctx cfg event opts atts cb task_fuel) rs w)).handed
          ≤ addressed m w.handed + 1
    tasks_bound rs w =
        Budget-bound (addressed m w.handed)
          (world_of (join_all (recipient_task ctx cfg event opts atts cb task_fuel) rs w))
          (join_all_keeps (Budget (addressed m w.handed))
            (recipient_task ctx cfg event opts atts cb task_fuel)
            (task-Budget (addressed m w.handed)) rs w (inl refl))

    group_bound :
        (fuel : ℕ) (w : World)
        → is_empty opts.recipients ≡ false
        → addressed m
            (world_of (process_one_group ctx cfg event opts atts cb task_fuel fuel w)).handed
          ≤ addressed m w.handed + 1
    group_bound fuel w ne = elim (List-cases opts.recipients) [
      | inl y ↦ absurd (cc (y, ne))
      | inr (p, ss, e) ↦
          elim (group_handed_at_most_once ctx cfg event opts p ss atts cb e task_fuel fuel w) [
            | inl s ↦
                let same : addressed m
                      (world_of
                        (process_one_group ctx cfg event opts atts cb task_fuel fuel w)).handed
                    ≡ addressed m w.handed =
                  ap (addressed m) s in
                omega (arith, same)
            | inr (msg, b, q, i, t, x) ↦ rw q (addressed_cons m msg b w.handed)
          ]
    ]

    probed : (w : World) → (probe ctx event opts opts.recipients w).handed ≡ w.handed
    probed w = over opts.recipients
      where
        over : (rs : List Recipient) → (probe ctx event opts rs w).handed ≡ w.handed
        over [] = refl
        over (p ∷ ss) = elim (Bool-cases (is_whole opts.group_retry_mode)) [
          | inl y ↦ rw y (handed-db ctx _ w)
          | inr y ↦ rw y refl
        ]

    pub dispatch_bound :
        (fuel : ℕ) (w : World)
        → is_empty opts.recipients ≡ false
        → addressed m (world_of (dispatch ctx cfg event opts atts cb task_fuel fuel w)).handed
          ≤ addressed m w.handed + 1
    unfolding dispatch
    dispatch_bound fuel w ne = elim (Bool-cases (is_group opts.send_mode)) [
      | inl y ↦
          let w1 = probe ctx event opts opts.recipients w in
          let same : addressed m w1.handed ≡ addressed m w.handed = ap (addressed m) (probed w) in
          rw (y, dispatch) (omega (arith, same, group_bound fuel w1 ne))
      | inr y ↦ rw (y, dispatch) (tasks_bound opts.recipients w)
    ]
