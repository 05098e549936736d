-- ===== src/Api/Retry/Restored.antt =====
-- What a retry that is refused leaves in the log: crates/api/src/handlers.rs.
use anvil_notify.Prelude.{
  ℕ, ◌+◌, Bool, ◌≡◌, refl, sym, ◌∙◌, ap, subst, Bool-cases, inl, inr, String, Option, none, some,
  List, [], ◌∷◌, arith, map, keep,
}
use anvil_notify.Common.Error.{AppError, Result, ok, err}
use anvil_notify.Common.Event.{Uuid, Timestamp, NotificationEvent}
use anvil_notify.Store.Table.{Row, Table, update}
use anvil_notify.Store.Log.{is_failed_of, reset, reset_all_failed_for_event, revert_to_failed}
use anvil_notify.Store.Queries.{
  get_by_event_id, get_recipients_for_event, get_event_delivery_detail,
}
use anvil_notify.Store.Invariant.{IsValid}
use anvil_notify.Store.Compensation.{revert_to_failed-reset}
use anvil_notify.Api.Replay.{Decoded, decoded, malformed}
use anvil_notify.Api.Retry.{
  ApiState, Site, M, store, ◌then_do◌, send_body, send_replay, load_logs, load_detail, load_all,
  republish_event, or_revert, abort_reason, republish_or_revert, answer_reset, retry_event,
}

-- The database answers every call, and nobody else changes the table.
abbrev pub Undisturbed : ApiState → Type 0
Undisturbed state = (n : ℕ) → (state.db_fault n ≡ none) × (state.others n ≡ [])

abbrev pub statuses : Table → List String
statuses = map (λ r. r.status)

-- A statement that hits no row changes nothing.
update_none :
    (p : Row → Bool) (f : Row → Row) (t : Table)
    → map (λ r. r.recipient_id) (keep p t) ≡ []
    → update p f t ≡ t
update_none p f [] h = refl
update_none p f (r ∷ t) h = elim (Bool-cases (p r)) [
  | inl y ↦ absurd (ground (arith, y, h))
  | inr n ↦ rw n (ap (λ x. r ∷ x) (update_none p f t (ground (arith, n, h))))
]

then_do-table :
    {A B : Type 0} (T : Table) (x : Result A × Site) (f : A → M B)
    → x.1.table ≡ T
    → ((a : A) (s : Site) → s.table ≡ T → (f a s).1.table ≡ T)
    → (x then_do f).1.table ≡ T
then_do-table T (ok a, s) f h k = k a s h
then_do-table T (err e, s) f h k = h

module _ (state : ApiState) (calm : Undisturbed state) where
  store_calm :
      {A : Type 0} (op : Timestamp → Table → Result A × Table) (s : Site)
      → store state op s ≡ (
        (op (state.now s.step) s.table).0,
        record s { step = s.step + 1; table = (op (state.now s.step) s.table).1 },
      )
  unfolding store
  store_calm op s = rw ((calm s.step).0, (calm s.step).1, store) refl

  query-table :
      {A : Type 0} (q : Table → Result A) (s : Site)
      → (store state (λ now t. (q t, t)) s).1.table ≡ s.table
  query-table q s = ap (λ x. x.1.table) (store_calm (λ now t. (q t, t)) s)

  send_body-table : (x : Decoded (List ℕ)) (s : Site) → (send_body state x s).1.table ≡ s.table
  unfolding send_body
  send_body-table (malformed e) s = refl
  send_body-table (decoded body) s = refl

  send_replay-table :
      (r : Result NotificationEvent) (s : Site) → (send_replay state r s).1.table ≡ s.table
  unfolding send_replay
  send_replay-table (err e) s = refl
  send_replay-table (ok event) s = send_body-table (state.serde.to_vec event) s

  republish_event-table :
      (event_id : Uuid) (only_emails : Option (List String)) (s : Site)
      → (republish_event state event_id only_emails s).1.table ≡ s.table
  unfolding republish_event
  republish_event-table event_id only_emails s =
      then_do-table s.table (load_logs state event_id only_emails s) _
        (query-table (get_recipients_for_event event_id only_emails) s)
        λ logs s1 e1.
          then_do-table s.table (load_detail state event_id s1) _
            (query-table (get_event_delivery_detail event_id) s1 ∙ e1)
            λ d s2 e2. send_replay-table _ s2 ∙ e2

  module _ (event_id : Uuid) (T : Table) (e : AppError) where
    -- A revert, at any time and with any reason, gives every row the status of `T`.
    abbrev Reverts : List String → Table → Type 0
    Reverts es t =
        (now : Timestamp) (reason : String)
        → statuses (revert_to_failed now event_id es reason t).1 ≡ statuses T

    or_revert_restores :
        (es : List String) (x : Result (Unit {0}) × Site)
        → Reverts es x.1.table
        → (or_revert state event_id es x).0 ≡ err e
        → statuses (or_revert state event_id es x).1.table ≡ statuses T
    unfolding or_revert
    or_revert_restores es (ok _, s) k h = absurd (cc h)
    or_revert_restores es (err a, s) k h =
        ap (λ x. statuses x.1.table)
          (store_calm
            (λ now t.
              let (n, t') = revert_to_failed now event_id es (abort_reason a) t in (ok n, t'))
            s)
        ∙ k (state.now s.step) (abort_reason a)

    republish_or_revert_restores :
        (es : List String) (s : Site)
        → Reverts es s.table
        → (republish_or_revert state event_id es s).0 ≡ err e
        → statuses (republish_or_revert state event_id es s).1.table ≡ statuses T
    unfolding republish_or_revert
    republish_or_revert_restores es s k =
        or_revert_restores es (republish_event state event_id (some es) s)
          (subst (Reverts es) (sym (republish_event-table event_id (some es) s)) k)

    answered :
        (es : List String) (x : Result (Unit {0}) × Site)
        → (x.0 ≡ err e → statuses x.1.table ≡ statuses T)
        → (x then_do λ _ s1. (ok es, s1)).0 ≡ err e
        → statuses (x then_do λ _ s1. (ok es, s1)).1.table ≡ statuses T
    answered es (ok _, s) k h = absurd (cc h)
    answered es (err a, s) k h = k (cc h)

    answer_reset_restores :
        (es : List String) (s : Site)
        → (es ≡ [] → statuses s.table ≡ statuses T)
        → Reverts es s.table
        → (answer_reset state event_id es s).0 ≡ err e
        → statuses (answer_reset state event_id es s).1.table ≡ statuses T
    unfolding answer_reset
    answer_reset_restores [] s none_reset k h =
        ap statuses (
          then_do-table s.table (load_all state event_id s) _
            (query-table (get_by_event_id event_id) s) λ logs s1 e1. e1)
        ∙ none_reset refl
    answer_reset_restores (x ∷ xs) s none_reset k h =
        answered (x ∷ xs) (republish_or_revert state event_id (x ∷ xs) s)
          (republish_or_revert_restores (x ∷ xs) s k) h

  -- A retry of an event that fails, in a valid log that nobody else changes and with a database that
  -- answers, leaves every row with the status that it had.
  pub retry_event_restores :
      (event_id : Uuid) (e : AppError) (s : Site)
      → IsValid s.table
      → (retry_event state event_id s).0 ≡ err e
      → statuses (retry_event state event_id s).1.table ≡ statuses s.table
  unfolding retry_event reset_all_failed_for_event
  retry_event_restores event_id e s v h =
      let now = state.now s.step in
      let es = (reset_all_failed_for_event now event_id s.table).0 in
      let s1 : Site = record s {
        step = s.step + 1;
        table = (reset_all_failed_for_event now event_id s.table).1;
      } in
      let same : retry_event state event_id s ≡ answer_reset state event_id es s1 =
        ap (λ x. x then_do λ emails s2. answer_reset state event_id emails s2)
          (store_calm
            (λ now t.
              let (emails, t') = reset_all_failed_for_event now event_id t in (ok emails, t'))
            s) in
      ap (λ x. statuses x.1.table) same
      ∙ answer_reset_restores event_id s.table e es s1
          (λ q. ap statuses (update_none (is_failed_of event_id) (reset now) s.table q))
          (λ now2 reason. (revert_to_failed-reset now now2 event_id reason s.table v).0)
          (sym (ap (λ x. x.0) same) ∙ h)
