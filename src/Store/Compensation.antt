-- ===== src/Store/Compensation.antt =====
-- The manual retry of an event resets its FAILED rows, and reverts them when the event cannot be
-- published: `reset_all_failed_for_event`, then `revert_to_failed` with the recipients that it returned.
use anvil_notify.Prelude.{
  ◌≡◌, refl, sym, ◌∙◌, ◌⊎◌, inl, inr, true, false, String, str_eq, str_eq_iff, str_eq_refl, some,
  List, [], ◌∷◌, arith, All, map, keep, length, contains_text, Bool-cases, if◌then◌else◌,
}
use anvil_notify.Common.Event.{Uuid, Timestamp}
use anvil_notify.Store.Table.{Row, Table, has_key, lookup, update, rows_affected}
use anvil_notify.Store.Log.{
  reset, is_failed_of, is_pending_among, reset_all_failed_for_event, revert_to_failed,
}
use anvil_notify.Store.Invariant.{IsValid}

abbrev IsFound : Table → Row → Type 0
IsFound t r = lookup r.event_id r.recipient_id t ≡ some r

All-map : {P Q : Row → Type 0} → ((r : Row) → P r → Q r) → (t : Table) → All P t → All Q t
All-map k [] h = tt
All-map k (r ∷ t) h = (k r h.0, All-map k t h.1)

-- In a valid table each row is the one that its key finds.
rows-IsFound : (t : Table) → IsValid t → All (IsFound t) t
rows-IsFound [] h = tt
rows-IsFound (r ∷ t) (v, new, h) =
    (rw (str_eq_refl r.event_id, str_eq_refl r.recipient_id), All-map later t (rows-IsFound t h))
  where
    later : (x : Row) → IsFound t x → IsFound (r ∷ t) x
    later x f = elim (Bool-cases (has_key x.event_id x.recipient_id r)) [
      | inr n ↦ rw n f
      | inl y ↦
          let e : r.event_id ≡ x.event_id = (str_eq_iff r.event_id x.event_id).0 (ground arith) in
          let m : r.recipient_id ≡ x.recipient_id =
            (str_eq_iff r.recipient_id x.recipient_id).0 (ground arith) in
          absurd (cc f)
    ]

module _ (e : Uuid) where
  abbrev ids : Table → List String
  ids t = map (λ r. r.recipient_id) (keep (is_failed_of e) t)

  ids_grow :
      (r : Row) (t : Table) (m : String)
      → contains_text m (ids t) ≡ true
      → contains_text m (ids (r ∷ t)) ≡ true
  ids_grow r t m h = elim (Bool-cases (is_failed_of e r)) [
    | inl y ↦ rw y (ground (arith, h))
    | inr n ↦ rw n h
  ]

  abbrev Covered : List String → Row → Type 0
  Covered l r = (is_failed_of e r ≡ false) ⊎ (contains_text r.recipient_id l ≡ true)

  -- Each FAILED row's recipient is listed.
  kept-Covered : (t : Table) → All (Covered (ids t)) t
  kept-Covered [] = tt
  kept-Covered (r ∷ t) = (head, All-map grow t (kept-Covered t))
    where
      head : Covered (ids (r ∷ t)) r
      head = elim (Bool-cases (is_failed_of e r)) [
        | inl y ↦ inr (rw y (rw (str_eq_refl r.recipient_id)))
        | inr n ↦ inl n
      ]

      grow : (x : Row) → Covered (ids t) x → Covered (ids (r ∷ t)) x
      grow x (inl n) = inl n
      grow x (inr h) = inr (ids_grow r t x.recipient_id h)

  -- A listed recipient has a FAILED row.
  listed_kept :
      (P : Row → Type 0) (m : String) (t : Table)
      → contains_text m (ids t) ≡ true
      → All P t
      → (r : Row) × P r × (is_failed_of e r ≡ true) × (r.recipient_id ≡ m)
  listed_kept P m [] h k = cc
  listed_kept P m (r ∷ t) h k = elim (Bool-cases (is_failed_of e r)) [
    | inr n ↦ listed_kept P m t (ground (arith)) k.1
    | inl y ↦ elim (Bool-cases (str_eq r.recipient_id m)) [
      | inl s ↦ (r, k.0, y, (str_eq_iff r.recipient_id m).0 s)
      | inr d ↦ listed_kept P m t (ground (arith)) k.1
    ]
  ]

  module _ (now1 : Timestamp) (T : Table) where
    abbrev after_reset : Row → Row
    after_reset r = if is_failed_of e r then reset now1 r else r

    -- After the reset, the revert hits the rows that the reset hit, and no others.
    hits_same :
        (r : Row)
        → IsFound T r
        → All (IsFound T) T
        → Covered (ids T) r
        → is_pending_among e (ids T) (after_reset r) ≡ is_failed_of e r
    hits_same r f all_found c = elim (Bool-cases (is_failed_of e r)) [
      | inl y ↦ rw y (elim c [ inl n ↦ absurd (cc (y, n)) | inr h ↦ ground (arith, h, y) ])
      | inr n ↦ rw n (elim (Bool-cases (is_pending_among e (ids T) r)) [
        | inr m ↦ m
        | inl y ↦
            let (x, g, failed, same) =
              listed_kept (IsFound T) r.recipient_id T (ground arith) all_found in
            let ex : x.event_id ≡ e = (str_eq_iff x.event_id e).0 (ground (arith, failed)) in
            let er : r.event_id ≡ e = (str_eq_iff r.event_id e).0 (ground arith) in
            let one : some x ≡ some r = sym g ∙ rw (ex, same, sym er) f in
            absurd (cc (one, failed, n))
      ])
    ]

    abbrev mark_back : Timestamp → String → Row → Row
    mark_back now2 reason r = record r {
      status = "FAILED";
      last_error = some reason;
      updated_at = now2;
    }

    hits-All :
        All (IsFound T) T
        → (t : Table) → All (IsFound T) t
        → All (Covered (ids T)) t
        → All (λ r. is_pending_among e (ids T) (after_reset r) ≡ is_failed_of e r) t
    hits-All all_found [] f c = tt
    hits-All all_found (r ∷ t) f c = (hits_same r f.0 all_found c.0, hits-All all_found t f.1 c.1)

    restored :
        (now2 : Timestamp) (reason : String) (t : Table)
        → All (λ r. is_pending_among e (ids T) (after_reset r) ≡ is_failed_of e r) t
        → let t1 = update (is_failed_of e) (reset now1) t in
          (map (λ r. r.status) (update (is_pending_among e (ids T)) (mark_back now2 reason) t1)
            ≡ map (λ r. r.status) t)
          × (rows_affected (is_pending_among e (ids T)) t1 ≡ length (ids t))
    restored now2 reason [] h = (refl, refl)
    restored now2 reason (r ∷ t) h =
        let (a, b) = restored now2 reason t h.1 in
        elim (Bool-cases (is_failed_of e r)) [
          | inl y ↦
              let s : r.status ≡ "FAILED" = (str_eq_iff r.status "FAILED").0 (ground (arith, y)) in
              rw (h.0, y) (cc (s, a), cc b)
          | inr n ↦ rw (h.0, n) (cc a, b)
        ]

-- An event's FAILED rows are reset, and reverted with the recipients that the reset returned: every
-- row of the log has the status that it had before, and the revert counts as many rows as the reset
-- returned. This holds in a valid log that nobody else changes in between.
pub revert_to_failed-reset :
    (now1 now2 : Timestamp) (e : Uuid) (reason : String) (t : Table)
    → IsValid t
    → let (recipients, t1) = reset_all_failed_for_event now1 e t in
      let (n, t2) = revert_to_failed now2 e recipients reason t1 in
      (map (λ r. r.status) t2 ≡ map (λ r. r.status) t) × (n ≡ length recipients)
unfolding reset_all_failed_for_event revert_to_failed
revert_to_failed-reset now1 now2 e reason t v =
    let found = rows-IsFound t v in
    restored e now1 t now2 reason t (hits-All e now1 t found t found (kept-Covered e t))
