-- ===== src/Store/BlockList/Refinement.antt =====
-- The store refines a set of rules: what every call does to the rules that are in force, and that the
-- check answers by them, whatever the cache holds.
use anvil_notify.Prelude.{
  ℕ, ◌≡◌, refl, ap, ◌∙◌, ◌↔◌, ◌⊎◌, inl, inr, Bool, true, false, not, ◌&&◌, ◌||◌, String, str_eq,
  str_eq_refl, Option, some, List, [], ◌∷◌, any, find, concat, show, Bool-cases, Option-cases,
  arith, ◌==◌,
}
use anvil_notify.Common.Error.{AppError, ok, err, is_ok, database, not_found}
use anvil_notify.Store.BlockList.{
  BlockListEntry, Outside, BlockListStore, snapshot, check, is_kind, upsert, add_entry,
  is_active_id, remove_entry, is_empty_list, list_entries,
}
use anvil_notify.Store.BlockList.Snapshots.{Policy, row_is, policy, Permitted}
use anvil_notify.Store.BlockList.Checks.{check_load}
use anvil_notify.Store.BlockList.Entries.{upsert_policy, remove_policy}
use anvil_notify.Store.BlockList.Store.{
  IsReliable, IsCoherent, Call, checking, adding, removing, invalidating, listing, asking_empty,
  call, calls, call-IsCoherent, snapshot-cases, check-world, add-IsCoherent, calls-IsCoherent,
}

abbrev pub SameRules : Policy → Policy → Type 0
SameRules p q = (k v : String) → q k v ≡ p k v

-- What a call is to do to the rules in force, and when it is to fail. An entry that is added without
-- an error is one rule more; one that is removed is the active one of that id, and its rule is gone.
abbrev pub Effect : Outside → BlockListStore → Policy → Call → Type 0
Effect out s q (adding kind value reason) =
    ((entry : BlockListEntry) × ((add_entry out kind value reason s).0 ≡ ok entry)
      × ((k v : String)
          → q k v ≡ policy s.rows k v || (str_eq kind k && str_eq (out.to_lowercase value) v)))
    ⊎ ((e : String) × ((add_entry out kind value reason s).0 ≡ err (database e))
        × ((out.db_fault s.step ≡ some e) ⊎ (is_kind kind ≡ false))
        × SameRules (policy s.rows) q)
Effect out s q (removing id) =
    ((e : BlockListEntry) × ((remove_entry out id s).0 ≡ ok tt)
      × (find (λ r. r.id == id && r.active) s.rows ≡ some e)
      × ((k v : String) → q k v ≡ policy s.rows k v && not (row_is k v e)))
    ⊎ ((e : AppError) × ((remove_entry out id s).0 ≡ err e)
        × (((x : String) × (out.db_fault s.step ≡ some x))
            ⊎ (any (λ r. r.id == id && r.active) s.rows ≡ false))
        × SameRules (policy s.rows) q)
Effect out s q (checking email) = SameRules (policy s.rows) q
Effect out s q invalidating = SameRules (policy s.rows) q
Effect out s q listing = SameRules (policy s.rows) q
Effect out s q asking_empty = SameRules (policy s.rows) q

abbrev pub is_removing : Call → Bool
is_removing (removing id) = true
is_removing _ = false

any_found :
    (p : BlockListEntry → Bool) (rows : List BlockListEntry)
    → any p rows ≡ true
    → (e : BlockListEntry) × (find p rows ≡ some e)
any_found p [] h = absurd (cc h)
any_found p (r ∷ rs) h = elim (Bool-cases (p r)) [
  | inl y ↦ (r, rw y)
  | inr n ↦ let (e, f) = any_found p rs (ground (arith, h, n)) in (e, rw (n, f))
]

module _ (out : Outside) (reliable : IsReliable out) where
  abbrev rules : BlockListStore → Policy
  rules s = policy s.rows

  snapshot-rows : (s : BlockListStore) → IsCoherent out s → (snapshot out s).1.rows ≡ s.rows
  snapshot-rows s c = elim (snapshot-cases out reliable s c) [
    | inl (e, q) ↦ rw q
    | inr (cached, q, k) ↦ rw q
  ]

  list-rows : (s : BlockListStore) → (list_entries out s).1.rows ≡ s.rows
  unfolding list_entries
  list-rows s = elim (Option-cases (out.db_fault s.step)) [
    | inr (e, d) ↦ rw (d, list_entries) refl
    | inl d ↦ rw (d, list_entries) refl
  ]

  add_step :
      (kind value : String) (reason : Option String) (s : BlockListStore)
      → IsCoherent out s
      → Effect out s (rules (add_entry out kind value reason s).1) (adding kind value reason)
  unfolding add_entry
  add_step kind value reason s c = elim (Option-cases (out.db_fault s.step)) [
    | inr (e, d) ↦ inr (e, rw (d, add_entry), inl d, λ k v. rw (d, add_entry) refl)
    | inl d ↦ elim (Bool-cases (is_kind kind)) [
      | inr n ↦ inr (
        out.check_violation,
        rw (d, add_entry) (rw (n, add_entry)),
        inr n,
        λ k v. rw (d, add_entry) (rw (n, add_entry) refl),
      )
      | inl y ↦ inl (
        (upsert out s.step kind (out.to_lowercase value) reason s.rows).0,
        rw (d, add_entry) (rw (y, add_entry)),
        λ k v.
            rw (d, add_entry)
              (rw (y, add_entry)
                (upsert_policy out s.step kind (out.to_lowercase value) reason
                  (reliable.folds value) s.rows k v c.valid)),
      )
    ]
  ]

  remove_step :
      (id : ℕ) (s : BlockListStore)
      → IsCoherent out s
      → Effect out s (rules (remove_entry out id s).1) (removing id)
  unfolding remove_entry
  remove_step id s c = elim (Option-cases (out.db_fault s.step)) [
    | inr (e, d) ↦
        inr (database e, rw (d, remove_entry), inl (e, d), λ k v. rw (d, remove_entry) refl)
    | inl d ↦ elim (Bool-cases (any (is_active_id id) s.rows)) [
      | inr n ↦ inr (
        not_found (concat ("No active block_list entry with id " ∷ show id ∷ [])),
        rw (d, remove_entry) (rw (n, remove_entry) refl),
        inr n,
        λ k v. rw (d, remove_entry) (rw (n, remove_entry) refl),
      )
      | inl y ↦
          let (e, f) = any_found (is_active_id id) s.rows y in
          inl (
            e,
            rw (d, remove_entry) (rw (y, remove_entry)),
            f,
            λ k v.
                rw (d, remove_entry)
                  (rw (y, remove_entry) (remove_policy out id e k v s.rows c.valid f)),
          )
    ]
  ]

  -- What a call of the store does to the rules in force. An entry that is added is one rule more, and
  -- adding reports an error, and changes no rule, only where the database fails or the kind is
  -- unknown. An entry that is removed is the active one of that id and its rule is gone, and removing
  -- reports an error, and changes no rule, only where the database fails or no active entry has that
  -- id. No other call changes a rule. The store is coherent: its rows are valid and its cache is theirs.
  pub call_refines :
      (x : Call) (s : BlockListStore)
      → IsCoherent out s
      → Effect out s (policy (call out x s).rows) x
  unfolding call is_empty_list list_entries
  call_refines (checking email) s c = λ k v.
      ap (λ (rows : List BlockListEntry). policy rows k v)
        (ap (λ (t : BlockListStore). t.rows) (check-world out reliable email s) ∙ snapshot-rows s c)
  call_refines (adding kind value reason) s c = add_step kind value reason s c
  call_refines (removing id) s c = remove_step id s c
  call_refines invalidating s c = λ k v. refl
  call_refines listing s c =
      λ k v. ap (λ (rows : List BlockListEntry). policy rows k v) (list-rows s)
  call_refines asking_empty s c =
      λ k v. ap (λ (rows : List BlockListEntry). policy rows k v) (snapshot-rows s c)

  -- A call that removes nothing leaves a rule in force.
  step_stays :
      (k v : String) (x : Call) (s : BlockListStore)
      → IsCoherent out s
      → is_removing x ≡ false
      → rules s k v ≡ true
      → rules (call out x s) k v ≡ true
  step_stays k v (checking email) s c n h = call_refines (checking email) s c k v ∙ h
  step_stays k v (adding kind value reason) s c n h =
      elim (call_refines (adding kind value reason) s c) [
        | inl (entry, q, f) ↦ let g = f k v in ground (arith, g, h)
        | inr (e, q, w, f) ↦ f k v ∙ h
      ]
  step_stays k v (removing id) s c n h = absurd (cc n)
  step_stays k v invalidating s c n h = call_refines invalidating s c k v ∙ h
  step_stays k v listing s c n h = call_refines listing s c k v ∙ h
  step_stays k v asking_empty s c n h = call_refines asking_empty s c k v ∙ h

  calls_stay :
      (k v : String) (xs : List Call) (s : BlockListStore)
      → IsCoherent out s
      → any is_removing xs ≡ false
      → rules s k v ≡ true
      → rules (calls out xs s) k v ≡ true
  unfolding calls
  calls_stay k v [] s c n h = h
  calls_stay k v (x ∷ xs) s c n h =
      let one : is_removing x ≡ false = ground (arith, n) in
      let more : any is_removing xs ≡ false = ground (arith, n, one) in
      calls_stay k v xs (call out x s) (call-IsCoherent out reliable x s c) more
        (step_stays k v x s c one h)

  check_answer :
      (email : String) (s : BlockListStore)
      → IsCoherent out s
      → let answer = (check out email s).0 in
        ((e : String) × (answer ≡ err (database e)))
        ⊎ ((is_ok answer ≡ true) ↔ Permitted out.to_lowercase (policy s.rows) email)
  unfolding check
  check_answer email s c = elim (snapshot-cases out reliable s c) [
    | inl (e, q) ↦ inl (e, rw (q, check))
    | inr (cached, q, k) ↦ inr (rw (q, check) (check_load out.to_lowercase s.rows email))
  ]

  -- After any sequence of calls on a coherent store, such as an empty one, a check answers by the
  -- rules that are in force then, through the cache or not; or it reports that the database refused
  -- to load them.
  pub check_refines :
      (email : String) (xs : List Call) (s : BlockListStore)
      → IsCoherent out s
      → let s' = calls out xs s in
        let answer = (check out email s').0 in
        ((e : String) × (answer ≡ err (database e)))
        ⊎ ((is_ok answer ≡ true) ↔ Permitted out.to_lowercase (policy s'.rows) email)
  check_refines email xs s c =
      check_answer email (calls out xs s) (calls-IsCoherent out reliable xs s c)

  added_rule :
      (value : String) (reason : Option String) (s : BlockListStore) (entry : BlockListEntry)
      → IsCoherent out s
      → (add_entry out "blocked_email" value reason s).0 ≡ ok entry
      → policy
          (add_entry out "blocked_email" value reason s).1.rows
          "blocked_email"
          (out.to_lowercase value)
        ≡ true
  unfolding add_entry
  added_rule value reason s entry c e = elim (Option-cases (out.db_fault s.step)) [
    | inr (x, d) ↦ absurd (cc (rw (d, add_entry) at e))
    | inl d ↦
        let same = str_eq_refl (out.to_lowercase value) in
        let p =
          upsert_policy out s.step "blocked_email" (out.to_lowercase value) reason
            (reliable.folds value) s.rows "blocked_email" (out.to_lowercase value) c.valid in
        rw (d, add_entry) (ground (arith, p, same))
  ]

  -- Once an address is added to the blocked ones of a coherent store, no later check of it passes, in
  -- whatever case it is written and through the cache or not, until an entry is removed: whatever was
  -- checked, added, listed or invalidated in between.
  pub added_blocks :
      (value email : String) (reason : Option String) (s : BlockListStore) (entry : BlockListEntry)
      (xs : List Call)
      → IsCoherent out s
      → (add_entry out "blocked_email" value reason s).0 ≡ ok entry
      → out.to_lowercase email ≡ out.to_lowercase value
      → any is_removing xs ≡ false
      → is_ok (check out email (calls out xs (add_entry out "blocked_email" value reason s).1)).0
        ≡ false
  added_blocks value email reason s entry xs c e same kept =
      let s1 = (add_entry out "blocked_email" value reason s).1 in
      let c1 = add-IsCoherent out reliable "blocked_email" value reason s c in
      let s' = calls out xs s1 in
      let ruled =
        calls_stay "blocked_email" (out.to_lowercase value) xs s1 c1 kept
          (added_rule value reason s entry c e) in
      elim (check_answer email s' (calls-IsCoherent out reliable xs s1 c1)) [
        | inl (x, q) ↦ rw q
        | inr answers ↦ elim (Bool-cases (is_ok (check out email s').0)) [
          | inr n ↦ n
          | inl y ↦
              let never = (answers.0 y).email_ok in
              absurd (cc (never, ap (policy s'.rows "blocked_email") same, ruled))
        ]
      ]
