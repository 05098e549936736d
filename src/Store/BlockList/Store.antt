-- ===== src/Store/BlockList/Store.antt =====
-- The store behind its cache: every operation keeps the cache true to the rows, and every check
-- answers by the policy.
use anvil_notify.Prelude.{
  ℕ, ◌+◌, ◌<◌, ◌≡◌, refl, ap, ◌∙◌, ◌⊎◌, inl, inr, false, String, Option, none, some, List, [], ◌∷◌,
  map, any, All, ◌==◌, Bool-cases, Option-cases, arith,
}
use anvil_notify.Common.Error.{ok, err, database, Result-cases}
use anvil_notify.Store.BlockList.{
  BlockListEntry, BlockListSnapshot, Outside, BlockListStore, next, load, cache_get, snapshot,
  check, invalidate, is_kind, upsert, add_entry, is_active_id, deactivate, remove_entry,
  is_empty_list, list_entries,
}
use anvil_notify.Store.BlockList.Entries.{
  IsFolded, IsValid, upsert-All, upsert-IsValid, remove-IsValid,
}

-- What the outside is relied on for: PostgreSQL's lower() leaves a text in lower case as it is, and
-- the sequence never gives an id twice.
pub record IsReliable (out : Outside) : Type 0 where
  pub folds : (v : String) → IsFolded out (out.to_lowercase v)
  pub fresh : (m n : ℕ) → out.fresh_id m == out.fresh_id n ≡ m == n

-- The rows are valid, their ids were given out earlier, and a cached snapshot is theirs.
pub record IsCoherent (out : Outside) (s : BlockListStore) : Type 0 where
  pub valid : IsValid out s.rows
  pub known : All (λ r. (n : ℕ) × (r.id ≡ out.fresh_id n) × (n < s.step)) s.rows
  pub cache : (snap : BlockListSnapshot) → s.cached ≡ some snap → snap ≡ load s.rows

-- The calls of the service and of its HTTP API.
pub data Call : Type 0 where
  checking : String → Call
  adding : String → String → Option String → Call
  removing : ℕ → Call
  invalidating : Call
  listing : Call
  asking_empty : Call

unfoldable pub call : Outside → Call → BlockListStore → BlockListStore
unfolding check add_entry remove_entry list_entries is_empty_list
call out (checking email) s = (check out email s).1
call out (adding kind value reason) s = (add_entry out kind value reason s).1
call out (removing id) s = (remove_entry out id s).1
call out invalidating s = invalidate s
call out listing s = (list_entries out s).1
call out asking_empty s = (is_empty_list out s).1

unfoldable pub calls : Outside → List Call → BlockListStore → BlockListStore
unfolding call
calls out [] s = s
calls out (c ∷ cs) s = calls out cs (call out c s)

module _ (out : Outside) (reliable : IsReliable out) where
  later :
      (rows : List BlockListEntry) (n : ℕ)
      → All (λ r. (m : ℕ) × (r.id ≡ out.fresh_id m) × (m < n)) rows
      → All (λ r. (m : ℕ) × (r.id ≡ out.fresh_id m) × (m < n + 1)) rows
  later [] n h = tt
  later (r ∷ rs) n ((m, e, l), h) = ((m, e, omega (arith, l)), later rs n h)

  stepped :
      (s : BlockListStore) → IsCoherent out s → IsCoherent out (record s { step = s.step + 1 })
  stepped s c = record { valid = c.valid; known = later s.rows s.step c.known; cache = c.cache }

  -- A cached snapshot is the one that a load would give.
  pub snapshot-cases :
      (s : BlockListStore)
      → IsCoherent out s
      → ((e : String) × (snapshot out s ≡ (err (database e), record s { step = s.step + 1 })))
        ⊎ ((c : Option BlockListSnapshot) × (snapshot out s
              ≡ (ok (load s.rows), record s { step = s.step + 1; cached = c }))
            × ((snap : BlockListSnapshot) → c ≡ some snap → snap ≡ load s.rows))
  unfolding snapshot
  snapshot-cases s c = elim (Bool-cases (out.holds s.step)) [
    | inl y ↦ elim (Option-cases s.cached) [
      | inr (snap, e) ↦ inr (
        s.cached,
        hit snap (rw (y, e)) ∙ ap (λ (x : BlockListSnapshot). (ok x, next s)) (c.cache snap e),
        c.cache,
      )
      | inl e ↦ missed (rw (y, e))
    ]
    | inr n ↦ missed (rw n)
  ]
    where
      hit :
          (snap : BlockListSnapshot)
          → cache_get out s ≡ some snap
          → snapshot out s ≡ (ok snap, next s)
      hit snap m = rw (m, snapshot) refl

      missed :
          cache_get out s ≡ none
          → ((e : String) × (snapshot out s ≡ (err (database e), record s { step = s.step + 1 })))
            ⊎ ((c' : Option BlockListSnapshot) × (snapshot out s
                  ≡ (ok (load s.rows), record s { step = s.step + 1; cached = c' }))
                × ((snap : BlockListSnapshot) → c' ≡ some snap → snap ≡ load s.rows))
      missed m = elim (Option-cases (out.db_fault s.step)) [
        | inr (e, d) ↦ inl (e, rw (m, snapshot) (rw (d, snapshot) refl))
        | inl d ↦ inr (some (load s.rows), rw (m, snapshot) (rw (d, snapshot) refl), λ snap q. cc q)
      ]

  -- Whatever is asked of the snapshot, the store stays coherent.
  snapshot-IsCoherent : (s : BlockListStore) → IsCoherent out s → IsCoherent out (snapshot out s).1
  snapshot-IsCoherent s c = elim (snapshot-cases s c) [
    | inl (e, q) ↦ rw q (stepped s c)
    | inr (cached, q, k) ↦
        rw q (record { valid = c.valid; known = later s.rows s.step c.known; cache = k })
  ]

  pub check-world :
      (email : String) (s : BlockListStore) → (check out email s).1 ≡ (snapshot out s).1
  unfolding check
  check-world email s = elim (Result-cases (snapshot out s).0) [
    | inl (snap, e) ↦ rw (e, check)
    | inr (x, e) ↦ rw (e, check)
  ]

  new_id :
      (rows : List BlockListEntry) (n : ℕ)
      → All (λ r. (m : ℕ) × (r.id ≡ out.fresh_id m) × (m < n)) rows
      → All (λ q. q.id == out.fresh_id n ≡ false) rows
  new_id [] n h = tt
  new_id (r ∷ rs) n ((m, e, l), h) =
      let apart : m == n ≡ false = ground (arith, l) in
      (rw e (reliable.fresh m n ∙ apart), new_id rs n h)

  added_known :
      (kind value : String) (reason : Option String) (s : BlockListStore)
      → IsCoherent out s
      → All
          (λ r. (m : ℕ) × (r.id ≡ out.fresh_id m) × (m < s.step + 1))
          (upsert out s.step kind (out.to_lowercase value) reason s.rows).1
  added_known kind value reason s c =
      upsert-All out s.step kind (out.to_lowercase value) reason (reliable.folds value)
        (λ r. (m : ℕ) × (r.id ≡ out.fresh_id m) × (m < s.step + 1)) (λ q k. k)
        (s.step, refl, omega arith) s.rows (later s.rows s.step c.known)

  removed_known :
      (id n : ℕ) (rows : List BlockListEntry)
      → All (λ r. (m : ℕ) × (r.id ≡ out.fresh_id m) × (m < n)) rows
      → All (λ r. (m : ℕ) × (r.id ≡ out.fresh_id m) × (m < n)) (map (deactivate id) rows)
  removed_known id n [] h = tt
  removed_known id n (r ∷ rs) (k, h) = elim (Bool-cases (is_active_id id r)) [
    | inl y ↦ rw y (k, removed_known id n rs h)
    | inr y ↦ rw y (k, removed_known id n rs h)
  ]

  pub add-IsCoherent :
      (kind value : String) (reason : Option String) (s : BlockListStore)
      → IsCoherent out s
      → IsCoherent out (add_entry out kind value reason s).1
  unfolding add_entry
  add-IsCoherent kind value reason s c = elim (Option-cases (out.db_fault s.step)) [
    | inr (e, d) ↦ rw (d, add_entry) (stepped s c)
    | inl d ↦ elim (Bool-cases (is_kind kind)) [
      | inr n ↦ rw (d, add_entry) (rw (n, add_entry) (stepped s c))
      | inl y ↦
          rw (d, add_entry)
            (rw (y, add_entry)
              (record {
                valid =
                    upsert-IsValid out s.step kind (out.to_lowercase value) reason
                      (reliable.folds value) s.rows (new_id s.rows s.step c.known) c.valid;
                known = added_known kind value reason s c;
                cache = λ snap q. cc q;
              }))
    ]
  ]

  remove-IsCoherent :
      (id : ℕ) (s : BlockListStore) → IsCoherent out s → IsCoherent out (remove_entry out id s).1
  unfolding remove_entry
  remove-IsCoherent id s c = elim (Option-cases (out.db_fault s.step)) [
    | inr (e, d) ↦ rw (d, remove_entry) (stepped s c)
    | inl d ↦ elim (Bool-cases (any (is_active_id id) s.rows)) [
      | inr n ↦ rw (d, remove_entry) (rw (n, remove_entry) (stepped s c))
      | inl y ↦
          rw (d, remove_entry)
            (rw (y, remove_entry)
              (record {
                valid = remove-IsValid out id s.rows c.valid;
                known = removed_known id (s.step + 1) s.rows (later s.rows s.step c.known);
                cache = λ snap q. cc q;
              }))
    ]
  ]

  list-IsCoherent : (s : BlockListStore) → IsCoherent out s → IsCoherent out (list_entries out s).1
  unfolding list_entries
  list-IsCoherent s c = elim (Option-cases (out.db_fault s.step)) [
    | inr (e, d) ↦ rw (d, list_entries) (stepped s c)
    | inl d ↦ rw (d, list_entries) (stepped s c)
  ]

  -- Every call keeps the store coherent: valid rows, and a cache that is true to them.
  pub call-IsCoherent :
      (x : Call) (s : BlockListStore) → IsCoherent out s → IsCoherent out (call out x s)
  unfolding call is_empty_list
  call-IsCoherent (checking email) s c = rw (check-world email s) (snapshot-IsCoherent s c)
  call-IsCoherent (adding kind value reason) s c = add-IsCoherent kind value reason s c
  call-IsCoherent (removing id) s c = remove-IsCoherent id s c
  call-IsCoherent invalidating s c = record {
    valid = c.valid;
    known = c.known;
    cache = λ snap q. cc q;
  }
  call-IsCoherent listing s c = list-IsCoherent s c
  call-IsCoherent asking_empty s c = snapshot-IsCoherent s c

  pub calls-IsCoherent :
      (xs : List Call) (s : BlockListStore) → IsCoherent out s → IsCoherent out (calls out xs s)
  unfolding calls
  calls-IsCoherent [] s c = c
  calls-IsCoherent (x ∷ xs) s c = calls-IsCoherent xs (call out x s) (call-IsCoherent x s c)
