-- ===== src/Store/BlockList/Entries.antt =====
-- What adding and removing an entry do to the policy.
use anvil_notify.Prelude.{
  ℕ, ◌≡◌, refl, sym, ap, ◌∙◌, inl, inr, Bool, true, false, not, ◌&&◌, ◌||◌, String, str_eq,
  str_eq_iff, Option, some, List, [], ◌∷◌, map, All, ◌==◌, find, Bool-cases, arith,
}
use anvil_notify.Store.BlockList.{
  BlockListEntry, Outside, has_key, reactivate, new_entry, upsert, is_active_id, deactivate,
}
use anvil_notify.Store.BlockList.Snapshots.{row_is, policy}

module _ (out : Outside) where
  -- A value is stored in the lower case that the index compares.
  abbrev pub IsFolded : String → Type 0
  IsFolded v = out.sql_lower v ≡ v

  -- The keys of two rows differ.
  abbrev pub Apart : BlockListEntry → BlockListEntry → Type 0
  Apart r q = (str_eq r.kind q.kind && str_eq r.value q.value ≡ false) × (r.id == q.id ≡ false)

  -- Values in lower case, and no two rows with one key or one id.
  abbrev pub IsValid : List BlockListEntry → Type 0
  IsValid [] = Unit
  IsValid (r ∷ rs) = IsFolded r.value × All (Apart r) rs × IsValid rs

  module _ (step : ℕ) (kind value : String) (reason : Option String) (folded : IsFolded value) where
    same_key :
        (r : BlockListEntry) → IsFolded r.value → has_key out kind value r ≡ row_is kind value r
    same_key r f = rw (f, folded)

    -- The policy after an entry is added: it lists the entry, and what it listed before.
    pub upsert_policy :
        (rows : List BlockListEntry) (k v : String)
        → IsValid rows
        → policy (upsert out step kind value reason rows).1 k v
          ≡ policy rows k v || (str_eq kind k && str_eq value v)
    unfolding upsert
    upsert_policy [] k v h = ground arith
    upsert_policy (r ∷ rs) k v (f, a, h) =
        let ih = upsert_policy rs k v h in
        elim (Bool-cases (has_key out kind value r)) [
          | inr n ↦ rw (n, upsert) (ground (arith, ih))
          | inl y ↦
              let y' : row_is kind value r ≡ true = sym (same_key r f) ∙ y in
              let ek = (str_eq_iff r.kind kind).0 in
              let ev = (str_eq_iff r.value value).0 in
              let named : (r.kind ≡ kind) × (r.value ≡ value) =
                (ek (ground (arith, y')), ev (ground (arith, y'))) in
              rw (y, upsert) (rw (named.0, named.1) (ground (arith)))
        ]

    pub upsert-All :
        (P : BlockListEntry → Type 0)
        → ((q : BlockListEntry) → P q → P (reactivate reason q))
        → P (new_entry out step kind value reason)
        → (rows : List BlockListEntry) → All P rows
        → All P (upsert out step kind value reason rows).1
    unfolding upsert
    upsert-All P k n [] h = (n, tt)
    upsert-All P k n (r ∷ rs) h = elim (Bool-cases (has_key out kind value r)) [
      | inl y ↦ rw (y, upsert) (k r h.0, h.1)
      | inr y ↦ rw (y, upsert) (h.0, upsert-All P k n rs h.1)
    ]

    -- An added entry leaves the list valid, if its id is new.
    pub upsert-IsValid :
        (rows : List BlockListEntry)
        → All (λ q. q.id == out.fresh_id step ≡ false) rows
        → IsValid rows
        → IsValid (upsert out step kind value reason rows).1
    unfolding upsert
    upsert-IsValid [] i h = (folded, tt, tt)
    upsert-IsValid (r ∷ rs) i (f, a, h) = elim (Bool-cases (has_key out kind value r)) [
      | inl y ↦ rw (y, upsert) (f, a, h)
      | inr y ↦
          let y' : row_is kind value r ≡ false = sym (same_key r f) ∙ y in
          rw (y, upsert)
            (f, upsert-All (Apart r) (λ q p. p) (y', i.0) rs a, upsert-IsValid rs i.1 h)
    ]

  Apart-policy :
      (r : BlockListEntry) (k v : String) (rs : List BlockListEntry)
      → All (Apart r) rs
      → row_is k v r ≡ true
      → policy rs k v ≡ false
  Apart-policy r k v [] a y = refl
  Apart-policy r k v (q ∷ rs) a y =
      let ih = Apart-policy r k v rs a.1 y in
      let ek = (str_eq_iff r.kind k).0 (ground (arith, y)) in
      let ev = (str_eq_iff r.value v).0 (ground (arith, y)) in
      let other : row_is k v q ≡ false = elim (Bool-cases (row_is k v q)) [
        | inr n ↦ n
        | inl z ↦
            let fk = (str_eq_iff q.kind k).0 (ground (arith, z)) in
            let fv = (str_eq_iff q.value v).0 (ground (arith, z)) in
            let mk = (str_eq_iff r.kind q.kind).1 (cc (ek, fk)) in
            let mv = (str_eq_iff r.value q.value).1 (cc (ev, fv)) in
            let never = a.0.0 in absurd (ground (arith, mk, mv, never))
      ] in
      ground (arith, ih, other)

  found-Apart :
      (r : BlockListEntry) (p : BlockListEntry → Bool) (rs : List BlockListEntry)
      (e : BlockListEntry)
      → All (Apart r) rs
      → find p rs ≡ some e
      → Apart r e
  found-Apart r p [] e a h = absurd (cc h)
  found-Apart r p (q ∷ rs) e a h = elim (Bool-cases (p q)) [
    | inl y ↦ let same : q ≡ e = cc (rw y at h) in rw same at (a.0)
    | inr n ↦ found-Apart r p rs e a.1 (rw n at h)
  ]

  -- A row with another id is left as it is.
  untouched :
      (r : BlockListEntry) (id : ℕ) (rs : List BlockListEntry)
      → is_active_id id r ≡ true
      → All (Apart r) rs
      → map (deactivate id) rs ≡ rs
  untouched r id [] y a = refl
  untouched r id (q ∷ rs) y a =
      let apart = a.0.1 in
      let n : is_active_id id q ≡ false = ground (arith, y, apart) in
      rw n (ap (◌∷◌ q) (untouched r id rs y a.1))

  -- The policy after an entry is removed: all that it listed before but the entry.
  pub remove_policy :
      (id : ℕ) (e : BlockListEntry) (k v : String) (rows : List BlockListEntry)
      → IsValid rows
      → find (is_active_id id) rows ≡ some e
      → policy (map (deactivate id) rows) k v ≡ policy rows k v && not (row_is k v e)
  remove_policy id e k v [] valid h = absurd (cc h)
  remove_policy id e k v (r ∷ rs) (f, a, valid) h = elim (Bool-cases (is_active_id id r)) [
    | inl y ↦
        let same : r ≡ e = cc (rw y at h) in
        rw (y, untouched r id rs y a)
          (gone r rs a
            ∙ ap (λ (x : BlockListEntry). policy (r ∷ rs) k v && not (row_is k v x)) same)
    | inr n ↦
        let h' : find (is_active_id id) rs ≡ some e = rw n at h in
        let ih = remove_policy id e k v rs valid h' in
        let apart = found-Apart r (is_active_id id) rs e a h' in
        rw n (other r e (policy (map (deactivate id) rs) k v) (policy rs k v) apart ih)
  ]
    where
      gone :
          (q : BlockListEntry) (qs : List BlockListEntry)
          → All (Apart q) qs
          → policy qs k v ≡ (q.active && row_is k v q || policy qs k v) && not (row_is k v q)
      gone q qs b = elim (Bool-cases (row_is k v q)) [
        | inl y ↦ let none = Apart-policy q k v qs b y in ground (arith, none, y)
        | inr n ↦ ground (arith, n)
      ]

      other :
          (q x : BlockListEntry) (after before : Bool)
          → Apart q x
          → after ≡ before && not (row_is k v x)
          → q.active && row_is k v q || after
            ≡ (q.active && row_is k v q || before) && not (row_is k v x)
      other q x after before b e' = elim (Bool-cases (row_is k v q)) [
        | inr n ↦ ground (arith, n, e')
        | inl y ↦
            let none = Apart-policy q k v (record x { active = true } ∷ []) (b, tt) y in
            ground (arith, none, y, e')
      ]

  map-Apart :
      (r : BlockListEntry) (id : ℕ) (rs : List BlockListEntry)
      → All (Apart r) rs
      → All (Apart r) (map (deactivate id) rs)
  map-Apart r id [] a = tt
  map-Apart r id (q ∷ rs) a = elim (Bool-cases (is_active_id id q)) [
    | inl y ↦ rw y (a.0, map-Apart r id rs a.1)
    | inr n ↦ rw n (a.0, map-Apart r id rs a.1)
  ]

  -- A removal leaves the list valid.
  pub remove-IsValid :
      (id : ℕ) (rows : List BlockListEntry) → IsValid rows → IsValid (map (deactivate id) rows)
  remove-IsValid id [] h = tt
  remove-IsValid id (r ∷ rs) (f, a, h) = elim (Bool-cases (is_active_id id r)) [
    | inl y ↦ rw y (f, map-Apart r id rs a, remove-IsValid id rs h)
    | inr n ↦ rw n (f, map-Apart r id rs a, remove-IsValid id rs h)
  ]
