-- ===== src/Outbox/Order.antt =====
-- The order in which the rows of a batch are published.
use anvil_notify.Prelude.{
  ℕ, zero, suc, ◌≤◌, ◌<◌, ◌≡◌, refl, ◌∙◌, ap, Bool-cases, ◌⊎◌, inl, inr, [], ◌∷◌, arith, All, take,
  length, leb,
}
use anvil_notify.Outbox.Rows.{OutboxRow, Rows, insert_by, sort_by}
use anvil_notify.Outbox.Worker.{priority_of}

module _ (key : OutboxRow → ℕ) where
  abbrev pub Sorted : Rows → Type 0
  Sorted [] = Unit
  Sorted (x ∷ xs) = All (λ y. key x ≤ key y) xs × Sorted xs

  le_trans_All : (a b : ℕ) → a ≤ b → (ys : Rows) → All (λ y. b ≤ key y) ys → All (λ y. a ≤ key y) ys
  le_trans_All a b h [] k = tt
  le_trans_All a b h (y ∷ ys) k = (omega (arith, h, k.0), le_trans_All a b h ys k.1)

  length-insert_by : (x : OutboxRow) (ys : Rows) → length (insert_by key x ys) ≡ suc (length ys)
  length-insert_by x [] = refl
  length-insert_by x (y ∷ ys) = elim (Bool-cases (leb (key x) (key y))) [
    | inl e ↦ rw e refl
    | inr e ↦ rw e (ap suc (length-insert_by x ys))
  ]

  pub length-sort_by : (xs : Rows) → length (sort_by key xs) ≡ length xs
  unfolding sort_by
  length-sort_by [] = refl
  length-sort_by (x ∷ xs) = length-insert_by x (sort_by key xs) ∙ ap suc (length-sort_by xs)

  insert-All :
      (n : ℕ) (x : OutboxRow) (ys : Rows)
      → n ≤ key x
      → All (λ y. n ≤ key y) ys
      → All (λ y. n ≤ key y) (insert_by key x ys)
  insert-All n x [] h k = (h, tt)
  insert-All n x (y ∷ ys) h k = elim (Bool-cases (leb (key x) (key y))) [
    | inl e ↦ rw e (h, k)
    | inr e ↦ rw e (k.0, insert-All n x ys h k.1)
  ]

  insert_by-Sorted : (x : OutboxRow) (ys : Rows) → Sorted ys → Sorted (insert_by key x ys)
  insert_by-Sorted x [] h = (tt, tt)
  insert_by-Sorted x (y ∷ ys) h = elim (Bool-cases (leb (key x) (key y))) [
    | inl e ↦
        let le : key x ≤ key y = ground arith in
        rw e ((le, le_trans_All (key x) (key y) le ys h.0), h)
    | inr e ↦
        let le : key y ≤ key x = ground arith in
        rw e (insert-All (key y) x ys le h.0, insert_by-Sorted x ys h.1)
  ]

  pub sort_by-Sorted : (xs : Rows) → Sorted (sort_by key xs)
  unfolding sort_by
  sort_by-Sorted [] = tt
  sort_by-Sorted (x ∷ xs) = insert_by-Sorted x (sort_by key xs) (sort_by-Sorted xs)

  insert_by-All :
      (P : OutboxRow → Type 0) (x : OutboxRow) (ys : Rows)
      → P x
      → All P ys
      → All P (insert_by key x ys)
  insert_by-All P x [] h k = (h, tt)
  insert_by-All P x (y ∷ ys) h k = elim (Bool-cases (leb (key x) (key y))) [
    | inl e ↦ rw e (h, k)
    | inr e ↦ rw e (k.0, insert_by-All P x ys h k.1)
  ]

  pub sort_by-All : (P : OutboxRow → Type 0) (xs : Rows) → All P xs → All P (sort_by key xs)
  unfolding sort_by
  sort_by-All P [] h = tt
  sort_by-All P (x ∷ xs) h = insert_by-All P x (sort_by key xs) h.0 (sort_by-All P xs h.1)

-- One row comes before another one: it is more urgent, or as urgent and no younger. The priority 0 is
-- the most urgent, and a row without one the least.
abbrev pub Before : OutboxRow → OutboxRow → Type 0
Before x y =
    (priority_of x < priority_of y)
    ⊎ ((priority_of x ≡ priority_of y) × (x.created_at ≤ y.created_at))

abbrev pub InOrder : Rows → Type 0
InOrder [] = Unit
InOrder (x ∷ xs) = All (Before x) xs × InOrder xs

-- What is no less urgent and no younger than a row comes before all that come after that row.
ahead :
    (x y : OutboxRow) (zs : Rows)
    → priority_of x ≤ priority_of y
    → All (λ z. x.created_at ≤ z.created_at) zs
    → All (Before y) zs
    → All (Before x) zs
ahead x y [] le old h = tt
ahead x y (z ∷ zs) le old h = (one h.0, ahead x y zs le old.1 h.1)
  where
    one : Before y z → Before x z
    one (inl lt) = inl (omega (arith, le, lt))
    one (inr (same, younger)) = elim (Bool-cases (leb (priority_of z) (priority_of x))) [
      | inl e ↦
          let up : priority_of z ≤ priority_of x = ground (arith, e) in
          inr (omega (arith, same, le, up), old.0)
      | inr e ↦ inl (ground (arith, e))
    ]

insert-InOrder :
    (x : OutboxRow) (ys : Rows)
    → All (λ y. x.created_at ≤ y.created_at) ys
    → InOrder ys
    → InOrder (insert_by priority_of x ys)
insert-InOrder x [] old h = (tt, tt)
insert-InOrder x (y ∷ ys) old h = elim (Bool-cases (leb (priority_of x) (priority_of y))) [
  | inl e ↦
      let le : priority_of x ≤ priority_of y = ground (arith, e) in
      rw e ((first le, ahead x y ys le old.1 h.0), h)
  | inr e ↦
      let lt : priority_of y < priority_of x = ground (arith, e) in
      rw e (insert_by-All priority_of (Before y) x ys (inl lt) h.0, insert-InOrder x ys old.1 h.1)
]
  where
    first : priority_of x ≤ priority_of y → Before x y
    first le = elim (Bool-cases (leb (priority_of y) (priority_of x))) [
      | inl e ↦
          let up : priority_of y ≤ priority_of x = ground (arith, e) in
          inr (omega (arith, le, up), old.0)
      | inr e ↦ inl (ground (arith, e))
    ]

pub sort-InOrder : (xs : Rows) → Sorted (λ r. r.created_at) xs → InOrder (sort_by priority_of xs)
unfolding sort_by
sort-InOrder [] h = tt
sort-InOrder (x ∷ xs) h =
    insert-InOrder x (sort_by priority_of xs)
      (sort_by-All priority_of (λ y. x.created_at ≤ y.created_at) xs h.0) (sort-InOrder xs h.1)

pub take-All : (P : OutboxRow → Type 0) (n : ℕ) (xs : Rows) → All P xs → All P (take n xs)
take-All P zero xs h = tt
take-All P (suc n) [] h = tt
take-All P (suc n) (x ∷ xs) h = (h.0, take-All P n xs h.1)

pub take-Sorted : (key : OutboxRow → ℕ) (n : ℕ) (xs : Rows) → Sorted key xs → Sorted key (take n xs)
take-Sorted key zero xs h = tt
take-Sorted key (suc n) [] h = tt
take-Sorted key (suc n) (x ∷ xs) h =
    (take-All (λ y. key x ≤ key y) n xs h.0, take-Sorted key n xs h.1)
