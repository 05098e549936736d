-- ===== src/Store/BlockList/Snapshots.antt =====
-- The snapshot and its check, in terms of the active rows: which pairs of a kind and a value the list
-- holds, and whom it lets through.
use anvil_notify.Prelude.{
  ◌≡◌, refl, ap, ◌∙◌, ◌⊎◌, inl, inr, Bool, true, false, ◌&&◌, ◌||◌, String, str_eq, str_eq_iff,
  some, List, [], ◌∷◌, any, contains_text, Bool-cases, arith,
}
use anvil_notify.Filter.{domain_of}
use anvil_notify.Store.BlockList.{
  BlockListEntry, BlockListSnapshot, empty_snapshot, add_row, add_rows, active_rows, load,
}

-- The abstract list: the pairs of a kind and a value that are active.
abbrev pub Policy : Type 0
Policy = String → String → Bool

abbrev pub row_is : String → String → BlockListEntry → Bool
row_is kind value r = str_eq r.kind kind && str_eq r.value value

abbrev pub policy : List BlockListEntry → Policy
policy rows kind value = any (λ r. r.active && row_is kind value r) rows

-- Whom a policy lets through: an address that is not blocked, by itself or by its domain; and, where
-- anything is allowed by name, one that is allowed by itself or by its domain.
pub record Permitted (to_lowercase : String → String) (lists : Policy) (email : String)
    : Type 0 where
  pub email_ok : lists "blocked_email" (to_lowercase email) ≡ false
  pub domain_ok :
      (d : String) → domain_of (to_lowercase email) ≡ some d → lists "blocked_domain" d ≡ false
  pub allowed :
      ((v : String) → (lists "allowed_email" v ≡ false) × (lists "allowed_domain" v ≡ false))
      ⊎ (lists "allowed_email" (to_lowercase email) ≡ true)
      ⊎ ((d : String) × (domain_of (to_lowercase email) ≡ some d)
          × (lists "allowed_domain" d ≡ true))

abbrev AllOther : String → Type 0
AllOther k =
    (str_eq k "blocked_email" ≡ false)
    × (str_eq k "blocked_domain" ≡ false)
    × (str_eq k "allowed_email" ≡ false)
    × (str_eq k "allowed_domain" ≡ false)

-- The four kinds, and any other text.
kind-cases :
    (k : String)
    → (k ≡ "blocked_email")
      ⊎ (k ≡ "blocked_domain")
      ⊎ (k ≡ "allowed_email")
      ⊎ (k ≡ "allowed_domain")
      ⊎ AllOther k
kind-cases k = elim (Bool-cases (str_eq k "blocked_email")) [
  | inl y ↦ inl ((str_eq_iff k "blocked_email").0 y)
  | inr a ↦ elim (Bool-cases (str_eq k "blocked_domain")) [
    | inl y ↦ inr (inl ((str_eq_iff k "blocked_domain").0 y))
    | inr b ↦ elim (Bool-cases (str_eq k "allowed_email")) [
      | inl y ↦ inr (inr (inl ((str_eq_iff k "allowed_email").0 y)))
      | inr c ↦ elim (Bool-cases (str_eq k "allowed_domain")) [
        | inl y ↦ inr (inr (inr (inl ((str_eq_iff k "allowed_domain").0 y))))
        | inr d ↦ inr (inr (inr (inr (a, b, c, d))))
      ]
    ]
  ]
]

-- What one row adds to each field.
add_row_collects :
    (r : BlockListEntry) (snap : BlockListSnapshot) (x : String)
    → let s = add_row r snap in
      (contains_text x s.blocked_emails
        ≡ row_is "blocked_email" x r || contains_text x snap.blocked_emails)
      × (contains_text x s.blocked_domains
          ≡ row_is "blocked_domain" x r || contains_text x snap.blocked_domains)
      × (contains_text x s.allowed_emails
          ≡ row_is "allowed_email" x r || contains_text x snap.allowed_emails)
      × (contains_text x s.allowed_domains
          ≡ row_is "allowed_domain" x r || contains_text x snap.allowed_domains)
unfolding add_row
add_row_collects r snap x = elim (kind-cases r.kind) [
  | inl e ↦ rw (e, add_row) (refl, refl, refl, refl)
  | inr (inl e) ↦ rw (e, add_row) (refl, refl, refl, refl)
  | inr (inr (inl e)) ↦ rw (e, add_row) (refl, refl, refl, refl)
  | inr (inr (inr (inl e))) ↦ rw (e, add_row) (refl, refl, refl, refl)
  | inr (inr (inr (inr (a, b, c, d)))) ↦ rw (a, b, c, d, add_row) (refl, refl, refl, refl)
]

-- The two kinds that switch the allow list on.
abbrev pub allows : BlockListEntry → Bool
allows r = str_eq r.kind "allowed_email" || str_eq r.kind "allowed_domain"

add_row_mode :
    (r : BlockListEntry) (snap : BlockListSnapshot)
    → (add_row r snap).allowlist_mode ≡ allows r || snap.allowlist_mode
unfolding add_row
add_row_mode r snap = elim (kind-cases r.kind) [
  | inl e ↦ rw (e, add_row)
  | inr (inl e) ↦ rw (e, add_row)
  | inr (inr (inl e)) ↦ rw (e, add_row)
  | inr (inr (inr (inl e))) ↦ rw (e, add_row)
  | inr (inr (inr (inr (a, b, c, d)))) ↦ rw (a, b, c, d, add_row)
]

-- What one row adds to a test of the snapshot, the active rows add to it.
add_rows_collect :
    (p : BlockListEntry → Bool) (f : BlockListSnapshot → Bool)
    → ((r : BlockListEntry) (snap : BlockListSnapshot) → f (add_row r snap) ≡ p r || f snap)
    → (rows : List BlockListEntry) (snap : BlockListSnapshot)
    → f (add_rows (active_rows rows) snap) ≡ any (λ r. r.active && p r) rows || f snap
add_rows_collect p f k [] snap = refl
add_rows_collect p f k (r ∷ rs) snap = elim (Bool-cases r.active) [
  | inr n ↦ rw n (add_rows_collect p f k rs snap)
  | inl y ↦
      let ih = add_rows_collect p f k rs (add_row r snap) in
      let one = k r snap in rw y (ground (arith, ih, one))
]

module _ (rows : List BlockListEntry) where
  no_more : (b : Bool) → b || false ≡ b
  no_more true = refl
  no_more false = refl

  load_field :
      (kind : String) (f : BlockListSnapshot → List String) (x : String)
      → f empty_snapshot ≡ []
      → ((r : BlockListEntry) (snap : BlockListSnapshot)
          → contains_text x (f (add_row r snap)) ≡ row_is kind x r || contains_text x (f snap))
      → contains_text x (f (load rows)) ≡ policy rows kind x
  unfolding load
  load_field kind f x e k =
      add_rows_collect (row_is kind x) (λ s. contains_text x (f s)) k rows empty_snapshot
      ∙ ap (λ (l : List String). policy rows kind x || contains_text x l) e
      ∙ no_more (policy rows kind x)

  -- The snapshot of the active rows holds what the policy lists.
  pub load_lists :
      (x : String)
      → (contains_text x (load rows).blocked_emails ≡ policy rows "blocked_email" x)
        × (contains_text x (load rows).blocked_domains ≡ policy rows "blocked_domain" x)
        × (contains_text x (load rows).allowed_emails ≡ policy rows "allowed_email" x)
        × (contains_text x (load rows).allowed_domains ≡ policy rows "allowed_domain" x)
  load_lists x = (
    load_field "blocked_email" (λ s. s.blocked_emails) x refl (λ r s. (add_row_collects r s x).0),
    load_field "blocked_domain" (λ s. s.blocked_domains) x refl (λ r s. (add_row_collects r s x).1),
    load_field "allowed_email" (λ s. s.allowed_emails) x refl (λ r s. (add_row_collects r s x).2),
    load_field "allowed_domain" (λ s. s.allowed_domains) x refl (λ r s. (add_row_collects r s x).3),
  )

  pub load_mode : (load rows).allowlist_mode ≡ any (λ r. r.active && allows r) rows
  unfolding load
  load_mode =
      add_rows_collect allows (λ s. s.allowlist_mode) add_row_mode rows empty_snapshot
      ∙ no_more (any (λ r. r.active && allows r) rows)
