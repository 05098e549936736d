-- ===== src/Filter/Laws.antt =====
-- What the recipient filter decides, in terms of the configuration that it was built from.
use anvil_notify.Prelude.{
  ◌≡◌, refl, ◌↔◌, ◌⊎◌, inl, inr, Bool, true, false, String, List, [], ◌∷◌, none, some, Option,
  arith, contains_text, is_empty, map, Bool-cases, str_eq, str_eq_iff,
}
use anvil_notify.Common.Error.{Result, ok, err, is_ok, blocked}
use anvil_notify.Filter.{
  FilterConfig, RecipientFilter, new, check, is_passthrough, domain_of, domain_listed,
}

module _ (lower : String → String) where
  -- Some entry of a configured list is, up to case, the text `x`.
  abbrev pub Listed : String → List String → Type 0
  Listed x [] = ⊥
  Listed x (c ∷ cs) = (lower c ≡ x) ⊎ Listed x cs

  abbrev pub DomainListed : Option String → List String → Type 0
  DomainListed none cs = ⊥
  DomainListed (some d) cs = Listed d cs

  -- The rules of the two operating modes.
  pub record Permits (cfg : FilterConfig) (email : String) : Type 0 where
    pub not_blocked : ¬ Listed (lower email) cfg.blocked_emails
    pub domain_not_blocked : ¬ DomainListed (domain_of (lower email)) cfg.blocked_domains
    pub allowed :
        ((cfg.allowed_emails ≡ []) × (cfg.allowed_domains ≡ []))
        ⊎ Listed (lower email) cfg.allowed_emails
        ⊎ DomainListed (domain_of (lower email)) cfg.allowed_domains

  Listed-of_contains :
      (x : String) (cs : List String) → contains_text x (map lower cs) ≡ true → Listed x cs
  Listed-of_contains x [] h = cc
  Listed-of_contains x (c ∷ cs) h = elim (Bool-cases (str_eq (lower c) x)) [
    | inl e ↦ inl ((str_eq_iff (lower c) x).0 e)
    | inr e ↦ inr (Listed-of_contains x cs (ground arith))
  ]

  contains_of_Listed :
      (x : String) (cs : List String) → Listed x cs → contains_text x (map lower cs) ≡ true
  contains_of_Listed x (c ∷ cs) (inl e) = rw ((str_eq_iff (lower c) x).1 e)
  contains_of_Listed x (c ∷ cs) (inr m) = ground (arith, contains_of_Listed x cs m)
  contains_of_Listed x [] h = elim h [ ]

  Listed_of_domain :
      (o : Option String) (cs : List String)
      → domain_listed (map lower cs) o ≡ true
      → DomainListed o cs
  Listed_of_domain none cs h = cc
  Listed_of_domain (some d) cs h = Listed-of_contains d cs h

  domain_of_Listed :
      (o : Option String) (cs : List String)
      → DomainListed o cs
      → domain_listed (map lower cs) o ≡ true
  domain_of_Listed none cs h = elim h [ ]
  domain_of_Listed (some d) cs h = contains_of_Listed d cs h

  is_empty-map : (cs : List String) → is_empty (map lower cs) ≡ true → cs ≡ []
  is_empty-map [] h = refl
  is_empty-map (c ∷ cs) h = cc

  -- The Booleans that `check` computes, and what each one says.
  module _ (cfg : FilterConfig) (e : String) where
    abbrev Passes : Type 0
    Passes = is_ok (check lower (new lower cfg) e) ≡ true

    check-Permits : Passes → Permits cfg e
    unfolding check new
    check-Permits h = record {
      not_blocked = λ m. ground (arith, contains_of_Listed (lower e) cfg.blocked_emails m);
      domain_not_blocked =
          λ m. ground (arith, domain_of_Listed (domain_of (lower e)) cfg.blocked_domains m);
      allowed = ground (
        arith,
        is_empty-map cfg.allowed_emails,
        is_empty-map cfg.allowed_domains,
        Listed-of_contains (lower e) cfg.allowed_emails,
        Listed_of_domain (domain_of (lower e)) cfg.allowed_domains,
      );
    }

    Permits-check : Permits cfg e → Passes
    unfolding check new
    Permits-check p = ground (
      arith,
      Listed-of_contains (lower e) cfg.blocked_emails,
      Listed_of_domain (domain_of (lower e)) cfg.blocked_domains,
      contains_of_Listed (lower e) cfg.allowed_emails,
      domain_of_Listed (domain_of (lower e)) cfg.allowed_domains,
    )

-- A recipient passes a filter built from a configuration exactly when the configuration permits the
-- address: it is on no blocklist, by address or by domain and up to case, and either both
-- allowlists are empty or the address or its domain is on one of them.
pub check-new_iff :
    (lower : String → String) (cfg : FilterConfig) (e : String)
    → (is_ok (check lower (new lower cfg) e) ≡ true) ↔ Permits lower cfg e
check-new_iff lower cfg e = (check-Permits lower cfg e, Permits-check lower cfg e)

nil_of_is_empty : (xs : List String) → is_empty xs ≡ true → xs ≡ []
nil_of_is_empty [] h = refl
nil_of_is_empty (x ∷ xs) h = cc

-- Where `is_passthrough` lets the caller skip the check, the check would have passed every address.
pub check-is_passthrough :
    (lower : String → String) (f : RecipientFilter) (e : String)
    → is_passthrough f ≡ true
    → check lower f e ≡ ok tt
unfolding check is_passthrough
check-is_passthrough lower f e h = ground (
  arith,
  nil_of_is_empty f.blocked_emails,
  nil_of_is_empty f.blocked_domains,
  no_domain (domain_of (lower e)),
)
  where
    no_domain : (o : Option String) → domain_listed [] o ≡ false
    no_domain none = refl
    no_domain (some d) = refl

abbrev ok_or_blocked : Result (Unit {0}) → Bool
ok_or_blocked (ok u) = true
ok_or_blocked (err (blocked m)) = true
ok_or_blocked (err _) = false

-- The check returns `Ok` or `Blocked`, and no other error.
check-ok_or_blocked :
    (lower : String → String) (f : RecipientFilter) (e : String)
    → ok_or_blocked (check lower f e) ≡ true
unfolding check
check-ok_or_blocked lower f e = ground arith
