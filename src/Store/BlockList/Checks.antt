-- ===== src/Store/BlockList/Checks.antt =====
-- The check of a fresh snapshot is the policy's.
use anvil_notify.Prelude.{
  ◌≡◌, refl, sym, ap, ◌∙◌, ◌↔◌, inl, inr, Bool, true, false, ◌&&◌, String, str_eq_refl, Option,
  none, some, List, [], ◌∷◌, any, contains_text, Bool-cases, arith,
}
use anvil_notify.Common.Error.{is_ok}
use anvil_notify.Filter.{domain_of, domain_listed}
use anvil_notify.Store.BlockList.{BlockListEntry, load, check_snapshot}
use anvil_notify.Store.BlockList.Snapshots.{policy, Permitted, allows, load_lists, load_mode}

abbrev switched_on : List BlockListEntry → Bool
switched_on rows = any (λ r. r.active && allows r) rows

-- Where the allow list is off, nothing is allowed by name.
allows_nothing :
    (v : String) (rows : List BlockListEntry)
    → switched_on rows ≡ false
    → (policy rows "allowed_email" v ≡ false) × (policy rows "allowed_domain" v ≡ false)
allows_nothing v [] h = (refl, refl)
allows_nothing v (r ∷ rs) h =
    let ih = allows_nothing v rs (ground (arith, h)) in
    (ground (arith, ih.0, h), ground (arith, ih.1, h))

-- Where nothing is allowed by name, the allow list is off.
switched_off :
    (rows : List BlockListEntry)
    → ((v : String)
        → (policy rows "allowed_email" v ≡ false) × (policy rows "allowed_domain" v ≡ false))
    → switched_on rows ≡ false
switched_off [] h = refl
switched_off (r ∷ rs) h =
    let ih = switched_off rs λ v. (ground (arith, (h v).0), ground (arith, (h v).1)) in
    let here = h r.value in
    let same = str_eq_refl r.value in ground (arith, ih, here.0, here.1, same)

module _ (to_lowercase : String → String) (rows : List BlockListEntry) (email : String) where
  abbrev lc : String
  lc = to_lowercase email

  listed_domain :
      (ds : List String) (kind : String)
      → ((d : String) → contains_text d ds ≡ policy rows kind d)
      → (o : Option String)
      → (domain_listed ds o ≡ true) ↔ ((d : String) × (o ≡ some d) × (policy rows kind d ≡ true))
  listed_domain ds kind k none = (λ h. absurd (cc h), λ (d, e, h). absurd (cc e))
  listed_domain ds kind k (some d) = (
    λ h. (d, refl, sym (k d) ∙ h),
    λ (d', e, h). let same : d ≡ d' = cc e in k d ∙ ap (policy rows kind) same ∙ h,
  )

  abbrev Passes : Type 0
  Passes = is_ok (check_snapshot to_lowercase (load rows) email) ≡ true

  passes-Permitted : Passes → Permitted to_lowercase (policy rows) email
  unfolding check_snapshot
  passes-Permitted h =
      let (be, bd, ae, ad) = load_lists rows lc in
      let blocked =
        listed_domain (load rows).blocked_domains "blocked_domain" (λ d. (load_lists rows d).1)
          (domain_of lc) in
      let allowed =
        listed_domain (load rows).allowed_domains "allowed_domain" (λ d. (load_lists rows d).3)
          (domain_of lc) in
      let mode = load_mode rows in
      record {
        email_ok = ground (arith, be, h);
        domain_ok = λ d e. elim (Bool-cases (policy rows "blocked_domain" d)) [
          | inr n ↦ n
          | inl y ↦ absurd (let b = blocked.1 (d, e, y) in ground (arith, b, h))
        ];
        allowed = elim (Bool-cases (load rows).allowlist_mode) [
          | inr n ↦ inl (λ v. allows_nothing v rows (sym mode ∙ n))
          | inl y ↦ inr (ground (arith, allowed.0, ae, h, y))
        ];
      }

  permitted-Passes : Permitted to_lowercase (policy rows) email → Passes
  unfolding check_snapshot
  permitted-Passes p =
      let (be, bd, ae, ad) = load_lists rows lc in
      let blocked =
        listed_domain (load rows).blocked_domains "blocked_domain" (λ d. (load_lists rows d).1)
          (domain_of lc) in
      let allowed =
        listed_domain (load rows).allowed_domains "allowed_domain" (λ d. (load_lists rows d).3)
          (domain_of lc) in
      let no_email : contains_text lc (load rows).blocked_emails ≡ false = be ∙ p.email_ok in
      let no_domain : domain_listed (load rows).blocked_domains (domain_of lc) ≡ false =
        elim (Bool-cases (domain_listed (load rows).blocked_domains (domain_of lc))) [
          | inr n ↦ n
          | inl y ↦ let (d, e, l) = blocked.0 y in absurd (cc (p.domain_ok d e, l))
        ] in
      elim p.allowed [
        | inl nobody ↦
            let off : (load rows).allowlist_mode ≡ false =
              load_mode rows ∙ switched_off rows nobody in
            ground (arith, no_email, no_domain, off)
        | inr (inl y) ↦
            let named : contains_text lc (load rows).allowed_emails ≡ true = ae ∙ y in
            ground (arith, no_email, no_domain, named)
        | inr (inr d) ↦
            let named : domain_listed (load rows).allowed_domains (domain_of lc) ≡ true =
              allowed.1 d in
            ground (arith, no_email, no_domain, named)
      ]

  -- The check of a snapshot loaded from the rows passes an address just when the policy of the active
  -- rows permits it.
  pub check_load : Passes ↔ Permitted to_lowercase (policy rows) email
  check_load = (passes-Permitted, permitted-Passes)
