-- ===== src/Store/BlockList.antt =====
-- crates/store/src/block_list_store.rs: the block and allow list that is kept in the database, behind
-- a cache of one snapshot. The table and its constraints are those of
-- migrations/0001_initial_schema.sql.
pub mod Snapshots
pub mod Checks
pub mod Entries
pub mod Store
pub mod Refinement
use anvil_notify.Prelude.{
  ℕ, ◌+◌, Bool, true, false, not, ◌&&◌, ◌||◌, String, str_eq, concat, show, Option, none, some,
  List, [], ◌∷◌, ◌++◌, map, keep, any, is_empty, contains_text, leb, ◌==◌, if◌then◌else◌,
}
use mathlib.Core.Option
use anvil_notify.Common.Error.{AppError, database, blocked, not_found, Result, ok, err, is_ok}
use anvil_notify.Common.Event.{Timestamp}
use anvil_notify.Filter.{domain_of, domain_listed}

-- A row of `block_list`.
pub record BlockListEntry : Type 0 where
  pub id : ℕ
  pub kind : String
  pub value : String
  pub reason : Option String
  pub active : Bool
  pub created_at : Timestamp

pub record BlockListSnapshot : Type 0 where
  pub blocked_emails : List String
  pub blocked_domains : List String
  pub allowed_emails : List String
  pub allowed_domains : List String
  pub allowlist_mode : Bool

-- What lies outside: the two lower-casings, the clock, the sequence of ids, the database's refusals,
-- and whether moka still holds what was put into the cache.
pub record Outside : Type 0 where
  pub to_lowercase : String → String
  pub sql_lower : String → String
  pub now : ℕ → Timestamp
  pub fresh_id : ℕ → ℕ
  pub db_fault : ℕ → Option String
  pub check_violation : String
  pub holds : ℕ → Bool

pub record BlockListStore : Type 0 where
  pub step : ℕ
  pub rows : List BlockListEntry
  pub cached : Option BlockListSnapshot

abbrev pub next : BlockListStore → BlockListStore
next s = record s { step = s.step + 1 }

abbrev pub empty_snapshot : BlockListSnapshot
empty_snapshot = record {
  blocked_emails = [];
  blocked_domains = [];
  allowed_emails = [];
  allowed_domains = [];
  allowlist_mode = false;
}

-- One row of the loop that fills the snapshot; a set is the list of what was put into it.
unfoldable pub add_row : BlockListEntry → BlockListSnapshot → BlockListSnapshot
add_row r snap =
    if str_eq r.kind "blocked_email"
    then record snap { blocked_emails = r.value ∷ snap.blocked_emails }
    else if str_eq r.kind "blocked_domain"
    then record snap { blocked_domains = r.value ∷ snap.blocked_domains }
    else if str_eq r.kind "allowed_email"
    then record snap { allowed_emails = r.value ∷ snap.allowed_emails; allowlist_mode = true }
    else if str_eq r.kind "allowed_domain"
    then record snap { allowed_domains = r.value ∷ snap.allowed_domains; allowlist_mode = true }
    else snap

abbrev pub add_rows : List BlockListEntry → BlockListSnapshot → BlockListSnapshot
add_rows [] snap = snap
add_rows (r ∷ rs) snap = add_rows rs (add_row r snap)

abbrev pub active_rows : List BlockListEntry → List BlockListEntry
active_rows = keep (λ r. r.active)

unfoldable pub load : List BlockListEntry → BlockListSnapshot
unfolding add_row
load rows = add_rows (active_rows rows) empty_snapshot

-- `cache.get`.
abbrev pub cache_get : Outside → BlockListStore → Option BlockListSnapshot
cache_get out s = if out.holds s.step then s.cached else none

unfoldable pub snapshot : Outside → BlockListStore → Result BlockListSnapshot × BlockListStore
unfolding load
snapshot out s = elim (cache_get out s) [
  | some snap ↦ (ok snap, next s)
  | none ↦ elim (out.db_fault s.step) [
    | some e ↦ (err (database e), next s)
    | none ↦ (ok (load s.rows), record s { step = s.step + 1; cached = some (load s.rows) })
  ]
]

unfoldable pub check_snapshot : (String → String) → BlockListSnapshot → String → Result (Unit {0})
check_snapshot to_lowercase snap email =
    let email_lc = to_lowercase email in
    let domain = domain_of email_lc in
    if contains_text email_lc snap.blocked_emails
    then err (blocked (concat (email ∷ " is on the blocked-email list" ∷ [])))
    else if domain_listed snap.blocked_domains domain
    then err (
        blocked (
          concat (
            email
            ∷ ": domain '"
            ∷ Option.get_or domain ""
            ∷ "' is on the blocked-domain list"
            ∷ [])))
    else if snap.allowlist_mode
        && not (
            contains_text email_lc snap.allowed_emails || domain_listed snap.allowed_domains domain)
    then err (blocked (concat (email ∷ " is not on the allowed list (allowlist mode active)" ∷ [])))
    else ok tt

unfoldable pub check : Outside → String → BlockListStore → Result (Unit {0}) × BlockListStore
unfolding snapshot check_snapshot
check out email s =
    let (found, s1) = snapshot out s in
    elim found [ ok snap ↦ (check_snapshot out.to_lowercase snap email, s1) | err e ↦ (err e, s1) ]

abbrev pub invalidate : BlockListStore → BlockListStore
invalidate s = record s { cached = none }

abbrev pub snapshot_is_empty : Result BlockListSnapshot → Bool
snapshot_is_empty (ok snap) =
    is_empty snap.blocked_emails && is_empty snap.blocked_domains && not snap.allowlist_mode
snapshot_is_empty (err e) = false

unfoldable pub is_empty_list : Outside → BlockListStore → Bool × BlockListStore
unfolding snapshot
is_empty_list out s = let (found, s1) = snapshot out s in (snapshot_is_empty found, s1)

-- The CHECK constraint of the column `kind`.
abbrev pub is_kind : String → Bool
is_kind kind =
    contains_text kind
      ("blocked_email" ∷ "blocked_domain" ∷ "allowed_email" ∷ "allowed_domain" ∷ [])

-- The key of the unique index `(kind, lower(value))`.
abbrev pub has_key : Outside → String → String → BlockListEntry → Bool
has_key out kind value r =
    str_eq r.kind kind && str_eq (out.sql_lower r.value) (out.sql_lower value)

abbrev pub reactivate : Option String → BlockListEntry → BlockListEntry
reactivate reason r = record r { active = true; reason = reason }

abbrev pub new_entry : Outside → ℕ → String → String → Option String → BlockListEntry
new_entry out step kind value reason = record {
  id = out.fresh_id step;
  kind = kind;
  value = value;
  reason = reason;
  active = true;
  created_at = out.now step;
}

-- `INSERT … ON CONFLICT (kind, lower(value)) DO UPDATE … RETURNING …`.
unfoldable pub upsert :
    Outside
    → ℕ
    → String
    → String
    → Option String
    → List BlockListEntry
    → BlockListEntry × List BlockListEntry
upsert out step kind value reason [] =
    (new_entry out step kind value reason, new_entry out step kind value reason ∷ [])
upsert out step kind value reason (r ∷ rs) =
    let (e, rs') = upsert out step kind value reason rs in
    if has_key out kind value r
    then (reactivate reason r, reactivate reason r ∷ rs)
    else (e, r ∷ rs')

unfoldable pub add_entry :
    Outside
    → String
    → String
    → Option String
    → BlockListStore
    → Result BlockListEntry × BlockListStore
unfolding upsert
add_entry out kind value reason s =
    let value_lc = out.to_lowercase value in
    elim (out.db_fault s.step) [
      | some e ↦ (err (database e), next s)
      | none ↦ elim (is_kind kind) [
        | false ↦ (err (database out.check_violation), next s)
        | true ↦
            let (entry, rows) = upsert out s.step kind value_lc reason s.rows in
            (ok entry, invalidate (record s { step = s.step + 1; rows = rows }))
      ]
    ]

abbrev pub is_active_id : ℕ → BlockListEntry → Bool
is_active_id id r = r.id == id && r.active

abbrev pub deactivate : ℕ → BlockListEntry → BlockListEntry
deactivate id r = if is_active_id id r then record r { active = false } else r

unfoldable pub remove_entry : Outside → ℕ → BlockListStore → Result (Unit {0}) × BlockListStore
remove_entry out id s = elim (out.db_fault s.step) [
  | some e ↦ (err (database e), next s)
  | none ↦ elim (any (is_active_id id) s.rows) [
    | false ↦
        (err (not_found (concat ("No active block_list entry with id " ∷ show id ∷ []))), next s)
    | true ↦ (ok tt, invalidate (record s { step = s.step + 1; rows = map (deactivate id) s.rows }))
  ]
]

-- `ORDER BY id`.
abbrev pub by_id : BlockListEntry → List BlockListEntry → List BlockListEntry
by_id e [] = e ∷ []
by_id e (r ∷ rs) = let rest = by_id e rs in if leb e.id r.id then e ∷ r ∷ rs else r ∷ rest

abbrev pub sorted : List BlockListEntry → List BlockListEntry
sorted [] = []
sorted (r ∷ rs) = by_id r (sorted rs)

unfoldable pub list_entries :
    Outside → BlockListStore → Result (List BlockListEntry) × BlockListStore
list_entries out s = elim (out.db_fault s.step) [
  | some e ↦ (err (database e), next s)
  | none ↦ (ok (sorted (active_rows s.rows)), next s)
]
