-- ===== src/Filter.antt =====
-- crates/recipient_filter/src/lib.rs: the block and allow lists of the configuration file.
-- A `HashSet<String>` is the list of its texts, of which the code asks membership and emptiness.
-- Unicode lower-casing (`str::to_lowercase`) is the parameter `to_lowercase`.
pub mod Laws
use anvil_notify.Prelude.{
  Bool, false, not, ◌&&◌, ◌||◌, String, concat, Option, none, some, List, [], ◌∷◌, map, is_empty,
  contains_text, if◌then◌else◌,
}
use mathlib.Core.Option
use anvil_notify.Common.Error.{Result, ok, err, blocked}
use anvil_notify.Common.Amqp.{after_last}

pub record FilterConfig : Type 0 where
  pub blocked_emails : List String
  pub blocked_domains : List String
  pub allowed_emails : List String
  pub allowed_domains : List String

pub record RecipientFilter : Type 0 where
  pub blocked_emails : List String
  pub blocked_domains : List String
  pub allowed_emails : List String
  pub allowed_domains : List String
  pub allowlist_mode : Bool

-- `rsplit_once('@')`, the part behind it.
unfoldable pub domain_of : String → Option String
unfolding after_last
domain_of email = after_last b'@' email

abbrev pub domain_listed : List String → Option String → Bool
domain_listed l none = false
domain_listed l (some d) = contains_text d l

module _ (to_lowercase : String → String) where
  unfoldable pub new : FilterConfig → RecipientFilter
  new cfg =
      let norm = map to_lowercase in
      record {
        blocked_emails = norm cfg.blocked_emails;
        blocked_domains = norm cfg.blocked_domains;
        allowed_emails = norm cfg.allowed_emails;
        allowed_domains = norm cfg.allowed_domains;
        allowlist_mode =
            not (is_empty (norm cfg.allowed_emails)) || not (is_empty (norm cfg.allowed_domains));
      }

  unfoldable pub check : RecipientFilter → String → Result (Unit {0})
  check f email =
      let email_lc = to_lowercase email in
      let domain = domain_of email_lc in
      if contains_text email_lc f.blocked_emails
      then err (blocked (concat (email ∷ " is on the blocked-email list" ∷ [])))
      else if domain_listed f.blocked_domains domain
      then err (
          blocked (
            concat (
              email
              ∷ ": domain '"
              ∷ Option.get_or domain ""
              ∷ "' is on the blocked-domain list"
              ∷ [])))
      else if f.allowlist_mode
          && not (contains_text email_lc f.allowed_emails)
          && not (domain_listed f.allowed_domains domain)
      then err (
          blocked (
            concat
              (email ∷ " is not on the allowed-email/domain list (allowlist mode active)" ∷ [])))
      else ok tt

unfoldable pub is_passthrough : RecipientFilter → Bool
is_passthrough f = is_empty f.blocked_emails && is_empty f.blocked_domains && not f.allowlist_mode
