-- ===== src/Common/Email.antt =====
-- crates/common/src/email_validation.rs: the structural check of an e-mail address.
use anvil_notify.Prelude.{
  ℕ, Bool, true, false, not, ◌&&◌, ◌||◌, String, Option, none, some, List, [], ◌∷◌, leb, ltb, ◌==◌,
  all, is_empty, codes, utf8_len, length, if◌then◌else◌,
}

-- `split_once('@')`: the parts before and after the first occurrence.
unfoldable pub split_once : ℕ → List ℕ → Option (List ℕ × List ℕ)
split_once k [] = none
split_once k (c ∷ s) =
    let rest = split_once k s in
    if c == k then some ([], s) else elim rest [ none ↦ none | some (a, b) ↦ some (c ∷ a, b) ]

-- `split('.')`: the pieces between the separators; at least one.
cons_piece : ℕ → List (List ℕ) → List (List ℕ)
cons_piece c [] = (c ∷ []) ∷ []
cons_piece c (p ∷ ps) = (c ∷ p) ∷ ps

unfoldable pub split : ℕ → List ℕ → List (List ℕ)
unfolding cons_piece
split k [] = [] ∷ []
split k (c ∷ s) = if c == k then [] ∷ split k s else cons_piece c (split k s)

abbrev pub starts_with : ℕ → List ℕ → Bool
starts_with k [] = false
starts_with k (c ∷ s) = c == k

abbrev pub ends_with : ℕ → List ℕ → Bool
ends_with k [] = false
ends_with k (c ∷ []) = c == k
ends_with k (c ∷ d ∷ s) = ends_with k (d ∷ s)

-- `contains("..")`, for a character given twice.
abbrev pub contains_twice : ℕ → List ℕ → Bool
contains_twice k [] = false
contains_twice k (c ∷ s) = (c == k && starts_with k s) || contains_twice k s

unfoldable pub is_ascii_alphanumeric : ℕ → Bool
is_ascii_alphanumeric c =
    (leb b'0' c && leb c b'9') || (leb b'A' c && leb c b'Z') || (leb b'a' c && leb c b'z')

-- The punctuation that a local part may hold.
abbrev pub local_punctuation : List ℕ
local_punctuation = codes "!#$%&'*+/=?^_`{|}~-."

abbrev pub member : ℕ → List ℕ → Bool
member c [] = false
member c (d ∷ s) = c == d || member c s

unfoldable pub is_local_char : ℕ → Bool
unfolding is_ascii_alphanumeric
is_local_char c = is_ascii_alphanumeric c || member c local_punctuation

unfoldable pub is_valid_local : List ℕ → Bool
unfolding is_local_char
is_valid_local l =
    if is_empty l || ltb 64 (utf8_len l)
    then false
    else if starts_with b'"' l || ends_with b'"' l
    then false
    else if starts_with b'.' l || ends_with b'.' l || contains_twice b'.' l
    then false
    else all is_local_char l

unfoldable pub is_valid_label : List ℕ → Bool
unfolding is_ascii_alphanumeric
is_valid_label l =
    not (is_empty l)
    && leb (utf8_len l) 63
    && not (starts_with b'-' l)
    && not (ends_with b'-' l)
    && all (λ c. is_ascii_alphanumeric c || c == b'-') l

abbrev pub same_codes : List ℕ → List ℕ → Bool
same_codes [] [] = true
same_codes (a ∷ r) (b ∷ s) = a == b && same_codes r s
same_codes _ _ = false

unfoldable pub is_valid_domain : List ℕ → Bool
unfolding split is_valid_label
is_valid_domain d =
    if is_empty d || ltb 253 (utf8_len d)
    then false
    else if starts_with b'[' d
    then false
    else let labels = split b'.' d in
      if length labels == 1 && not (same_codes d (codes "localhost"))
      then false
      else all is_valid_label labels

unfoldable pub is_valid_address : List ℕ → Bool
unfolding split_once is_valid_local is_valid_domain
is_valid_address addr = if ltb 254 (utf8_len addr) then false else elim (split_once b'@' addr) [
  | none ↦ false
  | some (l, d) ↦ is_valid_local l && is_valid_domain d
]

unfoldable pub is_valid_email : String → Bool
unfolding is_valid_address
is_valid_email addr = is_valid_address (codes addr)
