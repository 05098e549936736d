-- ===== src/Common/Amqp.antt =====
-- crates/common/src/amqp_util.rs and the `append_heartbeat_param` of the consumer and the outbox.
use Prim.Native.Char.{code}
use text.Mathlib.Text.{starts_with}
use anvil_notify.Prelude.{
  ℕ, Bool, ◌||◌, String, concat, Option, none, some, [], ◌∷◌, ◌==◌, if◌then◌else◌,
}

-- `&s[rfind(c) + 1..]`: what follows the last occurrence of a character.
unfoldable pub after_last : ℕ → String → Option String
after_last k String.[] = none
after_last k (String.◌∷◌ c s) = elim (after_last k s) [
  | some d ↦ some d
  | none ↦ if code c == k then some s else none
]

-- `&s[..find(p) + len(p)]`: the text up to the end of the first occurrence of a pattern.
unfoldable pub through_first : String → String → Option String
through_first p String.[] = if starts_with String.[] p then some p else none
through_first p (String.◌∷◌ c s) =
    if starts_with (String.◌∷◌ c s) p
    then some p
    else elim (through_first p s) [ some r ↦ some (String.◌∷◌ c r) | none ↦ none ]

unfoldable pub scrub_amqp_url : String → String
unfolding after_last through_first
scrub_amqp_url url = elim (after_last b'@' url) [
  | none ↦ url
  | some after_at ↦ elim (through_first "://" url) [
    | some scheme ↦ concat (scheme ∷ "[redacted]@" ∷ after_at ∷ [])
    | none ↦ "[redacted — unrecognised URL format containing '@']"
  ]
]

-- `str::contains`.
unfoldable pub contains : String → String → Bool
contains String.[] p = starts_with String.[] p
contains (String.◌∷◌ c s) p = starts_with (String.◌∷◌ c s) p || contains s p

-- `secs` is the number of seconds, printed.
unfoldable pub append_heartbeat_param : String → String → String
unfolding contains
append_heartbeat_param url secs =
    if contains url "heartbeat="
    then url
    else if contains url "?"
    then concat (url ∷ "&heartbeat=" ∷ secs ∷ [])
    else concat (url ∷ "?heartbeat=" ∷ secs ∷ [])
