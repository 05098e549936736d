-- ===== src/Prelude/Text.antt =====
-- Texts: native strings where the program compares or joins whole texts, lists of code points
-- where it walks the characters.
use Prim.Native.Nat.{ℕ, zero, suc, ◌+◌, ◌/◌, ◌%◌}
use Prim.Native.Char.{code}
use Prim.Native.String.{String, ◌++◌}
use text.Mathlib.Text.{◌==◌ as text_eq}
use text.Mathlib.TextEquality.{eq_iff as text_eq_iff}
use mathlib.Core.Path.{◌≡◌, refl}
use mathlib.Core.Logic.{◌↔◌}
use mathlib.Core.Bool.{Bool, true, false, ◌||◌}
use mathlib.Core.List.{List, [], ◌∷◌}
use anvil_notify.Prelude.Tests.{ltb, if◌then◌else◌}

abbrev pub str_eq : String → String → Bool
str_eq = text_eq

pub str_eq_iff : (s t : String) → (str_eq s t ≡ true) ↔ (s ≡ t)
str_eq_iff = text_eq_iff

pub str_eq_refl : (s : String) → str_eq s s ≡ true
str_eq_refl s = (text_eq_iff s s).1 refl

-- `format!`: the pieces of a message, joined.
abbrev pub concat : List String → String
concat [] = ""
concat (s ∷ r) = s ++ concat r

-- The code points of a text. `String` has its own `[]` and `∷`.
abbrev pub codes : String → List ℕ
codes String.[] = []
codes (String.◌∷◌ c s) = code c ∷ codes s

-- Rust's `str::len`: the number of bytes of the UTF-8 encoding.
abbrev pub utf8_len : List ℕ → ℕ
utf8_len [] = 0
utf8_len (c ∷ s) =
    (if ltb c 0x80 then 1 else if ltb c 0x800 then 2 else if ltb c 0x10000 then 3 else 4)
    + utf8_len s

-- Membership in a set of texts.
abbrev pub contains_text : String → List String → Bool
contains_text k [] = false
contains_text k (s ∷ r) = str_eq s k || contains_text k r

abbrev pub digit : ℕ → String
digit zero = "0"
digit (suc zero) = "1"
digit (suc (suc zero)) = "2"
digit (suc (suc (suc zero))) = "3"
digit (suc (suc (suc (suc zero)))) = "4"
digit (suc (suc (suc (suc (suc zero))))) = "5"
digit (suc (suc (suc (suc (suc (suc zero)))))) = "6"
digit (suc (suc (suc (suc (suc (suc (suc zero))))))) = "7"
digit (suc (suc (suc (suc (suc (suc (suc (suc zero)))))))) = "8"
digit _ = "9"

-- The decimal digits of a number; as many rounds as the number itself are more than enough.
decimal : ℕ → ℕ → String
decimal zero n = digit n
decimal (suc fuel) n =
    let long = concat (decimal fuel (n / 10) ∷ digit (n % 10) ∷ []) in
    if ltb n 10 then digit n else long

unfoldable pub show : ℕ → String
unfolding decimal
show n = decimal n n
