-- ===== src/Common/Json.antt =====
-- serde_json's `Value`, the data model of JSON: payloads and the JSONB columns.
use anvil_notify.Prelude.{ℕ, Bool, String, str_eq, Option, none, some, if◌then◌else◌}

-- A number is either one that `as_u64` reads, or another one (negative or fractional), by its text.
mutual
  pub data Json : Type 0 where
    null : Json
    boolean : Bool → Json
    num_u64 : ℕ → Json
    num_other : String → Json
    text : String → Json
    array : Items → Json
    object : Fields → Json

  pub data Items : Type 0 where
    nil : Items
    cons : Json → Items → Items

  pub data Fields : Type 0 where
    end : Fields
    field : String → Json → Fields → Fields

-- `Value::get` with a text key: the member of an object, and `None` for any other value.
get_field : String → Fields → Option Json
get_field k end = none
get_field k (field j v r) = if str_eq j k then some v else get_field k r

unfoldable pub get : Json → String → Option Json
unfolding get_field
get (object fs) k = get_field k fs
get _ k = none

unfoldable pub as_u64 : Json → Option ℕ
as_u64 (num_u64 n) = some n
as_u64 _ = none

unfoldable pub as_text : Json → Option String
as_text (text s) = some s
as_text _ = none

abbrev pub singleton : Json → Json
singleton v = array (cons v nil)

abbrev pub empty_array : Json
empty_array = array nil

abbrev pub empty_object : Json
empty_object = object end
