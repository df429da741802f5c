-- ===== src/Json.antt =====
-- `serde_json::Value`, the tree that every frame is built from and read into, with the accessors that
-- the source calls. Printing and parsing belong to the crate: they are parameters where they are used.
use overacp.Prelude.Int.{ℤ}
use overacp.Prelude.{Bool, Option, String, if◌then◌else◌, nat_eq, none, some, string_eq, ◌==◌}

-- An integer, or any other number by its text.
pub data Number : Type 0 where
  integer : ℤ → Number
  other_number : String → Number

mutual
  pub data Value : Type 0 where
    null : Value
    boolean : Bool → Value
    number : Number → Value
    string : String → Value
    array : Elements → Value
    object : Members → Value

  pub data Elements : Type 0 where
    no_element : Elements
    element : Value → Elements → Elements

  pub data Members : Type 0 where
    no_member : Members
    member : String → Value → Members → Members

unfoldable pub get_member : String → Members → Option Value
get_member key no_member = none
get_member key (member k v rest) = if k == key then some v else get_member key rest

-- `Value::get` with a key.
unfoldable pub get_key : Value → String → Option Value
unfolding get_member
get_key (object members) key = get_member key members
get_key _ key = none

unfoldable pub as_str : Value → Option String
as_str (string s) = some s
as_str _ = none

unfoldable pub as_bool : Value → Option Bool
as_bool (boolean b) = some b
as_bool _ = none

-- The functions of `serde_json` on texts.
pub record Serde : Type 0 where
  pub from_str : String → Option Value
  pub to_string : Value → String

unfoldable pub as_array : Value → Option Elements
as_array (array items) = some items
as_array _ = none
