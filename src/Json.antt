-- ===== src/Json.antt =====
-- The cJSON functions that the program calls, as an interface.
use gonggo.Base.{ℕ, String, Bool, Option, List}
use gonggo.Base.Int.{ℤ}

-- A NULL item is `none`. `fields` are the names of an object's children, in order;
-- `valuedouble` is the number cast to an integer type.
pub record Cjson : Type 1 where
  pub Json : Type 0
  pub parse : String → Option Json
  pub print_unformatted : Json → String
  pub get_object_item : Json → String → Option Json
  pub valuestring : Json → Option String
  pub valueint : Json → ℤ
  pub valuedouble : Json → ℤ
  pub is_array : Json → Bool
  pub is_string : Json → Bool
  pub array_items : Json → List Json
  pub fields : Json → List String
  pub create_object : Json
  pub create_array : Json
  pub create_string : String → Json
  pub create_number : ℕ → Json
  pub add_item_to_object : Json → String → Json → Json
  pub add_item_to_array : Json → Json → Json
