-- ===== src/Json.antt =====
-- JSON values as `JSON.parse` returns them. A number is a natural number or another one (negative,
-- fractional), which every check of the program refuses; an object's fields have distinct names.
-- `JSON.parse`, `atob` and `Number` themselves belong to the runtime, and are parameters.
use intranet_penetration_clo.Common.{
  ℕ, String, Bool, Option, none, some, List, [], ◌∷◌, if◌then◌else◌,
}
use intranet_penetration_clo.Common.Key.{text_key}
use intranet_penetration_clo.Packet.{Bytes}

mutual
  pub data Json : Type 0 where
    null other_number : Json
    bool : Bool → Json
    num : ℕ → Json
    str : String → Json
    arr : Items → Json
    obj : Fields → Json

  pub data Items : Type 0 where
    nil : Items
    cons : Json → Items → Items

  pub data Fields : Type 0 where
    end : Fields
    field : String → Json → Fields → Fields

abbrev pub items : Items → List Json
items nil = []
items (cons v vs) = v ∷ items vs

-- `value.name`, where a missing field is `undefined`.
unfoldable pub get_field : String → Fields → Option Json
get_field name end = none
get_field name (field k v rest) = if text_key.same k name then some v else get_field name rest

-- What the program takes from the JavaScript runtime.
pub record Runtime : Type 0 where
  pub json_parse : String → Option Json
  pub atob : String → Option Bytes
  -- `Number`, where the result is a safe integer that is not negative.
  pub to_number : String → Option ℕ
