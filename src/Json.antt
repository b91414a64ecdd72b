-- ===== src/Json.antt =====
-- `serde_json::Value` as the server reads and builds it. A number is kept as its
-- text, but one that the server makes from an unsigned integer as this integer.
use rpceth.Base.{ℕ, Bool, List, [], ◌∷◌, Option, none, some, Text, same, if◌then◌else◌}

mutual
  pub data Json : Type 0 where
    null : Json
    bool : Bool → Json
    number : Text → Json
    natural : ℕ → Json
    string : Text → Json
    array : Items → Json
    object : Fields → Json

  pub data Items : Type 0 where
    nil : Items
    cons : Json → Items → Items

  pub data Fields : Type 0 where
    end : Fields
    field : Text → Json → Fields → Fields

field_of : Text → Fields → Option Json
field_of key end = none
field_of key (field k v fs) = if same k key then some v else field_of key fs

-- `Value::get` with a string: `None` on all but objects.
unfoldable pub member : Text → Json → Option Json
unfolding field_of
member key (object fs) = field_of key fs
member key _ = none

-- `Value::as_str`
unfoldable pub as_str : Json → Option Text
as_str (string s) = some s
as_str _ = none

fields_of : List (Text × Json) → Fields
fields_of [] = end
fields_of ((k, v) ∷ more) = field k v (fields_of more)

-- An object with these fields, as the macro `json!` writes it.
unfoldable pub object_of : List (Text × Json) → Json
unfolding fields_of
object_of entries = object (fields_of entries)

items_of : List Json → Items
items_of [] = nil
items_of (v ∷ more) = cons v (items_of more)

unfoldable pub array_of : List Json → Json
unfolding items_of
array_of values = array (items_of values)
