-- ===== src/Json.antt =====
-- The values of `serde_json` that the crates build and read. A negative number or a float is kept as
-- the text that it prints. Objects keep the order in which they were written.
use mathlib.Core.Option
use sovalune_core.Common.{ℕ, Bool, Option, none, some, List, [], ◌∷◌, if◌then◌else◌}
use sovalune_core.Text.{Text, text_eq}

mutual
  pub data Json : Type 0 where
    null : Json
    boolean : Bool → Json
    number : ℕ → Json
    decimal : Text → Json
    string : Text → Json
    array : Items → Json
    object : Fields → Json

  pub data Items : Type 0 where
    nil : Items
    cons : Json → Items → Items

  pub data Fields : Type 0 where
    end : Fields
    field : Text → Json → Fields → Fields

-- `Value::as_str`
unfoldable pub as_str : Json → Option Text
as_str (string t) = some t
as_str _ = none

-- `Value::as_u64`
unfoldable pub as_u64 : Json → Option ℕ
as_u64 (number n) = some n
as_u64 _ = none

unfoldable pub elements : Items → List Json
elements nil = []
elements (cons j items) = j ∷ elements items

unfoldable pub items : List Json → Items
items [] = nil
items (j ∷ js) = cons j (items js)

-- `Value::as_array`
unfoldable pub as_array : Json → Option (List Json)
unfolding elements
as_array (array js) = some (elements js)
as_array _ = none

unfoldable pub get_field : Text → Fields → Option Json
get_field key end = none
get_field key (field k j fields) =
    let rest = get_field key fields in if text_eq key k then some j else rest

-- `value.get(key)`
unfoldable pub get : Text → Json → Option Json
unfolding get_field
get key (object fields) = get_field key fields
get key _ = none

-- `value[key]`: null where there is nothing
unfoldable pub at : Text → Json → Json
unfolding get
at key j = Option.get_or (get key j) null

-- the object of some fields
unfoldable pub fields : List (Text × Json) → Fields
fields [] = end
fields (e ∷ es) = field e.0 e.1 (fields es)

unfoldable pub object_of : List (Text × Json) → Json
unfolding fields
object_of es = object (fields es)
