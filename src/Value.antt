-- ===== src/Value.antt =====
-- The values of the ESET payloads (`dict[str, object]`, decoded JSON) and the Python operations on
-- them that the program uses: truth, `or`, `str`, `dict.get` and the keys of a dictionary.
use eset_incident_ai.Prelude.{
  String, Bool, true, false, not, Option, none, some, List, [], ◌∷◌, is_empty, str_eq,
  if◌then◌else◌,
}

-- A number is kept as what the program sees of it: whether it is zero, and its `str`.
-- A dictionary has its entries in insertion order.
mutual
  pub data Fields : Type 0 where
    no_fields : Fields
    field : String → Value → Fields → Fields

  pub data Elements : Type 0 where
    no_elements : Elements
    element : Value → Elements → Elements

  pub data Value : Type 0 where
    null : Value
    text : String → Value
    boolean : Bool → Value
    number : Bool → String → Value
    object : Fields → Value
    array : Elements → Value

-- `bool(value)`.
abbrev pub truthy : Value → Bool
truthy null = false
truthy (boolean b) = b
truthy (number is_zero s) = not is_zero
truthy (text s) = not (is_empty s)
truthy (array no_elements) = false
truthy (array (element v vs)) = true
truthy (object no_fields) = false
truthy (object (field k v fs)) = true

-- `a or b`.
abbrev pub or_else : Value → Value → Value
or_else a b = if truthy a then a else b

-- `d.get(key)`: `None` where the key is missing.
unfoldable pub get : String → Fields → Value
get k no_fields = null
get k (field j v fs) = if str_eq j k then v else get k fs

-- `key in d`.
unfoldable pub has_key : String → Fields → Bool
has_key k no_fields = false
has_key k (field j v fs) = if str_eq j k then true else has_key k fs

-- `d.keys()`.
unfoldable pub keys : Fields → List String
keys no_fields = []
keys (field k v fs) = k ∷ keys fs

-- `d[key] = value`: an existing key keeps its place.
unfoldable pub put : String → Value → Fields → Fields
put k v no_fields = field k v no_fields
put k v (field j w fs) = if str_eq j k then field j v fs else field j w (put k v fs)

-- `d.get(key)` for a dictionary or for any other value, where the code tests `isinstance` first.
abbrev pub as_dict : Value → Option Fields
as_dict (object fs) = some fs
as_dict null = none
as_dict (boolean b) = none
as_dict (number z s) = none
as_dict (text s) = none
as_dict (array vs) = none

-- `isinstance(value, (dict, list))`.
abbrev pub is_container : Value → Bool
is_container (object fs) = true
is_container (array vs) = true
is_container null = false
is_container (boolean b) = false
is_container (number z s) = false
is_container (text s) = false
