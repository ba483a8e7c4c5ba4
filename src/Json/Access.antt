-- ===== src/Json/Access.antt =====
-- The lookups of JsonValue in src/zdex/src/Json.cpp.
use zircon_dumper.Prelude.{Bool, List, [], ◌∷◌, ◌==◌, if◌then◌else◌, length}
use zircon_dumper.Prelude.Preds.{Bytes}
use zircon_dumper.Json.{
  Json, null, boolean, number, text, array, object, Items, no_items, item, Fields, no_fields, field,
}
use zircon_dumper.Prelude.Text.{same_bytes}

-- The value of a key; a key that is missing has the value null.
unfoldable pub find_field : Fields → Bytes → Json
find_field no_fields key = null
find_field (field k v fs) key = if same_bytes k key then v else find_field fs key

-- operator[].
unfoldable pub value_of : Json → Bytes → Json
value_of (object fs) key = find_field fs key
value_of null key = null
value_of (boolean b) key = null
value_of (number digits) key = null
value_of (text bytes) key = null
value_of (array vs) key = null

unfoldable pub to_str : Bytes → Json → Bytes
to_str fallback (text bytes) = bytes
to_str fallback null = fallback
to_str fallback (boolean b) = fallback
to_str fallback (number digits) = fallback
to_str fallback (array vs) = fallback
to_str fallback (object fs) = fallback

unfoldable pub str : Json → Bytes → Bytes → Bytes
str v key fallback = to_str fallback (value_of v key)

-- `of_number` is strtod of the text of a number, converted to 64 bits, and `of_text` is strtoll.
module _ {I : Type 0} (of_number of_text : Bytes → I) where
  unfoldable pub to_int : I → Json → I
  to_int fallback (number digits) = of_number digits
  to_int fallback (text bytes) = if length bytes == 0 then fallback else of_text bytes
  to_int fallback null = fallback
  to_int fallback (boolean b) = fallback
  to_int fallback (array vs) = fallback
  to_int fallback (object fs) = fallback

  unfoldable pub int : Json → Bytes → I → I
  int v key fallback = to_int fallback (value_of v key)

  unfoldable pub add_int : Json → List I → List I
  add_int (number digits) rest = of_number digits ∷ rest
  add_int null rest = rest
  add_int (boolean b) rest = rest
  add_int (text bytes) rest = rest
  add_int (array vs) rest = rest
  add_int (object fs) rest = rest

  unfoldable pub ints : Items → List I
  ints no_items = []
  ints (item v vs) = add_int v (ints vs)

  unfoldable pub to_ints : Json → List I
  to_ints (array vs) = ints vs
  to_ints null = []
  to_ints (boolean b) = []
  to_ints (number digits) = []
  to_ints (text bytes) = []
  to_ints (object fs) = []

  unfoldable pub int_array : Json → Bytes → List I
  int_array v key = to_ints (value_of v key)

-- `nonzero` is whether strtod of the text of a number is not 0.
unfoldable pub to_bool : (Bytes → Bool) → Bool → Json → Bool
to_bool nonzero fallback (boolean b) = b
to_bool nonzero fallback (number digits) = nonzero digits
to_bool nonzero fallback null = fallback
to_bool nonzero fallback (text bytes) = fallback
to_bool nonzero fallback (array vs) = fallback
to_bool nonzero fallback (object fs) = fallback

unfoldable pub bool : (Bytes → Bool) → Json → Bytes → Bool → Bool
bool nonzero v key fallback = to_bool nonzero fallback (value_of v key)
