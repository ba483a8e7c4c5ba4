-- ===== src/Json/Values.antt =====
-- Value, Number, Array, Object and ParseJson of src/zdex/src/Json.cpp.
use zircon_dumper.Prelude.{
  ℕ, zero, suc, ◌+◌, ◌*◌, Bool, true, false, ◌&&◌, ◌||◌, [], ◌∷◌, ◌++◌, leb, ltb, ◌==◌,
  if◌then◌else◌, drop, length,
}
use zircon_dumper.Prelude.Preds.{Bytes}
use zircon_dumper.Prelude.Text.{same_bytes}
use zircon_dumper.Json.{
  JsonError, empty_response, too_deep, unexpected_end, expected_null, expected_true, expected_false,
  expected_value, expected_in_array, expected_colon, expected_in_object, Json, null, boolean,
  number, text, array, object, Items, no_items, item, Fields, no_fields, field, Parsed, parsed,
  stopped, exhausted, skip, parse_string,
}

-- `out.fields[key] = value`; the order of the map is that of the first insertions.
unfoldable pub put : Fields → Bytes → Json → Fields
put no_fields key v = field key v no_fields
put (field k w fs) key v = if same_bytes k key then field k v fs else field k w (put fs key v)

unfoldable pub starts_with : Bytes → Bytes → Bool
starts_with [] cs = true
starts_with (w ∷ ws) [] = false
starts_with (w ∷ ws) (c ∷ cs) = (w == c) && starts_with ws cs

unfoldable pub literal : Bytes → Json → JsonError → Bytes → Parsed Json
literal word v e cs = if starts_with word cs then parsed v (drop (length word) cs) else stopped e cs

abbrev pub is_digit : ℕ → Bool
is_digit c = leb b'0' c && leb c b'9'

abbrev pub is_number_char : ℕ → Bool
is_number_char c =
    is_digit c || (c == b'.') || (c == b'e') || (c == b'E') || (c == b'+') || (c == b'-')

-- The loop of Number: the characters that it passes, behind those before.
unfoldable pub scan_number : Bytes → Bytes → Parsed Json
scan_number passed [] = parsed (number passed) []
scan_number passed (c ∷ cs) =
    if is_number_char c then scan_number (passed ++ c ∷ []) cs else parsed (number passed) (c ∷ cs)

-- Number after its sign.
unfoldable pub unsigned_number : Bytes → Bytes → Parsed Json
unsigned_number sign [] = stopped expected_value []
unsigned_number sign (c ∷ cs) =
    if is_digit c then scan_number sign (c ∷ cs) else stopped expected_value (c ∷ cs)

unfoldable pub parse_number : Bytes → Parsed Json
parse_number [] = stopped expected_value []
parse_number (c ∷ cs) =
    if (c == b'-') || (c == b'+') then unsigned_number (c ∷ []) cs else unsigned_number [] (c ∷ cs)

unfoldable pub to_text : Parsed Bytes → Parsed Json
to_text (parsed bytes cs) = parsed (text bytes) cs
to_text (stopped e cs) = stopped e cs
to_text exhausted = exhausted

unfoldable pub to_array : Parsed Items → Parsed Json
to_array (parsed items cs) = parsed (array items) cs
to_array (stopped e cs) = stopped e cs
to_array exhausted = exhausted

unfoldable pub to_object : Parsed Fields → Parsed Json
to_object (parsed fields cs) = parsed (object fields) cs
to_object (stopped e cs) = stopped e cs
to_object exhausted = exhausted

-- Array and Object before their loops, after the bracket and Skip.
unfoldable pub array_start : (Bytes → Parsed Items) → Bytes → Parsed Json
array_start loop [] = to_array (loop [])
array_start loop (c ∷ cs) =
    if c == b']' then parsed (array no_items) cs else to_array (loop (c ∷ cs))

unfoldable pub object_start : (Bytes → Parsed Fields) → Bytes → Parsed Json
object_start loop [] = to_object (loop [])
object_start loop (c ∷ cs) =
    if c == b'}' then parsed (object no_fields) cs else to_object (loop (c ∷ cs))

-- The switch of Value, with the loops of Array and Object.
unfoldable pub value_at : (Bytes → Parsed Items) → (Bytes → Parsed Fields) → Bytes → Parsed Json
value_at items fields [] = stopped unexpected_end []
value_at items fields (c ∷ cs) =
    if c == b'n'
    then literal (b'n' ∷ b'u' ∷ b'l' ∷ b'l' ∷ []) null expected_null (c ∷ cs)
    else if c == b't'
    then literal (b't' ∷ b'r' ∷ b'u' ∷ b'e' ∷ []) (boolean true) expected_true (c ∷ cs)
    else if c == b'f'
    then literal (b'f' ∷ b'a' ∷ b'l' ∷ b's' ∷ b'e' ∷ []) (boolean false) expected_false (c ∷ cs)
    else if c == 34
    then to_text (parse_string (c ∷ cs))
    else if c == b'['
    then array_start items (skip cs)
    else if c == b'{'
    then object_start fields (skip cs)
    else parse_number (c ∷ cs)

unfoldable pub with_item : Json → Parsed Items → Parsed Items
with_item v (parsed items cs) = parsed (item v items) cs
with_item v (stopped e cs) = stopped e cs
with_item v exhausted = exhausted

-- The loop of Array after an item and Skip.
unfoldable pub after_item : (Bytes → Parsed Items) → Json → Bytes → Parsed Items
after_item again v [] = stopped expected_in_array []
after_item again v (c ∷ cs) =
    if c == b','
    then with_item v (again cs)
    else if c == b']'
    then parsed (item v no_items) cs
    else stopped expected_in_array (c ∷ cs)

unfoldable pub array_round : (Bytes → Parsed Items) → Parsed Json → Parsed Items
array_round again (parsed v cs) = after_item again v (skip cs)
array_round again (stopped e cs) = stopped e cs
array_round again exhausted = exhausted

-- The loop of Object after a value and Skip.
unfoldable pub after_field : (Fields → Bytes → Parsed Fields) → Fields → Bytes → Parsed Fields
after_field again fs [] = stopped expected_in_object []
after_field again fs (c ∷ cs) =
    if c == b','
    then again fs cs
    else if c == b'}'
    then parsed fs cs
    else stopped expected_in_object (c ∷ cs)

unfoldable pub put_value :
    (Fields → Bytes → Parsed Fields) → Fields → Bytes → Parsed Json → Parsed Fields
put_value again fs key (parsed v cs) = after_field again (put fs key v) (skip cs)
put_value again fs key (stopped e cs) = stopped e cs
put_value again fs key exhausted = exhausted

-- The loop of Object after a key and Skip.
unfoldable pub after_key :
    (Bytes → Parsed Json)
    → (Fields → Bytes → Parsed Fields)
    → Fields
    → Bytes
    → Bytes
    → Parsed Fields
after_key value again fs key [] = stopped expected_colon []
after_key value again fs key (c ∷ cs) =
    if c == b':' then put_value again fs key (value (skip cs)) else stopped expected_colon (c ∷ cs)

unfoldable pub object_round :
    (Bytes → Parsed Json) → (Fields → Bytes → Parsed Fields) → Fields → Parsed Bytes → Parsed Fields
object_round value again fs (parsed key cs) = after_key value again fs key (skip cs)
object_round value again fs (stopped e cs) = stopped e cs
object_round value again fs exhausted = exhausted

-- Value at a depth, and the loops of Array and Object over values at a depth.
unfoldable mutual
  pub value : ℕ → ℕ → Bytes → Parsed Json
  value zero depth cs = exhausted
  value (suc f) depth cs =
      if ltb 32 depth
      then stopped too_deep cs
      else value_at (array_loop f (depth + 1)) (object_loop f (depth + 1) no_fields) cs

  pub array_loop : ℕ → ℕ → Bytes → Parsed Items
  array_loop zero depth cs = exhausted
  array_loop (suc f) depth cs = array_round (array_loop f depth) (value f depth (skip cs))

  pub object_loop : ℕ → ℕ → Fields → Bytes → Parsed Fields
  object_loop zero depth fs cs = exhausted
  object_loop (suc f) depth fs cs =
      object_round (value f depth) (object_loop f depth) fs (parse_string (skip cs))

-- Reader::Parse after its first Skip; what follows the value is left alone.
unfoldable pub parse : Bytes → Parsed Json
parse cs = value (suc (2 * length cs)) 0 cs

unfoldable pub parse_json : Bytes → Parsed Json
parse_json cs = if length cs == 0 then stopped empty_response [] else parse (skip cs)
