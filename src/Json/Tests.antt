-- ===== src/Json/Tests.antt =====
-- Concrete runs of src/zdex/src/Json.cpp.
use zircon_dumper.Prelude.{◌≡◌, ◌≢◌, refl, true, [], ◌∷◌, ◌++◌}
use zircon_dumper.Prelude.Preds.{Bytes}
use zircon_dumper.Json.{
  is_blank, Json, boolean, number, array, object, no_items, item, no_fields, Fields, field, parsed,
  exhausted, skip, one_char, string_loop, parse_string,
}
use zircon_dumper.Json.Values.{
  put, starts_with, literal, scan_number, unsigned_number, parse_number, to_array, to_object,
  array_start, object_start, value_at, with_item, after_item, array_round, after_field, put_value,
  after_key, object_round, value, parse, parse_json,
}
use zircon_dumper.Json.Depth.{NestsWithin}
use zircon_dumper.Json.Depth.Loops.{parse_json-NestsWithin}
use zircon_dumper.Json.Ends.{parse_json-ne-exhausted}
use zircon_dumper.Json.Escape.{json_escape, parse_string-json_escape}

-- {"a": [7, true]} and a blank.
abbrev small : Bytes
small =
    b'{' ∷ 34 ∷ b'a' ∷ 34 ∷ b':' ∷ 32 ∷ b'[' ∷ b'7' ∷ b',' ∷ 32 ∷ b't' ∷ b'r' ∷ b'u' ∷ b'e' ∷ b']'
    ∷ b'}' ∷ 32 ∷ []

abbrev small_value : Json
small_value =
    object (
      field (b'a' ∷ []) (array (item (number (b'7' ∷ [])) (item (boolean true) no_items)))
        no_fields)

small_parsed : parse_json small ≡ parsed small_value (32 ∷ [])
unfolding parse_json parse value skip is_blank value_at object_start object_round parse_string
    string_loop one_char after_key put_value put after_field array_start array_round after_item
    with_item literal starts_with parse_number unsigned_number scan_number to_array to_object
small_parsed = refl

parse_json-NestsWithin_example : NestsWithin 33 small_value
parse_json-NestsWithin_example = parse_json-NestsWithin small (32 ∷ []) small_value small_parsed

parse_json-ne-exhausted_example : parse_json small ≢ exhausted
parse_json-ne-exhausted_example = parse_json-ne-exhausted small

-- A quotation mark, a control character and a letter.
abbrev quoted : Bytes
quoted = 34 ∷ 7 ∷ b'a' ∷ []

parse_string-json_escape_example :
    parse_string (34 ∷ (json_escape quoted ++ (34 ∷ (b',' ∷ [])))) ≡ parsed quoted (b',' ∷ [])
parse_string-json_escape_example = parse_string-json_escape quoted (b',' ∷ [])

abbrev one_field : Fields
one_field = field (b'a' ∷ []) (boolean true) no_fields
