-- ===== src/Json/Ends.antt =====
-- ParseJson of src/zdex/src/Json.cpp returns on every text: its loops end and its values do not nest
-- forever.
use zircon_dumper.Prelude.{
  ℕ, zero, suc, ◌+◌, ◌*◌, ◌≤◌, ◌<◌, ◌≢◌, true, false, ◌||◌, [], ◌∷◌, ◌++◌, ltb, ◌==◌, length,
  length-drop, arith,
}
use zircon_dumper.Prelude.Preds.{Bytes}
use zircon_dumper.Json.{
  JsonError, Json, boolean, null, Items, Fields, no_fields, Parsed, parsed, stopped, exhausted,
  skip, parse_string, expected_null, expected_true, expected_false,
}
use zircon_dumper.Json.StringEnds.{Within, Within-later, skip_le, if-Within, parse_string-Within}
use zircon_dumper.Json.Values.{
  put, starts_with, literal, is_digit, is_number_char, scan_number, unsigned_number, parse_number,
  to_text, to_array, to_object, array_start, object_start, value_at, with_item, after_item,
  array_round, after_field, put_value, after_key, object_round, value, array_loop, object_loop,
  parse, parse_json,
}

literal-Within :
    (word : Bytes) (v : Json) (e : JsonError) (cs : Bytes)
    → Within (length cs) (literal word v e cs)
unfolding literal
literal-Within word v e cs =
    if-Within _ (starts_with word cs) _ _ (omega (arith, length-drop (length word) cs)) tt

scan_number-Within : (passed cs : Bytes) → Within (length cs) (scan_number passed cs)
unfolding scan_number
scan_number-Within passed [] = omega arith
scan_number-Within passed (c ∷ cs) =
    if-Within _ (is_number_char c) _ _
      (Within-later (length cs) (suc (length cs)) (scan_number (passed ++ c ∷ []) cs) (omega arith)
        (scan_number-Within (passed ++ c ∷ []) cs))
      (omega arith)

unsigned_number-Within : (sign cs : Bytes) → Within (length cs) (unsigned_number sign cs)
unfolding unsigned_number
unsigned_number-Within sign [] = tt
unsigned_number-Within sign (c ∷ cs) =
    if-Within _ (is_digit c) _ _ (scan_number-Within sign (c ∷ cs)) tt

parse_number-Within : (cs : Bytes) → Within (length cs) (parse_number cs)
unfolding parse_number
parse_number-Within [] = tt
parse_number-Within (c ∷ cs) =
    if-Within _ ((c == b'-') || (c == b'+')) _ _
      (Within-later (length cs) (suc (length cs)) (unsigned_number (c ∷ []) cs) (omega arith)
        (unsigned_number-Within (c ∷ []) cs))
      (unsigned_number-Within [] (c ∷ cs))

to_text-Within : (n : ℕ) (p : Parsed Bytes) → Within n p → Within n (to_text p)
unfolding to_text
to_text-Within n (parsed v cs) h = h
to_text-Within n (stopped e cs) h = h
to_text-Within n exhausted h = h

to_array-Within : (n : ℕ) (p : Parsed Items) → Within n p → Within n (to_array p)
unfolding to_array
to_array-Within n (parsed v cs) h = h
to_array-Within n (stopped e cs) h = h
to_array-Within n exhausted h = h

to_object-Within : (n : ℕ) (p : Parsed Fields) → Within n p → Within n (to_object p)
unfolding to_object
to_object-Within n (parsed v cs) h = h
to_object-Within n (stopped e cs) h = h
to_object-Within n exhausted h = h

with_item-Within : (n : ℕ) (v : Json) (p : Parsed Items) → Within n p → Within n (with_item v p)
unfolding with_item
with_item-Within n v (parsed items cs) h = h
with_item-Within n v (stopped e cs) h = h
with_item-Within n v exhausted h = h

-- A loop that returns on every text of at most `n` bytes.
abbrev Returns : {A : Type 0} → ℕ → (Bytes → Parsed A) → Type 0
Returns n loop = (cs : Bytes) → length cs ≤ n → Within (length cs) (loop cs)

array_start-Within :
    (loop : Bytes → Parsed Items) (cs : Bytes)
    → Returns (length cs) loop
    → Within (length cs) (array_start loop cs)
unfolding array_start
array_start-Within loop [] ends = to_array-Within 0 (loop []) (ends [] (omega arith))
array_start-Within loop (c ∷ cs) ends =
    if-Within _ (c == b']') _ _ (omega arith)
      (to_array-Within (suc (length cs)) (loop (c ∷ cs)) (ends (c ∷ cs) (omega arith)))

object_start-Within :
    (loop : Bytes → Parsed Fields) (cs : Bytes)
    → Returns (length cs) loop
    → Within (length cs) (object_start loop cs)
unfolding object_start
object_start-Within loop [] ends = to_object-Within 0 (loop []) (ends [] (omega arith))
object_start-Within loop (c ∷ cs) ends =
    if-Within _ (c == b'}') _ _ (omega arith)
      (to_object-Within (suc (length cs)) (loop (c ∷ cs)) (ends (c ∷ cs) (omega arith)))

value_at_nil :
    (items : Bytes → Parsed Items) (fields : Bytes → Parsed Fields)
    → Within 0 (value_at items fields [])
unfolding value_at
value_at_nil items fields = tt

value_at-Within :
    (items : Bytes → Parsed Items) (fields : Bytes → Parsed Fields) (c : ℕ) (cs : Bytes)
    → Returns (length cs) items
    → Returns (length cs) fields
    → Within (suc (length cs)) (value_at items fields (c ∷ cs))
unfolding value_at
value_at-Within items fields c cs array_ends object_ends =
    if-Within _ (c == b'n') _ _
      (literal-Within (b'n' ∷ b'u' ∷ b'l' ∷ b'l' ∷ []) null expected_null (c ∷ cs))
      (if-Within _ (c == b't') _ _
        (literal-Within (b't' ∷ b'r' ∷ b'u' ∷ b'e' ∷ []) (boolean true) expected_true (c ∷ cs))
        (if-Within _ (c == b'f') _ _
          (literal-Within (b'f' ∷ b'a' ∷ b'l' ∷ b's' ∷ b'e' ∷ []) (boolean false) expected_false
            (c ∷ cs))
          (if-Within _ (c == 34) _ _
            (to_text-Within (suc (length cs)) (parse_string (c ∷ cs))
              (parse_string-Within (c ∷ cs)))
            (if-Within _ (c == b'[') _ _
              (Within-later (length (skip cs)) (suc (length cs)) (array_start items (skip cs))
                (omega (arith, skip_le cs))
                (array_start-Within items (skip cs)
                  (λ ds le. array_ends ds (omega (arith, skip_le cs)))))
              (if-Within _ (c == b'{') _ _
                (Within-later (length (skip cs)) (suc (length cs)) (object_start fields (skip cs))
                  (omega (arith, skip_le cs))
                  (object_start-Within fields (skip cs)
                    (λ ds le. object_ends ds (omega (arith, skip_le cs)))))
                (parse_number-Within (c ∷ cs)))))))

after_item-Within :
    (n : ℕ) (again : Bytes → Parsed Items) (v : Json) (cs : Bytes)
    → ((ds : Bytes) → length ds < n → Within (length ds) (again ds))
    → length cs ≤ n
    → Within (length cs) (after_item again v cs)
unfolding after_item
after_item-Within n again v [] ends le = tt
after_item-Within n again v (c ∷ cs) ends le =
    if-Within _ (c == b',') _ _
      (with_item-Within (suc (length cs)) v (again cs) (
        Within-later (length cs) (suc (length cs)) (again cs) (omega arith)
          (ends cs (omega arith))))
      (if-Within _ (c == b']') _ _ (omega arith) tt)

array_round-Within :
    (n : ℕ) (again : Bytes → Parsed Items) (p : Parsed Json)
    → ((cs : Bytes) → length cs < n → Within (length cs) (again cs))
    → Within n p
    → Within n (array_round again p)
unfolding array_round
array_round-Within n again (parsed v cs) ends le =
    Within-later (length (skip cs)) n (after_item again v (skip cs)) (omega (arith, skip_le cs))
      (after_item-Within n again v (skip cs) ends (omega (arith, skip_le cs)))
array_round-Within n again (stopped e cs) ends le = tt
array_round-Within n again exhausted ends le = le

after_field-Within :
    (n : ℕ) (again : Fields → Bytes → Parsed Fields) (fs : Fields) (cs : Bytes)
    → ((fs' : Fields) (cs' : Bytes) → length cs' < n → Within (length cs') (again fs' cs'))
    → length cs ≤ n
    → Within (length cs) (after_field again fs cs)
unfolding after_field
after_field-Within n again fs [] ends le = tt
after_field-Within n again fs (c ∷ cs) ends le =
    if-Within _ (c == b',') _ _
      (Within-later (length cs) (suc (length cs)) (again fs cs) (omega arith)
        (ends fs cs (omega arith)))
      (if-Within _ (c == b'}') _ _ (omega arith) tt)

put_value-Within :
    (n : ℕ) (again : Fields → Bytes → Parsed Fields) (fs : Fields) (key : Bytes) (p : Parsed Json)
    → ((fs' : Fields) (cs' : Bytes) → length cs' < n → Within (length cs') (again fs' cs'))
    → Within n p
    → Within n (put_value again fs key p)
unfolding put_value
put_value-Within n again fs key (parsed v cs) ends le =
    Within-later (length (skip cs)) n (after_field again (put fs key v) (skip cs))
      (omega (arith, skip_le cs))
      (after_field-Within n again (put fs key v) (skip cs) ends (omega (arith, skip_le cs)))
put_value-Within n again fs key (stopped e cs) ends le = tt
put_value-Within n again fs key exhausted ends le = le

after_key-Within :
    (n : ℕ) (val : Bytes → Parsed Json) (again : Fields → Bytes → Parsed Fields) (fs : Fields)
    (key cs : Bytes)
    → ((ds : Bytes) → length ds < n → Within (length ds) (val ds))
    → ((fs' : Fields) (cs' : Bytes) → length cs' < n → Within (length cs') (again fs' cs'))
    → length cs ≤ n
    → Within n (after_key val again fs key cs)
unfolding after_key
after_key-Within n val again fs key [] values ends le = tt
after_key-Within n val again fs key (c ∷ cs) values ends le =
    if-Within _ (c == b':') _ _
      (put_value-Within n again fs key (val (skip cs)) ends (
        Within-later (length (skip cs)) n (val (skip cs)) (omega (arith, skip_le cs))
          (values (skip cs) (omega (arith, skip_le cs)))))
      tt

object_round-Within :
    (n : ℕ) (val : Bytes → Parsed Json) (again : Fields → Bytes → Parsed Fields) (fs : Fields)
    (p : Parsed Bytes)
    → ((ds : Bytes) → length ds < n → Within (length ds) (val ds))
    → ((fs' : Fields) (cs' : Bytes) → length cs' < n → Within (length cs') (again fs' cs'))
    → Within n p
    → Within n (object_round val again fs p)
unfolding object_round
object_round-Within n val again fs (parsed key cs) values ends le =
    after_key-Within n val again fs key (skip cs) values ends (omega (arith, skip_le cs))
object_round-Within n val again fs (stopped e cs) values ends le = tt
object_round-Within n val again fs exhausted values ends le = le

mutual
  unfolding value array_loop object_loop

  pub value-Within :
      (f depth : ℕ) (cs : Bytes) → 2 * length cs < f → Within (length cs) (value f depth cs)
  value-Within zero depth cs enough = absurd (omega arith)
  value-Within (suc f) depth [] enough =
      if-Within _ (ltb 32 depth) _ _ tt
        (value_at_nil (array_loop f (depth + 1)) (object_loop f (depth + 1) no_fields))
  value-Within (suc f) depth (c ∷ cs) enough = if-Within _ (ltb 32 depth) _ _ tt (
      value_at-Within (array_loop f (depth + 1)) (object_loop f (depth + 1) no_fields) c cs
        (λ ds le. array_loop-Within f (depth + 1) ds (omega arith))
        (λ ds le. object_loop-Within f (depth + 1) no_fields ds (omega arith)))

  array_loop-Within :
      (f depth : ℕ) (cs : Bytes)
      → 2 * length cs + 1 < f
      → Within (length cs) (array_loop f depth cs)
  array_loop-Within zero depth cs enough = absurd (omega arith)
  array_loop-Within (suc f) depth cs enough =
      array_round-Within (length cs) (array_loop f depth) (value f depth (skip cs))
        (λ ds lt. array_loop-Within f depth ds (omega arith))
        (Within-later (length (skip cs)) (length cs) (value f depth (skip cs)) (skip_le cs)
          (value-Within f depth (skip cs) (omega (arith, skip_le cs))))

  object_loop-Within :
      (f depth : ℕ) (fs : Fields) (cs : Bytes)
      → 2 * length cs + 1 < f
      → Within (length cs) (object_loop f depth fs cs)
  object_loop-Within zero depth fs cs enough = absurd (omega arith)
  object_loop-Within (suc f) depth fs cs enough =
      object_round-Within (length cs) (value f depth) (object_loop f depth) fs
        (parse_string (skip cs)) (λ ds lt. value-Within f depth ds (omega arith))
        (λ fs' ds lt. object_loop-Within f depth fs' ds (omega arith))
        (Within-later (length (skip cs)) (length cs) (parse_string (skip cs)) (skip_le cs)
          (parse_string-Within (skip cs)))

ne-exhausted : {A : Type 0} (n : ℕ) (p : Parsed A) → Within n p → p ≢ exhausted
ne-exhausted n (parsed v cs) h = ground arith
ne-exhausted n (stopped e cs) h = ground arith
ne-exhausted n exhausted h = absurd h

-- ParseJson returns on every text: with two rounds for each byte and one more, its values and the
-- loops of its arrays, objects and strings come to an end.
pub parse_json-ne-exhausted : (cs : Bytes) → parse_json cs ≢ exhausted
unfolding parse_json parse
parse_json-ne-exhausted cs = ne-exhausted (length cs) (parse_json cs) (
    if-Within _ (length cs == 0) _ _ tt (
      Within-later (length (skip cs)) (length cs) (parse (skip cs)) (skip_le cs)
        (value-Within (suc (2 * length (skip cs))) 0 (skip cs) (omega arith))))
