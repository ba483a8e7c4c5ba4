-- ===== src/Json/Depth.antt =====
-- How deep the arrays and objects nest that ParseJson of src/zdex/src/Json.cpp gives.
pub mod Loops
use zircon_dumper.Prelude.{
  ℕ, zero, suc, ◌+◌, ◌*◌, ◌≡◌, refl, subst, Bool, true, false, not, ◌&&◌, ◌||◌, List, [], ◌∷◌, ◌++◌,
  ltb, leb, ◌==◌, if◌then◌else◌, length, arith, Bool-cases, inl, inr,
}
use zircon_dumper.Prelude.Preds.{Bytes}
use zircon_dumper.Prelude.Text.{same_bytes}
use zircon_dumper.Json.{
  JsonError, Json, null, boolean, number, text, array, object, Items, no_items, item, Fields,
  no_fields, field, Parsed, parsed, stopped, exhausted, skip, parse_string, expected_null,
  expected_true, expected_false,
}
use zircon_dumper.Json.Values.{
  put, starts_with, literal, is_digit, is_number_char, scan_number, unsigned_number, parse_number,
  to_text, to_array, to_object, array_start, object_start, value_at, with_item, after_item,
  array_round, after_field, put_value, after_key, object_round, value, array_loop, object_loop,
  parse, parse_json,
}

-- At most `n` arrays and objects stand in one another.
unfoldable mutual
  pub NestsWithin : ℕ → Json → Type 0
  NestsWithin n null = Unit
  NestsWithin n (boolean b) = Unit
  NestsWithin n (number digits) = Unit
  NestsWithin n (text bytes) = Unit
  NestsWithin zero (array vs) = ⊥
  NestsWithin (suc n) (array vs) = ItemsNest n vs
  NestsWithin zero (object fs) = ⊥
  NestsWithin (suc n) (object fs) = FieldsNest n fs

  pub ItemsNest : ℕ → Items → Type 0
  ItemsNest n no_items = Unit
  ItemsNest n (item v vs) = NestsWithin n v × ItemsNest n vs

  pub FieldsNest : ℕ → Fields → Type 0
  FieldsNest n no_fields = Unit
  FieldsNest n (field key v fs) = NestsWithin n v × FieldsNest n fs

-- What is parsed, if it is, has the property.
abbrev pub Gives : {A : Type 0} → (A → Type 0) → Parsed A → Type 0
Gives P (parsed v cs) = P v
Gives P (stopped e cs) = Unit
Gives P exhausted = Unit

pub if-Gives :
    {A : Type 0} (P : A → Type 0) (b : Bool) (p q : Parsed A)
    → Gives P p
    → Gives P q
    → Gives P (if b then p else q)
if-Gives P true p q first second = first
if-Gives P false p q first second = second

pub put-FieldsNest :
    (n : ℕ) (fs : Fields) (key : Bytes) (v : Json)
    → FieldsNest n fs
    → NestsWithin n v
    → FieldsNest n (put fs key v)
unfolding put NestsWithin
put-FieldsNest n no_fields key v fits fits' = (fits', tt)
put-FieldsNest n (field k w fs) key v (first, rest) fits' = elim (Bool-cases (same_bytes k key)) [
  | inl same ↦ rw same (fits', rest)
  | inr other ↦ rw other (first, put-FieldsNest n fs key v rest fits')
]

scan_number-NestsWithin :
    (n : ℕ) (passed cs : Bytes) → Gives (NestsWithin n) (scan_number passed cs)
unfolding scan_number NestsWithin
scan_number-NestsWithin n passed [] = tt
scan_number-NestsWithin n passed (c ∷ cs) =
    if-Gives _ (is_number_char c) _ _ (scan_number-NestsWithin n (passed ++ c ∷ []) cs) tt

unsigned_number-NestsWithin :
    (n : ℕ) (sign cs : Bytes) → Gives (NestsWithin n) (unsigned_number sign cs)
unfolding unsigned_number NestsWithin
unsigned_number-NestsWithin n sign [] = tt
unsigned_number-NestsWithin n sign (c ∷ cs) =
    if-Gives _ (is_digit c) _ _ (scan_number-NestsWithin n sign (c ∷ cs)) tt

parse_number-NestsWithin : (n : ℕ) (cs : Bytes) → Gives (NestsWithin n) (parse_number cs)
unfolding parse_number NestsWithin
parse_number-NestsWithin n [] = tt
parse_number-NestsWithin n (c ∷ cs) =
    if-Gives _ ((c == b'-') || (c == b'+')) _ _ (unsigned_number-NestsWithin n (c ∷ []) cs)
      (unsigned_number-NestsWithin n [] (c ∷ cs))

literal-NestsWithin :
    (n : ℕ) (word : Bytes) (v : Json) (e : JsonError) (cs : Bytes)
    → NestsWithin n v
    → Gives (NestsWithin n) (literal word v e cs)
unfolding literal NestsWithin
literal-NestsWithin n word v e cs fits = if-Gives _ (starts_with word cs) _ _ fits tt

to_text-NestsWithin : (n : ℕ) (p : Parsed Bytes) → Gives (NestsWithin n) (to_text p)
unfolding to_text NestsWithin
to_text-NestsWithin n (parsed bytes cs) = tt
to_text-NestsWithin n (stopped e cs) = tt
to_text-NestsWithin n exhausted = tt

to_array-NestsWithin :
    (n : ℕ) (p : Parsed Items) → Gives (ItemsNest n) p → Gives (NestsWithin (suc n)) (to_array p)
unfolding to_array NestsWithin
to_array-NestsWithin n (parsed items cs) fits = fits
to_array-NestsWithin n (stopped e cs) fits = tt
to_array-NestsWithin n exhausted fits = tt

to_object-NestsWithin :
    (n : ℕ) (p : Parsed Fields) → Gives (FieldsNest n) p → Gives (NestsWithin (suc n)) (to_object p)
unfolding to_object NestsWithin
to_object-NestsWithin n (parsed items cs) fits = fits
to_object-NestsWithin n (stopped e cs) fits = tt
to_object-NestsWithin n exhausted fits = tt

array_start-NestsWithin :
    (n : ℕ) (loop : Bytes → Parsed Items) (cs : Bytes)
    → ((ds : Bytes) → Gives (ItemsNest n) (loop ds))
    → Gives (NestsWithin (suc n)) (array_start loop cs)
unfolding array_start NestsWithin
array_start-NestsWithin n loop [] fit = to_array-NestsWithin n (loop []) (fit [])
array_start-NestsWithin n loop (c ∷ cs) fit =
    if-Gives _ (c == b']') _ _ tt (to_array-NestsWithin n (loop (c ∷ cs)) (fit (c ∷ cs)))

object_start-NestsWithin :
    (n : ℕ) (loop : Bytes → Parsed Fields) (cs : Bytes)
    → ((ds : Bytes) → Gives (FieldsNest n) (loop ds))
    → Gives (NestsWithin (suc n)) (object_start loop cs)
unfolding object_start NestsWithin
object_start-NestsWithin n loop [] fit = to_object-NestsWithin n (loop []) (fit [])
object_start-NestsWithin n loop (c ∷ cs) fit =
    if-Gives _ (c == b'}') _ _ tt (to_object-NestsWithin n (loop (c ∷ cs)) (fit (c ∷ cs)))

pub value_at-NestsWithin :
    (n : ℕ) (items : Bytes → Parsed Items) (fields : Bytes → Parsed Fields) (cs : Bytes)
    → ((ds : Bytes) → Gives (ItemsNest n) (items ds))
    → ((ds : Bytes) → Gives (FieldsNest n) (fields ds))
    → Gives (NestsWithin (suc n)) (value_at items fields cs)
unfolding value_at NestsWithin
value_at-NestsWithin n items fields [] fit fit' = tt
value_at-NestsWithin n items fields (c ∷ cs) fit fit' =
    if-Gives _ (c == b'n') _ _
      (literal-NestsWithin (suc n) (b'n' ∷ b'u' ∷ b'l' ∷ b'l' ∷ []) null expected_null (c ∷ cs) tt)
      (if-Gives _ (c == b't') _ _
        (literal-NestsWithin (suc n) (b't' ∷ b'r' ∷ b'u' ∷ b'e' ∷ []) (boolean true) expected_true
          (c ∷ cs) tt)
        (if-Gives _ (c == b'f') _ _
          (literal-NestsWithin (suc n) (b'f' ∷ b'a' ∷ b'l' ∷ b's' ∷ b'e' ∷ []) (boolean false)
            expected_false (c ∷ cs) tt)
          (if-Gives _ (c == 34) _ _ (to_text-NestsWithin (suc n) (parse_string (c ∷ cs))) (
            if-Gives _ (c == b'[') _ _ (array_start-NestsWithin n items (skip cs) fit) (
              if-Gives _ (c == b'{') _ _ (object_start-NestsWithin n fields (skip cs) fit')
                (parse_number-NestsWithin (suc n) (c ∷ cs)))))))
