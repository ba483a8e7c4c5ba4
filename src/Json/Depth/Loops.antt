-- ===== src/Json/Depth/Loops.antt =====
-- How deep the items and fields nest that the loops of Array and Object of src/zdex/src/Json.cpp
-- give, and so what ParseJson gives.
use zircon_dumper.Prelude.{
  ℕ, zero, suc, ◌+◌, ◌*◌, ◌≡◌, refl, subst, true, [], ◌∷◌, ltb, ◌==◌, length, arith,
}
use zircon_dumper.Prelude.Preds.{Bytes}
use zircon_dumper.Json.{
  Json, Items, Fields, no_fields, Parsed, parsed, stopped, exhausted, skip, parse_string,
}
use zircon_dumper.Json.Values.{
  put, with_item, after_item, array_round, after_field, put_value, after_key, object_round, value,
  array_loop, object_loop, parse, parse_json,
}
use zircon_dumper.Json.Depth.{
  NestsWithin, ItemsNest, FieldsNest, Gives, if-Gives, put-FieldsNest, value_at-NestsWithin,
}

with_item-ItemsNest :
    (n : ℕ) (v : Json) (p : Parsed Items)
    → NestsWithin n v
    → Gives (ItemsNest n) p
    → Gives (ItemsNest n) (with_item v p)
unfolding with_item NestsWithin
with_item-ItemsNest n v (parsed vs cs) fits rest = (fits, rest)
with_item-ItemsNest n v (stopped e cs) fits rest = tt
with_item-ItemsNest n v exhausted fits rest = tt

after_item-ItemsNest :
    (n : ℕ) (again : Bytes → Parsed Items) (v : Json) (cs : Bytes)
    → ((ds : Bytes) → Gives (ItemsNest n) (again ds))
    → NestsWithin n v
    → Gives (ItemsNest n) (after_item again v cs)
unfolding after_item NestsWithin
after_item-ItemsNest n again v [] fit fits = tt
after_item-ItemsNest n again v (c ∷ cs) fit fits =
    if-Gives _ (c == b',') _ _ (with_item-ItemsNest n v (again cs) fits (fit cs))
      (if-Gives _ (c == b']') _ _ (fits, tt) tt)

array_round-ItemsNest :
    (n : ℕ) (again : Bytes → Parsed Items) (p : Parsed Json)
    → ((ds : Bytes) → Gives (ItemsNest n) (again ds))
    → Gives (NestsWithin n) p
    → Gives (ItemsNest n) (array_round again p)
unfolding array_round
array_round-ItemsNest n again (parsed v cs) fit fits =
    after_item-ItemsNest n again v (skip cs) fit fits
array_round-ItemsNest n again (stopped e cs) fit fits = tt
array_round-ItemsNest n again exhausted fit fits = tt

after_field-FieldsNest :
    (n : ℕ) (again : Fields → Bytes → Parsed Fields) (fs : Fields) (cs : Bytes)
    → ((fs' : Fields) (ds : Bytes) → FieldsNest n fs' → Gives (FieldsNest n) (again fs' ds))
    → FieldsNest n fs
    → Gives (FieldsNest n) (after_field again fs cs)
unfolding after_field
after_field-FieldsNest n again fs [] fit fits = tt
after_field-FieldsNest n again fs (c ∷ cs) fit fits =
    if-Gives _ (c == b',') _ _ (fit fs cs fits) (if-Gives _ (c == b'}') _ _ fits tt)

put_value-FieldsNest :
    (n : ℕ) (again : Fields → Bytes → Parsed Fields) (fs : Fields) (key : Bytes) (p : Parsed Json)
    → ((fs' : Fields) (ds : Bytes) → FieldsNest n fs' → Gives (FieldsNest n) (again fs' ds))
    → FieldsNest n fs
    → Gives (NestsWithin n) p
    → Gives (FieldsNest n) (put_value again fs key p)
unfolding put_value
put_value-FieldsNest n again fs key (parsed v cs) fit fits fits' =
    after_field-FieldsNest n again (put fs key v) (skip cs) fit
      (put-FieldsNest n fs key v fits fits')
put_value-FieldsNest n again fs key (stopped e cs) fit fits fits' = tt
put_value-FieldsNest n again fs key exhausted fit fits fits' = tt

after_key-FieldsNest :
    (n : ℕ) (val : Bytes → Parsed Json) (again : Fields → Bytes → Parsed Fields) (fs : Fields)
    (key cs : Bytes)
    → ((ds : Bytes) → Gives (NestsWithin n) (val ds))
    → ((fs' : Fields) (ds : Bytes) → FieldsNest n fs' → Gives (FieldsNest n) (again fs' ds))
    → FieldsNest n fs
    → Gives (FieldsNest n) (after_key val again fs key cs)
unfolding after_key
after_key-FieldsNest n val again fs key [] values fit fits = tt
after_key-FieldsNest n val again fs key (c ∷ cs) values fit fits =
    if-Gives _ (c == b':') _ _
      (put_value-FieldsNest n again fs key (val (skip cs)) fit fits (values (skip cs))) tt

object_round-FieldsNest :
    (n : ℕ) (val : Bytes → Parsed Json) (again : Fields → Bytes → Parsed Fields) (fs : Fields)
    (p : Parsed Bytes)
    → ((ds : Bytes) → Gives (NestsWithin n) (val ds))
    → ((fs' : Fields) (ds : Bytes) → FieldsNest n fs' → Gives (FieldsNest n) (again fs' ds))
    → FieldsNest n fs
    → Gives (FieldsNest n) (object_round val again fs p)
unfolding object_round
object_round-FieldsNest n val again fs (parsed key cs) values fit fits =
    after_key-FieldsNest n val again fs key (skip cs) values fit fits
object_round-FieldsNest n val again fs (stopped e cs) values fit fits = tt
object_round-FieldsNest n val again fs exhausted values fit fits = tt

nil-FieldsNest : (n : ℕ) → FieldsNest n no_fields
unfolding FieldsNest
nil-FieldsNest n = tt

mutual
  unfolding value array_loop object_loop

  value-NestsWithin :
      (f n depth : ℕ) (cs : Bytes) → n + depth ≡ 33 → Gives (NestsWithin n) (value f depth cs)
  value-NestsWithin zero n depth cs level = tt
  value-NestsWithin (suc f) zero depth cs level =
      let deep : ltb 32 depth ≡ true = ground arith in rw deep tt
  value-NestsWithin (suc f) (suc n) depth cs level = if-Gives _ (ltb 32 depth) _ _ tt (
      value_at-NestsWithin n (array_loop f (depth + 1)) (object_loop f (depth + 1) no_fields) cs
        (λ ds. array_loop-ItemsNest f n (depth + 1) ds (omega arith))
        (λ ds.
          object_loop-FieldsNest f n (depth + 1) no_fields ds (omega arith) (nil-FieldsNest n)))

  array_loop-ItemsNest :
      (f n depth : ℕ) (cs : Bytes) → n + depth ≡ 33 → Gives (ItemsNest n) (array_loop f depth cs)
  array_loop-ItemsNest zero n depth cs level = tt
  array_loop-ItemsNest (suc f) n depth cs level =
      array_round-ItemsNest n (array_loop f depth) (value f depth (skip cs))
        (λ ds. array_loop-ItemsNest f n depth ds level)
        (value-NestsWithin f n depth (skip cs) level)

  object_loop-FieldsNest :
      (f n depth : ℕ) (fs : Fields) (cs : Bytes)
      → n + depth ≡ 33
      → FieldsNest n fs
      → Gives (FieldsNest n) (object_loop f depth fs cs)
  object_loop-FieldsNest zero n depth fs cs level fits = tt
  object_loop-FieldsNest (suc f) n depth fs cs level fits =
      object_round-FieldsNest n (value f depth) (object_loop f depth) fs (parse_string (skip cs))
        (λ ds. value-NestsWithin f n depth ds level)
        (λ fs' ds fits'. object_loop-FieldsNest f n depth fs' ds level fits') fits

-- In what ParseJson gives, at most 33 arrays and objects stand in one another, whatever the text is.
pub parse_json-NestsWithin :
    (cs rest : Bytes) (v : Json) → parse_json cs ≡ parsed v rest → NestsWithin 33 v
unfolding parse_json parse
parse_json-NestsWithin cs rest v e =
    let within : Gives (NestsWithin 33) (parse_json cs) =
      if-Gives _ (length cs == 0) _ _ tt
        (value-NestsWithin (suc (2 * length (skip cs))) 33 0 (skip cs) refl) in
    subst (Gives (NestsWithin 33)) e within
