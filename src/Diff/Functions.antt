-- ===== src/Diff/Functions.antt =====
-- DiffFunctions and DiffEnum of src/diff/src/Diff.cpp.
use zircon_dumper.Prelude.{
  true, not, ◌&&◌, Option, none, some, List, [], ◌∷◌, ◌++◌, ◌==◌, if◌then◌else◌, get_elem?,
}
use zircon_dumper.Prelude.Int.{ℤ, same_int, decimal_int, hex}
use zircon_dumper.Prelude.Preds.{Bytes}
use zircon_dumper.Prelude.Text.{codes, same_bytes, lookup, assign_all}
use zircon_dumper.Ir.{Function, EnumValue, Enum, Struct}
use zircon_dumper.Diff.{
  function_added, function_removed, function_signature_changed, function_moved,
  function_flags_changed, enum_value_added, enum_value_removed, enum_value_changed, DiffOptions,
  Report, emit, function_signature,
}
use zircon_dumper.Diff.Notes.{Noted, note, Counts, count_of, bump, named_as, flags_text, added_loop}

unfoldable pub or_brackets : Bytes → Bytes
or_brackets [] = codes "()"
or_brackets (c ∷ cs) = c ∷ cs

-- The tests of a function against the one that it is paired with.
unfoldable pub compare_function : DiffOptions → Bytes → Function → Function → Noted → Noted
compare_function options path f now n =
    let signed =
      note options (not (same_bytes (function_signature f) (function_signature now)))
        function_signature_changed path f.name (or_brackets (function_signature f))
        (or_brackets (function_signature now)) [] n in
    let moved =
      note options
        (not (f.native_rva == 0)
          && (not (now.native_rva == 0) && not (f.native_rva == now.native_rva)))
        function_moved path f.name (codes "+0x" ++ hex f.native_rva)
        (codes "+0x" ++ hex now.native_rva) (codes "any hook on this address needs re-resolving")
        signed in
    note options (not (f.flags == now.flags)) function_flags_changed path f.name
      (flags_text 8 f.flags) (flags_text 8 now.flags) [] moved

unfoldable pub pair_function :
    DiffOptions → Bytes → Bytes → Function → Option Function → Noted → Noted
pair_function options before_path after_path f none n =
    note options true function_removed before_path f.name [] [] [] n
pair_function options before_path after_path f (some now) n =
    compare_function options after_path f now n

unfoldable pub function_loop : DiffOptions → Bytes → Struct → List Function → Counts → Noted → Noted
function_loop options before_path after [] taken n = n
function_loop options before_path after (f ∷ functions) taken n =
    function_loop options before_path after functions (bump taken f.name) (
      pair_function options before_path after.path f
        (get_elem? (named_as (λ g. g.name) f.name after.functions) (count_of taken f.name)) n)

unfoldable pub emit_functions : DiffOptions → Bytes → List Function → Noted → Noted
emit_functions options path [] n = n
emit_functions options path (f ∷ added) n =
    emit_functions options path added (note options true function_added path f.name [] [] [] n)

unfoldable pub diff_functions : DiffOptions → Struct → Struct → Report → Noted
diff_functions options before after r =
    emit_functions options after.path (added_loop (λ f. f.name) before.functions after.functions [])
      (function_loop options before.path after before.functions []
        (record { report = r; unchanged = true }))

-- The values by their names, the last one of a name.
unfoldable pub index_values : List EnumValue → List (Bytes × ℤ)
index_values values = assign_all (λ (v : EnumValue). v.name) (λ v. v.value) values []

unfoldable pub compare_value : DiffOptions → Bytes → Bytes → EnumValue → Option ℤ → Report → Report
compare_value options before_path after_path v none r =
    emit options enum_value_removed before_path v.name (decimal_int v.value) [] [] r
compare_value options before_path after_path v (some now) r =
    if same_int now v.value
    then r
    else emit options enum_value_changed after_path v.name (decimal_int v.value) (decimal_int now)
        [] r

unfoldable pub value_loop :
    DiffOptions → Bytes → Bytes → List (Bytes × ℤ) → List EnumValue → Report → Report
value_loop options before_path after_path dict [] r = r
value_loop options before_path after_path dict (v ∷ values) r =
    value_loop options before_path after_path dict values
      (compare_value options before_path after_path v (lookup dict v.name) r)

unfoldable pub new_value : DiffOptions → Bytes → EnumValue → Option ℤ → Report → Report
new_value options path v none r =
    emit options enum_value_added path v.name [] (decimal_int v.value) [] r
new_value options path v (some old) r = r

unfoldable pub new_value_loop :
    DiffOptions → Bytes → List (Bytes × ℤ) → List EnumValue → Report → Report
new_value_loop options path dict [] r = r
new_value_loop options path dict (v ∷ values) r =
    new_value_loop options path dict values (new_value options path v (lookup dict v.name) r)

unfoldable pub diff_enum : DiffOptions → Enum → Enum → Report → Report
diff_enum options before after r =
    new_value_loop options after.path (index_values before.values) after.values
      (value_loop options before.path after.path (index_values after.values) before.values r)
