-- ===== src/Diff/KeepsFunctions.antt =====
-- What every call of Emit keeps of the report, DiffFunctions and DiffEnum of src/diff/src/Diff.cpp keep.
use zircon_dumper.Prelude.{true, Option, none, some, List, [], ◌∷◌}
use zircon_dumper.Prelude.Int.{ℤ, same_int}
use zircon_dumper.Prelude.Preds.{Bytes}
use zircon_dumper.Prelude.Text.{lookup}
use zircon_dumper.Ir.{Function, EnumValue, Enum, Struct}
use zircon_dumper.Diff.{DiffOptions, Report}
use zircon_dumper.Diff.Functions.{
  compare_function, pair_function, function_loop, emit_functions, diff_functions, compare_value,
  value_loop, new_value, new_value_loop, diff_enum,
}
use zircon_dumper.Diff.Notes.{Noted, Counts}
use zircon_dumper.Diff.Keeps.{IsKept, note-keeps, either-keeps}

module _ (options : DiffOptions) (P : Report → Type 0) (keeps : IsKept options P) where
  compare_function-keeps :
      (path : Bytes) (f now : Function) (n : Noted)
      → P n.report
      → P (compare_function options path f now n).report
  unfolding compare_function
  compare_function-keeps path f now n p = note-keeps options P keeps _ _ path f.name _ _ _ _ (
      note-keeps options P keeps _ _ path f.name _ _ _ _
        (note-keeps options P keeps _ _ path f.name _ _ _ n p))

  pair_function-keeps :
      (before_path after_path : Bytes) (f : Function) (now : Option Function) (n : Noted)
      → P n.report
      → P (pair_function options before_path after_path f now n).report
  unfolding pair_function
  pair_function-keeps before_path after_path f none n p =
      note-keeps options P keeps true _ before_path f.name _ _ _ n p
  pair_function-keeps before_path after_path f (some now) n p =
      compare_function-keeps after_path f now n p

  function_loop-keeps :
      (before_path : Bytes) (after : Struct) (functions : List Function) (taken : Counts)
      (n : Noted)
      → P n.report
      → P (function_loop options before_path after functions taken n).report
  unfolding function_loop
  function_loop-keeps before_path after [] taken n p = p
  function_loop-keeps before_path after (f ∷ functions) taken n p =
      function_loop-keeps before_path after functions _ _
        (pair_function-keeps before_path after.path f _ n p)

  emit_functions-keeps :
      (path : Bytes) (added : List Function) (n : Noted)
      → P n.report
      → P (emit_functions options path added n).report
  unfolding emit_functions
  emit_functions-keeps path [] n p = p
  emit_functions-keeps path (f ∷ added) n p =
      emit_functions-keeps path added _ (note-keeps options P keeps true _ path f.name _ _ _ n p)

  pub diff_functions-keeps :
      (before after : Struct) (r : Report) → P r → P (diff_functions options before after r).report
  unfolding diff_functions
  diff_functions-keeps before after r p =
      emit_functions-keeps after.path _ _
        (function_loop-keeps before.path after before.functions [] _ p)

  compare_value-keeps :
      (before_path after_path : Bytes) (v : EnumValue) (now : Option ℤ) (r : Report)
      → P r
      → P (compare_value options before_path after_path v now r)
  unfolding compare_value
  compare_value-keeps before_path after_path v none r p = keeps _ _ _ _ _ _ r p
  compare_value-keeps before_path after_path v (some now) r p =
      either-keeps options P keeps (same_int now v.value) _ _ p (keeps _ _ _ _ _ _ r p)

  value_loop-keeps :
      (before_path after_path : Bytes) (dict : List (Bytes × ℤ)) (values : List EnumValue)
      (r : Report)
      → P r
      → P (value_loop options before_path after_path dict values r)
  unfolding value_loop
  value_loop-keeps before_path after_path dict [] r p = p
  value_loop-keeps before_path after_path dict (v ∷ values) r p =
      value_loop-keeps before_path after_path dict values _
        (compare_value-keeps before_path after_path v (lookup dict v.name) r p)

  new_value-keeps :
      (path : Bytes) (v : EnumValue) (old : Option ℤ) (r : Report)
      → P r
      → P (new_value options path v old r)
  unfolding new_value
  new_value-keeps path v none r p = keeps _ _ _ _ _ _ r p
  new_value-keeps path v (some old) r p = p

  new_value_loop-keeps :
      (path : Bytes) (dict : List (Bytes × ℤ)) (values : List EnumValue) (r : Report)
      → P r
      → P (new_value_loop options path dict values r)
  unfolding new_value_loop
  new_value_loop-keeps path dict [] r p = p
  new_value_loop-keeps path dict (v ∷ values) r p =
      new_value_loop-keeps path dict values _ (new_value-keeps path v (lookup dict v.name) r p)

  pub diff_enum-keeps :
      (before after : Enum) (r : Report) → P r → P (diff_enum options before after r)
  unfolding diff_enum
  diff_enum-keeps before after r p =
      new_value_loop-keeps after.path _ after.values _
        (value_loop-keeps before.path after.path _ before.values r p)
