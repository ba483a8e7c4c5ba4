-- ===== src/Diff/Same.antt =====
-- A type and an enum that src/diff/src/Diff.cpp compares with themselves.
use zircon_dumper.Prelude.{
  ℕ, ◌≡◌, refl, sym, ◌∙◌, Bool, true, false, not, ◌&&◌, List, [], ◌∷◌, ◌++◌, append_assoc, ◌==◌,
  length, arith, Bool-cases, inl, inr,
}
use zircon_dumper.Prelude.Int.{same_int_refl}
use zircon_dumper.Prelude.Preds.{Bytes}
use zircon_dumper.Prelude.Text.{same_bytes_refl}
use zircon_dumper.Ir.{Property, Function, Struct}
use zircon_dumper.Diff.{DiffOptions, Report, signature, function_signature}
use zircon_dumper.Diff.Functions.{
  compare_function, pair_function, function_loop, emit_functions, diff_functions,
}
use zircon_dumper.Diff.Members.{
  bit_moved, default_changed, compare_property, Pairing, pair_property, property_loop, rename_loop,
  emit_untaken, emit_all_gone, emit_all_fresh, emit_rest, diff_properties,
}
use zircon_dumper.Diff.Notes.{Noted, note, Counts, bump}
use zircon_dumper.Diff.Counts.{
  IsCounted, IsCounted-none, IsCounted-bump, get_elem?-named_as, added_loop_self,
}

eq_refl : (n : ℕ) → (n == n) ≡ true
eq_refl n = ground arith

and-false : (b : Bool) → (b && false) ≡ false
and-false true = refl
and-false false = refl

bit_moved_self : (p : Property) → bit_moved p p ≡ false
unfolding bit_moved
bit_moved_self p =
    rw (same_int_refl p.bit_index, eq_refl p.field_mask)
      (and-false (p.is_bitfield && p.is_bitfield))

default_changed_self : (xs : Bytes) → default_changed xs xs ≡ false
unfolding default_changed
default_changed_self xs =
    rw (same_bytes_refl xs, and-false (not (length xs == 0))) (and-false (not (length xs == 0)))

compare_property_self :
    (options : DiffOptions) (path : Bytes) (p : Property) (n : Noted)
    → compare_property options path p p n ≡ n
unfolding compare_property note
compare_property_self options path p n =
    rw
      (
        same_int_refl p.offset,
        same_int_refl p.size,
        same_bytes_refl (signature p.type),
        bit_moved_self p,
        eq_refl p.flags,
        default_changed_self p.default_value,
      )
      refl

compare_function_self :
    (options : DiffOptions) (path : Bytes) (f : Function) (n : Noted)
    → compare_function options path f f n ≡ n
unfolding compare_function note
compare_function_self options path f n =
    rw
      (
        same_bytes_refl (function_signature f),
        eq_refl f.native_rva,
        eq_refl f.flags,
        and-false (not (f.native_rva == 0)),
        and-false (not (f.native_rva == 0)),
      )
      refl

property_loop_self :
    (options : DiffOptions) (s : Struct) (done rest : List Property) (state : Pairing Property)
    → s.properties ≡ done ++ rest
    → IsCounted (λ p. p.name) state.taken done
    → ((property_loop options s rest state).noted ≡ state.noted)
      × ((property_loop options s rest state).removed ≡ state.removed)
unfolding property_loop pair_property
property_loop_self options s done [] state split counted = (refl, refl)
property_loop_self options s done (p ∷ rest) state split counted =
    rw
      (
        property_loop,
        get_elem?-named_as (λ q. q.name) s.properties done p rest state.taken split counted,
        pair_property,
        compare_property_self options s.path p state.noted,
      )
      (property_loop_self options s (done ++ p ∷ []) rest
        (record state { taken = bump state.taken p.name })
        (split ∙ sym (append_assoc done (p ∷ []) rest))
        (IsCounted-bump (λ q. q.name) state.taken done p counted))

emit_rest_none :
    (options : DiffOptions) (before_path after_path : Bytes) (r : Report)
    → emit_rest options before_path after_path [] [] r ≡ r
unfolding emit_rest rename_loop emit_untaken emit_all_gone emit_all_fresh
emit_rest_none options before_path after_path r = elim (Bool-cases options.detect_renames) [
  | inl e ↦ rw e refl
  | inr e ↦ rw e refl
]

-- The comparison of the properties of a type with themselves reports nothing, whatever names occur
-- more than once, and says that they are unchanged.
pub diff_properties_self :
    (options : DiffOptions) (s : Struct) (r : Report)
    → diff_properties options s s r ≡ record { report = r; unchanged = true }
unfolding diff_properties
diff_properties_self options s r =
    let start : Pairing Property = record {
      noted = record { report = r; unchanged = true };
      taken = [];
      removed = [];
    } in
    let (noted_is, removed_is) =
      property_loop_self options s [] s.properties start refl (IsCounted-none (λ p. p.name)) in
    let none_added =
      added_loop_self (λ p. p.name) s.properties [] s.properties [] refl
        (IsCounted-none (λ p. p.name)) in
    rw (noted_is, removed_is, none_added, emit_rest_none options s.path s.path r) refl

function_loop_self :
    (options : DiffOptions) (path : Bytes) (s : Struct) (done rest : List Function) (taken : Counts)
    (n : Noted)
    → s.functions ≡ done ++ rest
    → IsCounted (λ f. f.name) taken done
    → function_loop options path s rest taken n ≡ n
unfolding function_loop pair_function
function_loop_self options path s done [] taken n split counted = refl
function_loop_self options path s done (f ∷ rest) taken n split counted =
    rw
      (
        get_elem?-named_as (λ g. g.name) s.functions done f rest taken split counted,
        compare_function_self options s.path f n,
      )
      (function_loop_self options path s (done ++ f ∷ []) rest (bump taken f.name) n
        (split ∙ sym (append_assoc done (f ∷ []) rest))
        (IsCounted-bump (λ g. g.name) taken done f counted))

-- The comparison of the functions of a type with themselves reports nothing, whatever names occur
-- more than once, and says that they are unchanged.
pub diff_functions_self :
    (options : DiffOptions) (s : Struct) (r : Report)
    → diff_functions options s s r ≡ record { report = r; unchanged = true }
unfolding diff_functions emit_functions
diff_functions_self options s r =
    let start : Noted = record { report = r; unchanged = true } in
    let none_added =
      added_loop_self (λ f. f.name) s.functions [] s.functions [] refl
        (IsCounted-none (λ f. f.name)) in
    rw
      (
        none_added,
        function_loop_self options s.path s [] s.functions [] start refl
            (IsCounted-none (λ f. f.name)),
      )
      refl
