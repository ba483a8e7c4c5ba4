-- ===== src/Diff/Itself.antt =====
-- Diff of src/diff/src/Diff.cpp on a dump and the dump itself.
use zircon_dumper.Prelude.{
  ◌+◌, ◌≡◌, refl, true, some, List, [], ◌∷◌, length, arith, Option-cases, inl, inr,
}
use zircon_dumper.Prelude.Int.{ℤ, same_int_refl}
use zircon_dumper.Prelude.Preds.{Bytes, All}
use zircon_dumper.Prelude.Text.{same_bytes_refl, lookup}
use zircon_dumper.Ir.{EnumValue, Enum, Struct, DerivedOffset, Header}
use zircon_dumper.Diff.{DiffOptions, Report}
use zircon_dumper.Diff.Distinct.{IsDistinct, Holds, assign_all_found}
use zircon_dumper.Diff.Index.{TypeIndex, has_name}
use zircon_dumper.Diff.Keys.{IsKey}
use zircon_dumper.Diff.Functions.{
  compare_value, value_loop, new_value, new_value_loop, index_values, diff_enum,
}
use zircon_dumper.Diff.Notes.{note}
use zircon_dumper.Diff.Same.{diff_properties_self, diff_functions_self}
use zircon_dumper.Diff.Whole.{
  DiffResult, old_offsets, compare_offset, offset_loop, diff_header, removed_packages,
  added_packages, compare_layout, compare_type, count_type, diff_type, type_loop, new_type,
  new_type_loop, enum_at, enum_loop, new_enum, new_enum_loop,
}

module _ (options : DiffOptions) where
  value_loop_self :
      (before_path after_path : Bytes) (dict : List (Bytes × ℤ)) (values : List EnumValue)
      (r : Report)
      → All (λ v. lookup dict v.name ≡ some v.value) values
      → value_loop options before_path after_path dict values r ≡ r
  unfolding value_loop compare_value
  value_loop_self before_path after_path dict [] r found = refl
  value_loop_self before_path after_path dict (v ∷ values) r (first, found) =
      rw (first, same_int_refl v.value) (value_loop_self before_path after_path dict values r found)

  new_value_loop_self :
      (path : Bytes) (dict : List (Bytes × ℤ)) (values : List EnumValue) (r : Report)
      → All (λ v. lookup dict v.name ≡ some v.value) values
      → new_value_loop options path dict values r ≡ r
  unfolding new_value_loop new_value
  new_value_loop_self path dict [] r found = refl
  new_value_loop_self path dict (v ∷ values) r (first, found) =
      rw first (new_value_loop_self path dict values r found)

  -- The comparison of an enum with itself reports nothing where its values have different names.
  pub diff_enum_self :
      (e : Enum) (r : Report) → IsDistinct (λ v. v.name) e.values → diff_enum options e e r ≡ r
  unfolding diff_enum index_values
  diff_enum_self e r distinct =
      let found =
        assign_all_found (λ (v : EnumValue). v.name) (λ v. v.value) e.values [] distinct in
      rw (value_loop_self e.path e.path (index_values e.values) e.values r found)
        (new_value_loop_self e.path (index_values e.values) e.values r found)

  offset_loop_self :
      (dict : List (Bytes × ℤ)) (offsets : List DerivedOffset) (r : Report)
      → All (λ o. lookup dict o.name ≡ some o.value) offsets
      → offset_loop options dict offsets r ≡ r
  unfolding offset_loop compare_offset
  offset_loop_self dict [] r found = refl
  offset_loop_self dict (o ∷ offsets) r (first, found) =
      rw (first, same_int_refl o.value) (offset_loop_self dict offsets r found)

  pub diff_header_self :
      (h : Header) (r : Report) → IsDistinct (λ o. o.name) h.offsets → diff_header options h h r ≡ r
  unfolding diff_header old_offsets
  diff_header_self h r distinct = rw (same_bytes_refl h.version) (
      offset_loop_self (old_offsets h.offsets) h.offsets r
        (assign_all_found (λ (o : DerivedOffset). o.name) (λ o. o.value) h.offsets [] distinct))

  pub packages_self :
      (all names : List Bytes) (r : Report)
      → All (λ n. has_name all n ≡ true) names
      → (removed_packages options all names r ≡ r) × (added_packages options all names r ≡ r)
  unfolding removed_packages added_packages
  packages_self all [] r there = (refl, refl)
  packages_self all (n ∷ names) r (first, there) = rw first (packages_self all names r there)

  compare_type_self :
      (path : Bytes) (s : Struct) (r : Report)
      → compare_type options path s s r ≡ record { report = r; unchanged = true }
  unfolding compare_type compare_layout note
  compare_type_self path s r =
      rw
        (
          same_int_refl s.size,
          same_int_refl s.alignment,
          same_bytes_refl s.super,
          diff_properties_self options s r,
          diff_functions_self options s r,
        )
        refl

  pub type_loop_self :
      (index : TypeIndex) (paths : List Bytes) (d : DiffResult)
      → All (IsKey index.types) paths
      → ((type_loop options index index paths d).report ≡ d.report)
        × (((type_loop options index index paths d).stats.types_compared
              ≡ d.stats.types_compared + length paths)
            × (((type_loop options index index paths d).stats.types_unchanged
                  ≡ d.stats.types_unchanged + length paths)
                × ((type_loop options index index paths d).stats.types_before
                    ≡ d.stats.types_before)))
  unfolding type_loop diff_type count_type
  type_loop_self index [] d keys = (refl, (omega arith, (omega arith, refl)))
  type_loop_self index (path ∷ paths) d ((s, e), keys) =
      let next : DiffResult = record {
        report = d.report;
        stats = record (d.stats) {
          types_compared = d.stats.types_compared + 1;
          types_unchanged = d.stats.types_unchanged + 1;
        };
      } in
      let (same, (compared, (unchanged, before))) = type_loop_self index paths next keys in
      rw (type_loop, e, diff_type, compare_type_self path s d.report, count_type)
        (same, (omega (arith, compared), (omega (arith, unchanged), before)))

  pub new_type_loop_self :
      (index : TypeIndex) (paths : List Bytes) (r : Report)
      → new_type_loop options index index paths r ≡ r
  unfolding new_type_loop new_type
  new_type_loop_self index [] r = refl
  new_type_loop_self index (path ∷ paths) r = elim (Option-cases (lookup index.types path)) [
    | inl e ↦ rw (new_type_loop, e, new_type) (new_type_loop_self index paths r)
    | inr (s, e) ↦ rw (new_type_loop, e, new_type) (new_type_loop_self index paths r)
  ]

  pub enum_loop_self :
      (index : TypeIndex) (paths : List Bytes) (r : Report)
      → Holds (λ (e : Enum). IsDistinct (λ v. v.name) e.values) index.enums
      → enum_loop options index index paths r ≡ r
  unfolding enum_loop enum_at
  enum_loop_self index [] r distinct = refl
  enum_loop_self index (path ∷ paths) r distinct = elim (Option-cases (lookup index.enums path)) [
    | inl e ↦ rw (enum_loop, e, enum_at) (enum_loop_self index paths r distinct)
    | inr (s, e) ↦
        rw (enum_loop, e, enum_at, diff_enum_self s r (distinct path s e))
          (enum_loop_self index paths r distinct)
  ]

  pub new_enum_loop_self :
      (index : TypeIndex) (paths : List Bytes) (r : Report)
      → All (IsKey index.enums) paths
      → new_enum_loop options index paths r ≡ r
  unfolding new_enum_loop new_enum
  new_enum_loop_self index [] r keys = refl
  new_enum_loop_self index (path ∷ paths) r ((e, found), keys) =
      rw (new_enum_loop, found, new_enum) (new_enum_loop_self index paths r keys)
