-- ===== src/Diff/Clean.antt =====
-- What Diff of src/diff/src/Diff.cpp gives for a dump and the dump itself.
use zircon_dumper.Prelude.{
  ◌≡◌, refl, Bool, true, false, not, ◌&&◌, List, [], ◌∷◌, ◌==◌, if◌then◌else◌, length, arith,
}
use zircon_dumper.Prelude.Preds.{Bytes, All}
use zircon_dumper.Prelude.Text.{lookup, contains_text}
use zircon_dumper.Ir.{Enum, Package, Dump}
use zircon_dumper.Diff.{DiffOptions, Report}
use zircon_dumper.Diff.Distinct.{IsDistinct, Holds, assign_all-Holds}
use zircon_dumper.Diff.Index.{
  TypeIndex, index_package, index_from, index_of, empty_index, sort_by, sorted_keys,
}
use zircon_dumper.Diff.Itself.{
  diff_header_self, packages_self, type_loop_self, new_type_loop_self, enum_loop_self,
  new_enum_loop_self,
}
use zircon_dumper.Diff.Keys.{sorted_keys-IsKey, length-sorted_keys, has_name-All}
use zircon_dumper.Diff.Whole.{no_changes, first_stats, diff_first, diff_last, sort_changes, diff}

-- The values of an enum have different names.
abbrev pub HasNames : Enum → Type 0
HasNames e = IsDistinct (λ v. v.name) e.values

next-HasNames :
    (b : Bool) (p : Package) (index : TypeIndex)
    → All HasNames p.enums
    → Holds HasNames index.enums
    → Holds HasNames (if b then index else index_package p index).enums
unfolding index_package
next-HasNames true p index named holds = holds
next-HasNames false p index named holds =
    assign_all-Holds (λ (e : Enum). e.path) (λ e. e) HasNames p.enums index.enums named holds

index_from-HasNames :
    (packages : List Package) (filter : Bytes) (index : TypeIndex)
    → All (λ p. All HasNames p.enums) packages
    → Holds HasNames index.enums
    → Holds HasNames (index_from packages filter index).enums
unfolding index_from
index_from-HasNames [] filter index named holds = holds
index_from-HasNames (p ∷ packages) filter index (first, named) holds =
    index_from-HasNames packages filter _ named (
      next-HasNames (not (length filter == 0) && not (contains_text filter p.name)) p index first
        holds)

module _ (options : DiffOptions) (d : Dump) where
  diff_first_self :
      (index : TypeIndex) (r : Report)
      → IsDistinct (λ o. o.name) d.header.offsets
      → diff_first options d d index index r ≡ r
  unfolding diff_first
  diff_first_self index r distinct =
      let all = has_name-All index.packages in
      rw
        (
          diff_header_self options d.header r distinct,
          (packages_self options index.packages index.packages r all).0,
        )
        ((packages_self options index.packages index.packages r all).1)

  diff_last_self :
      (index : TypeIndex) (r : Report)
      → Holds HasNames index.enums
      → diff_last options index index r ≡ r
  unfolding diff_last
  diff_last_self index r named =
      rw
        (
          new_type_loop_self options index (sorted_keys index.types) r,
          enum_loop_self options index (sorted_keys index.enums) r named,
        )
        (new_enum_loop_self options index (sorted_keys index.enums) r
          (sorted_keys-IsKey index.enums))

  -- A dump whose layout offsets have different names, and whose enums each have values of different
  -- names, is the same as itself: the report has no changes, and each of its types is compared and
  -- found unchanged. Names of types, of properties and of functions may occur more than once.
  pub diff_self :
      IsDistinct (λ o. o.name) d.header.offsets
      → All (λ p. All HasNames p.enums) d.packages
      → ((diff d d options).report ≡ no_changes)
        × (((diff d d options).stats.types_compared ≡ (diff d d options).stats.types_before)
            × ((diff d d options).stats.types_unchanged ≡ (diff d d options).stats.types_before))
  unfolding diff first_stats lookup sort_changes sort_by index_of
  diff_self distinct named =
      let index = index_of d.packages options.package_filter in
      let start = diff_first_self index no_changes distinct in
      let (same, (compared, (unchanged, before))) =
        type_loop_self options index (sorted_keys index.types)
          (record { report = no_changes; stats = first_stats index index })
          (sorted_keys-IsKey index.types) in
      let last = diff_last_self index no_changes (
        index_from-HasNames d.packages options.package_filter empty_index named
          (λ key e found. absurd (ground (arith, found)))) in
      let counted = length-sorted_keys index.types in
      rw (start, same, last)
        (
          refl,
          (omega (arith, compared, counted, before), omega (arith, unchanged, counted, before)),
        )
