-- ===== src/Diff/Reported.antt =====
-- What every call of Emit keeps of the report, Diff of src/diff/src/Diff.cpp keeps, up to its last sort.
use zircon_dumper.Prelude.{Option, none, some, List, [], ◌∷◌}
use zircon_dumper.Prelude.Int.{ℤ, same_int}
use zircon_dumper.Prelude.Preds.{Bytes}
use zircon_dumper.Prelude.Text.{same_bytes, lookup}
use zircon_dumper.Ir.{Enum, Struct, DerivedOffset, Header, Dump}
use zircon_dumper.Diff.{DiffOptions, Report}
use zircon_dumper.Diff.Index.{TypeIndex, index_of, has_name, sorted_keys}
use zircon_dumper.Diff.Keeps.{IsKept, note-keeps, either-keeps, diff_properties-keeps}
use zircon_dumper.Diff.KeepsFunctions.{diff_functions-keeps, diff_enum-keeps}
use zircon_dumper.Diff.Notes.{Noted}
use zircon_dumper.Diff.Whole.{
  DiffResult, no_changes, old_offsets, compare_offset, offset_loop, diff_header, removed_packages,
  added_packages, compare_layout, compare_type, count_type, diff_type, type_loop, new_type,
  new_type_loop, enum_at, enum_loop, new_enum, new_enum_loop, diff_first, diff_last, sort_changes,
  diff,
}

module _ (options : DiffOptions) (P : Report → Type 0) (keeps : IsKept options P) where
  compare_offset-keeps :
      (o : DerivedOffset) (old : Option ℤ) (r : Report) → P r → P (compare_offset options o old r)
  unfolding compare_offset
  compare_offset-keeps o none r p = p
  compare_offset-keeps o (some old) r p =
      either-keeps options P keeps (same_int old o.value) _ _ p (keeps _ _ _ _ _ _ r p)

  offset_loop-keeps :
      (dict : List (Bytes × ℤ)) (offsets : List DerivedOffset) (r : Report)
      → P r
      → P (offset_loop options dict offsets r)
  unfolding offset_loop
  offset_loop-keeps dict [] r p = p
  offset_loop-keeps dict (o ∷ offsets) r p =
      offset_loop-keeps dict offsets _ (compare_offset-keeps o (lookup dict o.name) r p)

  diff_header-keeps :
      (before after : Header) (r : Report) → P r → P (diff_header options before after r)
  unfolding diff_header
  diff_header-keeps before after r p =
      offset_loop-keeps (old_offsets before.offsets) after.offsets _ (
        either-keeps options P keeps (same_bytes before.version after.version) _ _ p
          (keeps _ _ _ _ _ _ r p))

  removed_packages-keeps :
      (new old : List Bytes) (r : Report) → P r → P (removed_packages options new old r)
  unfolding removed_packages
  removed_packages-keeps new [] r p = p
  removed_packages-keeps new (name ∷ old) r p =
      removed_packages-keeps new old _
        (either-keeps options P keeps (has_name new name) _ _ p (keeps _ _ _ _ _ _ r p))

  added_packages-keeps :
      (old new : List Bytes) (r : Report) → P r → P (added_packages options old new r)
  unfolding added_packages
  added_packages-keeps old [] r p = p
  added_packages-keeps old (name ∷ new) r p =
      added_packages-keeps old new _
        (either-keeps options P keeps (has_name old name) _ _ p (keeps _ _ _ _ _ _ r p))

  compare_layout-keeps :
      (path : Bytes) (s now : Struct) (n : Noted)
      → P n.report
      → P (compare_layout options path s now n).report
  unfolding compare_layout
  compare_layout-keeps path s now n p = note-keeps options P keeps _ _ path [] _ _ _ _ (
      note-keeps options P keeps _ _ path [] _ _ _ _
        (note-keeps options P keeps _ _ path [] _ _ _ n p))

  compare_type-keeps :
      (path : Bytes) (s now : Struct) (r : Report)
      → P r
      → P (compare_type options path s now r).report
  unfolding compare_type
  compare_type-keeps path s now r p =
      diff_functions-keeps options P keeps s now _
        (diff_properties-keeps options P keeps s now _ (compare_layout-keeps path s now _ p))

  diff_type-keeps :
      (path : Bytes) (old now : Option Struct) (d : DiffResult)
      → P d.report
      → P (diff_type options path old now d).report
  unfolding diff_type count_type
  diff_type-keeps path none now d p = p
  diff_type-keeps path (some s) none d p = keeps _ _ _ _ _ _ d.report p
  diff_type-keeps path (some s) (some now) d p = compare_type-keeps path s now d.report p

  type_loop-keeps :
      (old new : TypeIndex) (paths : List Bytes) (d : DiffResult)
      → P d.report
      → P (type_loop options old new paths d).report
  unfolding type_loop
  type_loop-keeps old new [] d p = p
  type_loop-keeps old new (path ∷ paths) d p =
      type_loop-keeps old new paths _ (diff_type-keeps path _ (lookup new.types path) d p)

  new_type-keeps :
      (path : Bytes) (old now : Option Struct) (r : Report)
      → P r
      → P (new_type options path old now r)
  unfolding new_type
  new_type-keeps path none (some s) r p = keeps _ _ _ _ _ _ r p
  new_type-keeps path none none r p = p
  new_type-keeps path (some old) now r p = p

  new_type_loop-keeps :
      (old new : TypeIndex) (paths : List Bytes) (r : Report)
      → P r
      → P (new_type_loop options old new paths r)
  unfolding new_type_loop
  new_type_loop-keeps old new [] r p = p
  new_type_loop-keeps old new (path ∷ paths) r p =
      new_type_loop-keeps old new paths _
        (new_type-keeps path (lookup old.types path) (lookup new.types path) r p)

  enum_at-keeps :
      (path : Bytes) (old now : Option Enum) (r : Report) → P r → P (enum_at options path old now r)
  unfolding enum_at
  enum_at-keeps path none now r p = p
  enum_at-keeps path (some e) none r p = keeps _ _ _ _ _ _ r p
  enum_at-keeps path (some e) (some now) r p = diff_enum-keeps options P keeps e now r p

  enum_loop-keeps :
      (old new : TypeIndex) (paths : List Bytes) (r : Report)
      → P r
      → P (enum_loop options old new paths r)
  unfolding enum_loop
  enum_loop-keeps old new [] r p = p
  enum_loop-keeps old new (path ∷ paths) r p =
      enum_loop-keeps old new paths _
        (enum_at-keeps path (lookup old.enums path) (lookup new.enums path) r p)

  new_enum-keeps :
      (path : Bytes) (old : Option Enum) (r : Report) → P r → P (new_enum options path old r)
  unfolding new_enum
  new_enum-keeps path none r p = keeps _ _ _ _ _ _ r p
  new_enum-keeps path (some old) r p = p

  new_enum_loop-keeps :
      (old : TypeIndex) (paths : List Bytes) (r : Report)
      → P r
      → P (new_enum_loop options old paths r)
  unfolding new_enum_loop
  new_enum_loop-keeps old [] r p = p
  new_enum_loop-keeps old (path ∷ paths) r p =
      new_enum_loop-keeps old paths _ (new_enum-keeps path (lookup old.enums path) r p)

  -- What Emit keeps and the last sort keeps, the report of Diff has.
  pub diff-keeps :
      (before after : Dump)
      → ((r : Report) → P r → P (sort_changes r))
      → P no_changes
      → P (diff before after options).report
  unfolding diff diff_first diff_last
  diff-keeps before after sorts p =
      let old = index_of before.packages options.package_filter in
      let new = index_of after.packages options.package_filter in
      sorts _ (
        new_enum_loop-keeps old (sorted_keys new.enums) _ (
          enum_loop-keeps old new (sorted_keys old.enums) _ (
            new_type_loop-keeps old new (sorted_keys new.types) _ (
              type_loop-keeps old new (sorted_keys old.types) _ (
                added_packages-keeps old.packages new.packages _ (
                  removed_packages-keeps new.packages old.packages _
                    (diff_header-keeps before.header after.header no_changes p)))))))
