-- ===== src/Diff/Whole.antt =====
-- Diff of src/diff/src/Diff.cpp. The loops over the packages of an index run over a std::unordered_set,
-- whose order is not specified: here it is the order in which Index has met them. The last sort of the
-- report takes the order away, since two packages of one index have different names.
use zircon_dumper.Prelude.{
  ℕ, ◌+◌, true, not, ◌&&◌, Option, none, some, List, [], ◌∷◌, ◌++◌, if◌then◌else◌, length,
}
use zircon_dumper.Prelude.Int.{ℤ, same_int, ◌-ℤ◌, decimal_int, signed_int, hex_int}
use zircon_dumper.Prelude.Preds.{Bytes}
use zircon_dumper.Prelude.Text.{codes, same_bytes, lookup, assign_all}
use zircon_dumper.Ir.{Enum, Struct, DerivedOffset, Header, Dump}
use zircon_dumper.Diff.{
  package_added, package_removed, type_added, type_removed, type_resized, type_realigned,
  type_super_changed, enum_added, enum_removed, engine_version_changed, layout_offset_changed,
  DiffOptions, Report, emit,
}
use zircon_dumper.Diff.Index.{TypeIndex, index_of, has_name, sort_by, sorted_keys, comes_first}
use zircon_dumper.Diff.Functions.{diff_functions, diff_enum}
use zircon_dumper.Diff.Members.{diff_properties}
use zircon_dumper.Diff.Notes.{Noted, note}

pub record DiffStats : Type 0 where
  pub types_before : ℕ
  pub types_after : ℕ
  pub properties_before : ℕ
  pub properties_after : ℕ
  pub functions_before : ℕ
  pub functions_after : ℕ
  pub types_unchanged : ℕ
  pub types_compared : ℕ

pub record DiffResult : Type 0 where
  pub report : Report
  pub stats : DiffStats

unfoldable pub sum_types : {A : Type 0} → (Struct → List A) → List (Bytes × Struct) → ℕ
sum_types members [] = 0
sum_types members ((path, s) ∷ types) = length (members s) + sum_types members types

-- The statistics before a type is compared.
unfoldable pub first_stats : TypeIndex → TypeIndex → DiffStats
first_stats old new = record {
  types_before = length old.types;
  types_after = length new.types;
  properties_before = sum_types (λ s. s.properties) old.types;
  properties_after = sum_types (λ s. s.properties) new.types;
  functions_before = sum_types (λ s. s.functions) old.types;
  functions_after = sum_types (λ s. s.functions) new.types;
  types_unchanged = 0;
  types_compared = 0;
}

abbrev pub no_changes : Report
no_changes = record { changes = []; by_severity = λ s. 0; by_kind = λ k. 0 }

unfoldable pub old_offsets : List DerivedOffset → List (Bytes × ℤ)
old_offsets offsets = assign_all (λ (o : DerivedOffset). o.name) (λ o. o.value) offsets []

unfoldable pub compare_offset : DiffOptions → DerivedOffset → Option ℤ → Report → Report
compare_offset options o none r = r
compare_offset options o (some old) r =
    if same_int old o.value
    then r
    else emit options layout_offset_changed (codes "<layout>") o.name (hex_int old)
        (hex_int o.value) (codes "a core layout offset moved; every derived offset shifts with it")
        r

unfoldable pub offset_loop : DiffOptions → List (Bytes × ℤ) → List DerivedOffset → Report → Report
offset_loop options dict [] r = r
offset_loop options dict (o ∷ offsets) r =
    offset_loop options dict offsets (compare_offset options o (lookup dict o.name) r)

unfoldable pub diff_header : DiffOptions → Header → Header → Report → Report
diff_header options before after r =
    offset_loop options (old_offsets before.offsets) after.offsets (
      if same_bytes before.version after.version
      then r
      else emit options engine_version_changed (codes "<engine>") [] before.version after.version
          (codes "a different engine version explains widespread layout changes") r)

unfoldable pub removed_packages : DiffOptions → List Bytes → List Bytes → Report → Report
removed_packages options new [] r = r
removed_packages options new (name ∷ old) r =
    removed_packages options new old
      (if has_name new name then r else emit options package_removed name [] [] [] [] r)

unfoldable pub added_packages : DiffOptions → List Bytes → List Bytes → Report → Report
added_packages options old [] r = r
added_packages options old (name ∷ new) r =
    added_packages options old new
      (if has_name old name then r else emit options package_added name [] [] [] [] r)

unfoldable pub or_none : Bytes → Bytes
or_none [] = codes "<none>"
or_none (c ∷ cs) = c ∷ cs

-- The tests of a type itself.
unfoldable pub compare_layout : DiffOptions → Bytes → Struct → Struct → Noted → Noted
compare_layout options path s now n =
    let resized =
      note options (not (same_int s.size now.size)) type_resized path [] (hex_int s.size)
        (hex_int now.size) (signed_int (now.size -ℤ s.size) ++ codes " bytes") n in
    let realigned =
      note options (not (same_int s.alignment now.alignment)) type_realigned path []
        (decimal_int s.alignment) (decimal_int now.alignment) [] resized in
    note options (not (same_bytes s.super now.super)) type_super_changed path [] (or_none s.super)
      (or_none now.super) [] realigned

unfoldable pub compare_type : DiffOptions → Bytes → Struct → Struct → Report → Noted
compare_type options path s now r =
    let layout = compare_layout options path s now (record { report = r; unchanged = true }) in
    let properties = diff_properties options s now layout.report in
    let functions = diff_functions options s now properties.report in
    record {
      report = functions.report;
      unchanged = layout.unchanged && (properties.unchanged && functions.unchanged);
    }

-- `++types_compared`, and `++types_unchanged` where the type is unchanged.
unfoldable pub count_type : Noted → DiffStats → DiffResult
count_type n stats = record {
  report = n.report;
  stats = record stats {
    types_compared = stats.types_compared + 1;
    types_unchanged = if n.unchanged then stats.types_unchanged + 1 else stats.types_unchanged;
  };
}

-- A type of before by its path. `at` does not fail on a key of the map.
unfoldable pub diff_type :
    DiffOptions → Bytes → Option Struct → Option Struct → DiffResult → DiffResult
diff_type options path none now d = d
diff_type options path (some s) none d = record d {
  report = emit options type_removed path [] (hex_int s.size ++ codes " bytes") [] [] d.report;
}
diff_type options path (some s) (some now) d =
    count_type (compare_type options path s now d.report) d.stats

unfoldable pub type_loop :
    DiffOptions → TypeIndex → TypeIndex → List Bytes → DiffResult → DiffResult
type_loop options old new [] d = d
type_loop options old new (path ∷ paths) d =
    type_loop options old new paths
      (diff_type options path (lookup old.types path) (lookup new.types path) d)

unfoldable pub new_type : DiffOptions → Bytes → Option Struct → Option Struct → Report → Report
new_type options path none (some s) r =
    emit options type_added path [] [] (hex_int s.size ++ codes " bytes") [] r
new_type options path none none r = r
new_type options path (some old) now r = r

unfoldable pub new_type_loop : DiffOptions → TypeIndex → TypeIndex → List Bytes → Report → Report
new_type_loop options old new [] r = r
new_type_loop options old new (path ∷ paths) r =
    new_type_loop options old new paths
      (new_type options path (lookup old.types path) (lookup new.types path) r)

unfoldable pub enum_at : DiffOptions → Bytes → Option Enum → Option Enum → Report → Report
enum_at options path none now r = r
enum_at options path (some e) none r = emit options enum_removed path [] [] [] [] r
enum_at options path (some e) (some now) r = diff_enum options e now r

unfoldable pub enum_loop : DiffOptions → TypeIndex → TypeIndex → List Bytes → Report → Report
enum_loop options old new [] r = r
enum_loop options old new (path ∷ paths) r =
    enum_loop options old new paths
      (enum_at options path (lookup old.enums path) (lookup new.enums path) r)

unfoldable pub new_enum : DiffOptions → Bytes → Option Enum → Report → Report
new_enum options path none r = emit options enum_added path [] [] [] [] r
new_enum options path (some old) r = r

unfoldable pub new_enum_loop : DiffOptions → TypeIndex → List Bytes → Report → Report
new_enum_loop options old [] r = r
new_enum_loop options old (path ∷ paths) r =
    new_enum_loop options old paths (new_enum options path (lookup old.enums path) r)

-- What is reported before the types: the header and the packages.
unfoldable pub diff_first : DiffOptions → Dump → Dump → TypeIndex → TypeIndex → Report → Report
diff_first options before after old new r = added_packages options old.packages new.packages (
    removed_packages options new.packages old.packages
      (diff_header options before.header after.header r))

-- What is reported after the loop over the types of before: the new types and the enums.
unfoldable pub diff_last : DiffOptions → TypeIndex → TypeIndex → Report → Report
diff_last options old new r = new_enum_loop options old (sorted_keys new.enums) (
    enum_loop options old new (sorted_keys old.enums)
      (new_type_loop options old new (sorted_keys new.types) r))

unfoldable pub sort_changes : Report → Report
sort_changes r = record r { changes = sort_by comes_first r.changes }

unfoldable pub diff : Dump → Dump → DiffOptions → DiffResult
diff before after options =
    let old = index_of before.packages options.package_filter in
    let new = index_of after.packages options.package_filter in
    let first = diff_first options before after old new no_changes in
    let compared =
      type_loop options old new (sorted_keys old.types)
        (record { report = first; stats = first_stats old new }) in
    record compared { report = sort_changes (diff_last options old new compared.report) }
