-- ===== src/Diff/Members.antt =====
-- DiffProperties of src/diff/src/Diff.cpp.
use zircon_dumper.Prelude.{
  ℕ, ◌+◌, Bool, true, false, not, ◌&&◌, ◌||◌, Option, none, some, List, [], ◌∷◌, ◌++◌, ◌==◌,
  if◌then◌else◌, length, get_elem?, set, replicate,
}
use zircon_dumper.Prelude.Int.{same_int, ◌-ℤ◌, decimal_int, signed_int, hex_int}
use zircon_dumper.Prelude.Preds.{Bytes}
use zircon_dumper.Prelude.Text.{codes, same_bytes}
use zircon_dumper.Ir.{Property, Struct}
use zircon_dumper.Diff.{
  property_added, property_removed, property_moved, property_resized, property_type_changed,
  property_bit_moved, property_flags_changed, property_default_changed, property_renamed,
  DiffOptions, Report, emit, signature, padded_hex,
}
use zircon_dumper.Diff.Notes.{Noted, note, Counts, count_of, bump, named_as, flags_text, added_loop}

-- Whether two places in a byte differ.
unfoldable pub bit_moved : Property → Property → Bool
bit_moved p now =
    (p.is_bitfield && now.is_bitfield)
    && (not (same_int p.bit_index now.bit_index) || not (p.field_mask == now.field_mask))

unfoldable pub default_changed : Bytes → Bytes → Bool
default_changed before after =
    not (length before == 0) && (not (length after == 0) && not (same_bytes before after))

unfoldable pub bit_text : Property → Bytes
bit_text p =
    codes "bit " ++ (decimal_int p.bit_index ++ (codes " mask 0x" ++ padded_hex 2 p.field_mask))

-- The tests of a property against the one that it is paired with.
unfoldable pub compare_property : DiffOptions → Bytes → Property → Property → Noted → Noted
compare_property options path p now n =
    let moved =
      note options (not (same_int p.offset now.offset)) property_moved path p.name
        (hex_int p.offset) (hex_int now.offset)
        (codes "moved " ++ (signed_int (now.offset -ℤ p.offset) ++ codes " bytes")) n in
    let resized =
      note options (not (same_int p.size now.size)) property_resized path p.name (hex_int p.size)
        (hex_int now.size) [] moved in
    let retyped =
      note options (not (same_bytes (signature p.type) (signature now.type))) property_type_changed
        path p.name (signature p.type) (signature now.type) [] resized in
    let shifted =
      note options (bit_moved p now) property_bit_moved path p.name (bit_text p) (bit_text now) []
        retyped in
    let flagged =
      note options (not (p.flags == now.flags)) property_flags_changed path p.name
        (flags_text 16 p.flags) (flags_text 16 now.flags) [] shifted in
    note options (default_changed p.default_value now.default_value) property_default_changed path
      p.name p.default_value now.default_value [] flagged

-- The state of the loop over the members before: what is noted, `taken` and `removed`.
pub record Pairing (A : Type 0) : Type 0 where
  pub noted : Noted
  pub taken : Counts
  pub removed : List A

-- A property with the one that it is paired with, if there is one.
unfoldable pub pair_property :
    DiffOptions → Bytes → Property → Option Property → Pairing Property → Pairing Property
pair_property options path p none s = record s {
  noted = record (s.noted) { unchanged = false };
  removed = s.removed ++ p ∷ [];
}
pair_property options path p (some now) s = record s {
  noted = compare_property options path p now s.noted;
}

unfoldable pub property_loop :
    DiffOptions → Struct → List Property → Pairing Property → Pairing Property
property_loop options after [] s = s
property_loop options after (p ∷ properties) s = property_loop options after properties (
    pair_property options after.path p
      (get_elem? (named_as (λ q. q.name) p.name after.properties) (count_of s.taken p.name))
      (record s { taken = bump s.taken p.name }))

-- The first property that is added, not taken, and at the offset and with the type of one that is
-- gone.
unfoldable pub find_match : Property → List Property → List Bool → ℕ → Option (ℕ × Property)
find_match gone [] taken i = none
find_match gone (p ∷ added) [] i = none
find_match gone (p ∷ added) (t ∷ taken) i =
    let rest = find_match gone added taken (i + 1) in
    if t
    then rest
    else if not (same_int p.offset gone.offset)
    then rest
    else if not (same_bytes (signature p.type) (signature gone.type))
    then rest
    else some (i, p)

unfoldable pub emit_gone : DiffOptions → Bytes → Property → Report → Report
emit_gone options path p r = emit options property_removed path p.name (hex_int p.offset) [] [] r

unfoldable pub emit_fresh : DiffOptions → Bytes → Property → Report → Report
emit_fresh options path p r = emit options property_added path p.name [] (hex_int p.offset) [] r

unfoldable pub renamed :
    DiffOptions
    → Bytes
    → Bytes
    → Property
    → Option (ℕ × Property)
    → List Bool
    → Report
    → List Bool × Report
renamed options before_path after_path gone none taken r =
    (taken, emit_gone options before_path gone r)
renamed options before_path after_path gone (some (i, p)) taken r = (
  set taken i true,
  emit options property_renamed after_path gone.name gone.name p.name
      (codes "same offset " ++ (hex_int gone.offset ++ codes " and type; offset still valid")) r,
)

unfoldable pub rename_loop :
    DiffOptions
    → Bytes
    → Bytes
    → List Property
    → List Property
    → List Bool
    → Report
    → List Bool × Report
rename_loop options before_path after_path added [] taken r = (taken, r)
rename_loop options before_path after_path added (gone ∷ removed) taken r =
    let (taken', r') =
      renamed options before_path after_path gone (find_match gone added taken 0) taken r in
    rename_loop options before_path after_path added removed taken' r'

unfoldable pub emit_untaken : DiffOptions → Bytes → List Property → List Bool → Report → Report
emit_untaken options path [] taken r = r
emit_untaken options path (p ∷ added) [] r = r
emit_untaken options path (p ∷ added) (t ∷ taken) r =
    emit_untaken options path added taken (if t then r else emit_fresh options path p r)

unfoldable pub emit_all_gone : DiffOptions → Bytes → List Property → Report → Report
emit_all_gone options path [] r = r
emit_all_gone options path (p ∷ removed) r =
    emit_all_gone options path removed (emit_gone options path p r)

unfoldable pub emit_all_fresh : DiffOptions → Bytes → List Property → Report → Report
emit_all_fresh options path [] r = r
emit_all_fresh options path (p ∷ added) r =
    emit_all_fresh options path added (emit_fresh options path p r)

-- The reports on what is gone and what is new.
unfoldable pub emit_rest :
    DiffOptions → Bytes → Bytes → List Property → List Property → Report → Report
emit_rest options before_path after_path removed added r =
    if options.detect_renames
    then (let (taken, r') =
          rename_loop options before_path after_path added removed (replicate (length added) false)
            r in
        emit_untaken options after_path added taken r')
    else emit_all_fresh options after_path added (emit_all_gone options before_path removed r)

unfoldable pub diff_properties : DiffOptions → Struct → Struct → Report → Noted
diff_properties options before after r =
    let s =
      property_loop options after before.properties
        (record { noted = record { report = r; unchanged = true }; taken = []; removed = [] }) in
    let added = added_loop (λ p. p.name) before.properties after.properties [] in
    record {
      report = emit_rest options before.path after.path s.removed added s.noted.report;
      unchanged = s.noted.unchanged && (length added == 0);
    }
