-- ===== src/Diff/Names.antt =====
-- The names of the severities and the kinds in src/diff/src/Diff.cpp, and what a name says of a kind.
use zircon_dumper.Prelude.{◌-◌, ◌≡◌, refl, Bool, true, not, ◌||◌, drop, leb, ◌==◌, length}
use zircon_dumper.Prelude.Preds.{Bytes}
use zircon_dumper.Prelude.Text.{codes, same_bytes}
use zircon_dumper.Diff.{
  Severity, info, low, medium, high, critical, rank, ChangeKind, package_added, package_removed,
  type_added, type_removed, type_resized, type_realigned, type_super_changed, property_added,
  property_removed, property_moved, property_resized, property_type_changed, property_flags_changed,
  property_default_changed, property_bit_moved, property_renamed, function_added, function_removed,
  function_signature_changed, function_moved, function_flags_changed, enum_added, enum_removed,
  enum_value_added, enum_value_removed, enum_value_changed, engine_version_changed,
  layout_offset_changed, default_severity, is_addition,
}

-- ToString of a severity.
unfoldable pub severity_name : Severity → Bytes
severity_name info = codes "info"
severity_name low = codes "low"
severity_name medium = codes "medium"
severity_name high = codes "high"
severity_name critical = codes "critical"

-- ToString of a kind.
unfoldable pub kind_name : ChangeKind → Bytes
kind_name package_added = codes "package_added"
kind_name package_removed = codes "package_removed"
kind_name type_added = codes "type_added"
kind_name type_removed = codes "type_removed"
kind_name type_resized = codes "type_resized"
kind_name type_realigned = codes "type_realigned"
kind_name type_super_changed = codes "type_super_changed"
kind_name property_added = codes "property_added"
kind_name property_removed = codes "property_removed"
kind_name property_moved = codes "property_moved"
kind_name property_resized = codes "property_resized"
kind_name property_type_changed = codes "property_type_changed"
kind_name property_flags_changed = codes "property_flags_changed"
kind_name property_default_changed = codes "property_default_changed"
kind_name property_bit_moved = codes "property_bit_moved"
kind_name property_renamed = codes "property_renamed"
kind_name function_added = codes "function_added"
kind_name function_removed = codes "function_removed"
kind_name function_signature_changed = codes "function_signature_changed"
kind_name function_moved = codes "function_moved"
kind_name function_flags_changed = codes "function_flags_changed"
kind_name enum_added = codes "enum_added"
kind_name enum_removed = codes "enum_removed"
kind_name enum_value_added = codes "enum_value_added"
kind_name enum_value_removed = codes "enum_value_removed"
kind_name enum_value_changed = codes "enum_value_changed"
kind_name engine_version_changed = codes "engine_version_changed"
kind_name layout_offset_changed = codes "layout_offset_changed"

unfoldable pub ends_with : Bytes → Bytes → Bool
ends_with suffix text = same_bytes suffix (drop (length text - length suffix) text)

abbrev pub is_added : ChangeKind → Bool
is_added kind = ends_with (codes "_added") (kind_name kind)

abbrev pub is_removed : ChangeKind → Bool
is_removed kind = ends_with (codes "_removed") (kind_name kind)

-- The additions of Emit are the kinds whose names say so, DefaultSeverity gives these the lowest
-- severity, and at least `high` to the kinds whose names say that something is removed.
pub kinds_named :
    (kind : ChangeKind)
    → (is_addition kind ≡ is_added kind)
      × ((not (is_added kind) || (rank (default_severity kind) == 0)) ≡ true)
      × ((not (is_removed kind) || leb 3 (rank (default_severity kind))) ≡ true)
unfolding is_addition ends_with kind_name same_bytes default_severity rank
kinds_named package_added = (refl, refl, refl)
kinds_named package_removed = (refl, refl, refl)
kinds_named type_added = (refl, refl, refl)
kinds_named type_removed = (refl, refl, refl)
kinds_named type_resized = (refl, refl, refl)
kinds_named type_realigned = (refl, refl, refl)
kinds_named type_super_changed = (refl, refl, refl)
kinds_named property_added = (refl, refl, refl)
kinds_named property_removed = (refl, refl, refl)
kinds_named property_moved = (refl, refl, refl)
kinds_named property_resized = (refl, refl, refl)
kinds_named property_type_changed = (refl, refl, refl)
kinds_named property_flags_changed = (refl, refl, refl)
kinds_named property_default_changed = (refl, refl, refl)
kinds_named property_bit_moved = (refl, refl, refl)
kinds_named property_renamed = (refl, refl, refl)
kinds_named function_added = (refl, refl, refl)
kinds_named function_removed = (refl, refl, refl)
kinds_named function_signature_changed = (refl, refl, refl)
kinds_named function_moved = (refl, refl, refl)
kinds_named function_flags_changed = (refl, refl, refl)
kinds_named enum_added = (refl, refl, refl)
kinds_named enum_removed = (refl, refl, refl)
kinds_named enum_value_added = (refl, refl, refl)
kinds_named enum_value_removed = (refl, refl, refl)
kinds_named enum_value_changed = (refl, refl, refl)
kinds_named engine_version_changed = (refl, refl, refl)
kinds_named layout_offset_changed = (refl, refl, refl)
