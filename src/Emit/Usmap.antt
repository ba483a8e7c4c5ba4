-- ===== src/Emit/Usmap.antt =====
-- The types of a property in src/emit/src/Usmap.cpp, and how WriteType writes them.
pub mod Classes
pub mod Entries
pub mod File
pub mod Meaning
pub mod Read
pub mod Shapes
pub mod Structs
pub mod Table
mod Tests
pub mod Trip
pub mod Whole
use zircon_dumper.Prelude.{
  ℕ, suc, ◌+◌, ◌-◌, ◌*◌, ◌/◌, ◌%◌, ◌^◌, Bool, true, false, Option, none, some, List, [], ◌∷◌, ◌++◌,
  ltb, ◌==◌, if◌then◌else◌, take, length,
}
use zircon_dumper.Prelude.Preds.{Bytes}
use zircon_dumper.Prelude.Text.{codes, lookup}
use zircon_dumper.Ir.{TypeRef, type_ref, TypeRefs, no_params, param}
use zircon_dumper.Ir.Kinds.{TypeKind}
use zircon_dumper.Emit.Util.{leaf_name}

pub data PropertyType : Type 0 where
  byte_property : PropertyType
  bool_property : PropertyType
  int_property : PropertyType
  float_property : PropertyType
  object_property : PropertyType
  name_property : PropertyType
  delegate_property : PropertyType
  double_property : PropertyType
  array_property : PropertyType
  struct_property : PropertyType
  str_property : PropertyType
  text_property : PropertyType
  interface_property : PropertyType
  multicast_delegate_property : PropertyType
  weak_object_property : PropertyType
  lazy_object_property : PropertyType
  asset_object_property : PropertyType
  soft_object_property : PropertyType
  uint64_property : PropertyType
  uint32_property : PropertyType
  uint16_property : PropertyType
  int64_property : PropertyType
  int16_property : PropertyType
  int8_property : PropertyType
  map_property : PropertyType
  set_property : PropertyType
  enum_property : PropertyType
  field_path_property : PropertyType
  optional_property : PropertyType
  utf8_str_property : PropertyType
  ansi_str_property : PropertyType

-- The byte of a type in the file.
unfoldable pub type_byte : PropertyType → ℕ
type_byte byte_property = 0
type_byte bool_property = 1
type_byte int_property = 2
type_byte float_property = 3
type_byte object_property = 4
type_byte name_property = 5
type_byte delegate_property = 6
type_byte double_property = 7
type_byte array_property = 8
type_byte struct_property = 9
type_byte str_property = 10
type_byte text_property = 11
type_byte interface_property = 12
type_byte multicast_delegate_property = 13
type_byte weak_object_property = 14
type_byte lazy_object_property = 15
type_byte asset_object_property = 16
type_byte soft_object_property = 17
type_byte uint64_property = 18
type_byte uint32_property = 19
type_byte uint16_property = 20
type_byte int64_property = 21
type_byte int16_property = 22
type_byte int8_property = 23
type_byte map_property = 24
type_byte set_property = 25
type_byte enum_property = 26
type_byte field_path_property = 27
type_byte optional_property = 28
type_byte utf8_str_property = 29
type_byte ansi_str_property = 30

-- MapKind; `none` is a kind that is not recognised.
unfoldable pub map_kind : TypeKind → Option PropertyType
map_kind TypeKind.bool = some bool_property
map_kind TypeKind.int8 = some int8_property
map_kind TypeKind.int16 = some int16_property
map_kind TypeKind.int32 = some int_property
map_kind TypeKind.int64 = some int64_property
map_kind TypeKind.uint8 = some byte_property
map_kind TypeKind.uint16 = some uint16_property
map_kind TypeKind.uint32 = some uint32_property
map_kind TypeKind.uint64 = some uint64_property
map_kind TypeKind.float = some float_property
map_kind TypeKind.double = some double_property
map_kind TypeKind.name = some name_property
map_kind TypeKind.string = some str_property
map_kind TypeKind.text = some text_property
map_kind TypeKind.enum = some enum_property
map_kind TypeKind.struct = some struct_property
map_kind TypeKind.object_ptr = some object_property
map_kind TypeKind.weak_ptr = some weak_object_property
map_kind TypeKind.lazy_ptr = some lazy_object_property
map_kind TypeKind.soft_ptr = some soft_object_property
map_kind TypeKind.soft_class_ptr = some soft_object_property
map_kind TypeKind.class_ptr = some object_property
map_kind TypeKind.interface = some interface_property
map_kind TypeKind.array = some array_property
map_kind TypeKind.set = some set_property
map_kind TypeKind.map = some map_property
map_kind TypeKind.delegate = some delegate_property
map_kind TypeKind.multicast_delegate = some multicast_delegate_property
map_kind TypeKind.field_path = some field_path_property
map_kind TypeKind.optional = some optional_property
map_kind TypeKind.unknown = none

-- The tests of MapRaw, in their order.
abbrev pub k_raw_types : List (Bytes × PropertyType)
k_raw_types =
    (codes "BoolProperty", bool_property)
    ∷ (codes "ByteProperty", byte_property)
    ∷ (codes "Int8Property", int8_property)
    ∷ (codes "Int16Property", int16_property)
    ∷ (codes "IntProperty", int_property)
    ∷ (codes "Int64Property", int64_property)
    ∷ (codes "UInt16Property", uint16_property)
    ∷ (codes "UInt32Property", uint32_property)
    ∷ (codes "UInt64Property", uint64_property)
    ∷ (codes "FloatProperty", float_property)
    ∷ (codes "DoubleProperty", double_property)
    ∷ (codes "NameProperty", name_property)
    ∷ (codes "StrProperty", str_property)
    ∷ (codes "TextProperty", text_property)
    ∷ (codes "EnumProperty", enum_property)
    ∷ (codes "StructProperty", struct_property)
    ∷ (codes "ObjectProperty", object_property)
    ∷ (codes "ObjectPtrProperty", object_property)
    ∷ (codes "ClassProperty", object_property)
    ∷ (codes "ClassPtrProperty", object_property)
    ∷ (codes "WeakObjectProperty", weak_object_property)
    ∷ (codes "LazyObjectProperty", lazy_object_property)
    ∷ (codes "SoftObjectProperty", soft_object_property)
    ∷ (codes "SoftClassProperty", soft_object_property)
    ∷ (codes "AssetObjectProperty", asset_object_property)
    ∷ (codes "InterfaceProperty", interface_property)
    ∷ (codes "ArrayProperty", array_property)
    ∷ (codes "SetProperty", set_property)
    ∷ (codes "MapProperty", map_property)
    ∷ (codes "DelegateProperty", delegate_property)
    ∷ (codes "MulticastDelegateProperty", multicast_delegate_property)
    ∷ (codes "MulticastInlineDelegateProperty", multicast_delegate_property)
    ∷ (codes "MulticastSparseDelegateProperty", multicast_delegate_property)
    ∷ (codes "FieldPathProperty", field_path_property)
    ∷ (codes "OptionalProperty", optional_property)
    ∷ (codes "Utf8StrProperty", utf8_str_property)
    ∷ (codes "AnsiStrProperty", ansi_str_property)
    ∷ []

unfoldable pub map_raw : Bytes → Option PropertyType
map_raw raw = lookup k_raw_types raw

-- The type that WriteType chooses.
unfoldable pub or_raw : Option PropertyType → Bytes → Option PropertyType
or_raw (some mapped) raw = some mapped
or_raw none raw = map_raw raw

unfoldable pub mapped_type : TypeKind → Bytes → Option PropertyType
mapped_type kind raw = or_raw (map_kind kind) raw

-- ByteWriter, by the bytes that it appends.
unfoldable pub u16 : ℕ → Bytes
u16 v = (v % 2 ^ 8) ∷ (v / 2 ^ 8 % 2 ^ 8) ∷ []

unfoldable pub u32 : ℕ → Bytes
u32 v = u16 (v % 2 ^ 16) ++ u16 (v / 2 ^ 16 % 2 ^ 16)

abbrev pub k_no_name : ℕ
k_no_name = 2 ^ 32 - 1

abbrev pub k_max_name_length : ℕ
k_max_name_length = 255

abbrev pub k_max_type_depth : ℕ
k_max_type_depth = 16

-- The warnings, by what their texts hold.
pub data Warning : Type 0 where
  name_truncated : Bytes → Warning
  too_nested : Warning
  element_unresolved : Bytes → Warning
  key_unresolved : Bytes → Warning
  value_unresolved : Bytes → Warning
  unrecognised : Bytes → Warning
  nameless_enum : Bytes → Warning
  nameless_struct : Bytes → Warning
  duplicate : Bytes → Bytes → Warning
  many_values : Bytes → ℕ → Warning
  many_slots : Bytes → ℕ → Warning
  wide_array : Bytes → Bytes → ℕ → Warning

-- A writer, with the name table (`names_` and `index_`) and the warnings that all of them share.
pub record Emit : Type 0 where
  pub out : Bytes
  pub names : List Bytes
  pub index : List (Bytes × ℕ)
  pub warnings : List Warning

abbrev pub write : Bytes → Emit → Emit
write bytes e = record e { out = e.out ++ bytes }

abbrev pub warn : Warning → Emit → Emit
warn w e = record e { warnings = e.warnings ++ w ∷ [] }

-- Add from the truncated name on, which is not empty.
unfoldable pub intern : Bytes → Emit → Option ℕ → ℕ × Emit
intern key e (some id) = (id, e)
intern key e none = (
  length e.names % 2 ^ 32,
  record e { names = e.names ++ key ∷ []; index = (key, length e.names % 2 ^ 32) ∷ e.index },
)

unfoldable pub add_name : Bytes → Emit → ℕ × Emit
add_name [] e = (k_no_name, e)
add_name (c ∷ cs) e =
    if ltb k_max_name_length (length (c ∷ cs))
    then intern (take k_max_name_length (c ∷ cs)) (warn (name_truncated (c ∷ cs)) e)
        (lookup e.index (take k_max_name_length (c ∷ cs)))
    else intern (c ∷ cs) e (lookup e.index (c ∷ cs))

-- `writer.U32(names.Add(name))`.
unfoldable pub write_name : Bytes → Emit → Emit
write_name name e = let (id, e') = add_name name e in write (u32 id) e'

unfoldable pub type_leaf : Bytes → Bytes
type_leaf [] = []
type_leaf (c ∷ cs) = leaf_name (c ∷ cs)

-- WriteOpaque.
unfoldable pub write_opaque : Warning → Emit → Emit
write_opaque reason e = write (type_byte byte_property ∷ []) (warn reason e)

-- WriteInner, by what writes the parameter, if it is there.
unfoldable pub write_inner : Option (Emit → Emit) → Warning → Emit → Emit
write_inner none reason e = write_opaque reason e
write_inner (some inner) reason e = inner e

-- The storage of an enum.
unfoldable pub write_storage : Option (Emit → Emit) → Emit → Emit
write_storage none e = write (type_byte byte_property ∷ []) e
write_storage (some inner) e = inner e

-- The switch of WriteType, by what writes the first two parameters.
unfoldable pub write_payload :
    PropertyType → Option (Emit → Emit) → Option (Emit → Emit) → Bytes → Bytes → Emit → Emit
write_payload enum_property first second name raw e =
    write_name (type_leaf name) (write_storage first e)
write_payload struct_property first second name raw e = write_name (type_leaf name) e
write_payload array_property first second name raw e = write_inner first (element_unresolved raw) e
write_payload set_property first second name raw e = write_inner first (element_unresolved raw) e
write_payload optional_property first second name raw e =
    write_inner first (element_unresolved raw) e
write_payload map_property first second name raw e =
    write_inner second (value_unresolved raw) (write_inner first (key_unresolved raw) e)
write_payload _ first second name raw e = e

unfoldable pub write_mapped :
    Option PropertyType → Option (Emit → Emit) → Option (Emit → Emit) → Bytes → Bytes → Emit → Emit
write_mapped none first second name raw e = write_opaque (unrecognised raw) e
write_mapped (some mapped) first second name raw e =
    write_payload mapped first second name raw (write (type_byte mapped ∷ []) e)

-- WriteType, and what writes the first and the second parameter.
unfoldable mutual
  pub write_type : TypeRef → ℕ → Emit → Emit
  write_type (type_ref kind name raw params size) depth e =
      if ltb k_max_type_depth depth
      then write_opaque too_nested e
      else write_mapped (mapped_type kind raw) (first_param params (depth + 1))
          (second_param params (depth + 1)) name raw e

  pub first_param : TypeRefs → ℕ → Option (Emit → Emit)
  first_param no_params depth = none
  first_param (param t ts) depth = some (write_type t depth)

  pub second_param : TypeRefs → ℕ → Option (Emit → Emit)
  second_param no_params depth = none
  second_param (param t ts) depth = first_param ts depth
