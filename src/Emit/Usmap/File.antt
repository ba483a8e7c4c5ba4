-- ===== src/Emit/Usmap/File.antt =====
-- EmitUsmap of src/emit/src/Usmap.cpp, up to the call that writes the file.
use zircon_dumper.Prelude.{
  ℕ, ◌+◌, ◌%◌, max, min, Bool, not, ◌&&◌, ◌||◌, Option, none, some, List, [], ◌∷◌, ◌++◌, ltb, ◌==◌,
  if◌then◌else◌, take, length, map,
}
use zircon_dumper.Prelude.Int.{ℤ, pos, negsuc}
use zircon_dumper.Prelude.Preds.{Bytes}
use zircon_dumper.Prelude.Text.{codes, contains_text}
use zircon_dumper.Ir.{EnumValue, Enum, Property, Struct, Package, Header, Dump}
use zircon_dumper.Emit.Util.{member, is_letter, is_number, last_of}
use zircon_dumper.Emit.Usmap.{
  u16, u32, k_no_name, Warning, nameless_enum, nameless_struct, duplicate, many_values, many_slots,
  wide_array, Emit, write, warn, write_name, type_leaf, write_type,
}

-- A body with the name table, the names of types that were seen, and the number of entries.
pub record Section : Type 0 where
  pub emit : Emit
  pub seen : List Bytes
  pub count : ℕ

-- The leaf of a record.
unfoldable pub leaf_of : Bytes → Bytes → Bytes
leaf_of [] path = type_leaf path
leaf_of (c ∷ cs) path = c ∷ cs

-- note_collision.
unfoldable pub note_collision : Bytes → Bytes → Section → Section
note_collision leaf path s =
    if member s.seen leaf
    then record s { emit = warn (duplicate leaf path) s.emit }
    else record s { seen = leaf ∷ s.seen }

unfoldable pub write_values : List EnumValue → Emit → Emit
write_values [] e = e
write_values (v ∷ values) e = write_values values (write_name v.name e)

-- The entry of an enum with a leaf, from its warnings on.
unfoldable pub enum_entry : Bytes → List EnumValue → Emit → Emit
enum_entry leaf values e =
    let e' = if ltb 255 (length values) then warn (many_values leaf (length values)) e else e in
    write_values (take (min (length values) 255) values)
      (write (min (length values) 255 ∷ []) (write_name leaf e'))

unfoldable pub named_enum : Bytes → Bytes → Enum → Section → Section
named_enum package_name [] r s = record s { emit = warn (nameless_enum package_name) s.emit }
named_enum package_name (c ∷ cs) r s =
    let s' = note_collision (c ∷ cs) r.path s in
    record s' { emit = enum_entry (c ∷ cs) r.values s'.emit; count = s'.count + 1 }

unfoldable pub emit_enums : Bytes → List Enum → Section → Section
emit_enums package_name [] s = s
emit_enums package_name (r ∷ enums) s =
    emit_enums package_name enums (named_enum package_name (leaf_of r.name r.path) r s)

-- `std::max(array_dim, 1)`.
unfoldable pub dim_of : ℤ → ℕ
dim_of (pos n) = max n 1
dim_of (negsuc n) = 1

unfoldable pub slots_of : List Property → ℕ
slots_of [] = 0
slots_of (p ∷ properties) = dim_of p.array_dim + slots_of properties

-- A property and those that follow it, from a schema index on.
unfoldable pub property_entry : Bytes → ℕ → Property → Emit → Emit
property_entry leaf schema_index p e =
    let dim = dim_of p.array_dim in
    let e' = if ltb 255 dim then warn (wide_array leaf p.name dim) e else e in
    write_type p.type 0
      (write_name p.name (write (u16 (min schema_index 65535) ++ min dim 255 ∷ []) e'))

unfoldable pub write_properties : Bytes → ℕ → List Property → Emit → Emit
write_properties leaf schema_index [] e = e
write_properties leaf schema_index (p ∷ properties) e =
    write_properties leaf (schema_index + min (dim_of p.array_dim) 255) properties
      (property_entry leaf schema_index p e)

unfoldable pub write_super : Bytes → Emit → Emit
write_super [] e = write (u32 k_no_name) e
write_super (c ∷ cs) e = write_name (type_leaf (c ∷ cs)) e

-- The entry of a struct with a leaf, from its warnings on.
unfoldable pub struct_entry : Bytes → Struct → Emit → Emit
struct_entry leaf r e =
    let slots = slots_of r.properties in
    let entry_count = min (length r.properties) 65535 in
    let e' = if ltb 65535 slots then warn (many_slots leaf slots) e else e in
    write_properties leaf 0 (take entry_count r.properties)
      (write (u16 (min slots 65535) ++ u16 entry_count) (write_super r.super (write_name leaf e')))

unfoldable pub named_struct : Bytes → Bytes → Struct → Section → Section
named_struct package_name [] r s = record s { emit = warn (nameless_struct package_name) s.emit }
named_struct package_name (c ∷ cs) r s =
    let s' = note_collision (c ∷ cs) r.path s in
    record s' { emit = struct_entry (c ∷ cs) r s'.emit; count = s'.count + 1 }

unfoldable pub emit_structs : Bytes → List Struct → Section → Section
emit_structs package_name [] s = s
emit_structs package_name (r ∷ structs) s =
    emit_structs package_name structs (named_struct package_name (leaf_of r.name r.path) r s)

-- PackageIncluded, and the packages that the loops go through.
unfoldable pub package_included : Bytes → Package → Bool
package_included filter p = (length filter == 0) || contains_text filter p.name

unfoldable pub included : Bytes → List Package → List Package
included filter [] = []
included filter (p ∷ packages) =
    let rest = included filter packages in if package_included filter p then p ∷ rest else rest

-- The two passes over the packages.
unfoldable pub all_enums : List Package → Section → Section
all_enums [] s = s
all_enums (p ∷ packages) s = all_enums packages (emit_enums p.name p.enums s)

unfoldable pub all_structs : List Package → Section → Section
all_structs [] s = s
all_structs (p ∷ packages) s =
    all_structs packages (emit_structs p.name p.structs (emit_structs p.name p.classes s))

-- The section of the enums, and then that of the structs, which starts a body of its own.
unfoldable pub enum_section : List Package → Section
enum_section packages = all_enums packages (record {
  emit = record { out = []; names = []; index = []; warnings = [] };
  seen = [];
  count = 0;
})

unfoldable pub struct_section : List Package → Section
struct_section packages =
    let s = enum_section packages in
    all_structs packages (record s { emit = record (s.emit) { out = [] }; count = 0 })

unfoldable pub name_bytes : List Bytes → Bytes
name_bytes [] = []
name_bytes (n ∷ names) = (length n % 256) ∷ (n ++ name_bytes names)

unfoldable pub body_bytes : Section → Section → Bytes
body_bytes enums structs =
    u32 (length structs.emit.names)
    ++ (name_bytes structs.emit.names
        ++ (u32 enums.count ++ (enums.emit.out ++ (u32 structs.count ++ structs.emit.out))))

abbrev pub k_magic : ℕ
k_magic = 12484

unfoldable pub file_bytes : Bytes → Bytes
file_bytes body = u16 k_magic ++ (0 ∷ 0 ∷ (u32 (length body) ++ (u32 (length body) ++ body)))

-- FileStem, by the process and the main module of the source.
abbrev pub is_safe : ℕ → Bool
is_safe c = is_letter c || is_number c || (c == b'-') || (c == b'_') || (c == b'.')

unfoldable pub without_extension : Bytes → Option ℕ → Bytes
without_extension source none = source
without_extension source (some dot) = if dot == 0 then source else take dot source

unfoldable pub stem_of : Bytes → Bytes
stem_of [] = codes "mappings"
stem_of (c ∷ cs) =
    map (λ x. if is_safe x then x else b'_') (without_extension (c ∷ cs) (last_of b'.' (c ∷ cs)))

unfoldable pub file_stem : Header → Bytes
file_stem h = if length h.process == 0 then stem_of h.main_module else stem_of h.process

-- The ends of EmitUsmap: a dump that is partial, a file that WriteFile does not write, with its error,
-- and a file that it writes.
pub data Emitted : Type 0 where
  refused : Emitted
  not_written : Bytes → List Warning → Emitted
  file : Bytes → Bytes → List Warning → Emitted

unfoldable pub written_to : Bytes → Bytes → List Warning → Option Bytes → Emitted
written_to path bytes warnings none = file path bytes warnings
written_to path bytes warnings (some error) = not_written error warnings

pub record EmitOptions : Type 0 where
  pub out_dir : Bytes
  pub package_filter : Bytes
  pub allow_partial : Bool

unfoldable pub usmap_path : Header → EmitOptions → Bytes
usmap_path h options = options.out_dir ++ (b'/' ∷ (file_stem h ++ codes ".usmap"))

unfoldable pub usmap_bytes : List Package → Bytes
usmap_bytes packages = file_bytes (body_bytes (enum_section packages) (struct_section packages))

-- EmitUsmap over WriteFile, which gives an error or none for a path and the contents.
unfoldable pub emit_usmap : (Bytes → Bytes → Option Bytes) → Dump → EmitOptions → Emitted
emit_usmap write_file dump options =
    if dump.header.partial && not options.allow_partial
    then refused
    else let packages = included options.package_filter dump.packages in
      let path = usmap_path dump.header options in
      let bytes = usmap_bytes packages in
      written_to path bytes (struct_section packages).emit.warnings (write_file path bytes)
