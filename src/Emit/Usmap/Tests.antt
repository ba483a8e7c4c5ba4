-- ===== src/Emit/Usmap/Tests.antt =====
-- A concrete run of src/emit/src/Usmap.cpp.
use zircon_dumper.Prelude.{
  ◌≡◌, true, false, not, ◌&&◌, none, some, [], ◌∷◌, if◌then◌else◌, arith, Option,
}
use zircon_dumper.Prelude.Int.{pos, negsuc}
use zircon_dumper.Prelude.Preds.{Bytes}
use zircon_dumper.Prelude.Text.{codes, starts_at, same_bytes, lookup}
use zircon_dumper.Ir.{TypeRef, type_ref, no_params, param, Property, Dump}
use zircon_dumper.Ir.Kinds.{TypeKind}
use zircon_dumper.Emit.Util.{member}
use zircon_dumper.Emit.Usmap.{
  u16, u32, type_byte, map_kind, or_raw, mapped_type, intern, add_name, write_name, write_payload,
  write_mapped, write_inner, write_type,
}
use zircon_dumper.Emit.Usmap.File.{
  leaf_of, note_collision, write_values, enum_entry, named_enum, emit_enums, dim_of, slots_of,
  property_entry, write_properties, write_super, struct_entry, named_struct, emit_structs,
  package_included, included, all_enums, all_structs, enum_section, struct_section, name_bytes,
  body_bytes, EmitOptions, usmap_path, usmap_bytes, emit_usmap,
}
use zircon_dumper.Emit.Usmap.Whole.{Fits, no_file, due, seen_file, emit_usmap-seen}
use zircon_dumper.Emit.Usmap.Trip.{all_enum_views, all_struct_views}

-- An array of numbers of 32 bits.
abbrev numbers : TypeRef
numbers =
    type_ref TypeKind.array [] (codes "ArrayProperty")
      (param (type_ref TypeKind.int32 [] (codes "IntProperty") no_params (pos 4)) no_params)
      (pos 16)

abbrev health : Property
health = record {
  name = codes "H";
  type = numbers;
  offset = pos 8;
  size = pos 16;
  array_dim = pos 1;
  flags = 0;
  is_static = false;
  offset_unresolved = false;
  is_bitfield = false;
  byte_mask = 0;
  field_mask = 0;
  bit_index = negsuc 0;
  default_value = [];
}

abbrev small : Dump
small = record {
  header = record {
    partial = false;
    process = codes "g.exe";
    main_module = [];
    version = [];
    offsets = [];
  };
  packages =
      record {
        name = codes "P";
        classes =
            record {
              name = codes "A";
              path = codes "P.A";
              super = [];
              is_class = true;
              size = pos 24;
              alignment = pos 8;
              cpp_prefix = 0;
              properties = health ∷ [];
              functions = [];
            }
            ∷ [];
        structs = [];
        enums =
            record {
              name = codes "E";
              path = codes "P.E";
              values = record { name = codes "A"; value = pos 0 } ∷ [];
            }
            ∷ [];
      }
      ∷ [];
}

abbrev plain_options : EmitOptions
plain_options = record { out_dir = codes "out"; package_filter = []; allow_partial = false }

small-Fits : Fits (included plain_options.package_filter small.packages)
unfolding included package_included enum_section struct_section all_enums all_structs emit_enums
    named_enum note_collision member enum_entry write_values emit_structs named_struct struct_entry
    write_super write_properties property_entry dim_of slots_of leaf_of write_type write_mapped
    write_payload write_inner mapped_type or_raw map_kind type_byte write_name add_name intern
    lookup same_bytes u16 u32 name_bytes body_bytes
small-Fits = record {
  names_fit = omega arith;
  enums_fit = omega arith;
  structs_fit = omega arith;
  body_fits = omega arith;
}

-- A file system that writes the files of one directory.
abbrev out_only : Bytes → Bytes → Option Bytes
out_only path bytes = if starts_at (codes "out/") path then none else some (codes "no directory")

emit_usmap-seen_example : seen_file (emit_usmap out_only small plain_options) ≡ (
    if small.header.partial && not plain_options.allow_partial
    then no_file
    else due
        (
          all_enum_views (included plain_options.package_filter small.packages),
          all_struct_views (included plain_options.package_filter small.packages),
        )
        (out_only
          (usmap_path small.header plain_options)
          (usmap_bytes (included plain_options.package_filter small.packages))))
emit_usmap-seen_example = emit_usmap-seen out_only small plain_options small-Fits
