-- ===== src/Diff/Tests.antt =====
-- Concrete runs of src/diff/src/Diff.cpp.
use zircon_dumper.Prelude.{ℕ, ◌≡◌, refl, true, false, List, [], ◌∷◌, map, length}
use zircon_dumper.Prelude.Int.{pos, negsuc}
use zircon_dumper.Prelude.Text.{codes, same_bytes}
use zircon_dumper.Ir.{TypeRef, type_ref, no_params, Property, Enum, Dump}
use zircon_dumper.Ir.Kinds.{TypeKind}
use zircon_dumper.Diff.{info, DiffOptions, has_breaking_changes}
use zircon_dumper.Diff.Clean.{diff_self}
use zircon_dumper.Diff.Order.{IsReport, opens_breaking, diff-IsReport}
use zircon_dumper.Diff.Functions.{diff_enum}
use zircon_dumper.Diff.Tally.{IsTallied, diff-IsTallied, any_breaking, has_breaking_changes-diff}
use zircon_dumper.Diff.Whole.{no_changes, diff}

abbrev light_type : TypeKind → ℕ → TypeRef
light_type kind size = type_ref kind [] [] no_params (pos size)

abbrev light : TypeKind → ℕ → ℕ → Property
light kind offset size = record {
  name = codes "Light";
  type = light_type kind size;
  offset = pos offset;
  size = pos size;
  array_dim = pos 1;
  flags = 0;
  is_static = false;
  offset_unresolved = false;
  is_bitfield = false;
  byte_mask = 0;
  field_mask = 0;
  bit_index = negsuc 0;
  default_value = [];
}

abbrev lamp : List Property → Dump
lamp properties = record {
  header = record {
    partial = false;
    process = [];
    main_module = [];
    version = codes "5.6";
    offsets = record { name = codes "UObject.Class"; value = pos 16 } ∷ [];
  };
  packages =
      record {
        name = codes "P";
        classes =
            record {
              name = codes "Lamp";
              path = codes "P.Lamp";
              super = [];
              is_class = true;
              size = pos 24;
              alignment = pos 8;
              cpp_prefix = 0;
              properties = properties;
              functions =
                  record { name = codes "F"; flags = 1; params = []; native_rva = 4096 } ∷ [];
            }
            ∷ [];
        structs = [];
        enums =
            record {
              name = codes "E";
              path = codes "P.E";
              values =
                  record { name = codes "A"; value = pos 0 }
                  ∷ record { name = codes "B"; value = pos 1 }
                  ∷ [];
            }
            ∷ [];
      }
      ∷ [];
}

-- Two properties of one name.
abbrev two_lights : Dump
two_lights = lamp (light TypeKind.int32 8 4 ∷ light TypeKind.float 16 4 ∷ [])

abbrev one_light : Dump
one_light = lamp (light TypeKind.int32 12 4 ∷ [])

abbrev all_changes : DiffOptions
all_changes = record {
  package_filter = [];
  include_additions = true;
  minimum = info;
  detect_renames = true;
}

diff_self_example :
    ((diff two_lights two_lights all_changes).report ≡ no_changes)
    × (((diff two_lights two_lights all_changes).stats.types_compared
          ≡ (diff two_lights two_lights all_changes).stats.types_before)
        × ((diff two_lights two_lights all_changes).stats.types_unchanged
            ≡ (diff two_lights two_lights all_changes).stats.types_before))
unfolding same_bytes
diff_self_example = diff_self all_changes two_lights (tt, tt) ((((refl, tt), (tt, tt)), tt), tt)

diff-IsTallied_example : IsTallied all_changes (diff two_lights one_light all_changes).report
diff-IsTallied_example = diff-IsTallied two_lights one_light all_changes

has_breaking_changes-diff_example :
    has_breaking_changes (diff two_lights one_light all_changes).report
    ≡ any_breaking (diff two_lights one_light all_changes).report.changes
has_breaking_changes-diff_example = has_breaking_changes-diff two_lights one_light all_changes

diff-IsReport_example :
    IsReport (diff two_lights one_light all_changes).report.changes
    × (has_breaking_changes (diff two_lights one_light all_changes).report
        ≡ opens_breaking (diff two_lights one_light all_changes).report.changes)
diff-IsReport_example = diff-IsReport two_lights one_light all_changes

-- An enum with two values of one name and the enum itself: the first of the values is reported.
abbrev twice : Enum
twice = record {
  name = codes "E";
  path = codes "P.E";
  values =
      record { name = codes "A"; value = pos 0 } ∷ record { name = codes "A"; value = pos 1 } ∷ [];
}

abbrev reported_values : List ℕ
reported_values = map (λ c. length c.before) (diff_enum all_changes twice twice no_changes).changes
