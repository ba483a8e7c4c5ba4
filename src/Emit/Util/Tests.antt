-- ===== src/Emit/Util/Tests.antt =====
-- Concrete runs of src/emit/src/Util.cpp.
use zircon_dumper.Prelude.{ℕ, ◌≡◌, ◌==◌, if◌then◌else◌, true, false, some, [], ◌∷◌}
use zircon_dumper.Prelude.Int.{pos}
use zircon_dumper.Prelude.Preds.{Bytes}
use zircon_dumper.Prelude.Text.{codes}
use zircon_dumper.Ir.{Struct, Dump}
use zircon_dumper.Emit.Util.{sanitize_identifier, no_cache, cpp_prefix_for}
use zircon_dumper.Emit.Util.Identifiers.{IsIdentifier, sanitize_identifier-IsIdentifier}
use zircon_dumper.Emit.Util.Prefixes.{after_calls, cpp_prefix_for-some}

sanitize_identifier-IsIdentifier_example : IsIdentifier (sanitize_identifier (codes "3D Light?"))
sanitize_identifier-IsIdentifier_example = sanitize_identifier-IsIdentifier (codes "3D Light?")

-- A class with a super class.
abbrev class_of : Bytes → Bytes → Bytes → Struct
class_of name path super = record {
  name = name;
  path = path;
  super = super;
  is_class = true;
  size = pos 8;
  alignment = pos 8;
  cpp_prefix = 0;
  properties = [];
  functions = [];
}

-- Two classes, each the super class of the other.
abbrev around : Dump
around = record {
  header = record { partial = false; process = []; main_module = []; version = []; offsets = [] };
  packages =
      record {
        name = codes "P";
        classes =
            class_of (codes "A") (codes "P.A") (codes "P.B")
            ∷ class_of (codes "B") (codes "P.B") (codes "P.A")
            ∷ [];
        structs = [];
        enums = [];
      }
      ∷ [];
}

-- The dump at the address 1 and dumps with no package elsewhere.
unfoldable dumps_example : ℕ → Dump
dumps_example a = if a == 1 then around else record { header = around.header; packages = [] }

cpp_prefix_for-some_example :
    (c : ℕ) × ((cpp_prefix_for
        (after_calls dumps_example
          ((1, class_of (codes "B") (codes "P.B") (codes "P.A")) ∷ [])
          no_cache)
        1
        (dumps_example 1)
        (class_of (codes "A") (codes "P.A") (codes "P.B"))).1
      ≡ some c)
    × ((cpp_prefix_for no_cache 1
          (dumps_example 1)
          (class_of (codes "A") (codes "P.A") (codes "P.B"))).1
        ≡ some c)
cpp_prefix_for-some_example =
    cpp_prefix_for-some dumps_example ((1, class_of (codes "B") (codes "P.B") (codes "P.A")) ∷ []) 1
      (class_of (codes "A") (codes "P.A") (codes "P.B"))
