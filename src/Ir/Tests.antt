-- ===== src/Ir/Tests.antt =====
-- Concrete runs of the names of the kinds in src/ir/src/Model.cpp.
use zircon_dumper.Prelude.{◌≡◌, some}
use zircon_dumper.Prelude.Text.{codes}
use zircon_dumper.Ir.Kinds.{TypeKind, kind_text, type_kind_from_string, from_string_iff}

from_string_iff_example :
    (type_kind_from_string (kind_text TypeKind.map) ≡ some TypeKind.map)
    × (type_kind_from_string (codes "map") ≡ some TypeKind.map
        → kind_text TypeKind.map ≡ codes "map")
from_string_iff_example = from_string_iff TypeKind.map (codes "map")
