-- ===== src/Ir/Kinds.antt =====
-- TypeKind with its text form, of src/ir/include/ir/Model.h and src/ir/src/Model.cpp.
use zircon_dumper.Prelude.{
  ◌≡◌, refl, Option, some, List, [], ◌∷◌, Bool-cases, inl, inr, ap, ◌∙◌, sym, arith,
}
use zircon_dumper.Prelude.Preds.{Bytes, All}
use zircon_dumper.Prelude.Text.{codes, same_bytes, same_bytes-true, lookup}

pub data TypeKind : Type 0 where
  unknown : TypeKind
  bool : TypeKind
  int8 : TypeKind
  int16 : TypeKind
  int32 : TypeKind
  int64 : TypeKind
  uint8 : TypeKind
  uint16 : TypeKind
  uint32 : TypeKind
  uint64 : TypeKind
  float : TypeKind
  double : TypeKind
  name : TypeKind
  string : TypeKind
  text : TypeKind
  enum : TypeKind
  struct : TypeKind
  object_ptr : TypeKind
  weak_ptr : TypeKind
  lazy_ptr : TypeKind
  soft_ptr : TypeKind
  soft_class_ptr : TypeKind
  class_ptr : TypeKind
  interface : TypeKind
  array : TypeKind
  set : TypeKind
  map : TypeKind
  delegate : TypeKind
  multicast_delegate : TypeKind
  field_path : TypeKind
  optional : TypeKind

-- ToString.
unfoldable pub kind_text : TypeKind → Bytes
kind_text unknown = codes "unknown"
kind_text bool = codes "bool"
kind_text int8 = codes "int8"
kind_text int16 = codes "int16"
kind_text int32 = codes "int32"
kind_text int64 = codes "int64"
kind_text uint8 = codes "uint8"
kind_text uint16 = codes "uint16"
kind_text uint32 = codes "uint32"
kind_text uint64 = codes "uint64"
kind_text float = codes "float"
kind_text double = codes "double"
kind_text name = codes "name"
kind_text string = codes "string"
kind_text text = codes "text"
kind_text enum = codes "enum"
kind_text struct = codes "struct"
kind_text object_ptr = codes "objectptr"
kind_text weak_ptr = codes "weakptr"
kind_text lazy_ptr = codes "lazyptr"
kind_text soft_ptr = codes "softptr"
kind_text soft_class_ptr = codes "softclassptr"
kind_text class_ptr = codes "classptr"
kind_text interface = codes "interface"
kind_text array = codes "array"
kind_text set = codes "set"
kind_text map = codes "map"
kind_text delegate = codes "delegate"
kind_text multicast_delegate = codes "multicast_delegate"
kind_text field_path = codes "fieldpath"
kind_text optional = codes "optional"

abbrev pub k_kind_names : List (Bytes × TypeKind)
k_kind_names =
    (codes "unknown", unknown)
    ∷ (codes "bool", bool)
    ∷ (codes "int8", int8)
    ∷ (codes "int16", int16)
    ∷ (codes "int32", int32)
    ∷ (codes "int64", int64)
    ∷ (codes "uint8", uint8)
    ∷ (codes "uint16", uint16)
    ∷ (codes "uint32", uint32)
    ∷ (codes "uint64", uint64)
    ∷ (codes "float", float)
    ∷ (codes "double", double)
    ∷ (codes "name", name)
    ∷ (codes "string", string)
    ∷ (codes "text", text)
    ∷ (codes "enum", enum)
    ∷ (codes "struct", struct)
    ∷ (codes "objectptr", object_ptr)
    ∷ (codes "weakptr", weak_ptr)
    ∷ (codes "lazyptr", lazy_ptr)
    ∷ (codes "softptr", soft_ptr)
    ∷ (codes "softclassptr", soft_class_ptr)
    ∷ (codes "classptr", class_ptr)
    ∷ (codes "interface", interface)
    ∷ (codes "array", array)
    ∷ (codes "set", set)
    ∷ (codes "map", map)
    ∷ (codes "delegate", delegate)
    ∷ (codes "multicast_delegate", multicast_delegate)
    ∷ (codes "fieldpath", field_path)
    ∷ (codes "optional", optional)
    ∷ []

unfoldable pub type_kind_from_string : Bytes → Option TypeKind
type_kind_from_string t = lookup k_kind_names t

from_string-kind_text : (k : TypeKind) → type_kind_from_string (kind_text k) ≡ some k
unfolding type_kind_from_string kind_text lookup same_bytes
from_string-kind_text unknown = refl
from_string-kind_text bool = refl
from_string-kind_text int8 = refl
from_string-kind_text int16 = refl
from_string-kind_text int32 = refl
from_string-kind_text int64 = refl
from_string-kind_text uint8 = refl
from_string-kind_text uint16 = refl
from_string-kind_text uint32 = refl
from_string-kind_text uint64 = refl
from_string-kind_text float = refl
from_string-kind_text double = refl
from_string-kind_text name = refl
from_string-kind_text string = refl
from_string-kind_text text = refl
from_string-kind_text enum = refl
from_string-kind_text struct = refl
from_string-kind_text object_ptr = refl
from_string-kind_text weak_ptr = refl
from_string-kind_text lazy_ptr = refl
from_string-kind_text soft_ptr = refl
from_string-kind_text soft_class_ptr = refl
from_string-kind_text class_ptr = refl
from_string-kind_text interface = refl
from_string-kind_text array = refl
from_string-kind_text set = refl
from_string-kind_text map = refl
from_string-kind_text delegate = refl
from_string-kind_text multicast_delegate = refl
from_string-kind_text field_path = refl
from_string-kind_text optional = refl

-- An entry whose key is the text of its value.
abbrev IsNamed : Bytes × TypeKind → Type 0
IsNamed (key, k) = kind_text k ≡ key

lookup-IsNamed :
    (dict : List (Bytes × TypeKind)) (key : Bytes) (k : TypeKind)
    → All IsNamed dict
    → lookup dict key ≡ some k
    → kind_text k ≡ key
unfolding lookup
lookup-IsNamed [] key k named e = absurd (ground (arith, e))
lookup-IsNamed ((key', k') ∷ dict) key k (first, rest) e = elim (Bool-cases (same_bytes key' key)) [
  | inl same ↦
      let found : Path (Option TypeKind) (some k') (some k) = rw same at e in
      let eq : k' ≡ k = ground (arith, found) in
      ap kind_text (sym eq) ∙ (first ∙ same_bytes-true key' key same)
  | inr other ↦ lookup-IsNamed dict key k rest (rw other at e)
]

k_kind_names-IsNamed : All IsNamed k_kind_names
unfolding kind_text
k_kind_names-IsNamed = (
  refl,
  (
    refl,
    (
      refl,
      (
        refl,
        (
          refl,
          (
            refl,
            (
              refl,
              (
                refl,
                (
                  refl,
                  (
                    refl,
                    (
                      refl,
                      (
                        refl,
                        (
                          refl,
                          (
                            refl,
                            (
                              refl,
                              (
                                refl,
                                (
                                  refl,
                                  (
                                    refl,
                                    (
                                      refl,
                                      (
                                        refl,
                                        (
                                          refl,
                                          (
                                            refl,
                                            (
                                              refl,
                                              (
                                                refl,
                                                (
                                                  refl,
                                                  (
                                                    refl,
                                                    (refl, (refl, (refl, (refl, (refl, tt))))),
                                                  ),
                                                ),
                                              ),
                                            ),
                                          ),
                                        ),
                                      ),
                                    ),
                                  ),
                                ),
                              ),
                            ),
                          ),
                        ),
                      ),
                    ),
                  ),
                ),
              ),
            ),
          ),
        ),
      ),
    ),
  ),
)

-- TypeKindFromString reads back what ToString writes for a kind, for every kind, and it accepts no
-- other text.
pub from_string_iff :
    (k : TypeKind) (t : Bytes)
    → (type_kind_from_string (kind_text k) ≡ some k)
      × (type_kind_from_string t ≡ some k → kind_text k ≡ t)
unfolding type_kind_from_string
from_string_iff k t =
    (from_string-kind_text k, lookup-IsNamed k_kind_names t k k_kind_names-IsNamed)
