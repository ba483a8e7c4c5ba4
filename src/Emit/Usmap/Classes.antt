-- ===== src/Emit/Usmap/Classes.antt =====
-- The types of the format that src/emit/src/Usmap.cpp writes, by the engine's names of the classes of
-- properties, and what MapKind and MapRaw make of them.
use zircon_dumper.Prelude.{
  ℕ, ◌≡◌, refl, ap, subst, Bool, true, false, ◌||◌, Option, none, some, List, [], ◌∷◌, ◌==◌,
  if◌then◌else◌, arith, Bool-cases, Option-cases, inl, inr,
}
use zircon_dumper.Prelude.Preds.{Bytes, All}
use zircon_dumper.Prelude.Text.{codes, same_bytes, same_bytes-true, lookup}
use zircon_dumper.Ir.Kinds.{TypeKind}
use zircon_dumper.Emit.Usmap.{
  PropertyType, type_byte, map_kind, k_raw_types, map_raw, or_raw, mapped_type,
}
use zircon_dumper.Emit.Usmap.Read.{Shape, plain, enum_of, struct_of, inner_of, map_of}

-- The codes of the classes in the file. The file has no codes for a pointer to a class, for a soft
-- one, for the pointer classes of later engines and for two kinds of multicast delegates, which are
-- stored as an object, as a soft object and as a multicast delegate.
abbrev k_class_codes : List (Bytes × ℕ)
k_class_codes =
    (codes "ByteProperty", 0)
    ∷ (codes "BoolProperty", 1)
    ∷ (codes "IntProperty", 2)
    ∷ (codes "FloatProperty", 3)
    ∷ (codes "ObjectProperty", 4)
    ∷ (codes "NameProperty", 5)
    ∷ (codes "DelegateProperty", 6)
    ∷ (codes "DoubleProperty", 7)
    ∷ (codes "ArrayProperty", 8)
    ∷ (codes "StructProperty", 9)
    ∷ (codes "StrProperty", 10)
    ∷ (codes "TextProperty", 11)
    ∷ (codes "InterfaceProperty", 12)
    ∷ (codes "MulticastDelegateProperty", 13)
    ∷ (codes "WeakObjectProperty", 14)
    ∷ (codes "LazyObjectProperty", 15)
    ∷ (codes "AssetObjectProperty", 16)
    ∷ (codes "SoftObjectProperty", 17)
    ∷ (codes "UInt64Property", 18)
    ∷ (codes "UInt32Property", 19)
    ∷ (codes "UInt16Property", 20)
    ∷ (codes "Int64Property", 21)
    ∷ (codes "Int16Property", 22)
    ∷ (codes "Int8Property", 23)
    ∷ (codes "MapProperty", 24)
    ∷ (codes "SetProperty", 25)
    ∷ (codes "EnumProperty", 26)
    ∷ (codes "FieldPathProperty", 27)
    ∷ (codes "OptionalProperty", 28)
    ∷ (codes "Utf8StrProperty", 29)
    ∷ (codes "AnsiStrProperty", 30)
    ∷ (codes "ObjectPtrProperty", 4)
    ∷ (codes "ClassProperty", 4)
    ∷ (codes "ClassPtrProperty", 4)
    ∷ (codes "MulticastInlineDelegateProperty", 13)
    ∷ (codes "MulticastSparseDelegateProperty", 13)
    ∷ (codes "SoftClassProperty", 17)
    ∷ []

-- The class of the properties of a kind; that of an unknown one is the raw name that was kept.
unfoldable pub class_of : TypeKind → Bytes → Bytes
class_of TypeKind.bool raw = codes "BoolProperty"
class_of TypeKind.int8 raw = codes "Int8Property"
class_of TypeKind.int16 raw = codes "Int16Property"
class_of TypeKind.int32 raw = codes "IntProperty"
class_of TypeKind.int64 raw = codes "Int64Property"
class_of TypeKind.uint8 raw = codes "ByteProperty"
class_of TypeKind.uint16 raw = codes "UInt16Property"
class_of TypeKind.uint32 raw = codes "UInt32Property"
class_of TypeKind.uint64 raw = codes "UInt64Property"
class_of TypeKind.float raw = codes "FloatProperty"
class_of TypeKind.double raw = codes "DoubleProperty"
class_of TypeKind.name raw = codes "NameProperty"
class_of TypeKind.string raw = codes "StrProperty"
class_of TypeKind.text raw = codes "TextProperty"
class_of TypeKind.enum raw = codes "EnumProperty"
class_of TypeKind.struct raw = codes "StructProperty"
class_of TypeKind.object_ptr raw = codes "ObjectProperty"
class_of TypeKind.weak_ptr raw = codes "WeakObjectProperty"
class_of TypeKind.lazy_ptr raw = codes "LazyObjectProperty"
class_of TypeKind.soft_ptr raw = codes "SoftObjectProperty"
class_of TypeKind.soft_class_ptr raw = codes "SoftClassProperty"
class_of TypeKind.class_ptr raw = codes "ClassProperty"
class_of TypeKind.interface raw = codes "InterfaceProperty"
class_of TypeKind.array raw = codes "ArrayProperty"
class_of TypeKind.set raw = codes "SetProperty"
class_of TypeKind.map raw = codes "MapProperty"
class_of TypeKind.delegate raw = codes "DelegateProperty"
class_of TypeKind.multicast_delegate raw = codes "MulticastDelegateProperty"
class_of TypeKind.field_path raw = codes "FieldPathProperty"
class_of TypeKind.optional raw = codes "OptionalProperty"
class_of TypeKind.unknown raw = raw

-- The code of a type in the file.
unfoldable pub class_code : TypeKind → Bytes → Option ℕ
class_code kind raw = lookup k_class_codes (class_of kind raw)

-- What a code stands for, with the inner types and the name. A type that has none is written as a
-- byte.
unfoldable pub code_shape : Option ℕ → Shape → Shape → Option Bytes → Shape
code_shape none first second name = plain 0
code_shape (some code) first second name =
    if code == 26
    then enum_of first name
    else if code == 9
    then struct_of name
    else if (code == 8) || ((code == 25) || (code == 28))
    then inner_of code first
    else if code == 24
    then map_of first second
    else plain code

-- The byte of a type, if there is one.
unfoldable pub byte_of : Option PropertyType → Option ℕ
byte_of none = none
byte_of (some mapped) = some (type_byte mapped)

module _ {V : Type 0} where
  lookup-All :
      (P : Bytes → V → Type 0) (dict : List (Bytes × V)) (key : Bytes) (v : V)
      → All (λ e. P e.0 e.1) dict
      → lookup dict key ≡ some v
      → P key v
  unfolding lookup
  lookup-All P [] key v all found = absurd (ground (arith, found))
  lookup-All P ((k, w) ∷ dict) key v (first, all) found = elim (Bool-cases (same_bytes k key)) [
    | inl same ↦
        let here : some w ≡ some v = simp (lookup, same) at found in
        let w≡v = ap (λ (o : Option V). elim o [ none ↦ w | some x ↦ x ]) here in
        subst (λ (x : V). P key x) w≡v
          (subst (λ (k' : Bytes). P k' w) (same_bytes-true k key same) first)
    | inr other ↦
        let rest : lookup dict key ≡ some v = simp (lookup, other) at found in
        lookup-All P dict key v all rest
  ]

raw-coded : All (λ e. lookup k_class_codes e.0 ≡ some (type_byte e.1)) k_raw_types
unfolding lookup same_bytes type_byte
raw-coded = (
  refl,
  (
    refl,
    (
      refl,
      (
        refl,
        (
          refl,
          (
            refl,
            (
              refl,
              (
                refl,
                (
                  refl,
                  (
                    refl,
                    (
                      refl,
                      (
                        refl,
                        (
                          refl,
                          (
                            refl,
                            (
                              refl,
                              (
                                refl,
                                (
                                  refl,
                                  (
                                    refl,
                                    (
                                      refl,
                                      (
                                        refl,
                                        (
                                          refl,
                                          (
                                            refl,
                                            (
                                              refl,
                                              (
                                                refl,
                                                (
                                                  refl,
                                                  (
                                                    refl,
                                                    (
                                                      refl,
                                                      (
                                                        refl,
                                                        (
                                                          refl,
                                                          (
                                                            refl,
                                                            (
                                                            refl,
                                                            (
                                                            refl,
                                                            (
                                                            refl,
                                                            (refl, (refl, (refl, (refl, tt)))),
                                                            ),
                                                            ),
                                                            ),
                                                          ),
                                                        ),
                                                      ),
                                                    ),
                                                  ),
                                                ),
                                              ),
                                            ),
                                          ),
                                        ),
                                      ),
                                    ),
                                  ),
                                ),
                              ),
                            ),
                          ),
                        ),
                      ),
                    ),
                  ),
                ),
              ),
            ),
          ),
        ),
      ),
    ),
  ),
)

-- Whether there is a type.
unfoldable is_there : Option PropertyType → Bool
is_there none = false
is_there (some mapped) = true

coded-raw : All (λ e. is_there (map_raw e.0) ≡ true) k_class_codes
unfolding map_raw lookup same_bytes is_there
coded-raw = (
  refl,
  (
    refl,
    (
      refl,
      (
        refl,
        (
          refl,
          (
            refl,
            (
              refl,
              (
                refl,
                (
                  refl,
                  (
                    refl,
                    (
                      refl,
                      (
                        refl,
                        (
                          refl,
                          (
                            refl,
                            (
                              refl,
                              (
                                refl,
                                (
                                  refl,
                                  (
                                    refl,
                                    (
                                      refl,
                                      (
                                        refl,
                                        (
                                          refl,
                                          (
                                            refl,
                                            (
                                              refl,
                                              (
                                                refl,
                                                (
                                                  refl,
                                                  (
                                                    refl,
                                                    (
                                                      refl,
                                                      (
                                                        refl,
                                                        (
                                                          refl,
                                                          (
                                                            refl,
                                                            (
                                                            refl,
                                                            (
                                                            refl,
                                                            (
                                                            refl,
                                                            (refl, (refl, (refl, (refl, tt)))),
                                                            ),
                                                            ),
                                                            ),
                                                          ),
                                                        ),
                                                      ),
                                                    ),
                                                  ),
                                                ),
                                              ),
                                            ),
                                          ),
                                        ),
                                      ),
                                    ),
                                  ),
                                ),
                              ),
                            ),
                          ),
                        ),
                      ),
                    ),
                  ),
                ),
              ),
            ),
          ),
        ),
      ),
    ),
  ),
)

map_raw-coded : (raw : Bytes) → lookup k_class_codes raw ≡ byte_of (map_raw raw)
unfolding map_raw byte_of is_there
map_raw-coded raw = elim (Option-cases (lookup k_raw_types raw)) [
  | inr (mapped, e) ↦ rw e (
      lookup-All (λ key m. lookup k_class_codes key ≡ some (type_byte m)) k_raw_types raw mapped
        raw-coded e)
  | inl missing ↦ rw missing (elim (Option-cases (lookup k_class_codes raw)) [
    | inl e ↦ e
    | inr (code, e) ↦
        let there =
          lookup-All (λ key c. is_there (map_raw key) ≡ true) k_class_codes raw code coded-raw e in
        let never : false ≡ true = simp (map_raw, missing, is_there) at there in
        absurd (ground (arith, never))
  ])
]

-- MapKind and MapRaw give the type whose byte is the code of the class, and none where there is none.
pub mapped_type-coded :
    (kind : TypeKind) (raw : Bytes) → class_code kind raw ≡ byte_of (mapped_type kind raw)
unfolding class_code class_of mapped_type or_raw map_kind byte_of type_byte lookup same_bytes
mapped_type-coded TypeKind.bool raw = refl
mapped_type-coded TypeKind.int8 raw = refl
mapped_type-coded TypeKind.int16 raw = refl
mapped_type-coded TypeKind.int32 raw = refl
mapped_type-coded TypeKind.int64 raw = refl
mapped_type-coded TypeKind.uint8 raw = refl
mapped_type-coded TypeKind.uint16 raw = refl
mapped_type-coded TypeKind.uint32 raw = refl
mapped_type-coded TypeKind.uint64 raw = refl
mapped_type-coded TypeKind.float raw = refl
mapped_type-coded TypeKind.double raw = refl
mapped_type-coded TypeKind.name raw = refl
mapped_type-coded TypeKind.string raw = refl
mapped_type-coded TypeKind.text raw = refl
mapped_type-coded TypeKind.enum raw = refl
mapped_type-coded TypeKind.struct raw = refl
mapped_type-coded TypeKind.object_ptr raw = refl
mapped_type-coded TypeKind.weak_ptr raw = refl
mapped_type-coded TypeKind.lazy_ptr raw = refl
mapped_type-coded TypeKind.soft_ptr raw = refl
mapped_type-coded TypeKind.soft_class_ptr raw = refl
mapped_type-coded TypeKind.class_ptr raw = refl
mapped_type-coded TypeKind.interface raw = refl
mapped_type-coded TypeKind.array raw = refl
mapped_type-coded TypeKind.set raw = refl
mapped_type-coded TypeKind.map raw = refl
mapped_type-coded TypeKind.delegate raw = refl
mapped_type-coded TypeKind.multicast_delegate raw = refl
mapped_type-coded TypeKind.field_path raw = refl
mapped_type-coded TypeKind.optional raw = refl
mapped_type-coded TypeKind.unknown raw = map_raw-coded raw
