-- ===== src/Emit/Usmap/Shapes.antt =====
-- A reader learns from the bytes of WriteType of src/emit/src/Usmap.cpp what the type is.
use zircon_dumper.Prelude.{
  ap, ◌∙◌, ℕ, zero, suc, ◌+◌, ◌≤◌, ◌≡◌, refl, sym, subst, true, Option, none, some, [], ◌∷◌, ◌++◌,
  ltb, if◌then◌else◌, arith, Bool-cases, inl, inr,
}
use zircon_dumper.Prelude.Preds.{Bytes}
use zircon_dumper.Ir.{TypeRef, type_ref, TypeRefs, no_params, param}
use zircon_dumper.Emit.Usmap.{
  PropertyType, byte_property, bool_property, int_property, float_property, object_property,
  name_property, delegate_property, double_property, str_property, text_property,
  interface_property, multicast_delegate_property, weak_object_property, lazy_object_property,
  asset_object_property, soft_object_property, uint64_property, uint32_property, uint16_property,
  int64_property, int16_property, int8_property, field_path_property, utf8_str_property,
  ansi_str_property, type_byte, enum_property, struct_property, array_property, set_property,
  optional_property, map_property, mapped_type, Warning, too_nested, element_unresolved,
  key_unresolved, value_unresolved, unrecognised, Emit, write, write_name, type_leaf, write_opaque,
  write_inner, write_storage, write_payload, write_mapped, write_type, first_param, second_param,
}
use zircon_dumper.Ir.Kinds.{TypeKind}
use zircon_dumper.Emit.Usmap.Classes.{class_code, code_shape, byte_of, mapped_type-coded}
use zircon_dumper.Emit.Usmap.Meaning.{last_part, type_leaf-last_part}
use zircon_dumper.Emit.Usmap.Read.{
  pure, bind, next_of, Reads-u8, read_u8, read_name, Shape, plain, enum_of, struct_of, inner_of,
  map_of, read_payload, read_shape,
}
use zircon_dumper.Emit.Usmap.Table.{
  IsTable, Writes, Writes-bytes, Writes-bind, Writes-end, kept_name, write_name-Writes,
}

-- What WriteType writes for a property type, with its inner types and its name.
unfoldable pub payload_shape : PropertyType → Shape → Shape → Option Bytes → Shape
payload_shape enum_property first second name = enum_of first name
payload_shape struct_property first second name = struct_of name
payload_shape array_property first second name = inner_of 8 first
payload_shape set_property first second name = inner_of 25 first
payload_shape optional_property first second name = inner_of 28 first
payload_shape map_property first second name = map_of first second
payload_shape mapped first second name = plain (type_byte mapped)

unfoldable pub mapped_shape : Option PropertyType → Shape → Shape → Option Bytes → Shape
mapped_shape none first second name = plain 0
mapped_shape (some mapped) first second name = payload_shape mapped first second name

-- What a type stands for at a depth. A parameter that is missing, a type that is not recognised and
-- a type that is too deep stand for a byte.
unfoldable mutual
  pub shape_of : TypeRef → ℕ → Shape
  shape_of (type_ref kind name raw params size) depth =
      if ltb 16 depth
      then plain 0
      else code_shape (class_code kind raw) (first_shape params (depth + 1))
          (second_shape params (depth + 1)) (kept_name (last_part [] name))

  pub first_shape : TypeRefs → ℕ → Shape
  first_shape no_params depth = plain 0
  first_shape (param t ts) depth = shape_of t depth

  pub second_shape : TypeRefs → ℕ → Shape
  second_shape no_params depth = plain 0
  second_shape (param t ts) depth = first_shape ts depth

-- What writes a parameter, if it is there.
abbrev InnerWrites : ℕ → Shape → Option (Emit → Emit) → Type 0
InnerWrites f s none = s ≡ plain 0
InnerWrites f s (some inner) =
    (e : Emit) → IsTable e.names e.index → Writes (read_shape f) s e (inner e)

opaque-Writes :
    (f : ℕ) (reason : Warning) (e : Emit)
    → IsTable e.names e.index
    → Writes (read_shape (suc f)) (plain 0) e (write_opaque reason e)
unfolding write_opaque type_byte read_shape read_payload read_u8 bind next_of pure
opaque-Writes f reason e ok =
    Writes-bytes (read_shape (suc f)) (plain 0) (0 ∷ []) e (e.warnings ++ reason ∷ []) ok
      (λ names rest. refl)

inner-Writes :
    (f : ℕ) (s : Shape) (inner : Option (Emit → Emit)) (reason : Warning) (e : Emit)
    → InnerWrites (suc f) s inner
    → IsTable e.names e.index
    → Writes (read_shape (suc f)) s e (write_inner inner reason e)
unfolding write_inner
inner-Writes f s none reason e opaque ok =
    subst (λ (x : Shape). Writes (read_shape (suc f)) x e (write_opaque reason e)) (sym opaque)
      (opaque-Writes f reason e ok)
inner-Writes f s (some inner) reason e writes ok = writes e ok

storage-Writes :
    (f : ℕ) (s : Shape) (inner : Option (Emit → Emit)) (e : Emit)
    → InnerWrites (suc f) s inner
    → IsTable e.names e.index
    → Writes (read_shape (suc f)) s e (write_storage inner e)
unfolding write_storage type_byte read_shape read_payload read_u8 bind next_of pure
storage-Writes f s none e opaque ok =
    subst (λ (x : Shape). Writes (read_shape (suc f)) x e (write (0 ∷ []) e)) (sym opaque)
      (Writes-bytes (read_shape (suc f)) (plain 0) (0 ∷ []) e e.warnings ok (λ names rest. refl))
storage-Writes f s (some inner) e writes ok = writes e ok

code-Writes :
    (c : ℕ) (e : Emit) → IsTable e.names e.index → Writes (λ names. read_u8) c e (write (c ∷ []) e)
code-Writes c e ok =
    Writes-bytes (λ names. read_u8) c (c ∷ []) e e.warnings ok (λ names. Reads-u8 c)

-- The byte of a type, and what follows it.
code-then :
    (f c : ℕ) (s : Shape) (e e'' : Emit)
    → IsTable e.names e.index
    → Writes (λ names. read_payload (read_shape f names) names c) s (write (c ∷ []) e) e''
    → Writes (read_shape (suc f)) s e e''
unfolding read_shape
code-then f c s e e'' table rest =
    Writes-bind (λ names. read_u8) (λ names. read_payload (read_shape f names) names) c s e
      (write (c ∷ []) e) e'' (code-Writes c e table) rest

payload-Writes :
    (f : ℕ) (m : PropertyType) (first second : Option (Emit → Emit)) (s s' : Shape)
    (name raw : Bytes) (e : Emit)
    → InnerWrites (suc f) s first
    → InnerWrites (suc f) s' second
    → IsTable e.names e.index
    → Writes
        (read_shape (suc (suc f)))
        (payload_shape m s s' (kept_name (type_leaf name)))
        e
        (write_payload m first second name raw (write (type_byte m ∷ []) e))
unfolding payload_shape write_payload type_byte read_shape read_payload
payload-Writes f struct_property first second s s' name raw e ok ok' table =
    let e1 : Emit = write (9 ∷ []) e in
    let leaf : Bytes = type_leaf name in
    code-then (suc f) 9 (struct_of (kept_name leaf)) e (write_name leaf e1) table (
      Writes-end read_name struct_of (kept_name leaf) e1 (write_name leaf e1)
        (write_name-Writes leaf e1 table))
payload-Writes f enum_property first second s s' name raw e ok ok' table =
    let e1 : Emit = write (26 ∷ []) e in
    let e2 : Emit = write_storage first e1 in
    let leaf : Bytes = type_leaf name in
    let stored = storage-Writes f s first e1 ok table in
    code-then (suc f) 26 (enum_of s (kept_name leaf)) e (write_name leaf e2) table (
      Writes-bind (read_shape (suc f))
        (λ names storage. bind (read_name names) (λ n. pure (enum_of storage n))) s
        (enum_of s (kept_name leaf)) e1 e2 (write_name leaf e2) stored
        (Writes-end read_name (enum_of s) (kept_name leaf) e2 (write_name leaf e2)
          (write_name-Writes leaf e2 stored.table)))
payload-Writes f map_property first second s s' name raw e ok ok' table =
    let e1 : Emit = write (24 ∷ []) e in
    let e2 : Emit = write_inner first (key_unresolved raw) e1 in
    let e3 : Emit = write_inner second (value_unresolved raw) e2 in
    let keyed = inner-Writes f s first (key_unresolved raw) e1 ok table in
    code-then (suc f) 24 (map_of s s') e e3 table (
      Writes-bind (read_shape (suc f))
        (λ names key. bind (read_shape (suc f) names) (λ value. pure (map_of key value))) s
        (map_of s s') e1 e2 e3 keyed
        (Writes-end (read_shape (suc f)) (map_of s) s' e2 e3
          (inner-Writes f s' second (value_unresolved raw) e2 ok' keyed.table)))
payload-Writes f array_property first second s s' name raw e ok ok' table =
    let e1 : Emit = write (8 ∷ []) e in
    let e2 : Emit = write_inner first (element_unresolved raw) e1 in
    code-then (suc f) 8 (inner_of 8 s) e e2 table (
      Writes-end (read_shape (suc f)) (inner_of 8) s e1 e2
        (inner-Writes f s first (element_unresolved raw) e1 ok table))
payload-Writes f set_property first second s s' name raw e ok ok' table =
    let e1 : Emit = write (25 ∷ []) e in
    let e2 : Emit = write_inner first (element_unresolved raw) e1 in
    code-then (suc f) 25 (inner_of 25 s) e e2 table (
      Writes-end (read_shape (suc f)) (inner_of 25) s e1 e2
        (inner-Writes f s first (element_unresolved raw) e1 ok table))
payload-Writes f optional_property first second s s' name raw e ok ok' table =
    let e1 : Emit = write (28 ∷ []) e in
    let e2 : Emit = write_inner first (element_unresolved raw) e1 in
    code-then (suc f) 28 (inner_of 28 s) e e2 table (
      Writes-end (read_shape (suc f)) (inner_of 28) s e1 e2
        (inner-Writes f s first (element_unresolved raw) e1 ok table))
payload-Writes f m first second s s' name raw e ok ok' table =
    Writes-bytes (read_shape (suc (suc f))) (plain (type_byte m)) (type_byte m ∷ []) e e.warnings
      table (λ names rest. unfold bind next_of read_u8 pure in refl)

mapped-Writes :
    (f : ℕ) (m : Option PropertyType) (first second : Option (Emit → Emit)) (s s' : Shape)
    (name raw : Bytes) (e : Emit)
    → InnerWrites (suc f) s first
    → InnerWrites (suc f) s' second
    → IsTable e.names e.index
    → Writes
        (read_shape (suc (suc f)))
        (mapped_shape m s s' (kept_name (type_leaf name)))
        e
        (write_mapped m first second name raw e)
unfolding mapped_shape write_mapped
mapped-Writes f none first second s s' name raw e ok ok' table =
    opaque-Writes (suc f) (unrecognised raw) e table
mapped-Writes f (some m) first second s s' name raw e ok ok' table =
    payload-Writes f m first second s s' name raw e ok ok' table

payload_shape-coded :
    (m : PropertyType) (s s' : Shape) (name : Option Bytes)
    → payload_shape m s s' name ≡ code_shape (some (type_byte m)) s s' name
unfolding payload_shape code_shape type_byte
payload_shape-coded byte_property s s' name = refl
payload_shape-coded bool_property s s' name = refl
payload_shape-coded int_property s s' name = refl
payload_shape-coded float_property s s' name = refl
payload_shape-coded object_property s s' name = refl
payload_shape-coded name_property s s' name = refl
payload_shape-coded delegate_property s s' name = refl
payload_shape-coded double_property s s' name = refl
payload_shape-coded array_property s s' name = refl
payload_shape-coded struct_property s s' name = refl
payload_shape-coded str_property s s' name = refl
payload_shape-coded text_property s s' name = refl
payload_shape-coded interface_property s s' name = refl
payload_shape-coded multicast_delegate_property s s' name = refl
payload_shape-coded weak_object_property s s' name = refl
payload_shape-coded lazy_object_property s s' name = refl
payload_shape-coded asset_object_property s s' name = refl
payload_shape-coded soft_object_property s s' name = refl
payload_shape-coded uint64_property s s' name = refl
payload_shape-coded uint32_property s s' name = refl
payload_shape-coded uint16_property s s' name = refl
payload_shape-coded int64_property s s' name = refl
payload_shape-coded int16_property s s' name = refl
payload_shape-coded int8_property s s' name = refl
payload_shape-coded map_property s s' name = refl
payload_shape-coded set_property s s' name = refl
payload_shape-coded enum_property s s' name = refl
payload_shape-coded field_path_property s s' name = refl
payload_shape-coded optional_property s s' name = refl
payload_shape-coded utf8_str_property s s' name = refl
payload_shape-coded ansi_str_property s s' name = refl

mapped_shape-coded :
    (m : Option PropertyType) (s s' : Shape) (name : Option Bytes)
    → mapped_shape m s s' name ≡ code_shape (byte_of m) s s' name
unfolding mapped_shape code_shape byte_of
mapped_shape-coded none s s' name = refl
mapped_shape-coded (some m) s s' name = payload_shape-coded m s s' name

-- What is written for a type is what its code in the format stands for.
shape-coded :
    (kind : TypeKind) (raw : Bytes) (s s' : Shape) (name : Option Bytes)
    → mapped_shape (mapped_type kind raw) s s' name ≡ code_shape (class_code kind raw) s s' name
shape-coded kind raw s s' name =
    mapped_shape-coded (mapped_type kind raw) s s' name
    ∙ ap (λ (c : Option ℕ). code_shape c s s' name) (sym (mapped_type-coded kind raw))

mutual
  unfolding shape_of write_type

  type-Writes :
      (t : TypeRef) (depth f : ℕ) (e : Emit)
      → depth ≤ 17
      → 18 ≤ f + depth
      → IsTable e.names e.index
      → Writes (read_shape f) (shape_of t depth) e (write_type t depth e)
  type-Writes t depth zero e small enough table = absurd (omega arith)
  type-Writes (type_ref kind name raw ps size) depth (suc zero) e small enough table =
      let deep : ltb 16 depth ≡ true = ground arith in
      rw deep (opaque-Writes zero too_nested e table)
  type-Writes (type_ref kind name raw ps size) depth (suc (suc f)) e small enough table =
      elim (Bool-cases (ltb 16 depth)) [
        | inl deep ↦ rw deep (opaque-Writes (suc f) too_nested e table)
        | inr shallow ↦
            rw
              (
                shallow,
                sym (type_leaf-last_part name),
                sym (
                    shape-coded kind raw (first_shape ps (depth + 1)) (second_shape ps (depth + 1))
                      (kept_name (type_leaf name))),
              )
              (mapped-Writes f (mapped_type kind raw) (first_param ps (depth + 1))
                (second_param ps (depth + 1)) (first_shape ps (depth + 1))
                (second_shape ps (depth + 1)) name raw e
                (first-Writes ps (depth + 1) (suc f) (ground arith) (omega arith))
                (second-Writes ps (depth + 1) (suc f) (ground arith) (omega arith)) table)
      ]

  first-Writes :
      (ps : TypeRefs) (depth f : ℕ)
      → depth ≤ 17
      → 18 ≤ f + depth
      → InnerWrites f (first_shape ps depth) (first_param ps depth)
  first-Writes no_params depth f small enough = refl
  first-Writes (param t ts) depth f small enough =
      λ e table. type-Writes t depth f e small enough table

  second-Writes :
      (ps : TypeRefs) (depth f : ℕ)
      → depth ≤ 17
      → 18 ≤ f + depth
      → InnerWrites f (second_shape ps depth) (second_param ps depth)
  second-Writes no_params depth f small enough = refl
  second-Writes (param t ts) depth f small enough = first-Writes ts depth f small enough

-- A type that WriteType writes is read, with eighteen levels and the finished name table of fewer
-- than 2 ^ 32 - 1 names, as what the type stands for.
pub write_type-Writes :
    (t : TypeRef) (e : Emit)
    → IsTable e.names e.index
    → Writes (read_shape 18) (shape_of t 0) e (write_type t 0 e)
write_type-Writes t e table = type-Writes t 0 18 e (omega arith) (omega arith) table
