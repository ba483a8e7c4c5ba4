-- ===== src/Emit/Usmap/Structs.antt =====
-- A reader learns from the entry of a struct of src/emit/src/Usmap.cpp what the struct is.
use zircon_dumper.Prelude.{
  sym, ℕ, suc, ◌+◌, ◌^◌, ◌<◌, ◌≡◌, refl, ap, ◌∙◌, subst, min, Option, none, List, [], ◌∷◌, ◌++◌,
  ltb, take, length, length-take, arith, Bool-cases, inl, inr,
}
use zircon_dumper.Prelude.Preds.{Bytes}
use zircon_dumper.Ir.{Property, Struct}
use zircon_dumper.Emit.Usmap.{
  u16, many_slots, wide_array, Emit, write, warn, add_name, write_name, type_leaf, write_type,
}
use zircon_dumper.Emit.Usmap.Entries.{Writes-warned, Items, done, next, Items-Writes}
use zircon_dumper.Emit.Usmap.File.{
  dim_of, slots_of, property_entry, write_properties, write_super, struct_entry,
}
use zircon_dumper.Emit.Usmap.Meaning.{
  last_part, elements, total_elements, type_leaf-last_part, dim_of-elements,
  slots_of-total_elements,
}
use zircon_dumper.Emit.Usmap.Read.{
  Parser, pure, bind, Reads, Reads-bind, Reads-end, Reads-u8, Reads-u16, read_u8, read_u16,
  read_many, read_name, Shape, read_shape,
}
use zircon_dumper.Emit.Usmap.Shapes.{shape_of, write_type-Writes}
use zircon_dumper.Emit.Usmap.Table.{
  IsTable, Writes, Writes-bytes, Writes-bind, Writes-end, kept_name, write_name-Writes,
}

-- What a reader learns of a property.
pub record PropertyView : Type 0 where
  pub schema_index : ℕ
  pub dim : ℕ
  pub name : Option Bytes
  pub shape : Shape

-- What a reader learns of a struct. The second number of `counts` is that of the properties.
pub record StructView : Type 0 where
  pub name : Option Bytes
  pub super : Option Bytes
  pub counts : ℕ × ℕ
  pub properties : List PropertyView

unfoldable pub property_view : ℕ → Property → PropertyView
property_view schema_index p = record {
  schema_index = min schema_index 65535;
  dim = min (elements p.array_dim) 255;
  name = kept_name p.name;
  shape = shape_of p.type 0;
}

unfoldable pub property_views : ℕ → List Property → List PropertyView
property_views schema_index [] = []
property_views schema_index (p ∷ properties) =
    property_view schema_index p
    ∷ property_views (schema_index + min (elements p.array_dim) 255) properties

unfoldable pub super_view : Bytes → Option Bytes
super_view [] = none
super_view (c ∷ cs) = kept_name (last_part [] (c ∷ cs))

unfoldable pub struct_view : Bytes → Struct → StructView
struct_view leaf r = record {
  name = kept_name leaf;
  super = super_view r.super;
  counts = (min (total_elements r.properties) 65535, min (length r.properties) 65535);
  properties = property_views 0 (take (min (length r.properties) 65535) r.properties);
}

unfoldable pub read_position : Parser (ℕ × ℕ)
read_position = bind read_u16 (λ i. bind read_u8 (λ d. pure (i, d)))

unfoldable pub read_counts : Parser (ℕ × ℕ)
read_counts = bind read_u16 (λ slots. bind read_u16 (λ n. pure (slots, n)))

unfoldable pub read_property : List Bytes → Parser PropertyView
read_property names = bind read_position (λ at. bind (read_name names) (λ name.
    bind (read_shape 18 names)
      (λ shape. pure (record { schema_index = at.0; dim = at.1; name = name; shape = shape }))))

unfoldable pub read_struct : List Bytes → Parser StructView
read_struct names = bind (read_name names) (λ name. bind (read_name names) (λ super.
    bind read_counts (λ counts. bind (read_many counts.1 (read_property names)) (λ properties.
      pure (record { name = name; super = super; counts = counts; properties = properties })))))

Reads-position : (i d : ℕ) → i < 2 ^ 16 → Reads read_position (i, d) (u16 i ++ d ∷ [])
unfolding read_position
Reads-position i d lt =
    Reads-bind read_u16 (λ (x : ℕ). bind read_u8 (λ (y : ℕ). pure (x, y))) i (i, d) (u16 i) (d ∷ [])
      (Reads-u16 i lt) (Reads-end read_u8 (λ (y : ℕ). (i, y)) d (d ∷ []) (Reads-u8 d))

Reads-counts :
    (slots n : ℕ) → slots < 2 ^ 16 → n < 2 ^ 16 → Reads read_counts (slots, n) (u16 slots ++ u16 n)
unfolding read_counts
Reads-counts slots n lt lt' =
    Reads-bind read_u16 (λ (x : ℕ). bind read_u16 (λ (y : ℕ). pure (x, y))) slots (slots, n)
      (u16 slots) (u16 n) (Reads-u16 slots lt)
      (Reads-end read_u16 (λ (y : ℕ). (slots, y)) n (u16 n) (Reads-u16 n lt'))

property_rest-Writes :
    (p : Property) (i d : ℕ) (e : Emit)
    → i < 2 ^ 16
    → IsTable e.names e.index
    → Writes read_property
        (record { schema_index = i; dim = d; name = kept_name p.name; shape = shape_of p.type 0 })
        e
        (write_type p.type 0 (write_name p.name (write (u16 i ++ d ∷ []) e)))
unfolding read_property
property_rest-Writes p i d e lt ok =
    let e1 : Emit = write (u16 i ++ d ∷ []) e in
    let e2 : Emit = write_name p.name e1 in
    let e3 : Emit = write_type p.type 0 e2 in
    let view : Option Bytes → Shape → PropertyView =
      λ name shape. record { schema_index = i; dim = d; name = name; shape = shape } in
    let placed =
      Writes-bytes (λ names. read_position) (i, d) (u16 i ++ d ∷ []) e e.warnings ok
        (λ names. Reads-position i d lt) in
    let named = write_name-Writes p.name e1 ok in
    let typed = write_type-Writes p.type e2 named.table in
    Writes-bind (λ names. read_position)
      (λ names at. bind (read_name names) (λ name.
        bind (read_shape 18 names)
          (λ shape. pure (record { schema_index = at.0; dim = at.1; name = name; shape = shape }))))
      (i, d) (view (kept_name p.name) (shape_of p.type 0)) e e1 e3 placed
      (Writes-bind read_name
        (λ names name. bind (read_shape 18 names) (λ shape. pure (view name shape)))
        (kept_name p.name) (view (kept_name p.name) (shape_of p.type 0)) e1 e2 e3 named
        (Writes-end (read_shape 18) (view (kept_name p.name)) (shape_of p.type 0) e2 e3 typed))

property_entry-Writes :
    (leaf : Bytes) (i : ℕ) (p : Property) (e : Emit)
    → IsTable e.names e.index
    → Writes read_property (property_view i p) e (property_entry leaf i p e)
unfolding property_entry property_view
property_entry-Writes leaf i p e ok =
    let dim : ℕ = dim_of p.array_dim in
    rw (sym (dim_of-elements p.array_dim)) (elim (Bool-cases (ltb 255 dim)) [
      | inl wide ↦
          let e' : Emit = warn (wide_array leaf p.name dim) e in
          rw wide (
            Writes-warned read_property _ e
              (write_type p.type 0
                (write_name p.name (write (u16 (min i 65535) ++ min dim 255 ∷ []) e')))
              e'.warnings (property_rest-Writes p (min i 65535) (min dim 255) e' (omega arith) ok))
      | inr narrow ↦
          rw narrow (property_rest-Writes p (min i 65535) (min dim 255) e (omega arith) ok)
    ])

properties-Items :
    (leaf : Bytes) (i : ℕ) (properties : List Property) (e : Emit)
    → IsTable e.names e.index
    → Items read_property (property_views i properties) e (write_properties leaf i properties e)
unfolding write_properties property_views
properties-Items leaf i [] e ok = done
properties-Items leaf i (p ∷ properties) e ok =
    let w = property_entry-Writes leaf i p e ok in
    rw (sym (dim_of-elements p.array_dim)) (
      next w (
        properties-Items leaf (i + min (dim_of p.array_dim) 255) properties
          (property_entry leaf i p e) w.table))

length-property_views :
    (i : ℕ) (properties : List Property) → length (property_views i properties) ≡ length properties
unfolding property_views
length-property_views i [] = refl
length-property_views i (p ∷ properties) =
    ap suc (length-property_views (i + min (elements p.array_dim) 255) properties)

super-Writes :
    (super : Bytes) (e : Emit)
    → IsTable e.names e.index
    → Writes read_name (super_view super) e (write_super super e)
unfolding super_view write_super write_name add_name kept_name
super-Writes [] e ok =
    -- The index of no name is that of an empty name.
    write_name-Writes [] e ok
super-Writes (c ∷ cs) e ok =
    rw (sym (type_leaf-last_part (c ∷ cs))) (write_name-Writes (type_leaf (c ∷ cs)) e ok)

struct_rest-Writes :
    (leaf super : Bytes) (properties : List Property) (slots n : ℕ) (e : Emit)
    → slots < 2 ^ 16
    → n < 2 ^ 16
    → length properties ≡ n
    → IsTable e.names e.index
    → Writes read_struct
        (record {
          name = kept_name leaf;
          super = super_view super;
          counts = (slots, n);
          properties = property_views 0 properties;
        })
        e
        (write_properties leaf 0 properties
          (write (u16 slots ++ u16 n) (write_super super (write_name leaf e))))
unfolding read_struct
struct_rest-Writes leaf super properties slots n e lt lt' size ok =
    let e1 : Emit = write_name leaf e in
    let e2 : Emit = write_super super e1 in
    let e3 : Emit = write (u16 slots ++ u16 n) e2 in
    let e4 : Emit = write_properties leaf 0 properties e3 in
    let views : List PropertyView = property_views 0 properties in
    let view : Option Bytes → Option Bytes → ℕ × ℕ → List PropertyView → StructView =
      λ name sup counts ps. record { name = name; super = sup; counts = counts; properties = ps } in
    let whole : StructView = view (kept_name leaf) (super_view super) (slots, n) views in
    let named = write_name-Writes leaf e ok in
    let based = super-Writes super e1 named.table in
    let counted =
      Writes-bytes (λ names. read_counts) (slots, n) (u16 slots ++ u16 n) e2 e2.warnings based.table
        (λ names. Reads-counts slots n lt lt') in
    let listed = Items-Writes (properties-Items leaf 0 properties e3 based.table) based.table in
    Writes-bind read_name
      (λ names name. bind (read_name names) (λ sup. bind read_counts (λ counts.
        bind (read_many counts.1 (read_property names)) (λ ps. pure (view name sup counts ps)))))
      (kept_name leaf) whole e e1 e4 named
      (Writes-bind read_name
        (λ names sup. bind read_counts (λ counts.
          bind (read_many counts.1 (read_property names))
            (λ ps. pure (view (kept_name leaf) sup counts ps))))
        (super_view super) whole e1 e2 e4 based
        (Writes-bind (λ names. read_counts)
          (λ names counts.
            bind (read_many counts.1 (read_property names))
              (λ ps. pure (view (kept_name leaf) (super_view super) counts ps)))
          (slots, n) whole e2 e3 e4 counted
          (Writes-end (λ names. read_many n (read_property names))
            (view (kept_name leaf) (super_view super) (slots, n)) views e3 e4
            (subst (λ (k : ℕ). Writes (λ names. read_many k (read_property names)) views e3 e4)
              (length-property_views 0 properties ∙ size) listed))))

pub struct_entry-Writes :
    (leaf : Bytes) (r : Struct) (e : Emit)
    → IsTable e.names e.index
    → Writes read_struct (struct_view leaf r) e (struct_entry leaf r e)
unfolding struct_entry struct_view
struct_entry-Writes leaf r e ok =
    let slots : ℕ = slots_of r.properties in
    let n : ℕ = min (length r.properties) 65535 in
    let size : length (take n r.properties) ≡ n = omega (arith, length-take n r.properties) in
    rw (sym (slots_of-total_elements r.properties)) (elim (Bool-cases (ltb 65535 slots)) [
      | inl many ↦
          let e' : Emit = warn (many_slots leaf slots) e in
          rw many (
            Writes-warned read_struct _ e
              (write_properties leaf 0 (take n r.properties)
                (write (u16 (min slots 65535) ++ u16 n) (write_super r.super (write_name leaf e'))))
              e'.warnings
              (struct_rest-Writes leaf r.super (take n r.properties) (min slots 65535) n e'
                (omega arith) (omega arith) size ok))
      | inr few ↦ rw few (
          struct_rest-Writes leaf r.super (take n r.properties) (min slots 65535) n e (omega arith)
            (omega arith) size ok)
    ])
