-- ===== src/Emit/Usmap/Trip.antt =====
-- A reader of the format gets back from the file of EmitUsmap in src/emit/src/Usmap.cpp what the dump
-- holds.
use zircon_dumper.Prelude.{
  ℕ, ◌+◌, ◌%◌, ◌≤◌, ◌≡◌, refl, sym, subst, List, [], ◌∷◌, ◌++◌, length, length-append, arith,
  Bool-cases, inl, inr,
}
use zircon_dumper.Prelude.Preds.{Bytes, All}
use zircon_dumper.Ir.{Enum, Struct, Package}
use zircon_dumper.Emit.Util.{member}
use zircon_dumper.Emit.Usmap.{nameless_enum, nameless_struct, duplicate, Emit, warn}
use zircon_dumper.Emit.Usmap.Entries.{
  Items, done, next, quiet, Items-IsTable, Items-append, EnumView, enum_view, read_enum,
  enum_entry-Writes,
}
use zircon_dumper.Emit.Usmap.File.{
  Section, leaf_of, note_collision, enum_entry, named_enum, emit_enums, struct_entry, named_struct,
  emit_structs, all_enums, all_structs, name_bytes,
}
use zircon_dumper.Emit.Usmap.Meaning.{shown_name, leaf_of-shown_name}
use zircon_dumper.Emit.Usmap.Read.{
  Parser, pure, bind, Reads, Reads-bind, Reads-end, Reads-u8, Reads-raw, read_u8, read_raw,
  read_many,
}
use zircon_dumper.Emit.Usmap.Structs.{StructView, struct_view, read_struct, struct_entry-Writes}
use zircon_dumper.Emit.Usmap.Table.{IsTable}

-- What a reader learns of the enums and structs of packages: those that have a leaf.
unfoldable pub named_enum_views : Bytes → Enum → List EnumView
named_enum_views [] r = []
named_enum_views (c ∷ cs) r = enum_view (c ∷ cs) r.values ∷ []

unfoldable pub enum_views : List Enum → List EnumView
enum_views [] = []
enum_views (r ∷ enums) = named_enum_views (shown_name r.name r.path) r ++ enum_views enums

unfoldable pub all_enum_views : List Package → List EnumView
all_enum_views [] = []
all_enum_views (p ∷ packages) = enum_views p.enums ++ all_enum_views packages

unfoldable pub named_struct_views : Bytes → Struct → List StructView
named_struct_views [] r = []
named_struct_views (c ∷ cs) r = struct_view (c ∷ cs) r ∷ []

unfoldable pub struct_views : List Struct → List StructView
struct_views [] = []
struct_views (r ∷ structs) = named_struct_views (shown_name r.name r.path) r ++ struct_views structs

unfoldable pub all_struct_views : List Package → List StructView
all_struct_views [] = []
all_struct_views (p ∷ packages) =
    (struct_views p.classes ++ struct_views p.structs) ++ all_struct_views packages

-- From one section to the next the values are written, and counted.
pub record Grows {A : Type 0} (read : List Bytes → Parser A) (xs : List A) (s s' : Section)
    : Type 0 where
  pub items : Items read xs s.emit s'.emit
  pub counted : s'.count ≡ s.count + length xs

abbrev pub Good : Section → Type 0
Good s = IsTable s.emit.names s.emit.index

Grows-append :
    {A : Type 0} {read : List Bytes → Parser A} {xs ys : List A} {s s' s'' : Section}
    → Grows read xs s s'
    → Grows read ys s' s''
    → Grows read (xs ++ ys) s s''
Grows-append {xs = xs} {ys = ys} g h = record {
  items = Items-append g.items h.items;
  counted = omega (arith, g.counted, h.counted, length-append xs ys);
}

Grows-nil : {A : Type 0} {read : List Bytes → Parser A} (s : Section) → Grows read [] s s
Grows-nil s = record { items = done; counted = omega arith }

-- A collision only adds a warning.
collided-Items :
    {A : Type 0} (read : List Bytes → Parser A) (xs : List A) (leaf path : Bytes) (s : Section)
    (e' : Emit)
    → Items read xs (note_collision leaf path s).emit e'
    → Items read xs s.emit e'
unfolding note_collision
collided-Items {A = A} read xs leaf path s e' items = elim (Bool-cases (member s.seen leaf)) [
  | inl again ↦
      let noted : Items {A = A} read xs (warn (duplicate leaf path) s.emit) e' =
        rw again at items in
      quiet (s.emit.warnings ++ duplicate leaf path ∷ []) noted
  | inr new ↦ rw new at items
]

collided-Good : (leaf path : Bytes) (s : Section) → Good s → Good (note_collision leaf path s)
unfolding note_collision
collided-Good leaf path s ok = elim (Bool-cases (member s.seen leaf)) [
  | inl again ↦ rw again ok
  | inr new ↦ rw new ok
]

collided-count : (leaf path : Bytes) (s : Section) → (note_collision leaf path s).count ≡ s.count
unfolding note_collision
collided-count leaf path s = elim (Bool-cases (member s.seen leaf)) [
  | inl again ↦ rw again refl
  | inr new ↦ rw new refl
]

named_enum-Grows :
    (package_name leaf : Bytes) (r : Enum) (s : Section)
    → Good s
    → Grows read_enum (named_enum_views leaf r) s (named_enum package_name leaf r s)
unfolding named_enum_views named_enum
named_enum-Grows package_name [] r s ok = record {
  items = quiet (s.emit.warnings ++ nameless_enum package_name ∷ []) done;
  counted = omega arith;
}
named_enum-Grows package_name (c ∷ cs) r s ok =
    let s' : Section = note_collision (c ∷ cs) r.path s in
    let w = enum_entry-Writes (c ∷ cs) r.values s'.emit (collided-Good (c ∷ cs) r.path s ok) in
    record {
      items =
          collided-Items read_enum (enum_view (c ∷ cs) r.values ∷ []) (c ∷ cs) r.path s
            (enum_entry (c ∷ cs) r.values s'.emit) (next w done);
      counted = omega (arith, collided-count (c ∷ cs) r.path s);
    }

named_struct-Grows :
    (package_name leaf : Bytes) (r : Struct) (s : Section)
    → Good s
    → Grows read_struct (named_struct_views leaf r) s (named_struct package_name leaf r s)
unfolding named_struct_views named_struct
named_struct-Grows package_name [] r s ok = record {
  items = quiet (s.emit.warnings ++ nameless_struct package_name ∷ []) done;
  counted = omega arith;
}
named_struct-Grows package_name (c ∷ cs) r s ok =
    let s' : Section = note_collision (c ∷ cs) r.path s in
    let w = struct_entry-Writes (c ∷ cs) r s'.emit (collided-Good (c ∷ cs) r.path s ok) in
    record {
      items =
          collided-Items read_struct (struct_view (c ∷ cs) r ∷ []) (c ∷ cs) r.path s
            (struct_entry (c ∷ cs) r s'.emit) (next w done);
      counted = omega (arith, collided-count (c ∷ cs) r.path s);
    }

pub Grows-Good :
    {A : Type 0} {read : List Bytes → Parser A} {xs : List A} {s s' : Section}
    → Grows read xs s s'
    → Good s
    → Good s'
Grows-Good g ok = Items-IsTable g.items ok

emit_enums-Grows :
    (package_name : Bytes) (enums : List Enum) (s : Section)
    → Good s
    → Grows read_enum (enum_views enums) s (emit_enums package_name enums s)
unfolding emit_enums enum_views
emit_enums-Grows package_name [] s ok = Grows-nil s
emit_enums-Grows package_name (r ∷ enums) s ok =
    let first = named_enum-Grows package_name (leaf_of r.name r.path) r s ok in
    rw (sym (leaf_of-shown_name r.name r.path)) (
      Grows-append first (
        emit_enums-Grows package_name enums (named_enum package_name (leaf_of r.name r.path) r s)
          (Grows-Good first ok)))

emit_structs-Grows :
    (package_name : Bytes) (structs : List Struct) (s : Section)
    → Good s
    → Grows read_struct (struct_views structs) s (emit_structs package_name structs s)
unfolding emit_structs struct_views
emit_structs-Grows package_name [] s ok = Grows-nil s
emit_structs-Grows package_name (r ∷ structs) s ok =
    let first = named_struct-Grows package_name (leaf_of r.name r.path) r s ok in
    rw (sym (leaf_of-shown_name r.name r.path)) (
      Grows-append first (
        emit_structs-Grows package_name structs
          (named_struct package_name (leaf_of r.name r.path) r s) (Grows-Good first ok)))

pub all_enums-Grows :
    (packages : List Package) (s : Section)
    → Good s
    → Grows read_enum (all_enum_views packages) s (all_enums packages s)
unfolding all_enums all_enum_views
all_enums-Grows [] s ok = Grows-nil s
all_enums-Grows (p ∷ packages) s ok =
    let first = emit_enums-Grows p.name p.enums s ok in
    Grows-append first
      (all_enums-Grows packages (emit_enums p.name p.enums s) (Grows-Good first ok))

pub all_structs-Grows :
    (packages : List Package) (s : Section)
    → Good s
    → Grows read_struct (all_struct_views packages) s (all_structs packages s)
unfolding all_structs all_struct_views
all_structs-Grows [] s ok = Grows-nil s
all_structs-Grows (p ∷ packages) s ok =
    let s1 : Section = emit_structs p.name p.classes s in
    let classes = emit_structs-Grows p.name p.classes s ok in
    let structs = emit_structs-Grows p.name p.structs s1 (Grows-Good classes ok) in
    let both = Grows-append classes structs in
    Grows-append both
      (all_structs-Grows packages (emit_structs p.name p.structs s1) (Grows-Good both ok))

unfoldable pub read_entry : Parser Bytes
read_entry = bind read_u8 read_raw

pub Reads-names :
    (names : List Bytes)
    → All (λ n. length n ≤ 255) names
    → Reads (read_many (length names) read_entry) names (name_bytes names)
unfolding read_many name_bytes read_entry
Reads-names [] short = unfold pure in λ rest. refl
Reads-names (n ∷ names) (le, short) =
    let one : length n % 256 ≡ length n = omega arith in
    let first : Reads read_entry n ((length n % 256) ∷ n) =
      subst (λ (k : ℕ). Reads (bind read_u8 read_raw) n (k ∷ n)) (sym one)
        (Reads-bind read_u8 read_raw (length n) n (length n ∷ []) n (Reads-u8 (length n))
          (Reads-raw n)) in
    Reads-bind read_entry (λ x. bind (read_many (length names) read_entry) (λ xs. pure (x ∷ xs))) n
      (n ∷ names) ((length n % 256) ∷ n) (name_bytes names) first
      (Reads-end (read_many (length names) read_entry) (λ xs. n ∷ xs) names (name_bytes names)
        (Reads-names names short))
