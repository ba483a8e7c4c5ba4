-- ===== src/Ir.antt =====
-- The intermediate representation of src/ir/include/ir/Model.h, and the lookups of
-- src/ir/src/Model.cpp. Numbers of 32 and 64 bits with a sign are integers.
pub mod Kinds
mod Tests
use zircon_dumper.Prelude.{
  ℕ, ◌+◌, Bool, true, false, ◌&&◌, Option, none, some, List, [], ◌∷◌, ◌==◌, if◌then◌else◌, length,
}
use zircon_dumper.Prelude.Int.{ℤ, same_int}
use zircon_dumper.Prelude.Preds.{Bytes}
use zircon_dumper.Prelude.Text.{same_bytes}
use zircon_dumper.Ir.Kinds.{TypeKind, kind_text}

-- TypeRef: its kind, name, raw name, parameters and size.
mutual
  pub data TypeRef : Type 0 where
    type_ref : TypeKind → Bytes → Bytes → TypeRefs → ℤ → TypeRef

  pub data TypeRefs : Type 0 where
    no_params : TypeRefs
    param : TypeRef → TypeRefs → TypeRefs

pub record Property : Type 0 where
  pub name : Bytes
  pub type : TypeRef
  pub offset : ℤ
  pub size : ℤ
  pub array_dim : ℤ
  pub flags : ℕ
  pub is_static : Bool
  pub offset_unresolved : Bool
  pub is_bitfield : Bool
  pub byte_mask : ℕ
  pub field_mask : ℕ
  pub bit_index : ℤ
  pub default_value : Bytes

pub record FunctionParam : Type 0 where
  pub name : Bytes
  pub type : TypeRef
  pub offset : ℤ
  pub size : ℤ
  pub is_return : Bool
  pub is_out : Bool
  pub is_const : Bool

-- The statements of a script are left out, which no part of the development reads.
pub record Function : Type 0 where
  pub name : Bytes
  pub flags : ℕ
  pub params : List FunctionParam
  pub native_rva : ℕ

pub record EnumValue : Type 0 where
  pub name : Bytes
  pub value : ℤ

pub record Enum : Type 0 where
  pub name : Bytes
  pub path : Bytes
  pub values : List EnumValue

-- The fields that the parts of the development read.
pub record Struct : Type 0 where
  pub name : Bytes
  pub path : Bytes
  pub super : Bytes
  pub is_class : Bool
  pub size : ℤ
  pub alignment : ℤ
  pub cpp_prefix : ℕ
  pub properties : List Property
  pub functions : List Function

pub record Package : Type 0 where
  pub name : Bytes
  pub classes : List Struct
  pub structs : List Struct
  pub enums : List Enum

pub record DerivedOffset : Type 0 where
  pub name : Bytes
  pub value : ℤ

-- The header by the fields that are read: `partial`, the process and the main module of the source,
-- the version of the engine, and the offsets.
pub record Header : Type 0 where
  pub partial : Bool
  pub process : Bytes
  pub main_module : Bytes
  pub version : Bytes
  pub offsets : List DerivedOffset

pub record Dump : Type 0 where
  pub header : Header
  pub packages : List Package

unfoldable mutual
  -- operator== of TypeRef.
  pub same_type : TypeRef → TypeRef → Bool
  same_type (type_ref k n r ps s) (type_ref k' n' r' ps' s') =
      same_bytes (kind_text k) (kind_text k')
      && (same_bytes n n' && (same_bytes r r' && (same_int s s' && same_types ps ps')))

  pub same_types : TypeRefs → TypeRefs → Bool
  same_types no_params no_params = true
  same_types no_params (param t ts) = false
  same_types (param t ts) no_params = false
  same_types (param t ts) (param u us) = same_type t u && same_types ts us

-- FindPackage.
unfoldable pub find_package : List Package → Bytes → Option Package
find_package [] name = none
find_package (p ∷ packages) name =
    if same_bytes p.name name then some p else find_package packages name

-- A sum over the packages, as each of the functions TotalClasses to TotalFunctions has it.
unfoldable pub total : (Package → ℕ) → List Package → ℕ
total count [] = 0
total count (p ∷ packages) = count p + total count packages

unfoldable pub over_structs : (Struct → ℕ) → List Struct → ℕ
over_structs count [] = 0
over_structs count (s ∷ structs) = count s + over_structs count structs

unfoldable pub total_classes : Dump → ℕ
total_classes d = total (λ p. length p.classes) d.packages

unfoldable pub total_structs : Dump → ℕ
total_structs d = total (λ p. length p.structs) d.packages

unfoldable pub total_enums : Dump → ℕ
total_enums d = total (λ p. length p.enums) d.packages

unfoldable pub total_properties : Dump → ℕ
total_properties d =
    total
      (λ p.
        over_structs (λ s. length s.properties) p.classes
        + over_structs (λ s. length s.properties) p.structs)
      d.packages

unfoldable pub total_functions : Dump → ℕ
total_functions d =
    total
      (λ p.
        over_structs (λ s. length s.functions) p.classes
        + over_structs (λ s. length s.functions) p.structs)
      d.packages
