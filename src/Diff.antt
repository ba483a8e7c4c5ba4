-- ===== src/Diff.antt =====
-- The changes that src/diff/src/Diff.cpp reports, and Differ::Emit.
pub mod Clean
pub mod Counts
pub mod Distinct
pub mod Functions
pub mod Index
pub mod Itself
pub mod Keys
pub mod Keeps
pub mod KeepsFunctions
pub mod Members
pub mod Names
pub mod Notes
pub mod Order
pub mod Reported
pub mod Same
pub mod Tally
mod Tests
pub mod Whole
use zircon_dumper.Prelude.{
  ℕ, zero, suc, ◌+◌, ◌-◌, Bool, true, false, not, ◌&&◌, ◌||◌, Option, none, some, List, [], ◌∷◌,
  ◌++◌, leb, ltb, ◌==◌, if◌then◌else◌, length, replicate,
}
use zircon_dumper.Prelude.Int.{ℤ, decimal_int, hex}
use zircon_dumper.Prelude.Preds.{Bytes}
use zircon_dumper.Prelude.Text.{codes}
use zircon_dumper.Ir.{TypeRef, type_ref, TypeRefs, no_params, param, FunctionParam, Function}
use zircon_dumper.Ir.Kinds.{kind_text}

pub data Severity : Type 0 where
  info : Severity
  low : Severity
  medium : Severity
  high : Severity
  critical : Severity

-- The order of the severities.
unfoldable pub rank : Severity → ℕ
rank info = 0
rank low = 1
rank medium = 2
rank high = 3
rank critical = 4

pub data ChangeKind : Type 0 where
  package_added : ChangeKind
  package_removed : ChangeKind
  type_added : ChangeKind
  type_removed : ChangeKind
  type_resized : ChangeKind
  type_realigned : ChangeKind
  type_super_changed : ChangeKind
  property_added : ChangeKind
  property_removed : ChangeKind
  property_moved : ChangeKind
  property_resized : ChangeKind
  property_type_changed : ChangeKind
  property_flags_changed : ChangeKind
  property_bit_moved : ChangeKind
  property_renamed : ChangeKind
  property_default_changed : ChangeKind
  function_added : ChangeKind
  function_removed : ChangeKind
  function_signature_changed : ChangeKind
  function_moved : ChangeKind
  function_flags_changed : ChangeKind
  enum_added : ChangeKind
  enum_removed : ChangeKind
  enum_value_added : ChangeKind
  enum_value_removed : ChangeKind
  enum_value_changed : ChangeKind
  engine_version_changed : ChangeKind
  layout_offset_changed : ChangeKind

-- The place of a kind in the enumeration.
unfoldable pub kind_rank : ChangeKind → ℕ
kind_rank package_added = 0
kind_rank package_removed = 1
kind_rank type_added = 2
kind_rank type_removed = 3
kind_rank type_resized = 4
kind_rank type_realigned = 5
kind_rank type_super_changed = 6
kind_rank property_added = 7
kind_rank property_removed = 8
kind_rank property_moved = 9
kind_rank property_resized = 10
kind_rank property_type_changed = 11
kind_rank property_flags_changed = 12
kind_rank property_bit_moved = 13
kind_rank property_renamed = 14
kind_rank property_default_changed = 15
kind_rank function_added = 16
kind_rank function_removed = 17
kind_rank function_signature_changed = 18
kind_rank function_moved = 19
kind_rank function_flags_changed = 20
kind_rank enum_added = 21
kind_rank enum_removed = 22
kind_rank enum_value_added = 23
kind_rank enum_value_removed = 24
kind_rank enum_value_changed = 25
kind_rank engine_version_changed = 26
kind_rank layout_offset_changed = 27

unfoldable pub default_severity : ChangeKind → Severity
default_severity package_added = info
default_severity package_removed = high
default_severity type_added = info
default_severity type_removed = critical
default_severity type_resized = high
default_severity type_realigned = medium
default_severity type_super_changed = high
default_severity property_added = info
default_severity property_removed = critical
default_severity property_moved = critical
default_severity property_resized = critical
default_severity property_type_changed = critical
default_severity property_flags_changed = low
default_severity property_bit_moved = critical
default_severity property_renamed = medium
default_severity property_default_changed = low
default_severity function_added = info
default_severity function_removed = critical
default_severity function_signature_changed = high
default_severity function_moved = high
default_severity function_flags_changed = low
default_severity enum_added = info
default_severity enum_removed = high
default_severity enum_value_added = info
default_severity enum_value_removed = high
default_severity enum_value_changed = high
default_severity engine_version_changed = medium
default_severity layout_offset_changed = medium

pub record Change : Type 0 where
  pub kind : ChangeKind
  pub severity : Severity
  pub path : Bytes
  pub member : Bytes
  pub before : Bytes
  pub after : Bytes
  pub detail : Bytes

pub record DiffOptions : Type 0 where
  pub package_filter : Bytes
  pub include_additions : Bool
  pub minimum : Severity
  pub detect_renames : Bool

-- The changes so far, with `by_severity` and `by_kind`. A key that is missing has the count 0.
pub record Report : Type 0 where
  pub changes : List Change
  pub by_severity : Severity → ℕ
  pub by_kind : ChangeKind → ℕ

unfoldable pub is_addition : ChangeKind → Bool
is_addition type_added = true
is_addition property_added = true
is_addition function_added = true
is_addition enum_added = true
is_addition enum_value_added = true
is_addition package_added = true
is_addition _ = false

-- Emit for a change that is not left out.
unfoldable pub push : Change → Report → Report
push c r = record {
  changes = r.changes ++ c ∷ [];
  by_severity = λ s. if rank s == rank c.severity then r.by_severity s + 1 else r.by_severity s;
  by_kind = λ k. if kind_rank k == kind_rank c.kind then r.by_kind k + 1 else r.by_kind k;
}

-- Whether Emit leaves a change out.
unfoldable pub left_out : DiffOptions → ChangeKind → Bool
left_out options kind =
    ltb (rank (default_severity kind)) (rank options.minimum)
    || (not options.include_additions && is_addition kind)

unfoldable pub emit :
    DiffOptions → ChangeKind → Bytes → Bytes → Bytes → Bytes → Bytes → Report → Report
emit options kind path member before after detail r =
    if left_out options kind
    then r
    else push
        (record {
          kind = kind;
          severity = default_severity kind;
          path = path;
          member = member;
          before = before;
          after = after;
          detail = detail;
        })
        r

-- HasBreakingChanges.
unfoldable pub has_breaking_changes : Report → Bool
has_breaking_changes r = ltb 0 (r.by_severity high) || ltb 0 (r.by_severity critical)

-- Signature of a type.
unfoldable mutual
  pub signature : TypeRef → Bytes
  signature (type_ref kind name raw params size) =
      kind_text kind
      ++ ((if length name == 0 then [] else b'<' ∷ (name ++ b'>' ∷ []))
          ++ (in_brackets params ++ (b'[' ∷ (decimal_int size ++ b']' ∷ []))))

  pub in_brackets : TypeRefs → Bytes
  in_brackets no_params = []
  in_brackets (param t ts) = b'(' ∷ (signature t ++ more_signatures ts)

  pub more_signatures : TypeRefs → Bytes
  more_signatures no_params = b')' ∷ []
  more_signatures (param t ts) = b',' ∷ (signature t ++ more_signatures ts)

-- The loop of Signature over the parameters of a function, behind what it has written.
unfoldable pub param_loop : Bytes → List FunctionParam → Bytes
param_loop out [] = out
param_loop out (p ∷ params) =
    param_loop
      (out
        ++ ((if length out == 0 then [] else codes ", ")
            ++ ((if p.is_return then codes "-> " else if p.is_out then codes "out " else [])
                ++ signature p.type)))
      params

unfoldable pub function_signature : Function → Bytes
function_signature f = param_loop [] f.params

-- `{:0nX}` of a number.
unfoldable pub padded_hex : ℕ → ℕ → Bytes
padded_hex width n = replicate (width - length (hex n)) b'0' ++ hex n
