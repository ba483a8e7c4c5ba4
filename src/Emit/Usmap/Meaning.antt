-- ===== src/Emit/Usmap/Meaning.antt =====
-- What the records of a dump mean to a reader of the format that src/emit/src/Usmap.cpp writes: names
-- without their path, and the elements of arrays.
use zircon_dumper.Prelude.{
  ℕ, zero, suc, ◌+◌, ◌≡◌, refl, sym, ◌∙◌, Option, none, some, List, [], ◌∷◌, ◌++◌, append_assoc,
  append-nil, ◌==◌, if◌then◌else◌, drop, arith, Bool-cases, inl, inr,
}
use zircon_dumper.Prelude.Int.{ℤ, pos, negsuc}
use zircon_dumper.Prelude.Preds.{Bytes}
use zircon_dumper.Ir.{Property}
use zircon_dumper.Emit.Util.{last_of, after, leaf_name}
use zircon_dumper.Emit.Usmap.{type_leaf}
use zircon_dumper.Emit.Usmap.File.{leaf_of, dim_of, slots_of}

-- The characters behind the last dot, behind those that are kept.
unfoldable pub last_part : Bytes → Bytes → Bytes
last_part kept [] = kept
last_part kept (c ∷ cs) =
    let from_here = last_part [] cs in
    let more = last_part (kept ++ c ∷ []) cs in if c == b'.' then from_here else more

unfoldable behind : Bytes → Bytes → Option ℕ → Bytes
behind kept path none = kept ++ path
behind kept path (some i) = drop (i + 1) path

behind_step :
    (kept : Bytes) (c : ℕ) (cs : Bytes) (o : Option ℕ)
    → last_part [] cs ≡ behind [] cs o
    → last_part (kept ++ c ∷ []) cs ≡ behind (kept ++ c ∷ []) cs o
    → last_part kept (c ∷ cs)
      ≡ behind kept
          (c ∷ cs)
          (elim o [ some i ↦ some (suc i) | none ↦ if c == b'.' then some 0 else none ])
unfolding last_part behind
behind_step kept c cs none fresh more = elim (Bool-cases (c == b'.')) [
  | inl dot ↦ rw dot fresh
  | inr other ↦ rw other (more ∙ append_assoc kept (c ∷ []) cs)
]
behind_step kept c cs (some i) fresh more =
    let one_more : suc i + 1 ≡ suc (i + 1) = omega arith in
    elim (Bool-cases (c == b'.')) [
      | inl dot ↦ rw (last_part, dot, one_more) fresh
      | inr other ↦ rw (last_part, other, one_more) more
    ]

last_part-behind : (kept path : Bytes) → last_part kept path ≡ behind kept path (last_of b'.' path)
unfolding behind last_of
last_part-behind kept [] = unfold last_part in sym (append-nil kept)
last_part-behind kept (c ∷ cs) =
    behind_step kept c cs (last_of b'.' cs) (last_part-behind [] cs)
      (last_part-behind (kept ++ c ∷ []) cs)

after-behind : (path : Bytes) (o : Option ℕ) → after path o ≡ behind [] path o
unfolding after behind
after-behind path none = refl
after-behind path (some i) = refl

pub type_leaf-last_part : (path : Bytes) → type_leaf path ≡ last_part [] path
unfolding type_leaf leaf_name
type_leaf-last_part [] = unfold last_part in refl
type_leaf-last_part (c ∷ cs) =
    after-behind (c ∷ cs) (last_of b'.' (c ∷ cs)) ∙ sym (last_part-behind [] (c ∷ cs))

-- The name of a record, or the last part of its path where it has none.
unfoldable pub shown_name : Bytes → Bytes → Bytes
shown_name [] path = last_part [] path
shown_name (c ∷ cs) path = c ∷ cs

pub leaf_of-shown_name : (name path : Bytes) → leaf_of name path ≡ shown_name name path
unfolding leaf_of shown_name
leaf_of-shown_name [] path = type_leaf-last_part path
leaf_of-shown_name (c ∷ cs) path = refl

-- The elements of a property: one where no array is meant.
unfoldable pub elements : ℤ → ℕ
elements (pos zero) = 1
elements (pos (suc n)) = suc n
elements (negsuc n) = 1

pub dim_of-elements : (d : ℤ) → dim_of d ≡ elements d
unfolding dim_of elements
dim_of-elements (pos zero) = omega arith
dim_of-elements (pos (suc n)) = omega arith
dim_of-elements (negsuc n) = refl

unfoldable pub total_elements : List Property → ℕ
total_elements [] = 0
total_elements (p ∷ properties) = total_elements properties + elements p.array_dim

pub slots_of-total_elements :
    (properties : List Property) → slots_of properties ≡ total_elements properties
unfolding slots_of total_elements
slots_of-total_elements [] = refl
slots_of-total_elements (p ∷ properties) =
    omega (arith, dim_of-elements p.array_dim, slots_of-total_elements properties)
