-- ===== src/Diff/Distinct.antt =====
-- Maps that are filled member by member, as in DiffEnum, Index and Diff of src/diff/src/Diff.cpp.
use zircon_dumper.Prelude.{
  ◌≡◌, refl, sym, ap, ◌∙◌, subst, Bool, true, false, Option, none, some, List, [], ◌∷◌,
  if◌then◌else◌,
}
use zircon_dumper.Prelude.Preds.{Bytes, All}
use zircon_dumper.Prelude.Text.{same_bytes, same_bytes_refl, lookup, assign_key, assign_all}
use zircon_dumper.Diff.Counts.{lookup-assign_key}

-- The members have different names.
abbrev pub IsDistinct : {A : Type 0} → (A → Bytes) → List A → Type 0
IsDistinct name_of [] = Unit
IsDistinct name_of (x ∷ xs) =
    All (λ y. same_bytes (name_of y) (name_of x) ≡ false) xs × IsDistinct name_of xs

-- Every value of a map has a property.
abbrev pub Holds : {V : Type 0} → (V → Type 0) → List (Bytes × V) → Type 0
Holds P dict = (key : Bytes) → (v : _) → lookup dict key ≡ some v → P v

some_inj : {V : Type 0} {x y : V} → some x ≡ some y → x ≡ y
some_inj {x = x} e = ap (λ (o : Option _). elim o [ none ↦ x | some z ↦ z ]) e

either :
    {V : Type 0} (P : V → Type 0) (b : Bool) (w : V) (o : Option V) (v : V)
    → (if b then some w else o) ≡ some v
    → P w
    → (o ≡ some v → P v)
    → P v
either P true w o v found first rest = subst P (some_inj found) first
either P false w o v found first rest = rest found

module _ {A V : Type 0} (name_of : A → Bytes) (value_of : A → V) where
  lookup-assign_all :
      (xs : List A) (dict : List (Bytes × V)) (key : Bytes)
      → All (λ y. same_bytes (name_of y) key ≡ false) xs
      → lookup (assign_all name_of value_of xs dict) key ≡ lookup dict key
  unfolding assign_all
  lookup-assign_all [] dict key others = refl
  lookup-assign_all (x ∷ xs) dict key (other, others) =
      lookup-assign_all xs (assign_key dict (name_of x) (value_of x)) key others
      ∙ rw (lookup-assign_key dict (name_of x) key (value_of x), other) refl

  -- Members of different names are found with their own values.
  pub assign_all_found :
      (xs : List A) (dict : List (Bytes × V))
      → IsDistinct name_of xs
      → All (λ x. lookup (assign_all name_of value_of xs dict) (name_of x) ≡ some (value_of x)) xs
  unfolding assign_all
  assign_all_found [] dict distinct = tt
  assign_all_found (x ∷ xs) dict (others, distinct) =
      let next = assign_key dict (name_of x) (value_of x) in
      (
        lookup-assign_all xs next (name_of x) others
            ∙ rw
                (
                  lookup-assign_key dict (name_of x) (name_of x) (value_of x),
                  same_bytes_refl (name_of x),
                )
                refl,
        assign_all_found xs next distinct,
      )

  pub assign_all-Holds :
      (P : V → Type 0) (xs : List A) (dict : List (Bytes × V))
      → All (λ x. P (value_of x)) xs
      → Holds P dict
      → Holds P (assign_all name_of value_of xs dict)
  unfolding assign_all
  assign_all-Holds P [] dict all holds = holds
  assign_all-Holds P (x ∷ xs) dict (first, all) holds =
      assign_all-Holds P xs (assign_key dict (name_of x) (value_of x)) all (λ key v found.
        either P (same_bytes (name_of x) key) (value_of x) (lookup dict key) v
          (sym (lookup-assign_key dict (name_of x) key (value_of x)) ∙ found) first (holds key v))
