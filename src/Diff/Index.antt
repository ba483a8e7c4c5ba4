-- ===== src/Diff/Index.antt =====
-- Index and the orders of src/diff/src/Diff.cpp.
use zircon_dumper.Prelude.{
  Bool, true, false, not, ◌&&◌, ◌||◌, List, [], ◌∷◌, ◌++◌, map, ltb, ◌==◌, if◌then◌else◌, length,
}
use zircon_dumper.Prelude.Preds.{Bytes}
use zircon_dumper.Prelude.Text.{same_bytes, contains_text, assign_all}
use zircon_dumper.Ir.{Enum, Struct, Package}
use zircon_dumper.Diff.{rank, Change}

-- The maps have an entry for each key, in the order of the keys' first assignments.
pub record TypeIndex : Type 0 where
  pub types : List (Bytes × Struct)
  pub enums : List (Bytes × Enum)
  pub packages : List Bytes

unfoldable pub has_name : List Bytes → Bytes → Bool
has_name [] name = false
has_name (n ∷ names) name = same_bytes n name || has_name names name

-- `packages.insert(name)`.
unfoldable pub insert_name : List Bytes → Bytes → List Bytes
insert_name names name = if has_name names name then names else names ++ name ∷ []

abbrev by_path : List Struct → List (Bytes × Struct) → List (Bytes × Struct)
by_path = assign_all (λ (s : Struct). s.path) (λ s. s)

unfoldable pub index_package : Package → TypeIndex → TypeIndex
index_package p index = record {
  types = by_path p.structs (by_path p.classes index.types);
  enums = assign_all (λ (e : Enum). e.path) (λ e. e) p.enums index.enums;
  packages = insert_name index.packages p.name;
}

unfoldable pub index_from : List Package → Bytes → TypeIndex → TypeIndex
index_from [] filter index = index
index_from (p ∷ packages) filter index = index_from packages filter (
    if not (length filter == 0) && not (contains_text filter p.name)
    then index
    else index_package p index)

abbrev pub empty_index : TypeIndex
empty_index = record { types = []; enums = []; packages = [] }

-- Index.
unfoldable pub index_of : List Package → Bytes → TypeIndex
index_of packages filter = index_from packages filter empty_index

-- The order of std::string.
unfoldable pub less_text : Bytes → Bytes → Bool
less_text xs [] = false
less_text [] (y ∷ ys) = true
less_text (x ∷ xs) (y ∷ ys) = ltb x y || ((x == y) && less_text xs ys)

module _ {A : Type 0} (less : A → A → Bool) where
  unfoldable pub insert_sorted : A → List A → List A
  insert_sorted x [] = x ∷ []
  insert_sorted x (y ∷ ys) =
      let rest = insert_sorted x ys in if less y x then y ∷ rest else x ∷ y ∷ ys

  -- A stable sort.
  unfoldable pub sort_by : List A → List A
  sort_by [] = []
  sort_by (x ∷ xs) = insert_sorted x (sort_by xs)

unfoldable pub sorted_keys : {A : Type 0} → List (Bytes × A) → List Bytes
sorted_keys dict = sort_by less_text (map (λ e. e.0) dict)

-- The order of the report: most severe first, then by path, then by member.
unfoldable pub comes_first : Change → Change → Bool
comes_first a b =
    if not (rank a.severity == rank b.severity)
    then ltb (rank b.severity) (rank a.severity)
    else if not (same_bytes a.path b.path)
    then less_text a.path b.path
    else less_text a.member b.member
