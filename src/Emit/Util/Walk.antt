-- ===== src/Emit/Util/Walk.antt =====
-- The walk of CppPrefixFor of src/emit/src/Util.cpp comes to an end, also where super classes go
-- round.
use zircon_dumper.Prelude.{
  ℕ, zero, suc, ◌+◌, ◌≤◌, ◌<◌, ◌≡◌, refl, sym, ap, ◌∙◌, subst, Bool, true, false, Option, none,
  some, List, [], ◌∷◌, ◌==◌, if◌then◌else◌, length, arith, Bool-cases, inl, inr,
}
use zircon_dumper.Prelude.Preds.{Bytes, All}
use zircon_dumper.Prelude.Text.{
  codes, same_bytes, same_bytes-true, same_bytes_refl, lookup, assign_key,
}
use zircon_dumper.Ir.{Struct, Package}
use zircon_dumper.Emit.Util.{member, index_classes, index_packages, prefix_loop, walk_prefix}

abbrev pub ByPath : Type 0
ByPath = List (Bytes × Struct)

-- A class stands under its path.
abbrev pub IsIndexed : Bytes × Struct → Type 0
IsIndexed (key, s) = s.path ≡ key

assign_key-IsIndexed :
    (dict : ByPath) (s : Struct) → All IsIndexed dict → All IsIndexed (assign_key dict s.path s)
unfolding assign_key
assign_key-IsIndexed [] s ok = (refl, tt)
assign_key-IsIndexed ((k, v) ∷ dict) s (first, rest) = elim (Bool-cases (same_bytes k s.path)) [
  | inl same ↦ rw same (sym (same_bytes-true k s.path same), rest)
  | inr other ↦ rw other (first, assign_key-IsIndexed dict s rest)
]

index_classes-IsIndexed :
    (classes : List Struct) (dict : ByPath)
    → All IsIndexed dict
    → All IsIndexed (index_classes classes dict)
unfolding index_classes
index_classes-IsIndexed [] dict ok = ok
index_classes-IsIndexed (c ∷ classes) dict ok =
    index_classes-IsIndexed classes (assign_key dict c.path c) (assign_key-IsIndexed dict c ok)

pub index_packages-IsIndexed :
    (packages : List Package) (dict : ByPath)
    → All IsIndexed dict
    → All IsIndexed (index_packages packages dict)
unfolding index_packages
index_packages-IsIndexed [] dict ok = ok
index_packages-IsIndexed (p ∷ packages) dict ok =
    index_packages-IsIndexed packages (index_classes p.classes dict)
      (index_classes-IsIndexed p.classes dict ok)

-- How many entries have a path that the walk has not visited.
unfoldable unseen : ByPath → List Bytes → ℕ
unseen [] seen = 0
unseen ((k, s) ∷ dict) seen = (if member seen k then 0 else 1) + unseen dict seen

unseen_le : (dict : ByPath) (seen : List Bytes) → unseen dict seen ≤ length dict
unfolding unseen
unseen_le [] seen = omega arith
unseen_le ((k, s) ∷ dict) seen = elim (Bool-cases (member seen k)) [
  | inl old ↦ rw old (omega (arith, unseen_le dict seen))
  | inr new ↦ rw new (omega (arith, unseen_le dict seen))
]

unseen-cons :
    (dict : ByPath) (path : Bytes) (seen : List Bytes)
    → unseen dict (path ∷ seen) ≤ unseen dict seen
unfolding unseen member
unseen-cons [] path seen = omega arith
unseen-cons ((k, s) ∷ dict) path seen = elim (Bool-cases (member seen k)) [
  | inr new ↦ elim (Bool-cases (same_bytes path k)) [
    | inl same ↦ rw (new, same) (omega (arith, unseen-cons dict path seen))
    | inr other ↦ rw (new, other) (omega (arith, unseen-cons dict path seen))
  ]
  | inl old ↦ elim (Bool-cases (same_bytes path k)) [
    | inl same ↦ rw (old, same) (omega (arith, unseen-cons dict path seen))
    | inr other ↦ rw (old, other) (omega (arith, unseen-cons dict path seen))
  ]
]

-- A visit to an entry that was not visited.
unseen-lookup :
    (dict : ByPath) (seen : List Bytes) (key : Bytes) (s : Struct)
    → lookup dict key ≡ some s
    → member seen key ≡ false
    → unseen dict (key ∷ seen) < unseen dict seen
unfolding unseen member lookup
unseen-lookup [] seen key s found new = absurd (ground (arith, found))
unseen-lookup ((k, v) ∷ dict) seen key s found new = elim (Bool-cases (same_bytes k key)) [
  | inl same ↦
      let eq = same_bytes-true k key same in
      let new' : member seen k ≡ false =
        subst (λ (x : Bytes). member seen x ≡ false) (sym eq) new in
      let back : same_bytes key k ≡ true =
        subst (λ (x : Bytes). same_bytes key x ≡ true) (sym eq) (same_bytes_refl key) in
      rw (new', back) (omega (arith, unseen-cons dict key seen))
  | inr other ↦
      let rest : lookup dict key ≡ some s = rw other at found in
      let fewer = unseen-lookup dict seen key s rest new in
      elim (Bool-cases (member seen k)) [
        | inl old ↦ elim (Bool-cases (same_bytes key k)) [
          | inl same ↦ rw (old, same) (omega (arith, fewer))
          | inr differ ↦ rw (old, differ) (omega (arith, fewer))
        ]
        | inr fresh ↦ elim (Bool-cases (same_bytes key k)) [
          | inl same ↦ rw (fresh, same) (omega (arith, fewer))
          | inr differ ↦ rw (fresh, differ) (omega (arith, fewer))
        ]
      ]
]

lookup-path :
    (dict : ByPath) (key : Bytes) (s : Struct)
    → All IsIndexed dict
    → lookup dict key ≡ some s
    → s.path ≡ key
unfolding lookup
lookup-path [] key s ok found = absurd (ground (arith, found))
lookup-path ((k, v) ∷ dict) key s (first, rest) found = elim (Bool-cases (same_bytes k key)) [
  | inl same ↦
      let here : Path (Option Struct) (some v) (some s) = rw same at found in
      let eq : v ≡ s = some_inj here in
      ap (λ (x : Struct). x.path) (sym eq) ∙ (first ∙ same_bytes-true k key same)
  | inr other ↦ lookup-path dict key s rest (rw other at found)
]
  where
    some_inj : {x y : Struct} → Path (Option Struct) (some x) (some y) → x ≡ y
    some_inj {x = x} e = ap (λ (o : Option Struct). elim o [ none ↦ x | some z ↦ z ]) e

-- The walk gives a prefix.
abbrev pub Gives : Option ℕ → Type 0
Gives none = ⊥
Gives (some c) = Unit

pub if-Gives : (b : Bool) (x y : Option ℕ) → Gives x → Gives y → Gives (if b then x else y)
if-Gives true x y first second = first
if-Gives false x y first second = second

-- A walk that goes on from a class of the dump, with two rounds more than there are classes that it
-- has not visited, gives a prefix.
walk-Gives :
    (f : ℕ) (dict : ByPath) (seen : List Bytes) (key : Bytes) (current : Option Struct)
    → All IsIndexed dict
    → lookup dict key ≡ current
    → unseen dict seen + 1 < f
    → Gives (prefix_loop f dict seen current)
unfolding prefix_loop
walk-Gives zero dict seen key current ok found enough = absurd (omega arith)
walk-Gives (suc f) dict seen key none ok found enough = tt
walk-Gives (suc f) dict seen key (some c) ok found enough =
    let path = lookup-path dict key c ok found in
    if-Gives (same_bytes c.path (codes "/Script/Engine.Actor")) _ _ tt (
      if-Gives (same_bytes c.path (codes "/Script/CoreUObject.Interface")) _ _ tt (
        if-Gives (length c.super == 0) _ _ tt (elim (Bool-cases (member seen c.path)) [
          | inl again ↦ rw again tt
          | inr new ↦
              let here : lookup dict c.path ≡ some c =
                subst (λ (k : Bytes). lookup dict k ≡ some c) (sym path) found in
              let fewer = unseen-lookup dict seen c.path c here new in
              rw new (
                walk-Gives f dict (c.path ∷ seen) c.super (lookup dict c.super) ok refl
                  (omega arith))
        ])))

first-Gives :
    (f : ℕ) (dict : ByPath) (c : Struct)
    → All IsIndexed dict
    → length dict + 2 < f
    → Gives (prefix_loop f dict [] (some c))
unfolding prefix_loop
first-Gives zero dict c ok enough = absurd (omega arith)
first-Gives (suc f) dict c ok enough =
    if-Gives (same_bytes c.path (codes "/Script/Engine.Actor")) _ _ tt (
      if-Gives (same_bytes c.path (codes "/Script/CoreUObject.Interface")) _ _ tt (
        if-Gives (length c.super == 0) _ _ tt (
          if-Gives (member [] c.path) _ _ tt (
            walk-Gives f dict (c.path ∷ []) c.super (lookup dict c.super) ok refl
              (omega (arith, unseen_le dict (c.path ∷ [])))))))

pub Gives-some : (o : Option ℕ) → Gives o → (c : ℕ) × (o ≡ some c)
Gives-some none given = absurd given
Gives-some (some c) given = (c, refl)

pub walk_prefix-Gives :
    (dict : ByPath) (s : Struct) → All IsIndexed dict → Gives (walk_prefix dict s)
unfolding walk_prefix
walk_prefix-Gives dict s ok = first-Gives (suc (suc (suc (length dict)))) dict s ok (omega arith)
