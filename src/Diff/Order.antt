-- ===== src/Diff/Order.antt =====
-- The order of the report of src/diff/src/Diff.cpp.
use zircon_dumper.Prelude.{
  ◌<◌, Bool, ◌≤◌, ◌∙◌, ◌⊎◌, leb, ℕ, ◌≡◌, refl, true, false, not, List, [], ◌∷◌, ltb, ◌==◌,
  if◌then◌else◌, arith, Bool-cases, inl, inr,
}
use zircon_dumper.Prelude.Preds.{Bytes}
use zircon_dumper.Prelude.Text.{same_bytes, same_bytes-true}
use zircon_dumper.Ir.{Dump}
use zircon_dumper.Diff.{has_breaking_changes, rank, Change, DiffOptions}
use zircon_dumper.Diff.Index.{less_text, insert_sorted, sort_by, comes_first}
use zircon_dumper.Diff.Tally.{any_breaking, has_breaking_changes-diff}
use zircon_dumper.Diff.Whole.{sort_changes, diff}

less_text_asym : (xs ys : Bytes) → less_text xs ys ≡ true → less_text ys xs ≡ false
unfolding less_text
less_text_asym [] [] e = refl
less_text_asym [] (y ∷ ys) e = refl
less_text_asym (x ∷ xs) [] e = absurd (ground (arith, e))
less_text_asym (x ∷ xs) (y ∷ ys) e = elim (Bool-cases (ltb x y)) [
  | inl lt ↦
      let no : ltb y x ≡ false = ground (arith, lt) in
      let other : (y == x) ≡ false = ground (arith, lt) in rw (no, other) refl
  | inr ge ↦ elim (Bool-cases (x == y)) [
    | inl same ↦
        let rest : less_text xs ys ≡ true = simp (less_text, ge, same) at e in
        let no : ltb y x ≡ false = ground (arith, same) in
        let turned : (y == x) ≡ true = ground (arith, same) in
        rw (no, turned) (less_text_asym xs ys rest)
    | inr other ↦
        let never : false ≡ true = simp (less_text, ge, other) at e in
        absurd (ground (arith, never))
  ]
]

same_bytes_sym : (xs ys : Bytes) → same_bytes xs ys ≡ same_bytes ys xs
unfolding same_bytes
same_bytes_sym [] [] = refl
same_bytes_sym [] (y ∷ ys) = refl
same_bytes_sym (x ∷ xs) [] = refl
same_bytes_sym (x ∷ xs) (y ∷ ys) =
    let e : (x == y) ≡ (y == x) = ground arith in rw (e, same_bytes_sym xs ys) refl

-- The three tests of the order.
three_asym :
    (m n : ℕ) (p q : Bytes) (u v : Bytes)
    → (if not (m == n)
        then ltb n m
        else if not (same_bytes p q)
        then less_text p q
        else less_text u v)
      ≡ true
    → (if not (n == m)
        then ltb m n
        else if not (same_bytes q p)
        then less_text q p
        else less_text v u)
      ≡ false
three_asym m n p q u v e = elim (Bool-cases (m == n)) [
  | inl same ↦
      let turned : (n == m) ≡ true = ground (arith, same) in
      elim (Bool-cases (same_bytes p q)) [
        | inl also ↦
            let last : less_text u v ≡ true = simp (same, also) at e in
            rw (turned, same_bytes_sym q p, also) (less_text_asym u v last)
        | inr differ ↦
            let last : less_text p q ≡ true = simp (same, differ) at e in
            rw (turned, same_bytes_sym q p, differ) (less_text_asym p q last)
      ]
  | inr other ↦
      let turned : (n == m) ≡ false = ground (arith, other) in
      let last : ltb n m ≡ true = simp other at e in
      let no : ltb m n ≡ false = ground (arith, last) in rw (turned, no) refl
]

comes_first_asym : (a b : Change) → comes_first a b ≡ true → comes_first b a ≡ false
unfolding comes_first
comes_first_asym a b e =
    three_asym (rank a.severity) (rank b.severity) a.path b.path a.member b.member e

-- No change comes before the one in front of it.
abbrev pub Leads : Change → List Change → Type 0
Leads x [] = Unit
Leads x (y ∷ ys) = comes_first y x ≡ false

abbrev pub IsOrdered : List Change → Type 0
IsOrdered [] = Unit
IsOrdered (x ∷ xs) = Leads x xs × IsOrdered xs

insert_sorted-Leads :
    (z x : Change) (xs : List Change)
    → comes_first x z ≡ false
    → Leads z xs
    → Leads z (insert_sorted comes_first x xs)
unfolding insert_sorted
insert_sorted-Leads z x [] first leads = first
insert_sorted-Leads z x (y ∷ ys) first leads = elim (Bool-cases (comes_first y x)) [
  | inl e ↦ rw e leads
  | inr e ↦ rw e first
]

insert_sorted-IsOrdered :
    (x : Change) (xs : List Change) → IsOrdered xs → IsOrdered (insert_sorted comes_first x xs)
unfolding insert_sorted
insert_sorted-IsOrdered x [] ordered = (tt, tt)
insert_sorted-IsOrdered x (y ∷ ys) (leads, ordered) = elim (Bool-cases (comes_first y x)) [
  | inl e ↦ rw e (
    insert_sorted-Leads y x ys (comes_first_asym y x e) leads,
    insert_sorted-IsOrdered x ys ordered,
  )
  | inr e ↦ rw e (e, (leads, ordered))
]

sort_by-IsOrdered : (xs : List Change) → IsOrdered (sort_by comes_first xs)
unfolding sort_by
sort_by-IsOrdered [] = tt
sort_by-IsOrdered (x ∷ xs) =
    insert_sorted-IsOrdered x (sort_by comes_first xs) (sort_by-IsOrdered xs)

-- The order of texts by their bytes.
pub data Lex : Bytes → Bytes → Type 0 where
  lex_end : {ys : Bytes} → Lex [] ys
  lex_less : {x y : ℕ} {xs ys : Bytes} → x < y → Lex (x ∷ xs) (y ∷ ys)
  lex_same : {x y : ℕ} {xs ys : Bytes} → x ≡ y → Lex xs ys → Lex (x ∷ xs) (y ∷ ys)

less_text-Lex : (xs ys : Bytes) → less_text ys xs ≡ false → Lex xs ys
unfolding less_text
less_text-Lex [] ys e = lex_end
less_text-Lex (x ∷ xs) [] e = absurd (ground (arith, e))
less_text-Lex (x ∷ xs) (y ∷ ys) e = elim (Bool-cases (y == x)) [
  | inl same ↦
      let no : ltb y x ≡ false = ground (arith, same) in
      let rest : less_text ys xs ≡ false = simp (less_text, no, same) at e in
      lex_same (ground (arith, same)) (less_text-Lex xs ys rest)
  | inr other ↦ elim (Bool-cases (ltb y x)) [
    | inl less ↦
        let never : true ≡ false = simp (less_text, less) at e in absurd (ground (arith, never))
    | inr not_less ↦ lex_less (ground (arith, other, not_less))
  ]
]

-- A change may stand directly in front of another: it is more severe, or as severe with the lesser
-- path, or of the same path too and with a member that is not greater.
abbrev pub Precedes : Change → Change → Type 0
Precedes x y =
    (rank y.severity < rank x.severity)
    ⊎ ((rank y.severity ≡ rank x.severity)
        × (((same_bytes y.path x.path ≡ false) × Lex x.path y.path)
            ⊎ ((y.path ≡ x.path) × Lex x.member y.member)))

comes_first-Precedes : (x y : Change) → comes_first y x ≡ false → Precedes x y
unfolding comes_first
comes_first-Precedes x y e = elim (Bool-cases (rank y.severity == rank x.severity)) [
  | inr other ↦
      let no : ltb (rank x.severity) (rank y.severity) ≡ false = simp (comes_first, other) at e in
      inl (ground (arith, other, no))
  | inl same ↦ inr (
    ground (arith, same),
    elim (Bool-cases (same_bytes y.path x.path)) [
      | inl also ↦
          let no : less_text y.member x.member ≡ false = simp (comes_first, same, also) at e in
          inr (same_bytes-true y.path x.path also, less_text-Lex x.member y.member no)
      | inr differ ↦
          let no : less_text y.path x.path ≡ false = simp (comes_first, same, differ) at e in
          inl (differ, less_text-Lex x.path y.path no)
    ],
  )
]

abbrev pub Opens : Change → List Change → Type 0
Opens x [] = Unit
Opens x (y ∷ ys) = Precedes x y

-- Each change may stand directly in front of the next one.
abbrev pub IsReport : List Change → Type 0
IsReport [] = Unit
IsReport (x ∷ xs) = Opens x xs × IsReport xs

IsOrdered-IsReport : (xs : List Change) → IsOrdered xs → IsReport xs
IsOrdered-IsReport [] ordered = tt
IsOrdered-IsReport (x ∷ []) ordered = (tt, tt)
IsOrdered-IsReport (x ∷ y ∷ ys) (leads, ordered) =
    (comes_first-Precedes x y leads, IsOrdered-IsReport (y ∷ ys) ordered)

-- Whether the first change is high or critical.
unfoldable pub opens_breaking : List Change → Bool
opens_breaking [] = false
opens_breaking (c ∷ changes) = leb 3 (rank c.severity)

Precedes-rank : (x y : Change) → Precedes x y → rank y.severity ≤ rank x.severity
Precedes-rank x y (inl less) = omega (arith, less)
Precedes-rank x y (inr (same, rest)) = omega (arith, same)

any_breaking-IsReport : (xs : List Change) → IsReport xs → any_breaking xs ≡ opens_breaking xs
unfolding any_breaking opens_breaking rank
any_breaking-IsReport [] report = refl
any_breaking-IsReport (x ∷ []) report = ground arith
any_breaking-IsReport (x ∷ y ∷ ys) (first, report) =
    let less = Precedes-rank x y first in
    rw (any_breaking-IsReport (y ∷ ys) report) (ground (arith, less))

-- In the report of any two dumps each change is more severe than the next one, or as severe with the
-- lesser path, or of the same path too with a member that is not greater, in the order of bytes.
-- HasBreakingChanges is true exactly when the first change of the report is high or critical.
pub diff-IsReport :
    (before after : Dump) (options : DiffOptions)
    → IsReport (diff before after options).report.changes
      × (has_breaking_changes (diff before after options).report
          ≡ opens_breaking (diff before after options).report.changes)
unfolding diff sort_changes
diff-IsReport before after options =
    let ordered = IsOrdered-IsReport _ (sort_by-IsOrdered _) in
    (
      ordered,
      has_breaking_changes-diff before after options
          ∙ any_breaking-IsReport (diff before after options).report.changes ordered,
    )
