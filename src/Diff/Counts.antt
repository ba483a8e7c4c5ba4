-- ===== src/Diff/Counts.antt =====
-- The counts by name of src/diff/src/Diff.cpp: `taken`, `seen` and `seen_after`.
use zircon_dumper.Prelude.{
  ◌+◌, ◌≡◌, refl, sym, ◌∙◌, subst, true, some, List, [], ◌∷◌, ◌++◌, append_assoc, if◌then◌else◌,
  length, length-append, get_elem?, arith, Bool-cases, inl, inr,
}
use zircon_dumper.Prelude.Preds.{Bytes}
use zircon_dumper.Prelude.Text.{same_bytes, same_bytes-true, same_bytes_refl, lookup, assign_key}
use zircon_dumper.Diff.Notes.{Counts, or_zero, count_of, bump, named_as, or_added, added_loop}

pub lookup-assign_key :
    {A : Type 0} (d : List (Bytes × A)) (n m : Bytes) (v : A)
    → lookup (assign_key d n v) m ≡ (if same_bytes n m then some v else lookup d m)
unfolding lookup assign_key
lookup-assign_key [] n m v = refl
lookup-assign_key ((k, w) ∷ d) n m v = elim (Bool-cases (same_bytes k n)) [
  | inl same ↦
      let k≡n = same_bytes-true k n same in
      let held : (if same_bytes k m then some v else lookup d m)
          ≡ (if same_bytes k m then some v else if same_bytes k m then some w else lookup d m) =
        elim (Bool-cases (same_bytes k m)) [ inl e ↦ rw e refl | inr e ↦ rw e refl ] in
      rw same (
        subst
          (λ (x : Bytes).
            (if same_bytes k m then some v else lookup d m)
            ≡ (if same_bytes x m then some v else if same_bytes k m then some w else lookup d m))
          k≡n held)
  | inr other ↦
      rw (other, lookup-assign_key d n m v)
        (elim (Bool-cases (same_bytes k m)) [
          | inl e ↦ elim (Bool-cases (same_bytes n m)) [
            | inl e' ↦
                let k≡n = same_bytes-true k m e ∙ sym (same_bytes-true n m e') in
                let yes = subst (λ (x : Bytes). same_bytes k x ≡ true) k≡n (same_bytes_refl k) in
                absurd (ground (arith, other, yes))
            | inr e' ↦ rw (e, e') refl
          ]
          | inr e ↦ rw e refl
        ])
]

count_of-bump :
    (counts : Counts) (n m : Bytes)
    → count_of (bump counts n) m
      ≡ (if same_bytes n m then count_of counts m + 1 else count_of counts m)
unfolding count_of bump or_zero
count_of-bump counts n m =
    rw (lookup-assign_key counts n m (count_of counts n + 1)) (elim (Bool-cases (same_bytes n m)) [
      | inl e ↦ rw (e, same_bytes-true n m e) refl
      | inr e ↦ rw e refl
    ])

get_elem?-middle :
    {A : Type 0} (xs : List A) (y : A) (ys : List A) → get_elem? (xs ++ y ∷ ys) (length xs) ≡ some y
get_elem?-middle [] y ys = refl
get_elem?-middle (x ∷ xs) y ys = get_elem?-middle xs y ys

module _ {A : Type 0} (name_of : A → Bytes) where
  named_as-append :
      (name : Bytes) (xs ys : List A)
      → named_as name_of name (xs ++ ys) ≡ named_as name_of name xs ++ named_as name_of name ys
  unfolding named_as
  named_as-append name [] ys = refl
  named_as-append name (x ∷ xs) ys =
      rw (named_as-append name xs ys)
        (elim (Bool-cases (same_bytes (name_of x) name)) [ inl e ↦ rw e refl | inr e ↦ rw e refl ])

  -- The counts are those of the names of the members that a loop is past.
  abbrev pub IsCounted : Counts → List A → Type 0
  IsCounted counts done =
      (name : Bytes) → count_of counts name ≡ length (named_as name_of name done)

  pub IsCounted-none : IsCounted [] []
  unfolding count_of lookup or_zero named_as
  IsCounted-none name = refl

  pub IsCounted-bump :
      (counts : Counts) (done : List A) (x : A)
      → IsCounted counts done
      → IsCounted (bump counts (name_of x)) (done ++ x ∷ [])
  unfolding named_as
  IsCounted-bump counts done x counted name =
      rw (count_of-bump counts (name_of x) name, named_as-append name done (x ∷ []), counted name)
        (elim (Bool-cases (same_bytes (name_of x) name)) [
          | inl e ↦ rw e (sym (length-append (named_as name_of name done) (x ∷ [])))
          | inr e ↦ rw e (omega (arith, length-append (named_as name_of name done) []))
        ])

  -- The member of the count that its name has is the member itself.
  pub get_elem?-named_as :
      (all done : List A) (x : A) (rest : List A) (counts : Counts)
      → all ≡ done ++ x ∷ rest
      → IsCounted counts done
      → get_elem? (named_as name_of (name_of x) all) (count_of counts (name_of x)) ≡ some x
  unfolding named_as
  get_elem?-named_as all done x rest counts split counted =
      rw
        (
          split,
          counted (name_of x),
          named_as-append (name_of x) done (x ∷ rest),
          same_bytes_refl (name_of x),
        )
        (get_elem?-middle (named_as name_of (name_of x) done) x (named_as name_of (name_of x) rest))

  -- Nothing is past the members of its name where the members before are the members after.
  pub added_loop_self :
      (all done rest : List A) (seen : Counts)
      → all ≡ done ++ rest
      → IsCounted seen done
      → added_loop name_of all rest seen ≡ []
  unfolding added_loop or_added
  added_loop_self all done [] seen split counted = refl
  added_loop_self all done (x ∷ rest) seen split counted =
      rw (added_loop, get_elem?-named_as all done x rest seen split counted, or_added)
        (added_loop_self all (done ++ x ∷ []) rest (bump seen (name_of x))
          (split ∙ sym (append_assoc done (x ∷ []) rest)) (IsCounted-bump seen done x counted))
