-- ===== src/Diff/Keys.antt =====
-- The keys of the maps of Index in src/diff/src/Diff.cpp, in the order of the loops over them.
use zircon_dumper.Prelude.{
  ◌+◌, ◌≡◌, refl, sym, ◌∙◌, Bool, true, some, List, [], ◌∷◌, ◌++◌, append_assoc, map, length, arith,
  Bool-cases, inl, inr,
}
use zircon_dumper.Prelude.Preds.{Bytes, All}
use zircon_dumper.Prelude.Text.{same_bytes, same_bytes_refl, lookup}
use zircon_dumper.Diff.Index.{has_name, less_text, insert_sorted, sort_by, sorted_keys}

abbrev pub IsKey : {V : Type 0} → List (Bytes × V) → Bytes → Type 0
IsKey dict key = (v : _) × (lookup dict key ≡ some v)

module _ {A : Type 0} (less : A → A → Bool) where
  insert_sorted-All :
      (P : A → Type 0) (x : A) (xs : List A) → P x → All P xs → All P (insert_sorted less x xs)
  unfolding insert_sorted
  insert_sorted-All P x [] p ps = (p, tt)
  insert_sorted-All P x (y ∷ ys) p (q, qs) = elim (Bool-cases (less y x)) [
    | inl e ↦ rw e (q, insert_sorted-All P x ys p qs)
    | inr e ↦ rw e (p, (q, qs))
  ]

  pub sort_by-All : (P : A → Type 0) (xs : List A) → All P xs → All P (sort_by less xs)
  unfolding sort_by
  sort_by-All P [] ps = tt
  sort_by-All P (x ∷ xs) (p, ps) = insert_sorted-All P x (sort_by less xs) p (sort_by-All P xs ps)

  length-insert_sorted : (x : A) (xs : List A) → length (insert_sorted less x xs) ≡ length xs + 1
  unfolding insert_sorted
  length-insert_sorted x [] = refl
  length-insert_sorted x (y ∷ ys) = elim (Bool-cases (less y x)) [
    | inl e ↦ rw e (omega (arith, length-insert_sorted x ys))
    | inr e ↦ rw e (omega arith)
  ]

  pub length-sort_by : (xs : List A) → length (sort_by less xs) ≡ length xs
  unfolding sort_by
  length-sort_by [] = refl
  length-sort_by (x ∷ xs) =
      omega (arith, length-insert_sorted x (sort_by less xs), length-sort_by xs)

module _ {V : Type 0} where
  IsKey-more :
      (k : Bytes) (v : V) (dict : List (Bytes × V)) (key : Bytes)
      → IsKey dict key
      → IsKey ((k, v) ∷ dict) key
  unfolding lookup
  IsKey-more k v dict key (w, e) = elim (Bool-cases (same_bytes k key)) [
    | inl same ↦ (v, rw same refl)
    | inr other ↦ (w, rw other e)
  ]

  IsKey-All :
      (k : Bytes) (v : V) (dict : List (Bytes × V)) (keys : List Bytes)
      → All (IsKey dict) keys
      → All (IsKey ((k, v) ∷ dict)) keys
  IsKey-All k v dict [] are = tt
  IsKey-All k v dict (key ∷ keys) (is, are) =
      (IsKey-more k v dict key is, IsKey-All k v dict keys are)

  keys-IsKey : (dict : List (Bytes × V)) → All (IsKey dict) (map (λ (e : Bytes × V). e.0) dict)
  unfolding lookup
  keys-IsKey [] = tt
  keys-IsKey ((k, v) ∷ dict) = (
    (v, rw (same_bytes_refl k) refl),
    IsKey-All k v dict (map (λ (e : Bytes × V). e.0) dict) (keys-IsKey dict),
  )

  pub sorted_keys-IsKey : (dict : List (Bytes × V)) → All (IsKey dict) (sorted_keys dict)
  unfolding sorted_keys
  sorted_keys-IsKey dict =
      sort_by-All less_text (IsKey dict) (map (λ (e : Bytes × V). e.0) dict) (keys-IsKey dict)

  length-keys : (dict : List (Bytes × V)) → length (map (λ (e : Bytes × V). e.0) dict) ≡ length dict
  length-keys [] = refl
  length-keys (e ∷ dict) = omega (arith, length-keys dict)

  pub length-sorted_keys : (dict : List (Bytes × V)) → length (sorted_keys dict) ≡ length dict
  unfolding sorted_keys
  length-sorted_keys dict =
      length-sort_by less_text (map (λ (e : Bytes × V). e.0) dict) ∙ length-keys dict

has_name_there :
    (done : List Bytes) (n : Bytes) (rest : List Bytes) → has_name (done ++ n ∷ rest) n ≡ true
unfolding has_name
has_name_there [] n rest = rw (same_bytes_refl n) refl
has_name_there (m ∷ done) n rest = elim (Bool-cases (same_bytes m n)) [
  | inl e ↦ rw e refl
  | inr e ↦ rw e (has_name_there done n rest)
]

has_name_from :
    (all done rest : List Bytes) → all ≡ done ++ rest → All (λ n. has_name all n ≡ true) rest
has_name_from all done [] split = tt
has_name_from all done (n ∷ rest) split = (
  rw split (has_name_there done n rest),
  has_name_from all (done ++ n ∷ []) rest (split ∙ sym (append_assoc done (n ∷ []) rest)),
)

-- A list has each of its names.
pub has_name-All : (names : List Bytes) → All (λ n. has_name names n ≡ true) names
has_name-All names = has_name_from names [] names refl
