-- ===== src/Prelude/Text.antt =====
-- Texts as lists of bytes: literals, equality, and dictionaries over them.
use Prim.Native.Char.{code}
use Prim.Native.String.{String}
use zircon_dumper.Prelude.{
  ℕ, ◌≡◌, refl, ap, ◌∙◌, Bool, true, false, ◌&&◌, ◌||◌, Option, none, some, List, [], ◌∷◌, ◌==◌,
  if◌then◌else◌, arith, Bool-cases, inl, inr,
}
use zircon_dumper.Prelude.Preds.{Bytes}

-- The bytes of a literal.
abbrev pub codes : String → Bytes
codes String.[] = []
codes (String.◌∷◌ c s) = code c ∷ codes s

unfoldable pub same_bytes : Bytes → Bytes → Bool
same_bytes [] [] = true
same_bytes [] (y ∷ ys) = false
same_bytes (x ∷ xs) [] = false
same_bytes (x ∷ xs) (y ∷ ys) = (x == y) && same_bytes xs ys

-- Whether a text starts with another, and whether it has it anywhere.
unfoldable pub starts_at : Bytes → Bytes → Bool
starts_at [] bytes = true
starts_at (x ∷ xs) [] = false
starts_at (x ∷ xs) (y ∷ ys) = (x == y) && starts_at xs ys

unfoldable pub contains_text : Bytes → Bytes → Bool
contains_text filter [] = starts_at filter []
contains_text filter (c ∷ cs) = starts_at filter (c ∷ cs) || contains_text filter cs

pub same_bytes-true : (xs ys : Bytes) → same_bytes xs ys ≡ true → xs ≡ ys
unfolding same_bytes
same_bytes-true [] [] e = refl
same_bytes-true [] (y ∷ ys) e = absurd (ground (arith, e))
same_bytes-true (x ∷ xs) [] e = absurd (ground (arith, e))
same_bytes-true (x ∷ xs) (y ∷ ys) e = elim (Bool-cases (same_bytes xs ys)) [
  | inl same ↦
      let first : x ≡ y = ground arith in
      let rest = same_bytes-true xs ys same in
      ap (λ (z : ℕ). z ∷ xs) first ∙ ap (λ (zs : Bytes). y ∷ zs) rest
  | inr other ↦ absurd (ground arith)
]

pub same_bytes_refl : (xs : Bytes) → same_bytes xs xs ≡ true
unfolding same_bytes
same_bytes_refl [] = refl
same_bytes_refl (x ∷ xs) =
    let first : (x == x) ≡ true = ground arith in rw (first, same_bytes_refl xs) refl

module _ {ℓ} {A : Type ℓ} where
  -- The first entry of a key.
  unfoldable pub lookup : List (Bytes × A) → Bytes → Option A
  lookup [] key = none
  lookup ((k, v) ∷ dict) key = if same_bytes k key then some v else lookup dict key

  -- `dict[key] = v`.
  unfoldable pub assign_key : List (Bytes × A) → Bytes → A → List (Bytes × A)
  assign_key [] key v = (key, v) ∷ []
  assign_key ((k, w) ∷ dict) key v =
      let rest = assign_key dict key v in if same_bytes k key then (k, v) ∷ dict else (k, w) ∷ rest

-- `dict[name_of x] = value_of x` for each member in turn.
unfoldable pub assign_all :
    {A V : Type 0} → (A → Bytes) → (A → V) → List A → List (Bytes × V) → List (Bytes × V)
assign_all name_of value_of [] dict = dict
assign_all name_of value_of (x ∷ xs) dict =
    assign_all name_of value_of xs (assign_key dict (name_of x) (value_of x))
