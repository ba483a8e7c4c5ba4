-- ===== src/Emit/Util/Identifiers.antt =====
-- What SanitizeIdentifier of src/emit/src/Util.cpp makes is an identifier.
use zircon_dumper.Prelude.{
  ℕ, ◌<◌, ◌≡◌, refl, ap, ◌∙◌, subst, Bool, true, false, not, ◌&&◌, List, [], ◌∷◌, ◌++◌, map, get_or,
  length, arith, Bool-cases, inl, inr,
}
use zircon_dumper.Prelude.Preds.{Bytes, All, All-append}
use zircon_dumper.Prelude.Text.{same_bytes, same_bytes-true}
use zircon_dumper.Emit.Util.{
  k_reserved, member, is_number, is_word, word_char, named, started, unreserved,
  sanitize_identifier,
}

abbrev pub IsWord : ℕ → Type 0
IsWord c = is_word c ≡ true

-- Not empty, of letters, digits and underscores, with no digit in front, and no reserved word.
pub record IsIdentifier (text : Bytes) : Type 0 where
  pub not_empty : 0 < length text
  pub words : All IsWord text
  pub start : is_number (get_or text 0 0) ≡ false
  pub free : member k_reserved text ≡ false

word_char-IsWord : (c : ℕ) → IsWord (word_char c)
unfolding word_char
word_char-IsWord c = elim (Bool-cases (is_word c)) [
  | inl word ↦ rw word word
  | inr other ↦ rw other refl
]

map-IsWord : (text : Bytes) → All IsWord (map word_char text)
map-IsWord [] = tt
map-IsWord (c ∷ text) = (word_char-IsWord c, map-IsWord text)

-- Words that are not empty.
abbrev Words : Bytes → Type 0
Words text = (0 < length text) × All IsWord text

named-Words : (text : Bytes) → All IsWord text → Words (named text)
unfolding named
named-Words [] words =
    (omega arith, (refl, (refl, (refl, (refl, (refl, (refl, (refl, (refl, tt)))))))))
named-Words (c ∷ text) words = (omega arith, words)

started-Words :
    (text : Bytes)
    → Words text
    → Words (started text) × (is_number (get_or (started text) 0 0) ≡ false)
unfolding started
started-Words text (some_char, words) = elim (Bool-cases (is_number (get_or text 0 0))) [
  | inl digit ↦ rw digit ((omega arith, (refl, words)), refl)
  | inr other ↦ rw other ((some_char, words), other)
]

-- No reserved word is another one with an underscore behind it.
none_extended : List Bytes → Bool
none_extended [] = true
none_extended (w ∷ words) = not (member k_reserved (w ++ b'_' ∷ [])) && none_extended words

k_reserved_lem : none_extended k_reserved ≡ true
unfolding none_extended member same_bytes
k_reserved_lem = refl

extended-free :
    (words : List Bytes) (text : Bytes)
    → none_extended words ≡ true
    → member words text ≡ true
    → member k_reserved (text ++ b'_' ∷ []) ≡ false
unfolding none_extended member
extended-free [] text free here = absurd (ground (arith, here))
extended-free (w ∷ words) text free here = elim (Bool-cases (member k_reserved (w ++ b'_' ∷ []))) [
  | inl taken ↦ absurd (ground (arith, free, taken))
  | inr spare ↦ elim (Bool-cases (same_bytes w text)) [
    | inl same ↦
        subst (λ (t : Bytes). member k_reserved (t ++ b'_' ∷ []) ≡ false)
          (same_bytes-true w text same) spare
    | inr other ↦
        extended-free words text (ground (arith, free, spare)) (ground (arith, here, other))
  ]
]

get_or-start : (xs ys : Bytes) → 0 < length xs → get_or (xs ++ ys) 0 0 ≡ get_or xs 0 0
get_or-start [] ys lt = absurd (omega arith)
get_or-start (x ∷ xs) ys lt = refl

-- SanitizeIdentifier makes an identifier of every text.
pub sanitize_identifier-IsIdentifier : (name : Bytes) → IsIdentifier (sanitize_identifier name)
unfolding sanitize_identifier unreserved
sanitize_identifier-IsIdentifier name =
    let first = named-Words (map word_char name) (map-IsWord name) in
    let out : Bytes = started (named (map word_char name)) in
    let ((some_char, words), start) = started-Words (named (map word_char name)) first in
    elim (Bool-cases (member k_reserved out)) [
      | inr spare ↦
          rw spare (record { not_empty = some_char; words = words; start = start; free = spare })
      | inl taken ↦ rw taken (record {
        not_empty = longer out;
        words = All-append IsWord out (b'_' ∷ []) words (refl, tt);
        start = ap (λ (c : ℕ). is_number c) (get_or-start out (b'_' ∷ []) some_char) ∙ start;
        free = extended-free k_reserved out k_reserved_lem taken;
      })
    ]
  where
    longer : (xs : Bytes) → 0 < length (xs ++ b'_' ∷ [])
    longer [] = omega arith
    longer (x ∷ xs) = omega arith
