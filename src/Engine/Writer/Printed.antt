-- ===== src/Engine/Writer/Printed.antt =====
-- The numbers that the format `{}` writes and ParseSigned of src/engine/src/ValueWriter.cpp reads.
use zircon_dumper.Prelude.{
  ℕ, zero, suc, ◌+◌, ◌-◌, ◌*◌, ◌/◌, ◌%◌, ◌^◌, ◌≤◌, ◌<◌, ◌≡◌, refl, ap, ◌∙◌, subst, Bool, true,
  false, ◌&&◌, ◌||◌, Option, none, some, [], ◌∷◌, ◌++◌, leb, ltb, ◌==◌, if◌then◌else◌, length,
  length-append, arith, Bool-cases, inl, inr,
}
use zircon_dumper.Prelude.Int.{ℤ, pos, negsuc, digits, decimal_int}
use zircon_dumper.Prelude.Preds.{Bytes, All, All-append}
use zircon_dumper.Engine.Writer.{
  is_blank, trim_front, trim_end, trim, digit_value, from_chars, to_int64, signed_value,
  magnitude_of, signed_text, parse_signed,
}

IsNumeral : ℕ → Type 0
IsNumeral c = (b'0' ≤ c) × (c ≤ b'9')

some_inj : {m n : ℕ} → some m ≡ some n → m ≡ n
some_inj {m = m} e = ap (λ (o : Option ℕ). elim o [ none ↦ m | some k ↦ k ]) e

digit_value-IsNumeral : (c : ℕ) → IsNumeral c → digit_value c ≡ c - b'0'
unfolding digit_value IsNumeral
digit_value-IsNumeral c (low, high) =
    let test : (leb b'0' c && leb c b'9') ≡ true = ground (arith, low, high) in rw test refl

-- Digits are read one behind the other.
from_chars-last :
    (xs : Bytes) (c v m : ℕ)
    → from_chars 10 xs v ≡ some m
    → IsNumeral c
    → m * 10 + (c - b'0') < 2 ^ 64
    → from_chars 10 (xs ++ c ∷ []) v ≡ some (m * 10 + (c - b'0'))
unfolding from_chars IsNumeral
from_chars-last [] c v m e (low, high) lt =
    let same = some_inj e in
    let test : (leb 10 (c - b'0') || leb (2 ^ 64) (v * 10 + (c - b'0'))) ≡ false =
      ground (arith, low, high, lt, same) in
    rw (digit_value-IsNumeral c (low, high), test) (ap (λ (k : ℕ). some (k * 10 + (c - b'0'))) same)
from_chars-last (x ∷ xs) c v m e numeral lt =
    elim (Bool-cases (leb 10 (digit_value x) || leb (2 ^ 64) (v * 10 + digit_value x))) [
      | inl b ↦
          let never : none ≡ some m = simp (from_chars, b) at e in absurd (ground (arith, never))
      | inr b ↦
          let rest : from_chars 10 xs (v * 10 + digit_value x) ≡ some m =
            simp (from_chars, b) at e in
          rw (from_chars, b) (from_chars-last xs c (v * 10 + digit_value x) m rest numeral lt)
    ]

numeral : (n : ℕ) → IsNumeral (b'0' + n % 10)
unfolding IsNumeral
numeral n = (omega arith, omega arith)

either-Numerals : (b : Bool) (xs : Bytes) → All IsNumeral xs → All IsNumeral (if b then [] else xs)
either-Numerals true xs all = tt
either-Numerals false xs all = all

digits-Numerals : (f n : ℕ) → All IsNumeral (digits f 10 n)
unfolding digits
digits-Numerals zero n = tt
digits-Numerals (suc f) n =
    let small : ltb (n % 10) 10 ≡ true = ground arith in
    rw small (
      All-append IsNumeral (if ltb n 10 then [] else digits f 10 (n / 10)) ((b'0' + n % 10) ∷ [])
        (either-Numerals (ltb n 10) (digits f 10 (n / 10)) (digits-Numerals f (n / 10)))
        (numeral n, tt))

-- The numbers that have a number of digits at most.
unfoldable limit : ℕ → ℕ
limit zero = 1
limit (suc f) = 10 * limit f

-- The digits of a number are read as the number.
from_chars-digits :
    (f n : ℕ) → n < limit f → 1 ≤ f → n < 2 ^ 64 → from_chars 10 (digits f 10 n) 0 ≡ some n
unfolding digits limit
from_chars-digits zero n lt one word = absurd (omega arith)
from_chars-digits (suc f) n lt one word =
    let small : ltb (n % 10) 10 ≡ true = ground arith in
    elim (Bool-cases (ltb n 10)) [
      | inl b ↦
          let below : n < 10 = ground (arith, b) in
          let is : 0 * 10 + (b'0' + n % 10 - b'0') ≡ n = omega (arith, below) in
          rw (small, b)
            (subst (λ (k : ℕ). from_chars 10 ((b'0' + n % 10) ∷ []) 0 ≡ some k) is
              (from_chars-last [] (b'0' + n % 10) 0 0 (unfold from_chars in refl) (numeral n)
                (omega (arith, is, word))))
      | inr b ↦
          let above : 10 ≤ n = ground (arith, b) in
          let is : n / 10 * 10 + (b'0' + n % 10 - b'0') ≡ n = omega arith in
          let more : 1 ≤ f = some_digits f n lt above in
          rw (small, b)
            (subst
              (λ (k : ℕ). from_chars 10 (digits f 10 (n / 10) ++ (b'0' + n % 10) ∷ []) 0 ≡ some k)
              is
              (from_chars-last (digits f 10 (n / 10)) (b'0' + n % 10) 0 (n / 10)
                (from_chars-digits f (n / 10) (omega (arith, lt)) more (omega (arith, word)))
                (numeral n) (omega (arith, is, word))))
    ]
  where
    some_digits : (f n : ℕ) → n < 10 * limit f → 10 ≤ n → 1 ≤ f
    some_digits zero n lt above = absurd (omega arith)
    some_digits (suc f) n lt above = omega arith

some_digit : (f n : ℕ) → 1 ≤ length (digits (suc f) 10 n)
unfolding digits
some_digit f n = omega (
  arith,
  length-append (if ltb n 10 then [] else digits f 10 (n / 10))
      ((if ltb (n % 10) 10 then b'0' + n % 10 else b'A' + (n % 10 - 10)) ∷ []),
)

trim_end_plain : (xs : Bytes) → All (λ c. is_blank c ≡ false) xs → trim_end xs ≡ xs
unfolding trim_end
trim_end_plain [] all = refl
trim_end_plain (c ∷ cs) (first, all) =
    rw (trim_end_plain cs all, first)
      (elim (Bool-cases (length cs == 0)) [ inl b ↦ rw b refl | inr b ↦ rw b refl ])

trim_plain : (xs : Bytes) → All (λ c. is_blank c ≡ false) xs → trim xs ≡ xs
unfolding trim trim_front trim_end
trim_plain [] all = refl
trim_plain (c ∷ cs) (first, all) = rw first (trim_end_plain (c ∷ cs) (first, all))

Numerals_plain : (xs : Bytes) → All IsNumeral xs → All (λ c. is_blank c ≡ false) xs
unfolding IsNumeral
Numerals_plain [] all = tt
Numerals_plain (c ∷ cs) ((low, high), all) = (ground (arith, low, high), Numerals_plain cs all)

magnitude_of-Numerals :
    (xs : Bytes) → All IsNumeral xs → 1 ≤ length xs → magnitude_of xs ≡ from_chars 10 xs 0
unfolding magnitude_of IsNumeral
magnitude_of-Numerals [] all some_one = absurd (omega arith)
magnitude_of-Numerals (c ∷ []) all some_one = refl
magnitude_of-Numerals (c ∷ d ∷ cs) (first, ((low, high), all)) some_one =
    let test : ((c == b'0') && ((d == b'x') || (d == b'X'))) ≡ false = ground (arith, low, high) in
    rw test refl

signed_text-Numerals :
    (undefined : ℤ) (xs : Bytes) (n : ℕ)
    → All IsNumeral xs
    → 1 ≤ length xs
    → from_chars 10 xs 0 ≡ some n
    → (signed_text undefined xs ≡ signed_value undefined false (some n))
      × (signed_text undefined (b'-' ∷ xs) ≡ signed_value undefined true (some n))
unfolding signed_text IsNumeral
signed_text-Numerals undefined [] n all some_one e = absurd (omega arith)
signed_text-Numerals undefined (c ∷ cs) n ((low, high), all) some_one e =
    let read = magnitude_of-Numerals (c ∷ cs) ((low, high), all) some_one ∙ e in
    let minus : (c == b'-') ≡ false = ground (arith, low, high) in
    let plus : (c == b'+') ≡ false = ground (arith, low, high) in
    (rw (minus, plus, read) refl, rw read refl)

-- A number of 64 bits with a sign, and not the smallest.
abbrev pub IsNegatable : ℤ → Type 0
IsNegatable (pos n) = n < 2 ^ 63
IsNegatable (negsuc n) = n < 2 ^ 63 - 1

-- ParseSigned reads back every number of 64 bits with a sign, but the smallest, that the format `{}` has
-- written. The smallest is left out, since the code negates it, which the language leaves undefined.
pub parse_signed-decimal_int :
    (undefined value : ℤ)
    → IsNegatable value
    → parse_signed undefined (decimal_int value) ≡ some value
unfolding parse_signed decimal_int signed_value to_int64 limit
parse_signed-decimal_int undefined (pos n) fits =
    let xs = digits 20 10 n in
    let all = digits-Numerals 20 n in
    let read = from_chars-digits 20 n (omega arith) (omega arith) (omega arith) in
    let signed = signed_text-Numerals undefined xs n all (some_digit 19 n) read in
    let test : ltb n (2 ^ 63) ≡ true = ground arith in
    rw (trim_plain xs (Numerals_plain xs all), signed.0, test) refl
parse_signed-decimal_int undefined (negsuc n) fits =
    let xs = digits 20 10 (suc n) in
    let all = digits-Numerals 20 (suc n) in
    let read = from_chars-digits 20 (suc n) (omega arith) (omega arith) (omega arith) in
    let signed = signed_text-Numerals undefined xs (suc n) all (some_digit 19 (suc n)) read in
    let test : ltb ((2 ^ 64 - suc n) % 2 ^ 64) (2 ^ 63) ≡ false = ground arith in
    let other : (suc n == 2 ^ 63) ≡ false = ground (arith, fits) in
    let is : 2 ^ 64 - 1 - (2 ^ 64 - suc n) % 2 ^ 64 ≡ n = omega arith in
    rw (trim_plain (b'-' ∷ xs) (refl, Numerals_plain xs all), signed.1, other, test)
      (ap (λ (k : ℕ). some (negsuc k)) is)
