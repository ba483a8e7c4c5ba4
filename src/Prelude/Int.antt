-- ===== src/Prelude/Int.antt =====
-- The integers over the native numbers, and the formats of numbers.
use zircon_dumper.Prelude.{
  ℕ, zero, suc, ◌+◌, ◌-◌, ◌/◌, ◌%◌, ◌≡◌, Bool, true, false, [], ◌∷◌, ◌++◌, ltb, ◌==◌, if◌then◌else◌,
  arith,
}
use zircon_dumper.Prelude.Preds.{Bytes}

-- `negsuc n` is minus `n + 1`.
pub data ℤ : Type 0 where
  pos : ℕ → ℤ
  negsuc : ℕ → ℤ

unfoldable pub same_int : ℤ → ℤ → Bool
same_int (pos m) (pos n) = m == n
same_int (pos m) (negsuc n) = false
same_int (negsuc m) (pos n) = false
same_int (negsuc m) (negsuc n) = m == n

pub same_int_refl : (i : ℤ) → same_int i i ≡ true
unfolding same_int
same_int_refl (pos n) = ground arith
same_int_refl (negsuc n) = ground arith

-- The difference of two integers.
unfoldable pub sub_nat : ℕ → ℕ → ℤ
sub_nat m n = if ltb m n then negsuc (n - m - 1) else pos (m - n)

unfoldable pub ◌-ℤ◌ : ℤ → ℤ → ℤ

infixl 60 ◌-ℤ◌
pos m -ℤ pos n = sub_nat m n
pos m -ℤ negsuc n = pos (m + suc n)
negsuc m -ℤ pos n = negsuc (m + n)
negsuc m -ℤ negsuc n = sub_nat n m

-- A digit of the format `{:X}`.
abbrev upper_digit : ℕ → ℕ
upper_digit d = if ltb d 10 then b'0' + d else b'A' + (d - 10)

-- The digits of a number to a base, with as many rounds as it may have digits.
unfoldable pub digits : ℕ → ℕ → ℕ → Bytes
digits zero base n = []
digits (suc f) base n =
    let more = digits f base (n / base) in
    (if ltb n base then [] else more) ++ upper_digit (n % base) ∷ []

-- The formats `{}` and `{:X}` of a number below 2 ^ 64.
abbrev pub decimal : ℕ → Bytes
decimal n = digits 20 10 n

abbrev pub hex : ℕ → Bytes
hex n = digits 16 16 n

-- `{}` of an integer.
unfoldable pub decimal_int : ℤ → Bytes
decimal_int (pos n) = decimal n
decimal_int (negsuc n) = b'-' ∷ decimal (suc n)

-- `{:+d}` of an integer.
unfoldable pub signed_int : ℤ → Bytes
signed_int (pos n) = b'+' ∷ decimal n
signed_int (negsuc n) = b'-' ∷ decimal (suc n)

-- `0x{:X}` of an integer.
unfoldable pub hex_int : ℤ → Bytes
hex_int (pos n) = b'0' ∷ b'x' ∷ hex n
hex_int (negsuc n) = b'0' ∷ b'x' ∷ b'-' ∷ hex (suc n)
