-- ===== src/Engine/Writer.antt =====
-- The texts of values and the writes of whole numbers in src/engine/src/ValueWriter.cpp.
pub mod Printed
pub mod Survives
mod Tests
use zircon_dumper.Prelude.{
  ℕ, zero, suc, ◌+◌, ◌-◌, ◌*◌, ◌/◌, ◌%◌, ◌^◌, Bool, true, false, not, ◌&&◌, ◌||◌, Option, none,
  some, List, [], ◌∷◌, leb, ltb, ◌==◌, if◌then◌else◌, length,
}
use zircon_dumper.Prelude.Int.{ℤ, pos, negsuc, decimal_int}
use zircon_dumper.Prelude.Preds.{Bytes}
use zircon_dumper.Prelude.Text.{codes, same_bytes}
use zircon_dumper.Memory.Lookup.{equal_no_case}
use zircon_dumper.Memory.Source.{Source}

abbrev pub is_blank : ℕ → Bool
is_blank c = (c == b' ') || ((c == 9) || ((c == 13) || (c == 10)))

unfoldable pub trim_front : Bytes → Bytes
trim_front [] = []
trim_front (c ∷ cs) = let rest = trim_front cs in if is_blank c then rest else c ∷ cs

unfoldable pub trim_end : Bytes → Bytes
trim_end [] = []
trim_end (c ∷ cs) =
    let rest = trim_end cs in if (length rest == 0) && is_blank c then [] else c ∷ rest

-- Trim.
unfoldable pub trim : Bytes → Bytes
trim text = trim_end (trim_front text)

-- The value of a digit, 36 for another character.
unfoldable pub digit_value : ℕ → ℕ
digit_value c =
    if leb b'0' c && leb c b'9'
    then c - b'0'
    else if leb b'a' c && leb c b'z'
    then c - b'a' + 10
    else if leb b'A' c && leb c b'Z'
    then c - b'A' + 10
    else 36

-- std::from_chars over all the characters, behind what it has read.
unfoldable pub from_chars : ℕ → Bytes → ℕ → Option ℕ
from_chars base [] value = some value
from_chars base (c ∷ cs) value =
    let rest = from_chars base cs (value * base + digit_value c) in
    if leb base (digit_value c) || leb (2 ^ 64) (value * base + digit_value c) then none else rest

-- `static_cast<std::int64_t>`.
unfoldable pub to_int64 : ℕ → ℤ
to_int64 v = if ltb v (2 ^ 63) then pos v else negsuc (2 ^ 64 - 1 - v)

-- The negation of the smallest number has no meaning in the language: `undefined` is what comes of it.
unfoldable pub signed_value : ℤ → Bool → Option ℕ → Option ℤ
signed_value undefined negative none = none
signed_value undefined negative (some magnitude) = some (
    if not negative
    then to_int64 magnitude
    else if magnitude == 2 ^ 63
    then undefined
    else to_int64 ((2 ^ 64 - magnitude) % 2 ^ 64))

unfoldable pub magnitude_of : Bytes → Option ℕ
magnitude_of [] = none
magnitude_of (c ∷ []) = from_chars 10 (c ∷ []) 0
magnitude_of (c ∷ d ∷ cs) =
    if (c == b'0') && ((d == b'x') || (d == b'X'))
    then (if length cs == 0 then none else from_chars 16 cs 0)
    else from_chars 10 (c ∷ d ∷ cs) 0

unfoldable pub signed_text : ℤ → Bytes → Option ℤ
signed_text undefined [] = none
signed_text undefined (c ∷ cs) =
    if c == b'-'
    then signed_value undefined true (magnitude_of cs)
    else if c == b'+'
    then signed_value undefined false (magnitude_of cs)
    else signed_value undefined false (magnitude_of (c ∷ cs))

-- ParseSigned, with what comes of the negation of the smallest number.
unfoldable pub parse_signed : ℤ → Bytes → Option ℤ
parse_signed undefined text = signed_text undefined (trim text)

-- ParseBool.
unfoldable pub parse_bool : Bytes → Option Bool
parse_bool text =
    if equal_no_case (trim text) (codes "true") || same_bytes (trim text) (codes "1")
    then some true
    else if equal_no_case (trim text) (codes "false") || same_bytes (trim text) (codes "0")
    then some false
    else none

-- The order of the integers.
unfoldable pub leb_int : ℤ → ℤ → Bool
leb_int (pos m) (pos n) = leb m n
leb_int (pos m) (negsuc n) = false
leb_int (negsuc m) (pos n) = true
leb_int (negsuc m) (negsuc n) = leb n m

unfoldable pub ltb_int : ℤ → ℤ → Bool
ltb_int x y = not (leb_int y x)

-- FitsIn, for a width of a byte at least.
unfoldable pub fits_in : ℤ → ℕ → Bool → Bool
fits_in value width is_signed =
    if leb 8 width
    then true
    else if is_signed
    then leb_int (negsuc (2 ^ (width * 8 - 1) - 1)) value
      && ltb_int value (pos (2 ^ (width * 8 - 1)))
    else if ltb_int value (pos 0)
    then false
    else ltb_int value (pos (2 ^ (width * 8)))

-- `static_cast<std::uint64_t>`.
unfoldable pub to_word64 : ℤ → ℕ
to_word64 (pos n) = n % 2 ^ 64
to_word64 (negsuc n) = 2 ^ 64 - 1 - n % 2 ^ 64

-- The first bytes of a word in memory.
unfoldable pub low_bytes : ℕ → ℕ → Bytes
low_bytes zero v = []
low_bytes (suc width) v = (v % 256) ∷ low_bytes width (v / 256)

pub data WriteFailure : Type 0 where
  does_not_fit : WriteFailure
  refused_write : WriteFailure

-- The WriteResult of WriteInteger.
pub data WriteResult : Type 0 where
  failed : WriteFailure → WriteResult
  wrote : Bytes → WriteResult

unfoldable pub written_as : {S : Type 0} → ℤ → S × Bool → S × WriteResult
written_as value (s, true) = (s, wrote (decimal_int value))
written_as value (s, false) = (s, failed refused_write)

-- WriteInteger.
unfoldable pub write_integer : {S : Type 0} → Source S → S → ℕ → ℤ → ℕ → Bool → S × WriteResult
write_integer memory s address value width is_signed =
    if not (fits_in value width is_signed)
    then (s, failed does_not_fit)
    else written_as value (memory.write s address (low_bytes width (to_word64 value)))
