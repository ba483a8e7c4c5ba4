-- ===== src/Pattern.antt =====
-- `Pattern` of src/core/src/PatternScanner.cpp: a byte pattern with wildcards.
pub mod Scan
pub mod Text
pub mod Made
mod Tests
use Prim.Native.Nat.{bit_or}
use zircon_dumper.Prelude.{
  ℕ, zero, suc, ◌+◌, ◌-◌, ◌*◌, ◌/◌, ◌%◌, ◌≡◌, Bool, true, false, not, ◌&&◌, ◌||◌, Option, none,
  some, List, [], ◌∷◌, ◌++◌, leb, ltb, ◌==◌, if◌then◌else◌, length, map,
}
use zircon_dumper.Prelude.Preds.{Bytes}
use zircon_dumper.Prelude.Result.{Result, ok, err, ◌>>=◌}

pub data PatternError : Type 0 where
  bad_character truncated_byte bad_byte empty_pattern only_wildcards null_bytes empty_mask :
      PatternError

-- `bytes_`, `mask_` (0xFF for a byte that must match, 0 for a wildcard) and `first_fixed_`.
pub record Pattern : Type 0 where
  pub bytes : Bytes
  pub mask : Bytes
  pub first_fixed : ℕ

pub hex_nibble : ℕ → Option ℕ
hex_nibble c =
    if leb b'0' c && leb c b'9'
    then some (c - b'0')
    else if leb b'a' c && leb c b'f'
    then some (c - b'a' + 10)
    else if leb b'A' c && leb c b'F'
    then some (c - b'A' + 10)
    else none

-- `std::isspace` of the C locale.
abbrev pub is_space : ℕ → Bool
is_space c = c == 32 || (leb 9 c && leb c 13)

-- `std::find` of a byte: the index of the first one, or the length.
unfoldable pub find_index : ℕ → Bytes → ℕ
find_index b [] = 0
find_index b (x ∷ xs) = if x == b then 0 else suc (find_index b xs)

-- The checks behind both constructors' loops.
pub finish : Bytes → Bytes → Result PatternError Pattern
finish bytes mask =
    let first = find_index 0xff mask in
    if first == length mask
    then err only_wildcards
    else ok (record { bytes = bytes; mask = mask; first_fixed = first })

-- One byte written in hexadecimal.
pub hex_byte : ℕ → ℕ → Result PatternError ℕ
hex_byte c d = elim (hex_nibble c) [
  | none ↦ err bad_character
  | some hi ↦ elim (hex_nibble d) [ none ↦ err bad_byte | some lo ↦ ok (bit_or (hi * 16) lo) ]
]

-- The loop of Parse, by the characters left.
unfoldable pub parse_loop : Bytes → Bytes → Bytes → Result PatternError (Bytes × Bytes)
parse_loop bytes mask [] = ok (bytes, mask)
parse_loop bytes mask (c ∷ []) =
    if is_space c
    then ok (bytes, mask)
    else if c == b'?'
    then ok (bytes ++ 0 ∷ [], mask ++ 0 ∷ [])
    else elim (hex_nibble c) [ none ↦ err bad_character | some hi ↦ err truncated_byte ]
parse_loop bytes mask (c ∷ d ∷ rest) =
    let skipped = parse_loop bytes mask (d ∷ rest) in
    let wild_one = parse_loop (bytes ++ 0 ∷ []) (mask ++ 0 ∷ []) (d ∷ rest) in
    let wild_two = parse_loop (bytes ++ 0 ∷ []) (mask ++ 0 ∷ []) rest in
    if is_space c
    then skipped
    else if c == b'?'
    then (if d == b'?' then wild_two else wild_one)
    else do b ← hex_byte c d; parse_loop (bytes ++ b ∷ []) (mask ++ 0xff ∷ []) rest

unfoldable pub parse : Bytes → Result PatternError Pattern
unfolding finish find_index
parse text = do
  (bytes, mask) ← parse_loop [] [] text
  if length bytes == 0 then err empty_pattern else finish bytes mask

-- The loop of FromBytesAndMask: `bytes` points to at least as many bytes as the mask has.
copy_bytes : Bytes → Bytes → Bytes
copy_bytes (m ∷ ms) (b ∷ bs) = b ∷ copy_bytes ms bs
copy_bytes _ _ = []

mask_byte : ℕ → ℕ
mask_byte m = if m == b'x' || m == b'X' then 0xff else 0

-- `none` is the null pointer.
unfoldable pub from_bytes_and_mask : Option Bytes → Bytes → Result PatternError Pattern
unfolding finish find_index copy_bytes mask_byte
from_bytes_and_mask none mask = err null_bytes
from_bytes_and_mask (some bytes) mask =
    if length mask == 0 then err empty_mask else finish (copy_bytes mask bytes) (map mask_byte mask)

-- `MatchesAt` on the bytes that stand at `data`. The caller has as many as the pattern.
unfoldable pub matches_at : Bytes → Bytes → Bytes → Bool
matches_at (b ∷ bs) (m ∷ ms) (d ∷ ds) = (m == 0 || d == b) && matches_at bs ms ds
matches_at (b ∷ bs) (m ∷ ms) [] = false
matches_at _ _ _ = true

-- A digit of the format `{:02X}`.
hex_digit : ℕ → ℕ
hex_digit d = if ltb d 10 then b'0' + d else b'A' + (d - 10)

-- What ToString writes for one byte.
piece : ℕ → ℕ → Bytes
piece b m = if m == 0 then b'?' ∷ b'?' ∷ [] else hex_digit (b / 16) ∷ hex_digit (b % 16) ∷ []

-- The loop of ToString; the flag is `i == 0`.
text_loop : Bool → Bytes → Bytes → Bytes
text_loop first (b ∷ bs) (m ∷ ms) =
    (if first then [] else 32 ∷ []) ++ (piece b m ++ text_loop false bs ms)
text_loop first _ _ = []

unfoldable pub to_string : Pattern → Bytes
unfolding text_loop piece hex_digit
to_string p = text_loop true p.bytes p.mask
