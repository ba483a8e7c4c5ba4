-- ===== src/Gzip/Huffman.antt =====
-- The class Huffman, BitReader::Decode and BuildFixedTables of src/zdex/src/Gzip.cpp.
pub mod Fixed
use Prim.Native.Nat.{bit_or}
use zircon_dumper.Prelude.{
  ℕ, zero, suc, ◌+◌, ◌-◌, ◌*◌, Bool, true, false, Option, none, some, List, [], ◌∷◌, ◌++◌, leb, ltb,
  ◌==◌, if◌then◌else◌, get_or, set, replicate, length,
}
use zircon_dumper.Gzip.Bits.{Reader, read_bits}

pub record Huffman : Type 0 where
  pub counts : List ℕ
  pub symbols : List ℕ

-- `++xs[i]`.
abbrev pub bump : List ℕ → ℕ → List ℕ
bump xs i = set xs i (get_or xs i 0 + 1)

-- The first loop of Huffman::Build; `none` where a length is above kMaxBits.
unfoldable pub count_lengths : List ℕ → List ℕ → Option (List ℕ)
count_lengths counts [] = some counts
count_lengths counts (l ∷ ls) =
    let rest = count_lengths (bump counts l) ls in if ltb 15 l then none else rest

-- The second loop, by the lengths still to pass; `left` never falls below 0 before the test.
unfoldable pub room_left : ℕ → ℕ → ℕ → List ℕ → Bool
room_left zero bits left counts = true
room_left (suc f) bits left counts =
    let rest = room_left f (bits + 1) (left * 2 - get_or counts bits 0) counts in
    if ltb (left * 2) (get_or counts bits 0) then false else rest

-- The loop over `offsets`.
unfoldable pub offset_loop : ℕ → ℕ → List ℕ → List ℕ → List ℕ
offset_loop zero bits counts offsets = offsets
offset_loop (suc f) bits counts offsets =
    offset_loop f (bits + 1) counts
      (set offsets (bits + 1) (get_or offsets bits 0 + get_or counts bits 0))

-- The last loop, from the symbol `i`.
unfoldable pub place : List ℕ → ℕ → List ℕ → List ℕ → List ℕ
place [] i offsets symbols = symbols
place (l ∷ ls) i offsets symbols =
    let skipped = place ls (i + 1) offsets symbols in
    let placed = place ls (i + 1) (bump offsets l) (set symbols (get_or offsets l 0) i) in
    if l == 0 then skipped else placed

unfoldable pub build_counted : List ℕ → List ℕ → Option Huffman
build_counted lengths counts =
    if get_or counts 0 0 == length lengths
    then some (record { counts = counts; symbols = replicate (length lengths) 0 })
    else if room_left 15 1 1 counts
    then some (record {
      counts = counts;
      symbols =
          place lengths 0 (offset_loop 14 1 counts (replicate 16 0)) (replicate (length lengths) 0);
    })
    else none

-- Huffman::Build; `none` is the result `false`, after which no caller uses the table.
unfoldable pub build : List ℕ → Option Huffman
build lengths = elim (count_lengths (replicate 16 0) lengths) [
  | none ↦ none
  | some counts ↦ build_counted lengths counts
]

-- The loop of BitReader::Decode, by the lengths still to try.
unfoldable pub decode_loop : ℕ → Huffman → Reader → ℕ → ℕ → ℕ → ℕ → Option ℕ × Reader
decode_loop zero table r length code first index = (none, r)
decode_loop (suc f) table r length code first index =
    let (digit, r') = read_bits r 1 in
    elim digit [
      | none ↦ (none, r')
      | some bit ↦
          let code' = bit_or code bit in
          let count = get_or table.counts length 0 in
          let next =
            decode_loop f table r' (length + 1) (code' * 2) ((first + count) * 2) (index + count) in
          if ltb code' (first + count)
          then (some (get_or table.symbols (index + (code' - first)) 0), r')
          else next
    ]

-- BitReader::Decode; `none` is the result -1.
unfoldable pub decode : Huffman → Reader → Option ℕ × Reader
decode table r = decode_loop 15 table r 1 0 0 0

-- The lengths of BuildFixedTables.
abbrev pub fixed_lengths : List ℕ
fixed_lengths = replicate 144 8 ++ replicate 112 9 ++ replicate 24 7 ++ replicate 8 8

unfoldable pub fixed_literals : Option Huffman
fixed_literals = build fixed_lengths

unfoldable pub fixed_distances : Option Huffman
fixed_distances = build (replicate 30 5)
