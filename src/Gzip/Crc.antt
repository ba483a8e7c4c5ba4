-- ===== src/Gzip/Crc.antt =====
-- Crc32 of src/zdex/src/Gzip.cpp and its table.
pub mod Bounds
pub mod Pieces
use Prim.Native.Nat.{bit_and, bit_xor}
use zircon_dumper.Prelude.{
  ℕ, zero, suc, ◌+◌, ◌-◌, ◌/◌, ◌^◌, Bool, true, false, List, [], ◌∷◌, ◌++◌, ◌==◌, if◌then◌else◌,
  get_or,
}
use zircon_dumper.Prelude.Preds.{Bytes}

-- The inner loop of BuildCrcTable, by the rounds still to do.
unfoldable pub crc_rounds : ℕ → ℕ → ℕ
crc_rounds zero c = c
crc_rounds (suc k) c = crc_rounds k (if bit_and c 1 == 0 then c / 2 else bit_xor 3988292384 (c / 2))

-- The outer loop, from the entry `i`, by the entries still to fill.
unfoldable pub crc_entries : ℕ → ℕ → List ℕ
crc_entries zero i = []
crc_entries (suc n) i = crc_rounds 8 i ∷ crc_entries n (i + 1)

unfoldable pub crc_table : List ℕ
crc_table = crc_entries 256 0

-- The loop over the data; the index into the table is below 256.
unfoldable pub crc_loop : Bytes → ℕ → ℕ
crc_loop [] c = c
crc_loop (ch ∷ data_bytes) c =
    crc_loop data_bytes (bit_xor (get_or crc_table (bit_and (bit_xor c ch) 255) 0) (c / 2 ^ 8))

unfoldable pub crc32 : Bytes → ℕ → ℕ
crc32 data_bytes seed = bit_xor (crc_loop data_bytes (bit_xor seed 4294967295)) 4294967295
