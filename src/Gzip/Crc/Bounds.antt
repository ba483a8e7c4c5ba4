-- ===== src/Gzip/Crc/Bounds.antt =====
-- Crc32 of src/zdex/src/Gzip.cpp stays within 32 bits.
use Prim.Native.Nat.{bit_and, bit_xor, bit_xor-bitwise}
use zircon_dumper.Prelude.{
  ℕ, zero, suc, ◌+◌, ◌/◌, ◌%◌, ◌^◌, ◌≤◌, ◌<◌, ◌≡◌, [], ◌∷◌, ◌==◌, get_or, Bool-cases, inl, inr,
  arith,
}
use zircon_dumper.Prelude.Preds.{Bytes, IsU32}
use zircon_dumper.Prelude.Mask.{two_pow}
use zircon_dumper.Gzip.Crc.{crc_rounds, crc_entries, crc_table, crc_loop, crc32}
use zircon_dumper.Gzip.Crc.Pieces.{xor_digits, xor_none, xor_step, differ_twice}

xor_digits_lt : (n fuel a b : ℕ) → a ≤ fuel → a < 2 ^ n → b < 2 ^ n → xor_digits fuel a b < 2 ^ n
xor_digits_lt n zero a b le ha hb = hb
xor_digits_lt zero (suc fuel) a b le ha hb =
    let z : a ≡ 0 = omega arith in rw z (omega (arith, xor_none (suc fuel) b))
xor_digits_lt (suc n) (suc fuel) a b le ha hb =
    let p = two_pow n in
    let (small, twice, same) = differ_twice (a % 2) (b % 2) (omega arith) (omega arith) in
    omega (
      arith,
      p,
      small,
      xor_step fuel a b,
      xor_digits_lt n fuel (a / 2) (b / 2) (omega arith) (omega (arith, p)) (omega (arith, p)),
    )

bit_xor_lt : (a b : ℕ) → IsU32 a → IsU32 b → IsU32 (bit_xor a b)
bit_xor_lt a b ha hb = rw (bit_xor-bitwise a b) (xor_digits_lt 32 a a b (omega arith) ha hb)

crc_rounds_lt : (k c : ℕ) → IsU32 c → IsU32 (crc_rounds k c)
unfolding crc_rounds
crc_rounds_lt zero c h = h
crc_rounds_lt (suc k) c h = elim (Bool-cases (bit_and c 1 == 0)) [
  | inl even ↦ rw even (crc_rounds_lt k (c / 2) (omega arith))
  | inr odd ↦ rw odd (crc_rounds_lt k _ (bit_xor_lt 3988292384 (c / 2) (omega arith) (omega arith)))
]

crc_entries_lt : (n i j : ℕ) → i + n ≤ 2 ^ 32 → IsU32 (get_or (crc_entries n i) j 0)
unfolding crc_entries
crc_entries_lt zero i j le = omega arith
crc_entries_lt (suc n) i zero le = crc_rounds_lt 8 i (omega arith)
crc_entries_lt (suc n) i (suc j) le = crc_entries_lt n (i + 1) j (omega arith)

crc_loop_lt : (xs : Bytes) (c : ℕ) → IsU32 c → IsU32 (crc_loop xs c)
unfolding crc_loop crc_table
crc_loop_lt [] c h = h
crc_loop_lt (x ∷ xs) c h = crc_loop_lt xs _ (
    bit_xor_lt _ (c / 2 ^ 8) (crc_entries_lt 256 0 (bit_and (bit_xor c x) 255) (omega arith))
      (omega arith))

pub crc32_lt : (xs : Bytes) (seed : ℕ) → IsU32 seed → IsU32 (crc32 xs seed)
unfolding crc32
crc32_lt xs seed h =
    bit_xor_lt _ 4294967295 (crc_loop_lt xs _ (bit_xor_lt seed 4294967295 h (omega arith)))
      (omega arith)
