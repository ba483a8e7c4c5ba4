-- ===== src/Gzip/Inflate.antt =====
-- InflateBlockBody of src/zdex/src/Gzip.cpp.
pub mod Block
pub mod Shift
pub mod Trip
use zircon_dumper.Prelude.{
  ℕ, zero, suc, ◌+◌, ◌-◌, Bool, true, false, Option, none, some, List, [], ◌∷◌, ◌++◌, leb, ltb,
  ◌==◌, if◌then◌else◌, get_or, length,
}
use zircon_dumper.Prelude.Preds.{Bytes}
use zircon_dumper.Gzip.Bits.{Reader, read_bits}
use zircon_dumper.Gzip.Codes.{k_length_base, k_length_extra, k_dist_base, k_dist_extra}
use zircon_dumper.Gzip.Huffman.{Huffman, decode}

-- The texts of `error`.
pub data InflateError : Type 0 where
  block_ends : InflateError
  invalid_length : InflateError
  length_ends : InflateError
  invalid_distance : InflateError
  distance_ends : InflateError
  refers_back : InflateError

-- How a round leaves the loop: it goes on, or it returns true or false.
pub data Outcome : Type 0 where
  going : Reader → Bytes → Outcome
  ended : Reader → Bytes → Outcome
  failed : InflateError → Reader → Bytes → Outcome

-- The loop that copies, by the bytes still to copy.
unfoldable pub copy_back : ℕ → ℕ → Bytes → Bytes
copy_back zero from out = out
copy_back (suc n) from out = copy_back n (from + 1) (out ++ get_or out from 0 ∷ [])

-- A round from each of its reads on: the pair is what the read gave and the reader after it.
unfoldable pub after_distance : Bytes → ℕ → ℕ → Option ℕ × Reader → Outcome
after_distance out copied dist_code (none, r) = failed distance_ends r out
after_distance out copied dist_code (some dist_extra, r) =
    let distance = get_or k_dist_base dist_code 0 + dist_extra in
    if ltb (length out) distance
    then failed refers_back r out
    else going r (copy_back copied (length out - distance) out)

unfoldable pub after_dist_code : Bytes → ℕ → Option ℕ × Reader → Outcome
after_dist_code out copied (none, r) = failed invalid_distance r out
after_dist_code out copied (some dist_code, r) =
    let next =
      after_distance out copied dist_code (read_bits r (get_or k_dist_extra dist_code 0)) in
    if leb 30 dist_code then failed invalid_distance r out else next

unfoldable pub after_length : Huffman → Bytes → ℕ → Option ℕ × Reader → Outcome
after_length distances out length_code (none, r) = failed length_ends r out
after_length distances out length_code (some extra, r) =
    after_dist_code out (get_or k_length_base length_code 0 + extra) (decode distances r)

unfoldable pub after_symbol : Huffman → Bytes → Option ℕ × Reader → Outcome
after_symbol distances out (none, r) = failed block_ends r out
after_symbol distances out (some symbol, r) =
    let length_code = symbol - 257 in
    let next =
      after_length distances out length_code (read_bits r (get_or k_length_extra length_code 0)) in
    if ltb symbol 256
    then going r (out ++ symbol ∷ [])
    else if symbol == 256
    then ended r out
    else if leb 29 length_code
    then failed invalid_length r out
    else next

-- The loop. A round reads a digit or ends it, so the digits of the input are rounds enough; a loop
-- that has no round left is still `going`.
unfoldable pub inflate_body : ℕ → Huffman → Huffman → Reader → Bytes → Outcome
inflate_body zero literals distances r out = going r out
inflate_body (suc f) literals distances r out =
    elim (after_symbol distances out (decode literals r)) [
      | going r' out' ↦ inflate_body f literals distances r' out'
      | ended r' out' ↦ ended r' out'
      | failed e r' out' ↦ failed e r' out'
    ]
