-- ===== src/Gzip/Deflate/Trip.antt =====
-- DeflateBlock and the reading of a fixed block by Inflate, of src/zdex/src/Gzip.cpp.
use zircon_dumper.Prelude.{
  ℕ, suc, ◌<◌, ◌≡◌, refl, ◌∙◌, Bool, some, [], ◌++◌, append_assoc, if◌then◌else◌, length, arith,
  Bool-cases, inl, inr,
}
use zircon_dumper.Prelude.Preds.{Bytes, IsByte, All}
use zircon_dumper.Gzip.Bits.{new_writer, align_writer, Reader, new_reader, read_bits}
use zircon_dumper.Gzip.Bits.Stream.{bits, byte_bits, written}
use zircon_dumper.Gzip.Bits.Fill.{pending}
use zircon_dumper.Gzip.Bits.Trip.{read_field, reopened, new_writer-IsWriter}
use zircon_dumper.Gzip.Deflate.{deflate_block}
use zircon_dumper.Gzip.Deflate.Tokens.{deflate_block-tokens}
use zircon_dumper.Gzip.Huffman.{Huffman, fixed_literals, fixed_distances}
use zircon_dumper.Gzip.Huffman.Fixed.{
  literal_table, distance_table, literals_built, distances_built,
}
use zircon_dumper.Gzip.Inflate.{ended, inflate_body}
use zircon_dumper.Gzip.Inflate.Block.{block_bits}
use zircon_dumper.Gzip.Inflate.Trip.{inflate_body-block}

-- What DeflateBlock writes for a list of bytes into an empty output, padded to whole bytes, is
-- read back: one digit that says whether the block is the last one, two digits for the fixed
-- alphabet, whose tables are built, and then InflateBlockBody, after at most one round more than
-- there are bytes, returns true with exactly these bytes. It holds whatever byte is behind the data.
pub inflate-deflate :
    (past : ℕ) (bytes : Bytes) (final_block : Bool)
    → All IsByte bytes
    → (literals : Huffman) × (distances : Huffman) × (fixed_literals ≡ some literals)
      × (fixed_distances ≡ some distances)
      × (r1 : Reader) × (r2 : Reader) × (r3 : Reader) × (read_bits
            (new_reader (align_writer (deflate_block past bytes (new_writer []) final_block)).out)
            1
          ≡ (some (if final_block then 1 else 0), r1))
      × (read_bits r1 2 ≡ (some 1, r2))
      × (inflate_body (suc (length bytes)) literals distances r2 [] ≡ ended r3 bytes)
inflate-deflate past bytes final_block all =
    let w = deflate_block past bytes (new_writer []) final_block in
    let flag : ℕ = if final_block then 1 else 0 in
    let small : flag < 2 = elim (Bool-cases final_block) [
      | inl e ↦ rw e (omega arith)
      | inr e ↦ rw e (omega arith)
    ] in
    let (tokens, ok, wrote, valid, whole, few) =
      deflate_block-tokens past bytes (new_writer []) final_block new_writer-IsWriter all in
    let (fresh, pad, there) = reopened w ok in
    let body = block_bits tokens in
    let empty : written (new_writer []) ≡ [] = unfold written byte_bits bits in refl in
    let apart : pending (new_reader (align_writer w).out)
        ≡ bits 1 flag ++ (bits 2 1 ++ (body ++ pad)) =
      there
      ∙ rw
          (
            wrote,
            empty,
            append_assoc (bits 1 flag) (bits 2 1 ++ body) pad,
            append_assoc (bits 2 1) body pad,
          )
          refl in
    let (r1, got1, ok1, left1) =
      read_field 1 flag (new_reader (align_writer w).out) (bits 2 1 ++ (body ++ pad)) fresh small
        (omega arith) apart in
    let (r2, got2, ok2, left2) =
      read_field 2 1 r1 (body ++ pad) ok1 (omega arith) (omega arith) left1 in
    let (r3, done, ok3, left3) =
      inflate_body-block (suc (length bytes)) [] tokens r2 pad (omega arith) valid ok2 left2 in
    (
      literal_table,
      distance_table,
      literals_built,
      distances_built,
      r1,
      r2,
      r3,
      got1,
      got2,
      rw whole at done,
    )
