-- ===== src/Gzip/Member.antt =====
-- PutU32LE, GzipHeader, GzipCompress, LooksGzipped and GzipDecompress of src/zdex/src/Gzip.cpp.
pub mod Checks
pub mod Slabs
mod Tests
pub mod Trip
use Prim.Native.Nat.{bit_and, bit_or}
use zircon_dumper.Prelude.{
  ℕ, zero, suc, ◌+◌, ◌-◌, ◌*◌, ◌/◌, ◌%◌, ◌^◌, Bool, true, false, not, ◌&&◌, Option, none, some,
  List, [], ◌∷◌, ◌++◌, leb, ltb, ◌==◌, if◌then◌else◌, get_or, take, drop, length,
}
use zircon_dumper.Prelude.Preds.{Bytes}
use zircon_dumper.Gzip.Bits.{Writer, new_writer, align_writer}
use zircon_dumper.Gzip.Deflate.{deflate_block}
use zircon_dumper.Gzip.Crc.{crc32}
use zircon_dumper.Gzip.Blocks.{
  StreamError, Inflated, inflated, invalid, unfinished, u16_at, inflate,
}

-- The four bytes that PutU32LE appends.
unfoldable pub put_u32 : ℕ → Bytes
put_u32 v = (v % 256) ∷ (v / 2 ^ 8 % 256) ∷ (v / 2 ^ 16 % 256) ∷ (v / 2 ^ 24 % 256) ∷ []

unfoldable pub gzip_header : Bytes
unfolding put_u32
gzip_header = (31 ∷ 139 ∷ 8 ∷ 0 ∷ []) ++ (put_u32 0 ++ (0 ∷ 255 ∷ []))

unfoldable pub k_slab : ℕ
k_slab = 4 * 2 ^ 20

-- The loop over the slabs, `input` being what is left. A round takes at least one byte or is the
-- last one. `past` is what stands behind the whole input.
unfoldable pub compress_loop : ℕ → ℕ → ℕ → Writer → Bytes → Writer
compress_loop zero slab past w input = w
compress_loop (suc f) slab past w input =
    let rest = drop slab input in
    let w' = deflate_block (get_or rest 0 past) (take slab input) w (leb (length input) slab) in
    let next = compress_loop f slab past w' rest in if length rest == 0 then w' else next

unfoldable pub gzip_compress : ℕ → Bytes → Bytes
gzip_compress past input =
    (align_writer
      (compress_loop (suc (length input)) k_slab past (new_writer gzip_header) input)).out
    ++ (put_u32 (crc32 input 0) ++ put_u32 (length input % 2 ^ 32))

unfoldable pub looks_gzipped : Bytes → Bool
looks_gzipped input = leb 2 (length input) && (get_or input 0 0 == 31) && (get_or input 1 0 == 139)

-- The texts of `error`.
pub data GunzipError : Type 0 where
  not_gzip : GunzipError
  too_short : GunzipError
  other_method : GunzipError
  extra_truncated : GunzipError
  no_stream : GunzipError
  in_stream : StreamError → GunzipError
  wrong_size : GunzipError
  wrong_crc : GunzipError

pub data Gunzipped : Type 0 where
  gunzipped : Bytes → Gunzipped
  rejected : GunzipError → Gunzipped
  endless : Gunzipped

-- The loop over a text that ends in 0, by the bytes left; then one more step.
unfoldable pub skip_text : ℕ → Bytes → ℕ → ℕ
skip_text zero input at = at + 1
skip_text (suc f) input at =
    let next = skip_text f input (at + 1) in
    if ltb at (length input) && not (get_or input at 0 == 0) then next else at + 1

-- `none` is an extra field that is truncated.
unfoldable pub skip_extra : Bytes → ℕ → ℕ → Option ℕ
skip_extra input flags at =
    if bit_and flags 4 == 0
    then some at
    else if ltb (length input) (at + 2)
    then none
    else some (at + (2 + u16_at input at))

unfoldable pub skip_names : Bytes → ℕ → ℕ → ℕ
skip_names input flags at =
    let name = if bit_and flags 8 == 0 then at else skip_text (length input) input at in
    let comment = if bit_and flags 16 == 0 then name else skip_text (length input) input name in
    if bit_and flags 2 == 0 then comment else comment + 2

abbrev pub u32_at : Bytes → ℕ → ℕ
u32_at input at =
    bit_or
      (bit_or (bit_or (get_or input at 0) (get_or input (at + 1) 0 * 2 ^ 8))
        (get_or input (at + 2) 0 * 2 ^ 16))
      (get_or input (at + 3) 0 * 2 ^ 24)

-- From the result of Inflate on.
unfoldable pub check_trailer : Bytes → ℕ → Inflated → Gunzipped
check_trailer input trailer (invalid e) = rejected (in_stream e)
check_trailer input trailer unfinished = endless
check_trailer input trailer (inflated out) =
    if not (length out == u32_at input (trailer + 4))
    then rejected wrong_size
    else if not (crc32 out 0 == u32_at input trailer)
    then rejected wrong_crc
    else gunzipped out

-- From the start of the stream on.
unfoldable pub gunzip_from : Bytes → Option ℕ → Gunzipped
gunzip_from input none = rejected extra_truncated
gunzip_from input (some start) =
    let at = skip_names input (get_or input 3 0) start in
    let trailer = length input - 8 in
    if ltb (length input) (at + 8)
    then rejected no_stream
    else check_trailer input trailer (inflate (take (trailer - at) (drop at input)))

unfoldable pub gzip_decompress : Bytes → Gunzipped
gzip_decompress input =
    if not (looks_gzipped input)
    then rejected not_gzip
    else if ltb (length input) 18
    then rejected too_short
    else if not (get_or input 2 0 == 8)
    then rejected other_method
    else gunzip_from input (skip_extra input (get_or input 3 0) 10)
