-- ===== src/Gzip/Member/Trip.antt =====
-- GzipCompress and GzipDecompress of src/zdex/src/Gzip.cpp together.
use Prim.Native.Nat.{bit_or}
use zircon_dumper.Prelude.{
  ℕ, suc, ◌+◌, ◌-◌, ◌*◌, ◌/◌, ◌%◌, ◌^◌, ◌≤◌, ◌≡◌, refl, sym, ap, ◌∙◌, true, false, List, [], ◌∷◌,
  ◌++◌, append_assoc, append-nil, ltb, ◌==◌, if◌then◌else◌, get_or, get_or-append, take-append,
  length, length-append, arith, Bool-cases, inl, inr,
}
use zircon_dumper.Prelude.Preds.{Bytes, IsByte, All}
use zircon_dumper.Gzip.Bits.{new_writer, new_reader, align_writer}
use zircon_dumper.Gzip.Bits.Stream.{bits, byte_bits, written, IsWriter, bit_or-shifted}
use zircon_dumper.Gzip.Bits.Fill.{pending, IsReader, length-bits}
use zircon_dumper.Gzip.Bits.Count.{length-pending}
use zircon_dumper.Gzip.Bits.Trip.{align-written, bits_cancel}
use zircon_dumper.Gzip.Crc.{crc32}
use zircon_dumper.Gzip.Crc.Bounds.{crc32_lt}
use zircon_dumper.Gzip.Blocks.{inflated, inflate}
use zircon_dumper.Gzip.Blocks.Trip.{Stream, inflate_loop-Stream}
use zircon_dumper.Gzip.Member.{
  put_u32, gzip_header, k_slab, compress_loop, gzip_compress, looks_gzipped, gunzipped, rejected,
  wrong_size, skip_extra, skip_names, u32_at, check_trailer, gunzip_from, gzip_decompress,
}
use zircon_dumper.Gzip.Member.Slabs.{compress_loop-Stream}

-- The four bytes that PutU32LE wrote, with anything before and behind them.
u32_at-put_u32 : (p q : Bytes) (v : ℕ) → u32_at (p ++ (put_u32 v ++ q)) (length p) ≡ v % 2 ^ 32
unfolding put_u32
u32_at-put_u32 p q v =
    let xs = put_u32 v ++ q in
    let z : length p ≡ length p + 0 = omega arith in
    let first : get_or (p ++ xs) (length p) 0 ≡ v % 256 =
      ap (λ (i : ℕ). get_or (p ++ xs) i 0) z ∙ get_or-append p xs 0 0 in
    let one : bit_or (v % 256) (v / 2 ^ 8 % 256 * 2 ^ 8) ≡ v % 256 + v / 2 ^ 8 % 256 * 2 ^ 8 =
      bit_or-shifted 8 (v % 256) (v / 2 ^ 8 % 256) (omega arith) in
    let two =
      bit_or-shifted 16 (v % 256 + v / 2 ^ 8 % 256 * 2 ^ 8) (v / 2 ^ 16 % 256) (omega arith) in
    let three =
      bit_or-shifted 24 (v % 256 + v / 2 ^ 8 % 256 * 2 ^ 8 + v / 2 ^ 16 % 256 * 2 ^ 16)
        (v / 2 ^ 24 % 256) (omega arith) in
    rw
      (
        first,
        get_or-append p xs 1 0,
        get_or-append p xs 2 0,
        get_or-append p xs 3 0,
        one,
        two,
        three,
      )
      (omega arith)

-- Bytes whose digits begin with those of others begin with these.
byte_bits_prefix :
    (hs xs : Bytes) (ds : List ℕ)
    → All IsByte hs
    → All IsByte xs
    → byte_bits xs ≡ byte_bits hs ++ ds
    → (ys : Bytes) × (xs ≡ hs ++ ys) × All IsByte ys × (byte_bits ys ≡ ds)
unfolding byte_bits
byte_bits_prefix [] xs ds hh hx e = (xs, refl, hx, e)
byte_bits_prefix (h ∷ hs) [] ds hh hx e =
    let sizes = ap length e ∙ length-append (bits 8 h ++ byte_bits hs) ds in
    absurd (omega (arith, length-append (bits 8 h) (byte_bits hs), length-bits 8 h))
byte_bits_prefix (h ∷ hs) (x ∷ xs) ds hh hx e =
    let (same, e') =
      bits_cancel 8 x h (byte_bits xs) (byte_bits hs ++ ds) hx.0 hh.0
        (e ∙ append_assoc (bits 8 h) (byte_bits hs) ds) in
    let (ys, split, hy, left) = byte_bits_prefix hs xs ds hh.1 hx.1 e' in
    (ys, rw (same, split) refl, hy, left)

-- Inflate over bytes that begin with the digits of a stream.
inflate-Stream :
    {ds : List ℕ} {bytes : Bytes} (ys : Bytes) (pad : List ℕ)
    → Stream ds bytes
    → All IsByte ys
    → byte_bits ys ≡ ds ++ pad
    → inflate ys ≡ inflated bytes
unfolding inflate
inflate-Stream {ds} ys pad stream hy e =
    let r = new_reader ys in
    let ok : IsReader r = record { held_lt = omega arith; value_lt = omega arith; bytes = hy } in
    let there : pending r ≡ ds ++ pad = unfold pending bits in e in
    let size = ap length there ∙ length-append ds pad in
    let count : length ds ≤ 8 * length ys = let all = length-pending r in omega arith in
    inflate_loop-Stream (suc (8 * length ys)) (suc (8 * length ys)) r [] pad stream (omega arith)
      (omega arith) ok there

-- GzipDecompress over the header that GzipHeader writes, a stream and eight bytes.
gunzip-member :
    (ys trailer : Bytes)
    → length trailer ≡ 8
    → gzip_decompress (gzip_header ++ (ys ++ trailer))
      ≡ check_trailer (gzip_header ++ (ys ++ trailer)) (10 + length ys) (inflate ys)
unfolding gzip_decompress gunzip_from looks_gzipped skip_extra skip_names gzip_header
gunzip-member ys trailer eight =
    let size = length-append ys trailer in
    let whole = gzip_header ++ (ys ++ trailer) in
    let looks : looks_gzipped whole ≡ true = ground arith in
    let long : ltb (length whole) 18 ≡ false = ground arith in
    let end : length whole - 8 ≡ 10 + length ys = omega arith in
    let cut : 10 + length ys - 10 ≡ length ys = omega arith in
    rw (looks, long, end, cut, take-append ys trailer) refl

header_bytes : All IsByte gzip_header
unfolding gzip_header
header_bytes = omega arith

-- What GzipCompress returns: the header, a stream for the input, and the trailer.
gzip_compress_lem :
    (past : ℕ) (input : Bytes)
    → All IsByte input
    → (ys : Bytes) × (gzip_compress past input
        ≡ gzip_header ++ (ys ++ (put_u32 (crc32 input 0) ++ put_u32 (length input % 2 ^ 32))))
      × (inflate ys ≡ inflated input)
unfolding gzip_compress
gzip_compress_lem past input all =
    let trailer = put_u32 (crc32 input 0) ++ put_u32 (length input % 2 ^ 32) in
    let start : IsWriter (new_writer gzip_header) = record {
      held_lt = omega arith;
      acc_lt = omega arith;
      bytes = header_bytes;
    } in
    let (ds, ok, wrote, stream) =
      compress_loop-Stream (suc (length input)) k_slab past (new_writer gzip_header) input
        (unfold k_slab in omega arith) (omega arith) start all in
    let w = compress_loop (suc (length input)) k_slab past (new_writer gzip_header) input in
    let (out_bytes, pad, padded) = align-written w ok in
    let empty : written (new_writer gzip_header) ≡ byte_bits gzip_header =
      unfold written bits in append-nil (byte_bits gzip_header) in
    let apart : byte_bits (align_writer w).out ≡ byte_bits gzip_header ++ (ds ++ pad) =
      padded ∙ rw (wrote, empty) (append_assoc (byte_bits gzip_header) ds pad) in
    let (ys, split, hy, left) =
      byte_bits_prefix gzip_header (align_writer w).out (ds ++ pad) header_bytes out_bytes apart in
    (ys, rw split (append_assoc gzip_header ys trailer), inflate-Stream ys pad stream hy left)

-- The trailer that GzipCompress writes, read again.
check_trailer-put_u32 :
    (ys input : Bytes)
    → check_trailer
        (gzip_header ++ (ys ++ (put_u32 (crc32 input 0) ++ put_u32 (length input % 2 ^ 32))))
        (10 + length ys)
        (inflated input)
      ≡ (if ltb (length input) (2 ^ 32) then gunzipped input else rejected wrong_size)
unfolding check_trailer
check_trailer-put_u32 ys input =
    let crc = crc32 input 0 in
    let size = length input % 2 ^ 32 in
    let trailer = put_u32 crc ++ put_u32 size in
    let front = gzip_header ++ ys in
    let measured : length front ≡ 10 + length ys = unfold gzip_header in omega arith in
    let measured' : length (front ++ put_u32 crc) ≡ 10 + length ys + 4 =
      length-append front (put_u32 crc) ∙ (unfold put_u32 in omega (arith, measured)) in
    let apart : gzip_header ++ (ys ++ trailer) ≡ front ++ trailer =
      sym (append_assoc gzip_header ys trailer) in
    let apart' : front ++ trailer ≡ (front ++ put_u32 crc) ++ (put_u32 size ++ []) =
      rw append-nil (sym (append_assoc front (put_u32 crc) (put_u32 size))) in
    let small = crc32_lt input 0 (omega arith) in
    let crc_read : u32_at (gzip_header ++ (ys ++ trailer)) (10 + length ys) ≡ crc =
      ap (λ (i : ℕ). u32_at (gzip_header ++ (ys ++ trailer)) i) (sym measured)
      ∙ ap (λ (b : Bytes). u32_at b (length front)) apart
      ∙ u32_at-put_u32 front (put_u32 size) crc
      ∙ omega arith in
    let size_read : u32_at (gzip_header ++ (ys ++ trailer)) (10 + length ys + 4) ≡ size =
      ap (λ (i : ℕ). u32_at (gzip_header ++ (ys ++ trailer)) i) (sym measured')
      ∙ ap (λ (b : Bytes). u32_at b (length (front ++ put_u32 crc))) (apart ∙ apart')
      ∙ u32_at-put_u32 (front ++ put_u32 crc) [] size
      ∙ omega arith in
    let same_crc : (crc == crc) ≡ true = ground arith in
    elim (Bool-cases (ltb (length input) (2 ^ 32))) [
      | inl below ↦
          let same_size : (length input == size) ≡ true = ground arith in
          rw (size_read, crc_read, same_size, same_crc, below) refl
      | inr above ↦
          let other_size : (length input == size) ≡ false = ground arith in
          rw (size_read, other_size, above) refl
    ]

-- Whatever stands behind it in memory, an input of less than 2 ^ 32 bytes that GzipCompress has
-- packed is returned by GzipDecompress, and a longer one is refused for its size.
pub decompress-compress :
    (past : ℕ) (input : Bytes)
    → All IsByte input
    → gzip_decompress (gzip_compress past input)
      ≡ (if ltb (length input) (2 ^ 32) then gunzipped input else rejected wrong_size)
decompress-compress past input all =
    let (ys, packed, plain) = gzip_compress_lem past input all in
    let crc = crc32 input 0 in
    let size = length input % 2 ^ 32 in
    let trailer = put_u32 crc ++ put_u32 size in
    let whole = gzip_header ++ (ys ++ trailer) in
    let read = gunzip-member ys trailer (unfold put_u32 in refl) in
    rw (packed, read, plain) (check_trailer-put_u32 ys input)
