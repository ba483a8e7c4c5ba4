-- ===== src/Gzip/Member/Checks.antt =====
-- What GzipDecompress of src/zdex/src/Gzip.cpp does with any input: it returns, and it returns
-- bytes only if they pass the tests of the trailer.
use zircon_dumper.Prelude.{
  ℕ, ◌+◌, ◌-◌, ◌≡◌, ◌≢◌, refl, Bool, true, false, not, Option, none, some, ltb, ◌==◌, if◌then◌else◌,
  get_or, take, drop, length, arith, Bool-cases, inl, inr,
}
use zircon_dumper.Prelude.Preds.{Bytes, IsByte, All, All-take, All-drop}
use zircon_dumper.Gzip.Crc.{crc32}
use zircon_dumper.Gzip.Blocks.{Inflated, inflated, invalid, unfinished, inflate}
use zircon_dumper.Gzip.Blocks.Total.{inflate-ne-unfinished}
use zircon_dumper.Gzip.Member.{
  looks_gzipped, Gunzipped, gunzipped, rejected, endless, skip_extra, skip_names, u32_at,
  check_trailer, gunzip_from, gzip_decompress,
}

-- A result, where it is bytes, has the length and the checksum of the trailer.
abbrev pub Checked : Bytes → Gunzipped → Type 0
Checked input (gunzipped out) =
    (length out ≡ u32_at input (length input - 8 + 4))
    × (crc32 out 0 ≡ u32_at input (length input - 8))
Checked input (rejected e) = Unit
Checked input endless = ⊥

if-Checked :
    (input : Bytes) (b : Bool) (p q : Gunzipped)
    → Checked input p
    → Checked input q
    → Checked input (if b then p else q)
if-Checked input true p q first second = first
if-Checked input false p q first second = second

check_trailer-Checked :
    (input : Bytes) (result : Inflated)
    → result ≢ unfinished
    → Checked input (check_trailer input (length input - 8) result)
unfolding check_trailer
check_trailer-Checked input (invalid e) ends = tt
check_trailer-Checked input unfinished ends = absurd (ends refl)
check_trailer-Checked input (inflated out) ends =
    elim (Bool-cases (length out == u32_at input (length input - 8 + 4))) [
      | inl size ↦ elim (Bool-cases (crc32 out 0 == u32_at input (length input - 8))) [
        | inl sum ↦ rw (size, sum) (ground arith, ground arith)
        | inr other ↦ rw (size, other) tt
      ]
      | inr other ↦ rw other tt
    ]

gunzip_from-Checked :
    (input : Bytes) (start : Option ℕ) → All IsByte input → Checked input (gunzip_from input start)
unfolding gunzip_from
gunzip_from-Checked input none all = tt
gunzip_from-Checked input (some start) all =
    let at = skip_names input (get_or input 3 0) start in
    let stream = take (length input - 8 - at) (drop at input) in
    if-Checked input (ltb (length input) (at + 8)) _ _ tt (
      check_trailer-Checked input (inflate stream) (
        inflate-ne-unfinished stream
          (All-take IsByte (length input - 8 - at) (drop at input) (All-drop IsByte at input all))))

-- GzipDecompress returns on every input of bytes. Where it returns bytes, their number and their
-- checksum are those of the last eight bytes of the input; otherwise it returns an error.
pub gzip_decompress-Checked :
    (input : Bytes) → All IsByte input → Checked input (gzip_decompress input)
unfolding gzip_decompress
gzip_decompress-Checked input all = if-Checked input (not (looks_gzipped input)) _ _ tt (
    if-Checked input (ltb (length input) 18) _ _ tt (
      if-Checked input (not (get_or input 2 0 == 8)) _ _ tt
        (gunzip_from-Checked input (skip_extra input (get_or input 3 0) 10) all)))
