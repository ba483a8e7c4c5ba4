-- ===== src/Gzip/Member/Tests.antt =====
-- Concrete runs of the members and blocks of src/zdex/src/Gzip.cpp.
use zircon_dumper.Prelude.{◌^◌, ◌≡◌, ◌≢◌, arith, [], ◌∷◌, ltb, if◌then◌else◌, length}
use zircon_dumper.Prelude.Preds.{Bytes, IsByte, All}
use zircon_dumper.Gzip.Bits.{Reader}
use zircon_dumper.Gzip.Bits.Fill.{IsReader}
use zircon_dumper.Gzip.Blocks.{unfinished, inflate}
use zircon_dumper.Gzip.Blocks.Total.{inflate-ne-unfinished}
use zircon_dumper.Gzip.Member.{gunzipped, rejected, wrong_size, gzip_compress, gzip_decompress}
use zircon_dumper.Gzip.Member.Checks.{Checked, gzip_decompress-Checked}
use zircon_dumper.Gzip.Member.Trip.{decompress-compress}

abbrev three_bytes : Bytes
three_bytes = b'z' ∷ b'z' ∷ b'x' ∷ []

three_bytes-IsByte : All IsByte three_bytes
three_bytes-IsByte = (omega arith, (omega arith, (omega arith, tt)))

decompress-compress_example :
    gzip_decompress (gzip_compress 0 three_bytes)
    ≡ (if ltb (length three_bytes) (2 ^ 32) then gunzipped three_bytes else rejected wrong_size)
decompress-compress_example = decompress-compress 0 three_bytes three_bytes-IsByte

-- An empty member.
abbrev empty_member : Bytes
empty_member =
    31 ∷ 139 ∷ 8 ∷ 0 ∷ 0 ∷ 0 ∷ 0 ∷ 0 ∷ 0 ∷ 255 ∷ 3 ∷ 0 ∷ 0 ∷ 0 ∷ 0 ∷ 0 ∷ 0 ∷ 0 ∷ 0 ∷ 0 ∷ []

empty_member-IsByte : All IsByte empty_member
empty_member-IsByte = (
  omega arith,
  (
    omega arith,
    (
      omega arith,
      (
        omega arith,
        (
          omega arith,
          (
            omega arith,
            (
              omega arith,
              (
                omega arith,
                (
                  omega arith,
                  (
                    omega arith,
                    (
                      omega arith,
                      (
                        omega arith,
                        (
                          omega arith,
                          (
                            omega arith,
                            (
                              omega arith,
                              (
                                omega arith,
                                (omega arith, (omega arith, (omega arith, (omega arith, tt)))),
                              ),
                            ),
                          ),
                        ),
                      ),
                    ),
                  ),
                ),
              ),
            ),
          ),
        ),
      ),
    ),
  ),
)

gzip_decompress-Checked_example : Checked empty_member (gzip_decompress empty_member)
gzip_decompress-Checked_example = gzip_decompress-Checked empty_member empty_member-IsByte

inflate-ne-unfinished_example : inflate three_bytes ≢ unfinished
inflate-ne-unfinished_example = inflate-ne-unfinished three_bytes three_bytes-IsByte

abbrev on_three : Reader
on_three = record { input = three_bytes; at = 0; value = 0; held = 0 }

on_three-IsReader : IsReader on_three
on_three-IsReader = record {
  held_lt = omega arith;
  value_lt = omega arith;
  bytes = three_bytes-IsByte;
}
