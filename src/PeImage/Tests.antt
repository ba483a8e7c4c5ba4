-- ===== src/PeImage/Tests.antt =====
-- Concrete runs of src/core/src/PeImage.cpp.
use zircon_dumper.Prelude.{
  ◌+◌, ◌^◌, ◌≤◌, ◌<◌, ◌⊎◌, ◌≡◌, refl, false, some, [], ◌∷◌, ◌++◌, replicate, length,
}
use zircon_dumper.Prelude.Preds.{Bytes}
use zircon_dumper.Prelude.Result.{ok}
use zircon_dumper.Memory.CString.{before_nul}
use zircon_dumper.Memory.Lookup.{find_if}
use zircon_dumper.PeImage.{
  number_at, at, protect_from, PeImage, covers, section_for_rva, section_round, read_round,
  read_loop, read_rva,
}
use zircon_dumper.PeImage.Accepted.{IsAccepted, parse_image-IsAccepted}
use zircon_dumper.PeImage.Parse.{
  needed, field_at, wanted, magic_at, width_of, section_at, section_loop, with_exports,
  signature_at, after_dos, find_pe, coff_at, optional_of, optional_at, from_sections, from_optional,
  from_coff, from_pe, parse_image,
}
use zircon_dumper.PeImage.Reads.{read_rva-some}
use zircon_dumper.PeImage.Static.{static_read, static_read-some}

-- An image of 32 bits with one section, of eight bytes at 0x1000, whose two bytes are the last.
abbrev tiny : Bytes
tiny =
    (b'M' ∷ b'Z' ∷ [])
    ++ replicate 58 0
    ++ (64 ∷ 0 ∷ 0 ∷ 0 ∷ b'P' ∷ b'E' ∷ 0 ∷ 0 ∷ 0 ∷ 0 ∷ 1 ∷ 0 ∷ [])
    ++ replicate 12 0
    ++ (64 ∷ 0 ∷ 0 ∷ 0 ∷ 11 ∷ 1 ∷ [])
    ++ replicate 58 0
    ++ (32 ∷ 0 ∷ 0 ∷ 0 ∷ b'.' ∷ b'd' ∷ [])
    ++ replicate 6 0
    ++ (8 ∷ 0 ∷ 0 ∷ 0 ∷ 0 ∷ 16 ∷ 0 ∷ 0 ∷ 2 ∷ 0 ∷ 0 ∷ 0 ∷ 192 ∷ 0 ∷ 0 ∷ 0 ∷ [])
    ++ replicate 16 0
    ++ (5 ∷ 6 ∷ [])

abbrev tiny_image : PeImage
tiny_image = record {
  bytes = tiny;
  sections =
      record {
        name = b'.' ∷ b'd' ∷ [];
        rva = 4096;
        virtual_size = 8;
        raw_offset = 192;
        raw_size = 2;
        protect = 0;
      }
      ∷ [];
  exports = [];
  preferred_base = 0;
  size_of_image = 0;
  entry_point_rva = 0;
  size_of_headers = 32;
  is_64bit = false;
}

tiny_parsed : parse_image tiny ≡ ok tiny_image
unfolding parse_image from_pe from_coff from_optional from_sections optional_at optional_of coff_at
    find_pe after_dos signature_at with_exports section_loop section_at width_of magic_at wanted
    field_at needed at number_at protect_from before_nul
tiny_parsed = refl

parse_image-IsAccepted_example : IsAccepted tiny (number_at 4 tiny 60) tiny_image
parse_image-IsAccepted_example = parse_image-IsAccepted tiny tiny_image tiny_parsed

-- A read of the section and of what is behind its two bytes.
tiny_read : read_rva tiny_image 4096 3 ≡ some (5 ∷ 6 ∷ 0 ∷ [])
unfolding read_rva read_loop read_round section_round section_for_rva find_if covers
tiny_read = refl

read_rva-some_example :
    (bytes : Bytes) × (read_rva tiny_image 4096 3 ≡ some bytes) × (length bytes ≤ 3)
read_rva-some_example = read_rva-some tiny_image 4096 3

static_read-some_example :
    (bytes : Bytes) × (static_read tiny_image 4097 20 ≡ some bytes)
    × (length bytes ≤ 20)
    × ((4097 < 0) ⊎ (0 + 2 ^ 32 ≤ 4097) → bytes ≡ [])
static_read-some_example = static_read-some tiny_image 4097 20
