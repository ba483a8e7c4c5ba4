-- ===== src/PeImage/Parse.antt =====
-- Parse, ParseExports and FromBuffer of src/core/src/PeImage.cpp.
use zircon_dumper.Prelude.{
  ℕ, zero, suc, ◌+◌, ◌*◌, ◌%◌, ◌^◌, Bool, true, false, not, ◌&&◌, Option, none, some, List, [], ◌∷◌,
  ltb, ◌==◌, if◌then◌else◌, take, drop, length,
}
use zircon_dumper.Prelude.Preds.{Bytes}
use zircon_dumper.Prelude.Result.{Result, ok, err, ◌>>=◌}
use zircon_dumper.Memory.CString.{before_nul}
use zircon_dumper.PeImage.{number_at, at, protect_from, PeSection, PeExport, PeImage, read_rva}

-- The texts of the errors.
pub data PeError : Type 0 where
  missing_mz : PeError
  bad_lfanew : PeError
  missing_signature : PeError
  truncated_coff : PeError
  truncated_optional : PeError
  unknown_magic : PeError
  truncated_base : PeError
  truncated_size : PeError
  truncated_headers : PeError
  truncated_sections : PeError

-- A field that has to be there.
unfoldable pub needed : PeError → Option ℕ → Result PeError ℕ
needed e none = err e
needed e (some v) = ok v

unfoldable pub field_at : ℕ → Bytes → ℕ → PeError → Result PeError ℕ
field_at width bytes offset e = needed e (at width bytes offset)

-- A field that has to hold a number.
unfoldable pub wanted : PeError → ℕ → Option ℕ → Result PeError Bool
wanted e magic none = err e
wanted e magic (some v) = if v == magic then ok true else err e

unfoldable pub magic_at : ℕ → Bytes → ℕ → ℕ → PeError → Result PeError Bool
magic_at width bytes offset magic e = wanted e magic (at width bytes offset)

-- The magic of the optional header: whether the image is for 64 bits.
unfoldable pub width_of : ℕ → Result PeError Bool
width_of magic =
    if magic == 523 then ok true else if magic == 267 then ok false else err unknown_magic

unfoldable pub section_at : Bytes → ℕ → PeSection
section_at bytes entry = record {
  name = before_nul (take 8 (drop entry bytes));
  rva = number_at 4 bytes (entry + 12);
  virtual_size = number_at 4 bytes (entry + 8);
  raw_offset = number_at 4 bytes (entry + 20);
  raw_size = number_at 4 bytes (entry + 16);
  protect = protect_from (number_at 4 bytes (entry + 36));
}

-- The loop over the section table, by the sections that are left.
unfoldable pub section_loop : ℕ → Bytes → ℕ → Result PeError (List PeSection)
section_loop zero bytes entry = ok []
section_loop (suc n) bytes entry =
    let rest = section_loop n bytes (entry + 40) in
    if ltb (length bytes) (entry + 40)
    then err truncated_sections
    else rest >>= (λ sections. ok (section_at bytes entry ∷ sections))

-- ReadRva of `width` bytes into a number, where all of them are there.
unfoldable pub number_of : ℕ → Option Bytes → Option ℕ
number_of width none = none
number_of width (some bytes) =
    if length bytes == width then some (number_at width bytes 0) else none

unfoldable pub read_number : ℕ → PeImage → ℕ → Option ℕ
read_number width image rva = number_of width (read_rva image rva width)

-- The characters of a name, by those still allowed.
unfoldable pub name_loop : ℕ → PeImage → ℕ → Bytes
name_loop zero image rva = []
name_loop (suc n) image rva =
    let rest = name_loop n image ((rva + 1) % 2 ^ 32) in
    elim (read_number 1 image rva) [ none ↦ [] | some c ↦ if c == 0 then [] else c ∷ rest ]

-- The fields of the export directory that the loop uses.
pub record ExportHeader : Type 0 where
  pub ordinal_base : ℕ
  pub name_count : ℕ
  pub address_rva : ℕ
  pub name_rva : ℕ
  pub ordinal_rva : ℕ

-- The entry of a name; `none` ends the loop.
unfoldable pub export_at : PeImage → ExportHeader → ℕ → Option PeExport
export_at image header i = elim (read_number 4 image ((header.name_rva + i * 4) % 2 ^ 32)) [
  | none ↦ none
  | some name_str_rva ↦ elim (read_number 2 image ((header.ordinal_rva + i * 2) % 2 ^ 32)) [
    | none ↦ none
    | some ordinal ↦ elim (read_number 4 image ((header.address_rva + ordinal * 4) % 2 ^ 32)) [
      | none ↦ none
      | some func_rva ↦ some (record {
        name = name_loop 512 image name_str_rva;
        rva = func_rva;
        ordinal = (ordinal + header.ordinal_base) % 2 ^ 16;
      })
    ]
  ]
]

-- An entry in front of those that follow it. A name without characters is passed over.
unfoldable pub add_export : Option PeExport → List PeExport → List PeExport
add_export none rest = []
add_export (some entry) rest = if length entry.name == 0 then rest else entry ∷ rest

-- The loop over the names, by those that are left.
unfoldable pub export_loop : ℕ → PeImage → ExportHeader → ℕ → List PeExport
export_loop zero image header i = []
export_loop (suc n) image header i =
    add_export (export_at image header i) (export_loop n image header (i + 1))

-- The fields of the directory in their order; `none` is a read that comes back short.
unfoldable pub export_header : PeImage → ℕ → Option ExportHeader
export_header image dir = elim (read_number 4 image ((dir + 16) % 2 ^ 32)) [
  | none ↦ none
  | some ordinal_base ↦ elim (read_number 4 image ((dir + 20) % 2 ^ 32)) [
    | none ↦ none
    | some address_count ↦ elim (read_number 4 image ((dir + 24) % 2 ^ 32)) [
      | none ↦ none
      | some name_count ↦ elim (read_number 4 image ((dir + 28) % 2 ^ 32)) [
        | none ↦ none
        | some address_rva ↦ elim (read_number 4 image ((dir + 32) % 2 ^ 32)) [
          | none ↦ none
          | some name_rva ↦ elim (read_number 4 image ((dir + 36) % 2 ^ 32)) [
            | none ↦ none
            | some ordinal_rva ↦ some (record {
              ordinal_base = ordinal_base;
              name_count = name_count;
              address_rva = address_rva;
              name_rva = name_rva;
              ordinal_rva = ordinal_rva;
            })
          ]
        ]
      ]
    ]
  ]
]

unfoldable pub k_max_exports : ℕ
k_max_exports = 2 ^ 20

-- The exports that a directory gives.
unfoldable pub exports_of : PeImage → Option ExportHeader → List PeExport
exports_of image none = []
exports_of image (some header) =
    if ltb k_max_exports header.name_count then [] else export_loop header.name_count image header 0

unfoldable pub parse_exports : PeImage → ℕ → PeImage
parse_exports image dir = record image { exports = exports_of image (export_header image dir) }

-- The end of Parse: the exports, where their directory is there.
unfoldable pub with_exports : PeImage → Option ℕ → Option ℕ → PeImage
with_exports image (some rva) (some size) =
    if not (rva == 0) && not (size == 0) then parse_exports image rva else image
with_exports image (some rva) none = image
with_exports image none size = image

-- The offset of the PE header, from e_lfanew on.
unfoldable pub signature_at : Bytes → ℕ → Result PeError ℕ
signature_at bytes pe =
    if ltb pe (2 ^ 31)
    then magic_at 4 bytes pe 17744 missing_signature >>= (λ is_pe. ok pe)
    else err bad_lfanew

unfoldable pub after_dos : Bytes → Bool → Result PeError ℕ
after_dos bytes is_dos = field_at 4 bytes 60 bad_lfanew >>= signature_at bytes

unfoldable pub find_pe : Bytes → Result PeError ℕ
find_pe bytes = magic_at 2 bytes 0 23117 missing_mz >>= after_dos bytes

-- The number of sections and the size of the optional header.
unfoldable pub coff_at : Bytes → ℕ → Result PeError (ℕ × ℕ)
coff_at bytes pe = field_at 2 bytes (pe + 6) truncated_coff >>= (λ section_count.
    field_at 2 bytes (pe + 20) truncated_coff
    >>= (λ optional_size. ok (section_count, optional_size)))

-- The fields of the optional header.
pub record Optional : Type 0 where
  pub wide : Bool
  pub entry_point : ℕ
  pub base : ℕ
  pub image_size : ℕ
  pub headers_size : ℕ

unfoldable pub optional_of : Bytes → ℕ → Bool → Result PeError Optional
optional_of bytes opt wide = field_at 4 bytes (opt + 16) truncated_optional >>= (λ entry_point.
    (if wide
      then field_at 8 bytes (opt + 24) truncated_base
      else field_at 4 bytes (opt + 28) truncated_base)
    >>= (λ base. field_at 4 bytes (opt + 56) truncated_size >>= (λ image_size.
        field_at 4 bytes (opt + 60) truncated_headers >>= (λ headers_size. ok (record {
          wide = wide;
          entry_point = entry_point;
          base = base;
          image_size = image_size;
          headers_size = headers_size;
        })))))

unfoldable pub optional_at : Bytes → ℕ → Result PeError Optional
optional_at bytes opt =
    field_at 2 bytes opt truncated_optional >>= (λ magic. width_of magic >>= optional_of bytes opt)

unfoldable pub from_sections : Bytes → ℕ → Optional → List PeSection → Result PeError PeImage
from_sections bytes opt o sections =
    let dir = opt + (if o.wide then 112 else 96) in
    ok (
      with_exports
        (record {
          bytes = bytes;
          sections = sections;
          exports = [];
          preferred_base = o.base;
          size_of_image = o.image_size;
          entry_point_rva = o.entry_point;
          size_of_headers = o.headers_size;
          is_64bit = o.wide;
        })
        (at 4 bytes dir) (at 4 bytes (dir + 4)))

unfoldable pub from_optional : Bytes → ℕ → ℕ → ℕ → Optional → Result PeError PeImage
from_optional bytes opt section_count optional_size o =
    section_loop section_count bytes (opt + optional_size) >>= from_sections bytes opt o

unfoldable pub from_coff : Bytes → ℕ → ℕ × ℕ → Result PeError PeImage
from_coff bytes pe (section_count, optional_size) =
    optional_at bytes (pe + 24) >>= from_optional bytes (pe + 24) section_count optional_size

unfoldable pub from_pe : Bytes → ℕ → Result PeError PeImage
from_pe bytes pe = coff_at bytes pe >>= from_coff bytes pe

-- FromBuffer and Parse.
unfoldable pub parse_image : Bytes → Result PeError PeImage
parse_image bytes = find_pe bytes >>= from_pe bytes
