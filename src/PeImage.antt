-- ===== src/PeImage.antt =====
-- The sections of src/core/src/PeImage.cpp and what is read through them.
pub mod Accepted
pub mod Parse
pub mod Reads
pub mod Static
mod Tests
use zircon_dumper.Prelude.{
  ℕ, zero, suc, ◌+◌, ◌-◌, ◌*◌, ◌%◌, ◌^◌, min, max, Bool, true, false, ◌&&◌, Option, none, some,
  List, [], ◌∷◌, ◌++◌, leb, ltb, ◌==◌, if◌then◌else◌, get_or, take, drop, replicate, length,
}
use zircon_dumper.Prelude.Preds.{Bytes}
use zircon_dumper.Memory.Lookup.{find_if, protect_read, protect_write, protect_execute, has_flag}

-- The number in `width` bytes, the lowest first.
unfoldable pub number_at : ℕ → Bytes → ℕ → ℕ
number_at zero bytes offset = 0
number_at (suc width) bytes offset =
    get_or bytes offset 0 + 256 * number_at width bytes (offset + 1)

-- At, for a number of `width` bytes.
unfoldable pub at : ℕ → Bytes → ℕ → Option ℕ
at width bytes offset =
    if ltb (length bytes) (offset + width) then none else some (number_at width bytes offset)

unfoldable pub protect_from : ℕ → ℕ
protect_from flags =
    (if has_flag flags 1073741824 then protect_read else 0)
    + (if has_flag flags 2147483648 then protect_write else 0)
    + (if has_flag flags 536870912 then protect_execute else 0)

pub record PeSection : Type 0 where
  pub name : Bytes
  pub rva : ℕ
  pub virtual_size : ℕ
  pub raw_offset : ℕ
  pub raw_size : ℕ
  pub protect : ℕ

pub record PeExport : Type 0 where
  pub name : Bytes
  pub rva : ℕ
  pub ordinal : ℕ

pub record PeImage : Type 0 where
  pub bytes : Bytes
  pub sections : List PeSection
  pub exports : List PeExport
  pub preferred_base : ℕ
  pub size_of_image : ℕ
  pub entry_point_rva : ℕ
  pub size_of_headers : ℕ
  pub is_64bit : Bool

abbrev pub span_of : PeSection → ℕ
span_of s = max s.virtual_size s.raw_size

unfoldable pub covers : ℕ → PeSection → Bool
covers rva s = leb s.rva rva && ltb rva ((s.rva + span_of s) % 2 ^ 32)

unfoldable pub section_for_rva : PeImage → ℕ → Option PeSection
section_for_rva image rva = find_if (covers rva) image.sections

-- A round of ReadRva: the bytes that it adds, and whether the loop goes on.
unfoldable pub header_round : PeImage → ℕ → ℕ → Bytes × Bool
header_round image cur left =
    let want = min left (image.size_of_headers - cur) in
    let available =
      if ltb cur (length image.bytes) then min want (length image.bytes - cur) else 0 in
    (take available (drop cur image.bytes), leb want available && ltb 0 available)

unfoldable pub section_round : PeImage → ℕ → ℕ → Option PeSection → Bytes × Bool
section_round image cur left none = ([], false)
section_round image cur left (some s) =
    let offset = cur - s.rva in
    let want = min left (span_of s - offset) in
    let available = min want (s.raw_size - offset) in
    let file_offset = (s.raw_offset + offset) % 2 ^ 32 in
    if ltb offset s.raw_size
    then if ltb (length image.bytes) (file_offset + available) then ([], false) else (
      take available (drop file_offset image.bytes) ++ replicate (want - available) 0,
      ltb 0 want,
    )
    else (replicate want 0, ltb 0 want)

unfoldable pub read_round : PeImage → ℕ → ℕ → Bytes × Bool
read_round image cur left =
    if ltb cur image.size_of_headers
    then header_round image cur left
    else section_round image cur left (section_for_rva image cur)

-- The loop of ReadRva, `out` being what is read so far. A round that goes on adds a byte.
unfoldable pub read_loop : ℕ → PeImage → ℕ → ℕ → Bytes → Option Bytes
read_loop zero image rva size out = if ltb (length out) size then none else some out
read_loop (suc f) image rva size out =
    let (more, again) = read_round image ((rva + length out) % 2 ^ 32) (size - length out) in
    let next = read_loop f image rva size (out ++ more) in
    if ltb (length out) size then (if again then next else some (out ++ more)) else some out

-- `none` is a loop that has no round left.
unfoldable pub read_rva : PeImage → ℕ → ℕ → Option Bytes
read_rva image rva size = read_loop size image rva size []
