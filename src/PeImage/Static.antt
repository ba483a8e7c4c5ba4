-- ===== src/PeImage/Static.antt =====
-- StaticMemorySource of src/core/src/StaticMemorySource.cpp.
use zircon_dumper.Prelude.{
  ℕ, ◌+◌, ◌-◌, ◌%◌, ◌^◌, ◌≤◌, ◌<◌, ◌⊎◌, ◌≡◌, refl, true, Option, some, List, [], map, ltb,
  if◌then◌else◌, length, arith, Bool-cases, inl, inr,
}
use zircon_dumper.Prelude.Preds.{Bytes}
use zircon_dumper.Memory.Lookup.{RegionInfo}
use zircon_dumper.PeImage.{PeSection, PeImage, span_of, read_rva}
use zircon_dumper.PeImage.Reads.{read_rva-some}

-- The region of a section.
unfoldable pub region_of : PeImage → PeSection → RegionInfo
region_of image s = record {
  base = (image.preferred_base + s.rva) % 2 ^ 64;
  size = span_of s;
  protect = s.protect;
  is_image = true;
}

unfoldable pub static_regions : PeImage → List RegionInfo
static_regions image = map (region_of image) image.sections

unfoldable pub static_read : PeImage → ℕ → ℕ → Option Bytes
static_read image addr size =
    if ltb addr image.preferred_base
    then some []
    else if ltb (2 ^ 32 - 1) (addr - image.preferred_base)
    then some []
    else read_rva image (addr - image.preferred_base) size

-- Read of a static image returns at every address and gives no more bytes than are asked for; below
-- the preferred base, and 2 ^ 32 bytes above it or more, it gives none.
pub static_read-some :
    (image : PeImage) (addr size : ℕ)
    → (bytes : Bytes) × (static_read image addr size ≡ some bytes)
      × (length bytes ≤ size)
      × ((addr < image.preferred_base) ⊎ (image.preferred_base + 2 ^ 32 ≤ addr) → bytes ≡ [])
unfolding static_read
static_read-some image addr size = elim (Bool-cases (ltb addr image.preferred_base)) [
  | inl below ↦ rw below ([], refl, omega arith, λ outside. refl)
  | inr from ↦ elim (Bool-cases (ltb (2 ^ 32 - 1) (addr - image.preferred_base))) [
    | inl above ↦ rw (from, above) ([], refl, omega arith, λ outside. refl)
    | inr within ↦
        let (bytes, read, le) = read_rva-some image (addr - image.preferred_base) size in
        rw (from, within)
          (
            bytes,
            read,
            le,
            λ outside. absurd (elim outside [ inl lt ↦ ground arith | inr ge ↦ ground arith ]),
          )
  ]
]
