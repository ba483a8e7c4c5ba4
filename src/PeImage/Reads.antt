-- ===== src/PeImage/Reads.antt =====
-- ReadRva of src/core/src/PeImage.cpp ends, and does not write past the end of its buffer.
use zircon_dumper.Prelude.{
  ℕ, zero, suc, ◌+◌, ◌-◌, ◌%◌, ◌^◌, ◌≤◌, ◌<◌, ◌≡◌, refl, min, Bool, true, false, Option, none, some,
  [], ◌++◌, ltb, if◌then◌else◌, take, drop, replicate, length, length-append, length-take,
  length-drop, length-replicate, arith, Bool-cases, inl, inr,
}
use zircon_dumper.Prelude.Preds.{Bytes}
use zircon_dumper.PeImage.{
  PeSection, PeImage, span_of, section_for_rva, header_round, section_round, read_round, read_loop,
  read_rva,
}

-- A round adds no more than is left, and where the loop goes on at least one byte.
abbrev Adds : ℕ → Bytes × Bool → Type 0
Adds left (more, again) = (length more ≤ left) × (again ≡ true → 0 < length more)

header_round-Adds : (image : PeImage) (cur left : ℕ) → Adds left (header_round image cur left)
unfolding header_round
header_round-Adds image cur left = elim (Bool-cases (ltb cur (length image.bytes))) [
  | inl inside ↦
      let available : ℕ = min (min left (image.size_of_headers - cur)) (length image.bytes - cur) in
      let size = length-take available (drop cur image.bytes) in
      let rest = length-drop cur image.bytes in
      rw inside (omega (arith, size, rest), λ goes. ground (arith, size, rest))
  | inr outside ↦ rw outside (omega arith, λ goes. ground arith)
]

section_round-Adds :
    (image : PeImage) (cur left : ℕ) (found : Option PeSection)
    → Adds left (section_round image cur left found)
unfolding section_round
section_round-Adds image cur left none = (omega arith, λ goes. ground arith)
section_round-Adds image cur left (some s) =
    let offset : ℕ = cur - s.rva in
    let want : ℕ = min left (span_of s - offset) in
    let available : ℕ = min want (s.raw_size - offset) in
    let file_offset : ℕ = (s.raw_offset + offset) % 2 ^ 32 in
    elim (Bool-cases (ltb offset s.raw_size)) [
      | inr past ↦
          let size = length-replicate {A = ℕ} want 0 in
          rw past (omega (arith, size), λ goes. ground (arith, size))
      | inl backed ↦ elim (Bool-cases (ltb (length image.bytes) (file_offset + available))) [
        | inl beyond ↦ rw (backed, beyond) (omega arith, λ goes. ground arith)
        | inr inside ↦
            let size : length
                  (take available (drop file_offset image.bytes) ++ replicate (want - available) 0)
                ≡ want =
              ground (
                arith,
                length-append (take available (drop file_offset image.bytes))
                    (replicate (want - available) 0),
                length-take available (drop file_offset image.bytes),
                length-drop file_offset image.bytes,
                length-replicate {A = ℕ} (want - available) 0,
              ) in
            rw (backed, inside) (omega (arith, size), λ goes. ground (arith, size))
      ]
    ]

read_round-Adds : (image : PeImage) (cur left : ℕ) → Adds left (read_round image cur left)
unfolding read_round
read_round-Adds image cur left = elim (Bool-cases (ltb cur image.size_of_headers)) [
  | inl header ↦ rw header (header_round-Adds image cur left)
  | inr section ↦ rw section (section_round-Adds image cur left (section_for_rva image cur))
]

-- A round of the loop of ReadRva from what it adds.
abbrev read_next : ℕ → PeImage → ℕ → ℕ → Bytes → Bytes × Bool → Option Bytes
read_next f image rva size out (more, again) =
    let next = read_loop f image rva size (out ++ more) in
    if ltb (length out) size then (if again then next else some (out ++ more)) else some out

abbrev ReadsWithin : ℕ → Option Bytes → Type 0
ReadsWithin size none = ⊥
ReadsWithin size (some bytes) = length bytes ≤ size

read_next-ReadsWithin :
    (f : ℕ) (image : PeImage) (rva size : ℕ) (out : Bytes) (round : Bytes × Bool)
    → ((out' : Bytes)
        → length out' ≤ size
        → length out < length out'
        → ReadsWithin size (read_loop f image rva size out'))
    → length out ≤ size
    → Adds (size - length out) round
    → ReadsWithin size (read_next f image rva size out round)
read_next-ReadsWithin f image rva size out (more, again) ih le (fits, adds) =
    let total = length-append out more in
    elim (Bool-cases (ltb (length out) size)) [
      | inr full ↦ rw full le
      | inl open_end ↦ elim (Bool-cases again) [
        | inl goes ↦ rw (open_end, goes) (ih (out ++ more) (omega arith) (omega (arith, adds goes)))
        | inr stops ↦ rw (open_end, stops) (omega arith)
      ]
    ]

read_loop-ReadsWithin :
    (f : ℕ) (image : PeImage) (rva size : ℕ) (out : Bytes)
    → length out ≤ size
    → size ≤ length out + f
    → ReadsWithin size (read_loop f image rva size out)
unfolding read_loop
read_loop-ReadsWithin zero image rva size out le enough =
    let full : ltb (length out) size ≡ false = ground arith in rw full le
read_loop-ReadsWithin (suc f) image rva size out le enough =
    read_next-ReadsWithin f image rva size out
      (read_round image ((rva + length out) % 2 ^ 32) (size - length out))
      (λ out' le' grows. read_loop-ReadsWithin f image rva size out' le' (omega arith)) le
      (read_round-Adds image ((rva + length out) % 2 ^ 32) (size - length out))

-- ReadRva returns for every image, address and size, even where the sizes in the image are
-- nonsense, and it never gives more bytes than the buffer has.
pub read_rva-some :
    (image : PeImage) (rva size : ℕ)
    → (bytes : Bytes) × (read_rva image rva size ≡ some bytes) × (length bytes ≤ size)
unfolding read_rva
read_rva-some image rva size =
    opened (read_rva image rva size)
      (read_loop-ReadsWithin size image rva size [] (omega arith) (omega arith))
  where
    opened :
        (result : Option Bytes)
        → ReadsWithin size result
        → (bytes : Bytes) × (result ≡ some bytes) × (length bytes ≤ size)
    opened (some bytes) le = (bytes, refl, le)
    opened none h = absurd h
