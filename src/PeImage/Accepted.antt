-- ===== src/PeImage/Accepted.antt =====
-- What PeImage::Parse of src/core/src/PeImage.cpp accepts.
use zircon_dumper.Prelude.{
  sym, subst, ◌∙◌, ℕ, zero, suc, ◌+◌, ◌*◌, ◌^◌, ◌≤◌, ◌≡◌, refl, ap, Bool, not, ◌&&◌, Option, none,
  some, List, [], ◌∷◌, ltb, ◌==◌, if◌then◌else◌, length, arith, Bool-cases, ◌⊎◌, inl, inr,
}
use zircon_dumper.Prelude.Preds.{Bytes}
use zircon_dumper.Prelude.Result.{Result, ok, err, ◌>>=◌, >>=-ok}
use zircon_dumper.PeImage.{number_at, at, PeSection, PeExport, PeImage}
use zircon_dumper.PeImage.Parse.{
  PeError, missing_mz, bad_lfanew, missing_signature, truncated_coff, truncated_sections, needed,
  wanted, field_at, magic_at, section_at, section_loop, ExportHeader, export_at, add_export,
  export_loop, export_header, k_max_exports, exports_of, parse_exports, with_exports, signature_at,
  after_dos, find_pe, coff_at, Optional, optional_at, from_sections, from_optional, from_coff,
  from_pe, parse_image,
}

abbrev count : Result PeError (List PeSection) → ℕ
count (ok sections) = length sections
count (err e) = 0

-- The section table lies inside the file, and every entry of it gives a section.
section_loop-ok :
    (n : ℕ) (bytes : Bytes) (entry : ℕ) (sections : List PeSection)
    → section_loop n bytes entry ≡ ok sections
    → (length sections ≡ n) × ((n ≡ 0) ⊎ (entry + 40 * n ≤ length bytes))
unfolding section_loop
section_loop-ok zero bytes entry sections e =
    let size : 0 ≡ length sections = ap count e in (sym size, inl refl)
section_loop-ok (suc n) bytes entry sections e =
    elim (Bool-cases (ltb (length bytes) (entry + 40))) [
      | inl short ↦
          let refused : Path (Result PeError (List PeSection)) (err truncated_sections)
              (ok sections) =
            rw short at e in
          absurd (ground (arith, refused))
      | inr whole ↦
          let (rest, read, made) =
            >>=-ok (λ (ss : List PeSection). ok (section_at bytes entry ∷ ss))
              (section_loop n bytes (entry + 40)) (rw whole at e) in
          let (size, inside) = section_loop-ok n bytes (entry + 40) rest read in
          let size' : suc (length rest) ≡ length sections = ap count made in
          (
            omega arith,
            inr (elim inside [
              | inl last ↦ ground (arith, whole, last)
              | inr more ↦ omega (arith, more)
            ]),
          )
    ]

length-add_export :
    (found : Option PeExport) (rest : List PeExport)
    → length (add_export found rest) ≤ suc (length rest)
unfolding add_export
length-add_export none rest = omega arith
length-add_export (some entry) rest = elim (Bool-cases (length entry.name == 0)) [
  | inl unnamed ↦ rw unnamed (omega arith)
  | inr named ↦ rw named (omega arith)
]

length-export_loop :
    (n : ℕ) (image : PeImage) (header : ExportHeader) (i : ℕ)
    → length (export_loop n image header i) ≤ n
unfolding export_loop
length-export_loop zero image header i = omega arith
length-export_loop (suc n) image header i = omega (
  arith,
  length-add_export (export_at image header i) (export_loop n image header (i + 1)),
  length-export_loop n image header (i + 1),
)

length-exports_of :
    (image : PeImage) (header : Option ExportHeader) → length (exports_of image header) ≤ 2 ^ 20
unfolding exports_of k_max_exports
length-exports_of image none = omega arith
length-exports_of image (some header) = elim (Bool-cases (ltb (2 ^ 20) header.name_count)) [
  | inl over ↦ rw over (omega arith)
  | inr within ↦ rw within (ground (arith, length-export_loop header.name_count image header 0))
]

-- The exports are no sections, and there are not too many of them.
with_exports_lem :
    (image : PeImage) (rva size : Option ℕ)
    → image.exports ≡ []
    → ((with_exports image rva size).bytes ≡ image.bytes)
      × ((with_exports image rva size).sections ≡ image.sections)
      × (length (with_exports image rva size).exports ≤ 2 ^ 20)
unfolding with_exports parse_exports
with_exports_lem image (some rva) (some size) e =
    elim (Bool-cases (not (rva == 0) && not (size == 0))) [
      | inl there ↦ rw there (refl, refl, length-exports_of image (export_header image rva))
      | inr missing ↦
          rw missing (refl, refl, omega (arith, ap (λ (xs : List PeExport). length xs) e))
    ]
with_exports_lem image (some rva) none e =
    (refl, refl, omega (arith, ap (λ (xs : List PeExport). length xs) e))
with_exports_lem image none size e =
    (refl, refl, omega (arith, ap (λ (xs : List PeExport). length xs) e))

at-some :
    (width offset v : ℕ) (bytes : Bytes)
    → at width bytes offset ≡ some v
    → (v ≡ number_at width bytes offset) × (offset + width ≤ length bytes)
unfolding at
at-some width offset v bytes h = elim (Bool-cases (ltb (length bytes) (offset + width))) [
  | inl short ↦
      let missing : Path (Option ℕ) none (some v) = rw short at h in
      absurd (ground (arith, missing))
  | inr whole ↦
      let found : Path (Option ℕ) (some (number_at width bytes offset)) (some v) = rw whole at h in
      (ground (arith, found), ground arith)
]

-- A field that is there is the number at its place.
needed-ok : (e : PeError) (found : Option ℕ) (v : ℕ) → needed e found ≡ ok v → found ≡ some v
unfolding needed
needed-ok e none v h = absurd (ground (arith, h))
needed-ok e (some w) v h = let same : w ≡ v = ground (arith, h) in ap (λ (k : ℕ). some k) same

wanted-ok :
    (e : PeError) (magic : ℕ) (found : Option ℕ) (b : Bool)
    → wanted e magic found ≡ ok b
    → found ≡ some magic
unfolding wanted
wanted-ok e magic none b h = absurd (ground (arith, h))
wanted-ok e magic (some v) b h = elim (Bool-cases (v == magic)) [
  | inl same ↦ let eq : v ≡ magic = ground arith in ap (λ (k : ℕ). some k) eq
  | inr other ↦
      let refused : Path (Result PeError Bool) (err e) (ok b) = rw other at h in
      absurd (ground (arith, refused))
]

field_at-ok :
    (width offset v : ℕ) (bytes : Bytes) (e : PeError)
    → field_at width bytes offset e ≡ ok v
    → v ≡ number_at width bytes offset
unfolding field_at
field_at-ok width offset v bytes e h =
    (at-some width offset v bytes (needed-ok e (at width bytes offset) v h)).0

magic_at-ok :
    (width offset magic : ℕ) (bytes : Bytes) (e : PeError) (b : Bool)
    → magic_at width bytes offset magic e ≡ ok b
    → magic ≡ number_at width bytes offset
unfolding magic_at
magic_at-ok width offset magic bytes e b h =
    (at-some width offset magic bytes (wanted-ok e magic (at width bytes offset) b h)).0

-- Where the PE header is found.
signature_at-ok :
    (bytes : Bytes) (found pe : ℕ)
    → signature_at bytes found ≡ ok pe
    → (found ≡ pe) × (17744 ≡ number_at 4 bytes pe)
unfolding signature_at
signature_at-ok bytes found pe h = elim (Bool-cases (ltb found (2 ^ 31))) [
  | inr negative ↦
      let refused : Path (Result PeError ℕ) (err bad_lfanew) (ok pe) = rw negative at h in
      absurd (ground (arith, refused))
  | inl positive ↦
      let (b, magic, same) =
        >>=-ok (λ (is_pe : Bool). ok found) (magic_at 4 bytes found 17744 missing_signature)
          (rw positive at h) in
      let eq : found ≡ pe = ground (arith, same) in
      (
        eq,
        subst (λ (k : ℕ). 17744 ≡ number_at 4 bytes k) eq
            (magic_at-ok 4 found 17744 bytes missing_signature b magic),
      )
]

find_pe-ok :
    (bytes : Bytes) (pe : ℕ)
    → find_pe bytes ≡ ok pe
    → (23117 ≡ number_at 2 bytes 0) × (number_at 4 bytes 60 ≡ pe) × (17744 ≡ number_at 4 bytes pe)
unfolding find_pe after_dos
find_pe-ok bytes pe h =
    let (b, dos, next) = >>=-ok (after_dos bytes) (magic_at 2 bytes 0 23117 missing_mz) h in
    let (found, read, there) = >>=-ok (signature_at bytes) (field_at 4 bytes 60 bad_lfanew) next in
    let (same, signature) = signature_at-ok bytes found pe there in
    (
      magic_at-ok 2 0 23117 bytes missing_mz b dos,
      sym (field_at-ok 4 60 found bytes bad_lfanew read) ∙ same,
      signature,
    )

-- An image, if there is one, is the image that is returned.
image_of : {a b : PeImage} → Path (Result PeError PeImage) (ok a) (ok b) → a ≡ b
image_of {a = a} e = ap (λ (r : Result PeError PeImage). elim r [ ok y ↦ y | err _ ↦ a ]) e

abbrev first_of : Result PeError (ℕ × ℕ) → ℕ
first_of (ok (n, size)) = n
first_of (err e) = 0

abbrev second_of : Result PeError (ℕ × ℕ) → ℕ
second_of (ok (n, size)) = size
second_of (err e) = 0

coff_at-ok :
    (bytes : Bytes) (pe n size : ℕ)
    → coff_at bytes pe ≡ ok (n, size)
    → (n ≡ number_at 2 bytes (pe + 6)) × (size ≡ number_at 2 bytes (pe + 20))
unfolding coff_at
coff_at-ok bytes pe n size h =
    let (n', read, next) =
      >>=-ok
        (λ (section_count : ℕ).
          field_at 2 bytes (pe + 20) truncated_coff
          >>= (λ (optional_size : ℕ). ok (section_count, optional_size)))
        (field_at 2 bytes (pe + 6) truncated_coff) h in
    let (size', read', made) =
      >>=-ok (λ (optional_size : ℕ). ok (n', optional_size))
        (field_at 2 bytes (pe + 20) truncated_coff) next in
    let same : n' ≡ n = ap first_of made in
    let same' : size' ≡ size = ap second_of made in
    (
      sym same ∙ field_at-ok 2 (pe + 6) n' bytes truncated_coff read,
      sym same' ∙ field_at-ok 2 (pe + 20) size' bytes truncated_coff read',
    )

-- An image that Parse accepts, with the PE header at `pe`.
pub record IsAccepted (bytes : Bytes) (pe : ℕ) (image : PeImage) : Type 0 where
  pub dos_magic : number_at 2 bytes 0 ≡ 23117
  pub pe_magic : number_at 4 bytes pe ≡ 17744
  pub bytes_kept : image.bytes ≡ bytes
  pub section_count : length image.sections ≡ number_at 2 bytes (pe + 6)
  pub table_inside :
      (length image.sections ≡ 0)
      ⊎ (pe + 24 + number_at 2 bytes (pe + 20) + 40 * length image.sections ≤ length bytes)
  pub few_exports : length image.exports ≤ 2 ^ 20

from_optional-ok :
    (bytes : Bytes) (opt n size : ℕ) (o : Optional) (image : PeImage)
    → from_optional bytes opt n size o ≡ ok image
    → (image.bytes ≡ bytes)
      × (length image.sections ≡ n)
      × ((n ≡ 0) ⊎ (opt + size + 40 * n ≤ length bytes))
      × (length image.exports ≤ 2 ^ 20)
unfolding from_optional from_sections
from_optional-ok bytes opt n size o image h =
    let (sections, read, made) =
      >>=-ok (from_sections bytes opt o) (section_loop n bytes (opt + size)) h in
    let (count_eq, inside) = section_loop-ok n bytes (opt + size) sections read in
    let plain : PeImage = record {
      bytes = bytes;
      sections = sections;
      exports = [];
      preferred_base = o.base;
      size_of_image = o.image_size;
      entry_point_rva = o.entry_point;
      size_of_headers = o.headers_size;
      is_64bit = o.wide;
    } in
    let dir : ℕ = opt + (if o.wide then 112 else 96) in
    let (bytes_eq, sections_eq, few) =
      with_exports_lem plain (at 4 bytes dir) (at 4 bytes (dir + 4)) refl in
    let same : with_exports plain (at 4 bytes dir) (at 4 bytes (dir + 4)) ≡ image = image_of made in
    (
      ap (λ (y : PeImage). y.bytes) (sym same) ∙ bytes_eq,
      ap (λ (y : PeImage). length y.sections) (sym same)
          ∙ (ap (λ (ss : List PeSection). length ss) sections_eq ∙ count_eq),
      inside,
      subst (λ (y : PeImage). length y.exports ≤ 2 ^ 20) same few,
    )

-- What Parse accepts starts with MZ, has PE at the offset that stands at 0x3C, has as many
-- sections as its header says, and at most 2 ^ 20 exports. Where it has sections, their table, which
-- starts behind the optional header, ends inside the file.
pub parse_image-IsAccepted :
    (bytes : Bytes) (image : PeImage)
    → parse_image bytes ≡ ok image
    → IsAccepted bytes (number_at 4 bytes 60) image
unfolding parse_image from_pe from_coff
parse_image-IsAccepted bytes image h =
    let (pe, found, next) = >>=-ok (from_pe bytes) (find_pe bytes) h in
    let ((n, size), counted, next') = >>=-ok (from_coff bytes pe) (coff_at bytes pe) next in
    let (o, read, made) =
      >>=-ok (from_optional bytes (pe + 24) n size) (optional_at bytes (pe + 24)) next' in
    let (dos, offset, signature) = find_pe-ok bytes pe found in
    let (same, sections, inside, few) = from_optional-ok bytes (pe + 24) n size o image made in
    let (n_eq, size_eq) = coff_at-ok bytes pe n size counted in
    subst (λ (k : ℕ). IsAccepted bytes k image) (sym offset)
      (record {
        dos_magic = sym dos;
        pe_magic = sym signature;
        bytes_kept = same;
        section_count = sections ∙ n_eq;
        table_inside = elim inside [
          | inl none_there ↦ inl (omega (arith, sections, none_there))
          | inr fits ↦ inr (omega (arith, sections, size_eq, fits))
        ];
        few_exports = few;
      })
