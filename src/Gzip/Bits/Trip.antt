-- ===== src/Gzip/Bits/Trip.antt =====
-- BitWriter and BitReader of src/zdex/src/Gzip.cpp together: fields written, read again.
use zircon_dumper.Prelude.{
  ℕ, zero, suc, ◌+◌, ◌-◌, ◌/◌, ◌%◌, ◌^◌, ◌≤◌, ◌<◌, ◌≡◌, refl, sym, ap, ◌∙◌, Option, none, some,
  List, [], ◌∷◌, ◌++◌, append_assoc, append-nil, leb, ltb, map, arith, length, Bool-cases, inl, inr,
  length-append,
}
use zircon_dumper.Prelude.Preds.{IsByte, All}
use zircon_dumper.Prelude.Table.{every, bounded}
use zircon_dumper.Prelude.Mask.{two_pow}
use zircon_dumper.Gzip.Bits.{
  Writer, new_writer, flush, put_bits, align_writer, Reader, new_reader, read_bits,
}
use zircon_dumper.Gzip.Bits.Stream.{bits, byte_bits, written, IsWriter, put_bits-written, pow_pos}
use zircon_dumper.Gzip.Bits.Fill.{pending, IsReader, length-bits, read_bits-pending}

-- A value and the number of its digits.
abbrev pub Field : Type 0
Field = ℕ × ℕ

abbrev pub IsField : Field → Type 0
IsField (value, count) = (value < 2 ^ count) × (count ≤ 16)

unfoldable pub put_all : Writer → List Field → Writer
put_all w [] = w
put_all w ((value, count) ∷ fs) = put_all (put_bits w value count) fs

-- `none` when a field is not there.
abbrev pub both : Option ℕ → Option (List ℕ) → Option (List ℕ)
both (some v) (some vs) = some (v ∷ vs)
both _ _ = none

unfoldable pub read_all : Reader → List ℕ → Option (List ℕ)
read_all r [] = some []
read_all r (n ∷ ns) = both (read_bits r n).0 (read_all (read_bits r n).1 ns)

field_bits : List Field → List ℕ
field_bits [] = []
field_bits ((value, count) ∷ fs) = bits count value ++ field_bits fs

flush-held : (f : ℕ) (w : Writer) → w.held ≤ f → (flush f w).held ≡ w.held % 8
unfolding flush
flush-held zero w le = omega arith
flush-held (suc f) w le = elim (Bool-cases (leb 8 w.held)) [
  | inl more ↦
      let big : 8 ≤ w.held = ground arith in
      let w' : Writer = record {
        out = w.out ++ (w.acc % 256) ∷ [];
        acc = w.acc / 256;
        held = w.held - 8;
      } in
      rw more (omega (arith, flush-held f w' (omega arith)))
  | inr done ↦ let small : w.held < 8 = ground arith in rw done (omega arith)
]

put_bits-held :
    (w : Writer) (value count : ℕ) → (put_bits w value count).held ≡ (w.held + count) % 8
unfolding put_bits
put_bits-held w value count = flush-held (w.held + count) _ (omega arith)

pow_16 : (n : ℕ) → n ≤ 16 → 2 ^ n < 65537
pow_16 n le = bounded (λ k. 2 ^ k) 65537 17 n (omega arith) (unfold every in refl)

pub word : (value count : ℕ) → IsField (value, count) → value < 2 ^ 32
word value count (lt, le) = omega (arith, lt, pow_16 count le)

put_all-written :
    (w : Writer) (fs : List Field)
    → IsWriter w
    → All IsField fs
    → IsWriter (put_all w fs) × (written (put_all w fs) ≡ written w ++ field_bits fs)
unfolding put_all field_bits
put_all-written w [] ok fields = (ok, sym (append-nil (written w)))
put_all-written w ((value, count) ∷ fs) ok (field, fields) =
    let (done, same) = put_bits-written w value count ok field.0 (word value count field) in
    let (all_ok, all) = put_all-written (put_bits w value count) fs done fields in
    (all_ok, all ∙ rw same (append_assoc (written w) (bits count value) (field_bits fs)))

-- The empty writer.
pub new_writer-IsWriter : IsWriter (new_writer [])
new_writer-IsWriter = record { held_lt = omega arith; acc_lt = omega arith; bytes = tt }

pub align-written :
    (w : Writer)
    → IsWriter w
    → All IsByte (align_writer w).out
      × (pad : List ℕ) × (byte_bits (align_writer w).out ≡ written w ++ pad)
unfolding align_writer
align-written w ok = elim (Bool-cases (ltb 0 w.held)) [
  | inl some_held ↦
      let held : w.held + (8 - w.held) ≡ 8 = ground (arith, ok.held_lt) in
      let held_after : (put_bits w 0 (8 - w.held)).held ≡ 0 =
        put_bits-held w 0 (8 - w.held) ∙ rw held (omega arith) in
      let (ok', same) = put_bits-written w 0 (8 - w.held) ok (pow_pos (8 - w.held)) (omega arith) in
      let all : byte_bits (put_bits w 0 (8 - w.held)).out ≡ written (put_bits w 0 (8 - w.held)) =
        unfold written in rw held_after (unfold bits in sym (append-nil _)) in
      rw some_held (ok'.bytes, bits (8 - w.held) 0, all ∙ same)
  | inr none_held ↦
      let empty : w.held ≡ 0 = ground arith in
      rw none_held (
        ok.bytes,
        [],
        unfold written in rw empty (unfold bits in sym (append-nil _ ∙ append-nil _)),
      )
]

-- A new reader of what an aligned writer has written has its digits to read, and padding.
pub reopened :
    (w : Writer)
    → IsWriter w
    → IsReader (new_reader (align_writer w).out)
      × (pad : List ℕ) × (pending (new_reader (align_writer w).out) ≡ written w ++ pad)
unfolding pending
reopened w ok =
    let (out_bytes, pad, padded) = align-written w ok in
    (
      record { held_lt = omega arith; value_lt = omega arith; bytes = out_bytes },
      pad,
      unfold bits in padded,
    )

pub bits_cancel :
    (n v w : ℕ) (xs ys : List ℕ)
    → v < 2 ^ n
    → w < 2 ^ n
    → bits n v ++ xs ≡ bits n w ++ ys
    → (v ≡ w) × (xs ≡ ys)
unfolding bits
bits_cancel zero v w xs ys hv hw e = (omega arith, e)
bits_cancel (suc n) v w xs ys hv hw e =
    let low : v % 2 ≡ w % 2 = grind (arith, e) in
    let rest : bits n (v / 2) ++ xs ≡ bits n (w / 2) ++ ys = grind (arith, e) in
    let p = two_pow n in
    let (high, tail) =
      bits_cancel n (v / 2) (w / 2) xs ys (omega (arith, p)) (omega (arith, p)) rest in
    (omega (arith, low, high), tail)

-- Digits that are next in the input are read as the number they are of.
pub read_field :
    (n v : ℕ) (r : Reader) (rest : List ℕ)
    → IsReader r
    → v < 2 ^ n
    → n ≤ 16
    → pending r ≡ bits n v ++ rest
    → (r' : Reader) × (read_bits r n ≡ (some v, r')) × IsReader r' × (pending r' ≡ rest)
read_field n v r rest ok fits le e = elim (read_bits-pending r n ok le) [
  | inl (w, r', got, ok', small, split) ↦
      let (same, left) = bits_cancel n w v (pending r') rest small fits (sym split ∙ e) in
      (r', rw (← same) got, ok', left)
  | inr (nothing, lacks) ↦
      let lengths : length (pending r) ≡ n + length rest =
        ap length e
        ∙ length-append (bits n v) rest
        ∙ ap (λ (t : ℕ). t + length rest) (length-bits n v) in
      absurd (omega arith)
]

read_all-fields :
    (fs : List Field) (r : Reader) (pad : List ℕ)
    → IsReader r
    → All IsField fs
    → pending r ≡ field_bits fs ++ pad
    → read_all r (map (λ f. f.1) fs) ≡ some (map (λ f. f.0) fs)
unfolding read_all field_bits
read_all-fields [] r pad ok fields e = refl
read_all-fields ((value, count) ∷ fs) r pad ok (field, fields) e =
    let (r', got, ok', left) =
      read_field count value r (field_bits fs ++ pad) ok field.0 field.1
        (e ∙ append_assoc (bits count value) (field_bits fs) pad) in
    rw (got, read_all-fields fs r' pad ok' fields left) refl

-- Fields of at most 16 digits each, every value within its digits, written into an empty output
-- and padded to whole bytes, are read again one after another.
pub read-put :
    (fs : List Field)
    → All IsField fs
    → read_all (new_reader (align_writer (put_all (new_writer []) fs)).out) (map (λ f. f.1) fs)
      ≡ some (map (λ f. f.0) fs)
read-put fs fields =
    let (ok, all) = put_all-written (new_writer []) fs new_writer-IsWriter fields in
    let (fresh, pad, there) = reopened (put_all (new_writer []) fs) ok in
    let out = (align_writer (put_all (new_writer []) fs)).out in
    read_all-fields fs (new_reader out) pad fresh fields
      (there ∙ rw all (unfold written byte_bits bits in refl))
