-- ===== src/Gzip/Blocks/Total.antt =====
-- Inflate of src/zdex/src/Gzip.cpp, with its blocks of all types, returns on every input.
use zircon_dumper.Prelude.{
  ℕ, zero, suc, ◌+◌, ◌*◌, ◌≤◌, ◌<◌, ◌≢◌, Bool, true, false, Option, none, some, [], ◌∷◌, leb, ltb,
  ◌==◌, ◌&&◌, drop, length, arith, Bool-cases, inl, inr,
}
use zircon_dumper.Prelude.Preds.{Bytes, IsByte, All, All-drop}
use zircon_dumper.Gzip.Bits.{Reader, new_reader, read_bits, seek}
use zircon_dumper.Gzip.Bits.Fill.{IsReader}
use zircon_dumper.Gzip.Bits.Count.{length-pending}
use zircon_dumper.Gzip.Huffman.{fixed_literals, fixed_distances}
use zircon_dumper.Gzip.Dynamic.{
  BlockResult, finished, refused, running, with_tables, inflate_dynamic,
}
use zircon_dumper.Gzip.Blocks.{
  Inflated, inflated, invalid, unfinished, Round, next_block, returned, u16_at, inflate_stored,
  after_block, after_stored, after_coded, typed_block, after_header, inflate_round, inflate_loop,
  inflate,
}
use zircon_dumper.Gzip.Blocks.Returns.{left, BlockEnds, with_tables-BlockEnds}
use zircon_dumper.Gzip.Blocks.DynamicEnds.{Fewer, read_bits-Fewer, inflate_dynamic-BlockEnds}

-- A round returns, or goes on with fewer digits.
abbrev RoundEnds : Reader → Round → Type 0
RoundEnds r (next_block r' out) = IsReader r' × (left r' < left r)
RoundEnds r (returned (inflated out)) = Unit
RoundEnds r (returned (invalid e)) = Unit
RoundEnds r (returned unfinished) = ⊥

block-RoundEnds :
    (final_block : Bool) (r r' : Reader) (out : Bytes)
    → IsReader r'
    → left r' < left r
    → RoundEnds r (after_block final_block r' out)
unfolding after_block
block-RoundEnds true r r' out ok lt = tt
block-RoundEnds false r r' out ok lt =
    elim (Bool-cases (leb (length r'.input) r'.at && (length r'.input == 0))) [
      | inl e ↦ rw e tt
      | inr e ↦ rw e (ok, lt)
    ]

coded-RoundEnds :
    (final_block : Bool) (r : Reader) (b : BlockResult)
    → BlockEnds r b
    → RoundEnds r (after_coded final_block b)
unfolding after_coded
coded-RoundEnds final_block r (finished r' out) (ok, lt) =
    block-RoundEnds final_block r r' out ok lt
coded-RoundEnds final_block r (refused e) h = tt
coded-RoundEnds final_block r running h = h

All-later : (n m : ℕ) (xs : Bytes) → n ≤ m → All IsByte (drop n xs) → All IsByte (drop m xs)
All-later zero m xs le all = All-drop IsByte m xs all
All-later (suc n) zero xs le all = absurd (omega arith)
All-later (suc n) (suc m) [] le all = tt
All-later (suc n) (suc m) (x ∷ xs) le all = All-later n m xs (omega arith) all

-- AlignToByte and Seek, to a later byte.
seek-later :
    (r : Reader) (at : ℕ)
    → IsReader r
    → r.at < at
    → at ≤ length r.input
    → IsReader (seek r at) × (left (seek r at) < left r)
unfolding seek
seek-later r at ok lt inside =
    let before = length-pending r in
    let after = length-pending (record r { at = at; value = 0; held = 0 }) in
    (
      record {
        held_lt = omega arith;
        value_lt = omega arith;
        bytes = All-later r.at at r.input (omega arith) ok.bytes;
      },
      omega arith,
    )

stored-RoundEnds :
    (final_block : Bool) (r : Reader) (out : Bytes)
    → IsReader r
    → RoundEnds r (after_stored final_block (inflate_stored r out))
unfolding after_stored inflate_stored
stored-RoundEnds final_block r out ok =
    let at = r.at in
    let size = length r.input in
    let stored = u16_at r.input at in
    elim (Bool-cases (ltb size (at + 4))) [
      | inl no_header ↦ rw no_header tt
      | inr header ↦ elim (Bool-cases (ltb size (at + 4 + stored))) [
        | inl no_bytes ↦ rw (header, no_bytes) tt
        | inr bytes ↦
            let (ok', lt) = seek-later r (at + 4 + stored) ok (omega arith) (ground arith) in
            rw (header, bytes) (block-RoundEnds final_block r (seek r (at + 4 + stored)) _ ok' lt)
      ]
    ]

typed-RoundEnds :
    (f : ℕ) (final_block : Bool) (type : ℕ) (r : Reader) (out : Bytes)
    → left r < f
    → IsReader r
    → RoundEnds r (typed_block f final_block type r out)
unfolding typed_block
typed-RoundEnds f final_block type r out enough ok = elim (Bool-cases (type == 0)) [
  | inl stored ↦ rw stored (stored-RoundEnds final_block r out ok)
  | inr coded ↦ elim (Bool-cases (type == 1)) [
    | inl fixed_tables ↦
        rw (coded, fixed_tables)
          (coded-RoundEnds final_block r (with_tables f fixed_literals fixed_distances r out)
            (with_tables-BlockEnds f fixed_literals fixed_distances r out ok enough))
    | inr other ↦ elim (Bool-cases (type == 2)) [
      | inl own_tables ↦
          rw (coded, other, own_tables)
            (coded-RoundEnds final_block r (inflate_dynamic f r out)
              (inflate_dynamic-BlockEnds f r out enough ok))
      | inr reserved ↦ rw (coded, other, reserved) tt
    ]
  ]
]

RoundEnds-later :
    (r r' : Reader) (round : Round) → left r' ≤ left r → RoundEnds r' round → RoundEnds r round
RoundEnds-later r r' (next_block r2 out) le (ok, lt) = (ok, omega arith)
RoundEnds-later r r' (returned (inflated out)) le h = tt
RoundEnds-later r r' (returned (invalid e)) le h = tt
RoundEnds-later r r' (returned unfinished) le h = h

type-RoundEnds :
    (f : ℕ) (r : Reader) (out : Bytes) (final_block : ℕ) (got : Option ℕ × Reader)
    → left r < f
    → Fewer r got
    → RoundEnds r (after_header f out (some final_block) got)
unfolding after_header
type-RoundEnds f r out final_block (none, r') enough h = tt
type-RoundEnds f r out final_block (some type, r') enough (ok, fewer) =
    RoundEnds-later r r' (typed_block f (ltb 0 final_block) type r' out) fewer
      (typed-RoundEnds f (ltb 0 final_block) type r' out (omega arith) ok)

header-RoundEnds :
    (f : ℕ) (r : Reader) (out : Bytes) (got : Option ℕ × Reader)
    → left r < f
    → Fewer r got
    → RoundEnds r (after_header f out got.0 (read_bits got.1 2))
header-RoundEnds f r out (none, r') enough h = unfold after_header in tt
header-RoundEnds f r out (some final_block, r') enough (ok, fewer) =
    type-RoundEnds f r out final_block (read_bits r' 2) enough
      (read_bits-Fewer r r' 2 (omega arith) ok fewer)

-- The loop after a round.
abbrev loop_next : ℕ → ℕ → Round → Inflated
loop_next n f round = elim round [
  | next_block r' out' ↦ inflate_loop n f r' out'
  | returned result ↦ result
]

loop_next-ne-unfinished :
    (n f : ℕ) (r : Reader) (round : Round)
    → left r < suc n
    → ((r' : Reader) (out : Bytes)
        → IsReader r'
        → left r' < n
        → left r' < left r
        → inflate_loop n f r' out ≢ unfinished)
    → RoundEnds r round
    → loop_next n f round ≢ unfinished
loop_next-ne-unfinished n f r (next_block r' out) enough ih (ok, lt) = ih r' out ok (omega arith) lt
loop_next-ne-unfinished n f r (returned (inflated out)) enough ih h = ground arith
loop_next-ne-unfinished n f r (returned (invalid e)) enough ih h = ground arith
loop_next-ne-unfinished n f r (returned unfinished) enough ih h = absurd h

inflate_loop-ne-unfinished :
    (n f : ℕ) (r : Reader) (out : Bytes)
    → IsReader r
    → left r < n
    → left r < f
    → inflate_loop n f r out ≢ unfinished
unfolding inflate_loop inflate_round
inflate_loop-ne-unfinished zero f r out ok enough enough' = absurd (omega arith)
inflate_loop-ne-unfinished (suc n) f r out ok enough enough' =
    loop_next-ne-unfinished n f r
      (after_header f out (read_bits r 1).0 (read_bits (read_bits r 1).1 2)) enough
      (λ r' out' ok' lt lt'. inflate_loop-ne-unfinished n f r' out' ok' lt (omega arith))
      (header-RoundEnds f r out (read_bits r 1) enough'
        (read_bits-Fewer r r 1 (omega arith) ok (omega arith)))

-- Inflate returns on every input of bytes, with the bytes of the stream or with an error: the
-- rounds that it is given are enough for all its loops.
pub inflate-ne-unfinished : (input : Bytes) → All IsByte input → inflate input ≢ unfinished
unfolding inflate
inflate-ne-unfinished input all =
    let r = new_reader input in
    let ok : IsReader r = record { held_lt = omega arith; value_lt = omega arith; bytes = all } in
    let size = length-pending r in
    inflate_loop-ne-unfinished (suc (8 * length input)) (suc (8 * length input)) r [] ok
      (omega arith) (omega arith)
