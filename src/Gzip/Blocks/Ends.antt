-- ===== src/Gzip/Blocks/Ends.antt =====
-- Inflate of src/zdex/src/Gzip.cpp returns on every input, valid or not.
use Prim.Native.Nat.{bit_or}
use zircon_dumper.Prelude.{
  ℕ, zero, suc, ◌+◌, ◌-◌, ◌*◌, ◌≤◌, ◌<◌, Option, none, some, leb, ltb, ◌==◌, if◌then◌else◌, get_or,
  length, arith, Bool-cases, inl, inr,
}
use zircon_dumper.Prelude.Preds.{Bytes}
use zircon_dumper.Gzip.Bits.{Reader, read_bits}
use zircon_dumper.Gzip.Bits.Fill.{pending, IsReader}
use zircon_dumper.Gzip.Bits.Count.{Shrinks, read_bits-Shrinks}
use zircon_dumper.Gzip.Huffman.{Huffman, decode, decode_loop}
use zircon_dumper.Gzip.Codes.{k_length_base, k_length_extra, k_dist_base, k_dist_extra}
use zircon_dumper.Gzip.Inflate.Block.{length_extra_le, dist_extra_le}
use zircon_dumper.Gzip.Inflate.{
  Outcome, going, ended, failed, after_distance, after_dist_code, after_length, after_symbol,
}

-- Shrinking twice.
Shrinks-both :
    {A : Type 0} (r r' : Reader) (a b : ℕ) (got : Option A × Reader)
    → length (pending r') + a ≤ length (pending r)
    → Shrinks r' b got
    → Shrinks r (a + b) got
Shrinks-both r r' a b (none, r2) le s = tt
Shrinks-both r r' a b (some v, r2) le (ok, le') = (ok, omega arith)

Shrinks-weaker :
    {A : Type 0} (r : Reader) (a b : ℕ) (got : Option A × Reader)
    → b ≤ a
    → Shrinks r a got
    → Shrinks r b got
Shrinks-weaker r a b (none, r2) le s = tt
Shrinks-weaker r a b (some v, r2) le (ok, le') = (ok, omega arith)

-- A round of Decode after its read.
abbrev decode_next : ℕ → Huffman → ℕ → ℕ → ℕ → ℕ → Option ℕ × Reader → Option ℕ × Reader
decode_next f table width code first index got = elim got.0 [
  | none ↦ (none, got.1)
  | some bit ↦
      let code' = bit_or code bit in
      let count = get_or table.counts width 0 in
      let next =
        decode_loop f table got.1 (width + 1) (code' * 2) ((first + count) * 2) (index + count) in
      if ltb code' (first + count)
      then (some (get_or table.symbols (index + (code' - first)) 0), got.1)
      else next
]

decode_next-Shrinks :
    (f : ℕ) (table : Huffman) (r : Reader) (width code first index : ℕ) (got : Option ℕ × Reader)
    → ((r' : Reader) (width code first index : ℕ)
        → IsReader r'
        → Shrinks r' 1 (decode_loop f table r' width code first index))
    → Shrinks r 1 got
    → Shrinks r 1 (decode_next f table width code first index got)
decode_next-Shrinks f table r width code first index (none, r') ih s = tt
decode_next-Shrinks f table r width code first index (some v, r') ih (ok, le) =
    let count = get_or table.counts width 0 in
    elim (Bool-cases (ltb (bit_or code v) (first + count))) [
      | inl hit ↦ rw hit (ok, le)
      | inr miss ↦
          let more =
            decode_loop f table r' (width + 1) (bit_or code v * 2) ((first + count) * 2)
              (index + count) in
          rw miss (
            Shrinks-weaker r 2 1 more (omega arith) (
              Shrinks-both r r' 1 1 more le
                (ih r' (width + 1) (bit_or code v * 2) ((first + count) * 2) (index + count) ok)))
    ]

decode_loop-Shrinks :
    (f : ℕ) (table : Huffman) (r : Reader) (width code first index : ℕ)
    → IsReader r
    → Shrinks r 1 (decode_loop f table r width code first index)
unfolding decode_loop
decode_loop-Shrinks zero table r width code first index ok = tt
decode_loop-Shrinks (suc f) table r width code first index ok =
    decode_next-Shrinks f table r width code first index (read_bits r 1)
      (decode_loop-Shrinks f table) (read_bits-Shrinks r 1 ok (omega arith))

pub decode-Shrinks : (table : Huffman) (r : Reader) → IsReader r → Shrinks r 1 (decode table r)
unfolding decode
decode-Shrinks table r ok = decode_loop-Shrinks 15 table r 1 0 0 0 ok

-- A round that goes on has read a digit, and its reader is well formed.
abbrev pub Advances : Reader → Outcome → Type 0
Advances r (going r' out) = IsReader r' × (length (pending r') < length (pending r))
Advances r (ended r' out) = IsReader r' × (length (pending r') < length (pending r))
Advances r (failed e r' out) = Unit

distance-Advances :
    (r : Reader) (out : Bytes) (copied dist_code : ℕ) (got : Option ℕ × Reader)
    → Shrinks r 1 got
    → Advances r (after_distance out copied dist_code got)
unfolding after_distance
distance-Advances r out copied dist_code (none, r') s = tt
distance-Advances r out copied dist_code (some v, r') (ok, le) =
    elim (Bool-cases (ltb (length out) (get_or k_dist_base dist_code 0 + v))) [
      | inl far ↦ rw far tt
      | inr near ↦ rw near (ok, omega arith)
    ]

dist_code-Advances :
    (r : Reader) (out : Bytes) (copied : ℕ) (got : Option ℕ × Reader)
    → Shrinks r 1 got
    → Advances r (after_dist_code out copied got)
unfolding after_dist_code
dist_code-Advances r out copied (none, r') s = tt
dist_code-Advances r out copied (some v, r') (ok, le) = elim (Bool-cases (leb 30 v)) [
  | inl high ↦ rw high tt
  | inr low ↦
      let extra = get_or k_dist_extra v 0 in
      let got = read_bits r' extra in
      let s = read_bits-Shrinks r' extra ok (dist_extra_le v (ground arith)) in
      rw low (
        distance-Advances r out copied v got
          (Shrinks-weaker r (1 + extra) 1 got (omega arith) (Shrinks-both r r' 1 extra got le s)))
]

length-Advances :
    (r : Reader) (distances : Huffman) (out : Bytes) (length_code : ℕ) (got : Option ℕ × Reader)
    → Shrinks r 1 got
    → Advances r (after_length distances out length_code got)
unfolding after_length
length-Advances r distances out length_code (none, r') s = tt
length-Advances r distances out length_code (some v, r') (ok, le) =
    let got = decode distances r' in
    dist_code-Advances r out (get_or k_length_base length_code 0 + v) got (
      Shrinks-weaker r 2 1 got (omega arith)
        (Shrinks-both r r' 1 1 got le (decode-Shrinks distances r' ok)))

pub symbol-Advances :
    (r : Reader) (distances : Huffman) (out : Bytes) (got : Option ℕ × Reader)
    → Shrinks r 1 got
    → Advances r (after_symbol distances out got)
unfolding after_symbol
symbol-Advances r distances out (none, r') s = tt
symbol-Advances r distances out (some v, r') (ok, le) = elim (Bool-cases (ltb v 256)) [
  | inl byte ↦ rw byte (ok, omega arith)
  | inr other ↦ elim (Bool-cases (v == 256)) [
    | inl last ↦ rw (other, last) (ok, omega arith)
    | inr match ↦ elim (Bool-cases (leb 29 (v - 257))) [
      | inl high ↦ rw (other, match, high) tt
      | inr low ↦
          let extra = get_or k_length_extra (v - 257) 0 in
          let got = read_bits r' extra in
          let s = read_bits-Shrinks r' extra ok (length_extra_le (v - 257) (ground arith)) in
          rw (other, match, low)
            (length-Advances r distances out (v - 257) got (
              Shrinks-weaker r (1 + extra) 1 got (omega arith)
                (Shrinks-both r r' 1 extra got le s)))
    ]
  ]
]

-- What the loop returns with more rounds than there are digits: it has ended.
abbrev pub Ends : Reader → Outcome → Type 0
Ends r (going r' out) = ⊥
Ends r (ended r' out) = IsReader r' × (length (pending r') < length (pending r))
Ends r (failed e r' out) = Unit
