-- ===== src/Gzip/Blocks/Returns.antt =====
-- InflateBlockBody, InflateDynamic and Inflate of src/zdex/src/Gzip.cpp return on every input.
use zircon_dumper.Prelude.{
  ℕ, zero, suc, ◌+◌, ◌-◌, ◌≤◌, ◌<◌, ◌≡◌, Option, none, some, List, [], ◌∷◌, leb, ltb, ◌==◌, get_or,
  replicate, length, length-append, length-replicate, arith, Bool-cases, inl, inr,
}
use zircon_dumper.Prelude.Preds.{Bytes}
use zircon_dumper.Gzip.Bits.{Reader, read_bits}
use zircon_dumper.Gzip.Bits.Fill.{pending, IsReader}
use zircon_dumper.Gzip.Bits.Count.{Shrinks, read_bits-Shrinks}
use zircon_dumper.Gzip.Huffman.{Huffman, decode}
use zircon_dumper.Gzip.Inflate.{Outcome, going, ended, failed, after_symbol, inflate_body}
use zircon_dumper.Gzip.Dynamic.{
  BlockResult, finished, refused, running, of_body, RunStep, filled, stopped, after_repeat,
  after_run, run_loop, with_tables,
}
use zircon_dumper.Gzip.Blocks.Ends.{Advances, symbol-Advances, decode-Shrinks, Ends}

-- How many digits are to be read.
abbrev pub left : Reader → ℕ
left r = length (pending r)

Ends-later : (r r' : Reader) (o : Outcome) → left r' < left r → Ends r' o → Ends r o
Ends-later r r' (going r2 out) lt e = e
Ends-later r r' (ended r2 out) lt (ok, lt') = (ok, omega arith)
Ends-later r r' (failed e r2 out) lt h = tt

-- A round of InflateBlockBody after its symbol.
abbrev body_next : ℕ → Huffman → Huffman → Outcome → Outcome
body_next f literals distances o = elim o [
  | going r' out' ↦ inflate_body f literals distances r' out'
  | ended r' out' ↦ ended r' out'
  | failed e r' out' ↦ failed e r' out'
]

body_next-Ends :
    (f : ℕ) (literals distances : Huffman) (r : Reader) (o : Outcome)
    → left r < suc f
    → ((r' : Reader) (out : Bytes)
        → IsReader r'
        → left r' < f
        → Ends r' (inflate_body f literals distances r' out))
    → Advances r o
    → Ends r (body_next f literals distances o)
body_next-Ends f literals distances r (going r' out) enough ih (ok, lt) =
    Ends-later r r' (inflate_body f literals distances r' out) lt (ih r' out ok (omega arith))
body_next-Ends f literals distances r (ended r' out) enough ih h = h
body_next-Ends f literals distances r (failed e r' out) enough ih h = tt

-- With more rounds than there are digits, InflateBlockBody returns.
pub inflate_body-Ends :
    (f : ℕ) (literals distances : Huffman) (r : Reader) (out : Bytes)
    → IsReader r
    → length (pending r) < f
    → Ends r (inflate_body f literals distances r out)
unfolding inflate_body
inflate_body-Ends zero literals distances r out ok enough = absurd (omega arith)
inflate_body-Ends (suc f) literals distances r out ok enough =
    body_next-Ends f literals distances r (after_symbol distances out (decode literals r)) enough
      (inflate_body-Ends f literals distances)
      (symbol-Advances r distances out (decode literals r) (decode-Shrinks literals r ok))

-- A block returns, and where it is read to its end its digits are gone.
abbrev pub BlockEnds : Reader → BlockResult → Type 0
BlockEnds r (finished r' out) = IsReader r' × (left r' < left r)
BlockEnds r (refused e) = Unit
BlockEnds r running = ⊥

pub BlockEnds-later :
    (r r' : Reader) (b : BlockResult) → left r' ≤ left r → BlockEnds r' b → BlockEnds r b
BlockEnds-later r r' (finished r2 out) le (ok, lt) = (ok, omega arith)
BlockEnds-later r r' (refused e) le h = tt
BlockEnds-later r r' running le h = h

of_body-BlockEnds : (r : Reader) (o : Outcome) → Ends r o → BlockEnds r (of_body o)
unfolding of_body
of_body-BlockEnds r (going r' out) h = h
of_body-BlockEnds r (ended r' out) h = h
of_body-BlockEnds r (failed e r' out) h = tt

pub with_tables-BlockEnds :
    (f : ℕ) (literals distances : Option Huffman) (r : Reader) (out : Bytes)
    → IsReader r
    → left r < f
    → BlockEnds r (with_tables f literals distances r out)
unfolding with_tables
with_tables-BlockEnds f (some literals) (some distances) r out ok enough =
    of_body-BlockEnds r (inflate_body f literals distances r out)
      (inflate_body-Ends f literals distances r out ok enough)
with_tables-BlockEnds f (some literals) none r out ok enough = tt
with_tables-BlockEnds f none distances r out ok enough = tt

-- A round of the loop over the lengths of the codes: what is filled stays within the table, has
-- grown, and its digits are gone.
abbrev RunGrows : ℕ → Reader → List ℕ → RunStep → Type 0
RunGrows total r ls (filled ls' r') =
    IsReader r' × (left r' ≤ left r) × (length ls < length ls') × (length ls' ≤ total)
RunGrows total r ls (stopped e) = Unit

repeat-RunGrows :
    (total : ℕ) (r : Reader) (ls : List ℕ) (base value : ℕ) (got : Option ℕ × Reader)
    → 0 < base
    → Shrinks r 0 got
    → RunGrows total r ls (after_repeat total ls base value got)
unfolding after_repeat
repeat-RunGrows total r ls base value (none, r') pos s = tt
repeat-RunGrows total r ls base value (some v, r') pos (ok, le) =
    elim (Bool-cases (ltb total (length ls + (base + v)))) [
      | inl over ↦ rw over tt
      | inr fits ↦
          let size = length-append ls (replicate (base + v) value) in
          let run = length-replicate (base + v) value in
          rw fits (ok, omega arith, omega arith, ground arith)
    ]

Shrinks-after :
    (r r' : Reader) (need : ℕ) (got : Option ℕ × Reader)
    → left r' ≤ left r
    → Shrinks r' need got
    → Shrinks r 0 got
Shrinks-after r r' need (none, r2) le s = tt
Shrinks-after r r' need (some v, r2) le (ok, le') = (ok, omega arith)

-- A read that follows another one.
read-RunGrows :
    (total : ℕ) (r r' : Reader) (ls : List ℕ) (base value need : ℕ)
    → 0 < base
    → need ≤ 16
    → IsReader r'
    → left r' ≤ left r
    → RunGrows total r ls (after_repeat total ls base value (read_bits r' need))
read-RunGrows total r r' ls base value need pos le ok fewer =
    repeat-RunGrows total r ls base value (read_bits r' need) pos
      (Shrinks-after r r' need (read_bits r' need) fewer (read_bits-Shrinks r' need ok le))

run-RunGrows :
    (total : ℕ) (r : Reader) (ls : List ℕ) (got : Option ℕ × Reader)
    → length ls < total
    → Shrinks r 1 got
    → RunGrows total r ls (after_run total ls got)
unfolding after_run
run-RunGrows total r ls (none, r') room s = tt
run-RunGrows total r ls (some v, r') room (ok, le) =
    let fewer : left r' ≤ left r = omega arith in
    elim (Bool-cases (ltb v 16)) [
      | inl single ↦
          let size = length-append ls (v ∷ []) in rw single (ok, fewer, omega arith, omega arith)
      | inr run ↦ elim (Bool-cases (v == 16)) [
        | inl copy ↦ elim (Bool-cases (length ls == 0)) [
          | inl first ↦ rw (run, copy, first) tt
          | inr later ↦
              rw (run, copy, later)
                (read-RunGrows total r r' ls 3 (get_or ls (length ls - 1) 0) 2 (omega arith)
                  (omega arith) ok fewer)
        ]
        | inr zeros ↦ elim (Bool-cases (v == 17)) [
          | inl few ↦
              rw (run, zeros, few)
                (read-RunGrows total r r' ls 3 0 3 (omega arith) (omega arith) ok fewer)
          | inr many ↦
              rw (run, zeros, many)
                (read-RunGrows total r r' ls 11 0 7 (omega arith) (omega arith) ok fewer)
        ]
      ]
    ]

-- The loop has filled the whole table, or it stops with an error.
abbrev pub RunEnds : ℕ → Reader → RunStep → Type 0
RunEnds total r (filled ls r') =
    IsReader r' × (length (pending r') ≤ length (pending r)) × (length ls ≡ total)
RunEnds total r (stopped e) = Unit

RunEnds-later :
    (total : ℕ) (r r' : Reader) (s : RunStep)
    → left r' ≤ left r
    → RunEnds total r' s
    → RunEnds total r s
RunEnds-later total r r' (filled ls r2) le (ok, le', all) = (ok, omega arith, all)
RunEnds-later total r r' (stopped e) le h = tt

abbrev run_next : ℕ → ℕ → Huffman → RunStep → RunStep
run_next f total table s = elim s [
  | filled ls' r' ↦ run_loop f total table ls' r'
  | stopped e ↦ stopped e
]

run_next-RunEnds :
    (f total : ℕ) (table : Huffman) (r : Reader) (ls : List ℕ) (s : RunStep)
    → total ≤ length ls + suc f
    → ((ls' : List ℕ) (r' : Reader)
        → IsReader r'
        → length ls' ≤ total
        → total ≤ length ls' + f
        → RunEnds total r' (run_loop f total table ls' r'))
    → RunGrows total r ls s
    → RunEnds total r (run_next f total table s)
run_next-RunEnds f total table r ls (filled ls' r') enough ih (ok, fewer, grown, within) =
    RunEnds-later total r r' (run_loop f total table ls' r') fewer
      (ih ls' r' ok within (omega arith))
run_next-RunEnds f total table r ls (stopped e) enough ih h = tt

-- The loop over the lengths of the codes, with as many rounds as there are lengths left to fill,
-- stops with an error or has filled exactly as many as the header of the block asks for.
pub run_loop-RunEnds :
    (f total : ℕ) (table : Huffman) (ls : List ℕ) (r : Reader)
    → IsReader r
    → length ls ≤ total
    → total ≤ length ls + f
    → RunEnds total r (run_loop f total table ls r)
unfolding run_loop
run_loop-RunEnds zero total table ls r ok within enough = (ok, omega arith, omega arith)
run_loop-RunEnds (suc f) total table ls r ok within enough =
    elim (Bool-cases (leb total (length ls))) [
      | inl full ↦ rw full (ok, omega arith, ground arith)
      | inr room ↦ rw room (
          run_next-RunEnds f total table r ls (after_run total ls (decode table r)) enough
            (λ ls' r'. run_loop-RunEnds f total table ls' r')
            (run-RunGrows total r ls (decode table r) (ground arith) (decode-Shrinks table r ok)))
    ]
