-- ===== src/Gzip/Dynamic.antt =====
-- InflateDynamic of src/zdex/src/Gzip.cpp.
use zircon_dumper.Prelude.{
  ℕ, zero, suc, ◌+◌, ◌-◌, Option, none, some, List, [], ◌∷◌, ◌++◌, leb, ltb, ◌==◌, if◌then◌else◌,
  get_or, set, take, drop, replicate, length,
}
use zircon_dumper.Prelude.Preds.{Bytes}
use zircon_dumper.Gzip.Bits.{Reader, read_bits}
use zircon_dumper.Gzip.Huffman.{Huffman, build, decode}
use zircon_dumper.Gzip.Inflate.{InflateError, Outcome, going, ended, failed, inflate_body}

-- The texts of `error`.
pub data DynamicError : Type 0 where
  header_ends : DynamicError
  code_lengths_end : DynamicError
  code_table_invalid : DynamicError
  run_ends : DynamicError
  nothing_to_repeat : DynamicError
  repeat_ends : DynamicError
  run_overruns : DynamicError
  tables_invalid : DynamicError
  in_body : InflateError → DynamicError

-- How a block is left; `running` is a loop that has no round left.
pub data BlockResult : Type 0 where
  finished : Reader → Bytes → BlockResult
  refused : DynamicError → BlockResult
  running : BlockResult

unfoldable pub of_body : Outcome → BlockResult
of_body (going r out) = running
of_body (ended r out) = finished r out
of_body (failed e r out) = refused (in_body e)

abbrev pub k_order : List ℕ
k_order = 16 ∷ 17 ∷ 18 ∷ 0 ∷ 8 ∷ 7 ∷ 9 ∷ 6 ∷ 10 ∷ 5 ∷ 11 ∷ 4 ∷ 12 ∷ 3 ∷ 13 ∷ 2 ∷ 14 ∷ 1 ∷ 15 ∷ []

-- The loop over `code_lengths`, by the values still to read and their places.
unfoldable pub code_lengths : ℕ → List ℕ → Reader → List ℕ → Option (List ℕ) × Reader
code_lengths zero order r ls = (some ls, r)
code_lengths (suc n) [] r ls = (some ls, r)
code_lengths (suc n) (o ∷ order) r ls =
    let (value, r') = read_bits r 3 in
    elim value [ none ↦ (none, r') | some v ↦ code_lengths n order r' (set ls o v) ]

-- A round of the loop over `lengths`, of which the first ones are filled: more of them, or an error.
pub data RunStep : Type 0 where
  filled : List ℕ → Reader → RunStep
  stopped : DynamicError → RunStep

unfoldable pub after_repeat : ℕ → List ℕ → ℕ → ℕ → Option ℕ × Reader → RunStep
after_repeat total ls base value (none, r) = stopped repeat_ends
after_repeat total ls base value (some extra, r) =
    if ltb total (length ls + (base + extra))
    then stopped run_overruns
    else filled (ls ++ replicate (base + extra) value) r

unfoldable pub after_run : ℕ → List ℕ → Option ℕ × Reader → RunStep
after_run total ls (none, r) = stopped run_ends
after_run total ls (some symbol, r) =
    if ltb symbol 16
    then filled (ls ++ symbol ∷ []) r
    else if symbol == 16
    then (if length ls == 0
        then stopped nothing_to_repeat
        else after_repeat total ls 3 (get_or ls (length ls - 1) 0) (read_bits r 2))
    else if symbol == 17
    then after_repeat total ls 3 0 (read_bits r 3)
    else after_repeat total ls 11 0 (read_bits r 7)

-- The loop, which fills at least one length in a round, so `total` rounds are enough.
unfoldable pub run_loop : ℕ → ℕ → Huffman → List ℕ → Reader → RunStep
run_loop zero total table ls r = filled ls r
run_loop (suc f) total table ls r =
    let next : RunStep = elim (after_run total ls (decode table r)) [
      | filled ls' r' ↦ run_loop f total table ls' r'
      | stopped e ↦ stopped e
    ] in
    if leb total (length ls) then filled ls r else next

-- From the two tables on.
unfoldable pub with_tables : ℕ → Option Huffman → Option Huffman → Reader → Bytes → BlockResult
with_tables f (some literals) (some distances) r out =
    of_body (inflate_body f literals distances r out)
with_tables f (some literals) none r out = refused tables_invalid
with_tables f none distances r out = refused tables_invalid

unfoldable pub with_lengths : ℕ → ℕ → Bytes → RunStep → BlockResult
with_lengths f literal_count out (stopped e) = refused e
with_lengths f literal_count out (filled ls r) =
    with_tables f (build (take literal_count ls)) (build (drop literal_count ls)) r out

unfoldable pub with_code_table : ℕ → ℕ → ℕ → Bytes → Option Huffman → Reader → BlockResult
with_code_table f literal_count dist_count out none r = refused code_table_invalid
with_code_table f literal_count dist_count out (some table) r =
    with_lengths f literal_count out
      (run_loop (literal_count + dist_count) (literal_count + dist_count) table [] r)

unfoldable pub with_code_lengths : ℕ → ℕ → ℕ → Bytes → Option (List ℕ) × Reader → BlockResult
with_code_lengths f literal_count dist_count out (none, r) = refused code_lengths_end
with_code_lengths f literal_count dist_count out (some ls, r) =
    with_code_table f literal_count dist_count out (build ls) r

unfoldable pub with_counts : ℕ → Bytes → Option ℕ → Option ℕ → Option ℕ × Reader → BlockResult
with_counts f out (some hlit) (some hdist) (some hclen, r) =
    with_code_lengths f (hlit + 257) (hdist + 1) out
      (code_lengths (hclen + 4) k_order r (replicate 19 0))
with_counts f out (some hlit) (some hdist) (none, r) = refused header_ends
with_counts f out (some hlit) none hclen = refused header_ends
with_counts f out none hdist hclen = refused header_ends

-- `f` is the rounds that InflateBlockBody is given.
unfoldable pub inflate_dynamic : ℕ → Reader → Bytes → BlockResult
inflate_dynamic f r out =
    let (hlit, r1) = read_bits r 5 in
    let (hdist, r2) = read_bits r1 5 in with_counts f out hlit hdist (read_bits r2 4)
