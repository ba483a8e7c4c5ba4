-- ===== src/Gzip/Blocks/DynamicEnds.antt =====
-- InflateDynamic of src/zdex/src/Gzip.cpp returns on every input.
use zircon_dumper.Prelude.{
  ℕ, zero, suc, ◌+◌, ◌≤◌, ◌<◌, Option, none, some, List, [], ◌∷◌, drop, replicate, take, set, arith,
}
use zircon_dumper.Prelude.Preds.{Bytes}
use zircon_dumper.Gzip.Bits.{Reader, read_bits}
use zircon_dumper.Gzip.Bits.Fill.{IsReader}
use zircon_dumper.Gzip.Bits.Count.{Shrinks, read_bits-Shrinks}
use zircon_dumper.Gzip.Huffman.{Huffman, build}
use zircon_dumper.Gzip.Dynamic.{
  k_order, code_lengths, RunStep, filled, stopped, run_loop, with_lengths, with_code_table,
  with_code_lengths, with_counts, inflate_dynamic,
}
use zircon_dumper.Gzip.Blocks.Returns.{
  left, BlockEnds, BlockEnds-later, with_tables-BlockEnds, RunEnds, run_loop-RunEnds,
}

-- The readers of values one after another.
abbrev pub Fewer : {A : Type 0} → Reader → Option A × Reader → Type 0
Fewer r (none, r') = Unit
Fewer r (some v, r') = IsReader r' × (left r' ≤ left r)

Shrinks-Fewer :
    (r r' : Reader) (need : ℕ) (got : Option ℕ × Reader)
    → left r' ≤ left r
    → Shrinks r' need got
    → Fewer r got
Shrinks-Fewer r r' need (none, r2) le s = tt
Shrinks-Fewer r r' need (some v, r2) le (ok, le') = (ok, omega arith)

pub read_bits-Fewer :
    (r r' : Reader) (need : ℕ)
    → need ≤ 16
    → IsReader r'
    → left r' ≤ left r
    → Fewer r (read_bits r' need)
read_bits-Fewer r r' need le ok fewer =
    Shrinks-Fewer r r' need (read_bits r' need) fewer (read_bits-Shrinks r' need ok le)

-- A round of the loop over the lengths of the code lengths, after its read.
abbrev lengths_next : ℕ → List ℕ → ℕ → List ℕ → Option ℕ × Reader → Option (List ℕ) × Reader
lengths_next n order o ls got = elim got.0 [
  | none ↦ (none, got.1)
  | some v ↦ code_lengths n order got.1 (set ls o v)
]

lengths_next-Fewer :
    (n : ℕ) (order : List ℕ) (o : ℕ) (ls : List ℕ) (r : Reader) (got : Option ℕ × Reader)
    → ((r' : Reader) (ls : List ℕ)
        → IsReader r'
        → left r' ≤ left r
        → Fewer r (code_lengths n order r' ls))
    → Fewer r got
    → Fewer r (lengths_next n order o ls got)
lengths_next-Fewer n order o ls r (none, r') ih h = tt
lengths_next-Fewer n order o ls r (some v, r') ih (ok, fewer) = ih r' (set ls o v) ok fewer

code_lengths-Fewer :
    (n : ℕ) (order : List ℕ) (r r' : Reader) (ls : List ℕ)
    → IsReader r'
    → left r' ≤ left r
    → Fewer r (code_lengths n order r' ls)
unfolding code_lengths
code_lengths-Fewer zero order r r' ls ok fewer = (ok, fewer)
code_lengths-Fewer (suc n) [] r r' ls ok fewer = (ok, fewer)
code_lengths-Fewer (suc n) (o ∷ order) r r' ls ok fewer =
    lengths_next-Fewer n order o ls r (read_bits r' 3) (code_lengths-Fewer n order r)
      (read_bits-Fewer r r' 3 (omega arith) ok fewer)

lengths-BlockEnds :
    (f total literal_count : ℕ) (r : Reader) (out : Bytes) (s : RunStep)
    → left r < f
    → RunEnds total r s
    → BlockEnds r (with_lengths f literal_count out s)
unfolding with_lengths
lengths-BlockEnds f total literal_count r out (stopped e) enough h = tt
lengths-BlockEnds f total literal_count r out (filled ls r') enough (ok, fewer, all) =
    BlockEnds-later r r' _ fewer (
      with_tables-BlockEnds f (build (take literal_count ls)) (build (drop literal_count ls)) r' out
        ok (omega arith))

code_table-BlockEnds :
    (f literal_count dist_count : ℕ) (r : Reader) (out : Bytes) (table : Option Huffman)
    → left r < f
    → IsReader r
    → BlockEnds r (with_code_table f literal_count dist_count out table r)
unfolding with_code_table
code_table-BlockEnds f literal_count dist_count r out none enough ok = tt
code_table-BlockEnds f literal_count dist_count r out (some table) enough ok =
    let total = literal_count + dist_count in
    lengths-BlockEnds f total literal_count r out (run_loop total total table [] r) enough
      (run_loop-RunEnds total total table [] r ok (omega arith) (omega arith))

code_lengths-BlockEnds :
    (f literal_count dist_count : ℕ) (r : Reader) (out : Bytes) (got : Option (List ℕ) × Reader)
    → left r < f
    → Fewer r got
    → BlockEnds r (with_code_lengths f literal_count dist_count out got)
unfolding with_code_lengths
code_lengths-BlockEnds f literal_count dist_count r out (none, r') enough h = tt
code_lengths-BlockEnds f literal_count dist_count r out (some ls, r') enough (ok, fewer) =
    BlockEnds-later r r' _ fewer
      (code_table-BlockEnds f literal_count dist_count r' out (build ls) (omega arith) ok)

counts-BlockEnds :
    (f : ℕ) (r : Reader) (out : Bytes) (hlit hdist : ℕ) (got : Option ℕ × Reader)
    → left r < f
    → Fewer r got
    → BlockEnds r (with_counts f out (some hlit) (some hdist) got)
unfolding with_counts
counts-BlockEnds f r out hlit hdist (none, r') enough h = tt
counts-BlockEnds f r out hlit hdist (some hclen, r') enough (ok, fewer) =
    code_lengths-BlockEnds f (hlit + 257) (hdist + 1) r out
      (code_lengths (hclen + 4) k_order r' (replicate 19 0)) enough
      (code_lengths-Fewer (hclen + 4) k_order r r' (replicate 19 0) ok fewer)

hdist-BlockEnds :
    (f : ℕ) (r : Reader) (out : Bytes) (hlit : ℕ) (got : Option ℕ × Reader)
    → left r < f
    → Fewer r got
    → BlockEnds r (with_counts f out (some hlit) got.0 (read_bits got.1 4))
hdist-BlockEnds f r out hlit (none, r') enough h = unfold with_counts in tt
hdist-BlockEnds f r out hlit (some hdist, r') enough (ok, fewer) =
    counts-BlockEnds f r out hlit hdist (read_bits r' 4) enough
      (read_bits-Fewer r r' 4 (omega arith) ok fewer)

hlit-BlockEnds :
    (f : ℕ) (r : Reader) (out : Bytes) (got : Option ℕ × Reader)
    → left r < f
    → Fewer r got
    → BlockEnds r
        (with_counts f out got.0 (read_bits got.1 5).0 (read_bits (read_bits got.1 5).1 4))
hlit-BlockEnds f r out (none, r') enough h = unfold with_counts in tt
hlit-BlockEnds f r out (some hlit, r') enough (ok, fewer) =
    hdist-BlockEnds f r out hlit (read_bits r' 5) enough
      (read_bits-Fewer r r' 5 (omega arith) ok fewer)

pub inflate_dynamic-BlockEnds :
    (f : ℕ) (r : Reader) (out : Bytes)
    → left r < f
    → IsReader r
    → BlockEnds r (inflate_dynamic f r out)
unfolding inflate_dynamic
inflate_dynamic-BlockEnds f r out enough ok =
    hlit-BlockEnds f r out (read_bits r 5) enough
      (read_bits-Fewer r r 5 (omega arith) ok (omega arith))
