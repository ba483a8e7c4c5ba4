-- ===== src/Gzip/Inflate/Trip.antt =====
-- InflateBlockBody of src/zdex/src/Gzip.cpp over the digits of a block that DeflateBlock writes.
use zircon_dumper.Prelude.{
  ℕ, zero, suc, ◌+◌, ◌-◌, ◌≤◌, ◌<◌, ◌≡◌, refl, ◌∙◌, true, false, List, [], ◌∷◌, ◌++◌, append_assoc,
  leb, ltb, ◌==◌, get_or, arith, length,
}
use zircon_dumper.Prelude.Preds.{Bytes}
use zircon_dumper.Gzip.Bits.{Reader}
use zircon_dumper.Gzip.Bits.Stream.{bits, code_bits}
use zircon_dumper.Gzip.Bits.Fill.{pending, IsReader}
use zircon_dumper.Gzip.Bits.Trip.{read_field}
use zircon_dumper.Gzip.Codes.{
  length_for, distance_for, k_length_base, k_length_extra, k_dist_base, k_dist_extra,
}
use zircon_dumper.Gzip.Codes.Rows.{length_for-Carries, distance_for-Carries}
use zircon_dumper.Gzip.Huffman.{decode}
use zircon_dumper.Gzip.Huffman.Fixed.{
  literal_table, distance_table, literal_bits, literals_walk, distances_walk, decode_table,
}
use zircon_dumper.Gzip.Inflate.{
  Outcome, going, ended, copy_back, after_distance, after_dist_code, after_length, after_symbol,
  inflate_body,
}
use zircon_dumper.Gzip.Inflate.Block.{
  Token, literal, repeat, expand_one, expand, IsToken, AreTokens, match_bits, token_bits,
  block_bits, extra_fits, length_extra, dist_extra,
}

-- What a part of a round leads to: it goes on with `out` and with `rest` to be read.
abbrev GoesOn : Outcome → Bytes → List ℕ → Type 0
GoesOn outcome out rest = (r : Reader) × (outcome ≡ going r out) × IsReader r × (pending r ≡ rest)

distance-GoesOn :
    (out : Bytes) (len dist : ℕ) (r : Reader) (rest : List ℕ)
    → 1 ≤ dist
    → dist ≤ 32768
    → dist ≤ length out
    → IsReader r
    → pending r
      ≡ code_bits 5 (distance_for dist).code
        ++ (bits (distance_for dist).extra_bits (dist - (distance_for dist).base) ++ rest)
    → GoesOn
        (after_dist_code out len (decode distance_table r))
        (copy_back len (length out - dist) out)
        rest
unfolding after_dist_code after_distance
distance-GoesOn out len dist r rest near far inside ok e =
    let dc = distance_for dist in
    let row = distance_for-Carries dist near far in
    let top : dc.code < 30 = let t = row.code_lt in omega arith in
    let (r1, got1, ok1, left1) =
      decode_table distance_table (code_bits 5) 30 dc.code r
        (bits dc.extra_bits (dist - dc.base) ++ rest) distances_walk top ok e in
    let (r2, got2, ok2, left2) =
      read_field dc.extra_bits (dist - dc.base) r1 rest ok1 (extra_fits row)
        (dist_extra dist near far) left1 in
    let at_code : dc.code - 0 ≡ dc.code = omega arith in
    let base_is : get_or k_dist_base dc.code 0 ≡ dc.base = rw at_code at row.base_back in
    let extra_is : get_or k_dist_extra dc.code 0 ≡ dc.extra_bits = rw at_code at row.extra_back in
    let low = row.base_le in
    let whole : dc.base + (dist - dc.base) ≡ dist = omega arith in
    let in_table : leb 30 dc.code ≡ false = ground arith in
    let in_out : ltb (length out) dist ≡ false = ground arith in
    (r2, rw (got1, extra_is, got2, in_table, base_is, whole, in_out) refl, ok2, left2)

match-GoesOn :
    (out : Bytes) (len dist : ℕ) (r : Reader) (rest : List ℕ)
    → IsToken out (repeat len dist)
    → IsReader r
    → pending r ≡ match_bits len dist ++ rest
    → GoesOn
        (after_symbol distance_table out (decode literal_table r))
        (copy_back len (length out - dist) out)
        rest
unfolding after_symbol after_length match_bits IsToken
match-GoesOn out len dist r rest (low, high, near, far, inside) ok e =
    let lc = length_for len in
    let dc = distance_for dist in
    let row = length_for-Carries len low high in
    let from = row.first_le in
    let top = row.code_lt in
    let b = bits lc.extra_bits (len - lc.base) in
    let c = code_bits 5 dc.code in
    let d = bits dc.extra_bits (dist - dc.base) in
    let apart : pending r ≡ literal_bits lc.code ++ (b ++ (c ++ (d ++ rest))) =
      e
      ∙ rw
          (
            append_assoc (literal_bits lc.code) (b ++ (c ++ d)) rest,
            append_assoc b (c ++ d) rest,
            append_assoc c d rest,
          )
          refl in
    let (r1, got1, ok1, left1) =
      decode_table literal_table literal_bits 288 lc.code r (b ++ (c ++ (d ++ rest))) literals_walk
        (omega arith) ok apart in
    let (r2, got2, ok2, left2) =
      read_field lc.extra_bits (len - lc.base) r1 (c ++ (d ++ rest)) ok1 (extra_fits row)
        (length_extra len low high) left1 in
    let last = distance-GoesOn out len dist r2 rest near far inside ok2 left2 in
    let base_is : get_or k_length_base (lc.code - 257) 0 ≡ lc.base = row.base_back in
    let extra_is : get_or k_length_extra (lc.code - 257) 0 ≡ lc.extra_bits = row.extra_back in
    let base_le = row.base_le in
    let whole : lc.base + (len - lc.base) ≡ len = omega arith in
    let not_byte : ltb lc.code 256 ≡ false = ground arith in
    let not_end : (lc.code == 256) ≡ false = ground arith in
    let in_table : leb 29 (lc.code - 257) ≡ false = ground arith in
    rw (got1, not_byte, not_end, in_table, extra_is, got2, base_is, whole) last

token-GoesOn :
    (out : Bytes) (t : Token) (r : Reader) (rest : List ℕ)
    → IsToken out t
    → IsReader r
    → pending r ≡ token_bits t ++ rest
    → GoesOn (after_symbol distance_table out (decode literal_table r)) (expand_one out t) rest
unfolding token_bits expand_one
token-GoesOn out (repeat len dist) r rest valid ok e = match-GoesOn out len dist r rest valid ok e
token-GoesOn out (literal c) r rest valid ok e =
    let byte : c < 256 = unfold IsToken in valid in
    let (r1, got, ok1, left) =
      decode_table literal_table literal_bits 288 c r rest literals_walk (omega arith) ok e in
    let test : ltb c 256 ≡ true = ground arith in
    (r1, rw got (unfold after_symbol in rw test refl), ok1, left)

-- With the tables that BuildFixedTables builds and more rounds than there are tokens,
-- InflateBlockBody, where the digits of valid tokens and of the end of the block are next in the
-- input of a well-formed reader, returns true, appends what the tokens stand for, leaves what is
-- behind the block, and the reader stays well formed.
pub inflate_body-block :
    (f : ℕ) (out : Bytes) (tokens : List Token) (r : Reader) (rest : List ℕ)
    → length tokens < f
    → AreTokens out tokens
    → IsReader r
    → pending r ≡ block_bits tokens ++ rest
    → (r' : Reader) × (inflate_body f literal_table distance_table r out
        ≡ ended r' (expand out tokens))
      × IsReader r'
      × (pending r' ≡ rest)
unfolding inflate_body block_bits AreTokens expand
inflate_body-block zero out tokens r rest enough valid ok e = absurd (omega arith)
inflate_body-block (suc f) out [] r rest enough valid ok e =
    let (r1, got, ok1, left) =
      decode_table literal_table literal_bits 288 256 r rest literals_walk (omega arith) ok e in
    (r1, rw (got, inflate_body) (unfold after_symbol in refl), ok1, left)
inflate_body-block (suc f) out (t ∷ ts) r rest enough (here, valid) ok e =
    let apart = e ∙ append_assoc (token_bits t) (block_bits ts) rest in
    let (r1, went, ok1, left) = token-GoesOn out t r (block_bits ts ++ rest) here ok apart in
    rw (went, inflate_body)
      (inflate_body-block f (expand_one out t) ts r1 rest (omega arith) valid ok1 left)
