-- ===== src/Gzip/Inflate/Block.antt =====
-- DeflateBlock and InflateBlockBody of src/zdex/src/Gzip.cpp together: a block of literals and
-- matches, written and read.
use zircon_dumper.Prelude.{
  ℕ, ◌-◌, ◌^◌, ◌≤◌, ◌<◌, ◌≡◌, refl, sym, ◌∙◌, List, [], ◌∷◌, ◌++◌, append_assoc, append-nil, ◌==◌,
  get_or, arith, Bool-cases, inl, inr, length,
}
use zircon_dumper.Prelude.Preds.{Bytes}
use zircon_dumper.Prelude.Table.{every, bounded}
use zircon_dumper.Gzip.Bits.{Writer, put_code}
use zircon_dumper.Gzip.Bits.Stream.{
  bits, code_bits, written, IsWriter, put_bits-written, put_code-written,
}
use zircon_dumper.Gzip.Bits.Trip.{word}
use zircon_dumper.Gzip.Codes.{
  Row, literal_code, length_for, distance_for, k_length_extra, k_dist_extra,
}
use zircon_dumper.Gzip.Codes.Rows.{Carries, length_for-Carries, distance_for-Carries}
use zircon_dumper.Gzip.Huffman.Fixed.{literal_bits}
use zircon_dumper.Gzip.Deflate.{emit_literal, emit_extra, emit_match, emit_end}
use zircon_dumper.Gzip.Inflate.{copy_back}

-- What a block is made of.
pub data Token : Type 0 where
  literal : ℕ → Token
  repeat : ℕ → ℕ → Token

-- What a token adds to the bytes before it.
unfoldable pub expand_one : Bytes → Token → Bytes
expand_one out (literal c) = out ++ c ∷ []
expand_one out (repeat len dist) = copy_back len (length out - dist) out

unfoldable pub expand : Bytes → List Token → Bytes
expand out [] = out
expand out (t ∷ ts) = expand (expand_one out t) ts

-- The format has the token behind `out`.
unfoldable pub IsToken : Bytes → Token → Type 0
IsToken out (literal c) = c < 256
IsToken out (repeat len dist) =
    (3 ≤ len) × (len ≤ 258) × (1 ≤ dist) × (dist ≤ 32768) × (dist ≤ length out)

unfoldable pub AreTokens : Bytes → List Token → Type 0
AreTokens out [] = Unit
AreTokens out (t ∷ ts) = IsToken out t × AreTokens (expand_one out t) ts

unfoldable pub emit_token : Writer → Token → Writer
emit_token w (literal c) = emit_literal w c
emit_token w (repeat len dist) = emit_match w len dist

unfoldable pub emit_block : Writer → List Token → Writer
emit_block w [] = emit_end w
emit_block w (t ∷ ts) = emit_block (emit_token w t) ts

-- The digits of a match.
unfoldable pub match_bits : ℕ → ℕ → List ℕ
match_bits len dist =
    literal_bits (length_for len).code
    ++ (bits (length_for len).extra_bits (len - (length_for len).base)
        ++ (code_bits 5 (distance_for dist).code
            ++ bits (distance_for dist).extra_bits (dist - (distance_for dist).base)))

unfoldable pub token_bits : Token → List ℕ
token_bits (literal c) = literal_bits c
token_bits (repeat len dist) = match_bits len dist

unfoldable pub block_bits : List Token → List ℕ
block_bits [] = literal_bits 256
block_bits (t ∷ ts) = token_bits t ++ block_bits ts

-- A writer after more digits.
abbrev Wrote : Writer → Writer → List ℕ → Type 0
Wrote w w' ds = IsWriter w' × (written w' ≡ written w ++ ds)

Wrote-both :
    (w w' w'' : Writer) (xs ys : List ℕ) → Wrote w w' xs → Wrote w' w'' ys → Wrote w w'' (xs ++ ys)
Wrote-both w w' w'' xs ys (ok, e) (ok', e') = (ok', e' ∙ rw e (append_assoc (written w) xs ys))

emit_literal-Wrote : (w : Writer) (c : ℕ) → IsWriter w → Wrote w (emit_literal w c) (literal_bits c)
unfolding emit_literal literal_bits
emit_literal-Wrote w c ok = put_code-written (literal_code c).len w (literal_code c).code ok

-- Extra digits, with none where the row has none.
emit_extra-Wrote :
    (w : Writer) (value extra : ℕ)
    → IsWriter w
    → value < 2 ^ extra
    → extra ≤ 16
    → Wrote w (emit_extra w value extra) (bits extra value)
unfolding emit_extra
emit_extra-Wrote w value extra ok fits le = elim (Bool-cases (extra == 0)) [
  | inl nothing ↦
      let z : extra ≡ 0 = ground arith in
      rw nothing (ok, rw z (unfold bits in sym (append-nil (written w))))
  | inr digits ↦ rw digits (put_bits-written w value extra ok fits (word value extra (fits, le)))
]

pub length_extra_le : (i : ℕ) → i < 29 → get_or k_length_extra i 0 ≤ 16
length_extra_le i lt =
    ground (arith, bounded (λ k. get_or k_length_extra k 0) 17 29 i lt (unfold every in refl))

pub dist_extra_le : (i : ℕ) → i < 30 → get_or k_dist_extra i 0 ≤ 16
dist_extra_le i lt =
    ground (arith, bounded (λ k. get_or k_dist_extra k 0) 17 30 i lt (unfold every in refl))

-- What the row of a value leaves for the extra digits.
pub extra_fits :
    {base extra : List ℕ} {first n value : ℕ} {r : Row}
    → Carries base extra first n value r
    → value - r.base < 2 ^ r.extra_bits
extra_fits {value = value} {r = r} row =
    let low = row.base_le in let high = row.value_lt in omega arith

pub length_extra : (len : ℕ) → 3 ≤ len → len ≤ 258 → (length_for len).extra_bits ≤ 16
length_extra len low high =
    let row = length_for-Carries len low high in
    let at = row.first_le in
    let top = row.code_lt in
    rw (← row.extra_back) (length_extra_le ((length_for len).code - 257) (omega arith))

pub dist_extra : (dist : ℕ) → 1 ≤ dist → dist ≤ 32768 → (distance_for dist).extra_bits ≤ 16
dist_extra dist low high =
    let row = distance_for-Carries dist low high in
    let top = row.code_lt in
    rw (← row.extra_back) (dist_extra_le ((distance_for dist).code - 0) (omega arith))

emit_match-Wrote :
    (w : Writer) (len dist : ℕ)
    → IsWriter w
    → 3 ≤ len
    → len ≤ 258
    → 1 ≤ dist
    → dist ≤ 32768
    → Wrote w (emit_match w len dist) (match_bits len dist)
unfolding emit_match match_bits
emit_match-Wrote w len dist ok low high near far =
    let lc = length_for len in
    let dc = distance_for dist in
    let w1 = emit_literal w lc.code in
    let w2 = emit_extra w1 (len - lc.base) lc.extra_bits in
    let w3 = put_code w2 dc.code 5 in
    let one = emit_literal-Wrote w lc.code ok in
    let two =
      emit_extra-Wrote w1 (len - lc.base) lc.extra_bits one.0
        (extra_fits (length_for-Carries len low high)) (length_extra len low high) in
    let three = put_code-written 5 w2 dc.code two.0 in
    let four =
      emit_extra-Wrote w3 (dist - dc.base) dc.extra_bits three.0
        (extra_fits (distance_for-Carries dist near far)) (dist_extra dist near far) in
    let w4 = emit_extra w3 (dist - dc.base) dc.extra_bits in
    let a = literal_bits lc.code in
    let b = bits lc.extra_bits (len - lc.base) in
    let c = code_bits 5 dc.code in
    let d = bits dc.extra_bits (dist - dc.base) in
    Wrote-both w w1 w4 a (b ++ (c ++ d)) one
      (Wrote-both w1 w2 w4 b (c ++ d) two (Wrote-both w2 w3 w4 c d three four))

emit_token-Wrote :
    (w : Writer) (out : Bytes) (t : Token)
    → IsWriter w
    → IsToken out t
    → Wrote w (emit_token w t) (token_bits t)
unfolding emit_token token_bits IsToken
emit_token-Wrote w out (literal c) ok valid = emit_literal-Wrote w c ok
emit_token-Wrote w out (repeat len dist) ok (low, high, near, far, inside) =
    emit_match-Wrote w len dist ok low high near far

-- The digits of a block.
pub emit_block-written :
    (w : Writer) (out : Bytes) (tokens : List Token)
    → IsWriter w
    → AreTokens out tokens
    → IsWriter (emit_block w tokens)
      × (written (emit_block w tokens) ≡ written w ++ block_bits tokens)
unfolding emit_block block_bits emit_end AreTokens
emit_block-written w out [] ok valid = emit_literal-Wrote w 256 ok
emit_block-written w out (t ∷ ts) ok (here, valid) =
    let one = emit_token-Wrote w out t ok here in
    Wrote-both w (emit_token w t) (emit_block (emit_token w t) ts) (token_bits t) (block_bits ts)
      one (emit_block-written (emit_token w t) (expand_one out t) ts one.0 valid)
