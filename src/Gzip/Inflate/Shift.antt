-- ===== src/Gzip/Inflate/Shift.antt =====
-- The copies of InflateBlockBody of src/zdex/src/Gzip.cpp behind bytes that stand before the block.
use zircon_dumper.Prelude.{
  get_or-append, ℕ, zero, suc, ◌+◌, ◌-◌, ◌≤◌, ◌≡◌, refl, ap, List, [], ◌∷◌, ◌++◌, append_assoc,
  get_or, length, length-append, arith,
}
use zircon_dumper.Prelude.Preds.{Bytes}
use zircon_dumper.Gzip.Codes.{literal_code, length_for}
use zircon_dumper.Gzip.Bits.Stream.{code_bits}
use zircon_dumper.Gzip.Huffman.Fixed.{literal_bits}
use zircon_dumper.Gzip.Inflate.{copy_back}
use zircon_dumper.Gzip.Inflate.Block.{
  Token, literal, repeat, expand_one, expand, IsToken, AreTokens, match_bits, token_bits,
  block_bits,
}

copy_back-append :
    (n from : ℕ) (p out : Bytes)
    → copy_back n (length p + from) (p ++ out) ≡ p ++ copy_back n from out
unfolding copy_back
copy_back-append zero from p out = refl
copy_back-append (suc n) from p out =
    let s : length p + from + 1 ≡ length p + (from + 1) = omega arith in
    let b = get_or out from 0 in
    rw (get_or-append p out from 0, s, append_assoc p out (b ∷ []))
      (copy_back-append n (from + 1) p (out ++ b ∷ []))

expand_one-append :
    (p out : Bytes) (t : Token)
    → IsToken out t
    → IsToken (p ++ out) t × (expand_one (p ++ out) t ≡ p ++ expand_one out t)
unfolding IsToken expand_one
expand_one-append p out (literal c) byte = (byte, append_assoc p out (c ∷ []))
expand_one-append p out (repeat len dist) (low, high, near, far, inside) =
    let l = length-append p out in
    let from : length (p ++ out) - dist ≡ length p + (length out - dist) = omega arith in
    ((low, high, near, far, omega arith), rw from (copy_back-append len (length out - dist) p out))

-- Tokens that the format has behind `out` it has behind more bytes as well, and there they stand
-- for the same.
pub expand-append :
    (p out : Bytes) (tokens : List Token)
    → AreTokens out tokens
    → AreTokens (p ++ out) tokens × (expand (p ++ out) tokens ≡ p ++ expand out tokens)
unfolding AreTokens expand
expand-append p out [] valid = (tt, refl)
expand-append p out (t ∷ ts) (here, valid) =
    let (here', one) = expand_one-append p out t here in
    let (valid', all) = expand-append p (expand_one out t) ts valid in
    ((here', rw one valid'), rw one all)

length-code_bits : (n code : ℕ) → length (code_bits n code) ≡ n
unfolding code_bits
length-code_bits zero code = refl
length-code_bits (suc n) code = ap suc (length-code_bits n code)

literal_bits_long : (c : ℕ) → 7 ≤ length (literal_bits c)
unfolding literal_bits literal_code
literal_bits_long c = rw length-code_bits (ground arith)

long_append : (xs ys : List ℕ) → 7 ≤ length xs → 7 ≤ length (xs ++ ys)
long_append xs ys h = omega (arith, length-append xs ys)

token_bits_long : (t : Token) → 7 ≤ length (token_bits t)
unfolding token_bits match_bits
token_bits_long (literal c) = literal_bits_long c
token_bits_long (repeat len dist) =
    long_append (literal_bits (length_for len).code) _ (literal_bits_long (length_for len).code)

-- A block has seven digits more than it has tokens, or more.
pub block_bits_long : (tokens : List Token) → length tokens + 7 ≤ length (block_bits tokens)
unfolding block_bits
block_bits_long [] = literal_bits_long 256
block_bits_long (t ∷ ts) =
    omega
      (arith, length-append (token_bits t) (block_bits ts), token_bits_long t, block_bits_long ts)
