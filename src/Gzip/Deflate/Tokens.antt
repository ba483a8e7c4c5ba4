-- ===== src/Gzip/Deflate/Tokens.antt =====
-- DeflateBlock of src/zdex/src/Gzip.cpp: the tokens that it writes stand for the data.
use zircon_dumper.Prelude.{
  take_all, ℕ, zero, suc, ◌+◌, ◌-◌, ◌≤◌, ◌<◌, ◌≡◌, refl, sym, ap, ◌∙◌, Bool, List, [], ◌∷◌, ◌++◌,
  append_assoc, leb, ltb, if◌then◌else◌, get_or, length, take, length-take, arith, Bool-cases, inl,
  inr,
}
use zircon_dumper.Prelude.Preds.{Bytes, IsByte, All}
use zircon_dumper.Gzip.Bits.{Writer, put_bits}
use zircon_dumper.Gzip.Bits.Stream.{bits, written, IsWriter, put_bits-written}
use zircon_dumper.Gzip.Deflate.{
  Chains, no_chains, emit_literal, emit_match, emit_end, byte_at, best_match, insert, insert_run,
  deflate_loop, deflate_block,
}
use zircon_dumper.Gzip.Deflate.Search.{IsMatch, best_match-Found}
use zircon_dumper.Gzip.Inflate.{copy_back}
use zircon_dumper.Gzip.Inflate.Block.{
  Token, literal, repeat, expand_one, expand, IsToken, AreTokens, emit_token, emit_block,
  block_bits, emit_block-written,
}

get_or-take :
    (xs : Bytes) (n i d e : ℕ) → i < n → n ≤ length xs → get_or (take n xs) i d ≡ get_or xs i e
get_or-take [] n i d e lt le = absurd (omega arith)
get_or-take (x ∷ xs) zero i d e lt le = absurd (omega arith)
get_or-take (x ∷ xs) (suc n) zero d e lt le = refl
get_or-take (x ∷ xs) (suc n) (suc i) d e lt le = get_or-take xs n i d e (omega arith) (omega arith)

take_one :
    (xs : Bytes) (n d : ℕ) → n < length xs → take n xs ++ get_or xs n d ∷ [] ≡ take (n + 1) xs
take_one [] n d lt = absurd (omega arith)
take_one (x ∷ xs) zero d lt = refl
take_one (x ∷ xs) (suc n) d lt =
    let s : suc n + 1 ≡ suc (n + 1) = omega arith in rw s (ap (λ ys. x ∷ ys) (take_one xs n d lt'))
  where
    lt' : n < length xs
    lt' = omega arith

All-get_or : (xs : Bytes) (i d : ℕ) → i < length xs → All IsByte xs → IsByte (get_or xs i d)
All-get_or [] i d lt all = absurd (omega arith)
All-get_or (x ∷ xs) zero d lt all = all.0
All-get_or (x ∷ xs) (suc i) d lt all = All-get_or xs i d (omega arith) all.1

module _ (past : ℕ) (bytes : Bytes) where
  -- Copying a repeat byte by byte gives the bytes that follow.
  copy_back-take :
      (n from pos : ℕ)
      → from < pos
      → pos + n ≤ length bytes
      → ((i : ℕ) → i < n → byte_at past bytes (from + i) ≡ byte_at past bytes (pos + i))
      → copy_back n from (take pos bytes) ≡ take (pos + n) bytes
  unfolding copy_back
  copy_back-take zero from pos lt le same = let z : pos + 0 ≡ pos = omega arith in rw z
  copy_back-take (suc n) from pos lt le same =
      let z : from + 0 ≡ from = omega arith in
      let z' : pos + 0 ≡ pos = omega arith in
      let first : byte_at past bytes from ≡ byte_at past bytes pos =
        ap (byte_at past bytes) (sym z) ∙ same 0 (omega arith) ∙ ap (byte_at past bytes) z' in
      let got = get_or-take bytes pos from 0 past lt (omega arith) in
      let one = take_one bytes pos past (omega arith) in
      let shift : (pos + 1) + n ≡ pos + suc n = omega arith in
      let rest = copy_back-take n (from + 1) (pos + 1) (omega arith) (omega arith) (λ i h.
        let a : from + 1 + i ≡ from + suc i = omega arith in
        let b : pos + 1 + i ≡ pos + suc i = omega arith in
        rw (a, b) (same (suc i) (omega arith))) in
      rw (got, first, one) (rest ∙ ap (λ t. take t bytes) shift)

  -- Tokens for the data from a position on.
  record Tokens (f pos : ℕ) (w after : Writer) : Type 0 where
    tokens : List Token
    few : length tokens ≤ f
    valid : AreTokens (take pos bytes) tokens
    whole : expand (take pos bytes) tokens ≡ bytes
    wrote : emit_end after ≡ emit_block w tokens

  no-Tokens : (f pos : ℕ) (w : Writer) → length bytes ≤ pos → Tokens f pos w w
  unfolding AreTokens expand emit_block
  no-Tokens f pos w le = record {
    tokens = [];
    few = omega arith;
    valid = tt;
    whole = take_all bytes pos le;
    wrote = refl;
  }

  more-Tokens :
      (f pos next : ℕ) (w after : Writer) (t : Token)
      → IsToken (take pos bytes) t
      → expand_one (take pos bytes) t ≡ take next bytes
      → Tokens f next (emit_token w t) after
      → Tokens (suc f) pos w after
  unfolding AreTokens expand emit_block
  more-Tokens f pos next w after t valid one rest = record {
    tokens = t ∷ rest.tokens;
    few = let few = rest.few in omega arith;
    valid = (valid, rw one rest.valid);
    whole = rw one rest.whole;
    wrote = rest.wrote;
  }

  literal-more :
      (f pos : ℕ) (w after : Writer)
      → All IsByte bytes
      → pos < length bytes
      → Tokens f (pos + 1) (emit_literal w (byte_at past bytes pos)) after
      → Tokens (suc f) pos w after
  unfolding IsToken expand_one emit_token
  literal-more f pos w after all lt rest =
      more-Tokens f pos (pos + 1) w after (literal (byte_at past bytes pos))
        (All-get_or bytes pos past lt all) (take_one bytes pos past lt) rest

  match-more :
      (f pos len dist : ℕ) (w after : Writer)
      → 3 ≤ len
      → pos < length bytes
      → IsMatch past bytes pos len dist
      → Tokens f (pos + len) (emit_match w len dist) after
      → Tokens (suc f) pos w after
  unfolding IsToken expand_one emit_token
  match-more f pos len dist w after long lt m rest =
      let measured : length (take pos bytes) ≡ pos = omega (arith, length-take pos bytes) in
      let near = m.dist_pos in
      let back = m.dist_back in
      let inside = m.len_inside in
      more-Tokens f pos (pos + len) w after (repeat len dist)
        (long, m.len_max, near, m.dist_window, rw measured back)
        (rw measured (copy_back-take len (pos - dist) pos (omega arith) (omega arith) m.same)) rest

  deflate_loop-Tokens :
      (f : ℕ) (w : Writer) (chains : Chains) (pos : ℕ)
      → All IsByte bytes
      → length bytes - pos ≤ f
      → Tokens f pos w (deflate_loop past bytes f w chains pos)
  unfolding deflate_loop
  deflate_loop-Tokens zero w chains pos all enough = no-Tokens zero pos w (omega arith)
  deflate_loop-Tokens (suc f) w chains pos all enough = elim (Bool-cases (ltb pos (length bytes))) [
    | inr at_end ↦ rw at_end (no-Tokens (suc f) pos w (ground arith))
    | inl inside ↦
        let lt : pos < length bytes = ground arith in
        let found = best_match past bytes chains pos in
        let c = byte_at past bytes pos in
        let single_rest =
          deflate_loop-Tokens f (emit_literal w c) (insert past bytes chains pos) (pos + 1) all
            (omega arith) in
        elim (Bool-cases (leb 3 found.0)) [
          | inr short ↦ rw (inside, short) (literal-more f pos w _ all lt single_rest)
          | inl long ↦ elim (best_match-Found past bytes chains pos) [
            | inl nothing ↦ absurd (ground arith)
            | inr m ↦
                rw (inside, long)
                  (match-more f pos found.0 found.1 w _ (ground arith) lt m (
                    let long3 : 3 ≤ found.0 = ground arith in
                    deflate_loop-Tokens f (emit_match w found.0 found.1)
                      (insert_run past bytes found.0 chains pos) (pos + found.0) all (omega arith)))
          ]
        ]
  ]

  -- DeflateBlock, into a well-formed writer, writes the digit that says whether the block is the
  -- last one, the two digits of the fixed alphabet, and the digits of a list of tokens that the
  -- format has, no more of them than bytes, that stand for exactly the bytes given.
  pub deflate_block-tokens :
      (w : Writer) (final_block : Bool)
      → IsWriter w
      → All IsByte bytes
      → (tokens : List Token) × IsWriter (deflate_block past bytes w final_block)
        × (written (deflate_block past bytes w final_block)
            ≡ written w
              ++ (bits 1 (if final_block then 1 else 0) ++ (bits 2 1 ++ block_bits tokens)))
        × AreTokens [] tokens
        × (expand [] tokens ≡ bytes)
        × (length tokens ≤ length bytes)
  unfolding deflate_block
  deflate_block-tokens w final_block ok all =
      let flag : ℕ = if final_block then 1 else 0 in
      let small : flag < 2 = elim (Bool-cases final_block) [
        | inl e ↦ rw e (omega arith)
        | inr e ↦ rw e (omega arith)
      ] in
      let w1 = put_bits w flag 1 in
      let w2 = put_bits w1 1 2 in
      let (ok1, all1) = put_bits-written w flag 1 ok small (omega arith) in
      let (ok2, all2) = put_bits-written w1 1 2 ok1 (omega arith) (omega arith) in
      let done = deflate_loop-Tokens (length bytes) w2 no_chains 0 all (omega arith) in
      let (ok3, all3) = emit_block-written w2 [] done.tokens ok2 done.valid in
      (
        done.tokens,
        rw done.wrote ok3,
        rw done.wrote (
            all3
            ∙ rw
                (
                  all2,
                  all1,
                  append_assoc (written w) (bits 1 flag) (bits 2 1),
                  append_assoc (written w) (bits 1 flag ++ bits 2 1) (block_bits done.tokens),
                  append_assoc (bits 1 flag) (bits 2 1) (block_bits done.tokens),
                )
                refl),
        done.valid,
        done.whole,
        done.few,
      )
