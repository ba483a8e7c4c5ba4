-- ===== src/Gzip/Deflate.antt =====
-- DeflateBlock of src/zdex/src/Gzip.cpp, and Hash3.
pub mod Search
pub mod Tokens
pub mod Trip
use Prim.Native.Nat.{bit_or}
use zircon_dumper.Prelude.{
  ℕ, zero, suc, ◌+◌, ◌-◌, ◌*◌, ◌/◌, ◌%◌, ◌^◌, min, Bool, true, false, not, ◌&&◌, ◌||◌, Option, none,
  some, leb, ltb, ◌==◌, if◌then◌else◌, get_or, length,
}
use zircon_dumper.Prelude.Preds.{Bytes}
use zircon_dumper.Gzip.Bits.{Writer, put_bits, put_code}
use zircon_dumper.Gzip.Codes.{literal_code, length_for, distance_for}

-- The code of a symbol of the literals.
unfoldable pub emit_literal : Writer → ℕ → Writer
emit_literal w c = put_code w (literal_code c).code (literal_code c).len

-- The extra bits of a length or of a distance.
unfoldable pub emit_extra : Writer → ℕ → ℕ → Writer
emit_extra w value extra_bits = if extra_bits == 0 then w else put_bits w value extra_bits

unfoldable pub emit_match : Writer → ℕ → ℕ → Writer
emit_match w best_len best_dist =
    let lc = length_for best_len in
    let dc = distance_for best_dist in
    let w1 = emit_extra (emit_literal w lc.code) (best_len - lc.base) lc.extra_bits in
    emit_extra (put_code w1 dc.code 5) (best_dist - dc.base) dc.extra_bits

unfoldable pub emit_end : Writer → Writer
emit_end w = emit_literal w 256

-- `head` by the hash and `prev` by the position; -1 is `none`.
pub record Chains : Type 0 where
  pub head : ℕ → Option ℕ
  pub prev : ℕ → Option ℕ

abbrev pub no_chains : Chains
no_chains = record { head = λ _. none; prev = λ _. none }

abbrev pub assign : (ℕ → Option ℕ) → ℕ → Option ℕ → ℕ → Option ℕ
assign f k v j = if j == k then v else f j

-- The test against the byte that would extend the best match reads one byte behind the data when
-- the best match ends with them: `past` is what stands there.
module _ (past : ℕ) (data_bytes : Bytes) where
  abbrev pub byte_at : ℕ → ℕ
  byte_at i = get_or data_bytes i past

  unfoldable pub hash3 : ℕ → ℕ
  hash3 p =
      bit_or (bit_or (byte_at p * 2 ^ 16) (byte_at (p + 1) * 2 ^ 8)) (byte_at (p + 2))
      * 2654435761
      % 2 ^ 32
      / 2 ^ 16

  -- How far a candidate agrees, by the bytes that are left up to `limit`.
  unfoldable pub match_loop : ℕ → ℕ → ℕ → ℕ → ℕ
  match_loop zero candidate pos len = len
  match_loop (suc f) candidate pos len =
      let more = match_loop f candidate pos (len + 1) in
      if byte_at (candidate + len) == byte_at (pos + len) then more else len

  unfoldable pub match_len : ℕ → ℕ → ℕ
  match_len candidate pos = match_loop (min 258 (length data_bytes - pos)) candidate pos 0

  -- The walk along a chain, by the candidates still to try: the best length and its distance.
  unfoldable pub search_chain : ℕ → (ℕ → Option ℕ) → ℕ → Option ℕ → ℕ → ℕ → ℕ × ℕ
  search_chain zero prev pos candidate best_len best_dist = (best_len, best_dist)
  search_chain (suc f) prev pos none best_len best_dist = (best_len, best_dist)
  search_chain (suc f) prev pos (some candidate) best_len best_dist =
      let dist = pos - candidate in
      let len = match_len candidate pos in
      let kept = search_chain f prev pos (prev candidate) best_len best_dist in
      let better = search_chain f prev pos (prev candidate) len dist in
      if dist == 0 || ltb 32768 dist
      then (best_len, best_dist)
      else if ltb 0 best_len && not (byte_at (candidate + best_len) == byte_at (pos + best_len))
      then kept
      else if ltb best_len len
      then (if leb 258 len then (len, dist) else better)
      else kept

  unfoldable pub best_match : Chains → ℕ → ℕ × ℕ
  best_match chains pos =
      if leb (pos + 3) (length data_bytes)
      then search_chain 128 chains.prev pos (chains.head (hash3 pos)) 0 0
      else (0, 0)

  unfoldable pub insert : Chains → ℕ → Chains
  insert chains pos =
      if leb (pos + 3) (length data_bytes)
      then record {
        head = assign chains.head (hash3 pos) (some pos);
        prev = assign chains.prev pos (chains.head (hash3 pos));
      }
      else chains

  unfoldable pub insert_run : ℕ → Chains → ℕ → Chains
  insert_run zero chains pos = chains
  insert_run (suc n) chains pos = insert_run n (insert chains pos) (pos + 1)

  -- Each round moves `pos` on, so the bytes of the data are rounds enough.
  unfoldable pub deflate_loop : ℕ → Writer → Chains → ℕ → Writer
  deflate_loop zero w chains pos = w
  deflate_loop (suc f) w chains pos =
      let (best_len, best_dist) = best_match chains pos in
      let matched =
        deflate_loop f (emit_match w best_len best_dist) (insert_run best_len chains pos)
          (pos + best_len) in
      let single = deflate_loop f (emit_literal w (byte_at pos)) (insert chains pos) (pos + 1) in
      if not (ltb pos (length data_bytes)) then w else if leb 3 best_len then matched else single

  unfoldable pub deflate_block : Writer → Bool → Writer
  deflate_block w final_block = emit_end (
      deflate_loop (length data_bytes) (put_bits (put_bits w (if final_block then 1 else 0) 1) 1 2)
        no_chains 0)
