-- ===== src/Gzip/Member/Slabs.antt =====
-- The loop of GzipCompress of src/zdex/src/Gzip.cpp over the slabs of its input.
use zircon_dumper.Prelude.{
  ℕ, zero, suc, ◌<◌, ◌≡◌, refl, sym, ◌∙◌, true, false, List, ◌++◌, append_assoc, leb, ◌==◌, get_or,
  take, drop, take_all, take-append-drop, length, length-drop, arith, Bool-cases, inl, inr,
}
use zircon_dumper.Prelude.Preds.{Bytes, IsByte, All, All-take, All-drop}
use zircon_dumper.Gzip.Bits.{Writer}
use zircon_dumper.Gzip.Bits.Stream.{written, IsWriter}
use zircon_dumper.Gzip.Deflate.{deflate_block}
use zircon_dumper.Gzip.Deflate.Tokens.{deflate_block-tokens}
use zircon_dumper.Gzip.Blocks.Trip.{Stream, last_one, one_more}
use zircon_dumper.Gzip.Member.{compress_loop}

-- The slabs of an input, of any positive size, become a stream of blocks that stands for it.
pub compress_loop-Stream :
    (f slab past : ℕ) (w : Writer) (input : Bytes)
    → 0 < slab
    → length input < f
    → IsWriter w
    → All IsByte input
    → (ds : List ℕ) × IsWriter (compress_loop f slab past w input)
      × (written (compress_loop f slab past w input) ≡ written w ++ ds)
      × Stream ds input
unfolding compress_loop
compress_loop-Stream zero slab past w input pos enough ok all = absurd (omega arith)
compress_loop-Stream (suc f) slab past w input pos enough ok all =
    let rest = drop slab input in
    let head = take slab input in
    let next = get_or rest 0 past in
    let left = length-drop slab input in
    elim (Bool-cases (length rest == 0)) [
      | inl done ↦
          let last : leb (length input) slab ≡ true = ground arith in
          let (tokens, ok', wrote, valid, stands, few) =
            deflate_block-tokens next head w true ok (All-take IsByte slab input all) in
          let whole = take_all input slab (ground arith) in
          rw (done, last) (_, ok', wrote, last_one tokens valid refl (sym (stands ∙ whole)))
      | inr more ↦
          let mid : leb (length input) slab ≡ false = ground arith in
          let (tokens, ok', wrote, valid, stands, few) =
            deflate_block-tokens next head w false ok (All-take IsByte slab input all) in
          let (ds, ok'', wrote', stream) =
            compress_loop-Stream f slab past (deflate_block next head w false) rest pos
              (ground arith) ok' (All-drop IsByte slab input all) in
          rw (more, mid)
            (
              _,
              ok'',
              wrote' ∙ rw wrote (append_assoc (written w) _ ds),
              one_more tokens stream valid refl (sym (rw stands (take-append-drop slab input))),
            )
    ]
