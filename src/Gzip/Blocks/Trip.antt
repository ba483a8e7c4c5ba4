-- ===== src/Gzip/Blocks/Trip.antt =====
-- Inflate of src/zdex/src/Gzip.cpp over the blocks that GzipCompress writes.
use zircon_dumper.Prelude.{
  ℕ, zero, suc, ◌+◌, ◌≤◌, ◌<◌, ◌≡◌, refl, sym, ap, ◌∙◌, Bool, true, false, List, [], ◌++◌,
  append_assoc, append-nil, leb, ltb, ◌==◌, if◌then◌else◌, length, length-append, arith, Bool-cases,
  inl, inr,
}
use zircon_dumper.Prelude.Preds.{Bytes}
use zircon_dumper.Gzip.Bits.{Reader}
use zircon_dumper.Gzip.Bits.Stream.{bits}
use zircon_dumper.Gzip.Bits.Count.{length-pending}
use zircon_dumper.Gzip.Bits.Fill.{pending, IsReader, length-bits}
use zircon_dumper.Gzip.Bits.Trip.{read_field}
use zircon_dumper.Gzip.Huffman.Fixed.{literals_built, distances_built}
use zircon_dumper.Gzip.Inflate.Block.{Token, expand, AreTokens, block_bits}
use zircon_dumper.Gzip.Inflate.Shift.{expand-append, block_bits_long}
use zircon_dumper.Gzip.Inflate.Trip.{inflate_body-block}
use zircon_dumper.Gzip.Dynamic.{with_tables, of_body}
use zircon_dumper.Gzip.Blocks.{
  next_block, inflated, after_block, after_coded, typed_block, after_header, inflate_round,
  inflate_loop,
}

-- The digits of a fixed block.
abbrev pub fixed_block : Bool → List Token → List ℕ
fixed_block final_block tokens =
    bits 1 (if final_block then 1 else 0) ++ (bits 2 1 ++ block_bits tokens)

pub fixed_block_long :
    (final_block : Bool) (tokens : List Token)
    → length tokens + 10 ≤ length (fixed_block final_block tokens)
fixed_block_long final_block tokens =
    let flag : ℕ = if final_block then 1 else 0 in
    omega (
      arith,
      length-append (bits 1 flag) (bits 2 1 ++ block_bits tokens),
      length-append (bits 2 1) (block_bits tokens),
      length-bits 1 flag,
      length-bits 2 1,
      block_bits_long tokens,
    )

-- A round over a fixed block.
pub round-fixed_block :
    (f : ℕ) (final_block : Bool) (out : Bytes) (tokens : List Token) (r : Reader) (rest : List ℕ)
    → length tokens < f
    → AreTokens [] tokens
    → IsReader r
    → pending r ≡ fixed_block final_block tokens ++ rest
    → (r' : Reader) × (inflate_round f r out ≡ after_block final_block r' (out ++ expand [] tokens))
      × IsReader r'
      × (pending r' ≡ rest)
unfolding inflate_round after_header typed_block with_tables of_body after_coded
round-fixed_block f final_block out tokens r rest enough valid ok e =
    let flag : ℕ = if final_block then 1 else 0 in
    let small : flag < 2 = elim (Bool-cases final_block) [
      | inl e ↦ rw e (omega arith)
      | inr e ↦ rw e (omega arith)
    ] in
    let test : ltb 0 flag ≡ final_block = elim (Bool-cases final_block) [
      | inl e ↦ rw e refl
      | inr e ↦ rw e refl
    ] in
    let body = block_bits tokens in
    let apart : pending r ≡ bits 1 flag ++ (bits 2 1 ++ (body ++ rest)) =
      e
      ∙ rw (append_assoc (bits 1 flag) (bits 2 1 ++ body) rest, append_assoc (bits 2 1) body rest)
          refl in
    let (r1, got1, ok1, left1) =
      read_field 1 flag r (bits 2 1 ++ (body ++ rest)) ok small (omega arith) apart in
    let (r2, got2, ok2, left2) =
      read_field 2 1 r1 (body ++ rest) ok1 (omega arith) (omega arith) left1 in
    let (valid', stands) = expand-append out [] tokens valid in
    let nothing = append-nil out in
    let (r3, done, ok3, left3) =
      inflate_body-block f out tokens r2 rest enough (rw nothing at valid') ok2 left2 in
    let stands' : expand out tokens ≡ out ++ expand [] tokens = rw nothing at stands in
    (r3, rw (got1, got2, test, literals_built, distances_built, done, stands') refl, ok3, left3)

-- The digits of a stream of fixed blocks, the last one marked as such, that stands for bytes.
pub data Stream : List ℕ → Bytes → Type 0 where
  last_one :
      {ds : List ℕ} {bytes : Bytes} (tokens : List Token)
      → AreTokens [] tokens
      → ds ≡ fixed_block true tokens
      → bytes ≡ expand [] tokens
      → Stream ds bytes
  one_more :
      {ds rest : List ℕ} {bytes after : Bytes} (tokens : List Token)
      → Stream rest after
      → AreTokens [] tokens
      → ds ≡ fixed_block false tokens ++ rest
      → bytes ≡ expand [] tokens ++ after
      → Stream ds bytes

-- A stream has digits of a block.
Stream-long : {ds : List ℕ} {bytes : Bytes} → Stream ds bytes → 10 ≤ length ds
Stream-long {ds} (last_one tokens valid e e') = rw e (omega (arith, fixed_block_long true tokens))
Stream-long {ds} (one_more {rest = rest} tokens more valid e e') =
    rw e
      (omega (arith, fixed_block_long false tokens, length-append (fixed_block false tokens) rest))

-- A reader with more digits than it can hold has an input.
pending-input : (r : Reader) → IsReader r → 8 ≤ length (pending r) → (length r.input == 0) ≡ false
pending-input r ok long = let size = length-pending r in let small = ok.held_lt in ground arith

after_block-next :
    (r : Reader) (out : Bytes)
    → (length r.input == 0) ≡ false
    → after_block false r out ≡ next_block r out
unfolding after_block
after_block-next r out some_input = elim (Bool-cases (leb (length r.input) r.at)) [
  | inl e ↦ rw (e, some_input) refl
  | inr e ↦ rw e refl
]

pub inflate_loop-Stream :
    {ds : List ℕ} {bytes : Bytes} (n f : ℕ) (r : Reader) (out : Bytes) (rest : List ℕ)
    → Stream ds bytes
    → length ds < n
    → length ds < f
    → IsReader r
    → pending r ≡ ds ++ rest
    → inflate_loop n f r out ≡ inflated (out ++ bytes)
unfolding inflate_loop
inflate_loop-Stream zero f r out rest s rounds enough ok e = absurd (omega arith)
inflate_loop-Stream {ds} (suc n) f r out rest (last_one tokens valid digits stands) rounds enough ok
      e =
    let long = fixed_block_long true tokens in
    let size = ap length digits in
    let (r', round, ok', left) =
      round-fixed_block f true out tokens r rest (omega arith) valid ok (rw (← digits) e) in
    rw (round, stands, inflate_loop) (unfold after_block in refl)
inflate_loop-Stream {ds} (suc n) f r out rest
      (one_more {rest = ds'} {after = after} tokens more valid digits stands) rounds enough ok e =
    let long = fixed_block_long false tokens in
    let size = ap length digits ∙ length-append (fixed_block false tokens) ds' in
    let e' : pending r ≡ (fixed_block false tokens ++ ds') ++ rest = rw (← digits) e in
    let apart = e' ∙ append_assoc (fixed_block false tokens) ds' rest in
    let (r', round, ok', left) =
      round-fixed_block f false out tokens r (ds' ++ rest) (omega arith) valid ok apart in
    let left_long = ap length left ∙ length-append ds' rest in
    let some_input = pending-input r' ok' (omega (arith, Stream-long more)) in
    let goes = after_block-next r' (out ++ expand [] tokens) some_input in
    rw (round, goes, inflate_loop)
      (inflate_loop-Stream n f r' (out ++ expand [] tokens) rest more (omega arith) (omega arith)
          ok' left
        ∙ ap inflated (append_assoc out (expand [] tokens) after ∙ ap (λ b. out ++ b) (sym stands)))
