-- ===== src/Gzip/Blocks.antt =====
-- Inflate of src/zdex/src/Gzip.cpp: the loop over the blocks of a stream.
pub mod DynamicEnds
pub mod Ends
pub mod Returns
pub mod Total
pub mod Trip
use Prim.Native.Nat.{bit_or}
use zircon_dumper.Prelude.{
  ℕ, zero, suc, ◌+◌, ◌-◌, ◌*◌, ◌^◌, Bool, true, false, Option, none, some, List, [], ◌∷◌, ◌++◌, leb,
  ltb, ◌==◌, ◌&&◌, if◌then◌else◌, get_or, take, drop, length,
}
use zircon_dumper.Prelude.Preds.{Bytes}
use zircon_dumper.Gzip.Bits.{Reader, new_reader, read_bits, seek}
use zircon_dumper.Gzip.Huffman.{Huffman, fixed_literals, fixed_distances}
use zircon_dumper.Gzip.Dynamic.{
  DynamicError, BlockResult, finished, refused, running, with_tables, inflate_dynamic,
}

-- The texts of `error`.
pub data StreamError : Type 0 where
  no_block : StreamError
  stored_header_ends : StreamError
  stored_ends : StreamError
  reserved_type : StreamError
  no_final_block : StreamError
  in_block : DynamicError → StreamError

-- What Inflate returns; `unfinished` is a loop that has no round left.
pub data Inflated : Type 0 where
  inflated : Bytes → Inflated
  invalid : StreamError → Inflated
  unfinished : Inflated

-- How a round leaves the loop.
pub data Round : Type 0 where
  next_block : Reader → Bytes → Round
  returned : Inflated → Round

-- The two bytes of a length, lowest first.
abbrev pub u16_at : Bytes → ℕ → ℕ
u16_at input at = bit_or (get_or input at 0) (get_or input (at + 1) 0 * 2 ^ 8)

-- A stored block; AlignToByte leaves `at` as it is.
unfoldable pub inflate_stored : Reader → Bytes → Option StreamError × (Reader × Bytes)
inflate_stored r out =
    let at = r.at in
    let size = length r.input in
    let stored = u16_at r.input at in
    if ltb size (at + 4)
    then (some stored_header_ends, (seek r at, out))
    else if ltb size (at + 4 + stored)
    then (some stored_ends, (seek r at, out))
    else (none, (seek r (at + 4 + stored), out ++ take stored (drop (at + 4) r.input)))

-- What follows a block.
unfoldable pub after_block : Bool → Reader → Bytes → Round
after_block final_block r out =
    if final_block
    then returned (inflated out)
    else if leb (length r.input) r.at && (length r.input == 0)
    then returned (invalid no_final_block)
    else next_block r out

unfoldable pub after_stored : Bool → Option StreamError × (Reader × Bytes) → Round
after_stored final_block (some e, (r, out)) = returned (invalid e)
after_stored final_block (none, (r, out)) = after_block final_block r out

unfoldable pub after_coded : Bool → BlockResult → Round
after_coded final_block (finished r out) = after_block final_block r out
after_coded final_block (refused e) = returned (invalid (in_block e))
after_coded final_block running = returned unfinished

-- A block from its type on. `f` is the rounds that InflateBlockBody is given.
unfoldable pub typed_block : ℕ → Bool → ℕ → Reader → Bytes → Round
typed_block f final_block type r out =
    if type == 0
    then after_stored final_block (inflate_stored r out)
    else if type == 1
    then after_coded final_block (with_tables f fixed_literals fixed_distances r out)
    else if type == 2
    then after_coded final_block (inflate_dynamic f r out)
    else returned (invalid reserved_type)

unfoldable pub after_header : ℕ → Bytes → Option ℕ → Option ℕ × Reader → Round
after_header f out (some final_block) (some type, r) = typed_block f (ltb 0 final_block) type r out
after_header f out (some final_block) (none, r) = returned (invalid no_block)
after_header f out none type = returned (invalid no_block)

unfoldable pub inflate_round : ℕ → Reader → Bytes → Round
inflate_round f r out =
    let (final_block, r') = read_bits r 1 in after_header f out final_block (read_bits r' 2)

-- A round reads a digit or returns, and so does a round of InflateBlockBody.
unfoldable pub inflate_loop : ℕ → ℕ → Reader → Bytes → Inflated
inflate_loop zero f r out = unfinished
inflate_loop (suc n) f r out = elim (inflate_round f r out) [
  | next_block r' out' ↦ inflate_loop n f r' out'
  | returned result ↦ result
]

-- The digits of the input, and one more, are rounds enough.
unfoldable pub inflate : Bytes → Inflated
inflate compressed =
    let rounds = suc (8 * length compressed) in
    inflate_loop rounds rounds (new_reader compressed) []
