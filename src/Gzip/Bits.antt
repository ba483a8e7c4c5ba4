-- ===== src/Gzip/Bits.antt =====
-- BitWriter and BitReader of src/zdex/src/Gzip.cpp.
pub mod Stream
pub mod Count
pub mod Fill
pub mod Trip
use Prim.Native.Nat.{bit_and, bit_or}
use zircon_dumper.Prelude.{
  ℕ, zero, suc, ◌+◌, ◌-◌, ◌*◌, ◌/◌, ◌%◌, ◌^◌, Bool, true, false, Option, none, some, List, [], ◌∷◌,
  ◌++◌, leb, ltb, if◌then◌else◌, get_elem?,
}
use zircon_dumper.Prelude.Preds.{Bytes}

-- `bits_` is `acc`, a 64-bit word.
pub record Writer : Type 0 where
  pub out : Bytes
  pub acc : ℕ
  pub held : ℕ

abbrev pub new_writer : Bytes → Writer
new_writer out = record { out = out; acc = 0; held = 0 }

-- The loop of BitWriter::Bits. A round takes eight bits away, so `held` rounds are enough.
unfoldable pub flush : ℕ → Writer → Writer
flush zero w = w
flush (suc f) w =
    let next =
      flush f
        (record { out = w.out ++ (w.acc % 256) ∷ []; acc = w.acc / 256; held = w.held - 8 }) in
    if leb 8 w.held then next else w

unfoldable pub put_bits : Writer → ℕ → ℕ → Writer
put_bits w value count =
    flush (w.held + count)
      (record w { acc = bit_or w.acc (value * 2 ^ w.held % 2 ^ 64); held = w.held + count })

-- BitWriter::Code, by the bits still to write.
unfoldable pub put_code : Writer → ℕ → ℕ → Writer
put_code w code zero = w
put_code w code (suc i) = put_code (put_bits w (code / 2 ^ i % 2) 1) code i

unfoldable pub align_writer : Writer → Writer
align_writer w = if ltb 0 w.held then put_bits w 0 (8 - w.held) else w

pub record Reader : Type 0 where
  pub input : Bytes
  pub at : ℕ
  pub value : ℕ
  pub held : ℕ

abbrev pub new_reader : Bytes → Reader
new_reader input = record { input = input; at = 0; value = 0; held = 0 }

-- The loop of BitReader::Bits; the flag says that the bits are there. A round adds eight bits, so
-- `need + 1` rounds are enough.
unfoldable pub refill : ℕ → Reader → ℕ → Bool × Reader
refill zero r need = (false, r)
refill (suc f) r need = elim (get_elem? r.input r.at) [
  | none ↦ (leb need r.held, r)
  | some b ↦
      let next =
        refill f
          (record r {
            at = r.at + 1;
            value = bit_or r.value (b * 2 ^ r.held % 2 ^ 32);
            held = r.held + 8;
          })
          need in
      if leb need r.held then (true, r) else next
]

-- `none` is the result -1.
unfoldable pub read_bits : Reader → ℕ → Option ℕ × Reader
unfolding refill
read_bits r need =
    let (there, r') = refill (suc need) r need in
    if there
    then (
      some (bit_and r'.value (2 ^ need - 1)),
      record r' { value = r'.value / 2 ^ need; held = r'.held - need },
    )
    else (none, r')

unfoldable pub seek : Reader → ℕ → Reader
seek r at = record r { at = at; value = 0; held = 0 }
