-- ===== src/Gzip/Bits/Count.antt =====
-- How many digits BitReader of src/zdex/src/Gzip.cpp has to read, and that each read lessens them.
use zircon_dumper.Prelude.{
  ℕ, ◌+◌, ◌-◌, ◌*◌, ◌≤◌, ◌≡◌, refl, ap, ◌∙◌, Option, none, some, [], ◌∷◌, arith, length, drop,
  length-append, length-drop, inl, inr,
}
use zircon_dumper.Prelude.Preds.{Bytes}
use zircon_dumper.Gzip.Bits.{Reader, read_bits}
use zircon_dumper.Gzip.Bits.Stream.{bits, byte_bits}
use zircon_dumper.Gzip.Bits.Fill.{pending, IsReader, length-bits, read_bits-pending}

pub length-byte_bits : (xs : Bytes) → length (byte_bits xs) ≡ 8 * length xs
unfolding byte_bits
length-byte_bits [] = refl
length-byte_bits (x ∷ xs) =
    omega (arith, length-append (bits 8 x) (byte_bits xs), length-bits 8 x, length-byte_bits xs)

-- How many digits are to be read.
pub length-pending : (r : Reader) → length (pending r) ≡ r.held + 8 * (length r.input - r.at)
unfolding pending
length-pending r = omega (
  arith,
  length-append (bits r.held r.value) (byte_bits (drop r.at r.input)),
  length-bits r.held r.value,
  length-byte_bits (drop r.at r.input),
  length-drop r.at r.input,
)

-- A read gives nothing, or lessens what is to be read.
abbrev pub Shrinks : {A : Type 0} → Reader → ℕ → Option A × Reader → Type 0
Shrinks r less (none, r') = Unit
Shrinks r less (some v, r') = IsReader r' × (length (pending r') + less ≤ length (pending r))

pub none-Shrinks :
    {A : Type 0} (r : Reader) (less : ℕ) (got : Option A × Reader)
    → got.0 ≡ none
    → Shrinks r less got
none-Shrinks r less (none, r') e = tt
none-Shrinks r less (some v, r') e = absurd (ground arith)

pub read_bits-Shrinks :
    (r : Reader) (need : ℕ) → IsReader r → need ≤ 16 → Shrinks r need (read_bits r need)
read_bits-Shrinks r need ok le = elim (read_bits-pending r need ok le) [
  | inl (v, r', got, ok', small, split) ↦
      let size = ap length split ∙ length-append (bits need v) (pending r') in
      rw got (ok', omega (arith, length-bits need v))
  | inr (nothing, short) ↦ none-Shrinks r need (read_bits r need) nothing
]
