-- ===== src/Gzip/Bits/Stream.antt =====
-- The writer and the reader of src/zdex/src/Gzip.cpp over streams of single bits.
use Prim.Native.Nat.{digits, bit_or, bit_or-bitwise}
use zircon_dumper.Prelude.{
  ℕ, zero, suc, ◌+◌, ◌-◌, ◌*◌, ◌/◌, ◌%◌, ◌^◌, ◌≤◌, ◌<◌, ◌≡◌, refl, sym, ap, ◌∙◌, List, [], ◌∷◌,
  ◌++◌, append_assoc, append-nil, leb, arith, max, Bool-cases, inl, inr,
}
use zircon_dumper.Prelude.Preds.{Bytes, IsByte, All, All-append}
use zircon_dumper.Prelude.Mask.{two_pow}
use zircon_dumper.Prelude.Table.{every, bounded}
use zircon_dumper.Gzip.Bits.{Writer, flush, put_bits, put_code}

-- The lowest `n` binary digits of a number, lowest first.
unfoldable pub bits : ℕ → ℕ → List ℕ
bits zero v = []
bits (suc n) v = (v % 2) ∷ bits n (v / 2)

-- The digits of bytes, in the order of the bytes.
unfoldable pub byte_bits : Bytes → List ℕ
byte_bits [] = []
byte_bits (b ∷ bs) = bits 8 b ++ byte_bits bs

pub pow_pos : (n : ℕ) → 0 < 2 ^ n
pow_pos zero = omega arith
pow_pos (suc n) = omega (arith, two_pow n, pow_pos n)

-- The digits of a sum of two parts are those of the lower part and those of the higher one.
pub bits-join :
    (n m k a v : ℕ) → n + m ≡ k → a < 2 ^ n → bits k (a + v * 2 ^ n) ≡ bits n a ++ bits m v
unfolding bits
bits-join zero m k a v e h =
    let z : a + v * 2 ^ 0 ≡ v = omega arith in let s : k ≡ m = omega arith in rw (z, s)
bits-join (suc n) m zero a v e h = absurd (omega arith)
bits-join (suc n) m (suc k) a v e h =
    let p = two_pow n in
    let w = ap (λ (t : ℕ). v * t) p in
    let low : (a + v * 2 ^ suc n) % 2 ≡ a % 2 = omega (arith, w) in
    let high : (a + v * 2 ^ suc n) / 2 ≡ a / 2 + v * 2 ^ n = omega (arith, w) in
    rw (low, high, bits-join n m k (a / 2) v (omega arith) (omega (arith, p)))

-- `|` of a number and one shifted above it is their sum.
or_digits :
    (fuel k a v : ℕ) → a ≤ fuel → a < 2 ^ k → digits (λ x. x) max fuel a (v * 2 ^ k) ≡ a + v * 2 ^ k
or_digits zero k zero v le h = omega arith
or_digits zero k (suc a) v le h = absurd (omega arith)
or_digits (suc fuel) k zero v le h = omega arith
or_digits (suc fuel) zero (suc a) v le h = absurd (omega arith)
or_digits (suc fuel) (suc k) (suc a) v le h =
    let p = two_pow k in
    let w = ap (λ (t : ℕ). v * t) p in
    let half : v * 2 ^ suc k / 2 ≡ v * 2 ^ k = omega (arith, w) in
    omega (
      arith,
      w,
      ap (digits (λ x. x) max fuel (suc a / 2)) half,
      or_digits fuel k (suc a / 2) v (omega arith) (omega (arith, p)),
    )

pub bit_or-shifted : (k a v : ℕ) → a < 2 ^ k → bit_or a (v * 2 ^ k) ≡ a + v * 2 ^ k
bit_or-shifted k a v h = bit_or-bitwise a (v * 2 ^ k) ∙ or_digits a k a v (omega arith) h

-- What the writer has written: the digits of its bytes and those that it holds.
unfoldable pub written : Writer → List ℕ
written w = byte_bits w.out ++ bits w.held w.acc

pub record IsWriter (w : Writer) : Type 0 where
  pub held_lt : w.held < 8
  pub acc_lt : w.acc < 2 ^ w.held
  pub bytes : All IsByte w.out

byte_bits-append : (xs ys : Bytes) → byte_bits (xs ++ ys) ≡ byte_bits xs ++ byte_bits ys
unfolding byte_bits
byte_bits-append [] ys = refl
byte_bits-append (x ∷ xs) ys = rw (byte_bits-append xs ys, append_assoc)

-- One byte moved out.
flush_one :
    (out : Bytes) (acc held : ℕ)
    → 8 ≤ held
    → byte_bits (out ++ (acc % 256) ∷ []) ++ bits (held - 8) (acc / 256)
      ≡ byte_bits out ++ bits held acc
flush_one out acc held h =
    let whole : acc % 256 + acc / 256 * 2 ^ 8 ≡ acc = omega arith in
    let joined = bits-join 8 (held - 8) held (acc % 256) (acc / 256) (omega arith) (omega arith) in
    let digits_of : bits held acc ≡ bits 8 (acc % 256) ++ bits (held - 8) (acc / 256) =
      rw whole at joined in
    rw (digits_of, byte_bits-append) (unfold byte_bits in simp (append_assoc, append-nil))

pub pow_add : (n m : ℕ) → 2 ^ (n + m) ≡ 2 ^ n * 2 ^ m
pow_add zero m = let z : 0 + m ≡ m = omega arith in rw z (omega arith)
pow_add (suc n) m =
    let z : suc n + m ≡ suc (n + m) = omega arith in
    rw z (
      omega (arith, two_pow (n + m), two_pow n, pow_add n m, ap (λ (t : ℕ). t * 2 ^ m) (two_pow n)))

pow_byte : (k h : ℕ) → k + 8 ≡ h → 2 ^ h ≡ 2 ^ k * 256
pow_byte k h e = rw (← e) (omega (arith, pow_add k 8))

flush-written :
    (f : ℕ) (w : Writer)
    → w.held ≤ f
    → w.acc < 2 ^ w.held
    → All IsByte w.out
    → IsWriter (flush f w) × (written (flush f w) ≡ written w)
unfolding flush written
flush-written zero w le h ok = (record { held_lt = omega arith; acc_lt = h; bytes = ok }, refl)
flush-written (suc f) w le h ok = elim (Bool-cases (leb 8 w.held)) [
  | inl more ↦
      let big : 8 ≤ w.held = ground arith in
      let p = pow_byte (w.held - 8) w.held (omega arith) in
      let w' : Writer = record {
        out = w.out ++ (w.acc % 256) ∷ [];
        acc = w.acc / 256;
        held = w.held - 8;
      } in
      let last = All-append IsByte w.out ((w.acc % 256) ∷ []) ok (omega arith, tt) in
      let (ok', same) = flush-written f w' (omega arith) (omega (arith, p)) last in
      rw more (ok', same ∙ flush_one w.out w.acc w.held big)
  | inr done ↦ rw done (record { held_lt = ground arith; acc_lt = h; bytes = ok }, refl)
]

pow_small : (h : ℕ) → h < 8 → 2 ^ h ≤ 128
pow_small h lt = ground (arith, bounded (λ k. 2 ^ k) 129 8 h lt (unfold every in refl))

-- Into a well-formed writer, BitWriter::Bits appends the lowest `count` digits of a value of 32 bits
-- that has no more digits than these, and the writer stays well formed.
pub put_bits-written :
    (w : Writer) (value count : ℕ)
    → IsWriter w
    → value < 2 ^ count
    → value < 2 ^ 32
    → IsWriter (put_bits w value count)
      × (written (put_bits w value count) ≡ written w ++ bits count value)
unfolding put_bits
put_bits-written w value count ok fits word =
    let small = pow_small w.held ok.held_lt in
    let room : value * 2 ^ w.held < 2 ^ 64 = grind arith in
    let kept : value * 2 ^ w.held % 2 ^ 64 ≡ value * 2 ^ w.held = omega arith in
    let sum = bit_or-shifted w.held w.acc value ok.acc_lt in
    let top : w.acc + value * 2 ^ w.held < 2 ^ (w.held + count) =
      rw (pow_add w.held count) (grind (arith, ok.acc_lt)) in
    let (done, same) =
      flush-written (w.held + count)
        (record w { acc = w.acc + value * 2 ^ w.held; held = w.held + count }) (omega arith) top
        ok.bytes in
    rw (kept, sum)
      (
        done,
        same
            ∙ (unfold written in
                rw (bits-join w.held count (w.held + count) w.acc value refl ok.acc_lt)
                  (sym (append_assoc (byte_bits w.out) _ _))),
      )

-- The digits of a code, highest first.
unfoldable pub code_bits : ℕ → ℕ → List ℕ
code_bits zero code = []
code_bits (suc i) code = (code / 2 ^ i % 2) ∷ code_bits i code

bit_one : (b : ℕ) → b < 2 → bits 1 b ≡ b ∷ []
unfolding bits
bit_one b h = let e : b % 2 ≡ b = omega arith in rw e

-- Into a well-formed writer, BitWriter::Code appends the lowest `length` digits of the code, highest
-- first, and the writer stays well formed.
pub put_code-written :
    (length : ℕ) (w : Writer) (code : ℕ)
    → IsWriter w
    → IsWriter (put_code w code length)
      × (written (put_code w code length) ≡ written w ++ code_bits length code)
unfolding put_code code_bits
put_code-written zero w code ok = (ok, sym (append-nil (written w)))
put_code-written (suc i) w code ok =
    let b = code / 2 ^ i % 2 in
    let (one_ok, one) = put_bits-written w b 1 ok (omega arith) (omega arith) in
    let (done, same) = put_code-written i (put_bits w b 1) code one_ok in
    (
      done,
      same
          ∙ rw (one, bit_one b (omega arith))
              (append_assoc (written w) (b ∷ []) (code_bits i code)),
    )
