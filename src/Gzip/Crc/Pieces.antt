-- ===== src/Gzip/Crc/Pieces.antt =====
-- Crc32 of src/zdex/src/Gzip.cpp over data that comes in pieces, as GzipFile calls it.
use Prim.Native.Nat.{digits, differ, bit_xor, bit_xor-bitwise}
use zircon_dumper.Prelude.{
  ℕ, zero, suc, ◌+◌, ◌*◌, ◌/◌, ◌%◌, ◌≤◌, ◌<◌, ◌≡◌, refl, sym, ap, ◌∙◌, [], ◌∷◌, ◌++◌, arith,
}
use zircon_dumper.Prelude.Preds.{Bytes}
use zircon_dumper.Gzip.Crc.{crc_loop, crc32}

-- The digits of an exclusive or, with `fuel` bounding those of the first number.
abbrev pub xor_digits : ℕ → ℕ → ℕ → ℕ
xor_digits = digits (λ b. b) differ

pub xor_none : (fuel b : ℕ) → xor_digits fuel 0 b ≡ b
xor_none zero b = refl
xor_none (suc fuel) b = refl

pub xor_step :
    (fuel a b : ℕ)
    → xor_digits (suc fuel) a b ≡ xor_digits fuel (a / 2) (b / 2) * 2 + differ (a % 2) (b % 2)
xor_step fuel zero b = omega (arith, xor_none fuel (b / 2))
xor_step fuel (suc a) b = refl

-- Two digits.
pub differ_twice :
    (p q : ℕ) → p < 2 → q < 2 → (differ p q < 2) × (differ (differ p q) q ≡ p) × (differ q q ≡ 0)
differ_twice zero zero hp hq = (omega arith, refl, refl)
differ_twice zero (suc zero) hp hq = (omega arith, refl, refl)
differ_twice (suc zero) zero hp hq = (omega arith, refl, refl)
differ_twice (suc zero) (suc zero) hp hq = (omega arith, refl, refl)
differ_twice (suc (suc p)) q hp hq = absurd (omega arith)
differ_twice zero (suc (suc q)) hp hq = absurd (omega arith)
differ_twice (suc zero) (suc (suc q)) hp hq = absurd (omega arith)

xor_self : (fuel b : ℕ) → b ≤ fuel → xor_digits fuel b b ≡ 0
xor_self zero b le = omega arith
xor_self (suc fuel) b le =
    let (small, twice, same) = differ_twice (b % 2) (b % 2) (omega arith) (omega arith) in
    omega (arith, xor_step fuel b b, xor_self fuel (b / 2) (omega arith))

-- The same number taken twice changes nothing.
xor_twice :
    (fuel fuel' a b : ℕ)
    → a ≤ fuel
    → xor_digits fuel a b ≤ fuel'
    → xor_digits fuel' (xor_digits fuel a b) b ≡ a
xor_twice zero fuel' a b le le' = omega (arith, xor_self fuel' b le')
xor_twice (suc fuel) zero a b le le' =
    let (small, twice, same) = differ_twice (a % 2) (b % 2) (omega arith) (omega arith) in
    let step = xor_step fuel a b in
    let none_left : differ (a % 2) (b % 2) ≡ 0 = omega arith in
    let equal : differ 0 (b % 2) ≡ a % 2 = rw none_left at twice in
    omega (arith, xor_twice fuel zero (a / 2) (b / 2) (omega arith) (omega arith))
xor_twice (suc fuel) (suc fuel') a b le le' =
    let (small, twice, same) = differ_twice (a % 2) (b % 2) (omega arith) (omega arith) in
    let x = xor_digits (suc fuel) a b in
    let d = differ (a % 2) (b % 2) in
    let hi = xor_digits fuel (a / 2) (b / 2) in
    let step : x ≡ hi * 2 + d = xor_step fuel a b in
    let high : x / 2 ≡ hi = omega arith in
    let low : x % 2 ≡ d = omega arith in
    let rest = xor_twice fuel fuel' (a / 2) (b / 2) (omega arith) (omega arith) in
    let again = xor_step fuel' x (b) in
    let sum : a / 2 * 2 + a % 2 ≡ a = omega arith in
    again
    ∙ ap (λ (t : ℕ). xor_digits fuel' t (b / 2) * 2 + differ (x % 2) (b % 2)) high
    ∙ ap (λ (t : ℕ). xor_digits fuel' hi (b / 2) * 2 + differ t (b % 2)) low
    ∙ ap (λ (t : ℕ). t * 2 + differ d (b % 2)) rest
    ∙ ap (λ (t : ℕ). a / 2 * 2 + t) twice
    ∙ sum

bit_xor_twice : (a b : ℕ) → bit_xor (bit_xor a b) b ≡ a
bit_xor_twice a b =
    ap (λ (t : ℕ). bit_xor t b) (bit_xor-bitwise a b)
    ∙ bit_xor-bitwise (xor_digits a a b) b
    ∙ xor_twice a (xor_digits a a b) a b (omega arith) (omega arith)

crc_loop-append : (xs ys : Bytes) (c : ℕ) → crc_loop (xs ++ ys) c ≡ crc_loop ys (crc_loop xs c)
unfolding crc_loop
crc_loop-append [] ys c = refl
crc_loop-append (x ∷ xs) ys c = crc_loop-append xs ys _

-- Crc32 of two pieces, the second with the checksum of the first as its seed, is Crc32 of the
-- whole, for every seed.
pub crc32-append : (xs ys : Bytes) (seed : ℕ) → crc32 (xs ++ ys) seed ≡ crc32 ys (crc32 xs seed)
unfolding crc32
crc32-append xs ys seed =
    let begin = bit_xor seed 4294967295 in
    ap (λ (t : ℕ). bit_xor t 4294967295)
      (crc_loop-append xs ys begin
        ∙ ap (crc_loop ys) (sym (bit_xor_twice (crc_loop xs begin) 4294967295)))
