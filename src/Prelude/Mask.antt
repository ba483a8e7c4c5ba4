-- ===== src/Prelude/Mask.antt =====
-- Powers of two, and the mask of ones below such a power.
use Prim.Native.Nat.{digits, bit_and, bit_and-bitwise}
use native.Mathlib.Nat.{div-add-mod, mod-lt, add-mul-mod_self_left, mod-eq_of_lt, pow-suc}
use zircon_dumper.Prelude.{
  ℕ, zero, suc, ◌+◌, ◌-◌, ◌*◌, ◌/◌, ◌%◌, ◌^◌, ◌≤◌, ◌<◌, ◌≡◌, sym, ◌∙◌, ap, arith, min,
}

pub data IsPower : ℕ → Type 0 where
  one : IsPower 1
  double : {n m : ℕ} → IsPower n → m ≡ n * 2 → IsPower m

pub two_pow : (n : ℕ) → 2 ^ suc n ≡ 2 ^ n * 2
two_pow n = pow-suc 2 n

pub pow-IsPower : (n : ℕ) → IsPower (2 ^ n)
pow-IsPower zero = one
pow-IsPower (suc n) = double (pow-IsPower n) (two_pow n)

-- A value modulo twice `n`, by its lowest digit.
mod_double : (a n m : ℕ) → 0 < n → m ≡ n * 2 → a / 2 % n * 2 + a % 2 ≡ a % m
mod_double a n m pos e =
    let q = a / 2 in
    let low = q % n * 2 + a % 2 in
    let whole : a ≡ low + m * (q / n) =
      omega (arith, div-add-mod q n, ap (λ (t : ℕ). t * (q / n)) e) in
    let small : low < m = omega (arith, mod-lt q pos) in
    sym (ap (λ (t : ℕ). t % m) whole ∙ add-mul-mod_self_left low m (q / n) ∙ mod-eq_of_lt small)

IsPower-pos : {n : ℕ} → IsPower n → 0 < n
IsPower-pos one = omega arith
IsPower-pos (double h e) = omega (arith, IsPower-pos h)

-- A mask of ones keeps the remainder, digit by digit; `fuel` bounds the digits.
mask_digits :
    (fuel a : ℕ) {m : ℕ} → IsPower m → a ≤ fuel → digits (λ x. zero) min fuel a (m - 1) ≡ a % m
mask_digits zero zero h le = grind arith
mask_digits zero (suc a) h le = absurd (omega arith)
mask_digits (suc fuel) zero h le = grind arith
mask_digits (suc fuel) (suc a) one le =
    omega (arith, mask_digits fuel (suc a / 2) one (omega arith))
mask_digits (suc fuel) (suc a) {m} (double {n} h e) le =
    let halved : (m - 1) / 2 ≡ n - 1 = omega (arith, IsPower-pos h) in
    omega (
      arith,
      ap (digits (λ x. zero) min fuel (suc a / 2)) halved,
      mask_digits fuel (suc a / 2) h (omega arith),
      mod_double (suc a) n m (IsPower-pos h) e,
      IsPower-pos h,
    )

pub bit_and-IsPower : {n : ℕ} (a : ℕ) → IsPower n → bit_and a (n - 1) ≡ a % n
bit_and-IsPower {n} a h = bit_and-bitwise a (n - 1) ∙ mask_digits a a h (omega arith)
