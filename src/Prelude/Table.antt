-- ===== src/Prelude/Table.antt =====
-- Facts over a small range, checked by evaluation at every value.
use zircon_dumper.Prelude.{
  ℕ, zero, suc, ◌<◌, ◌≡◌, Bool, true, false, ◌==◌, ltb, if◌then◌else◌, arith,
}

-- The check passes at every value below the limit.
unfoldable pub every : (ℕ → Bool) → ℕ → Bool
every check zero = true
every check (suc limit) = if check limit then every check limit else false

pub every_at :
    (check : ℕ → Bool) (limit value : ℕ)
    → value < limit
    → every check limit ≡ true
    → check value ≡ true
unfolding every
every_at check zero value below passes = absurd (omega arith)
every_at check (suc limit) value below passes = ground (arith, every_at check limit value)

-- Two functions that agree at every value below the limit.
pub agree :
    (f g : ℕ → ℕ) (limit value : ℕ)
    → value < limit
    → every (λ k. f k == g k) limit ≡ true
    → f value ≡ g value
agree f g limit value below passes =
    ground (arith, every_at (λ k. f k == g k) limit value below passes)

-- A function that stays below a bound at every value below the limit.
pub bounded :
    (f : ℕ → ℕ) (bound limit value : ℕ)
    → value < limit
    → every (λ k. ltb (f k) bound) limit ≡ true
    → f value < bound
bounded f bound limit value below passes =
    ground (arith, every_at (λ k. ltb (f k) bound) limit value below passes)
