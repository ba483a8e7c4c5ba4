-- ===== src/Memory/Source.antt =====
-- The interface of src/core/include/core/MemorySource.h. A source is a record of operations over
-- its state; the number of bytes that a read returns is the length of the list.
use zircon_dumper.Prelude.{
  ℕ, zero, suc, ◌+◌, ◌%◌, ◌^◌, ◌≤◌, ◌<◌, ◌≡◌, refl, Bool, Option, none, some, [], ◌∷◌, ◌++◌, arith,
  length, take, drop,
}
use zircon_dumper.Prelude.Preds.{Bytes, IsU64}

pub record Source (S : Type 0) : Type 0 where
  pub read : S → ℕ → ℕ → Bytes
  pub write : S → ℕ → Bytes → S × Bool
  pub enable_writes : S → Bool → S × Bool
  pub invalidate : S → S
  pub rescan_modules : S → S
  pub live_objects : S → Bool

-- A picture of an address space: the byte at each address, where one is mapped.
abbrev pub View : Type 0
View = ℕ → Option ℕ

-- The longest readable prefix of `n` bytes from `a` on; addresses wrap at 2 ^ 64.
unfoldable pub prefix_read : View → ℕ → ℕ → Bytes
prefix_read v a zero = []
prefix_read v a (suc n) =
    let rest = prefix_read v ((a + 1) % 2 ^ 64) n in elim (v a) [ none ↦ [] | some b ↦ b ∷ rest ]

pub length-prefix_read : (v : View) (a n : ℕ) → length (prefix_read v a n) ≤ n
unfolding prefix_read
length-prefix_read v a zero = omega arith
length-prefix_read v a (suc n) = ground (arith, length-prefix_read v ((a + 1) % 2 ^ 64) n)

-- A read of `n + m` bytes is the read of `n` and, where that is full, the read of the next `m`.
pub prefix_read-full :
    (v : View) (a n m k : ℕ)
    → IsU64 a
    → n + m ≡ k
    → length (prefix_read v a n) ≡ n
    → prefix_read v a k ≡ prefix_read v a n ++ prefix_read v ((a + n) % 2 ^ 64) m
unfolding prefix_read
prefix_read-full v a zero m k u e h =
    let p : (a + 0) % 2 ^ 64 ≡ a = omega arith in let q : k ≡ m = omega arith in rw (p, q) refl
prefix_read-full v a (suc n) m zero u e h = absurd (omega arith)
prefix_read-full v a (suc n) m (suc k) u e h =
    let p : ((a + 1) % 2 ^ 64 + n) % 2 ^ 64 ≡ (a + suc n) % 2 ^ 64 = omega arith in
    ground (arith, p, prefix_read-full v ((a + 1) % 2 ^ 64) n m k (omega arith) (omega arith))

-- A part of a read is a read.
pub prefix_read-part :
    (v : View) (a n i k : ℕ)
    → IsU64 a
    → i + k ≤ length (prefix_read v a n)
    → take k (drop i (prefix_read v a n)) ≡ prefix_read v ((a + i) % 2 ^ 64) k
unfolding prefix_read
prefix_read-part v a zero zero zero u h = refl
prefix_read-part v a zero (suc i) k u h = absurd (omega arith)
prefix_read-part v a zero zero (suc k) u h = absurd (omega arith)
prefix_read-part v a (suc n) zero zero u h = refl
prefix_read-part v a (suc n) zero (suc k) u h =
    let p : (a + 0) % 2 ^ 64 ≡ a = omega arith in
    let q : ((a + 1) % 2 ^ 64 + 0) % 2 ^ 64 ≡ (a + 1) % 2 ^ 64 = omega arith in
    ground (arith, p, q, prefix_read-part v ((a + 1) % 2 ^ 64) n 0 k (omega arith))
prefix_read-part v a (suc n) (suc i) k u h =
    let p : ((a + 1) % 2 ^ 64 + i) % 2 ^ 64 ≡ (a + suc i) % 2 ^ 64 = omega arith in
    ground (arith, p, prefix_read-part v ((a + 1) % 2 ^ 64) n i k (omega arith))

-- A read that comes back short is all that a longer read gives too.
pub prefix_read-short :
    (v : View) (a n k : ℕ)
    → n ≤ k
    → length (prefix_read v a n) < n
    → prefix_read v a k ≡ prefix_read v a n
unfolding prefix_read
prefix_read-short v a zero k le h = absurd (omega arith)
prefix_read-short v a (suc n) zero le h = absurd (omega arith)
prefix_read-short v a (suc n) (suc k) le h =
    ground (arith, prefix_read-short v ((a + 1) % 2 ^ 64) n k (omega arith))

-- A source in state `s` shows the view `v`: a read gives the longest readable prefix.
abbrev pub Shows : {S : Type 0} → Source S → S → View → Type 0
Shows src s v = (a n : ℕ) → IsU64 a → src.read s a n ≡ prefix_read v a n
