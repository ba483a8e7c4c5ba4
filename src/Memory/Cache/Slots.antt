-- ===== src/Memory/Cache/Slots.antt =====
-- The constructor of CachedMemorySource of src/core/src/CachedMemorySource.cpp: how many slots a
-- cache has, and that the slot of every page is one of them.
use zircon_dumper.Prelude.{
  ℕ, zero, suc, ◌+◌, ◌*◌, ◌/◌, ◌%◌, ◌≤◌, ◌<◌, ◌≡◌, refl, arith, max, leb, Bool-cases, inl, inr,
}
use zircon_dumper.Prelude.Mask.{IsPower, one, double, bit_and-IsPower}
use zircon_dumper.Memory.Cache.{grow, slot_count, make, slot_of, page_size}

-- The least number of doublings of `power` that passes half of `slots`.
grow_bounds :
    (f slots power : ℕ)
    → 0 < power
    → power ≤ slots
    → slots < power + f
    → (grow f slots power ≤ slots) × (slots < grow f slots power * 2) × (power ≤ grow f slots power)
unfolding grow
grow_bounds zero slots power p h m = absurd (omega arith)
grow_bounds (suc f) slots power p h m = ground (arith, grow_bounds f slots (power * 2))

grow-IsPower : (f slots power : ℕ) → IsPower power → IsPower (grow f slots power)
unfolding grow
grow-IsPower zero slots power h = h
grow-IsPower (suc f) slots power h = elim (Bool-cases (leb (power * 2) slots)) [
  | inl go ↦ rw go (grow-IsPower f slots (power * 2) (double h refl))
  | inr stop ↦ rw stop h
]

slot_count_facts :
    (cache_bytes : ℕ)
    → IsPower (slot_count cache_bytes)
      × (slot_count cache_bytes ≤ max (cache_bytes / page_size) 64)
      × (max (cache_bytes / page_size) 64 < slot_count cache_bytes * 2)
unfolding slot_count
slot_count_facts cache_bytes =
    let slots = max (cache_bytes / page_size) 64 in
    let (le, lt, _) = grow_bounds slots slots 1 (omega arith) (omega arith) (omega arith) in
    (grow-IsPower slots slots 1 one, le, lt)

-- A cache for `cache_bytes` bytes has the largest power of two of slots that is at most the larger
-- of 64 and the pages that fit in those bytes; the slot of a page is its number modulo that count.
pub slot_of-make :
    {S : Type 0} (s : S) (cache_bytes page : ℕ)
    → (slot_of (make s cache_bytes) page ≡ page % slot_count cache_bytes)
      × IsPower (slot_count cache_bytes)
      × (slot_count cache_bytes ≤ max (cache_bytes / page_size) 64)
      × (max (cache_bytes / page_size) 64 < slot_count cache_bytes * 2)
unfolding make
slot_of-make s cache_bytes page =
    let (p, le, lt) = slot_count_facts cache_bytes in (bit_and-IsPower page p, p, le, lt)
