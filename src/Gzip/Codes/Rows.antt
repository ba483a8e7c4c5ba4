-- ===== src/Gzip/Codes/Rows.antt =====
-- LengthFor and DistanceFor of src/zdex/src/Gzip.cpp: the row that they choose carries the value,
-- and the tables of the reading side lead from it back to the value.
use zircon_dumper.Prelude.{
  ℕ, zero, suc, ◌+◌, ◌-◌, ◌^◌, ◌≤◌, ◌<◌, ◌≡◌, refl, Bool, true, false, ◌&&◌, List, leb, ◌==◌,
  if◌then◌else◌, get_or, arith, Bool-cases, inl, inr,
}
use zircon_dumper.Prelude.Table.{every, every_at}
use zircon_dumper.Gzip.Codes.{
  Row, k_lengths, k_distances, no_row, row_loop, length_for, distance_for, k_length_base,
  k_length_extra, k_dist_base, k_dist_extra,
}

-- The loop finds the last row whose base is at most the value.
row_loop_lem :
    (i : ℕ) (rows : List Row) (value : ℕ)
    → 0 < i
    → (get_or rows 0 no_row).base ≤ value
    → (k : ℕ) × (k < i)
      × (row_loop i rows value ≡ get_or rows k no_row)
      × ((get_or rows k no_row).base ≤ value)
      × (suc k < i → value < (get_or rows (suc k) no_row).base)
unfolding row_loop
row_loop_lem zero rows value pos low = absurd (omega arith)
row_loop_lem (suc zero) rows value pos low =
    let here : leb (get_or rows 0 no_row).base value ≡ true = ground arith in
    rw here (0, omega arith, refl, low, λ h. absurd (omega arith))
row_loop_lem (suc (suc i)) rows value pos low =
    elim (Bool-cases (leb (get_or rows (suc i) no_row).base value)) [
      | inl here ↦ rw here (suc i, omega arith, refl, ground arith, λ h. absurd (omega arith))
      | inr above ↦
          let (k, lt, found, le, next) = row_loop_lem (suc i) rows value (omega arith) low in
          rw above (
            k,
            omega arith,
            found,
            le,
            λ h. elim (Bool-cases (suc k == suc i)) [
              | inl last ↦ let e : k ≡ i = ground arith in rw e (ground arith)
              | inr inner ↦ next (ground arith)
            ],
          )
    ]

-- What bounds the values of a row: the base of the next one, or the limit.
next_base : List Row → ℕ → ℕ → ℕ → ℕ
next_base rows n limit k = if suc k == n then suc limit else (get_or rows (suc k) no_row).base

-- A row of the writing side as the reading side has it, with room for all its values.
row_fits : List Row → List ℕ → List ℕ → ℕ → ℕ → ℕ → ℕ → Bool
row_fits rows base extra first n limit k =
    let r = get_or rows k no_row in
    (r.code == first + k)
    && (get_or base k 0 == r.base)
    && (get_or extra k 0 == r.extra_bits)
    && leb (next_base rows n limit k) (r.base + 2 ^ r.extra_bits)

-- The row carries the value, and the code of the row leads back to it.
pub record Carries (base extra : List ℕ) (first n value : ℕ) (r : Row) : Type 0 where
  pub first_le : first ≤ r.code
  pub code_lt : r.code < first + n
  pub base_back : get_or base (r.code - first) 0 ≡ r.base
  pub extra_back : get_or extra (r.code - first) 0 ≡ r.extra_bits
  pub base_le : r.base ≤ value
  pub value_lt : value < r.base + 2 ^ r.extra_bits

both_true : (a b : Bool) → (a && b) ≡ true → (a ≡ true) × (b ≡ true)
both_true true b h = (refl, h)
both_true false b h = absurd (ground arith)

row_loop-Carries :
    (rows : List Row) (base extra : List ℕ) (first n limit value : ℕ)
    → every (row_fits rows base extra first n limit) n ≡ true
    → 0 < n
    → (get_or rows 0 no_row).base ≤ value
    → value ≤ limit
    → Carries base extra first n value (row_loop n rows value)
unfolding row_fits next_base
row_loop-Carries rows base extra first n limit value all pos low high =
    let (k, lt, found, le, next) = row_loop_lem n rows value pos low in
    let fits = every_at (row_fits rows base extra first n limit) n k lt all in
    let r = get_or rows k no_row in
    let code_ok = r.code == first + k in
    let base_ok = get_or base k 0 == r.base in
    let extra_ok = get_or extra k 0 == r.extra_bits in
    let room_ok = leb (next_base rows n limit k) (r.base + 2 ^ r.extra_bits) in
    let (fits3, room_test) = both_true (code_ok && base_ok && extra_ok) room_ok fits in
    let (fits2, extra_test) = both_true (code_ok && base_ok) extra_ok fits3 in
    let (code_test, base_test) = both_true code_ok base_ok fits2 in
    let code_is : r.code ≡ first + k = ground (arith, code_test) in
    let back : r.code - first ≡ k = omega arith in
    let room : next_base rows n limit k ≤ r.base + 2 ^ r.extra_bits = ground (arith, room_test) in
    let base_is : get_or base k 0 ≡ r.base = ground (arith, base_test) in
    let extra_is : get_or extra k 0 ≡ r.extra_bits = ground (arith, extra_test) in
    let below : value < next_base rows n limit k = elim (Bool-cases (suc k == n)) [
      | inl last ↦ rw last (omega arith)
      | inr inner ↦ rw inner (next (ground arith))
    ] in
    rw found (record {
      first_le = omega arith;
      code_lt = omega arith;
      base_back = rw back base_is;
      extra_back = rw back extra_is;
      base_le = le;
      value_lt = omega arith;
    })

-- LengthFor, for every length from 3 to 258: the row has a code of the alphabet, its base and its
-- extra bits are those that the reader looks up for the code, and what the length has over the
-- base fits in the extra bits.
pub length_for-Carries :
    (length : ℕ)
    → 3 ≤ length
    → length ≤ 258
    → Carries k_length_base k_length_extra 257 29 length (length_for length)
unfolding length_for
length_for-Carries length low high =
    row_loop-Carries k_lengths k_length_base k_length_extra 257 29 258 length
      (unfold every row_fits next_base in refl) (omega arith) low high

-- DistanceFor, for every distance from 1 to 32768: the row has a code below 30, its base and its
-- extra bits are those that the reader looks up for the code, and what the distance has over the
-- base fits in the extra bits.
pub distance_for-Carries :
    (distance : ℕ)
    → 1 ≤ distance
    → distance ≤ 32768
    → Carries k_dist_base k_dist_extra 0 30 distance (distance_for distance)
unfolding distance_for
distance_for-Carries distance low high =
    row_loop-Carries k_distances k_dist_base k_dist_extra 0 30 32768 distance
      (unfold every row_fits next_base in refl) (omega arith) low high
