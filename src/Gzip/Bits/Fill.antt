-- ===== src/Gzip/Bits/Fill.antt =====
-- BitReader::Bits of src/zdex/src/Gzip.cpp over the digits that are still to be read.
use Prim.Native.Nat.{bit_or}
use native.Mathlib.Nat.{div-add-mod, mod-lt, div-lt_iff_lt-mul}
use zircon_dumper.Prelude.{
  ℕ, zero, suc, ◌+◌, ◌-◌, ◌*◌, ◌/◌, ◌%◌, ◌^◌, ◌≤◌, ◌<◌, ◌≡◌, ◌⊎◌, refl, sym, ap, ◌∙◌, Bool, true,
  false, none, some, List, [], ◌∷◌, ◌++◌, append_assoc, append-nil, leb, get_elem?, arith, length,
  drop, Bool-cases, Option-cases, inl, inr,
}
use zircon_dumper.Prelude.Preds.{IsByte, All}
use zircon_dumper.Prelude.Mask.{pow-IsPower, bit_and-IsPower}
use zircon_dumper.Gzip.Bits.{Reader, refill, read_bits}
use zircon_dumper.Prelude.Table.{every, bounded}
use zircon_dumper.Gzip.Bits.Stream.{bits, byte_bits, bits-join, bit_or-shifted, pow_add, pow_pos}

-- The digits that a reader has not handed out yet.
unfoldable pub pending : Reader → List ℕ
pending r = bits r.held r.value ++ byte_bits (drop r.at r.input)

pub record IsReader (r : Reader) : Type 0 where
  pub held_lt : r.held < 8
  pub value_lt : r.value < 2 ^ r.held
  pub bytes : All IsByte (drop r.at r.input)

drop-some :
    {A : Type 0} (xs : List A) (i : ℕ) (x : A)
    → get_elem? xs i ≡ some x
    → drop i xs ≡ x ∷ drop (i + 1) xs
drop-some [] i x e = absurd (ground arith)
drop-some (y ∷ xs) zero x e = let h : y ≡ x = grind (arith, e) in rw h
drop-some (y ∷ xs) (suc i) x e =
    let s : suc i + 1 ≡ suc (i + 1) = omega arith in rw s (drop-some xs i x e)

drop-none : {A : Type 0} (xs : List A) (i : ℕ) → get_elem? xs i ≡ none → drop i xs ≡ []
drop-none [] zero e = refl
drop-none [] (suc i) e = refl
drop-none (y ∷ xs) zero e = absurd (ground arith)
drop-none (y ∷ xs) (suc i) e = drop-none xs i e

-- What the loop leaves: the same digits, as many as were needed unless the input is at its end.
record Filled (before : Reader) (need : ℕ) (there : Bool) (after : Reader) : Type 0 where
  same : pending after ≡ pending before
  value_lt : after.value < 2 ^ after.held
  bytes : All IsByte (drop after.at after.input)
  held_lt : after.held < need + 8
  outcome :
      ((there ≡ true) × (need ≤ after.held))
      ⊎ ((there ≡ false) × (after.held < need) × (drop after.at after.input ≡ []))

-- One more byte.
more : Reader → ℕ → Reader
more r b = record r {
  at = r.at + 1;
  value = bit_or r.value (b * 2 ^ r.held % 2 ^ 32);
  held = r.held + 8;
}

more_lem :
    (r : Reader) (b : ℕ)
    → r.held < 16
    → r.value < 2 ^ r.held
    → All IsByte (drop r.at r.input)
    → get_elem? r.input r.at ≡ some b
    → (pending (more r b) ≡ pending r)
      × ((more r b).value < 2 ^ (r.held + 8))
      × All IsByte (drop (r.at + 1) r.input)
unfolding pending more
more_lem r b low small ok e =
    let dr = drop-some r.input r.at b e in
    let head : All IsByte (b ∷ drop (r.at + 1) r.input) = rw dr at ok in
    let byte : b < 256 = head.0 in
    let power : 2 ^ r.held < 32769 =
      bounded (λ k. 2 ^ k) 32769 16 r.held low (unfold every in refl) in
    let room : b * 2 ^ r.held < 2 ^ 32 = grind arith in
    let kept : b * 2 ^ r.held % 2 ^ 32 ≡ b * 2 ^ r.held = omega arith in
    let sum = bit_or-shifted r.held r.value b small in
    let top : r.value + b * 2 ^ r.held < 2 ^ (r.held + 8) =
      rw (pow_add r.held 8) (grind (arith, byte, small)) in
    rw (kept, sum)
      (
        rw (bits-join r.held 8 (r.held + 8) r.value b refl small, dr)
            (unfold byte_bits in append_assoc (bits r.held r.value) (bits 8 b) _),
        top,
        head.1,
      )

refill_lem :
    (f : ℕ) (r : Reader) (need : ℕ)
    → need ≤ 16
    → 0 < f
    → need < r.held + f
    → r.held < need + 8
    → r.value < 2 ^ r.held
    → All IsByte (drop r.at r.input)
    → Filled r need (refill f r need).0 (refill f r need).1
unfolding refill more
refill_lem zero r need le pos enough low small ok = absurd (omega arith)
refill_lem (suc f) r need le pos enough low small ok =
    elim (Option-cases (get_elem? r.input r.at)) [
      | inl end ↦ elim (Bool-cases (leb need r.held)) [
        | inl full ↦
            rw (end, refill)
              (rw full (record {
                same = refl;
                value_lt = small;
                bytes = ok;
                held_lt = low;
                outcome = inl (refl, ground arith);
              }))
        | inr short ↦
            rw (end, refill)
              (rw short (record {
                same = refl;
                value_lt = small;
                bytes = ok;
                held_lt = low;
                outcome = inr (refl, ground arith, drop-none r.input r.at end);
              }))
      ]
      | inr (b, here) ↦ elim (Bool-cases (leb need r.held)) [
        | inl full ↦
            rw (here, refill)
              (rw full (record {
                same = refl;
                value_lt = small;
                bytes = ok;
                held_lt = low;
                outcome = inl (refl, ground arith);
              }))
        | inr short ↦
            let wanted : r.held < need = ground arith in
            let (same, fits, rest) = more_lem r b (omega arith) small ok here in
            let done =
              refill_lem f (more r b) need le (omega arith) (unfold more in omega arith)
                (unfold more in omega arith) fits rest in
            rw (here, refill)
              (rw short (record {
                same = done.same ∙ same;
                value_lt = done.value_lt;
                bytes = done.bytes;
                held_lt = done.held_lt;
                outcome = done.outcome;
              }))
      ]
    ]

pub length-bits : (n v : ℕ) → length (bits n v) ≡ n
unfolding bits
length-bits zero v = refl
length-bits (suc n) v = ap suc (length-bits n (v / 2))

-- The lowest digits taken off.
split_bits :
    (need held value : ℕ)
    → need ≤ held
    → value < 2 ^ held
    → (bits held value ≡ bits need (value % 2 ^ need) ++ bits (held - need) (value / 2 ^ need))
      × (value / 2 ^ need < 2 ^ (held - need))
      × (value % 2 ^ need < 2 ^ need)
split_bits need held value le small =
    let pos = pow_pos need in
    let whole = div-add-mod value (2 ^ need) in
    let low = mod-lt value pos in
    let e : value % 2 ^ need + value / 2 ^ need * 2 ^ need ≡ value = grind (arith, whole) in
    let joined =
      bits-join need (held - need) held (value % 2 ^ need) (value / 2 ^ need) (omega arith) low in
    let sum : held - need + need ≡ held = omega arith in
    let top : value < 2 ^ (held - need) * 2 ^ need = rw (← pow_add (held - need) need, sum) small in
    (rw e at joined, (div-lt_iff_lt-mul pos).1 top, low)

-- BitReader::Bits, for at most 16 digits: it hands out the next `need` digits as a number and
-- leaves the rest to be read, or there are fewer digits and it hands out nothing.
pub read_bits-pending :
    (r : Reader) (need : ℕ)
    → IsReader r
    → need ≤ 16
    → ((v : ℕ) × (r' : Reader) × (read_bits r need ≡ (some v, r'))
        × IsReader r'
        × (v < 2 ^ need)
        × (pending r ≡ bits need v ++ pending r'))
      ⊎ (((read_bits r need).0 ≡ none) × (length (pending r) < need))
unfolding read_bits
read_bits-pending r need ok le =
    let low = ok.held_lt in
    let done =
      refill_lem (suc need) r need le (omega arith) (omega arith) (omega arith) ok.value_lt
        ok.bytes in
    let after = (refill (suc need) r need).1 in
    elim done.outcome [
      | inl (there, enough) ↦
          let (digits_of, high, small) =
            split_bits need after.held after.value enough done.value_lt in
          let left : Reader = record after {
            value = after.value / 2 ^ need;
            held = after.held - need;
          } in
          let mask = bit_and-IsPower after.value (pow-IsPower need) in
          let fill = done.held_lt in
          rw there (
            inl (
              after.value % 2 ^ need,
              left,
              rw mask refl,
              record { held_lt = omega arith; value_lt = high; bytes = done.bytes },
              small,
              sym done.same
                  ∙ (unfold pending in
                      rw digits_of (append_assoc (bits need (after.value % 2 ^ need)) _ _)),
            ))
      | inr (short, lacks, end) ↦ rw short (
          inr (
            refl,
            rw (← done.same) (
                unfold pending in
                rw end (
                  unfold byte_bits in
                  rw (append-nil (bits after.held after.value), length-bits after.held after.value)
                    lacks)),
          ))
    ]
