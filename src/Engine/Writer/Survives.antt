-- ===== src/Engine/Writer/Survives.antt =====
-- What is read back after WriteInteger of src/engine/src/ValueWriter.cpp.
use zircon_dumper.Prelude.{
  ℕ, zero, suc, ◌+◌, ◌-◌, ◌*◌, ◌%◌, ◌^◌, ◌≤◌, ◌<◌, ◌≡◌, ◌≢◌, ◌↔◌, ◌⊎◌, refl, ap, Bool, true, false,
  not, ◌&&◌, [], ◌∷◌, leb, if◌then◌else◌, arith, Bool-cases, inl, inr,
}
use zircon_dumper.Prelude.Int.{ℤ, pos, negsuc}
use zircon_dumper.Prelude.Preds.{Bytes}
use zircon_dumper.Memory.Source.{Source}
use zircon_dumper.Engine.Writer.{
  leb_int, ltb_int, fits_in, to_word64, low_bytes, failed, does_not_fit, written_as, write_integer,
}

-- A number in memory, the lowest byte first.
unfoldable pub word_of : Bytes → ℕ
word_of [] = 0
word_of (b ∷ bs) = b + 256 * word_of bs

-- What a property of a width holds, by its bytes: a number with a sign is negative from half of the
-- range on.
unfoldable pub held : ℕ → Bool → ℕ → ℤ
held width is_signed v =
    if is_signed && leb (2 ^ (width * 8 - 1)) v then negsuc (2 ^ (width * 8) - 1 - v) else pos v

-- The widths of less than a word.
by_width :
    (P : ℕ → Type 0) → P 1 → P 2 → P 3 → P 4 → P 5 → P 6 → P 7 → (w : ℕ) → 1 ≤ w → w ≤ 7 → P w
by_width P p1 p2 p3 p4 p5 p6 p7 zero one le = absurd (omega arith)
by_width P p1 p2 p3 p4 p5 p6 p7 (suc zero) one le = p1
by_width P p1 p2 p3 p4 p5 p6 p7 (suc (suc zero)) one le = p2
by_width P p1 p2 p3 p4 p5 p6 p7 (suc (suc (suc zero))) one le = p3
by_width P p1 p2 p3 p4 p5 p6 p7 (suc (suc (suc (suc zero)))) one le = p4
by_width P p1 p2 p3 p4 p5 p6 p7 (suc (suc (suc (suc (suc zero))))) one le = p5
by_width P p1 p2 p3 p4 p5 p6 p7 (suc (suc (suc (suc (suc (suc zero)))))) one le = p6
by_width P p1 p2 p3 p4 p5 p6 p7 (suc (suc (suc (suc (suc (suc (suc zero))))))) one le = p7
by_width P p1 p2 p3 p4 p5 p6 p7 (suc (suc (suc (suc (suc (suc (suc (suc w)))))))) one le =
    absurd (omega arith)

word_of-low_bytes : (w : ℕ) → 1 ≤ w → w ≤ 7 → (v : ℕ) → word_of (low_bytes w v) ≡ v % 2 ^ (w * 8)
unfolding word_of low_bytes
word_of-low_bytes =
    by_width (λ w. (v : ℕ) → word_of (low_bytes w v) ≡ v % 2 ^ (w * 8)) (λ v. omega arith)
      (λ v. omega arith) (λ v. omega arith) (λ v. omega arith) (λ v. omega arith) (λ v. omega arith)
      (λ v. omega arith)

-- A range with its half, and a number with what is left of it in the range.
record IsCut (range half n left : ℕ) : Type 0 where
  halves : half + half ≡ range
  some_half : 1 ≤ half
  below : left < range
  at_most : left ≤ n
  same : n < range → left ≡ n
  from_word : n % 2 ^ 64 % range ≡ left
  from_negative : (2 ^ 64 - 1 - n % 2 ^ 64) % range ≡ range - 1 - left

width-IsCut :
    (w : ℕ) → 1 ≤ w → w ≤ 7 → (n : ℕ) → IsCut (2 ^ (w * 8)) (2 ^ (w * 8 - 1)) n (n % 2 ^ (w * 8))
width-IsCut =
    by_width (λ w. (n : ℕ) → IsCut (2 ^ (w * 8)) (2 ^ (w * 8 - 1)) n (n % 2 ^ (w * 8)))
      (λ n. record {
        halves = omega arith;
        some_half = omega arith;
        below = omega arith;
        at_most = omega arith;
        same = λ lt. omega arith;
        from_word = omega arith;
        from_negative = omega arith;
      })
      (λ n. record {
        halves = omega arith;
        some_half = omega arith;
        below = omega arith;
        at_most = omega arith;
        same = λ lt. omega arith;
        from_word = omega arith;
        from_negative = omega arith;
      })
      (λ n. record {
        halves = omega arith;
        some_half = omega arith;
        below = omega arith;
        at_most = omega arith;
        same = λ lt. omega arith;
        from_word = omega arith;
        from_negative = omega arith;
      })
      (λ n. record {
        halves = omega arith;
        some_half = omega arith;
        below = omega arith;
        at_most = omega arith;
        same = λ lt. omega arith;
        from_word = omega arith;
        from_negative = omega arith;
      })
      (λ n. record {
        halves = omega arith;
        some_half = omega arith;
        below = omega arith;
        at_most = omega arith;
        same = λ lt. omega arith;
        from_word = omega arith;
        from_negative = omega arith;
      })
      (λ n. record {
        halves = omega arith;
        some_half = omega arith;
        below = omega arith;
        at_most = omega arith;
        same = λ lt. omega arith;
        from_word = omega arith;
        from_negative = omega arith;
      })
      (λ n. record {
        halves = omega arith;
        some_half = omega arith;
        below = omega arith;
        at_most = omega arith;
        same = λ lt. omega arith;
        from_word = omega arith;
        from_negative = omega arith;
      })

pos_inj : {m n : ℕ} → pos m ≡ pos n → m ≡ n
pos_inj e = ap (λ (z : ℤ). elim z [ pos k ↦ k | negsuc k ↦ 0 ]) e

negsuc_inj : {m n : ℕ} → negsuc m ≡ negsuc n → m ≡ n
negsuc_inj e = ap (λ (z : ℤ). elim z [ pos k ↦ 0 | negsuc k ↦ k ]) e

module _ (range half n left : ℕ) (cut : IsCut range half n left) where
  positive_signed :
      (not (leb half n) ≡ true)
      ↔ ((if leb half left then negsuc (range - 1 - left) else pos left) ≡ pos n)
  positive_signed = (forth, back)
    where
      forth :
          not (leb half n) ≡ true
          → (if leb half left then negsuc (range - 1 - left) else pos left) ≡ pos n
      forth e =
          let lt : n < half = ground (arith, e) in
          let same = cut.same (omega (arith, lt, cut.halves)) in
          let no : leb half left ≡ false = ground (arith, lt, same) in
          rw no (ap (λ (k : ℕ). pos k) same)

      back :
          (if leb half left then negsuc (range - 1 - left) else pos left) ≡ pos n
          → not (leb half n) ≡ true
      back e = elim (Bool-cases (leb half left)) [
        | inl b ↦
            let never : negsuc (range - 1 - left) ≡ pos n = simp b at e in
            absurd (ground (arith, never))
        | inr b ↦
            let is : pos left ≡ pos n = simp b at e in
            let same = pos_inj is in ground (arith, b, same)
      ]

  positive_unsigned : (not (leb range n) ≡ true) ↔ (pos left ≡ pos n)
  positive_unsigned = (
    λ e. let lt : n < range = ground (arith, e) in ap (λ (k : ℕ). pos k) (cut.same lt),
    λ e. let same = pos_inj e in let below = cut.below in ground (arith, same, below),
  )

  negative_signed : (leb n (half - 1) ≡ true) ↔ (
      (if leb half (range - 1 - left)
        then negsuc (range - 1 - (range - 1 - left))
        else pos (range - 1 - left))
      ≡ negsuc n)
  negative_signed = (forth, back)
    where
      forth :
          leb n (half - 1) ≡ true
          → (if leb half (range - 1 - left)
              then negsuc (range - 1 - (range - 1 - left))
              else pos (range - 1 - left))
            ≡ negsuc n
      forth e =
          let le : n ≤ half - 1 = ground (arith, e) in
          let same = cut.same (omega (arith, le, cut.halves, cut.some_half)) in
          let far : half ≤ range - 1 - left = omega (arith, le, same, cut.halves, cut.some_half) in
          let yes : leb half (range - 1 - left) ≡ true = ground (arith, far) in
          let is : range - 1 - (range - 1 - left) ≡ n = omega (arith, same, cut.below) in
          rw yes (ap (λ (k : ℕ). negsuc k) is)

      back :
          (if leb half (range - 1 - left)
              then negsuc (range - 1 - (range - 1 - left))
              else pos (range - 1 - left))
            ≡ negsuc n
          → leb n (half - 1) ≡ true
      back e = elim (Bool-cases (leb half (range - 1 - left))) [
        | inl b ↦
            let is : negsuc (range - 1 - (range - 1 - left)) ≡ negsuc n = simp b at e in
            let same = negsuc_inj is in
            let far : half ≤ range - 1 - left = ground (arith, b) in
            let le : n ≤ half - 1 = omega (arith, same, far, cut.halves, cut.below) in
            ground (arith, le)
        | inr b ↦
            let never : pos (range - 1 - left) ≡ negsuc n = simp b at e in
            absurd (ground (arith, never))
      ]

and-true : (b : Bool) → (b && true) ≡ b
and-true true = refl
and-true false = refl

-- For a width of one to seven bytes, FitsIn accepts the number exactly when
-- the bytes that WriteInteger writes are read back as that number.
pub fits_in-held :
    (value : ℤ) (width : ℕ) (is_signed : Bool)
    → 1 ≤ width
    → width ≤ 7
    → (fits_in value width is_signed ≡ true)
      ↔ (held width is_signed (word_of (low_bytes width (to_word64 value))) ≡ value)
unfolding fits_in held to_word64 leb_int ltb_int
fits_in-held (pos n) width true one le =
    let narrow : leb 8 width ≡ false = ground (arith, le) in
    let cut = width-IsCut width one le n in
    rw (fits_in, narrow, held, word_of-low_bytes width one le (n % 2 ^ 64), cut.from_word)
      (positive_signed (2 ^ (width * 8)) (2 ^ (width * 8 - 1)) n (n % 2 ^ (width * 8)) cut)
fits_in-held (pos n) width false one le =
    let narrow : leb 8 width ≡ false = ground (arith, le) in
    let cut = width-IsCut width one le n in
    let least : ltb_int (pos n) (pos 0) ≡ false = ground arith in
    rw (fits_in, narrow, least, held, word_of-low_bytes width one le (n % 2 ^ 64), cut.from_word)
      (positive_unsigned (2 ^ (width * 8)) (2 ^ (width * 8 - 1)) n (n % 2 ^ (width * 8)) cut)
fits_in-held (negsuc n) width true one le =
    let narrow : leb 8 width ≡ false = ground (arith, le) in
    let cut = width-IsCut width one le n in
    let both = and-true (leb n (2 ^ (width * 8 - 1) - 1)) in
    rw
      (
        fits_in,
        narrow,
        both,
        held,
        word_of-low_bytes width one le (2 ^ 64 - 1 - n % 2 ^ 64),
        cut.from_negative,
      )
      (negative_signed (2 ^ (width * 8)) (2 ^ (width * 8 - 1)) n (n % 2 ^ (width * 8)) cut)
fits_in-held (negsuc n) width false one le =
    let narrow : leb 8 width ≡ false = ground (arith, le) in
    rw (fits_in, narrow) (λ e. absurd (ground (arith, e)), λ e. absurd (ground (arith, e)))

-- WriteInteger for a width of one to seven bytes: a number that the property would not hold is refused
-- and the target is as it was; for every other number the target's Write is called once, with bytes
-- that are read back as the number, and the result says whether it was refused.
pub write_integer-Outcome :
    {S : Type 0}
    → (memory : Source S) (s : S) (address : ℕ) (value : ℤ) (width : ℕ) (is_signed : Bool)
    → 1 ≤ width
    → width ≤ 7
    → ((held width is_signed (word_of (low_bytes width (to_word64 value))) ≢ value)
        × (write_integer memory s address value width is_signed ≡ (s, failed does_not_fit)))
      ⊎ ((held width is_signed (word_of (low_bytes width (to_word64 value))) ≡ value)
          × (write_integer memory s address value width is_signed
              ≡ written_as value (memory.write s address (low_bytes width (to_word64 value)))))
unfolding write_integer
write_integer-Outcome memory s address value width is_signed one le =
    let (forth, back) = fits_in-held value width is_signed one le in
    elim (Bool-cases (fits_in value width is_signed)) [
      | inl fits ↦ inr (forth fits, rw fits refl)
      | inr differs ↦
          inl (λ e. let fits = back e in absurd (ground (arith, differs, fits)), rw differs refl)
    ]
