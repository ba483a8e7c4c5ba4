-- ===== src/Pattern/Scan/Range.antt =====
-- The loop over one range in `Scan` of src/core/src/PatternScanner.cpp: its chunks overlap so that
-- they cover each position once.
use zircon_dumper.Prelude.{
  ℕ, zero, suc, ◌+◌, ◌-◌, ◌%◌, ◌^◌, ◌≤◌, ◌<◌, ◌≡◌, refl, sym, ap, ◌∙◌, true, false, List, [], ◌∷◌,
  ◌++◌, arith, length, drop, take, ltb, ◌==◌, if◌then◌else◌, Bool-cases, inl, inr, min, length-take,
  length-drop,
}
use zircon_dumper.Prelude.Preds.{Bytes, IsU64}
use zircon_dumper.Memory.Source.{Source, View, Shows, prefix_read, prefix_read-part}
use zircon_dumper.Pattern.{Pattern, matches_at}
use zircon_dumper.Pattern.Scan.{full, chunk_size, ScanRange, scan_chunk, scan_range}
use zircon_dumper.Pattern.Scan.Chunk.{IsPattern, hits_from, push_all, scan_chunk_lem}

-- A test within the first `w` bytes does not see the rest.
matches_at-take :
    (bs ms xs : Bytes) (w : ℕ) → length bs ≤ w → matches_at bs ms (take w xs) ≡ matches_at bs ms xs
unfolding matches_at
matches_at-take [] ms xs w h = refl
matches_at-take (b ∷ bs) [] xs w h = refl
matches_at-take (b ∷ bs) (m ∷ ms) xs zero h = absurd (omega arith)
matches_at-take (b ∷ bs) (m ∷ ms) [] (suc w) h = refl
matches_at-take (b ∷ bs) (m ∷ ms) (x ∷ xs) (suc w) h = rw (matches_at-take bs ms xs w (omega arith))

take_nil : (n : ℕ) → take {A = ℕ} n [] ≡ []
take_nil zero = refl
take_nil (suc n) = refl

drop-take : (i w : ℕ) (xs : Bytes) → drop i (take w xs) ≡ take (w - i) (drop i xs)
drop-take zero w xs = let e : w - 0 ≡ w = omega arith in rw e
drop-take (suc i) zero xs = let e : 0 - suc i ≡ 0 = omega arith in rw e
drop-take (suc i) (suc w) [] = sym (take_nil (suc w - suc i))
drop-take (suc i) (suc w) (x ∷ xs) =
    let e : suc w - suc i ≡ w - i = omega arith in rw e (drop-take i w xs)

drop-drop : (i j : ℕ) (xs : Bytes) → drop i (drop j xs) ≡ drop (j + i) xs
drop-drop i zero xs = let e : 0 + i ≡ i = omega arith in rw e
drop-drop zero (suc j) [] = let e : suc j + 0 ≡ suc j = omega arith in rw e
drop-drop (suc i) (suc j) [] = let e : suc j + suc i ≡ suc (j + suc i) = omega arith in rw e
drop-drop i (suc j) (x ∷ xs) =
    let e : suc j + i ≡ suc (j + i) = omega arith in rw e (drop-drop i j xs)

pub push_all-append :
    (max_results : ℕ) (xs ys hits : List ℕ)
    → push_all max_results hits (xs ++ ys) ≡ (
        if (push_all max_results hits xs).1
        then ((push_all max_results hits xs).0, true)
        else push_all max_results (push_all max_results hits xs).0 ys)
unfolding push_all
push_all-append max_results [] ys hits = refl
push_all-append max_results (x ∷ xs) ys hits =
    elim (Bool-cases (full max_results (hits ++ x ∷ []))) [
      | inl done ↦ rw done
      | inr more ↦ rw more (push_all-append max_results xs ys (hits ++ x ∷ []))
    ]

module _ (p : Pattern) where
  hits_from-append :
      (address : ℕ → ℕ) (buffer : Bytes) (n m k i : ℕ)
      → n + m ≡ k
      → hits_from p address buffer k i
        ≡ hits_from p address buffer n i ++ hits_from p address buffer m (i + n)
  unfolding hits_from
  hits_from-append address buffer zero m k i e =
      let a : i + 0 ≡ i = omega arith in let b : k ≡ m = omega arith in rw (a, b)
  hits_from-append address buffer (suc n) m zero i e = absurd (omega arith)
  hits_from-append address buffer (suc n) m (suc k) i e =
      let a : i + suc n ≡ i + 1 + n = omega arith in
      rw (hits_from-append address buffer n m k (i + 1) (omega arith), a)
        (elim (Bool-cases (matches_at p.bytes p.mask (drop i buffer))) [
          | inl hit ↦ rw hit
          | inr miss ↦ rw miss
        ])

  hits_from-zero :
      (address : ℕ → ℕ) (buffer : Bytes) (n i : ℕ) → n ≡ 0 → hits_from p address buffer n i ≡ []
  unfolding hits_from
  hits_from-zero address buffer n i e = rw e

  -- The positions of a window are positions of the whole.
  hits_from-window :
      (address : ℕ → ℕ) (whole : Bytes) (offset want n i : ℕ)
      → n + i + length p.bytes ≤ want + 1
      → hits_from p (λ j. address (offset + j)) (take want (drop offset whole)) n i
        ≡ hits_from p address whole n (offset + i)
  unfolding hits_from
  hits_from-window address whole offset want zero i h = refl
  hits_from-window address whole offset want (suc n) i h =
      let a : offset + i + 1 ≡ offset + (i + 1) = omega arith in
      rw (
        hits_from-window address whole offset want n (i + 1) (omega arith),
        drop-take i want (drop offset whole),
        matches_at-take p.bytes p.mask (drop i (drop offset whole)) (want - i) (omega arith),
        drop-drop i offset whole,
        a,
      )

-- The address of an offset in a range.
abbrev pub at_offset : ScanRange → ℕ → ℕ
at_offset range i = (range.base + i) % 2 ^ 64

-- Every position of the range at which the pattern matches, by address and in order.
abbrev pub range_hits : Pattern → View → ScanRange → List ℕ
range_hits p v range =
    hits_from p (at_offset range) (prefix_read v range.base range.size)
      (range.size + 1 - length p.bytes) 0

pub record IsReadable (v : View) (range : ScanRange) : Type 0 where
  pub is_address : IsU64 range.base
  pub whole : length (prefix_read v range.base range.size) ≡ range.size

module _ {S : Type 0} (src : Source S) (s : S) (p : Pattern) (max_results : ℕ) (v : View)
    (range : ScanRange) where
  module _ (shows : Shows src s v) (ok : IsPattern p) (inside : p.first_fixed < length p.bytes)
      (readable : IsReadable v range) where
    scan_range_loop :
        (f offset : ℕ) (hits : List ℕ)
        → range.size - offset ≤ f
        → scan_range src s p max_results range f offset hits
          ≡ push_all max_results hits (
              hits_from p
                (at_offset range)
                (prefix_read v range.base range.size)
                (range.size + 1 - length p.bytes - offset)
                offset)
    unfolding scan_range
    scan_range_loop zero offset hits h =
        let e : range.size + 1 - length p.bytes - offset ≡ 0 = omega arith in
        rw e (unfold hits_from push_all in refl)
    scan_range_loop (suc f) offset hits h = elim (Bool-cases (ltb offset range.size)) [
      | inr past ↦
          let e : range.size + 1 - length p.bytes - offset ≡ 0 = ground arith in
          rw (past, e) (unfold hits_from push_all in refl)
      | inl more ↦
          let n = length p.bytes in
          let want = min (chunk_size + (n - 1)) (range.size - offset) in
          let whole = prefix_read v range.base range.size in
          let buffer_is : src.read s ((range.base + offset) % 2 ^ 64) want
              ≡ take want (drop offset whole) =
            shows _ want (omega arith)
            ∙ sym (
                prefix_read-part v range.base range.size offset want readable.is_address
                  (ground (arith, readable.whole))) in
          let got : length (take want (drop offset whole)) ≡ want = ground (
            arith,
            length-take want (drop offset whole),
            length-drop offset whole,
            readable.whole,
          ) in
          rw (buffer_is, got, more)
            (elim (Bool-cases (ltb want n)) [
              | inl small ↦
                  let offset' = offset + (if want == 0 then chunk_size else want) in
                  let ih = scan_range_loop f offset' hits (ground arith) in
                  rw small (
                    ih
                    ∙ ap (push_all max_results hits) (
                        hits_from-zero p (at_offset range) whole _ offset' (ground arith)
                        ∙ sym (hits_from-zero p (at_offset range) whole _ offset (ground arith))))
              | inr large ↦
                  let limit = want - n + 1 in
                  let start : offset + 0 ≡ offset = omega arith in
                  let found =
                    push_all max_results hits (hits_from p (at_offset range) whole limit offset) in
                  let chunk : scan_chunk p max_results (λ i. at_offset range (offset + i))
                        (take want (drop offset whole)) limit limit 0 hits
                      ≡ found =
                    scan_chunk_lem p ok max_results (λ i. at_offset range (offset + i))
                      (take want (drop offset whole)) limit limit limit 0 hits (omega arith)
                      (omega arith) inside
                    ∙ ap (push_all max_results hits) (
                        hits_from-window p (at_offset range) whole offset want limit 0
                          (ground arith)
                        ∙ rw start) in
                  let ih = scan_range_loop f (offset + (want - (n - 1))) found.0 (ground arith) in
                  let m = range.size + 1 - n - (offset + (want - (n - 1))) in
                  let next : offset + limit ≡ offset + (want - (n - 1)) = ground arith in
                  let whole_is =
                    hits_from-append p (at_offset range) whole limit m (range.size + 1 - n - offset)
                      offset (ground arith) in
                  let same : ltb want want ≡ false = ground arith in
                  rw (large, chunk, same, whole_is, push_all-append max_results _ _ hits, next)
                    (elim (Bool-cases found.1) [ inl stop ↦ rw stop | inr go ↦ rw go ih ])
            ])
    ]

    pub scan_range_lem :
        (hits : List ℕ)
        → scan_range src s p max_results range range.size 0 hits
          ≡ push_all max_results hits (range_hits p v range)
    scan_range_lem hits =
        let e : range.size + 1 - length p.bytes - 0 ≡ range.size + 1 - length p.bytes =
          omega arith in
        rw e at (scan_range_loop range.size 0 hits (omega arith))
