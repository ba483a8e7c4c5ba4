-- ===== src/Pattern/Scan/Chunk.antt =====
-- The loop over one chunk in `Scan` of src/core/src/PatternScanner.cpp against a test of every
-- position.
use zircon_dumper.Prelude.{
  ℕ, zero, suc, ◌+◌, ◌-◌, ◌≤◌, ◌<◌, ◌≡◌, ◌≢◌, refl, sym, ◌∙◌, Bool, true, false, not, ◌&&◌, ◌||◌,
  none, some, List, [], ◌∷◌, ◌++◌, arith, length, drop, get_or, get_elem?, leb, ltb, if◌then◌else◌,
  Bool-cases, Option-cases, inl, inr,
}
use zircon_dumper.Prelude.Preds.{Bytes}
use zircon_dumper.Pattern.{Pattern, matches_at}
use zircon_dumper.Pattern.Scan.{memchr, full, scan_chunk}

-- What both constructors of a pattern establish.
pub record IsPattern (p : Pattern) : Type 0 where
  pub same_length : length p.mask ≡ length p.bytes
  pub fixed : get_elem? p.mask p.first_fixed ≡ some 0xff

matches_at-fixed :
    (bs ms ds : Bytes) (k : ℕ)
    → length ms ≡ length bs
    → get_elem? ms k ≡ some 0xff
    → matches_at bs ms ds ≡ true
    → get_elem? ds k ≡ some (get_or bs k 0)
unfolding matches_at
matches_at-fixed bs [] ds k l e h = cc
matches_at-fixed [] (m ∷ ms) ds k l e h = absurd (omega (arith, l))
matches_at-fixed (b ∷ bs) (m ∷ ms) [] k l e h = cc
matches_at-fixed (b ∷ bs) (m ∷ ms) (d ∷ ds) zero l e h = ground arith
matches_at-fixed (b ∷ bs) (m ∷ ms) (d ∷ ds) (suc k) l e h =
    matches_at-fixed bs ms ds k (omega arith) e (ground arith)

memchr-none :
    (b count : ℕ) (xs : Bytes) (j : ℕ)
    → memchr b count xs ≡ none
    → j < count
    → get_elem? xs j ≢ some b
unfolding memchr
memchr-none b zero xs j h lt e = absurd (omega arith)
memchr-none b (suc count) [] j h lt e = cc
memchr-none b (suc count) (x ∷ xs) zero h lt e = ground arith
memchr-none b (suc count) (x ∷ xs) (suc j) h lt e = ground (arith, memchr-none b count xs j)

-- The first occurrence: none in front of it.
memchr-some :
    (b count : ℕ) (xs : Bytes) (k j : ℕ)
    → memchr b count xs ≡ some k
    → j < k
    → get_elem? xs j ≢ some b
unfolding memchr
memchr-some b zero xs k j h lt e = cc
memchr-some b (suc count) [] k j h lt e = cc
memchr-some b (suc count) (x ∷ xs) zero j h lt e = absurd (omega arith)
memchr-some b (suc count) (x ∷ xs) (suc k) zero h lt e = ground arith
memchr-some b (suc count) (x ∷ xs) (suc k) (suc j) h lt e =
    ground (arith, memchr-some b count xs k j)

get_elem?-drop : (xs : Bytes) (i j : ℕ) → get_elem? (drop i xs) j ≡ get_elem? xs (i + j)
get_elem?-drop xs zero j = let e : 0 + j ≡ j = omega arith in rw e
get_elem?-drop [] (suc i) j = refl
get_elem?-drop (x ∷ xs) (suc i) j =
    let e : suc i + j ≡ suc (i + j) = omega arith in rw e (get_elem?-drop xs i j)

-- Taking the hits one by one until there are `max_results`.
unfoldable pub push_all : ℕ → List ℕ → List ℕ → List ℕ × Bool
push_all max_results hits [] = (hits, false)
push_all max_results hits (h ∷ hs) =
    let hits' = hits ++ h ∷ [] in
    let rest = push_all max_results hits' hs in
    if full max_results hits' then (hits', true) else rest

module _ (p : Pattern) where
  -- The positions among `n` from `i` on where the pattern matches, by their addresses.
  unfoldable pub hits_from : (ℕ → ℕ) → Bytes → ℕ → ℕ → List ℕ
  hits_from address buffer zero i = []
  hits_from address buffer (suc n) i =
      let rest = hits_from address buffer n (i + 1) in
      if matches_at p.bytes p.mask (drop i buffer) then address i ∷ rest else rest

  -- Positions where the pattern does not match can be passed over.
  hits_from-skip :
      (address : ℕ → ℕ) (buffer : Bytes) (k m n i : ℕ)
      → k + m ≡ n
      → ((j : ℕ) → i ≤ j → j < i + k → matches_at p.bytes p.mask (drop j buffer) ≡ false)
      → hits_from address buffer n i ≡ hits_from address buffer m (i + k)
  unfolding hits_from
  hits_from-skip address buffer zero m n i e h =
      let a : i + 0 ≡ i = omega arith in let b : n ≡ m = omega arith in rw (a, b)
  hits_from-skip address buffer (suc k) m zero i e h = absurd (omega arith)
  hits_from-skip address buffer (suc k) m (suc n) i e h =
      let a : i + suc k ≡ i + 1 + k = omega arith in
      rw (h i (omega arith) (omega arith), a)
        (hits_from-skip address buffer k m n (i + 1) (omega arith)
          (λ j lo hi. h j (omega arith) (omega arith)))

  module _ (ok : IsPattern p) where
    -- No position matches where the first fixed byte does not stand.
    no_match :
        (buffer : Bytes) (j : ℕ)
        → get_elem? buffer (j + p.first_fixed) ≢ some (get_or p.bytes p.first_fixed 0)
        → matches_at p.bytes p.mask (drop j buffer) ≡ false
    no_match buffer j ne = elim (Bool-cases (matches_at p.bytes p.mask (drop j buffer))) [
      | inr miss ↦ miss
      | inl hit ↦ absurd (
          ne (
            sym (get_elem?-drop buffer j p.first_fixed)
            ∙ matches_at-fixed p.bytes p.mask (drop j buffer) p.first_fixed ok.same_length ok.fixed
                hit))
    ]

    module _ (max_results : ℕ) (address : ℕ → ℕ) (buffer : Bytes) (limit : ℕ) where
      -- What one byte at `candidate` adds, and what follows.
      push_candidate :
          (f m candidate : ℕ) (hits : List ℕ)
          → (hits' : List ℕ)
          → hits' ≡ (
              if matches_at p.bytes p.mask (drop candidate buffer)
              then hits ++ address candidate ∷ []
              else hits)
          → scan_chunk p max_results address buffer limit f (candidate + 1) hits'
            ≡ push_all max_results hits' (hits_from address buffer m (candidate + 1))
          → (if matches_at p.bytes p.mask (drop candidate buffer) && full max_results hits'
              then (hits', true)
              else scan_chunk p max_results address buffer limit f (candidate + 1) hits')
            ≡ push_all max_results hits (hits_from address buffer (suc m) candidate)
      unfolding hits_from push_all
      push_candidate f m candidate hits hits' e ih =
          elim (Bool-cases (matches_at p.bytes p.mask (drop candidate buffer))) [
            | inl hit ↦
                let e' : hits' ≡ hits ++ address candidate ∷ [] = rw hit at e in
                rw (hit, ← e')
                  (elim (Bool-cases (full max_results hits')) [
                    | inl done ↦ rw done
                    | inr more ↦ rw more ih
                  ])
            | inr miss ↦ let e' : hits' ≡ hits = rw miss at e in rw (miss, ← e') ih
          ]

      pub scan_chunk_lem :
          (f n i : ℕ) (hits : List ℕ)
          → i + n ≡ limit
          → n ≤ f
          → p.first_fixed < length p.bytes
          → scan_chunk p max_results address buffer limit f i hits
            ≡ push_all max_results hits (hits_from address buffer n i)
      unfolding scan_chunk
      scan_chunk_lem zero n i hits e le lt =
          let z : n ≡ 0 = omega arith in rw z (unfold hits_from push_all in refl)
      scan_chunk_lem (suc f) n i hits e le lt =
          let first = p.first_fixed in
          let byte = get_or p.bytes first 0 in
          let count = limit - i + length p.bytes - 1 - first in
          let found = memchr byte count (drop (i + first) buffer) in
          let absent : (j : ℕ)
              → i ≤ j
              → get_elem? (drop (i + first) buffer) (j - i) ≢ some byte
              → matches_at p.bytes p.mask (drop j buffer) ≡ false =
            λ j lo ne.
              let at_j : i + first + (j - i) ≡ j + first = omega arith in
              no_match buffer j
                (λ here. ne (get_elem?-drop buffer (i + first) (j - i) ∙ rw at_j here)) in
          elim (Option-cases found) [
            | inl gone ↦
                rw (gone, scan_chunk)
                  (rw
                    (hits_from-skip address buffer n 0 n i (omega arith) (λ j lo hi.
                      absent j lo (memchr-none byte count _ (j - i) gone (omega arith))))
                    (unfold hits_from push_all in refl))
            | inr (k, there) ↦
                let passed : (j : ℕ)
                    → i ≤ j
                    → j < i + k
                    → matches_at p.bytes p.mask (drop j buffer) ≡ false =
                  λ j lo hi. absent j lo (memchr-some byte count _ k (j - i) there (omega arith)) in
                rw (there, scan_chunk)
                  (elim (Bool-cases (not (ltb i limit) || leb limit (i + k))) [
                    | inl past ↦ rw past (
                        rw
                          (hits_from-skip address buffer n 0 n i (omega arith)
                            (λ j lo hi. passed j lo (ground arith)))
                          (unfold hits_from push_all in refl))
                    | inr within ↦
                        let m = n - k - 1 in
                        let hits' =
                          if matches_at p.bytes p.mask (drop (i + k) buffer)
                          then hits ++ address (i + k) ∷ []
                          else hits in
                        let ih =
                          scan_chunk_lem f m (i + k + 1) hits' (ground arith) (ground arith) lt in
                        rw within (
                          rw (hits_from-skip address buffer k (suc m) n i (ground arith) passed)
                            (push_candidate f m (i + k) hits hits' refl ih))
                  ])
          ]
