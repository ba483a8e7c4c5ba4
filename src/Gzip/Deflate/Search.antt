-- ===== src/Gzip/Deflate/Search.antt =====
-- The match search of DeflateBlock of src/zdex/src/Gzip.cpp: what it finds is a repeat.
use zircon_dumper.Prelude.{
  ℕ, zero, suc, ◌+◌, ◌-◌, ◌≤◌, ◌<◌, ◌≡◌, ◌⊎◌, refl, min, not, ◌&&◌, ◌||◌, Option, none, some, leb,
  ltb, ◌==◌, length, arith, Bool-cases, inl, inr,
}
use zircon_dumper.Prelude.Preds.{Bytes}
use zircon_dumper.Gzip.Deflate.{
  Chains, byte_at, match_loop, match_len, search_chain, best_match, hash3,
}

module _ (past : ℕ) (bytes : Bytes) where
  -- The next `len` bytes stand `dist` bytes before as well.
  pub record IsMatch (pos len dist : ℕ) : Type 0 where
    pub dist_pos : 1 ≤ dist
    pub dist_window : dist ≤ 32768
    pub dist_back : dist ≤ pos
    pub len_max : len ≤ 258
    pub len_inside : len ≤ length bytes - pos
    pub same :
        (i : ℕ) → i < len → byte_at past bytes (pos - dist + i) ≡ byte_at past bytes (pos + i)

  match_loop_lem :
      (f candidate pos len : ℕ)
      → ((i : ℕ) → i < len → byte_at past bytes (candidate + i) ≡ byte_at past bytes (pos + i))
      → (match_loop past bytes f candidate pos len ≤ len + f)
        × ((i : ℕ)
            → i < match_loop past bytes f candidate pos len
            → byte_at past bytes (candidate + i) ≡ byte_at past bytes (pos + i))
  unfolding match_loop
  match_loop_lem zero candidate pos len same = (omega arith, same)
  match_loop_lem (suc f) candidate pos len same =
      elim (Bool-cases (byte_at past bytes (candidate + len) == byte_at past bytes (pos + len))) [
        | inl equal ↦
            let here : byte_at past bytes (candidate + len) ≡ byte_at past bytes (pos + len) =
              ground arith in
            let (le, all) = match_loop_lem f candidate pos (len + 1) (λ i lt.
              elim (Bool-cases (i == len)) [
                | inl last ↦ let e : i ≡ len = ground arith in rw e here
                | inr earlier ↦ same i (ground arith)
              ]) in
            rw equal (omega arith, all)
        | inr differs ↦ rw differs (omega arith, same)
      ]

  -- Nothing, or a match.
  abbrev pub Found : ℕ → ℕ × ℕ → Type 0
  Found pos found = (found.0 ≡ 0) ⊎ IsMatch pos found.0 found.1

  match_len-IsMatch :
      (candidate pos : ℕ)
      → 0 < pos - candidate
      → pos - candidate ≤ 32768
      → IsMatch pos (match_len past bytes candidate pos) (pos - candidate)
  unfolding match_len
  match_len-IsMatch candidate pos near far =
      let limit = min 258 (length bytes - pos) in
      let (le, all) = match_loop_lem limit candidate pos 0 (λ i lt. absurd (omega arith)) in
      let back : pos - (pos - candidate) ≡ candidate = omega arith in
      record {
        dist_pos = omega arith;
        dist_window = far;
        dist_back = omega arith;
        len_max = omega arith;
        len_inside = omega arith;
        same = rw back all;
      }

  search_chain-Found :
      (f : ℕ) (prev : ℕ → Option ℕ) (pos : ℕ) (candidate : Option ℕ) (best_len best_dist : ℕ)
      → Found pos (best_len, best_dist)
      → Found pos (search_chain past bytes f prev pos candidate best_len best_dist)
  unfolding search_chain
  search_chain-Found zero prev pos candidate best_len best_dist found = found
  search_chain-Found (suc f) prev pos none best_len best_dist found = found
  search_chain-Found (suc f) prev pos (some candidate) best_len best_dist found =
      let dist = pos - candidate in
      let len = match_len past bytes candidate pos in
      let kept = search_chain-Found f prev pos (prev candidate) best_len best_dist found in
      elim (Bool-cases (dist == 0 || ltb 32768 dist)) [
        | inl out ↦ rw out found
        | inr inside ↦
            let found_here = match_len-IsMatch candidate pos (ground arith) (ground arith) in
            let better = search_chain-Found f prev pos (prev candidate) len dist (inr found_here) in
            elim (Bool-cases (
              ltb 0 best_len
              && not (
                  byte_at past bytes (candidate + best_len)
                  == byte_at past bytes (pos + best_len)))) [
                    | inl rejected ↦ rw (inside, rejected) kept
                    | inr compared ↦ elim (Bool-cases (ltb best_len len)) [
                      | inl longer ↦ elim (Bool-cases (leb 258 len)) [
                        | inl longest ↦ rw (inside, compared, longer, longest) (inr found_here)
                        | inr short ↦ rw (inside, compared, longer, short) better
                      ]
                      | inr shorter ↦ rw (inside, compared, shorter) kept
                    ]
                  ]
      ]

  -- The search finds nothing, or a match at the position.
  pub best_match-Found : (chains : Chains) (pos : ℕ) → Found pos (best_match past bytes chains pos)
  unfolding best_match
  best_match-Found chains pos = elim (Bool-cases (leb (pos + 3) (length bytes))) [
    | inl room ↦
        rw room (
          search_chain-Found 128 chains.prev pos (chains.head (hash3 past bytes pos)) 0 0
            (inl refl))
    | inr full ↦ rw full (inl refl)
  ]
