-- ===== src/Memory/CString.antt =====
-- ReadCString of src/core/src/MemorySource.cpp: a terminated string, read in chunks.
use zircon_dumper.Prelude.{
  ℕ, zero, suc, ◌+◌, ◌-◌, ◌%◌, ◌^◌, ◌≤◌, ◌<◌, ◌≡◌, refl, sym, ◌∙◌, true, false, not, [], ◌∷◌, ◌++◌,
  append-nil, append_assoc, arith, length, length-append, min, ltb, lt→ltb, ◌==◌, if◌then◌else◌,
  Bool-cases, inl, inr,
}
use zircon_dumper.Prelude.Preds.{Bytes, IsU64}
use zircon_dumper.Memory.Source.{
  Source, View, Shows, prefix_read, prefix_read-full, prefix_read-short, length-prefix_read,
}

abbrev chunk : ℕ
chunk = 64

-- The bytes in front of the first 0 (`std::find`).
unfoldable pub before_nul : Bytes → Bytes
before_nul [] = []
before_nul (b ∷ bs) = if b == 0 then [] else b ∷ before_nul bs

module _ {S : Type 0} (src : Source S) (s : S) (addr max_len : ℕ) where
  -- Each round that goes on adds at least one byte, so `max_len` rounds are enough.
  unfoldable pub cstring_loop : ℕ → Bytes → Bytes
  cstring_loop zero out = out
  cstring_loop (suc f) out =
      let want = min chunk (max_len - length out) in
      let buffer = src.read s ((addr + length out) % 2 ^ 64) want in
      let got = length buffer in
      let text = before_nul buffer in
      let rest = cstring_loop f (out ++ text) in
      if not (ltb (length out) max_len)
      then out
      else if got == 0
      then out
      else if not (length text == got)
      then out ++ text
      else if ltb got want
      then out ++ text
      else rest

unfoldable pub read_cstring : {S : Type 0} → Source S → S → ℕ → ℕ → Bytes
unfolding cstring_loop
read_cstring src s addr max_len = cstring_loop src s addr max_len max_len []

before_nul_cut :
    (xs ys : Bytes)
    → (length (before_nul xs) == length xs) ≡ false
    → before_nul (xs ++ ys) ≡ before_nul xs
unfolding before_nul
before_nul_cut [] ys h = cc
before_nul_cut (x ∷ xs) ys h = ground (arith, before_nul_cut xs ys)

before_nul_all :
    (xs ys : Bytes)
    → (length (before_nul xs) == length xs) ≡ true
    → (before_nul xs ≡ xs) × (before_nul (xs ++ ys) ≡ xs ++ before_nul ys)
unfolding before_nul
before_nul_all [] ys h = (refl, refl)
before_nul_all (x ∷ xs) ys h = ground (arith, before_nul_all xs ys)

-- What `n` bytes from `cur` on hold in front of the first 0, by the first `want` of them.
before_nul-chunk :
    (v : View) (cur want m k : ℕ)
    → IsU64 cur
    → want + m ≡ k
    → before_nul (prefix_read v cur k) ≡ (
        let buffer = prefix_read v cur want in
        let text = before_nul buffer in
        if not (length text == length buffer)
        then text
        else if ltb (length buffer) want
        then text
        else text ++ before_nul (prefix_read v ((cur + want) % 2 ^ 64) m))
before_nul-chunk v cur want m k u e =
    let buffer = prefix_read v cur want in
    let next = prefix_read v ((cur + want) % 2 ^ 64) m in
    elim (Bool-cases (ltb (length buffer) want)) [
      | inl short ↦
          rw (prefix_read-short v cur want k (omega arith) (ground arith))
            (elim (Bool-cases (length (before_nul buffer) == length buffer)) [
              | inl all ↦ rw (all, short)
              | inr cut ↦ rw cut
            ])
      | inr long ↦
          rw (prefix_read-full v cur want m k u e (ground (arith, length-prefix_read v cur want)))
            (elim (Bool-cases (length (before_nul buffer) == length buffer)) [
              | inl all ↦
                  let (text_is, whole) = before_nul_all buffer next all in
                  rw (all, long, whole, text_is)
              | inr cut ↦ rw cut (before_nul_cut buffer next cut)
            ])
    ]

before_nul-nil : before_nul [] ≡ []
unfolding before_nul
before_nul-nil = refl

-- No byte at hand: the text is empty, and the read was short.
unread :
    (out buffer more : Bytes) (want : ℕ)
    → 0 < want
    → (length buffer == 0) ≡ true
    → out
      ≡ out
        ++ (if not (length (before_nul buffer) == length buffer)
            then before_nul buffer
            else if ltb (length buffer) want
            then before_nul buffer
            else before_nul buffer ++ more)
unfolding before_nul
unread out [] more want pos h = rw (lt→ltb 0 want pos) (sym (append-nil out))
unread out (b ∷ bs) more want pos h = absurd (ground arith)

module _ {S : Type 0} (src : Source S) (s : S) (addr max_len : ℕ) (v : View)
    (shows : Shows src s v) where
  cstring_loop_lem :
      (f : ℕ) (out : Bytes)
      → max_len - length out ≤ f
      → cstring_loop src s addr max_len f out
        ≡ out ++ before_nul (prefix_read v ((addr + length out) % 2 ^ 64) (max_len - length out))
  unfolding cstring_loop
  cstring_loop_lem zero out h =
      let e : max_len - length out ≡ 0 = omega arith in
      rw e (unfold prefix_read before_nul in sym (append-nil out))
  cstring_loop_lem (suc f) out h = elim (Bool-cases (ltb (length out) max_len)) [
    | inr full ↦
        let e : max_len - length out ≡ 0 = ground arith in
        rw (full, e) (unfold prefix_read before_nul in sym (append-nil out))
    | inl room ↦
        let cur = (addr + length out) % 2 ^ 64 in
        let left = max_len - length out in
        let want = min chunk left in
        let m = left - want in
        let buffer = prefix_read v cur want in
        let text = before_nul buffer in
        rw
          (
            shows cur want (omega arith),
            before_nul-chunk v cur want m left (omega arith) (omega arith),
          )
          (rw room (elim (Bool-cases (length buffer == 0)) [
            | inl none_read ↦ rw none_read (unread out buffer _ want (ground arith) none_read)
            | inr some_read ↦ rw some_read (elim (Bool-cases (length text == length buffer)) [
              | inr cut ↦ rw cut
              | inl all ↦ rw all (elim (Bool-cases (ltb (length buffer) want)) [
                | inl short ↦ rw short
                | inr long ↦
                    let size : length text ≡ want = ground (arith, length-prefix_read v cur want) in
                    let ih =
                      cstring_loop_lem f (out ++ text)
                        (omega (arith, length-append out text, size)) in
                    let e1 : (addr + length (out ++ text)) % 2 ^ 64 ≡ (cur + want) % 2 ^ 64 =
                      omega (arith, length-append out text, size) in
                    let e2 : max_len - length (out ++ text) ≡ m =
                      omega (arith, length-append out text, size) in
                    rw long (rw (e1, e2) at ih ∙ append_assoc out text _)
              ])
            ])
          ]))
  ]

-- ReadCString returns, with reads of at most 64 bytes, what stands in front of the first 0 within
-- the readable prefix of `max_len` bytes at `addr`.
pub read_cstring_lem :
    {S : Type 0} (src : Source S) (s : S) (v : View) (addr max_len : ℕ)
    → Shows src s v
    → IsU64 addr
    → read_cstring src s addr max_len ≡ before_nul (prefix_read v addr max_len)
unfolding read_cstring
read_cstring_lem src s v addr max_len shows u =
    let e : (addr + 0) % 2 ^ 64 ≡ addr = omega arith in
    let z : max_len - 0 ≡ max_len = omega arith in
    rw (e, z) at (cstring_loop_lem src s addr max_len v shows max_len [] (omega arith))
