-- ===== src/Sha256/Digest.antt =====
-- Sha256Hex of src/zdex/src/Sha256.cpp against the digest of the whole padded message.
use zircon_dumper.Prelude.{
  ℕ, zero, suc, ◌+◌, ◌*◌, ◌/◌, ◌%◌, ◌<◌, ◌≡◌, refl, sym, ap, ◌∙◌, [], ◌∷◌, ◌++◌, append_assoc, set,
  take, drop, length, length-append, length-take, length-drop, take-append-drop, arith,
}
use zircon_dumper.Prelude.Preds.{Bytes}
use zircon_dumper.Sha256.{
  finish, Hasher, Words, new_hasher, initial_state, block, write_at, settle, hex_state, sha256_hex,
}
use zircon_dumper.Sha256.Feed.{feed, feed-append, feed-write_at, add-feed}
use zircon_dumper.Sha256.Padding.{padded, length-padded, finish-feed}

-- The blocks of a message, one after another.
unfoldable pub digest : ℕ → Words → Bytes → Words
digest zero s bytes = s
digest (suc n) s bytes = digest n (block s (take 64 bytes)) (drop 64 bytes)

set-append : (p q : Bytes) (b c : ℕ) → set (p ++ (b ∷ q)) (length p) c ≡ p ++ (c ∷ q)
set-append [] q b c = refl
set-append (x ∷ p) q b c = ap (λ ys. x ∷ ys) (set-append p q b c)

-- Writing over the rest of a buffer.
write_at-append :
    (xs p q : Bytes) → length xs ≡ length q → write_at (p ++ q) (length p) xs ≡ p ++ xs
unfolding write_at
write_at-append [] p [] e = refl
write_at-append [] p (y ∷ q) e = absurd (omega arith)
write_at-append (x ∷ xs) p [] e = absurd (omega arith)
write_at-append (x ∷ xs) p (y ∷ q) e =
    let put = set-append p q y x in
    let next : length p + 1 ≡ length (p ++ x ∷ []) = omega (arith, length-append p (x ∷ [])) in
    rw (put, next, ← append_assoc p (x ∷ []) q)
      (write_at-append xs (p ++ x ∷ []) q (omega arith) ∙ append_assoc p (x ∷ []) xs)

feed-block :
    (x : Hasher) (bytes : Bytes)
    → x.pending ≡ 0
    → length x.buffer ≡ 64
    → length bytes ≡ 64
    → feed x bytes ≡ record x { state = block x.state bytes; buffer = bytes; pending = 0 }
feed-block x [] at whole size = absurd (omega arith)
feed-block x (b ∷ bs) at whole size =
    let full = feed-write_at b bs x (omega arith) in
    let over = write_at-append (b ∷ bs) [] x.buffer (omega arith) in
    let end : x.pending + suc (length bs) ≡ 64 = omega arith in
    let same = ap (λ (i : ℕ). write_at x.buffer i (b ∷ bs)) at ∙ over in
    full
    ∙ ap
        (λ (held : Bytes).
          settle (record x { buffer = held; pending = x.pending + suc (length bs) }))
        same
    ∙ ap (λ (k : ℕ). settle (record x { buffer = b ∷ bs; pending = k })) end
    ∙ (unfold settle in refl)

-- Whole blocks, fed to a hasher with an empty buffer.
feed-digest :
    (n : ℕ) (x : Hasher) (bytes : Bytes)
    → x.pending ≡ 0
    → length x.buffer ≡ 64
    → length bytes ≡ 64 * n
    → (feed x bytes).state ≡ digest n x.state bytes
unfolding digest
feed-digest zero x [] at whole size = unfold feed in refl
feed-digest zero x (b ∷ bs) at whole size = absurd (omega arith)
feed-digest (suc n) x bytes at whole size =
    let head = take 64 bytes in
    let rest = drop 64 bytes in
    let taken = length-take 64 bytes in
    let left = length-drop 64 bytes in
    let one = feed-block x head at whole (omega arith) in
    ap (λ (ys : Bytes). (feed x ys).state) (sym (take-append-drop 64 bytes))
    ∙ ap Hasher.state (feed-append head rest x)
    ∙ ap (λ (y : Hasher). (feed y rest).state) one
    ∙ feed-digest n (record x { state = block x.state head; buffer = head; pending = 0 }) rest refl
        (omega arith) (omega arith)

-- Sha256Hex is the hexadecimal form of the digest of all the blocks of the padded message, which
-- is a whole number of blocks.
pub sha256_hex-digest :
    (bytes : Bytes)
    → (sha256_hex bytes
        ≡ hex_state (digest (length (padded bytes) / 64) initial_state (padded bytes)))
      × (length (padded bytes) % 64 ≡ 0)
unfolding sha256_hex
sha256_hex-digest bytes =
    let whole = length-padded bytes in
    let n = length (padded bytes) / 64 in
    let open_buffer : new_hasher.pending < 64 = unfold new_hasher in omega arith in
    (
      ap finish (add-feed new_hasher bytes open_buffer)
          ∙ finish-feed bytes
          ∙ ap hex_state (
              feed-digest n new_hasher (padded bytes) (unfold new_hasher in refl)
                (unfold new_hasher in refl) (omega arith)
              ∙ (unfold new_hasher in refl)),
      whole,
    )
