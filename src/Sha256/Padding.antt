-- ===== src/Sha256/Padding.antt =====
-- Finish and Sha256Hex of src/zdex/src/Sha256.cpp against the padding of the whole message.
use zircon_dumper.Prelude.{
  ℕ, zero, suc, ◌+◌, ◌-◌, ◌*◌, ◌%◌, ◌^◌, ◌≤◌, ◌<◌, ◌≡◌, ◌≢◌, refl, sym, ap, ◌∙◌, List, [], ◌∷◌,
  ◌++◌, ◌==◌, if◌then◌else◌, replicate, length, length-append, length-replicate, arith, Bool-cases,
  inl, inr,
}
use zircon_dumper.Prelude.Preds.{Bytes}
use zircon_dumper.Sha256.{
  Hasher, new_hasher, add_loop, add, add_padding, zero_loop, length_bytes, hex_state, finish,
  sha256_hex, add_chunks, sha256_file,
}
use zircon_dumper.Sha256.Feed.{
  feed, feed-append, feed-pending, feed-total, counted, add-feed, feed-counted, add-append,
}

-- A message with a 1 digit, zeros up to 56 bytes modulo 64, and its length in digits.
unfoldable pub padded : Bytes → Bytes
padded bytes =
    bytes
    ++ (128
        ∷ (replicate ((119 - length bytes % 64) % 64) 0
            ++ length_bytes (length bytes * 8 % 2 ^ 64) 8))

-- The count is below 2 ^ 64.
add_padding-feed :
    (x : Hasher) (b : ℕ)
    → x.pending < 64
    → x.total < 2 ^ 64
    → add_padding x (b ∷ []) ≡ feed x (b ∷ [])
unfolding add_padding
add_padding-feed x b lt small =
    let y = feed x (b ∷ []) in
    let fed = add-feed x (b ∷ []) lt ∙ feed-counted (b ∷ []) x 1 in
    let same = feed-total (b ∷ []) x in
    let back : ((y.total + 1) % 2 ^ 64 + 2 ^ 64 - 1) % 2 ^ 64 ≡ y.total = omega arith in
    ap (λ (h : Hasher). record h { total = (h.total + 2 ^ 64 - 1) % 2 ^ 64 }) fed
    ∙ ap (λ (t : ℕ). record y { total = t }) back

-- The loop over the zeros.
zero_loop-feed :
    (n : ℕ) (x : Hasher)
    → x.pending < 64
    → x.total < 2 ^ 64
    → (120 - x.pending) % 64 ≤ n
    → zero_loop n x ≡ feed x (replicate ((120 - x.pending) % 64) 0)
unfolding zero_loop
zero_loop-feed zero x lt small le =
    let none_left : (120 - x.pending) % 64 ≡ 0 = omega arith in rw none_left (unfold feed in refl)
zero_loop-feed (suc n) x lt small le = elim (Bool-cases (x.pending == 56)) [
  | inl done ↦
      let at : x.pending ≡ 56 = ground arith in
      let none_left : (120 - x.pending) % 64 ≡ 0 = omega arith in
      rw (done, none_left) (unfold feed in refl)
  | inr more ↦
      let off : x.pending ≢ 56 = ground arith in
      let y = feed x (0 ∷ []) in
      let fed = add_padding-feed x 0 lt small in
      let stays = feed-pending (0 ∷ []) x lt in
      let same = feed-total (0 ∷ []) x in
      let one : (120 - x.pending) % 64 ≡ suc ((120 - y.pending) % 64) = omega arith in
      rw (more, one)
        (ap (zero_loop n) fed
          ∙ zero_loop-feed n y (omega arith) (omega arith) (omega arith)
          ∙ sym (feed-append (0 ∷ []) (replicate ((120 - y.pending) % 64) 0) x))
]

length-length_bytes : (bits n : ℕ) → length (length_bytes bits n) ≡ n
unfolding length_bytes
length-length_bytes bits zero = refl
length-length_bytes bits (suc n) = ap suc (length-length_bytes bits n)

-- Finish after a message, the count being its length.
pub finish-feed :
    (bytes : Bytes)
    → finish (feed (counted new_hasher (length bytes)) bytes)
      ≡ hex_state (feed new_hasher (padded bytes)).state
unfolding finish
finish-feed bytes =
    let n = length bytes in
    let start = counted new_hasher n in
    let open_buffer : start.pending < 64 = unfold new_hasher in omega arith in
    let x = feed start bytes in
    let x_pending : x.pending ≡ n % 64 =
      feed-pending bytes start open_buffer ∙ (unfold new_hasher in omega arith) in
    let x_total : x.total ≡ n % 2 ^ 64 =
      feed-total bytes start ∙ (unfold new_hasher in omega arith) in
    let y = feed x (128 ∷ []) in
    let y_fed = add_padding-feed x 128 (omega arith) (omega arith) in
    let y_pending = feed-pending (128 ∷ []) x (omega arith) in
    let y_total = feed-total (128 ∷ []) x in
    let zeros = replicate ((120 - y.pending) % 64) 0 in
    let z = feed y zeros in
    let z_fed = zero_loop-feed 64 y (omega arith) (omega arith) (omega arith) in
    let z_pending = feed-pending zeros y (omega arith) in
    let tail = length_bytes (n * 8 % 2 ^ 64) 8 in
    let bits_same : x.total * 8 % 2 ^ 64 ≡ n * 8 % 2 ^ 64 = omega arith in
    let zeros_same : (120 - y.pending) % 64 ≡ (119 - n % 64) % 64 = omega arith in
    let end = add-feed z tail (omega arith) ∙ feed-counted tail z (length tail) in
    let joined : feed z tail ≡ feed start (bytes ++ (128 ∷ (zeros ++ tail))) = sym (
      feed-append bytes (128 ∷ (zeros ++ tail)) start
      ∙ feed-append (128 ∷ []) (zeros ++ tail) x
      ∙ feed-append zeros tail y) in
    let whole : feed start (bytes ++ (128 ∷ (zeros ++ tail)))
        ≡ counted (feed new_hasher (padded bytes)) n =
      ap (λ (k : ℕ). feed start (bytes ++ (128 ∷ (replicate k 0 ++ tail)))) zeros_same
      ∙ (unfold padded in feed-counted (padded bytes) new_hasher n) in
    ap
      (λ (t : ℕ).
        hex_state (add (zero_loop 64 (add_padding x (128 ∷ []))) (length_bytes t 8)).state)
      bits_same
    ∙ ap (λ (h : Hasher). hex_state (add (zero_loop 64 h) tail).state) y_fed
    ∙ ap (λ (h : Hasher). hex_state (add h tail).state) z_fed
    ∙ ap (λ (h : Hasher). hex_state h.state) end
    ∙ ap (λ (h : Hasher). hex_state h.state) (joined ∙ whole)

-- The bytes of a file, by what each read of it gives, up to the first empty read.
unfoldable pub contents : List Bytes → Bytes
contents [] = []
contents (chunk ∷ chunks) =
    let rest = contents chunks in if length chunk == 0 then [] else chunk ++ rest

add-nil : (x : Hasher) → x.total < 2 ^ 64 → x ≡ add x []
unfolding add add_loop
add-nil x small =
    let same : x.total ≡ (x.total + 0) % 2 ^ 64 = omega arith in
    ap (λ (t : ℕ). record x { total = t }) same

add_chunks-add :
    (x : Hasher) (chunks : List Bytes)
    → x.pending < 64
    → x.total < 2 ^ 64
    → add_chunks x chunks ≡ add x (contents chunks)
unfolding add_chunks contents
add_chunks-add x [] lt small = add-nil x small
add_chunks-add x (chunk ∷ chunks) lt small = elim (Bool-cases (length chunk == 0)) [
  | inl empty ↦ rw empty (add-nil x small)
  | inr more ↦
      let fed = add-feed x chunk lt in
      let stays = ap Hasher.pending fed ∙ feed-pending chunk (counted x (length chunk)) lt in
      let total = ap Hasher.total fed ∙ feed-total chunk (counted x (length chunk)) in
      rw more (
        add_chunks-add (add x chunk) chunks (omega arith) (omega arith)
        ∙ add-append x chunk (contents chunks) lt)
]

-- Sha256File over the pieces that the reads of a file give is Sha256Hex over what the file holds
-- in front of the first empty read.
pub sha256_file-sha256_hex :
    (chunks : List Bytes) → sha256_file chunks ≡ sha256_hex (contents chunks)
unfolding sha256_file sha256_hex
sha256_file-sha256_hex chunks = ap finish (
    add_chunks-add new_hasher chunks (unfold new_hasher in omega arith)
      (unfold new_hasher in omega arith))

-- Every message has a whole number of blocks when it is padded.
pub length-padded : (bytes : Bytes) → length (padded bytes) % 64 ≡ 0
unfolding padded
length-padded bytes =
    let n = length bytes in
    let zeros : Bytes = replicate ((119 - n % 64) % 64) 0 in
    let tail = length_bytes (n * 8 % 2 ^ 64) 8 in
    let run : length zeros ≡ (119 - n % 64) % 64 = length-replicate ((119 - n % 64) % 64) 0 in
    omega (
      arith,
      length-append bytes (128 ∷ (zeros ++ tail)),
      length-append zeros tail,
      length-length_bytes (n * 8 % 2 ^ 64) 8,
    )
