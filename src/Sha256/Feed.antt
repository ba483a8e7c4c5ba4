-- ===== src/Sha256/Feed.antt =====
-- Add of src/zdex/src/Sha256.cpp against a hasher that takes one byte after another.
use zircon_dumper.Prelude.{
  ℕ, zero, suc, ◌+◌, ◌-◌, ◌%◌, ◌^◌, ◌≤◌, ◌<◌, ◌≡◌, refl, sym, ap, ◌∙◌, min, false, [], ◌∷◌, ◌++◌,
  ◌==◌, set, take, drop, length, length-append, length-take, length-drop, take-append-drop, arith,
  Bool-cases, inl, inr,
}
use zircon_dumper.Prelude.Preds.{Bytes}
use zircon_dumper.Sha256.{Hasher, write_at, settle, add_loop, add}

unfoldable pub feed_byte : Hasher → ℕ → Hasher
feed_byte x b = settle (record x { buffer = set x.buffer x.pending b; pending = x.pending + 1 })

unfoldable pub feed : Hasher → Bytes → Hasher
feed x [] = x
feed x (b ∷ bs) = feed (feed_byte x b) bs

pub feed-append : (xs ys : Bytes) (x : Hasher) → feed x (xs ++ ys) ≡ feed (feed x xs) ys
unfolding feed
feed-append [] ys x = refl
feed-append (b ∷ xs) ys x = feed-append xs ys (feed_byte x b)

settle_open : (x : Hasher) → x.pending < 64 → settle x ≡ x
unfolding settle
settle_open x lt = let e : (x.pending == 64) ≡ false = ground arith in rw e refl

-- Bytes that the buffer has room for, copied at once.
pub feed-write_at :
    (b : ℕ) (bs : Bytes) (x : Hasher)
    → x.pending + suc (length bs) ≤ 64
    → feed x (b ∷ bs)
      ≡ settle (record x {
        buffer = write_at x.buffer x.pending (b ∷ bs);
        pending = x.pending + suc (length bs);
      })
unfolding feed feed_byte write_at
feed-write_at b [] x room = refl
feed-write_at b (c ∷ bs) x room =
    let x' : Hasher = record x { buffer = set x.buffer x.pending b; pending = x.pending + 1 } in
    let next : x.pending + 1 + suc (length bs) ≡ x.pending + suc (suc (length bs)) = omega arith in
    rw (settle_open x' (omega arith)) (rw next at (feed-write_at c bs x' (omega arith)))

settle-pending : (x : Hasher) → x.pending ≤ 64 → (settle x).pending ≡ x.pending % 64
unfolding settle
settle-pending x le = elim (Bool-cases (x.pending == 64)) [
  | inl full ↦ let e : x.pending ≡ 64 = ground arith in rw full (omega arith)
  | inr room ↦ let lt : x.pending < 64 = ground arith in rw room (omega arith)
]

pub feed-pending :
    (xs : Bytes) (x : Hasher) → x.pending < 64 → (feed x xs).pending ≡ (x.pending + length xs) % 64
unfolding feed feed_byte
feed-pending [] x lt = omega arith
feed-pending (b ∷ bs) x lt =
    let x' : Hasher = record x { buffer = set x.buffer x.pending b; pending = x.pending + 1 } in
    let one = settle-pending x' (omega arith) in
    omega (arith, one, feed-pending bs (settle x') (omega arith))

settle-total : (x : Hasher) → (settle x).total ≡ x.total
unfolding settle
settle-total x = elim (Bool-cases (x.pending == 64)) [ inl e ↦ rw e refl | inr e ↦ rw e refl ]

pub feed-total : (xs : Bytes) (x : Hasher) → (feed x xs).total ≡ x.total
unfolding feed feed_byte
feed-total [] x = refl
feed-total (b ∷ bs) x = feed-total bs (feed_byte x b) ∙ settle-total _

-- The loop of Add, whatever the buffer holds: byte after byte.
add_loop-feed :
    (n : ℕ) (x : Hasher) (bytes : Bytes)
    → x.pending < 64
    → length bytes ≤ n
    → add_loop n x bytes ≡ feed x bytes
unfolding add_loop
add_loop-feed zero x [] lt le = unfold feed in refl
add_loop-feed zero x (b ∷ bs) lt le = absurd (omega arith)
add_loop-feed (suc n) x [] lt le = unfold feed in refl
add_loop-feed (suc n) x (b ∷ bs) lt le =
    let count = min (length (b ∷ bs)) (64 - x.pending) in
    let some_bytes : (length (b ∷ bs) == 0) ≡ false = ground arith in
    let before = count - 1 in
    let e : count ≡ suc before = omega arith in
    let size = length-take before bs in
    let measured : length (take before bs) ≡ before = omega arith in
    let one = feed-write_at b (take before bs) x (omega arith) in
    let one' : feed x (b ∷ take before bs)
        ≡ settle (record x {
          buffer = write_at x.buffer x.pending (b ∷ take before bs);
          pending = x.pending + suc before;
        }) =
      rw measured at one in
    let x' = feed x (b ∷ take before bs) in
    let stays = feed-pending (b ∷ take before bs) x lt in
    let left = length-drop before bs in
    rw (some_bytes, e)
      (ap (λ (y : Hasher). add_loop n y (drop before bs)) (sym one')
        ∙ add_loop-feed n x' (drop before bs) (omega arith) (omega arith)
        ∙ sym (feed-append (b ∷ take before bs) (drop before bs) x)
        ∙ ap (λ (ys : Bytes). feed x (b ∷ ys)) (take-append-drop before bs))

-- Adding to the count of bytes.
abbrev pub counted : Hasher → ℕ → Hasher
counted x n = record x { total = (x.total + n) % 2 ^ 64 }

pub add-feed :
    (x : Hasher) (bytes : Bytes)
    → x.pending < 64
    → add x bytes ≡ feed (counted x (length bytes)) bytes
unfolding add
add-feed x bytes lt = add_loop-feed (length bytes) (counted x (length bytes)) bytes lt (omega arith)

-- The count goes its own way.
feed_byte-counted :
    (b : ℕ) (x : Hasher) (n : ℕ) → feed_byte (counted x n) b ≡ counted (feed_byte x b) n
unfolding feed_byte settle
feed_byte-counted b x n = elim (Bool-cases (x.pending + 1 == 64)) [
  | inl full ↦ rw full refl
  | inr room ↦ rw room refl
]

pub feed-counted : (xs : Bytes) (x : Hasher) (n : ℕ) → feed (counted x n) xs ≡ counted (feed x xs) n
unfolding feed
feed-counted [] x n = refl
feed-counted (b ∷ bs) x n =
    ap (λ (y : Hasher). feed y bs) (feed_byte-counted b x n) ∙ feed-counted bs (feed_byte x b) n

-- Add of data in two pieces leaves the hasher, its buffer and its count included, as Add of the
-- whole does, for a hasher whose buffer is not full.
pub add-append :
    (x : Hasher) (xs ys : Bytes) → x.pending < 64 → add (add x xs) ys ≡ add x (xs ++ ys)
add-append x xs ys lt =
    let size = length-append xs ys in
    let stays = feed-pending xs (counted x (length xs)) lt in
    ap (λ (y : Hasher). add y ys) (add-feed x xs lt)
    ∙ add-feed (feed (counted x (length xs)) xs) ys (omega arith)
    ∙ ap (λ (y : Hasher). feed y ys) (sym (feed-counted xs (counted x (length xs)) (length ys)))
    ∙ sym (feed-append xs ys (counted (counted x (length xs)) (length ys)))
    ∙ ap (λ (t : ℕ). feed (record x { total = t }) (xs ++ ys)) (omega (arith, size))
    ∙ sym (add-feed x (xs ++ ys) lt)
