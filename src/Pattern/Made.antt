-- ===== src/Pattern/Made.antt =====
-- What `Pattern::Parse` of src/core/src/PatternScanner.cpp establishes of the patterns that it makes.
use Prim.Native.Nat.{bit_or}
use zircon_dumper.Prelude.{
  ℕ, ◌*◌, ◌<◌, ◌≡◌, ◌≢◌, refl, some, [], ◌∷◌, ◌++◌, arith, length, get_elem?, ltb, ◌==◌, ==_iff,
  if◌then◌else◌, Bool-cases, Option-cases, inl, inr,
}
use zircon_dumper.Prelude.Preds.{Bytes, IsByte}
use zircon_dumper.Prelude.Table.{every, every_at, bounded}
use zircon_dumper.Prelude.Result.{Result, ok, err, >>=-ok}
use zircon_dumper.Pattern.{
  Pattern, PatternError, empty_pattern, parse, parse_loop, hex_byte, hex_nibble, find_index,
  is_space, finish,
}
use zircon_dumper.Pattern.Text.{IsMasked, nil, fixed, wild, IsMasked-length, IsParsed}
use zircon_dumper.Pattern.Scan.Chunk.{IsPattern}

hex_nibble-lt : (c d : ℕ) → hex_nibble c ≡ some d → d < 16
unfolding hex_nibble
hex_nibble-lt c d h = ground arith

-- Joining two digits, at every pair of them.
bit_or-lt : (h l : ℕ) → h < 16 → l < 16 → bit_or (h * 16) l < 256
unfolding every
bit_or-lt h l hh hl =
    bounded (λ y. bit_or (h * 16) y) 256 16 l hl
      (every_at (λ x. every (λ y. ltb (bit_or (x * 16) y) 256) 16) 16 h hh refl)

hex_byte-IsByte : (c d b : ℕ) → hex_byte c d ≡ ok b → IsByte b
unfolding hex_byte
hex_byte-IsByte c d b h = elim (Option-cases (hex_nibble c)) [
  | inl bad ↦ ground (arith, bad)
  | inr (hi, e) ↦ elim (Option-cases (hex_nibble d)) [
    | inl bad ↦ ground (arith, e, bad)
    | inr (lo, f) ↦
        let low = bit_or-lt hi lo (hex_nibble-lt c hi e) (hex_nibble-lt d lo f) in
        ground (arith, e, f, low)
  ]
]

IsMasked-append :
    {bs ms : Bytes} (b m : ℕ)
    → IsMasked bs ms
    → IsMasked (b ∷ []) (m ∷ [])
    → IsMasked (bs ++ b ∷ []) (ms ++ m ∷ [])
IsMasked-append b m nil h = h
IsMasked-append b m (fixed x e t) h = fixed x e (IsMasked-append b m t h)
IsMasked-append b m (wild x e t) h = wild x e (IsMasked-append b m t h)

same_pair :
    (a b c d : Bytes)
    → IsMasked a b
    → ◌≡◌ {A = Result PatternError (Bytes × Bytes)} (ok (a, b)) (ok (c, d))
    → IsMasked c d
same_pair a b c d w h = let p : a ≡ c = cc in let q : b ≡ d = cc in rw (← p, ← q) w

parse_loop-IsMasked :
    (text bytes mask bs ms : Bytes)
    → IsMasked bytes mask
    → parse_loop bytes mask text ≡ ok (bs, ms)
    → IsMasked bs ms
unfolding parse_loop
parse_loop-IsMasked [] bytes mask bs ms w h = same_pair bytes mask bs ms w h
parse_loop-IsMasked (c ∷ []) bytes mask bs ms w h = elim (Bool-cases (is_space c)) [
  | inl space ↦ same_pair bytes mask bs ms w (rw space at h)
  | inr text ↦ elim (Bool-cases (c == b'?')) [
    | inl any ↦
        same_pair (bytes ++ 0 ∷ []) (mask ++ 0 ∷ []) bs ms
          (IsMasked-append 0 0 w (wild refl refl nil)) (rw (text, any) at h)
    | inr exact ↦ ground (arith, text, exact)
  ]
]
parse_loop-IsMasked (c ∷ d ∷ rest) bytes mask bs ms w h = elim (Bool-cases (is_space c)) [
  | inl space ↦ parse_loop-IsMasked (d ∷ rest) bytes mask bs ms w (rw space at h)
  | inr text ↦ elim (Bool-cases (c == b'?')) [
    | inl any ↦ elim (Bool-cases (d == b'?')) [
      | inl two ↦
          parse_loop-IsMasked rest (bytes ++ 0 ∷ []) (mask ++ 0 ∷ []) bs ms
            (IsMasked-append 0 0 w (wild refl refl nil)) (rw (text, any, two) at h)
      | inr one ↦
          parse_loop-IsMasked (d ∷ rest) (bytes ++ 0 ∷ []) (mask ++ 0 ∷ []) bs ms
            (IsMasked-append 0 0 w (wild refl refl nil)) (rw (text, any, one) at h)
    ]
    | inr exact ↦
        let (b, e, next) =
          >>=-ok (λ b. parse_loop (bytes ++ b ∷ []) (mask ++ 0xff ∷ []) rest) (hex_byte c d)
            (rw (text, exact) at h) in
        parse_loop-IsMasked rest (bytes ++ b ∷ []) (mask ++ 0xff ∷ []) bs ms
          (IsMasked-append b 0xff w (fixed (hex_byte-IsByte c d b e) refl nil)) next
  ]
]

finish-IsParsed :
    (bytes mask : Bytes) (p : Pattern) → IsMasked bytes mask → finish bytes mask ≡ ok p → IsParsed p
unfolding finish
finish-IsParsed bytes mask p w h = elim (Bool-cases (find_index 0xff mask == length mask)) [
  | inl none_fixed ↦ cc (rw none_fixed at h)
  | inr good ↦
      let made : record { bytes = bytes; mask = mask; first_fixed = find_index 0xff mask } ≡ p =
        cc (rw good at h) in
      rw (← made) record {
        masked = w;
        first_is = refl;
        some_fixed = λ e. cc ((==_iff (find_index 0xff mask) (length mask)).1 e);
      }
]

-- Whatever text Parse accepts, the pattern has one mask byte for each byte, each a fixed byte below
-- 256 or a wildcard stored as 0, at least one fixed byte, and the index of the first one.
pub parse-IsParsed : (text : Bytes) {p : Pattern} → parse text ≡ ok p → IsParsed p
unfolding parse
parse-IsParsed text {p} h =
    let ((bytes, mask), e, rest) =
      >>=-ok (λ (bytes, mask). if length bytes == 0 then err empty_pattern else finish bytes mask)
        (parse_loop [] [] text) h in
    let w = parse_loop-IsMasked text [] [] bytes mask nil e in
    elim (Bool-cases (length bytes == 0)) [
      | inl empty ↦ cc (rw empty at rest)
      | inr good ↦ finish-IsParsed bytes mask p w (rw good at rest)
    ]

find_index-lt :
    (b : ℕ) (xs : Bytes)
    → find_index b xs ≢ length xs
    → (find_index b xs < length xs) × (get_elem? xs (find_index b xs) ≡ some b)
unfolding find_index
find_index-lt b [] h = absurd (h refl)
find_index-lt b (x ∷ xs) h = ground (arith, find_index-lt b xs)

-- So the scanner can rely on it.
pub IsParsed-IsPattern : (p : Pattern) → IsParsed p → IsPattern p × (p.first_fixed < length p.bytes)
IsParsed-IsPattern p h =
    let (lt, at_first) = find_index-lt 0xff p.mask h.some_fixed in
    (
      record { same_length = IsMasked-length h.masked; fixed = rw h.first_is at_first },
      omega (arith, lt, h.first_is, IsMasked-length h.masked),
    )
