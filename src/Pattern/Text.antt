-- ===== src/Pattern/Text.antt =====
-- `Parse` of src/core/src/PatternScanner.cpp on what `ToString` writes for a pattern that Parse made.
use Prim.Native.Nat.{bit_or}
use zircon_dumper.Prelude.{
  ℕ, suc, ◌*◌, ◌/◌, ◌%◌, ◌<◌, ◌≡◌, ◌≢◌, refl, ap, ◌∙◌, Bool, true, false, some, [], ◌∷◌, ◌++◌,
  arith, length, ◌==◌, ==_iff, if◌then◌else◌, Bool-cases, inl, inr, ◌⊎◌, append_assoc, append-nil,
}
use zircon_dumper.Prelude.Preds.{Bytes, IsByte}
use zircon_dumper.Prelude.Table.{every, agree}
use zircon_dumper.Prelude.Result.{ok}
use zircon_dumper.Pattern.{
  Pattern, parse, parse_loop, to_string, text_loop, piece, hex_digit, hex_byte, hex_nibble,
  find_index, is_space, finish,
}

-- Each byte is fixed, or a wildcard, which Parse stores as 0. FromBytesAndMask keeps the byte under a
-- wildcard, so its patterns need not be of this form.
pub data IsMasked : Bytes → Bytes → Type 0 where
  nil : IsMasked [] []
  fixed :
      {b m : ℕ} {bs ms : Bytes} → IsByte b → m ≡ 0xff → IsMasked bs ms → IsMasked (b ∷ bs) (m ∷ ms)
  wild : {b m : ℕ} {bs ms : Bytes} → b ≡ 0 → m ≡ 0 → IsMasked bs ms → IsMasked (b ∷ bs) (m ∷ ms)

-- A pattern as Parse makes them: not only wildcards, and `first_fixed` is the first byte that is none.
pub record IsParsed (p : Pattern) : Type 0 where
  pub masked : IsMasked p.bytes p.mask
  pub first_is : p.first_fixed ≡ find_index 0xff p.mask
  pub some_fixed : find_index 0xff p.mask ≢ length p.mask

hex_digit_facts :
    (d : ℕ)
    → d < 16
    → (hex_nibble (hex_digit d) ≡ some d)
      × (is_space (hex_digit d) ≡ false)
      × ((hex_digit d == b'?') ≡ false)
unfolding hex_nibble hex_digit
hex_digit_facts d h = ground arith

bit_or_digits : (b : ℕ) → b < 256 → bit_or (b / 16 * 16) (b % 16) ≡ b
unfolding every
bit_or_digits b h = agree (λ y. bit_or (y / 16 * 16) (y % 16)) (λ y. y) 256 b h refl

hex_byte-digits : (b : ℕ) → b < 256 → hex_byte (hex_digit (b / 16)) (hex_digit (b % 16)) ≡ ok b
unfolding hex_byte
hex_byte-digits b h =
    let hi = hex_digit_facts (b / 16) (omega arith) in
    let lo = hex_digit_facts (b % 16) (omega arith) in ground (arith, hi.0, lo.0, bit_or_digits b h)

parse_loop_fixed :
    (bytes mask rest : Bytes) (b : ℕ)
    → b < 256
    → parse_loop bytes mask (hex_digit (b / 16) ∷ hex_digit (b % 16) ∷ rest)
      ≡ parse_loop (bytes ++ b ∷ []) (mask ++ 0xff ∷ []) rest
unfolding parse_loop
parse_loop_fixed bytes mask rest b h =
    let hi = hex_digit_facts (b / 16) (omega arith) in rw (hi.1, hi.2, hex_byte-digits b h)

parse_loop_wild :
    (bytes mask rest : Bytes)
    → parse_loop bytes mask (b'?' ∷ b'?' ∷ rest)
      ≡ parse_loop (bytes ++ 0 ∷ []) (mask ++ 0 ∷ []) rest
unfolding parse_loop
parse_loop_wild bytes mask rest = refl

-- A space in front of more text is skipped.
parse_loop_space :
    (bytes mask rest : Bytes) (d : ℕ)
    → parse_loop bytes mask (32 ∷ d ∷ rest) ≡ parse_loop bytes mask (d ∷ rest)
unfolding parse_loop
parse_loop_space bytes mask rest d = refl

module _ (bytes mask : Bytes) where
  parse_piece :
      (b m : ℕ) (rest : Bytes)
      → (IsByte b × (m ≡ 0xff)) ⊎ ((b ≡ 0) × (m ≡ 0))
      → parse_loop bytes mask (piece b m ++ rest)
        ≡ parse_loop (bytes ++ b ∷ []) (mask ++ m ∷ []) rest
  unfolding piece
  parse_piece b m rest (inl (h, e)) = rw e (parse_loop_fixed bytes mask rest b h)
  parse_piece b m rest (inr (z, e)) = rw (z, e) (parse_loop_wild bytes mask rest)

  parse_spaced :
      (b m : ℕ) (rest : Bytes)
      → parse_loop bytes mask (32 ∷ (piece b m ++ rest)) ≡ parse_loop bytes mask (piece b m ++ rest)
  unfolding piece
  parse_spaced b m rest = elim (Bool-cases (m == 0)) [
    | inl any ↦ rw any (parse_loop_space bytes mask _ _)
    | inr exact ↦ rw exact (parse_loop_space bytes mask _ _)
  ]

  parse_item :
      (first : Bool) (b m : ℕ) (rest : Bytes)
      → (IsByte b × (m ≡ 0xff)) ⊎ ((b ≡ 0) × (m ≡ 0))
      → parse_loop bytes mask ((if first then [] else 32 ∷ []) ++ (piece b m ++ rest))
        ≡ parse_loop (bytes ++ b ∷ []) (mask ++ m ∷ []) rest
  parse_item true b m rest h = parse_piece b m rest h
  parse_item false b m rest h = parse_spaced b m rest ∙ parse_piece b m rest h

parse_loop-nil : (bytes mask : Bytes) → parse_loop bytes mask [] ≡ ok (bytes, mask)
unfolding parse_loop
parse_loop-nil bytes mask = refl

parse_loop-text_loop :
    (first : Bool) {bs ms : Bytes} (bytes mask : Bytes)
    → IsMasked bs ms
    → parse_loop bytes mask (text_loop first bs ms) ≡ ok (bytes ++ bs, mask ++ ms)
unfolding text_loop
parse_loop-text_loop first bytes mask nil = simp append-nil (parse_loop-nil bytes mask)
parse_loop-text_loop first bytes mask (fixed {b} {m} {bs} {ms} h e t) =
    parse_item bytes mask first b m (text_loop false bs ms) (inl (h, e))
    ∙ parse_loop-text_loop false (bytes ++ b ∷ []) (mask ++ m ∷ []) t
    ∙ simp append_assoc
parse_loop-text_loop first bytes mask (wild {b} {m} {bs} {ms} h e t) =
    parse_item bytes mask first b m (text_loop false bs ms) (inr (h, e))
    ∙ parse_loop-text_loop false (bytes ++ b ∷ []) (mask ++ m ∷ []) t
    ∙ simp append_assoc

finish_lem : (p : Pattern) → IsParsed p → finish p.bytes p.mask ≡ ok p
unfolding finish
finish_lem p h = elim (Bool-cases (find_index 0xff p.mask == length p.mask)) [
  | inl none_fixed ↦ absurd (h.some_fixed ((==_iff _ _).0 none_fixed))
  | inr good ↦ rw (good, ← h.first_is)
]

pub IsMasked-length : {bs ms : Bytes} → IsMasked bs ms → length ms ≡ length bs
IsMasked-length nil = refl
IsMasked-length (fixed h e t) = ap suc (IsMasked-length t)
IsMasked-length (wild h e t) = ap suc (IsMasked-length t)

parse-to_string_bytes : (p : Pattern) → IsParsed p → (length p.bytes == 0) ≡ false
parse-to_string_bytes p h = elim (Bool-cases (length p.bytes == 0)) [
  | inr some_bytes ↦ some_bytes
  | inl empty ↦ absurd (h.some_fixed (no_mask p.mask (ground (arith, IsMasked-length h.masked))))
]
  where
    no_mask : (ms : Bytes) → length ms ≡ 0 → find_index 0xff ms ≡ length ms
    no_mask [] e = unfold find_index in refl
    no_mask (m ∷ ms) e = absurd (omega arith)

-- What ToString writes for a pattern of the form that Parse makes, Parse reads back as the same
-- pattern: bytes, wildcards and the index of the first fixed byte. The form asks for bytes below 256,
-- a 0 under each wildcard, at least one fixed byte, and the index of the first one.
pub parse-to_string : (p : Pattern) → IsParsed p → parse (to_string p) ≡ ok p
unfolding parse to_string
parse-to_string p h =
    rw (parse_loop-text_loop true [] [] h.masked) (rw (parse-to_string_bytes p h) (finish_lem p h))
