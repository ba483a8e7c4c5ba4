-- ===== src/Json/Escape.antt =====
-- JsonEscape of src/zdex/src/Json.cpp, and Reader::String over what it writes.
use Prim.Native.Nat.{bit_or}
use zircon_dumper.Prelude.{
  ℕ, zero, suc, ◌+◌, ◌-◌, ◌*◌, ◌/◌, ◌%◌, ◌^◌, ◌≤◌, ◌<◌, ◌≡◌, refl, sym, ap, ◌∙◌, true, false,
  Option, some, [], ◌∷◌, ◌++◌, append_assoc, append-nil, leb, ltb, ◌==◌, if◌then◌else◌, length,
  length-append, arith, Bool-cases, inl, inr,
}
use zircon_dumper.Prelude.Preds.{Bytes}
use zircon_dumper.Prelude.Table.{every, agree}
use zircon_dumper.Json.{
  Parsed, parsed, exhausted, hex_value, hex_loop, join_surrogates, utf8, after_code, unicode,
  escape, one_char, string_loop, parse_string,
}

abbrev pub hex_char : ℕ → ℕ
hex_char v = if ltb v 10 then b'0' + v else b'a' + (v - 10)

-- What JsonEscape writes for a byte.
unfoldable pub escape_char : ℕ → Bytes
escape_char c =
    if c == 34
    then 92 ∷ 34 ∷ []
    else if c == 92
    then 92 ∷ 92 ∷ []
    else if c == 10
    then 92 ∷ b'n' ∷ []
    else if c == 13
    then 92 ∷ b'r' ∷ []
    else if c == 9
    then 92 ∷ b't' ∷ []
    else if ltb c 32
    then 92 ∷ b'u' ∷ b'0' ∷ b'0' ∷ hex_char (c / 2 ^ 4 % 16) ∷ hex_char (c % 16) ∷ []
    else c ∷ []

unfoldable pub json_escape : Bytes → Bytes
json_escape [] = []
json_escape (c ∷ cs) = escape_char c ++ json_escape cs

-- What one_char reads from several bytes.
abbrev first_char : Bytes → Parsed (Option Bytes)
first_char [] = exhausted
first_char (c ∷ cs) = one_char c cs

hex_value-hex_char : (v : ℕ) → v < 16 → hex_value (hex_char v) ≡ some v
unfolding hex_value
hex_value-hex_char v lt = ground arith

joined_digits : (c : ℕ) → c < 32 → bit_or (bit_or 0 (c / 2 ^ 4 % 16) * 16) (c % 16) ≡ c
joined_digits c lt =
    agree (λ k. bit_or (bit_or 0 (k / 2 ^ 4 % 16) * 16) (k % 16)) (λ k. k) 32 c lt
      (unfold every in refl)

join_surrogates_low : (c : ℕ) (rest : Bytes) → c < 32 → join_surrogates c rest ≡ (c, rest)
unfolding join_surrogates
join_surrogates_low c rest lt = let low : leb 55296 c ≡ false = ground arith in rw low refl

utf8_low : (c : ℕ) → c < 32 → utf8 c ≡ c ∷ []
unfolding utf8
utf8_low c lt = let low : ltb c 128 ≡ true = ground arith in rw low refl

hex_loop-some :
    (n cp h d : ℕ) (cs : Bytes)
    → hex_value h ≡ some d
    → hex_loop (suc n) cp (h ∷ cs) ≡ hex_loop n (bit_or (cp * 16) d) cs
unfolding hex_loop
hex_loop-some n cp h d cs e = rw (hex_loop, e) refl

-- The four digits of a control character.
hex_loop_low :
    (c : ℕ) (rest : Bytes)
    → c < 32
    → hex_loop 4 0 (b'0' ∷ b'0' ∷ hex_char (c / 2 ^ 4 % 16) ∷ hex_char (c % 16) ∷ rest)
      ≡ parsed c rest
hex_loop_low c rest lt =
    let zero_char : hex_value b'0' ≡ some 0 = unfold hex_value in refl in
    let high : ℕ = c / 2 ^ 4 % 16 in
    let low : ℕ = c % 16 in
    hex_loop-some 3 0 b'0' 0 (b'0' ∷ hex_char high ∷ hex_char low ∷ rest) zero_char
    ∙ hex_loop-some 2 (bit_or (0 * 16) 0) b'0' 0 (hex_char high ∷ hex_char low ∷ rest) zero_char
    ∙ hex_loop-some 1 0 (hex_char high) high (hex_char low ∷ rest)
        (hex_value-hex_char high (omega arith))
    ∙ hex_loop-some 0 (bit_or 0 high) (hex_char low) low rest (hex_value-hex_char low (omega arith))
    ∙ unfold hex_loop in ap (λ (k : ℕ). parsed k rest) (joined_digits c lt)

-- The escape of a control character.
unicode_low :
    (c : ℕ) (rest : Bytes)
    → c < 32
    → unicode (b'0' ∷ b'0' ∷ hex_char (c / 2 ^ 4 % 16) ∷ hex_char (c % 16) ∷ rest)
      ≡ parsed (c ∷ []) rest
unfolding unicode after_code
unicode_low c rest lt =
    let long : ltb (length (b'0' ∷ b'0' ∷ hex_char (c / 2 ^ 4 % 16) ∷ hex_char (c % 16) ∷ rest)) 4
        ≡ false =
      ground arith in
    rw (long, hex_loop_low c rest lt, after_code)
      (rw (join_surrogates_low c rest lt) (rw (utf8_low c lt) refl))

-- Reader::String reads a byte back from its escape, whatever follows.
first_char-escape_char :
    (c : ℕ) (rest : Bytes) → first_char (escape_char c ++ rest) ≡ parsed (some (c ∷ [])) rest
unfolding escape_char one_char escape
first_char-escape_char c rest = elim (Bool-cases (c == 34)) [
  | inl here ↦ let e : c ≡ 34 = ground arith in rw here (rw e refl)
  | inr quote ↦ elim (Bool-cases (c == 92)) [
    | inl here ↦ let e : c ≡ 92 = ground arith in rw (quote, here) (rw e refl)
    | inr slash ↦ elim (Bool-cases (c == 10)) [
      | inl here ↦ let e : c ≡ 10 = ground arith in rw (quote, slash, here) (rw e refl)
      | inr line ↦ elim (Bool-cases (c == 13)) [
        | inl here ↦ let e : c ≡ 13 = ground arith in rw (quote, slash, line, here) (rw e refl)
        | inr return ↦ elim (Bool-cases (c == 9)) [
          | inl here ↦
              let e : c ≡ 9 = ground arith in rw (quote, slash, line, return, here) (rw e refl)
          | inr tab ↦ elim (Bool-cases (ltb c 32)) [
            | inl control ↦
                rw (quote, slash, line, return, tab, control)
                  (rw (unicode_low c rest (ground arith)) refl)
            | inr plain ↦ rw (quote, slash, line, return, tab, plain) (rw (quote, slash) refl)
          ]
        ]
      ]
    ]
  ]
]

-- An escape is not empty.
cons_escape : (c : ℕ) → (h : ℕ) × (t : Bytes) × (escape_char c ≡ h ∷ t)
unfolding escape_char
cons_escape c = elim (Bool-cases (c == 34)) [
  | inl here ↦ (92, 34 ∷ [], rw here refl)
  | inr quote ↦ elim (Bool-cases (c == 92)) [
    | inl here ↦ (92, 92 ∷ [], rw (quote, here) refl)
    | inr slash ↦ elim (Bool-cases (c == 10)) [
      | inl here ↦ (92, b'n' ∷ [], rw (quote, slash, here) refl)
      | inr line ↦ elim (Bool-cases (c == 13)) [
        | inl here ↦ (92, b'r' ∷ [], rw (quote, slash, line, here) refl)
        | inr return ↦ elim (Bool-cases (c == 9)) [
          | inl here ↦ (92, b't' ∷ [], rw (quote, slash, line, return, here) refl)
          | inr tab ↦ elim (Bool-cases (ltb c 32)) [
            | inl control ↦ (
              92,
              b'u' ∷ b'0' ∷ b'0' ∷ hex_char (c / 2 ^ 4 % 16) ∷ hex_char (c % 16) ∷ [],
              rw (quote, slash, line, return, tab, control) refl,
            )
            | inr plain ↦ (c, [], rw (quote, slash, line, return, tab, plain) refl)
          ]
        ]
      ]
    ]
  ]
]

string_loop-json_escape :
    (f : ℕ) (out cs rest : Bytes)
    → length cs < f
    → string_loop f out (json_escape cs ++ (34 ∷ rest)) ≡ parsed (out ++ cs) rest
unfolding json_escape string_loop
string_loop-json_escape zero out cs rest enough = absurd (omega arith)
string_loop-json_escape (suc f) out [] rest enough =
    unfold one_char in ap (λ (ys : Bytes). parsed ys rest) (sym (append-nil out))
string_loop-json_escape (suc f) out (c ∷ cs) rest enough =
    let (h, t, e) = cons_escape c in
    let one = first_char-escape_char c (json_escape cs ++ (34 ∷ rest)) in
    let one' : one_char h (t ++ (json_escape cs ++ (34 ∷ rest)))
        ≡ parsed (some (c ∷ [])) (json_escape cs ++ (34 ∷ rest)) =
      rw e at one in
    let again = string_loop-json_escape f (out ++ c ∷ []) cs rest (omega arith) in
    rw (e, append_assoc t (json_escape cs) (34 ∷ rest))
      (rw (one', string_loop)
        (again ∙ ap (λ (ys : Bytes). parsed ys rest) (append_assoc out (c ∷ []) cs)))

length-json_escape : (cs : Bytes) → length cs ≤ length (json_escape cs)
unfolding json_escape
length-json_escape [] = omega arith
length-json_escape (c ∷ cs) =
    let (h, t, e) = cons_escape c in
    let size = length-append (escape_char c) (json_escape cs) in
    omega (arith, ap (λ (ys : Bytes). length ys) e, length-json_escape cs)

-- Reader::String reads back exactly the bytes that JsonEscape was given, between quotes, whatever
-- the bytes are and whatever follows the second quote.
pub parse_string-json_escape :
    (cs rest : Bytes) → parse_string (34 ∷ (json_escape cs ++ (34 ∷ rest))) ≡ parsed cs rest
unfolding parse_string
parse_string-json_escape cs rest =
    let size = length-append (json_escape cs) (34 ∷ rest) in
    let longer = length-json_escape cs in
    string_loop-json_escape (suc (length (json_escape cs ++ (34 ∷ rest)))) [] cs rest (omega arith)
