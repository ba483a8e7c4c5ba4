-- ===== src/Json/StringEnds.antt =====
-- Skip and String of src/zdex/src/Json.cpp return on every text, with no more bytes left than there
-- were.
use Prim.Native.Nat.{bit_or}
use zircon_dumper.Prelude.{
  not, get_or, ◌&&◌, Option-cases, ℕ, zero, suc, ◌*◌, ◌≤◌, ◌<◌, Bool, true, false, Option, none,
  some, [], ◌∷◌, ◌++◌, leb, ltb, ◌==◌, if◌then◌else◌, drop, length, length-drop, arith, Bool-cases,
  inl, inr,
}
use zircon_dumper.Prelude.Preds.{Bytes}
use zircon_dumper.Json.{
  unterminated_string, Parsed, parsed, stopped, exhausted, is_blank, skip, hex_value, hex_loop,
  join_low, join_surrogates, after_code, unicode, escape, one_char, string_loop, parse_string,
}

-- The function returned, with at most `n` bytes left.
abbrev pub Within : {A : Type 0} → ℕ → Parsed A → Type 0
Within n (parsed v cs) = length cs ≤ n
Within n (stopped e cs) = Unit
Within n exhausted = ⊥

pub Within-later : {A : Type 0} (m n : ℕ) (p : Parsed A) → m ≤ n → Within m p → Within n p
Within-later m n (parsed v cs) le h = omega arith
Within-later m n (stopped e cs) le h = tt
Within-later m n exhausted le h = h

pub skip_le : (cs : Bytes) → length (skip cs) ≤ length cs
unfolding skip
skip_le [] = omega arith
skip_le (c ∷ cs) = elim (Bool-cases (is_blank c)) [
  | inl blank ↦ rw blank (omega (arith, skip_le cs))
  | inr other ↦ rw other (omega arith)
]

hex_loop-Within : (n cp : ℕ) (cs : Bytes) → Within (length cs) (hex_loop n cp cs)
unfolding hex_loop
hex_loop-Within zero cp cs = omega arith
hex_loop-Within (suc n) cp [] = tt
hex_loop-Within (suc n) cp (h ∷ cs) = elim (Option-cases (hex_value h)) [
  | inl e ↦ rw (hex_loop, e) tt
  | inr (d, e) ↦
      let next = hex_loop n (bit_or (cp * 16) d) cs in
      rw (hex_loop, e)
        (Within-later (length cs) (suc (length cs)) next (omega arith)
          (hex_loop-Within n (bit_or (cp * 16) d) cs))
]

join_low_le :
    (cp : ℕ) (cs : Bytes) (p : Parsed ℕ)
    → Within (length cs) p
    → length ((join_low cp cs p).1) ≤ length cs
unfolding join_low
join_low_le cp cs (parsed low rest) le = elim (Bool-cases (leb 56320 low && leb low 57343)) [
  | inl half ↦ rw half le
  | inr other ↦ rw other (omega arith)
]
join_low_le cp cs (stopped e rest) le = omega arith
join_low_le cp cs exhausted le = omega arith

join_surrogates_le : (cp : ℕ) (cs : Bytes) → length ((join_surrogates cp cs).1) ≤ length cs
unfolding join_surrogates
join_surrogates_le cp cs =
    let low = hex_loop 4 0 (drop 2 cs) in
    let low_le =
      Within-later (length (drop 2 cs)) (length cs) low (omega (arith, length-drop 2 cs))
        (hex_loop-Within 4 0 (drop 2 cs)) in
    elim (Bool-cases (
      leb 55296 cp
      && leb cp 56319
      && leb 6 (length cs)
      && (get_or cs 0 0 == 92)
      && (get_or cs 1 0 == b'u'))) [
        | inl high ↦ rw high (join_low_le cp cs low low_le)
        | inr other ↦ rw other (omega arith)
      ]

after_code-Within : (n : ℕ) (p : Parsed ℕ) → Within n p → Within n (after_code p)
unfolding after_code
after_code-Within n (parsed cp cs) le = omega (arith, join_surrogates_le cp cs)
after_code-Within n (stopped e cs) le = tt
after_code-Within n exhausted h = h

unicode-Within : (cs : Bytes) → Within (length cs) (unicode cs)
unfolding unicode
unicode-Within cs = elim (Bool-cases (ltb (length cs) 4)) [
  | inl short ↦ rw short tt
  | inr long ↦ rw long (after_code-Within (length cs) (hex_loop 4 0 cs) (hex_loop-Within 4 0 cs))
]

-- An `if` whose branches both return.
pub if-Within :
    {A : Type 0} (n : ℕ) (b : Bool) (p q : Parsed A)
    → Within n p
    → Within n q
    → Within n (if b then p else q)
if-Within n true p q first second = first
if-Within n false p q first second = second

escape-Within : (esc : ℕ) (cs : Bytes) → Within (length cs) (escape esc cs)
unfolding escape
escape-Within esc cs =
    let kept : length cs ≤ length cs = omega arith in
    if-Within _ (esc == 34) _ _ kept (
      if-Within _ (esc == 92) _ _ kept (
        if-Within _ (esc == b'/') _ _ kept (
          if-Within _ (esc == b'b') _ _ kept (
            if-Within _ (esc == b'f') _ _ kept (
              if-Within _ (esc == b'n') _ _ kept (
                if-Within _ (esc == b'r') _ _ kept (
                  if-Within _ (esc == b't') _ _ kept
                    (if-Within _ (esc == b'u') _ _ (unicode-Within cs) tt))))))))

one_char-Within : (c : ℕ) (cs : Bytes) → Within (length cs) (one_char c cs)
unfolding one_char
one_char-Within c cs =
    let kept : length cs ≤ length cs = omega arith in
    if-Within _ (c == 34) _ _ kept (if-Within _ (not (c == 92)) _ _ kept (escaped cs))
  where
    escaped :
        (cs : Bytes)
        → Within (length cs) (elim cs [
          | [] ↦ stopped unterminated_string []
          | esc ∷ rest ↦ elim (escape esc rest) [
            | parsed bytes left ↦ parsed (some bytes) left
            | stopped e left ↦ stopped e left
            | exhausted ↦ exhausted
          ]
        ])
    escaped [] = tt
    escaped (esc ∷ rest) = as_some (escape esc rest) (escape-Within esc rest)
      where
        as_some :
            (p : Parsed Bytes)
            → Within (length rest) p
            → Within (suc (length rest)) (elim p [
              | parsed bytes left ↦ parsed (some bytes) left
              | stopped e left ↦ stopped e left
              | exhausted ↦ exhausted
            ])
        as_some (parsed bytes left) le = omega arith
        as_some (stopped e left) le = tt
        as_some exhausted le = le

-- A round of String.
abbrev string_next : ℕ → Bytes → Parsed (Option Bytes) → Parsed Bytes
string_next f out p = elim p [
  | parsed none left ↦ parsed out left
  | parsed (some bytes) left ↦ string_loop f (out ++ bytes) left
  | stopped e left ↦ stopped e left
  | exhausted ↦ exhausted
]

string_next-Within :
    (f n : ℕ) (out : Bytes) (p : Parsed (Option Bytes))
    → ((out' cs' : Bytes) → length cs' ≤ n → Within (length cs') (string_loop f out' cs'))
    → Within n p
    → Within (suc n) (string_next f out p)
string_next-Within f n out (parsed none left) ih le = omega arith
string_next-Within f n out (parsed (some bytes) left) ih le =
    Within-later (length left) (suc n) (string_loop f (out ++ bytes) left) (omega arith)
      (ih (out ++ bytes) left le)
string_next-Within f n out (stopped e left) ih le = tt
string_next-Within f n out exhausted ih le = le

-- The loop of String returns when it has more rounds than there are bytes.
string_loop-Within :
    (f : ℕ) (out cs : Bytes) → length cs < f → Within (length cs) (string_loop f out cs)
unfolding string_loop
string_loop-Within zero out cs enough = absurd (omega arith)
string_loop-Within (suc f) out [] enough = tt
string_loop-Within (suc f) out (c ∷ cs) enough =
    string_next-Within f (length cs) out (one_char c cs)
      (λ out' cs' le. string_loop-Within f out' cs' (omega arith)) (one_char-Within c cs)

pub parse_string-Within : (cs : Bytes) → Within (length cs) (parse_string cs)
unfolding parse_string
parse_string-Within [] = tt
parse_string-Within (c ∷ cs) =
    if-Within _ (c == 34) _ _
      (Within-later (length cs) (suc (length cs)) (string_loop (suc (length cs)) [] cs)
        (omega arith) (string_loop-Within (suc (length cs)) [] cs (omega arith)))
      tt
