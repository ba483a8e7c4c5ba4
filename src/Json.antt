-- ===== src/Json.antt =====
-- src/zdex/src/Json.cpp.
pub mod Access
pub mod Depth
pub mod Ends
pub mod StringEnds
pub mod Escape
pub mod Values
mod Tests
use Prim.Native.Nat.{bit_and, bit_or}
use zircon_dumper.Prelude.{
  ℕ, zero, suc, ◌+◌, ◌-◌, ◌*◌, ◌/◌, ◌%◌, ◌^◌, Bool, true, false, not, ◌&&◌, ◌||◌, Option, none,
  some, List, [], ◌∷◌, ◌++◌, leb, ltb, ◌==◌, if◌then◌else◌, get_or, take, drop, length,
}
use zircon_dumper.Prelude.Preds.{Bytes}

-- The texts that Fail is given, the end of a number or a block being where it stands.
pub data JsonError : Type 0 where
  empty_response : JsonError
  expected_string : JsonError
  truncated_unicode : JsonError
  bad_unicode : JsonError
  unknown_escape : JsonError
  unterminated_string : JsonError
  too_deep : JsonError
  unexpected_end : JsonError
  expected_null : JsonError
  expected_true : JsonError
  expected_false : JsonError
  expected_value : JsonError
  expected_in_array : JsonError
  expected_colon : JsonError
  expected_in_object : JsonError

-- JsonValue by its kind. The number is the text that strtod is given.
mutual
  pub data Json : Type 0 where
    null : Json
    boolean : Bool → Json
    number : Bytes → Json
    text : Bytes → Json
    array : Items → Json
    object : Fields → Json

  pub data Items : Type 0 where
    no_items : Items
    item : Json → Items → Items

  pub data Fields : Type 0 where
    no_fields : Fields
    field : Bytes → Json → Fields → Fields

-- What a function of Reader returns: true with a value, or false with the first error. The bytes
-- are those that are left, from `pos_` on, which gives the offset of the error. `exhausted` is a
-- loop that has no round left.
pub data Parsed (A : Type 0) : Type 0 where
  parsed : A → Bytes → Parsed A
  stopped : JsonError → Bytes → Parsed A
  exhausted : Parsed A

unfoldable pub is_blank : ℕ → Bool
is_blank c = (c == 32) || (c == 9) || (c == 10) || (c == 13)

unfoldable pub skip : Bytes → Bytes
skip [] = []
skip (c ∷ cs) = if is_blank c then skip cs else c ∷ cs

-- The digit of a \u escape.
unfoldable pub hex_value : ℕ → Option ℕ
hex_value h =
    if leb b'0' h && leb h b'9'
    then some (h - b'0')
    else if leb b'a' h && leb h b'f'
    then some (h - b'a' + 10)
    else if leb b'A' h && leb h b'F'
    then some (h - b'A' + 10)
    else none

-- The loop over the digits of a \u escape, by those still to read.
unfoldable pub hex_loop : ℕ → ℕ → Bytes → Parsed ℕ
hex_loop zero cp cs = parsed cp cs
hex_loop (suc n) cp [] = stopped bad_unicode []
hex_loop (suc n) cp (h ∷ cs) = elim (hex_value h) [
  | none ↦ stopped bad_unicode cs
  | some d ↦ hex_loop n (bit_or (cp * 16) d) cs
]

-- The second half of a surrogate pair, if it is there: the code point and what is left.
unfoldable pub join_low : ℕ → Bytes → Parsed ℕ → ℕ × Bytes
join_low cp cs (parsed low rest) =
    if leb 56320 low && leb low 57343
    then (65536 + (cp - 55296) * 2 ^ 10 + (low - 56320), rest)
    else (cp, cs)
join_low cp cs (stopped e rest) = (cp, cs)
join_low cp cs exhausted = (cp, cs)

unfoldable pub join_surrogates : ℕ → Bytes → ℕ × Bytes
join_surrogates cp cs =
    if leb 55296 cp
      && leb cp 56319
      && leb 6 (length cs)
      && (get_or cs 0 0 == 92)
      && (get_or cs 1 0 == b'u')
    then join_low cp cs (hex_loop 4 0 (drop 2 cs))
    else (cp, cs)

-- The bytes that AppendUtf8 appends.
unfoldable pub utf8 : ℕ → Bytes
utf8 cp =
    if ltb cp 128
    then cp ∷ []
    else if ltb cp 2048
    then bit_or 192 (cp / 2 ^ 6) ∷ bit_or 128 (bit_and cp 63) ∷ []
    else if ltb cp 65536
    then bit_or 224 (cp / 2 ^ 12)
      ∷ bit_or 128 (bit_and (cp / 2 ^ 6) 63)
      ∷ bit_or 128 (bit_and cp 63)
      ∷ []
    else bit_or 240 (cp / 2 ^ 18)
      ∷ bit_or 128 (bit_and (cp / 2 ^ 12) 63)
      ∷ bit_or 128 (bit_and (cp / 2 ^ 6) 63)
      ∷ bit_or 128 (bit_and cp 63)
      ∷ []

-- A \u escape, after the `u`: the bytes that it stands for.
unfoldable pub after_code : Parsed ℕ → Parsed Bytes
after_code (parsed cp cs) = let (cp', cs') = join_surrogates cp cs in parsed (utf8 cp') cs'
after_code (stopped e cs) = stopped e cs
after_code exhausted = exhausted

unfoldable pub unicode : Bytes → Parsed Bytes
unicode cs =
    if ltb (length cs) 4 then stopped truncated_unicode cs else after_code (hex_loop 4 0 cs)

-- An escape, after the `\`: the bytes that it stands for.
unfoldable pub escape : ℕ → Bytes → Parsed Bytes
escape esc cs =
    if esc == 34
    then parsed (34 ∷ []) cs
    else if esc == 92
    then parsed (92 ∷ []) cs
    else if esc == b'/'
    then parsed (b'/' ∷ []) cs
    else if esc == b'b'
    then parsed (8 ∷ []) cs
    else if esc == b'f'
    then parsed (12 ∷ []) cs
    else if esc == b'n'
    then parsed (10 ∷ []) cs
    else if esc == b'r'
    then parsed (13 ∷ []) cs
    else if esc == b't'
    then parsed (9 ∷ []) cs
    else if esc == b'u'
    then unicode cs
    else stopped unknown_escape cs

-- One character of a string, or its end (`none`).
unfoldable pub one_char : ℕ → Bytes → Parsed (Option Bytes)
one_char c cs =
    if c == 34
    then parsed none cs
    else if not (c == 92)
    then parsed (some (c ∷ [])) cs
    else elim cs [
      | [] ↦ stopped unterminated_string []
      | esc ∷ rest ↦ elim (escape esc rest) [
        | parsed bytes left ↦ parsed (some bytes) left
        | stopped e left ↦ stopped e left
        | exhausted ↦ exhausted
      ]
    ]

-- The loop of String. A round takes at least one byte.
unfoldable pub string_loop : ℕ → Bytes → Bytes → Parsed Bytes
string_loop zero out cs = exhausted
string_loop (suc f) out [] = stopped unterminated_string []
string_loop (suc f) out (c ∷ cs) = elim (one_char c cs) [
  | parsed none left ↦ parsed out left
  | parsed (some bytes) left ↦ string_loop f (out ++ bytes) left
  | stopped e left ↦ stopped e left
  | exhausted ↦ exhausted
]

unfoldable pub parse_string : Bytes → Parsed Bytes
parse_string [] = stopped expected_string []
parse_string (c ∷ cs) =
    if c == 34 then string_loop (suc (length cs)) [] cs else stopped expected_string (c ∷ cs)
