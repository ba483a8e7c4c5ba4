-- ===== src/Gzip/Huffman/Fixed.antt =====
-- BitReader::Decode of src/zdex/src/Gzip.cpp with the tables of BuildFixedTables against the codes
-- that LiteralCode gives.
use Prim.Native.Nat.{bit_or}
use zircon_dumper.Prelude.{
  ℕ, zero, suc, ◌+◌, ◌-◌, ◌*◌, ◌%◌, ◌<◌, ◌≡◌, refl, ap, ◌∙◌, Bool, true, false, Option, none, some,
  List, [], ◌∷◌, ◌++◌, ltb, ◌==◌, if◌then◌else◌, get_or, arith, Bool-cases, inl, inr, length,
}
use zircon_dumper.Prelude.Table.{every, every_at}
use zircon_dumper.Gzip.Bits.{Reader, read_bits}
use zircon_dumper.Gzip.Bits.Stream.{bits, code_bits}
use zircon_dumper.Gzip.Bits.Fill.{pending, IsReader, read_bits-pending}
use zircon_dumper.Gzip.Codes.{literal_code}
use zircon_dumper.Gzip.Huffman.{
  Huffman, build, count_lengths, build_counted, room_left, offset_loop, place, decode_loop, decode,
  fixed_literals, fixed_distances,
}

-- Consecutive numbers.
abbrev span : ℕ → ℕ → List ℕ
span from zero = []
span from (suc n) = from ∷ span (from + 1) n

-- The tables that the fixed lengths give.
abbrev pub literal_table : Huffman
literal_table = record {
  counts = 0 ∷ 0 ∷ 0 ∷ 0 ∷ 0 ∷ 0 ∷ 0 ∷ 24 ∷ 152 ∷ 112 ∷ 0 ∷ 0 ∷ 0 ∷ 0 ∷ 0 ∷ 0 ∷ [];
  symbols = span 256 24 ++ span 0 144 ++ span 280 8 ++ span 144 112;
}

abbrev pub distance_table : Huffman
distance_table = record {
  counts = 0 ∷ 0 ∷ 0 ∷ 0 ∷ 0 ∷ 30 ∷ 0 ∷ 0 ∷ 0 ∷ 0 ∷ 0 ∷ 0 ∷ 0 ∷ 0 ∷ 0 ∷ 0 ∷ [];
  symbols = span 0 30;
}

pub literals_built : fixed_literals ≡ some literal_table
unfolding fixed_literals build count_lengths build_counted room_left offset_loop place
literals_built = refl

pub distances_built : fixed_distances ≡ some distance_table
unfolding fixed_distances build count_lengths build_counted room_left offset_loop place
distances_built = refl

-- The walk of the decoder over digits in the place of a reader; the digits left are the second part.
unfoldable walk : ℕ → Huffman → List ℕ → ℕ → ℕ → ℕ → ℕ → Option ℕ × List ℕ
walk zero table ds length code first index = (none, ds)
walk (suc f) table [] length code first index = (none, [])
walk (suc f) table (d ∷ ds) length code first index =
    let code' = bit_or code d in
    let count = get_or table.counts length 0 in
    let next = walk f table ds (length + 1) (code' * 2) ((first + count) * 2) (index + count) in
    if ltb code' (first + count)
    then (some (get_or table.symbols (index + (code' - first)) 0), ds)
    else next

no_digit : (ds : List ℕ) → length ds < 1 → ds ≡ []
no_digit [] h = refl
no_digit (d ∷ ds) h = absurd (omega arith)

-- The decoder follows the walk over the digits that are pending.
decode_loop-walk :
    (f : ℕ) (table : Huffman) (r : Reader) (width code first index symbol : ℕ) (rest : List ℕ)
    → IsReader r
    → walk f table (pending r) width code first index ≡ (some symbol, rest)
    → (r' : Reader) × (decode_loop f table r width code first index ≡ (some symbol, r'))
      × IsReader r'
      × (pending r' ≡ rest)
unfolding walk decode_loop
decode_loop-walk zero table r width code first index symbol rest ok e = absurd (ground arith)
decode_loop-walk (suc f) table r width code first index symbol rest ok e =
    elim (read_bits-pending r 1 ok (omega arith)) [
      | inl (v, r', got, ok', small, split) ↦
          let one : pending r ≡ v ∷ pending r' =
            split ∙ (unfold bits in let low : v % 2 ≡ v = omega arith in rw low) in
          let count = get_or table.counts width 0 in
          let e' = rw one at e in
          let left : (read_bits r 1).1 ≡ r' = ap (λ p. p.1) got in
          elim (Bool-cases (ltb (bit_or code v) (first + count))) [
            | inl hit ↦
                let found = rw hit at e' in
                rw (got, decode_loop)
                  (rw (left, hit) (r', ap (λ p. (p.0, r')) found, ok', ap (λ p. p.1) found))
            | inr miss ↦
                rw (got, decode_loop)
                  (rw (left, miss)
                    (decode_loop-walk f table r' (width + 1) (bit_or code v * 2)
                      ((first + count) * 2) (index + count) symbol rest ok' (rw miss at e')))
          ]
      | inr (nothing, lacks) ↦
          let e' = rw (no_digit (pending r) lacks) at e in absurd (ground (arith, e'))
    ]

-- Digits behind what the walk reads are left alone.
walk-append :
    (f : ℕ) (table : Huffman) (ds more : List ℕ) (width code first index symbol : ℕ) (rest : List ℕ)
    → walk f table ds width code first index ≡ (some symbol, rest)
    → walk f table (ds ++ more) width code first index ≡ (some symbol, rest ++ more)
unfolding walk
walk-append zero table ds more width code first index symbol rest e = absurd (ground arith)
walk-append (suc f) table [] more width code first index symbol rest e = absurd (ground arith)
walk-append (suc f) table (d ∷ ds) more width code first index symbol rest e =
    let count = get_or table.counts width 0 in
    elim (Bool-cases (ltb (bit_or code d) (first + count))) [
      | inl hit ↦ let found = rw hit at e in rw hit (ap (λ p. (p.0, p.1 ++ more)) found)
      | inr miss ↦ rw miss (
          walk-append f table ds more (width + 1) (bit_or code d * 2) ((first + count) * 2)
            (index + count) symbol rest (rw miss at e))
    ]

walked : Option ℕ × List ℕ → ℕ → Bool
walked (some s, []) symbol = s == symbol
walked _ symbol = false

pub walks : Huffman → (ℕ → List ℕ) → ℕ → Bool
unfolding walk
walks table code symbol = walked (walk 15 table (code symbol) 1 0 0 0) symbol

unfoldable pub literal_bits : ℕ → List ℕ
literal_bits symbol = code_bits (literal_code symbol).len (literal_code symbol).code

pub literals_walk : every (walks literal_table literal_bits) 288 ≡ true
unfolding every walks walked literal_bits literal_code code_bits
literals_walk = refl

pub distances_walk : every (walks distance_table (code_bits 5)) 30 ≡ true
unfolding every walks walked code_bits
distances_walk = refl

walked_lem :
    (found : Option ℕ × List ℕ) (symbol : ℕ)
    → walked found symbol ≡ true
    → found ≡ (some symbol, [])
unfolding walked
walked_lem (some s, []) symbol h = let e : s ≡ symbol = ground arith in rw e
walked_lem (some s, d ∷ ds) symbol h = absurd (ground arith)
walked_lem (none, ds) symbol h = absurd (ground arith)

pub decode_table :
    (table : Huffman) (code : ℕ → List ℕ) (n symbol : ℕ) (r : Reader) (rest : List ℕ)
    → every (walks table code) n ≡ true
    → symbol < n
    → IsReader r
    → pending r ≡ code symbol ++ rest
    → (r' : Reader) × (decode table r ≡ (some symbol, r')) × IsReader r' × (pending r' ≡ rest)
unfolding decode walks
decode_table table code n symbol r rest all lt ok e =
    let alone =
      walked_lem (walk 15 table (code symbol) 1 0 0 0) symbol
        (every_at (walks table code) n symbol lt all) in
    let longer = walk-append 15 table (code symbol) rest 1 0 0 0 symbol [] alone in
    decode_loop-walk 15 table r 1 0 0 0 symbol rest ok (rw e longer)

-- The table of BuildFixedTables for literals is built, and where the code that LiteralCode gives for
-- a symbol below 288 is next in the input of a well-formed reader, Decode returns the symbol, leaves
-- what stands behind the code, and the reader stays well formed.
pub decode-literal_code :
    (symbol : ℕ) (r : Reader) (rest : List ℕ)
    → symbol < 288
    → IsReader r
    → pending r ≡ code_bits (literal_code symbol).len (literal_code symbol).code ++ rest
    → (table : Huffman) × (r' : Reader) × (fixed_literals ≡ some table)
      × (decode table r ≡ (some symbol, r'))
      × IsReader r'
      × (pending r' ≡ rest)
decode-literal_code symbol r rest lt ok e =
    let (r', got, ok', left) =
      decode_table literal_table literal_bits 288 symbol r rest literals_walk lt ok
        (unfold literal_bits in e) in
    (literal_table, r', literals_built, got, ok', left)

-- The table of BuildFixedTables for distances is built, and where a number below 30 in five digits,
-- highest first, is next in the input of a well-formed reader, Decode returns the number, leaves what
-- stands behind it, and the reader stays well formed.
pub decode-distance :
    (symbol : ℕ) (r : Reader) (rest : List ℕ)
    → symbol < 30
    → IsReader r
    → pending r ≡ code_bits 5 symbol ++ rest
    → (table : Huffman) × (r' : Reader) × (fixed_distances ≡ some table)
      × (decode table r ≡ (some symbol, r'))
      × IsReader r'
      × (pending r' ≡ rest)
decode-distance symbol r rest lt ok e =
    let (r', got, ok', left) =
      decode_table distance_table (code_bits 5) 30 symbol r rest distances_walk lt ok e in
    (distance_table, r', distances_built, got, ok', left)
