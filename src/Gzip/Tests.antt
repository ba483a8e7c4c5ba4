-- ===== src/Gzip/Tests.antt =====
-- Concrete runs of the compression of src/zdex/src/Gzip.cpp.
use zircon_dumper.Prelude.{
  ◌≤◌, ℕ, ◌≡◌, refl, arith, true, none, some, List, [], ◌∷◌, ◌++◌, map, length,
}
use zircon_dumper.Prelude.Preds.{Bytes, IsByte, All}
use zircon_dumper.Gzip.Bits.{Writer, new_writer, align_writer, Reader, new_reader, read_bits}
use zircon_dumper.Gzip.Bits.Stream.{bits, byte_bits, code_bits, written, IsWriter}
use zircon_dumper.Gzip.Bits.Fill.{pending, IsReader}
use zircon_dumper.Gzip.Bits.Trip.{Field, put_all, read_all, read-put}
use zircon_dumper.Gzip.Codes.{
  row_loop, literal_code, length_for, distance_for, k_length_base, k_length_extra,
}
use zircon_dumper.Gzip.Codes.Rows.{Carries, length_for-Carries}
use zircon_dumper.Gzip.Crc.{crc32, crc_loop, crc_table, crc_entries, crc_rounds}
use zircon_dumper.Gzip.Crc.Pieces.{crc32-append}
use zircon_dumper.Gzip.Deflate.{
  no_chains, hash3, match_loop, match_len, search_chain, best_match, insert, insert_run,
  deflate_block,
}
use zircon_dumper.Gzip.Deflate.Tokens.{deflate_block-tokens}
use zircon_dumper.Gzip.Deflate.Trip.{inflate-deflate}
use zircon_dumper.Gzip.Inflate.{ended, copy_back, inflate_body}
use zircon_dumper.Gzip.Inflate.Block.{
  Token, literal, repeat, expand_one, expand, IsToken, AreTokens, match_bits, token_bits,
  block_bits,
}
use zircon_dumper.Gzip.Inflate.Trip.{inflate_body-block}
use zircon_dumper.Gzip.Huffman.{Huffman, decode, fixed_literals, fixed_distances}
use zircon_dumper.Gzip.Huffman.Fixed.{
  literal_table, distance_table, literal_bits, decode-literal_code,
}

-- Five digits after three.
abbrev three_held : Writer
three_held = record { out = 7 ∷ []; acc = 5; held = 3 }

three_held-IsWriter : IsWriter three_held
three_held-IsWriter = record {
  held_lt = omega arith;
  acc_lt = omega arith;
  bytes = (omega arith, tt);
}

abbrev two_bytes : Reader
two_bytes = new_reader (203 ∷ 77 ∷ [])

two_bytes-IsReader : IsReader two_bytes
two_bytes-IsReader = record {
  held_lt = omega arith;
  value_lt = omega arith;
  bytes = (omega arith, (omega arith, tt));
}

abbrev some_fields : List Field
some_fields = (1, 1) ∷ (2, 2) ∷ (700, 10) ∷ (65535, 16) ∷ []

read-put_example :
    read_all
      (new_reader (align_writer (put_all (new_writer []) some_fields)).out)
      (map (λ f. f.1) some_fields)
    ≡ some (map (λ f. f.0) some_fields)
read-put_example = read-put some_fields (
  (omega arith, omega arith),
  ((omega arith, omega arith), ((omega arith, omega arith), ((omega arith, omega arith), tt))),
)

length_for-Carries_example : Carries k_length_base k_length_extra 257 29 100 (length_for 100)
length_for-Carries_example = length_for-Carries 100 (omega arith) (omega arith)

-- The code of the letter `A` is 01110001, and the second byte stands behind it.
abbrev letter : Reader
letter = new_reader (142 ∷ 77 ∷ [])

letter-IsReader : IsReader letter
letter-IsReader = record {
  held_lt = omega arith;
  value_lt = omega arith;
  bytes = (omega arith, (omega arith, tt));
}

decode-literal_code_example :
    (table : Huffman) × (r' : Reader) × (fixed_literals ≡ some table)
    × (decode table letter ≡ (some 65, r'))
    × IsReader r'
    × (pending r' ≡ bits 8 77)
decode-literal_code_example =
    decode-literal_code 65 letter (bits 8 77) (omega arith) letter-IsReader
      (unfold pending bits byte_bits literal_code code_bits in refl)

abbrev three_left : List ℕ
three_left = 0 ∷ 0 ∷ 1 ∷ bits 8 77

-- What is left of a byte can be handed out, and nothing beyond it.
short_read : (read_bits (new_reader (203 ∷ [])) 9).0 ≡ none
unfolding read_bits
short_read = refl

-- A literal, its two successors, and a repeat that overlaps itself.
abbrev a_block : List Token
a_block = literal 97 ∷ literal 98 ∷ literal 99 ∷ repeat 6 3 ∷ []

a_block-AreTokens : AreTokens [] a_block
unfolding AreTokens IsToken expand_one copy_back
a_block-AreTokens = (
  omega arith,
  (
    omega arith,
    (omega arith, ((omega arith, omega arith, omega arith, omega arith, omega arith), tt)),
  ),
)

abbrev abc : Bytes
abc = 97 ∷ 98 ∷ 99 ∷ 97 ∷ 98 ∷ 99 ∷ 97 ∷ 98 ∷ 99 ∷ []

abc-bytes : All IsByte abc
abc-bytes = (
  omega arith,
  (
    omega arith,
    (
      omega arith,
      (omega arith, (omega arith, (omega arith, (omega arith, (omega arith, (omega arith, tt)))))),
    ),
  ),
)

a_block_stands_for : expand [] a_block ≡ abc
unfolding expand expand_one copy_back
a_block_stands_for = refl

-- The search finds the repeat at the fourth byte.
abc_match : best_match 0 abc (insert_run 0 abc 3 no_chains 0) 3 ≡ (6, 3)
unfolding best_match insert_run insert search_chain match_len match_loop hash3
abc_match = refl

abbrev block_reader : Reader
block_reader = new_reader (137 ∷ 73 ∷ 201 ∷ 16 ∷ 4 ∷ 0 ∷ [])

abbrev block_left : List ℕ
block_left = 0 ∷ 0 ∷ 0 ∷ 0 ∷ 0 ∷ []

block_reader-IsReader : IsReader block_reader
block_reader-IsReader = record {
  held_lt = omega arith;
  value_lt = omega arith;
  bytes =
      (omega arith, (omega arith, (omega arith, (omega arith, (omega arith, (omega arith, tt))))));
}

block_pending : pending block_reader ≡ block_bits a_block ++ block_left
unfolding pending bits byte_bits block_bits token_bits match_bits literal_bits literal_code
    code_bits length_for distance_for row_loop
block_pending = refl

inflate_body-block_example :
    (r' : Reader) × (inflate_body 5 literal_table distance_table block_reader []
      ≡ ended r' (expand [] a_block))
    × IsReader r'
    × (pending r' ≡ block_left)
inflate_body-block_example =
    inflate_body-block 5 [] a_block block_reader block_left (omega arith) a_block-AreTokens
      block_reader-IsReader block_pending

deflate_block-tokens_example :
    (tokens : List Token) × IsWriter (deflate_block 0 abc three_held true)
    × (written (deflate_block 0 abc three_held true)
        ≡ written three_held ++ (bits 1 1 ++ (bits 2 1 ++ block_bits tokens)))
    × AreTokens [] tokens
    × (expand [] tokens ≡ abc)
    × (length tokens ≤ 9)
deflate_block-tokens_example =
    deflate_block-tokens 0 abc three_held true three_held-IsWriter abc-bytes

inflate-deflate_example :
    (literals : Huffman) × (distances : Huffman) × (fixed_literals ≡ some literals)
    × (fixed_distances ≡ some distances)
    × (r1 : Reader) × (r2 : Reader) × (r3 : Reader) × (read_bits
          (new_reader (align_writer (deflate_block 0 abc (new_writer []) true)).out)
          1
        ≡ (some 1, r1))
    × (read_bits r1 2 ≡ (some 1, r2))
    × (inflate_body 10 literals distances r2 [] ≡ ended r3 abc)
inflate-deflate_example = inflate-deflate 0 abc true abc-bytes

abbrev digits_1_to_5 : Bytes
digits_1_to_5 = 49 ∷ 50 ∷ 51 ∷ 52 ∷ 53 ∷ []

abbrev digits_6_to_9 : Bytes
digits_6_to_9 = 54 ∷ 55 ∷ 56 ∷ 57 ∷ []

-- The check value of this checksum.
crc32_check : crc32 (digits_1_to_5 ++ digits_6_to_9) 0 ≡ 3421780262
unfolding crc32 crc_loop crc_table crc_entries crc_rounds
crc32_check = refl

crc32-append_example :
    crc32 (digits_1_to_5 ++ digits_6_to_9) 0 ≡ crc32 digits_6_to_9 (crc32 digits_1_to_5 0)
crc32-append_example = crc32-append digits_1_to_5 digits_6_to_9 0
