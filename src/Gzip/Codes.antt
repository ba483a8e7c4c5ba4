-- ===== src/Gzip/Codes.antt =====
-- The fixed alphabet of src/zdex/src/Gzip.cpp: the codes of the literals, and the codes of lengths
-- and distances, on the writing side as rows and on the reading side as two lists each.
pub mod Rows
use zircon_dumper.Prelude.{
  ℕ, zero, suc, ◌+◌, ◌-◌, Bool, true, false, List, [], ◌∷◌, leb, if◌then◌else◌, get_or,
}

pub record FixedLit : Type 0 where
  pub code : ℕ
  pub len : ℕ

unfoldable pub literal_code : ℕ → FixedLit
literal_code symbol =
    if leb symbol 143
    then record { code = 48 + symbol; len = 8 }
    else if leb symbol 255
    then record { code = 400 + symbol - 144; len = 9 }
    else if leb symbol 279
    then record { code = symbol - 256; len = 7 }
    else record { code = 192 + symbol - 280; len = 8 }

-- A row of `kLengths` and of `kDistances`.
pub record Row : Type 0 where
  pub code : ℕ
  pub extra_bits : ℕ
  pub base : ℕ

abbrev pub row : ℕ → ℕ → ℕ → Row
row code extra_bits base = record { code = code; extra_bits = extra_bits; base = base }

abbrev pub k_lengths : List Row
k_lengths =
    row 257 0 3
    ∷ row 258 0 4
    ∷ row 259 0 5
    ∷ row 260 0 6
    ∷ row 261 0 7
    ∷ row 262 0 8
    ∷ row 263 0 9
    ∷ row 264 0 10
    ∷ row 265 1 11
    ∷ row 266 1 13
    ∷ row 267 1 15
    ∷ row 268 1 17
    ∷ row 269 2 19
    ∷ row 270 2 23
    ∷ row 271 2 27
    ∷ row 272 2 31
    ∷ row 273 3 35
    ∷ row 274 3 43
    ∷ row 275 3 51
    ∷ row 276 3 59
    ∷ row 277 4 67
    ∷ row 278 4 83
    ∷ row 279 4 99
    ∷ row 280 4 115
    ∷ row 281 5 131
    ∷ row 282 5 163
    ∷ row 283 5 195
    ∷ row 284 5 227
    ∷ row 285 0 258
    ∷ []

abbrev pub k_distances : List Row
k_distances =
    row 0 0 1
    ∷ row 1 0 2
    ∷ row 2 0 3
    ∷ row 3 0 4
    ∷ row 4 1 5
    ∷ row 5 1 7
    ∷ row 6 2 9
    ∷ row 7 2 13
    ∷ row 8 3 17
    ∷ row 9 3 25
    ∷ row 10 4 33
    ∷ row 11 4 49
    ∷ row 12 5 65
    ∷ row 13 5 97
    ∷ row 14 6 129
    ∷ row 15 6 193
    ∷ row 16 7 257
    ∷ row 17 7 385
    ∷ row 18 8 513
    ∷ row 19 8 769
    ∷ row 20 9 1025
    ∷ row 21 9 1537
    ∷ row 22 10 2049
    ∷ row 23 10 3073
    ∷ row 24 11 4097
    ∷ row 25 11 6145
    ∷ row 26 12 8193
    ∷ row 27 12 12289
    ∷ row 28 13 16385
    ∷ row 29 13 24577
    ∷ []

abbrev pub no_row : Row
no_row = record { code = 0; extra_bits = 0; base = 0 }

-- The loop of LengthFor and DistanceFor, by the rows still to try, the last one first.
unfoldable pub row_loop : ℕ → List Row → ℕ → Row
row_loop zero rows value = get_or rows 0 no_row
row_loop (suc i) rows value =
    let rest = row_loop i rows value in
    if leb (get_or rows i no_row).base value then get_or rows i no_row else rest

unfoldable pub length_for : ℕ → Row
length_for length = row_loop 29 k_lengths length

unfoldable pub distance_for : ℕ → Row
distance_for distance = row_loop 30 k_distances distance

abbrev pub k_length_base : List ℕ
k_length_base =
    3 ∷ 4 ∷ 5 ∷ 6 ∷ 7 ∷ 8 ∷ 9 ∷ 10 ∷ 11 ∷ 13 ∷ 15 ∷ 17 ∷ 19 ∷ 23 ∷ 27 ∷ 31 ∷ 35 ∷ 43 ∷ 51 ∷ 59 ∷ 67
    ∷ 83 ∷ 99 ∷ 115 ∷ 131 ∷ 163 ∷ 195 ∷ 227 ∷ 258 ∷ []

abbrev pub k_length_extra : List ℕ
k_length_extra =
    0 ∷ 0 ∷ 0 ∷ 0 ∷ 0 ∷ 0 ∷ 0 ∷ 0 ∷ 1 ∷ 1 ∷ 1 ∷ 1 ∷ 2 ∷ 2 ∷ 2 ∷ 2 ∷ 3 ∷ 3 ∷ 3 ∷ 3 ∷ 4 ∷ 4 ∷ 4 ∷ 4
    ∷ 5 ∷ 5 ∷ 5 ∷ 5 ∷ 0 ∷ []

abbrev pub k_dist_base : List ℕ
k_dist_base =
    1 ∷ 2 ∷ 3 ∷ 4 ∷ 5 ∷ 7 ∷ 9 ∷ 13 ∷ 17 ∷ 25 ∷ 33 ∷ 49 ∷ 65 ∷ 97 ∷ 129 ∷ 193 ∷ 257 ∷ 385 ∷ 513 ∷ 769
    ∷ 1025 ∷ 1537 ∷ 2049 ∷ 3073 ∷ 4097 ∷ 6145 ∷ 8193 ∷ 12289 ∷ 16385 ∷ 24577 ∷ []

abbrev pub k_dist_extra : List ℕ
k_dist_extra =
    0 ∷ 0 ∷ 0 ∷ 0 ∷ 1 ∷ 1 ∷ 2 ∷ 2 ∷ 3 ∷ 3 ∷ 4 ∷ 4 ∷ 5 ∷ 5 ∷ 6 ∷ 6 ∷ 7 ∷ 7 ∷ 8 ∷ 8 ∷ 9 ∷ 9 ∷ 10 ∷ 10
    ∷ 11 ∷ 11 ∷ 12 ∷ 12 ∷ 13 ∷ 13 ∷ []
