-- ===== src/Sha256.antt =====
-- src/zdex/src/Sha256.cpp.
pub mod Digest
pub mod Feed
pub mod Padding
mod Tests
use Prim.Native.Nat.{bit_and, bit_or, bit_xor}
use zircon_dumper.Prelude.{
  ℕ, zero, suc, ◌+◌, ◌-◌, ◌*◌, ◌/◌, ◌%◌, ◌^◌, min, Bool, true, false, List, [], ◌∷◌, ◌++◌, ltb,
  ◌==◌, if◌then◌else◌, get_or, set, take, drop, replicate, length,
}
use zircon_dumper.Prelude.Preds.{Bytes}

abbrev pub k_round : List ℕ
k_round =
    1116352408 ∷ 1899447441 ∷ 3049323471 ∷ 3921009573 ∷ 961987163 ∷ 1508970993 ∷ 2453635748
    ∷ 2870763221 ∷ 3624381080 ∷ 310598401 ∷ 607225278 ∷ 1426881987 ∷ 1925078388 ∷ 2162078206
    ∷ 2614888103 ∷ 3248222580 ∷ 3835390401 ∷ 4022224774 ∷ 264347078 ∷ 604807628 ∷ 770255983
    ∷ 1249150122 ∷ 1555081692 ∷ 1996064986 ∷ 2554220882 ∷ 2821834349 ∷ 2952996808 ∷ 3210313671
    ∷ 3336571891 ∷ 3584528711 ∷ 113926993 ∷ 338241895 ∷ 666307205 ∷ 773529912 ∷ 1294757372
    ∷ 1396182291 ∷ 1695183700 ∷ 1986661051 ∷ 2177026350 ∷ 2456956037 ∷ 2730485921 ∷ 2820302411
    ∷ 3259730800 ∷ 3345764771 ∷ 3516065817 ∷ 3600352804 ∷ 4094571909 ∷ 275423344 ∷ 430227734
    ∷ 506948616 ∷ 659060556 ∷ 883997877 ∷ 958139571 ∷ 1322822218 ∷ 1537002063 ∷ 1747873779
    ∷ 1955562222 ∷ 2024104815 ∷ 2227730452 ∷ 2361852424 ∷ 2428436474 ∷ 2756734187 ∷ 3204031479
    ∷ 3329325298 ∷ []

unfoldable pub rotate : ℕ → ℕ → ℕ
rotate value by = bit_or (value / 2 ^ by) (value * 2 ^ (32 - by) % 2 ^ 32)

-- `state`, and the eight words that a block works on.
pub record Words : Type 0 where
  pub a : ℕ
  pub b : ℕ
  pub c : ℕ
  pub d : ℕ
  pub e : ℕ
  pub f : ℕ
  pub g : ℕ
  pub h : ℕ

pub record Hasher : Type 0 where
  pub state : Words
  pub buffer : Bytes
  pub pending : ℕ
  pub total : ℕ

abbrev pub initial_state : Words
initial_state = record {
  a = 1779033703;
  b = 3144134277;
  c = 1013904242;
  d = 2773480762;
  e = 1359893119;
  f = 2600822924;
  g = 528734635;
  h = 1541459225;
}

unfoldable pub new_hasher : Hasher
new_hasher = record { state = initial_state; buffer = replicate 64 0; pending = 0; total = 0 }

-- The first loop of Block, by the words still to read.
unfoldable pub load_words : ℕ → ℕ → Bytes → List ℕ
load_words zero i at = []
load_words (suc n) i at =
    bit_or
      (bit_or (bit_or (get_or at (i * 4) 0 * 2 ^ 24) (get_or at (i * 4 + 1) 0 * 2 ^ 16))
        (get_or at (i * 4 + 2) 0 * 2 ^ 8))
      (get_or at (i * 4 + 3) 0)
    ∷ load_words n (i + 1) at

-- The second loop, by the words still to make.
unfoldable pub extend_words : ℕ → ℕ → List ℕ → List ℕ
extend_words zero i w = w
extend_words (suc n) i w =
    let w15 = get_or w (i - 15) 0 in
    let w2 = get_or w (i - 2) 0 in
    let s0 = bit_xor (bit_xor (rotate w15 7) (rotate w15 18)) (w15 / 2 ^ 3) in
    let s1 = bit_xor (bit_xor (rotate w2 17) (rotate w2 19)) (w2 / 2 ^ 10) in
    extend_words n (i + 1)
      (w ++ ((get_or w (i - 16) 0 + s0 + get_or w (i - 7) 0 + s1) % 2 ^ 32) ∷ [])

unfoldable pub mix_round : List ℕ → ℕ → Words → Words
mix_round w i s =
    let s1 = bit_xor (bit_xor (rotate s.e 6) (rotate s.e 11)) (rotate s.e 25) in
    let ch = bit_xor (bit_and s.e s.f) (bit_and (2 ^ 32 - 1 - s.e) s.g) in
    let t1 = (s.h + s1 + ch + get_or k_round i 0 + get_or w i 0) % 2 ^ 32 in
    let s0 = bit_xor (bit_xor (rotate s.a 2) (rotate s.a 13)) (rotate s.a 22) in
    let maj = bit_xor (bit_xor (bit_and s.a s.b) (bit_and s.a s.c)) (bit_and s.b s.c) in
    let t2 = (s0 + maj) % 2 ^ 32 in
    record {
      a = (t1 + t2) % 2 ^ 32;
      b = s.a;
      c = s.b;
      d = s.c;
      e = (s.d + t1) % 2 ^ 32;
      f = s.e;
      g = s.f;
      h = s.g;
    }

-- The third loop, by the rounds still to do.
unfoldable pub mix : ℕ → List ℕ → ℕ → Words → Words
mix zero w i s = s
mix (suc n) w i s = mix n w (i + 1) (mix_round w i s)

unfoldable pub add_words : Words → Words → Words
add_words s t = record {
  a = (s.a + t.a) % 2 ^ 32;
  b = (s.b + t.b) % 2 ^ 32;
  c = (s.c + t.c) % 2 ^ 32;
  d = (s.d + t.d) % 2 ^ 32;
  e = (s.e + t.e) % 2 ^ 32;
  f = (s.f + t.f) % 2 ^ 32;
  g = (s.g + t.g) % 2 ^ 32;
  h = (s.h + t.h) % 2 ^ 32;
}

-- Block.
unfoldable pub block : Words → Bytes → Words
block s at = add_words s (mix 64 (extend_words 48 16 (load_words 16 0 at)) 0 s)

-- memcpy into the buffer.
unfoldable pub write_at : Bytes → ℕ → Bytes → Bytes
write_at buffer i [] = buffer
write_at buffer i (x ∷ xs) = write_at (set buffer i x) (i + 1) xs

-- What Add does when the buffer is full.
unfoldable pub settle : Hasher → Hasher
settle x = if x.pending == 64 then record x { state = block x.state x.buffer; pending = 0 } else x

-- The loop of Add. A round takes at least one byte, so the bytes are rounds enough.
unfoldable pub add_loop : ℕ → Hasher → Bytes → Hasher
add_loop zero x bytes = x
add_loop (suc n) x bytes =
    let count = min (length bytes) (64 - x.pending) in
    let x' = settle (record x {
      buffer = write_at x.buffer x.pending (take count bytes);
      pending = x.pending + count;
    }) in
    let next = add_loop n x' (drop count bytes) in if length bytes == 0 then x else next

unfoldable pub add : Hasher → Bytes → Hasher
add x bytes = add_loop (length bytes) (record x { total = (x.total + length bytes) % 2 ^ 64 }) bytes

-- Add of a byte that is no part of the message.
unfoldable pub add_padding : Hasher → Bytes → Hasher
add_padding x bytes = let x' = add x bytes in record x' { total = (x'.total + 2 ^ 64 - 1) % 2 ^ 64 }

-- The loop over the zeros of Finish; `pending` goes round, so 64 rounds are enough.
unfoldable pub zero_loop : ℕ → Hasher → Hasher
zero_loop zero x = x
zero_loop (suc n) x =
    let next = zero_loop n (add_padding x (0 ∷ [])) in if x.pending == 56 then x else next

-- `tail` of Finish, by the bytes still to write.
unfoldable pub length_bytes : ℕ → ℕ → Bytes
length_bytes bits zero = []
length_bytes bits (suc n) = (bits / 2 ^ (8 * n) % 256) ∷ length_bytes bits n

abbrev pub hex_digit : ℕ → ℕ
hex_digit v = if ltb v 10 then b'0' + v else b'a' + (v - 10)

-- The digits of a word, by those still to write.
unfoldable pub hex_word : ℕ → ℕ → Bytes
hex_word word zero = []
hex_word word (suc n) = hex_digit (word / 2 ^ (4 * n) % 16) ∷ hex_word word n

unfoldable pub hex_state : Words → Bytes
hex_state s =
    hex_word s.a 8
    ++ (hex_word s.b 8
        ++ (hex_word s.c 8
            ++ (hex_word s.d 8
                ++ (hex_word s.e 8 ++ (hex_word s.f 8 ++ (hex_word s.g 8 ++ hex_word s.h 8))))))

unfoldable pub finish : Hasher → Bytes
finish x =
    let bits = x.total * 8 % 2 ^ 64 in
    let x' = zero_loop 64 (add_padding x (128 ∷ [])) in
    hex_state (add x' (length_bytes bits 8)).state

unfoldable pub sha256_hex : Bytes → Bytes
sha256_hex bytes = finish (add new_hasher bytes)

-- Sha256File, by what each read of the file gives; the file ends with an empty read.
unfoldable pub add_chunks : Hasher → List Bytes → Hasher
add_chunks x [] = x
add_chunks x (chunk ∷ chunks) =
    let next = add_chunks (add x chunk) chunks in if length chunk == 0 then x else next

unfoldable pub sha256_file : List Bytes → Bytes
sha256_file chunks = finish (add_chunks new_hasher chunks)
