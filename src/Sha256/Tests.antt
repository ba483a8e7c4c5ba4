-- ===== src/Sha256/Tests.antt =====
-- Concrete runs of src/zdex/src/Sha256.cpp.
use zircon_dumper.Prelude.{◌/◌, ◌%◌, arith, length, take, ◌≡◌, refl, List, [], ◌∷◌}
use zircon_dumper.Prelude.Preds.{Bytes}
use zircon_dumper.Sha256.{
  initial_state, new_hasher, rotate, load_words, extend_words, mix_round, mix, add_words, block,
  write_at, settle, add_loop, add, add_padding, zero_loop, length_bytes, hex_word, hex_state,
  finish, sha256_hex, sha256_file,
}
use zircon_dumper.Sha256.Digest.{digest, sha256_hex-digest}
use zircon_dumper.Sha256.Feed.{add-append}
use zircon_dumper.Sha256.Padding.{padded, contents, sha256_file-sha256_hex}

first_digits :
    take 8 (sha256_hex (97 ∷ 98 ∷ 99 ∷ []))
    ≡ b'b' ∷ b'a' ∷ b'7' ∷ b'8' ∷ b'1' ∷ b'6' ∷ b'b' ∷ b'f' ∷ []
unfolding sha256_hex finish new_hasher rotate load_words extend_words mix_round mix add_words block
    write_at settle add_loop add add_padding zero_loop length_bytes hex_word hex_state
first_digits = refl

add-append_example :
    add (add new_hasher (97 ∷ [])) (98 ∷ 99 ∷ []) ≡ add new_hasher (97 ∷ 98 ∷ 99 ∷ [])
add-append_example =
    add-append new_hasher (97 ∷ []) (98 ∷ 99 ∷ []) (unfold new_hasher in omega arith)

abbrev two_reads : List Bytes
two_reads = (97 ∷ 98 ∷ []) ∷ (99 ∷ []) ∷ [] ∷ []

sha256_file-sha256_hex_example : sha256_file two_reads ≡ sha256_hex (contents two_reads)
sha256_file-sha256_hex_example = sha256_file-sha256_hex two_reads

sha256_hex-digest_example :
    (sha256_hex (97 ∷ [])
      ≡ hex_state (digest (length (padded (97 ∷ [])) / 64) initial_state (padded (97 ∷ []))))
    × (length (padded (97 ∷ [])) % 64 ≡ 0)
sha256_hex-digest_example = sha256_hex-digest (97 ∷ [])
