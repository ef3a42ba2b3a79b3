-- ===== src/Hash/Tests.antt =====
-- The digest of a short text.
use aiot_edge_gateway.Prelude.{◌≡◌, refl}
use aiot_edge_gateway.Prelude.Text.{codes}
use aiot_edge_gateway.Hash.Compress.{
  rounds, rotr, next_word, load_words, extend_words, round_constants, sha256_transform,
}
use aiot_edge_gateway.Hash.Padding.{sha256_reference, sha256_buffer_lem}
use aiot_edge_gateway.Hash.Digest.{initial, absorb_blocks, absorb_rest, hex, sha256_buffer}

sha256_buffer-abc :
    sha256_buffer (codes "abc")
    ≡ codes "ba7816bf8f01cfea414140de5dae2223b00361a396177a9cb410ff61f20015ad"
unfolding initial absorb_blocks absorb_rest hex sha256_buffer rounds rotr next_word load_words
    extend_words round_constants sha256_transform
sha256_buffer-abc = refl

sha256_buffer_lem_example : sha256_buffer (codes "abc") ≡ sha256_reference (codes "abc")
sha256_buffer_lem_example = sha256_buffer_lem (codes "abc")
