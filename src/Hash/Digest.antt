-- ===== src/Hash/Digest.antt =====
-- The digest of a buffer (common/Sha256.cpp, `sha256_buffer` and `sha256_file`).
use aiot_edge_gateway.Prelude.{
  ℕ, zero, suc, ◌+◌, ◌-◌, ◌*◌, ◌/◌, ◌%◌, ◌^◌, Option, none, some, List, [], ◌∷◌, ◌++◌, length, take,
  drop, replicate, ltb, leb, if◌then◌else◌,
}
use aiot_edge_gateway.Prelude.Text.{Text}
use aiot_edge_gateway.Prelude.Bytes.{be32}
use aiot_edge_gateway.Hash.Compress.{Words, sha256_transform}

unfoldable pub initial : Words
initial = record {
  w0 = 1779033703;
  w1 = 3144134277;
  w2 = 1013904242;
  w3 = 2773480762;
  w4 = 1359893119;
  w5 = 2600822924;
  w6 = 528734635;
  w7 = 1541459225;
}

-- `write_length`: the 64-bit count of bits, most significant byte first.
abbrev pub write_length : ℕ → List ℕ
write_length total_bits = be32 (total_bits / 4294967296) ++ be32 (total_bits % 4294967296)

-- The loop over the full blocks: what is hashed, and the bytes from `i` on.
unfoldable pub absorb_blocks : ℕ → Words → List ℕ → Words × List ℕ
absorb_blocks zero h rest = (h, rest)
absorb_blocks (suc fuel) h rest =
    let after = absorb_blocks fuel (sha256_transform h (take 64 rest)) (drop 64 rest) in
    if leb 64 (length rest) then after else (h, rest)

-- The last block or two: the remaining bytes, fewer than 64, and the padding.
unfoldable pub absorb_rest : ℕ → Words → List ℕ → Words
absorb_rest total_bits h rest =
    if ltb (length rest) 56
    then sha256_transform h
        (rest ++ (128 ∷ (replicate (56 - length rest - 1) 0 ++ write_length total_bits)))
    else sha256_transform (sha256_transform h (rest ++ (128 ∷ replicate (64 - length rest - 1) 0)))
        (replicate 56 0 ++ write_length total_bits)

-- `%08x`
abbrev pub hex_digit : ℕ → ℕ
hex_digit d = if ltb d 10 then 48 + d else 87 + d

abbrev pub hex_word : ℕ → Text
hex_word w =
    hex_digit (w / 268435456 % 16)
    ∷ hex_digit (w / 16777216 % 16)
    ∷ hex_digit (w / 1048576 % 16)
    ∷ hex_digit (w / 65536 % 16)
    ∷ hex_digit (w / 4096 % 16)
    ∷ hex_digit (w / 256 % 16)
    ∷ hex_digit (w / 16 % 16)
    ∷ hex_digit (w % 16)
    ∷ []

unfoldable pub hex : Words → Text
hex s =
    hex_word s.w0
    ++ hex_word s.w1
    ++ hex_word s.w2
    ++ hex_word s.w3
    ++ hex_word s.w4
    ++ hex_word s.w5
    ++ hex_word s.w6
    ++ hex_word s.w7

unfoldable pub sha256_buffer : List ℕ → Text
sha256_buffer bytes =
    let (h, rest) = absorb_blocks (suc (length bytes)) initial bytes in
    hex (absorb_rest (length bytes * 8 % 2 ^ 64) h rest)

-- `none` is a file that cannot be opened.
unfoldable pub sha256_file : Option (List ℕ) → Text
sha256_file none = []
sha256_file (some bytes) = sha256_buffer bytes
