-- ===== src/Hash/Compress.antt =====
-- The compression of one block (common/Sha256.cpp, `rotr` and `sha256_transform`) on 32-bit words.
use aiot_edge_gateway.Prelude.{
  ℕ, zero, suc, ◌+◌, ◌-◌, ◌*◌, ◌/◌, ◌%◌, ◌^◌, bit_and, bit_or, bit_xor, List, [], ◌∷◌, ◌++◌, length,
  get_or,
}
use aiot_edge_gateway.Prelude.Bytes.{read_be32}

-- `K`
unfoldable pub round_constants : List ℕ
round_constants =
    1116352408 ∷ 1899447441 ∷ 3049323471 ∷ 3921009573 ∷ 961987163 ∷ 1508970993 ∷ 2453635748
    ∷ 2870763221 ∷ 3624381080 ∷ 310598401 ∷ 607225278 ∷ 1426881987 ∷ 1925078388 ∷ 2162078206
    ∷ 2614888103 ∷ 3248222580 ∷ 3835390401 ∷ 4022224774 ∷ 264347078 ∷ 604807628 ∷ 770255983
    ∷ 1249150122 ∷ 1555081692 ∷ 1996064986 ∷ 2554220882 ∷ 2821834349 ∷ 2952996808 ∷ 3210313671
    ∷ 3336571891 ∷ 3584528711 ∷ 113926993 ∷ 338241895 ∷ 666307205 ∷ 773529912 ∷ 1294757372
    ∷ 1396182291 ∷ 1695183700 ∷ 1986661051 ∷ 2177026350 ∷ 2456956037 ∷ 2730485921 ∷ 2820302411
    ∷ 3259730800 ∷ 3345764771 ∷ 3516065817 ∷ 3600352804 ∷ 4094571909 ∷ 275423344 ∷ 430227734
    ∷ 506948616 ∷ 659060556 ∷ 883997877 ∷ 958139571 ∷ 1322822218 ∷ 1537002063 ∷ 1747873779
    ∷ 1955562222 ∷ 2024104815 ∷ 2227730452 ∷ 2361852424 ∷ 2428436474 ∷ 2756734187 ∷ 3204031479
    ∷ 3329325298 ∷ []

-- An array `uint32_t H[8]`.
pub record Words : Type 0 where
  pub w0 : ℕ
  pub w1 : ℕ
  pub w2 : ℕ
  pub w3 : ℕ
  pub w4 : ℕ
  pub w5 : ℕ
  pub w6 : ℕ
  pub w7 : ℕ

unfoldable pub rotr : ℕ → ℕ → ℕ
rotr x n = bit_or (x / 2 ^ n) (x * 2 ^ (32 - n) % 2 ^ 32)

-- `W[t]` of the words before it, for `t` from 16 on.
unfoldable pub next_word : List ℕ → ℕ → ℕ
next_word ws t =
    let w15 = get_or ws (t - 15) 0 in
    let w2 = get_or ws (t - 2) 0 in
    let s0 = bit_xor (bit_xor (rotr w15 7) (rotr w15 18)) (w15 / 2 ^ 3) in
    let s1 = bit_xor (bit_xor (rotr w2 17) (rotr w2 19)) (w2 / 2 ^ 10) in
    (get_or ws (t - 16) 0 + s0 + get_or ws (t - 7) 0 + s1) % 2 ^ 32

-- The words of the block from `t` on, `n` of them.
unfoldable pub load_words : List ℕ → ℕ → ℕ → List ℕ
load_words block t zero = []
load_words block t (suc n) = read_be32 block (t * 4) ∷ load_words block (t + 1) n

unfoldable pub extend_words : List ℕ → ℕ → List ℕ
extend_words ws zero = ws
extend_words ws (suc n) = extend_words (ws ++ (next_word ws (length ws) ∷ [])) n

-- The rounds, with the constant and the word of each.
unfoldable pub rounds : List ℕ → List ℕ → ℕ → ℕ → ℕ → ℕ → ℕ → ℕ → ℕ → ℕ → Words
rounds [] ws a b c d e f g h = record {
  w0 = a;
  w1 = b;
  w2 = c;
  w3 = d;
  w4 = e;
  w5 = f;
  w6 = g;
  w7 = h;
}
rounds (k ∷ ks) [] a b c d e f g h = record {
  w0 = a;
  w1 = b;
  w2 = c;
  w3 = d;
  w4 = e;
  w5 = f;
  w6 = g;
  w7 = h;
}
rounds (k ∷ ks) (w ∷ ws) a b c d e f g h =
    let s1 = bit_xor (bit_xor (rotr e 6) (rotr e 11)) (rotr e 25) in
    let ch = bit_xor (bit_and e f) (bit_and (4294967295 - e) g) in
    let temp1 = (h + s1 + ch + k + w) % 2 ^ 32 in
    let s0 = bit_xor (bit_xor (rotr a 2) (rotr a 13)) (rotr a 22) in
    let maj = bit_xor (bit_xor (bit_and a b) (bit_and a c)) (bit_and b c) in
    let temp2 = (s0 + maj) % 2 ^ 32 in
    rounds ks ws ((temp1 + temp2) % 2 ^ 32) a b c ((d + temp1) % 2 ^ 32) e f g

unfoldable pub sha256_transform : Words → List ℕ → Words
sha256_transform s block =
    let r =
      rounds round_constants (extend_words (load_words block 0 16) 48) s.w0 s.w1 s.w2 s.w3 s.w4 s.w5
        s.w6 s.w7 in
    record {
      w0 = (s.w0 + r.w0) % 2 ^ 32;
      w1 = (s.w1 + r.w1) % 2 ^ 32;
      w2 = (s.w2 + r.w2) % 2 ^ 32;
      w3 = (s.w3 + r.w3) % 2 ^ 32;
      w4 = (s.w4 + r.w4) % 2 ^ 32;
      w5 = (s.w5 + r.w5) % 2 ^ 32;
      w6 = (s.w6 + r.w6) % 2 ^ 32;
      w7 = (s.w7 + r.w7) % 2 ^ 32;
    }
