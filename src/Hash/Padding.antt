-- ===== src/Hash/Padding.antt =====
-- The digest as the standard words it: the message is padded to full blocks, and then compressed
-- block by block. The code compresses as it goes and pads what is left over.
use aiot_edge_gateway.Prelude.{
  ℕ, zero, suc, ◌+◌, ◌-◌, ◌*◌, ◌/◌, ◌%◌, ◌^◌, ◌<◌, ◌≤◌, ◌≡◌, refl, sym, ap, ap₂, ◌∙◌, List, [], ◌∷◌,
  ◌++◌, length, take, drop, replicate, arith, ltb, leb, lt→ltb, le→ltb, ltb→lt, ltb→le, append-nil,
  leb→le, Bool-cases, inl, inr, length-append, length-replicate, length-take, length-drop,
  take-append, drop-append, take-append-drop, append_assoc,
}
use aiot_edge_gateway.Prelude.Text.{Text}
use aiot_edge_gateway.Hash.Compress.{Words, sha256_transform}
use aiot_edge_gateway.Hash.Digest.{
  initial, write_length, absorb_blocks, absorb_rest, hex, sha256_buffer,
}

-- A one bit, the zeros up to 8 bytes short of a full block, and the message's length in bits.
abbrev pub padding : ℕ → ℕ → List ℕ
padding n total_bits = 128 ∷ (replicate ((119 - n % 64) % 64) 0 ++ write_length total_bits)

-- `n` blocks, one after the other.
unfoldable pub compress_all : ℕ → Words → List ℕ → Words
compress_all zero h xs = h
compress_all (suc n) h xs = compress_all n (sha256_transform h (take 64 xs)) (drop 64 xs)

unfoldable pub sha256_reference : List ℕ → Text
sha256_reference message =
    let padded = message ++ padding (length message) (length message * 8 % 2 ^ 64) in
    hex (compress_all (length padded / 64) initial padded)

take-all : (n : ℕ) (xs : List ℕ) → n ≡ length xs → take n xs ≡ xs
take-all n xs e = ap (take n) (sym (append-nil xs)) ∙ take-append n xs [] e

replicate-add : (m n : ℕ) → replicate m 0 ++ replicate n 0 ≡ replicate {A = ℕ} (m + n) 0
replicate-add zero n = ap (λ k. replicate k 0) (omega arith)
replicate-add (suc m) n =
    ap (λ t. 0 ∷ t) (replicate-add m n)
    ∙ ap (λ k. replicate k 0) (let e : suc (m + n) ≡ suc m + n = omega arith in e)

compress-one :
    (h : Words) (block : List ℕ)
    → length block ≡ 64
    → sha256_transform h block ≡ compress_all 1 h block
unfolding compress_all
compress-one h block e = ap (sha256_transform h) (sym (take-all 64 block (sym e)))

compress-block :
    (n : ℕ) (h : Words) (block ys : List ℕ)
    → length block ≡ 64
    → compress_all n (sha256_transform h block) ys ≡ compress_all (suc n) h (block ++ ys)
unfolding compress_all
compress-block n h block ys e =
    ap₂ (λ t u. compress_all n (sha256_transform h t) u) (sym (take-append 64 block ys (sym e)))
      (sym (drop-append 64 block ys (sym e)))

length-write : (b : ℕ) → length (write_length b) ≡ 8
length-write b = refl

rest-short :
    (b : ℕ) (h : Words) (rest : List ℕ)
    → length rest < 56
    → absorb_rest b h rest
      ≡ compress_all ((length rest + 72) / 64) h (rest ++ padding (length rest) b)
unfolding absorb_rest
rest-short b h rest l = rw (lt→ltb (length rest) 56 l) (
    compress-one h (rest ++ (128 ∷ (replicate (56 - length rest - 1) 0 ++ write_length b))) size
    ∙ ap₂ (λ n k. compress_all n h (rest ++ (128 ∷ (replicate k 0 ++ write_length b))))
        (omega arith) (omega arith))
  where
    size : length (rest ++ (128 ∷ (replicate (56 - length rest - 1) 0 ++ write_length b))) ≡ 64
    size = omega (
      arith,
      l,
      length-append rest (128 ∷ (replicate (56 - length rest - 1) 0 ++ write_length b)),
      length-append (replicate (56 - length rest - 1) 0) (write_length b),
      length-replicate {A = ℕ} (56 - length rest - 1) 0,
    )

rest-long :
    (b : ℕ) (h : Words) (rest : List ℕ)
    → length rest < 64
    → 56 ≤ length rest
    → absorb_rest b h rest
      ≡ compress_all ((length rest + 72) / 64) h (rest ++ padding (length rest) b)
unfolding absorb_rest
rest-long b h rest l m = rw (le→ltb (length rest) 56 m) (
    compress-one (sha256_transform h (rest ++ (128 ∷ replicate k 0)))
      (replicate 56 0 ++ write_length b) refl
    ∙ compress-block 1 h (rest ++ (128 ∷ replicate k 0)) (replicate 56 0 ++ write_length b) size
    ∙ ap₂ (λ n t. compress_all n h t) (omega arith) joined)
  where
    k : ℕ
    k = 64 - length rest - 1

    size : length (rest ++ (128 ∷ replicate k 0)) ≡ 64
    size = omega (arith, l, length-append rest (128 ∷ replicate k 0), length-replicate {A = ℕ} k 0)

    joined :
        (rest ++ (128 ∷ replicate k 0)) ++ (replicate 56 0 ++ write_length b)
        ≡ rest ++ padding (length rest) b
    joined =
        append_assoc rest (128 ∷ replicate k 0) (replicate 56 0 ++ write_length b)
        ∙ ap (λ t. rest ++ (128 ∷ t))
            (sym (append_assoc (replicate k 0) (replicate 56 0) (write_length b))
              ∙ ap (λ t. t ++ write_length b)
                  (replicate-add k 56 ∙ ap (λ n. replicate n 0) (omega arith)))

-- What is left over takes one block with its padding, or two.
absorb_rest_lem :
    (b : ℕ) (h : Words) (rest : List ℕ)
    → length rest < 64
    → absorb_rest b h rest
      ≡ compress_all ((length rest + 72) / 64) h (rest ++ padding (length rest) b)
absorb_rest_lem b h rest l = elim (Bool-cases (ltb (length rest) 56)) [
  | inl e ↦ rest-short b h rest (ltb→lt (length rest) 56 e)
  | inr e ↦ rest-long b h rest l (ltb→le (length rest) 56 e)
]

-- A full block in front counts for one.
full-block :
    (b : ℕ) (h : Words) (xs : List ℕ)
    → 64 ≤ length xs
    → compress_all
        ((length (drop 64 xs) + 72) / 64)
        (sha256_transform h (take 64 xs))
        (drop 64 xs ++ padding (length (drop 64 xs)) b)
      ≡ compress_all ((length xs + 72) / 64) h (xs ++ padding (length xs) b)
full-block b h xs l =
    compress-block ((length (drop 64 xs) + 72) / 64) h (take 64 xs)
      (drop 64 xs ++ padding (length (drop 64 xs)) b) (omega (arith, l, length-take 64 xs))
    ∙ ap₂ (λ n t. compress_all n h t) count joined
  where
    count : suc ((length (drop 64 xs) + 72) / 64) ≡ (length xs + 72) / 64
    count = omega (arith, l, length-drop 64 xs)

    joined :
        take 64 xs ++ (drop 64 xs ++ padding (length (drop 64 xs)) b) ≡ xs ++ padding (length xs) b
    joined =
        sym (append_assoc (take 64 xs) (drop 64 xs) _)
        ∙ ap₂ (λ t n. t ++ (128 ∷ (replicate n 0 ++ write_length b))) (take-append-drop 64 xs)
            (omega (arith, l, length-drop 64 xs))

absorb_lem :
    (fuel b : ℕ) (h : Words) (xs : List ℕ)
    → length xs < fuel
    → (let (h', rest) = absorb_blocks fuel h xs in absorb_rest b h' rest)
      ≡ compress_all ((length xs + 72) / 64) h (xs ++ padding (length xs) b)
unfolding absorb_blocks
absorb_lem zero b h xs l = absurd (omega arith)
absorb_lem (suc fuel) b h xs l = elim (Bool-cases (leb 64 (length xs))) [
  | inl full ↦ rw full (
      absorb_lem fuel b (sha256_transform h (take 64 xs)) (drop 64 xs)
        (omega (arith, leb→le 64 (length xs) full, length-drop 64 xs))
      ∙ full-block b h xs (leb→le 64 (length xs) full))
  | inr short ↦ rw short (absorb_rest_lem b h xs (ground arith))
]

-- The digest of a buffer is that of the reference.
pub sha256_buffer_lem : (bytes : List ℕ) → sha256_buffer bytes ≡ sha256_reference bytes
unfolding sha256_buffer sha256_reference
sha256_buffer_lem bytes = ap hex (
    absorb_lem (suc (length bytes)) (length bytes * 8 % 2 ^ 64) initial bytes (omega arith)
    ∙ ap (λ n. compress_all n initial (bytes ++ pad))
        (omega (
          arith,
          length-append bytes pad,
          length-append (replicate ((119 - length bytes % 64) % 64) 0)
              (write_length (length bytes * 8 % 2 ^ 64)),
          length-replicate {A = ℕ} ((119 - length bytes % 64) % 64) 0,
        )))
  where
    pad : List ℕ
    pad = padding (length bytes) (length bytes * 8 % 2 ^ 64)
