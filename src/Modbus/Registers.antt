-- ===== src/Modbus/Registers.antt =====
-- Registers and their bytes. Both drivers of gateway_access pack the registers of a response, most
-- significant byte first, into the payload of a message.
use aiot_edge_gateway.Prelude.{
  ℕ, zero, suc, ◌+◌, ◌*◌, ◌/◌, ◌%◌, ◌^◌, ◌≤◌, ◌<◌, ◌≡◌, refl, sym, ap, ap₂, ◌∙◌, List, [], ◌∷◌,
  ◌++◌, arith, length, take, drop, get_or, All, All-get_or, length-append, get_or-append_right,
  append_assoc, drop-cons,
}
use aiot_edge_gateway.Prelude.Bytes.{IsByte, AreBytes}
use aiot_edge_gateway.Modbus.Frames.{read_registers}

-- The loop over `resp.registers` in `poll_loop`.
unfoldable pub pack_registers : List ℕ → List ℕ
pack_registers [] = []
pack_registers (r ∷ rs) = (r / 256 % 256) ∷ (r % 256) ∷ pack_registers rs

abbrev pub AreWords : List ℕ → Type 0
AreWords = All (λ r. r < 2 ^ 16)

pub length-pack : (rs : List ℕ) → length (pack_registers rs) ≡ length rs * 2
unfolding pack_registers
length-pack [] = refl
length-pack (r ∷ rs) = omega (arith, length-pack rs)

pub pack-AreBytes : (rs : List ℕ) → AreBytes (pack_registers rs)
unfolding pack_registers
pack-AreBytes [] = tt
pack-AreBytes (r ∷ rs) = (omega arith, (omega arith, pack-AreBytes rs))

-- Reading registers out of packed ones gives them back, wherever they stand.
pub read-pack :
    (rs : List ℕ) (pre rest : List ℕ) (off : ℕ)
    → AreWords rs
    → off ≡ length pre
    → read_registers (pre ++ (pack_registers rs ++ rest)) (length rs) off ≡ rs
unfolding read_registers pack_registers
read-pack [] pre rest off h e = refl
read-pack (r ∷ rs) pre rest off h e = ap₂ ◌∷◌ word (
    ap (λ l. read_registers l (length rs) (off + 2))
      (sym (append_assoc pre (hi ∷ lo ∷ []) (pack_registers rs ++ rest)))
    ∙ read-pack rs (pre ++ (hi ∷ lo ∷ [])) rest (off + 2) h.1
        (omega (arith, length-append pre (hi ∷ lo ∷ []))))
  where
    hi : ℕ
    hi = r / 256 % 256

    lo : ℕ
    lo = r % 256

    tail_bytes : List ℕ
    tail_bytes = hi ∷ lo ∷ (pack_registers rs ++ rest)

    place : (i j : ℕ) → i ≡ j → get_or (pre ++ tail_bytes) i 0 ≡ get_or (pre ++ tail_bytes) j 0
    place i j q = ap (λ k. get_or (pre ++ tail_bytes) k 0) q

    word : get_or (pre ++ tail_bytes) off 0 * 256 + get_or (pre ++ tail_bytes) (off + 1) 0 ≡ r
    word = omega (
      arith,
      place off (length pre + 0) (omega arith),
      place (off + 1) (length pre + 1) (omega arith),
      get_or-append_right pre tail_bytes 0 0,
      get_or-append_right pre tail_bytes 1 0,
      h.0,
    )

-- Packing the registers that were read gives the bytes that they were read from.
pub pack-read :
    (n off : ℕ) (bs : List ℕ)
    → AreBytes bs
    → off + n * 2 ≤ length bs
    → pack_registers (read_registers bs n off) ≡ take (n * 2) (drop off bs)
unfolding read_registers pack_registers
pack-read zero off bs h fits = refl
pack-read (suc n) off bs h fits =
    ap₂ ◌∷◌ high (ap₂ ◌∷◌ low (pack-read n (off + 2) bs h (omega arith)))
    ∙ sym (
        ap (λ k. take k (drop off bs)) {x = suc n * 2} {y = suc (suc (n * 2))} (omega arith)
        ∙ ap (take (suc (suc (n * 2))))
            (drop-cons off bs 0 (omega arith) ∙ ap (λ l. get_or bs off 0 ∷ l) next))
  where
    a : ℕ
    a = get_or bs off 0

    b : ℕ
    b = get_or bs (off + 1) 0

    a-IsByte : a < 256
    a-IsByte = All-get_or IsByte bs off 0 h (omega arith)

    b-IsByte : b < 256
    b-IsByte = All-get_or IsByte bs (off + 1) 0 h (omega arith)

    high : (a * 256 + b) / 256 % 256 ≡ a
    high = omega (arith, a-IsByte, b-IsByte)

    low : (a * 256 + b) % 256 ≡ b
    low = omega (arith, a-IsByte, b-IsByte)

    next : drop (suc off) bs ≡ b ∷ drop (off + 2) bs
    next =
        ap (λ k. drop k bs) {x = suc off} {y = off + 1} (omega arith)
        ∙ (drop-cons (off + 1) bs 0 (omega arith)
            ∙ ap (λ k. b ∷ drop k bs) {x = suc (off + 1)} {y = off + 2} (omega arith))
