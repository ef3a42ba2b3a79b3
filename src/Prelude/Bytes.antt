-- ===== src/Prelude/Bytes.antt =====
-- Machine words as byte lists. A byte is a number below 256; a word keeps its wrap written out.
use Prim.Native.Nat.{ℕ, ◌+◌, ◌*◌, ◌/◌, ◌%◌, ◌<◌}
use mathlib.Core.List.{List, [], ◌∷◌}
use native.Mathlib.Omega.{arith}
use aiot_edge_gateway.Prelude.Lists.{get_or, All}

abbrev pub IsByte : ℕ → Type 0
IsByte b = b < 256

abbrev pub AreBytes : List ℕ → Type 0
AreBytes = All IsByte

-- The bytes of a 16-bit and of a 32-bit word, most significant first (`htonl`, `x >> 8`).
abbrev pub be16 : ℕ → List ℕ
be16 w = (w / 256 % 256) ∷ (w % 256) ∷ []

abbrev pub be32 : ℕ → List ℕ
be32 w = (w / 16777216 % 256) ∷ (w / 65536 % 256) ∷ (w / 256 % 256) ∷ (w % 256) ∷ []

-- The word that four bytes from `i` on hold (`ntohl` of a copied `uint32_t`).
abbrev pub read_be32 : List ℕ → ℕ → ℕ
read_be32 bs i =
    get_or bs i 0 * 16777216
    + get_or bs (i + 1) 0 * 65536
    + get_or bs (i + 2) 0 * 256
    + get_or bs (i + 3) 0

-- A word that the host, which is little endian, copies out of four bytes (`memcpy`).
abbrev pub le32 : ℕ → List ℕ
le32 w = (w % 256) ∷ (w / 256 % 256) ∷ (w / 65536 % 256) ∷ (w / 16777216 % 256) ∷ []

abbrev pub read_le32 : List ℕ → ℕ → ℕ
read_le32 bs i =
    get_or bs i 0
    + get_or bs (i + 1) 0 * 256
    + get_or bs (i + 2) 0 * 65536
    + get_or bs (i + 3) 0 * 16777216

pub be32-AreBytes : (w : ℕ) → AreBytes (be32 w)
be32-AreBytes w = omega arith
