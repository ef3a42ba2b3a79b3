-- ===== src/Shm/Region.antt =====
-- `ShmRegion`, and the calls on it one at a time. A block is the list of its words, all of one
-- length. The two entries of `buffers` and `seq` are functions of the index.
use aiot_edge_gateway.Prelude.{
  ℕ, zero, suc, ◌+◌, ◌-◌, ◌%◌, ◌^◌, Bool, not, Option, none, some, List, [], ◌∷◌, ltb, ◌==◌,
  if◌then◌else◌, replicate,
}

abbrev pub Block : Type 0
Block = List ℕ

pub record ShmRegion : Type 0 where
  pub buffers : ℕ → Block
  pub read_index : ℕ
  pub seq : ℕ → ℕ

abbrev pub update {ℓ} : {A : Type ℓ} → (ℕ → A) → ℕ → A → ℕ → A
update f i v j = if i == j then v else f j

-- `memset` and the three stores of the constructor.
unfoldable pub init_region : ℕ → ShmRegion
init_region words = record { buffers = λ _. replicate words 0; read_index = 0; seq = λ _. 0 }

-- The publisher with the descriptor it notifies, if the monitor has sent one.
pub record ShmPublisher : Type 0 where
  pub region : ShmRegion
  pub notify_fd : Option ℕ

unfoldable pub set_notify_fd : ShmPublisher → ℕ → ShmPublisher
set_notify_fd p fd = record p { notify_fd = some fd }

-- `publish`, with the descriptors that it writes to. The sequence numbers wrap at 2 ^ 32.
unfoldable pub publish : ShmPublisher → Block → ShmPublisher × List ℕ
publish p block =
    let r = p.region in
    let indx = 1 - r.read_index in
    let cur = r.seq indx in
    (
      record p {
        region = record {
          buffers = update r.buffers indx block;
          read_index = indx;
          seq = update r.seq indx ((cur + 2) % 2 ^ 32);
        };
      },
      elim p.notify_fd [ none ↦ [] | some fd ↦ fd ∷ [] ],
    )

-- What a reader keeps between calls.
pub record ShmReader : Type 0 where
  pub last_read_index : ℕ

-- The rounds of `read` with no writer about: nothing changes between the two loads of `seq`, so a
-- round fails only while that number is odd, and so does the next.
unfoldable pub read_rounds : ℕ → ShmReader → ShmRegion → Option Block × ShmReader
read_rounds zero s r = (none, s)
read_rounds (suc retries) s r =
    let again = read_rounds retries s r in
    if ltb 1 r.read_index
    then (none, s)
    else (if r.seq r.read_index % 2 == 1
        then again
        else (some (r.buffers r.read_index), record { last_read_index = r.read_index }))

unfoldable pub read : ShmReader → ShmRegion → Option Block × ShmReader
read s r = read_rounds 4 s r

unfoldable pub has_new_data : ShmReader → ShmRegion → Bool
has_new_data s r = not (r.read_index == s.last_read_index)
