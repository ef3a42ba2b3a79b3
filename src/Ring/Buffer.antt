-- ===== src/Ring/Buffer.antt =====
-- The class `RingBuffer` of common/RingBuffer.cpp. `size_t` arithmetic wraps at 2 ^ 64.
use aiot_edge_gateway.Prelude.{
  ℕ, ◌+◌, ◌-◌, ◌%◌, ◌^◌, Bool, true, false, List, [], ◌∷◌, ltb, if◌then◌else◌, length, set,
  replicate, drop,
}

pub record RingBuffer : Type 0 where
  pub buffer : List ℕ
  pub capacity : ℕ
  pub read_pos : ℕ
  pub write_pos : ℕ

abbrev pub size_mod : ℕ
size_mod = 2 ^ 64

-- The constructor: a zeroed vector of `size` bytes.
unfoldable pub make : ℕ → RingBuffer
make size = record { buffer = replicate size 0; capacity = size; read_pos = 0; write_pos = 0 }

unfoldable pub available_to_read : RingBuffer → ℕ
available_to_read r =
    ((r.write_pos + size_mod - r.read_pos) % size_mod + r.capacity) % size_mod % r.capacity

unfoldable pub available_to_write : RingBuffer → ℕ
available_to_write r = (r.capacity + size_mod - available_to_read r + size_mod - 1) % size_mod

-- The loop of `append`, over the bytes still to be written.
unfoldable pub append_loop : RingBuffer → List ℕ → RingBuffer
append_loop r [] = r
append_loop r (b ∷ bs) =
    append_loop
      (record r {
        buffer = set r.buffer (r.write_pos % r.capacity) b;
        write_pos = (r.write_pos + 1) % size_mod % r.capacity;
      })
      bs

unfoldable pub append : RingBuffer → List ℕ → Bool × RingBuffer
append r bs =
    if ltb (available_to_write r) (length bs) then (false, r) else (true, append_loop r bs)

unfoldable pub consume : RingBuffer → ℕ → Bool × RingBuffer
consume r len =
    if ltb (available_to_read r) len
    then (false, r)
    else (true, record r { read_pos = (r.read_pos + len) % size_mod % r.capacity })

-- `read_ptr` points at `buffer_[read_pos_]`: what a reader sees is the storage from there on.
unfoldable pub read_ptr : RingBuffer → List ℕ
read_ptr r = drop r.read_pos r.buffer

unfoldable pub reset : RingBuffer → RingBuffer
reset r = record r { read_pos = 0; write_pos = 0 }
