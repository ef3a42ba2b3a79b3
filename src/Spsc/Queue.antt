-- ===== src/Spsc/Queue.antt =====
-- The class template `SpscQueue<T, Capacity>` of common/SpscQueue.h, and `PipelineQueue` of
-- gateway_engine/pipeline/PipelineQueue.h, one call at a time. `size_t` sums wrap at 2 ^ 64.
use aiot_edge_gateway.Prelude.{
  ℕ, zero, suc, ◌+◌, ◌-◌, ◌%◌, ◌^◌, Bool, true, false, Option, none, some, List, ◌==◌,
  if◌then◌else◌, set, get_or, replicate,
}

pub record SpscQueue {ℓ} (A : Type ℓ) : Type ℓ where
  pub buffer : List A
  pub read_pos : ℕ
  pub write_pos : ℕ

pub data OverflowPolicy : Type 0 where
  block drop_oldest : OverflowPolicy

-- `T` with its value-initialised element `d`, and `Capacity`.
module _ {ℓ} {A : Type ℓ} (d : A) (capacity : ℕ) where
  unfoldable pub make : SpscQueue A
  make = record { buffer = replicate capacity d; read_pos = 0; write_pos = 0 }

  -- The next place of a position.
  abbrev pub next : ℕ → ℕ
  next pos = (pos + 1) % 2 ^ 64 % capacity

  unfoldable pub push : SpscQueue A → A → Bool × SpscQueue A
  push q item =
      if next q.write_pos == q.read_pos
      then (false, q)
      else (true, record q { buffer = set q.buffer q.write_pos item; write_pos = next q.write_pos })

  -- The result is the item that `pop` stores through its argument.
  unfoldable pub pop : SpscQueue A → Option A × SpscQueue A
  pop q =
      if q.read_pos == q.write_pos
      then (none, q)
      else (some (get_or q.buffer q.read_pos d), record q { read_pos = next q.read_pos })

  unfoldable pub size : SpscQueue A → ℕ
  size q = ((q.write_pos + 2 ^ 64 - q.read_pos) % 2 ^ 64 + capacity) % 2 ^ 64 % capacity

  unfoldable pub empty : SpscQueue A → Bool
  empty q = size q == 0

  -- The loop `while (!q_.push(item)) q_.pop(dummy);` on fuel; `none` when the fuel is spent.
  unfoldable pub push_dropping : ℕ → SpscQueue A → A → Option (SpscQueue A)
  push_dropping zero q item = none
  push_dropping (suc fuel) q item =
      let rest = push_dropping fuel (pop q).1 item in
      if (push q item).0 then some (push q item).1 else rest

  -- `PipelineQueue::push`. Under `block` the loop sleeps until a consumer makes room: `none` says
  -- that this call is still waiting. Under `drop_oldest` two rounds are enough.
  unfoldable pub pipeline_push : OverflowPolicy → SpscQueue A → A → Option (SpscQueue A)
  pipeline_push block q item = if (push q item).0 then some (push q item).1 else none
  pipeline_push drop_oldest q item = push_dropping 2 q item
