-- ===== src/Frames/Pool.antt =====
-- The class `FramePool` (gateway_engine/pipeline/FramePool.{h,cpp}), in the steps of its atomic
-- operations. Any thread takes frames, and the deleter of a frame runs on any thread.
-- The free list is a function of the slot, and each slot's `status` says who has it.
use aiot_edge_gateway.Prelude.{
  ℕ, ◌+◌, ◌-◌, Bool, true, false, ◌&&◌, Option, none, some, List, [], ◌∷◌, ltb, ◌==◌, if◌then◌else◌,
}

-- `released` has entered `release`, `read_head` has loaded the head, `linked` has written it to the
-- slot's place in the free list.
pub data Status : Type 0 where
  absent : Status
  free : Status
  held : Status
  released : Status
  read_head : Option ℕ → Status
  linked : Option ℕ → Status

-- Where a thread that takes frames is: outside `get_frame`, behind the load of the head, or behind
-- the read of that slot's successor.
pub data Taker : Type 0 where
  outside : Taker
  loaded : ℕ → Taker
  compared : ℕ → Option ℕ → Taker

-- What a step of `get_frame` returns to its caller: it goes on, or returns no frame or a frame.
pub data Given : Type 0 where
  going : Given
  no_frame : Given
  frame : ℕ → Given

pub record FramePool : Type 0 where
  pub free_head : Option ℕ
  pub free_list : ℕ → Option ℕ
  pub takers : ℕ → Taker
  pub status : ℕ → Status

-- One of -1 is none.
unfoldable pub new_pool : ℕ → FramePool
new_pool pool_size = record {
  free_head = some 0;
  free_list = λ i. if i == pool_size - 1 then none else some (i + 1);
  takers = λ thread. outside;
  status = λ i. if ltb i pool_size then free else absent;
}

abbrev pub update {ℓ} : {A : Type ℓ} → (ℕ → A) → ℕ → A → ℕ → A
update f i a = λ j. if j == i then a else f j

abbrev pub same : Option ℕ → Option ℕ → Bool
same none none = true
same none (some j) = false
same (some i) none = false
same (some i) (some j) = i == j

-- The next step of `get_frame` in a thread; `succeeds` is whether the weak exchange may succeed.
unfoldable pub get_frame_step : ℕ → Bool → FramePool → Given × FramePool
get_frame_step thread succeeds p = elim (p.takers thread) [
  | outside ↦ elim p.free_head [
    | none ↦ (no_frame, p)
    | some idx ↦ (going, record p { takers = update p.takers thread (loaded idx) })
  ]
  | loaded idx ↦
      (going, record p { takers = update p.takers thread (compared idx (p.free_list idx)) })
  | compared idx next ↦
      if succeeds && same p.free_head (some idx)
      then (
        frame idx,
        record p {
          free_head = next;
          takers = update p.takers thread outside;
          status = update p.status idx held;
        },
      )
      else (going, record p { takers = update p.takers thread outside })
]

-- The last reference to a frame goes.
unfoldable pub drop_frame : ℕ → FramePool → FramePool
drop_frame i p = elim (p.status i) [
  | held ↦ record p { status = update p.status i released }
  | _ ↦ p
]

-- The next step of `release`.
unfoldable pub release_step : Bool → ℕ → FramePool → FramePool
release_step succeeds index p = elim (p.status index) [
  | released ↦ record p { status = update p.status index (read_head p.free_head) }
  | read_head old ↦ record p {
    status = update p.status index (linked old);
    free_list = update p.free_list index old;
  }
  | linked old ↦
      if succeeds && same p.free_head old
      then record p { free_head = some index; status = update p.status index free }
      else record p { status = update p.status index released }
  | _ ↦ p
]

pub data Action : Type 0 where
  get_frame : ℕ → Bool → Action
  drop : ℕ → Action
  release : Bool → ℕ → Action

unfoldable pub take_step : Action → FramePool → FramePool
take_step (get_frame thread succeeds) p = (get_frame_step thread succeeds p).1
take_step (drop i) p = drop_frame i p
take_step (release succeeds i) p = release_step succeeds i p

-- Any interleaving of the steps.
unfoldable pub take_steps : List Action → FramePool → FramePool
take_steps [] p = p
take_steps (a ∷ actions) p = take_steps actions (take_step a p)
