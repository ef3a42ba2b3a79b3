-- ===== src/Ring/Refine.antt =====
-- The ring buffer holds a queue of bytes: what `append` and `consume` do to it, and that every
-- index they touch is inside the storage.
use native.Mathlib.Nat.{mod-lt, mod-mod, mod-add-mod, mod-eq_of_lt, add_assoc}
use native.Mathlib.Numerals.{add-one}
use aiot_edge_gateway.Prelude.{
  ℕ, ◌+◌, ◌-◌, ◌%◌, ◌^◌, ◌≤◌, ◌<◌, ◌≡◌, refl, sym, ap, ◌∙◌, true, false, List, [], ◌∷◌, ◌++◌, arith,
  length, drop, set, length-set, length-replicate, append-nil, append_assoc, inl, inr, ltb,
  Bool-cases, tests,
}
use aiot_edge_gateway.Prelude.Window.{
  distance, distance_self, distance-lt, distance_unique, add-distance, window, length-window,
  window-mod, drop-window, window-set,
}
use aiot_edge_gateway.Ring.Buffer.{
  RingBuffer, make, append, append_loop, consume, available_to_read, available_to_write, reset,
}

-- The capacity is positive and below 2 ^ 31, the range of the counter of `append`'s loop.
pub record IsValid (r : RingBuffer) : Type 0 where
  pub storage : length r.buffer ≡ r.capacity
  pub small : r.capacity < 2 ^ 31
  pub read_in : r.read_pos < r.capacity
  pub write_in : r.write_pos < r.capacity

-- How many bytes are held.
abbrev pub held : RingBuffer → ℕ
held r = distance r.capacity r.read_pos r.write_pos

-- The queue that the ring stands for, oldest byte first.
abbrev pub contents : RingBuffer → List ℕ
contents r = window 0 r.buffer r.capacity r.read_pos (held r)

-- `available_to_read`, wrap-around of `size_t` included, is the number of held bytes.
pub available_to_read_lem : (r : RingBuffer) → IsValid r → available_to_read r ≡ held r
unfolding available_to_read
available_to_read_lem r v = ap (λ k. k % r.capacity) no_wrap
  where
    no_wrap :
        ((r.write_pos + 2 ^ 64 - r.read_pos) % 2 ^ 64 + r.capacity) % 2 ^ 64
        ≡ r.write_pos + r.capacity - r.read_pos
    no_wrap = omega arith

pub held-lt : (r : RingBuffer) → IsValid r → held r < r.capacity
held-lt r v = distance-lt r.capacity r.read_pos r.write_pos (omega arith)

-- The read position and the number of held bytes determine the write position.
read-held : (r : RingBuffer) → IsValid r → (r.read_pos + held r) % r.capacity ≡ r.write_pos
read-held r v = add-distance r.capacity r.read_pos r.write_pos v.read_in v.write_in

-- The free space and the held bytes make up the capacity less one: the buffer never fills its
-- last byte, by which a full ring is told from an empty one.
pub available_to_write_lem :
    (r : RingBuffer) → IsValid r → available_to_write r + available_to_read r + 1 ≡ r.capacity
unfolding available_to_write
available_to_write_lem r v = omega (arith, available_to_read_lem r v, held-lt r v)

-- One byte written by `append`'s loop.
abbrev put : RingBuffer → ℕ → RingBuffer
put r b = record r {
  buffer = set r.buffer (r.write_pos % r.capacity) b;
  write_pos = (r.write_pos + 1) % 2 ^ 64 % r.capacity;
}

put-IsValid : (r : RingBuffer) (b : ℕ) → IsValid r → IsValid (put r b)
put-IsValid r b v = record {
  storage = length-set r.buffer _ b ∙ v.storage;
  small = v.small;
  read_in = v.read_in;
  write_in = mod-lt _ (omega arith);
}

write-put :
    (r : RingBuffer) (b : ℕ)
    → IsValid r
    → (r.read_pos + (held r + 1)) % r.capacity ≡ (put r b).write_pos
write-put r b v =
    ap (λ k. k % r.capacity) (sym (add_assoc r.read_pos (held r) 1))
    ∙ (sym (mod-add-mod (r.read_pos + held r) r.capacity 1)
        ∙ ap (λ k. k % r.capacity) (omega (arith, read-held r v)))

held-put :
    (r : RingBuffer) (b : ℕ) → IsValid r → held r + 1 < r.capacity → held (put r b) ≡ held r + 1
held-put r b v h =
    distance_unique r.capacity r.read_pos _ v.read_in (held r + 1) h (write-put r b v)

contents-put :
    (r : RingBuffer) (b : ℕ)
    → IsValid r
    → held r + 1 < r.capacity
    → contents (put r b) ≡ contents r ++ (b ∷ [])
contents-put r b v h =
    ap (window 0 (put r b).buffer r.capacity r.read_pos) (held-put r b v h ∙ add-one (held r))
    ∙ window-set 0 r.buffer b r.capacity r.read_pos (held r) (r.write_pos % r.capacity)
        (omega arith) (held-lt r v) (mod-eq_of_lt v.write_in ∙ sym (read-held r v))

append_loop_lem :
    (bs : List ℕ) (r : RingBuffer)
    → IsValid r
    → held r + length bs < r.capacity
    → IsValid (append_loop r bs) × (contents (append_loop r bs) ≡ contents r ++ bs)
unfolding append_loop
append_loop_lem [] r v h = (v, sym (append-nil (contents r)))
append_loop_lem (b ∷ bs) r v h =
    let rest =
      append_loop_lem bs (put r b) (put-IsValid r b v)
        (omega (arith, held-put r b v (omega arith))) in
    (
      rest.0,
      rest.1
          ∙ (ap (λ c. c ++ bs) (contents-put r b v (omega arith))
              ∙ append_assoc (contents r) (b ∷ []) bs),
    )

-- `append` writes all of its bytes behind the held ones if the free space takes them, and
-- otherwise refuses and changes nothing; either way the buffer stays valid.
pub append_refines :
    (r : RingBuffer) (bs : List ℕ)
    → IsValid r
    → IsValid (append r bs).1
      × ((length bs ≤ available_to_write r)
          → ((append r bs).0 ≡ true) × (contents (append r bs).1 ≡ contents r ++ bs))
      × ((available_to_write r < length bs) → append r bs ≡ (false, r))
unfolding append
append_refines r bs v = elim (Bool-cases (ltb (available_to_write r) (length bs))) [
  | inl full ↦ rw full (v, λ fits. absurd (omega (tests, full)), λ _. refl)
  | inr room ↦
      let done =
        append_loop_lem bs r v
          (omega (tests, room, available_to_write_lem r v, available_to_read_lem r v)) in
      rw room (done.0, λ _. (refl, done.1), λ over. absurd (omega (tests, room)))
]

-- The ring after `n` bytes are consumed.
abbrev advance : RingBuffer → ℕ → RingBuffer
advance r n = record r { read_pos = (r.read_pos + n) % 2 ^ 64 % r.capacity }

take-IsValid : (r : RingBuffer) (n : ℕ) → IsValid r → IsValid (advance r n)
take-IsValid r n v = record {
  storage = v.storage;
  small = v.small;
  read_in = mod-lt _ (omega arith);
  write_in = v.write_in;
}

held-advance : (r : RingBuffer) (n : ℕ) → IsValid r → n ≤ held r → held (advance r n) ≡ held r - n
held-advance r n v h =
    distance_unique r.capacity (advance r n).read_pos r.write_pos (take-IsValid r n v).read_in
      (held r - n) (omega (arith, held-lt r v)) (mod-add-mod _ r.capacity (held r - n) ∙ same)
  where
    total : (r.read_pos + n) % 2 ^ 64 + (held r - n) ≡ r.read_pos + held r
    total = omega (arith, held-lt r v)

    same : ((r.read_pos + n) % 2 ^ 64 + (held r - n)) % r.capacity ≡ r.write_pos
    same = ap (λ k. k % r.capacity) total ∙ read-held r v

contents-take :
    (r : RingBuffer) (n : ℕ) → IsValid r → n ≤ held r → contents (advance r n) ≡ drop n (contents r)
contents-take r n v h =
    ap (window 0 r.buffer r.capacity (advance r n).read_pos) (held-advance r n v h)
    ∙ (window-mod 0 r.buffer r.capacity _ (r.read_pos + n) (held r - n) place
        ∙ sym (drop-window 0 r.buffer r.capacity n r.read_pos (held r) h))
  where
    place : (advance r n).read_pos % r.capacity ≡ (r.read_pos + n) % r.capacity
    place =
        mod-mod ((r.read_pos + n) % 2 ^ 64) r.capacity
        ∙ ap (λ k. k % r.capacity) (omega (arith, held-lt r v))

-- `consume` takes as many bytes as it is told off the front of the held ones, and refuses and
-- changes nothing where fewer are held; either way the buffer stays valid.
pub consume_refines :
    (r : RingBuffer) (n : ℕ)
    → IsValid r
    → IsValid (consume r n).1
      × ((n ≤ length (contents r))
          → ((consume r n).0 ≡ true) × (contents (consume r n).1 ≡ drop n (contents r)))
      × ((length (contents r) < n) → consume r n ≡ (false, r))
unfolding consume
consume_refines r n v = elim (Bool-cases (ltb (available_to_read r) n)) [
  | inl few ↦ rw few (v, λ fits. absurd (omega (tests, few, held_facts)), λ _. refl)
  | inr enough ↦ rw enough (
    take-IsValid r n v,
    λ _. (refl, contents-take r n v (omega (tests, enough, held_facts))),
    λ over. absurd (omega (tests, enough, held_facts)),
  )
]
  where
    held_facts : (available_to_read r ≡ held r) × (length (contents r) ≡ held r)
    held_facts =
        (available_to_read_lem r v, length-window 0 r.buffer r.capacity r.read_pos (held r))

-- A reset ring is valid and holds nothing, and so is a new one.
pub reset-make :
    (r : RingBuffer) (size : ℕ)
    → IsValid r
    → 0 < size
    → size < 2 ^ 31
    → (IsValid (reset r) × (contents (reset r) ≡ []))
      × (IsValid (make size) × (contents (make size) ≡ []))
unfolding reset make
reset-make r size v hs hl = (
  (
    record { storage = v.storage; small = v.small; read_in = omega arith; write_in = omega arith },
    rw (distance_self r.capacity) refl,
  ),
  (
    record { storage = length-replicate size 0; small = hl; read_in = hs; write_in = hs },
    rw (distance_self size) refl,
  ),
)
