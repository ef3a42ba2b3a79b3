-- ===== src/Spsc/Fifo.antt =====
-- One call at a time the queue is a bounded FIFO of `Capacity - 1` items.
use native.Mathlib.Nat.{mod-lt, mod-mod, add-zero, mod-add-mod, mod-eq_of_lt, add-mod_right}
use aiot_edge_gateway.Prelude.{
  ℕ, suc, ◌+◌, ◌-◌, ◌%◌, ◌^◌, ◌≤◌, ◌<◌, ◌≡◌, refl, sym, ap, ap₂, ◌∙◌, ◌≢◌, ◌↔◌, dec_lt, inl, inr,
  true, false, none, some, List, [], ◌∷◌, ◌++◌, arith, length, set, get_or, length-set,
  length-replicate, ◌==◌, ==_iff, Bool-cases,
}
use aiot_edge_gateway.Prelude.Window.{
  distance, distance-lt, distance_self, distance_unique, add-distance, window, length-window,
  window-mod, window-set, add-mod-ne,
}
use aiot_edge_gateway.Spsc.Queue.{SpscQueue, next, make, push, pop, size, empty}

no_items {ℓ} : {A : Type ℓ} (xs : List A) → length xs ≡ 0 → xs ≡ []
no_items [] h = refl
no_items (x ∷ xs) h = absurd (omega arith)

pub not_equal : (a b : ℕ) → (a == b) ≡ false → a ≢ b
not_equal a b h = ground arith

module _ {ℓ} {A : Type ℓ} (d : A) (capacity : ℕ) where
  -- Positions stay below the capacity, whose sums do not wrap.
  pub record IsValid (q : SpscQueue A) : Type 0 where
    pub storage : length q.buffer ≡ capacity
    pub small : capacity < 2 ^ 63
    pub read_in : q.read_pos < capacity
    pub write_in : q.write_pos < capacity

  abbrev pub held : SpscQueue A → ℕ
  held q = distance capacity q.read_pos q.write_pos

  -- The items in the queue, oldest first.
  abbrev pub contents : SpscQueue A → List A
  contents q = window d q.buffer capacity q.read_pos (held q)

  pub held-lt : (q : SpscQueue A) → IsValid q → held q < capacity
  held-lt q v = distance-lt capacity q.read_pos q.write_pos (omega arith)

  pub read-held : (q : SpscQueue A) → IsValid q → (q.read_pos + held q) % capacity ≡ q.write_pos
  read-held q v = add-distance capacity q.read_pos q.write_pos v.read_in v.write_in

  pub next-mod : (k : ℕ) → k < capacity → capacity < 2 ^ 63 → next d capacity k ≡ (k + 1) % capacity
  next-mod k h s = ap (λ i. i % capacity) (omega arith)

  pub make-IsValid : 0 < capacity → capacity < 2 ^ 63 → IsValid (make d capacity)
  unfolding make
  make-IsValid h s = record {
    storage = length-replicate capacity d;
    small = s;
    read_in = h;
    write_in = h;
  }

  pub contents-make : contents (make d capacity) ≡ []
  unfolding make
  contents-make = rw (distance_self capacity)

  -- The producer's test: the next write position meets the read position exactly when the queue
  -- holds all it can.
  pub next-write :
      (q : SpscQueue A)
      → IsValid q
      → next d capacity q.write_pos ≡ (q.read_pos + suc (held q)) % capacity
  next-write q v =
      next-mod q.write_pos v.write_in v.small
      ∙ (ap (λ i. (i + 1) % capacity) (sym (read-held q v))
          ∙ (mod-add-mod (q.read_pos + held q) capacity 1 ∙ ap (λ i. i % capacity) (omega arith)))

  pub full_iff :
      (q : SpscQueue A)
      → IsValid q
      → (next d capacity q.write_pos ≡ q.read_pos) ↔ (held q + 1 ≡ capacity)
  full_iff q v = (only_full, from_full)
    where
      only_full : next d capacity q.write_pos ≡ q.read_pos → held q + 1 ≡ capacity
      only_full e = elim (dec_lt (held q + 1) capacity) [
        | yes p ↦ absurd (
            add-mod-ne capacity q.read_pos (held q) (omega arith)
              (mod-eq_of_lt v.read_in ∙ (sym e ∙ next-write q v)))
        | no p ↦ omega (arith, held-lt q v)
      ]

      full_lap : held q + 1 ≡ capacity → q.read_pos + suc (held q) ≡ q.read_pos + capacity
      full_lap e = omega arith

      from_full : held q + 1 ≡ capacity → next d capacity q.write_pos ≡ q.read_pos
      from_full e =
          next-write q v
          ∙ (ap (λ i. i % capacity) (full_lap e)
              ∙ (add-mod_right q.read_pos capacity ∙ mod-eq_of_lt v.read_in))

  pub empty_iff : (q : SpscQueue A) → IsValid q → (q.read_pos ≡ q.write_pos) ↔ (held q ≡ 0)
  empty_iff q v = (none_held, meet)
    where
      none_held : q.read_pos ≡ q.write_pos → held q ≡ 0
      none_held e =
          distance_unique capacity q.read_pos q.write_pos v.read_in 0 (omega arith)
            (rw add-zero (mod-eq_of_lt v.read_in ∙ e))

      nothing : held q ≡ 0 → q.read_pos ≡ q.read_pos + held q
      nothing e = omega arith

      meet : held q ≡ 0 → q.read_pos ≡ q.write_pos
      meet e = sym (mod-eq_of_lt v.read_in) ∙ (ap (λ i. i % capacity) (nothing e) ∙ read-held q v)

  -- The queue after a push that found room, and after a pop that found an item.
  abbrev pub pushed : SpscQueue A → A → SpscQueue A
  pushed q x = record q {
    buffer = set q.buffer q.write_pos x;
    write_pos = next d capacity q.write_pos;
  }

  abbrev pub popped : SpscQueue A → SpscQueue A
  popped q = record q { read_pos = next d capacity q.read_pos }

  pub pushed-IsValid : (q : SpscQueue A) (x : A) → IsValid q → IsValid (pushed q x)
  pushed-IsValid q x v = record {
    storage = length-set q.buffer q.write_pos x ∙ v.storage;
    small = v.small;
    read_in = v.read_in;
    write_in = mod-lt _ (omega arith);
  }

  pub popped-IsValid : (q : SpscQueue A) → IsValid q → IsValid (popped q)
  popped-IsValid q v = record {
    storage = v.storage;
    small = v.small;
    read_in = mod-lt _ (omega arith);
    write_in = v.write_in;
  }

  pub held-pushed :
      (q : SpscQueue A) (x : A)
      → IsValid q
      → held q + 1 < capacity
      → held (pushed q x) ≡ suc (held q)
  held-pushed q x v h =
      distance_unique capacity q.read_pos (next d capacity q.write_pos) v.read_in (suc (held q))
        (omega arith) (sym (next-write q v))

  pub contents-pushed :
      (q : SpscQueue A) (x : A)
      → IsValid q
      → held q + 1 < capacity
      → contents (pushed q x) ≡ contents q ++ (x ∷ [])
  contents-pushed q x v h =
      ap (window d (set q.buffer q.write_pos x) capacity q.read_pos) (held-pushed q x v h)
      ∙ window-set d q.buffer x capacity q.read_pos (held q) q.write_pos (omega (arith, v.storage))
          (held-lt q v) (sym (read-held q v))

  pub held-popped : (q : SpscQueue A) (n : ℕ) → IsValid q → held q ≡ suc n → held (popped q) ≡ n
  held-popped q n v h =
      distance_unique capacity (next d capacity q.read_pos) q.write_pos (popped-IsValid q v).read_in
        n (omega (arith, held-lt q v))
        (ap (λ i. (i + n) % capacity) (next-mod q.read_pos v.read_in v.small)
          ∙ (mod-add-mod (q.read_pos + 1) capacity n
              ∙ (ap (λ i. i % capacity) (omega arith) ∙ read-held q v)))

  contents-popped_at :
      (q : SpscQueue A) (n : ℕ)
      → IsValid q
      → held q ≡ suc n
      → contents q ≡ get_or q.buffer q.read_pos d ∷ contents (popped q)
  contents-popped_at q n v h =
      ap (window d q.buffer capacity q.read_pos) h
      ∙ ap₂ ◌∷◌ (ap (λ i. get_or q.buffer i d) (mod-eq_of_lt v.read_in)) (
          window-mod d q.buffer capacity (q.read_pos + 1) (next d capacity q.read_pos) n place
          ∙ ap (window d q.buffer capacity (next d capacity q.read_pos))
              (sym (held-popped q n v h)))
    where
      place : (q.read_pos + 1) % capacity ≡ next d capacity q.read_pos % capacity
      place =
          sym (mod-mod (q.read_pos + 1) capacity)
          ∙ ap (λ i. i % capacity) (sym (next-mod q.read_pos v.read_in v.small))

  pub contents-popped :
      (q : SpscQueue A)
      → IsValid q
      → held q ≢ 0
      → contents q ≡ get_or q.buffer q.read_pos d ∷ contents (popped q)
  contents-popped q v h = contents-popped_at q (held q - 1) v (omega arith)

  pub length-contents : (q : SpscQueue A) → length (contents q) ≡ held q
  length-contents q = length-window d q.buffer capacity q.read_pos (held q)

  -- `push` succeeds exactly while fewer than `Capacity - 1` items are in the queue; then the item
  -- stands behind the others, and otherwise the queue is unchanged.
  pub push_refines :
      (q : SpscQueue A) (x : A)
      → IsValid q
      → IsValid (push d capacity q x).1
        × ((length (contents q) + 1 < capacity)
            → ((push d capacity q x).0 ≡ true)
              × (contents (push d capacity q x).1 ≡ contents q ++ (x ∷ [])))
        × ((capacity ≤ length (contents q) + 1) → push d capacity q x ≡ (false, q))
  unfolding push
  push_refines q x v = elim (Bool-cases (next d capacity q.write_pos == q.read_pos)) [
    | inl full ↦
        let at_end : held q + 1 ≡ capacity = (full_iff q v).0 ((==_iff _ _).0 full) in
        rw full (v, λ room. absurd (omega (arith, length-contents q)), λ _. refl)
    | inr free ↦
        let not_full : held q + 1 ≢ capacity = λ e. not_equal _ _ free ((full_iff q v).1 e) in
        rw free (
          pushed-IsValid q x v,
          λ room. (refl, contents-pushed q x v (omega (arith, length-contents q))),
          λ over. absurd (omega (arith, length-contents q, held-lt q v)),
        )
  ]

  -- `pop` gives the oldest item and leaves the others in order; it fails exactly on an empty
  -- queue, which it leaves unchanged.
  pub pop_refines :
      (q : SpscQueue A)
      → IsValid q
      → IsValid (pop d capacity q).1
        × ((contents q ≡ []) → pop d capacity q ≡ (none, q))
        × ((x : A) (rest : List A)
            → contents q ≡ x ∷ rest
            → ((pop d capacity q).0 ≡ some x) × (contents (pop d capacity q).1 ≡ rest))
  unfolding pop
  pop_refines q v = elim (Bool-cases (q.read_pos == q.write_pos)) [
    | inl meet ↦
        let nothing : held q ≡ 0 = (empty_iff q v).0 ((==_iff _ _).0 meet) in
        rw meet (v, λ _. refl, λ x rest e. absurd (omega (arith, length-contents q, ap length e)))
    | inr apart ↦
        let some_held : held q ≢ 0 = λ e. not_equal _ _ apart ((empty_iff q v).1 e) in
        let split = contents-popped q v some_held in
        rw apart (
          popped-IsValid q v,
          λ e. absurd (omega (arith, length-contents q, ap length e)),
          λ x rest e. (cc (sym split ∙ e), cc (sym split ∙ e)),
        )
  ]

  size-held : (q : SpscQueue A) → IsValid q → size d capacity q ≡ held q
  unfolding size
  size-held q v = ap (λ i. i % capacity) no_wrap
    where
      no_wrap :
          ((q.write_pos + 2 ^ 64 - q.read_pos) % 2 ^ 64 + capacity) % 2 ^ 64
          ≡ q.write_pos + capacity - q.read_pos
      no_wrap = omega arith

  -- `size` counts the items, wrap-around of `size_t` included, and `empty` says whether there are
  -- none.
  pub size-empty :
      (q : SpscQueue A)
      → IsValid q
      → (size d capacity q ≡ length (contents q))
        × ((empty d capacity q ≡ true) ↔ (contents q ≡ []))
  unfolding empty
  size-empty q v = (
    counted,
    (λ h. no_items (contents q) (zero_length h), λ e. ground (arith, counted, ap length e)),
  )
    where
      counted : size d capacity q ≡ length (contents q)
      counted = size-held q v ∙ sym (length-contents q)

      zero_length : (size d capacity q == 0) ≡ true → length (contents q) ≡ 0
      zero_length h = sym counted ∙ (==_iff _ _).0 h
