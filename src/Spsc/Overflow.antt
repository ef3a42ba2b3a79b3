-- ===== src/Spsc/Overflow.antt =====
-- What `PipelineQueue::push` of gateway_engine/pipeline/PipelineQueue.h does when the queue is full.
use aiot_edge_gateway.Prelude.{
  ℕ, suc, ◌+◌, ◌-◌, ◌≤◌, ◌<◌, ◌≡◌, refl, ap, ◌∙◌, ◌↔◌, none, some, List, [], ◌∷◌, ◌++◌, arith,
  length, drop, dec_lt,
}
use aiot_edge_gateway.Spsc.Queue.{
  SpscQueue, push, pop, push_dropping, pipeline_push, block, drop_oldest,
}
use aiot_edge_gateway.Spsc.Fifo.{
  IsValid, contents, push_refines, pop_refines, held-lt, length-contents,
}

-- The queue that holds at most `room` items and drops the oldest one to take another.
abbrev pub keep_newest {ℓ} : {A : Type ℓ} → ℕ → List A → A → List A
keep_newest room xs x = drop (suc (length xs) - room) (xs ++ (x ∷ []))

module _ {ℓ} {A : Type ℓ} (d : A) (capacity : ℕ) where
  -- A push that finds room takes one round, whatever the fuel.
  push_dropping-room :
      (fuel : ℕ) (q : SpscQueue A) (x : A)
      → IsValid d capacity q
      → length (contents d capacity q) + 1 < capacity
      → push_dropping d capacity (suc fuel) q x ≡ some (push d capacity q x).1
  unfolding push_dropping
  push_dropping-room fuel q x v h = rw (((push_refines d capacity q x v).1 h).0)

  -- A push that finds the queue full pops the oldest item and goes on.
  push_dropping-full :
      (fuel : ℕ) (q : SpscQueue A) (x : A)
      → IsValid d capacity q
      → capacity ≤ length (contents d capacity q) + 1
      → push_dropping d capacity (suc fuel) q x
        ≡ push_dropping d capacity fuel (pop d capacity q).1 x
  unfolding push_dropping
  push_dropping-full fuel q x v h = rw (ap (λ r. r.0) ((push_refines d capacity q x v).2 h))

  overfull :
      (q : SpscQueue A) (x y : A) (ys : List A)
      → 2 ≤ capacity
      → IsValid d capacity q
      → contents d capacity q ≡ y ∷ ys
      → capacity ≡ length (y ∷ ys) + 1
      → (r : SpscQueue A) × (push_dropping d capacity 2 q x ≡ some r)
        × IsValid d capacity r
        × (contents d capacity r ≡ ys ++ (x ∷ []))
  overfull q x y ys h v e full = (
    r,
    push_dropping-full 1 q x v (omega (arith, ap length e)) ∙ push_dropping-room 0 q' x v' room,
    (push_refines d capacity q' x v').0,
    ((push_refines d capacity q' x v').1 room).1 ∙ ap (λ l. l ++ (x ∷ [])) left,
  )
    where
      q' : SpscQueue A
      q' = (pop d capacity q).1

      v' : IsValid d capacity q'
      v' = (pop_refines d capacity q v).0

      left : contents d capacity q' ≡ ys
      left = ((pop_refines d capacity q v).2 y ys e).1

      room : length (contents d capacity q') + 1 < capacity
      room = omega (arith, ap length left)

      r : SpscQueue A
      r = (push d capacity q' x).1

  at_limit :
      (q : SpscQueue A) (x : A) (xs : List A)
      → 2 ≤ capacity
      → IsValid d capacity q
      → contents d capacity q ≡ xs
      → capacity ≡ length xs + 1
      → (r : SpscQueue A) × (push_dropping d capacity 2 q x ≡ some r)
        × IsValid d capacity r
        × (contents d capacity r ≡ keep_newest (capacity - 1) xs x)
  at_limit q x [] h v e full = absurd (omega arith)
  at_limit q x (y ∷ ys) h v e full =
      let (r, returns, valid, holds) = overfull q x y ys h v e full in
      let one_dropped : 1 ≡ suc (length (y ∷ ys)) - (capacity - 1) = omega arith in
      (r, returns, valid, holds ∙ ap (λ k. drop k (y ∷ ys ++ (x ∷ []))) one_dropped)

  -- The same by the items that the queue holds.
  drops_to_fit :
      (q : SpscQueue A) (x : A) (xs : List A)
      → 2 ≤ capacity
      → IsValid d capacity q
      → contents d capacity q ≡ xs
      → length xs < capacity
      → (r : SpscQueue A) × (push_dropping d capacity 2 q x ≡ some r)
        × IsValid d capacity r
        × (contents d capacity r ≡ keep_newest (capacity - 1) xs x)
  drops_to_fit q x xs h v e fits = elim (dec_lt (length xs + 1) capacity) [
    | yes room ↦
        let roomy : length (contents d capacity q) + 1 < capacity = omega (arith, ap length e) in
        let zero_dropped : 0 ≡ suc (length xs) - (capacity - 1) = omega arith in
        let pushed = push_refines d capacity q x v in
        (
          (push d capacity q x).1,
          push_dropping-room 1 q x v roomy,
          pushed.0,
          (pushed.1 roomy).1
              ∙ (ap (λ l. l ++ (x ∷ [])) e ∙ ap (λ k. drop k (xs ++ (x ∷ []))) zero_dropped),
        )
    | no tight ↦ at_limit q x xs h v e (omega arith)
  ]

  -- Under `DropOldest` a push on a queue with room for at least one item always returns, and then
  -- the queue holds the newest `Capacity - 1` of the items it held and the one pushed, in order.
  pub drop_oldest_keeps_newest :
      (q : SpscQueue A) (x : A)
      → 2 ≤ capacity
      → IsValid d capacity q
      → (r : SpscQueue A) × (pipeline_push d capacity drop_oldest q x ≡ some r)
        × IsValid d capacity r
        × (contents d capacity r ≡ keep_newest (capacity - 1) (contents d capacity q) x)
  unfolding pipeline_push
  drop_oldest_keeps_newest q x h v =
      drops_to_fit q x (contents d capacity q) h v refl
        (omega (arith, length-contents d capacity q, held-lt d capacity q v))

  -- Under `Block` a push goes through exactly while the queue has room; it waits on a full one.
  pub block_waits :
      (q : SpscQueue A) (x : A)
      → IsValid d capacity q
      → (pipeline_push d capacity block q x ≡ none)
        ↔ (capacity ≤ length (contents d capacity q) + 1)
  unfolding pipeline_push
  block_waits q x v = elim (dec_lt (length (contents d capacity q) + 1) capacity) [
    | yes room ↦
        rw (((push_refines d capacity q x v).1 room).0) (λ e. cc, λ over. absurd (omega arith))
    | no tight ↦
        rw (ap (λ r. r.0) ((push_refines d capacity q x v).2 (omega arith)))
          (λ _. omega arith, λ _. refl)
  ]
