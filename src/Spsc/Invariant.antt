-- ===== src/Spsc/Invariant.antt =====
-- What holds between any two steps of the queue's threads, and why each change of the queue keeps it.
use aiot_edge_gateway.Prelude.{
  ℕ, ◌+◌, ◌%◌, ◌<◌, ◌≤◌, ◌≡◌, refl, sym, ap, ◌∙◌, ◌≢◌, [], ◌∷◌, ◌++◌, arith, set, get_or,
  append_assoc, length-set, get_or-set_self, get_or-set_ne, ◌-◌,
}
use aiot_edge_gateway.Prelude.Window.{window, window-suc, window-set_behind}
use aiot_edge_gateway.Spsc.Queue.{SpscQueue, next}
use aiot_edge_gateway.Spsc.Fifo.{
  IsValid, held, contents, held-lt, empty_iff, popped, pushed-IsValid, popped-IsValid,
  contents-popped, read-held, held-pushed, held-popped,
}
use aiot_edge_gateway.Spsc.Concurrent.{
  System, Producer, Consumer, has_room, has_copied, has_item, has_taken,
}

module _ {ℓ} {A : Type ℓ} (d : A) (capacity : ℕ) where
  -- What each thread knows where it stands.
  abbrev pub ProducerKnows : SpscQueue A → Producer A → Type ℓ
  ProducerKnows q Producer.outside = Unit
  ProducerKnows q (has_room item pos) =
      (pos ≡ q.write_pos) × (held d capacity q + 1 < capacity) × Unit {ℓ}
  ProducerKnows q (has_copied item pos) =
      (pos ≡ q.write_pos) × (held d capacity q + 1 < capacity) × (get_or q.buffer pos d ≡ item)

  abbrev pub ConsumerKnows : SpscQueue A → Consumer A → Type ℓ
  ConsumerKnows q Consumer.outside = Unit
  ConsumerKnows q (has_item pos) = (pos ≡ q.read_pos) × (held d capacity q ≢ 0) × Unit {ℓ}
  ConsumerKnows q (has_taken item pos) =
      (pos ≡ q.read_pos) × (held d capacity q ≢ 0) × (get_or q.buffer pos d ≡ item)

  pub record Inv (s : System A) : Type ℓ where
    pub valid : IsValid d capacity s.queue
    pub producer_knows : ProducerKnows s.queue s.producer
    pub consumer_knows : ConsumerKnows s.queue s.consumer
    pub fifo : s.sent ≡ s.received ++ contents d capacity s.queue

  producer_keeps :
      (q q' : SpscQueue A) (p : Producer A)
      → held d capacity q' ≤ held d capacity q
      → q'.write_pos ≡ q.write_pos
      → q'.buffer ≡ q.buffer
      → ProducerKnows q p
      → ProducerKnows q' p
  producer_keeps q q' Producer.outside h w b k = tt
  producer_keeps q q' (has_room item pos) h w b (e, room, u) = (e ∙ sym w, omega arith, u)
  producer_keeps q q' (has_copied item pos) h w b (e, room, u) =
      (e ∙ sym w, omega arith, ap (λ l. get_or l pos d) b ∙ u)

  consumer_keeps :
      (q q' : SpscQueue A) (c : Consumer A)
      → (held d capacity q ≢ 0 → held d capacity q' ≢ 0)
      → q'.read_pos ≡ q.read_pos
      → (held d capacity q ≢ 0 → get_or q'.buffer q.read_pos d ≡ get_or q.buffer q.read_pos d)
      → ConsumerKnows q c
      → ConsumerKnows q' c
  consumer_keeps q q' Consumer.outside h r b k = tt
  consumer_keeps q q' (has_item pos) h r b (e, some_held, u) = (e ∙ sym r, h some_held, u)
  consumer_keeps q q' (has_taken item pos) h r b (e, some_held, u) = (
    e ∙ sym r,
    h some_held,
    ap (λ i. get_or q'.buffer i d) e ∙ (b some_held ∙ (ap (λ i. get_or q.buffer i d) (sym e) ∙ u)),
  )

  -- A write at the write position is not one at the read position while the queue holds items, and
  -- leaves the items in the queue alone.
  positions_apart :
      (q : SpscQueue A) → IsValid d capacity q → held d capacity q ≢ 0 → q.write_pos ≢ q.read_pos
  positions_apart q v h e = h ((empty_iff d capacity q v).0 (sym e))

  abbrev pub copied : SpscQueue A → A → SpscQueue A
  copied q x = record q { buffer = set q.buffer q.write_pos x }

  copied-IsValid :
      (q : SpscQueue A) (x : A) → IsValid d capacity q → IsValid d capacity (copied q x)
  copied-IsValid q x v = record {
    storage = length-set q.buffer q.write_pos x ∙ v.storage;
    small = v.small;
    read_in = v.read_in;
    write_in = v.write_in;
  }

  contents-copied :
      (q : SpscQueue A) (x : A)
      → IsValid d capacity q
      → contents d capacity (copied q x) ≡ contents d capacity q
  contents-copied q x v =
      window-set_behind d q.buffer x capacity q.read_pos (held d capacity q) 0 q.write_pos
        (omega (arith, held-lt d capacity q v))
        (sym (read-held d capacity q v) ∙ ap (λ i. i % capacity) (omega arith))

  pub copies-Inv :
      (s : System A) (item : A)
      → Inv s
      → held d capacity s.queue + 1 < capacity
      → Inv (record s { queue = copied s.queue item; producer = has_copied item s.queue.write_pos })
  copies-Inv s item v room = record {
    valid = copied-IsValid s.queue item v.valid;
    producer_knows = (
      refl,
      room,
      get_or-set_self s.queue.buffer _ item d (omega (arith, v.valid.storage, v.valid.write_in)),
    );
    consumer_knows =
        consumer_keeps s.queue (copied s.queue item) s.consumer (λ h. h) refl
          (λ h. get_or-set_ne s.queue.buffer _ _ item d (positions_apart s.queue v.valid h))
          v.consumer_knows;
    fifo = v.fifo ∙ ap (λ c. s.received ++ c) (sym (contents-copied s.queue item v.valid));
  }

  abbrev pub published : SpscQueue A → SpscQueue A
  published q = record q { write_pos = next d capacity q.write_pos }

  contents-published :
      (q : SpscQueue A)
      → IsValid d capacity q
      → held d capacity q + 1 < capacity
      → contents d capacity (published q)
        ≡ contents d capacity q ++ (get_or q.buffer q.write_pos d ∷ [])
  contents-published q v h =
      ap (window d q.buffer capacity q.read_pos) (held-pushed d capacity q d v h)
      ∙ (window-suc d q.buffer capacity q.read_pos (held d capacity q)
          ∙ ap (λ i. contents d capacity q ++ (get_or q.buffer i d ∷ []))
              (read-held d capacity q v))

  pub publishes-Inv :
      (s : System A) (item : A)
      → Inv s
      → held d capacity s.queue + 1 < capacity
      → get_or s.queue.buffer s.queue.write_pos d ≡ item
      → Inv (record s {
        queue = published s.queue;
        producer = Producer.outside;
        sent = s.sent ++ (item ∷ []);
      })
  publishes-Inv s item v room stored = record {
    valid = record {
      storage = v.valid.storage;
      small = v.valid.small;
      read_in = v.valid.read_in;
      write_in = (pushed-IsValid d capacity s.queue item v.valid).write_in;
    };
    producer_knows = tt;
    consumer_knows =
        consumer_keeps s.queue (published s.queue) s.consumer
          (λ h. omega (arith, held-pushed d capacity s.queue d v.valid room)) refl (λ h. refl)
          v.consumer_knows;
    fifo =
        ap (λ l. l ++ (item ∷ [])) v.fifo
        ∙ (append_assoc s.received (contents d capacity s.queue) (item ∷ [])
            ∙ ap (λ c. s.received ++ c)
                (ap (λ x. contents d capacity s.queue ++ (x ∷ [])) (sym stored)
                  ∙ sym (contents-published s.queue v.valid room)));
  }

  pub releases-Inv :
      (s : System A) (item : A)
      → Inv s
      → held d capacity s.queue ≢ 0
      → get_or s.queue.buffer s.queue.read_pos d ≡ item
      → Inv (record s {
        queue = popped d capacity s.queue;
        consumer = Consumer.outside;
        received = s.received ++ (item ∷ []);
      })
  releases-Inv s item v some_held stored = record {
    valid = popped-IsValid d capacity s.queue v.valid;
    producer_knows =
        producer_keeps s.queue (popped d capacity s.queue) s.producer
          (omega (
            arith,
            held-popped d capacity s.queue (held d capacity s.queue - 1) v.valid (omega arith),
          ))
          refl refl v.producer_knows;
    consumer_knows = tt;
    fifo =
        v.fifo
        ∙ (ap (λ c. s.received ++ c)
              (contents-popped d capacity s.queue v.valid some_held
                ∙ ap (λ x. x ∷ contents d capacity (popped d capacity s.queue)) stored)
            ∙ sym (append_assoc s.received (item ∷ []) _));
  }
