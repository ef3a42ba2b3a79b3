-- ===== src/Spsc/Safety.antt =====
-- No interleaving of the producer and the consumer loses, repeats, reorders or tears an item.
use aiot_edge_gateway.Prelude.{
  ℕ, ◌+◌, ◌<◌, ◌≡◌, refl, sym, ap, subst, ◌^◌, ◌∙◌, ◌≢◌, [], ◌∷◌, ◌++◌, arith, length, set, get_or,
}
use aiot_edge_gateway.Spsc.Queue.{next}
use aiot_edge_gateway.Spsc.Fifo.{
  held, contents, held-lt, full_iff, empty_iff, length-contents, make-IsValid, contents-make,
}
use aiot_edge_gateway.Spsc.Concurrent.{
  System, Producer, Consumer, has_room, has_copied, has_item, has_taken, Step, push_fails,
  push_checks, push_copies, push_publishes, pop_fails, pop_checks, pop_takes, pop_releases, Reach,
  here, then_step, start,
}
use aiot_edge_gateway.Spsc.Invariant.{
  Inv, ProducerKnows, ConsumerKnows, copies-Inv, publishes-Inv, releases-Inv,
}

module _ {ℓ} {A : Type ℓ} (d : A) (capacity : ℕ) where
  abbrev Holds : System A → Type ℓ
  Holds = Inv d capacity

  step_push_copies :
      (s : System A) (item : A) (pos : ℕ)
      → Holds s
      → ProducerKnows d capacity s.queue (has_room item pos)
      → Holds (record s {
        queue = record (s.queue) { buffer = set s.queue.buffer pos item };
        producer = has_copied item pos;
      })
  step_push_copies s item pos v (e, room, u) =
      subst
        (λ p. Holds (record s {
          queue = record (s.queue) { buffer = set s.queue.buffer p item };
          producer = has_copied item p;
        }))
        (sym e) (copies-Inv d capacity s item v room)

  step_push_publishes :
      (s : System A) (item : A) (pos : ℕ)
      → Holds s
      → ProducerKnows d capacity s.queue (has_copied item pos)
      → Holds (record s {
        queue = record (s.queue) { write_pos = next d capacity pos };
        producer = Producer.outside;
        sent = s.sent ++ (item ∷ []);
      })
  step_push_publishes s item pos v (e, room, stored) =
      subst
        (λ p. Holds (record s {
          queue = record (s.queue) { write_pos = next d capacity p };
          producer = Producer.outside;
          sent = s.sent ++ (item ∷ []);
        }))
        (sym e)
        (publishes-Inv d capacity s item v room
          (ap (λ i. get_or s.queue.buffer i d) (sym e) ∙ stored))

  step_pop_releases :
      (s : System A) (item : A) (pos : ℕ)
      → Holds s
      → ConsumerKnows d capacity s.queue (has_taken item pos)
      → Holds (record s {
        queue = record (s.queue) { read_pos = next d capacity pos };
        consumer = Consumer.outside;
        received = s.received ++ (item ∷ []);
      })
  step_pop_releases s item pos v (e, some_held, stored) =
      subst
        (λ p. Holds (record s {
          queue = record (s.queue) { read_pos = next d capacity p };
          consumer = Consumer.outside;
          received = s.received ++ (item ∷ []);
        }))
        (sym e)
        (releases-Inv d capacity s item v some_held
          (ap (λ i. get_or s.queue.buffer i d) (sym e) ∙ stored))

  -- Each step of either thread keeps the invariant.
  pub Step-Inv : {s t : System A} → Step d capacity s t → Holds s → Holds t
  Step-Inv (push_fails at_start full) v = v
  Step-Inv {s} (push_checks item at_start room) v = record {
    valid = v.valid;
    producer_knows = (refl, omega (arith, held-lt d capacity s.queue v.valid, not_full), tt);
    consumer_knows = v.consumer_knows;
    fifo = v.fifo;
  }
    where
      not_full : held d capacity s.queue + 1 ≢ capacity
      not_full e = room ((full_iff d capacity s.queue v.valid).1 e)
  Step-Inv {s} (push_copies item pos at_room) v =
      step_push_copies s item pos v
        (subst (ProducerKnows d capacity s.queue) at_room v.producer_knows)
  Step-Inv {s} (push_publishes item pos at_copy) v =
      step_push_publishes s item pos v
        (subst (ProducerKnows d capacity s.queue) at_copy v.producer_knows)
  Step-Inv (pop_fails at_start meet) v = v
  Step-Inv {s} (pop_checks at_start apart) v = record {
    valid = v.valid;
    producer_knows = v.producer_knows;
    consumer_knows = (refl, λ e. apart ((empty_iff d capacity s.queue v.valid).1 e), tt);
    fifo = v.fifo;
  }
  Step-Inv {s} (pop_takes pos at_item) v = record {
    valid = v.valid;
    producer_knows = v.producer_knows;
    consumer_knows = (knows.0, knows.1, refl);
    fifo = v.fifo;
  }
    where
      knows : ConsumerKnows d capacity s.queue (has_item pos)
      knows = subst (ConsumerKnows d capacity s.queue) at_item v.consumer_knows
  Step-Inv {s} (pop_releases item pos at_taken) v =
      step_pop_releases s item pos v
        (subst (ConsumerKnows d capacity s.queue) at_taken v.consumer_knows)

  start-Inv : 0 < capacity → capacity < 2 ^ 63 → Holds (start d capacity)
  unfolding start
  start-Inv h l = record {
    valid = make-IsValid d capacity h l;
    producer_knows = tt;
    consumer_knows = tt;
    fifo = sym (contents-make d capacity);
  }

  Reach-Inv : {s t : System A} → Reach d capacity s t → Holds s → Holds t
  Reach-Inv here v = v
  Reach-Inv (then_step r st) v = Step-Inv st (Reach-Inv r v)

  -- Whatever steps the two threads have taken since the queue was made, the items handed out are
  -- those pushed, in order, up to the ones still in the queue, of which there are fewer than
  -- `Capacity`: none is lost, repeated, reordered or mixed up.
  pub Reach-fifo :
      {s : System A}
      → 0 < capacity
      → capacity < 2 ^ 63
      → Reach d capacity (start d capacity) s
      → (s.sent ≡ s.received ++ contents d capacity s.queue)
        × (length (contents d capacity s.queue) < capacity)
  Reach-fifo {s} h l r =
      let v = Reach-Inv r (start-Inv h l) in
      (
        v.fifo,
        omega (arith, length-contents d capacity s.queue, held-lt d capacity s.queue v.valid),
      )
