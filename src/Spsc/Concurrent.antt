-- ===== src/Spsc/Concurrent.antt =====
-- The queue between its two threads. Each load or store of a position is one step, and so is the
-- copy of the item; the threads' steps interleave in any order. The acquire and release orders of
-- common/SpscQueue.h give the steps such an order: a position is seen only after the copy that
-- stands before its store.
use aiot_edge_gateway.Prelude.{◌≡◌, ◌≢◌, List, [], ◌∷◌, ◌++◌, ℕ, set, get_or}
use aiot_edge_gateway.Spsc.Queue.{SpscQueue, next, make}

-- Where the producer stands in `push`, with what its locals hold: it has seen room for `item` at
-- `pos`, or it has copied `item` there and not yet moved the write position.
pub data Producer {ℓ} (A : Type ℓ) : Type ℓ where
  outside : Producer A
  has_room : A → ℕ → Producer A
  has_copied : A → ℕ → Producer A

-- Where the consumer stands in `pop`.
pub data Consumer {ℓ} (A : Type ℓ) : Type ℓ where
  outside : Consumer A
  has_item : ℕ → Consumer A
  has_taken : A → ℕ → Consumer A

-- The queue, the two threads, and the history: the items whose `push` returned true, and those
-- that a `pop` which returned true has handed out.
pub record System {ℓ} (A : Type ℓ) : Type ℓ where
  pub queue : SpscQueue A
  pub producer : Producer A
  pub consumer : Consumer A
  pub sent : List A
  pub received : List A

module _ {ℓ} {A : Type ℓ} (d : A) (capacity : ℕ) where
  pub data Step (s : System A) : System A → Type ℓ where
    push_fails :
        s.producer ≡ Producer.outside
        → next d capacity s.queue.write_pos ≡ s.queue.read_pos
        → Step s s
    push_checks :
        (item : A)
        → s.producer ≡ Producer.outside
        → next d capacity s.queue.write_pos ≢ s.queue.read_pos
        → Step s (record s { producer = has_room item s.queue.write_pos })
    push_copies :
        (item : A) (pos : ℕ)
        → s.producer ≡ has_room item pos
        → Step s (record s {
          queue = record (s.queue) { buffer = set s.queue.buffer pos item };
          producer = has_copied item pos;
        })
    push_publishes :
        (item : A) (pos : ℕ)
        → s.producer ≡ has_copied item pos
        → Step s (record s {
          queue = record (s.queue) { write_pos = next d capacity pos };
          producer = Producer.outside;
          sent = s.sent ++ (item ∷ []);
        })
    pop_fails : s.consumer ≡ Consumer.outside → s.queue.read_pos ≡ s.queue.write_pos → Step s s
    pop_checks :
        s.consumer ≡ Consumer.outside
        → s.queue.read_pos ≢ s.queue.write_pos
        → Step s (record s { consumer = has_item s.queue.read_pos })
    pop_takes :
        (pos : ℕ)
        → s.consumer ≡ has_item pos
        → Step s (record s { consumer = has_taken (get_or s.queue.buffer pos d) pos })
    pop_releases :
        (item : A) (pos : ℕ)
        → s.consumer ≡ has_taken item pos
        → Step s (record s {
          queue = record (s.queue) { read_pos = next d capacity pos };
          consumer = Consumer.outside;
          received = s.received ++ (item ∷ []);
        })

  pub data Reach (s : System A) : System A → Type ℓ where
    here : Reach s s
    then_step : {t u : System A} → Reach s t → Step t u → Reach s u

  unfoldable pub start : System A
  start = record {
    queue = make d capacity;
    producer = Producer.outside;
    consumer = Consumer.outside;
    sent = [];
    received = [];
  }
