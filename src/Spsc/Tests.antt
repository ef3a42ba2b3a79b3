-- ===== src/Spsc/Tests.antt =====
-- A queue of capacity four, and a short run of its two threads.
use aiot_edge_gateway.Prelude.{
  ℕ, ◌+◌, ◌≤◌, ◌<◌, ◌≡◌, ◌↔◌, refl, true, false, none, some, List, [], ◌∷◌, ◌++◌, arith, length,
}
use aiot_edge_gateway.Spsc.Queue.{
  SpscQueue, make, push, pop, size, empty, push_dropping, pipeline_push, block, drop_oldest,
}
use aiot_edge_gateway.Spsc.Fifo.{IsValid, contents, push_refines, pop_refines, size-empty}
use aiot_edge_gateway.Spsc.Concurrent.{
  System, has_copied, has_taken, push_checks, push_copies, push_publishes, pop_checks, pop_takes,
  Reach, here, then_step, start,
}
use aiot_edge_gateway.Spsc.Safety.{Reach-fifo}
use aiot_edge_gateway.Spsc.Overflow.{keep_newest, drop_oldest_keeps_newest, block_waits}

-- Full: three items, round the end of the array.
abbrev full_queue : SpscQueue ℕ
full_queue = record { buffer = 6 ∷ 0 ∷ 4 ∷ 5 ∷ []; read_pos = 2; write_pos = 1 }

full_queue-IsValid : IsValid 0 4 full_queue
full_queue-IsValid = omega arith

contents-full_queue : contents 0 4 full_queue ≡ 4 ∷ 5 ∷ 6 ∷ []
contents-full_queue = refl

drop_oldest_run :
    pipeline_push 0 4 drop_oldest full_queue 7
    ≡ some (record { buffer = 6 ∷ 7 ∷ 4 ∷ 5 ∷ []; read_pos = 3; write_pos = 2 })
unfolding pipeline_push push_dropping push pop
drop_oldest_run = refl

push_refines_example :
    IsValid 0 4 (push 0 4 full_queue 7).1
    × ((length (contents 0 4 full_queue) + 1 < 4)
        → ((push 0 4 full_queue 7).0 ≡ true)
          × (contents 0 4 (push 0 4 full_queue 7).1 ≡ contents 0 4 full_queue ++ (7 ∷ [])))
    × ((4 ≤ length (contents 0 4 full_queue) + 1) → push 0 4 full_queue 7 ≡ (false, full_queue))
push_refines_example = push_refines 0 4 full_queue 7 full_queue-IsValid

pop_refines_example :
    IsValid 0 4 (pop 0 4 full_queue).1
    × ((contents 0 4 full_queue ≡ []) → pop 0 4 full_queue ≡ (none, full_queue))
    × ((x : ℕ) (rest : List ℕ)
        → contents 0 4 full_queue ≡ x ∷ rest
        → ((pop 0 4 full_queue).0 ≡ some x) × (contents 0 4 (pop 0 4 full_queue).1 ≡ rest))
pop_refines_example = pop_refines 0 4 full_queue full_queue-IsValid

size-empty_example :
    (size 0 4 full_queue ≡ length (contents 0 4 full_queue))
    × ((empty 0 4 full_queue ≡ true) ↔ (contents 0 4 full_queue ≡ []))
size-empty_example = size-empty 0 4 full_queue full_queue-IsValid

drop_oldest_keeps_newest_example :
    (r : SpscQueue ℕ) × (pipeline_push 0 4 drop_oldest full_queue 7 ≡ some r)
    × IsValid 0 4 r
    × (contents 0 4 r ≡ keep_newest 3 (contents 0 4 full_queue) 7)
drop_oldest_keeps_newest_example =
    drop_oldest_keeps_newest 0 4 full_queue 7 (omega arith) full_queue-IsValid

block_waits_example :
    (pipeline_push 0 4 block full_queue 7 ≡ none) ↔ (4 ≤ length (contents 0 4 full_queue) + 1)
block_waits_example = block_waits 0 4 full_queue 7 full_queue-IsValid

-- The producer pushes 8; the consumer has checked and taken it while the producer pushes 9.
abbrev middle : System ℕ
middle = record {
  queue = record { buffer = 8 ∷ 9 ∷ 0 ∷ 0 ∷ []; read_pos = 0; write_pos = 1 };
  producer = has_copied 9 1;
  consumer = has_taken 8 0;
  sent = 8 ∷ [];
  received = [];
}

middle-Reach : Reach 0 4 (start 0 4) middle
unfolding start make
middle-Reach =
    then_step
      (then_step
        (then_step
          (then_step
            (then_step
              (then_step (then_step here (push_checks 8 refl (omega arith))) (push_copies 8 0 refl))
              (push_publishes 8 0 refl))
            (pop_checks refl (omega arith)))
          (push_checks 9 refl (omega arith)))
        (pop_takes 0 refl))
      (push_copies 9 1 refl)

Reach-fifo_example :
    (middle.sent ≡ middle.received ++ contents 0 4 middle.queue)
    × (length (contents 0 4 middle.queue) < 4)
Reach-fifo_example = Reach-fifo 0 4 (omega arith) (omega arith) middle-Reach
