-- ===== src/Shm/Tests.antt =====
-- Blocks of two words: a read between two publishes, and two publishes that go unnoticed.
use mathlib.Core.List.{Mem}
use aiot_edge_gateway.Prelude.{◌-◌, ◌≡◌, refl, true, false, some, [], ◌∷◌, arith}
use aiot_edge_gateway.Shm.Region.{ShmPublisher, ShmReader, init_region, publish, read, has_new_data}
use aiot_edge_gateway.Shm.Seqlock.{
  System, publish_starts, publish_hastens, ahead_copies, publish_copies, publish_ends,
  publish_switches, read_index, read_begins, read_copies, read_succeeds, Reach, here, then_step,
  start, returned,
}
use aiot_edge_gateway.Shm.Safety.{read_untorn}
use aiot_edge_gateway.Shm.Calls.{IsQuiet, read-publish, has_new_data_misses}

abbrev fresh : ShmPublisher
fresh = record {
  region = record { buffers = λ _. 0 ∷ 0 ∷ []; read_index = 0; seq = λ _. 0 };
  notify_fd = some 5;
}

fresh-IsQuiet : IsQuiet fresh.region
fresh-IsQuiet = omega arith

abbrev reader : ShmReader
reader = record { last_read_index = 0 }

notifies : (publish fresh (7 ∷ 8 ∷ [])).1 ≡ 5 ∷ []
unfolding publish
notifies = refl

read-publish_example :
    let r = (publish fresh (7 ∷ 8 ∷ [])).0.region in
    IsQuiet r
    × (r.read_index ≡ 1 - fresh.region.read_index)
    × (read reader r ≡ (some (7 ∷ 8 ∷ []), record { last_read_index = r.read_index }))
    × (r.buffers fresh.region.read_index ≡ fresh.region.buffers fresh.region.read_index)
read-publish_example = read-publish fresh reader (7 ∷ 8 ∷ []) fresh-IsQuiet

has_new_data_misses_example :
    (has_new_data reader (publish fresh (7 ∷ 8 ∷ [])).0.region ≡ true)
    × (has_new_data reader (publish (publish fresh (7 ∷ 8 ∷ [])).0 (9 ∷ 9 ∷ [])).0.region ≡ false)
has_new_data_misses_example =
    has_new_data_misses fresh reader (7 ∷ 8 ∷ []) (9 ∷ 9 ∷ []) fresh-IsQuiet refl

-- The publisher writes 7 8 into buffer 1 and turns to it; then the reader copies it.
ended : (s : System) × Reach true 2 (start 2) s × (s.reader ≡ returned (7 ∷ 8 ∷ []) 0)
unfolding start init_region
ended = (
  _,
  then_step
      (then_step
        (then_step
          (then_step
            (then_step
              (then_step
                (then_step
                  (then_step
                    (then_step (then_step here (publish_starts (7 ∷ 8 ∷ []) 1 refl refl refl))
                      (publish_copies 1 0 (7 ∷ 8 ∷ []) 0 refl (omega arith)))
                    (publish_copies 1 0 (7 ∷ 8 ∷ []) 1 refl (omega arith)))
                  (publish_ends 1 0 (7 ∷ 8 ∷ []) refl))
                (publish_switches 1 refl))
              (read_index 0 refl (omega arith)))
            (read_begins 0 1 refl (omega arith) refl))
          (read_copies 0 1 2 2 [] refl (omega arith)))
        (read_copies 0 1 2 2 (7 ∷ []) refl (omega arith)))
      (read_succeeds 0 1 2 2 (7 ∷ 8 ∷ []) refl refl refl),
  refl,
)

read_untorn_example : Mem (7 ∷ 8 ∷ []) ended.0.written
read_untorn_example = read_untorn 2 (7 ∷ 8 ∷ []) 0 ended.1 ended.2 (omega arith)

-- Out of order: of a block for the buffer that the reader is in, the first word comes before the odd
-- number, and the read takes it with the old second word.
torn : (s : System) × Reach false 2 (start 2) s × (s.reader ≡ returned (9 ∷ 0 ∷ []) 0)
unfolding start init_region
torn = (
  _,
  (then_step
      (then_step
        (then_step
          (then_step
            (then_step
              (then_step
                (then_step
                  (then_step
                    (then_step
                      (then_step
                        (then_step (then_step here (read_index 0 refl (omega arith)))
                          (publish_starts (7 ∷ 8 ∷ []) 1 refl refl refl))
                        (publish_copies 1 0 (7 ∷ 8 ∷ []) 0 refl (omega arith)))
                      (publish_copies 1 0 (7 ∷ 8 ∷ []) 1 refl (omega arith)))
                    (publish_ends 1 0 (7 ∷ 8 ∷ []) refl))
                  (publish_switches 1 refl))
                (publish_hastens (9 ∷ 9 ∷ []) 0 refl refl refl refl))
              (ahead_copies 0 (9 ∷ 9 ∷ []) 0 refl (omega arith)))
            (read_begins 0 0 refl (omega arith) refl))
          (read_copies 0 0 0 0 [] refl (omega arith)))
        (read_copies 0 0 0 0 (9 ∷ []) refl (omega arith)))
      (read_succeeds 0 0 0 0 (9 ∷ 0 ∷ []) refl refl refl)),
  refl,
)
