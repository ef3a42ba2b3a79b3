-- ===== src/Ring/Tests.antt =====
-- A ring of four bytes whose contents go round the end of the storage.
use aiot_edge_gateway.Prelude.{
  ℕ, ◌+◌, ◌≤◌, ◌<◌, ◌≡◌, refl, true, false, List, [], ◌∷◌, ◌++◌, arith, length, drop,
}
use aiot_edge_gateway.Ring.Buffer.{
  RingBuffer, make, append, append_loop, consume, available_to_read, available_to_write, reset,
}
use aiot_edge_gateway.Ring.Refine.{
  IsValid, contents, append_refines, consume_refines, available_to_write_lem, reset-make,
}

abbrev two_bytes : List ℕ
two_bytes = 5 ∷ 6 ∷ []

abbrev wrapped : RingBuffer
wrapped = record { buffer = 9 ∷ 0 ∷ 7 ∷ 8 ∷ []; capacity = 4; read_pos = 3; write_pos = 1 }

wrapped-IsValid : IsValid wrapped
wrapped-IsValid = omega arith

contents-wrapped : contents wrapped ≡ 8 ∷ 9 ∷ []
contents-wrapped = refl

append-wrapped : contents (append wrapped (5 ∷ [])).1 ≡ 8 ∷ 9 ∷ 5 ∷ []
unfolding append append_loop available_to_write available_to_read
append-wrapped = refl

available_to_write_lem_example : available_to_write wrapped + available_to_read wrapped + 1 ≡ 4
available_to_write_lem_example = available_to_write_lem wrapped wrapped-IsValid

append_refines_example :
    IsValid (append wrapped two_bytes).1
    × ((length two_bytes ≤ available_to_write wrapped)
        → ((append wrapped two_bytes).0 ≡ true)
          × (contents (append wrapped two_bytes).1 ≡ contents wrapped ++ two_bytes))
    × ((available_to_write wrapped < length two_bytes)
        → append wrapped two_bytes ≡ (false, wrapped))
append_refines_example = append_refines wrapped two_bytes wrapped-IsValid

consume_refines_example :
    IsValid (consume wrapped 2).1
    × ((2 ≤ length (contents wrapped))
        → ((consume wrapped 2).0 ≡ true)
          × (contents (consume wrapped 2).1 ≡ drop 2 (contents wrapped)))
    × ((length (contents wrapped) < 2) → consume wrapped 2 ≡ (false, wrapped))
consume_refines_example = consume_refines wrapped 2 wrapped-IsValid

reset-make_example :
    (IsValid (reset wrapped) × (contents (reset wrapped) ≡ []))
    × (IsValid (make 8) × (contents (make 8) ≡ []))
reset-make_example = reset-make wrapped 8 wrapped-IsValid (omega arith) (omega arith)
