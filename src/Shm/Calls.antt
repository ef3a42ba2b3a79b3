-- ===== src/Shm/Calls.antt =====
-- One call at a time: what a read after a publish returns, and what `has_new_data` can tell.
use aiot_edge_gateway.Prelude.{
  ℕ, zero, suc, ◌∙◌, ap, ◌==◌, le→ltb, ◌-◌, ◌%◌, ◌≤◌, ◌≡◌, refl, true, false, some, arith,
}
use aiot_edge_gateway.Shm.Region.{
  Block, ShmRegion, ShmPublisher, ShmReader, update, publish, read, read_rounds, has_new_data,
}

-- No publish is under way, and the read index is one of the two.
pub record IsQuiet (r : ShmRegion) : Type 0 where
  pub index_in : r.read_index ≤ 1
  pub even0 : r.seq 0 % 2 ≡ 0
  pub even1 : r.seq 1 % 2 ≡ 0

even_at : (r : ShmRegion) (i : ℕ) → IsQuiet r → i ≤ 1 → r.seq i % 2 ≡ 0
even_at r zero v h = v.even0
even_at r (suc zero) v h = v.even1
even_at r (suc (suc i)) v h = absurd (omega arith)

-- A read with no publish under way takes one round.
read_quiet :
    (s : ShmReader) (r : ShmRegion)
    → r.read_index ≤ 1
    → r.seq r.read_index % 2 ≡ 0
    → read s r ≡ (some (r.buffers r.read_index), record { last_read_index = r.read_index })
unfolding read read_rounds
read_quiet s r h e = rw (le→ltb 1 r.read_index h, ==_of_zero (r.seq r.read_index) e)
  where
    ==_of_zero : (k : ℕ) → k % 2 ≡ 0 → (k % 2 == 1) ≡ false
    ==_of_zero k e = ground arith

update_here {ℓ} : {A : Type ℓ} (f : ℕ → A) (i : ℕ) (v : A) → update f i v i ≡ v
update_here f i v = ground arith

-- A publish leaves the region quiet, turns the read index to the other buffer, and a read that
-- follows returns the published block at its first round and remembers that index. The buffer that
-- was current keeps its block.
pub read-publish :
    (p : ShmPublisher) (s : ShmReader) (block : Block)
    → IsQuiet p.region
    → let r = (publish p block).0.region in
      IsQuiet r
      × (r.read_index ≡ 1 - p.region.read_index)
      × (read s r ≡ (some block, record { last_read_index = r.read_index }))
      × (r.buffers p.region.read_index ≡ p.region.buffers p.region.read_index)
unfolding publish
read-publish p s block v = (
  record {
    index_in = omega arith;
    even0 = ground (arith, v.even0, even_at p.region (1 - p.region.read_index) v (omega arith));
    even1 = ground (arith, v.even1, even_at p.region (1 - p.region.read_index) v (omega arith));
  },
  refl,
  read_quiet s (publish p block).0.region (omega arith)
        (ground (arith, even_at p.region (1 - p.region.read_index) v (omega arith)))
      ∙ ap (λ b. (some b, record { last_read_index = 1 - p.region.read_index }))
          (update_here p.region.buffers (1 - p.region.read_index) block),
  ground arith,
)

-- Two publishes after a read go unnoticed: the read index is back where it was.
pub has_new_data_misses :
    (p : ShmPublisher) (s : ShmReader) (first second : Block)
    → IsQuiet p.region
    → s.last_read_index ≡ p.region.read_index
    → (has_new_data s (publish p first).0.region ≡ true)
      × (has_new_data s (publish (publish p first).0 second).0.region ≡ false)
unfolding publish has_new_data
has_new_data_misses p s first second v e = ground arith
