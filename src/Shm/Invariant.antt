-- ===== src/Shm/Invariant.antt =====
-- What holds between any two steps of the publisher and the reader.
use mathlib.Core.List.{Mem}
use aiot_edge_gateway.Prelude.{
  ℕ, ◌+◌, ◌%◌, ◌^◌, ◌≤◌, ◌<◌, ◌≡◌, ◌≢◌, sym, ap, ◌∙◌, List, arith, length, get_or,
}
use aiot_edge_gateway.Shm.Region.{Block}
use aiot_edge_gateway.Shm.Seqlock.{
  Publisher, idle, ahead, copying, switching, Reader, round, at_index, reading, returned, gave_up,
  System,
}

-- The two blocks have the same first `n` words.
abbrev pub Agree : ℕ → Block → Block → Type 0
Agree n xs ys = (j : ℕ) → j < n → get_or xs j 0 ≡ get_or ys j 0

abbrev pub AllEven : (ℕ → ℕ) → Type 0
AllEven writes = (i : ℕ) → writes i % 2 ≡ 0

module _ (words : ℕ) where
  abbrev pub PublisherKnows : (ℕ → Block) → (ℕ → ℕ) → Publisher → Type 0
  PublisherKnows buffers writes idle = AllEven writes
  PublisherKnows buffers writes (copying index cur block word) =
      ((i : ℕ) → index ≢ i → writes i % 2 ≡ 0)
      × (writes index % 2 ≡ 1)
      × ((cur + 2) % 2 ^ 32 ≡ (writes index + 1) % 2 ^ 32)
      × (index ≤ 1)
      × (word ≤ words)
      × (length block ≡ words)
      × Agree word (buffers index) block
  PublisherKnows buffers writes (ahead index block word) = ⊥
  PublisherKnows buffers writes (switching index) = AllEven writes × (index ≤ 1)

  abbrev pub ReaderKnows : (ℕ → Block) → (ℕ → ℕ) → List Block → Reader → Type 0
  ReaderKnows buffers writes written (reading retry index s1 begun copy) =
      (s1 ≡ begun % 2 ^ 32)
      × (begun % 2 ≡ 0)
      × (begun ≤ writes index)
      × (length copy ≤ words)
      × (writes index ≡ begun → Agree (length copy) copy (buffers index))
  ReaderKnows buffers writes written (returned copy lag) = lag < 2 ^ 32 → Mem copy written
  ReaderKnows buffers writes written (round retry) = Unit
  ReaderKnows buffers writes written (at_index retry index) = Unit
  ReaderKnows buffers writes written gave_up = Unit

  pub record Inv (s : System) : Type 0 where
    pub index_in : s.region.read_index ≤ 1
    pub publisher_knows : PublisherKnows s.region.buffers s.writes s.publisher
    pub reader_knows : ReaderKnows s.region.buffers s.writes s.written s.reader
    pub counted : (i : ℕ) → s.region.seq i ≡ s.writes i % 2 ^ 32
    pub whole : (i : ℕ) → s.writes i % 2 ≡ 0 → Mem (s.region.buffers i) s.written
    pub sized : (i : ℕ) → length (s.region.buffers i) ≡ words

  -- The reader's knowledge outlives what the publisher does.
  pub reader_keeps :
      (b b' : ℕ → Block) (w w' : ℕ → ℕ) (l l' : List Block) (r : Reader)
      → ((i : ℕ) → w i ≤ w' i)
      → ((i : ℕ) → w' i ≡ w i → w i % 2 ≡ 0 → b' i ≡ b i)
      → ((x : Block) → Mem x l → Mem x l')
      → ReaderKnows b w l r
      → ReaderKnows b' w' l' r
  reader_keeps b b' w w' l l' (round retry) grows still kept k = tt
  reader_keeps b b' w w' l l' (at_index retry index) grows still kept k = tt
  reader_keeps b b' w w' l l' (reading retry index s1 begun copy) grows still kept
        (e, even, le, sz, same) =
      (
        e,
        even,
        omega (arith, grows index),
        sz,
        λ q j p.
            let unchanged : w index ≡ begun = omega (arith, grows index) in
            same unchanged j p
            ∙ ap (λ blk. get_or blk j 0)
                (sym (still index (q ∙ sym unchanged) (ap (λ (k : ℕ). k % 2) unchanged ∙ even))),
      )
  reader_keeps b b' w w' l l' (returned copy lag) grows still kept k = λ h. kept copy (k h)
  reader_keeps b b' w w' l l' gave_up grows still kept k = tt
