-- ===== src/Shm/Safety.antt =====
-- A block that `read` hands out is one that `publish` was given, whole.
use mathlib.Core.List.{Mem, mem-cons_self}
use aiot_edge_gateway.Prelude.{
  ℕ, ◌+◌, ◌-◌, ◌%◌, ◌^◌, ◌<◌, ◌≡◌, refl, sym, ap, ◌∙◌, subst, List, [], ◌∷◌, ◌++◌, arith, length,
  get_or, length-append, length-replicate, get_or-append_left, get_or-append_right, eq_of_get_or,
  dec_lt, Bool, true, false,
}
use aiot_edge_gateway.Shm.Region.{Block, init_region}
use aiot_edge_gateway.Shm.Seqlock.{
  switching, Reader, reading, returned, System, Step, publish_starts, publish_hastens, ahead_copies,
  ahead_stores, publish_copies, publish_ends, publish_switches, read_index, read_gives_up,
  read_invalid, read_busy, read_begins, read_copies, read_succeeds, read_torn, read_again, Reach,
  here, then_step, start,
}
use aiot_edge_gateway.Shm.Invariant.{Agree, PublisherKnows, ReaderKnows, Inv}
use aiot_edge_gateway.Shm.Publish.{publish_starts-Inv, publish_copies-Inv, publish_ends-Inv}

in_order : Bool.true ≡ false → ⊥
in_order h = ground arith

module _ (words : ℕ) where
  -- A new place of the reader keeps the invariant if its knowledge holds.
  moves :
      (s : System) (r : Reader)
      → Inv words s
      → ReaderKnows words s.region.buffers s.writes s.written r
      → Inv words (record s { reader = r })
  moves s r v k = record {
    index_in = v.index_in;
    publisher_knows = v.publisher_knows;
    reader_knows = k;
    counted = v.counted;
    whole = v.whole;
    sized = v.sized;
  }

  -- One more word copied from the buffer that the copy agrees with.
  Agree-snoc :
      (copy buffer : Block)
      → Agree (length copy) copy buffer
      → let copy' = copy ++ (get_or buffer (length copy) 0 ∷ []) in
        Agree (length copy') copy' buffer
  Agree-snoc copy buffer h j p = by_place (dec_lt j (length copy))
    where
      last : List ℕ
      last = get_or buffer (length copy) 0 ∷ []

      by_place : Dec (j < length copy) → get_or (copy ++ last) j 0 ≡ get_or buffer j 0
      by_place (yes q) = get_or-append_left copy last j 0 q ∙ h j q
      by_place (no q) =
          let e : length copy + 0 ≡ j = omega (arith, length-append copy last) in
          subst (λ k. get_or (copy ++ last) k 0 ≡ get_or buffer k 0) e
            (get_or-append_right copy last 0 0 ∙ ap (λ k. get_or buffer k 0) (omega arith))

  -- With the same number before and after, fewer than 2 ^ 32 writes later, nothing was written.
  unchanged :
      (s : System) (retry index s1 begun : ℕ) (copy : Block)
      → Inv words s
      → ReaderKnows words s.region.buffers s.writes s.written (reading retry index s1 begun copy)
      → length copy ≡ words
      → s.region.seq index ≡ s1
      → s.writes index - begun < 2 ^ 32
      → Mem copy s.written
  unchanged s retry index s1 begun copy v (num, even, le, sz, same) full e few =
      subst (λ b. Mem b s.written) (sym whole_copy)
        (v.whole index (ap (λ (k : ℕ). k % 2) still ∙ even))
    where
      still : s.writes index ≡ begun
      still = omega (arith, v.counted index)

      whole_copy : copy ≡ s.region.buffers index
      whole_copy =
          eq_of_get_or copy (s.region.buffers index) 0 (full ∙ sym (v.sized index)) (same still)

  -- Each step of either process keeps the invariant.
  pub Step-Inv : {s t : System} → Step true words s t → Inv words s → Inv words t
  Step-Inv {s} (publish_starts block index sz at_idle e) v =
      publish_starts-Inv words s block index v sz
        (subst (PublisherKnows words s.region.buffers s.writes) at_idle v.publisher_knows)
        (omega arith)
  Step-Inv {s} (publish_hastens block index o sz at_idle e) v = absurd (in_order o)
  Step-Inv {s} (ahead_copies index block word at_ahead h) v =
      absurd (subst (PublisherKnows words s.region.buffers s.writes) at_ahead v.publisher_knows)
  Step-Inv {s} (ahead_stores index block word at_ahead) v =
      absurd (subst (PublisherKnows words s.region.buffers s.writes) at_ahead v.publisher_knows)
  Step-Inv {s} (publish_copies index cur block word at_copy h) v =
      publish_copies-Inv words s index cur block word v
        (subst (PublisherKnows words s.region.buffers s.writes) at_copy v.publisher_knows) h
  Step-Inv {s} (publish_ends index cur block at_copy) v =
      publish_ends-Inv words s index cur block v
        (subst (PublisherKnows words s.region.buffers s.writes) at_copy v.publisher_knows)
  Step-Inv {s} (publish_switches index at_switch) v = record {
    index_in = knows.1;
    publisher_knows = knows.0;
    reader_knows = v.reader_knows;
    counted = v.counted;
    whole = v.whole;
    sized = v.sized;
  }
    where
      knows : PublisherKnows words s.region.buffers s.writes (switching index)
      knows = subst (PublisherKnows words s.region.buffers s.writes) at_switch v.publisher_knows
  Step-Inv {s} (read_index retry at_round few) v = moves s _ v tt
  Step-Inv {s} (read_gives_up at_round) v = moves s _ v tt
  Step-Inv {s} (read_invalid retry index at h) v = moves s _ v tt
  Step-Inv {s} (read_busy retry index at h odd) v = moves s _ v tt
  Step-Inv {s} (read_begins retry index at h even) v = moves s _ v (
    v.counted index,
    omega (arith, v.counted index),
    omega arith,
    omega arith,
    λ e j p. absurd (omega arith),
  )
  Step-Inv {s} (read_copies retry index s1 begun copy at_read more) v = moves s _ v (
    knows.0,
    knows.1,
    knows.2,
    omega (arith, length-append copy (get_or (s.region.buffers index) (length copy) 0 ∷ [])),
    λ e. Agree-snoc copy (s.region.buffers index) (knows.4 e),
  )
    where
      knows :
          ReaderKnows words s.region.buffers s.writes s.written (reading retry index s1 begun copy)
      knows = subst (ReaderKnows words s.region.buffers s.writes s.written) at_read v.reader_knows
  Step-Inv {s} (read_succeeds retry index s1 begun copy at_read full e) v = moves s _ v (
      unchanged s retry index s1 begun copy v
        (subst (ReaderKnows words s.region.buffers s.writes s.written) at_read v.reader_knows) full
        e)
  Step-Inv {s} (read_torn retry index s1 begun copy at_read full ne) v = moves s _ v tt
  Step-Inv {s} (read_again copy lag at_return) v = moves s _ v tt

  start-Inv : Inv words (start words)
  unfolding start init_region
  start-Inv = record {
    index_in = omega arith;
    publisher_knows = λ i. refl;
    reader_knows = tt;
    counted = λ i. refl;
    whole = λ i e. mem-cons_self;
    sized = λ i. length-replicate words 0;
  }

  Reach-Inv : {s t : System} → Reach true words s t → Inv words s → Inv words t
  Reach-Inv here v = v
  Reach-Inv (then_step r st) v = Step-Inv st (Reach-Inv r v)

  -- Where the stores of a thread become visible in their order, and however the publisher's and the
  -- reader's steps interleave, a block that `read` hands out is one that `publish` wrote whole, or the
  -- zeroed one of the start, and never a mixture of two, provided that fewer than 2 ^ 32 stores to that
  -- buffer's sequence number fall into the one read.
  pub read_untorn :
      {s : System} (block : Block) (lag : ℕ)
      → Reach true words (start words) s
      → s.reader ≡ returned block lag
      → lag < 2 ^ 32
      → Mem block s.written
  read_untorn {s} block lag r e h =
      subst (ReaderKnows words s.region.buffers s.writes s.written) e
        (Reach-Inv r start-Inv).reader_knows h
