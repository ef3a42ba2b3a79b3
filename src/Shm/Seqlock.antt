-- ===== src/Shm/Seqlock.antt =====
-- `publish` and `read` at the same time: each load or store of an index or a sequence number is a
-- step, and so is the copy of each word of a block, in the order of the program texts. Where the
-- machine does not keep the stores of a thread in order (aarch64), words of the block may come before
-- the odd number: the store of it is a release, which orders what stands before it alone.
use aiot_edge_gateway.Prelude.{
  ℕ, ◌+◌, ◌-◌, ◌%◌, ◌^◌, Bool, false, ◌≤◌, ◌<◌, ◌≡◌, ◌≢◌, List, [], ◌∷◌, ◌++◌, length, set, get_or,
}
use aiot_edge_gateway.Shm.Region.{Block, ShmRegion, init_region, update}

-- Where the publisher stands: copying word `word` of a block into buffer `index`, whose number was
-- `cur`; ahead of the store of the odd number with some of the words; or done with the copy and about
-- to move the read index.
pub data Publisher : Type 0 where
  idle : Publisher
  ahead : (index : ℕ) → Block → (word : ℕ) → Publisher
  copying : (index cur : ℕ) → Block → (word : ℕ) → Publisher
  switching : (index : ℕ) → Publisher

-- Where the reader stands in round `retry`: with the index it loaded; with an even number `s1`
-- and the words it has copied since; back with a block; or out of rounds. `begun` is the true count
-- of the writes to the buffer when `s1` was loaded, and `lag` how many more there were at the check.
pub data Reader : Type 0 where
  round : (retry : ℕ) → Reader
  at_index : (retry index : ℕ) → Reader
  reading : (retry index s1 begun : ℕ) → Block → Reader
  returned : Block → (lag : ℕ) → Reader
  gave_up : Reader

-- `writes` counts, without wrapping, the stores to each sequence number, and `written` are the
-- blocks that were in a buffer whole, newest first: facts of the run that no program text reads.
pub record System : Type 0 where
  pub region : ShmRegion
  pub publisher : Publisher
  pub reader : Reader
  pub writes : ℕ → ℕ
  pub written : List Block

-- `in_order`: whether the stores of a thread become visible in their order.
module _ (in_order : Bool) (words : ℕ) where
  pub data Step (s : System) : System → Type 0 where
    publish_starts :
        (block : Block) (index : ℕ)
        → length block ≡ words
        → s.publisher ≡ idle
        → index ≡ 1 - s.region.read_index
        → Step s (record s {
          region = record (s.region) {
            seq = update s.region.seq index ((s.region.seq index + 1) % 2 ^ 32);
          };
          publisher = copying index (s.region.seq index) block 0;
          writes = update s.writes index (s.writes index + 1);
        })
    publish_hastens :
        (block : Block) (index : ℕ)
        → in_order ≡ false
        → length block ≡ words
        → s.publisher ≡ idle
        → index ≡ 1 - s.region.read_index
        → Step s (record s { publisher = ahead index block 0 })
    ahead_copies :
        (index : ℕ) (block : Block) (word : ℕ)
        → s.publisher ≡ ahead index block word
        → word < words
        → Step s (record s {
          region = record (s.region) {
            buffers =
                update s.region.buffers index
                  (set (s.region.buffers index) word (get_or block word 0));
          };
          publisher = ahead index block (word + 1);
        })
    ahead_stores :
        (index : ℕ) (block : Block) (word : ℕ)
        → s.publisher ≡ ahead index block word
        → Step s (record s {
          region = record (s.region) {
            seq = update s.region.seq index ((s.region.seq index + 1) % 2 ^ 32);
          };
          publisher = copying index (s.region.seq index) block word;
          writes = update s.writes index (s.writes index + 1);
        })
    publish_copies :
        (index cur : ℕ) (block : Block) (word : ℕ)
        → s.publisher ≡ copying index cur block word
        → word < words
        → Step s (record s {
          region = record (s.region) {
            buffers =
                update s.region.buffers index
                  (set (s.region.buffers index) word (get_or block word 0));
          };
          publisher = copying index cur block (word + 1);
        })
    publish_ends :
        (index cur : ℕ) (block : Block)
        → s.publisher ≡ copying index cur block words
        → Step s (record s {
          region = record (s.region) { seq = update s.region.seq index ((cur + 2) % 2 ^ 32) };
          publisher = switching index;
          writes = update s.writes index (s.writes index + 1);
          written = block ∷ s.written;
        })
    publish_switches :
        (index : ℕ)
        → s.publisher ≡ switching index
        → Step s (record s { region = record (s.region) { read_index = index }; publisher = idle })
    read_index :
        (retry : ℕ)
        → s.reader ≡ round retry
        → retry < 4
        → Step s (record s { reader = at_index retry s.region.read_index })
    read_gives_up : s.reader ≡ round 4 → Step s (record s { reader = gave_up })
    read_invalid :
        (retry index : ℕ)
        → s.reader ≡ at_index retry index
        → 1 < index
        → Step s (record s { reader = gave_up })
    read_busy :
        (retry index : ℕ)
        → s.reader ≡ at_index retry index
        → index ≤ 1
        → s.region.seq index % 2 ≡ 1
        → Step s (record s { reader = round (retry + 1) })
    read_begins :
        (retry index : ℕ)
        → s.reader ≡ at_index retry index
        → index ≤ 1
        → s.region.seq index % 2 ≡ 0
        → Step s
            (record s { reader = reading retry index (s.region.seq index) (s.writes index) [] })
    read_copies :
        (retry index s1 begun : ℕ) (copy : Block)
        → s.reader ≡ reading retry index s1 begun copy
        → length copy < words
        → Step s (record s {
          reader =
              reading retry index s1 begun
                (copy ++ (get_or (s.region.buffers index) (length copy) 0 ∷ []));
        })
    read_succeeds :
        (retry index s1 begun : ℕ) (copy : Block)
        → s.reader ≡ reading retry index s1 begun copy
        → length copy ≡ words
        → s.region.seq index ≡ s1
        → Step s (record s { reader = returned copy (s.writes index - begun) })
    read_torn :
        (retry index s1 begun : ℕ) (copy : Block)
        → s.reader ≡ reading retry index s1 begun copy
        → length copy ≡ words
        → s.region.seq index ≢ s1
        → Step s (record s { reader = round (retry + 1) })
    read_again :
        (copy : Block) (lag : ℕ)
        → s.reader ≡ returned copy lag
        → Step s (record s { reader = round 0 })

  pub data Reach (s : System) : System → Type 0 where
    here : Reach s s
    then_step : {t u : System} → Reach s t → Step t u → Reach s u

module _ (words : ℕ) where
  unfoldable pub start : System
  start = record {
    region = init_region words;
    publisher = idle;
    reader = round 0;
    writes = λ _. 0;
    written = (init_region words).buffers 0 ∷ [];
  }
