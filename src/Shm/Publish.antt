-- ===== src/Shm/Publish.antt =====
-- The publisher's steps keep the invariant.
use mathlib.Core.List.{Mem, mem-cons_self, mem-cons_of_mem}
use aiot_edge_gateway.Prelude.{
  ℕ, ◌+◌, ◌%◌, ◌^◌, ◌≤◌, ◌<◌, ◌≡◌, ◌≢◌, refl, sym, ap, ◌∙◌, subst, ◌∷◌, arith, length, set, get_or,
  length-set, get_or-set_self, get_or-set_ne, eq_of_get_or, ℕ_discrete,
}
use aiot_edge_gateway.Shm.Region.{Block, update}
use aiot_edge_gateway.Shm.Seqlock.{copying, switching, System}
use aiot_edge_gateway.Shm.Invariant.{AllEven, PublisherKnows, Inv, reader_keeps}

update_self {ℓ} : {A : Type ℓ} (f : ℕ → A) (i : ℕ) (v : A) → update f i v i ≡ v
update_self f i v = ground arith

update_ne {ℓ} : {A : Type ℓ} (f : ℕ → A) (i j : ℕ) (v : A) → i ≢ j → update f i v j ≡ f j
update_ne f i j v h = ground arith

-- What holds of the updated entry and of all others holds of each.
update_cases {ℓ κ} :
    {A : Type ℓ} (P : ℕ → A → Type κ) (f : ℕ → A) (i : ℕ) (v : A)
    → P i v
    → ((j : ℕ) → i ≢ j → P j (f j))
    → (j : ℕ) → P j (update f i v j)
update_cases P f i v here there j = elim (ℕ_discrete i j) [
  | yes e ↦ subst (λ k. P k (update f i v k)) e (subst (P i) (sym (update_self f i v)) here)
  | no n ↦ subst (P j) (sym (update_ne f i j v n)) (there j n)
]

module _ (words : ℕ) where
  pub publish_starts-Inv :
      (s : System) (block : Block) (index : ℕ)
      → Inv words s
      → length block ≡ words
      → AllEven s.writes
      → index ≤ 1
      → Inv words (record s {
        region = record (s.region) {
          seq = update s.region.seq index ((s.region.seq index + 1) % 2 ^ 32);
        };
        publisher = copying index (s.region.seq index) block 0;
        writes = update s.writes index (s.writes index + 1);
      })
  publish_starts-Inv s block index v sz even le = record {
    index_in = v.index_in;
    publisher_knows = (
      λ i n. subst (λ (k : ℕ). k % 2 ≡ 0) (sym (update_ne s.writes index i _ n)) (even i),
      rw (update_self s.writes index (s.writes index + 1)) (omega (arith, even index)),
      rw (update_self s.writes index (s.writes index + 1)) (omega (arith, v.counted index)),
      le,
      omega arith,
      sz,
      λ j p. absurd (omega arith),
    );
    reader_knows =
        reader_keeps words _ _ s.writes _ _ _ s.reader
          (update_cases (λ i (k : ℕ). s.writes i ≤ k) s.writes index _ (omega arith)
            (λ j n. omega arith))
          (λ i e ev. refl) (λ x m. m) v.reader_knows;
    counted = λ i. ground (arith, v.counted i, v.counted index);
    whole = λ i q. v.whole i (ground (arith, even i, even index));
    sized = v.sized;
  }

  pub publish_copies-Inv :
      (s : System) (index cur : ℕ) (block : Block) (word : ℕ)
      → Inv words s
      → PublisherKnows words s.region.buffers s.writes (copying index cur block word)
      → word < words
      → Inv words (record s {
        region = record (s.region) {
          buffers =
              update s.region.buffers index
                (set (s.region.buffers index) word (get_or block word 0));
        };
        publisher = copying index cur block (word + 1);
      })
  publish_copies-Inv s index cur block word v (others, odd, num, le, w, sz, same) h = record {
    index_in = v.index_in;
    publisher_knows = (
      others,
      odd,
      num,
      le,
      omega arith,
      sz,
      rw (update_self s.region.buffers index written_word) (λ j p. agrees j p (ℕ_discrete word j)),
    );
    reader_knows =
        reader_keeps words s.region.buffers _ s.writes s.writes s.written s.written s.reader
          (λ i. omega arith)
          (λ i e even. update_ne s.region.buffers index i written_word (λ q. odd_even i q even))
          (λ x m. m) v.reader_knows;
    counted = v.counted;
    whole = λ i even.
        subst (λ b. Mem b s.written)
          (sym (update_ne s.region.buffers index i written_word (λ q. odd_even i q even)))
          (v.whole i even);
    sized =
        update_cases (λ i b. length b ≡ words) s.region.buffers index written_word
          (length-set (s.region.buffers index) word (get_or block word 0) ∙ v.sized index)
          (λ j n. v.sized j);
  }
    where
      written_word : Block
      written_word = set (s.region.buffers index) word (get_or block word 0)

      odd_even : (i : ℕ) → index ≡ i → s.writes i % 2 ≡ 0 → ⊥
      odd_even i q even = omega (arith, ap s.writes q)

      agrees : (j : ℕ) → j < word + 1 → Dec (word ≡ j) → get_or written_word j 0 ≡ get_or block j 0
      agrees j p (yes e) =
          subst (λ k. get_or written_word k 0 ≡ get_or block k 0) e
            (get_or-set_self (s.region.buffers index) word (get_or block word 0) 0
              (omega (arith, v.sized index)))
      agrees j p (no n) =
          get_or-set_ne (s.region.buffers index) word j (get_or block word 0) 0 n
          ∙ same j (omega arith)

  pub publish_ends-Inv :
      (s : System) (index cur : ℕ) (block : Block)
      → Inv words s
      → PublisherKnows words s.region.buffers s.writes (copying index cur block words)
      → Inv words (record s {
        region = record (s.region) { seq = update s.region.seq index ((cur + 2) % 2 ^ 32) };
        publisher = switching index;
        writes = update s.writes index (s.writes index + 1);
        written = block ∷ s.written;
      })
  publish_ends-Inv s index cur block v (others, odd, num, le, w, sz, same) = record {
    index_in = v.index_in;
    publisher_knows =
        (update_cases (λ i (k : ℕ). k % 2 ≡ 0) s.writes index _ (omega arith) others, le);
    reader_knows =
        reader_keeps words _ _ s.writes _ _ _ s.reader
          (update_cases (λ i (k : ℕ). s.writes i ≤ k) s.writes index _ (omega arith)
            (λ j n. omega arith))
          (λ i e ev. refl) (λ x m. mem-cons_of_mem block m) v.reader_knows;
    counted = λ i. ground (arith, v.counted i);
    whole = λ i q. holds i (ℕ_discrete index i);
    sized = v.sized;
  }
    where
      complete : s.region.buffers index ≡ block
      complete =
          eq_of_get_or (s.region.buffers index) block 0 (v.sized index ∙ sym sz)
            (λ j p. same j (omega (arith, v.sized index)))

      holds : (i : ℕ) → Dec (index ≡ i) → Mem (s.region.buffers i) (block ∷ s.written)
      holds i (yes e) =
          subst (λ k. Mem (s.region.buffers k) (block ∷ s.written)) e
            (subst (λ b. Mem b (block ∷ s.written)) (sym complete) mem-cons_self)
      holds i (no n) = mem-cons_of_mem block (v.whole i (others i n))
