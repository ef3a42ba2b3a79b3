-- ===== src/Frames/Taken.antt =====
-- No frame has two users (gateway_engine/pipeline/FramePool.cpp).
use aiot_edge_gateway.Prelude.{
  ℕ, zero, suc, ◌+◌, ◌-◌, ◌<◌, ◌≡◌, ◌≢◌, inl, inr, refl, sym, subst, ◌∙◌, Bool, ◌&&◌, Option, ap,
  none, some, List, [], ◌∷◌, leb, ◌==◌, arith, Bool-cases, Option-cases, if◌then◌else◌,
}
use aiot_edge_gateway.Frames.Pool.{
  Status, absent, free, held, linked, Taker, outside, loaded, compared, FramePool, new_pool, update,
  same, get_frame_step, Given, going, no_frame, frame, Action, get_frame, drop, release, take_step,
  take_steps,
}
use aiot_edge_gateway.Frames.Owned.{
  occurrences, Chain, is_free, TakerKnows, IsPool, split_at, update_ne, update_self, same-eq,
  drop_frame-IsPool, release_step-IsPool,
}

some-eq : {a b : ℕ} → Option.some a ≡ some b → a ≡ b
some-eq h = ground arith

free-of : (s : Status) → is_free s ≢ 0 → s ≡ free
free-of absent n = absurd (n refl)
free-of free n = refl
free-of held n = absurd (n refl)
free-of Status.released n = absurd (n refl)
free-of (Status.read_head old) n = absurd (n refl)
free-of (linked old) n = absurd (n refl)

module _ (thread : ℕ) where
  head-free :
      (p : FramePool) (idx : ℕ) → p.free_head ≡ some idx → IsPool thread p → p.status idx ≡ free
  head-free p idx e v = go v.slots v.chain (v.exact idx)
    where
      go :
          (slots : List ℕ)
          → Chain p.free_list p.free_head slots
          → occurrences idx slots ≡ is_free (p.status idx)
          → p.status idx ≡ free
      go [] c x = ground arith
      go (i ∷ is) (h, c) x =
          let same_slot = some-eq (sym h ∙ e) in free-of (p.status idx) (λ z. ground arith)

  none-free : (p : FramePool) (j : ℕ) → p.free_head ≡ none → IsPool thread p → p.status j ≢ free
  none-free p j e v = go v.slots v.chain (v.exact j)
    where
      go :
          (slots : List ℕ)
          → Chain p.free_list p.free_head slots
          → occurrences j slots ≡ is_free (p.status j)
          → p.status j ≢ free
      go [] c x = λ h. ground (arith, ap is_free h)
      go (i ∷ is) (h, c) x = ground arith

  abbrev take : FramePool → ℕ → FramePool
  take p idx = record p {
    free_head = p.free_list idx;
    takers = update p.takers thread outside;
    status = update p.status idx held;
  }

  take-IsPool :
      (p : FramePool) (idx : ℕ)
      → p.free_head ≡ some idx
      → IsPool thread p
      → IsPool thread (take p idx)
  take-IsPool p idx e v = go v.slots v.chain v.exact
    where
      go :
          (slots : List ℕ)
          → Chain p.free_list p.free_head slots
          → ((j : ℕ) → occurrences j slots ≡ is_free (p.status j))
          → IsPool thread (take p idx)
      go [] c x = ground arith
      go (i ∷ is) (h, c) x = record {
        slots = is;
        chain = subst (λ k. Chain p.free_list (p.free_list k) is) (some-eq (sym h ∙ e)) c;
        exact =
            split_at (λ j. occurrences j is ≡ is_free (update p.status idx held j)) idx
              (ground (arith, x idx, some-eq (sym h ∙ e), head-free p idx e v))
              (λ j n. ground (arith, x j, some-eq (sym h ∙ e), update_ne p.status idx j held n));
        taker_knows =
            subst (TakerKnows (take p idx)) (sym (update_self p.takers thread outside)) tt;
        links =
            split_at
              (λ j.
                (old : Option ℕ) → update p.status idx held j ≡ linked old → p.free_list j ≡ old)
              idx (λ old h. ground arith)
              (λ j n old h. v.links j old (sym (update_ne p.status idx j held n) ∙ h));
      }

  knows-taker :
      (p : FramePool) (us : ℕ → Taker) (t : Taker)
      → TakerKnows p t
      → TakerKnows (record p { takers = us }) t
  knows-taker p us outside k = k
  knows-taker p us (loaded i) k = k
  knows-taker p us (compared i next) k = k

  -- What a step of `get_frame` returns: a frame that was free, and is now held; no frame, and none was
  -- free; or it goes on, and no frame changes hands.
  abbrev pub Gives : FramePool → Given → FramePool → Type 0
  Gives p going p' = p'.status ≡ p.status
  Gives p no_frame p' = ((j : ℕ) → p.status j ≢ free) × (p'.status ≡ p.status)
  Gives p (frame i) p' = (p.status i ≡ free) × (p'.status ≡ update p.status i held)

  get_frame_step_lem :
      (succeeds : Bool) (p : FramePool)
      → IsPool thread p
      → (let r = get_frame_step thread succeeds p in Gives p r.0 r.1 × IsPool thread r.1)
  unfolding get_frame_step
  get_frame_step_lem succeeds p v = go (p.takers thread) refl v.taker_knows
    where
      move :
          (t : Taker)
          → TakerKnows p t
          → IsPool thread (record p { takers = update p.takers thread t })
      move t k =
          let us = update p.takers thread t in
          record {
            slots = v.slots;
            chain = v.chain;
            exact = v.exact;
            taker_knows =
                subst (TakerKnows (record p { takers = us })) (sym (update_self p.takers thread t))
                  (knows-taker p us t k);
            links = v.links;
          }

      go :
          (t : Taker)
          → p.takers thread ≡ t
          → TakerKnows p t
          → (let r = get_frame_step thread succeeds p in Gives p r.0 r.1 × IsPool thread r.1)
      go outside e k = elim (Option-cases p.free_head) [
        | inl h ↦ rw (get_frame_step, e, h) (((λ j. none-free p j h v), refl), v)
        | inr (idx, h) ↦ rw (get_frame_step, e, h) (refl, move (loaded idx) (head-free p idx h v))
      ]
      go (loaded idx) e k =
          rw (get_frame_step, e) (refl, move (compared idx (p.free_list idx)) (k, refl))
      go (compared idx next) e (k, m) =
          elim (Bool-cases (succeeds && same p.free_head (some idx))) [
            | inl c ↦
                rw (get_frame_step, e, c, sym m)
                  ((k, refl), take-IsPool p idx (same-eq p.free_head (some idx) (ground arith)) v)
            | inr c ↦ rw (get_frame_step, e, c) (refl, move outside tt)
          ]

  -- No other thread takes frames.
  abbrev pub TakesAlone : List Action → Type 0
  TakesAlone [] = Unit
  TakesAlone (get_frame other succeeds ∷ actions) = (other ≡ thread) × TakesAlone actions
  TakesAlone (drop i ∷ actions) = TakesAlone actions
  TakesAlone (release succeeds i ∷ actions) = TakesAlone actions

  -- Every step of any interleaving keeps it.
  pub take_steps-IsPool :
      (actions : List Action) (p : FramePool)
      → TakesAlone actions
      → IsPool thread p
      → IsPool thread (take_steps actions p)
  unfolding take_steps take_step
  take_steps-IsPool [] p o v = v
  take_steps-IsPool (get_frame other succeeds ∷ actions) p (e, o) v =
      take_steps-IsPool actions _ o (
        subst (λ t. IsPool thread (get_frame_step t succeeds p).1) (sym e)
          (get_frame_step_lem succeeds p v).1)
  take_steps-IsPool (drop i ∷ actions) p o v =
      take_steps-IsPool actions _ o (drop_frame-IsPool thread i p v)
  take_steps-IsPool (release succeeds i ∷ actions) p o v =
      take_steps-IsPool actions _ o (release_step-IsPool thread succeeds i p v)

-- The slots from one on, one more than `m`.
abbrev upto : ℕ → ℕ → List ℕ
upto k zero = k ∷ []
upto k (suc m) = k ∷ upto (k + 1) m

occurrences-upto :
    (k m j : ℕ)
    → occurrences j (upto k m) ≡ (if leb k j then (if leb j (k + m) then 1 else 0) else 0)
occurrences-upto k zero j = ground arith
occurrences-upto k (suc m) j = ground (arith, occurrences-upto (k + 1) m j)

Chain-upto :
    (next : ℕ → Option ℕ) (n k m : ℕ)
    → ((i : ℕ) → next i ≡ (if i == n - 1 then none else some (i + 1)))
    → k + m ≡ n - 1
    → Chain next (some k) (upto k m)
Chain-upto next n k zero h e = (refl, h k ∙ ground arith)
Chain-upto next n k (suc m) h e = (
  refl,
  subst (λ s. Chain next s (upto (k + 1) m)) (sym (h k ∙ ground arith))
      (Chain-upto next n (k + 1) m h (omega arith)),
)

pub new_pool-IsPool : (thread pool_size : ℕ) → 0 < pool_size → IsPool thread (new_pool pool_size)
unfolding new_pool
new_pool-IsPool thread pool_size h = record {
  slots = upto 0 (pool_size - 1);
  chain = Chain-upto _ pool_size 0 (pool_size - 1) (λ i. refl) (omega arith);
  exact = λ j. ground (arith, occurrences-upto 0 (pool_size - 1) j);
  taker_knows = tt;
  links = λ j old e. ground arith;
}

-- From a pool of some frames on, where one thread takes frames, as the capture stage does, and any
-- threads give them back, however their steps interleave: a step of `get_frame` returns a frame only if
-- it was free, so that nobody has it, and it is held then; it returns no frame only if none is free; and
-- otherwise no frame changes hands.
pub get_frame-exclusive :
    (thread pool_size : ℕ) (actions : List Action) (succeeds : Bool)
    → 0 < pool_size
    → TakesAlone thread actions
    → (let p = take_steps actions (new_pool pool_size) in
        let r = get_frame_step thread succeeds p in Gives thread p r.0 r.1)
get_frame-exclusive thread pool_size actions succeeds n o =
    (get_frame_step_lem thread succeeds _ (
      take_steps-IsPool thread actions (new_pool pool_size) o
        (new_pool-IsPool thread pool_size n))).0
