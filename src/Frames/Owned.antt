-- ===== src/Frames/Owned.antt =====
-- Who has a frame of the pool (gateway_engine/pipeline/FramePool.cpp).
use aiot_edge_gateway.Prelude.{
  ℕ, ◌+◌, ◌≡◌, ◌≢◌, ◌⊎◌, inl, inr, refl, sym, ap, subst, ◌∙◌, Bool, true, ◌&&◌, Option, none, some,
  List, [], ◌∷◌, ◌==◌, arith, Bool-cases, if◌then◌else◌,
}
use aiot_edge_gateway.Frames.Pool.{
  Status, absent, free, held, released, read_head, linked, Taker, outside, loaded, compared,
  FramePool, update, same, drop_frame, release_step,
}

-- How often a slot is in a list.
abbrev pub occurrences : ℕ → List ℕ → ℕ
occurrences i [] = 0
occurrences i (j ∷ js) = (if i == j then 1 else 0) + occurrences i js

-- The free list from a head on.
abbrev pub Chain : (ℕ → Option ℕ) → Option ℕ → List ℕ → Type 0
Chain next head [] = head ≡ none
Chain next head (i ∷ is) = (head ≡ some i) × Chain next (next i) is

abbrev pub is_free : Status → ℕ
is_free free = 1
is_free _ = 0

abbrev pub TakerKnows : FramePool → Taker → Type 0
TakerKnows p outside = Unit
TakerKnows p (loaded i) = p.status i ≡ free
TakerKnows p (compared i next) = (p.status i ≡ free) × (p.free_list i ≡ next)

-- The free slots are those of the free list, once each; what the thread that takes frames has read of it
-- is still so.
pub record IsPool (thread : ℕ) (p : FramePool) : Type 0 where
  pub slots : List ℕ
  pub chain : Chain p.free_list p.free_head slots
  pub exact : (i : ℕ) → occurrences i slots ≡ is_free (p.status i)
  pub taker_knows : TakerKnows p (p.takers thread)
  pub links : (i : ℕ) (old : Option ℕ) → p.status i ≡ linked old → p.free_list i ≡ old

eq-cases : (i j : ℕ) → (i ≡ j) ⊎ (i ≢ j)
eq-cases i j = ground arith

-- A statement on all slots, by the slot that changes and the others.
pub split_at {ℓ} : (P : ℕ → Type ℓ) (i : ℕ) → P i → ((j : ℕ) → j ≢ i → P j) → (j : ℕ) → P j
split_at P i here there j = elim (eq-cases i j) [
  | inl e ↦ subst P e here
  | inr n ↦ there j (λ e. n (sym e))
]

pub update_ne : {A : Type 0} (f : ℕ → A) (i j : ℕ) (a : A) → j ≢ i → update f i a j ≡ f j
update_ne f i j a n = ground arith

pub update_self : {A : Type 0} (f : ℕ → A) (i : ℕ) (a : A) → update f i a i ≡ a
update_self f i a = ground arith

Chain-update :
    (next : ℕ → Option ℕ) (i : ℕ) (old head : Option ℕ) (slots : List ℕ)
    → occurrences i slots ≡ 0
    → Chain next head slots
    → Chain (update next i old) head slots
Chain-update next i old head [] n c = c
Chain-update next i old head (j ∷ js) n (e, c) = (
  e,
  subst (λ h. Chain (update next i old) h js)
      (sym (update_ne next i j old (λ h. absurd (ground arith))))
      (Chain-update next i old (next j) js (ground arith) c),
)

pub same-eq : (a b : Option ℕ) → same a b ≡ true → a ≡ b
same-eq none none h = refl
same-eq none (some j) h = ground arith
same-eq (some i) none h = ground arith
same-eq (some i) (some j) h = ground arith

taken-ne : (s : Status) → is_free s ≡ 0 → s ≡ free → ⊥
taken-ne s n h = ground (arith, ap is_free h)

-- What the thread that takes frames knows stays true while another slot than a free one changes.
pub knows-other :
    (p q : FramePool) (i : ℕ) (t : Taker)
    → is_free (p.status i) ≡ 0
    → ((j : ℕ) → j ≢ i → q.status j ≡ p.status j)
    → ((j : ℕ) → j ≢ i → q.free_list j ≡ p.free_list j)
    → TakerKnows p t
    → TakerKnows q t
knows-other p q i outside n s l k = k
knows-other p q i (loaded j) n s l k =
    s j (λ h. absurd (taken-ne (p.status i) n (ap p.status (sym h) ∙ k))) ∙ k
knows-other p q i (compared j next) n s l (k, m) = (s j ne ∙ k, l j ne ∙ m)
  where
    ne : j ≢ i
    ne h = taken-ne (p.status i) n (ap p.status (sym h) ∙ k)

module _ (thread : ℕ) where
  -- A slot that is not free changes hands, and stays not free.
  restate :
      (p : FramePool) (i : ℕ) (s : Status)
      → is_free (p.status i) ≡ 0
      → is_free s ≡ 0
      → ((old : Option ℕ) → s ≡ linked old → p.free_list i ≡ old)
      → IsPool thread p
      → IsPool thread (record p { status = update p.status i s })
  restate p i s n n' l v = record {
    slots = v.slots;
    chain = v.chain;
    exact =
        split_at (λ j. occurrences j v.slots ≡ is_free (update p.status i s j)) i
          (v.exact i ∙ n ∙ sym n' ∙ ap is_free (sym (update_self p.status i s)))
          (λ j h. v.exact j ∙ ap is_free (sym (update_ne p.status i j s h)));
    taker_knows =
        knows-other p (record p { status = update p.status i s }) i (p.takers thread) n
          (λ j h. update_ne p.status i j s h) (λ j h. refl) v.taker_knows;
    links =
        split_at (λ j. (old : Option ℕ) → update p.status i s j ≡ linked old → p.free_list j ≡ old)
          i (λ old h. l old (sym (update_self p.status i s) ∙ h))
          (λ j e old h. v.links j old (sym (update_ne p.status i j s e) ∙ h));
  }

  linked-eq : {a b : Option ℕ} → linked a ≡ linked b → a ≡ b
  linked-eq h = ground arith

  linked-ne : {a b : Option ℕ} → read_head a ≡ linked b → ⊥
  linked-ne h = ground arith

  pub drop_frame-IsPool : (i : ℕ) (p : FramePool) → IsPool thread p → IsPool thread (drop_frame i p)
  unfolding drop_frame
  drop_frame-IsPool i p v = go (p.status i) refl
    where
      go : (s : Status) → p.status i ≡ s → IsPool thread (drop_frame i p)
      go held e =
          rw (drop_frame, e) (restate p i released (ap is_free e) refl (λ old h. ground arith) v)
      go absent e = rw (drop_frame, e) v
      go free e = rw (drop_frame, e) v
      go released e = rw (drop_frame, e) v
      go (read_head old) e = rw (drop_frame, e) v
      go (linked old) e = rw (drop_frame, e) v

  -- The head is written to the slot's place.
  link-IsPool :
      (p : FramePool) (i : ℕ) (old : Option ℕ)
      → p.status i ≡ read_head old
      → IsPool thread p
      → IsPool thread (record p {
        status = update p.status i (linked old);
        free_list = update p.free_list i old;
      })
  link-IsPool p i old e v =
      restate (record p { free_list = update p.free_list i old }) i (linked old) (ap is_free e) refl
        (λ o h. update_self p.free_list i old ∙ linked-eq h)
        (record {
          slots = v.slots;
          chain =
              Chain-update p.free_list i old p.free_head v.slots (v.exact i ∙ ap is_free e) v.chain;
          exact = v.exact;
          taker_knows =
              knows-other p (record p { free_list = update p.free_list i old }) i (p.takers thread)
                (ap is_free e) (λ j h. refl) (λ j h. update_ne p.free_list i j old h) v.taker_knows;
          links =
              split_at
                (λ j. (o : Option ℕ) → p.status j ≡ linked o → update p.free_list i old j ≡ o) i
                (λ o h. absurd (linked-ne (sym e ∙ h)))
                (λ j n o h. update_ne p.free_list i j old n ∙ v.links j o h);
        })

  -- The slot is put before the free list.
  push-IsPool :
      (p : FramePool) (i : ℕ)
      → p.status i ≡ linked p.free_head
      → IsPool thread p
      → IsPool thread (record p { free_head = some i; status = update p.status i free })
  push-IsPool p i e v = record {
    slots = i ∷ v.slots;
    chain =
        (refl, subst (λ h. Chain p.free_list h v.slots) (sym (v.links i p.free_head e)) v.chain);
    exact =
        split_at (λ j. occurrences j (i ∷ v.slots) ≡ is_free (update p.status i free j)) i
          (ground (arith, v.exact i, e))
          (λ j n. ground (arith, v.exact j, update_ne p.status i j free n));
    taker_knows =
        knows-other p (record p { free_head = some i; status = update p.status i free }) i
          (p.takers thread) (ap is_free e) (λ j h. update_ne p.status i j free h) (λ j h. refl)
          v.taker_knows;
    links =
        split_at
          (λ j. (old : Option ℕ) → update p.status i free j ≡ linked old → p.free_list j ≡ old) i
          (λ old h. ground arith)
          (λ j n old h. v.links j old (sym (update_ne p.status i j free n) ∙ h));
  }

  pub release_step-IsPool :
      (succeeds : Bool) (i : ℕ) (p : FramePool)
      → IsPool thread p
      → IsPool thread (release_step succeeds i p)
  unfolding release_step
  release_step-IsPool succeeds i p v = go (p.status i) refl
    where
      retry :
          (old : Option ℕ)
          → p.status i ≡ linked old
          → IsPool thread (record p { status = update p.status i released })
      retry old e = restate p i released (ap is_free e) refl (λ old h. ground arith) v

      go : (s : Status) → p.status i ≡ s → IsPool thread (release_step succeeds i p)
      go absent e = rw (release_step, e) v
      go free e = rw (release_step, e) v
      go held e = rw (release_step, e) v
      go released e =
          rw (release_step, e)
            (restate p i (read_head p.free_head) (ap is_free e) refl (λ old h. absurd (linked-ne h))
              v)
      go (read_head old) e = rw (release_step, e) (link-IsPool p i old e v)
      go (linked old) e = elim (Bool-cases (succeeds && same p.free_head old)) [
        | inl c ↦
            rw (release_step, e, c)
              (push-IsPool p i (e ∙ ap linked (sym (same-eq p.free_head old (ground arith)))) v)
        | inr c ↦ rw (release_step, e, c) (retry old e)
      ]
