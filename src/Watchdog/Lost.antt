-- ===== src/Watchdog/Lost.antt =====
-- What becomes of a slot whose `fork` failed (gateway_watchdog/main.cpp, lines 205-255).
use aiot_edge_gateway.Prelude.{
  ℕ, zero, suc, ◌+◌, ◌≡◌, ◌≢◌, ◌≤◌, refl, sym, ap, ◌∙◌, true, false, Option, none, some, List, [],
  ◌∷◌, set, get_elem?, arith, inl, inr, Bool-cases, Option-cases, if◌then◌else◌,
}
use aiot_edge_gateway.Watchdog.Loop.{
  Child, Slot, Round, has_pid, find_slot, handle_exit, reap, retry_slot, retry_slots, loop_round,
  restart_dependency, needs_dependency, should_restart, start_child,
}

get_elem?-set_ne :
    {A : Type 0} (xs : List A) (i j : ℕ) (v : A) → i ≢ j → get_elem? (set xs j v) i ≡ get_elem? xs i
get_elem?-set_ne [] i j v d = refl
get_elem?-set_ne (x ∷ xs) zero zero v d = absurd (d refl)
get_elem?-set_ne (x ∷ xs) zero (suc j) v d = refl
get_elem?-set_ne (x ∷ xs) (suc i) zero v d = refl
get_elem?-set_ne (x ∷ xs) (suc i) (suc j) v d = get_elem?-set_ne xs i j v (λ e. d (ap suc e))

head_is : (x s : Slot) → Option.some x ≡ some s → x ≡ s
head_is x s h = ap (λ o. elim o as (λ _. Slot) [ none ↦ x | some y ↦ y ]) h

none≢some : {A : Type 0} {a : A} → Option.none ≡ some a → ⊥
none≢some h = ground arith

place_of : {k j : ℕ} {x t : Slot} → ◌≡◌ {A = Option (ℕ × Slot)} (some (k, x)) (some (j, t)) → k ≡ j
place_of {k = k} h = ap (λ o. elim o as (λ _. ℕ) [ none ↦ k | some y ↦ y.0 ]) h

retry_slot-failed :
    (now : ℕ) (fork : Option ℕ) (s : Slot) → s.child ≡ Child.fork_failed → retry_slot now fork s ≡ s
unfolding retry_slot
retry_slot-failed now fork s e = rw e refl

-- What the pass over the slots does to each.
retry_slots-elem :
    (now : ℕ) (fork : ℕ → Option ℕ) (k i : ℕ) (slots : List Slot) (s : Slot)
    → get_elem? slots i ≡ some s
    → s.child ≡ Child.fork_failed
    → get_elem? (retry_slots now fork k slots) i ≡ some s
unfolding retry_slots
retry_slots-elem now fork k i [] s h e = h
retry_slots-elem now fork k zero (x ∷ slots) s h e =
    ap some (retry_slot-failed now (fork k) x (ap (λ y. y.child) (head_is x s h) ∙ e)) ∙ h
retry_slots-elem now fork k (suc i) (x ∷ slots) s h e =
    retry_slots-elem now fork (k + 1) i slots s h e

-- A slot that is found is not before the one where the search begins, and not a failed one.
find_slot-ge :
    (pid k j : ℕ) (slots : List Slot) (t : Slot) → find_slot pid k slots ≡ some (j, t) → k ≤ j
unfolding find_slot
find_slot-ge pid k j [] t f = absurd (none≢some f)
find_slot-ge pid k j (x ∷ slots) t f = elim (Bool-cases (has_pid pid x.child)) [
  | inl p ↦ omega (arith, place_of (sym (taken p) ∙ f))
  | inr p ↦ omega (arith, find_slot-ge pid (k + 1) j slots t (sym (passed p) ∙ f))
]
  where
    taken : has_pid pid x.child ≡ true → find_slot pid k (x ∷ slots) ≡ some (k, x)
    taken p = rw p refl

    passed : has_pid pid x.child ≡ false → find_slot pid k (x ∷ slots) ≡ find_slot pid (k + 1) slots
    passed p = rw p refl

find_slot-ne :
    (pid k i j : ℕ) (slots : List Slot) (s t : Slot)
    → get_elem? slots i ≡ some s
    → s.child ≡ Child.fork_failed
    → find_slot pid k slots ≡ some (j, t)
    → k + i ≢ j
unfolding find_slot
find_slot-ne pid k i j [] s t h e f = absurd (none≢some f)
find_slot-ne pid k zero j (x ∷ slots) s t h e f =
    let l = find_slot-ge pid (k + 1) j slots t (sym passed ∙ f) in λ q. omega (arith, l, q)
  where
    passed : find_slot pid k (x ∷ slots) ≡ find_slot pid (k + 1) slots
    passed = rw (ap (λ y. has_pid pid y.child) (head_is x s h) ∙ ap (has_pid pid) e) refl
find_slot-ne pid k (suc i) j (x ∷ slots) s t h e f = elim (Bool-cases (has_pid pid x.child)) [
  | inl p ↦ λ q. omega (arith, place_of (sym (taken p) ∙ f), q)
  | inr p ↦ λ q. find_slot-ne pid (k + 1) i j slots s t h e (sym (passed p) ∙ f) (omega (arith, q))
]
  where
    taken : has_pid pid x.child ≡ true → find_slot pid k (x ∷ slots) ≡ some (k, x)
    taken p = rw p refl

    passed : has_pid pid x.child ≡ false → find_slot pid k (x ∷ slots) ≡ find_slot pid (k + 1) slots
    passed p = rw p refl

restart_dependency-elem :
    (j i : ℕ) (fork : Option ℕ) (slots : List Slot) (s : Slot)
    → get_elem? slots i ≡ some s
    → s.child ≡ Child.fork_failed
    → get_elem? (restart_dependency j fork slots) i ≡ some s
unfolding restart_dependency needs_dependency
restart_dependency-elem j i fork [] s h e = h
restart_dependency-elem j zero fork (x ∷ slots) s h e =
    ap (λ b. get_elem? (if b then start_child fork x ∷ slots else x ∷ slots) 0) idle ∙ h
  where
    idle : needs_dependency j (x ∷ slots) ≡ false
    idle = rw (needs_dependency, ap (λ y. y.child) (head_is x s h) ∙ e) (ground arith)
restart_dependency-elem j (suc i) fork (x ∷ slots) s h e =
    elim (Bool-cases (needs_dependency j (x ∷ slots))) [
      | inl b ↦ rw (restart_dependency, b) h
      | inr b ↦ rw (restart_dependency, b) h
    ]

handle_exit-elem :
    (now : ℕ) (f g : Option ℕ) (j i : ℕ) (t s : Slot) (slots : List Slot)
    → i ≢ j
    → get_elem? slots i ≡ some s
    → s.child ≡ Child.fork_failed
    → get_elem? (handle_exit now f g j t slots) i ≡ some s
unfolding handle_exit
handle_exit-elem now f g j i t s slots d h e =
    elim (Bool-cases (should_restart now (record t { child_alive = false })).0) [
      | inl a ↦
          rw (handle_exit, a)
            (get_elem?-set_ne _ i j _ d
              ∙ restart_dependency-elem j i f _ s (get_elem?-set_ne slots i j _ d ∙ h) e)
      | inr a ↦ rw (handle_exit, a) (get_elem?-set_ne slots i j _ d ∙ h)
    ]

reap-elem :
    (now : ℕ) (f g exited : Option ℕ) (i : ℕ) (s : Slot) (slots : List Slot)
    → get_elem? slots i ≡ some s
    → s.child ≡ Child.fork_failed
    → get_elem? (reap now f g exited slots) i ≡ some s
unfolding reap
reap-elem now f g none i s slots h e = h
reap-elem now f g (some pid) i s slots h e = elim (Option-cases (find_slot pid 0 slots)) [
  | inl c ↦ rw (reap, c) h
  | inr ((j, t), c) ↦
      rw (reap, c)
        (handle_exit-elem now f g j i t s slots
          (λ q. find_slot-ne pid 0 i j slots s t h e c (omega (arith, q))) h e)
]

-- A slot whose child could not be forked stays as it is, whatever a round is told: it is never
-- started again.
pub loop_round-lost :
    (r : Round) (slots : List Slot) (i : ℕ) (s : Slot)
    → get_elem? slots i ≡ some s
    → s.child ≡ Child.fork_failed
    → get_elem? (loop_round r slots) i ≡ some s
unfolding loop_round
loop_round-lost r slots i s h e =
    reap-elem r.exit_time r.core_fork r.exit_fork r.exited i s
      (retry_slots r.now r.retry_forks 0 slots)
      (retry_slots-elem r.now r.retry_forks 0 i slots s h e) e
