-- ===== src/Watchdog/Dependency.antt =====
-- The core that is restarted before its dependants (gateway_watchdog/main.cpp, lines 236-245): in the
-- tables that the loop can have, it never is.
use aiot_edge_gateway.Prelude.{
  ℕ, zero, suc, ◌+◌, ◌≡◌, refl, ap, ◌∙◌, Bool, true, false, ◌&&◌, Option, none, some, List, [], ◌∷◌,
  set, All, arith, inl, inr, Bool-cases, Option-cases, ltb, leb,
}
use aiot_edge_gateway.Watchdog.Loop.{
  Child, Slot, Round, find_slot, handle_exit, reap, retry_slot, retry_slots, loop_round,
  restart_dependency, needs_dependency, should_restart, start_child, schedule_again,
  reset_restart_history, cooldown_sec,
}

-- A slot with a process is marked as alive.
abbrev pub IsMarked : Slot → Type 0
IsMarked s = (pid : ℕ) → s.child ≡ Child.running pid → s.child_alive ≡ true

All-set :
    (slots : List Slot) (i : ℕ) (v : Slot)
    → All IsMarked slots
    → IsMarked v
    → All IsMarked (set slots i v)
All-set [] i v h m = h
All-set (x ∷ xs) zero v (k, h) m = (m, h)
All-set (x ∷ xs) (suc i) v (k, h) m = (k, All-set xs i v h m)

set-set : (slots : List Slot) (i : ℕ) (v w : Slot) → set (set slots i v) i w ≡ set slots i w
set-set [] i v w = refl
set-set (x ∷ xs) zero v w = refl
set-set (x ∷ xs) (suc i) v w = ap (λ t. x ∷ t) (set-set xs i v w)

start_child-IsMarked : (fork : Option ℕ) (s : Slot) → IsMarked (start_child fork s)
unfolding start_child
start_child-IsMarked none s pid e = ground arith
start_child-IsMarked (some p) s pid e = refl

not_core : (x : Slot) (xs : List Slot) → needs_dependency 0 (x ∷ xs) ≡ false
unfolding needs_dependency
not_core x xs = refl

needs-marked :
    (i : ℕ) (x : Slot) (xs : List Slot) → IsMarked x → needs_dependency i (x ∷ xs) ≡ false
unfolding needs_dependency
needs-marked i x xs h = go x.child refl
  where
    go : (c : Child) → x.child ≡ c → needs_dependency i (x ∷ xs) ≡ false
    go Child.no_child e = ground arith
    go Child.fork_failed e = ground arith
    go (Child.running pid) e = let m = h pid e in ground arith

restart_dependency-idle :
    (i : ℕ) (fork : Option ℕ) (slots : List Slot) (v : Slot)
    → All IsMarked slots
    → restart_dependency i fork (set slots i v) ≡ set slots i v
unfolding restart_dependency
restart_dependency-idle i fork [] v h = refl
restart_dependency-idle zero fork (x ∷ xs) v h = rw (not_core v xs) refl
restart_dependency-idle (suc i) fork (x ∷ xs) v (k, h) =
    rw (needs-marked (suc i) x (set xs i v) k) refl

schedule_again-IsMarked : (now : ℕ) (s : Slot) → IsMarked s → IsMarked (schedule_again now s)
unfolding schedule_again
schedule_again-IsMarked now s h = go s.child refl
  where
    go : (c : Child) → s.child ≡ c → IsMarked (schedule_again now s)
    go Child.no_child e = rw (schedule_again, e) h
    go Child.fork_failed e = rw (schedule_again, e) h
    go (Child.running p) e = rw (schedule_again, e) h

retry_slot-IsMarked :
    (now : ℕ) (fork : Option ℕ) (s : Slot) → IsMarked s → IsMarked (retry_slot now fork s)
unfolding retry_slot
retry_slot-IsMarked now fork s h = go s.child refl
  where
    fresh : Slot
    fresh = record (reset_restart_history s) { retry_at = 0 }

    go : (c : Child) → s.child ≡ c → IsMarked (retry_slot now fork s)
    go Child.no_child e = elim (Bool-cases (ltb 0 s.retry_at && leb s.retry_at now)) [
      | inl d ↦
          rw (retry_slot, e, d)
            (schedule_again-IsMarked now (start_child fork fresh) (start_child-IsMarked fork fresh))
      | inr d ↦ rw (retry_slot, e, d) h
    ]
    go Child.fork_failed e = rw (retry_slot, e) h
    go (Child.running p) e = rw (retry_slot, e) h

retry_slots-IsMarked :
    (now : ℕ) (fork : ℕ → Option ℕ) (k : ℕ) (slots : List Slot)
    → All IsMarked slots
    → All IsMarked (retry_slots now fork k slots)
unfolding retry_slots
retry_slots-IsMarked now fork k [] h = h
retry_slots-IsMarked now fork k (x ∷ xs) (m, h) =
    (retry_slot-IsMarked now (fork k) x m, retry_slots-IsMarked now fork (k + 1) xs h)

-- The end of a child, without the dependency.
abbrev exit_alone : ℕ → Option ℕ → ℕ → Slot → List Slot → List Slot
exit_alone now fork i s slots =
    let (allowed, s') = should_restart now (record s { child_alive = false }) in
    set slots i (elim allowed [
      | true ↦ start_child fork s'
      | false ↦ record s' { child = Child.no_child; retry_at = now + cooldown_sec }
    ])

handle_exit_lem :
    (now : ℕ) (f g : Option ℕ) (i : ℕ) (s : Slot) (slots : List Slot)
    → All IsMarked slots
    → handle_exit now f g i s slots ≡ exit_alone now g i s slots
unfolding handle_exit
handle_exit_lem now f g i s slots h =
    elim (Bool-cases (should_restart now (record s { child_alive = false })).0) [
      | inl a ↦
          rw (handle_exit, a)
            (ap (λ t. set t i (start_child g ended)) (restart_dependency-idle i f slots ended h)
              ∙ set-set slots i ended (start_child g ended))
      | inr a ↦ rw (handle_exit, a) refl
    ]
  where
    ended : Slot
    ended = (should_restart now (record s { child_alive = false })).1

exit_alone-IsMarked :
    (now : ℕ) (g : Option ℕ) (i : ℕ) (s : Slot) (slots : List Slot)
    → All IsMarked slots
    → All IsMarked (exit_alone now g i s slots)
exit_alone-IsMarked now g i s slots h = All-set slots i _ h (go _ refl)
  where
    ended : Slot
    ended = (should_restart now (record s { child_alive = false })).1

    go :
        (b : Bool)
        → (should_restart now (record s { child_alive = false })).0 ≡ b
        → IsMarked (elim (should_restart now (record s { child_alive = false })).0 [
          | true ↦ start_child g ended
          | false ↦ record ended { child = Child.no_child; retry_at = now + cooldown_sec }
        ])
    go true e = rw e (start_child-IsMarked g ended)
    go false e = rw e (λ pid f. ground arith)

reap_lem :
    (now : ℕ) (f g exited : Option ℕ) (slots : List Slot)
    → All IsMarked slots
    → (reap now f g exited slots ≡ reap now none g exited slots)
      × All IsMarked (reap now f g exited slots)
unfolding reap
reap_lem now f g none slots h = (refl, h)
reap_lem now f g (some pid) slots h = elim (Option-cases (find_slot pid 0 slots)) [
  | inl c ↦ rw (reap, c) (refl, h)
  | inr ((i, s), c) ↦
      rw (reap, c)
        (rw (handle_exit_lem now f g i s slots h, handle_exit_lem now none g i s slots h)
          (refl, exit_alone-IsMarked now g i s slots h))
]

-- Where each slot with a process is marked as alive, it is so after any round, and the round has not
-- forked the core for a dependant: it ends the same whatever that fork would have given.
pub loop_round-no_dependency :
    (r : Round) (slots : List Slot)
    → All IsMarked slots
    → (loop_round r slots ≡ loop_round (record r { core_fork = none }) slots)
      × All IsMarked (loop_round r slots)
unfolding loop_round
loop_round-no_dependency r slots h =
    reap_lem r.exit_time r.core_fork r.exit_fork r.exited (retry_slots r.now r.retry_forks 0 slots)
      (retry_slots-IsMarked r.now r.retry_forks 0 slots h)
