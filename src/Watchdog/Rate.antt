-- ===== src/Watchdog/Rate.antt =====
-- How often a child is restarted (gateway_watchdog/main.cpp, `should_restart`,
-- `restart_count_in_window` and the backoff).
use aiot_edge_gateway.Prelude.{
  ℕ, zero, suc, ◌+◌, ◌-◌, ◌%◌, ◌≡◌, ◌≤◌, ◌<◌, refl, true, false, not, List, [], ◌∷◌, set, length,
  leb, All, arith,
}
use aiot_edge_gateway.Watchdog.Loop.{
  Slot, count_recent, restart_count_in_window, should_restart, window_sec, max_restarts, backoff,
}

abbrev AreRecent : ℕ → List ℕ → Type 0
AreRecent now = All (λ t. now - t ≤ window_sec)

count_recent-all : (now : ℕ) (ts : List ℕ) → AreRecent now ts → count_recent now ts ≡ length ts
unfolding count_recent
count_recent-all now [] h = refl
count_recent-all now (t ∷ ts) h = ground (arith, count_recent-all now ts)

-- Five writes in a row fill the ring, wherever they begin.
ring_filled :
    (xs : List ℕ) (r t1 t2 t3 t4 t5 : ℕ)
    → length xs ≡ 5
    → r < 5
    → AreRecent t5 (t1 ∷ t2 ∷ t3 ∷ t4 ∷ t5 ∷ [])
    → (let ring =
          set
            (set (set (set (set xs r t1) ((r + 1) % 5) t2) ((r + 2) % 5) t3) ((r + 3) % 5) t4)
            ((r + 4) % 5)
            t5 in
        AreRecent t5 ring × (length ring ≡ 5))
ring_filled (a ∷ b ∷ c ∷ d ∷ e ∷ []) zero t1 t2 t3 t4 t5 l h k = omega (arith, k)
ring_filled (a ∷ b ∷ c ∷ d ∷ e ∷ []) (suc zero) t1 t2 t3 t4 t5 l h k = omega (arith, k)
ring_filled (a ∷ b ∷ c ∷ d ∷ e ∷ []) (suc (suc zero)) t1 t2 t3 t4 t5 l h k = omega (arith, k)
ring_filled (a ∷ b ∷ c ∷ d ∷ e ∷ []) (suc (suc (suc zero))) t1 t2 t3 t4 t5 l h k = omega (arith, k)
ring_filled (a ∷ b ∷ c ∷ d ∷ e ∷ []) (suc (suc (suc (suc zero)))) t1 t2 t3 t4 t5 l h k =
    omega (arith, k)
ring_filled xs r t1 t2 t3 t4 t5 l h k = absurd (omega arith)

-- A refusal, for a ring that is full of recent times.
full :
    (now : ℕ) (ring : List ℕ)
    → AreRecent now ring × (length ring ≡ 5)
    → not (leb max_restarts (count_recent now ring)) ≡ false
full now ring (h, l) = ground (arith, count_recent-all now ring h)

-- Of five restarts in a row that are asked for within 30 seconds, the fifth is refused, whatever the
-- ring of times held before.
pub should_restart-burst :
    (s : Slot) (t1 t2 t3 t4 t5 : ℕ)
    → length s.restart_times ≡ max_restarts
    → t1 ≤ t2
    → t2 ≤ t3
    → t3 ≤ t4
    → t4 ≤ t5
    → t5 ≤ t1 + window_sec
    → (let s1 = (should_restart t1 s).1 in
        let s2 = (should_restart t2 s1).1 in
        let s3 = (should_restart t3 s2).1 in
        let s4 = (should_restart t4 s3).1 in (should_restart t5 s4).0 ≡ false)
unfolding should_restart
should_restart-burst s t1 t2 t3 t4 t5 l h1 h2 h3 h4 h5 = full t5 _ (
    rw
      (
        next ((s.restart_idx + 1) % 5) 1 (omega arith),
        next ((s.restart_idx + 1 + 1) % 5) 2 (omega arith),
        next ((s.restart_idx + 1 + 1 + 1) % 5) 3 (omega arith),
        next ((s.restart_idx + 1 + 1 + 1 + 1) % 5) 4 (omega arith),
      )
      (ring_filled s.restart_times (s.restart_idx % 5) t1 t2 t3 t4 t5 l (omega arith)
        (omega (arith, h1, h2, h3, h4, h5))))
  where
    next : (i n : ℕ) → i ≡ (s.restart_idx % 5 + n) % 5 → i ≡ (s.restart_idx % 5 + n) % 5
    next i n e = e

-- Times that were written are counted no later than all are.
count-le :
    (now later : ℕ) (ts : List ℕ)
    → now ≤ later
    → restart_count_in_window later ts ≤ count_recent now ts
unfolding count_recent restart_count_in_window
count-le now later [] h = omega arith
count-le now later (t ∷ ts) h = ground (arith, count-le now later ts h)

allowed-few : (n : ℕ) → not (leb max_restarts n) ≡ true → n ≤ 4
allowed-few n h = ground arith

backoff-small : (c : ℕ) → c ≤ 4 → (1 ≤ backoff c) × (backoff c ≤ 8)
backoff-small zero h = omega arith
backoff-small (suc zero) h = omega arith
backoff-small (suc (suc zero)) h = omega arith
backoff-small (suc (suc (suc zero))) h = omega arith
backoff-small (suc (suc (suc (suc zero)))) h = omega arith
backoff-small (suc (suc (suc (suc (suc c))))) h = absurd (omega arith)

-- After a restart that is allowed, the wait before it is between 1 and 8 seconds, whenever the clock
-- is read again.
pub backoff-bounds :
    (s : Slot) (now later : ℕ)
    → now ≤ later
    → (should_restart now s).0 ≡ true
    → (let wait = backoff (restart_count_in_window later (should_restart now s).1.restart_times) in
        (1 ≤ wait) × (wait ≤ 8))
unfolding should_restart
backoff-bounds s now later h a = backoff-small _ (
    omega (
      arith,
      count-le now later (set s.restart_times (s.restart_idx % max_restarts) now) h,
      allowed-few (count_recent now (set s.restart_times (s.restart_idx % max_restarts) now)) a,
    ))
