-- ===== src/Watchdog/Tests.antt =====
-- A table of four children, some of them gone.
use aiot_edge_gateway.Prelude.{
  ℕ, ◌≡◌, refl, true, false, none, some, List, [], ◌∷◌, All, get_elem?, arith, replicate,
}
use aiot_edge_gateway.Watchdog.Loop.{
  Child, Slot, Round, loop_round, should_restart, retry_slots, retry_slot, reap, find_slot,
  handle_exit, start_child, count_recent, restart_dependency, needs_dependency,
}
use aiot_edge_gateway.Watchdog.Lost.{loop_round-lost}
use aiot_edge_gateway.Watchdog.Rate.{should_restart-burst}
use aiot_edge_gateway.Watchdog.Dependency.{IsMarked}

abbrev up : ℕ → Slot
up pid = record {
  child = Child.running pid;
  child_alive = true;
  restart_times = replicate 5 0;
  restart_idx = 0;
  retry_at = 0;
}

-- The fork after the cooldown has failed; another one is due at 1060.
abbrev lost : Slot
lost = record (up 0) { child = Child.fork_failed; child_alive = false; retry_at = 1060 }

abbrev slots : List Slot
slots = up 11 ∷ up 12 ∷ lost ∷ up 14 ∷ []

-- Long after that time, and the core has ended as well.
abbrev round : Round
round = record {
  now = 2000;
  retry_forks = λ i. some 99;
  exited = some 11;
  exit_time = 2000;
  core_fork = none;
  exit_fork = some 21;
}

abbrev busy_round : Round
busy_round = record round { exited = some 12; core_fork = some 31 }

restarts-core :
    get_elem? (loop_round round slots) 0
    ≡ some (record (up 21) { restart_times = 2000 ∷ 0 ∷ 0 ∷ 0 ∷ 0 ∷ []; restart_idx = 1 })
unfolding loop_round retry_slots retry_slot reap find_slot handle_exit should_restart count_recent
    start_child restart_dependency needs_dependency
restarts-core = refl

loop_round-lost_example : get_elem? (loop_round round slots) 2 ≡ some lost
loop_round-lost_example = loop_round-lost round slots 2 lost refl refl

should_restart-burst_example :
    let s1 = (should_restart 100 (up 11)).1 in
    let s2 = (should_restart 101 s1).1 in
    let s3 = (should_restart 103 s2).1 in
    let s4 = (should_restart 107 s3).1 in (should_restart 115 s4).0 ≡ false
should_restart-burst_example =
    should_restart-burst (up 11) 100 101 103 107 115 refl (omega arith) (omega arith) (omega arith)
      (omega arith) (omega arith)

marked : All IsMarked (up 11 ∷ up 12 ∷ [])
marked = (λ pid e. refl, (λ pid e. refl, tt))
