-- ===== src/Watchdog/StartUp.antt =====
-- The start of the children, and their end when one cannot be started (gateway_watchdog/main.cpp,
-- lines 92-123 and 148-198). What `kill(pid, 0)`, `stat` and `waitpid` find is a parameter.
use aiot_edge_gateway.Prelude.{
  ℕ, zero, suc, ◌+◌, ◌≡◌, refl, Bool, true, false, Option, none, some, List, [], ◌∷◌, ◌++◌, map,
  set, get_or, arith, if◌then◌else◌,
}
use aiot_edge_gateway.Watchdog.Loop.{no_child, running, Slot, start_child}

-- The signals that are sent.
pub data Sent : Type 0 where
  terminated : ℕ → Sent
  killed : ℕ → Sent

-- What the i-th probe of a child finds.
pub record Probe : Type 0 where
  pub exists : Bool
  pub is_ready : Bool

-- `kReadyTimeoutSec * 10`
abbrev pub ready_tries : ℕ
ready_tries = 100

unfoldable pub wait_ready_loop : (ℕ → Probe) → ℕ → ℕ → ℕ → Bool × List Sent
wait_ready_loop probe pid zero i = (false, killed pid ∷ [])
wait_ready_loop probe pid (suc n) i =
    let rest = wait_ready_loop probe pid n (i + 1) in
    if (probe i).exists then (if (probe i).is_ready then (true, []) else rest) else (false, [])

unfoldable pub wait_ready : (ℕ → Probe) → ℕ → Bool × List Sent
wait_ready probe pid = wait_ready_loop probe pid ready_tries 0

-- SIGTERM to each child.
unfoldable pub terminate_all : List Slot → List Sent
terminate_all [] = []
terminate_all (s ∷ slots) = elim s.child [
  | running pid ↦ terminated pid ∷ terminate_all slots
  | _ ↦ terminate_all slots
]

-- SIGKILL to each child that does not end within five seconds, as `ends` says.
unfoldable pub kill_rest : (ℕ → Bool) → List Slot → List Sent
kill_rest ends [] = []
kill_rest ends (s ∷ slots) =
    let rest = kill_rest ends slots in
    elim s.child [ running pid ↦ if ends pid then rest else killed pid ∷ rest | _ ↦ rest ]

abbrev pub mark_dead : Slot → Slot
mark_dead s = elim s.child [ running pid ↦ record s { child_alive = false } | _ ↦ s ]

unfoldable pub kill_and_reap_all_children : (ℕ → Bool) → List Slot → List Slot × List Sent
kill_and_reap_all_children ends slots =
    (map mark_dead slots, terminate_all slots ++ kill_rest ends slots)

abbrev pub empty_slot : Slot
empty_slot = record {
  child = no_child;
  child_alive = false;
  restart_times = [];
  restart_idx = 0;
  retry_at = 0;
}

-- The core, the engine, the access process and the monitor.
abbrev pub start_order : List ℕ
start_order = 0 ∷ 3 ∷ 1 ∷ 2 ∷ []

-- The slots of the order in turn, until a fork fails; whether all could be started.
unfoldable pub start_children :
    (ℕ → Option ℕ)
    → (ℕ → ℕ → Probe)
    → (ℕ → Bool)
    → List ℕ
    → List Slot
    → Bool × List Slot × List Sent
start_children forks probe ends [] slots = (true, slots, [])
start_children forks probe ends (i ∷ order) slots =
    let started = set slots i (start_child (forks i) (get_or slots i empty_slot)) in
    let rest = start_children forks probe ends order started in
    elim (forks i) [
      | none ↦ let (reaped, sent) = kill_and_reap_all_children ends started in (false, reaped, sent)
      | some pid ↦ (rest.0, rest.1, (wait_ready (probe i) pid).1 ++ rest.2)
    ]

-- A child that is there at every probe and never ready is killed.
pub wait_ready-killed :
    (probe : ℕ → Probe) (pid n i : ℕ)
    → ((j : ℕ) → (probe j).exists ≡ true)
    → ((j : ℕ) → (probe j).is_ready ≡ false)
    → wait_ready_loop probe pid n i ≡ (false, killed pid ∷ [])
unfolding wait_ready_loop
wait_ready-killed probe pid zero i e r = refl
wait_ready-killed probe pid (suc n) i e r =
    ground (arith, e i, r i, wait_ready-killed probe pid n (i + 1) e r)
