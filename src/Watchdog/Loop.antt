-- ===== src/Watchdog/Loop.antt =====
-- The watchdog's table of children and its loop (gateway_watchdog/main.cpp). The clock, the process
-- ids that `fork` gives and the id that `waitpid` reports are inputs of a round. Waiting for a child
-- to be ready (StartUp) and the signals change nothing of the table.
use aiot_edge_gateway.Prelude.{
  ℕ, ◌+◌, ◌-◌, ◌%◌, ◌^◌, min, Bool, true, false, ◌&&◌, not, Option, none, some, List, [], ◌∷◌, set,
  replicate, ltb, leb, ◌==◌, if◌then◌else◌,
}

-- `g_children[i]`: 0, -1, or a process id.
pub data Child : Type 0 where
  no_child : Child
  fork_failed : Child
  running : ℕ → Child

pub record Slot : Type 0 where
  pub child : Child
  pub child_alive : Bool
  pub restart_times : List ℕ
  pub restart_idx : ℕ
  pub retry_at : ℕ

-- `kMaxRestarts`, `kWindowSec`, `kCooldownSec`
abbrev pub max_restarts : ℕ
max_restarts = 5

abbrev pub window_sec : ℕ
window_sec = 30

abbrev pub cooldown_sec : ℕ
cooldown_sec = 60

unfoldable pub count_recent : ℕ → List ℕ → ℕ
count_recent now [] = 0
count_recent now (t ∷ ts) =
    let n = count_recent now ts in if leb (now - t) window_sec then n + 1 else n

-- The same for times that were written.
unfoldable pub restart_count_in_window : ℕ → List ℕ → ℕ
restart_count_in_window now [] = 0
restart_count_in_window now (t ∷ ts) =
    let n = restart_count_in_window now ts in
    if ltb 0 t && leb (now - t) window_sec then n + 1 else n

unfoldable pub should_restart : ℕ → Slot → Bool × Slot
should_restart now s =
    let times = set s.restart_times (s.restart_idx % max_restarts) now in
    (
      not (leb max_restarts (count_recent now times)),
      record s { restart_times = times; restart_idx = s.restart_idx + 1 },
    )

unfoldable pub reset_restart_history : Slot → Slot
reset_restart_history s = record s { restart_times = replicate max_restarts 0; restart_idx = 0 }

-- `fork` gives a process id or fails.
unfoldable pub start_child : Option ℕ → Slot → Slot
start_child none s = record s { child = fork_failed }
start_child (some pid) s = record s { child = running pid; child_alive = true }

-- `1 << min(count - 1, 4)`, kept between 1 and 16.
abbrev pub backoff : ℕ → ℕ
backoff count = min (2 ^ min (count - 1) 4) 16

unfoldable pub schedule_again : ℕ → Slot → Slot
schedule_again now s = elim s.child [
  | running pid ↦ s
  | _ ↦ record s { retry_at = now + cooldown_sec }
]

-- A slot whose cooldown is over.
unfoldable pub retry_slot : ℕ → Option ℕ → Slot → Slot
retry_slot now fork s = elim s.child [
  | no_child ↦
      if ltb 0 s.retry_at && leb s.retry_at now
      then schedule_again now (start_child fork (record (reset_restart_history s) { retry_at = 0 }))
      else s
  | _ ↦ s
]

-- `fork i` is what the call for the slot `i` gives.
unfoldable pub retry_slots : ℕ → (ℕ → Option ℕ) → ℕ → List Slot → List Slot
retry_slots now fork i [] = []
retry_slots now fork i (s ∷ slots) = retry_slot now (fork i) s ∷ retry_slots now fork (i + 1) slots

abbrev pub has_pid : ℕ → Child → Bool
has_pid pid no_child = false
has_pid pid fork_failed = false
has_pid pid (running p) = p == pid

-- The core is dead and was not restarted.
unfoldable pub needs_dependency : ℕ → List Slot → Bool
needs_dependency i [] = false
needs_dependency i (core ∷ slots) =
    not (i == 0) && (not core.child_alive && elim core.child [ running pid ↦ true | _ ↦ false ])

unfoldable pub restart_dependency : ℕ → Option ℕ → List Slot → List Slot
restart_dependency i fork [] = []
restart_dependency i fork (core ∷ slots) =
    if needs_dependency i (core ∷ slots) then start_child fork core ∷ slots else core ∷ slots

-- The child of slot `i` has ended: `core_fork` is for the core, should that come first.
unfoldable pub handle_exit : ℕ → Option ℕ → Option ℕ → ℕ → Slot → List Slot → List Slot
handle_exit now core_fork fork i s slots =
    let (allowed, s') = should_restart now (record s { child_alive = false }) in
    if allowed
    then set (restart_dependency i core_fork (set slots i s')) i (start_child fork s')
    else set slots i (record s' { child = no_child; retry_at = now + cooldown_sec })

-- The first slot with the process id.
unfoldable pub find_slot : ℕ → ℕ → List Slot → Option (ℕ × Slot)
find_slot pid i [] = none
find_slot pid i (s ∷ slots) =
    let found = find_slot pid (i + 1) slots in if has_pid pid s.child then some (i, s) else found

unfoldable pub reap : ℕ → Option ℕ → Option ℕ → Option ℕ → List Slot → List Slot
reap now core_fork fork none slots = slots
reap now core_fork fork (some pid) slots = elim (find_slot pid 0 slots) [
  | none ↦ slots
  | some (i, s) ↦ handle_exit now core_fork fork i s slots
]

-- What one round of the loop is told.
pub record Round : Type 0 where
  pub now : ℕ
  pub retry_forks : ℕ → Option ℕ
  pub exited : Option ℕ
  pub exit_time : ℕ
  pub core_fork : Option ℕ
  pub exit_fork : Option ℕ

unfoldable pub loop_round : Round → List Slot → List Slot
loop_round r slots =
    reap r.exit_time r.core_fork r.exit_fork r.exited (retry_slots r.now r.retry_forks 0 slots)
