-- ===== src/Sched/Tests.antt =====
-- Runs of the scheduler's functions, and the theorems at concrete states.
use aurora_os_live.Base.{
  max, ◌-◌, ◌*◌, ◌/◌, ℕ, ◌+◌, ◌≤◌, ◌≡◌, refl, inl, inr, true, false, some, ◌==◌, if◌then◌else◌,
  arith,
}
use aurora_os_live.Sched.{TaskState, running, ready, blocked}
use aurora_os_live.Sched.Tick.{Run, ticks, ticks-expire}
use aurora_os_live.Sched.Pids.{Pids, Took, alloc_pid, alloc_pid-Took}
use aurora_os_live.Sched.Pick.{pick_next, walk, is_candidate, Among, pick_next_least}
use aurora_os_live.RbTree.{red, black, Item, Tree, leaf, node}
use aurora_os_live.RbTree.Order.{inorder}
use aurora_os_live.RbTree.Search.{leftmost, next_of, go_up_right}

-- Process numbers 0 to 3 are in use, and the cursor is at 2.
abbrev booted : Pids
booted = record { pid_bitmap = λ w. if w == 0 then 15 else 0; next_pid = 2; pid_table = λ p. 0 }

alloc_pid-Took_example : Took booted (alloc_pid booted)
alloc_pid-Took_example = alloc_pid-Took booted (omega arith, omega arith)

abbrev task : ℕ → ℕ → Item
task a k = record { address = 0x1000 + a; key = k }

-- Task 0x1001 is blocked, the others are ready, and 0x1003 is the current one.
abbrev states : ℕ → TaskState
states t = if t == 0x1001 then blocked else ready

abbrev queue : Tree
queue = node black (node red leaf (task 1 5) leaf) (task 2 7) (node red leaf (task 3 9) leaf)

picked : pick_next 0 states 0x1003 queue ≡ some (task 2 7)
unfolding pick_next walk leftmost next_of go_up_right
picked = refl

pick_next_least_example :
    (x : Item) × (pick_next 0 states 0x1003 queue ≡ some x)
    × Among x (inorder queue)
    × (is_candidate 0 states 0x1003 x ≡ true)
    × (x.key ≤ 7)
pick_next_least_example =
    pick_next_least 0 states 0x1003 queue (task 2 7)
      ((omega arith, (omega arith, tt)), ((omega arith, tt), (tt, tt))) (inr (inl refl)) refl

abbrev run : Run
run = record {
  state = running;
  priority = 128;
  time_slice = 5;
  vruntime = 0;
  preempt_count = 0;
  need_resched = false;
  global_resched = false;
}

ticks-expire_example :
    (ticks 4 run ≡ record run { time_slice = 1 })
    × (ticks 5 run ≡ record run {
      need_resched = true;
      global_resched = true;
      time_slice = max 1 (10 * (256 - 128) / 256);
    })
    × (max 1 (10 * (256 - 128) / 256) ≤ 10)
ticks-expire_example = ticks-expire 4 run (refl, refl) refl
