-- ===== src/Sched.antt =====
-- What the other components use of kernel/sched.h and kernel/sched.c: the task states, and the table
-- of process numbers. A task pointer is a number, NULL is 0.
pub mod Pick
pub mod Pids
pub mod Tick
mod Tests
use aurora_os_live.Base.{ℕ, Bool, true, false, leb, if◌then◌else◌}
use aurora_os_live.Base.Int.{ℤ, pos, negsuc}

-- The task states of kernel/sched.h.
pub data TaskState : Type 0 where
  running ready blocked zombie dead : TaskState

abbrev pub max_pid : ℕ
max_pid = 8192

abbrev pub is_gone : TaskState → Bool
is_gone s = elim s [ dead ↦ true | zombie ↦ true | _ ↦ false ]

-- The arguments are `pid_table` and the `state` of each task.
unfoldable pub find_task_by_pid : (ℕ → ℕ) → (ℕ → TaskState) → ℤ → ℕ
find_task_by_pid pid_table states (negsuc n) = 0
find_task_by_pid pid_table states (pos pid) =
    if leb max_pid pid then 0 else if is_gone (states (pid_table pid)) then 0 else pid_table pid
