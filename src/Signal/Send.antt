-- ===== src/Signal/Send.antt =====
-- do_sys_kill and signal_child_event of kernel/signal.c.
pub mod Wake
use Prim.Native.Nat.{bit_and, bit_or}
use aurora_os_live.Base.{
  ℕ, ◌^◌, Bool, false, ◌||◌, not, Option, none, some, ltb, leb, ◌==◌, if◌then◌else◌,
}
use aurora_os_live.Base.Int.{ℤ, pos, negsuc, minus_one}
use aurora_os_live.Vfs.{set_at}
use aurora_os_live.Sched.{TaskState, ready, blocked, find_task_by_pid}
use aurora_os_live.Signal.{sigkill, sigchld, nsig, SignalState, action, state_or_new}

-- What `do_sys_kill` reads and writes of the tasks.
pub record Tasks : Type 0 where
  pub pid_table : ℕ → ℕ
  pub states : ℕ → TaskState
  pub sigs : ℕ → Option SignalState
  pub parents : ℕ → ℕ
  pub pids : ℕ → ℤ

-- `target->state == TASK_BLOCKED` and the signal is neither blocked nor ignored.
pub wakes_target : ℕ → SignalState → TaskState → Bool
wakes_target s g state = elim state [
  | blocked ↦
      if bit_and g.blocked_mask (2 ^ s) == 0
      then (s == sigkill) || not ((action g s).sa_handler == 1)
      else false
  | _ ↦ false
]

pub mark_pending : ℕ → SignalState → SignalState
mark_pending s g = record g { pending = bit_or g.pending (2 ^ s) }

pub kill_task : Bool → ℕ → ℕ → Tasks → Tasks × ℤ
kill_task has_block s t ts = elim (state_or_new has_block (ts.sigs t)) [
  | none ↦ (ts, minus_one)
  | some g ↦ (
    record ts {
      sigs = set_at ts.sigs t (some (mark_pending s g));
      states =
          if wakes_target s (mark_pending s g) (ts.states t)
          then set_at ts.states t ready
          else ts.states;
    },
    pos 0,
  )
]

pub do_sys_kill : Bool → ℤ → ℤ → Tasks → Tasks × ℤ
do_sys_kill has_block pid (negsuc n) ts = (ts, minus_one)
do_sys_kill has_block pid (pos s) ts =
    if ltb s 1
    then (ts, minus_one)
    else if leb nsig s
    then (ts, minus_one)
    else if find_task_by_pid ts.pid_table ts.states pid == 0
    then (ts, minus_one)
    else kill_task has_block s (find_task_by_pid ts.pid_table ts.states pid) ts

pub signal_child_event : Bool → ℕ → Tasks → Tasks
signal_child_event has_block child ts =
    if child == 0
    then ts
    else if ts.parents child == 0
    then ts
    else (do_sys_kill has_block (ts.pids (ts.parents child)) (pos sigchld) ts).0
