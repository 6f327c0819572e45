-- ===== src/Signal.antt =====
-- Signals, kernel/signal.c and kernel/signal.h: sending, handlers, delivery on the user stack and the
-- return from a handler. The spinlock is the atomicity of an operation; log output is left out.
pub mod Actions
pub mod Delivery
pub mod Send
mod Tests
use Prim.Native.Nat.{bit_and, bit_or}
use aurora_os_live.Base.{
  ℕ, zero, suc, ◌+◌, ◌-◌, ◌*◌, ◌/◌, ◌%◌, ◌^◌, Bool, true, false, ◌&&◌, ◌||◌, not, Option, none,
  some, List, [], ◌∷◌, ltb, leb, ◌==◌, if◌then◌else◌, get_or, set, replicate,
}
use aurora_os_live.Base.Int.{ℤ, pos, negsuc, minus_one}
use aurora_os_live.Base.Bits.{bit_not}
use aurora_os_live.Vfs.{set_at}
use aurora_os_live.Sched.{TaskState, ready, blocked, find_task_by_pid}
use aurora_os_live.User.{
  Space, user_addr_range_ok, user_pages_mapped, copy_from_user, copy_to_user, load_bytes,
  store_bytes,
}
use aurora_os_live.User.Words.{bytes, words_bytes, buffer_words}

abbrev pub sigkill : ℕ
sigkill = 9

abbrev pub sigchld : ℕ
sigchld = 17

abbrev pub nsig : ℕ
nsig = 32

-- `struct sigaction`; SIG_DFL is 0 and SIG_IGN is 1.
pub record Action : Type 0 where
  pub sa_handler : ℕ
  pub sa_flags : ℕ
  pub sa_mask : ℕ

-- `struct signal_state`
pub record SignalState : Type 0 where
  pub actions : List Action
  pub pending : ℕ
  pub blocked_mask : ℕ
  pub saved_rsp : ℕ
  pub saved_rip : ℕ

abbrev pub no_action : Action
no_action = record { sa_handler = 0; sa_flags = 0; sa_mask = 0 }

abbrev pub action : SignalState → ℕ → Action
action g s = get_or g.actions s no_action

-- `struct trapframe` of kernel/include/trapframe.h
pub record Trapframe : Type 0 where
  pub r15 : ℕ
  pub r14 : ℕ
  pub r13 : ℕ
  pub r12 : ℕ
  pub r11 : ℕ
  pub r10 : ℕ
  pub r9 : ℕ
  pub r8 : ℕ
  pub rsi : ℕ
  pub rdi : ℕ
  pub rdx : ℕ
  pub rcx : ℕ
  pub rax : ℕ
  pub rip : ℕ
  pub rsp : ℕ

-- The current process: its memory, its signal state where it has one, and `current_tf`.
pub record Process : Type 0 where
  pub space : Space
  pub sig : Option SignalState
  pub tf : Option Trapframe

-- A call returns, or it ends the process with an exit code, by `do_exit_current`.
pub data Outcome : Type 0 where
  returns : Outcome
  exits : ℕ → Outcome

-- `signal_alloc`, by whether `kmalloc` has a block.
unfoldable pub signal_alloc : Bool → Option SignalState
signal_alloc false = none
signal_alloc true = some (record {
  actions = replicate nsig no_action;
  pending = 0;
  blocked_mask = 0;
  saved_rsp = 0;
  saved_rip = 0;
})

-- The state that is there, or a new one.
abbrev pub state_or_new : Bool → Option SignalState → Option SignalState
state_or_new has_block none = signal_alloc has_block
state_or_new has_block (some g) = some g
