-- ===== src/Signal/Tests.antt =====
-- Runs of the signal functions, and the theorems at concrete processes.
use Prim.Native.Nat.{bit_and}
use aurora_os_live.Base.{
  ℕ, ◌-◌, ◌≤◌, ◌<◌, ◌≡◌, refl, ◌^◌, ◌∙◌, true, false, Bool, none, some, ◌&&◌, ◌==◌, if◌then◌else◌,
  set, replicate, arith,
}
use aurora_os_live.Base.Int.{ℤ, pos}
use aurora_os_live.Base.Bits.{bit_test, bit_and-pow-zero, bit_test-pow}
use aurora_os_live.Vfs.{set_at}
use aurora_os_live.Sched.{blocked, ready, find_task_by_pid}
use aurora_os_live.User.{
  Space, user_addr_range_ok, user_pages_mapped, pages_mapped, user_page_present, may_copy,
}
use aurora_os_live.Signal.{
  Action, no_action, SignalState, Trapframe, Process, signal_alloc, returns, sigkill,
}
use aurora_os_live.Signal.Actions.{do_sys_sigaction}
use aurora_os_live.Signal.Delivery.{
  check_signals, do_sys_sigreturn, stack_ok, check_from, deliver, deliver_checked, frame_size,
  user_flags, without, is_deliverable, sizeof_sigframe,
}
use aurora_os_live.Signal.Delivery.Restore.{sigreturn-check_signals}
use aurora_os_live.Signal.Delivery.Killable.{IsKillable, AllKillable}
use aurora_os_live.Signal.Delivery.Sigkill.{sigkill_stays}
use aurora_os_live.Signal.Send.{Tasks, do_sys_kill}
use aurora_os_live.Signal.Send.Wake.{should_wake, do_sys_kill_lem}

-- All user memory is mapped, in huge pages.
abbrev space : Space
space = record { memory = λ x. 0; entry = λ t i. 0x81; cr3 = 0 }

-- SIGINT has a handler at 0x4000 and is pending.
abbrev handler : Action
handler = record { sa_handler = 0x4000; sa_flags = 0; sa_mask = 0 }

abbrev interrupted : SignalState
interrupted = record {
  actions = set (replicate 32 no_action) 2 handler;
  pending = 4;
  blocked_mask = 0;
  saved_rsp = 0;
  saved_rip = 0;
}

abbrev registers : Trapframe
registers = record {
  r15 = 15;
  r14 = 14;
  r13 = 13;
  r12 = 12;
  r11 = 0x202;
  r10 = 10;
  r9 = 9;
  r8 = 8;
  rsi = 7;
  rdi = 6;
  rdx = 5;
  rcx = 4;
  rax = 3;
  rip = 0x1000;
  rsp = 0x10000;
}

abbrev program : Process
program = record { space = space; sig = some interrupted; tf = some registers }

not_first : (k : ℕ) → 1 ≤ k → k < 2 → is_deliverable interrupted k ≡ false
not_first k a b = let e : k ≡ 1 = omega arith in rw e refl

room : stack_ok program registers ≡ true
unfolding stack_ok user_addr_range_ok user_pages_mapped pages_mapped user_page_present
room = refl

readable : may_copy space (0x10000 - sizeof_sigframe) sizeof_sigframe ≡ true
unfolding may_copy user_addr_range_ok user_pages_mapped pages_mapped user_page_present
readable = refl

-- The handler has changed rax and its stack pointer.
abbrev in_handler : Process
in_handler = record (check_signals program).0 {
  tf = some (record registers { rax = 77; rsp = 0xFF60 });
}

still_readable : may_copy in_handler.space (0x10000 - sizeof_sigframe) sizeof_sigframe ≡ true
unfolding may_copy user_addr_range_ok user_pages_mapped pages_mapped user_page_present check_signals
    check_from deliver_checked deliver stack_ok
still_readable = refl

sigreturn-check_signals_example :
    ((check_signals program).0.tf
      ≡ some (record registers { rip = 0x4000; rsp = 0x10000 - frame_size; rdi = 2 }))
    × (do_sys_sigreturn in_handler ≡ (
      record in_handler {
        tf = some (record registers { r11 = user_flags 0x202 });
        sig =
            some
              (record (without 2 interrupted) { saved_rip = 0; saved_rsp = 0; blocked_mask = 0 });
      },
      returns,
    ))
sigreturn-check_signals_example =
    sigreturn-check_signals 2 interrupted registers (record registers { rax = 77; rsp = 0xFF60 })
      program in_handler refl refl (omega arith) (omega arith) not_first refl refl room
      (ground arith) (omega arith) refl refl still_readable (λ x a b. refl)

-- SIGKILL is pending, the signal before it is not.
abbrev condemned : SignalState
condemned = record interrupted { pending = 0x200 }

condemned-IsKillable : IsKillable condemned
unfolding bit_test
condemned-IsKillable = record { default_action = refl; unmasked = refl }

sigkill_stays_example :
    ((has_block : Bool) (signo : ℤ) (act oldact : ℕ)
      → AllKillable
          (do_sys_sigaction has_block signo act oldact
            (record program { sig = some condemned })).0.sig)
    × AllKillable (check_signals (record program { sig = some condemned })).0.sig
    × AllKillable (do_sys_sigreturn (record program { sig = some condemned })).0.sig
sigkill_stays_example = sigkill_stays (record program { sig = some condemned }) condemned-IsKillable

none_below : (k : ℕ) → 1 ≤ k → k < sigkill → is_deliverable condemned k ≡ false
none_below k a b =
    let clear : bit_and 512 (2 ^ k) ≡ 0 =
      bit_and-pow-zero 512 k (bit_test-pow 9 k ∙ ground arith) in
    ground (arith, clear)

-- Process 5, at 800, sleeps without a signal state.
abbrev sleeping : Tasks
sleeping = record {
  pid_table = set_at (λ p. 0) 5 800;
  states = λ t. blocked;
  sigs = λ t. none;
  parents = λ t. 0;
  pids = λ t. pos 5;
}

abbrev fresh : SignalState
fresh = record {
  actions = replicate 32 no_action;
  pending = 0;
  blocked_mask = 0;
  saved_rsp = 0;
  saved_rip = 0;
}

do_sys_kill_lem_example :
    let t = find_task_by_pid sleeping.pid_table sleeping.states (pos 5) in
    let (ts', r) = do_sys_kill true (pos 5) (pos 17) sleeping in
    (r ≡ pos 0)
    × ((g' : SignalState) × ((u : ℕ) → ts'.sigs u ≡ (if t == u then some g' else sleeping.sigs u))
        × ((k : ℕ) → bit_test g'.pending k ≡ (if 17 == k then 1 else bit_test 0 k))
        × (g' ≡ record fresh { pending = g'.pending }))
    × ((u : ℕ)
        → ts'.states u ≡ (
            if (t == u) && should_wake 17 fresh (sleeping.states t)
            then ready
            else sleeping.states u))
unfolding find_task_by_pid signal_alloc
do_sys_kill_lem_example =
    do_sys_kill_lem true (pos 5) 17 fresh sleeping (omega arith) (omega arith) (omega arith) refl
