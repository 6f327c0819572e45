-- ===== src/Signal/Delivery.antt =====
-- Delivery of signals and the return from a handler: check_signals and do_sys_sigreturn of
-- kernel/signal.c, with `struct sigframe` of kernel/signal.h.
pub mod Restore
pub mod Killable
pub mod Sigkill
use Prim.Native.Nat.{bit_and, bit_or}
use aurora_os_live.Base.{
  ℕ, zero, suc, ◌+◌, ◌-◌, ◌%◌, ◌^◌, Bool, true, false, ◌&&◌, Option, none, some, List, [], ◌∷◌, ltb,
  ◌==◌, if◌then◌else◌, get_or, replicate,
}
use aurora_os_live.Base.Bits.{bit_not}
use aurora_os_live.User.{user_addr_range_ok, user_pages_mapped, copy_from_user, store_bytes}
use aurora_os_live.User.Words.{bytes, words_bytes, buffer_words}
use aurora_os_live.Signal.{
  sigchld, nsig, SignalState, action, Trapframe, Process, Outcome, returns, exits,
}

-- The size of `struct sigframe`, eighteen words, and of what is pushed with it.
abbrev pub sizeof_sigframe : ℕ
sizeof_sigframe = 144

abbrev pub trampoline_size : ℕ
trampoline_size = 16

abbrev pub frame_size : ℕ
frame_size = sizeof_sigframe + 8 + trampoline_size

-- `mov eax, SYS_SIGRETURN; syscall`, and zeros
abbrev pub trampoline : List ℕ
trampoline = 0xB8 ∷ 15 ∷ 0 ∷ 0 ∷ 0 ∷ 0x0F ∷ 0x05 ∷ replicate 9 0

-- The fields of a sigframe from `signo` on; `ret_addr`, the first, is not written.
abbrev pub frame_words : ℕ → Trapframe → List ℕ
frame_words s t =
    s ∷ t.r15 ∷ t.r14 ∷ t.r13 ∷ t.r12 ∷ t.r11 ∷ t.r10 ∷ t.r9 ∷ t.r8 ∷ t.rsi ∷ t.rdi ∷ t.rdx ∷ t.rcx
    ∷ t.rax ∷ t.rip ∷ t.r11 ∷ t.rsp ∷ []

-- The three writes to the user stack.
pub push_frame : ℕ → Trapframe → (ℕ → ℕ) → ℕ → ℕ
push_frame s t m =
    let new_rsp = t.rsp - frame_size in
    let with_code = store_bytes m (new_rsp + 8) trampoline in
    let with_return = store_bytes with_code new_rsp (bytes 8 (new_rsp + 8)) in
    store_bytes with_return (new_rsp + 8 + trampoline_size + 8) (words_bytes (frame_words s t))

-- A handler of the user is called.
unfoldable pub deliver : ℕ → SignalState → Trapframe → Process → Process
deliver s g t p = record {
  space = record (p.space) { memory = push_frame s t p.space.memory };
  sig = some (record g {
    blocked_mask = bit_or g.blocked_mask (2 ^ s);
    saved_rsp = t.rsp;
    saved_rip = t.rip;
  });
  tf = some (record t { rip = (action g s).sa_handler; rsp = t.rsp - frame_size; rdi = s });
}

pub do_signal_default : ℕ → Outcome
do_signal_default s = if s == sigchld then returns else exits (128 + s)

-- The checks of the user stack. `user_rsp` is not below what is pushed, so the second check of the
-- code, that the difference has not wrapped, holds too.
unfoldable pub stack_ok : Process → Trapframe → Bool
stack_ok p t =
    if ltb t.rsp (frame_size + 0x1000)
    then false
    else if ltb t.rsp (t.rsp - frame_size)
    then false
    else if user_addr_range_ok (t.rsp - frame_size) frame_size
    then user_pages_mapped p.space (t.rsp - frame_size) frame_size
    else false

unfoldable pub deliver_checked : ℕ → SignalState → Trapframe → Process → Process × Outcome
deliver_checked s g t p =
    if stack_ok p t
    then (deliver s g t p, returns)
    else (record p { sig = some g }, do_signal_default s)

pub data Disposition : Type 0 where
  default ignore handle : Disposition

abbrev pub disposition : ℕ → Disposition
disposition h = if h == 0 then default else if h == 1 then ignore else handle

-- `(pending & (1U << s)) && !(blocked & (1U << s))`
abbrev pub is_deliverable : SignalState → ℕ → Bool
is_deliverable g s =
    if bit_and g.pending (2 ^ s) == 0
    then false
    else if bit_and g.blocked_mask (2 ^ s) == 0
    then true
    else false

abbrev pub without : ℕ → SignalState → SignalState
without s g = record g { pending = bit_and g.pending (bit_not 32 (2 ^ s)) }

-- The loop of `check_signals`: `n` signals from `s` on are left.
unfoldable pub check_from : ℕ → ℕ → SignalState → Trapframe → Process → Process × Outcome
check_from zero s g t p = (record p { sig = some g }, returns)
check_from (suc n) s g t p = elim (is_deliverable g s) [
  | false ↦ check_from n (suc s) g t p
  | true ↦ elim (disposition (action g s).sa_handler) [
    | default ↦ (record p { sig = some (without s g) }, do_signal_default s)
    | ignore ↦ check_from n (suc s) (without s g) t p
    | handle ↦ deliver_checked s (without s g) t p
  ]
]

unfoldable pub check_signals : Process → Process × Outcome
check_signals p = elim p.sig [
  | none ↦ (p, returns)
  | some g ↦
      if g.pending == 0
      then (p, returns)
      else elim p.tf [ none ↦ (p, returns) | some t ↦ check_from (nsig - 1) 1 g t p ]
]

-- `frame.rflags & 0x3F7FD7`
abbrev pub user_flags : ℕ → ℕ
user_flags w = bit_and w 0x3F7FD7

-- The registers of a sigframe, whose words are `ws`.
pub unpack : List ℕ → Trapframe
unpack ws = record {
  r15 = get_or ws 2 0;
  r14 = get_or ws 3 0;
  r13 = get_or ws 4 0;
  r12 = get_or ws 5 0;
  r11 = user_flags (get_or ws 16 0);
  r10 = get_or ws 7 0;
  r9 = get_or ws 8 0;
  r8 = get_or ws 9 0;
  rsi = get_or ws 10 0;
  rdi = get_or ws 11 0;
  rdx = get_or ws 12 0;
  rcx = get_or ws 13 0;
  rax = get_or ws 14 0;
  rip = get_or ws 15 0;
  rsp = get_or ws 17 0;
}

-- The registers that `do_sys_sigreturn` sets, by what `copy_from_user` gives.
pub restored : SignalState → Trapframe → Option (List ℕ) → Trapframe
restored g t none = record t { rip = g.saved_rip; rsp = g.saved_rsp }
restored g t (some buf) =
    let ws = buffer_words buf 18 in
    if ltb 0 (get_or ws 1 0) && ltb (get_or ws 1 0) nsig
    then unpack ws
    else record t { rip = g.saved_rip; rsp = g.saved_rsp }

pub do_sys_sigreturn : Process → Process × Outcome
do_sys_sigreturn p = elim p.tf [
  | none ↦ (p, exits 1)
  | some t ↦ elim p.sig [
    | none ↦ (p, returns)
    | some g ↦ if g.saved_rip == 0 then (p, returns) else (
      record p {
        tf = some (
            restored g t (
              copy_from_user p.space ((g.saved_rsp + 2 ^ 64 - sizeof_sigframe) % 2 ^ 64)
                sizeof_sigframe));
        sig = some (record g { saved_rip = 0; saved_rsp = 0; blocked_mask = 0 });
      },
      returns,
    )
  ]
]
