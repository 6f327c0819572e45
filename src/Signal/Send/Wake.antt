-- ===== src/Signal/Send/Wake.antt =====
-- What do_sys_kill of kernel/signal.c marks and whom it wakes.
use aurora_os_live.Base.{
  ℕ, ◌^◌, ◌≤◌, ◌<◌, ◌≡◌, ◌≢◌, refl, ap, ◌∙◌, inl, inr, Bool, true, false, ◌&&◌, ◌||◌, not, some,
  ltb, leb, ◌==◌, if◌then◌else◌, Bool-cases, ne→==, arith,
}
use aurora_os_live.Base.Int.{ℤ, pos}
use aurora_os_live.Base.Bits.{
  bit_test, bit_test-le, bit_test-bit_or, bit_test-pow, bit_and-pow-zero, bit_and-pow_ne_zero,
}
use aurora_os_live.Vfs.{set_at}
use aurora_os_live.Sched.{TaskState, ready, blocked, find_task_by_pid}
use aurora_os_live.Signal.{sigkill, nsig, action, SignalState, state_or_new}
use aurora_os_live.Signal.Send.{Tasks, wakes_target, mark_pending, kill_task, do_sys_kill}

-- Whether a signal makes a task ready: it is blocked, the signal is not masked, and it is SIGKILL or
-- not ignored.
abbrev pub should_wake : ℕ → SignalState → TaskState → Bool
should_wake s g state = elim state [
  | blocked ↦
      (bit_test g.blocked_mask s == 0) && ((s == sigkill) || not ((action g s).sa_handler == 1))
  | _ ↦ false
]

wakes_target-should_wake :
    (s : ℕ) (g : SignalState) (state : TaskState)
    → wakes_target s (mark_pending s g) state ≡ should_wake s g state
unfolding wakes_target mark_pending
wakes_target-should_wake s g blocked = ground (
  arith,
  bit_test-le g.blocked_mask s,
  bit_and-pow-zero g.blocked_mask s,
  bit_and-pow_ne_zero g.blocked_mask s,
)
wakes_target-should_wake s g _ = refl

abbrev killed : ℕ → ℕ → SignalState → Tasks → Tasks
killed s t g ts = record ts {
  sigs = set_at ts.sigs t (some (mark_pending s g));
  states =
      if wakes_target s (mark_pending s g) (ts.states t)
      then set_at ts.states t ready
      else ts.states;
}

kill_task_lem :
    (has_block : Bool) (s t : ℕ) (g : SignalState) (ts : Tasks)
    → state_or_new has_block (ts.sigs t) ≡ some g
    → kill_task has_block s t ts ≡ (killed s t g ts, pos 0)
unfolding kill_task
kill_task_lem has_block s t g ts e = simp (kill_task, e) refl

mark_pending_bits :
    (s k : ℕ) (g : SignalState)
    → bit_test (mark_pending s g).pending k ≡ (if s == k then 1 else bit_test g.pending k)
unfolding mark_pending
mark_pending_bits s k g =
    ground (arith, bit_test-bit_or g.pending (2 ^ s) k, bit_test-pow s k, bit_test-le g.pending k)

mark_pending_rest :
    (s : ℕ) (g : SignalState) → mark_pending s g ≡ record g { pending = (mark_pending s g).pending }
unfolding mark_pending
mark_pending_rest s g = refl

woken :
    (b : Bool) (t u : ℕ) (states : ℕ → TaskState)
    → (if b then set_at states t ready else states) u ≡ (if (t == u) && b then ready else states u)
woken true t u states = elim (Bool-cases (t == u)) [ inl e ↦ rw e refl | inr e ↦ rw e refl ]
woken false t u states = elim (Bool-cases (t == u)) [ inl e ↦ rw e refl | inr e ↦ rw e refl ]

-- do_sys_kill of a signal 1..31 to a task that is there, with its signal state or a block for a new
-- one, returns 0, adds the signal to those pending and no other, leaves all other fields of the signal
-- state and the signal states of all other tasks, and makes exactly that task ready, if it is blocked
-- and the signal is not masked and, unless it is SIGKILL, not ignored.
pub do_sys_kill_lem :
    (has_block : Bool) (pid : ℤ) (s : ℕ) (g : SignalState) (ts : Tasks)
    → 1 ≤ s
    → s < nsig
    → find_task_by_pid ts.pid_table ts.states pid ≢ 0
    → state_or_new has_block (ts.sigs (find_task_by_pid ts.pid_table ts.states pid)) ≡ some g
    → let t = find_task_by_pid ts.pid_table ts.states pid in
      let (ts', r) = do_sys_kill has_block pid (pos s) ts in
      (r ≡ pos 0)
      × ((g' : SignalState) × ((u : ℕ) → ts'.sigs u ≡ (if t == u then some g' else ts.sigs u))
          × ((k : ℕ) → bit_test g'.pending k ≡ (if s == k then 1 else bit_test g.pending k))
          × (g' ≡ record g { pending = g'.pending }))
      × ((u : ℕ)
          → ts'.states u
            ≡ (if (t == u) && should_wake s g (ts.states t) then ready else ts.states u))
unfolding do_sys_kill
do_sys_kill_lem has_block pid s g ts a b found e =
    let t = find_task_by_pid ts.pid_table ts.states pid in
    let low : ltb s 1 ≡ false = ground arith in
    let high : leb nsig s ≡ false = ground arith in
    let run : do_sys_kill has_block pid (pos s) ts ≡ (killed s t g ts, pos 0) =
      simp (do_sys_kill, low, high, ne→== _ 0 found) (kill_task_lem has_block s t g ts e) in
    let states : (u : ℕ)
        → (killed s t g ts).states u
          ≡ (if (t == u) && should_wake s g (ts.states t) then ready else ts.states u) =
      λ u.
        woken (wakes_target s (mark_pending s g) (ts.states t)) t u ts.states
        ∙ ap (λ b. if (t == u) && b then ready else ts.states u)
            (wakes_target-should_wake s g (ts.states t)) in
    rw run (
      refl,
      (mark_pending s g, λ u. refl, λ k. mark_pending_bits s k g, mark_pending_rest s g),
      states,
    )
