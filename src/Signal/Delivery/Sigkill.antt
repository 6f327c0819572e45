-- ===== src/Signal/Delivery/Sigkill.antt =====
-- SIGKILL can be neither caught nor blocked (kernel/signal.c).
use aurora_os_live.Base.{
  ℕ, suc, ◌≤◌, ◌<◌, ◌≡◌, refl, ap, ◌∙◌, Bool, true, false, some, ne→==, arith,
}
use aurora_os_live.Base.Int.{ℤ}
use aurora_os_live.Base.Bits.{bit_test, bit_and-pow-zero, bit_and-pow_ne_zero}
use aurora_os_live.Signal.{sigkill, action, SignalState, Trapframe, Process, exits}
use aurora_os_live.Signal.Actions.{do_sys_sigaction}
use aurora_os_live.Signal.Delivery.Restore.{check_from_skip, deliverable_pending}
use aurora_os_live.Signal.Delivery.{
  disposition, default, is_deliverable, without, check_from, check_signals, do_sys_sigreturn,
  do_signal_default,
}
use aurora_os_live.Signal.Delivery.Killable.{
  IsKillable, AllKillable, sigaction-AllKillable, check_signals-AllKillable,
  do_sys_sigreturn-AllKillable,
}

-- do_sys_sigaction, check_signals and do_sys_sigreturn keep SIGKILL at its default action and out of
-- the mask, in a process that has no signal state yet or one of which that holds.
pub sigkill_stays :
    (p : Process)
    → AllKillable p.sig
    → ((has_block : Bool) (signo : ℤ) (act oldact : ℕ)
        → AllKillable (do_sys_sigaction has_block signo act oldact p).0.sig)
      × AllKillable (check_signals p).0.sig
      × AllKillable (do_sys_sigreturn p).0.sig
sigkill_stays p k = (
  λ b s act old. sigaction-AllKillable b s act old p k,
  check_signals-AllKillable p k,
  do_sys_sigreturn-AllKillable p k,
)

killed_deliverable :
    (g : SignalState)
    → IsKillable g
    → bit_test g.pending sigkill ≡ 1
    → is_deliverable g sigkill ≡ true
killed_deliverable g k b = ground (
  arith,
  bit_and-pow_ne_zero g.pending sigkill b,
  bit_and-pow-zero g.blocked_mask sigkill k.unmasked,
)

check_from-default :
    (n s : ℕ) (g : SignalState) (t : Trapframe) (p : Process)
    → is_deliverable g s ≡ true
    → disposition (action g s).sa_handler ≡ default
    → check_from (suc n) s g t p ≡ (record p { sig = some (without s g) }, do_signal_default s)
unfolding check_from
check_from-default n s g t p d e = rw (check_from, d, e) refl

-- A process with a trap frame, SIGKILL at its default action and out of the mask, and SIGKILL the first
-- signal that is pending and not blocked, ends in check_signals, with exit code 137.
pub sigkill_ends :
    (p : Process) (g : SignalState) (t : Trapframe)
    → p.sig ≡ some g
    → p.tf ≡ some t
    → IsKillable g
    → ((k : ℕ) → 1 ≤ k → k < sigkill → is_deliverable g k ≡ false)
    → bit_test g.pending sigkill ≡ 1
    → (check_signals p).1 ≡ exits 137
unfolding check_signals do_signal_default
sigkill_ends p g t n m k h b =
    let d = killed_deliverable g k b in
    let e : disposition (action g sigkill).sa_handler ≡ default = ap disposition k.default_action in
    rw (check_signals, n, ne→== _ 0 (deliverable_pending g sigkill d), m)
      (ap (λ r. r.1) (check_from_skip 31 1 sigkill 22 g t p (omega arith) refl h)
        ∙ ap (λ r. r.1) (check_from-default 22 sigkill g t p d e))
