-- ===== src/Signal/Delivery/Killable.antt =====
-- SIGKILL with its default action and out of the mask, through each operation of kernel/signal.c.
use aurora_os_live.Base.{
  ℕ, zero, suc, ◌^◌, ◌≡◌, ◌≢◌, refl, sym, ap, ◌∙◌, ◌⊎◌, inl, inr, Bool, true, false, Option, none,
  some, ltb, leb, ◌==◌, get_or-set_ne, Bool-cases, Option-cases, arith,
}
use aurora_os_live.Base.Int.{ℤ, pos, negsuc}
use aurora_os_live.Base.Bits.{bit_test, bit_test-bit_or, bit_test-pow, bit_test-zero}
use aurora_os_live.Signal.{
  sigkill, nsig, action, no_action, SignalState, Trapframe, Process, signal_alloc, state_or_new,
}
use mathlib.Core.Path.{subst}
use aurora_os_live.User.{copy_from_user, copy_to_user}
use aurora_os_live.Signal.Actions.{
  action_bytes, action_of, set_action, swap_action, do_sys_sigaction,
}
use aurora_os_live.Signal.Delivery.{
  deliver, stack_ok, deliver_checked, disposition, Disposition, default, ignore, handle,
  is_deliverable, without, check_from, check_signals, do_sys_sigreturn,
}

-- SIGKILL has its default action and is not masked.
pub record IsKillable (g : SignalState) : Type 0 where
  pub default_action : (action g sigkill).sa_handler ≡ 0
  pub unmasked : bit_test g.blocked_mask sigkill ≡ 0

-- No signal state, or one like this.
abbrev pub AllKillable : Option SignalState → Type 0
AllKillable none = Unit {0}
AllKillable (some g) = IsKillable g

set_action-AllKillable :
    (s act : ℕ) (g : SignalState) (p : Process)
    → s ≢ sigkill
    → p.sig ≡ some g
    → IsKillable g
    → AllKillable (set_action s act g p).0.sig
unfolding set_action
set_action-AllKillable s act g p n e k = elim (Bool-cases (act == 0)) [
  | inl z ↦ simp (set_action, z, e) k
  | inr z ↦ elim (Option-cases (copy_from_user p.space act 24)) [
    | inl c ↦ simp (set_action, z, c, e) k
    | inr (buf, c) ↦
        simp (set_action, z, c)
          (record {
            default_action =
                ap (λ a. a.sa_handler)
                  (get_or-set_ne g.actions s sigkill (action_of buf) no_action n)
                ∙ k.default_action;
            unmasked = k.unmasked;
          })
  ]
]

swap_action-AllKillable :
    (s act oldact : ℕ) (g : SignalState) (p : Process)
    → s ≢ sigkill
    → p.sig ≡ some g
    → IsKillable g
    → AllKillable (swap_action s act oldact g p).0.sig
unfolding swap_action
swap_action-AllKillable s act oldact g p n e k = elim (Bool-cases (oldact == 0)) [
  | inl z ↦ simp (swap_action, z) (set_action-AllKillable s act g p n e k)
  | inr z ↦ elim (Option-cases (copy_to_user p.space oldact 24 (action_bytes (action g s)))) [
    | inl c ↦ simp (swap_action, z, c, e) k
    | inr (sp, c) ↦
        simp (swap_action, z, c) (set_action-AllKillable s act g (record p { space = sp }) n e k)
  ]
]

state_or_new-IsKillable :
    (has_block : Bool) (o : Option SignalState) (g : SignalState)
    → AllKillable o
    → state_or_new has_block o ≡ some g
    → IsKillable g
unfolding signal_alloc
state_or_new-IsKillable true none g k e =
    subst AllKillable e (record { default_action = refl; unmasked = bit_test-zero sigkill })
state_or_new-IsKillable false none g k e = subst AllKillable e tt
state_or_new-IsKillable has_block (some g') g k e = subst AllKillable e k

pub sigaction-AllKillable :
    (has_block : Bool) (signo : ℤ) (act oldact : ℕ) (p : Process)
    → AllKillable p.sig
    → AllKillable (do_sys_sigaction has_block signo act oldact p).0.sig
unfolding do_sys_sigaction
sigaction-AllKillable has_block (negsuc n) act oldact p k = k
sigaction-AllKillable has_block (pos s) act oldact p k = elim (Bool-cases (ltb s 1)) [
  | inl z ↦ simp (do_sys_sigaction, z) k
  | inr z ↦ elim (Bool-cases (leb nsig s)) [
    | inl y ↦ simp (do_sys_sigaction, z, y) k
    | inr y ↦ elim (Bool-cases (s == sigkill)) [
      | inl x ↦ simp (do_sys_sigaction, z, y, x) k
      | inr x ↦ elim (Option-cases (state_or_new has_block p.sig)) [
        | inl c ↦ simp (do_sys_sigaction, z, y, x, c) k
        | inr (g, c) ↦
            simp (do_sys_sigaction, z, y, x, c)
              (swap_action-AllKillable s act oldact g (record p { sig = some g }) (ground arith)
                refl (state_or_new-IsKillable has_block p.sig g k c))
      ]
    ]
  ]
]

-- A signal with a handler is not SIGKILL.
handled_ne_sigkill :
    (s : ℕ) (g : SignalState)
    → IsKillable g
    → disposition (action g s).sa_handler ≡ handle
    → s ≢ sigkill
handled_ne_sigkill s g k e z =
    let e' : default ≡ handle =
      ap disposition (sym k.default_action)
      ∙ ap (λ i. disposition (action g i).sa_handler) (sym z)
      ∙ e in
    cc

deliver-IsKillable :
    (s : ℕ) (g : SignalState) (t : Trapframe) (p : Process)
    → s ≢ sigkill
    → IsKillable g
    → AllKillable (deliver s g t p).sig
unfolding deliver
deliver-IsKillable s g t p n k = record {
  default_action = k.default_action;
  unmasked =
      ground
        (arith, bit_test-bit_or g.blocked_mask (2 ^ s) sigkill, bit_test-pow s sigkill, k.unmasked);
}

deliver_checked-AllKillable :
    (s : ℕ) (g : SignalState) (t : Trapframe) (p : Process)
    → s ≢ sigkill
    → IsKillable g
    → AllKillable (deliver_checked s g t p).0.sig
unfolding deliver_checked
deliver_checked-AllKillable s g t p n k = elim (Bool-cases (stack_ok p t)) [
  | inl e ↦ simp (deliver_checked, e) (deliver-IsKillable s g t p n k)
  | inr e ↦ simp (deliver_checked, e) k
]

without-IsKillable : (s : ℕ) (g : SignalState) → IsKillable g → IsKillable (without s g)
without-IsKillable s g k = record { default_action = k.default_action; unmasked = k.unmasked }

Disposition-cases : (d : Disposition) → (d ≡ default) ⊎ (d ≡ ignore) ⊎ (d ≡ handle)
Disposition-cases default = inl refl
Disposition-cases ignore = inr (inl refl)
Disposition-cases handle = inr (inr refl)

check_from-AllKillable :
    (n s : ℕ) (g : SignalState) (t : Trapframe) (p : Process)
    → IsKillable g
    → AllKillable (check_from n s g t p).0.sig
unfolding check_from
check_from-AllKillable zero s g t p k = k
check_from-AllKillable (suc n) s g t p k = elim (Bool-cases (is_deliverable g s)) [
  | inr d ↦ rw (check_from, d) (check_from-AllKillable n (suc s) g t p k)
  | inl d ↦ elim (Disposition-cases (disposition (action g s).sa_handler)) [
    | inl e ↦ rw (check_from, d, e) (without-IsKillable s g k)
    | inr (inl e) ↦
        rw (check_from, d, e)
          (check_from-AllKillable n (suc s) (without s g) t p (without-IsKillable s g k))
    | inr (inr e) ↦
        rw (check_from, d, e)
          (deliver_checked-AllKillable s (without s g) t p (handled_ne_sigkill s g k e)
            (without-IsKillable s g k))
  ]
]

pub check_signals-AllKillable :
    (p : Process) → AllKillable p.sig → AllKillable (check_signals p).0.sig
unfolding check_signals
check_signals-AllKillable p k = elim (Option-cases p.sig) [
  | inl n ↦ simp (check_signals, n) tt
  | inr (g, n) ↦
      let kg : IsKillable g = subst AllKillable n k in
      elim (Bool-cases (g.pending == 0)) [
        | inl z ↦ simp (check_signals, n, z) kg
        | inr z ↦ elim (Option-cases p.tf) [
          | inl m ↦ simp (check_signals, n, z, m) kg
          | inr (t, m) ↦ simp (check_signals, n, z, m) (check_from-AllKillable 31 1 g t p kg)
        ]
      ]
]

pub do_sys_sigreturn-AllKillable :
    (p : Process) → AllKillable p.sig → AllKillable (do_sys_sigreturn p).0.sig
unfolding do_sys_sigreturn
do_sys_sigreturn-AllKillable p k = elim (Option-cases p.tf) [
  | inl m ↦ simp (do_sys_sigreturn, m) k
  | inr (t, m) ↦ elim (Option-cases p.sig) [
    | inl n ↦ simp (do_sys_sigreturn, m, n) tt
    | inr (g, n) ↦
        let kg : IsKillable g = subst AllKillable n k in
        elim (Bool-cases (g.saved_rip == 0)) [
          | inl z ↦ simp (do_sys_sigreturn, m, n, z) kg
          | inr z ↦
              simp (do_sys_sigreturn, m, n, z)
                (record { default_action = kg.default_action; unmasked = bit_test-zero sigkill })
        ]
  ]
]
