-- ===== src/Signal/Delivery/Restore.antt =====
-- A handler that returns (kernel/signal.c): do_sys_sigreturn after check_signals.
use aurora_os_live.Base.{
  ℕ, zero, suc, ◌+◌, ◌-◌, ◌^◌, ◌≤◌, ◌<◌, ◌≡◌, ◌≢◌, refl, sym, ap, ap₂, ◌∙◌, true, false, some, List,
  ◌∷◌, ◌==◌, ne→==, Option-cases, Bool-cases, inl, inr, arith,
}
use Prim.Native.Nat.{bit_and, bit_or, ◌%◌}
use aurora_os_live.Base.Bits.{bit_and-pow-zero, bit_test-zero}
use mathlib.Core.Path.{subst}
use native.Mathlib.Decide.{ℕ_discrete}
use aurora_os_live.User.{load_bytes, may_copy, copy_from_user}
use aurora_os_live.User.Words.{copy_from_user_ok}
use aurora_os_live.User.Words.{
  AreWords, number, load_words, load_words-suc, load_words_cong, load_words-store_bytes,
  buffer_words, buffer_words-load_bytes,
}
use aurora_os_live.Signal.{nsig, action, SignalState, Trapframe, Process, returns}
use aurora_os_live.Signal.Delivery.{
  sizeof_sigframe, frame_size, trampoline_size, frame_words, push_frame, deliver, stack_ok,
  deliver_checked, disposition, handle, is_deliverable, without, check_from, check_signals,
  user_flags, unpack, restored, do_sys_sigreturn,
}

-- The loop passes by signals that are not pending or are blocked.
pub check_from_skip :
    (fuel from s n : ℕ) (g : SignalState) (t : Trapframe) (p : Process)
    → from ≤ s
    → s + suc n ≡ from + fuel
    → ((k : ℕ) → from ≤ k → k < s → is_deliverable g k ≡ false)
    → check_from fuel from g t p ≡ check_from (suc n) s g t p
unfolding check_from
check_from_skip zero from s n g t p a e h = absurd (omega arith)
check_from_skip (suc fuel) from s n g t p a e h = elim (ℕ_discrete from s) [
  | yes z ↦ let left : suc fuel ≡ suc n = omega arith in ap₂ (λ i k. check_from i k g t p) left z
  | no z ↦
      let off : is_deliverable g from ≡ false = h from (omega arith) (omega arith) in
      rw (check_from, off)
        (check_from_skip fuel (suc from) s n g t p (omega arith) (omega arith)
          (λ k q r. h k (omega arith) r))
]

-- The words of the frame that is pushed, read back.
frame_words_back :
    (s : ℕ) (t : Trapframe) (m m' : ℕ → ℕ)
    → AreWords (frame_words s t)
    → frame_size ≤ t.rsp
    → ((x : ℕ) → t.rsp - 136 ≤ x → x < t.rsp → m' x ≡ push_frame s t m x)
    → load_words m' (t.rsp - 136) 17 ≡ frame_words s t
unfolding push_frame
frame_words_back s t m m' w h same =
    let a : t.rsp - frame_size + 8 + trampoline_size + 8 ≡ t.rsp - 136 = omega arith in
    load_words_cong m' (push_frame s t m) (t.rsp - 136) 17 (λ x p q. same x p (omega arith))
    ∙ ap (λ k. load_words (push_frame s t m) k 17) (sym a)
    ∙ load_words-store_bytes _ _ (frame_words s t) w

-- The registers that do_sys_sigreturn sets, where the frame has not been overwritten.
restored-frame :
    (s : ℕ) (t t' : Trapframe) (g : SignalState) (m m' : ℕ → ℕ)
    → 1 ≤ s
    → s < nsig
    → AreWords (frame_words s t)
    → frame_size ≤ t.rsp
    → ((x : ℕ) → t.rsp - 136 ≤ x → x < t.rsp → m' x ≡ push_frame s t m x)
    → restored g t' (some (load_bytes m' (t.rsp - sizeof_sigframe) sizeof_sigframe))
      ≡ record t { r11 = user_flags t.r11 }
unfolding restored unpack
restored-frame s t t' g m m' a b w h same =
    let at = t.rsp - sizeof_sigframe in
    let e : buffer_words (load_bytes m' at sizeof_sigframe) 18
        ≡ number (load_bytes m' at 8) ∷ frame_words s t =
      buffer_words-load_bytes m' at 18
      ∙ load_words-suc m' at 17
      ∙ ap (λ r. number (load_bytes m' at 8) ∷ r)
          (ap (λ k. load_words m' k 17) (omega arith) ∙ frame_words_back s t m m' w h same) in
    rw e (ground arith)

pub deliverable_pending : (g : SignalState) (s : ℕ) → is_deliverable g s ≡ true → g.pending ≢ 0
deliverable_pending g s d z =
    ground (arith, bit_and-pow-zero 0 s (bit_test-zero s), ap (λ x. bit_and x (2 ^ s)) z)

stack_ok_room : (p : Process) (t : Trapframe) → stack_ok p t ≡ true → frame_size + 0x1000 ≤ t.rsp
unfolding stack_ok
stack_ok_room p t ok = ground arith

check_signals-deliver :
    (s : ℕ) (g : SignalState) (t : Trapframe) (p : Process)
    → p.sig ≡ some g
    → p.tf ≡ some t
    → 1 ≤ s
    → s < nsig
    → ((k : ℕ) → 1 ≤ k → k < s → is_deliverable g k ≡ false)
    → is_deliverable g s ≡ true
    → disposition (action g s).sa_handler ≡ handle
    → stack_ok p t ≡ true
    → check_signals p ≡ (deliver s (without s g) t p, returns)
unfolding check_signals check_from deliver_checked deliver
check_signals-deliver s g t p eg et a b h d e ok =
    rw (check_signals, eg, ne→== _ 0 (deliverable_pending g s d), et)
      (check_from_skip 31 1 s (31 - s) g t p a (omega arith) h
        ∙ rw (check_from, d, e) (rw (deliver_checked, ok) refl))

rsp_word : (s : ℕ) (t : Trapframe) → AreWords (frame_words s t) → t.rsp < 2 ^ 64
rsp_word s t w = ground arith

do_sys_sigreturn-copied :
    (g : SignalState) (t : Trapframe) (q : Process) (buf : List ℕ)
    → q.sig ≡ some g
    → q.tf ≡ some t
    → g.saved_rip ≢ 0
    → copy_from_user q.space ((g.saved_rsp + 2 ^ 64 - sizeof_sigframe) % 2 ^ 64) sizeof_sigframe
      ≡ some buf
    → do_sys_sigreturn q ≡ (
      record q {
        tf = some (restored g t (some buf));
        sig = some (record g { saved_rip = 0; saved_rsp = 0; blocked_mask = 0 });
      },
      returns,
    )
unfolding do_sys_sigreturn
do_sys_sigreturn-copied g t q buf es et live e =
    simp (do_sys_sigreturn, es, et, ne→== _ 0 live, e) refl

-- Where signal s is the first that is pending and not blocked, has a handler, and the stack passes the
-- checks, check_signals redirects to the handler with the old stack pointer less 168; and where the
-- handler ends without another delivery, its frame neither written nor unmapped, do_sys_sigreturn then
-- restores every register, but r11 only within the flags 0x3F7FD7, and unblocks all signals. The
-- registers are 64-bit words and rip is not 0.
pub sigreturn-check_signals :
    (s : ℕ) (g : SignalState) (t t' : Trapframe) (p q : Process)
    → p.sig ≡ some g
    → p.tf ≡ some t
    → 1 ≤ s
    → s < nsig
    → ((k : ℕ) → 1 ≤ k → k < s → is_deliverable g k ≡ false)
    → is_deliverable g s ≡ true
    → disposition (action g s).sa_handler ≡ handle
    → stack_ok p t ≡ true
    → AreWords (frame_words s t)
    → t.rip ≢ 0
    → q.sig ≡ (check_signals p).0.sig
    → q.tf ≡ some t'
    → may_copy q.space (t.rsp - sizeof_sigframe) sizeof_sigframe ≡ true
    → ((x : ℕ)
        → t.rsp - 136 ≤ x
        → x < t.rsp
        → q.space.memory x ≡ (check_signals p).0.space.memory x)
    → ((check_signals p).0.tf
        ≡ some (record t { rip = (action g s).sa_handler; rsp = t.rsp - frame_size; rdi = s }))
      × (do_sys_sigreturn q ≡ (
        record q {
          tf = some (record t { r11 = user_flags t.r11 });
          sig = some (record (without s g) { saved_rip = 0; saved_rsp = 0; blocked_mask = 0 });
        },
        returns,
      ))
unfolding do_sys_sigreturn deliver
sigreturn-check_signals s g t t' p q eg et a b h d e ok w live sig' tf' may same =
    let c = check_signals-deliver s g t p eg et a b h d e ok in
    let big = stack_ok_room p t ok in
    let same' : (x : ℕ)
        → t.rsp - 136 ≤ x
        → x < t.rsp
        → q.space.memory x ≡ push_frame s t p.space.memory x =
      λ x u v. same x u v ∙ ap (λ r. r.0.space.memory x) c in
    let from : (t.rsp + 2 ^ 64 - sizeof_sigframe) % 2 ^ 64 ≡ t.rsp - sizeof_sigframe =
      omega (arith, rsp_word s t w, big) in
    let copied : copy_from_user q.space ((t.rsp + 2 ^ 64 - sizeof_sigframe) % 2 ^ 64)
          sizeof_sigframe
        ≡ some (load_bytes q.space.memory (t.rsp - sizeof_sigframe) sizeof_sigframe) =
      ap (λ k. copy_from_user q.space k sizeof_sigframe) from
      ∙ copy_from_user_ok q.space (t.rsp - sizeof_sigframe) sizeof_sigframe may in
    let handling : SignalState = record (without s g) {
      blocked_mask = bit_or g.blocked_mask (2 ^ s);
      saved_rsp = t.rsp;
      saved_rip = t.rip;
    } in
    (
      ap (λ r. r.0.tf) c,
      do_sys_sigreturn-copied handling t' q _ (sig' ∙ ap (λ r. r.0.sig) c) tf' live copied
          ∙ ap
              (λ r. (
                record q {
                  tf = some r;
                  sig = some (record handling { saved_rip = 0; saved_rsp = 0; blocked_mask = 0 });
                },
                returns,
              ))
              (restored-frame s t t' handling p.space.memory q.space.memory a b w (omega arith)
                same'),
    )

-- After do_sys_sigreturn, with no delivery between, another do_sys_sigreturn changes nothing: the
-- context of a handler that a second handler has interrupted is lost.
pub sigreturn_twice :
    (p : Process) (t : Trapframe)
    → p.tf ≡ some t
    → do_sys_sigreturn (do_sys_sigreturn p).0 ≡ ((do_sys_sigreturn p).0, returns)
unfolding do_sys_sigreturn
sigreturn_twice p t e = elim (Option-cases p.sig) [
  | inl n ↦
      let first : do_sys_sigreturn p ≡ (p, returns) = simp (do_sys_sigreturn, e, n) refl in
      subst (λ r. do_sys_sigreturn r.0 ≡ (r.0, returns)) (sym first) first
  | inr (g, n) ↦ elim (Bool-cases (g.saved_rip == 0)) [
    | inl z ↦
        let first : do_sys_sigreturn p ≡ (p, returns) = simp (do_sys_sigreturn, e, n, z) refl in
        subst (λ r. do_sys_sigreturn r.0 ≡ (r.0, returns)) (sym first) first
    | inr z ↦
        let at = (g.saved_rsp + 2 ^ 64 - sizeof_sigframe) % 2 ^ 64 in
        let q : Process = record p {
          tf = some (restored g t (copy_from_user p.space at sizeof_sigframe));
          sig = some (record g { saved_rip = 0; saved_rsp = 0; blocked_mask = 0 });
        } in
        let first : do_sys_sigreturn p ≡ (q, returns) = simp (do_sys_sigreturn, e, n, z) refl in
        subst (λ r. do_sys_sigreturn r.0 ≡ (r.0, returns)) (sym first) refl
  ]
]
