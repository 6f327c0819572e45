-- ===== src/Fd/Refs.antt =====
-- Descriptors as references: every file's count is the number of descriptors that hold it, with
-- those that other tasks and calls in progress hold (kernel/file.c).
use aurora_os_live.Base.{
  ne→==, eq→==, ◌∙◌, ℕ, ◌+◌, ◌-◌, ◌^◌, ◌<◌, ◌≡◌, ◌≢◌, refl, List, arith, ◌==◌, if◌then◌else◌,
  length, length-set, set, some, Ensures, Ensures->>=, false,
}
use aurora_os_live.Base.Int.{ℤ, pos, negsuc, minus_one}
use aurora_os_live.Vfs.{File, Vfs, vfs_close}
use aurora_os_live.Vfs.Refs.{
  vfs_close_uncounted, same, IsCounted, IsCounted-cong, vfs_close-IsCounted,
}
use aurora_os_live.Fd.{Task, unused, slot, fd_get, fd_close, max_fds, index, out_of_range}
use aurora_os_live.Fd.Slots.{count, count-set, count-pos}

-- The holders of the file at `p`: the task's slots, and `outer`, all others.
abbrev pub held : (ℕ → ℕ) → List ℕ → ℕ → ℕ
held outer t p = (if p == unused then 0 else count p t) + outer p

pub record IsOwned (outer : ℕ → ℕ) (s : Task) : Type 0 where
  pub size : length s.fd_table ≡ max_fds
  pub counted : IsCounted (held outer s.fd_table) s.vfs
  pub few : (p : ℕ) → outer p < 2 ^ 30

-- Emptying a slot takes one holder away.
pub held-vacate :
    (outer : ℕ → ℕ) (t : List ℕ) (i : ℕ) (p : ℕ)
    → i < length t
    → slot t i ≢ unused
    → held outer t p - same (slot t i) p ≡ held outer (set t i unused) p
held-vacate outer t i p h n = ground (arith, count-set p t i unused h)

-- Filling a free slot adds one.
pub held-fill :
    (outer : ℕ → ℕ) (t : List ℕ) (i w : ℕ) (p : ℕ)
    → i < length t
    → slot t i ≡ unused
    → w ≢ unused
    → held outer t p + same w p ≡ held outer (set t i w) p
held-fill outer t i w p h e n = ground (arith, count-set p t i w h)

pub held-slot :
    (outer : ℕ → ℕ) (t : List ℕ) (i : ℕ)
    → i < length t
    → slot t i ≢ unused
    → 0 < held outer t (slot t i)
held-slot outer t i h n = ground (arith, count-pos t i h)

-- A slot in use holds no NULL pointer.
pub slot_ne_null :
    {outer : ℕ → ℕ} {s : Task} (i : ℕ)
    → IsOwned outer s
    → i < max_fds
    → slot s.fd_table i ≢ unused
    → slot s.fd_table i ≢ 0
slot_ne_null {outer} {s} i o b n e = ground (
  arith,
  held-slot outer s.fd_table i (omega (arith, o.size)) n,
  o.counted.exact (slot s.fd_table i),
  o.counted.null,
)

pub fd_get_used :
    (s : Task) (fd : ℤ)
    → out_of_range fd ≡ false
    → slot s.fd_table (index fd) ≢ unused
    → fd_get s fd ≡ slot s.fd_table (index fd)
unfolding fd_get
fd_get_used s fd a n = rw (a, ne→== _ _ n)

-- A descriptor for which `fd_get` finds a file names a slot in use.
pub fd_get-slot :
    (s : Task) (fd : ℤ)
    → fd_get s fd ≢ 0
    → (out_of_range fd ≡ false)
      × (index fd < max_fds)
      × (fd_get s fd ≡ slot s.fd_table (index fd))
      × (fd_get s fd ≢ unused)
unfolding fd_get
fd_get-slot s (negsuc n) h = absurd (h refl)
fd_get-slot s (pos i) h = ground arith

pub fd_get_free : (s : Task) (fd : ℤ) → slot s.fd_table (index fd) ≡ unused → fd_get s fd ≡ 0
unfolding fd_get
fd_get_free s fd h = ground arith

-- A bad or closed descriptor: -1, and nothing changes.
pub fd_close_none : (fd : ℤ) (s : Task) → fd_get s fd ≡ 0 → fd_close fd s ≡ some (s, minus_one)
unfolding fd_close
fd_close_none fd s h = rw (eq→== _ 0 h)

-- The task after its slot `i` has been closed.
vacated-IsOwned :
    {outer : ℕ → ℕ} {s : Task} (i : ℕ) (v : Vfs)
    → IsOwned outer s
    → i < max_fds
    → slot s.fd_table i ≢ unused
    → IsCounted (λ q. held outer s.fd_table q - same (slot s.fd_table i) q) v
    → IsOwned outer (record { vfs = v; fd_table = set s.fd_table i unused })
vacated-IsOwned {outer} {s} i v o h n c = record {
  size = omega (arith, length-set s.fd_table i unused, o.size);
  counted = IsCounted-cong (λ p. held-vacate outer s.fd_table i p (omega (arith, o.size)) n) c;
  few = o.few;
}

-- Closing an open descriptor does not fault, returns 0, frees its slot alone, and keeps every count
-- exact.
pub fd_close-IsOwned :
    {outer : ℕ → ℕ} {s : Task} (fd : ℤ)
    → IsOwned outer s
    → fd_get s fd ≢ 0
    → Ensures
        (fd_close fd s)
        (λ r. IsOwned outer r.0 × (r.1 ≡ pos 0) × (r.0.fd_table ≡ set s.fd_table (index fd) unused))
unfolding fd_close
fd_close-IsOwned {outer} {s} fd o h =
    let (a, b, e, n) = fd_get-slot s fd h in
    let used : slot s.fd_table (index fd) ≢ unused = λ k. n (e ∙ k) in
    rw (ne→== _ 0 h, e)
      (Ensures->>= (vfs_close (slot s.fd_table (index fd)) s.vfs) _ _ _
        (vfs_close-IsCounted (slot s.fd_table (index fd)) o.counted
          (held-slot outer s.fd_table (index fd) (omega (arith, o.size)) used))
        (λ r k. (vacated-IsOwned (index fd) r.0 o b used k.0, refl, refl)))

-- A file whose count is 0 is not closed by `fd_close`: the slot is freed, the file stays, and the
-- file system's `close` is not called.
pub fd_close_uncounted :
    (i : ℕ) (f : File) (s : Task)
    → i < max_fds
    → slot s.fd_table i ≢ unused
    → slot s.fd_table i ≢ 0
    → s.vfs.files (slot s.fd_table i) ≡ some f
    → f.refcount ≡ 0
    → fd_close (pos i) s ≡ some (record { vfs = s.vfs; fd_table = set s.fd_table i unused }, pos 0)
unfolding fd_close
fd_close_uncounted i f s b n z e k = rw (
  fd_get_used s (pos i) (ground arith) n,
  ne→== _ 0 z,
  vfs_close_uncounted (slot s.fd_table i) f s.vfs z e k,
)
