-- ===== src/Fd/Open.antt =====
-- `fd_open_path`: a path opened and given a descriptor (kernel/file.c).
use aurora_os_live.Base.{
  ℕ, ◌+◌, ◌<◌, ◌≡◌, ◌≢◌, refl, arith, ==_iff, ne→==, set, inl, inr, Ensures, Ensures->>=, Bool,
}
use aurora_os_live.Base.Int.{ℤ, pos, minus_one}
use aurora_os_live.Vfs.{Vfs, vfs_open, vfs_close}
use aurora_os_live.Vfs.Refs.{
  same, IsCounted, IsCounted-cong, vfs_close-IsCounted, vfs_open-IsCounted,
}
use aurora_os_live.Fd.{Task, unused, slot, settle, fd_open_path, max_fds}
use aurora_os_live.Fd.Alloc.{FullBelow, Allocated, placed, refused, fd_alloc-Allocated}
use aurora_os_live.Fd.Refs.{held, IsOwned}
use aurora_os_live.Fd.Dup.{filled-IsOwned}

-- What `fd_open_path` may leave behind, where `kmalloc` gives `filp` to the new file.
pub data OpenedAs (filp : ℕ) (s : Task) (r : Task × ℤ) : Type 0 where
  opened_as :
      (i : ℕ)
      → i < max_fds
      → slot s.fd_table i ≡ unused
      → FullBelow s.fd_table i
      → r.0.fd_table ≡ set s.fd_table i filp
      → r.1 ≡ pos i
      → OpenedAs filp s r
  failed : r.0.fd_table ≡ s.fd_table → r.1 ≡ minus_one → OpenedAs filp s r

settle_opened :
    {outer : ℕ → ℕ} {s : Task} (o : IsOwned outer s) (v : Vfs) (f : ℕ)
    → f ≢ unused
    → IsCounted (λ q. held outer s.fd_table q + same f q) v
    → (r : Task × ℤ) → Allocated f (record s { vfs = v }) r
    → Ensures (settle f (λ n. minus_one) r) (λ r. IsOwned outer r.0 × OpenedAs f s r)
unfolding settle
settle_opened {outer} {s} o v f n c r (placed i b e l _ q) = rw q (
  filled-IsOwned i f v o (omega (arith, o.size)) e n c,
  opened_as i (omega (arith, o.size)) e l refl refl,
)
settle_opened {outer} {s} o v f n c r (refused l q) = rw q (
    Ensures->>= (vfs_close f v) _ _ _ (vfs_close-IsCounted f c (ground (arith, ==_iff f f))) λ d k.
      (
        record { size = o.size; counted = IsCounted-cong (λ p. omega arith) k.0; few = o.few },
        failed refl refl,
      ))

-- `fd_open_path` does not fault and keeps every count exact: it puts the new file in the lowest
-- free slot, or returns -1 with the table as it was and no file left over.
pub fd_open_path-IsOwned :
    {outer : ℕ → ℕ} {s : Task} (inode filp : ℕ) (fails : Bool)
    → IsOwned outer s
    → held outer s.fd_table filp ≡ 0
    → filp ≢ unused
    → Ensures (fd_open_path inode filp fails s) (λ r. IsOwned outer r.0 × OpenedAs filp s r)
unfolding fd_open_path
fd_open_path-IsOwned {outer} {s} inode filp fails o h n =
    elim (vfs_open-IsCounted inode filp fails 0 o.counted h) [
      | inl (e, u) ↦
          rw (e) (record { size = o.size; counted = rw u o.counted; few = o.few }, failed refl refl)
      | inr (e, z, c) ↦
          rw (ne→== _ 0 z, e)
            (settle_opened o _ filp n c _
              (fd_alloc-Allocated filp (record s { vfs = (vfs_open inode filp fails 0 s.vfs).0 })))
    ]
