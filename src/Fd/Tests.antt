-- ===== src/Fd/Tests.antt =====
-- Runs of the descriptor functions, and the theorems at concrete tasks.
use aurora_os_live.Base.{
  ℕ, ◌≡◌, ◌≢◌, refl, true, false, none, some, [], ◌∷◌, arith, set, replicate, Ensures,
}
use aurora_os_live.Base.Int.{pos}
use aurora_os_live.Vfs.{File, Vfs, set_at}
use aurora_os_live.Vfs.Refs.{refs}
use aurora_os_live.Fd.{
  Task, unused, max_fds, fd_alloc, first_free, fd_get, fd_close_all, fd_dup2, fd_open_path,
}
use aurora_os_live.Fd.Slots.{count}
use aurora_os_live.Fd.Refs.{IsOwned}
use aurora_os_live.Fd.CloseAll.{fd_close_all-IsOwned}
use aurora_os_live.Fd.Dup.{fd_dup2-IsOwned}
use aurora_os_live.Fd.Open.{OpenedAs, fd_open_path-IsOwned}

-- Descriptors 0 and 1 share the file at 100.
abbrev shared_file : File
shared_file = record { inode = 7; flags = 0; refcount = 2 }

abbrev shared_vfs : Vfs
shared_vfs = record {
  files = set_at (λ p. none) 100 (some shared_file);
  inodes = λ p. record { has_close = true; dentry = 0 };
  dentry_refs = λ p. 1;
  closed = [];
}

abbrev sample : Task
sample = record { vfs = shared_vfs; fd_table = 100 ∷ 100 ∷ replicate 14 unused }

abbrev nobody : ℕ → ℕ
nobody p = 0

sample-IsOwned : IsOwned nobody sample
unfolding count
sample-IsOwned = record {
  size = refl;
  counted = record { exact = λ p. ground arith; live = λ p f e. ground arith; null = refl };
  few = λ p. omega arith;
}

sample_open : fd_get sample (pos 0) ≢ 0
unfolding fd_get
sample_open e = omega arith

fd_alloc_runs : (fd_alloc 5 sample).1 ≡ pos 2
unfolding fd_alloc first_free
fd_alloc_runs = refl

fd_dup2-IsOwned_example : Ensures (fd_dup2 (pos 0) (pos 5) sample) (λ r.
    IsOwned nobody r.0
    × (r.1 ≡ pos 5)
    × (r.0.fd_table ≡ set sample.fd_table 5 (fd_get sample (pos 0))))
fd_dup2-IsOwned_example =
    fd_dup2-IsOwned (pos 0) (pos 5) sample-IsOwned sample_open refl (omega arith)

fd_close_all-IsOwned_example :
    Ensures (fd_close_all sample) (λ s.
      IsOwned nobody s × (s.fd_table ≡ replicate max_fds unused) × ((p : ℕ) → refs s.vfs p ≡ 0))
fd_close_all-IsOwned_example = fd_close_all-IsOwned sample-IsOwned

fd_open_path-IsOwned_example :
    Ensures (fd_open_path 7 200 false sample) (λ r. IsOwned nobody r.0 × OpenedAs 200 sample r)
unfolding count
fd_open_path-IsOwned_example = fd_open_path-IsOwned 7 200 false sample-IsOwned refl (omega arith)
