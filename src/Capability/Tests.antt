-- ===== src/Capability/Tests.antt =====
-- Runs of the capability functions, and the theorems at a concrete kernel.
use aurora_os_live.Base.{
  ℕ, ◌+◌, ◌≡◌, refl, inl, inr, ◌⊎◌, zero, suc, Bool-cases, none, some, [], ◌∷◌, true, ◌&&◌, ◌==◌,
  if◌then◌else◌, arith, Ensures,
}
use aurora_os_live.Base.Int.{pos, minus_one}
use aurora_os_live.Base.Bits.{bit_test}
use aurora_os_live.Vfs.{Vfs, set_at}
use aurora_os_live.Vfs.Refs.{IsCounted, same}
use aurora_os_live.Fd.{slot, unused, first_free}
use aurora_os_live.Sched.{running, find_task_by_pid}
use aurora_os_live.Capability.{
  Kernel, Entry, cap_entry_magic, cap_get, fd_check_cap, fd_derive, fd_send,
}
use aurora_os_live.Capability.Rights.{masked_Narrows}
use aurora_os_live.Capability.Entries.{IsConfined, IsFresh}
use aurora_os_live.Capability.Steps.{sent, done, and_then, Steps-IsConfined}
use aurora_os_live.Capability.Transfer.{fd_send_transfers}
use aurora_os_live.Capability.Derive.{fd_derive_leaks}

-- The task at 1000, process 1, has descriptor 0 on the file at 100 with the rights to read and to
-- send; the task at 2000 is process 2. Both have two slots more.
abbrev vfs : Vfs
vfs = record {
  files = set_at (λ p. none) 100 (some (record { inode = 7; flags = 0; refcount = 1 }));
  inodes = λ p. record { has_close = true; dentry = 0 };
  dentry_refs = λ p. 1;
  closed = [];
}

abbrev no_entry : Entry
no_entry = record { magic = 0; file = 0; caps = 0 }

abbrev sample : Kernel
sample = record {
  vfs = vfs;
  entries = set_at (λ p. no_entry) 500 (record { magic = cap_entry_magic; file = 100; caps = 9 });
  tables = set_at (λ t. unused ∷ unused ∷ unused ∷ []) 1000 (500 ∷ unused ∷ unused ∷ []);
  pid_table = set_at (set_at (λ p. 0) 1 1000) 2 2000;
  states = λ t. running;
  freed = [];
}

abbrev full : Kernel
full = record sample { tables = set_at (λ t. unused ∷ []) 1000 (500 ∷ []) }

abbrev holders : ℕ → ℕ
holders = set_at (λ p. 0) 100 1

vfs-IsCounted : IsCounted holders vfs
vfs-IsCounted = record { exact = λ p. ground arith; live = λ p f e. ground arith; null = refl }

sample_live : cap_get sample 1000 (pos 0) ≡ 500
unfolding cap_get
sample_live = refl

fd_check_cap_runs : fd_check_cap 1000 (pos 0) 8 sample ≡ pos 0
unfolding fd_check_cap cap_get
fd_check_cap_runs = refl

fd_check_cap_refuses : fd_check_cap 1000 (pos 0) 2 sample ≡ minus_one
unfolding fd_check_cap cap_get
fd_check_cap_refuses = refl

fd_derive_refuses : fd_derive 1000 600 (pos 0) 3 sample ≡ some (sample, minus_one)
unfolding fd_derive cap_get
fd_derive_refuses = refl

fd_derive_leaks_example : Ensures (fd_derive 1000 600 (pos 0) 1 full) (λ r.
    (r.1 ≡ minus_one)
    × (r.0.tables ≡ full.tables)
    × IsCounted (λ q. holders q + same 100 q) r.0.vfs)
unfolding cap_get first_free
fd_derive_leaks_example =
    fd_derive_leaks full 1000 600 (pos 0) 1 vfs-IsCounted (omega arith) (omega arith) (omega arith)
      (omega arith) (omega arith) (masked_Narrows 9 1 refl) (omega arith) refl

fd_send_transfers_example :
    let (s', r) = fd_send 1000 600 (pos 0) (pos 2) sample in
    (r ≡ pos 0)
    × ((t j : ℕ)
        → slot (s'.tables t) j ≡ (
            if (1000 == t) && (0 == j)
            then unused
            else if (2000 == t) && (0 == j)
            then 600
            else slot (sample.tables t) j))
    × (s'.entries 600 ≡ record { magic = cap_entry_magic; file = 100; caps = 9 })
    × (s'.freed ≡ 500 ∷ [])
    × (s'.vfs ≡ vfs)
unfolding cap_get first_free find_task_by_pid bit_test
fd_send_transfers_example =
    fd_send_transfers 1000 600 (pos 0) (pos 2) 0 sample (omega arith) refl (omega arith)
      (omega arith) (omega arith) refl

-- The file at 100 allows reading and sending.
abbrev bound : ℕ → ℕ
bound = set_at (λ p. 0) 100 9

sender_slot :
    (i : ℕ)
    → (slot (500 ∷ unused ∷ unused ∷ []) i ≡ 500) ⊎ (slot (500 ∷ unused ∷ unused ∷ []) i ≡ unused)
sender_slot zero = inl refl
sender_slot (suc zero) = inr refl
sender_slot (suc (suc zero)) = inr refl
sender_slot (suc (suc (suc i))) = inr refl

empty_slot : (i : ℕ) → slot (unused ∷ unused ∷ unused ∷ []) i ≡ unused
empty_slot zero = refl
empty_slot (suc zero) = refl
empty_slot (suc (suc zero)) = refl
empty_slot (suc (suc (suc i))) = refl

sample_slot : (t i : ℕ) → (slot (sample.tables t) i ≡ 500) ⊎ (slot (sample.tables t) i ≡ unused)
sample_slot t i = elim (Bool-cases (1000 == t)) [
  | inl e ↦ rw e (sender_slot i)
  | inr e ↦ rw e (inr (empty_slot i))
]

sample-IsConfined : IsConfined bound sample
sample-IsConfined = record {
  below = λ t i. elim (sample_slot t i) [
    | inl e ↦ rw e (λ u m k. omega arith)
    | inr e ↦ λ u. absurd (u e)
  ];
  words = λ p. ground arith;
}

sample-IsFresh : IsFresh 600 sample
sample-IsFresh =
    λ t i e. elim (sample_slot t i) [ inl h ↦ omega (arith, h, e) | inr h ↦ omega (arith, h, e) ]

Steps-IsConfined_example : IsConfined bound (fd_send 1000 600 (pos 0) (pos 2) sample).0
Steps-IsConfined_example =
    Steps-IsConfined (and_then sample _ (sent 1000 600 (pos 0) (pos 2) sample-IsFresh refl) done)
      sample-IsConfined
