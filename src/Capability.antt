-- ===== src/Capability.antt =====
-- Descriptor capabilities, kernel/capability.c: a slot of a task's descriptor table holds a pointer to
-- a `struct cap_entry`, which names a file and the rights that the descriptor carries. `current`, and
-- the block that `kmalloc` returns (0 when it has none), are arguments. Log output is left out.
pub mod Rights
pub mod Entries
pub mod Confined
pub mod Steps
pub mod Slots
pub mod Transfer
pub mod Derive
mod Tests
use aurora_os_live.Base.{
  ℕ, zero, suc, ◌+◌, ◌^◌, Bool, true, false, ◌||◌, Option, none, some, List, [], ◌∷◌, leb, ◌==◌,
  if◌then◌else◌, ◌>>=◌, set,
}
use aurora_os_live.Base.Int.{ℤ, pos, negsuc, minus_one}
use aurora_os_live.Base.Bits.{bit_not}
use Prim.Native.Nat.{bit_and}
use aurora_os_live.Vfs.{Vfs, set_at, vfs_close, vfs_file_dup}
use aurora_os_live.Fd.{slot, unused, first_free, out_of_range, index}
use aurora_os_live.Sched.{TaskState, find_task_by_pid}

abbrev pub cap_entry_magic : ℕ
cap_entry_magic = 0xCAFEFD00

abbrev pub cap_send : ℕ
cap_send = 2 ^ 3

-- `struct cap_entry`
pub record Entry : Type 0 where
  pub magic : ℕ
  pub file : ℕ
  pub caps : ℕ

-- What these functions read and write. `entries` reads the memory at an address as an entry, whatever
-- it holds; `freed` is the trace of the calls of `kfree`, the last one first.
pub record Kernel : Type 0 where
  pub vfs : Vfs
  pub entries : ℕ → Entry
  pub tables : ℕ → List ℕ
  pub pid_table : ℕ → ℕ
  pub states : ℕ → TaskState
  pub freed : List ℕ

abbrev pub find_task : Kernel → ℤ → ℕ
find_task s pid = find_task_by_pid s.pid_table s.states pid

-- The word of a slot, if it points at an entry.
abbrev pub checked : Kernel → ℕ → ℕ
checked s w = if w == unused then 0 else if (s.entries w).magic == cap_entry_magic then w else 0

pub cap_get : Kernel → ℕ → ℤ → ℕ
cap_get s t fd =
    if t == 0 then 0 else if out_of_range fd then 0 else checked s (slot (s.tables t) (index fd))

pub cap_fd_get_file : Kernel → ℕ → ℤ → ℕ
cap_fd_get_file s t fd = if cap_get s t fd == 0 then 0 else (s.entries (cap_get s t fd)).file

abbrev pub put_word : Kernel → ℕ → ℕ → ℕ → Kernel
put_word s t i w = record s { tables = set_at s.tables t (set (s.tables t) i w) }

abbrev pub kfree : ℕ → Kernel → Kernel
kfree p s = record s { freed = p ∷ s.freed }

-- The search for a free slot, with the entry filled in.
pub install : ℕ → ℕ → Kernel → Kernel × ℤ
install entry t s = elim (first_free (s.tables t)) [
  | none ↦ (kfree entry s, minus_one)
  | some i ↦ (put_word s t i entry, pos i)
]

abbrev pub fill : ℕ → ℕ → ℕ → Kernel → Kernel
fill entry filp caps s = record s {
  entries = set_at s.entries entry (record { magic = cap_entry_magic; file = filp; caps = caps });
}

pub cap_fd_alloc : ℕ → ℕ → ℕ → ℕ → Kernel → Kernel × ℤ
cap_fd_alloc entry t filp caps s =
    if t == 0
    then (s, minus_one)
    else if filp == 0
    then (s, minus_one)
    else if entry == 0
    then (s, minus_one)
    else install entry t (fill entry filp caps s)

pub cap_fd_close : ℕ → ℤ → Kernel → Option (Kernel × ℤ)
cap_fd_close t fd s =
    if cap_get s t fd == 0
    then some (s, minus_one)
    else (vfs_close (s.entries (cap_get s t fd)).file s.vfs >>= λ r.
        some
          (put_word (kfree (cap_get s t fd) (record s { vfs = r.0 })) t (index fd) unused, pos 0))

-- One round of the loop of `cap_fd_close_all`, with the word that it leaves in the slot.
abbrev pub close_entry : ℕ → Kernel → Option (Kernel × ℕ)
close_entry w s =
    if w == unused
    then some (s, w)
    else if (s.entries w).magic == cap_entry_magic
    then (vfs_close (s.entries w).file s.vfs >>= λ r.
        some (kfree w (record s { vfs = r.0 }), unused))
    else some (s, w)

pub close_entries : List ℕ → Kernel → Option (Kernel × List ℕ)
close_entries [] s = some (s, [])
close_entries (w ∷ ws) s =
    close_entry w s >>= λ c. close_entries ws c.0 >>= λ r. some (r.0, c.1 ∷ r.1)

pub cap_fd_close_all : ℕ → Kernel → Option Kernel
cap_fd_close_all t s =
    if t == 0
    then some s
    else (close_entries (s.tables t) s >>= λ r.
        some (record (r.0) { tables = set_at r.0.tables t r.1 }))

pub fd_check_cap : ℕ → ℤ → ℕ → Kernel → ℤ
fd_check_cap current fd required s =
    if cap_get s current fd == 0
    then minus_one
    else if bit_and (s.entries (cap_get s current fd)).caps required == required
    then pos 0
    else minus_one

pub fd_derive : ℕ → ℕ → ℤ → ℕ → Kernel → Option (Kernel × ℤ)
fd_derive current entry old_fd new_caps s =
    if cap_get s current old_fd == 0
    then some (s, minus_one)
    else if bit_and new_caps (bit_not 32 (s.entries (cap_get s current old_fd)).caps) == 0
    then (vfs_file_dup (s.entries (cap_get s current old_fd)).file s.vfs >>= λ d. some (
        cap_fd_alloc entry current (s.entries (cap_get s current old_fd)).file new_caps
          (record s { vfs = d.0 })))
    else some (s, minus_one)

-- What `fd_send` does after `cap_fd_alloc`: the sender's entry `old` goes, unless that failed.
pub withdraw : ℕ → ℤ → ℕ → Kernel × ℤ → Kernel × ℤ
withdraw current fd old r = elim r.1 [
  | pos i ↦ (put_word (kfree old r.0) current (index fd) unused, pos 0)
  | negsuc n ↦ (r.0, minus_one)
]

pub fd_send : ℕ → ℕ → ℤ → ℤ → Kernel → Kernel × ℤ
fd_send current entry fd target_pid s =
    if cap_get s current fd == 0
    then (s, minus_one)
    else if bit_and (s.entries (cap_get s current fd)).caps cap_send == 0
    then (s, minus_one)
    else if find_task s target_pid == 0
    then (s, minus_one)
    else withdraw current fd (cap_get s current fd) (
        cap_fd_alloc entry (find_task s target_pid) (s.entries (cap_get s current fd)).file
          (s.entries (cap_get s current fd)).caps s)
