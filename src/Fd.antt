-- ===== src/Fd.antt =====
-- The file descriptor table of a task, kernel/file.c. `task_struct.fd_table` is a list of MAX_FDS
-- words that hold `struct file` pointers; all ones mark a free slot. The task pointer is not NULL.
pub mod Slots
pub mod Alloc
pub mod Refs
pub mod CloseAll
pub mod Dup
pub mod Open
mod Tests
use mathlib.Core.Option
use aurora_os_live.Base.{
  ℕ, zero, suc, ◌+◌, ◌-◌, ◌^◌, Bool, ◌||◌, Option, none, some, List, [], ◌∷◌, ltb, leb, ◌==◌,
  if◌then◌else◌, ◌>>=◌, get_or, set, replicate,
}
use aurora_os_live.Base.Int.{ℤ, pos, negsuc, minus_one}
use aurora_os_live.Vfs.{Vfs, vfs_open, vfs_close, vfs_file_dup}

abbrev pub max_fds : ℕ
max_fds = 16

-- `(uintptr_t)-1`
abbrev pub unused : ℕ
unused = 2 ^ 64 - 1

-- A task's table and the heap that its entries point into.
pub record Task : Type 0 where
  pub vfs : Vfs
  pub fd_table : List ℕ

-- A slot's word; no access below is out of the table.
abbrev pub slot : List ℕ → ℕ → ℕ
slot t i = get_or t i unused

pub fd_table_init : Task → Task
fd_table_init s = record s { fd_table = replicate max_fds unused }

-- The loop that looks for a free slot.
unfoldable pub first_free : List ℕ → Option ℕ
first_free [] = none
first_free (w ∷ t) = if w == unused then some 0 else Option.map suc (first_free t)

pub fd_alloc : ℕ → Task → Task × ℤ
fd_alloc filp s = if filp == 0 then (s, minus_one) else elim (first_free s.fd_table) [
  | none ↦ (s, minus_one)
  | some i ↦ (record s { fd_table = set s.fd_table i filp }, pos i)
]

-- `fd < 0 || fd >= MAX_FDS`
abbrev pub out_of_range : ℤ → Bool
out_of_range (negsuc n) = Bool.true
out_of_range (pos i) = leb max_fds i

-- The index that a descriptor in range names.
abbrev pub index : ℤ → ℕ
index (negsuc n) = 0
index (pos i) = i

pub fd_get : Task → ℤ → ℕ
fd_get s fd =
    if out_of_range fd
    then 0
    else if slot s.fd_table (index fd) == unused
    then 0
    else slot s.fd_table (index fd)

abbrev pub put_slot : Task → ℕ → ℕ → Task
put_slot s i w = record s { fd_table = set s.fd_table i w }

pub fd_close : ℤ → Task → Option (Task × ℤ)
fd_close fd s =
    if fd_get s fd == 0
    then some (s, minus_one)
    else (vfs_close (fd_get s fd) s.vfs >>= λ r.
        some (record { vfs = r.0; fd_table = set s.fd_table (index fd) unused }, pos 0))

-- After `fd_alloc`: the descriptor, or the file closed again and an error code.
pub settle : ℕ → (ℕ → ℤ) → Task × ℤ → Option (Task × ℤ)
settle f code r = elim r.1 [
  | pos i ↦ some (r.0, pos i)
  | negsuc n ↦ (vfs_close f r.0.vfs >>= λ c. some (record (r.0) { vfs = c.0 }, code n))
]

-- `vfs_open` with what it depends on given: see `vfs_open`.
pub fd_open_path : ℕ → ℕ → Bool → Task → Option (Task × ℤ)
fd_open_path inode filp fails s =
    let (v, f) = vfs_open inode filp fails 0 s.vfs in
    if f == 0
    then some (record s { vfs = v }, minus_one)
    else settle f (λ n. minus_one) (fd_alloc f (record s { vfs = v }))

-- One round of the loop of `fd_close_all`.
abbrev pub close_slot : ℕ → Vfs → Option Vfs
close_slot w v = if w == unused then some v else (vfs_close w v >>= λ r. some r.0)

pub close_slots : List ℕ → Vfs → Option (Vfs × List ℕ)
close_slots [] v = some (v, [])
close_slots (w ∷ t) v = close_slot w v >>= λ v'. close_slots t v' >>= λ r. some (r.0, unused ∷ r.1)

pub fd_close_all : Task → Option Task
fd_close_all s = close_slots s.fd_table s.vfs >>= λ r. some (record { vfs = r.0; fd_table = r.1 })

pub fd_dup : ℤ → Task → Option (Task × ℤ)
fd_dup oldfd s =
    if fd_get s oldfd == 0
    then some (s, minus_one)
    else (vfs_file_dup (fd_get s oldfd) s.vfs >>= λ d.
        settle (fd_get s oldfd) negsuc (fd_alloc (fd_get s oldfd) (record s { vfs = d.0 })))

-- `newfd` is closed first where it is open.
abbrev pub vacate : ℤ → Task → Option Task
vacate newfd s =
    if slot s.fd_table (index newfd) == unused then some s else (fd_close newfd s >>= λ r. some r.0)

pub fd_dup2 : ℤ → ℤ → Task → Option (Task × ℤ)
fd_dup2 oldfd newfd s =
    if out_of_range oldfd
    then some (s, minus_one)
    else if out_of_range newfd
    then some (s, minus_one)
    else if index oldfd == index newfd
    then some (s, newfd)
    else if fd_get s oldfd == 0
    then some (s, minus_one)
    else (vacate newfd s >>= λ s'. vfs_file_dup (fd_get s oldfd) s'.vfs >>= λ d.
        some
          (record { vfs = d.0; fd_table = set s'.fd_table (index newfd) (fd_get s oldfd) }, newfd))
