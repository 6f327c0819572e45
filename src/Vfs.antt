-- ===== src/Vfs.antt =====
-- Open file descriptions: `struct file` and its reference count, kernel/vfs.c (vfs_open, vfs_close,
-- vfs_file_dup) and kernel/fs.h. A pointer is its address, NULL is 0; a call through a freed
-- `struct file` is a fault, the `none` of an `Option`.
pub mod Refs
use aurora_os_live.Base.{
  ℕ, ◌+◌, ◌-◌, ◌%◌, ◌^◌, Bool, true, false, ◌&&◌, Option, none, some, List, [], ◌∷◌, ltb, ◌==◌,
  if◌then◌else◌,
}
use aurora_os_live.Base.Int.{ℤ, pos, minus_one}

-- An `int` is its bit pattern; this is the test `x > 0`.
abbrev pub is_positive : ℕ → Bool
is_positive x = ltb 0 x && ltb x (2 ^ 31)

-- `x + 1` of an `int`, as `__sync_fetch_and_add` wraps it.
abbrev pub add_one : ℕ → ℕ
add_one x = (x + 1) % 2 ^ 32

-- `struct file`, the fields that these functions use.
pub record File : Type 0 where
  pub inode : ℕ
  pub flags : ℕ
  pub refcount : ℕ

-- `struct inode`: whether `ops` and `ops->close` are set, and the dentry.
pub record Inode : Type 0 where
  pub has_close : Bool
  pub dentry : ℕ

-- The kernel heap as far as these functions read and write it. `closed` is the trace of the calls
-- `inode->ops->close(inode, filp)`, the last one first.
pub record Vfs : Type 0 where
  pub files : ℕ → Option File
  pub inodes : ℕ → Inode
  pub dentry_refs : ℕ → ℕ
  pub closed : List ℕ

abbrev pub set_at {ℓ} : {B : Type ℓ} (table : ℕ → B) (key : ℕ) (value : B) (at : ℕ) → B
set_at table key value at = if key == at then value else table at

-- What `vfs_open` has done when it succeeds: a new file, and one more user of the dentry.
pub opened : ℕ → ℕ → ℕ → Vfs → Vfs
opened inode filp flags v = record v {
  files = set_at v.files filp (some (record { inode = inode; flags = flags; refcount = 1 }));
  dentry_refs =
      if dentry == 0
      then v.dentry_refs
      else set_at v.dentry_refs dentry (add_one (v.dentry_refs dentry));
}
  where
    dentry : ℕ
    dentry = (v.inodes inode).dentry

-- `vfs_open` behind the lookup: `inode` is what `vfs_lookup` found, `filp` what `kmalloc` returned,
-- `fails` whether the file system's own `open` is there and refuses.
pub vfs_open : ℕ → ℕ → Bool → ℕ → Vfs → Vfs × ℕ
vfs_open inode filp fails flags v =
    if inode == 0
    then (v, 0)
    else if filp == 0
    then (v, 0)
    else if fails
    then (v, 0)
    else (opened inode filp flags v, filp)

-- The last reference is gone: the file system's `close`, the dentry's count, `kfree`.
pub release : ℕ → File → Vfs → Vfs
release filp f v = record v {
  files = set_at v.files filp none;
  dentry_refs =
      if f.inode == 0
      then v.dentry_refs
      else if dentry == 0
      then v.dentry_refs
      else if is_positive count
      then set_at v.dentry_refs dentry (count - 1)
      else v.dentry_refs;
  closed =
      if f.inode == 0
      then v.closed
      else if (v.inodes f.inode).has_close
      then filp ∷ v.closed
      else v.closed;
}
  where
    dentry : ℕ
    dentry = (v.inodes f.inode).dentry

    count : ℕ
    count = v.dentry_refs dentry

pub close_file : ℕ → File → Vfs → Vfs × ℤ
close_file filp f v =
    if is_positive f.refcount
    then (if ltb 0 (f.refcount - 1)
        then (
          record v { files = set_at v.files filp (some (record f { refcount = f.refcount - 1 })) },
          pos 0,
        )
        else (release filp f v, pos 0))
    else (v, minus_one)

pub vfs_close : ℕ → Vfs → Option (Vfs × ℤ)
vfs_close filp v =
    if filp == 0
    then some (v, minus_one)
    else elim (v.files filp) [ none ↦ none | some f ↦ some (close_file filp f v) ]

pub dup_file : ℕ → File → Vfs → Vfs × ℤ
dup_file filp f v =
    if is_positive f.refcount
    then (
      record v { files = set_at v.files filp (some (record f { refcount = add_one f.refcount })) },
      pos 0,
    )
    else (v, minus_one)

pub vfs_file_dup : ℕ → Vfs → Option (Vfs × ℤ)
vfs_file_dup filp v =
    if filp == 0
    then some (v, minus_one)
    else elim (v.files filp) [ none ↦ none | some f ↦ some (dup_file filp f v) ]
