-- ===== src/Vfs/Refs.antt =====
-- Reference counts of open file descriptions (vfs_close, vfs_file_dup of kernel/vfs.c).
use aurora_os_live.Base.{
  Bool-cases, ℕ, ◌+◌, ◌-◌, ◌^◌, ◌<◌, ◌≡◌, none, some, arith, ◌==◌, ==_iff, if◌then◌else◌, Ensures,
  Option-cases, inl, inr,
}
use aurora_os_live.Base.{◌≢◌, Bool, ==_refl, ◌⊎◌}
use aurora_os_live.Base.Int.{pos, minus_one}
use aurora_os_live.Vfs.{
  File, Vfs, release, close_file, vfs_close, dup_file, vfs_file_dup, opened, vfs_open,
}

-- The references that `struct file` at `p` counts; none where no file is allocated.
abbrev pub refs : Vfs → ℕ → ℕ
refs v p = elim (v.files p) [ none ↦ 0 | some f ↦ f.refcount ]

-- Every file's count is the number of its holders, and a file without a holder is freed.
pub record IsCounted (held : ℕ → ℕ) (v : Vfs) : Type 0 where
  pub exact : (p : ℕ) → refs v p ≡ held p
  pub live : (p : ℕ) (f : File) → v.files p ≡ some f → (0 < f.refcount) × (f.refcount < 2 ^ 31)
  pub null : v.files 0 ≡ none

-- Whether two pointers are the same, as a number.
abbrev pub same : ℕ → ℕ → ℕ
same p q = if p == q then 1 else 0

pub IsCounted-cong :
    {held held' : ℕ → ℕ} {v : Vfs}
    → ((p : ℕ) → held p ≡ held' p)
    → IsCounted held v
    → IsCounted held' v
IsCounted-cong e c = record {
  exact = λ p. omega (arith, c.exact p, e p);
  live = c.live;
  null = c.null;
}

files-some :
    {held : ℕ → ℕ} {v : Vfs} (p : ℕ)
    → IsCounted held v
    → 0 < held p
    → (f : File) × (v.files p ≡ some f) × (f.refcount ≡ held p)
files-some {held} {v} p c h = elim (Option-cases (v.files p)) [
  | inl e ↦ absurd (ground (arith, c.exact p))
  | inr (f, e) ↦ (f, e, ground (arith, c.exact p))
]

close_file-IsCounted :
    {held : ℕ → ℕ} {v : Vfs} (p : ℕ) (f : File)
    → IsCounted held v
    → v.files p ≡ some f
    → IsCounted (λ q. held q - same p q) (close_file p f v).0
unfolding close_file release
close_file-IsCounted p f c e = record {
  exact = λ q. ground (arith, c.exact q, c.exact p, c.live p f e, ==_iff p q);
  live = λ q g h. ground (arith, c.live p f e, c.live q g);
  null = ground (arith, c.null, e);
}

dup_file-IsCounted :
    {held : ℕ → ℕ} {v : Vfs} (p : ℕ) (f : File)
    → IsCounted held v
    → v.files p ≡ some f
    → held p + 1 < 2 ^ 31
    → IsCounted (λ q. held q + same p q) (dup_file p f v).0
unfolding dup_file
dup_file-IsCounted p f c e b = record {
  exact = λ q. ground (arith, c.exact q, c.exact p, c.live p f e, ==_iff p q);
  live = λ q g h. ground (arith, c.live p f e, c.live q g, c.exact p);
  null = ground (arith, c.null, e);
}

vfs_close_live :
    (p : ℕ) (f : File) (v : Vfs)
    → p ≢ 0
    → v.files p ≡ some f
    → vfs_close p v ≡ some (close_file p f v)
unfolding vfs_close
vfs_close_live p f v n e = ground arith

vfs_file_dup_live :
    (p : ℕ) (f : File) (v : Vfs)
    → p ≢ 0
    → v.files p ≡ some f
    → vfs_file_dup p v ≡ some (dup_file p f v)
unfolding vfs_file_dup
vfs_file_dup_live p f v n e = ground arith

pub held_ne_null : {held : ℕ → ℕ} {v : Vfs} (p : ℕ) → IsCounted held v → 0 < held p → p ≢ 0
held_ne_null p c h e = ground (arith, c.null, c.exact p)

close_file_ok :
    (p : ℕ) (f : File) (v : Vfs)
    → 0 < f.refcount
    → f.refcount < 2 ^ 31
    → (close_file p f v).1 ≡ pos 0
unfolding close_file
close_file_ok p f v a b = ground arith

dup_file_ok :
    (p : ℕ) (f : File) (v : Vfs) → 0 < f.refcount → f.refcount < 2 ^ 31 → (dup_file p f v).1 ≡ pos 0
unfolding dup_file
dup_file_ok p f v a b = ground arith

-- Closing a file that has a holder does not fault, returns 0, and takes one reference away.
pub vfs_close-IsCounted :
    {held : ℕ → ℕ} {v : Vfs} (p : ℕ)
    → IsCounted held v
    → 0 < held p
    → Ensures (vfs_close p v) (λ r. IsCounted (λ q. held q - same p q) r.0 × (r.1 ≡ pos 0))
vfs_close-IsCounted {held} {v} p c h =
    let (f, e, k) = files-some p c h in
    rw (vfs_close_live p f v (held_ne_null p c h) e)
      (close_file-IsCounted p f c e, close_file_ok p f v (c.live p f e).0 (c.live p f e).1)

-- Duplicating a file that has a holder does not fault, returns 0, and adds one reference.
pub vfs_file_dup-IsCounted :
    {held : ℕ → ℕ} {v : Vfs} (p : ℕ)
    → IsCounted held v
    → 0 < held p
    → held p + 1 < 2 ^ 31
    → Ensures (vfs_file_dup p v) (λ r. IsCounted (λ q. held q + same p q) r.0 × (r.1 ≡ pos 0))
vfs_file_dup-IsCounted {held} {v} p c h b =
    let (f, e, k) = files-some p c h in
    rw (vfs_file_dup_live p f v (held_ne_null p c h) e)
      (dup_file-IsCounted p f c e b, dup_file_ok p f v (c.live p f e).0 (c.live p f e).1)

-- The last close frees the file.
pub vfs_close_frees :
    {held : ℕ → ℕ} {v : Vfs} (p : ℕ)
    → IsCounted held v
    → held p ≡ 1
    → Ensures (vfs_close p v) (λ r. r.0.files p ≡ none)
unfolding close_file release
vfs_close_frees {held} {v} p c h =
    let (f, e, k) = files-some p c (omega arith) in
    rw (vfs_close_live p f v (held_ne_null p c (omega arith)) e) (ground (arith, ==_refl p))

opened-IsCounted :
    {held : ℕ → ℕ} {v : Vfs} (inode filp flags : ℕ)
    → IsCounted held v
    → held filp ≡ 0
    → filp ≢ 0
    → IsCounted (λ q. held q + same filp q) (opened inode filp flags v)
unfolding opened
opened-IsCounted inode filp flags c h n = record {
  exact = λ q. ground (arith, c.exact q, c.exact filp, ==_iff filp q);
  live = λ q g k. ground (arith, c.live q g);
  null = ground (arith, c.null);
}

-- `vfs_open` hands out a file with one holder, or changes nothing and returns NULL.
pub vfs_open-IsCounted :
    {held : ℕ → ℕ} {v : Vfs} (inode filp : ℕ) (fails : Bool) (flags : ℕ)
    → IsCounted held v
    → held filp ≡ 0
    → let (v', f) = vfs_open inode filp fails flags v in
      ((f ≡ 0) × (v' ≡ v)) ⊎ ((f ≡ filp) × (f ≢ 0) × IsCounted (λ q. held q + same filp q) v')
unfolding vfs_open
vfs_open-IsCounted {held} {v} inode filp fails flags c h = elim (Bool-cases (filp == 0)) [
  | inl e ↦ ground arith
  | inr e ↦ ground (arith, opened-IsCounted inode filp flags c h (ground arith))
]

-- A file with no reference counted is not closed: -1, and nothing changes.
pub vfs_close_uncounted :
    (p : ℕ) (f : File) (v : Vfs)
    → p ≢ 0
    → v.files p ≡ some f
    → f.refcount ≡ 0
    → vfs_close p v ≡ some (v, minus_one)
unfolding vfs_close close_file
vfs_close_uncounted p f v n e z = ground arith
