-- ===== src/Fd/Dup.antt =====
-- `fd_dup` and `fd_dup2` (kernel/file.c).
use aurora_os_live.Base.{
  ℕ, ◌+◌, ◌^◌, ◌<◌, ◌≡◌, ◌≢◌, refl, arith, ◌==◌, ==_iff, ne→==, length-set, set, set-get_or,
  set-set, inl, inr, Bool-cases, get_or-set_self, ◌∙◌, sym, get_or-set_ne, ap, Ensures, Ensures->>=,
  false,
}
use aurora_os_live.Base.Int.{ℤ, pos, negsuc, minus_one}
use aurora_os_live.Vfs.{Vfs, vfs_close, vfs_file_dup}
use aurora_os_live.Vfs.Refs.{
  same, IsCounted, IsCounted-cong, vfs_close-IsCounted, vfs_file_dup-IsCounted,
}
use aurora_os_live.Fd.{
  Task, unused, slot, fd_get, fd_close, fd_dup, fd_dup2, settle, vacate, max_fds, index,
  out_of_range,
}
use aurora_os_live.Fd.Slots.{count-le-length}
use aurora_os_live.Fd.Alloc.{FullBelow, Allocated, placed, refused, fd_alloc-Allocated}
use aurora_os_live.Fd.Refs.{
  held, held-slot, held-fill, slot_ne_null, fd_get_used, IsOwned, fd_get-slot, fd_close-IsOwned,
}

-- The file of an open descriptor has a holder, and few enough of them.
open_held :
    {outer : ℕ → ℕ} {s : Task} (fd : ℤ)
    → IsOwned outer s
    → fd_get s fd ≢ 0
    → (0 < held outer s.fd_table (fd_get s fd)) × (held outer s.fd_table (fd_get s fd) + 1 < 2 ^ 31)
open_held {outer} {s} fd o h =
    let (a, b, e, n) = fd_get-slot s fd h in
    let used : slot s.fd_table (index fd) ≢ unused = λ k. n (e ∙ k) in
    (
      rw e (held-slot outer s.fd_table (index fd) (omega (arith, o.size)) used),
      ground (arith, o.few (fd_get s fd), count-le-length (fd_get s fd) s.fd_table, o.size),
    )

-- A file with one more reference, put in a free slot.
pub filled-IsOwned :
    {outer : ℕ → ℕ} {s : Task} (i f : ℕ) (v : Vfs)
    → IsOwned outer s
    → i < max_fds
    → slot s.fd_table i ≡ unused
    → f ≢ unused
    → IsCounted (λ q. held outer s.fd_table q + same f q) v
    → IsOwned outer (record { vfs = v; fd_table = set s.fd_table i f })
filled-IsOwned {outer} {s} i f v o h e n c = record {
  size = omega (arith, length-set s.fd_table i f, o.size);
  counted = IsCounted-cong (λ p. held-fill outer s.fd_table i f p (omega (arith, o.size)) e n) c;
  few = o.few;
}

-- What `fd_dup` may leave behind, for the file `f` of `oldfd`.
pub data Duplicated (f : ℕ) (s : Task) (r : Task × ℤ) : Type 0 where
  shared :
      (i : ℕ)
      → i < max_fds
      → slot s.fd_table i ≡ unused
      → FullBelow s.fd_table i
      → r.0.fd_table ≡ set s.fd_table i f
      → r.1 ≡ pos i
      → Duplicated f s r
  full :
      FullBelow s.fd_table max_fds → r.0.fd_table ≡ s.fd_table → r.1 ≡ minus_one → Duplicated f s r

settle_shared :
    {outer : ℕ → ℕ} {s : Task} (o : IsOwned outer s) (v : Vfs) (f : ℕ)
    → f ≢ 0
    → f ≢ unused
    → IsCounted (λ q. held outer s.fd_table q + same f q) v
    → (r : Task × ℤ) → Allocated f (record s { vfs = v }) r
    → Ensures (settle f negsuc r) (λ r. IsOwned outer r.0 × Duplicated f s r)
unfolding settle
settle_shared {outer} {s} o v f z n c r (placed i b e l _ q) = rw q (
  filled-IsOwned i f v o (omega (arith, o.size)) e n c,
  shared i (omega (arith, o.size)) e l refl refl,
)
settle_shared {outer} {s} o v f z n c r (refused (inl e) q) = absurd (z e)
settle_shared {outer} {s} o v f z n c r (refused (inr l) q) = rw q (
    Ensures->>= (vfs_close f v) _ _ _ (vfs_close-IsCounted f c (ground arith)) λ d k. (
      record { size = o.size; counted = IsCounted-cong (λ p. omega arith) k.0; few = o.few },
      full (λ j h. l j (omega (arith, o.size))) refl refl,
    ))

-- Duplicating an open descriptor does not fault and keeps every count exact: the lowest free
-- descriptor shares its file, or the table is full, nothing has changed and the result is -1.
pub fd_dup-IsOwned :
    {outer : ℕ → ℕ} {s : Task} (oldfd : ℤ)
    → IsOwned outer s
    → fd_get s oldfd ≢ 0
    → Ensures (fd_dup oldfd s) (λ r. IsOwned outer r.0 × Duplicated (fd_get s oldfd) s r)
unfolding fd_dup
fd_dup-IsOwned {outer} {s} oldfd o h = rw (ne→== _ 0 h) (
    Ensures->>= (vfs_file_dup (fd_get s oldfd) s.vfs) _ _ _
      (vfs_file_dup-IsCounted (fd_get s oldfd) o.counted (open_held oldfd o h).0
        (open_held oldfd o h).1)
      λ d k.
        settle_shared o d.0 (fd_get s oldfd) h (fd_get-slot s oldfd h).3 k.0 _
          (fd_alloc-Allocated (fd_get s oldfd) (record s { vfs = d.0 })))

in_range : (fd : ℤ) → out_of_range fd ≡ false → index fd < max_fds
in_range (negsuc n) a = absurd (ground arith)
in_range (pos i) a = ground arith

-- The task once `newfd` has been closed where it was open.
vacate-IsOwned :
    {outer : ℕ → ℕ} {s : Task} (newfd : ℤ)
    → IsOwned outer s
    → out_of_range newfd ≡ false
    → Ensures
        (vacate newfd s)
        (λ s'. IsOwned outer s' × (s'.fd_table ≡ set s.fd_table (index newfd) unused))
vacate-IsOwned {outer} {s} newfd o a = elim (Bool-cases (slot s.fd_table (index newfd) == unused)) [
  | inl e ↦ rw e (
    o,
    sym (
        ap (set s.fd_table (index newfd)) (sym ((==_iff _ _).0 e))
        ∙ set-get_or s.fd_table (index newfd) unused),
  )
  | inr e ↦ rw e (
      Ensures->>= (fd_close newfd s) _ _ _
        (fd_close-IsOwned newfd o (λ z.
          slot_ne_null (index newfd) o (in_range newfd a) (ground arith)
            (sym (fd_get_used s newfd a (ground arith)) ∙ z)))
        (λ r k. (k.0, k.2)))
]

-- `fd_dup2` onto another descriptor: `newfd`, closed first where it was open, shares the file of
-- `oldfd`; no other slot changes, no call faults, and every count stays exact.
pub fd_dup2-IsOwned :
    {outer : ℕ → ℕ} {s : Task} (oldfd newfd : ℤ)
    → IsOwned outer s
    → fd_get s oldfd ≢ 0
    → out_of_range newfd ≡ false
    → index oldfd ≢ index newfd
    → Ensures (fd_dup2 oldfd newfd s) (λ r.
      IsOwned outer r.0
      × (r.1 ≡ newfd)
      × (r.0.fd_table ≡ set s.fd_table (index newfd) (fd_get s oldfd)))
unfolding fd_dup2
fd_dup2-IsOwned {outer} {s} oldfd newfd o h a d =
    let (ao, bo, e, n) = fd_get-slot s oldfd h in
    rw (ao, a, ne→== _ _ d, ne→== _ _ h)
      (Ensures->>= (vacate newfd s) _ _ _ (vacate-IsOwned newfd o a) λ s' k.
        let kept : slot s'.fd_table (index oldfd) ≡ fd_get s oldfd =
          ap (λ t. slot t (index oldfd)) k.1
          ∙ get_or-set_ne s.fd_table (index newfd) (index oldfd) unused unused (λ z. d (sym z))
          ∙ sym e in
        let same_file : fd_get s' oldfd ≡ fd_get s oldfd =
          fd_get_used s' oldfd ao (λ z. n (sym kept ∙ z)) ∙ kept in
        let bounds = open_held oldfd (k.0) (λ z. h (sym same_file ∙ z)) in
        Ensures->>= (vfs_file_dup (fd_get s oldfd) s'.vfs) _ _ _
          (vfs_file_dup-IsCounted (fd_get s oldfd) k.0.counted (rw same_file at bounds.0)
            (rw same_file at bounds.1))
          λ v c. (
            filled-IsOwned (index newfd) (fd_get s oldfd) v.0 k.0 (in_range newfd a)
                (ap (λ t. slot t (index newfd)) k.1
                  ∙ get_or-set_self s.fd_table (index newfd) unused unused
                      (omega (arith, o.size, in_range newfd a)))
                n c.0,
            refl,
            ap (λ t. set t (index newfd) (fd_get s oldfd)) k.1
                ∙ set-set s.fd_table (index newfd) unused (fd_get s oldfd),
          ))
