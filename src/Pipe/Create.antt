-- ===== src/Pipe/Create.antt =====
-- `sys_pipe` of kernel/pipe.c: the two files and their descriptors.
use aurora_os_live.Base.{
  ℕ, ◌≡◌, ◌≢◌, refl, ap, sym, ◌∙◌, Bool, true, false, not, ◌||◌, Option, none, some, arith, ◌==◌,
  ==_refl, ne→==, if◌then◌else◌, ◌>>=◌, set, length, length-set, get_or-set_self, get_or-set_ne,
}
use aurora_os_live.Base.Int.{ℤ, pos, negsuc, minus_one}
use aurora_os_live.Vfs.{File, Inode, Vfs, set_at}
use aurora_os_live.Fd.{Task, fd_alloc, fd_close, slot, unused, max_fds, first_free}
use aurora_os_live.Fd.Alloc.{fd_alloc-some, first_free_found}
use aurora_os_live.Fd.Refs.{fd_close_uncounted}

-- What `kmalloc` returns at each of its calls in `sys_pipe`, 0 where it fails.
pub record Blocks : Type 0 where
  pub ring : ℕ
  pub rinode : ℕ
  pub winode : ℕ
  pub rfilp : ℕ
  pub wfilp : ℕ

-- A `struct file` that `memset` has cleared, with its inode set.
abbrev pub fresh_file : ℕ → File
fresh_file inode = record { inode = inode; flags = 0; refcount = 0 }

abbrev pub pipe_inode : Inode
pipe_inode = record { has_close = true; dentry = 0 }

abbrev pub with_files : Blocks → Vfs → Vfs
with_files b v = record v {
  files =
      set_at (set_at v.files b.rfilp (some (fresh_file b.rinode))) b.wfilp
        (some (fresh_file b.winode));
  inodes = set_at (set_at v.inodes b.rinode pipe_inode) b.winode pipe_inode;
}

abbrev pub free_file : ℕ → Vfs → Vfs
free_file p v = record v { files = set_at v.files p none }

-- `if (fd >= 0) fd_close(current, fd); else kfree(filp);`
pub undo : ℤ → ℕ → Task → Option Task
undo (pos i) filp s = fd_close (pos i) s >>= λ r. some r.0
undo (negsuc n) filp s = some (record s { vfs = free_file filp s.vfs })

abbrev pub is_negative : ℤ → Bool
is_negative (pos i) = false
is_negative (negsuc n) = true

-- Once both descriptors have been asked for: undo, or hand them to user space.
deliver : Bool → Blocks → ℤ → Task × ℤ → Option (Task × ℤ × ℤ × ℤ)
deliver copied b rfd (s, wfd) =
    if is_negative rfd || is_negative wfd
    then (undo rfd b.rfilp s >>= λ s'.
        undo wfd b.wfilp s' >>= λ s''. some (s'', minus_one, minus_one, minus_one))
    else if copied
    then some (s, pos 0, rfd, wfd)
    else (fd_close rfd s >>= λ r.
        fd_close wfd r.0 >>= λ q. some (q.0, minus_one, minus_one, minus_one))

-- With the read end's descriptor, the write end's.
second_fd : Bool → Blocks → Task × ℤ → Option (Task × ℤ × ℤ × ℤ)
second_fd copied b (s, rfd) = deliver copied b rfd (fd_alloc b.wfilp s)

-- The task after the call, its result and the descriptors that reach user space. `fds_ok` is
-- `user_addr_range_ok`, `copied` that `copy_to_user` succeeds.
pub sys_pipe : Bool → Bool → Blocks → Task → Option (Task × ℤ × ℤ × ℤ)
unfolding second_fd deliver
sys_pipe fds_ok copied b s =
    if not fds_ok
    then some (s, minus_one, minus_one, minus_one)
    else if b.ring == 0 || (b.rinode == 0 || (b.winode == 0 || (b.rfilp == 0 || b.wfilp == 0)))
    then some (s, minus_one, minus_one, minus_one)
    else second_fd copied b (fd_alloc b.rfilp (record s { vfs = with_files b s.vfs }))

-- The files and the descriptors of a call that succeeds.
abbrev pub created : Blocks → ℕ → ℕ → Task → Task
created b i j s = record {
  vfs = with_files b s.vfs;
  fd_table = set (set s.fd_table i b.rfilp) j b.wfilp;
}

sys_pipe-created :
    (b : Blocks) (i j : ℕ) (s : Task)
    → b.ring ≢ 0
    → b.rinode ≢ 0
    → b.winode ≢ 0
    → b.rfilp ≢ 0
    → b.wfilp ≢ 0
    → first_free s.fd_table ≡ some i
    → first_free (set s.fd_table i b.rfilp) ≡ some j
    → sys_pipe true true b s ≡ some (created b i j s, pos 0, pos i, pos j)
unfolding sys_pipe
sys_pipe-created b i j s n₁ n₂ n₃ n₄ n₅ e k =
    rw (ne→== _ 0 n₁, ne→== _ 0 n₂, ne→== _ 0 n₃, ne→== _ 0 n₄, ne→== _ 0 n₅)
      (ap (second_fd true b) (fd_alloc-some b.rfilp i (record s { vfs = with_files b s.vfs }) n₄ e)
        ∙ ap (deliver true b (pos i)) (
            fd_alloc-some b.wfilp j
              (record { vfs = with_files b s.vfs; fd_table = set s.fd_table i b.rfilp }) n₅ k))

-- `sys_pipe` gives its files the count 0 that `memset` leaves. So closing either descriptor frees
-- the slot and returns 0, but the file stays allocated and `pipe_close` is not called: the other end
-- never sees the pipe closed.
pub sys_pipe_never_closed :
    (b : Blocks) (i j : ℕ) (s : Task)
    → b.ring ≢ 0
    → b.rinode ≢ 0
    → b.winode ≢ 0
    → b.rfilp ≢ 0
    → b.wfilp ≢ 0
    → b.rfilp ≢ b.wfilp
    → b.rfilp ≢ unused
    → b.wfilp ≢ unused
    → length s.fd_table ≡ max_fds
    → first_free s.fd_table ≡ some i
    → first_free (set s.fd_table i b.rfilp) ≡ some j
    → let s' = created b i j s in
      (sys_pipe true true b s ≡ some (s', pos 0, pos i, pos j))
      × (fd_close (pos i) s'
          ≡ some (record { vfs = s'.vfs; fd_table = set s'.fd_table i unused }, pos 0))
      × (fd_close (pos j) s'
          ≡ some (record { vfs = s'.vfs; fd_table = set s'.fd_table j unused }, pos 0))
sys_pipe_never_closed b i j s n₁ n₂ n₃ n₄ n₅ d u₁ u₂ l e k =
    let (a, x) = first_free_found s.fd_table i e in
    let (c, y) = first_free_found (set s.fd_table i b.rfilp) j k in
    let ri : slot (set s.fd_table i b.rfilp) i ≡ b.rfilp =
      get_or-set_self s.fd_table i b.rfilp unused a in
    let apart : j ≢ i = λ z. u₁ (sym ri ∙ sym (ap (slot (set s.fd_table i b.rfilp)) z) ∙ y) in
    let si : slot (created b i j s).fd_table i ≡ b.rfilp =
      get_or-set_ne (set s.fd_table i b.rfilp) j i b.wfilp unused apart ∙ ri in
    let sj : slot (created b i j s).fd_table j ≡ b.wfilp =
      get_or-set_self (set s.fd_table i b.rfilp) j b.wfilp unused c in
    (
      sys_pipe-created b i j s n₁ n₂ n₃ n₄ n₅ e k,
      fd_close_uncounted i (fresh_file b.rinode) (created b i j s) (omega arith)
          (λ z. u₁ (sym si ∙ z)) (λ z. n₄ (sym si ∙ z)) (rw si (ground (arith, ==_refl b.rfilp)))
          refl,
      fd_close_uncounted j (fresh_file b.winode) (created b i j s)
          (omega (arith, length-set s.fd_table i b.rfilp)) (λ z. u₂ (sym sj ∙ z))
          (λ z. n₅ (sym sj ∙ z)) (rw sj (ground (arith, ==_refl b.wfilp))) refl,
    )
