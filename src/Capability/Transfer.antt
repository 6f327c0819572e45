-- ===== src/Capability/Transfer.antt =====
-- fd_send of kernel/capability.c: which slots and entries it writes.
use aurora_os_live.Base.{
  ℕ, ◌<◌, ◌≡◌, ◌≢◌, refl, ap, ◌∙◌, some, ◌∷◌, ◌&&◌, ◌==◌, if◌then◌else◌, ==_refl, ne→==, length,
  arith,
}
use aurora_os_live.Base.Int.{ℤ, pos}
use aurora_os_live.Base.Bits.{bit_test, bit_and-pow_ne_zero}
use aurora_os_live.Fd.{slot, unused, index, first_free}
use aurora_os_live.Fd.Alloc.{first_free_found}
use aurora_os_live.Capability.{
  Kernel, cap_entry_magic, cap_get, put_word, kfree, fill, withdraw, fd_send, find_task,
}
use aurora_os_live.Capability.Slots.{
  slot-put_word_lem, length-put_word, index_in_table, install-some, cap_fd_alloc-install,
}

-- The kernel after fd_send has moved the entry `old` of the sender to slot `i` of the target.
abbrev moved : ℕ → ℤ → ℕ → ℕ → ℕ → Kernel → Kernel
moved current fd p target i s =
    let old = cap_get s current fd in
    let e = s.entries old in
    put_word (kfree old (put_word (fill p e.file e.caps s) target i p)) current (index fd) unused

fd_send-moved :
    (current p : ℕ) (fd target_pid : ℤ) (i : ℕ) (s : Kernel)
    → cap_get s current fd ≢ 0
    → bit_test (s.entries (cap_get s current fd)).caps 3 ≡ 1
    → find_task s target_pid ≢ 0
    → (s.entries (cap_get s current fd)).file ≢ 0
    → p ≢ 0
    → first_free (s.tables (find_task s target_pid)) ≡ some i
    → fd_send current p fd target_pid s ≡ (moved current fd p (find_task s target_pid) i s, pos 0)
unfolding fd_send withdraw
fd_send-moved current p fd target_pid i s live granted found file block free =
    let e = s.entries (cap_get s current fd) in
    let t = find_task s target_pid in
    rw (ne→== _ 0 live, ne→== _ 0 (bit_and-pow_ne_zero e.caps 3 granted), ne→== _ 0 found)
      (ap (withdraw current fd (cap_get s current fd)) (
        cap_fd_alloc-install p t e.file e.caps s block found file
        ∙ install-some p t i (fill p e.file e.caps s) free))

-- fd_send, where the entry carries CAP_SEND, the target is there with slot i the first free one, and
-- kmalloc returns a block p, returns 0, writes slot i of the target with p and the sender's slot with
-- -1 and no other slot, gives p the file and rights of the sender's entry, frees the sender's entry
-- alone, and leaves all reference counts.
pub fd_send_transfers :
    (current p : ℕ) (fd target_pid : ℤ) (i : ℕ) (s : Kernel)
    → cap_get s current fd ≢ 0
    → bit_test (s.entries (cap_get s current fd)).caps 3 ≡ 1
    → find_task s target_pid ≢ 0
    → (s.entries (cap_get s current fd)).file ≢ 0
    → p ≢ 0
    → first_free (s.tables (find_task s target_pid)) ≡ some i
    → let (s', r) = fd_send current p fd target_pid s in
      let old = s.entries (cap_get s current fd) in
      (r ≡ pos 0)
      × ((t j : ℕ)
          → slot (s'.tables t) j ≡ (
              if (current == t) && (index fd == j)
              then unused
              else if (find_task s target_pid == t) && (i == j)
              then p
              else slot (s.tables t) j))
      × (s'.entries p ≡ record { magic = cap_entry_magic; file = old.file; caps = old.caps })
      × (s'.freed ≡ cap_get s current fd ∷ s.freed)
      × (s'.vfs ≡ s.vfs)
fd_send_transfers current p fd target_pid i s live granted found file block free =
    let e = fd_send-moved current p fd target_pid i s live granted found file block free in
    let old = s.entries (cap_get s current fd) in
    let target = find_task s target_pid in
    let filled = fill p old.file old.caps s in
    let there = put_word filled target i p in
    let size : index fd < length (there.tables current) =
      omega (arith, length-put_word filled target i p current, index_in_table s current fd live) in
    let slots : (t j : ℕ)
        → slot ((put_word there current (index fd) unused).tables t) j ≡ (
            if (current == t) && (index fd == j)
            then unused
            else if (target == t) && (i == j)
            then p
            else slot (s.tables t) j) =
      λ t j.
        slot-put_word_lem there current (index fd) unused t j size
        ∙ ap (λ v. if (current == t) && (index fd == j) then unused else v)
            (slot-put_word_lem filled target i p t j
              (first_free_found (s.tables target) i free).0) in
    rw e (refl, slots, rw (==_refl p) refl, refl, refl)
