-- ===== src/Capability/Derive.antt =====
-- fd_derive of kernel/capability.c: the new descriptor, and the reference that it takes.
use aurora_os_live.Base.{
  ℕ, ◌+◌, ◌^◌, ◌<◌, ◌≡◌, ◌≢◌, refl, ◌∙◌, none, some, ◌&&◌, ◌==◌, if◌then◌else◌, ==_refl, ne→==,
  eq→==, Ensures, Ensures->>=,
}
use aurora_os_live.Base.Int.{ℤ, pos, minus_one}
use aurora_os_live.Vfs.{vfs_file_dup}
use aurora_os_live.Vfs.Refs.{IsCounted, same, vfs_file_dup-IsCounted, held_ne_null}
use aurora_os_live.Fd.{slot, first_free}
use aurora_os_live.Fd.Alloc.{first_free_found}
use aurora_os_live.Capability.{Kernel, cap_entry_magic, cap_get, fill, cap_fd_alloc, fd_derive}
use aurora_os_live.Capability.Rights.{Narrows, Narrows-outside}
use aurora_os_live.Capability.Slots.{
  slot-put_word_lem, install-some, install-none, cap_fd_alloc-install, current_ne_null,
}

-- fd_derive on a full table, of 32-bit rights that are among the entry's, with a block p from kmalloc,
-- where the counts are those of the holders `held`, returns -1 and leaves all tables, but the counts
-- are those of one more holder of the file.
pub fd_derive_leaks :
    {held : ℕ → ℕ} (s : Kernel) (current p : ℕ) (fd : ℤ) (new_caps : ℕ)
    → IsCounted held s.vfs
    → cap_get s current fd ≢ 0
    → 0 < held (s.entries (cap_get s current fd)).file
    → held (s.entries (cap_get s current fd)).file + 1 < 2 ^ 31
    → (s.entries (cap_get s current fd)).caps < 2 ^ 32
    → new_caps < 2 ^ 32
    → Narrows new_caps (s.entries (cap_get s current fd)).caps
    → p ≢ 0
    → first_free (s.tables current) ≡ none
    → Ensures (fd_derive current p fd new_caps s) (λ r.
      (r.1 ≡ minus_one)
      × (r.0.tables ≡ s.tables)
      × IsCounted (λ q. held q + same (s.entries (cap_get s current fd)).file q) r.0.vfs)
unfolding fd_derive
fd_derive_leaks {held} s current p fd new_caps c live few many have want n block full =
    let e = s.entries (cap_get s current fd) in
    let subset = eq→== _ 0 (Narrows-outside e.caps new_caps have want n) in
    rw (ne→== _ 0 live, subset)
      (Ensures->>= (vfs_file_dup e.file s.vfs)
        (λ d. some (cap_fd_alloc p current e.file new_caps (record s { vfs = d.0 })))
        (λ d. IsCounted (λ q. held q + same e.file q) d.0 × (d.1 ≡ pos 0))
        (λ r.
          (r.1 ≡ minus_one)
          × (r.0.tables ≡ s.tables)
          × IsCounted (λ q. held q + same e.file q) r.0.vfs)
        (vfs_file_dup-IsCounted e.file c few many)
        (λ d k.
          let s' : Kernel = record s { vfs = d.0 } in
          let z =
            cap_fd_alloc-install p current e.file new_caps s' block
              (current_ne_null s current fd live) (held_ne_null e.file c few)
            ∙ install-none p current (fill p e.file new_caps s') full in
          rw z (refl, refl, k.0)))

-- fd_derive of 32-bit rights that are among the entry's, with a block p from kmalloc and slot i the
-- first free one, where the counts are those of the holders `held`, does not fault and returns i,
-- writes p to slot i and no other slot, gives p the same file and the new rights, and the counts are
-- those of one more holder of the file.
pub fd_derive_shares :
    {held : ℕ → ℕ} (s : Kernel) (current p : ℕ) (fd : ℤ) (new_caps i : ℕ)
    → IsCounted held s.vfs
    → cap_get s current fd ≢ 0
    → 0 < held (s.entries (cap_get s current fd)).file
    → held (s.entries (cap_get s current fd)).file + 1 < 2 ^ 31
    → (s.entries (cap_get s current fd)).caps < 2 ^ 32
    → new_caps < 2 ^ 32
    → Narrows new_caps (s.entries (cap_get s current fd)).caps
    → p ≢ 0
    → first_free (s.tables current) ≡ some i
    → let old = s.entries (cap_get s current fd) in
      Ensures (fd_derive current p fd new_caps s) (λ r.
        (r.1 ≡ pos i)
        × ((t j : ℕ)
            → slot (r.0.tables t) j
              ≡ (if (current == t) && (i == j) then p else slot (s.tables t) j))
        × (r.0.entries p ≡ record { magic = cap_entry_magic; file = old.file; caps = new_caps })
        × IsCounted (λ q. held q + same old.file q) r.0.vfs)
unfolding fd_derive
fd_derive_shares {held} s current p fd new_caps i c live few many have want n block free =
    let e = s.entries (cap_get s current fd) in
    let subset = eq→== _ 0 (Narrows-outside e.caps new_caps have want n) in
    rw (ne→== _ 0 live, subset)
      (Ensures->>= (vfs_file_dup e.file s.vfs)
        (λ d. some (cap_fd_alloc p current e.file new_caps (record s { vfs = d.0 })))
        (λ d. IsCounted (λ q. held q + same e.file q) d.0 × (d.1 ≡ pos 0))
        (λ r.
          (r.1 ≡ pos i)
          × ((t j : ℕ)
              → slot (r.0.tables t) j
                ≡ (if (current == t) && (i == j) then p else slot (s.tables t) j))
          × (r.0.entries p ≡ record { magic = cap_entry_magic; file = e.file; caps = new_caps })
          × IsCounted (λ q. held q + same e.file q) r.0.vfs)
        (vfs_file_dup-IsCounted e.file c few many)
        (λ d k.
          let s' : Kernel = record s { vfs = d.0 } in
          let filled = fill p e.file new_caps s' in
          let z =
            cap_fd_alloc-install p current e.file new_caps s' block
              (current_ne_null s current fd live) (held_ne_null e.file c few)
            ∙ install-some p current i filled free in
          let size = (first_free_found (s.tables current) i free).0 in
          rw z
            (refl, λ t j. slot-put_word_lem filled current i p t j size, rw (==_refl p) refl, k.0)))
