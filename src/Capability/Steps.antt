-- ===== src/Capability/Steps.antt =====
-- Any sequence of operations of kernel/capability.c, by any tasks.
use aurora_os_live.Base.{
  ℕ, zero, suc, ◌^◌, ◌<◌, ◌≡◌, refl, ap, ◌∙◌, ◌⊎◌, inl, inr, some, List, [], ◌∷◌, ◌==◌, ◌>>=◌,
  Bool-cases, IfReturns, IfReturns->>=, IfReturns_some, IfReturns_trivial,
}
use mathlib.Core.Path.{sym, subst}
use aurora_os_live.Base.Int.{ℤ}
use aurora_os_live.Vfs.{set_at, vfs_close}
use aurora_os_live.Fd.{slot, unused}
use aurora_os_live.Capability.{
  Kernel, Entry, cap_entry_magic, kfree, cap_fd_alloc, cap_fd_close, close_entry, close_entries,
  cap_fd_close_all, fd_derive, fd_send,
}
use aurora_os_live.Capability.Rights.{Narrows}
use aurora_os_live.Capability.Entries.{Below, Below-of_eq, IsConfined, IsFresh}
use aurora_os_live.Capability.Confined.{
  cap_fd_alloc-IsConfined, cap_fd_close-Keeps, fd_derive-Keeps, fd_send-IsConfined,
}

-- The loop of cap_fd_close_all writes no entry and no other table, and only empties slots.
record Swept (s : Kernel) (ws : List ℕ) (r : Kernel × List ℕ) : Type 0 where
  entries_same : r.0.entries ≡ s.entries
  tables_same : r.0.tables ≡ s.tables
  emptied : (j : ℕ) → (slot r.1 j ≡ unused) ⊎ (slot r.1 j ≡ slot ws j)

record SweptOne (s : Kernel) (w : ℕ) (c : Kernel × ℕ) : Type 0 where
  entries_same : c.0.entries ≡ s.entries
  tables_same : c.0.tables ≡ s.tables
  emptied : (c.1 ≡ unused) ⊎ (c.1 ≡ w)

close_entry-SweptOne : (w : ℕ) (s : Kernel) → IfReturns (close_entry w s) (SweptOne s w)
close_entry-SweptOne w s = elim (Bool-cases (w == unused)) [
  | inl e ↦ rw e (record { entries_same = refl; tables_same = refl; emptied = inr refl })
  | inr e ↦ elim (Bool-cases ((s.entries w).magic == cap_entry_magic)) [
    | inr z ↦ rw (e, z) (record { entries_same = refl; tables_same = refl; emptied = inr refl })
    | inl z ↦
        rw (e, z)
          (IfReturns->>= (vfs_close (s.entries w).file s.vfs)
            (λ r. some (kfree w (record s { vfs = r.0 }), unused)) (λ r. Unit {0}) (SweptOne s w)
            (IfReturns_trivial _)
            (λ r k. record { entries_same = refl; tables_same = refl; emptied = inl refl }))
  ]
]

swept_slot :
    (ws ws' : List ℕ) (w' w : ℕ)
    → (w' ≡ unused) ⊎ (w' ≡ w)
    → ((j : ℕ) → (slot ws' j ≡ unused) ⊎ (slot ws' j ≡ slot ws j))
    → (j : ℕ) → (slot (w' ∷ ws') j ≡ unused) ⊎ (slot (w' ∷ ws') j ≡ slot (w ∷ ws) j)
swept_slot ws ws' w' w k h zero = k
swept_slot ws ws' w' w k h (suc j) = h j

close_entries-Swept : (ws : List ℕ) (s : Kernel) → IfReturns (close_entries ws s) (Swept s ws)
unfolding close_entries
close_entries-Swept [] s = record {
  entries_same = refl;
  tables_same = refl;
  emptied = λ j. inr refl;
}
close_entries-Swept (w ∷ ws) s =
    IfReturns->>= (close_entry w s) (λ c. close_entries ws c.0 >>= λ r. some (r.0, c.1 ∷ r.1))
      (SweptOne s w) (Swept s (w ∷ ws)) (close_entry-SweptOne w s)
      (λ c k.
        IfReturns->>= (close_entries ws c.0) (λ r. some (r.0, c.1 ∷ r.1)) (Swept c.0 ws)
          (Swept s (w ∷ ws)) (close_entries-Swept ws c.0)
          (λ r h. record {
            entries_same = h.entries_same ∙ k.entries_same;
            tables_same = h.tables_same ∙ k.tables_same;
            emptied = swept_slot ws r.1 c.1 w k.emptied h.emptied;
          }))

Below-of_entries :
    (bound : ℕ → ℕ) (entries entries' : ℕ → Entry) (w : ℕ)
    → entries' ≡ entries
    → Below bound entries w
    → Below bound entries' w
Below-of_entries bound entries entries' w e b = subst (λ x. Below bound x w) (sym e) b

swept_word :
    (bound : ℕ → ℕ) (entries : ℕ → Entry) (w w' : ℕ)
    → (w' ≡ unused) ⊎ (w' ≡ w)
    → Below bound entries w
    → Below bound entries w'
swept_word bound entries w w' (inl e) b = λ u. absurd (u e)
swept_word bound entries w w' (inr e) b = Below-of_eq bound entries w w' e b

Swept-IsConfined :
    {bound : ℕ → ℕ} {s : Kernel} (t : ℕ) (r : Kernel × List ℕ)
    → IsConfined bound s
    → Swept s (s.tables t) r
    → IsConfined bound (record (r.0) { tables = set_at r.0.tables t r.1 })
Swept-IsConfined {bound} {s} t r c h = record {
  below = λ u j.
      Below-of_entries bound s.entries r.0.entries _ h.entries_same (elim (Bool-cases (t == u)) [
        | inl e ↦
            rw e (swept_word bound s.entries (slot (s.tables t) j) _ (h.emptied j) (c.below t j))
        | inr e ↦ rw e (
            swept_word bound s.entries (slot (s.tables u) j) _
              (inr (ap (λ f. slot (f u) j) h.tables_same)) (c.below u j))
      ]);
  words = λ p. subst (λ f. (f p).caps < 2 ^ 32) (sym h.entries_same) (c.words p);
}

cap_fd_close_all-IsConfined :
    {bound : ℕ → ℕ} {s : Kernel} (t : ℕ)
    → IsConfined bound s
    → IfReturns (cap_fd_close_all t s) (IsConfined bound)
unfolding cap_fd_close_all
cap_fd_close_all-IsConfined {bound} {s} t c = elim (Bool-cases (t == 0)) [
  | inl z ↦ rw z c
  | inr z ↦ rw z (
      IfReturns->>= (close_entries (s.tables t) s)
        (λ r. some (record (r.0) { tables = set_at r.0.tables t r.1 })) (Swept s (s.tables t))
        (IsConfined bound) (close_entries-Swept (s.tables t) s) (λ r h. Swept-IsConfined t r c h))
]

-- One operation by some task; new rights come from cap_fd_alloc alone, within the bound of the file.
pub data Step (bound : ℕ → ℕ) (s s' : Kernel) : Type 0 where
  allocated :
      (p t filp caps : ℕ)
      → IsFresh p s
      → caps < 2 ^ 32
      → Narrows caps (bound filp)
      → (cap_fd_alloc p t filp caps s).0 ≡ s'
      → Step bound s s'
  derived :
      (current p : ℕ) (fd : ℤ) (new_caps : ℕ) (n : ℤ)
      → IsFresh p s
      → new_caps < 2 ^ 32
      → fd_derive current p fd new_caps s ≡ some (s', n)
      → Step bound s s'
  sent :
      (current p : ℕ) (fd target_pid : ℤ)
      → IsFresh p s
      → (fd_send current p fd target_pid s).0 ≡ s'
      → Step bound s s'
  closed : (t : ℕ) (fd n : ℤ) → cap_fd_close t fd s ≡ some (s', n) → Step bound s s'
  all_closed : (t : ℕ) → cap_fd_close_all t s ≡ some s' → Step bound s s'

Step-IsConfined :
    {bound : ℕ → ℕ} {s s' : Kernel} → Step bound s s' → IsConfined bound s → IsConfined bound s'
Step-IsConfined {bound} (allocated p t filp caps f h n e) c =
    subst (IsConfined bound) e (cap_fd_alloc-IsConfined p t filp caps c f h n)
Step-IsConfined (derived current p fd new_caps n f h e) c =
    IfReturns_some _ _ _ (fd_derive-Keeps current p fd new_caps c f h) e
Step-IsConfined {bound} (sent current p fd target_pid f e) c =
    subst (IsConfined bound) e (fd_send-IsConfined current p fd target_pid c f)
Step-IsConfined (closed t fd n e) c = IfReturns_some _ _ _ (cap_fd_close-Keeps t fd c) e
Step-IsConfined (all_closed t e) c = IfReturns_some _ _ _ (cap_fd_close_all-IsConfined t c) e

pub data Steps (bound : ℕ → ℕ) (s' : Kernel) : Kernel → Type 0 where
  done : Steps bound s' s'
  and_then : (s m : Kernel) → Step bound s m → Steps bound s' m → Steps bound s' s

-- After any operations from a state in which every entry grants at most what `bound` allows on its
-- file, with cap_fd_alloc called for rights within that bound and every block from kmalloc fresh, the
-- same holds: no sequence of fd_derive, fd_send and closing gains a right.
pub Steps-IsConfined :
    {bound : ℕ → ℕ} {s' s : Kernel} → Steps bound s' s → IsConfined bound s → IsConfined bound s'
Steps-IsConfined done c = c
Steps-IsConfined (and_then s m a rest) c = Steps-IsConfined rest (Step-IsConfined a c)
