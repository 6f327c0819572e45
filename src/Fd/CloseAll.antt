-- ===== src/Fd/CloseAll.antt =====
-- `fd_close_all`, which runs when a task exits (kernel/file.c).
use aurora_os_live.Base.{
  ℕ, ◌+◌, ◌≡◌, ◌≢◌, refl, List, [], ◌∷◌, arith, ◌==◌, ==_iff, length, sym, ◌∙◌, replicate, inl, inr,
  Bool-cases, ap, Ensures, Ensures->>=,
}
use aurora_os_live.Vfs.{Vfs, vfs_close}
use aurora_os_live.Vfs.Refs.{refs, same, IsCounted, IsCounted-cong, vfs_close-IsCounted}
use aurora_os_live.Fd.{Task, unused, close_slot, close_slots, fd_close_all, max_fds}
use aurora_os_live.Fd.Slots.{count, count-replicate}
use aurora_os_live.Fd.Refs.{held, IsOwned}

held-cons_unused :
    (outer : ℕ → ℕ) (w : ℕ) (t : List ℕ) (p : ℕ)
    → w ≡ unused
    → held outer (w ∷ t) p ≡ held outer t p
unfolding count
held-cons_unused outer w t p e = ground arith

held-cons :
    (outer : ℕ → ℕ) (w : ℕ) (t : List ℕ) (p : ℕ)
    → w ≢ unused
    → held outer (w ∷ t) p ≡ held outer t p + same w p
unfolding count
held-cons outer w t p e = ground arith

close_slot-IsCounted :
    {v : Vfs} (outer : ℕ → ℕ) (w : ℕ) (t : List ℕ)
    → IsCounted (held outer (w ∷ t)) v
    → Ensures (close_slot w v) (IsCounted (held outer t))
close_slot-IsCounted {v} outer w t c = elim (Bool-cases (w == unused)) [
  | inl e ↦ rw e (IsCounted-cong (λ p. held-cons_unused outer w t p ((==_iff _ _).0 e)) c)
  | inr e ↦ rw e (
      let n : w ≢ unused = ground arith in
      Ensures->>= (vfs_close w v) _ _ _
        (vfs_close-IsCounted w c (ground (arith, held-cons outer w t w n)))
        (λ r k. IsCounted-cong (λ p. omega (arith, held-cons outer w t p n)) k.0))
]

close_slots-IsCounted :
    {v : Vfs} (outer : ℕ → ℕ) (t : List ℕ)
    → IsCounted (held outer t) v
    → Ensures
        (close_slots t v)
        (λ r. IsCounted (held outer []) r.0 × (r.1 ≡ replicate (length t) unused))
unfolding close_slots
close_slots-IsCounted outer [] c = (c, refl)
close_slots-IsCounted {v} outer (w ∷ t) c =
    Ensures->>= (close_slot w v) _ _ _ (close_slot-IsCounted outer w t c) λ v' c'.
      Ensures->>= (close_slots t v') _ _ _ (close_slots-IsCounted outer t c')
        λ r k. (k.0, ap (λ x. unused ∷ x) k.1)

held-nil : (outer : ℕ → ℕ) (p : ℕ) → held outer [] p ≡ outer p
unfolding count
held-nil outer p = ground arith

held-replicate : (outer : ℕ → ℕ) (n p : ℕ) → held outer (replicate n unused) p ≡ outer p
held-replicate outer n p = ground (arith, count-replicate p n)

-- `fd_close_all` does not fault, empties every slot, and leaves each file exactly the references
-- that others hold: a file that only this task held is closed and freed.
pub fd_close_all-IsOwned :
    {outer : ℕ → ℕ} {s : Task}
    → IsOwned outer s
    → Ensures (fd_close_all s) (λ s'.
      IsOwned outer s'
      × (s'.fd_table ≡ replicate max_fds unused)
      × ((p : ℕ) → refs s'.vfs p ≡ outer p))
unfolding fd_close_all
fd_close_all-IsOwned {outer} {s} o =
    Ensures->>= (close_slots s.fd_table s.vfs) _ _ _
      (close_slots-IsCounted outer s.fd_table o.counted)
      λ r k.
        let e = k.1 ∙ ap (λ n. replicate n unused) o.size in
        (
          record {
            size = ap length e;
            counted =
                IsCounted-cong
                  (λ p.
                    held-nil outer p
                    ∙ sym (ap (λ t. held outer t p) e ∙ held-replicate outer max_fds p))
                  k.0;
            few = o.few;
          },
          e,
          λ p. k.0.exact p ∙ held-nil outer p,
        )
