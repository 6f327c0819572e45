-- ===== src/Fd/Alloc.antt =====
-- `fd_alloc` hands out the lowest free descriptor (kernel/file.c).
use mathlib.Core.Option
use aurora_os_live.Base.{
  ne→==, Bool-cases, ℕ, zero, suc, ◌<◌, ◌≡◌, ◌≢◌, refl, List, [], ◌∷◌, arith, ◌==◌, length, set,
  Option, none, some, inl, inr, ◌⊎◌,
}
use aurora_os_live.Base.Int.{ℤ, pos, minus_one}
use aurora_os_live.Fd.{Task, unused, slot, first_free, fd_alloc}

-- No slot below `n` is free.
abbrev pub FullBelow : List ℕ → ℕ → Type 0
FullBelow t n = (j : ℕ) → j < n → slot t j ≢ unused

-- What the search for a free slot has found.
abbrev pub Searched : List ℕ → Option ℕ → Type 0
Searched t none = FullBelow t (length t)
Searched t (some i) = (i < length t) × (slot t i ≡ unused) × FullBelow t i

FullBelow-cons :
    (w : ℕ) (t : List ℕ) (n : ℕ) → w ≢ unused → FullBelow t n → FullBelow (w ∷ t) (suc n)
FullBelow-cons w t n h k zero b = h
FullBelow-cons w t n h k (suc j) b = k j (omega arith)

first_free-Searched : (t : List ℕ) → Searched t (first_free t)
unfolding first_free
first_free-Searched [] = λ j h. absurd (omega arith)
first_free-Searched (w ∷ t) = elim (Bool-cases (w == unused)) [
  | inl e ↦ rw e (omega arith, ground arith, λ j h. absurd (omega arith))
  | inr e ↦ rw e (occupied w t (first_free t) (ground arith) (first_free-Searched t))
]
  where
    occupied :
        (w : ℕ) (t : List ℕ) (r : Option ℕ)
        → w ≢ unused
        → Searched t r
        → Searched (w ∷ t) (Option.map suc r)
    occupied w t none h k = FullBelow-cons w t (length t) h k
    occupied w t (some i) h k = (omega (arith, k.0), k.1, FullBelow-cons w t i h k.2)

-- What `fd_alloc filp` may leave behind: the lowest free slot holds `filp` and no other slot has
-- changed; or, for a NULL file or a full table, -1 and the task as it was.
pub data Allocated (filp : ℕ) (s : Task) (r : Task × ℤ) : Type 0 where
  placed :
      (i : ℕ)
      → i < length s.fd_table
      → slot s.fd_table i ≡ unused
      → FullBelow s.fd_table i
      → filp ≢ 0
      → r ≡ (record s { fd_table = set s.fd_table i filp }, pos i)
      → Allocated filp s r
  refused :
      (filp ≡ 0) ⊎ FullBelow s.fd_table (length s.fd_table)
      → r ≡ (s, minus_one)
      → Allocated filp s r

-- `fd_alloc` takes the lowest free slot and touches no other; it fails only for a NULL file or a
-- full table, and then changes nothing.
pub fd_alloc-Allocated : (filp : ℕ) (s : Task) → Allocated filp s (fd_alloc filp s)
unfolding fd_alloc
fd_alloc-Allocated filp s = elim (Bool-cases (filp == 0)) [
  | inl e ↦ refused (inl (ground arith)) (rw e)
  | inr e ↦
      rw e (search_result (first_free s.fd_table) (ground arith) (first_free-Searched s.fd_table))
]
  where
    search_result :
        (r : Option ℕ)
        → filp ≢ 0
        → Searched s.fd_table r
        → Allocated filp s (elim r [
          | none ↦ (s, minus_one)
          | some i ↦ (record s { fd_table = set s.fd_table i filp }, pos i)
        ])
    search_result none n k = refused (inr k) refl
    search_result (some i) n k = placed i k.0 k.1 k.2 n refl

pub fd_alloc-some :
    (filp i : ℕ) (s : Task)
    → filp ≢ 0
    → first_free s.fd_table ≡ some i
    → fd_alloc filp s ≡ (record s { fd_table = set s.fd_table i filp }, pos i)
unfolding fd_alloc
fd_alloc-some filp i s n e = rw (ne→== _ 0 n, e)

-- Where the search for a free slot stops.
pub first_free_found :
    (t : List ℕ) (i : ℕ) → first_free t ≡ some i → (i < length t) × (slot t i ≡ unused)
first_free_found t i e = found (first_free t) (first_free-Searched t) e
  where
    found : (r : Option ℕ) → Searched t r → r ≡ some i → (i < length t) × (slot t i ≡ unused)
    found none k z = cc
    found (some j) k z = ground arith
