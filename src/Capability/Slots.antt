-- ===== src/Capability/Slots.antt =====
-- The slots of a table after a write (kernel/capability.c), and cap_fd_alloc as the search for one.
use aurora_os_live.Base.{
  ℕ, ◌<◌, ◌≡◌, ◌≢◌, refl, ap, sym, ◌∙◌, inl, inr, none, some, List, ◌&&◌, ◌==◌, if◌then◌else◌,
  Bool-cases, ==_iff, ne→==, eq→==, length, get_or, set, length-set, get_or-set_self, get_or-set_ne,
  get_or_default, arith,
}
use native.Mathlib.Decide.{dec_lt, ℕ_discrete}
use aurora_os_live.Base.Int.{ℤ, pos, minus_one}
use aurora_os_live.Fd.{slot, unused, index, first_free}
use aurora_os_live.Capability.{Kernel, cap_get, put_word, kfree, install, fill, cap_fd_alloc}
use aurora_os_live.Capability.Confined.{cap_get-slot}

get_or-set :
    (xs : List ℕ) (i j v d : ℕ)
    → i < length xs
    → get_or (set xs i v) j d ≡ (if i == j then v else get_or xs j d)
get_or-set xs i j v d h = elim (ℕ_discrete i j) [
  | yes e ↦
      rw (eq→== i j e) (ap (λ k. get_or (set xs i v) k d) (sym e) ∙ get_or-set_self xs i v d h)
  | no n ↦ rw (ne→== i j n) (get_or-set_ne xs i j v d n)
]

-- The one slot that `put_word` writes.
pub slot-put_word_lem :
    (s : Kernel) (t i w u j : ℕ)
    → i < length (s.tables t)
    → slot ((put_word s t i w).tables u) j
      ≡ (if (t == u) && (i == j) then w else slot (s.tables u) j)
slot-put_word_lem s t i w u j h = elim (Bool-cases (t == u)) [
  | inl e ↦
      let k : t ≡ u = (==_iff t u).0 e in
      rw e (
        get_or-set (s.tables t) i j w unused h
        ∙ ap (λ v. if i == j then w else slot (s.tables v) j) k)
  | inr e ↦ rw e refl
]

pub length-put_word :
    (s : Kernel) (t i w u : ℕ) → length ((put_word s t i w).tables u) ≡ length (s.tables u)
length-put_word s t i w u = elim (Bool-cases (t == u)) [
  | inl e ↦ rw e (length-set (s.tables t) i w ∙ ap (λ v. length (s.tables v)) ((==_iff t u).0 e))
  | inr e ↦ rw e refl
]

pub index_in_table :
    (s : Kernel) (t : ℕ) (fd : ℤ) → cap_get s t fd ≢ 0 → index fd < length (s.tables t)
index_in_table s t fd h =
    let (e, u, m) = cap_get-slot s t fd h in
    elim (dec_lt (index fd) (length (s.tables t))) [
      | yes below ↦ below
      | no above ↦ absurd (u (get_or_default (s.tables t) (index fd) unused (omega arith)))
    ]

pub install-some :
    (p t i : ℕ) (s : Kernel)
    → first_free (s.tables t) ≡ some i
    → install p t s ≡ (put_word s t i p, pos i)
unfolding install
install-some p t i s e = rw (install, e) refl

pub install-none :
    (p t : ℕ) (s : Kernel) → first_free (s.tables t) ≡ none → install p t s ≡ (kfree p s, minus_one)
unfolding install
install-none p t s e = rw (install, e) refl

-- With its arguments not NULL and a block from `kmalloc`, `cap_fd_alloc` is the search for a slot.
pub cap_fd_alloc-install :
    (p t filp caps : ℕ) (s : Kernel)
    → p ≢ 0
    → t ≢ 0
    → filp ≢ 0
    → cap_fd_alloc p t filp caps s ≡ install p t (fill p filp caps s)
unfolding cap_fd_alloc
cap_fd_alloc-install p t filp caps s hp ht hf = rw (ne→== t 0 ht, ne→== filp 0 hf, ne→== p 0 hp)

pub current_ne_null : (s : Kernel) (t : ℕ) (fd : ℤ) → cap_get s t fd ≢ 0 → t ≢ 0
unfolding cap_get
current_ne_null s t fd h = ground arith
