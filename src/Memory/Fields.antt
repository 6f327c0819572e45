-- ===== src/Memory/Fields.antt =====
-- What `mark_free` of kernel/mem.c writes, and descriptors that are the same in two states.
use aurora_os_live.Base.{ℕ, ◌≡◌, ◌≢◌, refl, ap, ◌∙◌, List, ==_refl}
use aurora_os_live.Memory.{
  Buddy, page_flag_free, page_flag_reserved, pfn_to_phys, has_flag, mark_free,
}
use aurora_os_live.Memory.Blocks.{cover, set_at_ne}
use aurora_os_live.Memory.Ready.{Marked, Owned}

pub cover-mark_free :
    (o p : ℕ) (s : Buddy) (held : List (ℕ × ℕ)) (x : ℕ)
    → cover (mark_free o p s) held x ≡ cover s held x
unfolding cover
cover-mark_free o p s held x = refl

-- What `mark_free` writes, and that it writes no other page.
pub mark_free-Marked : (o p : ℕ) (s : Buddy) → Marked (mark_free o p s) p o
mark_free-Marked o p s = rw (==_refl p) (refl, refl, refl, refl)

abbrev pub SameAt : Buddy → Buddy → ℕ → Type 0
SameAt s t q = (s.flags q ≡ t.flags q) × (s.order q ≡ t.order q) × (s.phys_addr q ≡ t.phys_addr q)

pub mark_free-SameAt : (o p : ℕ) (s : Buddy) (q : ℕ) → p ≢ q → SameAt (mark_free o p s) s q
mark_free-SameAt o p s q n = (
  set_at_ne s.flags p q 1 n,
  set_at_ne s.order p q o n,
  set_at_ne s.phys_addr p q (pfn_to_phys p) n,
)

pub Marked-SameAt : (s t : Buddy) (q o : ℕ) → SameAt s t q → Marked t q o → Marked s q o
Marked-SameAt s t q o (f, d, a) (m, e, b, v) = (
  ap (λ k. has_flag k page_flag_free) f ∙ m,
  d ∙ e,
  a ∙ b,
  ap (λ k. has_flag k page_flag_reserved) f ∙ v,
)

pub Owned-SameAt : (s t : Buddy) (q o : ℕ) → SameAt s t q → Owned t q o → Owned s q o
Owned-SameAt s t q o (f, d, a) (m, e, b, v) = (
  ap (λ k. has_flag k page_flag_free) f ∙ m,
  d ∙ e,
  a ∙ b,
  ap (λ k. has_flag k page_flag_reserved) f ∙ v,
)
