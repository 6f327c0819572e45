-- ===== src/Memory/Ready.antt =====
-- The invariant of the allocator (kernel/mem.c): no page is in two blocks, free or held, and what the
-- page descriptors say agrees with the free lists.
use mathlib.Core.Path.{subst}
use native.Mathlib.Nat.{one-le-pow, le_of_mul-le-mul_right, lt_of_mul-lt-mul_right}
use native.Mathlib.Decide.{ℕ_discrete}
use aurora_os_live.Base.{
  ℕ, ◌+◌, ◌*◌, ◌^◌, ◌≤◌, ◌<◌, ◌≡◌, ◌≢◌, sym, ap, ◌∙◌, ◌⊎◌, inl, inr, true, false, List, [], ◌∷◌,
  arith,
}
use aurora_os_live.Memory.{
  Buddy, max_order, buddy_max_pages, page_flag_reserved, pfn_to_phys, has_flag, is_free, list_add,
  list_del,
}
use aurora_os_live.Memory.Blocks.{
  Has, inside_yes, list_covers-Has, area_covers-le, held_covers, cover, cover-list_del,
  list_del-Has, Has-list_del, Has-list_add, list_add-Has,
}

-- A block and its order among those that the callers hold.
abbrev pub HasHeld : ℕ → ℕ → List (ℕ × ℕ) → Type 0
HasHeld b o [] = ⊥
HasHeld b o ((c, j) ∷ held) = ((c ≡ b) × (j ≡ o)) ⊎ HasHeld b o held

abbrev pub IsBlock : Buddy → List (ℕ × ℕ) → ℕ → ℕ → Type 0
IsBlock s held b o = Has b (s.free_area o) ⊎ HasHeld b o held

abbrev pub IsAligned : ℕ → ℕ → Type 0
IsAligned b o = (m : ℕ) × (b ≡ m * 2 ^ o)

abbrev pub Placed : ℕ → ℕ → Type 0
Placed b o = (o ≤ max_order) × IsAligned b o × (b + 2 ^ o ≤ buddy_max_pages)

-- Page `q`, which says of itself that it is free with order `k`, is inside a larger block.
abbrev pub IsStale : Buddy → List (ℕ × ℕ) → ℕ → ℕ → Type 0
IsStale s held q k = (b : ℕ) × (o : ℕ) × IsBlock s held b o × (k < o) × (b ≤ q) × (q < b + 2 ^ o)

-- What must hold of a page with order `j` that says that it is free.
abbrev pub Flagged : Buddy → List (ℕ × ℕ) → ℕ → ℕ → Type 0
Flagged s held q j = IsAligned q j × (Has q (s.free_area j) ⊎ IsStale s held q j)

-- The descriptor of a free and of a held block.
abbrev pub Marked : Buddy → ℕ → ℕ → Type 0
Marked s b o =
    (is_free s b ≡ true)
    × (s.order b ≡ o)
    × (s.phys_addr b ≡ pfn_to_phys b)
    × (has_flag (s.flags b) page_flag_reserved ≡ false)

abbrev pub Owned : Buddy → ℕ → ℕ → Type 0
Owned s b o =
    (is_free s b ≡ false)
    × (s.order b ≡ o)
    × (s.phys_addr b ≡ pfn_to_phys b)
    × (has_flag (s.flags b) page_flag_reserved ≡ false)

pub record IsReady (s : Buddy) (held : List (ℕ × ℕ)) : Type 0 where
  pub single : (x : ℕ) → cover s held x ≤ 1
  pub placed : (b o : ℕ) → IsBlock s held b o → Placed b o
  pub listed : (b o : ℕ) → Has b (s.free_area o) → Marked s b o
  pub owned : (b o : ℕ) → HasHeld b o held → Owned s b o
  pub flagged : (q : ℕ) → is_free s q ≡ true → Flagged s held q (s.order q)

HasHeld-covers :
    (b o : ℕ) (held : List (ℕ × ℕ)) (x : ℕ)
    → HasHeld b o held
    → b ≤ x
    → x < b + 2 ^ o
    → 1 ≤ held_covers held x
HasHeld-covers b o [] x h p q = absurd h
HasHeld-covers b o ((c, j) ∷ held) x (inl (e, d)) p q =
    let at : x < c + 2 ^ j = subst (λ k. x < c + 2 ^ k) (sym d) (omega arith) in
    omega (arith, inside_yes c j x (omega arith) at)
HasHeld-covers b o ((c, j) ∷ held) x (inr h) p q = omega (arith, HasHeld-covers b o held x h p q)

pub IsBlock-cover :
    (s : Buddy) (held : List (ℕ × ℕ)) (b o x : ℕ)
    → IsBlock s held b o
    → o ≤ max_order
    → b ≤ x
    → x < b + 2 ^ o
    → 1 ≤ cover s held x
unfolding cover
IsBlock-cover s held b o x (inl m) h p q = omega (
  arith,
  list_covers-Has o b (s.free_area o) x m p q,
  area_covers-le 11 o s.free_area x (omega arith),
)
IsBlock-cover s held b o x (inr m) h p q = omega (arith, HasHeld-covers b o held x m p q)

-- A page of a free block is in no other block.
pub apart :
    (s : Buddy) (held : List (ℕ × ℕ)) (b o c j x : ℕ)
    → IsReady s held
    → Has b (s.free_area o)
    → IsBlock (list_del o b s) held c j
    → b ≤ x
    → x < b + 2 ^ o
    → c ≤ x
    → x < c + 2 ^ j
    → o ≤ max_order
    → j ≤ max_order
    → ⊥
apart s held b o c j x r m n p q p' q' h k = omega (
  arith,
  r.single x,
  cover-list_del o b s held x h m,
  inside_yes b o x p q,
  IsBlock-cover (list_del o b s) held c j x n k p' q',
)

pub one_le : (o : ℕ) → 1 ≤ 2 ^ o
one_le o = one-le-pow o 2 (omega arith)

-- A free block's first page is in no list that is left without the block.
pub apart_first :
    (s : Buddy) (held : List (ℕ × ℕ)) (b o c j : ℕ)
    → IsReady s held
    → Has b (s.free_area o)
    → IsBlock (list_del o b s) held c j
    → b ≤ c
    → c < b + 2 ^ o
    → j ≤ max_order
    → ⊥
apart_first s held b o c j r m n p q k =
    apart s held b o c j c r m n p q (omega arith) (omega (arith, one_le j))
      (r.placed b o (inl m)).0 k

pub IsBlock-list_del :
    (o p : ℕ) (s : Buddy) (held : List (ℕ × ℕ)) (b j : ℕ)
    → IsBlock (list_del o p s) held b j
    → IsBlock s held b j
IsBlock-list_del o p s held b j (inl m) = inl (Has-list_del o p s b j m)
IsBlock-list_del o p s held b j (inr m) = inr m

pub IsBlock-list_add :
    (o p : ℕ) (s : Buddy) (held : List (ℕ × ℕ)) (b j : ℕ)
    → IsBlock (list_add o p s) held b j
    → ((p ≡ b) × (o ≡ j)) ⊎ IsBlock s held b j
IsBlock-list_add o p s held b j (inl m) = elim (Has-list_add o p s b j m) [
  | inl e ↦ inl e
  | inr n ↦ inr (inl n)
]
IsBlock-list_add o p s held b j (inr m) = inr (inr m)

pub list_add-IsBlock :
    (o p : ℕ) (s : Buddy) (held : List (ℕ × ℕ)) (b j : ℕ)
    → IsBlock s held b j
    → IsBlock (list_add o p s) held b j
list_add-IsBlock o p s held b j (inl m) = inl (list_add-Has o p s b j m)
list_add-IsBlock o p s held b j (inr m) = inr m

pub list_del-IsBlock :
    (o p : ℕ) (s : Buddy) (held : List (ℕ × ℕ)) (b j : ℕ)
    → (p ≢ b) ⊎ (o ≢ j)
    → IsBlock s held b j
    → IsBlock (list_del o p s) held b j
list_del-IsBlock o p s held b j n (inl m) = inl (list_del-Has o p s b j n m)
list_del-IsBlock o p s held b j n (inr m) = inr m

-- A page of a free list is what it says.
pub listed-Flagged :
    (s : Buddy) (held : List (ℕ × ℕ)) (b o : ℕ)
    → s.order b ≡ o
    → IsAligned b o
    → Has b (s.free_area o)
    → Flagged s held b (s.order b)
listed-Flagged s held b o d a m = subst (Flagged s held b) (sym d) (a, inl m)

-- The one or two multiples of a power of two in a block of twice the size.
pub two_multiples :
    (i j k : ℕ)
    → i * 2 ^ k ≤ j * 2 ^ k
    → j * 2 ^ k < i * 2 ^ k + 2 * 2 ^ k
    → (j * 2 ^ k ≡ i * 2 ^ k) ⊎ (j * 2 ^ k ≡ i * 2 ^ k + 2 ^ k)
two_multiples i j k h h' =
    let low : i ≤ j = le_of_mul-le-mul_right h (omega (arith, one_le k)) in
    let high : j < i + 2 = lt_of_mul-lt-mul_right (2 ^ k) (omega arith) in
    elim (ℕ_discrete i j) [
      | yes e ↦ inl (ap (λ x. x * 2 ^ k) (sym e))
      | no n ↦ let e : j ≡ i + 1 = omega arith in inr (ap (λ x. x * 2 ^ k) e ∙ omega arith)
    ]
