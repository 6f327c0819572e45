-- ===== src/Memory/Alloc.antt =====
-- alloc_pages of kernel/mem.c.
use mathlib.Core.Path.{subst}
use native.Mathlib.Decide.{ℕ_discrete}
use aurora_os_live.Base.{
  ℕ, zero, suc, ◌+◌, ◌-◌, ◌≤◌, ◌<◌, ◌≡◌, refl, sym, ap, ◌∙◌, ◌⊎◌, inl, inr, true, false, List, [],
  ◌∷◌, ltb, leb, arith,
}
use aurora_os_live.Memory.{
  Buddy, max_order, kernel_phys_max, pfn_to_phys, list_del, halves, buddy_split, find_order,
  split_down, take_first, alloc_pages,
}
use aurora_os_live.Memory.Blocks.{Has, cover}
use aurora_os_live.Memory.Take.{taken-IsReady, taken-cover}
use aurora_os_live.Memory.Ready.{IsReady, one_le}
use aurora_os_live.Memory.Split.{split-IsReady, split-cover, lower_half}
use aurora_os_live.Memory.Coalesce.{Kept}

-- The list of an order is not empty.
abbrev pub Filled : Buddy → ℕ → Type 0
Filled s o = (p : ℕ) × (rest : List ℕ) × (s.free_area o ≡ p ∷ rest)

Has-Filled : (l : List ℕ) (p : ℕ) → Has p l → (q : ℕ) × (rest : List ℕ) × (l ≡ q ∷ rest)
Has-Filled [] p h = absurd h
Has-Filled (q ∷ l) p h = (q, l, refl)

Filled-Has :
    (s : Buddy) (o p : ℕ) (rest : List ℕ) → s.free_area o ≡ p ∷ rest → Has p (s.free_area o)
Filled-Has s o p rest e = subst (Has p) (sym e) (inl refl)

buddy_split-Kept :
    (s : Buddy) (held : List (ℕ × ℕ)) (k : ℕ)
    → IsReady s held
    → Filled s (suc k)
    → Kept s (buddy_split (suc k) s).0 held × Filled (buddy_split (suc k) s).0 k
unfolding buddy_split
buddy_split-Kept s held k r (p, rest, e) =
    let m = Filled-Has s (suc k) p rest e in
    let small : ltb max_order (suc k) ≡ false = ground (arith, (r.placed p (suc k) (inl m)).0) in
    let after = halves k p (list_del (suc k) p s) in
    rw (buddy_split, small, e)
      (
        (split-IsReady s held k p r m, split-cover s held k p r m),
        Has-Filled (after.free_area k) p (lower_half s held k p),
      )

split_down-Kept :
    (n o : ℕ) (s : Buddy) (held : List (ℕ × ℕ))
    → IsReady s held
    → Filled s (o + n)
    → Kept s (split_down n o s) held × Filled (split_down n o s) o
unfolding split_down
split_down-Kept zero o s held r f =
    let e : o + 0 ≡ o = omega arith in ((r, λ x. refl), subst (Filled s) e f)
split_down-Kept (suc n) o s held r f =
    let e : o + suc n ≡ suc (o + n) = omega arith in
    let ((r', c), f') = buddy_split-Kept s held (o + n) r (subst (Filled s) e f) in
    let ((r2, c2), f2) = split_down-Kept n o (buddy_split (suc (o + n)) s).0 held r' f' in
    subst (λ x. let t = split_down n o (buddy_split x s).0 in Kept s t held × Filled t o) (sym e)
      ((r2, λ x. c2 x ∙ c x), f2)

-- The search ends at the first list that is not empty, or beyond all.
find_order_lem :
    (n o : ℕ) (s : Buddy)
    → let found = find_order n o s in
      ((found ≡ o + n) × ((j : ℕ) → o ≤ j → j < o + n → s.free_area j ≡ []))
      ⊎ ((o ≤ found) × (found < o + n) × Filled s found)
unfolding find_order
find_order_lem zero o s = inl (omega arith, λ j a b. absurd (omega arith))
find_order_lem (suc n) o s = elim (list_cases (s.free_area o)) [
  | inr (p, rest, e) ↦ rw (find_order, e) (inr (omega arith, omega arith, (p, rest, e)))
  | inl e ↦ elim (find_order_lem n (suc o) s) [
    | inl (a, b) ↦
        rw (find_order, e)
          (inl (
            omega arith,
            λ j h h'. elim (ℕ_discrete o j) [
              | yes z ↦ ap s.free_area (sym z) ∙ e
              | no d ↦ b j (omega arith) (omega arith)
            ],
          ))
    | inr (a, b, f) ↦ rw (find_order, e) (inr (omega arith, omega arith, f))
  ]
]
  where
    list_cases : (l : List ℕ) → (l ≡ []) ⊎ ((p : ℕ) × (rest : List ℕ) × (l ≡ p ∷ rest))
    list_cases [] = inl refl
    list_cases (p ∷ rest) = inr (p, rest, refl)

-- A block of order `o`, at the address that is returned, is held in addition.
abbrev pub Allocates : Buddy → List (ℕ × ℕ) → ℕ → Buddy × ℕ → Type 0
Allocates s held o (t, a) =
    (p : ℕ) × (a ≡ pfn_to_phys p)
    × IsReady t ((p, o) ∷ held)
    × ((x : ℕ) → cover t ((p, o) ∷ held) x ≡ cover s held x)

take_first-Allocates :
    (s : Buddy) (held : List (ℕ × ℕ)) (o : ℕ)
    → IsReady s held
    → Filled s o
    → Allocates s held o (take_first o s)
unfolding take_first
take_first-Allocates s held o r (p, rest, e) =
    let m = Filled-Has s o p rest e in
    let (_, _, a, _) = r.listed p o m in
    let (_, _, fits) = r.placed p o (inl m) in
    let low : leb kernel_phys_max (s.phys_addr p) ≡ false = ground (arith, one_le o) in
    rw (take_first, e, low) (p, a, taken-IsReady s held o p r m, taken-cover s held o p r m)

-- The result of `alloc_pages`: a block, or nothing where no free block is large enough.
abbrev pub Allocated : Buddy → List (ℕ × ℕ) → ℕ → Buddy × ℕ → Type 0
Allocated s held o r =
    Allocates s held o r ⊎ ((r ≡ (s, 0)) × ((j : ℕ) → o ≤ j → j ≤ max_order → s.free_area j ≡ []))

-- alloc_pages of an order up to MAX_ORDER keeps the invariant that no page is in two blocks, free or
-- held: either it returns the address of a block of that order, which then is held in addition, and
-- each page is in as many blocks as before; or it returns NULL, changes nothing, and no free block has
-- that order or a larger one.
pub alloc_pages-Allocated :
    (s : Buddy) (held : List (ℕ × ℕ)) (o : ℕ)
    → IsReady s held
    → o ≤ max_order
    → Allocated s held o (alloc_pages o s)
unfolding alloc_pages
alloc_pages-Allocated s held o r h =
    let small : ltb max_order o ≡ false = ground arith in
    let found = find_order (suc max_order - o) o s in
    elim (find_order_lem (suc max_order - o) o s) [
      | inl (a, b) ↦
          let over : ltb max_order found ≡ true = ground arith in
          rw (alloc_pages, small, over) (inr (refl, λ j l l'. b j l (omega arith)))
      | inr (a, b, f) ↦
          let under : ltb max_order found ≡ false = ground arith in
          let e : found ≡ o + (found - o) = omega arith in
          let ((r', c), f') = split_down-Kept (found - o) o s held r (subst (Filled s) e f) in
          let (p, a', r2, c2) = take_first-Allocates (split_down (found - o) o s) held o r' f' in
          rw (alloc_pages, small, under) (inl (p, a', r2, λ x. c2 x ∙ c x))
    ]
