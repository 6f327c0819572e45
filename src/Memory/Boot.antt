-- ===== src/Memory/Boot.antt =====
-- buddy_mark_available of kernel/mem.c, which fills the allocator at boot.
use mathlib.Core.Path.{subst}
use native.Mathlib.Decide.{dec_lt, ℕ_discrete}
use aurora_os_live.Base.{
  ℕ, zero, suc, ◌+◌, ◌-◌, ◌≤◌, ◌<◌, ◌≡◌, ◌≢◌, refl, sym, ap, ◌∙◌, ◌⊎◌, inl, inr, true, false,
  Bool-cases, List, [], leb, min, arith,
}
use aurora_os_live.Memory.{
  Buddy, buddy_max_pages, page_flag_free, page_flag_reserved, is_free, has_flag, mark_free,
  make_available, available_from, buddy_mark_available,
}
use aurora_os_live.Memory.Blocks.{
  Has, inside, list_covers, area_covers, cover, cover-list_add, Has-list_add, list_add-Has,
  list_add-Has_self,
}
use aurora_os_live.Memory.Ready.{
  IsBlock, IsBlock-cover, Placed, Flagged, listed-Flagged, IsReady, Marked, one_le,
  IsBlock-list_add, list_add-IsBlock,
}
use aurora_os_live.Memory.Fields.{mark_free-Marked, mark_free-SameAt, Marked-SameAt, Owned-SameAt}

-- One page that is in no block becomes a free block.
module _ (s : Buddy) (held : List (ℕ × ℕ)) (p : ℕ) (r : IsReady s held) (u : cover s held p ≡ 0)
    (fits : p < buddy_max_pages) where
  abbrev added : Buddy
  added = make_available p s

  marked : Buddy
  marked = mark_free 0 p s

  added-cover : (x : ℕ) → cover added held x ≡ inside p 0 x + cover s held x
  unfolding cover
  added-cover x = cover-list_add 0 p s held x (omega arith)

  added-IsBlock : (c j : ℕ) → IsBlock added held c j → ((p ≡ c) × (0 ≡ j)) ⊎ IsBlock s held c j
  added-IsBlock c j h = IsBlock-list_add 0 p s held c j h

  old-IsBlock : (c j : ℕ) → IsBlock s held c j → p ≢ c
  old-IsBlock c j h e =
      let k = r.placed c j h in
      omega (
        arith,
        u,
        ap (cover s held) e,
        IsBlock-cover s held c j c h k.0 (omega arith) (omega (arith, one_le j)),
      )

  added_list : Has p (added.free_area 0)
  added_list = list_add-Has_self 0 p s

  added-Placed : (c j : ℕ) → IsBlock added held c j → Placed c j
  added-Placed c j h = elim (added-IsBlock c j h) [
    | inl (e, d) ↦
        subst (λ x. Placed x j) e (subst (Placed p) d (omega arith, (p, omega arith), omega arith))
    | inr n ↦ r.placed c j n
  ]

  added_listed : (c j : ℕ) → Has c (added.free_area j) → Marked added c j
  added_listed c j h = elim (Has-list_add 0 p s c j h) [
    | inl (e, d) ↦
        subst (λ x. Marked added x j) e (subst (Marked added p) d (mark_free-Marked 0 p s))
    | inr n ↦
        Marked-SameAt added s c j (mark_free-SameAt 0 p s c (old-IsBlock c j (inl n)))
          (r.listed c j n)
  ]

  added-Flagged : (q : ℕ) → is_free added q ≡ true → Flagged added held q (added.order q)
  added-Flagged q z = elim (ℕ_discrete p q) [
    | yes e ↦
        subst (λ x. Flagged added held x (added.order x)) e
          (listed-Flagged added held p 0 (mark_free-Marked 0 p s).1 (p, omega arith) added_list)
    | no n ↦
        let (f, d, _) = mark_free-SameAt 0 p s q n in
        let (a, w) = r.flagged q (ap (λ x. has_flag x page_flag_free) (sym f) ∙ z) in
        subst (Flagged added held q) (sym d) (
          a,
          elim w [
            | inl h ↦ inl (list_add-Has 0 p s q (s.order q) h)
            | inr (b, j, v, l, h, h') ↦ inr (b, j, list_add-IsBlock 0 p s held b j v, l, h, h')
          ],
        )
  ]

  added_single : (x : ℕ) → cover added held x ≤ 1
  added_single x = elim (ℕ_discrete p x) [
    | yes e ↦ omega (arith, added-cover x, ap (cover s held) e, u, inside_le p 0 x)
    | no n ↦ ground (arith, added-cover x, r.single x)
  ]
    where
      inside_le : (b o y : ℕ) → inside b o y ≤ 1
      inside_le b o y = ground arith

  added-IsReady : IsReady added held
  added-IsReady = record {
    single = added_single;
    placed = added-Placed;
    listed = added_listed;
    owned = λ c j h.
        Owned-SameAt added s c j (mark_free-SameAt 0 p s c (old-IsBlock c j (inr h)))
          (r.owned c j h);
    flagged = added-Flagged;
  }

available_from-IsReady :
    (n p : ℕ) (s : Buddy) (held : List (ℕ × ℕ))
    → IsReady s held
    → ((x : ℕ) → p ≤ x → x < p + n → cover s held x ≡ 0)
    → p + n ≤ buddy_max_pages
    → IsReady (available_from n p s) held
unfolding available_from
available_from-IsReady zero p s held r u h = r
available_from-IsReady (suc n) p s held r u h =
    elim (Bool-cases (has_flag (s.flags p) page_flag_reserved)) [
      | inl z ↦
          rw (available_from, z)
            (available_from-IsReady n (suc p) s held r (λ x a b. u x (omega arith) (omega arith))
              (omega arith))
      | inr z ↦
          let free = u p (omega arith) (omega arith) in
          rw (available_from, z)
            (available_from-IsReady n (suc p) (make_available p s) held
              (added-IsReady s held p r free (omega arith))
              (λ x a b. ground (
                arith,
                added-cover s held p r free (omega arith) x,
                u x (omega arith) (omega arith),
              ))
              (omega arith))
    ]

-- buddy_mark_available of pages that are in no block keeps the invariant: no page is in two blocks, each
-- block is aligned and inside the page array, and the descriptors agree with the free lists.
pub buddy_mark_available-IsReady :
    (start end : ℕ) (s : Buddy) (held : List (ℕ × ℕ))
    → IsReady s held
    → ((x : ℕ) → start ≤ x → x < end → cover s held x ≡ 0)
    → IsReady (buddy_mark_available start end s) held
unfolding buddy_mark_available
buddy_mark_available-IsReady start end s held r u = elim (dec_lt start buddy_max_pages) [
  | no n ↦
      let out : leb buddy_max_pages start ≡ true = ground arith in rw (buddy_mark_available, out) r
  | yes l ↦
      let within : leb buddy_max_pages start ≡ false = ground arith in
      rw (buddy_mark_available, within)
        (elim (dec_lt end start) [
          | yes back ↦
              let none_left : min end buddy_max_pages - start ≡ 0 = omega arith in
              subst (λ n. IsReady (available_from n start s) held) (sym none_left)
                (available_from-IsReady 0 start s held r (λ x a b. absurd (omega arith))
                  (omega arith))
          | no on ↦
              available_from-IsReady (min end buddy_max_pages - start) start s held r
                (λ x a b. u x a (omega arith)) (omega arith)
        ])
]

-- An allocator with no free page.
pub empty-IsReady :
    (s : Buddy) → ((j : ℕ) → s.free_area j ≡ []) → ((q : ℕ) → is_free s q ≡ false) → IsReady s []
unfolding cover
empty-IsReady s e f = record {
  single = λ x. omega (arith, nothing 11 x);
  placed = λ b o h. elim h [ inl m ↦ absurd (subst (Has b) (e o) m) | inr m ↦ absurd m ];
  listed = λ b o h. absurd (subst (Has b) (e o) h);
  owned = λ b o h. absurd h;
  flagged = λ q z. absurd (false_true (sym (f q) ∙ z));
}
  where
    nothing : (n x : ℕ) → area_covers n s.free_area x ≡ 0
    nothing zero x = refl
    nothing (suc n) x = omega (arith, nothing n x, ap (λ l. list_covers n l x) (e n))

    false_true : false ≡ true → ⊥
    false_true z = cc
