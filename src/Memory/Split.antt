-- ===== src/Memory/Split.antt =====
-- The halves of a block (buddy_split of kernel/mem.c).
use mathlib.Core.Path.{subst}
use native.Mathlib.Decide.{dec_lt, ℕ_discrete}
use native.Mathlib.Nat.{pow-suc}
use aurora_os_live.Base.{
  ℕ, suc, ◌+◌, ◌*◌, ◌^◌, ◌≤◌, ◌<◌, ◌≡◌, ◌≢◌, sym, ap, ◌∙◌, ◌⊎◌, inl, inr, true, List, arith,
}
use aurora_os_live.Memory.{
  Buddy, page_flag_free, is_free, has_flag, list_add, list_del, mark_free, halves,
}
use aurora_os_live.Memory.Blocks.{
  Has, inside, cover, cover-list_add, cover-list_del, list_add-Has, list_add-Has_self, Has-list_del,
  Has-list_add, list_del-Has,
}
use aurora_os_live.Memory.Fields.{
  cover-mark_free, SameAt, mark_free-Marked, mark_free-SameAt, Marked-SameAt, Owned-SameAt,
}
use aurora_os_live.Memory.Ready.{
  Marked, IsBlock, IsAligned, Placed, Flagged, listed-Flagged, two_multiples, IsStale, IsReady,
  apart_first, one_le, IsBlock-list_del, list_add-IsBlock, list_del-IsBlock,
}

inside-halves : (p k x : ℕ) → inside p (suc k) x ≡ inside p k x + inside (p + 2 ^ k) k x
inside-halves p k x = ground (arith, pow-suc 2 k)

module _ (s : Buddy) (held : List (ℕ × ℕ)) (k p : ℕ) where
  abbrev rest : Buddy
  rest = list_del (suc k) p s

  abbrev split : Buddy
  split = halves k p rest

  split_list :
      (b o : ℕ)
      → Has b (split.free_area o)
      → (((p + 2 ^ k ≡ b) × (k ≡ o)) ⊎ ((p ≡ b) × (k ≡ o))) ⊎ Has b (rest.free_area o)
  split_list b o h = elim (Has-list_add k (p + 2 ^ k) (list_add k p rest) b o h) [
    | inl e ↦ inl (inl e)
    | inr h' ↦ elim (Has-list_add k p rest b o h') [ inl e ↦ inl (inr e) | inr n ↦ inr n ]
  ]

  split-IsBlock :
      (b o : ℕ)
      → IsBlock split held b o
      → (((p + 2 ^ k ≡ b) × (k ≡ o)) ⊎ ((p ≡ b) × (k ≡ o))) ⊎ IsBlock rest held b o
  split-IsBlock b o (inr h) = inr (inr h)
  split-IsBlock b o (inl h) = elim (split_list b o h) [ inl e ↦ inl e | inr n ↦ inr (inl n) ]

  rest_list : (b o : ℕ) → Has b (rest.free_area o) → Has b (split.free_area o)
  rest_list b o h = list_add-Has k (p + 2 ^ k) (list_add k p rest) b o (list_add-Has k p rest b o h)

  rest-IsBlock : (b o : ℕ) → IsBlock rest held b o → IsBlock split held b o
  rest-IsBlock b o h =
      list_add-IsBlock k (p + 2 ^ k) (list_add k p rest) held b o
        (list_add-IsBlock k p rest held b o h)

  upper_half : Has (p + 2 ^ k) (split.free_area k)
  upper_half = list_add-Has_self k (p + 2 ^ k) (list_add k p rest)

  pub lower_half : Has p (split.free_area k)
  lower_half = list_add-Has k (p + 2 ^ k) (list_add k p rest) p k (list_add-Has_self k p rest)

  split-SameAt : (q : ℕ) → p ≢ q → p + 2 ^ k ≢ q → SameAt split s q
  split-SameAt q n n' =
      let (f, d, a) = mark_free-SameAt k (p + 2 ^ k) (mark_free k p s) q n' in
      let (f', d', a') = mark_free-SameAt k p s q n in (f ∙ f', d ∙ d', a ∙ a')

  split-Marked : (Marked split (p + 2 ^ k) k) × (Marked split p k)
  split-Marked = (
    mark_free-Marked k (p + 2 ^ k) (mark_free k p s),
    Marked-SameAt split (mark_free k p s) p k
        (mark_free-SameAt k (p + 2 ^ k) (mark_free k p s) p (λ e. omega (arith, one_le k)))
        (mark_free-Marked k p s),
  )

  module _ (r : IsReady s held) (m : Has p (s.free_area (suc k))) where
    pub split-cover : (x : ℕ) → cover split held x ≡ cover s held x
    split-cover x =
        let small = (r.placed p (suc k) (inl m)).0 in
        let marked = mark_free k (p + 2 ^ k) (mark_free k p rest) in
        omega (
          arith,
          inside-halves p k x,
          cover-list_add k (p + 2 ^ k) (list_add k p marked) held x (omega arith),
          cover-list_add k p marked held x (omega arith),
          cover-mark_free k (p + 2 ^ k) (mark_free k p rest) held x,
          cover-mark_free k p rest held x,
          cover-list_del (suc k) p s held x small m,
        )

    split-Placed : (b o : ℕ) → IsBlock split held b o → Placed b o
    split-Placed b o h =
        let (small, (i, e), fits) = r.placed p (suc k) (inl m) in
        let twice : i * 2 ^ suc k ≡ 2 * (i * 2 ^ k) =
          omega (arith, ap (λ w. i * w) (pow-suc 2 k)) in
        elim (split-IsBlock b o h) [
          | inl (inl (z, z')) ↦
              subst (Placed b) z'
                (omega arith, (2 * i + 1, sym z ∙ omega (arith, twice)), omega (arith, pow-suc 2 k))
          | inl (inr (z, z')) ↦
              subst (Placed b) z'
                (omega arith, (2 * i, sym z ∙ omega (arith, twice)), omega (arith, pow-suc 2 k))
          | inr n ↦ r.placed b o (IsBlock-list_del (suc k) p s held b o n)
        ]

    -- No block that is left starts inside the one that is split.
    rest_apart : (b o : ℕ) → IsBlock rest held b o → p ≤ b → b < p + 2 ^ suc k → ⊥
    rest_apart b o n h h' =
        apart_first s held p (suc k) b o r m n h h'
          (r.placed b o (IsBlock-list_del (suc k) p s held b o n)).0

    rest-SameAt : (b o : ℕ) → IsBlock rest held b o → SameAt split s b
    rest-SameAt b o n =
        split-SameAt b (λ e. rest_apart b o n (omega arith) (omega (arith, one_le (suc k))))
          (λ e. rest_apart b o n (omega arith) (omega (arith, pow-suc 2 k, one_le k)))

    split_listed : (b o : ℕ) → Has b (split.free_area o) → Marked split b o
    split_listed b o h = elim (split_list b o h) [
      | inl (inl (z, z')) ↦
          subst (λ x. Marked split x o) z (subst (Marked split (p + 2 ^ k)) z' split-Marked.0)
      | inl (inr (z, z')) ↦
          subst (λ x. Marked split x o) z (subst (Marked split p) z' split-Marked.1)
      | inr n ↦
          Marked-SameAt split s b o (rest-SameAt b o (inl n))
            (r.listed b o (Has-list_del (suc k) p s b o n))
    ]

    -- A page of the block that is split, but neither half's first.
    in_half :
        (q j : ℕ)
        → j ≤ k
        → p ≤ q
        → q < p + 2 ^ suc k
        → IsAligned q j
        → p ≢ q
        → p + 2 ^ k ≢ q
        → IsStale split held q j
    in_half q j l h h' (c, a) d d' = elim (dec_lt j k) [
      | yes l' ↦ elim (dec_lt q (p + 2 ^ k)) [
        | yes low ↦ (p, k, inl lower_half, l', h, low)
        | no high ↦ (p + 2 ^ k, k, inl upper_half, l', omega arith, omega (arith, pow-suc 2 k))
      ]
      | no l' ↦
          let (i, e) = (r.placed p (suc k) (inl m)).1 in
          let e' : p ≡ 2 * i * 2 ^ k = e ∙ omega (arith, ap (λ w. i * w) (pow-suc 2 k)) in
          let a' : q ≡ c * 2 ^ k = a ∙ ap (λ w. c * 2 ^ w) (omega arith) in
          absurd (elim (two_multiples (2 * i) c k (omega arith) (omega (arith, pow-suc 2 k))) [
            | inl z ↦ d (omega arith)
            | inr z ↦ d' (omega arith)
          ])
    ]

    split-IsStale :
        (q b o j : ℕ)
        → IsBlock s held b o
        → j < o
        → b ≤ q
        → q < b + 2 ^ o
        → IsAligned q j
        → p ≢ q
        → p + 2 ^ k ≢ q
        → IsStale split held q j
    split-IsStale q b o j v l h h' a d d' = elim (ℕ_discrete o (suc k)) [
      | no n ↦ (
        b,
        o,
        rest-IsBlock b o (list_del-IsBlock (suc k) p s held b o (inr (λ e. n (sym e))) v),
        l,
        h,
        h',
      )
      | yes e ↦ elim (ℕ_discrete p b) [
        | no n ↦
            (b, o, rest-IsBlock b o (list_del-IsBlock (suc k) p s held b o (inl n) v), l, h, h')
        | yes e' ↦
            in_half q j (omega arith) (omega arith) (subst (λ x. q < p + 2 ^ x) e (omega arith)) a d
              d'
      ]
    ]

    split-Flagged : (q : ℕ) → is_free split q ≡ true → Flagged split held q (split.order q)
    split-Flagged q z = elim (ℕ_discrete p q) [
      | yes e ↦
          subst (λ x. Flagged split held x (split.order x)) e
            (listed-Flagged split held p k split-Marked.1.1 (split-Placed p k (inl lower_half)).1
              lower_half)
      | no n ↦ elim (ℕ_discrete (p + 2 ^ k) q) [
        | yes e ↦
            subst (λ x. Flagged split held x (split.order x)) e
              (listed-Flagged split held (p + 2 ^ k) k split-Marked.0.1
                (split-Placed (p + 2 ^ k) k (inl upper_half)).1 upper_half)
        | no n' ↦
            let (f, d, _) = split-SameAt q n n' in
            let (a, w) = r.flagged q (ap (λ x. has_flag x page_flag_free) (sym f) ∙ z) in
            subst (Flagged split held q) (sym d) (
              a,
              elim w [
                | inl m' ↦
                    inl
                      (rest_list q (s.order q) (list_del-Has (suc k) p s q (s.order q) (inl n) m'))
                | inr (b, o, v, l, h, h') ↦ inr (split-IsStale q b o (s.order q) v l h h' a n n')
              ],
            )
      ]
    ]

    pub split-IsReady : IsReady split held
    split-IsReady = record {
      single = λ x. subst (λ c. c ≤ 1) (sym (split-cover x)) (r.single x);
      placed = split-Placed;
      listed = split_listed;
      owned = λ b o h. Owned-SameAt split s b o (rest-SameAt b o (inr h)) (r.owned b o h);
      flagged = split-Flagged;
    }
