-- ===== src/Memory/Merge.antt =====
-- A block joined with its buddy (buddy_merge of kernel/mem.c).
use mathlib.Core.Path.{subst}
use native.Mathlib.Decide.{ℕ_discrete}
use native.Mathlib.Nat.{pow-suc}
use aurora_os_live.Base.{
  ℕ, suc, ◌+◌, ◌^◌, min, ◌≤◌, ◌<◌, ◌≡◌, ◌≢◌, refl, sym, ap, ◌∙◌, ◌⊎◌, inl, inr, true, List, arith,
}
use aurora_os_live.Memory.{
  Buddy, max_order, page_flag_free, is_free, has_flag, list_del, mark_free, join,
}
use aurora_os_live.Memory.Blocks.{
  Has, inside, cover, cover-list_add, cover-list_del, list_add-Has, list_add-Has_self, Has-list_del,
  Has-list_add, list_del-Has,
}
use aurora_os_live.Memory.Ready.{
  Marked, IsBlock, IsBlock-cover, IsAligned, Placed, Flagged, listed-Flagged, IsStale, IsReady,
  one_le, IsBlock-list_del, IsBlock-list_add,
}
use aurora_os_live.Memory.Fields.{
  mark_free-Marked, mark_free-SameAt, Marked-SameAt, Owned-SameAt, cover-mark_free,
}

module _ (s : Buddy) (held : List (ℕ × ℕ)) (k p b : ℕ) where
  abbrev rest : Buddy
  rest = list_del k b (list_del k p s)

  abbrev pub base : ℕ
  base = min p b

  abbrev pub joined : Buddy
  joined = join k p b s

  -- The halves end with the block.
  below :
      (c : ℕ)
      → (p + 2 ^ k ≡ b) ⊎ (b + 2 ^ k ≡ p)
      → (p ≡ c) ⊎ (b ≡ c)
      → (q : ℕ) → q < c + 2 ^ k
      → q < base + 2 ^ suc k
  below c (inl e) (inl z) q h = omega (arith, pow-suc 2 k)
  below c (inl e) (inr z) q h = omega (arith, pow-suc 2 k)
  below c (inr e) (inl z) q h = omega (arith, pow-suc 2 k)
  below c (inr e) (inr z) q h = omega (arith, pow-suc 2 k)

  joined-IsBlock :
      (c o : ℕ) → IsBlock joined held c o → ((base ≡ c) × (suc k ≡ o)) ⊎ IsBlock rest held c o
  joined-IsBlock c o h = IsBlock-list_add (suc k) base (mark_free (suc k) base rest) held c o h

  pub whole : Has base (joined.free_area (suc k))
  whole = list_add-Has_self (suc k) base (mark_free (suc k) base rest)

  still_list :
      (c o : ℕ)
      → (p ≢ c) ⊎ (k ≢ o)
      → (b ≢ c) ⊎ (k ≢ o)
      → Has c (s.free_area o)
      → Has c (joined.free_area o)
  still_list c o n n' v =
      list_add-Has (suc k) base (mark_free (suc k) base rest) c o
        (list_del-Has k b (list_del k p s) c o n' (list_del-Has k p s c o n v))

  still-IsBlock :
      (c o : ℕ)
      → (p ≢ c) ⊎ (k ≢ o)
      → (b ≢ c) ⊎ (k ≢ o)
      → IsBlock s held c o
      → IsBlock joined held c o
  still-IsBlock c o n n' (inl v) = inl (still_list c o n n' v)
  still-IsBlock c o n n' (inr v) = inr v

  still-IsBlock_of : (c o : ℕ) → IsBlock rest held c o → IsBlock s held c o
  still-IsBlock_of c o v =
      IsBlock-list_del k p s held c o (IsBlock-list_del k b (list_del k p s) held c o v)

  -- Two blocks of a list, the halves of a block.
  module _ (r : IsReady s held) (m : Has p (s.free_area k)) (m' : Has b (s.free_area k)) (n : p ≢ b)
      (near : (p + 2 ^ k ≡ b) ⊎ (b + 2 ^ k ≡ p)) (small : suc k ≤ max_order)
      (aligned : IsAligned base (suc k)) where
    inside-base : (x : ℕ) → inside base (suc k) x ≡ inside p k x + inside b k x
    inside-base x = elim near [
      | inl e ↦ ground (arith, pow-suc 2 k)
      | inr e ↦ ground (arith, pow-suc 2 k)
    ]

    joined_covers : (x : ℕ) → inside base (suc k) x + cover rest held x ≡ cover s held x
    joined_covers x = omega (
      arith,
      inside-base x,
      cover-list_del k p s held x (omega arith) m,
      cover-list_del k b (list_del k p s) held x (omega arith) (list_del-Has k p s b k (inl n) m'),
    )

    pub joined-cover : (x : ℕ) → cover joined held x ≡ cover s held x
    joined-cover x = omega (
      arith,
      joined_covers x,
      cover-mark_free (suc k) base rest held x,
      cover-list_add (suc k) base (mark_free (suc k) base rest) held x small,
    )

    rest_apart : (c o : ℕ) → IsBlock rest held c o → base ≢ c
    rest_apart c o v e = ground (
      arith,
      joined_covers c,
      r.single c,
      IsBlock-cover rest held c o c v (r.placed c o (still-IsBlock_of c o v)).0 (omega arith)
          (omega (arith, one_le o)),
      one_le (suc k),
    )

    joined-Placed : (c o : ℕ) → IsBlock joined held c o → Placed c o
    joined-Placed c o h = elim (joined-IsBlock c o h) [
      | inl (e, d) ↦
          subst (λ x. Placed x o) e
            (subst (Placed base) d (
              small,
              aligned,
              elim near [
                | inl z ↦ omega (arith, pow-suc 2 k, (r.placed b k (inl m')).2)
                | inr z ↦ omega (arith, pow-suc 2 k, (r.placed p k (inl m)).2)
              ],
            ))
      | inr v ↦ r.placed c o (still-IsBlock_of c o v)
    ]

    joined_listed : (c o : ℕ) → Has c (joined.free_area o) → Marked joined c o
    joined_listed c o h = elim (Has-list_add (suc k) base (mark_free (suc k) base rest) c o h) [
      | inl (e, d) ↦
          subst (λ x. Marked joined x o) e
            (subst (Marked joined base) d (mark_free-Marked (suc k) base rest))
      | inr v ↦
          Marked-SameAt joined s c o (mark_free-SameAt (suc k) base rest c (rest_apart c o (inl v)))
            (r.listed c o (Has-list_del k p s c o (Has-list_del k b (list_del k p s) c o v)))
    ]

    in_whole : (q j : ℕ) → j ≤ k → base ≤ q → q < base + 2 ^ suc k → IsStale joined held q j
    in_whole q j l h h' = (base, suc k, inl whole, omega arith, h, h')

    joined-IsStale :
        (q c o j : ℕ) → IsBlock s held c o → j < o → c ≤ q → q < c + 2 ^ o → IsStale joined held q j
    joined-IsStale q c o j v l h h' = elim (ℕ_discrete k o) [
      | no d ↦ (c, o, still-IsBlock c o (inr d) (inr d) v, l, h, h')
      | yes e ↦
          let at : q < c + 2 ^ k = subst (λ x. q < c + 2 ^ x) (sym e) h' in
          elim (ℕ_discrete p c) [
            | yes z ↦ in_whole q j (omega arith) (omega arith) (below c near (inl z) q at)
            | no d ↦ elim (ℕ_discrete b c) [
              | yes z ↦ in_whole q j (omega arith) (omega arith) (below c near (inr z) q at)
              | no d' ↦ (c, o, still-IsBlock c o (inl d) (inl d') v, l, h, h')
            ]
          ]
    ]

    -- The first page of a half.
    half-IsStale :
        (q c : ℕ)
        → c ≡ q
        → Has c (s.free_area k)
        → base ≤ c
        → c < base + 2 ^ suc k
        → IsStale joined held q (s.order q)
    half-IsStale q c e v h h' =
        let d : s.order q ≡ k = ap s.order (sym e) ∙ (r.listed c k v).1 in
        in_whole q (s.order q) (omega arith) (omega arith) (omega arith)

    joined-Flagged : (q : ℕ) → is_free joined q ≡ true → Flagged joined held q (joined.order q)
    joined-Flagged q z = elim (ℕ_discrete base q) [
      | yes e ↦
          subst (λ x. Flagged joined held x (joined.order x)) e
            (listed-Flagged joined held base (suc k) (mark_free-Marked (suc k) base rest).1 aligned
              whole)
      | no d ↦
          let (f, o, _) = mark_free-SameAt (suc k) base rest q d in
          let (a, w) = r.flagged q (ap (λ x. has_flag x page_flag_free) (sym f) ∙ z) in
          subst (Flagged joined held q) (sym o) (
            a,
            elim w [
              | inr (c, j, v, l, h, h') ↦ inr (joined-IsStale q c j (s.order q) v l h h')
              | inl v ↦ elim (ℕ_discrete p q) [
                | yes e ↦ inr (
                    half-IsStale q p e m (omega arith)
                      (below p near (inl refl) p (omega (arith, one_le k))))
                | no n1 ↦ elim (ℕ_discrete b q) [
                  | yes e ↦ inr (
                      half-IsStale q b e m' (omega arith)
                        (below b near (inr refl) b (omega (arith, one_le k))))
                  | no n2 ↦ inl (still_list q (s.order q) (inl n1) (inl n2) v)
                ]
              ]
            ],
          )
    ]

    pub join-IsReady : IsReady joined held
    join-IsReady = record {
      single = λ x. subst (λ c. c ≤ 1) (sym (joined-cover x)) (r.single x);
      placed = joined-Placed;
      listed = joined_listed;
      owned = λ c o h.
          Owned-SameAt joined s c o (mark_free-SameAt (suc k) base rest c (rest_apart c o (inr h)))
            (r.owned c o h);
      flagged = joined-Flagged;
    }
