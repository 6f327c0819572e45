-- ===== src/Memory/Take.antt =====
-- The first page of a free list taken by alloc_pages (kernel/mem.c): a free block becomes a held one.
use Prim.Native.Nat.{bit_and}
use mathlib.Core.Path.{subst}
use native.Mathlib.Decide.{ℕ_discrete}
use aurora_os_live.Base.{
  ℕ, ◌≤◌, ◌≡◌, ◌≢◌, refl, sym, ap, ◌∙◌, ◌⊎◌, inl, inr, true, List, ◌∷◌, arith,
}
use aurora_os_live.Base.Bits.{bit_not}
use aurora_os_live.Memory.{Buddy, page_flag_free, is_free, has_flag, list_del, take_page}
use aurora_os_live.Memory.Blocks.{
  Has, cover, cover-list_del, Has-list_del, list_del-Has, set_at_self, set_at_ne,
}
use aurora_os_live.Memory.Ready.{
  HasHeld, IsBlock, Flagged, IsReady, Owned, one_le, apart_first, IsBlock-list_del,
}
use aurora_os_live.Memory.Fields.{SameAt, Marked-SameAt, Owned-SameAt}
use aurora_os_live.Memory.Flags.{has_flag-clear, has_flag-clear_other}

-- The page that is taken becomes a held block.
module _ (s : Buddy) (held : List (ℕ × ℕ)) (o p : ℕ) (r : IsReady s held)
    (m : Has p (s.free_area o)) where
  abbrev taken : Buddy
  taken = take_page o p s

  abbrev more : List (ℕ × ℕ)
  more = (p, o) ∷ held

  pub taken-cover : (x : ℕ) → cover taken more x ≡ cover s held x
  unfolding cover
  taken-cover x = omega (arith, cover-list_del o p s held x (r.placed p o (inl m)).0 m)

  taken-SameAt : (q : ℕ) → p ≢ q → SameAt taken s q
  taken-SameAt q n = (
    set_at_ne s.flags p q (bit_and (s.flags p) (bit_not 32 1)) n,
    set_at_ne s.order p q o n,
    refl,
  )

  taken-Owned : Owned taken p o
  taken-Owned =
      let (_, d, a, v) = r.listed p o m in
      (
        ap (λ f. has_flag f 1) (set_at_self s.flags p (bit_and (s.flags p) (bit_not 32 1)))
            ∙ has_flag-clear (s.flags p),
        set_at_self s.order p o,
        a,
        ap (λ f. has_flag f 2) (set_at_self s.flags p (bit_and (s.flags p) (bit_not 32 1)))
            ∙ has_flag-clear_other (s.flags p)
            ∙ v,
      )

  old-IsBlock : (b j : ℕ) → IsBlock taken more b j → IsBlock s held b j
  old-IsBlock b j (inl h) = inl (Has-list_del o p s b j h)
  old-IsBlock b j (inr (inl (e, d))) =
      inl (subst (λ x. Has x (s.free_area j)) e (subst (λ x. Has p (s.free_area x)) d m))
  old-IsBlock b j (inr (inr h)) = inr h

  new_list : (b j : ℕ) → Has b (s.free_area j) → ((p ≡ b) × (o ≡ j)) ⊎ Has b (taken.free_area j)
  new_list b j h = elim (ℕ_discrete p b) [
    | no n ↦ inr (list_del-Has o p s b j (inl n) h)
    | yes e ↦ elim (ℕ_discrete o j) [
      | no n ↦ inr (list_del-Has o p s b j (inr n) h)
      | yes d ↦ inl (e, d)
    ]
  ]

  new-IsBlock : (b j : ℕ) → IsBlock s held b j → IsBlock taken more b j
  new-IsBlock b j (inr h) = inr (inr h)
  new-IsBlock b j (inl h) = elim (new_list b j h) [ inl e ↦ inr (inl e) | inr h' ↦ inl h' ]

  other_block : (b j : ℕ) → IsBlock (list_del o p s) held b j → p ≢ b
  other_block b j h e =
      apart_first s held p o b j r m h (omega arith) (omega (arith, one_le o))
        (r.placed b j (IsBlock-list_del o p s held b j h)).0

  taken-Flagged : (q : ℕ) → is_free taken q ≡ true → Flagged taken more q (taken.order q)
  taken-Flagged q z = elim (ℕ_discrete p q) [
    | yes e ↦ let (f, _, _, _) = taken-Owned in absurd (ground (arith, ap (is_free taken) e))
    | no n ↦
        let (f, d, _) = taken-SameAt q n in
        let (a, w) = r.flagged q (ap (λ x. has_flag x page_flag_free) (sym f) ∙ z) in
        subst (Flagged taken more q) (sym d) (
          a,
          elim w [
            | inl h ↦ inl (list_del-Has o p s q (s.order q) (inl n) h)
            | inr (b, j, v, l, h, h') ↦ inr (b, j, new-IsBlock b j v, l, h, h')
          ],
        )
  ]

  pub taken-IsReady : IsReady taken more
  taken-IsReady = record {
    single = λ x. subst (λ c. c ≤ 1) (sym (taken-cover x)) (r.single x);
    placed = λ b j h. r.placed b j (old-IsBlock b j h);
    listed = λ b j h.
        Marked-SameAt taken s b j (taken-SameAt b (other_block b j (inl h)))
          (r.listed b j (Has-list_del o p s b j h));
    owned = owners;
    flagged = taken-Flagged;
  }
    where
      owners : (b j : ℕ) → HasHeld b j more → Owned taken b j
      owners b j (inl (e, d)) = subst (λ x. Owned taken x j) e (subst (Owned taken p) d taken-Owned)
      owners b j (inr h) =
          Owned-SameAt taken s b j (taken-SameAt b (other_block b j (inr h))) (r.owned b j h)
