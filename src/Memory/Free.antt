-- ===== src/Memory/Free.antt =====
-- free_pages of kernel/mem.c.
use Prim.Native.Nat.{bit_or}
use mathlib.Core.Path.{subst}
use native.Mathlib.Decide.{ℕ_discrete}
use aurora_os_live.Base.{
  ℕ, ◌+◌, ◌-◌, ◌*◌, ◌/◌, ◌≤◌, ◌<◌, ◌≡◌, ◌≢◌, refl, sym, ap, ◌∙◌, ◌⊎◌, inl, inr, true, false, ◌&&◌,
  Bool-cases, some, List, [], ◌∷◌, ltb, leb, ◌==◌, if◌then◌else◌, arith,
}
use aurora_os_live.Memory.{
  Buddy, max_order, page_flag_free, pfn_to_phys, phys_to_pfn, is_free, has_flag, give_page,
  free_found, free_pages,
}
use aurora_os_live.Memory.Blocks.{
  Has, inside, inside_yes, held_covers, cover, cover-list_add, Has-list_add, list_add-Has,
  list_add-Has_self, set_at_self, set_at_ne,
}
use aurora_os_live.Memory.Ready.{
  HasHeld, IsBlock, IsBlock-cover, Flagged, listed-Flagged, IsReady, Marked, one_le,
}
use aurora_os_live.Memory.Fields.{SameAt, Marked-SameAt, Owned-SameAt}
use aurora_os_live.Memory.Coalesce.{buddy_merge-Kept}
use aurora_os_live.Memory.Flags.{has_flag-set, has_flag-set_other}

-- The held blocks without block `p`, of order `o`.
abbrev pub without : ℕ → ℕ → List (ℕ × ℕ) → List (ℕ × ℕ)
without p o [] = []
without p o ((c, j) ∷ held) = if (c == p) && (j == o) then held else (c, j) ∷ without p o held

HasHeld-without :
    (p o c j : ℕ) (held : List (ℕ × ℕ)) → HasHeld c j (without p o held) → HasHeld c j held
HasHeld-without p o c j [] h = absurd h
HasHeld-without p o c j ((b, k) ∷ held) h = elim (Bool-cases ((b == p) && (k == o))) [
  | inl z ↦ let h' : HasHeld c j held = rw z at h in inr h'
  | inr z ↦
      let h' : ((b ≡ c) × (k ≡ j)) ⊎ HasHeld c j (without p o held) = rw z at h in
      elim h' [ inl e ↦ inl e | inr n ↦ inr (HasHeld-without p o c j held n) ]
]

without-HasHeld :
    (p o c j : ℕ) (held : List (ℕ × ℕ))
    → HasHeld c j held
    → ((p ≡ c) × (o ≡ j)) ⊎ HasHeld c j (without p o held)
without-HasHeld p o c j [] h = absurd h
without-HasHeld p o c j ((b, k) ∷ held) h = elim (Bool-cases ((b == p) && (k == o))) [
  | inl z ↦ elim h [ inl (e, d) ↦ inl (ground arith, ground arith) | inr n ↦ inr (rw z n) ]
  | inr z ↦ elim h [
    | inl e ↦ inr (rw z (inl e))
    | inr n ↦ elim (without-HasHeld p o c j held n) [ inl e ↦ inl e | inr n' ↦ inr (rw z (inr n')) ]
  ]
]

without_covers :
    (p o : ℕ) (held : List (ℕ × ℕ)) (x : ℕ)
    → HasHeld p o held
    → inside p o x + held_covers (without p o held) x ≡ held_covers held x
without_covers p o [] x h = absurd h
without_covers p o ((b, k) ∷ held) x h = elim (Bool-cases ((b == p) && (k == o))) [
  | inl z ↦
      let e : p ≡ b = ground arith in
      let d : o ≡ k = ground arith in
      rw z (
        ap (λ c. inside c o x + held_covers held x) e
        ∙ ap (λ c. inside b c x + held_covers held x) d)
  | inr z ↦ elim h [
    | inl (e, d) ↦ absurd (ground arith)
    | inr n ↦ rw z (omega (arith, without_covers p o held x n))
  ]
]

-- The held block that is given back becomes a free block.
module _ (s : Buddy) (held : List (ℕ × ℕ)) (o p : ℕ) (r : IsReady s held)
    (m : HasHeld p o held) where
  abbrev given : Buddy
  given = give_page o p s

  abbrev fewer : List (ℕ × ℕ)
  fewer = without p o held

  fewer-cover : (x : ℕ) → inside p o x + cover s fewer x ≡ cover s held x
  unfolding cover
  fewer-cover x = omega (arith, without_covers p o held x m)

  given-cover : (x : ℕ) → cover given fewer x ≡ cover s held x
  unfolding cover
  given-cover x =
      omega
        (arith, cover-list_add o p s fewer x (r.placed p o (inr m)).0, without_covers p o held x m)

  old-IsBlock : (c j : ℕ) → IsBlock s fewer c j → IsBlock s held c j
  old-IsBlock c j (inl h) = inl h
  old-IsBlock c j (inr h) = inr (HasHeld-without p o c j held h)

  other_block : (c j : ℕ) → IsBlock s fewer c j → p ≢ c
  other_block c j h e = omega (
    arith,
    fewer-cover c,
    r.single c,
    inside_yes p o c (omega arith) (omega (arith, one_le o)),
    IsBlock-cover s fewer c j c h (r.placed c j (old-IsBlock c j h)).0 (omega arith)
        (omega (arith, one_le j)),
  )

  given-IsBlock : (c j : ℕ) → IsBlock given fewer c j → IsBlock s held c j
  given-IsBlock c j (inr h) = inr (HasHeld-without p o c j held h)
  given-IsBlock c j (inl h) = elim (Has-list_add o p s c j h) [
    | inl (e, d) ↦ inr (subst (λ x. HasHeld x j held) e (subst (λ x. HasHeld p x held) d m))
    | inr n ↦ inl n
  ]

  first_block : Has p (given.free_area o)
  first_block = list_add-Has_self o p s

  IsBlock-given : (c j : ℕ) → IsBlock s held c j → IsBlock given fewer c j
  IsBlock-given c j (inl h) = inl (list_add-Has o p s c j h)
  IsBlock-given c j (inr h) = elim (without-HasHeld p o c j held h) [
    | inl (e, d) ↦ inl (
        subst (λ x. Has x (given.free_area j)) e
          (subst (λ x. Has p (given.free_area x)) d first_block))
    | inr n ↦ inr n
  ]

  given-SameAt : (q : ℕ) → p ≢ q → SameAt given s q
  given-SameAt q n =
      (set_at_ne s.flags p q (bit_or (s.flags p) 1) n, set_at_ne s.order p q o n, refl)

  given-Marked : Marked given p o
  given-Marked =
      let (_, d, a, v) = r.owned p o m in
      (
        ap (λ f. has_flag f 1) (set_at_self s.flags p (bit_or (s.flags p) 1))
            ∙ has_flag-set (s.flags p),
        set_at_self s.order p o,
        a,
        ap (λ f. has_flag f 2) (set_at_self s.flags p (bit_or (s.flags p) 1))
            ∙ has_flag-set_other (s.flags p)
            ∙ v,
      )

  given_listed : (c j : ℕ) → Has c (given.free_area j) → Marked given c j
  given_listed c j h = elim (Has-list_add o p s c j h) [
    | inl (e, d) ↦ subst (λ x. Marked given x j) e (subst (Marked given p) d given-Marked)
    | inr n ↦ Marked-SameAt given s c j (given-SameAt c (other_block c j (inl n))) (r.listed c j n)
  ]

  given-Flagged : (q : ℕ) → is_free given q ≡ true → Flagged given fewer q (given.order q)
  given-Flagged q z = elim (ℕ_discrete p q) [
    | yes e ↦
        subst (λ x. Flagged given fewer x (given.order x)) e
          (listed-Flagged given fewer p o given-Marked.1 (r.placed p o (inr m)).1 first_block)
    | no n ↦
        let (f, d, _) = given-SameAt q n in
        let (a, w) = r.flagged q (ap (λ x. has_flag x page_flag_free) (sym f) ∙ z) in
        subst (Flagged given fewer q) (sym d) (
          a,
          elim w [
            | inl h ↦ inl (list_add-Has o p s q (s.order q) h)
            | inr (b, j, v, l, h, h') ↦ inr (b, j, IsBlock-given b j v, l, h, h')
          ],
        )
  ]

  given-IsReady : IsReady given fewer
  given-IsReady = record {
    single = λ x. subst (λ c. c ≤ 1) (sym (given-cover x)) (r.single x);
    placed = λ c j h. r.placed c j (given-IsBlock c j h);
    listed = given_listed;
    owned = λ c j h.
        Owned-SameAt given s c j (given-SameAt c (other_block c j (inr h)))
          (r.owned c j (HasHeld-without p o c j held h));
    flagged = given-Flagged;
  }

page_of : (p : ℕ) → phys_to_pfn (pfn_to_phys p) ≡ some p
page_of p =
    let above : ltb (pfn_to_phys p) 0x100000 ≡ false = ground arith in
    let e : (0x100000 + p * 4096 - 0x100000) / 4096 ≡ p = omega arith in rw above (ap some e)

-- The block that is freed leaves the held blocks, and each page is in as many blocks as before.
abbrev pub Freed : Buddy → List (ℕ × ℕ) → ℕ → ℕ → Buddy → Type 0
Freed s held p o t =
    IsReady t (without p o held) × ((x : ℕ) → cover t (without p o held) x ≡ cover s held x)

-- free_pages of a held block, in the managed memory and with its order, keeps the invariant that no
-- page is in two blocks, free or held: the block leaves those that are held, and each page is in as
-- many blocks as before, so that the merged blocks hold the freed pages and no others.
pub free_pages-Freed :
    (s : Buddy) (held : List (ℕ × ℕ)) (p o : ℕ)
    → IsReady s held
    → HasHeld p o held
    → p < s.total_phys_pages
    → Freed s held p o (free_pages (pfn_to_phys p) o s)
unfolding free_pages free_found
free_pages-Freed s held p o r m h =
    let given' = give_page o p s in
    let (unfree, _, _, unreserved) = r.owned p o m in
    let (small, _, _) = r.placed p o (inr m) in
    let not_null : (pfn_to_phys p == 0) ≡ false = ground arith in
    let order_ok : ltb max_order o ≡ false = ground arith in
    let inside_ram : leb s.total_phys_pages p ≡ false = ground arith in
    let m' : Has p (given'.free_area (given'.order p)) =
      subst (λ j. Has p (given'.free_area j)) (sym (given-Marked s held o p r m).1)
        (first_block s held o p r m) in
    let (r', c) = buddy_merge-Kept p given' (without p o held) (given-IsReady s held o p r m) m' in
    rw (free_pages, not_null, order_ok, page_of p, inside_ram, unreserved, unfree)
      (r', λ x. c x ∙ given-cover s held o p r m x)
