-- ===== src/Memory/Coalesce.antt =====
-- The loop of buddy_merge (kernel/mem.c): a buddy that says that it is free and of the same order is in
-- the free list.
use Prim.Native.Nat.{bit_xor}
use mathlib.Core.Path.{subst}
use native.Mathlib.Decide.{ℕ_discrete}
use native.Mathlib.Nat.{
  pow-suc, mul_left_comm, mul-le-mul_right, le_of_mul-le-mul_right, lt_of_mul-lt-mul_right,
  mul-lt-mul_of_pos_right, mul_assoc,
}
use aurora_os_live.Base.{
  ℕ, zero, suc, ◌+◌, ◌-◌, ◌*◌, ◌%◌, ◌/◌, ◌^◌, min, ◌≤◌, ◌<◌, ◌≡◌, ◌≢◌, refl, sym, ap, ◌∙◌, ◌⊎◌, inl,
  inr, true, false, Bool, Bool-cases, ◌&&◌, some, Option-cases, List, ◌==◌, ==_iff, arith,
}
use aurora_os_live.Base.Bits.{bit_xor-pow}
use aurora_os_live.Memory.{
  Buddy, max_order, is_free, list_del, join, get_buddy, merge_up, buddy_merge,
}
use aurora_os_live.Memory.Blocks.{Has, cover}
use aurora_os_live.Memory.Ready.{IsAligned, IsReady, apart, one_le, list_del-IsBlock}
use aurora_os_live.Memory.Fields.{mark_free-Marked}
use aurora_os_live.Memory.Merge.{join-IsReady, joined-cover, whole}

-- The two blocks of a pair.
pair_of :
    (p i k : ℕ)
    → p ≡ i * 2 ^ k
    → let b = bit_xor p (2 ^ k) in
      ((p + 2 ^ k ≡ b) ⊎ (b + 2 ^ k ≡ p)) × IsAligned (min p b) (suc k) × (p ≢ b)
pair_of p i k e =
    let flip : bit_xor p (2 ^ k) ≡ (i + 1 - 2 * (i % 2)) * 2 ^ k =
      ap (λ x. bit_xor x (2 ^ k)) e ∙ bit_xor-pow i k in
    let twice : i / 2 * 2 ^ suc k ≡ 2 * (i / 2) * 2 ^ k =
      omega (arith, ap (λ x. i / 2 * x) (pow-suc 2 k)) in
    elim (ℕ_discrete (i % 2) 0) [
      | yes z ↦
          let up : i + 1 - 2 * (i % 2) ≡ i + 1 = omega arith in
          let b : bit_xor p (2 ^ k) ≡ p + 2 ^ k = flip ∙ ap (λ x. x * 2 ^ k) up ∙ omega arith in
          let half : i ≡ 2 * (i / 2) = omega arith in
          (
            inl (sym b),
            (i / 2, omega (arith, ap (λ x. x * 2 ^ k) half)),
            λ q. omega (arith, one_le k),
          )
      | no z ↦
          let down : i + 1 - 2 * (i % 2) ≡ 2 * (i / 2) = omega arith in
          let half : i ≡ 2 * (i / 2) + 1 = omega arith in
          let b : bit_xor p (2 ^ k) ≡ 2 * (i / 2) * 2 ^ k = flip ∙ ap (λ x. x * 2 ^ k) down in
          let p' : p ≡ 2 * (i / 2) * 2 ^ k + 2 ^ k = e ∙ ap (λ x. x * 2 ^ k) half ∙ omega arith in
          (inr (omega arith), (i / 2, omega arith), λ q. omega (arith, one_le k))
    ]

pow-add : (m k : ℕ) → 2 ^ (m + k) ≡ 2 ^ m * 2 ^ k
pow-add m zero = let e : m + 0 ≡ m = omega arith in ap (λ x. 2 ^ x) e ∙ omega arith
pow-add m (suc k) =
    let e : m + suc k ≡ suc (m + k) = omega arith in
    ap (λ x. 2 ^ x) e
    ∙ pow-suc 2 (m + k)
    ∙ ap (λ x. x * 2) (pow-add m k)
    ∙ mul_assoc (2 ^ m) (2 ^ k) 2
    ∙ ap (λ x. 2 ^ m * x) (sym (pow-suc 2 k))

-- A larger block with one page of a pair holds the pair.
pair_inside :
    (p b i k c n o : ℕ)
    → p ≡ i * 2 ^ k
    → b ≡ (i + 1 - 2 * (i % 2)) * 2 ^ k
    → c ≡ n * 2 ^ o
    → k < o
    → c ≤ b
    → b < c + 2 ^ o
    → (c ≤ p) × (p < c + 2 ^ o)
pair_inside p b i k c n o e e' z l h h' =
    let d = 2 ^ (o - suc k) in
    let exponent : o ≡ suc (o - suc k) + k = omega arith in
    let size : 2 ^ o ≡ 2 * d * 2 ^ k =
      ap (λ x. 2 ^ x) exponent
      ∙ pow-add (suc (o - suc k)) k
      ∙ ap (λ x. x * 2 ^ k) (pow-suc 2 (o - suc k) ∙ omega arith) in
    let start : c ≡ 2 * (n * d) * 2 ^ k =
      z
      ∙ (ap (λ x. n * x) size
          ∙ sym (mul_assoc n (2 * d) (2 ^ k))
          ∙ ap (λ x. x * 2 ^ k) (mul_left_comm n 2 d)) in
    let low : 2 * (n * d) ≤ i + 1 - 2 * (i % 2) =
      le_of_mul-le-mul_right {k = 2 ^ k} (omega arith) (omega (arith, one_le k)) in
    let high : i + 1 - 2 * (i % 2) < 2 * (n * d) + 2 * d =
      lt_of_mul-lt-mul_right (2 ^ k) (omega arith) in
    let low' : 2 * (n * d) * 2 ^ k ≤ i * 2 ^ k = mul-le-mul_right (2 ^ k) (omega arith) in
    let high' : i * 2 ^ k < (2 * (n * d) + 2 * d) * 2 ^ k =
      mul-lt-mul_of_pos_right (omega arith) (omega (arith, one_le k)) in
    (omega arith, omega arith)

-- A free buddy of the same order is in the list.
buddy-Has :
    (s : Buddy) (held : List (ℕ × ℕ)) (p k : ℕ)
    → IsReady s held
    → Has p (s.free_area k)
    → is_free s (bit_xor p (2 ^ k)) ≡ true
    → s.order (bit_xor p (2 ^ k)) ≡ k
    → Has (bit_xor p (2 ^ k)) (s.free_area k)
buddy-Has s held p k r m f d =
    let b = bit_xor p (2 ^ k) in
    let (_, w) = r.flagged b f in
    elim w [
      | inl h ↦ subst (λ j. Has b (s.free_area j)) d h
      | inr (c, o, v, l, h, h') ↦
          let (small, (i, e), _) = r.placed p k (inl m) in
          let (small', (n, z), _) = r.placed c o v in
          let flip : b ≡ (i + 1 - 2 * (i % 2)) * 2 ^ k =
            ap (λ x. bit_xor x (2 ^ k)) e ∙ bit_xor-pow i k in
          let (low, high) = pair_inside p b i k c n o e flip z (omega arith) h h' in
          absurd (
            apart s held p k c o p r m (list_del-IsBlock k p s held c o (inr (λ q. omega arith)) v)
              (omega arith) (omega (arith, one_le k)) low high small small')
    ]

-- An allocator state after an operation that moves no page between the free and the held blocks.
abbrev pub Kept : Buddy → Buddy → List (ℕ × ℕ) → Type 0
Kept s t held = IsReady t held × ((x : ℕ) → cover t held x ≡ cover s held x)

get_buddy-some : (p k b : ℕ) → get_buddy p k ≡ some b → bit_xor p (2 ^ k) ≡ b
get_buddy-some p k b e = ground arith

-- One round of the loop.
join_step :
    (s : Buddy) (held : List (ℕ × ℕ)) (p b k : ℕ)
    → IsReady s held
    → Has p (s.free_area k)
    → get_buddy p k ≡ some b
    → (is_free s b && (s.order b == k)) ≡ true
    → suc k ≤ max_order
    → Kept s (join k p b s) held × ((join k p b s).order (min p b) ≡ suc k)
join_step s held p b k r m z y small =
    let at : bit_xor p (2 ^ k) ≡ b = get_buddy-some p k b z in
    let (i, e) = (r.placed p k (inl m)).1 in
    let (near, aligned, n) = pair_of p i k e in
    let f : is_free s b ≡ true = and_left (is_free s b) (s.order b == k) y in
    let d : s.order b ≡ k = (==_iff (s.order b) k).0 (and_right (is_free s b) (s.order b == k) y) in
    let m' : Has b (s.free_area k) =
      subst (λ x. Has x (s.free_area k)) at
        (buddy-Has s held p k r m (ap (is_free s) at ∙ f) (ap s.order at ∙ d)) in
    let near' : (p + 2 ^ k ≡ b) ⊎ (b + 2 ^ k ≡ p) =
      subst (λ x. (p + 2 ^ k ≡ x) ⊎ (x + 2 ^ k ≡ p)) at near in
    let aligned' : IsAligned (min p b) (suc k) =
      subst (λ x. IsAligned (min p x) (suc k)) at aligned in
    let apart' : p ≢ b = λ q. n (q ∙ sym at) in
    (
      (
        join-IsReady s held k p b r m m' apart' near' small aligned',
        joined-cover s held k p b r m m' apart' near' small aligned',
      ),
      (mark_free-Marked (suc k) (min p b) (list_del k b (list_del k p s))).1,
    )
  where
    and_left : (a c : Bool) → (a && c) ≡ true → a ≡ true
    and_left true c h = refl
    and_left false c h = h

    and_right : (a c : Bool) → (a && c) ≡ true → c ≡ true
    and_right true c h = h
    and_right false c h = cc

pub merge_up-Kept :
    (n p : ℕ) (s : Buddy) (held : List (ℕ × ℕ))
    → IsReady s held
    → Has p (s.free_area (s.order p))
    → n + s.order p ≡ max_order
    → Kept s (merge_up n p s).0 held
unfolding merge_up
merge_up-Kept zero p s held r m e = (r, λ x. refl)
merge_up-Kept (suc n) p s held r m e = elim (Option-cases (get_buddy p (s.order p))) [
  | inl z ↦ rw (merge_up, z) (r, λ x. refl)
  | inr (b, z) ↦ elim (Bool-cases (is_free s b && (s.order b == s.order p))) [
    | inr y ↦ rw (merge_up, z, y) (r, λ x. refl)
    | inl y ↦
        let k = s.order p in
        let ((r', c), d) = join_step s held p b k r m z y (omega arith) in
        let m' : Has (min p b) ((join k p b s).free_area ((join k p b s).order (min p b))) =
          subst (λ j. Has (min p b) ((join k p b s).free_area j)) (sym d) (whole s held k p b) in
        let (r2, c2) = merge_up-Kept n (min p b) (join k p b s) held r' m' (omega arith) in
        rw (merge_up, z, y) (r2, λ x. c2 x ∙ c x)
  ]
]

pub buddy_merge-Kept :
    (p : ℕ) (s : Buddy) (held : List (ℕ × ℕ))
    → IsReady s held
    → Has p (s.free_area (s.order p))
    → Kept s (buddy_merge p s).0 held
unfolding buddy_merge
buddy_merge-Kept p s held r m =
    merge_up-Kept (max_order - s.order p) p s held r m
      (omega (arith, (r.placed p (s.order p) (inl m)).0))
