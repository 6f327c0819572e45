-- ===== src/Memory/Blocks.antt =====
-- The blocks of the allocator (kernel/mem.c): how many blocks hold a page, and what adding to and
-- deleting from a free list does to them.
use aurora_os_live.Base.{
  ℕ, zero, suc, ◌+◌, ◌^◌, ◌≤◌, ◌<◌, ◌≡◌, ◌≢◌, refl, sym, ap, ◌⊎◌, inl, inr, List, [], ◌∷◌, ltb, leb,
  ◌&&◌, ◌==◌, if◌then◌else◌, Bool-cases, ==_iff, ==_refl, ne→==, arith,
}
use mathlib.Core.Path.{subst}
use native.Mathlib.Decide.{ℕ_discrete}
use aurora_os_live.Vfs.{set_at}
use aurora_os_live.Memory.{Buddy, max_order, remove, list_add, list_del}

pub set_at_self {ℓ} : {B : Type ℓ} (f : ℕ → B) (k : ℕ) (v : B) → set_at f k v k ≡ v
set_at_self f k v = rw (==_refl k) refl

pub set_at_ne {ℓ} : {B : Type ℓ} (f : ℕ → B) (k j : ℕ) (v : B) → k ≢ j → set_at f k v j ≡ f j
set_at_ne f k j v n = rw (ne→== k j n) refl

abbrev pub Has : ℕ → List ℕ → Type 0
Has p [] = ⊥
Has p (q ∷ qs) = (q ≡ p) ⊎ Has p qs

pub Has-remove : (p q : ℕ) (l : List ℕ) → Has q (remove p l) → Has q l
Has-remove p q [] h = absurd h
Has-remove p q (x ∷ l) h = elim (Bool-cases (x == p)) [
  | inl e ↦ inr (rw e at h)
  | inr e ↦
      let m : (x ≡ q) ⊎ Has q (remove p l) = rw e at h in
      elim m [ inl y ↦ inl y | inr y ↦ inr (Has-remove p q l y) ]
]

pub remove-Has : (p q : ℕ) (l : List ℕ) → p ≢ q → Has q l → Has q (remove p l)
remove-Has p q [] n h = absurd h
remove-Has p q (x ∷ l) n (inl e) = elim (Bool-cases (x == p)) [
  | inl z ↦ absurd (ground arith)
  | inr z ↦ rw z (inl e)
]
remove-Has p q (x ∷ l) n (inr h) = elim (Bool-cases (x == p)) [
  | inl z ↦ rw z h
  | inr z ↦ rw z (inr (remove-Has p q l n h))
]

-- Whether a block holds page `x`, as a number; how many of a list of blocks of order `o` do, of the
-- first `n` free lists, and of a list of blocks with their orders.
abbrev pub inside : ℕ → ℕ → ℕ → ℕ
inside b o x = if leb b x && ltb x (b + 2 ^ o) then 1 else 0

abbrev pub list_covers : ℕ → List ℕ → ℕ → ℕ
list_covers o [] x = 0
list_covers o (b ∷ l) x = inside b o x + list_covers o l x

abbrev pub area_covers : ℕ → (ℕ → List ℕ) → ℕ → ℕ
area_covers zero area x = 0
area_covers (suc n) area x = area_covers n area x + list_covers n (area n) x

abbrev pub held_covers : List (ℕ × ℕ) → ℕ → ℕ
held_covers [] x = 0
held_covers ((b, o) ∷ held) x = inside b o x + held_covers held x

pub inside_yes : (b o x : ℕ) → b ≤ x → x < b + 2 ^ o → inside b o x ≡ 1
inside_yes b o x h k = ground arith

pub list_covers-remove :
    (o p : ℕ) (l : List ℕ) (x : ℕ)
    → Has p l
    → inside p o x + list_covers o (remove p l) x ≡ list_covers o l x
list_covers-remove o p [] x h = absurd h
list_covers-remove o p (q ∷ l) x h = elim (Bool-cases (q == p)) [
  | inl z ↦ rw z (ap (λ k. inside k o x + list_covers o l x) (sym ((==_iff q p).0 z)))
  | inr z ↦ elim h [
    | inl e ↦ absurd (ground arith)
    | inr m ↦ rw z (omega (arith, list_covers-remove o p l x m))
  ]
]

pub list_covers-Has :
    (o b : ℕ) (l : List ℕ) (x : ℕ) → Has b l → b ≤ x → x < b + 2 ^ o → 1 ≤ list_covers o l x
list_covers-Has o b [] x h p q = absurd h
list_covers-Has o b (c ∷ l) x (inl e) p q =
    omega (arith, inside_yes c o x (omega arith) (omega arith))
list_covers-Has o b (c ∷ l) x (inr h) p q = omega (arith, list_covers-Has o b l x h p q)

-- One list of the free lists replaced.
area_covers_beyond :
    (n o : ℕ) (area : ℕ → List ℕ) (l : List ℕ) (x : ℕ)
    → n ≤ o
    → area_covers n (set_at area o l) x ≡ area_covers n area x
area_covers_beyond zero o area l x h = refl
area_covers_beyond (suc n) o area l x h = omega (
  arith,
  area_covers_beyond n o area l x (omega arith),
  ap (λ k. list_covers n k x) (set_at_ne area o n l (λ e. omega arith)),
)

pub area_covers-set_at :
    (n o : ℕ) (area : ℕ → List ℕ) (l : List ℕ) (x : ℕ)
    → o < n
    → area_covers n (set_at area o l) x + list_covers o (area o) x
      ≡ area_covers n area x + list_covers o l x
area_covers-set_at zero o area l x h = absurd (omega arith)
area_covers-set_at (suc n) o area l x h = elim (ℕ_discrete o n) [
  | yes e ↦ omega (
    arith,
    area_covers_beyond n o area l x (omega arith),
    ap (λ k. list_covers n (set_at area k l n) x) e,
    ap (λ k. list_covers k (area k) x) e,
    ap (λ k. list_covers k l x) e,
    ap (λ k. list_covers n k x) (set_at_self area n l),
  )
  | no d ↦ omega (
    arith,
    area_covers-set_at n o area l x (omega arith),
    ap (λ k. list_covers n k x) (set_at_ne area o n l d),
  )
]

pub area_covers-le :
    (n o : ℕ) (area : ℕ → List ℕ) (x : ℕ) → o < n → list_covers o (area o) x ≤ area_covers n area x
area_covers-le zero o area x h = absurd (omega arith)
area_covers-le (suc n) o area x h = elim (ℕ_discrete o n) [
  | yes e ↦ omega (arith, ap (λ k. list_covers k (area k) x) e)
  | no d ↦ omega (arith, area_covers-le n o area x (omega arith))
]

-- How many blocks, free or held, hold page `x`.
unfoldable pub cover : Buddy → List (ℕ × ℕ) → ℕ → ℕ
cover s held x = area_covers (suc max_order) s.free_area x + held_covers held x

pub cover-list_add :
    (o p : ℕ) (s : Buddy) (held : List (ℕ × ℕ)) (x : ℕ)
    → o ≤ max_order
    → cover (list_add o p s) held x ≡ inside p o x + cover s held x
unfolding cover
cover-list_add o p s held x h =
    omega
      (arith, area_covers-set_at (suc max_order) o s.free_area (p ∷ s.free_area o) x (omega arith))

pub cover-list_del :
    (o p : ℕ) (s : Buddy) (held : List (ℕ × ℕ)) (x : ℕ)
    → o ≤ max_order
    → Has p (s.free_area o)
    → inside p o x + cover (list_del o p s) held x ≡ cover s held x
unfolding cover
cover-list_del o p s held x h m = omega (
  arith,
  area_covers-set_at (suc max_order) o s.free_area (remove p (s.free_area o)) x (omega arith),
  list_covers-remove o p (s.free_area o) x m,
)

-- The pages of a free list after an addition and a deletion.
pub Has-list_add :
    (o p : ℕ) (s : Buddy) (q j : ℕ)
    → Has q ((list_add o p s).free_area j)
    → ((p ≡ q) × (o ≡ j)) ⊎ Has q (s.free_area j)
Has-list_add o p s q j h = elim (Bool-cases (o == j)) [
  | inl z ↦
      let e : o ≡ j = (==_iff o j).0 z in
      let in_list : (p ≡ q) ⊎ Has q (s.free_area o) = rw z at h in
      elim in_list [ inl a ↦ inl (a, e) | inr m ↦ inr (subst (λ k. Has q (s.free_area k)) e m) ]
  | inr z ↦ inr (rw z at h)
]

pub list_add-Has_self : (o p : ℕ) (s : Buddy) → Has p ((list_add o p s).free_area o)
list_add-Has_self o p s = rw (==_refl o) (inl refl)

pub list_add-Has :
    (o p : ℕ) (s : Buddy) (q j : ℕ) → Has q (s.free_area j) → Has q ((list_add o p s).free_area j)
list_add-Has o p s q j h = elim (Bool-cases (o == j)) [
  | inl z ↦ rw z (inr (subst (λ k. Has q (s.free_area k)) (sym ((==_iff o j).0 z)) h))
  | inr z ↦ rw z h
]

pub Has-list_del :
    (o p : ℕ) (s : Buddy) (q j : ℕ) → Has q ((list_del o p s).free_area j) → Has q (s.free_area j)
Has-list_del o p s q j h = elim (Bool-cases (o == j)) [
  | inl z ↦
      subst (λ k. Has q (s.free_area k)) ((==_iff o j).0 z)
        (Has-remove p q (s.free_area o) (rw z at h))
  | inr z ↦ rw z at h
]

pub list_del-Has :
    (o p : ℕ) (s : Buddy) (q j : ℕ)
    → (p ≢ q) ⊎ (o ≢ j)
    → Has q (s.free_area j)
    → Has q ((list_del o p s).free_area j)
list_del-Has o p s q j n h = elim (Bool-cases (o == j)) [
  | inl z ↦
      let e : o ≡ j = (==_iff o j).0 z in
      elim n [
        | inl d ↦
            rw z (remove-Has p q (s.free_area o) d (subst (λ k. Has q (s.free_area k)) (sym e) h))
        | inr d ↦ absurd (d e)
      ]
  | inr z ↦ rw z h
]
