-- ===== src/Sched/Pick.antt =====
-- The choice of the next task in schedule of kernel/sched.c: the walk over the tree of the run queue.
use mathlib.Core.List.{append-nil}
use aurora_os_live.Base.{
  ℕ, zero, suc, ◌+◌, ◌-◌, ◌%◌, ◌^◌, ◌≤◌, ◌≡◌, refl, sym, ap, ◌∙◌, ◌⊎◌, inl, inr, Bool, true, false,
  not, ◌&&◌, Bool-cases, Option, none, some, List, [], ◌∷◌, length, length-append, ◌==◌, arith,
}
use aurora_os_live.Sched.{TaskState, running, ready}
use aurora_os_live.RbTree.{Item, Tree, leaf, node}
use aurora_os_live.RbTree.Order.{inorder}
use aurora_os_live.RbTree.Insertion.{IsSorted, AtLeast}
use aurora_os_live.RbTree.Search.{Place, leftmost, rb_find_min, rb_next}
use aurora_os_live.RbTree.Search.Walk.{remaining, remaining-leftmost, remaining-rb_next}

abbrev pub is_runnable : TaskState → Bool
is_runnable s = elim s [ ready ↦ true | running ↦ true | _ ↦ false ]

-- The task of a node, where `offset` is `offsetof(struct task_struct, rb_node)`.
abbrev pub task_of : ℕ → Item → ℕ
task_of offset x = (x.address + 2 ^ 64 - offset) % 2 ^ 64

abbrev pub is_candidate : ℕ → (ℕ → TaskState) → ℕ → Item → Bool
is_candidate offset states current x =
    is_runnable (states (task_of offset x)) && not (task_of offset x == current)

-- The loop from a place on, with fuel.
unfoldable pub walk : ℕ → (Item → Bool) → Option Place → Option Item
walk zero ok p = none
walk (suc n) ok none = none
walk (suc n) ok (some p) = elim (ok p.item) [ true ↦ some p.item | false ↦ walk n ok (rb_next p) ]

abbrev pub size : Tree → ℕ
size leaf = 0
size (node c l x r) = suc (size l + size r)

-- One round for each node. The node that is found is `next`; none leaves the fallback.
unfoldable pub pick_next : ℕ → (ℕ → TaskState) → ℕ → Tree → Option Item
pick_next offset states current tree =
    walk (size tree) (is_candidate offset states current) (rb_find_min tree)

-- The first item of a list that passes a test.
abbrev pub first_of : (Item → Bool) → List Item → Option Item
first_of ok [] = none
first_of ok (x ∷ xs) = elim (ok x) [ true ↦ some x | false ↦ first_of ok xs ]

length-inorder : (t : Tree) → length (inorder t) ≡ size t
length-inorder leaf = refl
length-inorder (node c l x r) =
    omega (arith, length-append (inorder l) (x ∷ inorder r), length-inorder l, length-inorder r)

walk_lem :
    (n : ℕ) (ok : Item → Bool) (p : Option Place)
    → length (remaining p) ≤ n
    → walk n ok p ≡ first_of ok (remaining p)
unfolding walk
walk_lem zero ok none h = refl
walk_lem zero ok (some p) h = absurd (omega arith)
walk_lem (suc n) ok none h = refl
walk_lem (suc n) ok (some p) h = elim (Bool-cases (ok p.item)) [
  | inl e ↦ rw (walk, e) refl
  | inr e ↦
      rw (walk, e)
        (walk_lem n ok (rb_next p) (omega (arith, ap length (remaining-rb_next p)))
          ∙ ap (first_of ok) (remaining-rb_next p))
]

remaining-rb_find_min : (t : Tree) → remaining (rb_find_min t) ≡ inorder t
unfolding leftmost
remaining-rb_find_min leaf = refl
remaining-rb_find_min (node c l x r) = remaining-leftmost c l x r [] ∙ append-nil _

pub pick_next-first_of :
    (offset : ℕ) (states : ℕ → TaskState) (current : ℕ) (t : Tree)
    → pick_next offset states current t ≡ first_of (is_candidate offset states current) (inorder t)
unfolding pick_next
pick_next-first_of offset states current t =
    let all = remaining-rb_find_min t in
    walk_lem (size t) (is_candidate offset states current) (rb_find_min t)
      (omega (arith, ap length all, length-inorder t))
    ∙ ap (first_of (is_candidate offset states current)) all

abbrev pub Among : Item → List Item → Type 0
Among y [] = ⊥
Among y (x ∷ xs) = (x ≡ y) ⊎ Among y xs

AtLeast-Among : (k : ℕ) (y : Item) (xs : List Item) → AtLeast k xs → Among y xs → k ≤ y.key
AtLeast-Among k y [] a m = absurd m
AtLeast-Among k y (x ∷ xs) a (inl e) = omega (arith, a.0, ap (λ z. z.key) e)
AtLeast-Among k y (x ∷ xs) a (inr m) = AtLeast-Among k y xs a.1 m

first_of_least :
    (ok : Item → Bool) (xs : List Item) (y : Item)
    → IsSorted xs
    → Among y xs
    → ok y ≡ true
    → (x : Item) × (first_of ok xs ≡ some x) × Among x xs × (ok x ≡ true) × (x.key ≤ y.key)
first_of_least ok [] y s m h = absurd m
first_of_least ok (z ∷ zs) y s m h = elim (Bool-cases (ok z)) [
  | inl e ↦
      rw (first_of, e)
        (
          z,
          refl,
          inl refl,
          e,
          elim m [
            | inl q ↦ omega (arith, ap (λ w. w.key) q)
            | inr n ↦ AtLeast-Among z.key y zs s.0 n
          ],
        )
  | inr e ↦ elim m [
    | inl q ↦ absurd (false_true (sym e ∙ ap ok q ∙ h))
    | inr n ↦
        let (x, f, a, g, l) = first_of_least ok zs y s.1 n h in rw (first_of, e) (x, f, inr a, g, l)
  ]
]
  where
    false_true : false ≡ true → ⊥
    false_true q = cc

-- Where the tree of the run queue is sorted and has a node whose task is READY or RUNNING and not the
-- current one, the walk of schedule finds such a node, and its key is not greater.
pub pick_next_least :
    (offset : ℕ) (states : ℕ → TaskState) (current : ℕ) (t : Tree) (y : Item)
    → IsSorted (inorder t)
    → Among y (inorder t)
    → is_candidate offset states current y ≡ true
    → (x : Item) × (pick_next offset states current t ≡ some x)
      × Among x (inorder t)
      × (is_candidate offset states current x ≡ true)
      × (x.key ≤ y.key)
pick_next_least offset states current t y s m h =
    let ok = is_candidate offset states current in
    let (x, f, a, g, l) = first_of_least ok (inorder t) y s m h in
    (x, pick_next-first_of offset states current t ∙ f, a, g, l)
