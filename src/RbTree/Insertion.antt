-- ===== src/RbTree/Insertion.antt =====
-- rb_insert of kernel/rbtree.c as insertion into a sorted list: behind all nodes whose key is not
-- greater.
use mathlib.Core.List.{append_assoc, append-nil}
use aurora_os_live.Base.{
  ℕ, ◌≤◌, ◌<◌, ◌≡◌, refl, sym, ap, ◌∙◌, true, false, inl, inr, Bool-cases, List, [], ◌∷◌, ◌++◌, ltb,
  arith,
}
use aurora_os_live.RbTree.{
  red, Item, Tree, leaf, node, Frame, went_left, went_right, descend, rb_insert,
}
use aurora_os_live.RbTree.Order.{inorder, before, after, inorder-zip_up, inorder-rb_insert_fixup}

-- The keys of a list are at most, or at least, a bound.
abbrev pub AtMost : ℕ → List Item → Type 0
AtMost k [] = Unit {0}
AtMost k (y ∷ ys) = (y.key ≤ k) × AtMost k ys

abbrev pub AtLeast : ℕ → List Item → Type 0
AtLeast k [] = Unit {0}
AtLeast k (y ∷ ys) = (k ≤ y.key) × AtLeast k ys

abbrev pub IsSorted : List Item → Type 0
IsSorted [] = Unit {0}
IsSorted (x ∷ xs) = AtLeast x.key xs × IsSorted xs

-- The specification of insertion.
pub insert_after : Item → List Item → List Item
insert_after x [] = x ∷ []
insert_after x (y ∷ ys) = elim (ltb x.key y.key) [
  | true ↦ x ∷ y ∷ ys
  | false ↦ y ∷ insert_after x ys
]

AtLeast-append : (k : ℕ) (xs ys : List Item) → AtLeast k (xs ++ ys) → AtLeast k xs × AtLeast k ys
AtLeast-append k [] ys a = (tt, a)
AtLeast-append k (x ∷ xs) ys a = let (b, c) = AtLeast-append k xs ys a.1 in ((a.0, b), c)

-- A sorted list at a node.
pub IsSorted-split :
    (xs : List Item) (x : Item) (ys : List Item)
    → IsSorted (xs ++ x ∷ ys)
    → IsSorted xs × AtMost x.key xs × AtLeast x.key ys × IsSorted ys
IsSorted-split [] x ys s = (tt, tt, s.0, s.1)
IsSorted-split (y ∷ xs) x ys s =
    let (a, b, c, d) = IsSorted-split xs x ys s.1 in
    let (e, f) = AtLeast-append y.key xs (x ∷ ys) s.0 in ((e, a), (f.0, b), c, d)

insert_after-left :
    (x y : Item) (xs ys : List Item)
    → x.key < y.key
    → insert_after x (xs ++ y ∷ ys) ≡ insert_after x xs ++ y ∷ ys
unfolding insert_after
insert_after-left x y [] ys h =
    let e : ltb x.key y.key ≡ true = ground arith in rw (insert_after, e) refl
insert_after-left x y (z ∷ xs) ys h = elim (Bool-cases (ltb x.key z.key)) [
  | inl e ↦ rw (insert_after, e) refl
  | inr e ↦ rw (insert_after, e) (ap (λ r. z ∷ r) (insert_after-left x y xs ys h))
]

insert_after-right :
    (x y : Item) (xs ys : List Item)
    → AtMost y.key xs
    → y.key ≤ x.key
    → insert_after x (xs ++ y ∷ ys) ≡ xs ++ y ∷ insert_after x ys
unfolding insert_after
insert_after-right x y [] ys a h =
    let e : ltb x.key y.key ≡ false = ground arith in rw (insert_after, e) refl
insert_after-right x y (z ∷ xs) ys a h =
    let e : ltb x.key z.key ≡ false = ground (arith, a.0) in
    rw (insert_after, e) (ap (λ r. z ∷ r) (insert_after-right x y xs ys a.1 h))

-- The descent ends where the list insertion does.
descend-insert_after :
    (x : Item) (t : Tree) (path : List Frame)
    → IsSorted (inorder t)
    → let p = descend x.key t path in
      before p ++ x ∷ after p ≡ before path ++ insert_after x (inorder t) ++ after path
unfolding descend insert_after
descend-insert_after x leaf path s = sym (append_assoc (before path) (x ∷ []) (after path))
descend-insert_after x (node c l y r) path s =
    let (sl, al, ar, sr) = IsSorted-split (inorder l) y (inorder r) s in
    elim (Bool-cases (ltb x.key y.key)) [
      | inl e ↦
          rw (descend, e)
            (descend-insert_after x l (went_left c y r ∷ path) sl
              ∙ sym (
                  ap (λ m. before path ++ m ++ after path)
                    (insert_after-left x y (inorder l) (inorder r) (ground arith))
                  ∙ simp append_assoc refl))
      | inr e ↦
          rw (descend, e)
            (descend-insert_after x r (went_right c l y ∷ path) sr
              ∙ sym (
                  ap (λ m. before path ++ m ++ after path)
                    (insert_after-right x y (inorder l) (inorder r) al (ground arith))
                  ∙ simp append_assoc refl))
    ]

-- On a tree that is sorted by key, rb_insert puts the new node behind all nodes whose key is not
-- greater, and keeps the order of the others.
pub inorder-rb_insert :
    (x : Item) (t : Tree)
    → IsSorted (inorder t)
    → inorder (rb_insert x t) ≡ insert_after x (inorder t)
unfolding rb_insert
inorder-rb_insert x t s =
    let p = descend x.key t [] in
    inorder-rb_insert_fixup p (node red leaf x leaf)
    ∙ inorder-zip_up p (node red leaf x leaf)
    ∙ append_assoc (before p) (x ∷ []) (after p)
    ∙ descend-insert_after x t [] s
    ∙ append-nil _
