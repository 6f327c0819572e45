-- ===== src/RbTree/Erase/Removal.antt =====
-- rb_erase of kernel/rbtree.c takes out its node and keeps the order of the others.
use mathlib.Core.List.{append_assoc, append-nil}
use aurora_os_live.Base.{
  ◌≡◌, refl, sym, ap, ◌∙◌, true, false, inl, inr, Bool-cases, List, [], ◌∷◌, ◌++◌,
}
use aurora_os_live.RbTree.{
  Color, red, black, Item, Tree, leaf, node, Frame, went_left, went_right, is_red, set_color, plug,
  zip_up, rb_rotate_left, rb_rotate_right,
}
use aurora_os_live.RbTree.Order.{
  inorder, before, after, inorder-set_color, inorder-zip_up, inorder-zip_up_cong,
  inorder-rb_rotate_left, inorder-rb_rotate_right,
}
use aurora_os_live.RbTree.Erase.{
  Round, go_up, rebalance, malformed, case4_left, case3_left, case4_right, case3_right, round,
  rotated, sibling_is_red, after_round, rb_erase_fixup, least, finish, rb_erase,
}

case3_left-black :
    (a : Tree) (y : Item) (b : Tree)
    → is_red b ≡ false
    → case3_left a y b ≡ rb_rotate_right (node red (set_color black a) y b)
case3_left-black a y b e = rw (case3_left, e) refl

case3_left-red :
    (a : Tree) (y : Item) (b : Tree) → is_red b ≡ true → case3_left a y b ≡ node black a y b
case3_left-red a y b e = rw (case3_left, e) refl

case3_right-black :
    (a : Tree) (y : Item) (b : Tree)
    → is_red a ≡ false
    → case3_right a y b ≡ rb_rotate_left (node red a y (set_color black b))
case3_right-black a y b e = rw (case3_right, e) refl

case3_right-red :
    (a : Tree) (y : Item) (b : Tree) → is_red a ≡ true → case3_right a y b ≡ node black a y b
case3_right-red a y b e = rw (case3_right, e) refl

inorder-case3_left :
    (a : Tree) (y : Item) (b : Tree) → inorder (case3_left a y b) ≡ inorder a ++ y ∷ inorder b
inorder-case3_left a y b = elim (Bool-cases (is_red b)) [
  | inl e ↦ ap inorder (case3_left-red a y b e)
  | inr e ↦
      ap inorder (case3_left-black a y b e)
      ∙ inorder-rb_rotate_right (node red (set_color black a) y b)
      ∙ ap (λ m. m ++ y ∷ inorder b) (inorder-set_color black a)
]

inorder-case3_right :
    (a : Tree) (y : Item) (b : Tree) → inorder (case3_right a y b) ≡ inorder a ++ y ∷ inorder b
inorder-case3_right a y b = elim (Bool-cases (is_red a)) [
  | inl e ↦ ap inorder (case3_right-red a y b e)
  | inr e ↦
      ap inorder (case3_right-black a y b e)
      ∙ inorder-rb_rotate_left (node red a y (set_color black b))
      ∙ ap (λ m. inorder a ++ y ∷ m) (inorder-set_color black b)
]

inorder-case4_left :
    (c : Color) (x : Tree) (p : Item) (w : Tree)
    → inorder (case4_left c x p w) ≡ inorder x ++ p ∷ inorder w
inorder-case4_left c x p leaf = refl
inorder-case4_left c x p (node d a y b) =
    inorder-rb_rotate_left (node black x p (node c a y (set_color black b)))
    ∙ ap (λ m. inorder x ++ p ∷ (inorder a ++ y ∷ m)) (inorder-set_color black b)

inorder-case4_right :
    (c : Color) (w : Tree) (p : Item) (x : Tree)
    → inorder (case4_right c w p x) ≡ inorder w ++ p ∷ inorder x
inorder-case4_right c leaf p x = refl
inorder-case4_right c (node d a y b) p x =
    inorder-rb_rotate_right (node black (node c (set_color black a) y b) p x)
    ∙ ap (λ m. (m ++ y ∷ inorder b) ++ p ∷ inorder x) (inorder-set_color black a)

-- What a round leaves has the nodes of the parent's subtree in order.
abbrev KeepsOrder : List Item → Round → Type 0
KeepsOrder xs (go_up t) = inorder t ≡ xs
KeepsOrder xs (rebalance t) = inorder t ≡ xs
KeepsOrder xs malformed = Unit {0}

round-KeepsOrder : (f : Frame) (x : Tree) → KeepsOrder (inorder (plug f x)) (round f x)
unfolding round
round-KeepsOrder (went_left c p leaf) x = tt
round-KeepsOrder (went_left c p (node d a y b)) x =
    let done : inorder (case4_left c x p (case3_left a y b))
        ≡ inorder x ++ p ∷ (inorder a ++ y ∷ inorder b) =
      inorder-case4_left c x p (case3_left a y b)
      ∙ ap (λ m. inorder x ++ p ∷ m) (inorder-case3_left a y b) in
    elim (Bool-cases (is_red a)) [
      | inl e ↦ rw (round, e) done
      | inr e ↦ elim (Bool-cases (is_red b)) [
        | inl z ↦ rw (round, e, z) done
        | inr z ↦ rw (round, e, z) refl
      ]
    ]
round-KeepsOrder (went_right c leaf p) x = tt
round-KeepsOrder (went_right c (node d a y b) p) x =
    let done : inorder (case4_right c (case3_right a y b) p x)
        ≡ (inorder a ++ y ∷ inorder b) ++ p ∷ inorder x =
      inorder-case4_right c (case3_right a y b) p x
      ∙ ap (λ m. m ++ p ∷ inorder x) (inorder-case3_right a y b) in
    elim (Bool-cases (is_red a)) [
      | inl e ↦ rw (round, e) done
      | inr e ↦ elim (Bool-cases (is_red b)) [
        | inl z ↦ rw (round, e, z) done
        | inr z ↦ rw (round, e, z) refl
      ]
    ]

inorder-rotated :
    (f : Frame) (x : Tree)
    → sibling_is_red f ≡ true
    → inorder (plug (rotated f).1 (plug (rotated f).0 x)) ≡ inorder (plug f x)
inorder-rotated (went_left c p leaf) x e = cc
inorder-rotated (went_left c p (node d a y b)) x e = simp append_assoc refl
inorder-rotated (went_right c leaf p) x e = cc
inorder-rotated (went_right c (node d a y b) p) x e = simp append_assoc refl

inorder-after_round :
    (go : Tree → Tree) (f : Frame) (x : Tree) (path : List Frame) (r : Round)
    → ((t : Tree) → inorder (go t) ≡ inorder (zip_up path t))
    → KeepsOrder (inorder (plug f x)) r
    → inorder (after_round go f x path r) ≡ inorder (zip_up path (plug f x))
unfolding after_round
inorder-after_round go f x path (go_up t) h k = h t ∙ inorder-zip_up_cong path t (plug f x) k
inorder-after_round go f x path (rebalance t) h k =
    inorder-set_color black (zip_up path t) ∙ inorder-zip_up_cong path t (plug f x) k
inorder-after_round go f x path malformed h k =
    inorder-zip_up_cong (f ∷ path) (set_color black x) x (inorder-set_color black x)

pub inorder-rb_erase_fixup :
    (path : List Frame) (x : Tree) → inorder (rb_erase_fixup x path) ≡ inorder (zip_up path x)
unfolding rb_erase_fixup
inorder-rb_erase_fixup [] x = inorder-set_color black x
inorder-rb_erase_fixup (f ∷ path) x = elim (Bool-cases (is_red x)) [
  | inl e ↦
      rw (rb_erase_fixup, e)
        (inorder-zip_up_cong (f ∷ path) (set_color black x) x (inorder-set_color black x))
  | inr e ↦ elim (Bool-cases (sibling_is_red f)) [
    | inl z ↦
        rw (rb_erase_fixup, e, z)
          (inorder-after_round _ (rotated f).0 x ((rotated f).1 ∷ path) (round (rotated f).0 x)
              (λ t.
                inorder-zip_up_cong ((rotated f).1 ∷ path) (set_color black t) t
                  (inorder-set_color black t))
              (round-KeepsOrder (rotated f).0 x)
            ∙ inorder-zip_up_cong path _ _ (inorder-rotated f x z))
    | inr z ↦
        rw (rb_erase_fixup, e, z)
          (inorder-after_round _ f x path (round f x) (inorder-rb_erase_fixup path)
            (round-KeepsOrder f x))
  ]
]

pub inorder-finish :
    (c : Color) (x : Tree) (path : List Frame) → inorder (finish c x path) ≡ inorder (zip_up path x)
inorder-finish black x path = inorder-rb_erase_fixup path x
inorder-finish red x path = refl

pub zip_up-append :
    (path path' : List Frame) (t : Tree) → zip_up (path ++ path') t ≡ zip_up path' (zip_up path t)
zip_up-append [] path' t = refl
zip_up-append (f ∷ path) path' t = zip_up-append path path' (plug f t)

-- The least node comes first; what is left is the tree without it.
least-first :
    (c : Color) (l : Tree) (x : Item) (r : Tree) (path : List Frame)
    → let m = least c l x r path in
      before path ≡ []
      → inorder (zip_up path (node c l x r)) ≡ m.item ∷ inorder (zip_up m.path m.right)
unfolding least
least-first c leaf x r path e =
    inorder-zip_up path (node c leaf x r)
    ∙ ap (λ b. b ++ (x ∷ inorder r) ++ after path) e
    ∙ sym (ap (λ k. x ∷ k) (inorder-zip_up path r ∙ ap (λ b. b ++ inorder r ++ after path) e))
least-first c (node d a y b) x r path e = least-first d a y b (went_left c x r ∷ path) e

-- rb_erase takes out the node, with its children `l` and `r`, and keeps the order of all others.
pub inorder-rb_erase :
    (c : Color) (l r : Tree) (path : List Frame)
    → inorder (rb_erase c l r path) ≡ before path ++ (inorder l ++ inorder r) ++ after path
unfolding rb_erase
inorder-rb_erase c leaf r path = inorder-finish c r path ∙ inorder-zip_up path r
inorder-rb_erase c (node d a x b) leaf path =
    inorder-finish c (node d a x b) path
    ∙ inorder-zip_up path (node d a x b)
    ∙ ap (λ k. before path ++ k ++ after path) (sym (append-nil (inorder (node d a x b))))
inorder-rb_erase c (node d a x b) (node e u y v) path =
    let m = least e u y v [] in
    let above = m.path ++ went_right c (node d a x b) m.item ∷ path in
    inorder-finish m.color m.right above
    ∙ ap inorder (zip_up-append m.path (went_right c (node d a x b) m.item ∷ path) m.right)
    ∙ inorder-zip_up path (node c (node d a x b) m.item (zip_up m.path m.right))
    ∙ ap (λ k. before path ++ (inorder (node d a x b) ++ k) ++ after path)
        (sym (least-first e u y v [] refl))
