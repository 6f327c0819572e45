-- ===== src/RbTree/Order.antt =====
-- The nodes of a tree of kernel/rbtree.c in order: rotations, recolouring and both repair loops keep
-- them.
use mathlib.Core.List.{append_assoc, append-nil}
use aurora_os_live.Base.{◌≡◌, refl, sym, ap, ap₂, ◌∙◌, inl, inr, Bool-cases, List, [], ◌∷◌, ◌++◌}
use aurora_os_live.RbTree.{
  Color, black, Item, Tree, leaf, node, Frame, went_left, went_right, is_red, is_red_frame,
  set_color, plug, zip_up, rb_rotate_left, rb_rotate_right, sibling, recolored, straighten_left,
  straighten_right, rebalanced, rb_insert_fixup,
}

abbrev pub inorder : Tree → List Item
inorder leaf = []
inorder (node c l x r) = inorder l ++ x ∷ inorder r

-- What stands before and after the subtree under a list of ancestors.
abbrev pub before : List Frame → List Item
before [] = []
before (went_left c x r ∷ path) = before path
before (went_right c l x ∷ path) = before path ++ inorder l ++ x ∷ []

abbrev pub after : List Frame → List Item
after [] = []
after (went_left c x r ∷ path) = x ∷ inorder r ++ after path
after (went_right c l x ∷ path) = after path

pub inorder-set_color : (c : Color) (t : Tree) → inorder (set_color c t) ≡ inorder t
inorder-set_color c leaf = refl
inorder-set_color c (node d l x r) = refl

pub inorder-zip_up :
    (path : List Frame) (t : Tree)
    → inorder (zip_up path t) ≡ before path ++ inorder t ++ after path
inorder-zip_up [] t = sym (append-nil _)
inorder-zip_up (went_left c x r ∷ path) t =
    inorder-zip_up path (node c t x r) ∙ simp append_assoc refl
inorder-zip_up (went_right c l x ∷ path) t =
    inorder-zip_up path (node c l x t) ∙ simp append_assoc refl

pub inorder-zip_up_cong :
    (path : List Frame) (t t' : Tree)
    → inorder t ≡ inorder t'
    → inorder (zip_up path t) ≡ inorder (zip_up path t')
inorder-zip_up_cong path t t' e =
    inorder-zip_up path t
    ∙ ap (λ m. before path ++ m ++ after path) e
    ∙ sym (inorder-zip_up path t')

pub inorder-rb_rotate_left : (t : Tree) → inorder (rb_rotate_left t) ≡ inorder t
unfolding rb_rotate_left
inorder-rb_rotate_left leaf = refl
inorder-rb_rotate_left (node c a x leaf) = refl
inorder-rb_rotate_left (node c a x (node d b y e)) = simp append_assoc refl

pub inorder-rb_rotate_right : (t : Tree) → inorder (rb_rotate_right t) ≡ inorder t
unfolding rb_rotate_right
inorder-rb_rotate_right leaf = refl
inorder-rb_rotate_right (node c leaf y e) = refl
inorder-rb_rotate_right (node c (node d a x b) y e) = simp append_assoc refl

pub inorder-plug_cong :
    (f : Frame) (t t' : Tree) → inorder t ≡ inorder t' → inorder (plug f t) ≡ inorder (plug f t')
inorder-plug_cong (went_left c x r) t t' e = ap (λ m. m ++ x ∷ inorder r) e
inorder-plug_cong (went_right c l x) t t' e = ap (λ m. inorder l ++ x ∷ m) e

inorder-recolored :
    (f g : Frame) (t : Tree) → inorder (recolored f g t) ≡ inorder (plug g (plug f t))
inorder-recolored f (went_left c x u) t =
    ap₂ (λ m n. m ++ x ∷ n) (inorder-set_color black (plug f t)) (inorder-set_color black u)
inorder-recolored f (went_right c u x) t =
    ap₂ (λ m n. m ++ x ∷ n) (inorder-set_color black u) (inorder-set_color black (plug f t))

inorder-straighten_left :
    (f : Frame) (t : Tree) → inorder (straighten_left f t) ≡ inorder (plug f t)
unfolding straighten_left
inorder-straighten_left (went_left c x r) t = refl
inorder-straighten_left (went_right c l x) t = inorder-rb_rotate_left _

inorder-straighten_right :
    (f : Frame) (t : Tree) → inorder (straighten_right f t) ≡ inorder (plug f t)
unfolding straighten_right
inorder-straighten_right (went_left c x r) t = inorder-rb_rotate_right _
inorder-straighten_right (went_right c l x) t = refl

inorder-rebalanced :
    (f g : Frame) (t : Tree) → inorder (rebalanced f g t) ≡ inorder (plug g (plug f t))
unfolding rebalanced
inorder-rebalanced f (went_left c x u) t =
    inorder-rb_rotate_right _
    ∙ ap (λ m. m ++ x ∷ inorder u)
        (inorder-set_color black (straighten_left f t) ∙ inorder-straighten_left f t)
inorder-rebalanced f (went_right c u x) t =
    inorder-rb_rotate_left _
    ∙ ap (λ m. inorder u ++ x ∷ m)
        (inorder-set_color black (straighten_right f t) ∙ inorder-straighten_right f t)

pub inorder-rb_insert_fixup :
    (path : List Frame) (t : Tree) → inorder (rb_insert_fixup t path) ≡ inorder (zip_up path t)
unfolding rb_insert_fixup
inorder-rb_insert_fixup [] t = inorder-set_color black t
inorder-rb_insert_fixup (f ∷ []) t = inorder-set_color black (plug f t)
inorder-rb_insert_fixup (f ∷ g ∷ path) t = elim (Bool-cases (is_red_frame f)) [
  | inr e ↦ rw (rb_insert_fixup, e) (inorder-set_color black (zip_up path (plug g (plug f t))))
  | inl e ↦ elim (Bool-cases (is_red (sibling g))) [
    | inl z ↦
        rw (rb_insert_fixup, e, z)
          (inorder-rb_insert_fixup path (recolored f g t)
            ∙ inorder-zip_up_cong path _ _ (inorder-recolored f g t))
    | inr z ↦
        rw (rb_insert_fixup, e, z)
          (inorder-set_color black (zip_up path (rebalanced f g t))
            ∙ inorder-zip_up_cong path (rebalanced f g t) (plug g (plug f t))
                (inorder-rebalanced f g t))
  ]
]
