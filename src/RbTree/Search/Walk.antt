-- ===== src/RbTree/Search/Walk.antt =====
-- rb_find_min and rb_next of kernel/rbtree.c visit the nodes in order.
use mathlib.Core.List.{append_assoc}
use aurora_os_live.Base.{◌≡◌, refl, ◌∙◌, none, some, List, [], ◌∷◌, ◌++◌, Option}
use aurora_os_live.RbTree.{Color, Item, Tree, leaf, node, Frame, went_left, went_right}
use aurora_os_live.RbTree.Order.{inorder, after}
use aurora_os_live.RbTree.Search.{Place, leftmost, go_up_right, next_of, rb_next}

-- What comes after a place, and from a search's result on.
abbrev pub following : Place → List Item
following p = inorder p.right ++ after p.path

abbrev pub remaining : Option Place → List Item
remaining none = []
remaining (some p) = p.item ∷ following p

pub remaining-leftmost :
    (c : Color) (l : Tree) (x : Item) (r : Tree) (path : List Frame)
    → remaining (leftmost (node c l x r) path) ≡ inorder (node c l x r) ++ after path
unfolding leftmost
remaining-leftmost c leaf x r path = refl
remaining-leftmost c (node d a y b) x r path =
    remaining-leftmost d a y b (went_left c x r ∷ path) ∙ simp append_assoc refl

remaining-go_up_right : (t : Tree) (path : List Frame) → remaining (go_up_right t path) ≡ after path
unfolding go_up_right
remaining-go_up_right t [] = refl
remaining-go_up_right t (went_left c x r ∷ path) = refl
remaining-go_up_right t (went_right c l x ∷ path) = remaining-go_up_right (node c l x t) path

remaining-next_of :
    (c : Color) (l : Tree) (x : Item) (r : Tree) (path : List Frame)
    → remaining (next_of c l x r path) ≡ inorder r ++ after path
unfolding next_of
remaining-next_of c l x leaf path = remaining-go_up_right (node c l x leaf) path
remaining-next_of c l x (node d a y b) path = remaining-leftmost d a y b (went_right c l x ∷ path)

pub remaining-rb_next : (p : Place) → remaining (rb_next p) ≡ following p
remaining-rb_next p = remaining-next_of p.color p.left p.item p.right p.path
