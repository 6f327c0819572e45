-- ===== src/RbTree/Search.antt =====
-- The searches of kernel/rbtree.c. A pointer to a node is its place: the node's parts and its ancestors.
pub mod Walk
use aurora_os_live.Base.{ℕ, Option, none, some, List, [], ◌∷◌, Bool, true, false, ltb}
use aurora_os_live.RbTree.{Color, Item, Tree, leaf, node, Frame, went_left, went_right}

pub record Place : Type 0 where
  pub color : Color
  pub left : Tree
  pub item : Item
  pub right : Tree
  pub path : List Frame

-- The least node of a subtree under some ancestors; `rb_find_min` is this from the root.
unfoldable pub leftmost : Tree → List Frame → Option Place
leftmost leaf path = none
leftmost (node c leaf x r) path =
    some (record { color = c; left = leaf; item = x; right = r; path = path })
leftmost (node c (node d a y b) x r) path = leftmost (node d a y b) (went_left c x r ∷ path)

abbrev pub rb_find_min : Tree → Option Place
rb_find_min t = leftmost t []

abbrev pub rb_first : Tree → Option Place
rb_first t = rb_find_min t

unfoldable pub rb_find : ℕ → Tree → List Frame → Option Place
rb_find k leaf path = none
rb_find k (node c l x r) path = elim (ltb k x.key) [
  | true ↦ rb_find k l (went_left c x r ∷ path)
  | false ↦ elim (ltb x.key k) [
    | true ↦ rb_find k r (went_right c l x ∷ path)
    | false ↦ some (record { color = c; left = l; item = x; right = r; path = path })
  ]
]

-- Up to the first ancestor that has the node on its left, from a subtree.
unfoldable pub go_up_right : Tree → List Frame → Option Place
go_up_right t [] = none
go_up_right t (went_left c x r ∷ path) =
    some (record { color = c; left = t; item = x; right = r; path = path })
go_up_right t (went_right c l x ∷ path) = go_up_right (node c l x t) path

unfoldable pub next_of : Color → Tree → Item → Tree → List Frame → Option Place
next_of c l x leaf path = go_up_right (node c l x leaf) path
next_of c l x (node d a y b) path = leftmost (node d a y b) (went_right c l x ∷ path)

abbrev pub rb_next : Place → Option Place
rb_next p = next_of p.color p.left p.item p.right p.path
