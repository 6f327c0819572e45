-- ===== src/RbTree.antt =====
-- The red-black tree of the scheduler, kernel/rbtree.c and kernel/rbtree.h. The parent pointers are
-- modelled by a zipper: a node in the tree is a subtree with the list of its ancestors, the parent
-- first, each with the side that the node is on, the ancestor's colour and its other child. A node is
-- its address and its key. Log output is left out.
pub mod Erase
pub mod Search
pub mod Order
pub mod Insertion
pub mod Balance
mod Tests
use aurora_os_live.Base.{ℕ, Bool, true, false, not, ◌&&◌, List, [], ◌∷◌, ltb, if◌then◌else◌}

pub data Color : Type 0 where
  red black : Color

pub record Item : Type 0 where
  pub address : ℕ
  pub key : ℕ

-- NULL is `leaf`.
pub data Tree : Type 0 where
  leaf : Tree
  node : Color → Tree → Item → Tree → Tree

-- An ancestor: it has the node on the left, or on the right.
pub data Frame : Type 0 where
  went_left : Color → Item → Tree → Frame
  went_right : Color → Tree → Item → Frame

abbrev pub is_red : Tree → Bool
is_red (node red l x r) = true
is_red _ = false

abbrev pub is_red_frame : Frame → Bool
is_red_frame (went_left red x r) = true
is_red_frame (went_right red l x) = true
is_red_frame _ = false

abbrev pub set_color : Color → Tree → Tree
set_color c leaf = leaf
set_color c (node c' l x r) = node c l x r

-- One ancestor, and all of them, put back over a subtree.
abbrev pub plug : Frame → Tree → Tree
plug (went_left c x r) t = node c t x r
plug (went_right c l x) t = node c l x t

abbrev pub zip_up : List Frame → Tree → Tree
zip_up [] t = t
zip_up (f ∷ path) t = zip_up path (plug f t)

pub rb_rotate_left : Tree → Tree
rb_rotate_left (node c a x (node d b y e)) = node d (node c a x b) y e
rb_rotate_left t = t

pub rb_rotate_right : Tree → Tree
rb_rotate_right (node c (node d a x b) y e) = node d a x (node c b y e)
rb_rotate_right t = t

-- The grandparent's other child.
abbrev pub sibling : Frame → Tree
sibling (went_left c x r) = r
sibling (went_right c l x) = l

-- Case 1: parent and uncle black, grandparent red.
abbrev pub recolored : Frame → Frame → Tree → Tree
recolored f (went_left c x u) t = node red (set_color black (plug f t)) x (set_color black u)
recolored f (went_right c u x) t = node red (set_color black u) x (set_color black (plug f t))

-- Case 2: the parent, after its rotation where the node is an inner grandchild.
pub straighten_left : Frame → Tree → Tree
straighten_left (went_left c x r) t = plug (went_left c x r) t
straighten_left (went_right c l x) t = rb_rotate_left (plug (went_right c l x) t)

pub straighten_right : Frame → Tree → Tree
straighten_right (went_left c x r) t = rb_rotate_right (plug (went_left c x r) t)
straighten_right (went_right c l x) t = plug (went_right c l x) t

-- Cases 2 and 3.
pub rebalanced : Frame → Frame → Tree → Tree
rebalanced f (went_left c x u) t =
    rb_rotate_right (node red (set_color black (straighten_left f t)) x u)
rebalanced f (went_right c u x) t =
    rb_rotate_left (node red u x (set_color black (straighten_right f t)))

-- The loop from a red node on, and the root made black. After cases 2 and 3 the parent is black, so
-- that the loop ends.
pub rb_insert_fixup : Tree → List Frame → Tree
rb_insert_fixup t [] = set_color black t
rb_insert_fixup t (f ∷ []) = set_color black (plug f t)
rb_insert_fixup t (f ∷ g ∷ path) = elim (is_red_frame f) [
  | false ↦ set_color black (zip_up path (plug g (plug f t)))
  | true ↦ elim (is_red (sibling g)) [
    | true ↦ rb_insert_fixup (recolored f g t) path
    | false ↦ set_color black (zip_up path (rebalanced f g t))
  ]
]

-- The way down to the place of a new node.
pub descend : ℕ → Tree → List Frame → List Frame
descend k leaf path = path
descend k (node c l x r) path = elim (ltb k x.key) [
  | true ↦ descend k l (went_left c x r ∷ path)
  | false ↦ descend k r (went_right c l x ∷ path)
]

pub rb_insert : Item → Tree → Tree
rb_insert x t = rb_insert_fixup (node red leaf x leaf) (descend x.key t [])
