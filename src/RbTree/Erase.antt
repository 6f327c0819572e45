-- ===== src/RbTree/Erase.antt =====
-- rb_erase of kernel/rbtree.c.
pub mod Removal
pub mod Rounds
pub mod Balance
use aurora_os_live.Base.{ℕ, Bool, true, false, ◌&&◌, not, List, [], ◌∷◌, ◌++◌}
use aurora_os_live.RbTree.{
  Color, red, black, Item, Tree, leaf, node, Frame, went_left, went_right, is_red, set_color, plug,
  zip_up, rb_rotate_left, rb_rotate_right,
}

-- How a round of the loop ends, once the sibling is black: at the parent, to go on from there; with the
-- subtree in place of the parent, rebalanced; or at a missing sibling.
pub data Round : Type 0 where
  go_up : Tree → Round
  rebalance : Tree → Round
  malformed : Round

-- Cases 3 and 4, with `x` on the left: `w` is the sibling, `c` the parent's colour.
abbrev pub case4_left : Color → Tree → Item → Tree → Tree
case4_left c x p leaf = node c x p leaf
case4_left c x p (node d a y b) = rb_rotate_left (node black x p (node c a y (set_color black b)))

abbrev pub case3_left : Tree → Item → Tree → Tree
case3_left a y b = elim (is_red b) [
  | false ↦ rb_rotate_right (node red (set_color black a) y b)
  | true ↦ node black a y b
]

abbrev pub case4_right : Color → Tree → Item → Tree → Tree
case4_right c leaf p x = node c leaf p x
case4_right c (node d a y b) p x = rb_rotate_right (node black (node c (set_color black a) y b) p x)

abbrev pub case3_right : Tree → Item → Tree → Tree
case3_right a y b = elim (is_red a) [
  | false ↦ rb_rotate_left (node red a y (set_color black b))
  | true ↦ node black a y b
]

-- Cases 2 to 4.
unfoldable pub round : Frame → Tree → Round
round (went_left c p leaf) x = malformed
round (went_left c p (node d a y b)) x = elim (is_red a) [
  | true ↦ rebalance (case4_left c x p (case3_left a y b))
  | false ↦ elim (is_red b) [
    | true ↦ rebalance (case4_left c x p (case3_left a y b))
    | false ↦ go_up (node c x p (node red a y b))
  ]
]
round (went_right c leaf p) x = malformed
round (went_right c (node d a y b) p) x = elim (is_red a) [
  | true ↦ rebalance (case4_right c (case3_right a y b) p x)
  | false ↦ elim (is_red b) [
    | true ↦ rebalance (case4_right c (case3_right a y b) p x)
    | false ↦ go_up (node c (node red a y b) p x)
  ]
]

-- Case 1: the parent's frame and the one above it after the rotation.
abbrev pub rotated : Frame → Frame × Frame
rotated (went_left c p (node d a y b)) = (went_left red p a, went_left black y b)
rotated (went_right c (node d a y b) p) = (went_right red b p, went_right black a y)
rotated f = (f, f)

abbrev pub sibling_is_red : Frame → Bool
sibling_is_red (went_left c p w) = is_red w
sibling_is_red (went_right c w p) = is_red w

-- What follows a round at frame `f` under `path`, where `go` goes on from the parent.
unfoldable pub after_round : (Tree → Tree) → Frame → Tree → List Frame → Round → Tree
after_round go f x path (go_up t) = go t
after_round go f x path (rebalance t) = set_color black (zip_up path t)
after_round go f x path malformed = zip_up (f ∷ path) (set_color black x)

-- The loop. A case 1 makes the parent red, so that the loop ends there if it goes up.
unfoldable pub rb_erase_fixup : Tree → List Frame → Tree
rb_erase_fixup x [] = set_color black x
rb_erase_fixup x (f ∷ path) = elim (is_red x) [
  | true ↦ zip_up (f ∷ path) (set_color black x)
  | false ↦ elim (sibling_is_red f) [
    | true ↦
        let (f', g) = rotated f in
        after_round (λ t. zip_up (g ∷ path) (set_color black t)) f' x (g ∷ path) (round f' x)
    | false ↦ after_round (λ t. rb_erase_fixup t path) f x path (round f x)
  ]
]

-- The node with the least key of a tree: its colour, itself, its right child and the way to it.
pub record Least : Type 0 where
  pub color : Color
  pub item : Item
  pub right : Tree
  pub path : List Frame

-- `while (y->left) y = y->left`, from a node on.
unfoldable pub least : Color → Tree → Item → Tree → List Frame → Least
least c leaf x r path = record { color = c; item = x; right = r; path = path }
least c (node d a y b) x r path = least d a y b (went_left c x r ∷ path)

abbrev pub finish : Color → Tree → List Frame → Tree
finish black x path = rb_erase_fixup x path
finish red x path = zip_up path x

-- The node to erase has colour `c`, children `l` and `r`, and stands under `path`.
unfoldable pub rb_erase : Color → Tree → Tree → List Frame → Tree
rb_erase c leaf r path = finish c r path
rb_erase c (node d a x b) leaf path = finish c (node d a x b) path
rb_erase c (node d a x b) (node e u y v) path =
    let m = least e u y v [] in
    finish m.color m.right (m.path ++ (went_right c (node d a x b) m.item ∷ path))
