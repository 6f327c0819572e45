-- ===== src/RbTree/Tests.antt =====
-- Runs of the red-black tree, and the theorems at concrete trees.
use aurora_os_live.Base.{ℕ, ◌+◌, ◌≡◌, refl, false, Option, none, some, [], ◌∷◌, arith}
use aurora_os_live.RbTree.{
  red, black, Item, Tree, leaf, node, went_left, is_red, descend, rb_insert, rb_insert_fixup,
  rb_rotate_left, rb_rotate_right, rebalanced, straighten_left,
}
use aurora_os_live.RbTree.Erase.{rb_erase, rb_erase_fixup, round, after_round}
use aurora_os_live.RbTree.Search.{Place, leftmost, rb_first, rb_find, next_of, go_up_right}
use aurora_os_live.RbTree.Order.{inorder}
use aurora_os_live.RbTree.Insertion.{insert_after, inorder-rb_insert}
use aurora_os_live.RbTree.Balance.{IsRedBlack}
use aurora_os_live.RbTree.Balance.Insert.{rb_insert-IsRedBlack}
use aurora_os_live.RbTree.Erase.Removal.{inorder-rb_erase}
use aurora_os_live.RbTree.Erase.Balance.{rb_erase-IsRedBlack}

abbrev item : ℕ → Item
item k = record { address = 0x1000 + k; key = k }

abbrev one : ℕ → Tree
one k = node red leaf (item k) leaf

abbrev pair : Tree
pair = node black (one 10) (item 20) leaf

-- Case 3 of the repair: 5 comes under 10, and 10 goes up.
rotated_pair : rb_insert (item 5) pair ≡ node black (one 5) (item 10) (one 20)
unfolding rb_insert rb_insert_fixup descend rebalanced straighten_left rb_rotate_left
    rb_rotate_right
rotated_pair = refl

-- Cases 2 and 3: 15 comes between.
inner_pair : rb_insert (item 15) pair ≡ node black (one 10) (item 15) (one 20)
unfolding rb_insert rb_insert_fixup descend rebalanced straighten_left rb_rotate_left
    rb_rotate_right
inner_pair = refl

-- 10 goes out of a tree of black nodes whose right one has a red child.
abbrev trunk : Tree
trunk = node black leaf (item 30) (one 40)

erased_left :
    rb_erase black leaf leaf (went_left black (item 20) trunk ∷ [])
    ≡ node black (node black leaf (item 20) leaf) (item 30) (node black leaf (item 40) leaf)
unfolding rb_erase rb_erase_fixup round after_round rb_rotate_left
erased_left = refl

abbrev full : Tree
full = node black (node black leaf (item 10) leaf) (item 20) trunk

abbrev item_of : Option Place → Option Item
item_of none = none
item_of (some p) = some p.item

found : item_of (rb_find 40 full []) ≡ some (item 40)
unfolding rb_find
found = refl

first : item_of (rb_first full) ≡ some (item 10)
unfolding leftmost
first = refl

successor :
    item_of (next_of black leaf (item 10) leaf (went_left black (item 20) trunk ∷ []))
    ≡ some (item 20)
unfolding next_of go_up_right
successor = refl

inorder-rb_insert_example :
    inorder (rb_insert (item 15) pair) ≡ insert_after (item 15) (item 10 ∷ item 20 ∷ [])
inorder-rb_insert_example = inorder-rb_insert (item 15) pair ((omega arith, tt), (tt, tt))

rb_insert-IsRedBlack_example :
    IsRedBlack (rb_insert (item 15) pair) × (is_red (rb_insert (item 15) pair) ≡ false)
rb_insert-IsRedBlack_example =
    rb_insert-IsRedBlack (item 15) pair (1, (((refl, refl), refl), ((refl, refl, tt, tt), tt)))

inorder-rb_erase_example :
    inorder (rb_erase black leaf leaf (went_left black (item 20) trunk ∷ []))
    ≡ item 20 ∷ item 30 ∷ item 40 ∷ []
inorder-rb_erase_example = inorder-rb_erase black leaf leaf (went_left black (item 20) trunk ∷ [])

rb_erase-IsRedBlack_example :
    IsRedBlack (rb_erase black leaf leaf (went_left black (item 20) trunk ∷ []))
rb_erase-IsRedBlack_example =
    rb_erase-IsRedBlack black leaf (item 10) leaf (went_left black (item 20) trunk ∷ [])
      (2, (((refl, refl), (refl, (refl, refl))), ((tt, tt), (tt, (refl, refl, tt, tt)))))
