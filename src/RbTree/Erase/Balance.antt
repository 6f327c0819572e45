-- ===== src/RbTree/Erase/Balance.antt =====
-- rb_erase of kernel/rbtree.c keeps the balance.
use mathlib.Core.Path.{subst}
use aurora_os_live.Base.{
  ℕ, zero, suc, ◌≡◌, refl, sym, ap, ◌∙◌, inl, inr, Bool-cases, List, [], ◌∷◌, ◌++◌,
}
use aurora_os_live.RbTree.{
  Color, red, black, Item, Tree, leaf, node, Frame, went_left, went_right, set_color, zip_up,
}
use aurora_os_live.RbTree.Erase.{
  Round, go_up, rebalance, malformed, round, rotated, sibling_is_red, after_round, rb_erase_fixup,
  least, finish, rb_erase,
}
use aurora_os_live.RbTree.Erase.Removal.{zip_up-append}
use aurora_os_live.RbTree.Balance.{
  Good, IsRedBlack, Fits, MayTop, zip_up-IsRedBlack, zip_up-unzip, set_color-IsRedBlack,
  is_red-set_color,
}
use aurora_os_live.RbTree.Erase.Rounds.{
  Mended, Short, WentUp, RoundOk, color_of, round-RoundOk, rotated-Fits,
}

Mended-IsRedBlack :
    (t : Tree) (path : List Frame) → Mended t path → IsRedBlack (zip_up path (set_color black t))
Mended-IsRedBlack t path (r, k, g, f) =
    zip_up-IsRedBlack path (set_color black t) k g f (inl (is_red-set_color t))

after_round-IsRedBlack :
    (c : Color) (go : Tree → Tree) (f : Frame) (x : Tree) (path : List Frame) (r : Round)
    → ((t : Tree) → WentUp c t path → IsRedBlack (go t))
    → RoundOk c path r
    → IsRedBlack (after_round go f x path r)
unfolding after_round
after_round-IsRedBlack c go f x path (go_up t) h k = h t k
after_round-IsRedBlack c go f x path (rebalance t) h (k, g, fits, m) =
    set_color-IsRedBlack (zip_up path t) (zip_up-IsRedBlack path t k g fits m)
after_round-IsRedBlack c go f x path malformed h k = absurd k

-- Where a parent of this colour leads on to.
up_again :
    (c : Color) (path : List Frame)
    → ((t : Tree) → Mended t path → IsRedBlack (rb_erase_fixup t path))
    → ((t : Tree) → Short t path → IsRedBlack (rb_erase_fixup t path))
    → (t : Tree) → WentUp c t path
    → IsRedBlack (rb_erase_fixup t path)
up_again red path h k t w = h t w
up_again black path h k t w = k t w

fixup_red : (path : List Frame) (x : Tree) → Mended x path → IsRedBlack (rb_erase_fixup x path)
unfolding rb_erase_fixup
fixup_red [] x (r, k, g, f) = (k, g)
fixup_red (f ∷ path) x m = rw (rb_erase_fixup, m.0) (Mended-IsRedBlack x (f ∷ path) m)

fixup-Short : (path : List Frame) (x : Tree) → Short x path → IsRedBlack (rb_erase_fixup x path)
unfolding rb_erase_fixup
fixup-Short [] x (r, n, g, f) = set_color-IsRedBlack x (n, g)
fixup-Short (f ∷ path) x (r, n, g, fits) = elim (Bool-cases (sibling_is_red f)) [
  | inl s ↦
      let (fits', black', red') = rotated-Fits f path n s fits in
      let ok : RoundOk red ((rotated f).1 ∷ path) (round (rotated f).0 x) =
        subst (λ c. RoundOk c ((rotated f).1 ∷ path) (round (rotated f).0 x)) red'
          (round-RoundOk (rotated f).0 x ((rotated f).1 ∷ path) n black' g fits') in
      rw (rb_erase_fixup, r, s)
        (after_round-IsRedBlack red _ (rotated f).0 x ((rotated f).1 ∷ path) _
          (λ t m. Mended-IsRedBlack t ((rotated f).1 ∷ path) m) ok)
  | inr s ↦
      rw (rb_erase_fixup, r, s)
        (after_round-IsRedBlack (color_of f) _ f x path _
          (up_again (color_of f) path (fixup_red path) (fixup-Short path))
          (round-RoundOk f x path n s g fits))
]

fixup_black :
    (x : Tree) (path : List Frame) (n : ℕ)
    → Good x n
    → Fits path (suc n)
    → IsRedBlack (rb_erase_fixup x path)
fixup_black leaf path n g f = fixup-Short path leaf (refl, n, g, f)
fixup_black (node black l x r) path n g f = fixup-Short path (node black l x r) (refl, n, g, f)
fixup_black (node red l x r) path n g f =
    fixup_red path (node red l x r) (refl, suc n, (g.0, (g.1.2, g.1.3)), f)

-- A node with one child taken out, the other put in its place.
finish_right :
    (c : Color) (x : Item) (r : Tree) (path : List Frame)
    → IsRedBlack (zip_up path (node c leaf x r))
    → IsRedBlack (finish c r path)
finish_right c x r path b = go c (zip_up-unzip path (node c leaf x r) b)
  where
    go :
        (c : Color)
        → (n : ℕ) × Good (node c leaf x r) n × Fits path n × MayTop (node c leaf x r) path
        → IsRedBlack (finish c r path)
    go red (n, g, f, m) = zip_up-IsRedBlack path r n (g.0.1, g.1.3) f (inl g.1.1)
    go black (zero, g, f, m) = absurd g.0
    go black (suc n, g, f, m) = fixup_black r path n (g.0.1, g.1.1) f

finish_left :
    (c : Color) (l : Tree) (x : Item) (path : List Frame)
    → IsRedBlack (zip_up path (node c l x leaf))
    → IsRedBlack (finish c l path)
finish_left c l x path b = go c (zip_up-unzip path (node c l x leaf) b)
  where
    go :
        (c : Color)
        → (n : ℕ) × Good (node c l x leaf) n × Fits path n × MayTop (node c l x leaf) path
        → IsRedBlack (finish c l path)
    go red (n, g, f, m) = zip_up-IsRedBlack path l n (g.0.0, g.1.2) f (inl g.1.0)
    go black (zero, g, f, m) = absurd g.0
    go black (suc n, g, f, m) = fixup_black l path n (g.0.0, g.1.0) f

least-zip_up :
    (c : Color) (l : Tree) (x : Item) (r : Tree) (path : List Frame)
    → let m = least c l x r path in
      zip_up m.path (node m.color leaf m.item m.right) ≡ zip_up path (node c l x r)
unfolding least
least-zip_up c leaf x r path = refl
least-zip_up c (node d a y b) x r path = least-zip_up d a y b (went_left c x r ∷ path)

-- The balance does not depend on the item.
Good-item :
    (c : Color) (l r : Tree) (x y : Item) (n : ℕ) → Good (node c l x r) n → Good (node c l y r) n
Good-item red l r x y n g = g
Good-item black l r x y zero g = absurd g.0
Good-item black l r x y (suc n) g = g

MayTop-item :
    (c : Color) (l r : Tree) (x y : Item) (path : List Frame)
    → MayTop (node c l x r) path
    → MayTop (node c l y r) path
MayTop-item red l r x y path m = m
MayTop-item black l r x y path m = m

-- rb_erase keeps a tree in which no red node has a red child and all ways down meet the same number of
-- black nodes like that.
pub rb_erase-IsRedBlack :
    (c : Color) (l : Tree) (x : Item) (r : Tree) (path : List Frame)
    → IsRedBlack (zip_up path (node c l x r))
    → IsRedBlack (rb_erase c l r path)
unfolding rb_erase
rb_erase-IsRedBlack c leaf x r path b = finish_right c x r path b
rb_erase-IsRedBlack c (node d a y e) x leaf path b = finish_left c (node d a y e) x path b
rb_erase-IsRedBlack c (node d a y e) x (node h u z v) path b =
    let m = least h u z v [] in
    let (n, g, f, t) = zip_up-unzip path (node c (node d a y e) x (node h u z v)) b in
    let above = went_right c (node d a y e) m.item ∷ path in
    let swapped : IsRedBlack (zip_up path (node c (node d a y e) m.item (node h u z v))) =
      zip_up-IsRedBlack path (node c (node d a y e) m.item (node h u z v)) n
        (Good-item c (node d a y e) (node h u z v) x m.item n g) f
        (MayTop-item c (node d a y e) (node h u z v) x m.item path t) in
    let opened : zip_up (m.path ++ above) (node m.color leaf m.item m.right)
        ≡ zip_up path (node c (node d a y e) m.item (node h u z v)) =
      zip_up-append m.path above (node m.color leaf m.item m.right)
      ∙ ap (zip_up above) (least-zip_up h u z v []) in
    finish_right m.color m.item m.right (m.path ++ above) (subst IsRedBlack (sym opened) swapped)
