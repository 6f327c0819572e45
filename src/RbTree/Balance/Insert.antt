-- ===== src/RbTree/Balance/Insert.antt =====
-- rb_insert of kernel/rbtree.c keeps the balance.
use mathlib.Core.Path.{subst}
use aurora_os_live.Base.{
  ℕ, zero, suc, ◌≡◌, refl, inl, inr, true, false, Bool-cases, List, [], ◌∷◌, ltb,
}
use aurora_os_live.RbTree.{
  red, black, Item, Tree, leaf, node, Frame, went_left, went_right, is_red, is_red_frame, set_color,
  plug, zip_up, rb_rotate_left, rb_rotate_right, sibling, recolored, straighten_left,
  straighten_right, rebalanced, rb_insert_fixup, descend, rb_insert,
}
use aurora_os_live.RbTree.Balance.{
  Good, IsRedBlack, Fits, MayTop, zip_up-IsRedBlack, set_color-IsRedBlack, is_red-set_color,
}

-- Case 1, at a red uncle.
recolored-Good :
    (f g : Frame) (path : List Frame) (t : Tree) (n : ℕ)
    → Good t n
    → Fits (f ∷ g ∷ path) n
    → is_red_frame f ≡ true
    → is_red (sibling g) ≡ true
    → Good (recolored f g t) (suc n) × Fits path (suc n)
recolored-Good (went_left black x s) g path t n gt f e u = cc
recolored-Good (went_right black s x) g path t n gt f e u = cc
recolored-Good (went_left red x s) (went_left red y v) path t n gt ((b, gs, top), f) e u = cc
recolored-Good (went_left red x s) (went_right red v y) path t n gt ((b, gs, top), f) e u = cc
recolored-Good (went_right red s x) (went_left red y v) path t n gt ((b, gs, top), f) e u = cc
recolored-Good (went_right red s x) (went_right red v y) path t n gt ((b, gs, top), f) e u = cc
recolored-Good (went_left red x s) (went_left black y leaf) path t n gt f e u = cc
recolored-Good (went_left red x s) (went_left black y (node black a z b)) path t n gt f e u = cc
recolored-Good (went_left red x s) (went_left black y (node red a z b)) path t n gt
      ((c, gs, top), (gu, f)) e u =
    ((((gt.0, gs.0), gu.0), (refl, refl, (gt.1, gs.1), (gu.1.2, gu.1.3))), f)
recolored-Good (went_right red s x) (went_left black y leaf) path t n gt f e u = cc
recolored-Good (went_right red s x) (went_left black y (node black a z b)) path t n gt f e u = cc
recolored-Good (went_right red s x) (went_left black y (node red a z b)) path t n gt
      ((c, gs, top), (gu, f)) e u =
    ((((gs.0, gt.0), gu.0), (refl, refl, (gs.1, gt.1), (gu.1.2, gu.1.3))), f)
recolored-Good (went_left red x s) (went_right black leaf y) path t n gt f e u = cc
recolored-Good (went_left red x s) (went_right black (node black a z b) y) path t n gt f e u = cc
recolored-Good (went_left red x s) (went_right black (node red a z b) y) path t n gt
      ((c, gs, top), (gu, f)) e u =
    (((gu.0, (gt.0, gs.0)), (refl, refl, (gu.1.2, gu.1.3), (gt.1, gs.1))), f)
recolored-Good (went_right red s x) (went_right black leaf y) path t n gt f e u = cc
recolored-Good (went_right red s x) (went_right black (node black a z b) y) path t n gt f e u = cc
recolored-Good (went_right red s x) (went_right black (node red a z b) y) path t n gt
      ((c, gs, top), (gu, f)) e u =
    (((gu.0, (gs.0, gt.0)), (refl, refl, (gu.1.2, gu.1.3), (gs.1, gt.1))), f)

-- Cases 2 and 3, at a black uncle: the new root of the subtree is black.
rebalanced-Good :
    (f g : Frame) (path : List Frame) (a : Tree) (y : Item) (b : Tree) (n : ℕ)
    → Good (node red a y b) n
    → Fits (f ∷ g ∷ path) n
    → is_red_frame f ≡ true
    → is_red (sibling g) ≡ false
    → Good (rebalanced f g (node red a y b)) (suc n)
      × Fits path (suc n)
      × (is_red (rebalanced f g (node red a y b)) ≡ false)
unfolding rebalanced straighten_left straighten_right rb_rotate_left rb_rotate_right
rebalanced-Good (went_left black x s) g path a y b n gt f e u = cc
rebalanced-Good (went_right black s x) g path a y b n gt f e u = cc
rebalanced-Good (went_left red x s) (went_left red z v) path a y b n gt ((d, gs, top), f) e u = cc
rebalanced-Good (went_left red x s) (went_right red v z) path a y b n gt ((d, gs, top), f) e u = cc
rebalanced-Good (went_right red s x) (went_left red z v) path a y b n gt ((d, gs, top), f) e u = cc
rebalanced-Good (went_right red s x) (went_right red v z) path a y b n gt ((d, gs, top), f) e u = cc
rebalanced-Good (went_left red x s) (went_left black z v) path a y b n gt ((d, gs, top), (gv, f)) e
      u =
    (((gt.0, (gs.0, gv.0)), (gt.1, (d, u, gs.1, gv.1))), f, refl)
rebalanced-Good (went_right red s x) (went_left black z v) path a y b n gt ((d, gs, top), (gv, f)) e
      u =
    (
      (((gs.0, gt.0.0), (gt.0.1, gv.0)), ((d, gt.1.0, gs.1, gt.1.2), (gt.1.1, u, gt.1.3, gv.1))),
      f,
      refl,
    )
rebalanced-Good (went_right red s x) (went_right black v z) path a y b n gt ((d, gs, top), (gv, f))
      e u =
    ((((gv.0, gs.0), gt.0), ((u, d, gv.1, gs.1), gt.1)), f, refl)
rebalanced-Good (went_left red x s) (went_right black v z) path a y b n gt ((d, gs, top), (gv, f)) e
      u =
    (
      (((gv.0, gt.0.0), (gt.0.1, gs.0)), ((u, gt.1.0, gv.1, gt.1.2), (gt.1.1, d, gt.1.3, gs.1))),
      f,
      refl,
    )

rebalanced-red :
    (f g : Frame) (path : List Frame) (t : Tree) (n : ℕ)
    → is_red t ≡ true
    → Good t n
    → Fits (f ∷ g ∷ path) n
    → is_red_frame f ≡ true
    → is_red (sibling g) ≡ false
    → Good (rebalanced f g t) (suc n) × Fits path (suc n) × (is_red (rebalanced f g t) ≡ false)
rebalanced-red f g path leaf n r gt fits e u = cc
rebalanced-red f g path (node black a y b) n r gt fits e u = cc
rebalanced-red f g path (node red a y b) n r gt fits e u =
    rebalanced-Good f g path a y b n gt fits e u

is_red-recolored : (f g : Frame) (t : Tree) → is_red (recolored f g t) ≡ true
is_red-recolored f (went_left c x u) t = refl
is_red-recolored f (went_right c u x) t = refl

plug-IsRedBlack :
    (f : Frame) (t : Tree) (n : ℕ)
    → Good t n
    → Fits (f ∷ []) n
    → IsRedBlack (set_color black (plug f t))
plug-IsRedBlack (went_left red x s) t n g ((b, gs, top), f) = (suc n, ((g.0, gs.0), (g.1, gs.1)))
plug-IsRedBlack (went_right red s x) t n g ((b, gs, top), f) = (suc n, ((gs.0, g.0), (gs.1, g.1)))
plug-IsRedBlack (went_left black x s) t n g (gs, f) = (suc n, ((g.0, gs.0), (g.1, gs.1)))
plug-IsRedBlack (went_right black s x) t n g (gs, f) = (suc n, ((gs.0, g.0), (gs.1, g.1)))

-- The loop, from a red node on.
rb_insert_fixup-IsRedBlack :
    (path : List Frame) (t : Tree) (n : ℕ)
    → is_red t ≡ true
    → Good t n
    → Fits path n
    → IsRedBlack (rb_insert_fixup t path)
unfolding rb_insert_fixup
rb_insert_fixup-IsRedBlack [] t n r g fits = set_color-IsRedBlack t (n, g)
rb_insert_fixup-IsRedBlack (f ∷ []) t n r g fits = plug-IsRedBlack f t n g fits
rb_insert_fixup-IsRedBlack (f ∷ h ∷ path) t n r g fits = elim (Bool-cases (is_red_frame f)) [
  | inr e ↦
      rw (rb_insert_fixup, e)
        (set_color-IsRedBlack (zip_up path (plug h (plug f t)))
          (zip_up-IsRedBlack (f ∷ h ∷ path) t n g fits (inr e)))
  | inl e ↦ elim (Bool-cases (is_red (sibling h))) [
    | inl u ↦
        let (gr, fr) = recolored-Good f h path t n g fits e u in
        rw (rb_insert_fixup, e, u)
          (rb_insert_fixup-IsRedBlack path (recolored f h t) (suc n) (is_red-recolored f h t) gr fr)
    | inr u ↦
        let (gr, fr, br) = rebalanced-red f h path t n r g fits e u in
        rw (rb_insert_fixup, e, u)
          (set_color-IsRedBlack (zip_up path (rebalanced f h t))
            (zip_up-IsRedBlack path (rebalanced f h t) (suc n) gr fr (inl br)))
  ]
]

black_root : (path : List Frame) (t : Tree) → is_red (rb_insert_fixup t path) ≡ false
unfolding rb_insert_fixup
black_root [] t = is_red-set_color t
black_root (f ∷ []) t = is_red-set_color (plug f t)
black_root (f ∷ h ∷ path) t = elim (Bool-cases (is_red_frame f)) [
  | inr e ↦ rw (rb_insert_fixup, e) (is_red-set_color (zip_up path (plug h (plug f t))))
  | inl e ↦ elim (Bool-cases (is_red (sibling h))) [
    | inl u ↦ rw (rb_insert_fixup, e, u) (black_root path (recolored f h t))
    | inr u ↦ rw (rb_insert_fixup, e, u) (is_red-set_color (zip_up path (rebalanced f h t)))
  ]
]

-- The place that the descent finds.
descend-Fits :
    (k : ℕ) (t : Tree) (path : List Frame) (n : ℕ)
    → Good t n
    → Fits path n
    → MayTop t path
    → Fits (descend k t path) 0
unfolding descend
descend-Fits k leaf path n g fits m = subst (Fits path) g.0 fits
descend-Fits k (node red l x r) path n g fits (inl z) = cc
descend-Fits k (node red l x r) path n g fits (inr top) = elim (Bool-cases (ltb k x.key)) [
  | inl e ↦
      rw (descend, e)
        (descend-Fits k l (went_left red x r ∷ path) n (g.0.0, g.1.2)
          ((g.1.1, (g.0.1, g.1.3), top), fits) (inl g.1.0))
  | inr e ↦
      rw (descend, e)
        (descend-Fits k r (went_right red l x ∷ path) n (g.0.1, g.1.3)
          ((g.1.0, (g.0.0, g.1.2), top), fits) (inl g.1.1))
]
descend-Fits k (node black l x r) path zero g fits m = absurd g.0
descend-Fits k (node black l x r) path (suc n) g fits m = elim (Bool-cases (ltb k x.key)) [
  | inl e ↦
      rw (descend, e)
        (descend-Fits k l (went_left black x r ∷ path) n (g.0.0, g.1.0) ((g.0.1, g.1.1), fits)
          (inr refl))
  | inr e ↦
      rw (descend, e)
        (descend-Fits k r (went_right black l x ∷ path) n (g.0.1, g.1.1) ((g.0.0, g.1.0), fits)
          (inr refl))
]

-- rb_insert keeps a tree in which no red node has a red child and all ways down meet the same number
-- of black nodes like that, and leaves the root black.
pub rb_insert-IsRedBlack :
    (x : Item) (t : Tree)
    → IsRedBlack t
    → IsRedBlack (rb_insert x t) × (is_red (rb_insert x t) ≡ false)
unfolding rb_insert
rb_insert-IsRedBlack x t (n, g) =
    let p = descend x.key t [] in
    (
      rb_insert_fixup-IsRedBlack p (node red leaf x leaf) 0 refl
          ((refl, refl), (refl, refl, tt, tt)) (descend-Fits x.key t [] n g tt (inr tt)),
      black_root p (node red leaf x leaf),
    )
