-- ===== src/RbTree/Erase/Rounds.antt =====
-- One round of the repair after rb_erase (kernel/rbtree.c).
use aurora_os_live.Base.{
  ℕ, suc, ◌≡◌, refl, ◌⊎◌, inl, inr, true, false, Bool-cases, List, ◌∷◌, arith,
}
use aurora_os_live.RbTree.{
  Color, red, black, Item, Tree, leaf, node, Frame, went_left, went_right, is_red, set_color,
  rb_rotate_left, rb_rotate_right,
}
use aurora_os_live.RbTree.Erase.{
  Round, go_up, rebalance, malformed, case4_left, case3_left, case4_right, case3_right, round,
  rotated, sibling_is_red,
}
use aurora_os_live.RbTree.Balance.{Good, TopBlack, Fits, MayTop}

-- What the ancestors of a parent of this colour, whose children have height `n`, expect.
abbrev pub Above : Color → List Frame → ℕ → Type 0
Above red path n = TopBlack path × Fits path n
Above black path n = Fits path (suc n)

-- One black node too few above: a red top mends that by turning black, a black one leaves it.
abbrev pub Mended : Tree → List Frame → Type 0
Mended t path = (is_red t ≡ true) × (k : ℕ) × Good (set_color black t) k × Fits path k

abbrev pub Short : Tree → List Frame → Type 0
Short t path = (is_red t ≡ false) × (n : ℕ) × Good t n × Fits path (suc n)

abbrev pub WentUp : Color → Tree → List Frame → Type 0
WentUp red t path = Mended t path
WentUp black t path = Short t path

abbrev pub RoundOk : Color → List Frame → Round → Type 0
RoundOk c path (go_up t) = WentUp c t path
RoundOk c path (rebalance t) = (k : ℕ) × Good t k × Fits path k × MayTop t path
RoundOk c path malformed = ⊥

-- A parent with two black children of the height that is due.
capped :
    (c : Color) (l : Tree) (y : Item) (r : Tree) (n : ℕ) (path : List Frame)
    → Good l (suc n)
    → Good r (suc n)
    → is_red l ≡ false
    → is_red r ≡ false
    → Above c path (suc n)
    → RoundOk c path (rebalance (node c l y r))
capped red l y r n path gl gr bl br (top, f) =
    (suc n, ((gl.0, gr.0), (bl, br, gl.1, gr.1)), f, inr top)
capped black l y r n path gl gr bl br f = (suc (suc n), ((gl.0, gr.0), (gl.1, gr.1)), f, inl refl)

-- Case 2.
paled_left :
    (c : Color) (x : Tree) (p : Item) (a : Tree) (y : Item) (b : Tree) (n : ℕ) (path : List Frame)
    → Good x n
    → Good a n
    → Good b n
    → is_red a ≡ false
    → is_red b ≡ false
    → Above c path (suc n)
    → WentUp c (node c x p (node red a y b)) path
paled_left red x p a y b n path gx ga gb ra rb (top, f) =
    (refl, suc n, ((gx.0, (ga.0, gb.0)), (gx.1, (ra, rb, ga.1, gb.1))), f)
paled_left black x p a y b n path gx ga gb ra rb f =
    (refl, suc n, ((gx.0, (ga.0, gb.0)), (gx.1, (ra, rb, ga.1, gb.1))), f)

paled_right :
    (c : Color) (a : Tree) (y : Item) (b : Tree) (p : Item) (x : Tree) (n : ℕ) (path : List Frame)
    → Good x n
    → Good a n
    → Good b n
    → is_red a ≡ false
    → is_red b ≡ false
    → Above c path (suc n)
    → WentUp c (node c (node red a y b) p x) path
paled_right red a y b p x n path gx ga gb ra rb (top, f) =
    (refl, suc n, (((ga.0, gb.0), gx.0), ((ra, rb, ga.1, gb.1), gx.1)), f)
paled_right black a y b p x n path gx ga gb ra rb f =
    (refl, suc n, (((ga.0, gb.0), gx.0), ((ra, rb, ga.1, gb.1), gx.1)), f)

-- Cases 3 and 4, where a child of the sibling is red.
case4_left-Ok :
    (c : Color) (x : Tree) (p : Item) (a : Tree) (y : Item) (b : Tree) (n : ℕ) (path : List Frame)
    → Good x n
    → Good a n
    → Good b n
    → (is_red b ≡ true) ⊎ (is_red a ≡ true)
    → Above c path (suc n)
    → RoundOk c path (rebalance (case4_left c x p (case3_left a y b)))
unfolding rb_rotate_left rb_rotate_right
case4_left-Ok c x p a y (node red b1 z b2) n path gx ga gb e f =
    capped c (node black x p a) y (node black b1 z b2) n path ((gx.0, ga.0), (gx.1, ga.1))
      (gb.0, (gb.1.2, gb.1.3)) refl refl f
case4_left-Ok c x p (node red a1 z a2) y leaf n path gx ga gb e f =
    capped c (node black x p a1) z (node black a2 y leaf) n path ((gx.0, ga.0.0), (gx.1, ga.1.2))
      ((ga.0.1, gb.0), (ga.1.3, gb.1)) refl refl f
case4_left-Ok c x p (node red a1 z a2) y (node black b1 w b2) n path gx ga gb e f =
    capped c (node black x p a1) z (node black a2 y (node black b1 w b2)) n path
      ((gx.0, ga.0.0), (gx.1, ga.1.2)) ((ga.0.1, gb.0), (ga.1.3, gb.1)) refl refl f
case4_left-Ok c x p leaf y leaf n path gx ga gb (inl e) f = cc
case4_left-Ok c x p leaf y leaf n path gx ga gb (inr e) f = cc
case4_left-Ok c x p leaf y (node black b1 w b2) n path gx ga gb (inl e) f = cc
case4_left-Ok c x p leaf y (node black b1 w b2) n path gx ga gb (inr e) f = cc
case4_left-Ok c x p (node black a1 z a2) y leaf n path gx ga gb (inl e) f = cc
case4_left-Ok c x p (node black a1 z a2) y leaf n path gx ga gb (inr e) f = cc
case4_left-Ok c x p (node black a1 z a2) y (node black b1 w b2) n path gx ga gb (inl e) f = cc
case4_left-Ok c x p (node black a1 z a2) y (node black b1 w b2) n path gx ga gb (inr e) f = cc

case4_right-Ok :
    (c : Color) (a : Tree) (y : Item) (b : Tree) (p : Item) (x : Tree) (n : ℕ) (path : List Frame)
    → Good x n
    → Good a n
    → Good b n
    → (is_red a ≡ true) ⊎ (is_red b ≡ true)
    → Above c path (suc n)
    → RoundOk c path (rebalance (case4_right c (case3_right a y b) p x))
unfolding rb_rotate_left rb_rotate_right
case4_right-Ok c (node red a1 z a2) y b p x n path gx ga gb e f =
    capped c (node black a1 z a2) y (node black b p x) n path (ga.0, (ga.1.2, ga.1.3))
      ((gb.0, gx.0), (gb.1, gx.1)) refl refl f
case4_right-Ok c leaf y (node red b1 z b2) p x n path gx ga gb e f =
    capped c (node black leaf y b1) z (node black b2 p x) n path ((ga.0, gb.0.0), (ga.1, gb.1.2))
      ((gb.0.1, gx.0), (gb.1.3, gx.1)) refl refl f
case4_right-Ok c (node black a1 w a2) y (node red b1 z b2) p x n path gx ga gb e f =
    capped c (node black (node black a1 w a2) y b1) z (node black b2 p x) n path
      ((ga.0, gb.0.0), (ga.1, gb.1.2)) ((gb.0.1, gx.0), (gb.1.3, gx.1)) refl refl f
case4_right-Ok c leaf y leaf p x n path gx ga gb (inl e) f = cc
case4_right-Ok c leaf y leaf p x n path gx ga gb (inr e) f = cc
case4_right-Ok c leaf y (node black b1 w b2) p x n path gx ga gb (inl e) f = cc
case4_right-Ok c leaf y (node black b1 w b2) p x n path gx ga gb (inr e) f = cc
case4_right-Ok c (node black a1 z a2) y leaf p x n path gx ga gb (inl e) f = cc
case4_right-Ok c (node black a1 z a2) y leaf p x n path gx ga gb (inr e) f = cc
case4_right-Ok c (node black a1 z a2) y (node black b1 w b2) p x n path gx ga gb (inl e) f = cc
case4_right-Ok c (node black a1 z a2) y (node black b1 w b2) p x n path gx ga gb (inr e) f = cc

abbrev pub color_of : Frame → Color
color_of (went_left c p s) = c
color_of (went_right c s p) = c

Fits-left :
    (c : Color) (p : Item) (s : Tree) (path : List Frame) (n : ℕ)
    → Fits (went_left c p s ∷ path) n
    → Good s n × Above c path n
Fits-left red p s path n ((b, gs, top), f) = (gs, (top, f))
Fits-left black p s path n (gs, f) = (gs, f)

Fits-right :
    (c : Color) (s : Tree) (p : Item) (path : List Frame) (n : ℕ)
    → Fits (went_right c s p ∷ path) n
    → Good s n × Above c path n
Fits-right red s p path n ((b, gs, top), f) = (gs, (top, f))
Fits-right black s p path n (gs, f) = (gs, f)

-- A round at a black sibling, where the subtree is one black node short.
pub round-RoundOk :
    (f : Frame) (x : Tree) (path : List Frame) (n : ℕ)
    → sibling_is_red f ≡ false
    → Good x n
    → Fits (f ∷ path) (suc n)
    → RoundOk (color_of f) path (round f x)
unfolding round
round-RoundOk (went_left red p leaf) x path n s gx ((b, gs, top), f) = absurd (omega (arith, gs.0))
round-RoundOk (went_left black p leaf) x path n s gx (gs, f) = absurd (omega (arith, gs.0))
round-RoundOk (went_right red leaf p) x path n s gx ((b, gs, top), f) = absurd (omega (arith, gs.0))
round-RoundOk (went_right black leaf p) x path n s gx (gs, f) = absurd (omega (arith, gs.0))
round-RoundOk (went_left c p (node red a y b)) x path n s gx fits = cc
round-RoundOk (went_right c (node red a y b) p) x path n s gx fits = cc
round-RoundOk (went_left c p (node black a y b)) x path n s gx fits =
    let (gs, f) = Fits-left c p (node black a y b) path (suc n) fits in
    let ga : Good a n = (gs.0.0, gs.1.0) in
    let gb : Good b n = (gs.0.1, gs.1.1) in
    elim (Bool-cases (is_red a)) [
      | inl e ↦ rw (round, e) (case4_left-Ok c x p a y b n path gx ga gb (inr e) f)
      | inr e ↦ elim (Bool-cases (is_red b)) [
        | inl z ↦ rw (round, e, z) (case4_left-Ok c x p a y b n path gx ga gb (inl z) f)
        | inr z ↦ rw (round, e, z) (paled_left c x p a y b n path gx ga gb e z f)
      ]
    ]
round-RoundOk (went_right c (node black a y b) p) x path n s gx fits =
    let (gs, f) = Fits-right c (node black a y b) p path (suc n) fits in
    let ga : Good a n = (gs.0.0, gs.1.0) in
    let gb : Good b n = (gs.0.1, gs.1.1) in
    elim (Bool-cases (is_red a)) [
      | inl e ↦ rw (round, e) (case4_right-Ok c a y b p x n path gx ga gb (inl e) f)
      | inr e ↦ elim (Bool-cases (is_red b)) [
        | inl z ↦ rw (round, e, z) (case4_right-Ok c a y b p x n path gx ga gb (inr z) f)
        | inr z ↦ rw (round, e, z) (paled_right c a y b p x n path gx ga gb e z f)
      ]
    ]

-- Case 1: the frames after the rotation, a red parent with a black sibling under a black node.
pub rotated-Fits :
    (f : Frame) (path : List Frame) (n : ℕ)
    → sibling_is_red f ≡ true
    → Fits (f ∷ path) (suc n)
    → Fits ((rotated f).0 ∷ (rotated f).1 ∷ path) (suc n)
      × (sibling_is_red (rotated f).0 ≡ false)
      × (color_of (rotated f).0 ≡ red)
rotated-Fits (went_left c p leaf) path n s fits = cc
rotated-Fits (went_right c leaf p) path n s fits = cc
rotated-Fits (went_left c p (node black a y b)) path n s fits = cc
rotated-Fits (went_right c (node black a y b) p) path n s fits = cc
rotated-Fits (went_left red p (node red a y b)) path n s ((d, gs, top), f) = cc
rotated-Fits (went_right red (node red a y b) p) path n s ((d, gs, top), f) = cc
rotated-Fits (went_left black p (node red a y b)) path n s (gs, f) =
    (((gs.1.0, (gs.0.0, gs.1.2), refl), ((gs.0.1, gs.1.3), f)), gs.1.0, refl)
rotated-Fits (went_right black (node red a y b) p) path n s (gs, f) =
    (((gs.1.1, (gs.0.1, gs.1.3), refl), ((gs.0.0, gs.1.2), f)), gs.1.1, refl)
