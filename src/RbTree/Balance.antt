-- ===== src/RbTree/Balance.antt =====
-- The balance of the trees of kernel/rbtree.c: colours and black heights, of a tree and of the ancestors
-- of a subtree.
pub mod Insert
use mathlib.Core.Path.{subst}
use aurora_os_live.Base.{
  ℕ, zero, suc, ◌≡◌, refl, sym, ap, ◌∙◌, ◌⊎◌, inl, inr, Bool, true, false, List, [], ◌∷◌,
}
use aurora_os_live.RbTree.{
  Color, red, black, Item, Tree, leaf, node, Frame, went_left, went_right, is_red, is_red_frame,
  set_color, plug, zip_up,
}

-- Every way down from the root meets this many black nodes.
abbrev pub HasHeight : Tree → ℕ → Type 0
HasHeight leaf n = n ≡ 0
HasHeight (node red l x r) n = HasHeight l n × HasHeight r n
HasHeight (node black l x r) zero = ⊥
HasHeight (node black l x r) (suc n) = HasHeight l n × HasHeight r n

-- No red node has a red child.
abbrev pub IsColored : Tree → Type 0
IsColored leaf = Unit {0}
IsColored (node red l x r) = (is_red l ≡ false) × (is_red r ≡ false) × IsColored l × IsColored r
IsColored (node black l x r) = IsColored l × IsColored r

abbrev pub Good : Tree → ℕ → Type 0
Good t n = HasHeight t n × IsColored t

-- No red node has a red child, and all ways down meet the same number of black nodes.
abbrev pub IsRedBlack : Tree → Type 0
IsRedBlack t = (n : ℕ) × Good t n

abbrev pub TopBlack : List Frame → Type 0
TopBlack [] = Unit {0}
TopBlack (f ∷ path) = is_red_frame f ≡ false

-- A subtree of this height may stand under the ancestors, a red one if `TopBlack` holds too.
abbrev pub RedBeside : Tree → List Frame → ℕ → Type 0
RedBeside s path n = (is_red s ≡ false) × Good s n × TopBlack path

abbrev pub Fits : List Frame → ℕ → Type 0
Fits [] n = Unit {0}
Fits (went_left red x s ∷ path) n = RedBeside s path n × Fits path n
Fits (went_right red s x ∷ path) n = RedBeside s path n × Fits path n
Fits (went_left black x s ∷ path) n = Good s n × Fits path (suc n)
Fits (went_right black s x ∷ path) n = Good s n × Fits path (suc n)

-- The top of a subtree may be red only under a black parent.
abbrev pub MayTop : Tree → List Frame → Type 0
MayTop t path = (is_red t ≡ false) ⊎ TopBlack path

pub zip_up-IsRedBlack :
    (path : List Frame) (t : Tree) (n : ℕ)
    → Good t n
    → Fits path n
    → MayTop t path
    → IsRedBlack (zip_up path t)
zip_up-IsRedBlack [] t n g f m = (n, g)
zip_up-IsRedBlack (went_left red x s ∷ path) t n g f (inr m) = cc
zip_up-IsRedBlack (went_left red x s ∷ path) t n g ((b, gs, top), f) (inl m) =
    zip_up-IsRedBlack path (node red t x s) n ((g.0, gs.0), (m, b, g.1, gs.1)) f (inr top)
zip_up-IsRedBlack (went_right red s x ∷ path) t n g f (inr m) = cc
zip_up-IsRedBlack (went_right red s x ∷ path) t n g ((b, gs, top), f) (inl m) =
    zip_up-IsRedBlack path (node red s x t) n ((gs.0, g.0), (b, m, gs.1, g.1)) f (inr top)
zip_up-IsRedBlack (went_left black x s ∷ path) t n g (gs, f) m =
    zip_up-IsRedBlack path (node black t x s) (suc n) ((g.0, gs.0), (g.1, gs.1)) f (inl refl)
zip_up-IsRedBlack (went_right black s x ∷ path) t n g (gs, f) m =
    zip_up-IsRedBlack path (node black s x t) (suc n) ((gs.0, g.0), (gs.1, g.1)) f (inl refl)

-- The other way round.
abbrev Unzipped : Tree → List Frame → Type 0
Unzipped t path = (n : ℕ) × Good t n × Fits path n × MayTop t path

unplug :
    (f : Frame) (path : List Frame) (t : Tree) → Unzipped (plug f t) path → Unzipped t (f ∷ path)
unplug (went_left red x s) path t (n, g, f, inl z) = cc
unplug (went_left red x s) path t (n, g, f, inr top) =
    (n, (g.0.0, g.1.2), ((g.1.1, (g.0.1, g.1.3), top), f), inl g.1.0)
unplug (went_right red s x) path t (n, g, f, inl z) = cc
unplug (went_right red s x) path t (n, g, f, inr top) =
    (n, (g.0.1, g.1.3), ((g.1.0, (g.0.0, g.1.2), top), f), inl g.1.1)
unplug (went_left black x s) path t (zero, g, f, m) = absurd g.0
unplug (went_left black x s) path t (suc n, g, f, m) =
    (n, (g.0.0, g.1.0), ((g.0.1, g.1.1), f), inr refl)
unplug (went_right black s x) path t (zero, g, f, m) = absurd g.0
unplug (went_right black s x) path t (suc n, g, f, m) =
    (n, (g.0.1, g.1.1), ((g.0.0, g.1.0), f), inr refl)

pub zip_up-unzip : (path : List Frame) (t : Tree) → IsRedBlack (zip_up path t) → Unzipped t path
zip_up-unzip [] t (n, g) = (n, g, tt, inr tt)
zip_up-unzip (f ∷ path) t b = unplug f path t (zip_up-unzip path (plug f t) b)

pub set_color-Good : (t : Tree) (n : ℕ) → Good t n → (m : ℕ) × Good (set_color black t) m
set_color-Good leaf n g = (n, g)
set_color-Good (node red l x r) n g = (suc n, (g.0, (g.1.2, g.1.3)))
set_color-Good (node black l x r) n g = (n, g)

pub set_color-IsRedBlack : (t : Tree) → IsRedBlack t → IsRedBlack (set_color black t)
set_color-IsRedBlack t (n, g) = set_color-Good t n g

pub is_red-set_color : (t : Tree) → is_red (set_color black t) ≡ false
is_red-set_color leaf = refl
is_red-set_color (node c l x r) = refl
