-- ===== src/Fd/Slots.antt =====
-- How often a file stands in a descriptor table (kernel/file.c).
use aurora_os_live.Base.{
  ℕ, zero, suc, ◌+◌, ◌≤◌, ◌<◌, ◌≡◌, ◌≢◌, refl, List, [], ◌∷◌, arith, ==_iff, length, set, replicate,
}
use aurora_os_live.Vfs.Refs.{same}
use aurora_os_live.Fd.{unused, slot}

unfoldable pub count : ℕ → List ℕ → ℕ
count p [] = 0
count p (w ∷ t) = same w p + count p t

pub count-le-length : (p : ℕ) (t : List ℕ) → count p t ≤ length t
unfolding count
count-le-length p [] = omega arith
count-le-length p (w ∷ t) = ground (arith, count-le-length p t)

pub count-set :
    (p : ℕ) (t : List ℕ) (i w : ℕ)
    → i < length t
    → count p (set t i w) + same (slot t i) p ≡ count p t + same w p
unfolding count
count-set p [] i w h = absurd (omega arith)
count-set p (x ∷ t) zero w h = ground arith
count-set p (x ∷ t) (suc i) w h = omega (arith, count-set p t i w (omega arith))

-- A word that stands in a slot is counted.
pub count-pos : (t : List ℕ) (i : ℕ) → i < length t → 0 < count (slot t i) t
unfolding count
count-pos [] i h = absurd (omega arith)
count-pos (x ∷ t) zero h = ground (arith, ==_iff x x)
count-pos (x ∷ t) (suc i) h = omega (arith, count-pos t i (omega arith))

pub count-replicate : (p n : ℕ) → p ≢ unused → count p (replicate n unused) ≡ 0
unfolding count
count-replicate p zero h = refl
count-replicate p (suc n) h = ground (arith, count-replicate p n h)
