-- ===== src/Base/Arrays.antt =====
-- Lists compared element by element, and `memcpy` into an array.
use mathlib.Core.Path.{refl, ap, ap₂, ◌≡◌, ◌∙◌}
use Prim.Native.Nat.{ℕ, suc, zero, ◌<◌, ◌≤◌, ◌+◌}
use mathlib.Core.List.{List, [], ◌∷◌, ◌++◌}
use native.Mathlib.Omega.{arith}
use aurora_os_live.Base.Lists.{
  length, get_or, set, take, drop, length-set, get_or-set_self, get_or-set_ne,
}

module _ {ℓ} {A : Type ℓ} where
  -- `memcpy(dst + at, src, length src)`, byte by byte.
  abbrev pub memcpy : List A → ℕ → List A → List A
  memcpy dst at [] = dst
  memcpy dst at (x ∷ src) = memcpy (set dst at x) (suc at) src

  pub length-memcpy : (src dst : List A) (at : ℕ) → length (memcpy dst at src) ≡ length dst
  length-memcpy [] dst at = refl
  length-memcpy (x ∷ src) dst at =
      omega (arith, length-memcpy src (set dst at x) (suc at), length-set dst at x)

  -- Outside the copied range nothing changes.
  pub get_or-memcpy_below :
      (src dst : List A) (at i : ℕ) (d : A)
      → i < at
      → get_or (memcpy dst at src) i d ≡ get_or dst i d
  get_or-memcpy_below [] dst at i d h = refl
  get_or-memcpy_below (x ∷ src) dst at i d h = ground (
    arith,
    get_or-memcpy_below src (set dst at x) (suc at) i d (omega arith),
    get_or-set_ne dst at i x d (omega arith),
  )

  pub get_or-memcpy_above :
      (src dst : List A) (at i : ℕ) (d : A)
      → at + length src ≤ i
      → get_or (memcpy dst at src) i d ≡ get_or dst i d
  get_or-memcpy_above [] dst at i d h = refl
  get_or-memcpy_above (x ∷ src) dst at i d h = ground (
    arith,
    get_or-memcpy_above src (set dst at x) (suc at) i d (omega arith),
    get_or-set_ne dst at i x d (omega arith),
  )

  -- Inside it the source is read.
  pub get_or-memcpy :
      (src dst : List A) (at i : ℕ) (d : A)
      → i < length src
      → at + length src ≤ length dst
      → get_or (memcpy dst at src) (at + i) d ≡ get_or src i d
  get_or-memcpy [] dst at i d h b = absurd (omega arith)
  get_or-memcpy (x ∷ src) dst at zero d h b =
      ap (λ k. get_or (memcpy (set dst at x) (suc at) src) k d) (omega arith)
      ∙ get_or-memcpy_below src (set dst at x) (suc at) at d (omega arith)
      ∙ get_or-set_self dst at x d (omega arith)
  get_or-memcpy (x ∷ src) dst at (suc i) d h b =
      ap (λ k. get_or (memcpy (set dst at x) (suc at) src) k d) (omega arith)
      ∙ get_or-memcpy src (set dst at x) (suc at) i d (omega arith)
          (omega (arith, length-set dst at x))

  pub get_or-take : (n i : ℕ) (xs : List A) (d : A) → i < n → get_or (take n xs) i d ≡ get_or xs i d
  get_or-take zero i xs d h = absurd (omega arith)
  get_or-take (suc n) i [] d h = refl
  get_or-take (suc n) zero (x ∷ xs) d h = refl
  get_or-take (suc n) (suc i) (x ∷ xs) d h = get_or-take n i xs d (omega arith)

  pub get_or-drop : (n i : ℕ) (xs : List A) (d : A) → get_or (drop n xs) i d ≡ get_or xs (n + i) d
  get_or-drop zero i xs d = ap (λ k. get_or xs k d) (omega arith)
  get_or-drop (suc n) i [] d = refl
  get_or-drop (suc n) i (x ∷ xs) d =
      let e : suc (n + i) ≡ suc n + i = omega arith in
      get_or-drop n i xs d ∙ ap (λ k. get_or (x ∷ xs) k d) e

  pub get_or-append_left :
      (xs ys : List A) (i : ℕ) (d : A) → i < length xs → get_or (xs ++ ys) i d ≡ get_or xs i d
  get_or-append_left [] ys i d h = absurd (omega arith)
  get_or-append_left (x ∷ xs) ys zero d h = refl
  get_or-append_left (x ∷ xs) ys (suc i) d h = get_or-append_left xs ys i d (omega arith)

  pub get_or-append_right :
      (xs ys : List A) (i : ℕ) (d : A) → get_or (xs ++ ys) (length xs + i) d ≡ get_or ys i d
  get_or-append_right [] ys i d = ap (λ k. get_or ys k d) (omega arith)
  get_or-append_right (x ∷ xs) ys i d =
      let e : suc (length xs) + i ≡ suc (length xs + i) = omega arith in
      ap (λ k. get_or (x ∷ (xs ++ ys)) k d) e ∙ get_or-append_right xs ys i d

  -- Two lists of one length with the same elements are equal.
  pub list_ext :
      (xs ys : List A) (d : A)
      → length xs ≡ length ys
      → ((i : ℕ) → i < length xs → get_or xs i d ≡ get_or ys i d)
      → xs ≡ ys
  list_ext [] [] d e h = refl
  list_ext [] (y ∷ ys) d e h = absurd (omega arith)
  list_ext (x ∷ xs) [] d e h = absurd (omega arith)
  list_ext (x ∷ xs) (y ∷ ys) d e h =
      ap₂ ◌∷◌ (h 0 (omega arith)) (list_ext xs ys d (omega arith) (λ i b. h (suc i) (omega arith)))

  -- The first `n` values of a function.
  abbrev pub tabulate : (ℕ → A) → ℕ → List A
  tabulate f zero = []
  tabulate f (suc n) = f 0 ∷ tabulate (λ i. f (suc i)) n

  pub length-tabulate : (f : ℕ → A) (n : ℕ) → length (tabulate f n) ≡ n
  length-tabulate f zero = refl
  length-tabulate f (suc n) = ap suc (length-tabulate (λ i. f (suc i)) n)

  pub get_or-tabulate : (f : ℕ → A) (n i : ℕ) (d : A) → i < n → get_or (tabulate f n) i d ≡ f i
  get_or-tabulate f zero i d h = absurd (omega arith)
  get_or-tabulate f (suc n) zero d h = refl
  get_or-tabulate f (suc n) (suc i) d h = get_or-tabulate (λ i. f (suc i)) n i d (omega arith)
