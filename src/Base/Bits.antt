-- ===== src/Base/Bits.antt =====
-- The bits of a word: `bit_test x i` is bit `i`, and the C operators `&`, `|`, `~` and `1 << i` read
-- bit by bit.
use Prim.Native.Nat.{
  ℕ, suc, zero, digits, bit_and, bit_or, bit_and-bitwise, bit_or-bitwise, bit_xor, bit_xor-bitwise,
  differ, max, min, ◌≤◌, ◌<◌, ◌^◌, ◌%◌, ◌/◌, ◌*◌, ◌-◌, ◌+◌,
}
use mathlib.Core.Path.{◌≡◌, refl, ◌∙◌, ap, ap₂}
use mathlib.Core.Logic.{◌≢◌}
use native.Mathlib.Nat.{pow-suc, one-le-pow}
use native.Mathlib.Omega.{arith}
use aurora_os_live.Base.Tests.{◌==◌, if◌then◌else◌}

-- The native operations are a recursion over the halves of their first argument, with that argument
-- as its fuel; spare fuel changes nothing.
module _ (rest : ℕ → ℕ) (join : ℕ → ℕ → ℕ) where
  one_more : (fuel x y : ℕ) → x ≤ fuel → digits rest join (suc fuel) x y ≡ digits rest join fuel x y
  one_more zero zero y le = refl
  one_more (suc fuel) zero y le = refl
  one_more zero (suc x) y le = absurd (omega arith)
  one_more (suc fuel) (suc x) y le =
      ap (λ t. t * 2 + join (suc x % 2) (y % 2)) (one_more fuel (suc x / 2) (y / 2) (omega arith))

  spare : (fuel x y k : ℕ) → fuel ≡ k + x → digits rest join fuel x y ≡ digits rest join x x y
  spare fuel x y zero e = ap (λ t. digits rest join t x y) (omega arith)
  spare zero x y (suc k) e = absurd (omega arith)
  spare (suc fuel) x y (suc k) e = one_more fuel x y (omega arith) ∙ spare fuel x y k (omega arith)

  lowest :
      (x y : ℕ)
      → digits rest join (suc x) (suc x) y
        ≡ digits rest join (suc x / 2) (suc x / 2) (y / 2) * 2 + join (suc x % 2) (y % 2)
  lowest x y =
      ap (λ t. t * 2 + join (suc x % 2) (y % 2))
        (spare x (suc x / 2) (y / 2) (x - suc x / 2) (omega arith))

pub bit_and_digit : (x y : ℕ) → bit_and x y ≡ 2 * bit_and (x / 2) (y / 2) + min (x % 2) (y % 2)
bit_and_digit zero y = omega (arith, bit_and-bitwise zero y, bit_and-bitwise zero (y / 2))
bit_and_digit (suc x) y =
    let apart = bit_and-bitwise (suc x / 2) (y / 2) in
    omega (arith, apart, lowest (λ t. zero) min x y, bit_and-bitwise (suc x) y)

pub bit_or_digit : (x y : ℕ) → bit_or x y ≡ 2 * bit_or (x / 2) (y / 2) + max (x % 2) (y % 2)
bit_or_digit zero y = omega (arith, bit_or-bitwise zero y, bit_or-bitwise zero (y / 2))
bit_or_digit (suc x) y =
    let apart = bit_or-bitwise (suc x / 2) (y / 2) in
    omega (arith, apart, lowest (λ t. t) max x y, bit_or-bitwise (suc x) y)

bit_xor_digit : (x y : ℕ) → bit_xor x y ≡ 2 * bit_xor (x / 2) (y / 2) + differ (x % 2) (y % 2)
bit_xor_digit zero y = omega (arith, bit_xor-bitwise zero y, bit_xor-bitwise zero (y / 2))
bit_xor_digit (suc x) y =
    let apart = bit_xor-bitwise (suc x / 2) (y / 2) in
    omega (arith, apart, lowest (λ t. t) differ x y, bit_xor-bitwise (suc x) y)

bit_xor-zero_below : (n a : ℕ) → a ≤ n → bit_xor a 0 ≡ a
bit_xor-zero_below zero zero h = refl
bit_xor-zero_below zero (suc a) h = absurd (omega arith)
bit_xor-zero_below (suc n) zero h = refl
bit_xor-zero_below (suc n) (suc a) h = omega (
  arith,
  bit_xor_digit (suc a) 0,
  bit_xor-zero_below n (suc a / 2) (omega arith),
  differ-zero (suc a % 2),
)
  where
    differ-zero : (x : ℕ) → differ x 0 ≡ x
    differ-zero zero = refl
    differ-zero (suc x) = refl

differ-one : (x : ℕ) → x ≤ 1 → differ x 1 ≡ 1 - x
differ-one zero h = refl
differ-one (suc zero) h = refl
differ-one (suc (suc x)) h = absurd (omega arith)

-- `x ^ (1 << k)` of a multiple of `1 << k`: the other half of its pair.
pub bit_xor-pow : (m k : ℕ) → bit_xor (m * 2 ^ k) (2 ^ k) ≡ (m + 1 - 2 * (m % 2)) * 2 ^ k
bit_xor-pow m zero =
    let one : m * 2 ^ 0 ≡ m = omega arith in
    ap (λ x. bit_xor x 1) one
    ∙ omega (
      arith,
      bit_xor_digit m 1,
      bit_xor-zero_below (m / 2) (m / 2) (omega arith),
      differ-one (m % 2) (omega arith),
    )
bit_xor-pow m (suc k) =
    let even : m * 2 ^ suc k ≡ 2 * (m * 2 ^ k) = omega (arith, ap (λ x. m * x) (pow-suc 2 k)) in
    let half : m * 2 ^ suc k / 2 ≡ m * 2 ^ k = omega arith in
    let out = m + 1 - 2 * (m % 2) in
    omega (
      arith,
      bit_xor_digit (m * 2 ^ suc k) (2 ^ suc k),
      ap₂ bit_xor half (half_pow k),
      bit_xor-pow m k,
      ap (λ x. out * x) (pow-suc 2 k),
      ap₂ differ (even_digit (m * 2 ^ k) (m * 2 ^ suc k) even)
          (even_digit (2 ^ k) (2 ^ suc k) (omega (arith, pow-suc 2 k))),
    )
  where
    half_pow : (s : ℕ) → 2 ^ suc s / 2 ≡ 2 ^ s
    half_pow s = omega (arith, pow-suc 2 s)

    even_digit : (x y : ℕ) → y ≡ 2 * x → y % 2 ≡ 0
    even_digit x y e = omega arith

unfoldable pub bit_test : ℕ → ℕ → ℕ
bit_test x zero = x % 2
bit_test x (suc i) = bit_test (x / 2) i

pub bit_test-le : (x i : ℕ) → bit_test x i ≤ 1
unfolding bit_test
bit_test-le x zero = omega arith
bit_test-le x (suc i) = bit_test-le (x / 2) i

pub bit_test-bit_and : (a b i : ℕ) → bit_test (bit_and a b) i ≡ min (bit_test a i) (bit_test b i)
unfolding bit_test
bit_test-bit_and a b zero = omega (arith, bit_and_digit a b)
bit_test-bit_and a b (suc i) =
    let e : bit_and a b / 2 ≡ bit_and (a / 2) (b / 2) = omega (arith, bit_and_digit a b) in
    ap (λ x. bit_test x i) e ∙ bit_test-bit_and (a / 2) (b / 2) i

pub bit_test-bit_or : (a b i : ℕ) → bit_test (bit_or a b) i ≡ max (bit_test a i) (bit_test b i)
unfolding bit_test
bit_test-bit_or a b zero = omega (arith, bit_or_digit a b)
bit_test-bit_or a b (suc i) =
    let e : bit_or a b / 2 ≡ bit_or (a / 2) (b / 2) = omega (arith, bit_or_digit a b) in
    ap (λ x. bit_test x i) e ∙ bit_test-bit_or (a / 2) (b / 2) i

pub bit_test-zero : (i : ℕ) → bit_test 0 i ≡ 0
unfolding bit_test
bit_test-zero zero = refl
bit_test-zero (suc i) = bit_test-zero i

half-pow : (s : ℕ) → 2 ^ suc s / 2 ≡ 2 ^ s
half-pow s = omega (arith, pow-suc 2 s)

-- `1 << s` has bit `s` alone.
pub bit_test-pow : (s i : ℕ) → bit_test (2 ^ s) i ≡ (if s == i then 1 else 0)
unfolding bit_test
bit_test-pow zero zero = refl
bit_test-pow zero (suc i) = ground (arith, bit_test-zero i)
bit_test-pow (suc s) zero = ground (arith, pow-suc 2 s)
bit_test-pow (suc s) (suc i) = ap (λ x. bit_test x i) (half-pow s) ∙ bit_test-pow s i ∙ ground arith

-- `~x` of a word of `n` bits.
abbrev pub bit_not : ℕ → ℕ → ℕ
bit_not n x = 2 ^ n - 1 - x

pub bit_test-bit_not : (n x i : ℕ) → x < 2 ^ n → i < n → bit_test (bit_not n x) i ≡ 1 - bit_test x i
unfolding bit_test
bit_test-bit_not zero x i h b = absurd (omega arith)
bit_test-bit_not (suc n) x zero h b = omega (arith, pow-suc 2 n)
bit_test-bit_not (suc n) x (suc i) h b =
    let e : bit_not (suc n) x / 2 ≡ bit_not n (x / 2) = omega (arith, pow-suc 2 n) in
    ap (λ y. bit_test y i) e
    ∙ bit_test-bit_not n (x / 2) i (omega (arith, pow-suc 2 n)) (omega arith)

bit_and-zero_below : (n a : ℕ) → a ≤ n → bit_and a 0 ≡ 0
bit_and-zero_below zero zero h = refl
bit_and-zero_below zero (suc a) h = absurd (omega arith)
bit_and-zero_below (suc n) zero h = refl
bit_and-zero_below (suc n) (suc a) h =
    omega (arith, bit_and_digit (suc a) 0, bit_and-zero_below n (suc a / 2) (omega arith))

-- `x & (1 << s)` is that bit in its place, or 0.
pub bit_and-pow : (x s : ℕ) → bit_and x (2 ^ s) ≡ bit_test x s * 2 ^ s
unfolding bit_test
bit_and-pow x zero =
    omega (arith, bit_and_digit x 1, bit_and-zero_below (x / 2) (x / 2) (omega arith))
bit_and-pow x (suc s) = omega (
  arith,
  bit_and_digit x (2 ^ suc s),
  pow-suc 2 s,
  ap (bit_and (x / 2)) (half-pow s),
  bit_and-pow (x / 2) s,
  ap (λ (t : ℕ). bit_test (x / 2) s * t) (pow-suc 2 s),
)

-- The test `x & (1 << s)` of C.
pub bit_and-pow-zero : (x s : ℕ) → bit_test x s ≡ 0 → bit_and x (2 ^ s) ≡ 0
bit_and-pow-zero x s e = omega (arith, bit_and-pow x s, ap (λ t. t * 2 ^ s) e)

pub bit_and-pow_ne_zero : (x s : ℕ) → bit_test x s ≡ 1 → bit_and x (2 ^ s) ≢ 0
bit_and-pow_ne_zero x s e z =
    ground (arith, bit_and-pow x s ∙ ap (λ t. t * 2 ^ s) e, one-le-pow s 2)

-- A word of `n` bits all of which are 0 is 0.
pub eq-zero_of_bits : (n x : ℕ) → x < 2 ^ n → ((i : ℕ) → i < n → bit_test x i ≡ 0) → x ≡ 0
unfolding bit_test
eq-zero_of_bits zero x h b = omega arith
eq-zero_of_bits (suc n) x h b = omega (
  arith,
  pow-suc 2 n,
  b 0 (omega arith),
  eq-zero_of_bits n (x / 2) (omega (arith, pow-suc 2 n)) (λ i k. b (suc i) (omega arith)),
)

pub bit_or-lt : (n a b : ℕ) → a < 2 ^ n → b < 2 ^ n → bit_or a b < 2 ^ n
bit_or-lt zero zero zero p q = omega arith
bit_or-lt zero zero (suc b) p q = absurd (omega arith)
bit_or-lt zero (suc a) b p q = absurd (omega arith)
bit_or-lt (suc n) a b p q = omega (
  arith,
  pow-suc 2 n,
  bit_or_digit a b,
  bit_or-lt n (a / 2) (b / 2) (omega (arith, pow-suc 2 n)) (omega (arith, pow-suc 2 n)),
)

pub bit_and-lt : (n a b : ℕ) → a < 2 ^ n → bit_and a b < 2 ^ n
bit_and-lt zero zero b p = omega (arith, bit_and-bitwise 0 b)
bit_and-lt zero (suc a) b p = absurd (omega arith)
bit_and-lt (suc n) a b p = omega (
  arith,
  pow-suc 2 n,
  bit_and_digit a b,
  bit_and-lt n (a / 2) (b / 2) (omega (arith, pow-suc 2 n)),
)

-- Two words side by side.
pub bit_test_low : (k x y i : ℕ) → x < 2 ^ k → i < k → bit_test (x + 2 ^ k * y) i ≡ bit_test x i
unfolding bit_test
bit_test_low zero x y i h b = absurd (omega arith)
bit_test_low (suc k) x y zero h b = omega (arith, ap (λ t. t * y) (pow-suc 2 k))
bit_test_low (suc k) x y (suc i) h b =
    let e : (x + 2 ^ suc k * y) / 2 ≡ x / 2 + 2 ^ k * y =
      omega (arith, ap (λ t. t * y) (pow-suc 2 k)) in
    ap (λ z. bit_test z i) e ∙ bit_test_low k (x / 2) y i (omega (arith, pow-suc 2 k)) (omega arith)

pub bit_test_high : (k x y i : ℕ) → x < 2 ^ k → bit_test (x + 2 ^ k * y) (k + i) ≡ bit_test y i
unfolding bit_test
bit_test_high zero x y i h =
    let e : x + 2 ^ 0 * y ≡ y = omega arith in let e' : 0 + i ≡ i = omega arith in ap₂ bit_test e e'
bit_test_high (suc k) x y i h =
    let e : (x + 2 ^ suc k * y) / 2 ≡ x / 2 + 2 ^ k * y =
      omega (arith, ap (λ t. t * y) (pow-suc 2 k)) in
    let e' : suc k + i ≡ suc (k + i) = omega arith in
    ap (bit_test (x + 2 ^ suc k * y)) e'
    ∙ ap (λ z. bit_test z (k + i)) e
    ∙ bit_test_high k (x / 2) y i (omega (arith, pow-suc 2 k))

-- Words of `n` bits that agree in every bit are the same.
pub eq_of_bits :
    (n x y : ℕ) → x < 2 ^ n → y < 2 ^ n → ((i : ℕ) → i < n → bit_test x i ≡ bit_test y i) → x ≡ y
unfolding bit_test
eq_of_bits zero x y p q b = omega arith
eq_of_bits (suc n) x y p q b = omega (
  arith,
  pow-suc 2 n,
  b 0 (omega arith),
  eq_of_bits n (x / 2) (y / 2) (omega (arith, pow-suc 2 n)) (omega (arith, pow-suc 2 n))
      (λ i k. b (suc i) (omega arith)),
)

-- A word of `n` bits has none further up.
pub bit_test_beyond : (n x i : ℕ) → x < 2 ^ n → n ≤ i → bit_test x i ≡ 0
unfolding bit_test
bit_test_beyond zero x i p q = ap (λ t. bit_test t i) (omega arith) ∙ bit_test-zero i
bit_test_beyond (suc n) x zero p q = absurd (omega arith)
bit_test_beyond (suc n) x (suc i) p q =
    bit_test_beyond n (x / 2) i (omega (arith, pow-suc 2 n)) (omega arith)
