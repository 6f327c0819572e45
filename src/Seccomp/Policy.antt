-- ===== src/Seccomp/Policy.antt =====
-- The policy that a filter stands for (kernel/seccomp.c, seccomp.h): a map of 256 bits.
use aurora_os_live.Base.{
  ℕ, ◌+◌, ◌*◌, ◌-◌, ◌/◌, ◌%◌, ◌^◌, ◌<◌, ◌≡◌, refl, ap, ◌∙◌, none, some, ltb, ◌&&◌, ◌==◌,
  if◌then◌else◌, Bool, true, false, arith,
}
use aurora_os_live.Base.Int.{ℤ, pos, negsuc, minus_one}
use aurora_os_live.Base.Bits.{
  bit_test, bit_test-le, bit_test_low, bit_test_high, bit_and-pow-zero, bit_and-pow_ne_zero,
}
use native.Mathlib.Decide.{dec_lt}
use aurora_os_live.Seccomp.{
  Filter, Task, mask_word, check_bit, check_filter, seccomp_check, seccomp_set_filter,
}

-- The four words hold 64 bits each.
pub record IsFilter (f : Filter) : Type 0 where
  pub low0 : f.word0 < 2 ^ 64
  pub low1 : f.word1 < 2 ^ 64
  pub low2 : f.word2 < 2 ^ 64
  pub low3 : f.word3 < 2 ^ 64

-- The bitmap as one number of 256 bits.
abbrev pub bitmap : Filter → ℕ
bitmap f = f.word0 + 2 ^ 64 * (f.word1 + 2 ^ 64 * (f.word2 + 2 ^ 64 * f.word3))

bitmap_split :
    (x y n : ℕ)
    → x < 2 ^ 64
    → bit_test (x + 2 ^ 64 * y) n ≡ (if ltb n 64 then bit_test x n else bit_test y (n - 64))
bitmap_split x y n h = elim (dec_lt n 64) [
  | yes low ↦ ground (arith, bit_test_low 64 x y n h low)
  | no high ↦
      let e : n ≡ 64 + (n - 64) = omega arith in
      ap (bit_test (x + 2 ^ 64 * y)) e ∙ bit_test_high 64 x y (n - 64) h ∙ ground arith
]

bitmap_bit :
    (f : Filter) (n : ℕ)
    → IsFilter f
    → bit_test (bitmap f) n ≡ (
        if ltb n 64
        then bit_test f.word0 n
        else if ltb (n - 64) 64
        then bit_test f.word1 (n - 64)
        else if ltb (n - 64 - 64) 64
        then bit_test f.word2 (n - 64 - 64)
        else bit_test f.word3 (n - 64 - 64 - 64))
bitmap_bit f n v = ground (
  arith,
  bitmap_split f.word0 (f.word1 + 2 ^ 64 * (f.word2 + 2 ^ 64 * f.word3)) n,
  bitmap_split f.word1 (f.word2 + 2 ^ 64 * f.word3) (n - 64),
  bitmap_split f.word2 f.word3 (n - 64 - 64),
)

-- Where the code looks for bit `n`.
mask_word-bit :
    (f : Filter) (n : ℕ)
    → IsFilter f
    → n < 256
    → bit_test (mask_word f (n / 64)) (n % 64) ≡ bit_test (bitmap f) n
mask_word-bit f n v h = elim (dec_lt n 64) [
  | yes a ↦
      ground (arith, bitmap_bit f n v, ap (bit_test f.word0) {x = n % 64} {y = n} (omega arith))
  | no a ↦ elim (dec_lt n 128) [
    | yes b ↦
        ground
          (arith, bitmap_bit f n v, ap (bit_test f.word1) {x = n % 64} {y = n - 64} (omega arith))
    | no b ↦ elim (dec_lt n 192) [
      | yes c ↦ ground (
        arith,
        bitmap_bit f n v,
        ap (bit_test f.word2) {x = n % 64} {y = n - 64 - 64} (omega arith),
      )
      | no c ↦ ground (
        arith,
        bitmap_bit f n v,
        ap (bit_test f.word3) {x = n % 64} {y = n - 64 - 64 - 64} (omega arith),
      )
    ]
  ]
]

-- What the filter means for a system call number.
abbrev pub permits : Filter → ℤ → Bool
permits f (negsuc n) = false
permits f (pos n) = ltb n 256 && bit_test (bitmap f) n == 1

abbrev pub verdict : Bool → ℤ
verdict b = if b then pos 0 else minus_one

check_bit-verdict :
    (f : Filter) (n : ℕ)
    → IsFilter f
    → n < 256
    → check_bit f n ≡ verdict (bit_test (bitmap f) n == 1)
unfolding check_bit
check_bit-verdict f n v h = ground (
  arith,
  mask_word-bit f n v h,
  bit_test-le (bitmap f) n,
  bit_and-pow-zero (mask_word f (n / 64)) (n % 64),
  bit_and-pow_ne_zero (mask_word f (n / 64)) (n % 64),
)

check_filter-verdict : (f : Filter) (n : ℤ) → IsFilter f → check_filter f n ≡ verdict (permits f n)
unfolding check_filter
check_filter-verdict f (negsuc n) v = refl
check_filter-verdict f (pos n) v = ground (arith, check_bit-verdict f n v)

-- After a filter is installed, `seccomp_check` lets a call through exactly when its number is in
-- 0..255 and its bit of the 256-bit map is set; after the filter is removed it lets every call
-- through; and where the filter cannot be allocated, the task keeps the one that it had.
pub seccomp_check-set_filter :
    (f : Filter) (t : Task) (n : ℤ) (allocated : Bool)
    → IsFilter f
    → (seccomp_check (seccomp_set_filter true (some f) (some t)).0 n ≡ verdict (permits f n))
      × (seccomp_check (seccomp_set_filter allocated none (some t)).0 n ≡ pos 0)
      × (seccomp_set_filter false (some f) (some t) ≡ (some t, minus_one))
unfolding seccomp_set_filter seccomp_check
seccomp_check-set_filter f t n allocated v = (check_filter-verdict f n v, refl, refl)
