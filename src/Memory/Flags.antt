-- ===== src/Memory/Flags.antt =====
-- PAGE_FLAG_FREE set and cleared (kernel/mem.h).
use Prim.Native.Nat.{bit_and, bit_or}
use aurora_os_live.Base.{
  ℕ, zero, suc, ◌^◌, ◌≤◌, ◌≡◌, refl, ◌∙◌, ◌⊎◌, inl, inr, true, false, ◌==◌, arith,
}
use aurora_os_live.Base.Bits.{
  bit_test, bit_test-le, bit_test-bit_and, bit_test-bit_or, bit_test-bit_not, bit_test-pow, bit_not,
  bit_and-pow-zero, bit_and-pow_ne_zero,
}
use aurora_os_live.Memory.{has_flag, page_flag_free, page_flag_reserved}

bit_of_flag : (i : ℕ) (f : ℕ) → has_flag f (2 ^ i) ≡ (bit_test f i == 1)
bit_of_flag i f = elim (zero_or_one (bit_test f i) (bit_test-le f i)) [
  | inl e ↦ ground (arith, bit_and-pow-zero f i e)
  | inr e ↦ ground (arith, bit_and-pow_ne_zero f i e)
]
  where
    zero_or_one : (x : ℕ) → x ≤ 1 → (x ≡ 0) ⊎ (x ≡ 1)
    zero_or_one zero h = inl refl
    zero_or_one (suc n) h = inr (omega arith)

pub has_flag-clear :
    (f : ℕ) → has_flag (bit_and f (bit_not 32 page_flag_free)) page_flag_free ≡ false
has_flag-clear f =
    bit_of_flag 0 (bit_and f (bit_not 32 1))
    ∙ ground (
      arith,
      bit_test-bit_and f (bit_not 32 1) 0,
      bit_test-bit_not 32 1 0 (omega arith) (omega arith),
      bit_test-pow 0 0,
    )

pub has_flag-clear_other :
    (f : ℕ)
    → has_flag (bit_and f (bit_not 32 page_flag_free)) page_flag_reserved
      ≡ has_flag f page_flag_reserved
has_flag-clear_other f =
    bit_of_flag 1 (bit_and f (bit_not 32 1))
    ∙ ground (
      arith,
      bit_test-bit_and f (bit_not 32 1) 1,
      bit_test-bit_not 32 1 1 (omega arith) (omega arith),
      bit_test-pow 0 1,
      bit_of_flag 1 f,
      bit_test-le f 1,
    )

pub has_flag-set : (f : ℕ) → has_flag (bit_or f page_flag_free) page_flag_free ≡ true
has_flag-set f =
    bit_of_flag 0 (bit_or f 1)
    ∙ ground (arith, bit_test-bit_or f 1 0, bit_test-pow 0 0, bit_test-le f 0)

pub has_flag-set_other :
    (f : ℕ) → has_flag (bit_or f page_flag_free) page_flag_reserved ≡ has_flag f page_flag_reserved
has_flag-set_other f =
    bit_of_flag 1 (bit_or f 1)
    ∙ ground (arith, bit_test-bit_or f 1 1, bit_test-pow 0 1, bit_of_flag 1 f, bit_test-le f 1)
