-- ===== src/Capability/Rights.antt =====
-- The rights of an entry as a set of bits, and the two masks with which kernel/capability.c compares
-- such sets: `(have & required) == required` and `(wanted & ~have) == 0`.
use Prim.Native.Nat.{bit_and}
use aurora_os_live.Base.{ℕ, ◌^◌, ◌≤◌, ◌<◌, ◌≡◌, ◌≢◌, ap, ◌↔◌, arith}
use native.Mathlib.Decide.{dec_lt}
use aurora_os_live.Base.Int.{ℤ, pos}
use aurora_os_live.Base.Bits.{
  bit_test, bit_test-le, bit_test-bit_and, bit_not, bit_test-bit_not, bit_test_beyond,
  bit_test-zero, bit_and-lt, eq_of_bits, eq-zero_of_bits,
}
use aurora_os_live.Capability.{Kernel, cap_get, fd_check_cap}

-- The first word's bits are all set in the second.
abbrev pub Narrows : ℕ → ℕ → Type 0
Narrows wanted have = (k : ℕ) → bit_test wanted k ≤ bit_test have k

pub Narrows-refl : (x : ℕ) → Narrows x x
Narrows-refl x k = omega arith

pub Narrows-trans : (x y z : ℕ) → Narrows x y → Narrows y z → Narrows x z
Narrows-trans x y z p q k = omega (arith, p k, q k)

pub masked_Narrows : (have required : ℕ) → bit_and have required ≡ required → Narrows required have
masked_Narrows have required e k =
    omega (arith, bit_test-bit_and have required k, ap (λ x. bit_test x k) e)

pub Narrows-masked :
    (have required : ℕ)
    → have < 2 ^ 32
    → required < 2 ^ 32
    → Narrows required have
    → bit_and have required ≡ required
Narrows-masked have required h r n =
    eq_of_bits 32 (bit_and have required) required (bit_and-lt 32 have required h) r
      (λ i k. omega (arith, bit_test-bit_and have required i, n i))

pub outside_Narrows :
    (have wanted : ℕ)
    → have < 2 ^ 32
    → wanted < 2 ^ 32
    → bit_and wanted (bit_not 32 have) ≡ 0
    → Narrows wanted have
outside_Narrows have wanted h w e k = elim (dec_lt k 32) [
  | yes below ↦ omega (
    arith,
    bit_test-bit_and wanted (bit_not 32 have) k,
    bit_test-bit_not 32 have k h below,
    ap (λ x. bit_test x k) e,
    bit_test-zero k,
    bit_test-le wanted k,
    bit_test-le have k,
  )
  | no above ↦ omega (arith, bit_test_beyond 32 wanted k w (omega arith))
]

pub Narrows-outside :
    (have wanted : ℕ)
    → have < 2 ^ 32
    → wanted < 2 ^ 32
    → Narrows wanted have
    → bit_and wanted (bit_not 32 have) ≡ 0
Narrows-outside have wanted h w n =
    eq-zero_of_bits 32 (bit_and wanted (bit_not 32 have)) (bit_and-lt 32 wanted _ w) (λ i k. omega (
      arith,
      bit_test-bit_and wanted (bit_not 32 have) i,
      bit_test-bit_not 32 have i h k,
      bit_test-le wanted i,
      n i,
    ))

-- fd_check_cap lets a call through exactly when the descriptor has an entry and every right that is
-- required is among the entry's rights. Both are 32-bit words.
pub fd_check_cap-Narrows :
    (current : ℕ) (fd : ℤ) (required : ℕ) (s : Kernel)
    → (s.entries (cap_get s current fd)).caps < 2 ^ 32
    → required < 2 ^ 32
    → (fd_check_cap current fd required s ≡ pos 0)
      ↔ ((cap_get s current fd ≢ 0) × Narrows required (s.entries (cap_get s current fd)).caps)
unfolding fd_check_cap
fd_check_cap-Narrows current fd required s h r =
    let have = (s.entries (cap_get s current fd)).caps in
    (
      λ e. (ground arith, masked_Narrows have required (ground arith)),
      λ n. ground (arith, Narrows-masked have required h r n.1),
    )
